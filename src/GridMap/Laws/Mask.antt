-- ===== src/GridMap/Laws/Mask.antt =====
-- grid_map.cpp: the addresses that updateSlidingMap collects in clear_mask and clear_addrs.
use tron2_navigation_ros.Base.{
  ℕ, ◌≡◌, refl, sym, ap, subst, ◌⊎◌, inl, inr, Bool, true, false, List, [], ◌∷◌, ◌++◌, ◌==◌,
  if◌then◌else◌, arith, Bool-cases, Mem, here, there, mem-append_left, mem-append_right,
}
use tron2_navigation_ros.Vector.{Vector3i}
use tron2_navigation_ros.GridMap.State.{GridMap, write}
use tron2_navigation_ros.GridMap.Slide.{
  Clear, add_clear_addr, add_clear_addrs, leaving_x, leaving_y, leaving_z, cells_to_clear,
}

append-mem : {A : Type 0} (a : A) (xs ys : List A) → Mem a (xs ++ ys) → Mem a xs ⊎ Mem a ys
append-mem a [] ys h = inr h
append-mem a (x ∷ xs) ys (here e) = inl (here e)
append-mem a (x ∷ xs) ys (there h) = elim (append-mem a xs ys h) [
  | inl g ↦ inl (there g)
  | inr g ↦ inr g
]

-- Every masked address is in the list.
abbrev IsListed : Clear → Type 0
IsListed c = (x : ℕ) → c.clear_mask x ≡ true → Mem x c.clear_addrs

added :
    (c : Clear) (addr : ℕ)
    → c.clear_mask addr ≡ false
    → add_clear_addr c addr ≡ record {
      clear_mask = write c.clear_mask addr true;
      clear_addrs = c.clear_addrs ++ (addr ∷ []);
    }
unfolding add_clear_addr
added c addr e =
    ap
      (λ b. if b then c else record {
        clear_mask = write c.clear_mask addr true;
        clear_addrs = c.clear_addrs ++ (addr ∷ []);
      })
      e

present : (c : Clear) (addr : ℕ) → c.clear_mask addr ≡ true → add_clear_addr c addr ≡ c
unfolding add_clear_addr
present c addr e =
    ap
      (λ b. if b then c else record {
        clear_mask = write c.clear_mask addr true;
        clear_addrs = c.clear_addrs ++ (addr ∷ []);
      })
      e

write_true : (b : Bool) (v : Bool) → (if b then true else v) ≡ true → (b ≡ true) ⊎ (v ≡ true)
write_true true v e = inl refl
write_true false v e = inr e

add_clear_addr-IsListed : (c : Clear) (addr : ℕ) → IsListed c → IsListed (add_clear_addr c addr)
add_clear_addr-IsListed c addr w = elim (Bool-cases (c.clear_mask addr)) [
  | inl e ↦ subst IsListed (sym (present c addr e)) w
  | inr e ↦ subst IsListed (sym (added c addr e)) (λ x h.
      elim (write_true (x == addr) (c.clear_mask x) h) [
        | inl q ↦
            let z : x ≡ addr = ground arith in mem-append_right x c.clear_addrs (addr ∷ []) (here z)
        | inr q ↦ mem-append_left x c.clear_addrs (addr ∷ []) (w x q)
      ])
]

mem-add_clear_addr_before :
    (c : Clear) (addr x : ℕ) → Mem x c.clear_addrs → Mem x (add_clear_addr c addr).clear_addrs
mem-add_clear_addr_before c addr x h = elim (Bool-cases (c.clear_mask addr)) [
  | inl e ↦ subst (λ k. Mem x k.clear_addrs) (sym (present c addr e)) h
  | inr e ↦
      subst (λ k. Mem x k.clear_addrs) (sym (added c addr e))
        (mem-append_left x c.clear_addrs (addr ∷ []) h)
]

mem-add_clear_addr :
    (c : Clear) (addr : ℕ) → IsListed c → Mem addr (add_clear_addr c addr).clear_addrs
mem-add_clear_addr c addr w = elim (Bool-cases (c.clear_mask addr)) [
  | inl e ↦ subst (λ k. Mem addr k.clear_addrs) (sym (present c addr e)) (w addr e)
  | inr e ↦
      subst (λ k. Mem addr k.clear_addrs) (sym (added c addr e))
        (mem-append_right addr c.clear_addrs (addr ∷ []) (here refl))
]

add_clear_addr-mem :
    (c : Clear) (addr x : ℕ)
    → Mem x (add_clear_addr c addr).clear_addrs
    → Mem x c.clear_addrs ⊎ (x ≡ addr)
add_clear_addr-mem c addr x h = elim (Bool-cases (c.clear_mask addr)) [
  | inl e ↦ inl (subst (λ k. Mem x k.clear_addrs) (present c addr e) h)
  | inr e ↦
      elim (append-mem x c.clear_addrs (addr ∷ [])
        (subst (λ k. Mem x k.clear_addrs) (added c addr e) h)) [
          | inl g ↦ inl g
          | inr g ↦ inr (only x addr g)
        ]
]
  where
    only : (x addr : ℕ) → Mem x (addr ∷ []) → x ≡ addr
    only x addr (here e) = e
    only x addr (there h) = elim h [ ]

add_clear_addrs-IsListed : (c : Clear) (l : List ℕ) → IsListed c → IsListed (add_clear_addrs c l)
unfolding add_clear_addrs
add_clear_addrs-IsListed c [] w = w
add_clear_addrs-IsListed c (a ∷ l) w =
    add_clear_addrs-IsListed (add_clear_addr c a) l (add_clear_addr-IsListed c a w)

mem-add_clear_addrs_before :
    (c : Clear) (l : List ℕ) (x : ℕ) → Mem x c.clear_addrs → Mem x (add_clear_addrs c l).clear_addrs
unfolding add_clear_addrs
mem-add_clear_addrs_before c [] x h = h
mem-add_clear_addrs_before c (a ∷ l) x h =
    mem-add_clear_addrs_before (add_clear_addr c a) l x (mem-add_clear_addr_before c a x h)

mem-add_clear_addrs :
    (c : Clear) (l : List ℕ) (x : ℕ)
    → IsListed c
    → Mem x l
    → Mem x (add_clear_addrs c l).clear_addrs
unfolding add_clear_addrs
mem-add_clear_addrs c [] x w h = elim h [ ]
mem-add_clear_addrs c (a ∷ l) x w (here e) =
    mem-add_clear_addrs_before (add_clear_addr c a) l x
      (subst (λ y. Mem y (add_clear_addr c a).clear_addrs) (sym e) (mem-add_clear_addr c a w))
mem-add_clear_addrs c (a ∷ l) x w (there h) =
    mem-add_clear_addrs (add_clear_addr c a) l x (add_clear_addr-IsListed c a w) h

add_clear_addrs-mem :
    (c : Clear) (l : List ℕ) (x : ℕ)
    → Mem x (add_clear_addrs c l).clear_addrs
    → Mem x c.clear_addrs ⊎ Mem x l
unfolding add_clear_addrs
add_clear_addrs-mem c [] x h = inl h
add_clear_addrs-mem c (a ∷ l) x h = elim (add_clear_addrs-mem (add_clear_addr c a) l x h) [
  | inl g ↦ elim (add_clear_addr-mem c a x g) [ inl k ↦ inl k | inr k ↦ inr (here k) ]
  | inr g ↦ inr (there g)
]

abbrev none_yet : Clear
none_yet = record { clear_mask = λ addr. false; clear_addrs = [] }

none_yet-IsListed : IsListed none_yet
none_yet-IsListed x h = let z : ⊥ = ground arith in elim z [ ]

module _ {W : Type 0} (m : GridMap W) (s : Vector3i) (x : ℕ) where
  -- The addresses are those of the cleared layers of the three directions.
  pub mem-cells_to_clear :
      Mem x (leaving_x m s.x) ⊎ Mem x (leaving_y m s.y) ⊎ Mem x (leaving_z m s.z)
      → Mem x (cells_to_clear m s).clear_addrs
  unfolding cells_to_clear
  mem-cells_to_clear h =
      let w = add_clear_addrs-IsListed none_yet (leaving_x m s.x) none_yet-IsListed in
      let c = add_clear_addrs none_yet (leaving_x m s.x) in
      let e = add_clear_addrs c (leaving_y m s.y) in
      let v = add_clear_addrs-IsListed c (leaving_y m s.y) w in
      elim h [
        | inl k ↦ mem-add_clear_addrs_before e (leaving_z m s.z) x (
            mem-add_clear_addrs_before c (leaving_y m s.y) x
              (mem-add_clear_addrs none_yet (leaving_x m s.x) x none_yet-IsListed k))
        | inr k ↦ elim k [
          | inl g ↦
              mem-add_clear_addrs_before e (leaving_z m s.z) x
                (mem-add_clear_addrs c (leaving_y m s.y) x w g)
          | inr g ↦ mem-add_clear_addrs e (leaving_z m s.z) x v g
        ]
      ]

  pub cells_to_clear-mem :
      Mem x (cells_to_clear m s).clear_addrs
      → Mem x (leaving_x m s.x) ⊎ Mem x (leaving_y m s.y) ⊎ Mem x (leaving_z m s.z)
  unfolding cells_to_clear
  cells_to_clear-mem h =
      let c = add_clear_addrs none_yet (leaving_x m s.x) in
      let e = add_clear_addrs c (leaving_y m s.y) in
      elim (add_clear_addrs-mem e (leaving_z m s.z) x h) [
        | inl k ↦ elim (add_clear_addrs-mem c (leaving_y m s.y) x k) [
          | inl g ↦ elim (add_clear_addrs-mem none_yet (leaving_x m s.x) x g) [
            | inl q ↦ elim q [ ]
            | inr q ↦ inl q
          ]
          | inr g ↦ inr (inl g)
        ]
        | inr k ↦ inr (inr k)
      ]
