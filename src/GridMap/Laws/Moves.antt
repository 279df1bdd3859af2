-- ===== src/GridMap/Laws/Moves.antt =====
-- grid_map.cpp: the cleared layers of one direction, by the bounds of the window before and after.
use tron2_navigation_ros.Base.{
  ℕ, suc, ◌+◌, ◌-◌, ◌≤◌, ◌<◌, ◌≡◌, refl, sym, ap, subst, ◌∙◌, ◌⊎◌, inl, inr, true, false, ℤ, pos,
  negsuc, pos_part, neg_part, ◌+ℤ◌, ◌-ℤ◌, ltb_ℤ, ltb, arith, Mem,
}
use tron2_navigation_ros.GridMap.Address.{get_local_index}
use tron2_navigation_ros.GridMap.Slide.{leaving}
use tron2_navigation_ros.GridMap.Laws.Roundtrip.{inside}
use tron2_navigation_ros.GridMap.Laws.Leaving.{
  period, leaving-mem, mem-leaving_pos, mem-leaving_negsuc,
}

lower_test : (min shift : ℤ) (k : ℕ) → ltb_ℤ (min +ℤ pos k) (min +ℤ shift) ≡ ltb k (pos_part shift)
unfolding ◌+ℤ◌
lower_test (pos a) (pos s) k = ground arith
lower_test (pos a) (negsuc s) k = ground arith
lower_test (negsuc a) (pos s) k = ground arith
lower_test (negsuc a) (negsuc s) k = ground arith

upper_test :
    (min shift : ℤ) (n k : ℕ)
    → ltb_ℤ (min +ℤ shift +ℤ pos n -ℤ pos 1) (min +ℤ pos k)
      ≡ ltb (pos_part shift + n) (suc (k + neg_part shift))
unfolding ◌+ℤ◌ ◌-ℤ◌
upper_test (pos a) (pos s) n k = ground arith
upper_test (pos a) (negsuc s) n k = ground arith
upper_test (negsuc a) (pos s) n k = ground arith
upper_test (negsuc a) (negsuc s) n k = ground arith

around_up :
    (min : ℤ) (s k n : ℕ) → n ≤ s + k → min +ℤ pos s +ℤ pos k ≡ min +ℤ pos (s + k - n) +ℤ pos n
unfolding ◌+ℤ◌
around_up (pos a) s k n h = ground arith
around_up (negsuc a) s k n h = ground arith

around_down :
    (min : ℤ) (t k n : ℕ)
    → suc t ≤ n
    → min +ℤ negsuc t +ℤ pos k +ℤ pos n ≡ min +ℤ pos (n + k - suc t)
unfolding ◌+ℤ◌
around_down (pos a) t k n h = ground arith
around_down (negsuc a) t k n h = ground arith

mem-leaving :
    (min max shift : ℤ) (n : ℕ)
    → max ≡ min +ℤ pos n -ℤ pos 1
    → (k : ℕ) → k < n
    → (k < pos_part shift) ⊎ (n ≤ k + neg_part shift) × (0 < neg_part shift)
    → Mem (get_local_index (min +ℤ pos k) n) (leaving min max n shift)
mem-leaving min max (pos s) n b k h (inl g) = mem-leaving_pos min max n b s k g
mem-leaving min max (pos s) n b k h (inr g) = let z : ⊥ = omega (arith, g.1) in elim z [ ]
mem-leaving min max (negsuc t) n b k h (inl g) = let z : ⊥ = omega (arith, g) in elim z [ ]
mem-leaving min max (negsuc t) n b k h (inr g) = mem-leaving_negsuc min max n b t k h g.0

-- The position `k` of the moved window, where it is outside the old one.
old_lower : (min : ℤ) (s k : ℕ) → ltb_ℤ (min +ℤ pos s +ℤ pos k) min ≡ false
unfolding ◌+ℤ◌
old_lower (pos a) s k = ground arith
old_lower (negsuc a) s k = ground arith

old_upper :
    (min : ℤ) (n s k : ℕ)
    → ltb_ℤ (min +ℤ pos n -ℤ pos 1) (min +ℤ pos s +ℤ pos k) ≡ ltb n (suc (s + k))
unfolding ◌+ℤ◌ ◌-ℤ◌
old_upper (pos a) n s k = ground arith
old_upper (negsuc a) n s k = ground arith

old_lower_down : (min : ℤ) (t k : ℕ) → ltb_ℤ (min +ℤ negsuc t +ℤ pos k) min ≡ ltb k (suc t)
unfolding ◌+ℤ◌
old_lower_down (pos a) t k = ground arith
old_lower_down (negsuc a) t k = ground arith

old_upper_down :
    (min : ℤ) (n t k : ℕ) → k < n → ltb_ℤ (min +ℤ pos n -ℤ pos 1) (min +ℤ negsuc t +ℤ pos k) ≡ false
unfolding ◌+ℤ◌ ◌-ℤ◌
old_upper_down (pos a) n t k h = ground arith
old_upper_down (negsuc a) n t k h = ground arith

mem-leaving_entered :
    (min max shift : ℤ) (n : ℕ)
    → max ≡ min +ℤ pos n -ℤ pos 1
    → pos_part shift + neg_part shift < n
    → (k : ℕ) → k < n
    → (ltb_ℤ (min +ℤ shift +ℤ pos k) min ≡ true) ⊎ (ltb_ℤ max (min +ℤ shift +ℤ pos k) ≡ true)
    → Mem (get_local_index (min +ℤ shift +ℤ pos k) n) (leaving min max n shift)
mem-leaving_entered min max (pos s) n b near k h c =
    let l = old_lower min s k in
    let u = old_upper min n s k in
    let q = ap (λ x. ltb_ℤ x (min +ℤ pos s +ℤ pos k)) b in
    let g : n ≤ s + k = ground arith in
    let e =
      ap (λ x. get_local_index x n) (around_up min s k n g)
      ∙ period (min +ℤ pos (s + k - n)) n (omega arith) in
    subst (λ x. Mem x (leaving min max n (pos s))) (sym e)
      (mem-leaving_pos min max n b s (s + k - n) (omega arith))
mem-leaving_entered min max (negsuc t) n b near k h c =
    let l = old_lower_down min t k in
    let u = old_upper_down min n t k h in
    let q = ap (λ x. ltb_ℤ x (min +ℤ negsuc t +ℤ pos k)) b in
    let g : k < suc t = ground arith in
    let e =
      sym (ap (λ x. get_local_index x n) (around_down min t k n (omega arith)))
      ∙ period (min +ℤ negsuc t +ℤ pos k) n (omega arith) in
    subst (λ x. Mem x (leaving min max n (negsuc t))) e
      (mem-leaving_negsuc min max n b t (n + k - suc t) (omega arith) (omega arith))

module _ (min max shift : ℤ) (n : ℕ) (bounds : max ≡ min +ℤ pos n -ℤ pos 1)
    (near : pos_part shift + neg_part shift < n) where
  -- The bounds after the move.
  abbrev new_min : ℤ
  new_min = min +ℤ shift

  abbrev new_max : ℤ
  new_max = min +ℤ shift +ℤ pos n -ℤ pos 1

  -- What is in both windows is in no cleared layer.
  pub leaving-stays :
      (i : ℤ)
      → ltb_ℤ i min ≡ false
      → ltb_ℤ max i ≡ false
      → ltb_ℤ i new_min ≡ false
      → ltb_ℤ new_max i ≡ false
      → Mem (get_local_index i n) (leaving min max n shift)
      → ⊥
  leaving-stays i a b c e m =
      let r = inside min max i n bounds a b in
      let l = lower_test min shift r.0 in
      let u = upper_test min shift n r.0 in
      let p = ap (λ x. ltb_ℤ x new_min) r.2 in
      let q = ap (λ x. ltb_ℤ new_max x) r.2 in
      let k =
        leaving-mem min max n bounds shift r.0 near r.1
          (subst (λ x. Mem (get_local_index x n) (leaving min max n shift)) r.2 m) in
      ground arith

  -- What leaves the window is in a cleared layer.
  pub mem-leaving_old :
      (i : ℤ)
      → ltb_ℤ i min ≡ false
      → ltb_ℤ max i ≡ false
      → (ltb_ℤ i new_min ≡ true) ⊎ (ltb_ℤ new_max i ≡ true)
      → Mem (get_local_index i n) (leaving min max n shift)
  mem-leaving_old i a b c =
      let r = inside min max i n bounds a b in
      let l = lower_test min shift r.0 in
      let u = upper_test min shift n r.0 in
      let p = ap (λ x. ltb_ℤ x new_min) r.2 in
      let q = ap (λ x. ltb_ℤ new_max x) r.2 in
      let k = r.1 in
      subst (λ x. Mem (get_local_index x n) (leaving min max n shift)) (sym r.2)
        (mem-leaving min max shift n bounds r.0 r.1 (ground arith))

  -- What enters it takes the place of such a layer.
  pub mem-leaving_new :
      (i : ℤ)
      → ltb_ℤ i new_min ≡ false
      → ltb_ℤ new_max i ≡ false
      → (ltb_ℤ i min ≡ true) ⊎ (ltb_ℤ max i ≡ true)
      → Mem (get_local_index i n) (leaving min max n shift)
  mem-leaving_new i a b c =
      let r = inside new_min new_max i n refl a b in
      subst (λ x. Mem (get_local_index x n) (leaving min max n shift)) (sym r.2)
        (mem-leaving_entered min max shift n bounds near r.0 r.1 (elim c [
          | inl e ↦ inl (sym (ap (λ x. ltb_ℤ x min) r.2) ∙ e)
          | inr e ↦ inr (sym (ap (λ x. ltb_ℤ max x) r.2) ∙ e)
        ]))

-- A move by the whole window, or further, leaves nothing in both windows.
pub apart :
    (min max shift : ℤ) (n : ℕ)
    → max ≡ min +ℤ pos n -ℤ pos 1
    → n ≤ pos_part shift + neg_part shift
    → (i : ℤ) → ltb_ℤ i min ≡ false
    → ltb_ℤ max i ≡ false
    → ltb_ℤ i (min +ℤ shift) ≡ false
    → ltb_ℤ (min +ℤ shift +ℤ pos n -ℤ pos 1) i ≡ false
    → ⊥
apart min max shift n bounds far i a b c e =
    let r = inside min max i n bounds a b in
    let l = lower_test min shift r.0 in
    let u = upper_test min shift n r.0 in
    let p = ap (λ x. ltb_ℤ x (min +ℤ shift)) r.2 in
    let q = ap (λ x. ltb_ℤ (min +ℤ shift +ℤ pos n -ℤ pos 1) x) r.2 in
    let k = r.1 in split shift r.0 k far (sym l ∙ sym p ∙ c) (sym u ∙ sym q ∙ e)
  where
    split :
        (shift : ℤ) (k : ℕ)
        → k < n
        → n ≤ pos_part shift + neg_part shift
        → ltb k (pos_part shift) ≡ false
        → ltb (pos_part shift + n) (suc (k + neg_part shift)) ≡ false
        → ⊥
    split (pos s) k h f c e = ground arith
    split (negsuc s) k h f c e = ground arith
