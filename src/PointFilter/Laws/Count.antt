-- ===== src/PointFilter/Laws/Count.antt =====
-- rslidar_point_filter.hpp: the buckets of the grid hold each point's index once, in its cell.
use tron2_navigation_ros.Base.{
  ℕ, suc, ◌+◌, ◌≡◌, refl, sym, ap, subst, ◌∙◌, inl, inr, Bool, true, false, ◌&&◌, List, [], ◌∷◌,
  ◌++◌, ℤ, if◌then◌else◌, arith, Bool-cases,
}
use tron2_navigation_ros.PointFilter.State.{GridKey}
use tron2_navigation_ros.PointFilter.Grid.{same_ℤ, same_key, Grid, insert, find}

abbrev pub bit : Bool → ℕ
bit true = 1
bit false = 0

-- How many elements pass a test.
abbrev pub count {ℓ} : {A : Type ℓ} → (A → Bool) → List A → ℕ
count f [] = 0
count f (x ∷ xs) = bit (f x) + count f xs

-- How many of the indices from `i` on belong to cells that pass `cell`, and pass `near`.
abbrev pub count_from : (GridKey → Bool) → (ℕ → Bool) → List GridKey → ℕ → ℕ
count_from cell near [] i = 0
count_from cell near (key ∷ keys) i = bit (cell key && near i) + count_from cell near keys (suc i)

pub count-append :
    {A : Type 0} (f : A → Bool) (xs ys : List A) → count f (xs ++ ys) ≡ count f xs + count f ys
count-append f [] ys = omega arith
count-append f (x ∷ xs) ys = omega (arith, count-append f xs ys)

same_ℤ_eq : (a b : ℤ) → same_ℤ a b ≡ true → a ≡ b
same_ℤ_eq a b h = ground arith

same_ℤ_refl : (a : ℤ) → same_ℤ a a ≡ true
same_ℤ_refl a = ground arith

and3 : (a b c : Bool) → a && b && c ≡ true → (a ≡ true) × (b ≡ true) × (c ≡ true)
and3 a b c h = ground arith

keys_eq : {a b : GridKey} → a.x ≡ b.x → a.y ≡ b.y → a.z ≡ b.z → a ≡ b
keys_eq {a} {b} p q r = λ i. record { x = p i; y = q i; z = r i }

pub same_key_eq : (a b : GridKey) → same_key a b ≡ true → a ≡ b
unfolding same_key
same_key_eq a b h =
    let (p, q, r) = and3 _ _ _ h in
    keys_eq (same_ℤ_eq a.x b.x p) (same_ℤ_eq a.y b.y q) (same_ℤ_eq a.z b.z r)

same_key_refl : (a : GridKey) → same_key a a ≡ true
unfolding same_key
same_key_refl a = grind (arith, same_ℤ_refl)

same_key-left : (a b key : GridKey) → same_key a b ≡ true → same_key a key ≡ same_key b key
same_key-left a b key h = ap (λ k. same_key k key) (same_key_eq a b h)

clash : (a b key : GridKey) → same_key a b ≡ false → a ≡ key → b ≡ key → same_key b key ≡ false
clash a b key h p q =
    let e = subst (λ k. same_key k b ≡ true) (q ∙ sym p) (same_key_refl b) in ground arith

same_key-other :
    (a b key : GridKey) → same_key a b ≡ false → same_key a key ≡ true → same_key b key ≡ false
same_key-other a b key h k = elim (Bool-cases (same_key b key)) [
  | inl e ↦ clash a b key h (same_key_eq a key k) (same_key_eq b key e)
  | inr e ↦ e
]

module _ (near : ℕ → Bool) (key : GridKey) where
  find_if :
      (c : Bool) (g h : Grid)
      → count near (find key (if c then g else h))
        ≡ (if c then count near (find key g) else count near (find key h))
  find_if true g h = refl
  find_if false g h = refl

  count_if :
      (c : Bool) (g h : List ℕ)
      → count near (if c then g else h) ≡ (if c then count near g else count near h)
  count_if true g h = refl
  count_if false g h = refl

  pub insert-count :
      (k : GridKey) (i : ℕ) (g : Grid)
      → count near (find key (insert k i g))
        ≡ bit (same_key k key && near i) + count near (find key g)
  unfolding insert find
  insert-count k i [] = let c = count_if (same_key k key) (i ∷ []) [] in ground arith
  insert-count k i (b ∷ bs) =
      let h = insert-count k i bs in
      let e = count-append near b.1 (i ∷ []) in
      let f = find_if (same_key b.0 k) ((b.0, b.1 ++ (i ∷ [])) ∷ bs) (b ∷ insert k i bs) in
      let c1 = count_if (same_key b.0 key) (b.1 ++ (i ∷ [])) (find key bs) in
      let c2 = count_if (same_key b.0 key) b.1 (find key (insert k i bs)) in
      let c3 = count_if (same_key b.0 key) b.1 (find key bs) in
      elim (Bool-cases (same_key b.0 k)) [
        | inl q ↦ let l = same_key-left b.0 k key q in ground arith
        | inr q ↦ let o = same_key-other b.0 k key q in ground arith
      ]
