-- ===== src/PointFilter/Laws/Search.antt =====
-- rslidar_point_filter.hpp: the search of the 27 cells around a point counts its neighbours.
use tron2_navigation_ros.Base.{
  ℕ, suc, ◌+◌, ◌*◌, ◌<◌, ◌≡◌, refl, sym, subst, inl, inr, Bool, true, false, ◌&&◌, List, [], ◌∷◌,
  leb, if◌then◌else◌, arith, Bool-cases,
}
use tron2_navigation_ros.PointFilter.State.{GridKey}
use tron2_navigation_ros.PointFilter.Grid.{
  same_key, Grid, insert, find, build_grid, scan_bucket, scan_cells,
}
use tron2_navigation_ros.PointFilter.Laws.Count.{bit, count, count_from, insert-count}

bit_product : (a b : Bool) (n : ℕ) → bit a * (bit b + n) ≡ bit (b && a) + bit a * n
bit_product true b n = ground arith
bit_product false b n = ground arith

-- What a loop says that counts up to `required`: whether it got there, and the count if not.
abbrev Counts : ℕ → ℕ → ℕ × Bool → Type 0
Counts required total r = (r.1 ≡ leb required total) × (r.1 ≡ false → r.0 ≡ total)

bucket_step :
    (b : Bool) (required n c : ℕ) (rest : ℕ → ℕ × Bool)
    → n < required
    → ((m : ℕ) → m < required → Counts required (m + c) (rest m))
    → let m : ℕ = if b then suc n else n in
      Counts required (n + (bit b + c)) (if b && leb required m then (m, true) else rest m)
bucket_step false required n c rest h f =
    subst (λ k. Counts required k (rest n)) (omega arith) (f n h)
bucket_step true required n c rest h f = elim (Bool-cases (leb required (suc n))) [
  | inl e ↦ ground arith
  | inr e ↦ let r = f (suc n) (ground arith) in ground arith
]

cells_step :
    (required n a c : ℕ) (found : ℕ × Bool) (rest : ℕ → Bool)
    → n < required
    → Counts required (n + a) found
    → ((m : ℕ) → m < required → rest m ≡ leb required (m + c))
    → (if found.1 then true else rest found.0) ≡ leb required (n + (a + c))
cells_step required n a c (m, true) rest h k f = ground arith
cells_step required n a c (m, false) rest h k f =
    let e : m ≡ n + a = k.1 refl in let g = f m (ground arith) in ground arith

module _ (near : ℕ → Bool) where
  build_grid-count :
      (keys : List GridKey) (i : ℕ) (g : Grid) (key : GridKey)
      → count near (find key (build_grid keys i g))
        ≡ count_from (λ k. same_key k key) near keys i + count near (find key g)
  unfolding build_grid
  build_grid-count [] i g key = omega arith
  build_grid-count (k ∷ ks) i g key =
      omega (arith, build_grid-count ks (suc i) (insert k i g) key, insert-count near key k i g)

  -- The neighbours in a list of cells.
  abbrev pub count_cells : Grid → List GridKey → ℕ
  count_cells g [] = 0
  count_cells g (c ∷ cs) = count near (find c g) + count_cells g cs

  -- Over all the points, by the number of cells of the list that each is in.
  abbrev pub weigh : List GridKey → List GridKey → ℕ → ℕ
  weigh cells [] i = 0
  weigh cells (k ∷ ks) i = bit (near i) * count (same_key k) cells + weigh cells ks (suc i)

  weigh-nil : (ks : List GridKey) (i : ℕ) → weigh [] ks i ≡ 0
  weigh-nil [] i = refl
  weigh-nil (k ∷ ks) i = grind (arith, weigh-nil ks (suc i))

  weigh-cons :
      (c : GridKey) (cs ks : List GridKey) (i : ℕ)
      → weigh (c ∷ cs) ks i ≡ count_from (λ k. same_key k c) near ks i + weigh cs ks i
  weigh-cons c cs [] i = refl
  weigh-cons c cs (k ∷ ks) i =
      let h = weigh-cons c cs ks (suc i) in
      let e = bit_product (near i) (same_key k c) (count (same_key k) cs) in omega arith

  pub count_cells-weigh :
      (cells keys : List GridKey) (i : ℕ)
      → count_cells (build_grid keys i []) cells ≡ weigh cells keys i
  unfolding find
  count_cells-weigh [] keys i = sym (weigh-nil keys i)
  count_cells-weigh (c ∷ cs) keys i =
      let a = count_cells-weigh cs keys i in
      let b = build_grid-count keys i [] c in
      let e = weigh-cons c cs keys i in omega (arith, a, b, e)

  scan_bucket-count :
      (required : ℕ) (is : List ℕ) (n : ℕ)
      → n < required
      → Counts required (n + count near is) (scan_bucket near required is n)
  unfolding scan_bucket
  scan_bucket-count required [] n h = ground arith
  scan_bucket-count required (i ∷ is) n h =
      bucket_step (near i) required n (count near is) (scan_bucket near required is) h
        (λ m. scan_bucket-count required is m)

  pub scan_cells-count :
      (required : ℕ) (g : Grid) (cells : List GridKey) (n : ℕ)
      → n < required
      → scan_cells near required g cells n ≡ leb required (n + count_cells g cells)
  unfolding scan_cells
  scan_cells-count required g [] n h = ground arith
  scan_cells-count required g (c ∷ cs) n h =
      cells_step required n (count near (find c g)) (count_cells g cs)
        (scan_bucket near required (find c g) n) (scan_cells near required g cs) h
        (scan_bucket-count required (find c g) n h) (λ m. scan_cells-count required g cs m)
