-- ===== src/GridMap/Laws/Leaving.antt =====
-- grid_map.cpp: in one direction, the layers that updateSlidingMap clears are those of the voxels that
-- leave the window, which are those of the voxels that enter it.
use tron2_navigation_ros.Base.{
  ℕ, zero, suc, ◌+◌, ◌-◌, ◌≤◌, ◌<◌, ◌≡◌, sym, ap, subst, ◌∙◌, ◌⊎◌, inl, inr, ◌∷◌, ℤ, pos, negsuc,
  pos_part, neg_part, ◌+ℤ◌, ◌-ℤ◌, ltb_ℤ, ltb, arith, Mem, here, there,
}
use tron2_navigation_ros.GridMap.Address.{get_local_index, unwrap}
use tron2_navigation_ros.GridMap.Region.{to_list}
use tron2_navigation_ros.GridMap.Slide.{below, below_from, leaving}
use tron2_navigation_ros.GridMap.Laws.Window.{
  get_local_index-lt, get_local_index-add, get_local_index-next, unwrap-get_local_index,
}

mem-below_from : (k n i : ℕ) → i < n → Mem (k + i) (below_from k n)
unfolding below_from
mem-below_from k zero i h = let z : ⊥ = omega arith in elim z [ ]
mem-below_from k (suc n) zero h = here (omega arith)
mem-below_from k (suc n) (suc i) h =
    let e : suc k + i ≡ k + suc i = omega arith in
    subst (λ x. Mem x (k ∷ below_from (suc k) n)) e
      (there (mem-below_from (suc k) n i (omega arith)))

mem-list :
    {B : Type 0} (f : ℕ → B) (k n i : ℕ) → i < n → Mem (f (k + i)) (to_list f (below_from k n))
unfolding below_from to_list
mem-list f k zero i h = let z : ⊥ = omega arith in elim z [ ]
mem-list f k (suc n) zero h = let e : k + 0 ≡ k = omega arith in here (ap f e)
mem-list f k (suc n) (suc i) h =
    let e : suc k + i ≡ k + suc i = omega arith in
    there (
      subst (λ x. Mem (f x) (to_list f (below_from (suc k) n))) e
        (mem-list f (suc k) n i (omega arith)))

list-mem :
    {B : Type 0} (f : ℕ → B) (k n : ℕ) (y : B)
    → Mem y (to_list f (below_from k n))
    → (i : ℕ) × (i < n) × (y ≡ f (k + i))
unfolding below_from to_list
list-mem f k zero y h = elim h [ ]
list-mem f k (suc n) y (here e) = let z : k ≡ k + 0 = omega arith in (0, omega arith, e ∙ ap f z)
list-mem f k (suc n) y (there h) =
    let r = list-mem f (suc k) n y h in
    let e : suc k + r.0 ≡ k + suc r.0 = omega arith in (suc r.0, omega arith, r.2 ∙ ap f e)

pub mem-to_list_below : {B : Type 0} (f : ℕ → B) (n i : ℕ) → i < n → Mem (f i) (to_list f (below n))
unfolding below
mem-to_list_below f n i h =
    let e : 0 + i ≡ i = omega arith in
    subst (λ x. Mem (f x) (to_list f (below_from 0 n))) e (mem-list f 0 n i h)

pub to_list_below-mem :
    {B : Type 0} (f : ℕ → B) (n : ℕ) (y : B)
    → Mem y (to_list f (below n))
    → (i : ℕ) × (i < n) × (y ≡ f i)
unfolding below
to_list_below-mem f n y h =
    let r = list-mem f 0 n y h in let e : 0 + r.0 ≡ r.0 = omega arith in (r.0, r.1, r.2 ∙ ap f e)

below_from-mem : (k n i : ℕ) → Mem i (below_from k n) → i < k + n
unfolding below_from
below_from-mem k zero i h = elim h [ ]
below_from-mem k (suc n) i (here e) = omega (arith, e)
below_from-mem k (suc n) i (there h) = omega (arith, below_from-mem (suc k) n i h)

pub below-mem : (n i : ℕ) → Mem i (below n) → i < n
unfolding below
below-mem n i h = omega (arith, below_from-mem 0 n i h)

pub mem-below : (n i : ℕ) → i < n → Mem i (below n)
unfolding below
mem-below n i h =
    let e : 0 + i ≡ i = omega arith in
    subst (λ x. Mem x (below_from 0 n)) e (mem-below_from 0 n i h)

-- Two indices of a window with the same local index are the same.
pub window_inj :
    (min : ℤ) (n j k : ℕ)
    → j < n
    → k < n
    → get_local_index (min +ℤ pos j) n ≡ get_local_index (min +ℤ pos k) n
    → min +ℤ pos j ≡ min +ℤ pos k
window_inj min n j k h g e =
    sym (unwrap-get_local_index min n j h) ∙ ap (unwrap min n) e ∙ unwrap-get_local_index min n k g

one_further : (a : ℤ) (n : ℕ) → a +ℤ pos (suc n) ≡ a +ℤ pos n +ℤ pos 1
unfolding ◌+ℤ◌
one_further (pos a) n = ground arith
one_further (negsuc a) n = ground arith

-- A whole turn around the window.
pub period : (a : ℤ) (n : ℕ) → 0 < n → get_local_index (a +ℤ pos n) n ≡ get_local_index a n
period a zero h = let z : ⊥ = omega arith in elim z [ ]
period a (suc n) h =
    let r = get_local_index-add a (suc n) n (omega arith) in
    let s = get_local_index-next (a +ℤ pos n) (suc n) (omega arith) in
    let e = ap (λ x. get_local_index x (suc n)) (one_further a n) in
    let l = get_local_index-lt a (suc n) (omega arith) in ground arith

-- Positions in the window, counted from its lower bound.
offset_lt : (min : ℤ) (k s : ℕ) → ltb_ℤ (min +ℤ pos k) (min +ℤ pos s) ≡ ltb k s
unfolding ◌+ℤ◌
offset_lt (pos a) k s = ground arith
offset_lt (negsuc a) k s = ground arith

offset_eq : (min : ℤ) (j k : ℕ) → min +ℤ pos j ≡ min +ℤ pos k → j ≡ k
offset_eq min j k e =
    let p = offset_lt min j k in
    let q = offset_lt min k j in
    let r = offset_lt min j j in
    let a = ap (λ x. ltb_ℤ x (min +ℤ pos k)) e in
    let b = ap (λ x. ltb_ℤ (min +ℤ pos k) x) e in let c = offset_lt min k k in ground arith

-- The layers counted down from the upper bound.
from_max :
    (min max : ℤ) (n j : ℕ)
    → max ≡ min +ℤ pos n -ℤ pos 1
    → j < n
    → max -ℤ pos j ≡ min +ℤ pos (n - 1 - j)
unfolding ◌+ℤ◌ ◌-ℤ◌
from_max (pos a) max n j e h = ground arith
from_max (negsuc a) max n j e h = ground arith

module _ (min max : ℤ) (n : ℕ) (bounds : max ≡ min +ℤ pos n -ℤ pos 1) where
  -- A layer that is cleared is that of a position that leaves.
  pub leaving-mem :
      (shift : ℤ) (k : ℕ)
      → pos_part shift + neg_part shift < n
      → k < n
      → Mem (get_local_index (min +ℤ pos k) n) (leaving min max n shift)
      → (k < pos_part shift) ⊎ (n ≤ k + neg_part shift) × (0 < neg_part shift)
  unfolding leaving
  leaving-mem (pos s) k h g m =
      let r = to_list_below-mem _ s _ m in
      let e = offset_eq min k r.0 (window_inj min n k r.0 g (omega (arith, r.1)) r.2) in
      inl (omega (arith, r.1, e))
  leaving-mem (negsuc t) k h g m =
      let r = to_list_below-mem _ (suc t) _ m in
      let j : ℕ = n - 1 - r.0 in
      let f = from_max min max n r.0 bounds (omega (arith, r.1)) in
      let e =
        offset_eq min k j
          (window_inj min n k j g (omega arith) (r.2 ∙ ap (λ x. get_local_index x n) f)) in
      inr (omega (arith, r.1, e), omega arith)

  -- The layer of a position that leaves is cleared.
  pub mem-leaving_pos :
      (s k : ℕ) → k < s → Mem (get_local_index (min +ℤ pos k) n) (leaving min max n (pos s))
  unfolding leaving
  mem-leaving_pos s k h = mem-to_list_below (λ j. get_local_index (min +ℤ pos j) n) s k h

  pub mem-leaving_negsuc :
      (t k : ℕ)
      → k < n
      → n ≤ k + suc t
      → Mem (get_local_index (min +ℤ pos k) n) (leaving min max n (negsuc t))
  unfolding leaving
  mem-leaving_negsuc t k h g =
      let j : ℕ = n - 1 - k in
      let f = from_max min max n j bounds (omega arith) in
      let e : n - 1 - j ≡ k = omega arith in
      let q = ap (λ x. get_local_index x n) (f ∙ ap (λ i. min +ℤ pos i) e) in
      subst (λ x. Mem x (to_list (λ i. get_local_index (max -ℤ pos i) n) (below (suc t)))) q
        (mem-to_list_below (λ i. get_local_index (max -ℤ pos i) n) (suc t) j (omega arith))
