-- ===== src/AStar/Laws/Places.antt =====
-- dyn_a_star.cpp: the places that the test on a neighbour lets through are the finite box of them.
use tron2_navigation_ros.Base.{
  ℕ, zero, suc, ◌+◌, ◌<◌, ◌≡◌, ◌⊎◌, inl, inr, Bool, true, false, ◌||◌, ℤ, pos, negsuc, pos_part,
  neg_part, ◌+ℤ◌, ◌-ℤ◌, ltb_ℤ, leb_ℤ, if◌then◌else◌, arith, Mem, here, there,
}
use tron2_navigation_ros.Vector.{Vector3i}
use tron2_navigation_ros.GridMap.Region.{count_up, up_to, box}
use tron2_navigation_ros.GridMap.Ranges.{mem-flat_map, mem-to_list}
use tron2_navigation_ros.AStar.State.{Frame}
use tron2_navigation_ros.AStar.Grid.{is_inner}
use tron2_navigation_ros.AStar.Laws.Work.{inner_places}

-- An integer that is not below `first` is `first`, or not below the next one.
first-or_next :
    (i first : ℤ) (n : ℕ)
    → ltb_ℤ i first ≡ false
    → pos_part i + neg_part first < pos_part first + suc n + neg_part i
    → (i ≡ first)
      ⊎ ((ltb_ℤ i (first +ℤ pos 1) ≡ false)
          × (pos_part i + neg_part (first +ℤ pos 1) < pos_part (first +ℤ pos 1) + n + neg_part i))
unfolding ◌+ℤ◌
first-or_next (pos i) (pos first) n h g = ground arith
first-or_next (pos i) (negsuc first) n h g = ground arith
first-or_next (negsuc i) (pos first) n h g = ground arith
first-or_next (negsuc i) (negsuc first) n h g = ground arith

mem-count_up :
    (i first : ℤ) (n : ℕ)
    → ltb_ℤ i first ≡ false
    → pos_part i + neg_part first < pos_part first + n + neg_part i
    → Mem i (count_up first n)
unfolding count_up
mem-count_up i first zero h g = let z : ⊥ = ground arith in elim z [ ]
mem-count_up i first (suc n) h g = elim (first-or_next i first n h g) [
  | inl e ↦ here e
  | inr (a, b) ↦ there (mem-count_up i (first +ℤ pos 1) n a b)
]

enough :
    (i size : ℤ)
    → ltb_ℤ i (pos 1) ≡ false
    → leb_ℤ (size -ℤ pos 1) i ≡ false
    → pos_part i + 0 < 1 + pos_part (size -ℤ pos 2 -ℤ pos 1 +ℤ pos 1) + neg_part i
unfolding ◌+ℤ◌ ◌-ℤ◌
enough (pos i) (pos size) h g = ground arith
enough (pos i) (negsuc size) h g = ground arith
enough (negsuc i) size h g = ground arith

mem-inner :
    (i size : ℤ)
    → ltb_ℤ i (pos 1) ≡ false
    → leb_ℤ (size -ℤ pos 1) i ≡ false
    → Mem i (up_to (pos 1) (size -ℤ pos 2))
unfolding up_to
mem-inner i size h g = mem-count_up i (pos 1) _ h (enough i size h g)

inner_choice :
    (a b c e f g : Bool)
    → (if a || b || c || e || f || g then false else true) ≡ true
    → (a ≡ false) × (b ≡ false) × (c ≡ false) × (e ≡ false) × (f ≡ false) × (g ≡ false)
inner_choice a b c e f g h = ground arith

pub inner_places_complete :
    {W : Type 0} (f : Frame W) (p : Vector3i) → is_inner f p ≡ true → Mem p (inner_places f)
unfolding is_inner inner_places box
inner_places_complete f p h =
    let c = inner_choice _ _ _ _ _ _ h in
    mem-flat_map _ _ p.x p (mem-inner p.x f.pool_size.x c.0 c.1) (
      mem-flat_map _ _ p.y p (mem-inner p.y f.pool_size.y c.2 c.3) (
        mem-to_list (λ (z : ℤ). record { x = p.x; y = p.y; z = z }) _ p.z
          (mem-inner p.z f.pool_size.z c.4 c.5)))
