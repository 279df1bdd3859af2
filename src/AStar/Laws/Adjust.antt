-- ===== src/AStar/Laws/Adjust.antt =====
-- dyn_a_star.cpp: moving the endpoints out of obstacles ends, with free places of the grid if any.
use tron2_navigation_ros.Base.{
  ℕ, zero, suc, ◌<◌, ◌≡◌, refl, sym, ap, subst, inl, inr, Bool, true, false, not, ◌||◌, is_zero,
  if◌then◌else◌, arith, Bool-cases,
}
use tron2_navigation_ros.Double.{Double}
use tron2_navigation_ros.Vector.{Vector3, Vector3i, Library}
use tron2_navigation_ros.GridMap.State.{GridMap}
use tron2_navigation_ros.AStar.State.{Frame}
use tron2_navigation_ros.AStar.Grid.{is_in_pool, coord_to_index}
use tron2_navigation_ros.AStar.Endpoints.{
  Adjusted, adjusted, Endpoints, endpoints, check_occupancy, shifted, move_away, adjust_point,
  both_points, convert_to_index,
}

not_chosen : {A : Type 0} (b : Bool) (x y : A) → b ≡ true → (if not b then x else y) ≡ y
not_chosen b x y e = ap (λ c. if not c then x else y) e

chosen : {A : Type 0} (b : Bool) (x y : A) → b ≡ false → (if not b then x else y) ≡ x
chosen b x y e = ap (λ c. if not c then x else y) e

module _ {W : Type 0} ⦃d : Double W⦄ where
  -- The point after `k` steps away.
  unfoldable pub steps_away : ℕ → (W → W → W) → Frame W → Vector3 W → Vector3 W → Vector3 W
  steps_away zero op f dir pt = pt
  steps_away (suc k) op f dir pt = steps_away k op f dir (shifted op f dir pt)

  -- Within `k` steps, but not before the first, the point is outside the grid.
  abbrev pub LeavesPool : ℕ → (W → W → W) → Frame W → Vector3 W → Vector3 W → Type 0
  LeavesPool k op f dir pt =
      is_in_pool f (coord_to_index f (steps_away k op f dir (shifted op f dir pt))) ≡ false

  -- What adjusting a point gives: a free place of the grid, or nothing, but it does end.
  abbrev pub IsAdjusted : GridMap W → Frame W → W → Adjusted → Type 0
  IsAdjusted map f yaw (adjusted idx) =
      (is_in_pool f idx ≡ true) × (is_zero (check_occupancy map f idx yaw) ≡ true)
  IsAdjusted map f yaw Adjusted.unable = Unit
  IsAdjusted map f yaw Adjusted.out_of_fuel = ⊥

  free-if :
      (map : GridMap W) (f : Frame W) (yaw : W) (idx : Vector3i) (rest : Adjusted)
      → is_in_pool f idx ≡ true
      → IsAdjusted map f yaw rest
      → IsAdjusted map f yaw
          (if is_zero (check_occupancy map f idx yaw) then adjusted idx else rest)
  free-if map f yaw idx rest i r = elim (Bool-cases (is_zero (check_occupancy map f idx yaw))) [
    | inl e ↦
        subst (IsAdjusted map f yaw) (sym (ap (λ c. if c then adjusted idx else rest) e)) (i, e)
    | inr e ↦ subst (IsAdjusted map f yaw) (sym (ap (λ c. if c then adjusted idx else rest) e)) r
  ]

  away-if :
      (map : GridMap W) (f : Frame W) (yaw : W) (away : Bool) (x : Adjusted)
      → IsAdjusted map f yaw x
      → IsAdjusted map f yaw (if away then Adjusted.unable else x)
  away-if map f yaw true x h = tt
  away-if map f yaw false x h = h

  -- The loop ends, with fuel for the steps that lead out of the grid.
  move_away-IsAdjusted :
      (fuel k : ℕ) (op : W → W → W) (map : GridMap W) (f : Frame W) (yaw : W) (dir pt : Vector3 W)
      → LeavesPool k op f dir pt
      → k < fuel
      → IsAdjusted map f yaw (move_away fuel op map f yaw dir pt)
  unfolding move_away steps_away
  move_away-IsAdjusted zero k op map f yaw dir pt h g = let z : ⊥ = omega arith in elim z [ ]
  move_away-IsAdjusted (suc fuel) zero op map f yaw dir pt h g =
      subst (IsAdjusted map f yaw) (sym (chosen _ _ _ h)) tt
  move_away-IsAdjusted (suc fuel) (suc k) op map f yaw dir pt h g =
      let idx = coord_to_index f (shifted op f dir pt) in
      elim (Bool-cases (is_in_pool f idx)) [
        | inr e ↦ subst (IsAdjusted map f yaw) (sym (chosen _ _ _ e)) tt
        | inl e ↦ subst (IsAdjusted map f yaw) (sym (not_chosen _ _ _ e)) (
            away-if map f yaw _ _ (
              free-if map f yaw idx _ e (
                move_away-IsAdjusted fuel k op map f yaw dir (shifted op f dir pt) h
                  (omega arith))))
      ]

  adjust_point-IsAdjusted :
      (fuel k : ℕ) (op : W → W → W) (map : GridMap W) (f : Frame W) (yaw : W) (dir pt : Vector3 W)
      → is_in_pool f (coord_to_index f pt) ≡ true
      → LeavesPool k op f dir pt
      → k < fuel
      → IsAdjusted map f yaw (adjust_point fuel op map f yaw dir pt)
  unfolding adjust_point
  adjust_point-IsAdjusted fuel k op map f yaw dir pt i h g =
      free-if map f yaw _ _ i (move_away-IsAdjusted fuel k op map f yaw dir pt h g)

  -- Both endpoints are free places of the grid, if there are any.
  abbrev pub AreAdjusted : GridMap W → Frame W → W → Endpoints → Type 0
  AreAdjusted map f yaw (endpoints s e) =
      IsAdjusted map f yaw (adjusted s) × IsAdjusted map f yaw (adjusted e)
  AreAdjusted map f yaw Endpoints.unable = Unit
  AreAdjusted map f yaw Endpoints.out_of_fuel = ⊥

  both_points-AreAdjusted :
      (map : GridMap W) (f : Frame W) (yaw : W) (a b : Adjusted)
      → IsAdjusted map f yaw a
      → IsAdjusted map f yaw b
      → AreAdjusted map f yaw (both_points a b)
  unfolding both_points
  both_points-AreAdjusted map f yaw Adjusted.unable b h g = tt
  both_points-AreAdjusted map f yaw Adjusted.out_of_fuel b h g = h
  both_points-AreAdjusted map f yaw (adjusted s) Adjusted.unable h g = tt
  both_points-AreAdjusted map f yaw (adjusted s) Adjusted.out_of_fuel h g = g
  both_points-AreAdjusted map f yaw (adjusted s) (adjusted e) h g = (h, g)

  unable-if :
      (map : GridMap W) (f : Frame W) (yaw : W) (a b c : Bool) (x : Endpoints)
      → (a ≡ true → b ≡ true → AreAdjusted map f yaw x)
      → AreAdjusted map f yaw
          (if not a || not b then Endpoints.unable else if c then Endpoints.unable else x)
  unable-if map f yaw false b c x h = tt
  unable-if map f yaw true false c x h = tt
  unable-if map f yaw true true true x h = tt
  unable-if map f yaw true true false x h = h refl refl

  module _ (eigen : Library W) (map : GridMap W) (f : Frame W) (start_pt end_pt : Vector3 W) where
    abbrev pub direction : Vector3 W
    direction = eigen.normalized (eigen.vec_sub end_pt start_pt)

    abbrev pub path_yaw : W
    path_yaw = let v = eigen.vec_sub end_pt start_pt in d.atan2 v.y v.x

    pub convert_to_index-AreAdjusted :
        (fuel k j : ℕ)
        → LeavesPool k d.sub f direction start_pt
        → LeavesPool j d.add f direction end_pt
        → k < fuel
        → j < fuel
        → AreAdjusted map f path_yaw (convert_to_index eigen fuel map f start_pt end_pt)
    unfolding convert_to_index
    convert_to_index-AreAdjusted fuel k j h g a b = unable-if map f path_yaw _ _ _ _ (λ p q.
        both_points-AreAdjusted map f path_yaw _ _
          (adjust_point-IsAdjusted fuel k d.sub map f path_yaw direction start_pt p h a)
          (adjust_point-IsAdjusted fuel j d.add map f path_yaw direction end_pt q g b))
