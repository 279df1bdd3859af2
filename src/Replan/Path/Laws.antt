-- ===== src/Replan/Path/Laws.antt =====
-- What pathCallback makes of a reference path.
use mathlib.Core.Option.{some-injective}
use tron2_navigation_ros.Base.{
  ℕ, Bool, true, not, ◌≡◌, subst, inl, inr, List, [], ◌∷◌, Option, some, arith, Bool-cases,
  is_empty,
}
use tron2_navigation_ros.Double.{Double, le}
use tron2_navigation_ros.Vector.{Vector3, Library}
use tron2_navigation_ros.Replan.State.{PoseStamped, Fsm}
use tron2_navigation_ros.Replan.Path.{Gathered, gather, is_usable, shifted, take_pose}

-- Every element of a list satisfies `P`.
abbrev pub All {ℓ κ} : {A : Type ℓ} → (A → Type κ) → List A → Type κ
All P [] = Unit
All P (x ∷ xs) = P x × All P xs

-- Neighbours in a list are related.
abbrev pub Linked {ℓ} : {A : Type ℓ} → (A → A → Type 0) → List A → Type 0
Linked R [] = Unit
Linked R (x ∷ []) = Unit
Linked R (x ∷ y ∷ zs) = R x y × Linked R (y ∷ zs)

-- What the loop over the poses keeps: usable points, and waypoints that keep their distance.
pub record IsGathered {W : Type 0} ⦃d : Double W⦄ (lib : Library W) (spacing : W) (g : Gathered W)
    : Type 0 where
  pub usable : All (λ p. is_usable lib p ≡ true) g.waypoints
  pub points : All (λ p. is_usable lib p ≡ true) g.reference_points
  pub spaced : Linked (λ p q. le spacing (lib.norm (lib.vec_sub p q)) ≡ true) g.waypoints
  pub apart :
      Linked (λ p q. le (d.decimal 1 3) (lib.norm_xy (lib.vec_sub p q)) ≡ true) g.reference_points

module _ {W : Type 0} ⦃d : Double W⦄ (lib : Library W) (s : Fsm W) where
  take_pose-IsGathered :
      (more : Bool) (wp : Vector3 W) (ps qs : List (Vector3 W)) (f : Option (Vector3 W))
      → let g : Gathered W = record { waypoints = ps; reference_points = qs; final_waypoint = f } in
        is_usable lib wp ≡ true
        → IsGathered lib s.reference_path_spacing g
        → IsGathered lib s.reference_path_spacing (take_pose lib s more wp g)
  unfolding take_pose
  take_pose-IsGathered more wp [] [] f u v = ground arith
  take_pose-IsGathered more wp [] (q ∷ qs) f u v = ground arith
  take_pose-IsGathered more wp (p ∷ ps) [] f u v = ground arith
  take_pose-IsGathered more wp (p ∷ ps) (q ∷ qs) f u v = ground arith

  -- The loop over the poses of a path keeps usable points only: every waypoint and every reference
  -- point has finite coordinates, neighbouring waypoints are at least the configured spacing apart,
  -- and neighbouring reference points at least 0.001 in the plane.
  pub gather-IsGathered :
      (frame : List ℕ) (dz : W) (poses : List (PoseStamped W)) (g h : Gathered W)
      → gather lib s frame dz poses g ≡ some h
      → IsGathered lib s.reference_path_spacing g
      → IsGathered lib s.reference_path_spacing h
  unfolding gather
  gather-IsGathered frame dz [] g h e v =
      subst (IsGathered lib s.reference_path_spacing) (some-injective _ _ e) v
  gather-IsGathered frame dz (p ∷ rest) g h e v =
      let wp = shifted lib s dz p in
      let more = not (is_empty rest) in
      elim (Bool-cases (is_usable lib wp)) [
        | inl u ↦
            gather-IsGathered frame dz rest (take_pose lib s more wp g) h (ground arith)
              (take_pose-IsGathered more wp g.waypoints g.reference_points g.final_waypoint u v)
        | inr n ↦ gather-IsGathered frame dz rest g h (ground arith) v
      ]
