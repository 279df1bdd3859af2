-- ===== src/Replan/Path.antt =====
-- scan_replan_fsm.cpp: pathCallback, which takes a reference path, and its loops.
pub mod Limit
pub mod Laws
use mathlib.Core.List.{reverse}
use Prim.Native.Nat.{min}
use tron2_navigation_ros.Base.{
  ℕ, zero, suc, ◌+◌, ◌-◌, Bool, true, false, not, ◌&&◌, ◌||◌, Option, none, some, List, [], ◌∷◌, ℤ,
  pos, negsuc, leb_ℤ, ltb, ◌==◌, if◌then◌else◌, length, get_or, back, is_empty,
}
use tron2_navigation_ros.Double.{Double, lt, le, gt, ge, decimal}
use tron2_navigation_ros.Vector.{Vector3, Library}
use tron2_navigation_ros.Replan.State.{
  Frame, ExecState, init, wait_target, gen_new_traj, replan_traj, emergency_stop, goal_running,
  goal_failed, goal_reached, PoseStamped, PathMsg, Fsm, World,
}
use tron2_navigation_ros.Replan.Plan.{
  change_fsm_exec_state, publish_goal_status, call_emergency_stop, stop_current_navigation,
}
use tron2_navigation_ros.Replan.Target.{plan_global_traj_by_waypoints}

-- A leading '/' is dropped.
unfoldable pub normalize_frame : Frame → Frame
normalize_frame [] = []
normalize_frame (c ∷ r) = if c == b'/' then r else c ∷ r

abbrev pub same_frame : Frame → Frame → Bool
same_frame [] [] = true
same_frame (a ∷ p) (b ∷ q) = a == b && same_frame p q
same_frame _ _ = false

-- What the loop over the poses collects, newest first.
pub record Gathered (W : Type 0) : Type 0 where
  pub waypoints : List (Vector3 W)
  pub reference_points : List (Vector3 W)
  pub final_waypoint : Option (Vector3 W)

abbrev pub size_of : ℤ → ℕ
size_of (pos n) = n
size_of (negsuc n) = 0

module _ {W : Type 0} where
  abbrev on_new_path : ExecState → Fsm W → Fsm W
  on_new_path wait_target s = change_fsm_exec_state gen_new_traj s
  on_new_path init s = change_fsm_exec_state gen_new_traj s
  on_new_path emergency_stop s = change_fsm_exec_state gen_new_traj s
  on_new_path _ s = change_fsm_exec_state replan_traj s

  abbrev has_two : List (Vector3 W) → Bool
  has_two (_ ∷ _ ∷ _) = true
  has_two _ = false

  -- The navigation restarts: what the previous goal left is cleared.
  abbrev pub restart : Fsm W → Fsm W
  restart s = record s {
    trigger = true;
    have_target = false;
    have_new_target = false;
    need_hover_stop = false;
    flag_escape_emergency = true;
    replan_fail_count = 0;
    last_replan_attempt_time = 0;
  }

module _ {W : Type 0} ⦃d : Double W⦄ where
  open d use {add, sub, mul, div, of_int}

  -- The choice of `max` waypoints at even steps, when there are more.
  unfoldable pub pick_from : Vector3 W → List (Vector3 W) → W → ℕ → ℕ → List (Vector3 W)
  pick_from p ps scale i zero = []
  pick_from p ps scale i (suc n) =
      let index = size_of (d.to_int (d.round (mul (of_int (pos i)) scale))) in
      get_or (p ∷ ps) (min index (length ps)) p ∷ pick_from p ps scale (i + 1) n

  unfoldable pub limit_waypoints : ℤ → List (Vector3 W) → List (Vector3 W)
  unfolding pick_from
  limit_waypoints max_waypoints [] = []
  limit_waypoints max_waypoints (p ∷ ps) =
      let scale = div (of_int (pos (length ps))) (of_int (pos (size_of max_waypoints - 1))) in
      if leb_ℤ (pos 2) max_waypoints && ltb (size_of max_waypoints) (length (p ∷ ps))
      then pick_from p ps scale 0 (size_of max_waypoints)
      else p ∷ ps

module _ {W : Type 0} ⦃d : Double W⦄ (lib : Library W) where
  open d use {add, sub, mul, is_finite}
  open lib use {vec_sub, norm, norm_xy}

  unfoldable pub arc_lengths_from : W → Vector3 W → List (Vector3 W) → List W
  arc_lengths_from s p [] = s ∷ []
  arc_lengths_from s p (q ∷ r) = s ∷ arc_lengths_from (add s (norm_xy (vec_sub q p))) q r

  -- reference_path_arc_lengths_ of the given points.
  unfoldable pub arc_lengths : List (Vector3 W) → List W
  unfolding arc_lengths_from
  arc_lengths [] = []
  arc_lengths (p ∷ r) = arc_lengths_from (decimal 0 0) p r

  unfoldable pub take_pose : Fsm W → Bool → Vector3 W → Gathered W → Gathered W
  take_pose s more wp g =
      let fresh : Bool = elim g.reference_points [
        | [] ↦ true
        | q ∷ _ ↦ ge (norm_xy (vec_sub wp q)) (decimal 1 3)
      ] in
      let wanted : Bool = elim g.waypoints [
        | [] ↦
            not (
              more
              && lt (norm (vec_sub wp s.odom_pos)) (mul (decimal 5 1) s.reference_path_spacing))
        | q ∷ _ ↦ ge (norm (vec_sub wp q)) s.reference_path_spacing
      ] in
      record {
        waypoints = if wanted then wp ∷ g.waypoints else g.waypoints;
        reference_points = if fresh then wp ∷ g.reference_points else g.reference_points;
        final_waypoint = some wp;
      }

  -- The waypoint of a pose, at the height of the body.
  abbrev pub shifted : Fsm W → W → PoseStamped W → Vector3 W
  shifted s dz p = record p.position { z = add (add p.position.z s.body_height) dz }

  abbrev pub is_usable : Vector3 W → Bool
  is_usable wp = is_finite wp.x && is_finite wp.y && is_finite wp.z

  -- The loop over the poses; `none` is a pose in another frame, which ends the callback.
  unfoldable pub gather :
      Fsm W → Frame → W → List (PoseStamped W) → Gathered W → Option (Gathered W)
  gather s planning_frame dz [] g = some g
  gather s planning_frame dz (p ∷ rest) g =
      let wp = shifted s dz p in
      let g' = if is_usable wp then take_pose s (not (is_empty rest)) wp g else g in
      let more = gather s planning_frame dz rest g' in
      if not (is_empty p.frame_id) && not (same_frame (normalize_frame p.frame_id) planning_frame)
      then none
      else more

  -- The last usable pose is always a waypoint; then the order of the path is restored.
  unfoldable pub close_waypoints : Gathered W → List (Vector3 W)
  close_waypoints g = reverse (elim g.final_waypoint [
    | none ↦ g.waypoints
    | some p ↦ elim g.waypoints [
      | [] ↦ p ∷ []
      | q ∷ r ↦ if gt (norm (vec_sub p q)) (decimal 1 6) then p ∷ q ∷ r else q ∷ r
    ]
  ])

  abbrev at_goal : Fsm W → Vector3 W → Bool
  at_goal s p =
      le (norm_xy (vec_sub p s.odom_pos)) s.goal_tolerance
      && le (d.abs (sub p.z s.odom_pos.z)) s.goal_z_tolerance

  unfoldable pub follow_path : World W → List (Vector3 W) → List (Vector3 W) → Fsm W → Fsm W
  follow_path w points waypoints s =
      let (success, t) = plan_global_traj_by_waypoints lib w waypoints s in
      if success
      then publish_goal_status goal_running (
          on_new_path t.exec_state (record t {
            reference_path_points = points;
            reference_path_arc_lengths = arc_lengths points;
            reference_progress_s = decimal 0 0;
          }))
      else publish_goal_status goal_failed
          (record (call_emergency_stop w t.odom_pos t) { trigger = false })

  unfoldable pub use_gathered : World W → Gathered W → Fsm W → Fsm W
  use_gathered w g t =
      let waypoints = limit_waypoints t.max_reference_waypoints (close_waypoints g) in
      let points = reverse g.reference_points in
      if is_empty waypoints || not (has_two points)
      then publish_goal_status goal_failed t
      else if at_goal t (back waypoints t.odom_pos)
      then publish_goal_status goal_reached (record t { trigger = false })
      else follow_path w points waypoints t

  unfoldable pub use_path : World W → Frame → W → List (PoseStamped W) → Fsm W → Fsm W
  use_path w planning_frame dz poses s =
      let t = restart s in
      let start : Gathered W = record {
        waypoints = [];
        reference_points = [];
        final_waypoint = none;
      } in
      elim (gather t planning_frame dz poses start) [
        | none ↦ publish_goal_status goal_failed t
        | some g ↦ use_gathered w g t
      ]

  -- The checks before the path is used; `none` is a rejected path, `some` its shift in height.
  unfoldable pub check_path : Fsm W → Vector3 W → Option W
  check_path s first =
      let dx = sub first.x s.odom_pos.x in
      let dy = sub first.y s.odom_pos.y in
      let start_xy_distance = d.hypot dx dy in
      let alignment = sub s.odom_pos.z (add first.z s.body_height) in
      if not (is_finite first.x) || not (is_finite first.y) || not (is_finite first.z)
      then none
      else if s.require_reference_path_start_near_odom
          && gt start_xy_distance s.reference_path_start_tolerance
      then none
      else if not s.align_reference_path_z_to_odom
      then some (decimal 0 0)
      else if gt (d.abs alignment) s.max_reference_path_z_alignment
      then none
      else some alignment

  unfoldable pub receive_path :
      World W → PathMsg W → PoseStamped W → List (PoseStamped W) → Fsm W → Fsm W
  receive_path w msg p ps s =
      let planning_frame = normalize_frame s.self_inflation_frame_id in
      let path_frame =
        if is_empty msg.frame_id then planning_frame else normalize_frame msg.frame_id in
      if not (same_frame path_frame planning_frame)
      then publish_goal_status goal_failed s
      else if not s.have_odom
      then record s { pending_reference_path = some msg }
      else elim (check_path s p.position) [
        | none ↦ publish_goal_status goal_failed s
        | some dz ↦ use_path w planning_frame dz (p ∷ ps) s
      ]

  unfoldable pub path_callback : World W → PathMsg W → Fsm W → Fsm W
  path_callback w msg s = elim msg.poses [
    | [] ↦ stop_current_navigation w (decimal 0 0) true s
    | p ∷ ps ↦ receive_path w msg p ps s
  ]
