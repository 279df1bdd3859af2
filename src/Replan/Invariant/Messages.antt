-- ===== src/Replan/Invariant/Messages.antt =====
-- The callbacks of messages and of the safety timer keep the invariant.
use mathlib.Core.List.{reverse}
use tron2_navigation_ros.Base.{ℕ, Bool, true, false, ◌≡◌, inl, inr, List, arith, Option-cases}
use tron2_navigation_ros.Double.{Double}
use tron2_navigation_ros.Vector.{Vector3, Library}
use tron2_navigation_ros.Replan.State.{exec_traj, Fsm, World, PathMsg, PoseStamped, Odometry}
use tron2_navigation_ros.Replan.Plan.{
  change_fsm_exec_state, publish_goal_status, call_emergency_stop, update_local_traj_time_freeze,
}
use tron2_navigation_ros.Replan.Target.{
  plan_global_traj_by_given_wps, waypoint_goal, rviz_goal_callback,
}
use tron2_navigation_ros.Replan.Path.{
  Gathered, restart, limit_waypoints, close_waypoints, follow_path, use_gathered, use_path,
  receive_path, path_callback,
}
use tron2_navigation_ros.Replan.Safety.{
  on_collision, after_scan, check_collision_callback, Scan, collision,
}
use tron2_navigation_ros.Replan.Events.{
  record_odometry, process_pending, start_preset, odometry_callback,
}
use tron2_navigation_ros.Replan.Frame.{
  update_local_traj_time_freeze-Keeps, adjust_global_target_if_occupied-Keeps,
  plan_next_waypoint-Keeps, plan_global_traj_by_waypoints-Keeps, plan_from_current_traj-Keeps,
}
use tron2_navigation_ros.Replan.Invariant.{Inv, Keeps-Inv, stop_current_navigation-Inv}

module _ {W : Type 0} ⦃d : Double W⦄ (lib : Library W) (w : World W) (s : Fsm W) (v : Inv s) where
  pub follow_path-Inv :
      (points waypoints : List (Vector3 W))
      → s.flag_escape_emergency ≡ true
      → Inv (follow_path lib w points waypoints s)
  unfolding follow_path change_fsm_exec_state publish_goal_status call_emergency_stop
  follow_path-Inv points waypoints f = grind (arith, plan_global_traj_by_waypoints-Keeps lib w)

  pub waypoint_goal-Inv : (p : Vector3 W) → Inv (waypoint_goal lib w p s)
  unfolding waypoint_goal change_fsm_exec_state publish_goal_status
  waypoint_goal-Inv p = grind (arith, adjust_global_target_if_occupied-Keeps lib w)

  pub plan_global_traj_by_given_wps-Inv : Inv (plan_global_traj_by_given_wps lib w s)
  unfolding plan_global_traj_by_given_wps change_fsm_exec_state
  plan_global_traj_by_given_wps-Inv = grind (arith, plan_next_waypoint-Keeps lib w)

  pub on_collision-Inv : (t : W) → s.exec_state ≡ exec_traj → Inv (on_collision lib w t s)
  unfolding on_collision change_fsm_exec_state
  on_collision-Inv t e = grind (arith, plan_from_current_traj-Keeps lib w)

module _ {W : Type 0} ⦃d : Double W⦄ (lib : Library W) (w : World W) (s : Fsm W) where
  pub restart-Inv : Inv s → Inv (restart s)
  restart-Inv v = ground arith

  pub use_gathered-Inv :
      (g : Gathered W) → Inv s → s.flag_escape_emergency ≡ true → Inv (use_gathered lib w g s)
  unfolding use_gathered publish_goal_status
  use_gathered-Inv g v f =
      let waypoints = limit_waypoints s.max_reference_waypoints (close_waypoints lib g) in
      ground (arith, follow_path-Inv lib w s v (reverse g.reference_points) waypoints f)

module _ {W : Type 0} ⦃d : Double W⦄ (lib : Library W) (w : World W) (s : Fsm W) where
  pub use_path-Inv :
      (frame : List ℕ) (dz : W) (poses : List (PoseStamped W))
      → Inv s
      → Inv (use_path lib w frame dz poses s)
  unfolding use_path publish_goal_status
  use_path-Inv frame dz poses v = grind (arith, use_gathered-Inv lib w (restart s))

  pub receive_path-Inv :
      (msg : PathMsg W) (p : PoseStamped W) (ps : List (PoseStamped W))
      → Inv s
      → Inv (receive_path lib w msg p ps s)
  unfolding receive_path publish_goal_status
  receive_path-Inv msg p ps v = grind (arith, use_path-Inv)

  pub path_callback-Inv : (msg : PathMsg W) → Inv s → Inv (path_callback lib w msg s)
  unfolding path_callback
  path_callback-Inv msg v = grind (arith, receive_path-Inv, stop_current_navigation-Inv)

  pub record_odometry-Inv : (msg : Odometry W) → Inv s → Inv (record_odometry lib msg s)
  unfolding record_odometry
  record_odometry-Inv msg v = ground arith

module _ {W : Type 0} ⦃d : Double W⦄ (lib : Library W) (w : World W) (s : Fsm W) where
  pub process_pending-Inv : (first : Bool) → Inv s → Inv (process_pending lib w first s)
  unfolding process_pending
  process_pending-Inv false v = v
  process_pending-Inv true v = elim (Option-cases s.pending_reference_path) [
    | inl e ↦ rw (e, process_pending) v
    | inr (msg, e) ↦ rw (e, process_pending) (path_callback-Inv lib w _ msg (ground arith))
  ]

  pub start_preset-Inv : Inv s → Inv (start_preset lib w s)
  unfolding start_preset
  start_preset-Inv v = ground (
    arith,
    plan_global_traj_by_given_wps-Inv lib w (record s { preset_started = true }) (ground arith),
  )

  pub rviz_goal_callback-Inv : (msg : PoseStamped W) → Inv s → Inv (rviz_goal_callback lib w msg s)
  unfolding rviz_goal_callback
  rviz_goal_callback-Inv msg v = grind (arith, waypoint_goal-Inv lib w)

  pub after_scan-Inv : (r : Scan W) → s.exec_state ≡ exec_traj → Inv s → Inv (after_scan lib w s r)
  unfolding after_scan
  after_scan-Inv (collision t) e v = on_collision-Inv lib w s v _ e
  after_scan-Inv _ e v = v

module _ {W : Type 0} ⦃d : Double W⦄ (lib : Library W) (w : World W) (s : Fsm W) where
  pub odometry_callback-Inv : (msg : Odometry W) → Inv s → Inv (odometry_callback lib w msg s)
  unfolding odometry_callback
  odometry_callback-Inv msg v =
      start_preset-Inv lib w _ (process_pending-Inv lib w _ _ (record_odometry-Inv lib w s msg v))

  pub check_collision_callback-Inv :
      (fuel : ℕ) → Inv s → Inv (check_collision_callback lib fuel w s)
  unfolding check_collision_callback
  check_collision_callback-Inv fuel v =
      let t = update_local_traj_time_freeze lib w s in
      let kept = Keeps-Inv (update_local_traj_time_freeze-Keeps lib w s) v in
      grind (arith, after_scan-Inv lib w t)
