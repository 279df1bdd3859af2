-- ===== src/Replan/Entry/Messages.antt =====
-- The callbacks of messages enter neither EXEC_TRAJ nor EMERGENCY_STOP.
use mathlib.Core.List.{reverse}
use tron2_navigation_ros.Base.{
  ℕ, Bool, true, false, ◌≡◌, ◌≢◌, ◌⊎◌, inl, inr, List, arith, Option-cases,
}
use tron2_navigation_ros.Double.{Double}
use tron2_navigation_ros.Vector.{Vector3, Library}
use tron2_navigation_ros.Replan.State.{
  ExecState, exec_traj, emergency_stop, Fsm, World, PathMsg, PoseStamped, Odometry,
}
use tron2_navigation_ros.Replan.Plan.{
  change_fsm_exec_state, publish_goal_status, call_emergency_stop, stop_current_navigation,
}
use tron2_navigation_ros.Replan.Target.{
  plan_global_traj_by_given_wps, waypoint_goal, rviz_goal_callback,
}
use tron2_navigation_ros.Replan.Path.{
  Gathered, restart, limit_waypoints, close_waypoints, follow_path, use_gathered, use_path,
  receive_path, path_callback,
}
use tron2_navigation_ros.Replan.Events.{
  record_odometry, process_pending, start_preset, odometry_callback,
}
use tron2_navigation_ros.Replan.Frame.{
  adjust_global_target_if_occupied-Keeps, plan_next_waypoint-Keeps,
  plan_global_traj_by_waypoints-Keeps,
}

abbrev pub IsOut : {W : Type 0} → ExecState → Fsm W → Type 0
IsOut x s = s.exec_state ≢ x

abbrev pub IsMoving : ExecState → Type 0
IsMoving x = (x ≡ exec_traj) ⊎ (x ≡ emergency_stop)

module _ {W : Type 0} (x : ExecState) (k : IsMoving x) where
  pub stop_current_navigation-IsOut :
      (w : World W) (nought : W) (b : Bool) (s : Fsm W)
      → IsOut x (stop_current_navigation w nought b s)
  unfolding stop_current_navigation
  stop_current_navigation-IsOut w nought b s = ground arith

module _ {W : Type 0} ⦃d : Double W⦄ (lib : Library W) (w : World W) (x : ExecState)
    (k : IsMoving x) (s : Fsm W) (out : IsOut x s) where
  follow_path-IsOut :
      (points waypoints : List (Vector3 W)) → IsOut x (follow_path lib w points waypoints s)
  unfolding follow_path change_fsm_exec_state publish_goal_status call_emergency_stop
  follow_path-IsOut points waypoints = grind (arith, plan_global_traj_by_waypoints-Keeps lib w)

  use_gathered-IsOut : (g : Gathered W) → IsOut x (use_gathered lib w g s)
  unfolding use_gathered publish_goal_status
  use_gathered-IsOut g =
      let waypoints = limit_waypoints s.max_reference_waypoints (close_waypoints lib g) in
      ground (arith, follow_path-IsOut (reverse g.reference_points) waypoints)

  waypoint_goal-IsOut : (p : Vector3 W) → IsOut x (waypoint_goal lib w p s)
  unfolding waypoint_goal change_fsm_exec_state publish_goal_status
  waypoint_goal-IsOut p = grind (arith, adjust_global_target_if_occupied-Keeps lib w)

  plan_global_traj_by_given_wps-IsOut : IsOut x (plan_global_traj_by_given_wps lib w s)
  unfolding plan_global_traj_by_given_wps change_fsm_exec_state
  plan_global_traj_by_given_wps-IsOut = grind (arith, plan_next_waypoint-Keeps lib w)

  record_odometry-IsOut : (msg : Odometry W) → IsOut x (record_odometry lib msg s)
  unfolding record_odometry
  record_odometry-IsOut msg = out

module _ {W : Type 0} ⦃d : Double W⦄ (lib : Library W) (w : World W) (x : ExecState)
    (k : IsMoving x) (s : Fsm W) (out : IsOut x s) where
  use_path-IsOut :
      (frame : List ℕ) (dz : W) (poses : List (PoseStamped W))
      → IsOut x (use_path lib w frame dz poses s)
  unfolding use_path publish_goal_status
  use_path-IsOut frame dz poses = grind (arith, use_gathered-IsOut lib w x k (restart s))

  receive_path-IsOut :
      (msg : PathMsg W) (p : PoseStamped W) (ps : List (PoseStamped W))
      → IsOut x (receive_path lib w msg p ps s)
  unfolding receive_path publish_goal_status
  receive_path-IsOut msg p ps = grind (arith, use_path-IsOut)

  pub path_callback-IsOut : (msg : PathMsg W) → IsOut x (path_callback lib w msg s)
  unfolding path_callback
  path_callback-IsOut msg = grind (arith, receive_path-IsOut, stop_current_navigation-IsOut x k)

  pub rviz_goal_callback-IsOut : (msg : PoseStamped W) → IsOut x (rviz_goal_callback lib w msg s)
  unfolding rviz_goal_callback
  rviz_goal_callback-IsOut msg = grind (arith, waypoint_goal-IsOut lib w x k s out)

  start_preset-IsOut : IsOut x (start_preset lib w s)
  unfolding start_preset
  start_preset-IsOut = ground (
    arith,
    plan_global_traj_by_given_wps-IsOut lib w x k (record s { preset_started = true }) out,
  )

module _ {W : Type 0} ⦃d : Double W⦄ (lib : Library W) (w : World W) (x : ExecState)
    (k : IsMoving x) (s : Fsm W) (out : IsOut x s) where
  process_pending-IsOut : (first : Bool) → IsOut x (process_pending lib w first s)
  unfolding process_pending
  process_pending-IsOut false = out
  process_pending-IsOut true = elim (Option-cases s.pending_reference_path) [
    | inl e ↦ rw (e, process_pending) out
    | inr (msg, e) ↦ rw (e, process_pending) (path_callback-IsOut lib w x k _ out msg)
  ]

module _ {W : Type 0} ⦃d : Double W⦄ (lib : Library W) (w : World W) (x : ExecState)
    (k : IsMoving x) (s : Fsm W) (out : IsOut x s) where
  pub odometry_callback-IsOut : (msg : Odometry W) → IsOut x (odometry_callback lib w msg s)
  unfolding odometry_callback
  odometry_callback-IsOut msg =
      start_preset-IsOut lib w x k _
        (process_pending-IsOut lib w x k _ (record_odometry-IsOut lib w x k s out msg) _)
