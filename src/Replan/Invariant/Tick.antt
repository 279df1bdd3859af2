-- ===== src/Replan/Invariant/Tick.antt =====
-- Every case of execFSMCallback keeps the invariant.
use tron2_navigation_ros.Base.{
  ◌+◌, ◌<◌, Bool, true, false, ◌&&◌, if◌then◌else◌, ◌≡◌, refl, arith, length,
}
use tron2_navigation_ros.Double.{Double}
use tron2_navigation_ros.Vector.{Library}
use tron2_navigation_ros.Replan.State.{
  ExecState, init, wait_target, gen_new_traj, replan_traj, exec_traj, emergency_stop, Fsm, World,
}
use tron2_navigation_ros.Replan.Plan.{
  change_fsm_exec_state, publish_goal_status, call_emergency_stop, is_waypoint_sequence_mode,
  is_reference_path, has_next_waypoint, update_local_traj_time_freeze,
}
use tron2_navigation_ros.Replan.Exec.{
  finish_process, trajectory_ended, exec_gen_new_traj, exec_replan_traj, exec_reference_path,
  advance_waypoint, exec_trajectory_end, exec_under_way, exec_exec_traj, exec_emergency_stop,
  dispatch, exec_fsm_callback,
}
use tron2_navigation_ros.Replan.Frame.{
  update_local_traj_time_freeze-Keeps, set_start_state-Keeps, call_rebound_replan-Keeps,
  plan_next_waypoint-Keeps, plan_from_current_traj-Keeps,
}
use tron2_navigation_ros.Replan.Invariant.{
  Inv, After, has_next_waypoint-lt, Keeps-Inv, finish_process-Inv, exec_init-After,
  exec_wait_target-After, choice-After,
}

module _ {W : Type 0} ⦃d : Double W⦄ (lib : Library W) (w : World W) (s : Fsm W) (v : Inv s) where
  exec_gen_new_traj-After : s.exec_state ≡ gen_new_traj → After (exec_gen_new_traj lib w s)
  unfolding exec_gen_new_traj change_fsm_exec_state
  exec_gen_new_traj-After e =
      grind (arith, set_start_state-Keeps lib w, call_rebound_replan-Keeps lib w)

  exec_replan_traj-After : s.exec_state ≡ replan_traj → After (exec_replan_traj lib w s)
  unfolding exec_replan_traj change_fsm_exec_state
  exec_replan_traj-After e = grind (arith, plan_from_current_traj-Keeps lib w)

  exec_emergency_stop-After : s.exec_state ≡ emergency_stop → After (exec_emergency_stop lib w s)
  unfolding exec_emergency_stop change_fsm_exec_state call_emergency_stop
  exec_emergency_stop-After e = ground arith

  advance_waypoint-Inv :
      s.exec_state ≡ exec_traj
      → s.current_wp + 1 < length s.active_waypoints
      → Inv (advance_waypoint lib w s)
  unfolding advance_waypoint change_fsm_exec_state
  advance_waypoint-Inv e h = grind (arith, plan_next_waypoint-Keeps lib w)

  exec_reference_path-Inv : s.exec_state ≡ exec_traj → Inv (exec_reference_path lib w s)
  unfolding exec_reference_path change_fsm_exec_state publish_goal_status
  exec_reference_path-Inv e = ground arith

  exec_trajectory_end-Inv : s.exec_state ≡ exec_traj → Inv (exec_trajectory_end lib s)
  unfolding exec_trajectory_end change_fsm_exec_state publish_goal_status
  exec_trajectory_end-Inv e = ground arith

  exec_under_way-After : s.exec_state ≡ exec_traj → After (exec_under_way lib w s)
  unfolding exec_under_way change_fsm_exec_state
  exec_under_way-After e = ground arith

  next_waypoint-Inv :
      s.exec_state ≡ exec_traj
      → (is_waypoint_sequence_mode s && has_next_waypoint s.active_waypoints s.current_wp) ≡ true
      → Inv (advance_waypoint lib w s)
  next_waypoint-Inv e h =
      advance_waypoint-Inv e (has_next_waypoint-lt s.active_waypoints s.current_wp (ground arith))

  exec_exec_traj-After : s.exec_state ≡ exec_traj → After (exec_exec_traj lib w s)
  unfolding exec_exec_traj
  exec_exec_traj-After e =
      choice-After (is_reference_path s.navi_mode)
        (is_waypoint_sequence_mode s && has_next_waypoint s.active_waypoints s.current_wp)
        (d.lt (lib.norm (lib.vec_sub s.end_pt s.odom_pos)) (d.decimal 5 1))
        (trajectory_ended lib w s) (exec_under_way lib w s) (exec_reference_path-Inv e)
        (next_waypoint-Inv e) (exec_trajectory_end-Inv e) (exec_under_way-After e)

  dispatch-After : (e : ExecState) → s.exec_state ≡ e → After (dispatch lib e w s)
  dispatch-After init e = exec_init-After s v
  dispatch-After wait_target e = exec_wait_target-After s v
  dispatch-After gen_new_traj e = exec_gen_new_traj-After e
  dispatch-After replan_traj e = exec_replan_traj-After e
  dispatch-After exec_traj e = exec_exec_traj-After e
  dispatch-After emergency_stop e = exec_emergency_stop-After e

module _ {W : Type 0} ⦃d : Double W⦄ (lib : Library W) (w : World W) (s : Fsm W) where
  pub finish-After : (r : Bool × Fsm W) → After r → Inv (if r.0 then r.1 else finish_process r.1)
  finish-After (true, t) a = a
  finish-After (false, t) a = finish_process-Inv t a

  pub exec_fsm_callback-Inv : Inv s → Inv (exec_fsm_callback lib w s)
  unfolding exec_fsm_callback
  exec_fsm_callback-Inv v =
      let t = update_local_traj_time_freeze lib w s in
      finish-After (dispatch lib t.exec_state w t) (
        dispatch-After lib w t (Keeps-Inv (update_local_traj_time_freeze-Keeps lib w s) v)
          t.exec_state refl)
