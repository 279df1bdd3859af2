-- ===== src/Replan/Exec.antt =====
-- scan_replan_fsm.cpp: execFSMCallback, the state machine's tick, one function for each `case`.
-- A case returns whether it ends by `return`, which skips finishProcess.
use tron2_navigation_ros.Base.{
  ℕ, ◌+◌, Bool, true, false, not, ◌&&◌, ◌||◌, [], pos, leb_ℤ, sub_ℕ, ◌==◌, if◌then◌else◌,
}
use tron2_navigation_ros.Double.{Double, lt, le, gt, ge, decimal, std_max, std_min}
use tron2_navigation_ros.Vector.{Library}
use tron2_navigation_ros.Replan.State.{
  ExecState, init, wait_target, gen_new_traj, replan_traj, exec_traj, emergency_stop, goal_failed,
  goal_reached, Fsm, World,
}
use tron2_navigation_ros.Replan.Plan.{
  is_reference_path, change_fsm_exec_state, publish_goal_status, call_emergency_stop,
  is_waypoint_sequence_mode, has_next_waypoint, update_local_traj_time_freeze,
}
use tron2_navigation_ros.Replan.Target.{
  set_start_state_from_odom_or_current_traj, plan_next_waypoint, call_rebound_replan,
  plan_from_current_traj,
}

module _ {W : Type 0} where
  unfoldable pub finish_process : Fsm W → Fsm W
  unfolding change_fsm_exec_state publish_goal_status
  finish_process s =
      if leb_ℤ s.max_replan_fail_count (pos s.replan_fail_count)
      then change_fsm_exec_state emergency_stop (
          publish_goal_status goal_failed (record s {
            replan_fail_count = 0;
            need_hover_stop = true;
            flag_escape_emergency = true;
          }))
      else s

  unfoldable pub exec_init : Fsm W → Bool × Fsm W
  exec_init s =
      if s.have_odom && s.trigger then (false, change_fsm_exec_state wait_target s) else (true, s)

  unfoldable pub exec_wait_target : Fsm W → Bool × Fsm W
  exec_wait_target s =
      if s.have_target then (false, change_fsm_exec_state gen_new_traj s) else (true, s)

module _ {W : Type 0} ⦃d : Double W⦄ (lib : Library W) where
  open d use {add, sub, mul}
  open lib use {vec_sub, norm, norm_xy, seconds}

  -- The last attempt to plan is too recent.
  abbrev pub throttled : ℕ → Fsm W → Bool
  throttled now s =
      not (s.last_replan_attempt_time == 0)
      && lt (seconds (sub_ℕ now s.last_replan_attempt_time)) s.replan_retry_interval

  unfoldable pub exec_gen_new_traj : World W → Fsm W → Bool × Fsm W
  exec_gen_new_traj w s =
      let t =
        set_start_state_from_odom_or_current_traj lib w
          (record s { last_replan_attempt_time = w.body_now }) in
      let flag_random_poly_init = not (t.continuously_called_times == 1) in
      let (success, u) = call_rebound_replan lib w true flag_random_poly_init t in
      if throttled w.body_now s
      then (false, s)
      else if success
      then (
        false,
        record (change_fsm_exec_state exec_traj (record u { replan_fail_count = 0 })) {
          flag_escape_emergency = true;
        },
      )
      else (
        false,
        change_fsm_exec_state gen_new_traj
            (record u { replan_fail_count = u.replan_fail_count + 1 }),
      )

  unfoldable pub exec_replan_traj : World W → Fsm W → Bool × Fsm W
  exec_replan_traj w s =
      let (success, u) =
        plan_from_current_traj lib w (record s { last_replan_attempt_time = w.body_now }) in
      if throttled w.body_now s
      then (false, s)
      else if success
      then (false, change_fsm_exec_state exec_traj (record u { replan_fail_count = 0 }))
      else (
        false,
        change_fsm_exec_state replan_traj
            (record u { replan_fail_count = u.replan_fail_count + 1 }),
      )

  abbrev pub goal_is_reached : Fsm W → Bool
  goal_is_reached s =
      le (norm_xy (vec_sub s.end_pt s.odom_pos)) s.goal_tolerance
      && le (d.abs (sub s.end_pt.z s.odom_pos.z)) s.goal_z_tolerance

  unfoldable pub reach_goal : Fsm W → Fsm W
  reach_goal s =
      change_fsm_exec_state wait_target
        (publish_goal_status goal_reached (record s { have_target = false; trigger = false }))

  -- The time along the local trajectory, held to its duration.
  abbrev pub current_time : World W → Fsm W → W
  current_time w s =
      std_min s.local_data.duration
        (std_max (decimal 0 0) (seconds (sub_ℕ w.body_now s.local_data.start_time)))

  abbrev pub trajectory_ended : World W → Fsm W → Bool
  trajectory_ended w s = gt (current_time w s) (sub s.local_data.duration (decimal 1 2))

  -- `traveled_xy >= replan_thresh_ || approaching_local_endpoint || …`
  needs_replan : World W → Fsm W → Bool
  needs_replan w s =
      let traveled_xy = norm_xy (vec_sub s.local_data.start_pos s.odom_pos) in
      let local_remaining_xy = norm_xy (vec_sub s.local_target_pt s.odom_pos) in
      let local_segment_xy = norm_xy (vec_sub s.local_target_pt s.local_data.start_pos) in
      let replan_margin = std_max (decimal 30 2) (sub s.planning_horizon s.replan_thresh) in
      let minimum_segment_progress = std_min (decimal 15 2) (mul (decimal 5 1) local_segment_xy) in
      ge traveled_xy s.replan_thresh
      || (le local_remaining_xy replan_margin && ge traveled_xy minimum_segment_progress)
      || trajectory_ended w s

  unfoldable pub exec_reference_path : World W → Fsm W → Fsm W
  unfolding needs_replan reach_goal
  exec_reference_path w s =
      if goal_is_reached s
      then reach_goal s
      else if s.go2_execution_frozen
      then s
      else if needs_replan w s
      then change_fsm_exec_state replan_traj s
      else s

  unfoldable pub advance_waypoint : World W → Fsm W → Fsm W
  advance_waypoint w s =
      let (success, t) = plan_next_waypoint lib w (record s { current_wp = s.current_wp + 1 }) in
      if success
      then change_fsm_exec_state gen_new_traj t
      else change_fsm_exec_state gen_new_traj
          (record t { replan_fail_count = t.replan_fail_count + 1 })

  unfoldable pub exec_trajectory_end : Fsm W → Fsm W
  unfolding reach_goal
  exec_trajectory_end s =
      let t =
        if is_waypoint_sequence_mode s
        then record s { active_waypoints = []; current_wp = 0 }
        else s in
      if goal_is_reached t then reach_goal t else change_fsm_exec_state replan_traj t

  -- In the middle of the local trajectory.
  unfoldable pub exec_under_way : World W → Fsm W → Bool × Fsm W
  exec_under_way w s =
      let pos = s.local_data.position_traj (current_time w s) in
      if lt (norm (vec_sub s.end_pt pos)) s.no_replan_thresh
      then (true, s)
      else if lt (norm (vec_sub s.local_data.start_pos pos)) s.replan_thresh
      then (true, s)
      else (false, change_fsm_exec_state replan_traj s)

  unfoldable pub exec_exec_traj : World W → Fsm W → Bool × Fsm W
  exec_exec_traj w s =
      let more = is_waypoint_sequence_mode s && has_next_waypoint s.active_waypoints s.current_wp in
      if is_reference_path s.navi_mode
      then (true, exec_reference_path w s)
      else if more && lt (norm (vec_sub s.end_pt s.odom_pos)) (decimal 5 1)
      then (true, advance_waypoint w s)
      else if trajectory_ended w s
      then (true, if more then advance_waypoint w s else exec_trajectory_end s)
      else exec_under_way w s

  leave_emergency : Fsm W → Fsm W
  leave_emergency s =
      let slow = lt (norm s.odom_vel) (decimal 1 1) in
      if s.enable_fail_safe && not s.need_hover_stop && slow
      then change_fsm_exec_state gen_new_traj s
      else if s.enable_fail_safe && s.need_hover_stop && slow
      then change_fsm_exec_state wait_target
          (record s { need_hover_stop = false; have_target = false; trigger = false })
      else s

  unfoldable pub exec_emergency_stop : World W → Fsm W → Bool × Fsm W
  unfolding leave_emergency
  exec_emergency_stop w s =
      let t =
        if s.flag_escape_emergency then call_emergency_stop w s.odom_pos s else leave_emergency s in
      (false, record t { flag_escape_emergency = false })

  abbrev pub dispatch : ExecState → World W → Fsm W → Bool × Fsm W
  dispatch init w s = exec_init s
  dispatch wait_target w s = exec_wait_target s
  dispatch gen_new_traj w s = exec_gen_new_traj w s
  dispatch replan_traj w s = exec_replan_traj w s
  dispatch exec_traj w s = exec_exec_traj w s
  dispatch emergency_stop w s = exec_emergency_stop w s

  unfoldable pub exec_fsm_callback : World W → Fsm W → Fsm W
  exec_fsm_callback w s =
      let t = update_local_traj_time_freeze lib w s in
      let (returned, u) = dispatch t.exec_state w t in if returned then u else finish_process u
