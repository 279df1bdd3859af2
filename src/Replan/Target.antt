-- ===== src/Replan/Target.antt =====
-- scan_replan_fsm.cpp: planning towards a target. planGlobalTraj* and reboundReplan belong to the
-- planner manager, whose answers `World` holds; the end velocity and acceleration are always zero.
use tron2_navigation_ros.Base.{
  Bool, true, false, not, ◌&&◌, ◌||◌, none, some, List, [], ◌∷◌, pos, sub_ℕ, if◌then◌else◌,
  get_elem?, back,
}
use tron2_navigation_ros.Double.{Double, lt, le, gt, decimal, std_max, std_min}
use tron2_navigation_ros.Vector.{Vector3, Library}
use tron2_navigation_ros.Replan.State.{
  ExecState, wait_target, gen_new_traj, replan_traj, exec_traj, goal_running, goal_failed,
  PoseStamped, PathMsg, bspline, Fsm, LocalTarget, World,
}
use tron2_navigation_ros.Replan.Plan.{
  is_reference_path, change_fsm_exec_state, publish_goal_status, clamp_velocity_norm,
  adjust_global_target_if_occupied,
}

module _ {W : Type 0} where
  abbrev on_new_target : ExecState → Fsm W → Fsm W
  on_new_target wait_target s = change_fsm_exec_state gen_new_traj s
  on_new_target exec_traj s = change_fsm_exec_state replan_traj s
  on_new_target _ s = s

  abbrev apply_local_target : LocalTarget W → Fsm W → Fsm W
  apply_local_target r s = record s {
    end_pt = r.end_pt;
    local_target_pt = r.local_target_pt;
    local_target_vel = r.local_target_vel;
    reference_path_points = r.reference_path_points;
    reference_path_arc_lengths = r.reference_path_arc_lengths;
    reference_progress_s = r.reference_progress_s;
    global_data = record s.global_data { last_progress_time = r.last_progress_time };
  }

module _ {W : Type 0} ⦃d : Double W⦄ (lib : Library W) where
  open lib use {zero3, vec_sub, norm, norm_xy, dot_xy, seconds}

  -- A start that moves away from the goal is replaced by a standing one.
  unfoldable pub drop_retreat : Fsm W → Fsm W
  drop_retreat s =
      let to_goal = vec_sub s.end_pt s.odom_pos in
      if gt (norm_xy to_goal) (decimal 1 3) && lt (dot_xy s.start_vel to_goal) (decimal 0 0)
      then record s { start_vel = zero3; start_acc = zero3 }
      else s

  unfoldable pub set_start_state_from_odom_or_current_traj : World W → Fsm W → Fsm W
  unfolding drop_retreat
  set_start_state_from_odom_or_current_traj w s =
      let info = s.local_data in
      let fallback = record s {
        start_pt = s.odom_pos;
        start_vel = s.odom_vel;
        start_acc = zero3;
      } in
      let raw_t_cur = seconds (sub_ℕ w.plan_now info.start_time) in
      let t_cur = std_min (std_max raw_t_cur (decimal 0 0)) info.duration in
      if lt (seconds (pos info.start_time)) (decimal 1 5) || le info.duration (decimal 1 5)
      then fallback
      else if lt raw_t_cur (d.neg (decimal 1 3)) || gt raw_t_cur (d.add info.duration (decimal 2 1))
      then fallback
      else drop_retreat (record fallback {
        start_vel = info.velocity_traj t_cur;
        start_acc = info.acceleration_traj t_cur;
      })

  -- What follows a successful plan: the new target is recorded.
  unfoldable pub accept_target : Fsm W → Fsm W
  accept_target s = record s { end_vel = zero3; have_target = true; have_new_target = true }

  unfoldable pub plan_global_traj_by_waypoints : World W → List (Vector3 W) → Fsm W → Bool × Fsm W
  unfolding accept_target
  plan_global_traj_by_waypoints w [] s = (false, s)
  plan_global_traj_by_waypoints w (p ∷ ps) s =
      let t = record s { end_pt = back ps p } in
      let bounded_odom_vel = clamp_velocity_norm lib s.odom_vel s.max_vel in
      let (success, data') =
        w.plan_global_traj_waypoints s.odom_pos bounded_odom_vel (p ∷ ps) s.global_data in
      let u = record t { global_data = data' } in
      let (free, v) = adjust_global_target_if_occupied lib w u in
      if not success
      then (false, u)
      else if is_reference_path s.navi_mode
      then (true, accept_target u)
      else if free
      then (true, accept_target v)
      else (false, v)

  unfoldable pub plan_next_waypoint : World W → Fsm W → Bool × Fsm W
  unfolding accept_target
  plan_next_waypoint w s = elim (get_elem? s.active_waypoints s.current_wp) [
    | none ↦ (false, s)
    | some p ↦
        let t = set_start_state_from_odom_or_current_traj w (record s { end_pt = p }) in
        let (success, data') =
          w.plan_global_traj t.start_pt t.start_vel t.start_acc t.end_pt t.global_data in
        let u = record t { global_data = data' } in
        let (free, v) = adjust_global_target_if_occupied lib w u in
        if not success then (false, u) else if free then (true, accept_target v) else (false, v)
  ]

  unfoldable pub plan_global_traj_by_given_wps : World W → Fsm W → Fsm W
  plan_global_traj_by_given_wps w s =
      let t = record s {
        active_waypoints = s.preset_waypoints;
        current_wp = 0;
        trigger = true;
        init_pt = s.odom_pos;
      } in
      let (success, u) = plan_next_waypoint w t in
      if success then change_fsm_exec_state gen_new_traj u else u

  -- A goal at the height of the first odometry message.
  unfoldable pub waypoint_goal : World W → Vector3 W → Fsm W → Fsm W
  unfolding accept_target
  waypoint_goal w p s =
      let goal : Vector3 W = record p { z = s.rviz_goal_height } in
      let t = record s { trigger = true; init_pt = s.odom_pos; end_pt = goal } in
      let (planned, data') = w.plan_global_traj s.odom_pos s.odom_vel zero3 goal s.global_data in
      let u = record t { global_data = data' } in
      let (free, v) = adjust_global_target_if_occupied lib w u in
      if not planned
      then publish_goal_status goal_failed u
      else if free
      then publish_goal_status goal_running (on_new_target v.exec_state (accept_target v))
      else publish_goal_status goal_failed v

  unfoldable pub waypoint_callback : World W → PathMsg W → Fsm W → Fsm W
  unfolding waypoint_goal
  waypoint_callback w msg s = elim msg.poses [
    | [] ↦ s
    | p ∷ _ ↦ if lt p.position.z (d.neg (decimal 1 1)) then s else waypoint_goal w p.position s
  ]

  unfoldable pub rviz_goal_callback : World W → PoseStamped W → Fsm W → Fsm W
  unfolding waypoint_callback
  rviz_goal_callback w msg s =
      if s.rviz_height_ready
      then waypoint_callback w (record { frame_id = msg.frame_id; poses = msg ∷ [] }) s
      else s

  unfoldable pub call_rebound_replan : World W → Bool → Bool → Fsm W → Bool × Fsm W
  call_rebound_replan w flag_use_poly_init flag_random_poly_traj s =
      let r = w.get_local_target s in
      let t = apply_local_target r s in
      let (plan_success, info) =
        w.rebound_replan t.start_pt t.start_vel t.start_acc t.local_target_pt t.local_target_vel
          (t.have_new_target || flag_use_poly_init) flag_random_poly_traj t.local_data in
      let u = record t { local_data = info; have_new_target = false } in
      if not r.found
      then (false, t)
      else if plan_success
      then (true, record u { published = bspline info ∷ u.published })
      else (false, u)

  unfoldable pub set_replan_start : World W → Fsm W → Fsm W
  set_replan_start w s =
      let info = s.local_data in
      let t_cur =
        std_min (std_max (seconds (sub_ℕ w.plan_now info.start_time)) (decimal 0 0))
          info.duration in
      if is_reference_path s.navi_mode
      then record s {
        start_pt = s.odom_pos;
        start_vel = clamp_velocity_norm lib s.odom_vel s.max_vel;
        start_acc = zero3;
      }
      else record s {
        start_pt = s.odom_pos;
        start_vel = info.velocity_traj t_cur;
        start_acc = info.acceleration_traj t_cur;
      }

  -- Outside the reference-path mode the global trajectory is planned anew.
  unfoldable pub refresh_global_traj : World W → Fsm W → Bool × Fsm W
  refresh_global_traj w s =
      let (planned, data') =
        w.plan_global_traj s.start_pt s.start_vel s.start_acc s.end_pt s.global_data in
      let t = record s { global_data = data' } in
      if is_reference_path s.navi_mode
      then (true, s)
      else if planned
      then adjust_global_target_if_occupied lib w t
      else (false, t)

  unfoldable pub plan_from_current_traj : World W → Fsm W → Bool × Fsm W
  plan_from_current_traj w s =
      let (ready, t) = refresh_global_traj w (drop_retreat (set_replan_start w s)) in
      let (success, u) = call_rebound_replan w true false t in
      if not ready
      then (false, t)
      else if success
      then (true, u)
      else call_rebound_replan w true true u
