-- ===== src/Replan/Plan.antt =====
-- scan_replan_fsm.cpp: changes of state, status messages, the planning helpers of SCANReplanFSM.
-- A method returns the new state; one that returns `bool` returns it before the state.
pub mod Laws
use tron2_navigation_ros.Base.{
  ℕ, zero, suc, ◌+◌, ◌-◌, Bool, true, false, not, ◌&&◌, ◌||◌, Option, none, some, List, [], ◌∷◌, ℤ,
  pos, negsuc, leb_ℤ, sub_ℕ, is_zero, ltb, ◌==◌, if◌then◌else◌, get_elem?, is_empty, back,
}
use tron2_navigation_ros.Double.{Double, lt, le, gt, ge, decimal, std_max, std_min}
use tron2_navigation_ros.Vector.{Vector3, Quaternion, Library}
use tron2_navigation_ros.Replan.State.{
  ExecState, init, wait_target, gen_new_traj, replan_traj, exec_traj, emergency_stop, NaviMode,
  manual_target, preset_target, reference_path, GoalStatus, goal_cancel, LocalTrajData,
  GlobalTrajData, Output, status, bspline, Fsm, LocalTarget, World,
}

abbrev pub same_state : ExecState → ExecState → Bool
same_state init init = true
same_state wait_target wait_target = true
same_state gen_new_traj gen_new_traj = true
same_state replan_traj replan_traj = true
same_state exec_traj exec_traj = true
same_state emergency_stop emergency_stop = true
same_state _ _ = false

abbrev pub is_reference_path : NaviMode → Bool
is_reference_path reference_path = true
is_reference_path _ = false

abbrev pub is_preset_target : NaviMode → Bool
is_preset_target preset_target = true
is_preset_target _ = false

abbrev pub is_manual_target : NaviMode → Bool
is_manual_target manual_target = true
is_manual_target _ = false

module _ {W : Type 0} where
  unfoldable pub change_fsm_exec_state : ExecState → Fsm W → Fsm W
  change_fsm_exec_state new s = record s {
    continuously_called_times =
        if same_state new s.exec_state then s.continuously_called_times + 1 else 1;
    exec_state = new;
  }

  unfoldable pub publish_goal_status : GoalStatus → Fsm W → Fsm W
  publish_goal_status g s = record s { published = status g ∷ s.published }

  -- callEmergencyStop: the planner replaces the local trajectory by a stop, which is published.
  unfoldable pub call_emergency_stop : World W → Vector3 W → Fsm W → Fsm W
  call_emergency_stop w stop_pos s =
      let traj = w.emergency_traj stop_pos s.local_data in
      record s { local_data = traj; published = bspline traj ∷ s.published }

  unfoldable pub stop_current_navigation : World W → W → Bool → Fsm W → Fsm W
  unfolding change_fsm_exec_state publish_goal_status call_emergency_stop
  stop_current_navigation w nought report_cancel s =
      let stopped = if s.have_odom then call_emergency_stop w s.odom_pos s else s in
      let t = change_fsm_exec_state wait_target (record stopped {
        trigger = false;
        have_target = false;
        have_new_target = false;
        active_waypoints = [];
        reference_path_points = [];
        reference_path_arc_lengths = [];
        reference_progress_s = nought;
        pending_reference_path = none;
        current_wp = 0;
        need_hover_stop = false;
        flag_escape_emergency = false;
        replan_fail_count = 0;
      }) in
      if report_cancel then publish_goal_status goal_cancel t else t

  abbrev pub is_waypoint_sequence_mode : Fsm W → Bool
  is_waypoint_sequence_mode s = is_preset_target s.navi_mode

  -- `current_wp_ + 1 < active_waypoints_.size()`
  abbrev pub has_next_waypoint : List (Vector3 W) → ℕ → Bool
  has_next_waypoint [] _ = false
  has_next_waypoint (_ ∷ []) _ = false
  has_next_waypoint (_ ∷ q ∷ r) zero = true
  has_next_waypoint (_ ∷ q ∷ r) (suc i) = has_next_waypoint (q ∷ r) i

abbrev pub sample_count : ℤ → ℕ
sample_count (pos (suc n)) = suc n
sample_count _ = 1

module _ {W : Type 0} ⦃d : Double W⦄ (lib : Library W) where
  open d use {add, sub, mul, div, of_int}

  unfoldable pub clamp_velocity_norm : Vector3 W → W → Vector3 W
  clamp_velocity_norm velocity max_norm =
      let norm = lib.norm velocity in
      if gt max_norm (decimal 0 0) && gt norm max_norm
      then lib.vec_scale velocity (div max_norm norm)
      else velocity

  unfoldable pub get_odom_yaw : Fsm W → W
  get_odom_yaw s =
      let heading = lib.heading s.odom_orient in
      if lt (lib.squared_norm_xy heading) (decimal 1 8)
      then decimal 0 0
      else d.atan2 heading.y heading.x

  unfoldable pub estimate_yaw_from_segment : Fsm W → Vector3 W → Vector3 W → W
  unfolding get_odom_yaw
  estimate_yaw_from_segment s from to =
      let diff = lib.vec_sub to from in
      if lt (lib.squared_norm_xy diff) (decimal 1 8) then get_odom_yaw s else d.atan2 diff.y diff.x

  -- dt = (now - last_freeze_update_time_).seconds(), and the shift of the trajectory's start.
  unfoldable pub update_local_traj_time_freeze : World W → Fsm W → Fsm W
  update_local_traj_time_freeze w s =
      let dt = lib.seconds (sub_ℕ w.freeze_now s.last_freeze_update_time) in
      let t = record s { last_freeze_update_time = w.freeze_now } in
      if le dt (decimal 0 0) || gt dt (decimal 2 1)
      then t
      else if s.go2_execution_frozen && gt (lib.seconds (pos s.local_data.start_time)) (decimal 1 5)
      then record t { local_data = shifted s.local_data (lib.from_seconds dt) }
      else t
    where
      later : ℕ → ℤ → ℕ
      later t (pos n) = t + n
      later t (negsuc n) = t - suc n

      shifted : LocalTrajData W → ℤ → LocalTrajData W
      shifted info dt = record info { start_time = later info.start_time dt }

  -- The time of the sample `i` of `n` along the global trajectory.
  abbrev pub sample_time : W → ℕ → ℕ → W
  sample_time duration i n = div (mul duration (of_int (pos i))) (of_int (pos n))

  unfoldable pub sample_occupancy : (Vector3 W → W → ℤ) → Fsm W → W → ℕ → ℕ → ℤ
  unfolding estimate_yaw_from_segment
  sample_occupancy map s duration i n =
      let traj = s.global_data.global_traj in
      let pt = traj (sample_time duration i n) in
      map pt (estimate_yaw_from_segment s (traj (sample_time duration (i - 1) n)) pt)

  -- The loop `for (int i = sample_num; i >= 0; --i)`, from `i` down.
  unfoldable pub free_sample : (Vector3 W → W → ℤ) → Fsm W → W → ℕ → ℕ → Option ℕ
  free_sample map s duration n zero =
      if is_zero (sample_occupancy map s duration 0 n) then some 0 else none
  free_sample map s duration n (suc i) =
      let rest = free_sample map s duration n i in
      if is_zero (sample_occupancy map s duration (suc i) n) then some (suc i) else rest

  unfoldable pub shorten_to : Fsm W → W → Fsm W
  shorten_to s t = record s {
    end_pt = s.global_data.global_traj t;
    global_data = record s.global_data {
      global_duration = t;
      last_progress_time = std_min s.global_data.last_progress_time t;
    };
  }

  unfoldable pub adjust_on_map : (Vector3 W → W → ℤ) → Fsm W → Bool × Fsm W
  unfolding shorten_to
  adjust_on_map map s =
      let duration = s.global_data.global_duration in
      let n = sample_count (d.to_int (d.ceil (div duration (decimal 5 2)))) in
      let traj = s.global_data.global_traj in
      let final_pt = traj duration in
      let final_yaw =
        estimate_yaw_from_segment s (traj (sample_time duration (n - 1) n)) final_pt in
      if lt duration (decimal 1 3)
      then (true, s)
      else if leb_ℤ (map final_pt final_yaw) (pos 0)
      then (true, s)
      else elim (free_sample map s duration n n) [
        | none ↦ (false, s)
        | some i ↦ (true, shorten_to s (sample_time duration i n))
      ]

  unfoldable pub adjust_global_target_if_occupied : World W → Fsm W → Bool × Fsm W
  unfolding adjust_on_map
  adjust_global_target_if_occupied w s = elim w.inflate_occupancy [
    | none ↦ (true, s)
    | some map ↦ adjust_on_map map s
  ]
