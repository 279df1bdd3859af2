-- ===== src/Replan/Tests/Witnesses.antt =====
-- The theorems about SCANReplanFSM at concrete inputs.
use tron2_navigation_ros.Base.{
  ℕ, zero, suc, ◌+◌, ◌≤◌, ◌<◌, List, negsuc, ◌*◌, ◌^◌, true, false, ◌≡◌, refl, ◌⊎◌, [], ◌∷◌, some,
  none, pos, arith,
}
use tron2_navigation_ros.Double.{le}
use tron2_navigation_ros.Exact.{Milli, milli}
use tron2_navigation_ros.Vector.{Vector3}
use tron2_navigation_ros.Samples.{library, point, num}
use tron2_navigation_ros.Replan.State.{
  gen_new_traj, replan_traj, exec_traj, emergency_stop, PoseStamped, Fsm, World,
}
use tron2_navigation_ros.Replan.Plan.{
  adjust_global_target_if_occupied, publish_goal_status, stop_current_navigation,
  update_local_traj_time_freeze, free_sample, adjust_on_map, sample_occupancy,
  estimate_yaw_from_segment, get_odom_yaw,
}
use tron2_navigation_ros.Replan.Plan.Laws.{Adjusted, adjust_on_map-Adjusted}
use tron2_navigation_ros.Replan.Target.{
  call_rebound_replan, set_start_state_from_odom_or_current_traj, rviz_goal_callback, waypoint_goal,
}
use tron2_navigation_ros.Replan.Path.{gather, take_pose, Gathered, limit_waypoints, size_of}
use tron2_navigation_ros.Replan.Path.Limit.{IsSpread, IsThinned, limit_waypoints_lem}
use tron2_navigation_ros.Replan.Path.Laws.{IsGathered, gather-IsGathered}
use tron2_navigation_ros.Replan.Exec.{exec_fsm_callback, exec_gen_new_traj, finish_process}
use tron2_navigation_ros.Replan.Safety.{occupied_at, scan, check_collision_callback}
use tron2_navigation_ros.Replan.Safety.Laws.{
  Tells, scan-Tells, Answered, check_collision_callback-Answered,
}
use tron2_navigation_ros.Replan.Events.{
  Event, exec_tick, safety_tick, cancel, run, handle, init_fsm,
}
use tron2_navigation_ros.Replan.Invariant.{Inv}
use tron2_navigation_ros.Replan.Invariant.Runs.{run-init_fsm-Inv}
use tron2_navigation_ros.Replan.Entry.{IsPublished}
use tron2_navigation_ros.Replan.Entry.Theorems.{handle_enters_exec_traj}
use tron2_navigation_ros.Replan.Emergency.{GaveUp, handle_enters_emergency_stop}
use tron2_navigation_ros.Replan.Emergency.Stop.{IsStopped, tick_after_entry}
use tron2_navigation_ros.Replan.Cancel.{IsIdle, run-stop_current_navigation}
use tron2_navigation_ros.Replan.Failure.{ticks, run_fails}
use tron2_navigation_ros.Replan.Goal.{IsLost, tick-rviz_goal_callback}
use tron2_navigation_ros.Replan.Tests.{config, raw, world, in_state, beyond_line}

abbrev second : ℕ
second = 10 ^ 9

run-init_fsm-Inv_example : Inv (
    run library
      ((world true second, cancel) ∷ (world true second, exec_tick) ∷ [])
      (init_fsm library second config raw))
run-init_fsm-Inv_example =
    run-init_fsm-Inv library second config raw
      ((world true second, cancel) ∷ (world true second, exec_tick) ∷ [])

abbrev planned : Fsm Milli
planned = in_state gen_new_traj

handle_enters_exec_traj_example :
    let t = handle library (world true second) exec_tick planned in
    ◌≡◌ {A = Event Milli} exec_tick exec_tick
    × ((gen_new_traj ≡ gen_new_traj) ⊎ (gen_new_traj ≡ replan_traj))
    × IsPublished t
    × (t.replan_fail_count ≡ 0)
unfolding handle exec_fsm_callback update_local_traj_time_freeze exec_gen_new_traj
    set_start_state_from_odom_or_current_traj call_rebound_replan finish_process
handle_enters_exec_traj_example =
    handle_enters_exec_traj library (world true second) planned exec_tick (λ e. cc) refl

abbrev third_failure : Fsm Milli
third_failure = record planned { replan_fail_count = 2 }

third_failure-Inv : Inv third_failure
third_failure-Inv = ground arith

handle_enters_emergency_stop_example :
    let t = handle library (world false second) exec_tick third_failure in
    (t.flag_escape_emergency ≡ true)
    × ((◌≡◌ {A = Event Milli} exec_tick exec_tick × GaveUp t)
        ⊎ ((fuel : ℕ) × (◌≡◌ {A = Event Milli} exec_tick (safety_tick fuel))
            × (gen_new_traj ≡ exec_traj)))
unfolding handle exec_fsm_callback update_local_traj_time_freeze exec_gen_new_traj
    set_start_state_from_odom_or_current_traj call_rebound_replan finish_process
handle_enters_emergency_stop_example =
    handle_enters_emergency_stop library (world false second) third_failure exec_tick
      third_failure-Inv (λ e. cc) refl

tick_after_entry_example :
    let t = handle library (world false second) exec_tick third_failure in
    IsStopped
      (world true second)
      (update_local_traj_time_freeze library (world true second) t)
      (handle library (world true second) exec_tick t)
unfolding handle exec_fsm_callback update_local_traj_time_freeze exec_gen_new_traj
    set_start_state_from_odom_or_current_traj call_rebound_replan finish_process
tick_after_entry_example =
    tick_after_entry library (world false second) third_failure exec_tick (world true second)
      third_failure-Inv (λ e. cc) refl (omega arith)

abbrev following : Fsm Milli
following = in_state exec_traj

scan-Tells_example :
    Tells library beyond_line following 200 (num 0) (scan library beyond_line following 200 (num 0))
scan-Tells_example = scan-Tells library beyond_line following 200 (num 0)

-- A fifth of a second along the trajectory, whose third part is occupied.
abbrev later : World Milli
later = world false (1200 * 10 ^ 6)

check_collision_callback-Answered_example :
    Answered (some (pos 300)) following (check_collision_callback library 200 later following)
unfolding update_local_traj_time_freeze scan occupied_at estimate_yaw_from_segment get_odom_yaw
check_collision_callback-Answered_example =
    check_collision_callback-Answered library later following 200 beyond_line (some (pos 500)) refl
      refl refl refl

run-stop_current_navigation_example :
    let t = stop_current_navigation (world true second) (num 0) true following in
    let u =
      run library ((world true second, exec_tick) ∷ (world true second, safety_tick 9) ∷ []) t in
    IsIdle u × (u.published ≡ t.published)
run-stop_current_navigation_example =
    run-stop_current_navigation library (world true second) (num 0) true following
      ((world true second, exec_tick) ∷ (world true second, safety_tick 9) ∷ []) refl (tt, (tt, tt))

abbrev failed_once : Fsm Milli
failed_once = record planned { replan_fail_count = 1 }

run_fails_example :
    let t = run library (ticks (world false second ∷ world false (2 * second) ∷ [])) failed_once in
    (t.exec_state ≡ emergency_stop) × GaveUp t
unfolding exec_fsm_callback update_local_traj_time_freeze exec_gen_new_traj
    set_start_state_from_odom_or_current_traj call_rebound_replan finish_process
run_fails_example =
    run_fails library (world false second) (world false (2 * second) ∷ []) failed_once refl refl
      ((λ a b c p q x y info. refl), ((λ a b c p q x y info. refl), tt)) (refl, (refl, tt))

multiple : (i c : ℕ) → i * 1000 * c ≡ i * c * 1000
multiple zero c = omega arith
multiple (suc i) c = let e = multiple i c in grind arith

nonneg_multiple :
    (i : ℕ) (c : Milli)
    → le (num 1) c ≡ true
    → le (num 0) (milli.mul (milli.of_int (pos i)) c) ≡ true
nonneg_multiple i (some (pos c)) h = ground arith
nonneg_multiple i (some (negsuc c)) h = ground arith
nonneg_multiple i none h = ground arith

next_multiple :
    (i : ℕ) (c : Milli)
    → le (num 1) c ≡ true
    → le
        (milli.add (milli.mul (milli.of_int (pos i)) c) (num 1))
        (milli.mul (milli.of_int (pos (i + 1))) c)
      ≡ true
next_multiple i (some (pos c)) h =
    let e = multiple i c in
    let f = multiple (i + 1) c in let g : (i + 1) * c ≡ i * c + c = grind arith in ground arith
next_multiple i (some (negsuc c)) h = ground arith
next_multiple i none h = ground arith

round_apart :
    (a b : Milli)
    → le (num 0) a ≡ true
    → le (milli.add a (num 1)) b ≡ true
    → size_of (milli.to_int (milli.round a)) < size_of (milli.to_int (milli.round b))
round_apart (some (pos a)) (some (pos b)) h g = ground arith
round_apart (some (pos a)) (some (negsuc b)) h g = ground arith
round_apart (some (negsuc a)) b h g = ground arith
round_apart (some (pos a)) none h g = ground arith
round_apart none b h g = ground arith

-- Four waypoints, of which three may remain.
three_of_four : IsSpread Milli 3 2
three_of_four = record {
  none = refl;
  whole = refl;
  at_least_one = λ h. refl;
  nonneg = nonneg_multiple;
  next_multiple = next_multiple;
  round_apart = round_apart;
}

abbrev bend : List (Vector3 Milli)
bend = point 1 0 ∷ point 1 2 ∷ point 2 2 ∷ []

limit_waypoints_lem_example :
    let r = limit_waypoints (pos 3) (point 0 0 ∷ bend) in
    ((4 ≤ 3) × (r ≡ point 0 0 ∷ bend)) ⊎ ((3 < 4) × IsThinned 3 (point 0 0) bend r)
limit_waypoints_lem_example = limit_waypoints_lem 3 (point 0 0) bend (omega arith) three_of_four

adjust_on_map-Adjusted_example :
    Adjusted library beyond_line following (adjust_on_map library beyond_line following)
adjust_on_map-Adjusted_example = adjust_on_map-Adjusted library beyond_line following

abbrev nothing_gathered : Gathered Milli
nothing_gathered = record { waypoints = []; reference_points = []; final_waypoint = none }

abbrev pose : ℕ → PoseStamped Milli
pose a = record { frame_id = []; position = point a 0 }

gather-IsGathered_example : IsGathered library (num 1) (record {
  waypoints = point 4 0 ∷ point 2 0 ∷ [];
  reference_points = point 4 0 ∷ point 2 0 ∷ [];
  final_waypoint = some (point 4 0);
})
unfolding gather take_pose
gather-IsGathered_example =
    gather-IsGathered library raw [] (num 0) (pose 2 ∷ pose 4 ∷ []) nothing_gathered _ refl
      (record { usable = tt; points = tt; spaced = tt; apart = tt })

abbrev resting : Fsm Milli
resting = record (in_state emergency_stop) { flag_escape_emergency = false; need_hover_stop = true }

tick-rviz_goal_callback_example : IsLost (
    exec_fsm_callback library
      (world true second)
      (rviz_goal_callback library (world true second) (pose 0) resting))
unfolding rviz_goal_callback waypoint_goal adjust_global_target_if_occupied adjust_on_map
    estimate_yaw_from_segment free_sample sample_occupancy publish_goal_status
tick-rviz_goal_callback_example =
    tick-rviz_goal_callback library (world true second) resting (world true second) (pose 0)
      (ground arith) refl
