-- ===== src/Replan/Safety.antt =====
-- scan_replan_fsm.cpp: checkCollisionCallback, the safety timer.
pub mod Laws
use tron2_navigation_ros.Base.{
  ℕ, zero, suc, Bool, true, false, not, Option, none, some, ℤ, pos, sub_ℕ, is_zero, ◌==◌, ◌||◌,
  if◌then◌else◌,
}
use tron2_navigation_ros.Double.{Double, lt, ge, decimal, std_max, std_min}
use tron2_navigation_ros.Vector.{Vector3, Library}
use tron2_navigation_ros.Replan.State.{
  ExecState, replan_traj, exec_traj, emergency_stop, Fsm, World,
}
use tron2_navigation_ros.Replan.Plan.{
  same_state, change_fsm_exec_state, estimate_yaw_from_segment, update_local_traj_time_freeze,
}
use tron2_navigation_ros.Replan.Target.{plan_from_current_traj}

-- The end of the loop over the trajectory.
pub data Scan (W : Type 0) : Type 0 where
  clear : Scan W
  collision : W → Scan W
  out_of_fuel : Scan W

module _ {W : Type 0} ⦃d : Double W⦄ (lib : Library W) where
  open d use {add, sub}
  open lib use {seconds}

  abbrev pub time_step : W
  time_step = decimal 1 2

  unfoldable pub occupied_at : (Vector3 W → W → ℤ) → Fsm W → W → Bool
  occupied_at map s t =
      let traj = s.local_data.position_traj in
      let pos_next = traj (std_min (add t time_step) s.local_data.duration) in
      not (is_zero (map (traj t) (estimate_yaw_from_segment lib s (traj t) pos_next)))

  -- for (double t = t_cur; t < info->duration_; t += time_step), with fuel.
  unfoldable pub scan : (Vector3 W → W → ℤ) → Fsm W → ℕ → W → Scan W
  scan map s zero t = out_of_fuel
  scan map s (suc fuel) t =
      let rest = scan map s fuel (add t time_step) in
      if lt t s.local_data.duration
      then if occupied_at map s t then collision t else rest
      else clear

  react : World W → W → Fsm W → Fsm W
  react w time_to_collision s =
      if lt time_to_collision s.emergency_time
      then change_fsm_exec_state emergency_stop s
      else change_fsm_exec_state replan_traj s

  unfoldable pub on_collision : World W → W → Fsm W → Fsm W
  unfolding react
  on_collision w time_to_collision s =
      let retry_ready =
        s.last_replan_attempt_time == 0
        || ge (seconds (sub_ℕ w.retry_now s.last_replan_attempt_time)) s.replan_retry_interval in
      let (success, u) =
        plan_from_current_traj lib w (record s { last_replan_attempt_time = w.retry_now }) in
      if retry_ready
      then if success then change_fsm_exec_state exec_traj u else react w time_to_collision u
      else react w time_to_collision s

  -- The time along the trajectory at which the scan starts.
  abbrev pub scan_start : World W → Fsm W → W
  scan_start w s = std_max (decimal 0 0) (seconds (sub_ℕ w.body_now s.local_data.start_time))

  -- The callback past its first guards, with the scan's outcome.
  unfoldable pub after_scan : World W → Fsm W → Scan W → Fsm W
  after_scan w s (collision t) = on_collision w (sub t (scan_start w s)) s
  after_scan w s _ = s

  unfoldable pub check_collision_callback : ℕ → World W → Fsm W → Fsm W
  unfolding after_scan
  check_collision_callback fuel w s =
      let t = update_local_traj_time_freeze lib w s in
      if not (same_state t.exec_state exec_traj)
        || lt (seconds (pos t.local_data.start_time)) (decimal 1 5)
      then t
      else elim w.inflate_occupancy [
        | none ↦ t
        | some map ↦ after_scan w t (scan map t fuel (scan_start w t))
      ]
