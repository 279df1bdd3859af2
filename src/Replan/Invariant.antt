-- ===== src/Replan/Invariant.antt =====
-- What holds of SCANReplanFSM between two callbacks.
pub mod Tick
pub mod Messages
pub mod Runs
use mathlib.Core.List.{reverse}
use tron2_navigation_ros.Base.{
  ℕ, zero, suc, ◌+◌, ◌≤◌, ◌<◌, Bool, true, false, ◌&&◌, if◌then◌else◌, Bool-cases, ◌≡◌, refl, ◌⊎◌,
  inl, inr, List, [], ◌∷◌, ℤ, pos, ◌≤ℤ◌, arith, length, Option-cases, Option, none, some,
}
use tron2_navigation_ros.Double.{Double}
use tron2_navigation_ros.Vector.{Vector3, Library}
use tron2_navigation_ros.Replan.State.{
  ExecState, init, wait_target, gen_new_traj, replan_traj, exec_traj, emergency_stop, Fsm, World,
  PathMsg, PoseStamped, Odometry, Config,
}
use tron2_navigation_ros.Replan.Plan.{
  change_fsm_exec_state, publish_goal_status, call_emergency_stop, stop_current_navigation,
  is_waypoint_sequence_mode, is_reference_path, has_next_waypoint, update_local_traj_time_freeze,
}
use tron2_navigation_ros.Replan.Target.{
  plan_global_traj_by_given_wps, waypoint_callback, waypoint_goal, rviz_goal_callback,
}
use tron2_navigation_ros.Replan.Path.{
  Gathered, restart, gather, limit_waypoints, close_waypoints, follow_path, use_gathered, use_path,
  receive_path, path_callback,
}
use tron2_navigation_ros.Replan.Exec.{
  finish_process, trajectory_ended, exec_init, exec_wait_target, exec_gen_new_traj,
  exec_replan_traj, exec_reference_path, advance_waypoint, exec_trajectory_end, exec_under_way,
  exec_exec_traj, exec_emergency_stop, dispatch, exec_fsm_callback,
}
use tron2_navigation_ros.Replan.Safety.{
  on_collision, after_scan, check_collision_callback, Scan, scan, collision,
}
use tron2_navigation_ros.Replan.Events.{
  Event, exec_tick, safety_tick, odometry, frozen, cancel, preempt, rviz_goal, path, init_fsm,
  record_odometry, process_pending, start_preset, odometry_callback, handle, run,
}
use tron2_navigation_ros.Replan.Frame.{
  Keeps, update_local_traj_time_freeze-Keeps, adjust_global_target_if_occupied-Keeps,
  set_start_state-Keeps, call_rebound_replan-Keeps, plan_next_waypoint-Keeps,
  plan_global_traj_by_waypoints-Keeps, plan_from_current_traj-Keeps,
}

-- What every case of the tick establishes before finishProcess.
pub record Sound {W : Type 0} (s : Fsm W) : Type 0 where
  -- While a trajectory is followed or replanned, an emergency stop would send a stop trajectory.
  pub armed :
      (s.exec_state ≡ exec_traj) ⊎ (s.exec_state ≡ replan_traj) → s.flag_escape_emergency ≡ true
  pub no_failures : s.exec_state ≡ exec_traj → s.replan_fail_count ≡ 0
  pub waypoint :
      ((s.active_waypoints ≡ []) × (s.current_wp ≡ 0)) ⊎ (s.current_wp < length s.active_waypoints)

pub record Inv {W : Type 0} (s : Fsm W) : Type 0 where
  pub sound : Sound s
  pub open sound use *
  pub failures :
      (pos (suc s.replan_fail_count) ≤ℤ s.max_replan_fail_count) ⊎ (s.replan_fail_count ≤ 1)

-- What a case of the tick leaves: the invariant if it returned.
abbrev pub After : {W : Type 0} → Bool × Fsm W → Type 0
After (true, s) = Inv s
After (false, s) = Sound s

module _ {W : Type 0} where
  pub has_next_waypoint-lt :
      (ps : List (Vector3 W)) (i : ℕ) → has_next_waypoint ps i ≡ true → i + 1 < length ps
  has_next_waypoint-lt [] i h = cc
  has_next_waypoint-lt (_ ∷ []) i h = cc
  has_next_waypoint-lt (_ ∷ q ∷ r) zero h = omega arith
  has_next_waypoint-lt (_ ∷ q ∷ r) (suc i) h = omega (arith, has_next_waypoint-lt (q ∷ r) i h)

  pub Keeps-Inv : {s t : Fsm W} → Keeps s t → Inv s → Inv t
  Keeps-Inv k v = ground arith

  pub stop_current_navigation-Inv :
      (w : World W) (x : W) (b : Bool) (s : Fsm W) → Inv (stop_current_navigation w x b s)
  unfolding stop_current_navigation
  stop_current_navigation-Inv w x b s = ground arith

  pub finish_process-Inv : (s : Fsm W) → Sound s → Inv (finish_process s)
  unfolding finish_process
  finish_process-Inv s v = ground arith

  pub exec_init-After : (s : Fsm W) → Inv s → After (exec_init s)
  unfolding exec_init change_fsm_exec_state
  exec_init-After s v = ground arith

  pub exec_wait_target-After : (s : Fsm W) → Inv s → After (exec_wait_target s)
  unfolding exec_wait_target change_fsm_exec_state
  exec_wait_target-After s v = ground arith

  pub choice-After :
      (reference more near ended : Bool) {a b c : Fsm W} (r : Bool × Fsm W)
      → Inv a
      → (more ≡ true → Inv b)
      → Inv c
      → After r
      → After (
          if reference
          then (true, a)
          else if more && near
          then (true, b)
          else if ended
          then (true, if more then b else c)
          else r)
  choice-After true more near ended r a b c k = a
  choice-After false true true ended r a b c k = b refl
  choice-After false true false true r a b c k = b refl
  choice-After false true false false r a b c k = k
  choice-After false false near true r a b c k = c
  choice-After false false near false r a b c k = k
