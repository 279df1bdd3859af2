-- ===== src/Replan/Emergency.antt =====
-- The way into EMERGENCY_STOP and what the node does there.
pub mod Stop
use tron2_navigation_ros.Base.{
  suc, subst, if◌then◌else◌, sym, ◌∙◌, pos, ◌≤ℤ◌, ℕ, Bool, true, false, ◌≡◌, refl, ◌≢◌, ◌⊎◌, inl,
  inr, some, arith,
}
use tron2_navigation_ros.Double.{Double}
use tron2_navigation_ros.Vector.{Library}
use tron2_navigation_ros.Replan.State.{
  goal_failed, status, bspline, ExecState, init, wait_target, emergency_stop, gen_new_traj,
  replan_traj, exec_traj, Fsm, World,
}
use tron2_navigation_ros.Replan.Plan.{
  call_emergency_stop, update_local_traj_time_freeze, change_fsm_exec_state, publish_goal_status,
}
use tron2_navigation_ros.Replan.Exec.{
  finish_process, exec_init, exec_wait_target, exec_gen_new_traj, exec_replan_traj,
  exec_reference_path, advance_waypoint, exec_trajectory_end, exec_under_way, exec_exec_traj,
  exec_emergency_stop, dispatch, exec_fsm_callback,
}
use tron2_navigation_ros.Replan.Safety.{
  Scan, collision, after_scan, on_collision, check_collision_callback,
}
use tron2_navigation_ros.Replan.Frame.{
  plan_from_current_traj-Keeps, update_local_traj_time_freeze-Keeps,
}
use tron2_navigation_ros.Replan.Events.{
  Event, exec_tick, safety_tick, odometry, frozen, cancel, preempt, rviz_goal, path, handle,
}
use tron2_navigation_ros.Replan.Entry.{newest}
use tron2_navigation_ros.Replan.Invariant.{Inv}
use tron2_navigation_ros.Replan.Entry.Messages.{
  stop_current_navigation-IsOut, path_callback-IsOut, rviz_goal_callback-IsOut,
  odometry_callback-IsOut,
}

module _ {W : Type 0} ⦃d : Double W⦄ (lib : Library W) (w : World W) (s : Fsm W) where
  advance_waypoint_out : (advance_waypoint lib w s).exec_state ≢ emergency_stop
  unfolding advance_waypoint change_fsm_exec_state
  advance_waypoint_out = ground arith

  exec_reference_path_out :
      s.exec_state ≢ emergency_stop → (exec_reference_path lib w s).exec_state ≢ emergency_stop
  unfolding exec_reference_path change_fsm_exec_state publish_goal_status
  exec_reference_path_out out = ground arith

  exec_trajectory_end_out : (exec_trajectory_end lib s).exec_state ≢ emergency_stop
  unfolding exec_trajectory_end change_fsm_exec_state publish_goal_status
  exec_trajectory_end_out = ground arith

  exec_under_way_out :
      s.exec_state ≢ emergency_stop → (exec_under_way lib w s).1.exec_state ≢ emergency_stop
  unfolding exec_under_way change_fsm_exec_state
  exec_under_way_out out = ground arith

  exec_gen_new_traj_out :
      s.exec_state ≢ emergency_stop → (exec_gen_new_traj lib w s).1.exec_state ≢ emergency_stop
  unfolding exec_gen_new_traj change_fsm_exec_state
  exec_gen_new_traj_out out = ground arith

  exec_replan_traj_out :
      s.exec_state ≢ emergency_stop → (exec_replan_traj lib w s).1.exec_state ≢ emergency_stop
  unfolding exec_replan_traj change_fsm_exec_state
  exec_replan_traj_out out = ground arith

module _ {W : Type 0} ⦃d : Double W⦄ (lib : Library W) (w : World W) (s : Fsm W) where
  exec_exec_traj_out :
      s.exec_state ≢ emergency_stop → (exec_exec_traj lib w s).1.exec_state ≢ emergency_stop
  unfolding exec_exec_traj
  exec_exec_traj_out out = ground (
    arith,
    advance_waypoint_out lib w s,
    exec_reference_path_out lib w s,
    exec_trajectory_end_out lib w s,
    exec_under_way_out lib w s,
  )

  dispatch_out :
      (x : ExecState)
      → s.exec_state ≡ x
      → x ≢ emergency_stop
      → (dispatch lib x w s).1.exec_state ≢ emergency_stop
  unfolding exec_init exec_wait_target change_fsm_exec_state
  dispatch_out init e n = ground arith
  dispatch_out wait_target e n = ground arith
  dispatch_out gen_new_traj e n = exec_gen_new_traj_out lib w s (ground arith)
  dispatch_out replan_traj e n = exec_replan_traj_out lib w s (ground arith)
  dispatch_out exec_traj e n = exec_exec_traj_out (ground arith)
  dispatch_out emergency_stop e n = absurd (n refl)

-- The failure of the goal is reported and the stop is due.
abbrev pub GaveUp : {W : Type 0} → Fsm W → Type 0
GaveUp s =
    (newest s.published ≡ some (status goal_failed))
    × (s.need_hover_stop ≡ true)
    × (s.flag_escape_emergency ≡ true)

module _ {W : Type 0} where
  finish_process-GaveUp :
      (s : Fsm W)
      → s.exec_state ≢ emergency_stop
      → (finish_process s).exec_state ≡ emergency_stop
      → GaveUp (finish_process s)
  unfolding finish_process change_fsm_exec_state publish_goal_status
  finish_process-GaveUp s out h = ground arith

  tick-GaveUp :
      (r : Bool × Fsm W)
      → r.1.exec_state ≢ emergency_stop
      → (if r.0 then r.1 else finish_process r.1).exec_state ≡ emergency_stop
      → GaveUp (if r.0 then r.1 else finish_process r.1)
  tick-GaveUp (true, t) out h = absurd (out h)
  tick-GaveUp (false, t) out h = finish_process-GaveUp t out h

module _ {W : Type 0} ⦃d : Double W⦄ (lib : Library W) (w : World W) (s : Fsm W) where
  exec_fsm_callback-GaveUp :
      s.exec_state ≢ emergency_stop
      → (exec_fsm_callback lib w s).exec_state ≡ emergency_stop
      → GaveUp (exec_fsm_callback lib w s)
  unfolding exec_fsm_callback
  exec_fsm_callback-GaveUp out h =
      let t = update_local_traj_time_freeze lib w s in
      let k = update_local_traj_time_freeze-Keeps lib w s in
      tick-GaveUp (dispatch lib t.exec_state w t)
        (dispatch_out lib w t t.exec_state refl (λ e. out (sym k.exec_state ∙ e))) h

  on_collision_flag :
      (x : W) → (on_collision lib w x s).flag_escape_emergency ≡ s.flag_escape_emergency
  unfolding on_collision change_fsm_exec_state
  on_collision_flag x = grind (arith, plan_from_current_traj-Keeps lib w)

module _ {W : Type 0} ⦃d : Double W⦄ (lib : Library W) (w : World W) (s : Fsm W) where
  after_scan_flag :
      (r : Scan W) → (after_scan lib w s r).flag_escape_emergency ≡ s.flag_escape_emergency
  unfolding after_scan
  after_scan_flag (collision t) = on_collision_flag lib w s _
  after_scan_flag _ = refl

module _ {W : Type 0} ⦃d : Double W⦄ (lib : Library W) (w : World W) (s : Fsm W) where
  check_collision_callback_entry :
      (fuel : ℕ)
      → s.exec_state ≢ emergency_stop
      → (check_collision_callback lib fuel w s).exec_state ≡ emergency_stop
      → (s.exec_state ≡ exec_traj)
        × ((check_collision_callback lib fuel w s).flag_escape_emergency ≡ s.flag_escape_emergency)
  unfolding check_collision_callback
  check_collision_callback_entry fuel out h =
      let t = update_local_traj_time_freeze lib w s in
      grind (arith, update_local_traj_time_freeze-Keeps lib w s, after_scan_flag lib w t)

  -- In a state that satisfies the invariant, a callback after which the node is in EMERGENCY_STOP and
  -- before which it was not leaves the stop trajectory due (`flag_escape_emergency_` is set). It is
  -- either the tick, which has then reported GOAL_FAILED and asks for a new target
  -- (`need_hover_stop_`), or the safety timer, in EXEC_TRAJ.
  pub handle_enters_emergency_stop :
      (e : Event W)
      → Inv s
      → s.exec_state ≢ emergency_stop
      → (handle lib w e s).exec_state ≡ emergency_stop
      → ((handle lib w e s).flag_escape_emergency ≡ true)
        × (((e ≡ exec_tick) × GaveUp (handle lib w e s))
            ⊎ ((fuel : ℕ) × (e ≡ safety_tick fuel) × (s.exec_state ≡ exec_traj)))
  unfolding handle
  handle_enters_emergency_stop exec_tick v out h =
      let g = exec_fsm_callback-GaveUp lib w s out h in (g.2, inl (refl, g))
  handle_enters_emergency_stop (safety_tick fuel) v out h =
      let (at, flag) = check_collision_callback_entry fuel out h in
      (flag ∙ v.armed (inl at), inr (fuel, refl, at))
  handle_enters_emergency_stop (odometry msg) v out h =
      absurd (odometry_callback-IsOut lib w _ (inr refl) s out msg h)
  handle_enters_emergency_stop (frozen b) v out h = absurd (out h)
  handle_enters_emergency_stop cancel v out h =
      absurd (stop_current_navigation-IsOut _ (inr refl) w _ true s h)
  handle_enters_emergency_stop preempt v out h =
      absurd (stop_current_navigation-IsOut _ (inr refl) w _ false s h)
  handle_enters_emergency_stop (rviz_goal msg) v out h =
      absurd (rviz_goal_callback-IsOut lib w _ (inr refl) s out msg h)
  handle_enters_emergency_stop (path msg) v out h =
      absurd (path_callback-IsOut lib w _ (inr refl) s out msg h)
