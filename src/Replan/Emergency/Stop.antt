-- ===== src/Replan/Emergency/Stop.antt =====
-- The stop that follows when EMERGENCY_STOP is entered.
use tron2_navigation_ros.Base.{
  if◌then◌else◌, subst, sym, ◌∙◌, pos, ◌≤ℤ◌, ℕ, Bool, true, false, ◌≡◌, refl, ◌≢◌, ◌⊎◌, inl, inr,
  some, arith,
}
use tron2_navigation_ros.Double.{Double}
use tron2_navigation_ros.Vector.{Library}
use tron2_navigation_ros.Replan.State.{bspline, emergency_stop, exec_traj, Fsm, World}
use tron2_navigation_ros.Replan.Plan.{
  call_emergency_stop, update_local_traj_time_freeze, change_fsm_exec_state, publish_goal_status,
}
use tron2_navigation_ros.Replan.Exec.{
  finish_process, exec_emergency_stop, dispatch, exec_fsm_callback,
}
use tron2_navigation_ros.Replan.Safety.{
  Scan, collision, after_scan, on_collision, check_collision_callback,
}
use tron2_navigation_ros.Replan.Frame.{
  plan_from_current_traj-Keeps, update_local_traj_time_freeze-Keeps,
}
use tron2_navigation_ros.Replan.Events.{Event, exec_tick, safety_tick, handle}
use tron2_navigation_ros.Replan.Entry.{newest}
use tron2_navigation_ros.Replan.Invariant.{Inv}
use tron2_navigation_ros.Replan.Emergency.{dispatch_out, GaveUp, handle_enters_emergency_stop}

-- The stop at the measured position has replaced the trajectory of `s`, and is sent.
abbrev pub IsStopped : {W : Type 0} → World W → Fsm W → Fsm W → Type 0
IsStopped w s t =
    let traj = w.emergency_traj s.odom_pos s.local_data in
    (t.exec_state ≡ emergency_stop)
    × (t.local_data ≡ traj)
    × (t.flag_escape_emergency ≡ false)
    × (newest t.published ≡ some (bspline traj))

module _ {W : Type 0} where
  finish_process-count :
      (s : Fsm W)
      → s.exec_state ≢ emergency_stop
      → (finish_process s).exec_state ≡ emergency_stop
      → (finish_process s).replan_fail_count ≡ 0
  unfolding finish_process change_fsm_exec_state publish_goal_status
  finish_process-count s out h = ground arith

  tick-count :
      (r : Bool × Fsm W)
      → r.1.exec_state ≢ emergency_stop
      → (if r.0 then r.1 else finish_process r.1).exec_state ≡ emergency_stop
      → (if r.0 then r.1 else finish_process r.1).replan_fail_count ≡ 0
  tick-count (true, t) out h = absurd (out h)
  tick-count (false, t) out h = finish_process-count t out h

module _ {W : Type 0} ⦃d : Double W⦄ (lib : Library W) (w : World W) (s : Fsm W) where
  exec_fsm_callback-count :
      s.exec_state ≢ emergency_stop
      → (exec_fsm_callback lib w s).exec_state ≡ emergency_stop
      → (exec_fsm_callback lib w s).replan_fail_count ≡ 0
  unfolding exec_fsm_callback
  exec_fsm_callback-count out h =
      let t = update_local_traj_time_freeze lib w s in
      let k = update_local_traj_time_freeze-Keeps lib w s in
      tick-count (dispatch lib t.exec_state w t)
        (dispatch_out lib w t t.exec_state refl (λ e. out (sym k.exec_state ∙ e))) h

  on_collision-count : (x : W) → (on_collision lib w x s).replan_fail_count ≡ s.replan_fail_count
  unfolding on_collision change_fsm_exec_state
  on_collision-count x = grind (arith, plan_from_current_traj-Keeps lib w)

module _ {W : Type 0} ⦃d : Double W⦄ (lib : Library W) (w : World W) (s : Fsm W) where
  after_scan-count : (r : Scan W) → (after_scan lib w s r).replan_fail_count ≡ s.replan_fail_count
  unfolding after_scan
  after_scan-count (collision t) = on_collision-count lib w s _
  after_scan-count _ = refl

module _ {W : Type 0} ⦃d : Double W⦄ (lib : Library W) (w : World W) (s : Fsm W) where
  check_collision_callback-count :
      (fuel : ℕ) → (check_collision_callback lib fuel w s).replan_fail_count ≡ s.replan_fail_count
  unfolding check_collision_callback
  check_collision_callback-count fuel =
      let t = update_local_traj_time_freeze lib w s in
      grind (arith, update_local_traj_time_freeze-Keeps lib w s, after_scan-count lib w t)

  -- Whatever callback has led into EMERGENCY_STOP, the count of failures is 0 then.
  handle-count :
      (e : Event W)
      → Inv s
      → s.exec_state ≢ emergency_stop
      → (handle lib w e s).exec_state ≡ emergency_stop
      → ((e ≡ exec_tick) × GaveUp (handle lib w e s))
        ⊎ ((fuel : ℕ) × (e ≡ safety_tick fuel) × (s.exec_state ≡ exec_traj))
      → (handle lib w e s).replan_fail_count ≡ 0
  unfolding handle
  handle-count e v out h (inl (q, g)) =
      subst (λ x. (handle lib w x s).replan_fail_count ≡ 0) (sym q)
        (exec_fsm_callback-count lib w s out
          (subst (λ x. (handle lib w x s).exec_state ≡ emergency_stop) q h))
  handle-count e v out h (inr (fuel, q, at)) =
      subst (λ x. (handle lib w x s).replan_fail_count ≡ 0) (sym q)
        (check_collision_callback-count fuel ∙ v.no_failures at)

module _ {W : Type 0} ⦃d : Double W⦄ (lib : Library W) (w : World W) (s : Fsm W) where
  exec_emergency_stop-IsStopped :
      s.exec_state ≡ emergency_stop
      → s.flag_escape_emergency ≡ true
      → s.replan_fail_count ≡ 0
      → pos 1 ≤ℤ s.max_replan_fail_count
      → IsStopped w s
          (let r = exec_emergency_stop lib w s in if r.0 then r.1 else finish_process r.1)
  unfolding exec_emergency_stop finish_process change_fsm_exec_state publish_goal_status
      call_emergency_stop
  exec_emergency_stop-IsStopped e f c m = ground arith

module _ {W : Type 0} ⦃d : Double W⦄ (lib : Library W) (w : World W) (s : Fsm W) where
  exec_fsm_callback-IsStopped :
      s.exec_state ≡ emergency_stop
      → s.flag_escape_emergency ≡ true
      → s.replan_fail_count ≡ 0
      → pos 1 ≤ℤ s.max_replan_fail_count
      → IsStopped w (update_local_traj_time_freeze lib w s) (exec_fsm_callback lib w s)
  unfolding exec_fsm_callback
  exec_fsm_callback-IsStopped e f c m =
      let t = update_local_traj_time_freeze lib w s in
      let k = update_local_traj_time_freeze-Keeps lib w s in
      subst
        (λ x. IsStopped w t (let r = dispatch lib x w t in if r.0 then r.1 else finish_process r.1))
        (sym (k.exec_state ∙ e))
        (exec_emergency_stop-IsStopped lib w t (k.exec_state ∙ e) (k.flag_escape_emergency ∙ f)
          (k.replan_fail_count ∙ c)
          (subst (λ x. pos 1 ≤ℤ x.max_replan_fail_count) (sym k.config) m))

module _ {W : Type 0} ⦃d : Double W⦄ (lib : Library W) (w : World W) (s : Fsm W) where
  -- In a state that satisfies the invariant, let a callback lead into EMERGENCY_STOP from another
  -- state, where the limit on the failures is at least 1. If the next callback is the tick, it
  -- replaces the local trajectory, as the freeze of its time has left it, by the planner's stop at the
  -- measured position, publishes that stop as its newest message, clears the flag that asked for it and
  -- stays in EMERGENCY_STOP.
  pub tick_after_entry :
      (e : Event W) (v : World W)
      → Inv s
      → s.exec_state ≢ emergency_stop
      → (handle lib w e s).exec_state ≡ emergency_stop
      → pos 1 ≤ℤ (handle lib w e s).max_replan_fail_count
      → let t = handle lib w e s in
        IsStopped v (update_local_traj_time_freeze lib v t) (handle lib v exec_tick t)
  unfolding handle
  tick_after_entry e v i out h m =
      let t = handle lib w e s in
      let g = handle_enters_emergency_stop lib w s e i out h in
      exec_fsm_callback-IsStopped lib v t h g.0 (handle-count lib w s e i out h g.1) m
