-- ===== src/Replan/Failure.antt =====
-- A planner that always fails brings the node to the emergency stop.
use tron2_navigation_ros.Base.{
  suc, ◌+◌, Bool, true, false, not, ◌≡◌, ◌⊎◌, inl, inr, List, [], ◌∷◌, pos, ◌≤ℤ◌, arith, sym, ap,
  subst, length, ◌∙◌, if◌then◌else◌, ◌==◌,
}
use tron2_navigation_ros.Double.{Double}
use tron2_navigation_ros.Vector.{Vector3, Library}
use tron2_navigation_ros.Replan.State.{gen_new_traj, emergency_stop, LocalTrajData, Fsm, World}
use tron2_navigation_ros.Replan.Plan.{
  update_local_traj_time_freeze, change_fsm_exec_state, publish_goal_status,
}
use tron2_navigation_ros.Replan.Target.{
  call_rebound_replan, set_start_state_from_odom_or_current_traj,
}
use tron2_navigation_ros.Replan.Exec.{
  finish_process, exec_gen_new_traj, exec_fsm_callback, dispatch, throttled,
}
use tron2_navigation_ros.Replan.Events.{Event, exec_tick, run, handle}
use tron2_navigation_ros.Replan.Frame.{
  update_local_traj_time_freeze-Keeps, set_start_state-Keeps, call_rebound_replan-Keeps,
}
use tron2_navigation_ros.Replan.Emergency.{GaveUp}

-- The planner finds no local trajectory, whatever it is asked.
abbrev pub Fails : {W : Type 0} → World W → Type 0
Fails {W} w =
    (a b c p q : Vector3 W) (x y : Bool) (info : LocalTrajData W)
    → (w.rebound_replan a b c p q x y info).0 ≡ false

abbrev pub ticks : {W : Type 0} → List (World W) → List (World W × Event W)
ticks [] = []
ticks (w ∷ ws) = (w, exec_tick) ∷ ticks ws

abbrev pub AllFail : {W : Type 0} → List (World W) → Type 0
AllFail [] = Unit {0}
AllFail (w ∷ ws) = Fails w × AllFail ws

module _ {W : Type 0} ⦃d : Double W⦄ (lib : Library W) (w : World W) (s : Fsm W) (f : Fails w) where
  call_rebound_replan_fails : (p r : Bool) → (call_rebound_replan lib w p r s).0 ≡ false
  unfolding call_rebound_replan
  call_rebound_replan_fails p r = grind arith

-- One failed attempt: the failure is counted, or it is the last.
abbrev Counted : {W : Type 0} → Fsm W → Fsm W → Type 0
Counted s t =
    (t.config ≡ s.config)
    × (((pos (suc (suc s.replan_fail_count)) ≤ℤ s.max_replan_fail_count)
          × (t.exec_state ≡ gen_new_traj)
          × (t.replan_fail_count ≡ suc s.replan_fail_count))
        ⊎ ((s.max_replan_fail_count ≤ℤ pos (suc s.replan_fail_count))
            × (t.exec_state ≡ emergency_stop)
            × GaveUp t))

module _ {W : Type 0} ⦃d : Double W⦄ (lib : Library W) (w : World W) (s : Fsm W) (f : Fails w) where
  exec_gen_new_traj_fails :
      s.exec_state ≡ gen_new_traj
      → throttled lib w.body_now s ≡ false
      → let r = exec_gen_new_traj lib w s in
        (r.0 ≡ false)
        × (r.1.config ≡ s.config)
        × (r.1.exec_state ≡ gen_new_traj)
        × (r.1.replan_fail_count ≡ suc s.replan_fail_count)
  unfolding exec_gen_new_traj change_fsm_exec_state
  exec_gen_new_traj_fails e ready =
      let a : Fsm W = record s { last_replan_attempt_time = w.body_now } in
      let t = set_start_state_from_odom_or_current_traj lib w a in
      let random = not (t.continuously_called_times == 1) in
      ground (
        arith,
        set_start_state-Keeps lib w a,
        call_rebound_replan-Keeps lib w t true random,
        call_rebound_replan_fails lib w t f true random,
      )

module _ {W : Type 0} where
  finish_process-Counted :
      (s t : Fsm W)
      → t.config ≡ s.config
      → t.exec_state ≡ gen_new_traj
      → t.replan_fail_count ≡ suc s.replan_fail_count
      → Counted s (finish_process t)
  unfolding finish_process change_fsm_exec_state publish_goal_status
  finish_process-Counted s t c e k = ground arith

module _ {W : Type 0} ⦃d : Double W⦄ (lib : Library W) (w : World W) (s : Fsm W) (f : Fails w) where
  freeze_throttled :
      throttled lib w.body_now (update_local_traj_time_freeze lib w s) ≡ throttled lib w.body_now s
  unfolding update_local_traj_time_freeze
  freeze_throttled = ground arith

  exec_fsm_callback-Counted :
      s.exec_state ≡ gen_new_traj
      → throttled lib w.body_now s ≡ false
      → Counted s (exec_fsm_callback lib w s)
  unfolding exec_fsm_callback
  exec_fsm_callback-Counted e ready =
      let t = update_local_traj_time_freeze lib w s in
      let k = update_local_traj_time_freeze-Keeps lib w s in
      let at = k.exec_state ∙ e in
      let (more, config, gen, count) =
        exec_gen_new_traj_fails lib w t f at (freeze_throttled ∙ ready) in
      subst (λ x. Counted s (let r = dispatch lib x w t in if r.0 then r.1 else finish_process r.1))
        (sym at)
        (subst
          (λ b.
            Counted s (let u = (exec_gen_new_traj lib w t).1 in if b then u else finish_process u))
          (sym more)
          (finish_process-Counted s (exec_gen_new_traj lib w t).1 (config ∙ k.config) gen
            (count ∙ ap suc k.replan_fail_count)))

module _ {W : Type 0} ⦃d : Double W⦄ (lib : Library W) where
  -- No tick comes before the retry interval is over.
  abbrev pub AllReady : List (World W) → Fsm W → Type 0
  AllReady [] s = Unit {0}
  AllReady (w ∷ ws) s =
      (throttled lib w.body_now s ≡ false) × AllReady ws (exec_fsm_callback lib w s)

  -- In GEN_NEW_TRAJ, with a planner that fails at every tick and no tick within the retry interval,
  -- as many ticks as failures are left to the limit, at least one, bring the node to EMERGENCY_STOP:
  -- it has reported GOAL_FAILED, asks for a new target, and the stop trajectory is due.
  pub run_fails :
      (w : World W) (ws : List (World W)) (s : Fsm W)
      → s.exec_state ≡ gen_new_traj
      → s.max_replan_fail_count ≡ pos (s.replan_fail_count + length (w ∷ ws))
      → AllFail (w ∷ ws)
      → AllReady (w ∷ ws) s
      → let t = run lib (ticks (w ∷ ws)) s in (t.exec_state ≡ emergency_stop) × GaveUp t
  unfolding run handle
  run_fails w [] s e limit (f, _) (ready, _) =
      let c = exec_fsm_callback-Counted lib w s f e ready in ground arith
  run_fails w (w' ∷ ws) s e limit (f, fs) (ready, readies) =
      let (config, outcome) = exec_fsm_callback-Counted lib w s f e ready in
      elim outcome [
        | inl (_, gen, count) ↦
            run_fails w' ws (exec_fsm_callback lib w s) gen (ground arith) fs readies
        | inr (over, _, _) ↦ absurd (ground arith)
      ]
