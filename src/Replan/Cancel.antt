-- ===== src/Replan/Cancel.antt =====
-- After a cancel or a preempt the node stays idle until a new goal arrives.
use tron2_navigation_ros.Base.{
  ℕ, Bool, true, false, ◌&&◌, not, ◌≡◌, refl, List, [], ◌∷◌, none, arith, ◌∙◌,
}
use tron2_navigation_ros.Double.{Double}
use tron2_navigation_ros.Vector.{Library}
use tron2_navigation_ros.Replan.State.{wait_target, Fsm, World, Odometry}
use tron2_navigation_ros.Replan.Plan.{
  is_preset_target, stop_current_navigation, update_local_traj_time_freeze,
}
use tron2_navigation_ros.Replan.Exec.{exec_wait_target, exec_fsm_callback}
use tron2_navigation_ros.Replan.Safety.{check_collision_callback}
use tron2_navigation_ros.Replan.Events.{
  Event, exec_tick, safety_tick, odometry, frozen, cancel, preempt, rviz_goal, path, handle, run,
  record_odometry, process_pending, start_preset, odometry_callback,
}

-- No target, no cached path, and no preset waypoints still to start.
pub record IsIdle {W : Type 0} (s : Fsm W) : Type 0 where
  pub waiting : s.exec_state ≡ wait_target
  pub no_target : s.have_target ≡ false
  pub no_pending : s.pending_reference_path ≡ none
  pub started : (is_preset_target s.navi_mode && not s.preset_started) ≡ false

-- Timers, odometry and the controller's report.
abbrev pub IsQuiet : {W : Type 0} → Event W → Type 0
IsQuiet exec_tick = Unit {0}
IsQuiet (safety_tick _) = Unit {0}
IsQuiet (odometry _) = Unit {0}
IsQuiet (frozen _) = Unit {0}
IsQuiet _ = ⊥

abbrev pub AllQuiet : {W : Type 0} → List (World W × Event W) → Type 0
AllQuiet [] = Unit {0}
AllQuiet ((w, e) ∷ es) = IsQuiet e × AllQuiet es

-- Idle as before, with nothing published.
abbrev Unmoved : {W : Type 0} → Fsm W → Fsm W → Type 0
Unmoved s t = IsIdle t × (t.published ≡ s.published)

module _ {W : Type 0} ⦃d : Double W⦄ (lib : Library W) (w : World W) (s : Fsm W)
    (v : IsIdle s) where
  freeze-Unmoved : Unmoved s (update_local_traj_time_freeze lib w s)
  unfolding update_local_traj_time_freeze
  freeze-Unmoved = ground arith

  exec_fsm_callback-Unmoved : Unmoved s (exec_fsm_callback lib w s)
  unfolding exec_fsm_callback exec_wait_target
  exec_fsm_callback-Unmoved = ground (arith, freeze-Unmoved)

  check_collision_callback-Unmoved : (fuel : ℕ) → Unmoved s (check_collision_callback lib fuel w s)
  unfolding check_collision_callback
  check_collision_callback-Unmoved fuel = ground (arith, freeze-Unmoved)

  process_pending-Unmoved : (first : Bool) → Unmoved s (process_pending lib w first s)
  unfolding process_pending
  process_pending-Unmoved true = ground arith
  process_pending-Unmoved false = (v, refl)

  start_preset-Unmoved : Unmoved s (start_preset lib w s)
  unfolding start_preset
  start_preset-Unmoved = ground arith

  record_odometry-Unmoved : (msg : Odometry W) → Unmoved s (record_odometry lib msg s)
  unfolding record_odometry
  record_odometry-Unmoved msg = ground arith

module _ {W : Type 0} where
  Unmoved-trans : (s t u : Fsm W) → Unmoved s t → Unmoved t u → Unmoved s u
  Unmoved-trans s t u (v, p) (v', q) = (v', q ∙ p)

module _ {W : Type 0} ⦃d : Double W⦄ (lib : Library W) where
  odometry_callback-Unmoved :
      (w : World W) (msg : Odometry W) (s : Fsm W)
      → IsIdle s
      → Unmoved s (odometry_callback lib w msg s)
  unfolding odometry_callback
  odometry_callback-Unmoved w msg s v =
      let t = record_odometry lib msg s in
      let u = process_pending lib w (not s.have_odom) t in
      let a = record_odometry-Unmoved lib w s v msg in
      let b = process_pending-Unmoved lib w t a.0 (not s.have_odom) in
      Unmoved-trans s t _ a (Unmoved-trans t u _ b (start_preset-Unmoved lib w u b.0))

  handle-Unmoved :
      (w : World W) (e : Event W) (s : Fsm W) → IsQuiet e → IsIdle s → Unmoved s (handle lib w e s)
  unfolding handle
  handle-Unmoved w exec_tick s q v = exec_fsm_callback-Unmoved lib w s v
  handle-Unmoved w (safety_tick fuel) s q v = check_collision_callback-Unmoved lib w s v fuel
  handle-Unmoved w (odometry msg) s q v = odometry_callback-Unmoved w msg s v
  handle-Unmoved w (frozen b) s q v = ground arith
  handle-Unmoved w cancel s q v = elim q [ ]
  handle-Unmoved w preempt s q v = elim q [ ]
  handle-Unmoved w (rviz_goal msg) s q v = elim q [ ]
  handle-Unmoved w (path msg) s q v = elim q [ ]

  run-Unmoved :
      (es : List (World W × Event W)) (s : Fsm W)
      → AllQuiet es
      → IsIdle s
      → Unmoved s (run lib es s)
  unfolding run
  run-Unmoved [] s q v = (v, refl)
  run-Unmoved ((w, e) ∷ es) s (q, qs) v =
      let first = handle-Unmoved w e s q v in
      Unmoved-trans s (handle lib w e s) _ first (run-Unmoved es (handle lib w e s) qs first.0)

  -- After a cancel or a preempt, in a node whose preset waypoints, if any, have been started, timers,
  -- odometry and reports of the controller, in any number and order, leave it in WAIT_TARGET with no
  -- target and no cached path, and publish nothing: no trajectory follows the stop.
  pub run-stop_current_navigation :
      (w : World W) (nought : W) (report_cancel : Bool) (s : Fsm W) (es : List (World W × Event W))
      → (is_preset_target s.navi_mode && not s.preset_started) ≡ false
      → AllQuiet es
      → let t = stop_current_navigation w nought report_cancel s in
        IsIdle (run lib es t) × ((run lib es t).published ≡ t.published)
  unfolding stop_current_navigation
  run-stop_current_navigation w nought report_cancel s es started q =
      run-Unmoved es _ q (ground arith)
