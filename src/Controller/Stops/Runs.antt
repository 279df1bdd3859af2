-- ===== src/Controller/Stops/Runs.antt =====
-- closed_loop_controller_safe.cpp: runs during which the chassis is told nothing but to stop.
use tron2_navigation_ros.Base.{
  ◌≡◌, refl, sym, subst, ◌∙◌, Bool, true, false, List, [], ◌∷◌, arith, back, if◌then◌else◌,
}
use tron2_navigation_ros.Double.{Double, lt, decimal}
use tron2_navigation_ros.Vector.{Library}
use tron2_navigation_ros.Controller.State.{
  Controller, Bspline, Clock, GoalStatus, goal_running, goal_reached, goal_failed, goal_cancel,
  other_status,
}
use tron2_navigation_ros.Controller.Command.{clamp, publish_execution_frozen, publish_stop}
use tron2_navigation_ros.Controller.Tracking.{halt}
use tron2_navigation_ros.Controller.Events.{
  Event, bspline, odom, cancel, pause, goal_status, timer, handle, run, sample_trajectory, accept,
  reject, bspline_callback, odom_callback, cancel_callback, pause_callback, goal_status_callback,
}
use tron2_navigation_ros.Controller.Stops.{
  StopsOnly, unchanged, stop_rate, Stops, StopsOnly-trans, bspline_callback-Stops,
  cancel_callback-Stops, pause_callback-Stops, goal_status_callback-Stops, halt-Stops, paused-halts,
  ended-halts, sample_trajectory-Same,
}

-- The events during which a paused controller stays paused, and an ended goal ended.
abbrev pub IsPauseKept : {W : Type 0} → Event W → Type 0
IsPauseKept (pause b) = b ≡ true
IsPauseKept _ = Unit {0}

abbrev pub IsEndKept : {W : Type 0} → Event W → Type 0
IsEndKept (goal_status goal_running) = ⊥
IsEndKept _ = Unit {0}

abbrev pub AllEvents : {W : Type 0} → (Event W → Type 0) → List (Event W × Clock) → Type 0
AllEvents P [] = Unit {0}
AllEvents P (e ∷ es) = P e.0 × AllEvents P es

-- A stopped goal, as goalStatusCallback leaves it.
abbrev pub IsEnded : {W : Type 0} → Controller W → Type 0
IsEnded s = (s.terminal_status_active ≡ true) × (s.receive_traj ≡ false)

module _ {W : Type 0} ⦃d : Double W⦄ (lib : Library W) where
  keeps_flag :
      (b : Bool) (s t : Controller W) → s.paused ≡ t.paused → (if b then s else t).paused ≡ t.paused
  keeps_flag true s t e = e
  keeps_flag false s t e = refl

  reject-paused : (clock : Clock) (s : Controller W) → (reject lib clock s).paused ≡ s.paused
  unfolding reject publish_stop
  reject-paused clock s = refl

  accept-paused :
      (msg : Bspline W) (clock : Clock) (s : Controller W)
      → (accept lib msg clock s).paused ≡ s.paused
  unfolding accept publish_stop publish_execution_frozen
  accept-paused msg clock s =
      keeps_flag (lt (back s.trajectory_arc_lengths (decimal 0 0)) (decimal 1 4)) _ _ refl

  bspline_callback-paused :
      (msg : Bspline W) (clock : Clock) (s : Controller W)
      → (bspline_callback lib msg clock s).paused ≡ s.paused
  unfolding bspline_callback
  bspline_callback-paused msg clock s =
      let e = sample_trajectory-Same lib msg s in
      let f = accept-paused msg clock (sample_trajectory lib msg s) in
      let g = reject-paused clock s in ground arith

  cancel_callback-paused :
      (clock : Clock) (s : Controller W) → (cancel_callback lib clock s).paused ≡ s.paused
  unfolding cancel_callback publish_stop publish_execution_frozen
  cancel_callback-paused clock s = refl

  goal_status_callback-paused :
      (status : GoalStatus) (clock : Clock) (s : Controller W)
      → (goal_status_callback lib status clock s).paused ≡ s.paused
  unfolding goal_status_callback
  goal_status_callback-paused goal_running clock s = refl
  goal_status_callback-paused goal_reached clock s = cancel_callback-paused clock _
  goal_status_callback-paused goal_failed clock s = cancel_callback-paused clock _
  goal_status_callback-paused goal_cancel clock s = cancel_callback-paused clock _
  goal_status_callback-paused other_status clock s = refl

  pause_callback-paused :
      (b : Bool) (clock : Clock) (s : Controller W) → (pause_callback lib b clock s).paused ≡ b
  unfolding pause_callback publish_stop
  pause_callback-paused true clock s = refl
  pause_callback-paused false clock s = refl

  halt-flags :
      (b : Bool) (clock : Clock) (s : Controller W)
      → let t = halt lib b clock s in
        (t.paused ≡ s.paused)
        × (t.terminal_status_active ≡ s.terminal_status_active)
        × (t.receive_traj ≡ s.receive_traj)
  unfolding halt publish_stop publish_execution_frozen
  halt-flags b clock s = (refl, refl, refl)

  handle-paused :
      (e : Event W) (clock : Clock) (s : Controller W)
      → IsPauseKept e
      → s.paused ≡ true
      → let t = handle lib e clock s in Stops s t × (t.paused ≡ true)
  unfolding handle odom_callback
  handle-paused (bspline msg) clock s k h =
      (bspline_callback-Stops lib msg clock s, bspline_callback-paused msg clock s ∙ h)
  handle-paused (odom p q) clock s k h = ((refl, unchanged), h)
  handle-paused cancel clock s k h =
      (cancel_callback-Stops lib clock s, cancel_callback-paused clock s ∙ h)
  handle-paused (pause b) clock s k h =
      (pause_callback-Stops lib b clock s, pause_callback-paused b clock s ∙ k)
  handle-paused (goal_status status) clock s k h = (
    goal_status_callback-Stops lib status clock s,
    goal_status_callback-paused status clock s ∙ h,
  )
  handle-paused timer clock s k h =
      subst (λ t. Stops s t × (t.paused ≡ true)) (sym (paused-halts lib clock s h))
        (halt-Stops lib true clock s, (halt-flags true clock s).0 ∙ h)

  unchanged-IsEnded :
      (s t : Controller W)
      → IsEnded s
      → (t.terminal_status_active ≡ s.terminal_status_active) × (t.receive_traj ≡ s.receive_traj)
      → IsEnded t
  unchanged-IsEnded s t h e = (e.0 ∙ h.0, e.1 ∙ h.1)

  bspline_callback-IsEnded :
      (msg : Bspline W) (clock : Clock) (s : Controller W)
      → IsEnded s
      → IsEnded (bspline_callback lib msg clock s)
  unfolding bspline_callback reject publish_stop
  bspline_callback-IsEnded msg clock s h = ground arith

  cancel_callback-IsEnded :
      (clock : Clock) (s : Controller W)
      → s.terminal_status_active ≡ true
      → IsEnded (cancel_callback lib clock s)
  unfolding cancel_callback publish_stop publish_execution_frozen
  cancel_callback-IsEnded clock s h = (h, refl)

  pause_callback-IsEnded :
      (b : Bool) (clock : Clock) (s : Controller W)
      → IsEnded s
      → IsEnded (pause_callback lib b clock s)
  unfolding pause_callback publish_stop
  pause_callback-IsEnded true clock s h = h
  pause_callback-IsEnded false clock s h = h

  goal_status_callback-IsEnded :
      (status : GoalStatus) (clock : Clock) (s : Controller W)
      → IsEndKept {W = W} (goal_status status)
      → IsEnded s
      → IsEnded (goal_status_callback lib status clock s)
  unfolding goal_status_callback
  goal_status_callback-IsEnded goal_running clock s k h = absurd k
  goal_status_callback-IsEnded goal_reached clock s k h = cancel_callback-IsEnded clock _ refl
  goal_status_callback-IsEnded goal_failed clock s k h = cancel_callback-IsEnded clock _ refl
  goal_status_callback-IsEnded goal_cancel clock s k h = cancel_callback-IsEnded clock _ refl
  goal_status_callback-IsEnded other_status clock s k h = h

  handle-IsEnded :
      (e : Event W) (clock : Clock) (s : Controller W)
      → IsEndKept e
      → IsEnded s
      → let t = handle lib e clock s in Stops s t × IsEnded t
  unfolding handle odom_callback
  handle-IsEnded (bspline msg) clock s k h =
      (bspline_callback-Stops lib msg clock s, bspline_callback-IsEnded msg clock s h)
  handle-IsEnded (odom p q) clock s k h = ((refl, unchanged), h)
  handle-IsEnded cancel clock s k h =
      (cancel_callback-Stops lib clock s, cancel_callback-IsEnded clock s h.0)
  handle-IsEnded (pause b) clock s k h =
      (pause_callback-Stops lib b clock s, pause_callback-IsEnded b clock s h)
  handle-IsEnded (goal_status status) clock s k h = (
    goal_status_callback-Stops lib status clock s,
    goal_status_callback-IsEnded status clock s k h,
  )
  handle-IsEnded timer clock s k h =
      let r = ended-halts lib clock s h.1 in
      subst (λ t. Stops s t × IsEnded t) (sym r.1)
        (
          halt-Stops lib r.0 clock s,
          unchanged-IsEnded s (halt lib r.0 clock s) h
              ((halt-flags r.0 clock s).1, (halt-flags r.0 clock s).2),
        )

  Stops-trans : (s t u : Controller W) → Stops s t → Stops t u → Stops s u
  Stops-trans s t u h k = (
    k.0 ∙ h.0,
    StopsOnly-trans (stop_rate s) s.published t.published u.published h.1 (
        subst
          (λ x.
            StopsOnly (clamp (decimal 0 0) (d.neg x.max_vyaw) x.max_vyaw) t.published u.published)
          h.0 k.1),
  )

  -- From a paused state, while no callback resumes the execution, whatever else arrives (trajectories,
  -- odometry, statuses, timer ticks), every velocity command published is a stop: linear velocity 0
  -- and the angular velocity of publishStop. The controller is paused at the end.
  pub run-paused :
      (es : List (Event W × Clock)) (s : Controller W)
      → AllEvents IsPauseKept es
      → s.paused ≡ true
      → let t = run lib es s in
        ((t.config ≡ s.config) × StopsOnly (stop_rate s) s.published t.published)
        × (t.paused ≡ true)
  unfolding run
  run-paused [] s k h = ((refl, unchanged), h)
  run-paused (e ∷ es) s k h =
      let a = handle-paused e.0 e.1 s k.0 h in
      let b = run-paused es (handle lib e.0 e.1 s) k.1 a.1 in
      (Stops-trans s (handle lib e.0 e.1 s) (run lib es (handle lib e.0 e.1 s)) a.0 b.0, b.1)

  -- From a state after a terminal status, in which no trajectory is followed, until GOAL_RUNNING is
  -- received, whatever else arrives (trajectories too), every velocity command published is a stop,
  -- and the state stays as described.
  pub run-IsEnded :
      (es : List (Event W × Clock)) (s : Controller W)
      → AllEvents IsEndKept es
      → IsEnded s
      → let t = run lib es s in
        ((t.config ≡ s.config) × StopsOnly (stop_rate s) s.published t.published) × IsEnded t
  unfolding run
  run-IsEnded [] s k h = ((refl, unchanged), h)
  run-IsEnded (e ∷ es) s k h =
      let a = handle-IsEnded e.0 e.1 s k.0 h in
      let b = run-IsEnded es (handle lib e.0 e.1 s) k.1 a.1 in
      (Stops-trans s (handle lib e.0 e.1 s) (run lib es (handle lib e.0 e.1 s)) a.0 b.0, b.1)
