-- ===== src/Controller/Invariant.antt =====
-- closed_loop_controller_safe.cpp: the samples and arc lengths of the trajectory that is followed.
use tron2_navigation_ros.Base.{
  ℕ, ◌≡◌, refl, ◌∙◌, Bool, true, false, List, [], ◌∷◌, Option, none, some, arith, if◌then◌else◌,
}
use tron2_navigation_ros.Double.{Double}
use tron2_navigation_ros.Vector.{Library}
use tron2_navigation_ros.Controller.State.{
  Config, Controller, Bspline, Clock, GoalStatus, goal_running, goal_reached, goal_failed,
  goal_cancel, other_status, check_config,
}
use tron2_navigation_ros.Controller.Command.{
  publish_execution_frozen, publish_stop, publish_rotation_command, publish_limited_command,
}
use tron2_navigation_ros.Controller.Tracking.{
  cmd_callback, halt, follow, update_nearest, drive, turn, move_on, steer, is_finished,
  update_rotating,
}
use tron2_navigation_ros.Controller.Lookahead.{InRange, update_nearest-InRange}
use tron2_navigation_ros.Controller.Events.{
  Event, bspline, odom, cancel, pause, goal_status, timer, handle, run, construct, initial,
  sample_trajectory, accept, is_malformed, reject, bspline_callback, odom_callback, cancel_callback,
  pause_callback, goal_status_callback,
}
use tron2_navigation_ros.Controller.Sampling.{sample_trajectory-InRange}

-- What is followed is sampled, and nothing is followed after a terminal status.
pub record Inv {W : Type 0} (s : Controller W) : Type 0 where
  pub sampled : s.receive_traj ≡ true → InRange s
  pub ended : s.terminal_status_active ≡ true → s.receive_traj ≡ false

-- What a function leaves as it is that only publishes.
abbrev pub Keeps : {W : Type 0} → Controller W → Controller W → Type 0
Keeps s t =
    (t.config ≡ s.config)
    × (t.receive_traj ≡ s.receive_traj)
    × (t.terminal_status_active ≡ s.terminal_status_active)
    × (t.trajectory_samples ≡ s.trajectory_samples)
    × (t.trajectory_arc_lengths ≡ s.trajectory_arc_lengths)
    × (t.nearest_sample_index ≡ s.nearest_sample_index)

Keeps-if :
    {W : Type 0} (s : Controller W) (b : Bool) (t u : Controller W)
    → Keeps s t
    → Keeps s u
    → Keeps s (if b then t else u)
Keeps-if s true t u h k = h
Keeps-if s false t u h k = k

Inv-if :
    {W : Type 0} (b : Bool) (t u : Controller W)
    → (b ≡ true → Inv t)
    → (b ≡ false → Inv u)
    → Inv (if b then t else u)
Inv-if true t u h k = h refl
Inv-if false t u h k = k refl

module _ {W : Type 0} (s t : Controller W) where
  Inv-Keeps : Keeps s t → Inv s → Inv t
  Inv-Keeps k i = record {
    sampled = let h = i.sampled in ground arith;
    ended = let h = i.ended in ground arith;
  }

module _ {W : Type 0} ⦃d : Double W⦄ (lib : Library W) where
  publish_stop-Inv : (s : Controller W) (now : ℕ) → Inv s → Inv (publish_stop now s)
  unfolding publish_stop
  publish_stop-Inv s now i = record { sampled = i.sampled; ended = i.ended }

  idle-Inv : (s : Controller W) → s.receive_traj ≡ false → Inv s
  idle-Inv s e = record { sampled = λ h. ground arith; ended = λ h. e }

  halt-Inv :
      (s : Controller W) (frozen : Bool) (clock : Clock) → Inv s → Inv (halt lib frozen clock s)
  unfolding halt publish_stop publish_execution_frozen
  halt-Inv s frozen clock i = record { sampled = i.sampled; ended = i.ended }

  accept-Inv :
      (msg : Bspline W) (clock : Clock) (s : Controller W)
      → InRange s
      → s.terminal_status_active ≡ false
      → Inv (accept lib msg clock s)
  unfolding accept publish_stop publish_execution_frozen
  accept-Inv msg clock s r e = ground arith

  reject-Inv : (clock : Clock) (s : Controller W) → Inv (reject lib clock s)
  unfolding reject publish_stop
  reject-Inv clock s = idle-Inv _ refl

  bspline_callback-Inv :
      (msg : Bspline W) (clock : Clock) (s : Controller W)
      → Inv s
      → Inv (bspline_callback lib msg clock s)
  unfolding bspline_callback
  bspline_callback-Inv msg clock s i =
      let t = sample_trajectory lib msg s in
      Inv-if s.terminal_status_active (reject lib clock s)
        (if is_malformed lib msg then reject lib clock s else accept lib msg clock t)
        (λ e. reject-Inv clock s)
        (λ e.
          Inv-if (is_malformed lib msg) (reject lib clock s) (accept lib msg clock t)
            (λ m. reject-Inv clock s)
            (λ m.
              let r = sample_trajectory-InRange lib msg s in accept-Inv msg clock t r.0 (r.1 ∙ e)))

  update_nearest-Inv : (s : Controller W) → Inv s → Inv (update_nearest lib s)
  unfolding update_nearest
  update_nearest-Inv s i = record {
    sampled = λ h. update_nearest-InRange lib s (i.sampled h);
    ended = i.ended;
  }

  turn-Keeps : (x : W) (clock : Clock) (s : Controller W) → Keeps s (turn lib x clock s)
  unfolding turn publish_rotation_command publish_execution_frozen
  turn-Keeps x clock s = (refl, refl, refl, refl, refl, refl)

  publish_stop-Keeps : (now : ℕ) (s : Controller W) → Keeps s (publish_stop now s)
  unfolding publish_stop
  publish_stop-Keeps now s = (refl, refl, refl, refl, refl, refl)

  drive-Keeps : (x : W) (clock : Clock) (s : Controller W) → Keeps s (drive lib x clock s)
  unfolding drive publish_limited_command
  drive-Keeps x clock s = (refl, refl, refl, refl, refl, refl)

  move_on-Keeps : (x : W) (clock : Clock) (s : Controller W) → Keeps s (move_on lib x clock s)
  unfolding move_on publish_execution_frozen
  move_on-Keeps x clock s =
      let t : Controller W = publish_execution_frozen false s in
      Keeps-if s (is_finished lib s) (publish_stop clock.stop_now t) (drive lib x clock t)
        (publish_stop-Keeps clock.stop_now t) (drive-Keeps x clock t)

  steer-Keeps : (x : W) (clock : Clock) (s : Controller W) → Keeps s (steer lib x clock s)
  unfolding steer
  steer-Keeps x clock s =
      let rotating = update_rotating (d.abs x) s.heading_error_threshold s.rotating_in_place in
      let t : Controller W = record s {
        rotating_in_place = rotating;
        last_update_time = clock.now;
      } in
      Keeps-if s rotating (turn lib x clock t) (move_on lib x clock t) (turn-Keeps x clock t)
        (move_on-Keeps x clock t)

  pub follow-Keeps :
      (clock : Clock) (s : Controller W) → Keeps (update_nearest lib s) (follow lib clock s)
  unfolding follow
  follow-Keeps clock s = steer-Keeps _ clock (update_nearest lib s)

  cmd_callback-Inv : (clock : Clock) (s : Controller W) → Inv s → Inv (cmd_callback lib clock s)
  unfolding cmd_callback
  cmd_callback-Inv clock s i =
      let a = halt-Inv s true clock i in
      let b = halt-Inv s false clock i in
      let c =
        Inv-Keeps (update_nearest lib s) (follow lib clock s) (follow-Keeps clock s)
          (update_nearest-Inv s i) in
      ground arith

  cancel_callback-Inv : (clock : Clock) (s : Controller W) → Inv (cancel_callback lib clock s)
  unfolding cancel_callback publish_stop publish_execution_frozen
  cancel_callback-Inv clock s = idle-Inv _ refl

  goal_status_callback-Inv :
      (status : GoalStatus) (clock : Clock) (s : Controller W)
      → Inv s
      → Inv (goal_status_callback lib status clock s)
  unfolding goal_status_callback
  goal_status_callback-Inv goal_running clock s i = record {
    sampled = i.sampled;
    ended = λ h. ground arith;
  }
  goal_status_callback-Inv goal_reached clock s i = cancel_callback-Inv clock _
  goal_status_callback-Inv goal_failed clock s i = cancel_callback-Inv clock _
  goal_status_callback-Inv goal_cancel clock s i = cancel_callback-Inv clock _
  goal_status_callback-Inv other_status clock s i = i

  handle-Inv : (e : Event W) (clock : Clock) (s : Controller W) → Inv s → Inv (handle lib e clock s)
  unfolding handle odom_callback pause_callback publish_stop
  handle-Inv (bspline msg) clock s i = bspline_callback-Inv msg clock s i
  handle-Inv (odom p q) clock s i = record { sampled = i.sampled; ended = i.ended }
  handle-Inv cancel clock s i = cancel_callback-Inv clock s
  handle-Inv (pause true) clock s i = record { sampled = i.sampled; ended = i.ended }
  handle-Inv (pause false) clock s i = record { sampled = i.sampled; ended = i.ended }
  handle-Inv (goal_status status) clock s i = goal_status_callback-Inv status clock s i
  handle-Inv timer clock s i = cmd_callback-Inv clock s i

  run-Inv : (es : List (Event W × Clock)) (s : Controller W) → Inv s → Inv (run lib es s)
  unfolding run
  run-Inv [] s i = i
  run-Inv (e ∷ es) s i = run-Inv es _ (handle-Inv e.0 e.1 s i)

  constructed-Inv :
      (o : Option (Config W)) (start_paused : Bool) (clock : Clock) (s : Controller W)
      → elim o [
        | none ↦ none
        | some c ↦ some (publish_stop clock.stop_now (initial lib c start_paused clock.now))
      ]
        ≡ some s
      → Inv s
  unfolding initial publish_stop
  constructed-Inv none b clock s e = ground arith
  constructed-Inv (some c) b clock s e = idle-Inv s (ground arith)

  construct-Inv :
      (config : Config W) (start_paused : Bool) (clock : Clock) (s : Controller W)
      → construct lib config start_paused clock ≡ some s
      → Inv s
  unfolding construct
  construct-Inv config b clock s e = constructed-Inv (check_config config) b clock s e

  -- After any sequence of callbacks from the constructor on, a trajectory that is followed has at
  -- least two samples, as many arc lengths as samples and a nearest sample among them; and none is
  -- followed while the last status was a terminal one.
  pub run-construct-Inv :
      (config : Config W) (start_paused : Bool) (clock : Clock) (s : Controller W)
      → construct lib config start_paused clock ≡ some s
      → (es : List (Event W × Clock)) → Inv (run lib es s)
  run-construct-Inv config start_paused clock s e es =
      run-Inv es s (construct-Inv config start_paused clock s e)
