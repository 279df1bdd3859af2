-- ===== src/Controller/Stops.antt =====
-- closed_loop_controller_safe.cpp: when the chassis is told nothing but to stop.
pub mod Runs
use tron2_navigation_ros.Base.{
  Bool-cases, ℕ, zero, suc, ◌≡◌, refl, sym, ap, subst, ◌∙◌, Bool, true, false, List, [], ◌∷◌, ◌⊎◌,
  inl, inr, arith, ◌||◌, not, ltb, length, back, if◌then◌else◌, pos,
}
use tron2_navigation_ros.Double.{Double, lt, decimal}
use tron2_navigation_ros.Vector.{Vector3, Quaternion, Library}
use tron2_navigation_ros.Controller.State.{
  Config, Controller, Bspline, Clock, Output, twist, execution_frozen, GoalStatus, goal_running,
  goal_reached, goal_failed, goal_cancel, other_status,
}
use tron2_navigation_ros.Controller.Command.{clamp, publish_execution_frozen, publish_stop}
use tron2_navigation_ros.Controller.Tracking.{cmd_callback, halt}
use tron2_navigation_ros.Controller.Events.{
  Event, bspline, odom, cancel, pause, goal_status, timer, handle, run, push_sample, sample_loop,
  sample_trajectory, accept, reject, bspline_callback, is_malformed, odom_callback, cancel_callback,
  pause_callback, goal_status_callback,
}

-- The messages that `new` has more than `old` are stops and frozen flags; `c` is the angular velocity
-- of publishStop.
pub data StopsOnly {W : Type 0} ⦃d : Double W⦄ (c : W) (old : List (Output W))
    : List (Output W) → Type 0 where
  unchanged : StopsOnly c old old
  stop_sent :
      (new : List (Output W)) → StopsOnly c old new → StopsOnly c old (twist (decimal 0 0) c ∷ new)
  flag_sent :
      (b : Bool) (new : List (Output W))
      → StopsOnly c old new
      → StopsOnly c old (execution_frozen b ∷ new)

module _ {W : Type 0} ⦃d : Double W⦄ where
  abbrev pub stop_rate : Controller W → W
  stop_rate s = clamp (decimal 0 0) (d.neg s.max_vyaw) s.max_vyaw

  pub StopsOnly-trans :
      (c : W) (a b e : List (Output W)) → StopsOnly c a b → StopsOnly c b e → StopsOnly c a e
  StopsOnly-trans c a b _ h unchanged = h
  StopsOnly-trans c a b _ h (stop_sent new k) = stop_sent new (StopsOnly-trans c a b new h k)
  StopsOnly-trans c a b _ h (flag_sent f new k) = flag_sent f new (StopsOnly-trans c a b new h k)

  -- What a callback does that moves nothing.
  abbrev pub Stops : Controller W → Controller W → Type 0
  Stops s t = (t.config ≡ s.config) × StopsOnly (stop_rate s) s.published t.published

  Stops-if :
      (b : Bool) (s t u : Controller W) → Stops s t → Stops s u → Stops s (if b then t else u)
  Stops-if true s t u h k = h
  Stops-if false s t u h k = k

module _ {W : Type 0} ⦃d : Double W⦄ (lib : Library W) where
  push_sample-Same :
      (x : Vector3 W) (s : Controller W)
      → let t = push_sample lib x s in
        (t.config ≡ s.config) × (t.published ≡ s.published) × (t.paused ≡ s.paused)
  unfolding push_sample
  push_sample-Same x s = (refl, refl, refl)

  sample_loop-Same :
      (msg : Bspline W) (count n : ℕ) (s : Controller W)
      → let t = sample_loop lib msg count n s in
        (t.config ≡ s.config) × (t.published ≡ s.published) × (t.paused ≡ s.paused)
  unfolding sample_loop
  sample_loop-Same msg count zero s = (refl, refl, refl)
  sample_loop-Same msg count (suc n) s =
      let h = sample_loop-Same msg count n s in
      let k =
        push_sample-Same
          (msg.evaluate (d.div (d.mul msg.time_sum (d.of_int (pos n))) (d.of_int (pos count))))
          (sample_loop lib msg count n s) in
      (k.0 ∙ h.0, k.1 ∙ h.1, k.2 ∙ h.2)

  pub sample_trajectory-Same :
      (msg : Bspline W) (s : Controller W)
      → let t = sample_trajectory lib msg s in
        (t.config ≡ s.config) × (t.published ≡ s.published) × (t.paused ≡ s.paused)
  unfolding sample_trajectory
  sample_trajectory-Same msg s = sample_loop-Same msg _ _ _

  sampled-Stops :
      (s t u : Controller W)
      → (t.config ≡ s.config) × (t.published ≡ s.published) × (t.paused ≡ s.paused)
      → Stops t u
      → Stops s u
  sampled-Stops s t u e h = (
    h.0 ∙ e.0,
    subst
        (λ x. StopsOnly (clamp (decimal 0 0) (d.neg x.max_vyaw) x.max_vyaw) s.published u.published)
        e.0 (subst (λ x. StopsOnly (stop_rate t) x u.published) e.1 h.1),
  )

  reject-Stops : (clock : Clock) (s : Controller W) → Stops s (reject lib clock s)
  unfolding reject publish_stop
  reject-Stops clock s = (refl, stop_sent _ unchanged)

  pub accept-Stops :
      (msg : Bspline W) (clock : Clock) (s : Controller W) → Stops s (accept lib msg clock s)
  unfolding accept publish_stop publish_execution_frozen
  accept-Stops msg clock s =
      let stopped : Controller W = publish_stop clock.stop_now (
        publish_execution_frozen false
          (record s { receive_traj = false; rotating_in_place = false })) in
      let followed : Controller W = record s {
        traj_id = msg.traj_id;
        last_update_time = clock.now;
        receive_traj = true;
      } in
      Stops-if (lt (back s.trajectory_arc_lengths (decimal 0 0)) (decimal 1 4)) s stopped followed
        (refl, stop_sent _ (flag_sent false _ unchanged)) (refl, unchanged)

  pub halt-Stops : (b : Bool) (clock : Clock) (s : Controller W) → Stops s (halt lib b clock s)
  unfolding halt publish_stop publish_execution_frozen
  halt-Stops b clock s = (refl, stop_sent _ (flag_sent b _ unchanged))

  pub cancel_callback-Stops :
      (clock : Clock) (s : Controller W) → Stops s (cancel_callback lib clock s)
  unfolding cancel_callback publish_stop publish_execution_frozen
  cancel_callback-Stops clock s = (refl, stop_sent _ (flag_sent false _ unchanged))

  pub bspline_callback-Stops :
      (msg : Bspline W) (clock : Clock) (s : Controller W)
      → Stops s (bspline_callback lib msg clock s)
  unfolding bspline_callback
  bspline_callback-Stops msg clock s =
      let t = sample_trajectory lib msg s in
      Stops-if s.terminal_status_active s (reject lib clock s)
        (if is_malformed lib msg then reject lib clock s else accept lib msg clock t)
        (reject-Stops clock s)
        (Stops-if (is_malformed lib msg) s (reject lib clock s) (accept lib msg clock t)
          (reject-Stops clock s)
          (sampled-Stops s t (accept lib msg clock t) (sample_trajectory-Same msg s)
            (accept-Stops msg clock t)))

  pub pause_callback-Stops :
      (b : Bool) (clock : Clock) (s : Controller W) → Stops s (pause_callback lib b clock s)
  unfolding pause_callback publish_stop
  pause_callback-Stops true clock s = (refl, stop_sent _ unchanged)
  pause_callback-Stops false clock s = (refl, unchanged)

  pub goal_status_callback-Stops :
      (status : GoalStatus) (clock : Clock) (s : Controller W)
      → Stops s (goal_status_callback lib status clock s)
  unfolding goal_status_callback
  goal_status_callback-Stops goal_running clock s = (refl, unchanged)
  goal_status_callback-Stops goal_reached clock s = cancel_callback-Stops clock _
  goal_status_callback-Stops goal_failed clock s = cancel_callback-Stops clock _
  goal_status_callback-Stops goal_cancel clock s = cancel_callback-Stops clock _
  goal_status_callback-Stops other_status clock s = (refl, unchanged)

  -- The timer does nothing but halt when the robot is paused or no trajectory is followed.
  pub paused-halts :
      (clock : Clock) (s : Controller W)
      → s.paused ≡ true
      → cmd_callback lib clock s ≡ halt lib true clock s
  unfolding cmd_callback
  paused-halts clock s e = ground arith

  pub ended-halts :
      (clock : Clock) (s : Controller W)
      → s.receive_traj ≡ false
      → (b : Bool) × (cmd_callback lib clock s ≡ halt lib b clock s)
  unfolding cmd_callback
  ended-halts clock s e = elim (Bool-cases s.paused) [
    | inl p ↦ (true, ground arith)
    | inr p ↦ (false, ground arith)
  ]
