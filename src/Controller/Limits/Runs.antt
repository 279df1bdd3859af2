-- ===== src/Controller/Limits/Runs.antt =====
-- closed_loop_controller_safe.cpp: the velocity commands of a run of the node.
use tron2_navigation_ros.Base.{
  ℕ, zero, suc, ◌≡◌, Bool, true, false, not, ◌||◌, List, [], ◌∷◌, if◌then◌else◌, sub_ℕ, ℤ, some,
  length, ltb, back,
}
use tron2_navigation_ros.Double.{Double, IsOrdered, IsExact, lt, le, gt, decimal}
use tron2_navigation_ros.Vector.{Library}
use tron2_navigation_ros.Controller.State.{
  Config, Controller, Bspline, Clock, GoalStatus, goal_running, goal_reached, goal_failed,
  goal_cancel, other_status,
}
use tron2_navigation_ros.Controller.Command.{publish_execution_frozen, publish_stop}
use tron2_navigation_ros.Controller.Tracking.{cmd_callback, halt}
use tron2_navigation_ros.Controller.Events.{
  Event, bspline, odom, cancel, pause, goal_status, timer, handle, run, construct, push_sample,
  sample_loop, sample_trajectory, accept, reject, bspline_callback, is_malformed, odom_callback,
  cancel_callback, pause_callback, goal_status_callback,
}
use tron2_navigation_ros.Controller.Limits.{if_intro}
use tron2_navigation_ros.Controller.Limits.Commands.{
  IsLimited, publish_stop-IsLimited, frozen-IsLimited, follow-IsLimited,
}
use tron2_navigation_ros.Controller.Limits.Construct.{IsNumeric, construct-IsLimited}

module _ {W : Type 0} ⦃d : Double W⦄ (ordered : IsOrdered W) (exact : IsExact W)
    (lib : Library W) where
  sample_loop-IsLimited :
      (msg : Bspline W) (count n : ℕ) (s : Controller W)
      → IsLimited s
      → IsLimited (sample_loop lib msg count n s)
  unfolding sample_loop push_sample
  sample_loop-IsLimited msg count zero s i = i
  sample_loop-IsLimited msg count (suc n) s i =
      let r = sample_loop-IsLimited msg count n s i in
      record {
        proper = r.proper;
        last_linear = r.last_linear;
        last_angular = r.last_angular;
        sent = r.sent;
      }

  stop_after : (now : ℕ) (s : Controller W) → IsLimited s → IsLimited (publish_stop now s)
  stop_after = publish_stop-IsLimited ordered exact

  freed : (b : Bool) (s : Controller W) → IsLimited s → IsLimited (publish_execution_frozen b s)
  freed = frozen-IsLimited ordered exact

  reject-IsLimited :
      (clock : Clock) (s : Controller W) → IsLimited s → IsLimited (reject lib clock s)
  unfolding reject
  reject-IsLimited clock s i =
      stop_after clock.stop_now (record s { receive_traj = false })
        (record {
          proper = i.proper;
          last_linear = i.last_linear;
          last_angular = i.last_angular;
          sent = i.sent;
        })

  accept-IsLimited :
      (msg : Bspline W) (clock : Clock) (s : Controller W)
      → IsLimited s
      → IsLimited (accept lib msg clock s)
  unfolding accept
  accept-IsLimited msg clock s i =
      let stationary : Controller W = record s {
        receive_traj = false;
        rotating_in_place = false;
      } in
      if_intro IsLimited (lt (back s.trajectory_arc_lengths (decimal 0 0)) (decimal 1 4))
        (publish_stop clock.stop_now (publish_execution_frozen false stationary))
        (record s { traj_id = msg.traj_id; last_update_time = clock.now; receive_traj = true })
        (λ e. stop_after clock.stop_now (publish_execution_frozen false stationary) (
          freed false stationary (record {
            proper = i.proper;
            last_linear = i.last_linear;
            last_angular = i.last_angular;
            sent = i.sent;
          })))
        (λ e. record {
          proper = i.proper;
          last_linear = i.last_linear;
          last_angular = i.last_angular;
          sent = i.sent;
        })

  sample_trajectory-IsLimited :
      (msg : Bspline W) (s : Controller W) → IsLimited s → IsLimited (sample_trajectory lib msg s)
  unfolding sample_trajectory
  sample_trajectory-IsLimited msg s i = sample_loop-IsLimited msg _ _ _ (record {
    proper = i.proper;
    last_linear = i.last_linear;
    last_angular = i.last_angular;
    sent = i.sent;
  })

  bspline_callback-IsLimited :
      (msg : Bspline W) (clock : Clock) (s : Controller W)
      → IsLimited s
      → IsLimited (bspline_callback lib msg clock s)
  unfolding bspline_callback
  bspline_callback-IsLimited msg clock s i =
      let t = sample_trajectory lib msg s in
      let r = reject-IsLimited clock s i in
      if_intro IsLimited s.terminal_status_active (reject lib clock s)
        (if is_malformed lib msg then reject lib clock s else accept lib msg clock t) (λ e. r)
        (λ e.
          if_intro IsLimited (is_malformed lib msg) (reject lib clock s) (accept lib msg clock t)
            (λ m. r) (λ m. accept-IsLimited msg clock t (sample_trajectory-IsLimited msg s i)))

  cancel_callback-IsLimited :
      (clock : Clock) (s : Controller W) → IsLimited s → IsLimited (cancel_callback lib clock s)
  unfolding cancel_callback
  cancel_callback-IsLimited clock s i =
      let t : Controller W = record s {
        receive_traj = false;
        rotating_in_place = false;
        trajectory_samples = [];
        trajectory_arc_lengths = [];
      } in
      stop_after clock.stop_now (publish_execution_frozen false t) (
        freed false t (record {
          proper = i.proper;
          last_linear = i.last_linear;
          last_angular = i.last_angular;
          sent = i.sent;
        }))

  pause_callback-IsLimited :
      (b : Bool) (clock : Clock) (s : Controller W)
      → IsLimited s
      → IsLimited (pause_callback lib b clock s)
  unfolding pause_callback
  pause_callback-IsLimited b clock s i =
      let t : Controller W = record s { paused = b; last_update_time = clock.now } in
      let j : IsLimited t = record {
        proper = i.proper;
        last_linear = i.last_linear;
        last_angular = i.last_angular;
        sent = i.sent;
      } in
      if_intro IsLimited b (publish_stop clock.stop_now t) t (λ e. stop_after clock.stop_now t j)
        (λ e. j)

  ended-IsLimited :
      (clock : Clock) (s : Controller W)
      → IsLimited s
      → IsLimited (cancel_callback lib clock (record s { terminal_status_active = true }))
  ended-IsLimited clock s i =
      cancel_callback-IsLimited clock (record s { terminal_status_active = true })
        (record {
          proper = i.proper;
          last_linear = i.last_linear;
          last_angular = i.last_angular;
          sent = i.sent;
        })

  goal_status_callback-IsLimited :
      (status : GoalStatus) (clock : Clock) (s : Controller W)
      → IsLimited s
      → IsLimited (goal_status_callback lib status clock s)
  unfolding goal_status_callback
  goal_status_callback-IsLimited goal_running clock s i = record {
    proper = i.proper;
    last_linear = i.last_linear;
    last_angular = i.last_angular;
    sent = i.sent;
  }
  goal_status_callback-IsLimited goal_reached clock s i = ended-IsLimited clock s i
  goal_status_callback-IsLimited goal_failed clock s i = ended-IsLimited clock s i
  goal_status_callback-IsLimited goal_cancel clock s i = ended-IsLimited clock s i
  goal_status_callback-IsLimited other_status clock s i = i

  halt-IsLimited :
      (b : Bool) (clock : Clock) (s : Controller W) → IsLimited s → IsLimited (halt lib b clock s)
  unfolding halt
  halt-IsLimited b clock s i =
      let j = stop_after clock.stop_now (publish_execution_frozen b s) (freed b s i) in
      record {
        proper = j.proper;
        last_linear = j.last_linear;
        last_angular = j.last_angular;
        sent = j.sent;
      }

  module _ (seconds_number : (t : ℤ) → le (lib.seconds t) (lib.seconds t) ≡ true) where
    cmd_callback-IsLimited :
        (clock : Clock) (s : Controller W) → IsLimited s → IsLimited (cmd_callback lib clock s)
    unfolding cmd_callback
    cmd_callback-IsLimited clock s i =
        let held = halt-IsLimited true clock s i in
        let idle = halt-IsLimited false clock s i in
        let followed = follow-IsLimited ordered exact lib seconds_number clock s i in
        if_intro IsLimited s.paused _ _ (λ e. held)
          (λ e.
            if_intro IsLimited
              (not s.receive_traj || not s.have_odom || ltb (length s.trajectory_samples) 2) _ _
              (λ f. idle)
              (λ f.
                if_intro IsLimited
                  (gt (lib.seconds (sub_ℕ clock.now s.last_odom_time)) s.odom_timeout) _ _
                  (λ g. held) (λ g. followed)))

    handle-IsLimited :
        (e : Event W) (clock : Clock) (s : Controller W)
        → IsLimited s
        → IsLimited (handle lib e clock s)
    unfolding handle odom_callback
    handle-IsLimited (bspline msg) clock s i = bspline_callback-IsLimited msg clock s i
    handle-IsLimited (odom p q) clock s i = record {
      proper = i.proper;
      last_linear = i.last_linear;
      last_angular = i.last_angular;
      sent = i.sent;
    }
    handle-IsLimited cancel clock s i = cancel_callback-IsLimited clock s i
    handle-IsLimited (pause b) clock s i = pause_callback-IsLimited b clock s i
    handle-IsLimited (goal_status status) clock s i =
        goal_status_callback-IsLimited status clock s i
    handle-IsLimited timer clock s i = cmd_callback-IsLimited clock s i

    run-IsLimited :
        (es : List (Event W × Clock)) (s : Controller W) → IsLimited s → IsLimited (run lib es s)
    unfolding run
    run-IsLimited [] s i = i
    run-IsLimited (e ∷ es) s i = run-IsLimited es _ (handle-IsLimited e.0 e.1 s i)

    -- In exact arithmetic, with numeric limits, a yaw limit that is not negative, and durations that
    -- are numbers: after any sequence of callbacks from the constructor on, every velocity command
    -- that was published has a linear velocity between -max_vx and max_vx and an angular velocity
    -- between -max_vyaw and max_vyaw, whatever numbers the trajectory and the odometry hold (NaN too).
    pub run-construct-IsLimited :
        (config : Config W) (start_paused : Bool) (clock : Clock) (s : Controller W)
        → IsNumeric config
        → construct lib config start_paused clock ≡ some s
        → (es : List (Event W × Clock)) → IsLimited (run lib es s)
    run-construct-IsLimited config start_paused clock s n e es =
        run-IsLimited es s (construct-IsLimited ordered exact lib config start_paused clock s n e)
