-- ===== src/Controller/Events.antt =====
-- closed_loop_controller_safe.cpp: the constructor and the callbacks of the subscriptions.
use tron2_navigation_ros.Base.{
  ℕ, zero, suc, Bool, true, false, ◌||◌, Option, none, some, List, [], ◌∷◌, ◌++◌, length, back,
  is_empty, leb, pos, pos_part, ltb_ℤ, if◌then◌else◌,
}
use tron2_navigation_ros.Double.{Double, lt, decimal}
use tron2_navigation_ros.Vector.{Vector3, Quaternion, Library}
use tron2_navigation_ros.Controller.State.{
  Config, Controller, Bspline, Clock, GoalStatus, goal_running, other_status, check_config,
}
use tron2_navigation_ros.Controller.Command.{quaternion_yaw, publish_execution_frozen, publish_stop}
use tron2_navigation_ros.Controller.Tracking.{cmd_callback}

module _ {W : Type 0} ⦃d : Double W⦄ (lib : Library W) where
  -- The state after the member initialisers.
  unfoldable pub initial : Config W → Bool → ℕ → Controller W
  initial config start_paused now = record {
    config = config;
    receive_traj = false;
    have_odom = false;
    paused = start_paused;
    terminal_status_active = false;
    rotating_in_place = false;
    trajectory_samples = [];
    trajectory_arc_lengths = [];
    nearest_sample_index = 0;
    traj_duration = decimal 0 0;
    traj_id = pos 0;
    odom_pos = lib.zero3;
    odom_yaw = decimal 0 0;
    last_odom_time = 0;
    last_update_time = now;
    last_cmd_time = now;
    last_linear_cmd = decimal 0 0;
    last_angular_cmd = decimal 0 0;
    published = [];
  }

  -- The constructor; `none` is its exception.
  unfoldable pub construct : Config W → Bool → Clock → Option (Controller W)
  construct config start_paused clock = elim (check_config config) [
    | none ↦ none
    | some c ↦ some (publish_stop clock.stop_now (initial c start_paused clock.now))
  ]

  -- The number of intervals that a trajectory is sampled at.
  unfoldable pub compute_sample_count : W → ℕ
  compute_sample_count duration =
      let count = d.to_int (d.ceil (d.div duration (decimal 5 2))) in
      if ltb_ℤ (pos 2) count then pos_part count else 2

  -- One round of the sampling loop.
  unfoldable pub push_sample : Vector3 W → Controller W → Controller W
  push_sample sample s =
      let step = lib.norm_xy (lib.vec_sub sample (back s.trajectory_samples lib.zero3)) in
      let arc_length =
        if is_empty s.trajectory_samples
        then decimal 0 0
        else d.add (back s.trajectory_arc_lengths (decimal 0 0)) step in
      record s {
        trajectory_arc_lengths = s.trajectory_arc_lengths ++ (arc_length ∷ []);
        trajectory_samples = s.trajectory_samples ++ (sample ∷ []);
      }

  -- The first `n` rounds of that loop, at t = duration * i / count.
  unfoldable pub sample_loop : Bspline W → ℕ → ℕ → Controller W → Controller W
  sample_loop msg count zero s = s
  sample_loop msg count (suc n) s =
      push_sample
        (msg.evaluate (d.div (d.mul msg.time_sum (d.of_int (pos n))) (d.of_int (pos count))))
        (sample_loop msg count n s)

  unfoldable pub sample_trajectory : Bspline W → Controller W → Controller W
  sample_trajectory msg s =
      let count = compute_sample_count msg.time_sum in
      sample_loop msg count (suc count) (record s {
        traj_duration = msg.time_sum;
        trajectory_samples = [];
        trajectory_arc_lengths = [];
        nearest_sample_index = 0;
      })

  unfoldable pub is_malformed : Bspline W → Bool
  is_malformed msg =
      ltb_ℤ msg.order (pos 1) || leb (length msg.pos_pts) (pos_part msg.order) || is_empty msg.knots

  unfoldable pub reject : Clock → Controller W → Controller W
  reject clock s = publish_stop clock.stop_now (record s { receive_traj = false })

  -- A sampled trajectory: one that stays in place stops the robot, the others are followed.
  unfoldable pub accept : Bspline W → Clock → Controller W → Controller W
  accept msg clock s =
      if lt (back s.trajectory_arc_lengths (decimal 0 0)) (decimal 1 4)
      then publish_stop clock.stop_now (
          publish_execution_frozen false
            (record s { receive_traj = false; rotating_in_place = false }))
      else record s { traj_id = msg.traj_id; last_update_time = clock.now; receive_traj = true }

  unfoldable pub bspline_callback : Bspline W → Clock → Controller W → Controller W
  bspline_callback msg clock s =
      if s.terminal_status_active
      then reject clock s
      else if is_malformed msg
      then reject clock s
      else accept msg clock (sample_trajectory msg s)

  unfoldable pub odom_callback : Vector3 W → Quaternion W → Clock → Controller W → Controller W
  odom_callback position orientation clock s = record s {
    odom_pos = position;
    odom_yaw = quaternion_yaw orientation;
    have_odom = true;
    last_odom_time = clock.now;
  }

  unfoldable pub cancel_callback : Clock → Controller W → Controller W
  cancel_callback clock s = publish_stop clock.stop_now (
      publish_execution_frozen false (record s {
        receive_traj = false;
        rotating_in_place = false;
        trajectory_samples = [];
        trajectory_arc_lengths = [];
      }))

  unfoldable pub pause_callback : Bool → Clock → Controller W → Controller W
  pause_callback b clock s =
      let t : Controller W = record s { paused = b; last_update_time = clock.now } in
      if b then publish_stop clock.stop_now t else t

  unfoldable pub goal_status_callback : GoalStatus → Clock → Controller W → Controller W
  goal_status_callback goal_running clock s = record s { terminal_status_active = false }
  goal_status_callback other_status clock s = s
  goal_status_callback status clock s =
      cancel_callback clock (record s { terminal_status_active = true })

  -- `stop`, which main calls when the node is shut down.
  unfoldable pub stop : Clock → Controller W → Controller W
  stop clock s =
      publish_stop clock.stop_now
        (publish_execution_frozen false (record s { receive_traj = false }))

pub data Event (W : Type 0) : Type 0 where
  bspline : Bspline W → Event W
  odom : Vector3 W → Quaternion W → Event W
  -- On the topic of cancelling or of preempting.
  cancel : Event W
  pause : Bool → Event W
  goal_status : GoalStatus → Event W
  timer : Event W

module _ {W : Type 0} ⦃d : Double W⦄ (lib : Library W) where
  unfoldable pub handle : Event W → Clock → Controller W → Controller W
  handle (bspline msg) = bspline_callback lib msg
  handle (odom position orientation) = odom_callback lib position orientation
  handle cancel = cancel_callback lib
  handle (pause b) = pause_callback lib b
  handle (goal_status status) = goal_status_callback lib status
  handle timer = cmd_callback lib

  -- The events in the order of the executor, which runs one callback at a time.
  unfoldable pub run : List (Event W × Clock) → Controller W → Controller W
  run [] s = s
  run (e ∷ es) s = run es (handle e.0 e.1 s)
