-- ===== src/Controller/Tests.antt =====
-- ClosedLoopController at concrete inputs: a straight trajectory, and a turn to its left.
use tron2_navigation_ros.Base.{
  ℕ, ◌^◌, ◌*◌, ◌≡◌, refl, true, false, List, [], ◌∷◌, some, ℤ, pos, negsuc, arith,
}
use tron2_navigation_ros.Double.{le}
use tron2_navigation_ros.Exact.{Milli, milli, Milli-IsOrdered, Milli-IsExact}
use tron2_navigation_ros.Vector.{Vector3, Quaternion}
use tron2_navigation_ros.Samples.{num, point, library}
use tron2_navigation_ros.Controller.State.{Config, Controller, Bspline, Clock, twist, check_config}
use tron2_navigation_ros.Controller.Command.{publish_stop}
use tron2_navigation_ros.Controller.Tracking.{lookahead_index, lookahead_loop}
use tron2_navigation_ros.Controller.Lookahead.{IsFirstReached, lookahead_index_lem}
use tron2_navigation_ros.Controller.Events.{Event, bspline, odom, timer, run, construct, initial}
use tron2_navigation_ros.Controller.Invariant.{Inv, run-construct-Inv}
use tron2_navigation_ros.Controller.Stops.{StopsOnly, stop_rate}
use tron2_navigation_ros.Controller.Stops.Runs.{IsEnded, run-paused, run-IsEnded}
use tron2_navigation_ros.Controller.Limits.Commands.{IsLimited}
use tron2_navigation_ros.Controller.Limits.Construct.{IsNumeric, construct-turns}
use tron2_navigation_ros.Controller.Limits.Runs.{run-construct-IsLimited}

abbrev milli_num : ℕ → Milli
milli_num n = some (pos n)

abbrev config_of : Milli → Config Milli
config_of vyaw = record {
  lookahead_distance = milli_num 450;
  goal_slowdown_distance = milli_num 500;
  heading_error_threshold = milli_num 800;
  kp_yaw = milli_num 1500;
  max_vx = milli_num 80;
  max_vyaw = vyaw;
  finish_dist = milli_num 150;
  odom_timeout = milli_num 300;
  max_linear_accel = milli_num 500;
  max_angular_accel = milli_num 1500;
  control_rate = num 50;
  forward_only = true;
}

abbrev config : Config Milli
config = config_of (milli_num 350)

abbrev at : ℕ → Clock
at t = record { now = t * 10 ^ 7; stop_now = t * 10 ^ 7 }

-- From the origin to (1, 0) in a second.
abbrev line : Bspline Milli
line = record {
  order = pos 3;
  pos_pts = point 0 0 ∷ point 0 0 ∷ point 1 0 ∷ point 1 0 ∷ [];
  knots = num 0 ∷ [];
  traj_id = pos 1;
  time_sum = milli_num 200;
  evaluate = λ t. record { x = milli.mul t (num 5); y = num 0; z = num 0 };
}

abbrev orientation : Quaternion Milli
orientation = record { w = num 1; x = num 0; y = num 0; z = num 0 }

abbrev start : Controller Milli
start = publish_stop 0 (initial library config false 0)

-- A trajectory, a pose and two rounds of the timer.
abbrev events : List (Event Milli × Clock)
events =
    (odom (point 0 0) orientation, at 1) ∷ (bspline line, at 2) ∷ (timer, at 3) ∷ (timer, at 5) ∷ []

constructed : construct library config false (at 0) ≡ some start
unfolding construct check_config
constructed = refl

abbrev initial_state : Controller Milli
initial_state = record {
  config = config;
  receive_traj = false;
  have_odom = false;
  paused = false;
  terminal_status_active = false;
  rotating_in_place = false;
  trajectory_samples = [];
  trajectory_arc_lengths = [];
  nearest_sample_index = 0;
  traj_duration = num 0;
  traj_id = pos 0;
  odom_pos = point 0 0;
  odom_yaw = num 0;
  last_odom_time = 0;
  last_update_time = 0;
  last_cmd_time = 0;
  last_linear_cmd = num 0;
  last_angular_cmd = num 0;
  published = [];
}

abbrev samples : List (Vector3 Milli)
samples =
    point 0 0
    ∷ record { x = milli_num 250; y = num 0; z = num 0 }
    ∷ record { x = milli_num 500; y = num 0; z = num 0 }
    ∷ record { x = milli_num 750; y = num 0; z = num 0 }
    ∷ point 1 0
    ∷ []

-- The state that those events lead to, less its messages.
abbrev followed : Controller Milli
followed = record initial_state {
  receive_traj = true;
  have_odom = true;
  trajectory_samples = samples;
  trajectory_arc_lengths = num 0 ∷ milli_num 250 ∷ milli_num 500 ∷ milli_num 750 ∷ num 1 ∷ [];
  traj_duration = milli_num 200;
  traj_id = pos 1;
  last_odom_time = 10 ^ 7;
  last_update_time = 5 * 10 ^ 7;
  last_cmd_time = 5 * 10 ^ 7;
  last_linear_cmd = milli_num 16;
}

run-construct-Inv_example : Inv (run library events start)
run-construct-Inv_example = run-construct-Inv library config false (at 0) start constructed events

config-IsNumeric : IsNumeric config
config-IsNumeric = record {
  vyaw = refl;
  vx = refl;
  linear_accel = refl;
  angular_accel = refl;
  rate = refl;
}

seconds-number : (t : ℤ) → le (library.seconds t) (library.seconds t) ≡ true
seconds-number = ground arith

run-construct-IsLimited_example : IsLimited (run library events start)
run-construct-IsLimited_example =
    run-construct-IsLimited Milli-IsOrdered Milli-IsExact library seconds-number config false (at 0)
      start config-IsNumeric constructed events

-- The robot 0.3 m along the trajectory, between its second and third sample.
abbrev along : Controller Milli
along = record followed { nearest_sample_index = 1 }

lookahead_index_example : lookahead_index library along ≡ 3
unfolding lookahead_index lookahead_loop
lookahead_index_example = refl

lookahead_index_lem_example : IsFirstReached along.trajectory_arc_lengths (milli_num 700) 5 1 3
unfolding lookahead_index lookahead_loop
lookahead_index_lem_example = lookahead_index_lem library along (omega arith)

-- While paused: a trajectory, a pose and the timer.
abbrev halted : Controller Milli
halted = record followed { paused = true }

run-paused_example :
    let t = run library events halted in
    ((t.config ≡ halted.config) × StopsOnly (stop_rate halted) halted.published t.published)
    × (t.paused ≡ true)
run-paused_example = run-paused library events halted (tt, (tt, (tt, (tt, tt)))) refl

-- After a terminal status: a trajectory, which is ignored, a pose and the timer.
abbrev arrived : Controller Milli
arrived = record followed { receive_traj = false; terminal_status_active = true }

run-IsEnded_example :
    let t = run library events arrived in
    ((t.config ≡ arrived.config) × StopsOnly (stop_rate arrived) arrived.published t.published)
    × IsEnded t
run-IsEnded_example = run-IsEnded library events arrived (tt, (tt, (tt, (tt, tt)))) (refl, refl)

abbrev reversed : Config Milli
reversed = config_of (some (negsuc 349))

abbrev spinning : Controller Milli
spinning = publish_stop 0 (initial library reversed false 0)

reversed-constructed : construct library reversed false (at 0) ≡ some spinning
unfolding construct check_config
reversed-constructed = refl

construct-turns_example : spinning.published ≡ twist (milli_num 0) (milli_num 350) ∷ []
construct-turns_example =
    construct-turns Milli-IsOrdered Milli-IsExact library reversed false (at 0) spinning refl refl
      reversed-constructed
