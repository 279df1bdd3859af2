-- ===== src/Replan/Tests.antt =====
-- SCANReplanFSM at concrete inputs: fixed-point numbers, a map that is occupied beyond a line, and a
-- planner that succeeds or fails.
mod Witnesses
use tron2_navigation_ros.Base.{
  ℕ, zero, suc, ◌+◌, ◌*◌, ◌/◌, ◌^◌, Bool, true, false, not, ◌&&◌, ◌≡◌, refl, ◌≢◌, ◌⊎◌, inl, inr,
  List, [], ◌∷◌, Option, none, some, ℤ, pos, negsuc, pos_part, neg_part, sub_ℕ, arith,
}
use tron2_navigation_ros.Double.{Double, le}
use tron2_navigation_ros.Exact.{Milli, milli}
use tron2_navigation_ros.Vector.{Vector3, Quaternion, Library}
use tron2_navigation_ros.Replan.State.{
  ExecState, init, wait_target, gen_new_traj, replan_traj, exec_traj, emergency_stop, NaviMode,
  manual_target, reference_path, LocalTrajData, GlobalTrajData, PoseStamped, PathMsg, Odometry,
  Config, Fsm, LocalTarget, World, goal_running, status, bspline,
}
use tron2_navigation_ros.Replan.Events.{
  Event, exec_tick, safety_tick, odometry, frozen, cancel, preempt, rviz_goal, path, init_fsm, run,
  handle,
}
use tron2_navigation_ros.Samples.{num, add_m, point, library}

abbrev config : Config Milli
config = record {
  navi_mode = manual_target;
  replan_thresh = num 2;
  no_replan_thresh = num 1;
  planning_horizon = num 3;
  emergency_time = num 1;
  enable_fail_safe = true;
  max_replan_fail_count = pos 3;
  replan_retry_interval = some (pos 100);
  body_height = num 0;
  self_inflation_frame_id = [];
  reference_path_spacing = num 1;
  max_reference_waypoints = pos 2;
  require_reference_path_start_near_odom = false;
  reference_path_start_tolerance = num 1;
  align_reference_path_z_to_odom = false;
  max_reference_path_z_alignment = num 1;
  goal_tolerance = some (pos 300);
  goal_z_tolerance = some (pos 500);
  preset_waypoints = [];
  max_vel = num 1;
}

-- Along the first axis at unit speed.
abbrev straight : Milli → Vector3 Milli
straight t = record { x = t; y = num 0; z = num 0 }

abbrev still : Milli → Vector3 Milli
still t = point 0 0

abbrev local_traj : ℕ → LocalTrajData Milli
local_traj id = record {
  start_time = 10 ^ 9;
  duration = num 1;
  traj_id = id;
  start_pos = point 0 0;
  position_traj = straight;
  velocity_traj = still;
  acceleration_traj = still;
}

abbrev global_traj : GlobalTrajData Milli
global_traj = record { global_traj = straight; global_duration = num 1; last_progress_time = num 0 }

abbrev raw : Fsm Milli
raw = record {
  config = config;
  trigger = false;
  have_target = false;
  have_odom = true;
  have_new_target = false;
  preset_started = false;
  rviz_height_ready = true;
  rviz_goal_height = num 0;
  go2_execution_frozen = false;
  need_hover_stop = false;
  flag_escape_emergency = true;
  exec_state = init;
  continuously_called_times = 0;
  replan_fail_count = 0;
  last_freeze_update_time = 10 ^ 9;
  last_replan_attempt_time = 0;
  odom_pos = point 0 0;
  odom_vel = point 0 0;
  odom_orient = record { w = num 1; x = num 0; y = num 0; z = num 0 };
  init_pt = point 0 0;
  start_pt = point 0 0;
  start_vel = point 0 0;
  start_acc = point 0 0;
  end_pt = point 5 0;
  end_vel = point 0 0;
  local_target_pt = point 3 0;
  local_target_vel = point 0 0;
  active_waypoints = [];
  current_wp = 0;
  reference_path_points = [];
  reference_path_arc_lengths = [];
  reference_progress_s = num 0;
  pending_reference_path = none;
  local_data = local_traj 4;
  global_data = global_traj;
  published = [];
}

abbrev local_target : Fsm Milli → LocalTarget Milli
local_target s = record {
  found = true;
  end_pt = s.end_pt;
  local_target_pt = s.local_target_pt;
  local_target_vel = s.local_target_vel;
  reference_path_points = s.reference_path_points;
  reference_path_arc_lengths = s.reference_path_arc_lengths;
  reference_progress_s = s.reference_progress_s;
  last_progress_time = s.global_data.last_progress_time;
}

-- Occupied from x = 1/2 on.
abbrev beyond_line : Vector3 Milli → Milli → ℤ
beyond_line p yaw = elim (milli.le (some (pos 500)) p.x) [ true ↦ pos 1 | false ↦ pos 0 ]

-- The planner succeeds as `ok` says; the clock shows `now` nanoseconds.
abbrev world : Bool → ℕ → World Milli
world ok now = record {
  freeze_now = now;
  body_now = now;
  retry_now = now;
  plan_now = now;
  inflate_occupancy = some beyond_line;
  plan_global_traj = λ a b c e g. (true, global_traj);
  plan_global_traj_waypoints = λ a b ps g. (true, global_traj);
  rebound_replan = λ a b c p q x y info. (ok, local_traj 5);
  emergency_traj = λ p info. local_traj 6;
  get_local_target = local_target;
}

abbrev in_state : ExecState → Fsm Milli
in_state e = record raw { exec_state = e; have_target = true; trigger = true }
