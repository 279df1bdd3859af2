-- ===== src/Replan/State.antt =====
-- scan_replan_fsm.h: the parameters, the state and the messages of SCANReplanFSM; from
-- plan_container.hpp the fields of LocalTrajData and GlobalTrajData that the state machine uses.
-- Times are in nanoseconds. A `std::string` of a frame is the list of its bytes.
use tron2_navigation_ros.Vector.{Vector3, Quaternion}
use tron2_navigation_ros.Base.{ℕ, Bool, ℤ, List, Option}

pub data ExecState : Type 0 where
  init wait_target gen_new_traj replan_traj exec_traj emergency_stop : ExecState

pub data NaviMode : Type 0 where
  manual_target preset_target reference_path : NaviMode

-- The texts that publishGoalStatus is called with.
pub data GoalStatus : Type 0 where
  goal_running goal_failed goal_reached goal_cancel : GoalStatus

abbrev pub Frame : Type 0
Frame = List ℕ

-- A trajectory is what its evaluation functions return.
pub record LocalTrajData (W : Type 0) : Type 0 where
  pub start_time : ℕ
  pub duration : W
  pub traj_id : ℕ
  pub start_pos : Vector3 W
  pub position_traj : W → Vector3 W
  pub velocity_traj : W → Vector3 W
  pub acceleration_traj : W → Vector3 W

pub record GlobalTrajData (W : Type 0) : Type 0 where
  pub global_traj : W → Vector3 W
  pub global_duration : W
  pub last_progress_time : W

pub record PoseStamped (W : Type 0) : Type 0 where
  pub frame_id : Frame
  pub position : Vector3 W

pub record PathMsg (W : Type 0) : Type 0 where
  pub frame_id : Frame
  pub poses : List (PoseStamped W)

pub record Odometry (W : Type 0) : Type 0 where
  pub position : Vector3 W
  pub orientation : Quaternion W
  pub linear : Vector3 W

-- What the node publishes for others to act on.
pub data Output (W : Type 0) : Type 0 where
  status : GoalStatus → Output W
  bspline : LocalTrajData W → Output W

pub record Config (W : Type 0) : Type 0 where
  pub navi_mode : NaviMode
  pub replan_thresh : W
  pub no_replan_thresh : W
  pub planning_horizon : W
  pub emergency_time : W
  pub enable_fail_safe : Bool
  pub max_replan_fail_count : ℤ
  pub replan_retry_interval : W
  pub body_height : W
  pub self_inflation_frame_id : Frame
  pub reference_path_spacing : W
  pub max_reference_waypoints : ℤ
  pub require_reference_path_start_near_odom : Bool
  pub reference_path_start_tolerance : W
  pub align_reference_path_z_to_odom : Bool
  pub max_reference_path_z_alignment : W
  pub goal_tolerance : W
  pub goal_z_tolerance : W
  pub preset_waypoints : List (Vector3 W)
  pub max_vel : W

pub record Fsm (W : Type 0) : Type 0 where
  pub config : Config W
  pub open config use *
  pub trigger : Bool
  pub have_target : Bool
  pub have_odom : Bool
  pub have_new_target : Bool
  pub preset_started : Bool
  pub rviz_height_ready : Bool
  pub rviz_goal_height : W
  pub go2_execution_frozen : Bool
  pub need_hover_stop : Bool
  pub flag_escape_emergency : Bool
  pub exec_state : ExecState
  pub continuously_called_times : ℕ
  pub replan_fail_count : ℕ
  pub last_freeze_update_time : ℕ
  pub last_replan_attempt_time : ℕ
  pub odom_pos : Vector3 W
  pub odom_vel : Vector3 W
  pub odom_orient : Quaternion W
  pub init_pt : Vector3 W
  pub start_pt : Vector3 W
  pub start_vel : Vector3 W
  pub start_acc : Vector3 W
  pub end_pt : Vector3 W
  pub end_vel : Vector3 W
  pub local_target_pt : Vector3 W
  pub local_target_vel : Vector3 W
  pub active_waypoints : List (Vector3 W)
  pub current_wp : ℕ
  pub reference_path_points : List (Vector3 W)
  pub reference_path_arc_lengths : List W
  pub reference_progress_s : W
  pub pending_reference_path : Option (PathMsg W)
  pub local_data : LocalTrajData W
  pub global_data : GlobalTrajData W
  -- Newest first.
  pub published : List (Output W)

-- The changes that getLocalTarget makes, and its result.
pub record LocalTarget (W : Type 0) : Type 0 where
  pub found : Bool
  pub end_pt : Vector3 W
  pub local_target_pt : Vector3 W
  pub local_target_vel : Vector3 W
  pub reference_path_points : List (Vector3 W)
  pub reference_path_arc_lengths : List W
  pub reference_progress_s : W
  pub last_progress_time : W

-- What one callback meets: the readings of the clock at its calls of `now()`, the occupancy map
-- (`none` is a null pointer) and the planner manager, which may answer differently at each call.
pub record World (W : Type 0) : Type 0 where
  pub freeze_now : ℕ
  pub body_now : ℕ
  pub retry_now : ℕ
  pub plan_now : ℕ
  pub inflate_occupancy : Option (Vector3 W → W → ℤ)
  pub plan_global_traj :
      Vector3 W → Vector3 W → Vector3 W → Vector3 W → GlobalTrajData W → Bool × GlobalTrajData W
  pub plan_global_traj_waypoints :
      Vector3 W → Vector3 W → List (Vector3 W) → GlobalTrajData W → Bool × GlobalTrajData W
  pub rebound_replan :
      Vector3 W
      → Vector3 W
      → Vector3 W
      → Vector3 W
      → Vector3 W
      → Bool
      → Bool
      → LocalTrajData W
      → Bool × LocalTrajData W
  pub emergency_traj : Vector3 W → LocalTrajData W → LocalTrajData W
  pub get_local_target : Fsm W → LocalTarget W
