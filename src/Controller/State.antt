-- ===== src/Controller/State.antt =====
-- closed_loop_controller_safe.cpp: the members of ClosedLoopController, its parameters and messages.
use tron2_navigation_ros.Base.{ℕ, Bool, ◌||◌, Option, none, some, List, ℤ, if◌then◌else◌}
use tron2_navigation_ros.Double.{Double, le, gt, decimal}
use tron2_navigation_ros.Vector.{Vector3}

pub record Config (W : Type 0) : Type 0 where
  pub lookahead_distance : W
  pub goal_slowdown_distance : W
  pub heading_error_threshold : W
  pub kp_yaw : W
  pub max_vx : W
  pub max_vyaw : W
  pub finish_dist : W
  pub odom_timeout : W
  pub max_linear_accel : W
  pub max_angular_accel : W
  pub control_rate : W
  pub forward_only : Bool

-- The messages of cmd_vel (linear.x and angular.z) and of planning/go2_execution_frozen.
pub data Output (W : Type 0) : Type 0 where
  twist : W → W → Output W
  execution_frozen : Bool → Output W

pub record Controller (W : Type 0) : Type 0 where
  pub config : Config W
  pub open config use *
  pub receive_traj : Bool
  pub have_odom : Bool
  pub paused : Bool
  pub terminal_status_active : Bool
  pub rotating_in_place : Bool
  pub trajectory_samples : List (Vector3 W)
  pub trajectory_arc_lengths : List W
  pub nearest_sample_index : ℕ
  pub traj_duration : W
  pub traj_id : ℤ
  pub odom_pos : Vector3 W
  pub odom_yaw : W
  pub last_odom_time : ℕ
  pub last_update_time : ℕ
  pub last_cmd_time : ℕ
  pub last_linear_cmd : W
  pub last_angular_cmd : W
  -- Newest first.
  pub published : List (Output W)

-- A B-spline message, with what UniformBspline computes of it: the total time and the position.
pub record Bspline (W : Type 0) : Type 0 where
  pub order : ℤ
  pub pos_pts : List (Vector3 W)
  pub knots : List W
  pub traj_id : ℤ
  pub time_sum : W
  pub evaluate : W → Vector3 W

pub data GoalStatus : Type 0 where
  goal_running goal_reached goal_failed goal_cancel other_status : GoalStatus

-- The readings of the clock in one callback: its first, and that of publishStop.
pub record Clock : Type 0 where
  pub now : ℕ
  pub stop_now : ℕ

module _ {W : Type 0} ⦃d : Double W⦄ where
  abbrev pub not_positive : W → Bool
  not_positive x = le x (decimal 0 0)

  -- The constructor's checks; `none` is the exception. The yaw rate is capped at kMaxYawRate.
  unfoldable pub check_config : Config W → Option (Config W)
  check_config c =
      if not_positive c.odom_timeout
        || not_positive c.max_linear_accel
        || not_positive c.max_angular_accel
        || not_positive c.control_rate
        || not_positive c.lookahead_distance
        || not_positive c.goal_slowdown_distance
        || not_positive c.max_vx
        || not_positive c.finish_dist
      then none
      else if gt c.max_vyaw (decimal 1 0)
      then some (record c { max_vyaw = decimal 1 0 })
      else some c
