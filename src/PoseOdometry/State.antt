-- ===== src/PoseOdometry/State.antt =====
-- pose_stamped_to_odometry.cpp: the parameters, the state and the messages of PoseStampedToOdometry.
-- A time is a number of nanoseconds; a `std::string` of a frame is the list of its bytes.
use tron2_navigation_ros.Base.{Bool, false, List, [], ℤ, pos, if◌then◌else◌}
use tron2_navigation_ros.Double.{Double, lt, decimal}
use tron2_navigation_ros.Vector.{Vector3, Quaternion}
use tron2_navigation_ros.Replan.State.{Frame}
use tron2_navigation_ros.Replan.Path.{normalize_frame}

pub record Pose (W : Type 0) : Type 0 where
  pub position : Vector3 W
  pub orientation : Quaternion W

pub record PoseMsg (W : Type 0) : Type 0 where
  pub frame_id : Frame
  pub stamp : ℤ
  pub pose : Pose W

pub record OdometryMsg (W : Type 0) : Type 0 where
  pub frame_id : Frame
  pub stamp : ℤ
  pub child_frame_id : Frame
  pub pose : Pose W
  pub linear : Vector3 W
  pub angular_z : W

pub record TransformMsg (W : Type 0) : Type 0 where
  pub frame_id : Frame
  pub stamp : ℤ
  pub child_frame_id : Frame
  pub translation : Vector3 W
  pub rotation : Quaternion W

pub data Output (W : Type 0) : Type 0 where
  odometry : OdometryMsg W → Output W
  transform : TransformMsg W → Output W

pub record Parameters (W : Type 0) : Type 0 where
  pub frame_id : Frame
  pub child_frame_id : Frame
  pub sensor_frame_id : Frame
  pub broadcast_sensor_tf : Bool
  pub z_offset : W
  pub velocity_filter_alpha : W
  pub max_pose_gap : W
  pub max_linear_speed : W

-- The velocity that the node keeps between two poses.
pub record Velocity (W : Type 0) : Type 0 where
  pub filtered_vx : W
  pub filtered_vy : W
  pub filtered_vz : W
  pub filtered_wz : W

pub record Node (W : Type 0) : Type 0 where
  pub parameters : Parameters W
  pub open parameters use *
  pub have_previous : Bool
  pub previous_pose : Pose W
  pub previous_time : ℤ
  pub previous_yaw : W
  pub velocity : Velocity W
  pub published : List (Output W)

module _ {W : Type 0} ⦃d : Double W⦄ where
  -- `std::clamp`
  unfoldable pub std_clamp : W → W → W → W
  std_clamp v lo hi = if lt v lo then lo else if lt hi v then hi else v

  unfoldable pub reset_velocity : Velocity W
  reset_velocity = record {
    filtered_vx = decimal 0 0;
    filtered_vy = decimal 0 0;
    filtered_vz = decimal 0 0;
    filtered_wz = decimal 0 0;
  }

  -- The constructor, with the values of the parameters; the pose before the first one is not read.
  unfoldable pub construct : Parameters W → Pose W → Node W
  construct declared unset = record {
    parameters = record declared {
      frame_id = normalize_frame declared.frame_id;
      child_frame_id = normalize_frame declared.child_frame_id;
      sensor_frame_id = normalize_frame declared.sensor_frame_id;
      velocity_filter_alpha = std_clamp declared.velocity_filter_alpha (decimal 0 0) (decimal 1 0);
    };
    have_previous = false;
    previous_pose = unset;
    previous_time = pos 0;
    previous_yaw = decimal 0 0;
    velocity = reset_velocity;
    published = [];
  }
