-- ===== src/PoseOdometry/Callback.antt =====
-- pose_stamped_to_odometry.cpp: poseCallback. normalizeAngle, quaternionYaw and normalizeFrame have the
-- text that Controller.Command and Replan.Path model.
use tron2_navigation_ros.Base.{
  Bool, true, not, ◌&&◌, ◌||◌, Option, none, some, List, [], ◌∷◌, ℤ, ◌-ℤ◌, is_zero, is_empty,
  if◌then◌else◌,
}
use tron2_navigation_ros.Double.{Double, lt, le, gt, decimal}
use tron2_navigation_ros.Vector.{Vector3, Quaternion, Library}
use tron2_navigation_ros.Controller.Command.{normalize_angle, quaternion_yaw}
use tron2_navigation_ros.Replan.Path.{normalize_frame, same_frame}
use tron2_navigation_ros.PoseOdometry.State.{
  Pose, PoseMsg, Output, odometry, transform, Velocity, Node, reset_velocity,
}

module _ {W : Type 0} ⦃d : Double W⦄ where
  open d use {add, sub, mul, div, sqrt, is_finite}

  unfoldable pub finite_pose : Pose W → Bool
  finite_pose pose =
      is_finite pose.position.x
      && is_finite pose.position.y
      && is_finite pose.position.z
      && is_finite pose.orientation.x
      && is_finite pose.orientation.y
      && is_finite pose.orientation.z
      && is_finite pose.orientation.w

  unfoldable pub quaternion_norm : Quaternion W → W
  quaternion_norm q = sqrt (add (add (add (mul q.x q.x) (mul q.y q.y)) (mul q.z q.z)) (mul q.w q.w))

  -- The pose that is published: lifted, and with a unit quaternion.
  unfoldable pub published_pose : Node W → Pose W → Pose W
  published_pose s pose =
      let n = quaternion_norm pose.orientation in
      record {
        position = record pose.position { z = add pose.position.z s.z_offset };
        orientation = record {
          w = div pose.orientation.w n;
          x = div pose.orientation.x n;
          y = div pose.orientation.y n;
          z = div pose.orientation.z n;
        };
      }

  -- `velocity_filter_alpha_ * v + (1.0 - velocity_filter_alpha_) * filtered_v_`
  unfoldable pub blend : W → W → W → W
  blend alpha v filtered = add (mul alpha v) (mul (sub (decimal 1 0) alpha) filtered)

  -- The velocity from the last pose to this one, and its length.
  unfoldable pub raw_velocity : Node W → Pose W → W → Vector3 W
  raw_velocity s pose dt = record {
    x = div (sub pose.position.x s.previous_pose.position.x) dt;
    y = div (sub pose.position.y s.previous_pose.position.y) dt;
    z = div (sub pose.position.z s.previous_pose.position.z) dt;
  }

  unfoldable pub speed_of : Vector3 W → W
  speed_of v = sqrt (add (add (mul v.x v.x) (mul v.y v.y)) (mul v.z v.z))

  unfoldable pub blend_velocity : W → Vector3 W → W → Velocity W → Velocity W
  blend_velocity alpha v wz before = record {
    filtered_vx = blend alpha v.x before.filtered_vx;
    filtered_vy = blend alpha v.y before.filtered_vy;
    filtered_vz = blend alpha v.z before.filtered_vz;
    filtered_wz = blend alpha wz before.filtered_wz;
  }

  -- The filter on the velocity between two poses that are close enough in time.
  unfoldable pub filter_velocity : Node W → Pose W → W → W → Velocity W
  filter_velocity s pose yaw dt =
      let v = raw_velocity s pose dt in
      let wz = div (normalize_angle (sub yaw s.previous_yaw)) dt in
      if is_finite (speed_of v) && le (speed_of v) s.max_linear_speed
      then blend_velocity s.velocity_filter_alpha v wz s.velocity
      else reset_velocity

  module _ (rclcpp : Library W) where
    -- Lines 130 to 165.
    unfoldable pub estimate_velocity : Node W → Pose W → W → ℤ → Velocity W
    estimate_velocity s pose yaw sample_time =
        let dt = rclcpp.seconds (sample_time -ℤ s.previous_time) in
        if not s.have_previous
        then s.velocity
        else if gt dt (decimal 1 4) && le dt s.max_pose_gap
        then filter_velocity s pose yaw dt
        else reset_velocity

    -- The messages of a pose, the last one first.
    unfoldable pub messages : Node W → Pose W → Velocity W → ℤ → List (Output W) → List (Output W)
    messages s pose v stamp before =
        let odom = odometry (record {
          frame_id = s.frame_id;
          stamp = stamp;
          child_frame_id = s.child_frame_id;
          pose = pose;
          linear = record { x = v.filtered_vx; y = v.filtered_vy; z = v.filtered_vz };
          angular_z = v.filtered_wz;
        }) in
        let tf = transform (record {
          frame_id = s.frame_id;
          stamp = stamp;
          child_frame_id = s.sensor_frame_id;
          translation = pose.position;
          rotation = pose.orientation;
        }) in
        if s.broadcast_sensor_tf then tf ∷ (odom ∷ before) else odom ∷ before

    -- A pose that has passed the tests.
    unfoldable pub accept_pose : Node W → ℤ → PoseMsg W → Node W
    accept_pose s now msg =
        let sample_time = if is_zero msg.stamp then now else msg.stamp in
        let pose = published_pose s msg.pose in
        let yaw = quaternion_yaw pose.orientation in
        let v = estimate_velocity s pose yaw sample_time in
        record s {
          velocity = v;
          published = messages s pose v sample_time s.published;
          previous_pose = pose;
          previous_time = sample_time;
          previous_yaw = yaw;
          have_previous = true;
        }

    -- The tests of a message, in their order.
    unfoldable pub is_rejected : Node W → PoseMsg W → Bool
    is_rejected s msg =
        let input_frame = normalize_frame msg.frame_id in
        if not (finite_pose msg.pose)
        then true
        else if is_empty input_frame || not (same_frame input_frame s.frame_id)
        then true
        else lt (quaternion_norm msg.pose.orientation) (decimal 1 6)

    -- `now` is the clock, which is read for a message without a stamp.
    unfoldable pub pose_callback : Node W → ℤ → Option (PoseMsg W) → Node W
    pose_callback s now none = s
    pose_callback s now (some msg) = if is_rejected s msg then s else accept_pose s now msg

    -- Poses in the order of their arrival, each with the time of its callback.
    unfoldable pub run : Node W → List (ℤ × Option (PoseMsg W)) → Node W
    run s [] = s
    run s (e ∷ es) = run (pose_callback s e.0 e.1) es
