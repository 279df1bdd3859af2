-- ===== src/PoseOdometry/Laws.antt =====
-- pose_stamped_to_odometry.cpp: the range of the velocity, and what is published.
pub mod Velocity
pub mod Runs
