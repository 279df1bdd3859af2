-- ===== src/PoseOdometry.antt =====
-- SCAN-Planner-ros2-community/src/planner/plan_manage/src/pose_stamped_to_odometry.cpp: the node that
-- turns the poses of the localization into odometry, with a velocity that it estimates.
pub mod State
pub mod Callback
mod Laws
mod Tests
