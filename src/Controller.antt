-- ===== src/Controller.antt =====
-- SCAN-Planner-ros2-community/src/planner/plan_manage/src/closed_loop_controller_safe.cpp: the node
-- that follows the published trajectories and commands the chassis.
pub mod State
pub mod Command
pub mod Tracking
pub mod Events
mod Lookahead
mod Sampling
mod Invariant
mod Stops
mod Limits
mod Tests
