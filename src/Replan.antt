-- ===== src/Replan.antt =====
-- SCAN-Planner-ros2-community/src/planner/plan_manage: the replanning state machine SCANReplanFSM.
pub mod State
pub mod Plan
pub mod Target
pub mod Frame
pub mod Path
pub mod Exec
pub mod Safety
pub mod Events
pub mod Invariant
pub mod Entry
pub mod Emergency
pub mod Cancel
pub mod Failure
pub mod Goal
mod Tests
