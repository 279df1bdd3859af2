-- ===== src/GridMap.antt =====
-- SCAN-Planner-ros2-community/src/planner/plan_env: the occupancy map, a window of voxels that slides
-- over the world (grid_map.h, grid_map.cpp).
pub mod State
pub mod Address
pub mod Update
pub mod Region
pub mod Ranges
pub mod Cache
pub mod Slide
mod Laws
pub mod Tests
