-- ===== src/AStar.antt =====
-- SCAN-Planner-ros2-community/src/planner/path_searching: the search of a path around obstacles on a
-- grid of nodes that is kept from one search to the next (dyn_a_star.h, dyn_a_star.cpp).
pub mod State
pub mod Grid
pub mod Endpoints
pub mod Search
mod Laws
mod Tests
