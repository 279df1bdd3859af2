-- ===== src/AStar/Laws.antt =====
-- dyn_a_star.h, dyn_a_star.cpp: what holds of the search and of the places of the grid.
pub mod Route
mod Visits
mod Turns
pub mod Work
mod Places
mod Loop
mod Ends
pub mod Adjust
pub mod Results
pub mod Blocked
pub mod Rounding
