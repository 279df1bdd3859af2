-- ===== src/GridMap/Laws.antt =====
-- grid_map.cpp: what holds of the addresses, the inflation, the sliding window and the queue of the rays.
mod Window
pub mod Roundtrip
pub mod Layer
pub mod Inflation
pub mod Edits
mod Boxes
pub mod Resets
pub mod Draining
pub mod Histories
mod Leaving
mod Moves
mod Layers
mod Mask
mod Cleared
pub mod Entering
pub mod Sliding
pub mod Queue
