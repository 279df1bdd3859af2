-- ===== src/PointFilter/Laws.antt =====
-- rslidar_point_filter.hpp: what the neighbour search counts, and what becomes of each point.
pub mod Count
mod Around
pub mod Neighbors
pub mod Partition
pub mod Settings
mod Search
