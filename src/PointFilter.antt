-- ===== src/PointFilter.antt =====
-- RSLIDAR_SDK_ROS2/src/source/rslidar_point_filter.hpp: the near-field filter of the point cloud.
pub mod State
pub mod Stage
pub mod Grid
pub mod Apply
pub mod Configure
mod Laws
mod Tests
