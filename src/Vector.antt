-- ===== src/Vector.antt =====
-- Points, orientations, and what the code takes from Eigen and rclcpp, which are not in this
-- repository: their operations are a parameter.
pub mod Index
use tron2_navigation_ros.Base.{ℤ, ◌+ℤ◌, ◌-ℤ◌}

pub record Vector3 (W : Type 0) : Type 0 where
  pub x : W
  pub y : W
  pub z : W

-- Eigen's Vector3i.
pub record Vector3i : Type 0 where
  pub x : ℤ
  pub y : ℤ
  pub z : ℤ

abbrev pub add_index : Vector3i → Vector3i → Vector3i
add_index a b = record { x = a.x +ℤ b.x; y = a.y +ℤ b.y; z = a.z +ℤ b.z }

abbrev pub sub_index : Vector3i → Vector3i → Vector3i
sub_index a b = record { x = a.x -ℤ b.x; y = a.y -ℤ b.y; z = a.z -ℤ b.z }

pub record Quaternion (W : Type 0) : Type 0 where
  pub w : W
  pub x : W
  pub y : W
  pub z : W

-- Eigen's operations on vectors, and rclcpp's conversions of durations.
pub record Library (W : Type 0) : Type 0 where
  pub zero3 : Vector3 W
  pub vec_sub : Vector3 W → Vector3 W → Vector3 W
  pub vec_scale : Vector3 W → W → Vector3 W
  pub norm : Vector3 W → W
  -- What `normalize` leaves in the vector.
  pub normalized : Vector3 W → Vector3 W
  -- Of the first two coordinates.
  pub norm_xy : Vector3 W → W
  pub squared_norm_xy : Vector3 W → W
  pub dot_xy : Vector3 W → Vector3 W → W
  -- The first column of the rotation matrix.
  pub heading : Quaternion W → Vector3 W
  pub seconds : ℤ → W
  pub from_seconds : W → ℤ
