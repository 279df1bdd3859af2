-- ===== src/PointFilter/State.antt =====
-- rslidar_point_filter.hpp: the members of RslidarPointFilter, and the points and clouds of the driver.
use tron2_navigation_ros.Base.{ℕ, Bool, List, ℤ}

pub record Point (W : Type 0) : Type 0 where
  pub x : W
  pub y : W
  pub z : W
  pub intensity : W
  pub ring : ℕ
  pub timestamp : W

pub record PointCloud (W : Type 0) : Type 0 where
  pub height : ℕ
  pub width : ℕ
  pub is_dense : Bool
  pub timestamp : W
  pub seq : ℕ
  pub frame_id : List ℕ
  pub points : List (Point W)

pub record Filter (W : Type 0) : Type 0 where
  pub enabled : Bool
  pub min_range : W
  pub intensity_filter_enable : Bool
  pub min_intensity : W
  pub intensity_apply_range : W
  pub self_filter_enable : Bool
  pub self_box_min_x : W
  pub self_box_min_y : W
  pub self_box_min_z : W
  pub self_box_max_x : W
  pub self_box_max_y : W
  pub self_box_max_z : W
  pub angle_mask_enable : Bool
  pub angle_mask_ranges : List (W × W)
  pub radius_filter_enable : Bool
  pub radius_apply_range : W
  pub search_radius : W
  pub min_neighbors : ℕ

pub record GridKey : Type 0 where
  pub x : ℤ
  pub y : ℤ
  pub z : ℤ
