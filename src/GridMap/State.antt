-- ===== src/GridMap/State.antt =====
-- grid_map.h: the parameters and the buffers of GridMap that its occupancy rests on. A buffer is a
-- function of the address; that no address is out of its bounds is for the proofs to say.
use tron2_navigation_ros.Base.{ℕ, Bool, List, ℤ, ◌==◌, if◌then◌else◌}
use tron2_navigation_ros.Vector.{Vector3, Vector3i}

pub record Parameters (W : Type 0) : Type 0 where
  pub voxel_num_x : ℕ
  pub voxel_num_y : ℕ
  pub voxel_num_z : ℕ
  pub resolution : W
  pub resolution_inv : W
  pub double_cylinder_radius : W
  pub double_cylinder_offset : W
  pub obstacles_inflation_z_up : W
  pub obstacles_inflation_z_down : W
  pub min_occupancy_log : W
  pub clamp_min_log : W
  pub clamp_max_log : W
  pub unknown_flag : W
  pub map_sliding_en : Bool
  pub map_sliding_thresh_vox : ℕ

pub record GridMap (W : Type 0) : Type 0 where
  pub parameters : Parameters W
  pub open parameters use *
  pub map_origin_idx : Vector3i
  pub map_bound_min_idx : Vector3i
  pub map_bound_max_idx : Vector3i
  pub map_min_boundary : Vector3 W
  pub map_max_boundary : Vector3 W
  pub occupancy_buffer : ℕ → W
  pub occupancy_buffer_inflate : ℕ → ℕ
  pub occupancy_buffer_inflate_cnt : ℕ → ℕ
  pub inflate_offsets : List Vector3i
  pub count_hit : ℕ → ℤ
  pub count_hit_and_miss : ℕ → ℤ
  pub flag_rayend : ℕ → ℤ
  pub flag_traverse : ℕ → ℤ
  pub cache_voxel : List Vector3i
  pub local_bound_min : Vector3i
  pub local_bound_max : Vector3i

-- `buffer[addr] = a`
abbrev pub write : {A : Type 0} → (ℕ → A) → ℕ → A → ℕ → A
write buffer addr a b = if b == addr then a else buffer b
