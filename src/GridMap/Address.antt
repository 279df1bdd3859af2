-- ===== src/GridMap/Address.antt =====
-- grid_map.h, grid_map.cpp: positions, indices and addresses. The buffers are rings in each
-- direction, so an index keeps its address while the window slides.
use tron2_navigation_ros.Base.{
  ℕ, suc, ◌+◌, ◌-◌, ◌*◌, ◌/◌, ◌%◌, Bool, true, false, ◌||◌, ℤ, pos, negsuc, pos_part, sub_ℕ, ◌+ℤ◌,
  ◌-ℤ◌, ltb_ℤ, if◌then◌else◌,
}
use tron2_navigation_ros.Double.{Double, lt, gt, decimal}
use tron2_navigation_ros.Vector.{Vector3, Vector3i}
use tron2_navigation_ros.GridMap.State.{Parameters, GridMap}

-- The remainder of C++, which has the sign of its first operand.
abbrev pub remainder : ℤ → ℕ → ℤ
remainder (pos a) n = pos (a % n)
remainder (negsuc a) n = sub_ℕ 0 (suc a % n)

-- The `int` is not negative: it is below the number of voxels.
unfoldable pub get_local_index : ℤ → ℕ → ℕ
get_local_index id n =
    let local_id = remainder id n in
    pos_part (if ltb_ℤ local_id (pos 0) then local_id +ℤ pos n else local_id)

unfoldable pub to_address_local : {W : Type 0} → Parameters W → ℕ → ℕ → ℕ → ℕ
to_address_local p x y z = x * p.voxel_num_y * p.voxel_num_z + y * p.voxel_num_z + z

unfoldable pub to_address : {W : Type 0} → Parameters W → Vector3i → ℕ
to_address p id =
    get_local_index id.x p.voxel_num_x * p.voxel_num_y * p.voxel_num_z
    + get_local_index id.y p.voxel_num_y * p.voxel_num_z
    + get_local_index id.z p.voxel_num_z

-- The index in the window of size `n` from `min` on that has the given local index.
unfoldable pub unwrap : ℤ → ℕ → ℕ → ℤ
unwrap min n local =
    let dist = sub_ℕ local (get_local_index min n) in
    min +ℤ (if ltb_ℤ dist (pos 0) then dist +ℤ pos n else dist)

unfoldable pub hash_id_to_global_index : {W : Type 0} → GridMap W → ℕ → Vector3i
hash_id_to_global_index m addr =
    let x = addr / (m.voxel_num_y * m.voxel_num_z) in
    let y = (addr - x * m.voxel_num_y * m.voxel_num_z) / m.voxel_num_z in
    let z = addr - x * m.voxel_num_y * m.voxel_num_z - y * m.voxel_num_z in
    record {
      x = unwrap m.map_bound_min_idx.x m.voxel_num_x x;
      y = unwrap m.map_bound_min_idx.y m.voxel_num_y y;
      z = unwrap m.map_bound_min_idx.z m.voxel_num_z z;
    }

abbrev pub max_ℤ : ℤ → ℤ → ℤ
max_ℤ a b = if ltb_ℤ a b then b else a

abbrev pub min_ℤ : ℤ → ℤ → ℤ
min_ℤ a b = if ltb_ℤ b a then b else a

unfoldable pub bound_index : {W : Type 0} → GridMap W → Vector3i → Vector3i
bound_index m id = record {
  x = max_ℤ (min_ℤ id.x m.map_bound_max_idx.x) m.map_bound_min_idx.x;
  y = max_ℤ (min_ℤ id.y m.map_bound_max_idx.y) m.map_bound_min_idx.y;
  z = max_ℤ (min_ℤ id.z m.map_bound_max_idx.z) m.map_bound_min_idx.z;
}

unfoldable pub is_in_map_index : {W : Type 0} → GridMap W → Vector3i → Bool
is_in_map_index m idx =
    if ltb_ℤ idx.x m.map_bound_min_idx.x
      || ltb_ℤ idx.y m.map_bound_min_idx.y
      || ltb_ℤ idx.z m.map_bound_min_idx.z
    then false
    else if ltb_ℤ m.map_bound_max_idx.x idx.x
        || ltb_ℤ m.map_bound_max_idx.y idx.y
        || ltb_ℤ m.map_bound_max_idx.z idx.z
    then false
    else true

module _ {W : Type 0} ⦃d : Double W⦄ where
  open d use {add, sub, mul, of_int}

  unfoldable pub pos_to_index : GridMap W → Vector3 W → Vector3i
  pos_to_index m p = record {
    x = d.to_int (d.floor (mul p.x m.resolution_inv));
    y = d.to_int (d.floor (mul p.y m.resolution_inv));
    z = d.to_int (d.floor (mul p.z m.resolution_inv));
  }

  unfoldable pub index_to_pos : GridMap W → Vector3i → Vector3 W
  index_to_pos m id = record {
    x = mul (add (of_int id.x) (decimal 5 1)) m.resolution;
    y = mul (add (of_int id.y) (decimal 5 1)) m.resolution;
    z = mul (add (of_int id.z) (decimal 5 1)) m.resolution;
  }

  unfoldable pub is_in_map : GridMap W → Vector3 W → Bool
  is_in_map m p =
      let near = decimal 1 4 in
      if lt p.x (add m.map_min_boundary.x near)
        || lt p.y (add m.map_min_boundary.y near)
        || lt p.z (add m.map_min_boundary.z near)
      then false
      else if gt p.x (sub m.map_max_boundary.x near)
          || gt p.y (sub m.map_max_boundary.y near)
          || gt p.z (sub m.map_max_boundary.z near)
      then false
      else true

  -- updateMapBoundaryFromIndex
  unfoldable pub update_map_boundary_from_index : GridMap W → GridMap W
  update_map_boundary_from_index m =
      let min : Vector3i = record {
        x = m.map_origin_idx.x -ℤ pos (m.voxel_num_x / 2);
        y = m.map_origin_idx.y -ℤ pos (m.voxel_num_y / 2);
        z = m.map_origin_idx.z -ℤ pos (m.voxel_num_z / 2);
      } in
      let max : Vector3i = record {
        x = min.x +ℤ pos m.voxel_num_x -ℤ pos 1;
        y = min.y +ℤ pos m.voxel_num_y -ℤ pos 1;
        z = min.z +ℤ pos m.voxel_num_z -ℤ pos 1;
      } in
      record m {
        map_bound_min_idx = min;
        map_bound_max_idx = max;
        map_min_boundary = record {
          x = mul (of_int min.x) m.resolution;
          y = mul (of_int min.y) m.resolution;
          z = mul (of_int min.z) m.resolution;
        };
        map_max_boundary = record {
          x = mul (add (of_int max.x) (decimal 1 0)) m.resolution;
          y = mul (add (of_int max.y) (decimal 1 0)) m.resolution;
          z = mul (add (of_int max.z) (decimal 1 0)) m.resolution;
        };
      }
