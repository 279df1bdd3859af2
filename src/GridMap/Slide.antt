-- ===== src/GridMap/Slide.antt =====
-- grid_map.cpp: moving the window of the map after the robot (updateSlidingMap).
use tron2_navigation_ros.Base.{
  ℕ, zero, suc, ◌+◌, Bool, true, false, not, ◌||◌, some, List, [], ◌∷◌, ◌++◌, ℤ, pos, negsuc,
  pos_part, neg_part, ◌+ℤ◌, ◌-ℤ◌, leb, if◌then◌else◌,
}
use tron2_navigation_ros.Double.{Double}
use tron2_navigation_ros.Vector.{Vector3, Vector3i, sub_index}
use tron2_navigation_ros.GridMap.State.{GridMap, write}
use tron2_navigation_ros.GridMap.Address.{
  get_local_index, to_address_local, hash_id_to_global_index, bound_index, pos_to_index,
  update_map_boundary_from_index,
}
use tron2_navigation_ros.GridMap.Update.{
  update_inflation, reset_all_map_data, occupied_value, forget_cell,
}
use tron2_navigation_ros.GridMap.Region.{flat_map, to_list}

-- `clear_mask` and `clear_addrs`.
pub record Clear : Type 0 where
  pub clear_mask : ℕ → Bool
  pub clear_addrs : List ℕ

unfoldable pub add_clear_addr : Clear → ℕ → Clear
add_clear_addr c addr = if c.clear_mask addr then c else record {
  clear_mask = write c.clear_mask addr true;
  clear_addrs = c.clear_addrs ++ (addr ∷ []);
}

unfoldable pub add_clear_addrs : Clear → List ℕ → Clear
add_clear_addrs c [] = c
add_clear_addrs c (addr ∷ addrs) = add_clear_addrs (add_clear_addr c addr) addrs

-- 0, 1, ... below `n`.
unfoldable pub below_from : ℕ → ℕ → List ℕ
below_from k zero = []
below_from k (suc n) = k ∷ below_from (suc k) n

unfoldable pub below : ℕ → List ℕ
below n = below_from 0 n

-- The layers of one direction that leave the window, as local indices: the first `shift` ones from the
-- lower bound, or as many from the upper bound down.
unfoldable pub leaving : ℤ → ℤ → ℕ → ℤ → List ℕ
leaving min max n (pos shift) = to_list (λ k. get_local_index (min +ℤ pos k) n) (below shift)
leaving min max n (negsuc k) = to_list (λ j. get_local_index (max -ℤ pos j) n) (below (suc k))

-- The addresses of the three rounds of the loop on `dim`.
unfoldable pub leaving_x : {W : Type 0} → GridMap W → ℤ → List ℕ
leaving_x m shift =
    flat_map
      (λ l.
        flat_map (λ a. to_list (λ b. to_address_local m.parameters l a b) (below m.voxel_num_z))
          (below m.voxel_num_y))
      (leaving m.map_bound_min_idx.x m.map_bound_max_idx.x m.voxel_num_x shift)

unfoldable pub leaving_y : {W : Type 0} → GridMap W → ℤ → List ℕ
leaving_y m shift =
    flat_map
      (λ l.
        flat_map (λ a. to_list (λ b. to_address_local m.parameters b l a) (below m.voxel_num_x))
          (below m.voxel_num_z))
      (leaving m.map_bound_min_idx.y m.map_bound_max_idx.y m.voxel_num_y shift)

unfoldable pub leaving_z : {W : Type 0} → GridMap W → ℤ → List ℕ
leaving_z m shift =
    flat_map
      (λ l.
        flat_map (λ a. to_list (λ b. to_address_local m.parameters a b l) (below m.voxel_num_y))
          (below m.voxel_num_x))
      (leaving m.map_bound_min_idx.z m.map_bound_max_idx.z m.voxel_num_z shift)

unfoldable pub cells_to_clear : {W : Type 0} → GridMap W → Vector3i → Clear
cells_to_clear m shift_num =
    add_clear_addrs
      (add_clear_addrs
        (add_clear_addrs (record { clear_mask = λ addr. false; clear_addrs = [] })
          (leaving_x m shift_num.x))
        (leaving_y m shift_num.y))
      (leaving_z m shift_num.z)

abbrev abs_ℤ : ℤ → ℕ
abs_ℤ a = pos_part a + neg_part a

-- `shift_num.cwiseAbs().maxCoeff() < threshold`
unfoldable pub is_small_shift : Vector3i → ℕ → Bool
is_small_shift s threshold =
    if leb threshold (abs_ℤ s.x) || leb threshold (abs_ℤ s.y) || leb threshold (abs_ℤ s.z)
    then false
    else true

unfoldable pub is_far_shift : {W : Type 0} → GridMap W → Vector3i → Bool
is_far_shift m s =
    leb m.voxel_num_x (abs_ℤ s.x) || leb m.voxel_num_y (abs_ℤ s.y) || leb m.voxel_num_z (abs_ℤ s.z)

module _ {W : Type 0} ⦃d : Double W⦄ where
  unfoldable pub reset_cell_by_address_for_sliding : GridMap W → ℕ → (ℕ → Bool) → GridMap W
  reset_cell_by_address_for_sliding m addr clear_mask =
      if occupied_value m (m.occupancy_buffer addr)
      then update_inflation m (hash_id_to_global_index m addr) (negsuc 0) (some clear_mask)
      else m

  -- The two loops over `clear_addrs`.
  unfoldable pub uninflate_cells : GridMap W → (ℕ → Bool) → List ℕ → GridMap W
  uninflate_cells m clear_mask [] = m
  uninflate_cells m clear_mask (addr ∷ addrs) =
      uninflate_cells (reset_cell_by_address_for_sliding m addr clear_mask) clear_mask addrs

  unfoldable pub clear_cell : GridMap W → ℕ → GridMap W
  clear_cell m addr = record (forget_cell m addr) {
    occupancy_buffer_inflate_cnt = write m.occupancy_buffer_inflate_cnt addr 0;
    occupancy_buffer_inflate = write m.occupancy_buffer_inflate addr 0;
  }

  unfoldable pub clear_cells : GridMap W → List ℕ → GridMap W
  clear_cells m [] = m
  clear_cells m (addr ∷ addrs) = clear_cells (clear_cell m addr) addrs

  -- `map_origin_idx_ = new_origin_idx` and the new bounds of the map.
  unfoldable pub move_origin : GridMap W → Vector3i → GridMap W
  move_origin m new_origin_idx =
      update_map_boundary_from_index (record m { map_origin_idx = new_origin_idx })

  unfoldable pub slide_far : GridMap W → Vector3i → GridMap W
  slide_far m new_origin_idx =
      let moved = move_origin (reset_all_map_data m) new_origin_idx in
      record moved {
        local_bound_min = moved.map_bound_min_idx;
        local_bound_max = moved.map_bound_max_idx;
      }

  unfoldable pub slide_near : GridMap W → Vector3i → Vector3i → GridMap W
  slide_near m new_origin_idx shift_num =
      let c = cells_to_clear m shift_num in
      let cleared = clear_cells (uninflate_cells m c.clear_mask c.clear_addrs) c.clear_addrs in
      let moved = move_origin cleared new_origin_idx in
      record moved {
        local_bound_min = bound_index moved moved.local_bound_min;
        local_bound_max = bound_index moved moved.local_bound_max;
      }

  unfoldable pub update_sliding_map : GridMap W → Vector3 W → GridMap W
  update_sliding_map m center =
      let new_origin_idx = pos_to_index m center in
      let shift_num = sub_index new_origin_idx m.map_origin_idx in
      if not m.map_sliding_en
      then m
      else if is_small_shift shift_num m.map_sliding_thresh_vox
      then m
      else if is_far_shift m shift_num
      then slide_far m new_origin_idx
      else slide_near m new_origin_idx shift_num
