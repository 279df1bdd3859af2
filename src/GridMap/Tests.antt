-- ===== src/GridMap/Tests.antt =====
-- grid_map.h, grid_map.cpp: a small map, and the theorems at it.
use tron2_navigation_ros.Base.{
  ◌*◌, ◌<◌, ◌≡◌, refl, ◌+ℤ◌, ◌-ℤ◌, true, List, [], ◌∷◌, ℤ, pos, negsuc, some, ltb, arith,
  if◌then◌else◌, false, ◌⊎◌,
}
use tron2_navigation_ros.Exact.{Milli, milli, Milli-IsOrdered}
use tron2_navigation_ros.Samples.{num, point}
use tron2_navigation_ros.Vector.{Vector3i}
use tron2_navigation_ros.Double.{lt}
use tron2_navigation_ros.GridMap.State.{Parameters, GridMap}
use tron2_navigation_ros.GridMap.Address.{
  to_address, hash_id_to_global_index, is_in_map_index, bound_index,
}
use tron2_navigation_ros.GridMap.Update.{occupied_value, reset_all_map_data, is_known_occupied}
use tron2_navigation_ros.GridMap.Laws.Roundtrip.{
  IsWindow, hash_id_to_global_index-to_address, to_address-lt,
}
use tron2_navigation_ros.GridMap.Laws.Layer.{reaching}
use tron2_navigation_ros.GridMap.Laws.Inflation.{is_occupied}
use tron2_navigation_ros.GridMap.Laws.Edits.{IsSound}
use tron2_navigation_ros.GridMap.Laws.Resets.{reset_all_map_data-IsSound}
use tron2_navigation_ros.GridMap.Laws.Histories.{
  Edit, updated, occupied, occupancy, cached, drained, reset_between, edit_all, edit_all-IsSound,
  is_known_occupied-edit_all,
}
use tron2_navigation_ros.GridMap.Address.{
  pos_to_index, to_address_local, get_local_index, update_map_boundary_from_index,
}
use tron2_navigation_ros.GridMap.Update.{
  update_inflation, forget_cell, count_voxel, set_cache_occupancy,
}
use tron2_navigation_ros.GridMap.Region.{flat_map, to_list}
use tron2_navigation_ros.GridMap.Slide.{
  update_sliding_map, is_small_shift, is_far_shift, slide_near, cells_to_clear, add_clear_addrs,
  add_clear_addr, uninflate_cells, clear_cells, clear_cell, reset_cell_by_address_for_sliding,
  move_origin, leaving_x, leaving_y, leaving_z, leaving, below, below_from,
}
use tron2_navigation_ros.GridMap.Cache.{Local, drain_cache}
use tron2_navigation_ros.GridMap.Laws.Draining.{drain_cache-IsClamped}
use tron2_navigation_ros.GridMap.Laws.Queue.{IsIdle, observe_all, drain_cache-observe_all}
use tron2_navigation_ros.GridMap.Laws.Entering.{IsAnchored}
use tron2_navigation_ros.GridMap.Laws.Sliding.{
  update_sliding_map-occupancy_buffer, entered_not_inflated, update_sliding_map-IsWindow,
}
use tron2_navigation_ros.Vector.{Vector3}

abbrev pub index : ℤ → ℤ → ℤ → Vector3i
index a b c = record { x = a; y = b; z = c }

abbrev settings : Parameters Milli
settings = record {
  voxel_num_x = 9;
  voxel_num_y = 9;
  voxel_num_z = 3;
  resolution = num 1;
  resolution_inv = num 1;
  double_cylinder_radius = num 1;
  double_cylinder_offset = num 0;
  obstacles_inflation_z_up = num 1;
  obstacles_inflation_z_down = num 1;
  min_occupancy_log = num 2;
  clamp_min_log = num 1;
  clamp_max_log = num 3;
  unknown_flag = num 1;
  map_sliding_en = true;
  map_sliding_thresh_vox = 1;
}

-- A window of 9 by 9 by 3 voxels around the origin, and an inflation to two sides.
abbrev pub free_map : GridMap Milli
free_map = record {
  parameters = settings;
  map_origin_idx = index (pos 0) (pos 0) (pos 0);
  map_bound_min_idx = index (negsuc 3) (negsuc 3) (negsuc 0);
  map_bound_max_idx = index (pos 4) (pos 4) (pos 1);
  map_min_boundary = record {
    x = some (negsuc 3999);
    y = some (negsuc 3999);
    z = some (negsuc 999);
  };
  map_max_boundary = record { x = num 5; y = num 5; z = num 2 };
  occupancy_buffer = λ addr. num 0;
  occupancy_buffer_inflate = λ addr. 0;
  occupancy_buffer_inflate_cnt = λ addr. 0;
  inflate_offsets = index (pos 0) (pos 0) (pos 0) ∷ (index (pos 1) (pos 0) (pos 0) ∷ []);
  count_hit = λ addr. pos 0;
  count_hit_and_miss = λ addr. pos 0;
  flag_rayend = λ addr. negsuc 0;
  flag_traverse = λ addr. negsuc 0;
  cache_voxel = [];
  local_bound_min = index (negsuc 3) (negsuc 3) (negsuc 0);
  local_bound_max = index (pos 4) (pos 4) (pos 1);
}

free_map-IsWindow : IsWindow free_map
unfolding ◌+ℤ◌ ◌-ℤ◌
free_map-IsWindow = record {
  x_pos = omega arith;
  y_pos = omega arith;
  z_pos = omega arith;
  x_max = refl;
  y_max = refl;
  z_max = refl;
}

reset_map-IsSound : IsSound (reset_all_map_data free_map)
unfolding occupied_value
reset_map-IsSound = reset_all_map_data-IsSound free_map free_map-IsWindow refl

hash_id_to_global_index-to_address_example :
    hash_id_to_global_index free_map
      (to_address free_map.parameters (index (negsuc 2) (pos 1) (negsuc 0)))
    ≡ index (negsuc 2) (pos 1) (negsuc 0)
unfolding is_in_map_index
hash_id_to_global_index-to_address_example =
    hash_id_to_global_index-to_address free_map (index (negsuc 2) (pos 1) (negsuc 0))
      free_map-IsWindow refl

to_address-lt_example :
    to_address free_map.parameters (index (negsuc 2) (pos 1) (negsuc 0)) < 9 * 9 * 3
to_address-lt_example =
    to_address-lt free_map (index (negsuc 2) (pos 1) (negsuc 0)) free_map-IsWindow

abbrev around : Local Milli
around = record {
  prob_hit_log = num 1;
  prob_miss_log = some (negsuc 999);
  min_id = index (negsuc 1) (negsuc 1) (negsuc 0);
  max_id = index (pos 2) (pos 2) (pos 1);
}

-- A hit, a point set occupied and free again, a count, the loop over the queue, and a reset of a part.
abbrev writes : List (Edit Milli)
writes =
    updated (index (pos 1) (pos 1) (pos 0)) (num 3)
    ∷ (occupied (point 2 3)
        ∷ (occupancy (point 2 3) (num 0)
            ∷ (cached (point 1 1) (pos 1)
                ∷ (drained around ∷ (reset_between (point 0 0) (point 1 0) ∷ [])))))

edit_all-IsSound_example : IsSound (edit_all (reset_all_map_data free_map) writes)
edit_all-IsSound_example = edit_all-IsSound (reset_all_map_data free_map) writes reset_map-IsSound

is_known_occupied-edit_all_example :
    let r = edit_all (reset_all_map_data free_map) writes in
    is_known_occupied r (index (pos 2) (pos 1) (pos 0))
    ≡ ltb 0
        (reaching (is_occupied r) (bound_index r (index (pos 2) (pos 1) (pos 0))) r.inflate_offsets)
is_known_occupied-edit_all_example =
    is_known_occupied-edit_all (reset_all_map_data free_map) writes (index (pos 2) (pos 1) (pos 0))
      reset_map-IsSound

-- Three voxels in a row, all occupied; the robot moves ahead by one.
abbrev row : GridMap Milli
row = record free_map {
  parameters = record settings { voxel_num_x = 3; voxel_num_y = 1; voxel_num_z = 1 };
  map_bound_min_idx = index (negsuc 0) (pos 0) (pos 0);
  map_bound_max_idx = index (pos 1) (pos 0) (pos 0);
  occupancy_buffer = λ addr. num 3;
}

abbrev ahead : Vector3 Milli
ahead = point 1 0

row-IsWindow : IsWindow row
unfolding ◌+ℤ◌ ◌-ℤ◌
row-IsWindow = record {
  x_pos = omega arith;
  y_pos = omega arith;
  z_pos = omega arith;
  x_max = refl;
  y_max = refl;
  z_max = refl;
}

row-IsAnchored : IsAnchored row
unfolding ◌-ℤ◌
row-IsAnchored = record { x_min = refl; y_min = refl; z_min = refl }

row_moved :
    (is_in_map_index (update_sliding_map row ahead) (index (pos 1) (pos 0) (pos 0)) ≡ true)
    × (is_in_map_index (update_sliding_map row ahead) (index (pos 2) (pos 0) (pos 0)) ≡ true)
unfolding ◌+ℤ◌ ◌-ℤ◌ update_sliding_map is_in_map_index pos_to_index is_small_shift is_far_shift
    slide_near cells_to_clear add_clear_addrs add_clear_addr uninflate_cells clear_cells clear_cell
    reset_cell_by_address_for_sliding update_inflation forget_cell move_origin
    update_map_boundary_from_index leaving_x leaving_y leaving_z leaving below below_from flat_map
    to_list to_address_local get_local_index occupied_value
row_moved = (refl, refl)

update_sliding_map-occupancy_buffer_example :
    (update_sliding_map row ahead).occupancy_buffer
      (to_address row.parameters (index (pos 1) (pos 0) (pos 0)))
    ≡ (if is_in_map_index row (index (pos 1) (pos 0) (pos 0)) then num 3 else num 0)
update_sliding_map-occupancy_buffer_example =
    update_sliding_map-occupancy_buffer row ahead (index (pos 1) (pos 0) (pos 0)) row-IsWindow
      row-IsAnchored row_moved.0

entered_not_inflated_example :
    ((update_sliding_map row ahead).occupancy_buffer_inflate_cnt
        (to_address row.parameters (index (pos 2) (pos 0) (pos 0)))
      ≡ 0)
    × ((update_sliding_map row ahead).occupancy_buffer_inflate
          (to_address row.parameters (index (pos 2) (pos 0) (pos 0)))
        ≡ 0)
unfolding is_in_map_index
entered_not_inflated_example =
    entered_not_inflated row ahead (index (pos 2) (pos 0) (pos 0)) row-IsWindow row-IsAnchored refl
      row_moved.1

update_sliding_map-IsWindow_example :
    IsWindow (update_sliding_map row ahead) × IsAnchored (update_sliding_map row ahead)
update_sliding_map-IsWindow_example =
    update_sliding_map-IsWindow row ahead row-IsWindow row-IsAnchored

-- Two hits of one voxel and a miss of another.
abbrev points : List (Vector3 Milli × ℤ)
points = (point 1 1, pos 1) ∷ ((point 1 1, pos 1) ∷ ((point 3 2, pos 0) ∷ []))

drain_cache-IsClamped_example :
    let m = observe_all free_map points in
    let r = drain_cache around m in
    let x = to_address settings (index (pos 1) (pos 1) (pos 0)) in
    (r.occupancy_buffer x ≡ m.occupancy_buffer x)
    ⊎ (lt (r.occupancy_buffer x) m.clamp_min_log ≡ false)
      × (lt m.clamp_max_log (r.occupancy_buffer x) ≡ false)
unfolding observe_all set_cache_occupancy count_voxel is_in_map_index ◌-ℤ◌ pos_to_index
drain_cache-IsClamped_example =
    drain_cache-IsClamped Milli-IsOrdered around (observe_all free_map points)
      (to_address settings (index (pos 1) (pos 1) (pos 0))) refl

drain_cache-observe_all_example : IsIdle (drain_cache around (observe_all free_map points))
drain_cache-observe_all_example =
    drain_cache-observe_all around free_map points (refl, (λ x. refl), (λ x. refl))
