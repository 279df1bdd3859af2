-- ===== src/GridMap/Update.antt =====
-- grid_map.h, grid_map.cpp: writing and reading the occupancy, with the inflation that counts for
-- each voxel how many occupied ones reach it. The count is an `int` that is at most the number of
-- offsets, and stands as a natural number.
use tron2_navigation_ros.Base.{
  ℕ, Bool, false, not, ◌&&◌, ◌||◌, Option, none, some, List, [], ◌∷◌, ◌++◌, ℤ, pos, negsuc,
  pos_part, ◌+ℤ◌, ◌-ℤ◌, ltb, is_zero, ◌==◌, if◌then◌else◌,
}
use tron2_navigation_ros.Double.{Double, lt, gt, le, ge, decimal}
use tron2_navigation_ros.Vector.{Vector3, Vector3i, add_index}
use tron2_navigation_ros.GridMap.State.{GridMap, write}
use tron2_navigation_ros.GridMap.Address.{
  to_address, hash_id_to_global_index, bound_index, is_in_map_index, is_in_map, pos_to_index,
}

-- `INVALID_IDX`
abbrev pub invalid_idx : ℤ
invalid_idx = negsuc 9999

-- The two buffers that `updateInflationLayer` takes by reference.
pub record Layer : Type 0 where
  pub cnt_buffer : ℕ → ℕ
  pub flag_buffer : ℕ → ℕ

unfoldable pub is_masked : Option (ℕ → Bool) → ℕ → Bool
is_masked none addr = false
is_masked (some ignore_mask) addr = ignore_mask addr

-- One turn of the loop of `updateInflationLayer`.
unfoldable pub inflate_offset :
    {W : Type 0} → GridMap W → Vector3i → ℤ → Option (ℕ → Bool) → Layer → Vector3i → Layer
inflate_offset m id delta ignore_mask l offset =
    let inf_id = add_index id offset in
    let addr = to_address m.parameters inf_id in
    let cnt = pos_part (pos (l.cnt_buffer addr) +ℤ delta) in
    if not (is_in_map_index m inf_id) then l else if is_masked ignore_mask addr then l else record {
      cnt_buffer = write l.cnt_buffer addr cnt;
      flag_buffer = write l.flag_buffer addr (if ltb 0 cnt then 1 else 0);
    }

unfoldable pub update_inflation_layer :
    {W : Type 0} → GridMap W → Vector3i → ℤ → Option (ℕ → Bool) → List Vector3i → Layer → Layer
update_inflation_layer m id delta ignore_mask [] l = l
update_inflation_layer m id delta ignore_mask (offset ∷ offsets) l =
    update_inflation_layer m id delta ignore_mask offsets
      (inflate_offset m id delta ignore_mask l offset)

unfoldable pub update_inflation :
    {W : Type 0} → GridMap W → Vector3i → ℤ → Option (ℕ → Bool) → GridMap W
update_inflation m id delta ignore_mask =
    let l = update_inflation_layer m id delta ignore_mask m.inflate_offsets (record {
      cnt_buffer = m.occupancy_buffer_inflate_cnt;
      flag_buffer = m.occupancy_buffer_inflate;
    }) in
    record m {
      occupancy_buffer_inflate_cnt = l.cnt_buffer;
      occupancy_buffer_inflate = l.flag_buffer;
    }

-- `short` plus one.
unfoldable pub next_short : ℤ → ℤ
next_short a = if is_zero (a -ℤ pos 32767) then negsuc 32767 else a +ℤ pos 1

module _ {W : Type 0} ⦃d : Double W⦄ where
  open d use {add, sub, mul, of_int}

  unfoldable pub occupied_value : GridMap W → W → Bool
  occupied_value m log_odds = gt log_odds m.min_occupancy_log

  unfoldable pub apply_occupancy_update : GridMap W → Vector3i → W → GridMap W
  apply_occupancy_update m id new_log_odds =
      let addr = to_address m.parameters id in
      let was_occ = occupied_value m (m.occupancy_buffer addr) in
      let now_occ = occupied_value m new_log_odds in
      let written = record m { occupancy_buffer = write m.occupancy_buffer addr new_log_odds } in
      if not (is_in_map_index m id)
      then m
      else if was_occ && not now_occ || not was_occ && now_occ
      then update_inflation written id (if now_occ then pos 1 else negsuc 0) none
      else written

  -- The last five lines of `resetCellByAddress`.
  unfoldable pub forget_cell : GridMap W → ℕ → GridMap W
  forget_cell m addr = record m {
    occupancy_buffer = write m.occupancy_buffer addr (sub m.clamp_min_log m.unknown_flag);
    count_hit = write m.count_hit addr (pos 0);
    count_hit_and_miss = write m.count_hit_and_miss addr (pos 0);
    flag_rayend = write m.flag_rayend addr (negsuc 0);
    flag_traverse = write m.flag_traverse addr (negsuc 0);
  }

  unfoldable pub reset_cell_by_address : GridMap W → ℕ → GridMap W
  reset_cell_by_address m addr =
      let id_g = hash_id_to_global_index m addr in
      forget_cell
        (if occupied_value m (m.occupancy_buffer addr)
          then update_inflation m id_g (negsuc 0) none
          else m)
        addr

  unfoldable pub reset_all_map_data : GridMap W → GridMap W
  reset_all_map_data m = record m {
    occupancy_buffer = λ addr. sub m.clamp_min_log m.unknown_flag;
    occupancy_buffer_inflate = λ addr. 0;
    occupancy_buffer_inflate_cnt = λ addr. 0;
    count_hit_and_miss = λ addr. pos 0;
    count_hit = λ addr. pos 0;
    flag_rayend = λ addr. negsuc 0;
    flag_traverse = λ addr. negsuc 0;
    cache_voxel = [];
  }

  unfoldable pub set_occupied : GridMap W → Vector3 W → GridMap W
  set_occupied m p =
      if not (is_in_map m p) then m else apply_occupancy_update m (pos_to_index m p) m.clamp_max_log

  -- A number is 1 or 0 if it is neither below nor above it, and not NaN.
  abbrev equals : W → W → Bool
  equals a b = le a b && le b a

  unfoldable pub set_occupancy : GridMap W → Vector3 W → W → GridMap W
  set_occupancy m p occ =
      if not (equals occ (decimal 1 0)) && not (equals occ (decimal 0 0))
      then m
      else if not (is_in_map m p)
      then m
      else apply_occupancy_update m (pos_to_index m p)
          (if gt occ (decimal 5 1) then m.clamp_max_log else m.clamp_min_log)

  -- `getOccupancy` of an index, and of a position.
  unfoldable pub get_occupancy_index : GridMap W → Vector3i → ℤ
  get_occupancy_index m id =
      if not (is_in_map_index m id)
      then negsuc 0
      else if occupied_value m (m.occupancy_buffer (to_address m.parameters id))
      then pos 1
      else pos 0

  unfoldable pub get_occupancy : GridMap W → Vector3 W → ℤ
  get_occupancy m p =
      if not (is_in_map m p)
      then negsuc 0
      else if occupied_value m (m.occupancy_buffer (to_address m.parameters (pos_to_index m p)))
      then pos 1
      else pos 0

  unfoldable pub get_inflate_occupancy_from_buffer : GridMap W → Vector3 W → (ℕ → ℕ) → ℤ
  get_inflate_occupancy_from_buffer m p buffer =
      if not (is_in_map m p)
      then negsuc 0
      else pos (buffer (to_address m.parameters (pos_to_index m p)))

  -- The centres of the two cylinders that stand for the robot.
  unfoldable pub cylinder : (W → W → W) → GridMap W → Vector3 W → W → Vector3 W
  cylinder op m p yaw = record {
    x = op p.x (mul m.double_cylinder_offset (d.cos yaw));
    y = op p.y (mul m.double_cylinder_offset (d.sin yaw));
    z = op p.z (mul m.double_cylinder_offset (decimal 0 0));
  }

  unfoldable pub get_inflate_occupancy : GridMap W → Vector3 W → W → ℤ
  get_inflate_occupancy m p yaw =
      let front_occ =
        get_inflate_occupancy_from_buffer m (cylinder add m p yaw) m.occupancy_buffer_inflate in
      if not (is_zero front_occ)
      then front_occ
      else get_inflate_occupancy_from_buffer m (cylinder sub m p yaw) m.occupancy_buffer_inflate

  unfoldable pub is_unknown : GridMap W → Vector3i → Bool
  is_unknown m id =
      lt (m.occupancy_buffer (to_address m.parameters (bound_index m id)))
        (sub m.clamp_min_log (decimal 1 3))

  unfoldable pub is_known_free : GridMap W → Vector3i → Bool
  is_known_free m id =
      let adr = to_address m.parameters (bound_index m id) in
      ge (m.occupancy_buffer adr) m.clamp_min_log && m.occupancy_buffer_inflate adr == 0

  unfoldable pub is_known_occupied : GridMap W → Vector3i → Bool
  is_known_occupied m id =
      m.occupancy_buffer_inflate (to_address m.parameters (bound_index m id)) == 1

  -- A hit or a miss of a voxel is counted; the first one puts it into the queue.
  unfoldable pub count_voxel : GridMap W → Vector3i → ℤ → GridMap W
  count_voxel m id occ =
      let idx_ctns = to_address m.parameters id in
      let seen = next_short (m.count_hit_and_miss idx_ctns) in
      record m {
        count_hit_and_miss = write m.count_hit_and_miss idx_ctns seen;
        cache_voxel = if is_zero (seen -ℤ pos 1) then m.cache_voxel ++ (id ∷ []) else m.cache_voxel;
        count_hit =
            if is_zero (occ -ℤ pos 1)
            then write m.count_hit idx_ctns (next_short (m.count_hit idx_ctns))
            else m.count_hit;
      }

  -- The map, and the address that the code returns.
  unfoldable pub set_cache_occupancy : GridMap W → Vector3 W → ℤ → GridMap W × ℤ
  set_cache_occupancy m p occ =
      let id = pos_to_index m p in
      if not (is_zero (occ -ℤ pos 1)) && not (is_zero occ)
      then (m, invalid_idx)
      else if not (is_in_map_index m id)
      then (m, invalid_idx)
      else (count_voxel m id occ, pos (to_address m.parameters id))
