-- ===== src/GridMap/Cache.antt =====
-- grid_map.cpp: the last loop of raycastProcess, which turns the hits and misses of the queued voxels
-- into their occupancy.
use tron2_navigation_ros.Base.{Bool, not, ◌&&◌, List, [], ◌∷◌, pos, ◌-ℤ◌, leb_ℤ, if◌then◌else◌}
use tron2_navigation_ros.Double.{Double, le, ge, decimal, std_min, std_max}
use tron2_navigation_ros.Vector.{Vector3i}
use tron2_navigation_ros.GridMap.State.{GridMap, write}
use tron2_navigation_ros.GridMap.Address.{to_address}
use tron2_navigation_ros.GridMap.Update.{apply_occupancy_update}

-- The log odds of a hit and of a miss, and the box of the indices around the sensor.
pub record Local (W : Type 0) : Type 0 where
  pub prob_hit_log : W
  pub prob_miss_log : W
  pub min_id : Vector3i
  pub max_id : Vector3i

unfoldable pub in_local : {W : Type 0} → Local W → Vector3i → Bool
in_local l idx =
    leb_ℤ l.min_id.x idx.x
    && leb_ℤ idx.x l.max_id.x
    && leb_ℤ l.min_id.y idx.y
    && leb_ℤ idx.y l.max_id.y
    && leb_ℤ l.min_id.z idx.z
    && leb_ℤ idx.z l.max_id.z

module _ {W : Type 0} ⦃d : Double W⦄ where
  open d use {add}

  unfoldable pub log_odds_update : Local W → GridMap W → Vector3i → W
  log_odds_update l m idx =
      let idx_ctns = to_address m.parameters idx in
      let hit = m.count_hit idx_ctns in
      if leb_ℤ (m.count_hit_and_miss idx_ctns -ℤ hit) hit then l.prob_hit_log else l.prob_miss_log

  unfoldable pub reset_counts : GridMap W → Vector3i → GridMap W
  reset_counts m idx =
      let idx_ctns = to_address m.parameters idx in
      record m {
        count_hit = write m.count_hit idx_ctns (pos 0);
        count_hit_and_miss = write m.count_hit_and_miss idx_ctns (pos 0);
      }

  -- The last lines of a round, with the update added to what the voxel then has.
  unfoldable pub add_update : GridMap W → Vector3i → W → GridMap W
  add_update m idx update = apply_occupancy_update m idx (
      std_min
        (std_max (add (m.occupancy_buffer (to_address m.parameters idx)) update) m.clamp_min_log)
        m.clamp_max_log)

  -- A round, after the counts are read.
  unfoldable pub update_voxel : Local W → GridMap W → Vector3i → W → GridMap W
  update_voxel l m idx update =
      let o = m.occupancy_buffer (to_address m.parameters idx) in
      if ge update (decimal 0 0) && ge o m.clamp_max_log
      then m
      else if le update (decimal 0 0) && le o m.clamp_min_log
      then apply_occupancy_update m idx m.clamp_min_log
      else add_update
          (if not (in_local l idx) then apply_occupancy_update m idx m.clamp_min_log else m) idx
          update

  -- A round: the voxel is taken from the queue, `rest` stays in it.
  unfoldable pub drain_voxel : Local W → GridMap W → Vector3i → List Vector3i → GridMap W
  drain_voxel l m idx rest =
      let popped = record m { cache_voxel = rest } in
      update_voxel l (reset_counts popped idx) idx (log_odds_update l popped idx)

  unfoldable pub drain_voxels : Local W → GridMap W → List Vector3i → GridMap W
  drain_voxels l m [] = m
  drain_voxels l m (idx ∷ rest) = drain_voxels l (drain_voxel l m idx rest) rest

  unfoldable pub drain_cache : Local W → GridMap W → GridMap W
  drain_cache l m = drain_voxels l m m.cache_voxel
