-- ===== src/GridMap/Laws/Histories.antt =====
-- grid_map.h, grid_map.cpp: the map after any sequence of writes, while the window stays where it is.
use tron2_navigation_ros.Base.{
  ℕ, ◌≡◌, refl, sym, ap, subst, ◌∙◌, ◌⊎◌, inl, inr, Bool, true, false, not, List, [], ◌∷◌, ℤ, ltb,
  ◌==◌, if◌then◌else◌, arith,
}
use tron2_navigation_ros.Double.{Double}
use tron2_navigation_ros.Vector.{Vector3, Vector3i}
use tron2_navigation_ros.GridMap.State.{GridMap}
use tron2_navigation_ros.GridMap.Address.{is_in_map_index, is_in_map, pos_to_index, bound_index}
use tron2_navigation_ros.GridMap.Update.{
  occupied_value, apply_occupancy_update, reset_all_map_data, set_occupied, set_occupancy,
  count_voxel, set_cache_occupancy, is_known_occupied,
}
use tron2_navigation_ros.GridMap.Cache.{Local, drain_cache}
use tron2_navigation_ros.GridMap.Region.{reset_buffer, reset_buffer_between}
use tron2_navigation_ros.GridMap.Laws.Layer.{reaching, flag_of}
use tron2_navigation_ros.GridMap.Laws.Inflation.{is_occupied}
use tron2_navigation_ros.GridMap.Laws.Edits.{IsSound, apply_occupancy_update-IsSound}
use tron2_navigation_ros.GridMap.Laws.Draining.{drain_cache-IsSound}
use tron2_navigation_ros.GridMap.Laws.Boxes.{bound_index-is_in_map_index}
use tron2_navigation_ros.GridMap.Laws.Resets.{
  IsWindow-of, reset_buffer_between-IsSound, reset_all_map_data-IsSound,
}

-- The writes that leave the window in its place: the update of a voxel, the loop over the queue of the
-- rays, and the operations of the header. updateSlidingMap is not among them.
pub data Edit (W : Type 0) : Type 0 where
  updated : Vector3i → W → Edit W
  occupied : Vector3 W → Edit W
  occupancy : Vector3 W → W → Edit W
  cached : Vector3 W → ℤ → Edit W
  drained : Local W → Edit W
  reset : Edit W
  reset_between : Vector3 W → Vector3 W → Edit W

flag-is_one : (n : ℕ) → (flag_of n == 1) ≡ ltb 0 n
flag-is_one n = ground arith

module _ {W : Type 0} ⦃d : Double W⦄ where
  unfoldable pub edit : GridMap W → Edit W → GridMap W
  edit m (updated id new_log_odds) = apply_occupancy_update m id new_log_odds
  edit m (occupied p) = set_occupied m p
  edit m (occupancy p occ) = set_occupancy m p occ
  edit m (cached p occ) = (set_cache_occupancy m p occ).0
  edit m (drained l) = drain_cache l m
  edit m reset = reset_buffer m
  edit m (reset_between p q) = reset_buffer_between m p q

  unfoldable pub edit_all : GridMap W → List (Edit W) → GridMap W
  edit_all m [] = m
  edit_all m (e ∷ es) = edit_all (edit m e) es

  choose-IsSound :
      (b : Bool) {m n : GridMap W} → IsSound m → IsSound n → IsSound (if b then m else n)
  choose-IsSound true s t = s
  choose-IsSound false s t = t

  set_occupied-IsSound : (m : GridMap W) (p : Vector3 W) → IsSound m → IsSound (set_occupied m p)
  unfolding set_occupied
  set_occupied-IsSound m p s =
      choose-IsSound (not (is_in_map m p)) s (apply_occupancy_update-IsSound m _ _ s)

  set_occupancy-IsSound :
      (m : GridMap W) (p : Vector3 W) (occ : W) → IsSound m → IsSound (set_occupancy m p occ)
  unfolding set_occupancy
  set_occupancy-IsSound m p occ s =
      choose-IsSound _ s
        (choose-IsSound (not (is_in_map m p)) s (apply_occupancy_update-IsSound m _ _ s))

  -- Counting hits and misses leaves the occupancy alone.
  count_voxel-IsSound :
      (m : GridMap W) (id : Vector3i) (occ : ℤ) → IsSound m → IsSound (count_voxel m id occ)
  unfolding count_voxel is_in_map_index is_occupied occupied_value
  count_voxel-IsSound m id occ s = record {
    window = IsWindow-of m (count_voxel m id occ) refl refl refl s.window;
    inflated = s.inflated;
    unknown_free = s.unknown_free;
  }

  pub set_cache_occupancy-cases :
      (m : GridMap W) (p : Vector3 W) (occ : ℤ)
      → ((set_cache_occupancy m p occ).0 ≡ m)
        ⊎ ((set_cache_occupancy m p occ).0 ≡ count_voxel m (pos_to_index m p) occ)
  unfolding set_cache_occupancy
  set_cache_occupancy-cases m p occ = ground arith

  set_cache_occupancy-IsSound :
      (m : GridMap W) (p : Vector3 W) (occ : ℤ)
      → IsSound m
      → IsSound (set_cache_occupancy m p occ).0
  set_cache_occupancy-IsSound m p occ s = elim (set_cache_occupancy-cases m p occ) [
    | inl e ↦ subst IsSound (sym e) s
    | inr e ↦ subst IsSound (sym e) (count_voxel-IsSound m (pos_to_index m p) occ s)
  ]

  reset_buffer-IsSound : (m : GridMap W) → IsSound m → IsSound (reset_buffer m)
  unfolding reset_buffer is_in_map_index is_occupied occupied_value
  reset_buffer-IsSound m s =
      let r = reset_all_map_data-IsSound m s.window s.unknown_free in
      record {
        window = IsWindow-of (reset_all_map_data m) (reset_buffer m) refl refl refl r.window;
        inflated = r.inflated;
        unknown_free = r.unknown_free;
      }

  edit-IsSound : (m : GridMap W) (e : Edit W) → IsSound m → IsSound (edit m e)
  unfolding edit
  edit-IsSound m (updated id v) s = apply_occupancy_update-IsSound m id v s
  edit-IsSound m (occupied p) s = set_occupied-IsSound m p s
  edit-IsSound m (occupancy p occ) s = set_occupancy-IsSound m p occ s
  edit-IsSound m (cached p occ) s = set_cache_occupancy-IsSound m p occ s
  edit-IsSound m (drained l) s = drain_cache-IsSound l m s
  edit-IsSound m reset s = reset_buffer-IsSound m s
  edit-IsSound m (reset_between p q) s = reset_buffer_between-IsSound m p q s

  -- Whatever sequence is made to a sound map of updates of a voxel (applyOccupancyUpdate, setOccupied,
  -- setOccupancy), counted hits and misses (setCacheOccupancy), loops of raycastProcess over the queue,
  -- and resets of the map or of a box (resetBuffer), it stays sound: the count of each voxel of the
  -- window is the number of the offsets that lead to it from an occupied one, and its flag is 1 if the
  -- count is not 0, else 0. A move of the window (updateSlidingMap) is none of these.
  pub edit_all-IsSound : (m : GridMap W) (es : List (Edit W)) → IsSound m → IsSound (edit_all m es)
  unfolding edit_all
  edit_all-IsSound m [] s = s
  edit_all-IsSound m (e ∷ es) s = edit_all-IsSound (edit m e) es (edit-IsSound m e s)

  -- After any sequence of updates of a voxel (applyOccupancyUpdate, setOccupied, setOccupancy), counted
  -- hits and misses (setCacheOccupancy), loops of raycastProcess over the queue, and resets of the map or
  -- of a box (resetBuffer) on a sound map, without a move of the window (updateSlidingMap), a voxel is
  -- known to be occupied exactly when some offset of the inflation leads from an occupied voxel to it; an
  -- index outside the window stands for the nearest voxel in it.
  pub is_known_occupied-edit_all :
      (m : GridMap W) (es : List (Edit W)) (id : Vector3i)
      → IsSound m
      → let r = edit_all m es in
        is_known_occupied r id
        ≡ ltb 0 (reaching (is_occupied r) (bound_index r id) r.inflate_offsets)
  unfolding is_known_occupied
  is_known_occupied-edit_all m es id s =
      let r = edit_all m es in
      let t = edit_all-IsSound m es s in
      let i = t.inflated (bound_index r id) (bound_index-is_in_map_index r id t.window) in
      ap (λ n. n == 1) i.1 ∙ flag-is_one _ ∙ ap (λ n. ltb 0 n) i.0
