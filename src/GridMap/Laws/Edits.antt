-- ===== src/GridMap/Laws/Edits.antt =====
-- grid_map.h, grid_map.cpp: each operation that writes the map keeps the inflation and the window.
use tron2_navigation_ros.Base.{
  ◌≡◌, sym, subst, ◌∙◌, inl, inr, Bool, true, false, none, ℤ, pos, negsuc, arith, Bool-cases,
}
use tron2_navigation_ros.Double.{Double}
use tron2_navigation_ros.Vector.{Vector3i}
use tron2_navigation_ros.GridMap.State.{GridMap}
use tron2_navigation_ros.GridMap.Address.{to_address, is_in_map_index}
use tron2_navigation_ros.GridMap.Update.{update_inflation, occupied_value, apply_occupancy_update}
use tron2_navigation_ros.GridMap.Laws.Roundtrip.{IsWindow}
use tron2_navigation_ros.GridMap.Laws.Inflation.{
  IsInflated, written, written-IsWindow, gain-IsInflated, loss-IsInflated, same-IsInflated,
}

inflated-IsWindow :
    {W : Type 0} (m : GridMap W) (id : Vector3i) (delta : ℤ)
    → IsWindow m
    → IsWindow (update_inflation m id delta none)
unfolding update_inflation
inflated-IsWindow m id delta w = record {
  x_pos = w.x_pos;
  y_pos = w.y_pos;
  z_pos = w.z_pos;
  x_max = w.x_max;
  y_max = w.y_max;
  z_max = w.z_max;
}

module _ {W : Type 0} ⦃d : Double W⦄ where
  abbrev pub unknown : GridMap W → W
  unknown m = d.sub m.clamp_min_log m.unknown_flag

  -- `m` is a window with the inflation of its occupied voxels, where an unknown voxel is not occupied.
  pub record IsSound (m : GridMap W) : Type 0 where
    pub window : IsWindow m
    pub inflated : IsInflated m
    pub unknown_free : occupied_value m (unknown m) ≡ false

  -- The four ways through applyOccupancyUpdate.
  apply-outside :
      (m : GridMap W) (id : Vector3i) (v : W)
      → is_in_map_index m id ≡ false
      → apply_occupancy_update m id v ≡ m
  unfolding apply_occupancy_update
  apply-outside m id v h = ground arith

  apply-same :
      (m : GridMap W) (id : Vector3i) (v : W)
      → is_in_map_index m id ≡ true
      → occupied_value m (m.occupancy_buffer (to_address m.parameters id)) ≡ occupied_value m v
      → apply_occupancy_update m id v ≡ written m id v
  unfolding apply_occupancy_update
  apply-same m id v h e = ground arith

  apply-gain :
      (m : GridMap W) (id : Vector3i) (v : W)
      → is_in_map_index m id ≡ true
      → occupied_value m (m.occupancy_buffer (to_address m.parameters id)) ≡ false
      → occupied_value m v ≡ true
      → apply_occupancy_update m id v ≡ update_inflation (written m id v) id (pos 1) none
  unfolding apply_occupancy_update
  apply-gain m id v h e f = ground arith

  apply-loss :
      (m : GridMap W) (id : Vector3i) (v : W)
      → is_in_map_index m id ≡ true
      → occupied_value m (m.occupancy_buffer (to_address m.parameters id)) ≡ true
      → occupied_value m v ≡ false
      → apply_occupancy_update m id v ≡ update_inflation (written m id v) id (negsuc 0) none
  unfolding apply_occupancy_update
  apply-loss m id v h e f = ground arith

  abbrev value_at : GridMap W → Vector3i → Bool
  value_at m id = occupied_value m (m.occupancy_buffer (to_address m.parameters id))

  IsSound-same :
      (m : GridMap W) (id : Vector3i) (v : W)
      → IsSound m
      → is_in_map_index m id ≡ true
      → value_at m id ≡ occupied_value m v
      → IsSound (written m id v)
  unfolding occupied_value
  IsSound-same m id v s h e = record {
    window = written-IsWindow m id v s.window;
    inflated = same-IsInflated m id v s.window h e s.inflated;
    unknown_free = s.unknown_free;
  }

  IsSound-gain :
      (m : GridMap W) (id : Vector3i) (v : W)
      → IsSound m
      → is_in_map_index m id ≡ true
      → value_at m id ≡ false
      → occupied_value m v ≡ true
      → IsSound (update_inflation (written m id v) id (pos 1) none)
  unfolding occupied_value update_inflation
  IsSound-gain m id v s h e f = record {
    window = inflated-IsWindow _ id (pos 1) (written-IsWindow m id v s.window);
    inflated = gain-IsInflated m id v s.window h e f s.inflated;
    unknown_free = s.unknown_free;
  }

  IsSound-loss :
      (m : GridMap W) (id : Vector3i) (v : W)
      → IsSound m
      → is_in_map_index m id ≡ true
      → value_at m id ≡ true
      → occupied_value m v ≡ false
      → IsSound (update_inflation (written m id v) id (negsuc 0) none)
  unfolding occupied_value update_inflation
  IsSound-loss m id v s h e f = record {
    window = inflated-IsWindow _ id (negsuc 0) (written-IsWindow m id v s.window);
    inflated = loss-IsInflated m id v s.window h e f s.inflated;
    unknown_free = s.unknown_free;
  }

  -- An update of a voxel keeps the window sound, and its bounds.
  pub apply_occupancy_update-IsSound :
      (m : GridMap W) (id : Vector3i) (v : W) → IsSound m → IsSound (apply_occupancy_update m id v)
  apply_occupancy_update-IsSound m id v s = elim (Bool-cases (is_in_map_index m id)) [
    | inr h ↦ subst IsSound (sym (apply-outside m id v h)) s
    | inl h ↦
        elim (Bool-cases (occupied_value m (m.occupancy_buffer (to_address m.parameters id)))) [
          | inl was ↦ elim (Bool-cases (occupied_value m v)) [
            | inl now ↦
                subst IsSound (sym (apply-same m id v h (was ∙ sym now)))
                  (IsSound-same m id v s h (was ∙ sym now))
            | inr now ↦
                subst IsSound (sym (apply-loss m id v h was now)) (IsSound-loss m id v s h was now)
          ]
          | inr was ↦ elim (Bool-cases (occupied_value m v)) [
            | inl now ↦
                subst IsSound (sym (apply-gain m id v h was now)) (IsSound-gain m id v s h was now)
            | inr now ↦
                subst IsSound (sym (apply-same m id v h (was ∙ sym now)))
                  (IsSound-same m id v s h (was ∙ sym now))
          ]
        ]
  ]
