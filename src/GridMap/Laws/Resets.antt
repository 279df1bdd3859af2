-- ===== src/GridMap/Laws/Resets.antt =====
-- grid_map.h, grid_map.cpp: resets of voxels, and any sequence of writes to the map.
use tron2_navigation_ros.Base.{
  ℕ, ◌<◌, ◌≡◌, refl, sym, ap, subst, ◌∙◌, inl, inr, Bool, true, false, none, List, [], ◌∷◌, negsuc,
  if◌then◌else◌, arith, Bool-cases, All, one_more, All-mono,
}
use tron2_navigation_ros.Double.{Double}
use tron2_navigation_ros.Vector.{Vector3, Vector3i, sub_index}
use tron2_navigation_ros.GridMap.State.{GridMap}
use tron2_navigation_ros.GridMap.Address.{
  to_address, is_in_map_index, hash_id_to_global_index, pos_to_index,
}
use tron2_navigation_ros.GridMap.Update.{
  update_inflation, occupied_value, forget_cell, reset_cell_by_address, reset_all_map_data,
}
use tron2_navigation_ros.GridMap.Region.{reset_cells, reset_buffer_between}
use tron2_navigation_ros.GridMap.Laws.Roundtrip.{IsWindow, hash_id_to_global_index-to_address}
use tron2_navigation_ros.GridMap.Laws.Layer.{reaching}
use tron2_navigation_ros.GridMap.Laws.Inflation.{
  is_occupied, buffers, written, written-here, written-elsewhere, no_mask, count-loss,
  same-IsInflated,
}
use tron2_navigation_ros.GridMap.Laws.Edits.{IsSound, unknown}
use tron2_navigation_ros.GridMap.Laws.Boxes.{box-is_in_map_index, bound_index-is_in_map_index}

reaching-none :
    (occ : Vector3i → Bool) (c : Vector3i) (offsets : List Vector3i)
    → ((x : Vector3i) → occ x ≡ false)
    → reaching occ c offsets ≡ 0
unfolding reaching
reaching-none occ c [] h = refl
reaching-none occ c (offset ∷ offsets) h =
    let r = reaching-none occ c offsets h in let q = h (sub_index c offset) in ground arith

module _ {W : Type 0} ⦃d : Double W⦄ where
  abbrev value_at : GridMap W → Vector3i → Bool
  value_at m id = occupied_value m (m.occupancy_buffer (to_address m.parameters id))

  reset-occupied :
      (m : GridMap W) (id : Vector3i)
      → hash_id_to_global_index m (to_address m.parameters id) ≡ id
      → value_at m id ≡ true
      → reset_cell_by_address m (to_address m.parameters id)
        ≡ forget_cell (update_inflation m id (negsuc 0) none) (to_address m.parameters id)
  unfolding reset_cell_by_address
  reset-occupied m id h e = ground arith

  reset-free :
      (m : GridMap W) (id : Vector3i)
      → value_at m id ≡ false
      → reset_cell_by_address m (to_address m.parameters id)
        ≡ forget_cell m (to_address m.parameters id)
  unfolding reset_cell_by_address
  reset-free m id e = ground arith

  pub IsWindow-of :
      (m n : GridMap W)
      → m.parameters ≡ n.parameters
      → m.map_bound_min_idx ≡ n.map_bound_min_idx
      → m.map_bound_max_idx ≡ n.map_bound_max_idx
      → IsWindow m
      → IsWindow n
  IsWindow-of m n p q r w = record {
    x_pos = subst (λ o. 0 < o.voxel_num_x) p w.x_pos;
    y_pos = subst (λ o. 0 < o.voxel_num_y) p w.y_pos;
    z_pos = subst (λ o. 0 < o.voxel_num_z) p w.z_pos;
    x_max = cc (w.x_max, p, q, r);
    y_max = cc (w.y_max, p, q, r);
    z_max = cc (w.z_max, p, q, r);
  }

  forgotten-free :
      (m : GridMap W) (id : Vector3i)
      → IsSound m
      → is_in_map_index m id ≡ true
      → value_at m id ≡ false
      → IsSound (forget_cell m (to_address m.parameters id))
  unfolding forget_cell occupied_value is_in_map_index is_occupied
  forgotten-free m id s h e = record {
    window = IsWindow-of m (forget_cell m (to_address m.parameters id)) refl refl refl s.window;
    inflated = same-IsInflated m id (unknown m) s.window h (e ∙ sym s.unknown_free) s.inflated;
    unknown_free = s.unknown_free;
  }

  forgotten-occupied :
      (m : GridMap W) (id : Vector3i)
      → IsSound m
      → is_in_map_index m id ≡ true
      → value_at m id ≡ true
      → IsSound (forget_cell (update_inflation m id (negsuc 0) none) (to_address m.parameters id))
  unfolding forget_cell occupied_value is_in_map_index is_occupied update_inflation
  forgotten-occupied m id s h e = record {
    window =
        IsWindow-of m
          (forget_cell (update_inflation m id (negsuc 0) none) (to_address m.parameters id)) refl
          refl refl s.window;
    inflated = λ c i.
        count-loss m id c (is_occupied m) (is_occupied (written m id (unknown m))) (buffers m) none
          (no_mask _) s.window i (written-elsewhere m id (unknown m) s.window h)
          (ap (λ b. if b then value_at m id else false) h ∙ e)
          (written-here m id (unknown m) h ∙ s.unknown_free) (s.inflated c i).0 (s.inflated c i).1;
    unknown_free = s.unknown_free;
  }

  pub reset_cell_by_address-IsSound :
      (m : GridMap W) (id : Vector3i)
      → IsSound m
      → is_in_map_index m id ≡ true
      → IsSound (reset_cell_by_address m (to_address m.parameters id))
  reset_cell_by_address-IsSound m id s h = elim (Bool-cases (value_at m id)) [
    | inl e ↦
        subst IsSound
          (sym (reset-occupied m id (hash_id_to_global_index-to_address m id s.window h) e))
          (forgotten-occupied m id s h e)
    | inr e ↦ subst IsSound (sym (reset-free m id e)) (forgotten-free m id s h e)
  ]

  -- A reset leaves the bounds of the map as they are.
  in_map-reset :
      (m : GridMap W) (addr : ℕ) (x : Vector3i)
      → is_in_map_index (reset_cell_by_address m addr) x ≡ is_in_map_index m x
  unfolding reset_cell_by_address forget_cell is_in_map_index update_inflation
  in_map-reset m addr x = ground arith

  pub reset_cells-IsSound :
      (m : GridMap W) (ids : List Vector3i)
      → IsSound m
      → All (λ id. is_in_map_index m id ≡ true) ids
      → IsSound (reset_cells m ids)
  unfolding reset_cells
  reset_cells-IsSound m [] s h = s
  reset_cells-IsSound m (id ∷ ids) s (one_more p h) =
      let n = reset_cell_by_address m (to_address m.parameters id) in
      reset_cells-IsSound n ids (reset_cell_by_address-IsSound m id s p)
        (All-mono _ _ ids (λ x q. in_map-reset m (to_address m.parameters id) x ∙ q) h)

  pub reset_buffer_between-IsSound :
      (m : GridMap W) (p q : Vector3 W) → IsSound m → IsSound (reset_buffer_between m p q)
  unfolding reset_buffer_between
  reset_buffer_between-IsSound m p q s = reset_cells-IsSound m _ s (
      box-is_in_map_index m _ _ (bound_index-is_in_map_index m (pos_to_index m p) s.window)
        (bound_index-is_in_map_index m (pos_to_index m q) s.window))

  all_free :
      (m : GridMap W)
      → occupied_value m (unknown m) ≡ false
      → (x : Vector3i) → is_occupied (reset_all_map_data m) x ≡ false
  unfolding is_occupied reset_all_map_data occupied_value
  all_free m h x = ground arith

  -- The reset of the whole map needs nothing of the buffers before it.
  pub reset_all_map_data-IsSound :
      (m : GridMap W)
      → IsWindow m
      → occupied_value m (unknown m) ≡ false
      → IsSound (reset_all_map_data m)
  unfolding reset_all_map_data is_in_map_index occupied_value
  reset_all_map_data-IsSound m w h = record {
    window = IsWindow-of m (reset_all_map_data m) refl refl refl w;
    inflated = λ c i. (
      sym (reaching-none (is_occupied (reset_all_map_data m)) c m.inflate_offsets (all_free m h)),
      refl,
    );
    unknown_free = h;
  }
