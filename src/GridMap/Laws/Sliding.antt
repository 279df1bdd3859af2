-- ===== src/GridMap/Laws/Sliding.antt =====
-- grid_map.cpp: what updateSlidingMap keeps of the occupancy, and what it leaves in the voxels that enter.
use tron2_navigation_ros.Base.{
  ℕ, ◌<◌, ◌≡◌, refl, sym, ap, subst, ◌∙◌, ◌⊎◌, inl, inr, Bool, true, false, not, if◌then◌else◌,
  Bool-cases, arith,
}
use tron2_navigation_ros.Double.{Double}
use tron2_navigation_ros.Vector.{Vector3, Vector3i, sub_index}
use tron2_navigation_ros.GridMap.State.{Parameters, GridMap}
use tron2_navigation_ros.GridMap.Address.{
  to_address, is_in_map_index, pos_to_index, update_map_boundary_from_index,
}
use tron2_navigation_ros.GridMap.Update.{reset_all_map_data}
use tron2_navigation_ros.GridMap.Slide.{
  cells_to_clear, is_small_shift, is_far_shift, uninflate_cells, clear_cells, move_origin,
  slide_far, slide_near, update_sliding_map,
}
use tron2_navigation_ros.GridMap.Laws.Roundtrip.{IsWindow, in_map_choice}
use tron2_navigation_ros.GridMap.Laws.Entering.{
  IsAnchored, IsWithin, cleared_outside, kept_inside, none_inside_both,
}
use tron2_navigation_ros.GridMap.Laws.Cleared.{
  unknown, clear_cells-IsBlank, clear_cells-other, clear_cells-parameters, uninflate_cells-IsSame,
}

module _ {W : Type 0} ⦃d : Double W⦄ where
  move_origin-IsWithin :
      (m : GridMap W) (o id : Vector3i)
      → is_in_map_index (move_origin m o) id ≡ true
      → IsWithin m.parameters o id
  unfolding is_in_map_index move_origin update_map_boundary_from_index
  move_origin-IsWithin m o id h =
      let c = in_map_choice _ _ _ _ _ _ h in ((c.0, c.3), (c.1, c.4), (c.2, c.5))

  -- The map with its bounds as updateMapBoundaryFromIndex makes them.
  abbrev IsPlaced : GridMap W → Type 0
  IsPlaced m = IsWindow m × IsAnchored m

  move_origin-IsPlaced :
      (m : GridMap W) (o : Vector3i)
      → (0 < m.voxel_num_x) × (0 < m.voxel_num_y) × (0 < m.voxel_num_z)
      → IsPlaced (move_origin m o)
  unfolding move_origin update_map_boundary_from_index
  move_origin-IsPlaced m o h = (
    record { x_pos = h.0; y_pos = h.1; z_pos = h.2; x_max = refl; y_max = refl; z_max = refl },
    record { x_min = refl; y_min = refl; z_min = refl },
  )

  -- The cases of updateSlidingMap.
  three_ways :
      (P : GridMap W → Type 0) (b c e : Bool) (m far near : GridMap W)
      → P m
      → (e ≡ true → P far)
      → (e ≡ false → P near)
      → P (if not b then m else if c then m else if e then far else near)
  three_ways P false c e m far near h f g = h
  three_ways P true true e m far near h f g = h
  three_ways P true false true m far near h f g = f refl
  three_ways P true false false m far near h f g = g refl

  module _ (m : GridMap W) (w : IsWindow m) (a : IsAnchored m) where
    -- The map after the two loops of a near move.
    abbrev cleared : Vector3i → GridMap W
    cleared s =
        let c = cells_to_clear m s in
        clear_cells (uninflate_cells m c.clear_mask c.clear_addrs) c.clear_addrs

    cleared-parameters : (s : Vector3i) → (cleared s).parameters ≡ m.parameters
    cleared-parameters s =
        let c = cells_to_clear m s in
        clear_cells-parameters (uninflate_cells m c.clear_mask c.clear_addrs) c.clear_addrs
        ∙ (uninflate_cells-IsSame m c.clear_mask c.clear_addrs).0

    sizes :
        (p : Parameters W)
        → p ≡ m.parameters
        → (0 < p.voxel_num_x) × (0 < p.voxel_num_y) × (0 < p.voxel_num_z)
    sizes p e =
        subst (λ q. (0 < q.voxel_num_x) × (0 < q.voxel_num_y) × (0 < q.voxel_num_z)) (sym e)
          (w.x_pos, w.y_pos, w.z_pos)

    slide_near-IsPlaced : (o s : Vector3i) → IsPlaced (slide_near m o s)
    unfolding slide_near
    slide_near-IsPlaced o s =
        let (v, b) =
          move_origin-IsPlaced (cleared s) o
            (sizes (cleared s).parameters (cleared-parameters s)) in
        (
          record {
            x_pos = v.x_pos;
            y_pos = v.y_pos;
            z_pos = v.z_pos;
            x_max = v.x_max;
            y_max = v.y_max;
            z_max = v.z_max;
          },
          record { x_min = b.x_min; y_min = b.y_min; z_min = b.z_min },
        )

    slide_far-IsPlaced : (o : Vector3i) → IsPlaced (slide_far m o)
    unfolding slide_far reset_all_map_data
    slide_far-IsPlaced o =
        let (v, b) = move_origin-IsPlaced (reset_all_map_data m) o (w.x_pos, w.y_pos, w.z_pos) in
        (
          record {
            x_pos = v.x_pos;
            y_pos = v.y_pos;
            z_pos = v.z_pos;
            x_max = v.x_max;
            y_max = v.y_max;
            z_max = v.z_max;
          },
          record { x_min = b.x_min; y_min = b.y_min; z_min = b.z_min },
        )

    module _ (id : Vector3i) where
      abbrev addr : ℕ
      addr = to_address m.parameters id

      -- A voxel of the window after the move: it was in the window before and keeps its occupancy, or
      -- it is new, and nothing is known of it.
      abbrev IsFollowed : GridMap W → Type 0
      IsFollowed r =
          ((is_in_map_index m id ≡ true) × (r.occupancy_buffer addr ≡ m.occupancy_buffer addr))
          ⊎ ((is_in_map_index m id ≡ false)
              × (r.occupancy_buffer addr ≡ unknown m)
              × (r.occupancy_buffer_inflate_cnt addr ≡ 0)
              × (r.occupancy_buffer_inflate addr ≡ 0))

      slide_near-IsFollowed :
          (o : Vector3i)
          → is_far_shift m (sub_index o m.map_origin_idx) ≡ false
          → is_in_map_index (slide_near m o (sub_index o m.map_origin_idx)) id ≡ true
          → IsFollowed (slide_near m o (sub_index o m.map_origin_idx))
      unfolding slide_near is_in_map_index move_origin update_map_boundary_from_index
      slide_near-IsFollowed o near h =
          let s = sub_index o m.map_origin_idx in
          let c = cells_to_clear m s in
          let u = uninflate_cells m c.clear_mask c.clear_addrs in
          let e = cleared-parameters s in
          let i = subst (λ p. IsWithin p o id) e (move_origin-IsWithin (cleared s) o id h) in
          elim (Bool-cases (is_in_map_index m id)) [
            | inl g ↦
                let n = clear_cells-other u c.clear_addrs addr (kept_inside m w a o id near i g) in
                let q = (uninflate_cells-IsSame m c.clear_mask c.clear_addrs).1 in
                inl (g, n ∙ ap (λ f. f addr) q)
            | inr g ↦
                let b =
                  clear_cells-IsBlank u c.clear_addrs addr (cleared_outside m w a o id near i g) in
                inr (g, b.0 ∙ ap (λ p. d.sub p.clamp_min_log p.unknown_flag) e, b.1, b.2)
          ]

      slide_far-IsFollowed :
          (o : Vector3i)
          → is_far_shift m (sub_index o m.map_origin_idx) ≡ true
          → is_in_map_index (slide_far m o) id ≡ true
          → IsFollowed (slide_far m o)
      unfolding slide_far is_in_map_index move_origin update_map_boundary_from_index
          reset_all_map_data
      slide_far-IsFollowed o far h =
          let i = move_origin-IsWithin (reset_all_map_data m) o id h in
          elim (Bool-cases (is_in_map_index m id)) [
            | inl g ↦ elim (none_inside_both m w a o id far i g) [ ]
            | inr g ↦ inr (g, refl, refl, refl)
          ]

      same-IsFollowed : is_in_map_index m id ≡ true → IsFollowed m
      same-IsFollowed h = inl (h, refl)

  followed :
      (m : GridMap W) (center : Vector3 W) (id : Vector3i) (w : IsWindow m) (a : IsAnchored m)
      → is_in_map_index (update_sliding_map m center) id ≡ true
      → IsFollowed m w a id (update_sliding_map m center)
  unfolding update_sliding_map
  followed m center id w a =
      let o = pos_to_index m center in
      let s = sub_index o m.map_origin_idx in
      three_ways (λ r. is_in_map_index r id ≡ true → IsFollowed m w a id r) m.map_sliding_en
        (is_small_shift s m.map_sliding_thresh_vox) (is_far_shift m s) m (slide_far m o)
        (slide_near m o s) (same-IsFollowed m w a id) (slide_far-IsFollowed m w a id o)
        (slide_near-IsFollowed m w a id o)

  -- Whether the map slides or not, near or far: a voxel that is in the window afterwards has, at its
  -- address, the occupancy it had if it was in the window before, and else that of an unknown voxel.
  -- The window has voxels in each direction, and its bounds are those around its origin.
  pub update_sliding_map-occupancy_buffer :
      (m : GridMap W) (center : Vector3 W) (id : Vector3i)
      → IsWindow m
      → IsAnchored m
      → is_in_map_index (update_sliding_map m center) id ≡ true
      → (update_sliding_map m center).occupancy_buffer (to_address m.parameters id) ≡ (
          if is_in_map_index m id
          then m.occupancy_buffer (to_address m.parameters id)
          else d.sub m.clamp_min_log m.unknown_flag)
  update_sliding_map-occupancy_buffer m center id w a h =
      let v = m.occupancy_buffer (to_address m.parameters id) in
      elim (followed m center id w a h) [
        | inl (g, e) ↦ e ∙ ap (λ b. if b then v else unknown m) (sym g)
        | inr (g, e, c, f) ↦ e ∙ ap (λ b. if b then v else unknown m) (sym g)
      ]

  -- A voxel that is in the window after the move and was not before has the inflation count 0 and is
  -- not marked as inflated, whatever the occupied voxels near it. The window has voxels in each
  -- direction, and its bounds are those around its origin.
  pub entered_not_inflated :
      (m : GridMap W) (center : Vector3 W) (id : Vector3i)
      → IsWindow m
      → IsAnchored m
      → is_in_map_index m id ≡ false
      → is_in_map_index (update_sliding_map m center) id ≡ true
      → ((update_sliding_map m center).occupancy_buffer_inflate_cnt (to_address m.parameters id)
          ≡ 0)
        × ((update_sliding_map m center).occupancy_buffer_inflate (to_address m.parameters id) ≡ 0)
  entered_not_inflated m center id w a n h = elim (followed m center id w a h) [
    | inl (g, e) ↦ elim (false_true (sym n ∙ g)) [ ]
    | inr (g, e, c, f) ↦ (c, f)
  ]
    where
      false_true : false ≡ true → ⊥
      false_true e = ground arith

  -- Whether it slides or not, the map keeps a window with voxels in each direction whose bounds are
  -- those around its origin.
  pub update_sliding_map-IsWindow :
      (m : GridMap W) (center : Vector3 W)
      → IsWindow m
      → IsAnchored m
      → IsWindow (update_sliding_map m center) × IsAnchored (update_sliding_map m center)
  unfolding update_sliding_map
  update_sliding_map-IsWindow m center w a =
      let o = pos_to_index m center in
      let s = sub_index o m.map_origin_idx in
      three_ways IsPlaced m.map_sliding_en (is_small_shift s m.map_sliding_thresh_vox)
        (is_far_shift m s) m (slide_far m o) (slide_near m o s) (w, a)
        (λ e. slide_far-IsPlaced m w a o) (λ e. slide_near-IsPlaced m w a o s)
