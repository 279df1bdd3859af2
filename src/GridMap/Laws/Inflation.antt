-- ===== src/GridMap/Laws/Inflation.antt =====
-- grid_map.cpp: the inflation counts the occupied voxels whatever is written to the map.
use tron2_navigation_ros.Base.{
  ℕ, Option, ◌≡◌, ◌≢◌, refl, sym, ap, ◌∙◌, inl, inr, Bool, true, false, none, ℤ, pos, negsuc,
  if◌then◌else◌, arith, Bool-cases,
}
use tron2_navigation_ros.Double.{Double}
use tron2_navigation_ros.Vector.{Vector3i}
use tron2_navigation_ros.Vector.Index.{same_index, same_index_refl, same_index-eq}
use tron2_navigation_ros.GridMap.State.{GridMap, write}
use tron2_navigation_ros.GridMap.Address.{to_address, is_in_map_index}
use tron2_navigation_ros.GridMap.Update.{
  Layer, is_masked, update_inflation_layer, update_inflation, occupied_value,
}
use tron2_navigation_ros.GridMap.Laws.Roundtrip.{IsWindow, to_address_inj}
use tron2_navigation_ros.GridMap.Laws.Layer.{
  flag_of, layer-up, layer-down, reaching, reaching-gain, reaching-ext,
}

pub no_mask : (addr : ℕ) → is_masked none addr ≡ false
unfolding is_masked
no_mask addr = refl

address-differs :
    {W : Type 0} (m : GridMap W) (x id : Vector3i)
    → IsWindow m
    → is_in_map_index m x ≡ true
    → is_in_map_index m id ≡ true
    → same_index x id ≡ false
    → to_address m.parameters x ≢ to_address m.parameters id
address-differs m x id w i h n e =
    let s = ap (λ a. same_index a id) (to_address_inj m x id w i h e) in
    let t = same_index_refl id in ground arith

module _ {W : Type 0} ⦃d : Double W⦄ where
  -- A voxel of the window whose value is above the threshold.
  unfoldable pub is_occupied : GridMap W → Vector3i → Bool
  is_occupied m x =
      if is_in_map_index m x
      then occupied_value m (m.occupancy_buffer (to_address m.parameters x))
      else false

  -- Each voxel of the window has the number of offsets that lead to it from an occupied one, and the
  -- flag whether there is any.
  abbrev pub IsInflated : GridMap W → Type 0
  IsInflated m =
      (c : Vector3i)
      → is_in_map_index m c ≡ true
      → (m.occupancy_buffer_inflate_cnt (to_address m.parameters c)
          ≡ reaching (is_occupied m) c m.inflate_offsets)
        × (m.occupancy_buffer_inflate (to_address m.parameters c)
            ≡ flag_of (m.occupancy_buffer_inflate_cnt (to_address m.parameters c)))

  abbrev pub buffers : GridMap W → Layer
  buffers m = record {
    cnt_buffer = m.occupancy_buffer_inflate_cnt;
    flag_buffer = m.occupancy_buffer_inflate;
  }

  abbrev pub written : GridMap W → Vector3i → W → GridMap W
  written m id v = record m {
    occupancy_buffer = write m.occupancy_buffer (to_address m.parameters id) v;
  }

  -- Whether an index is in the map depends on the bounds only.
  in_map-written :
      (m : GridMap W) (id : Vector3i) (v : W) (x : Vector3i)
      → is_in_map_index (written m id v) x ≡ is_in_map_index m x
  unfolding is_in_map_index
  in_map-written m id v x = refl

  value-written :
      (m : GridMap W) (id : Vector3i) (v u : W)
      → occupied_value (written m id v) u ≡ occupied_value m u
  unfolding occupied_value
  value-written m id v u = refl

  pub written-here :
      (m : GridMap W) (id : Vector3i) (v : W)
      → is_in_map_index m id ≡ true
      → is_occupied (written m id v) id ≡ occupied_value m v
  unfolding is_occupied
  written-here m id v h =
      let i = in_map-written m id v id in let o = value-written m id v v in ground arith

  pub written-elsewhere :
      (m : GridMap W) (id : Vector3i) (v : W)
      → IsWindow m
      → is_in_map_index m id ≡ true
      → (x : Vector3i) → same_index x id ≡ false
      → is_occupied (written m id v) x ≡ is_occupied m x
  unfolding is_occupied
  written-elsewhere m id v w h x n =
      let i = in_map-written m id v x in
      let o = value-written m id v (m.occupancy_buffer (to_address m.parameters x)) in
      elim (Bool-cases (is_in_map_index m x)) [
        | inl e ↦ let a = address-differs m x id w e h n in ground arith
        | inr e ↦ ground arith
      ]

  -- One voxel becomes occupied: the counts of the layer follow.
  count-gain :
      (m : GridMap W) (id c : Vector3i) (occ next : Vector3i → Bool) (l : Layer)
      → IsWindow m
      → is_in_map_index m c ≡ true
      → ((x : Vector3i) → same_index x id ≡ false → next x ≡ occ x)
      → occ id ≡ false
      → next id ≡ true
      → l.cnt_buffer (to_address m.parameters c) ≡ reaching occ c m.inflate_offsets
      → l.flag_buffer (to_address m.parameters c)
        ≡ flag_of (l.cnt_buffer (to_address m.parameters c))
      → let r = update_inflation_layer m id (pos 1) none m.inflate_offsets l in
        (r.cnt_buffer (to_address m.parameters c) ≡ reaching next c m.inflate_offsets)
        × (r.flag_buffer (to_address m.parameters c)
            ≡ flag_of (r.cnt_buffer (to_address m.parameters c)))
  count-gain m id c occ next l w i h f t e g =
      let r = layer-up m w c i none (no_mask _) id m.inflate_offsets l g in
      let n = reaching-gain occ next id c m.inflate_offsets h f t in (omega (arith, r.0, n, e), r.1)

  -- One voxel becomes free; voxels under the mask are left out.
  pub count-loss :
      (m : GridMap W) (id c : Vector3i) (occ next : Vector3i → Bool) (l : Layer)
      (mask : Option (ℕ → Bool))
      → is_masked mask (to_address m.parameters c) ≡ false
      → IsWindow m
      → is_in_map_index m c ≡ true
      → ((x : Vector3i) → same_index x id ≡ false → next x ≡ occ x)
      → occ id ≡ true
      → next id ≡ false
      → l.cnt_buffer (to_address m.parameters c) ≡ reaching occ c m.inflate_offsets
      → l.flag_buffer (to_address m.parameters c)
        ≡ flag_of (l.cnt_buffer (to_address m.parameters c))
      → let r = update_inflation_layer m id (negsuc 0) mask m.inflate_offsets l in
        (r.cnt_buffer (to_address m.parameters c) ≡ reaching next c m.inflate_offsets)
        × (r.flag_buffer (to_address m.parameters c)
            ≡ flag_of (r.cnt_buffer (to_address m.parameters c)))
  count-loss m id c occ next l mask u w i h t f e g =
      let r = layer-down m w c i mask u id m.inflate_offsets l g in
      let n = reaching-gain next occ id c m.inflate_offsets (λ x k. sym (h x k)) f t in
      (omega (arith, r.0, n, e), r.1)

  pub written-IsWindow :
      (m : GridMap W) (id : Vector3i) (v : W) → IsWindow m → IsWindow (written m id v)
  written-IsWindow m id v w = record {
    x_pos = w.x_pos;
    y_pos = w.y_pos;
    z_pos = w.z_pos;
    x_max = w.x_max;
    y_max = w.y_max;
    z_max = w.z_max;
  }

  -- What `unfolding` gives for the map with new counts.
  in_map-update_inflation :
      (m : GridMap W) (id : Vector3i) (delta : ℤ) (x : Vector3i)
      → is_in_map_index (update_inflation m id delta none) x ≡ is_in_map_index m x
  unfolding is_in_map_index update_inflation
  in_map-update_inflation m id delta x = refl

  -- The step from a map `m` to one with another value at `id`, counted.
  pub gain-IsInflated :
      (m : GridMap W) (id : Vector3i) (v : W)
      → IsWindow m
      → is_in_map_index m id ≡ true
      → occupied_value m (m.occupancy_buffer (to_address m.parameters id)) ≡ false
      → occupied_value m v ≡ true
      → IsInflated m
      → IsInflated (update_inflation (written m id v) id (pos 1) none)
  unfolding is_in_map_index update_inflation is_occupied occupied_value
  gain-IsInflated m id v w h was now s c i =
      count-gain (written m id v) id c (is_occupied m) (is_occupied (written m id v)) (buffers m)
        (written-IsWindow m id v w) i (written-elsewhere m id v w h)
        (ap
            (λ b.
              if b
              then occupied_value m (m.occupancy_buffer (to_address m.parameters id))
              else false)
            h
          ∙ was)
        (written-here m id v h ∙ now) (s c i).0 (s c i).1

  pub loss-IsInflated :
      (m : GridMap W) (id : Vector3i) (v : W)
      → IsWindow m
      → is_in_map_index m id ≡ true
      → occupied_value m (m.occupancy_buffer (to_address m.parameters id)) ≡ true
      → occupied_value m v ≡ false
      → IsInflated m
      → IsInflated (update_inflation (written m id v) id (negsuc 0) none)
  unfolding is_in_map_index update_inflation is_occupied occupied_value
  loss-IsInflated m id v w h was now s c i =
      count-loss (written m id v) id c (is_occupied m) (is_occupied (written m id v)) (buffers m)
        none (no_mask _) (written-IsWindow m id v w) i (written-elsewhere m id v w h)
        (ap
            (λ b.
              if b
              then occupied_value m (m.occupancy_buffer (to_address m.parameters id))
              else false)
            h
          ∙ was)
        (written-here m id v h ∙ now) (s c i).0 (s c i).1

  unchanged :
      (m : GridMap W) (id : Vector3i) (v : W)
      → IsWindow m
      → is_in_map_index m id ≡ true
      → occupied_value m (m.occupancy_buffer (to_address m.parameters id)) ≡ occupied_value m v
      → (x : Vector3i) → is_occupied (written m id v) x ≡ is_occupied m x
  unfolding is_occupied
  unchanged m id v w h e x = elim (Bool-cases (same_index x id)) [
    | inl q ↦
        let p = same_index-eq x id q in
        ap (is_occupied (written m id v)) p
        ∙ written-here m id v h
        ∙ sym e
        ∙ sym (
            ap
              (λ b.
                if b
                then occupied_value m (m.occupancy_buffer (to_address m.parameters id))
                else false)
              h)
        ∙ sym (ap (is_occupied m) p)
    | inr q ↦ written-elsewhere m id v w h x q
  ]

  pub same-IsInflated :
      (m : GridMap W) (id : Vector3i) (v : W)
      → IsWindow m
      → is_in_map_index m id ≡ true
      → occupied_value m (m.occupancy_buffer (to_address m.parameters id)) ≡ occupied_value m v
      → IsInflated m
      → IsInflated (written m id v)
  unfolding is_in_map_index
  same-IsInflated m id v w h e s c i =
      let r =
        reaching-ext (is_occupied m) (is_occupied (written m id v)) c m.inflate_offsets
          (unchanged m id v w h e) in
      ((s c i).0 ∙ sym r, (s c i).1)
