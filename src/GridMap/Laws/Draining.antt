-- ===== src/GridMap/Laws/Draining.antt =====
-- grid_map.cpp: what the loop over the queue of raycastProcess makes of the occupancy and the counts.
use tron2_navigation_ros.Base.{
  ℕ, ◌≡◌, refl, sym, ap, subst, ◌∙◌, ◌⊎◌, inl, inr, Bool, true, false, not, List, [], ◌∷◌, ◌==◌,
  if◌then◌else◌, Bool-cases,
}
use tron2_navigation_ros.Double.{Double, lt, le, std_min, std_max, IsOrdered}
use tron2_navigation_ros.Vector.{Vector3i}
use tron2_navigation_ros.GridMap.State.{Parameters, GridMap, write}
use tron2_navigation_ros.GridMap.Address.{to_address, is_in_map_index}
use tron2_navigation_ros.GridMap.Update.{update_inflation, occupied_value, apply_occupancy_update}
use tron2_navigation_ros.GridMap.Cache.{
  Local, in_local, reset_counts, add_update, update_voxel, drain_voxel, drain_voxels, drain_cache,
}
use tron2_navigation_ros.GridMap.Laws.Inflation.{is_occupied}
use tron2_navigation_ros.GridMap.Laws.Edits.{IsSound, apply_occupancy_update-IsSound}
use tron2_navigation_ros.GridMap.Laws.Resets.{IsWindow-of}

pub if_either :
    {A : Type 0} (P : A → Type 0) (b : Bool) (x y : A) → P x → P y → P (if b then x else y)
if_either P true x y p q = p
if_either P false x y p q = q

module _ {W : Type 0} ⦃d : Double W⦄ where
  if-IsSound : (b : Bool) (m n : GridMap W) → IsSound m → IsSound n → IsSound (if b then m else n)
  if-IsSound b m n = if_either IsSound b m n

  add_update-IsSound :
      (m : GridMap W) (idx : Vector3i) (u : W) → IsSound m → IsSound (add_update m idx u)
  unfolding add_update
  add_update-IsSound m idx u s = apply_occupancy_update-IsSound m idx _ s

  update_voxel-IsSound :
      (l : Local W) (m : GridMap W) (idx : Vector3i) (u : W)
      → IsSound m
      → IsSound (update_voxel l m idx u)
  unfolding update_voxel
  update_voxel-IsSound l m idx u s =
      let t = apply_occupancy_update-IsSound m idx m.clamp_min_log s in
      if-IsSound _ m _ s (
        if-IsSound _ (apply_occupancy_update m idx m.clamp_min_log) _ t
          (add_update-IsSound _ idx u (if-IsSound (not (in_local l idx)) _ m t s)))

  -- The counts and the queue are not part of what is sound.
  reset_counts-IsSound :
      (m : GridMap W) (rest : List Vector3i) (idx : Vector3i)
      → IsSound m
      → IsSound (reset_counts (record m { cache_voxel = rest }) idx)
  unfolding reset_counts is_in_map_index is_occupied occupied_value
  reset_counts-IsSound m rest idx s = record {
    window =
        IsWindow-of m (reset_counts (record m { cache_voxel = rest }) idx) refl refl refl s.window;
    inflated = s.inflated;
    unknown_free = s.unknown_free;
  }

  drain_voxel-IsSound :
      (l : Local W) (m : GridMap W) (idx : Vector3i) (rest : List Vector3i)
      → IsSound m
      → IsSound (drain_voxel l m idx rest)
  unfolding drain_voxel
  drain_voxel-IsSound l m idx rest s =
      update_voxel-IsSound l (reset_counts (record m { cache_voxel = rest }) idx) idx _
        (reset_counts-IsSound m rest idx s)

  drain_voxels-IsSound :
      (l : Local W) (m : GridMap W) (q : List Vector3i) → IsSound m → IsSound (drain_voxels l m q)
  unfolding drain_voxels
  drain_voxels-IsSound l m [] s = s
  drain_voxels-IsSound l m (idx ∷ rest) s =
      drain_voxels-IsSound l (drain_voxel l m idx rest) rest (drain_voxel-IsSound l m idx rest s)

  pub drain_cache-IsSound : (l : Local W) (m : GridMap W) → IsSound m → IsSound (drain_cache l m)
  unfolding drain_cache
  drain_cache-IsSound l m s = drain_voxels-IsSound l m m.cache_voxel s

  -- A value that is neither below the one clamp nor above the other.
  abbrev pub IsClamped : Parameters W → W → Type 0
  IsClamped p o = (lt o p.clamp_min_log ≡ false) × (lt p.clamp_max_log o ≡ false)

  module _ (law : IsOrdered W) (p : Parameters W)
      (clamps : le p.clamp_min_log p.clamp_max_log ≡ true) where
    -- The occupancy at an address is what it was, or it is clamped; the parameters are kept.
    abbrev IsNear : (ℕ → W) → ℕ → GridMap W → Type 0
    IsNear before x r =
        (r.parameters ≡ p)
        × ((r.occupancy_buffer x ≡ before x) ⊎ IsClamped p (r.occupancy_buffer x))

    min-IsClamped : IsClamped p p.clamp_min_log
    min-IsClamped =
        (law.not-lt-of_le _ _ (law.refl_of_le _ _ clamps).0, law.not-lt-of_le _ _ clamps)

    std_max-not_below : (v : W) → lt (std_max v p.clamp_min_log) p.clamp_min_log ≡ false
    std_max-not_below v = elim (Bool-cases (lt v p.clamp_min_log)) [
      | inl e ↦ ap (λ b. lt (if b then p.clamp_min_log else v) p.clamp_min_log) e ∙ min-IsClamped.0
      | inr e ↦ ap (λ b. lt (if b then p.clamp_min_log else v) p.clamp_min_log) e ∙ e
    ]

    std_min-IsClamped :
        (u : W) → lt u p.clamp_min_log ≡ false → IsClamped p (std_min u p.clamp_max_log)
    std_min-IsClamped u h = elim (Bool-cases (lt p.clamp_max_log u)) [
      | inl e ↦
          subst (λ b. IsClamped p (if b then p.clamp_max_log else u)) (sym e)
            (law.not-lt-of_le _ _ clamps, law.not-lt-of_le _ _ (law.refl_of_le _ _ clamps).1)
      | inr e ↦ subst (λ b. IsClamped p (if b then p.clamp_max_log else u)) (sym e) (h, e)
    ]

    module _ (before : ℕ → W) (x : ℕ) where
      write-IsNear :
          (f : ℕ → W) (addr : ℕ) (v : W)
          → (f x ≡ before x) ⊎ IsClamped p (f x)
          → IsClamped p v
          → (write f addr v x ≡ before x) ⊎ IsClamped p (write f addr v x)
      write-IsNear f addr v h c =
          if_either (λ o. (o ≡ before x) ⊎ IsClamped p o) (x == addr) v (f x) (inr c) h

      apply-IsNear :
          (m : GridMap W) (idx : Vector3i) (v : W)
          → IsNear before x m
          → IsClamped p v
          → IsNear before x (apply_occupancy_update m idx v)
      unfolding apply_occupancy_update update_inflation
      apply-IsNear m idx v (e, h) c =
          let w = write-IsNear m.occupancy_buffer (to_address m.parameters idx) v h c in
          if_either (IsNear before x) (not (is_in_map_index m idx)) m _ (e, h)
            (if_either (IsNear before x) _ _ _ (e, w) (e, w))

      add_update-IsNear :
          (m : GridMap W) (idx : Vector3i) (u : W)
          → IsNear before x m
          → IsNear before x (add_update m idx u)
      unfolding add_update
      add_update-IsNear m idx u (e, h) =
          let a = d.add (m.occupancy_buffer (to_address m.parameters idx)) u in
          apply-IsNear m idx _ (e, h)
            (subst (λ q. IsClamped p (std_min (std_max a q.clamp_min_log) q.clamp_max_log)) (sym e)
              (std_min-IsClamped (std_max a p.clamp_min_log) (std_max-not_below a)))

      update_voxel-IsNear :
          (l : Local W) (m : GridMap W) (idx : Vector3i) (u : W)
          → IsNear before x m
          → IsNear before x (update_voxel l m idx u)
      unfolding update_voxel
      update_voxel-IsNear l m idx u (e, h) =
          let c = subst (λ q. IsClamped p q.clamp_min_log) (sym e) min-IsClamped in
          let t = apply-IsNear m idx m.clamp_min_log (e, h) c in
          if_either (IsNear before x) _ m _ (e, h)
            (if_either (IsNear before x) _ (apply_occupancy_update m idx m.clamp_min_log) _ t (
              add_update-IsNear _ idx u
                (if_either (IsNear before x) (not (in_local l idx)) _ m t (e, h))))

      drain_voxel-IsNear :
          (l : Local W) (m : GridMap W) (idx : Vector3i) (rest : List Vector3i)
          → IsNear before x m
          → IsNear before x (drain_voxel l m idx rest)
      unfolding drain_voxel reset_counts
      drain_voxel-IsNear l m idx rest h =
          update_voxel-IsNear l (reset_counts (record m { cache_voxel = rest }) idx) idx _ h

      drain_voxels-IsNear :
          (l : Local W) (m : GridMap W) (q : List Vector3i)
          → IsNear before x m
          → IsNear before x (drain_voxels l m q)
      unfolding drain_voxels
      drain_voxels-IsNear l m [] h = h
      drain_voxels-IsNear l m (idx ∷ rest) h =
          drain_voxels-IsNear l (drain_voxel l m idx rest) rest (drain_voxel-IsNear l m idx rest h)

  -- After the queue is worked off, the occupancy at each address is what it was before, or it is neither
  -- below clamp_min_log nor above clamp_max_log, the first of which is at most the second.
  pub drain_cache-IsClamped :
      (law : IsOrdered W) (l : Local W) (m : GridMap W) (x : ℕ)
      → le m.clamp_min_log m.clamp_max_log ≡ true
      → let r = drain_cache l m in
        (r.occupancy_buffer x ≡ m.occupancy_buffer x)
        ⊎ (lt (r.occupancy_buffer x) m.clamp_min_log ≡ false)
          × (lt m.clamp_max_log (r.occupancy_buffer x) ≡ false)
  unfolding drain_cache
  drain_cache-IsClamped law l m x clamps =
      (drain_voxels-IsNear law m.parameters clamps m.occupancy_buffer x l m m.cache_voxel
        (refl, inl refl)).1
