-- ===== src/GridMap/Laws/Queue.antt =====
-- grid_map.h, grid_map.cpp: the queue of the voxels that rays have met, and their counts.
use tron2_navigation_ros.Base.{
  ℕ, ◌≡◌, refl, sym, ap, subst, ◌∙◌, ◌⊎◌, inl, inr, Bool, true, false, not, ◌++◌, List, [], ◌∷◌, ℤ,
  pos, negsuc, ◌-ℤ◌, ◌+ℤ◌, is_zero, ◌==◌, if◌then◌else◌, arith, Bool-cases, Mem, here, there,
  mem-append_left, mem-append_right,
}
use tron2_navigation_ros.Double.{Double}
use tron2_navigation_ros.Vector.{Vector3, Vector3i}
use tron2_navigation_ros.GridMap.State.{Parameters, GridMap, write}
use tron2_navigation_ros.GridMap.Address.{to_address, is_in_map_index, pos_to_index}
use tron2_navigation_ros.GridMap.Update.{
  update_inflation, apply_occupancy_update, next_short, count_voxel, set_cache_occupancy,
}
use tron2_navigation_ros.GridMap.Cache.{
  Local, in_local, reset_counts, add_update, update_voxel, drain_voxel, drain_voxels, drain_cache,
}
use tron2_navigation_ros.GridMap.Laws.Draining.{if_either}
use tron2_navigation_ros.GridMap.Laws.Histories.{set_cache_occupancy-cases}
use tron2_navigation_ros.GridMap.Laws.Cleared.{write_same, write_again}

next_short-zero : (c : ℤ) → is_zero (next_short c -ℤ pos 1) ≡ false → is_zero c ≡ false
unfolding next_short ◌-ℤ◌ ◌+ℤ◌
next_short-zero (pos a) h = ground arith
next_short-zero (negsuc a) h = ground arith

zero_of : (c : ℤ) → is_zero c ≡ true → c ≡ pos 0
zero_of (pos a) h = ground arith
zero_of (negsuc a) h = ground arith

-- A count that is not 0 is that of a voxel of the list.
abbrev IsCovered : {W : Type 0} → Parameters W → (ℕ → ℤ) → List Vector3i → Type 0
IsCovered p counts q =
    (x : ℕ) → (counts x ≡ pos 0) ⊎ (id : Vector3i) × Mem id q × (x ≡ to_address p id)

module _ {W : Type 0} where
  IsCovered-later :
      (p : Parameters W) (f : ℕ → ℤ) (idx : Vector3i) (rest : List Vector3i)
      → IsCovered p f (idx ∷ rest)
      → IsCovered p (write f (to_address p idx) (pos 0)) rest
  IsCovered-later p f idx rest h x = elim (h x) [
    | inl e ↦ inl (write_again f x (to_address p idx) (pos 0) e)
    | inr (id, m, e) ↦ elim m [
      | here k ↦ inl (
          subst (λ y. write f (to_address p idx) (pos 0) y ≡ pos 0)
            (ap (to_address p) (sym k) ∙ sym e) (write_same f (to_address p idx) (pos 0)))
      | there n ↦ inr (id, n, e)
    ]
  ]

  IsCovered-more :
      (p : Parameters W) (f : ℕ → ℤ) (q : List Vector3i) (id : Vector3i) (v : ℤ)
      → (f (to_address p id) ≡ pos 0 → Mem id q)
      → IsCovered p f q
      → IsCovered p (write f (to_address p id) v) q
  IsCovered-more p f q id v n h x = elim (Bool-cases (x == to_address p id)) [
    | inl e ↦
        let z : x ≡ to_address p id = ground arith in
        elim (h x) [ inl k ↦ inr (id, n (ap f (sym z) ∙ k), z) | inr k ↦ inr k ]
    | inr e ↦ elim (h x) [ inl k ↦ inl (ap (λ b. if b then v else f x) e ∙ k) | inr k ↦ inr k ]
  ]

module _ {W : Type 0} ⦃d : Double W⦄ where
  -- What an update of the occupancy keeps.
  abbrev IsCounted : Parameters W → (ℕ → ℤ) → (ℕ → ℤ) → List Vector3i → GridMap W → Type 0
  IsCounted p f g q r =
      (r.parameters ≡ p) × (r.count_hit_and_miss ≡ f) × (r.count_hit ≡ g) × (r.cache_voxel ≡ q)

  apply-IsCounted :
      (p : Parameters W) (f g : ℕ → ℤ) (q : List Vector3i) (m : GridMap W) (id : Vector3i) (v : W)
      → IsCounted p f g q m
      → IsCounted p f g q (apply_occupancy_update m id v)
  unfolding apply_occupancy_update update_inflation
  apply-IsCounted p f g q m id v h =
      if_either (IsCounted p f g q) (not (is_in_map_index m id)) m _ h
        (if_either (IsCounted p f g q) _ _ _ h h)

  update_voxel-IsCounted :
      (p : Parameters W) (f g : ℕ → ℤ) (q : List Vector3i) (l : Local W) (m : GridMap W)
      (idx : Vector3i) (u : W)
      → IsCounted p f g q m
      → IsCounted p f g q (update_voxel l m idx u)
  unfolding update_voxel add_update
  update_voxel-IsCounted p f g q l m idx u h =
      let t = apply-IsCounted p f g q m idx m.clamp_min_log h in
      if_either (IsCounted p f g q) _ m _ h (
        if_either (IsCounted p f g q) _ (apply_occupancy_update m idx m.clamp_min_log) _ t (
          apply-IsCounted p f g q _ idx _
            (if_either (IsCounted p f g q) (not (in_local l idx)) _ m t h)))

  drain_voxel-IsCounted :
      (l : Local W) (m : GridMap W) (idx : Vector3i) (rest : List Vector3i)
      → IsCounted m.parameters
          (write m.count_hit_and_miss (to_address m.parameters idx) (pos 0))
          (write m.count_hit (to_address m.parameters idx) (pos 0))
          rest
          (drain_voxel l m idx rest)
  unfolding drain_voxel reset_counts
  drain_voxel-IsCounted l m idx rest =
      update_voxel-IsCounted _ _ _ _ l (reset_counts (record m { cache_voxel = rest }) idx) idx _
        (refl, refl, refl, refl)

  -- No voxel waits in the queue, and both counts of each are 0.
  abbrev pub IsIdle : GridMap W → Type 0
  IsIdle m =
      (m.cache_voxel ≡ [])
      × ((x : ℕ) → m.count_hit_and_miss x ≡ pos 0)
      × ((x : ℕ) → m.count_hit x ≡ pos 0)

  -- Each voxel with a count that is not 0 is in the queue.
  abbrev IsQueued : GridMap W → Type 0
  IsQueued m =
      IsCovered m.parameters m.count_hit_and_miss m.cache_voxel
      × IsCovered m.parameters m.count_hit m.cache_voxel

  none_covered : (p : Parameters W) (f : ℕ → ℤ) → IsCovered p f [] → (x : ℕ) → f x ≡ pos 0
  none_covered p f h x = elim (h x) [ inl k ↦ k | inr (id, n, k) ↦ elim n [ ] ]

  drain_voxels-IsIdle :
      (l : Local W) (m : GridMap W) (q : List Vector3i)
      → m.cache_voxel ≡ q
      → IsCovered m.parameters m.count_hit_and_miss q
      → IsCovered m.parameters m.count_hit q
      → IsIdle (drain_voxels l m q)
  unfolding drain_voxels
  drain_voxels-IsIdle l m [] e h g =
      (e, none_covered m.parameters m.count_hit_and_miss h, none_covered m.parameters m.count_hit g)
  drain_voxels-IsIdle l m (idx ∷ rest) e h g =
      let r = drain_voxel l m idx rest in
      let (a, b, b', c) = drain_voxel-IsCounted l m idx rest in
      let later = IsCovered-later m.parameters m.count_hit_and_miss idx rest h in
      let later' = IsCovered-later m.parameters m.count_hit idx rest g in
      drain_voxels-IsIdle l r rest c
        (subst (λ p. IsCovered p r.count_hit_and_miss rest) (sym a)
          (subst (λ f. IsCovered m.parameters f rest) (sym b) later))
        (subst (λ p. IsCovered p r.count_hit rest) (sym a)
          (subst (λ f. IsCovered m.parameters f rest) (sym b') later'))

  IsCovered-append :
      (p : Parameters W) (f : ℕ → ℤ) (q : List Vector3i) (id : Vector3i)
      → IsCovered p f q
      → IsCovered p f (q ++ (id ∷ []))
  IsCovered-append p f q id h x = elim (h x) [
    | inl k ↦ inl k
    | inr (j, n, k) ↦ inr (j, mem-append_left j q (id ∷ []) n, k)
  ]

  -- The count of hits, if it changes, is that of a voxel of the list.
  hits-IsCovered :
      (b : Bool) (p : Parameters W) (f : ℕ → ℤ) (q : List Vector3i) (id : Vector3i) (v : ℤ)
      → Mem id q
      → IsCovered p f q
      → IsCovered p (if b then write f (to_address p id) v else f) q
  hits-IsCovered b p f q id v n h =
      if_either (λ g. IsCovered p g q) b (write f (to_address p id) v) f
        (IsCovered-more p f q id v (λ k. n) h) h

  -- A count that is not 0 is that of a voxel with the same address in the queue.
  moved_hits :
      (b : Bool) (p : Parameters W) (f : ℕ → ℤ) (q : List Vector3i) (j id : Vector3i) (v : ℤ)
      → Mem j q
      → to_address p id ≡ to_address p j
      → IsCovered p f q
      → IsCovered p (if b then write f (to_address p id) v else f) q
  moved_hits b p f q j id v n e h =
      subst (λ a. IsCovered p (if b then write f a v else f) q) (sym e)
        (hits-IsCovered b p f q j v n h)

  count_voxel-IsQueued :
      (m : GridMap W) (id : Vector3i) (occ : ℤ) → IsQueued m → IsQueued (count_voxel m id occ)
  unfolding count_voxel
  count_voxel-IsQueued m id occ (h, g) =
      let f = m.count_hit_and_miss in
      let p = m.parameters in
      let addr = to_address p id in
      let seen = next_short (f addr) in
      let hit = is_zero (occ -ℤ pos 1) in
      let hits = next_short (m.count_hit addr) in
      let P = λ (b : Bool).
        IsCovered p (write f addr seen) (if b then m.cache_voxel ++ (id ∷ []) else m.cache_voxel)
        × IsCovered p (if hit then write m.count_hit addr hits else m.count_hit)
            (if b then m.cache_voxel ++ (id ∷ []) else m.cache_voxel) in
      elim (Bool-cases (is_zero (seen -ℤ pos 1))) [
        | inl e ↦
            let n = mem-append_right id m.cache_voxel (id ∷ []) (here refl) in
            subst P (sym e) (
              IsCovered-more p f (m.cache_voxel ++ (id ∷ [])) id seen (λ k. n)
                  (IsCovered-append p f m.cache_voxel id h),
              hits-IsCovered hit p m.count_hit (m.cache_voxel ++ (id ∷ [])) id hits n
                  (IsCovered-append p m.count_hit m.cache_voxel id g),
            )
        | inr e ↦
            let z = next_short-zero (f addr) e in
            let none : f addr ≡ pos 0 → ⊥ = λ k. true_false (sym (ap is_zero k) ∙ z) in
            subst P (sym e) (elim (h addr) [
              | inl k ↦ elim (none k) [ ]
              | inr (j, n, k) ↦ (
                IsCovered-more p f m.cache_voxel id seen (λ k. elim (none k) [ ]) h,
                moved_hits hit p m.count_hit m.cache_voxel j id hits n k g,
              )
            ])
      ]
    where
      true_false : true ≡ false → ⊥
      true_false e = ground arith

  set_cache_occupancy-IsQueued :
      (m : GridMap W) (p : Vector3 W) (occ : ℤ)
      → IsQueued m
      → IsQueued (set_cache_occupancy m p occ).0
  set_cache_occupancy-IsQueued m p occ h = elim (set_cache_occupancy-cases m p occ) [
    | inl e ↦ subst IsQueued (sym e) h
    | inr e ↦ subst IsQueued (sym e) (count_voxel-IsQueued m (pos_to_index m p) occ h)
  ]

  -- The points that the rays count, each as a hit (1) or a miss (0).
  unfoldable pub observe_all : GridMap W → List (Vector3 W × ℤ) → GridMap W
  observe_all m [] = m
  observe_all m (e ∷ es) = observe_all (set_cache_occupancy m e.0 e.1).0 es

  observe_all-IsQueued :
      (m : GridMap W) (es : List (Vector3 W × ℤ)) → IsQueued m → IsQueued (observe_all m es)
  unfolding observe_all
  observe_all-IsQueued m [] h = h
  observe_all-IsQueued m (e ∷ es) h =
      observe_all-IsQueued (set_cache_occupancy m e.0 e.1).0 es
        (set_cache_occupancy-IsQueued m e.0 e.1 h)

  -- In a map where the queue is empty and both counts of each voxel are 0 (count_hit and
  -- count_hit_and_miss), whatever points are counted as hits or misses, the loop over the queue leaves
  -- the queue empty and both counts of each voxel 0 again: no voxel is counted that is not in the queue.
  pub drain_cache-observe_all :
      (l : Local W) (m : GridMap W) (es : List (Vector3 W × ℤ))
      → IsIdle m
      → IsIdle (drain_cache l (observe_all m es))
  unfolding drain_cache
  drain_cache-observe_all l m es h =
      let r = observe_all m es in
      let v = observe_all-IsQueued m es (λ x. inl (h.1 x), λ x. inl (h.2 x)) in
      drain_voxels-IsIdle l r r.cache_voxel refl v.0 v.1
