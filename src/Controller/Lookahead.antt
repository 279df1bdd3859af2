-- ===== src/Controller/Lookahead.antt =====
-- closed_loop_controller_safe.cpp: the two searches of cmdCallback along the sampled trajectory.
use tron2_navigation_ros.Base.{
  ℕ, zero, suc, ◌+◌, ◌-◌, ◌≤◌, ◌<◌, ◌≡◌, refl, ◌⊎◌, inl, inr, Bool, true, false, List, [], ◌∷◌,
  length, drop, get_or, arith, subst, ltb, ◌&&◌, if◌then◌else◌,
}
use tron2_navigation_ros.Double.{Double, lt, decimal}
use tron2_navigation_ros.Vector.{Vector3, Library}
use tron2_navigation_ros.Controller.State.{Controller}
use tron2_navigation_ros.Controller.Tracking.{
  nearest_loop, lookahead_loop, update_nearest, lookahead_index,
}

impossible : (size i : ℕ) → i < size → size ≤ i → ⊥
impossible size i h k = omega arith

here_or_later : (i j : ℕ) → i ≤ j → (i ≡ j) ⊎ (suc i ≤ j)
here_or_later i j h = omega arith

and_right : (a b : Bool) → a && b ≡ true → b ≡ true
and_right true b e = e
and_right false b e = ground arith

chosen-lt : (b : Bool) (m n k : ℕ) → m < k → n < k → (if b then m else n) < k
chosen-lt true m n k h g = h
chosen-lt false m n k h g = g

max_lt : (m n k : ℕ) → m < k → n < k → (if ltb m n then n else m) < k
max_lt m n k h g = ground arith

choose :
    (P : ℕ → Type 0) {m n : ℕ} (b : Bool)
    → (b ≡ true → P m)
    → (b ≡ false → P n)
    → P (if b then m else n)
choose P true f g = f refl
choose P false f g = g refl

length-drop-le :
    {A : Type 0} (xs : List A) (n : ℕ) → n ≤ length xs → n + length (drop n xs) ≡ length xs
length-drop-le xs zero h = omega arith
length-drop-le (x ∷ xs) (suc n) h = let e = length-drop-le xs n (omega arith) in omega arith
length-drop-le [] (suc n) h = elim (impossible 0 0 (omega arith) (omega arith)) [ ]

module _ {W : Type 0} ⦃d : Double W⦄ where
  -- `k` is the first index from `i` on at which the arc length reaches the target, or the last index.
  pub record IsFirstReached (arcs : List W) (target : W) (size i k : ℕ) : Type 0 where
    pub from : i ≤ k
    pub below : k < size
    pub reached : (suc k ≡ size) ⊎ (lt (get_or arcs k (decimal 0 0)) target ≡ false)
    pub before : (j : ℕ) → i ≤ j → j < k → lt (get_or arcs j (decimal 0 0)) target ≡ true

  index_step :
      (arcs : List W) (target : W) (size i k : ℕ)
      → lt (get_or arcs i (decimal 0 0)) target ≡ true
      → IsFirstReached arcs target size (suc i) k
      → IsFirstReached arcs target size i k
  index_step arcs target size i k e r = record {
    from = let h = r.from in omega arith;
    below = r.below;
    reached = r.reached;
    before = λ j a b. elim (here_or_later i j a) [
      | inl q ↦ subst (λ x. lt (get_or arcs x (decimal 0 0)) target ≡ true) q e
      | inr q ↦ r.before j q b
    ];
  }

  index_stop :
      (arcs : List W) (target : W) (size i : ℕ)
      → i < size
      → ltb (suc i) size && lt (get_or arcs i (decimal 0 0)) target ≡ false
      → IsFirstReached arcs target size i i
  index_stop arcs target size i h e = record {
    from = omega arith;
    below = h;
    reached = ground arith;
    before = λ j a b. elim (impossible i j b a) [ ];
  }

  lookahead_loop_lem :
      (n : ℕ) (arcs : List W) (target : W) (size i : ℕ)
      → i < size
      → size ≤ n + i
      → IsFirstReached arcs target size i (lookahead_loop n arcs target size i)
  unfolding lookahead_loop
  lookahead_loop_lem zero arcs target size i h k = elim (impossible size i h (omega arith)) [ ]
  lookahead_loop_lem (suc n) arcs target size i h k =
      choose (IsFirstReached arcs target size i)
        (ltb (suc i) size && lt (get_or arcs i (decimal 0 0)) target)
        (λ e.
          index_step arcs target size i _ (and_right (ltb (suc i) size) _ e)
            (lookahead_loop_lem n arcs target size (suc i) (ground arith) (omega arith)))
        (λ e. index_stop arcs target size i h e)

  nearest_loop-lt :
      (distance_sq : Vector3 W → W) (samples : List (Vector3 W)) (i nearest : ℕ) (best : W)
      → nearest < i + length samples
      → nearest_loop distance_sq samples i nearest best < i + length samples
  unfolding nearest_loop
  nearest_loop-lt f [] i nearest best h = h
  nearest_loop-lt f (x ∷ xs) i nearest best h =
      let closer = lt (f x) best in
      let h2 =
        nearest_loop-lt f xs (suc i) (if closer then i else nearest) (if closer then f x else best)
          (chosen-lt closer i nearest _ (omega arith) (omega arith)) in
      omega arith

-- The counts of the searches are in range.
abbrev pub InRange : {W : Type 0} → Controller W → Type 0
InRange s =
    (2 ≤ length s.trajectory_samples)
    × (length s.trajectory_arc_lengths ≡ length s.trajectory_samples)
    × (s.nearest_sample_index < length s.trajectory_samples)

module _ {W : Type 0} ⦃d : Double W⦄ (lib : Library W) (s : Controller W) where
  pub update_nearest-InRange : InRange s → InRange (update_nearest lib s)
  unfolding update_nearest
  update_nearest-InRange h =
      let begin : ℕ = if ltb 10 s.nearest_sample_index then s.nearest_sample_index - 10 else 0 in
      let b : begin ≤ length s.trajectory_samples = ground arith in
      let e = length-drop-le s.trajectory_samples begin b in
      let k =
        nearest_loop-lt (λ sample. lib.squared_norm_xy (lib.vec_sub sample s.odom_pos))
          (drop begin s.trajectory_samples) begin s.nearest_sample_index d.max (ground arith) in
      (h.0, h.1, max_lt _ _ _ h.2 (omega arith))

  -- From a state whose sample index is in range, the lookahead index of cmdCallback is in range; it
  -- is the first one from the nearest sample on whose arc length reaches that of the nearest sample
  -- plus the lookahead distance, or the last index if no earlier one reaches it.
  pub lookahead_index_lem :
      s.nearest_sample_index < length s.trajectory_samples
      → IsFirstReached s.trajectory_arc_lengths
          (d.add
            (get_or s.trajectory_arc_lengths s.nearest_sample_index (decimal 0 0))
            s.lookahead_distance)
          (length s.trajectory_samples)
          s.nearest_sample_index
          (lookahead_index lib s)
  unfolding lookahead_index
  lookahead_index_lem h = lookahead_loop_lem _ _ _ _ _ h (omega arith)
