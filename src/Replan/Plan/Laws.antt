-- ===== src/Replan/Plan/Laws.antt =====
-- adjustGlobalTargetIfOccupied: where the target moves, and when it is given up.
use native.Mathlib.Decide.{ℕ_discrete}
use tron2_navigation_ros.Base.{
  ℕ, zero, suc, ◌<◌, ◌≤◌, Bool, true, false, ◌≡◌, refl, ◌⊎◌, inl, inr, Option, none, some, ℤ, pos,
  leb_ℤ, sym, ◌∙◌, ◌-◌, is_zero, arith, Bool-cases, if◌then◌else◌,
}
use tron2_navigation_ros.Double.{Double, lt, decimal}
use tron2_navigation_ros.Vector.{Vector3, Library}
use tron2_navigation_ros.Replan.State.{Fsm}
use tron2_navigation_ros.Replan.Plan.{
  free_sample, sample_occupancy, sample_time, adjust_on_map, shorten_to, sample_count,
  estimate_yaw_from_segment,
}

true-false : true ≡ false → ⊥
true-false e = ground arith

module _ {W : Type 0} ⦃d : Double W⦄ (lib : Library W) (map : Vector3 W → W → ℤ) (s : Fsm W) (x : W)
    (n : ℕ) where
  abbrev pub IsFree : ℕ → Type 0
  IsFree i = is_zero (sample_occupancy lib map s x i n) ≡ true

  -- The answer of the loop that starts at `m`: the last free sample, if there is one.
  abbrev pub LastFree : ℕ → Option ℕ → Type 0
  LastFree m none = (i : ℕ) → i ≤ m → ¬ (IsFree i)
  LastFree m (some k) = (k ≤ m) × IsFree k × ((i : ℕ) → k < i → i ≤ m → ¬ (IsFree i))

  step-LastFree : (m : ℕ) (r : Option ℕ) → ¬ (IsFree (suc m)) → LastFree m r → LastFree (suc m) r
  step-LastFree m none n l =
      λ i h. elim (ℕ_discrete i (suc m)) [ yes e ↦ rw e n | no ne ↦ l i (omega arith) ]
  step-LastFree m (some k) n (below, free, above) = (
    omega arith,
    free,
    λ i lo hi. elim (ℕ_discrete i (suc m)) [ yes e ↦ rw e n | no ne ↦ above i lo (omega arith) ],
  )

  here-LastFree : (m : ℕ) → IsFree m → LastFree m (some m)
  here-LastFree m free = (omega arith, free, λ i lo hi. absurd (omega arith))

  free_sample-LastFree : (m : ℕ) → LastFree m (free_sample lib map s x n m)
  unfolding free_sample
  free_sample-LastFree zero = elim (Bool-cases (is_zero (sample_occupancy lib map s x 0 n))) [
    | inl e ↦ rw e (here-LastFree 0 e)
    | inr e ↦ rw e (λ i h. let z : i ≡ 0 = omega arith in rw (z, e) (λ c. cc))
  ]
  free_sample-LastFree (suc m) =
      elim (Bool-cases (is_zero (sample_occupancy lib map s x (suc m) n))) [
        | inl e ↦ rw e (here-LastFree (suc m) e)
        | inr e ↦ rw e (
            step-LastFree m (free_sample lib map s x n m) (rw e (λ c. cc)) (free_sample-LastFree m))
      ]

-- The number of samples of the global trajectory.
abbrev pub sample_num : {W : Type 0} ⦃d : Double W⦄ → Fsm W → ℕ
sample_num ⦃d⦄ s =
    sample_count (d.to_int (d.ceil (d.div s.global_data.global_duration (decimal 5 2))))

-- The occupancy of the end of the global trajectory, for the heading of its last segment.
abbrev pub end_occupancy : {W : Type 0} ⦃d : Double W⦄ → Library W → (Vector3 W → W → ℤ) → Fsm W → ℤ
end_occupancy lib map s =
    let duration = s.global_data.global_duration in
    let traj = s.global_data.global_traj in
    let before = traj (sample_time lib duration (sample_num s - 1) (sample_num s)) in
    map (traj duration) (estimate_yaw_from_segment lib s before (traj duration))

-- There is something to adjust: the trajectory is not too short, and its end is occupied.
abbrev pub MustMove : {W : Type 0} ⦃d : Double W⦄ → Library W → (Vector3 W → W → ℤ) → Fsm W → Type 0
MustMove lib map s =
    (lt s.global_data.global_duration (decimal 1 3) ≡ false)
    × (leb_ℤ (end_occupancy lib map s) (pos 0) ≡ false)

-- If there is nothing to adjust, the target is left alone. Else it is moved to the last free sample of
-- the trajectory, which then ends there, or given up where no sample is free.
abbrev pub Adjusted :
    {W : Type 0} ⦃d : Double W⦄ → Library W → (Vector3 W → W → ℤ) → Fsm W → Bool × Fsm W → Type 0
Adjusted lib map s r =
    let duration = s.global_data.global_duration in
    let n = sample_num s in
    ((¬ MustMove lib map s) × (r ≡ (true, s)))
    ⊎ (MustMove lib map s
        × (i : ℕ) × LastFree lib map s duration n n (some i)
        × (r ≡ (true, shorten_to lib s (sample_time lib duration i n))))
    ⊎ (MustMove lib map s × LastFree lib map s duration n n none × (r ≡ (false, s)))

module _ {W : Type 0} ⦃d : Double W⦄ (lib : Library W) (map : Vector3 W → W → ℤ) (s : Fsm W) where
  sampled-Adjusted :
      (r : Option ℕ)
      → MustMove lib map s
      → LastFree lib map s s.global_data.global_duration (sample_num s) (sample_num s) r
      → Adjusted lib map s (elim r [
        | none ↦ (false, s)
        | some i ↦ (
          true,
          shorten_to lib s (sample_time lib s.global_data.global_duration i (sample_num s)),
        )
      ])
  sampled-Adjusted none m l = inr (inr (m, l, refl))
  sampled-Adjusted (some i) m l = inr (inl (m, i, l, refl))

  tests-Adjusted :
      (a b : Bool) (r : Bool × Fsm W)
      → lt s.global_data.global_duration (decimal 1 3) ≡ a
      → leb_ℤ (end_occupancy lib map s) (pos 0) ≡ b
      → (MustMove lib map s → Adjusted lib map s r)
      → Adjusted lib map s (if a then (true, s) else if b then (true, s) else r)
  tests-Adjusted true b r e f p = inl ((λ m. true-false (sym e ∙ m.0)), refl)
  tests-Adjusted false true r e f p = inl ((λ m. true-false (sym f ∙ m.1)), refl)
  tests-Adjusted false false r e f p = p (e, f)

  -- Over a map: if the global trajectory is shorter than a millisecond, or its end is not occupied for
  -- the heading of the last segment, the answer is yes and nothing changes. Else, if some sample of the
  -- trajectory is free, the answer is yes, the trajectory is cut at the last free one and the target
  -- moves there; if none is free, the answer is no and nothing changes.
  pub adjust_on_map-Adjusted : Adjusted lib map s (adjust_on_map lib map s)
  unfolding adjust_on_map
  adjust_on_map-Adjusted = tests-Adjusted _ _ _ refl refl (λ m.
      sampled-Adjusted
        (free_sample lib map s s.global_data.global_duration (sample_num s) (sample_num s)) m
        (free_sample-LastFree lib map s s.global_data.global_duration (sample_num s)
          (sample_num s)))
