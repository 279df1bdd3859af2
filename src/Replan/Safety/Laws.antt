-- ===== src/Replan/Safety/Laws.antt =====
-- The scan of the local trajectory finds its first occupied sample, and the answer to it.
use tron2_navigation_ros.Base.{
  ℕ, zero, suc, ◌<◌, true, false, ◌≡◌, refl, ◌⊎◌, inl, inr, ℤ, pos, some, arith, Bool-cases,
}
use tron2_navigation_ros.Double.{Double, lt}
use tron2_navigation_ros.Vector.{Vector3, Library}
use tron2_navigation_ros.Replan.State.{replan_traj, exec_traj, emergency_stop, bspline, Fsm, World}
use tron2_navigation_ros.Replan.Plan.{change_fsm_exec_state, update_local_traj_time_freeze}
use tron2_navigation_ros.Replan.Frame.{
  plan_from_current_traj-Keeps, update_local_traj_time_freeze-Keeps,
}
use tron2_navigation_ros.Replan.Entry.{newest, plan_from_current_traj-IsPublished}
use tron2_navigation_ros.Replan.Safety.{
  Scan, clear, collision, out_of_fuel, time_step, occupied_at, scan, scan_start, on_collision,
  after_scan, check_collision_callback,
}

module _ {W : Type 0} ⦃d : Double W⦄ (lib : Library W) (map : Vector3 W → W → ℤ) (s : Fsm W) where
  -- The time of the sample `k`, counted from `t`.
  abbrev pub sample : W → ℕ → W
  sample t zero = t
  sample t (suc k) = sample (d.add t (time_step lib)) k

  -- The samples before `k` lie on the trajectory and are free.
  abbrev pub FreeBefore : W → ℕ → Type 0
  FreeBefore t zero = Unit {0}
  FreeBefore t (suc k) =
      (lt t s.local_data.duration ≡ true)
      × (occupied_at lib map s t ≡ false)
      × FreeBefore (d.add t (time_step lib)) k

  -- What the outcome of the scan says of the trajectory.
  abbrev pub Tells : ℕ → W → Scan W → Type 0
  Tells fuel t clear =
      (k : ℕ) × (k < fuel) × FreeBefore t k × (lt (sample t k) s.local_data.duration ≡ false)
  Tells fuel t (collision x) =
      (k : ℕ) × (k < fuel)
      × FreeBefore t k
      × (lt x s.local_data.duration ≡ true)
      × (occupied_at lib map s x ≡ true)
      × (x ≡ sample t k)
  Tells fuel t out_of_fuel = FreeBefore t fuel

  later :
      (fuel : ℕ) (t : W) (r : Scan W)
      → lt t s.local_data.duration ≡ true
      → occupied_at lib map s t ≡ false
      → Tells fuel (d.add t (time_step lib)) r
      → Tells (suc fuel) t r
  later fuel t clear on free (k, below, before, end) = (suc k, omega arith, (on, free, before), end)
  later fuel t (collision x) on free (k, below, before, at, hit, e) =
      (suc k, omega arith, (on, free, before), at, hit, e)
  later fuel t out_of_fuel on free before = (on, free, before)

  -- The scan finds the first occupied sample of the trajectory, if there is one before its end, and
  -- says `clear` if all samples up to its end are free; without either, all that the fuel allows are
  -- free.
  pub scan-Tells : (fuel : ℕ) (t : W) → Tells fuel t (scan lib map s fuel t)
  unfolding scan
  scan-Tells zero t = tt
  scan-Tells (suc fuel) t = elim (Bool-cases (lt t s.local_data.duration)) [
    | inr end ↦ rw end (0, omega arith, tt, end)
    | inl on ↦ rw on (elim (Bool-cases (occupied_at lib map s t)) [
      | inl hit ↦ rw hit (0, omega arith, tt, on, hit, refl)
      | inr free ↦ rw free (later fuel t _ on free (scan-Tells fuel (d.add t (time_step lib))))
    ])
  ]

-- The three answers to a collision that is `ahead` seconds away.
abbrev pub Answered : {W : Type 0} ⦃d : Double W⦄ → W → Fsm W → Fsm W → Type 0
Answered ahead s t =
    ((t.exec_state ≡ exec_traj) × (newest t.published ≡ some (bspline t.local_data)))
    ⊎ ((t.exec_state ≡ emergency_stop) × (lt ahead s.emergency_time ≡ true))
    ⊎ ((t.exec_state ≡ replan_traj) × (lt ahead s.emergency_time ≡ false))

module _ {W : Type 0} ⦃d : Double W⦄ (lib : Library W) (w : World W) (s : Fsm W) where
  on_collision-Answered : (ahead : W) → Answered ahead s (on_collision lib w ahead s)
  unfolding on_collision change_fsm_exec_state
  on_collision-Answered ahead = ground (
    arith,
    plan_from_current_traj-IsPublished lib w (record s { last_replan_attempt_time = w.retry_now }),
    plan_from_current_traj-Keeps lib w (record s { last_replan_attempt_time = w.retry_now }),
  )

module _ {W : Type 0} ⦃d : Double W⦄ (lib : Library W) (w : World W) (s : Fsm W) where
  -- The safety timer in EXEC_TRAJ, over a map and a trajectory with a start time, where the scan
  -- finds a collision: afterwards a new trajectory has been published and is executed, or the node
  -- is in EMERGENCY_STOP, and the collision is nearer than the emergency time, or it is in
  -- REPLAN_TRAJ, and the collision is not.
  pub check_collision_callback-Answered :
      (fuel : ℕ) (map : Vector3 W → W → ℤ) (x : W)
      → let t = update_local_traj_time_freeze lib w s in
        s.exec_state ≡ exec_traj
        → lt (lib.seconds (pos t.local_data.start_time)) (d.decimal 1 5) ≡ false
        → w.inflate_occupancy ≡ some map
        → scan lib map t fuel (scan_start lib w t) ≡ collision x
        → Answered (d.sub x (scan_start lib w t)) s (check_collision_callback lib fuel w s)
  unfolding check_collision_callback after_scan
  check_collision_callback-Answered fuel map x e started known found =
      let t = update_local_traj_time_freeze lib w s in
      ground (
        arith,
        on_collision-Answered lib w t (d.sub x (scan_start lib w t)),
        update_local_traj_time_freeze-Keeps lib w s,
      )
