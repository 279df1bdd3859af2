-- ===== src/Replan/Entry.antt =====
-- How SCANReplanFSM comes to execute a trajectory, and to stop in an emergency.
pub mod Messages
pub mod Theorems
use tron2_navigation_ros.Base.{
  ℕ, Bool, true, false, not, if◌then◌else◌, ◌≡◌, refl, sym, subst, ◌∙◌, ◌≢◌, ◌⊎◌, inl, inr, List,
  [], ◌∷◌, ◌++◌, pos, ◌≤ℤ◌, arith, Option-cases, Option, some, none,
}
use tron2_navigation_ros.Double.{Double}
use tron2_navigation_ros.Vector.{Vector3, Library}
use tron2_navigation_ros.Replan.State.{
  ExecState, init, wait_target, gen_new_traj, replan_traj, exec_traj, emergency_stop, goal_failed,
  Output, status, bspline, Fsm, World, PathMsg, PoseStamped, Odometry,
}
use tron2_navigation_ros.Replan.Plan.{
  change_fsm_exec_state, publish_goal_status, call_emergency_stop, stop_current_navigation,
  update_local_traj_time_freeze,
}
use tron2_navigation_ros.Replan.Target.{
  call_rebound_replan, plan_from_current_traj, drop_retreat, set_replan_start, refresh_global_traj,
}
use tron2_navigation_ros.Replan.Exec.{
  finish_process, exec_init, exec_wait_target, exec_gen_new_traj, exec_replan_traj,
  exec_reference_path, advance_waypoint, exec_trajectory_end, exec_under_way, exec_exec_traj,
  exec_emergency_stop, dispatch, exec_fsm_callback,
}
use tron2_navigation_ros.Replan.Frame.{
  Keeps, update_local_traj_time_freeze-Keeps, set_start_state-Keeps, call_rebound_replan-Keeps,
  plan_from_current_traj-Keeps, plan_next_waypoint-Keeps,
}

abbrev pub newest : {W : Type 0} → List (Output W) → Option (Output W)
newest [] = none
newest (o ∷ _) = some o

-- The newest output is the local trajectory.
abbrev pub IsPublished : {W : Type 0} → Fsm W → Type 0
IsPublished s = newest s.published ≡ some (bspline s.local_data)

-- A callback that enters EXEC_TRAJ has published the trajectory and forgotten the failures.
abbrev Entered : {W : Type 0} → Fsm W → Type 0
Entered s = s.exec_state ≡ exec_traj → IsPublished s × (s.replan_fail_count ≡ 0)

module _ {W : Type 0} ⦃d : Double W⦄ (lib : Library W) (w : World W) (s : Fsm W) where
  call_rebound_replan-IsPublished :
      (p r : Bool)
      → (call_rebound_replan lib w p r s).0 ≡ true
      → IsPublished (call_rebound_replan lib w p r s).1
  unfolding call_rebound_replan
  call_rebound_replan-IsPublished p r e = ground arith

module _ {W : Type 0} ⦃d : Double W⦄ (lib : Library W) (w : World W) (s : Fsm W) where
  pub plan_from_current_traj-IsPublished :
      (plan_from_current_traj lib w s).0 ≡ true → IsPublished (plan_from_current_traj lib w s).1
  unfolding plan_from_current_traj
  plan_from_current_traj-IsPublished e =
      attempts (refresh_global_traj lib w (drop_retreat lib (set_replan_start lib w s)))
        (call_rebound_replan lib w true false t) (call_rebound_replan lib w true true u)
        (call_rebound_replan-IsPublished lib w t true false)
        (call_rebound_replan-IsPublished lib w u true true) e
    where
      t : Fsm W
      t = (refresh_global_traj lib w (drop_retreat lib (set_replan_start lib w s))).1

      u : Fsm W
      u = (call_rebound_replan lib w true false t).1

      attempts :
          (ready first second : Bool × Fsm W)
          → (first.0 ≡ true → IsPublished first.1)
          → (second.0 ≡ true → IsPublished second.1)
          → let r =
              if not ready.0
              then (false, ready.1)
              else if first.0
              then (true, first.1)
              else second in
            r.0 ≡ true → IsPublished r.1
      attempts (false, a) b c p q e = cc
      attempts (true, a) (true, b) c p q e = p refl
      attempts (true, a) (false, b) c p q e = q e

module _ {W : Type 0} ⦃d : Double W⦄ (lib : Library W) (w : World W) (s : Fsm W) where
  exec_gen_new_traj-Entered : s.exec_state ≡ gen_new_traj → Entered (exec_gen_new_traj lib w s).1
  unfolding exec_gen_new_traj change_fsm_exec_state
  exec_gen_new_traj-Entered e = grind (arith, call_rebound_replan-IsPublished lib w)

  exec_replan_traj-Entered : s.exec_state ≡ replan_traj → Entered (exec_replan_traj lib w s).1
  unfolding exec_replan_traj change_fsm_exec_state
  exec_replan_traj-Entered e = ground (
    arith,
    plan_from_current_traj-IsPublished lib w (record s { last_replan_attempt_time = w.body_now }),
  )

  advance_waypoint-leaves : (advance_waypoint lib w s).exec_state ≢ exec_traj
  unfolding advance_waypoint change_fsm_exec_state
  advance_waypoint-leaves e = ground arith

  dispatch-Entered :
      (x : ExecState)
      → s.exec_state ≡ x
      → x ≢ exec_traj
      → (dispatch lib x w s).1.exec_state ≡ exec_traj
      → ((x ≡ gen_new_traj) ⊎ (x ≡ replan_traj))
        × IsPublished (dispatch lib x w s).1
        × ((dispatch lib x w s).1.replan_fail_count ≡ 0)
  unfolding exec_init exec_wait_target exec_emergency_stop change_fsm_exec_state call_emergency_stop
  dispatch-Entered init e n h = ground arith
  dispatch-Entered wait_target e n h = ground arith
  dispatch-Entered gen_new_traj e n h =
      (inl refl, (exec_gen_new_traj-Entered e h).0, (exec_gen_new_traj-Entered e h).1)
  dispatch-Entered replan_traj e n h =
      (inr refl, (exec_replan_traj-Entered e h).0, (exec_replan_traj-Entered e h).1)
  dispatch-Entered exec_traj e n h = absurd (n refl)
  dispatch-Entered emergency_stop e n h = ground arith

module _ {W : Type 0} where
  finish_keeps : (s : Fsm W) → (finish_process s).exec_state ≡ exec_traj → finish_process s ≡ s
  unfolding finish_process change_fsm_exec_state
  finish_keeps s h = ground arith

  tick_keeps :
      (r : Bool × Fsm W)
      → (if r.0 then r.1 else finish_process r.1).exec_state ≡ exec_traj
      → (if r.0 then r.1 else finish_process r.1) ≡ r.1
  tick_keeps (true, t) h = refl
  tick_keeps (false, t) h = finish_keeps t h

module _ {W : Type 0} ⦃d : Double W⦄ (lib : Library W) (w : World W) (s : Fsm W) where
  pub exec_fsm_callback-Entered :
      s.exec_state ≢ exec_traj
      → (exec_fsm_callback lib w s).exec_state ≡ exec_traj
      → ((s.exec_state ≡ gen_new_traj) ⊎ (s.exec_state ≡ replan_traj))
        × IsPublished (exec_fsm_callback lib w s)
        × ((exec_fsm_callback lib w s).replan_fail_count ≡ 0)
  unfolding exec_fsm_callback
  exec_fsm_callback-Entered n h =
      let t = update_local_traj_time_freeze lib w s in
      let k = update_local_traj_time_freeze-Keeps lib w s in
      let r = dispatch lib t.exec_state w t in
      let same = tick_keeps r h in
      let entered =
        dispatch-Entered lib w t t.exec_state refl (λ e. n (sym k.exec_state ∙ e)) (rw same at h) in
      (
        subst (λ x. (x ≡ gen_new_traj) ⊎ (x ≡ replan_traj)) k.exec_state entered.0,
        rw same entered.1,
        rw same entered.2,
      )
