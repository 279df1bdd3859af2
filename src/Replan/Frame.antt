-- ===== src/Replan/Frame.antt =====
-- The control state that the planning helpers of SCANReplanFSM leave alone.
use tron2_navigation_ros.Base.{Bool, true, false, not, if◌then◌else◌, ◌≡◌, List, [], ◌∷◌, arith}
use tron2_navigation_ros.Double.{Double}
use tron2_navigation_ros.Vector.{Vector3, Library}
use tron2_navigation_ros.Replan.State.{Fsm, World}
use tron2_navigation_ros.Replan.Plan.{
  adjust_global_target_if_occupied, update_local_traj_time_freeze,
}
use tron2_navigation_ros.Replan.Target.{
  drop_retreat, set_start_state_from_odom_or_current_traj, plan_next_waypoint,
  plan_global_traj_by_waypoints, call_rebound_replan, plan_from_current_traj, set_replan_start,
  refresh_global_traj,
}

-- `t` differs from `s` in planning data, `have_target`, `have_new_target` and outputs at most.
pub record Keeps {W : Type 0} (s t : Fsm W) : Type 0 where
  pub config : t.config ≡ s.config
  pub exec_state : t.exec_state ≡ s.exec_state
  pub continuously_called_times : t.continuously_called_times ≡ s.continuously_called_times
  pub flag_escape_emergency : t.flag_escape_emergency ≡ s.flag_escape_emergency
  pub need_hover_stop : t.need_hover_stop ≡ s.need_hover_stop
  pub replan_fail_count : t.replan_fail_count ≡ s.replan_fail_count
  pub active_waypoints : t.active_waypoints ≡ s.active_waypoints
  pub current_wp : t.current_wp ≡ s.current_wp
  pub trigger : t.trigger ≡ s.trigger
  pub have_odom : t.have_odom ≡ s.have_odom
  pub preset_started : t.preset_started ≡ s.preset_started
  pub pending_reference_path : t.pending_reference_path ≡ s.pending_reference_path
  pub odom_pos : t.odom_pos ≡ s.odom_pos

module _ {W : Type 0} ⦃d : Double W⦄ (lib : Library W) (w : World W) (s : Fsm W) where
  pub update_local_traj_time_freeze-Keeps : Keeps s (update_local_traj_time_freeze lib w s)
  unfolding update_local_traj_time_freeze
  update_local_traj_time_freeze-Keeps = ground arith

  pub adjust_global_target_if_occupied-Keeps : Keeps s (adjust_global_target_if_occupied lib w s).1
  unfolding adjust_global_target_if_occupied
  adjust_global_target_if_occupied-Keeps = ground arith

  pub set_start_state-Keeps : Keeps s (set_start_state_from_odom_or_current_traj lib w s)
  unfolding set_start_state_from_odom_or_current_traj
  set_start_state-Keeps = ground arith

  pub call_rebound_replan-Keeps : (p r : Bool) → Keeps s (call_rebound_replan lib w p r s).1
  unfolding call_rebound_replan
  call_rebound_replan-Keeps p r = ground arith

module _ {W : Type 0} where
  pub Keeps-refl : (s : Fsm W) → Keeps s s
  Keeps-refl s = ground arith

  pub Keeps-trans : {s t u : Fsm W} → Keeps s t → Keeps t u → Keeps s u
  Keeps-trans p q = ground arith

  attempts-Keeps :
      {s : Fsm W} (ready first second : Bool × Fsm W)
      → Keeps s ready.1
      → Keeps s first.1
      → Keeps s second.1
      → Keeps s
          (if not ready.0 then (false, ready.1) else if first.0 then (true, first.1) else second).1
  attempts-Keeps (true, t) (true, u) v p q r = q
  attempts-Keeps (true, t) (false, u) v p q r = r
  attempts-Keeps (false, t) u v p q r = p

module _ {W : Type 0} ⦃d : Double W⦄ (lib : Library W) (w : World W) (s : Fsm W) where
  pub plan_next_waypoint-Keeps : Keeps s (plan_next_waypoint lib w s).1
  unfolding plan_next_waypoint
  plan_next_waypoint-Keeps =
      grind (arith, set_start_state-Keeps lib, adjust_global_target_if_occupied-Keeps lib)

  pub plan_global_traj_by_waypoints-Keeps :
      (ps : List (Vector3 W)) → Keeps s (plan_global_traj_by_waypoints lib w ps s).1
  unfolding plan_global_traj_by_waypoints
  plan_global_traj_by_waypoints-Keeps [] = Keeps-refl s
  plan_global_traj_by_waypoints-Keeps (p ∷ ps) =
      grind (arith, adjust_global_target_if_occupied-Keeps lib)

  set_replan_start-Keeps : Keeps s (set_replan_start lib w s)
  unfolding set_replan_start
  set_replan_start-Keeps = ground arith

  drop_retreat-Keeps : Keeps s (drop_retreat lib s)
  unfolding drop_retreat
  drop_retreat-Keeps = ground arith

  refresh_global_traj-Keeps : Keeps s (refresh_global_traj lib w s).1
  unfolding refresh_global_traj
  refresh_global_traj-Keeps = grind (arith, adjust_global_target_if_occupied-Keeps lib)

module _ {W : Type 0} ⦃d : Double W⦄ (lib : Library W) (w : World W) (s : Fsm W) where
  ready_state : Fsm W
  ready_state = (refresh_global_traj lib w (drop_retreat lib (set_replan_start lib w s))).1

  ready_state-Keeps : Keeps s ready_state
  unfolding ready_state
  ready_state-Keeps =
      let a = set_replan_start lib w s in
      Keeps-trans {t = a} (set_replan_start-Keeps lib w s) (
        Keeps-trans {t = drop_retreat lib a} (drop_retreat-Keeps lib w a)
          (refresh_global_traj-Keeps lib w (drop_retreat lib a)))

  pub plan_from_current_traj-Keeps : Keeps s (plan_from_current_traj lib w s).1
  unfolding plan_from_current_traj ready_state
  plan_from_current_traj-Keeps =
      let t = ready_state in
      let once = call_rebound_replan lib w true false t in
      let first = Keeps-trans ready_state-Keeps (call_rebound_replan-Keeps lib w t true false) in
      attempts-Keeps (refresh_global_traj lib w (drop_retreat lib (set_replan_start lib w s))) once
        (call_rebound_replan lib w true true once.1) ready_state-Keeps first
        (Keeps-trans first (call_rebound_replan-Keeps lib w once.1 true true))
