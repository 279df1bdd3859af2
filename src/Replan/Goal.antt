-- ===== src/Replan/Goal.antt =====
-- A goal that arrives while the node comes to rest after it gave up the last one.
use tron2_navigation_ros.Base.{
  suc, true, false, ◌≡◌, sym, subst, ap, ◌∙◌, some, pos, ◌≤ℤ◌, if◌then◌else◌, arith,
}
use tron2_navigation_ros.Double.{Double, lt, decimal}
use tron2_navigation_ros.Vector.{Vector3, Library}
use tron2_navigation_ros.Replan.State.{
  emergency_stop, wait_target, goal_running, status, PoseStamped, Fsm, World,
}
use tron2_navigation_ros.Replan.Plan.{
  adjust_global_target_if_occupied, change_fsm_exec_state, publish_goal_status,
  update_local_traj_time_freeze,
}
use tron2_navigation_ros.Replan.Target.{waypoint_goal, rviz_goal_callback}
use tron2_navigation_ros.Replan.Exec.{
  finish_process, exec_emergency_stop, exec_fsm_callback, dispatch,
}
use tron2_navigation_ros.Replan.Entry.{newest}
use tron2_navigation_ros.Replan.Frame.{adjust_global_target_if_occupied-Keeps}

-- At rest in EMERGENCY_STOP, waiting for a new target.
pub record IsResting {W : Type 0} ⦃d : Double W⦄ (lib : Library W) (s : Fsm W) : Type 0 where
  pub stopped : s.exec_state ≡ emergency_stop
  pub sent : s.flag_escape_emergency ≡ false
  pub hovering : s.need_hover_stop ≡ true
  pub fail_safe : s.enable_fail_safe ≡ true
  pub slow : lt (lib.norm s.odom_vel) (decimal 1 1) ≡ true
  pub failures : pos (suc s.replan_fail_count) ≤ℤ s.max_replan_fail_count

-- The target is gone, and the newest message says that it is pursued.
abbrev pub IsLost : {W : Type 0} → Fsm W → Type 0
IsLost s =
    (s.exec_state ≡ wait_target)
    × (s.have_target ≡ false)
    × (s.trigger ≡ false)
    × (newest s.published ≡ some (status goal_running))

module _ {W : Type 0} ⦃d : Double W⦄ (lib : Library W) (w : World W) (s : Fsm W) where
  adjust_velocity : (adjust_global_target_if_occupied lib w s).1.odom_vel ≡ s.odom_vel
  unfolding adjust_global_target_if_occupied
  adjust_velocity = ground arith

  freeze-IsResting : IsResting lib s → IsResting lib (update_local_traj_time_freeze lib w s)
  unfolding update_local_traj_time_freeze
  freeze-IsResting v = ground arith

  freeze_published : (update_local_traj_time_freeze lib w s).published ≡ s.published
  unfolding update_local_traj_time_freeze
  freeze_published = ground arith

  exec_emergency_stop-IsLost :
      IsResting lib s
      → newest s.published ≡ some (status goal_running)
      → IsLost (let r = exec_emergency_stop lib w s in if r.0 then r.1 else finish_process r.1)
  unfolding exec_emergency_stop finish_process change_fsm_exec_state
  exec_emergency_stop-IsLost v run = ground arith

module _ {W : Type 0} ⦃d : Double W⦄ (lib : Library W) (w : World W) (s : Fsm W) where
  waypoint_goal-IsResting :
      (p : Vector3 W) → IsResting lib s → IsResting lib (waypoint_goal lib w p s)
  unfolding waypoint_goal change_fsm_exec_state publish_goal_status
  waypoint_goal-IsResting p v =
      grind (arith, adjust_global_target_if_occupied-Keeps lib w, adjust_velocity lib w)

module _ {W : Type 0} ⦃d : Double W⦄ (lib : Library W) (w : World W) (s : Fsm W) where
  rviz_goal_callback-IsResting :
      (msg : PoseStamped W) → IsResting lib s → IsResting lib (rviz_goal_callback lib w msg s)
  unfolding rviz_goal_callback
  rviz_goal_callback-IsResting msg v = grind (arith, waypoint_goal-IsResting lib w s)

  tick-IsLost :
      IsResting lib s
      → newest s.published ≡ some (status goal_running)
      → IsLost (exec_fsm_callback lib w s)
  unfolding exec_fsm_callback
  tick-IsLost v run =
      let t = update_local_traj_time_freeze lib w s in
      let rest = freeze-IsResting lib w s v in
      subst (λ x. IsLost (let r = dispatch lib x w t in if r.0 then r.1 else finish_process r.1))
        (sym rest.stopped)
        (exec_emergency_stop-IsLost lib w t rest (ap newest (freeze_published lib w s) ∙ run))

module _ {W : Type 0} ⦃d : Double W⦄ (lib : Library W) (w : World W) (s : Fsm W) where
  -- A goal of RViz that is accepted (GOAL_RUNNING is the newest message) while the node is at rest in
  -- EMERGENCY_STOP after it gave up the last goal is dropped by the next tick, which reports nothing:
  -- the node waits in WAIT_TARGET with no target, and the newest message still says GOAL_RUNNING.
  pub tick-rviz_goal_callback :
      (w' : World W) (msg : PoseStamped W)
      → IsResting lib s
      → let t = rviz_goal_callback lib w msg s in
        newest t.published ≡ some (status goal_running) → IsLost (exec_fsm_callback lib w' t)
  tick-rviz_goal_callback w' msg v run =
      tick-IsLost lib w' (rviz_goal_callback lib w msg s)
        (rviz_goal_callback-IsResting lib w s msg v) run
