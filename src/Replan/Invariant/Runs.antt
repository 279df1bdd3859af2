-- ===== src/Replan/Invariant/Runs.antt =====
-- The invariant along a run of the node.
use tron2_navigation_ros.Base.{ℕ, true, false, List, [], ◌∷◌, arith}
use tron2_navigation_ros.Double.{Double}
use tron2_navigation_ros.Vector.{Library}
use tron2_navigation_ros.Replan.State.{Fsm, World, Config}
use tron2_navigation_ros.Replan.Events.{
  Event, exec_tick, safety_tick, odometry, frozen, cancel, preempt, rviz_goal, path, init_fsm,
  handle, run,
}
use tron2_navigation_ros.Replan.Invariant.{Inv, stop_current_navigation-Inv}
use tron2_navigation_ros.Replan.Invariant.Tick.{exec_fsm_callback-Inv}
use tron2_navigation_ros.Replan.Invariant.Messages.{
  check_collision_callback-Inv, odometry_callback-Inv, rviz_goal_callback-Inv, path_callback-Inv,
}

module _ {W : Type 0} ⦃d : Double W⦄ (lib : Library W) (w : World W) (s : Fsm W) where
  -- Every callback keeps the invariant, whatever the planner, the map and the clock answer.
  pub handle-Inv : (e : Event W) → Inv s → Inv (handle lib w e s)
  unfolding handle
  handle-Inv exec_tick v = exec_fsm_callback-Inv lib w s v
  handle-Inv (safety_tick fuel) v = check_collision_callback-Inv lib w s fuel v
  handle-Inv (odometry msg) v = odometry_callback-Inv lib w s msg v
  handle-Inv (frozen b) v = ground arith
  handle-Inv cancel v = stop_current_navigation-Inv w _ true s
  handle-Inv preempt v = stop_current_navigation-Inv w _ false s
  handle-Inv (rviz_goal msg) v = rviz_goal_callback-Inv lib w s msg v
  handle-Inv (path msg) v = path_callback-Inv lib w s msg v

module _ {W : Type 0} ⦃d : Double W⦄ (lib : Library W) where
  pub run-Inv : (es : List (World W × Event W)) (s : Fsm W) → Inv s → Inv (run lib es s)
  unfolding run
  run-Inv [] s v = v
  run-Inv ((w, e) ∷ es) s v = run-Inv es (handle lib w e s) (handle-Inv lib w s e v)

  init_fsm-Inv : (now : ℕ) (config : Config W) (raw : Fsm W) → Inv (init_fsm lib now config raw)
  unfolding init_fsm
  init_fsm-Inv now config raw = ground arith

  -- After any sequence of callbacks from the initial state, whatever the planner, the map and the
  -- clock answer: while a trajectory is executed or replanned the emergency stop is armed
  -- (`flag_escape_emergency_` is set), no failures are counted while one is executed, the waypoint
  -- index is inside the active waypoints (or both are empty), and the count of failures is below its
  -- limit or at most 1.
  pub run-init_fsm-Inv :
      (now : ℕ) (config : Config W) (raw : Fsm W) (es : List (World W × Event W))
      → Inv (run lib es (init_fsm lib now config raw))
  run-init_fsm-Inv now config raw es = run-Inv es _ (init_fsm-Inv now config raw)
