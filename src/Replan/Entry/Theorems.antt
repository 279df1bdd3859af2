-- ===== src/Replan/Entry/Theorems.antt =====
-- Who enters EXEC_TRAJ and EMERGENCY_STOP, and what follows.
use tron2_navigation_ros.Base.{ℕ, true, false, ◌≡◌, refl, ◌≢◌, ◌⊎◌, inl, arith}
use tron2_navigation_ros.Double.{Double}
use tron2_navigation_ros.Vector.{Library}
use tron2_navigation_ros.Replan.State.{gen_new_traj, replan_traj, exec_traj, Fsm, World}
use tron2_navigation_ros.Replan.Safety.{check_collision_callback}
use tron2_navigation_ros.Replan.Frame.{update_local_traj_time_freeze-Keeps}
use tron2_navigation_ros.Replan.Events.{
  Event, exec_tick, safety_tick, odometry, frozen, cancel, preempt, rviz_goal, path, handle,
}
use tron2_navigation_ros.Replan.Entry.{IsPublished, exec_fsm_callback-Entered}
use tron2_navigation_ros.Replan.Entry.Messages.{
  stop_current_navigation-IsOut, path_callback-IsOut, rviz_goal_callback-IsOut,
  odometry_callback-IsOut,
}

module _ {W : Type 0} ⦃d : Double W⦄ (lib : Library W) (w : World W) (s : Fsm W) where
  check_collision_callback_out :
      (fuel : ℕ)
      → s.exec_state ≢ exec_traj
      → (check_collision_callback lib fuel w s).exec_state ≢ exec_traj
  unfolding check_collision_callback
  check_collision_callback_out fuel out = grind (arith, update_local_traj_time_freeze-Keeps lib w)

  -- A callback after which the node is in EXEC_TRAJ and before which it was not is the tick, in
  -- GEN_NEW_TRAJ or REPLAN_TRAJ; the newest message is then the local trajectory that is executed, and
  -- no failures are counted.
  pub handle_enters_exec_traj :
      (e : Event W)
      → s.exec_state ≢ exec_traj
      → (handle lib w e s).exec_state ≡ exec_traj
      → (e ≡ exec_tick)
        × ((s.exec_state ≡ gen_new_traj) ⊎ (s.exec_state ≡ replan_traj))
        × IsPublished (handle lib w e s)
        × ((handle lib w e s).replan_fail_count ≡ 0)
  unfolding handle
  handle_enters_exec_traj exec_tick out h =
      let (from, sent, fresh) = exec_fsm_callback-Entered lib w s out h in (refl, from, sent, fresh)
  handle_enters_exec_traj (safety_tick fuel) out h =
      absurd (check_collision_callback_out fuel out h)
  handle_enters_exec_traj (odometry msg) out h =
      absurd (odometry_callback-IsOut lib w _ (inl refl) s out msg h)
  handle_enters_exec_traj (frozen b) out h = absurd (out h)
  handle_enters_exec_traj cancel out h =
      absurd (stop_current_navigation-IsOut _ (inl refl) w _ true s h)
  handle_enters_exec_traj preempt out h =
      absurd (stop_current_navigation-IsOut _ (inl refl) w _ false s h)
  handle_enters_exec_traj (rviz_goal msg) out h =
      absurd (rviz_goal_callback-IsOut lib w _ (inl refl) s out msg h)
  handle_enters_exec_traj (path msg) out h =
      absurd (path_callback-IsOut lib w _ (inl refl) s out msg h)
