-- ===== src/Replan/Events.antt =====
-- scan_replan_fsm.cpp: the initial state, the subscriptions' callbacks, and runs of the node.
use tron2_navigation_ros.Base.{
  ℕ, Bool, true, false, not, ◌&&◌, none, some, List, [], ◌∷◌, if◌then◌else◌,
}
use tron2_navigation_ros.Double.{Double, decimal}
use tron2_navigation_ros.Vector.{Library}
use tron2_navigation_ros.Replan.State.{init, PoseStamped, PathMsg, Odometry, Config, Fsm, World}
use tron2_navigation_ros.Replan.Plan.{is_preset_target, is_manual_target, stop_current_navigation}
use tron2_navigation_ros.Replan.Target.{plan_global_traj_by_given_wps, rviz_goal_callback}
use tron2_navigation_ros.Replan.Path.{path_callback}
use tron2_navigation_ros.Replan.Exec.{exec_fsm_callback}
use tron2_navigation_ros.Replan.Safety.{check_collision_callback}

-- A timer that fires, the safety timer's with the fuel of its loop, or a message.
pub data Event (W : Type 0) : Type 0 where
  exec_tick : Event W
  safety_tick : ℕ → Event W
  odometry : Odometry W → Event W
  frozen : Bool → Event W
  cancel : Event W
  preempt : Event W
  rviz_goal : PoseStamped W → Event W
  path : PathMsg W → Event W

module _ {W : Type 0} ⦃d : Double W⦄ (lib : Library W) where
  -- The members that the class and `init` set; `raw` holds the others, which nothing initialises.
  unfoldable pub init_fsm : ℕ → Config W → Fsm W → Fsm W
  init_fsm now config raw = record raw {
    config = config;
    trigger = false;
    have_target = false;
    have_odom = false;
    have_new_target = false;
    preset_started = false;
    rviz_height_ready = false;
    rviz_goal_height = decimal 0 0;
    go2_execution_frozen = false;
    need_hover_stop = false;
    flag_escape_emergency = true;
    exec_state = init;
    continuously_called_times = 0;
    replan_fail_count = 0;
    last_freeze_update_time = now;
    last_replan_attempt_time = 0;
    active_waypoints = [];
    current_wp = 0;
    reference_path_points = [];
    reference_path_arc_lengths = [];
    reference_progress_s = decimal 0 0;
    pending_reference_path = none;
    published = [];
  }

  unfoldable pub record_odometry : Odometry W → Fsm W → Fsm W
  record_odometry msg s =
      let set_height = is_manual_target s.navi_mode && not s.rviz_height_ready in
      record s {
        odom_pos = msg.position;
        odom_vel = msg.linear;
        odom_orient = msg.orientation;
        rviz_goal_height = if set_height then msg.position.z else s.rviz_goal_height;
        rviz_height_ready = if set_height then true else s.rviz_height_ready;
        have_odom = true;
      }

  -- The cached path, if this is the first odometry message.
  unfoldable pub process_pending : World W → Bool → Fsm W → Fsm W
  process_pending w true s = elim s.pending_reference_path [
    | none ↦ s
    | some msg ↦ path_callback lib w msg (record s { pending_reference_path = none })
  ]
  process_pending w false s = s

  unfoldable pub start_preset : World W → Fsm W → Fsm W
  start_preset w s =
      if is_preset_target s.navi_mode && not s.preset_started
      then plan_global_traj_by_given_wps lib w (record s { preset_started = true })
      else s

  unfoldable pub odometry_callback : World W → Odometry W → Fsm W → Fsm W
  odometry_callback w msg s =
      start_preset w (process_pending w (not s.have_odom) (record_odometry msg s))

  unfoldable pub go2_execution_frozen_callback : Bool → Fsm W → Fsm W
  go2_execution_frozen_callback flag s = record s { go2_execution_frozen = flag }

  -- The node runs one callback at a time.
  unfoldable pub handle : World W → Event W → Fsm W → Fsm W
  unfolding go2_execution_frozen_callback
  handle w exec_tick s = exec_fsm_callback lib w s
  handle w (safety_tick fuel) s = check_collision_callback lib fuel w s
  handle w (odometry msg) s = odometry_callback w msg s
  handle w (frozen b) s = go2_execution_frozen_callback b s
  handle w cancel s = stop_current_navigation w (decimal 0 0) true s
  handle w preempt s = stop_current_navigation w (decimal 0 0) false s
  handle w (rviz_goal msg) s = rviz_goal_callback lib w msg s
  handle w (path msg) s = path_callback lib w msg s

  unfoldable pub run : List (World W × Event W) → Fsm W → Fsm W
  unfolding handle
  run [] s = s
  run ((w, e) ∷ es) s = run es (handle w e s)
