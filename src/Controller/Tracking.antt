-- ===== src/Controller/Tracking.antt =====
-- closed_loop_controller_safe.cpp: cmdCallback, the control timer, and the parts of its body.
use tron2_navigation_ros.Base.{
  ℕ, zero, suc, ◌-◌, Bool, true, false, not, ◌&&◌, ◌||◌, List, [], ◌∷◌, length, drop, get_or, back,
  ltb, leb, sub_ℕ, if◌then◌else◌,
}
use tron2_navigation_ros.Double.{Double, lt, gt, decimal}
use tron2_navigation_ros.Vector.{Vector3, Library}
use tron2_navigation_ros.Controller.State.{Controller, Clock}
use tron2_navigation_ros.Controller.Command.{
  normalize_angle, clamp, publish_execution_frozen, publish_stop, publish_rotation_command,
  publish_limited_command,
}

module _ {W : Type 0} ⦃d : Double W⦄ where
  -- The loop that looks for the nearest sample; `i` is the index of the first sample of the list.
  unfoldable pub nearest_loop : (Vector3 W → W) → List (Vector3 W) → ℕ → ℕ → W → ℕ
  nearest_loop distance_sq [] i nearest best = nearest
  nearest_loop distance_sq (sample ∷ samples) i nearest best =
      let closer = lt (distance_sq sample) best in
      nearest_loop distance_sq samples (suc i) (if closer then i else nearest)
        (if closer then distance_sq sample else best)

  -- The loop that advances the lookahead index; the fuel is the number of samples.
  unfoldable pub lookahead_loop : ℕ → List W → W → ℕ → ℕ → ℕ
  lookahead_loop zero arc_lengths target_arc size index = index
  lookahead_loop (suc n) arc_lengths target_arc size index =
      let rest = lookahead_loop n arc_lengths target_arc size (suc index) in
      if ltb (suc index) size && lt (get_or arc_lengths index (decimal 0 0)) target_arc
      then rest
      else index

  -- Whether the robot turns on the spot, with the hysteresis of the threshold.
  unfoldable pub update_rotating : W → W → Bool → Bool
  update_rotating absolute_yaw_error threshold rotating =
      if not rotating && gt absolute_yaw_error threshold
      then true
      else if rotating && lt absolute_yaw_error (d.mul (decimal 5 1) threshold)
      then false
      else rotating

module _ {W : Type 0} ⦃d : Double W⦄ (lib : Library W) where
  open d use {add, sub, mul, div, neg}
  open lib use {vec_sub, norm_xy, squared_norm_xy}

  unfoldable pub update_nearest : Controller W → Controller W
  update_nearest s =
      let begin : ℕ = if ltb 10 s.nearest_sample_index then s.nearest_sample_index - 10 else 0 in
      let nearest : ℕ =
        nearest_loop (λ sample. squared_norm_xy (vec_sub sample s.odom_pos))
          (drop begin s.trajectory_samples) begin s.nearest_sample_index d.max in
      record s {
        nearest_sample_index =
            if ltb s.nearest_sample_index nearest then nearest else s.nearest_sample_index;
      }

  unfoldable pub lookahead_index : Controller W → ℕ
  lookahead_index s =
      let target_arc =
        add (get_or s.trajectory_arc_lengths s.nearest_sample_index (decimal 0 0))
          s.lookahead_distance in
      lookahead_loop (length s.trajectory_samples) s.trajectory_arc_lengths target_arc
        (length s.trajectory_samples) s.nearest_sample_index

  unfoldable pub lookahead_delta : Controller W → Vector3 W
  lookahead_delta s = vec_sub (get_or s.trajectory_samples (lookahead_index s) lib.zero3) s.odom_pos

  unfoldable pub compute_yaw_error : Controller W → W
  compute_yaw_error s =
      let delta = lookahead_delta s in
      let target_yaw =
        if gt (norm_xy delta) (decimal 5 2) then d.atan2 delta.y delta.x else s.odom_yaw in
      normalize_angle (sub target_yaw s.odom_yaw)

  unfoldable pub compute_remaining_arc : Controller W → W
  compute_remaining_arc s =
      sub (back s.trajectory_arc_lengths (decimal 0 0))
        (get_or s.trajectory_arc_lengths s.nearest_sample_index (decimal 0 0))

  unfoldable pub is_finished : Controller W → Bool
  is_finished s =
      lt (norm_xy (vec_sub (back s.trajectory_samples lib.zero3) s.odom_pos)) s.finish_dist
      && (leb (length s.trajectory_samples) (suc s.nearest_sample_index)
          || lt (compute_remaining_arc s) s.finish_dist)

  unfoldable pub compute_linear_command : W → Controller W → W
  compute_linear_command yaw_error s =
      let slowdown =
        clamp (div (compute_remaining_arc s) s.goal_slowdown_distance) (decimal 15 2)
          (decimal 1 0) in
      let linear_command =
        mul (mul s.max_vx slowdown) (clamp (d.cos yaw_error) (decimal 2 1) (decimal 1 0)) in
      if not s.forward_only && gt (d.abs yaw_error) (div d.pi (decimal 2 0))
      then neg linear_command
      else linear_command

  unfoldable pub compute_angular_command : W → W → Controller W → W
  compute_angular_command yaw_error linear_command s =
      let distance = norm_xy (lookahead_delta s) in
      let curvature =
        if gt distance (decimal 5 2)
        then div (mul (decimal 2 0) (d.sin yaw_error)) distance
        else decimal 0 0 in
      clamp (add (mul linear_command curvature) (mul (mul (decimal 25 2) s.kp_yaw) yaw_error))
        (neg s.max_vyaw) s.max_vyaw

  unfoldable pub drive : W → Clock → Controller W → Controller W
  drive yaw_error clock s =
      let linear_command = compute_linear_command yaw_error s in
      publish_limited_command lib linear_command
        (compute_angular_command yaw_error linear_command s) clock.now s

  -- Turning on the spot.
  unfoldable pub turn : W → Clock → Controller W → Controller W
  turn yaw_error clock s =
      publish_rotation_command lib (clamp (mul s.kp_yaw yaw_error) (neg s.max_vyaw) s.max_vyaw)
        clock.now (publish_execution_frozen true s)

  -- Moving on, or stopping at the end of the trajectory.
  unfoldable pub move_on : W → Clock → Controller W → Controller W
  move_on yaw_error clock s =
      if is_finished s
      then publish_stop clock.stop_now (publish_execution_frozen false s)
      else drive yaw_error clock (publish_execution_frozen false s)

  -- What follows the searches, at a given yaw error. Each branch sets the time of the update.
  unfoldable pub steer : W → Clock → Controller W → Controller W
  steer yaw_error clock s =
      let rotating =
        update_rotating (d.abs yaw_error) s.heading_error_threshold s.rotating_in_place in
      let t : Controller W = record s {
        rotating_in_place = rotating;
        last_update_time = clock.now;
      } in
      if rotating then turn yaw_error clock t else move_on yaw_error clock t

  -- From the search for the nearest sample on.
  unfoldable pub follow : Clock → Controller W → Controller W
  follow clock s = let t = update_nearest s in steer (compute_yaw_error t) clock t

  -- An early return: the frozen flag, a stop, and the time of the update.
  unfoldable pub halt : Bool → Clock → Controller W → Controller W
  halt frozen clock s = record (publish_stop clock.stop_now (publish_execution_frozen frozen s)) {
    last_update_time = clock.now;
  }

  unfoldable pub cmd_callback : Clock → Controller W → Controller W
  cmd_callback clock s =
      if s.paused
      then halt true clock s
      else if not s.receive_traj || not s.have_odom || ltb (length s.trajectory_samples) 2
      then halt false clock s
      else if gt (lib.seconds (sub_ℕ clock.now s.last_odom_time)) s.odom_timeout
      then halt true clock s
      else follow clock s
