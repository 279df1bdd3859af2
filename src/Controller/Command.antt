-- ===== src/Controller/Command.antt =====
-- closed_loop_controller_safe.cpp: the limits of a command, and the functions that publish one.
use tron2_navigation_ros.Base.{ℕ, zero, suc, Bool, ◌||◌, ◌∷◌, sub_ℕ, if◌then◌else◌}
use tron2_navigation_ros.Double.{Double, lt, le, gt, decimal, std_max, std_min}
use tron2_navigation_ros.Vector.{Library, Quaternion}
use tron2_navigation_ros.Controller.State.{Controller, twist, execution_frozen}

module _ {W : Type 0} ⦃d : Double W⦄ where
  open d use {add, sub, mul, div, neg}

  -- The two loops of normalizeAngle; each makes at most one round for a difference of two angles of
  -- `atan2`, so the fuel 2 of its caller is enough.
  reduce_above : ℕ → W → W
  reduce_above zero angle = angle
  reduce_above (suc n) angle =
      let rest = reduce_above n (sub angle (mul (decimal 2 0) d.pi)) in
      if gt angle d.pi then rest else angle

  reduce_below : ℕ → W → W
  reduce_below zero angle = angle
  reduce_below (suc n) angle =
      let rest = reduce_below n (add angle (mul (decimal 2 0) d.pi)) in
      if lt angle (neg d.pi) then rest else angle

  unfoldable pub normalize_angle : W → W
  unfolding reduce_above reduce_below
  normalize_angle angle = reduce_below 2 (reduce_above 2 angle)

  unfoldable pub clamp : W → W → W → W
  clamp value minimum maximum = std_max minimum (std_min maximum value)

  unfoldable pub quaternion_yaw : Quaternion W → W
  quaternion_yaw q =
      let two : W = decimal 2 0 in
      let sin_yaw = mul two (add (mul q.w q.z) (mul q.x q.y)) in
      let cos_yaw = sub (decimal 1 0) (mul two (add (mul q.y q.y) (mul q.z q.z))) in
      d.atan2 sin_yaw cos_yaw

  unfoldable pub limit_rate : W → W → W → W → W
  limit_rate target previous max_rate dt =
      let max_delta = mul max_rate dt in
      if le dt (decimal 0 0)
      then previous
      else add previous (clamp (sub target previous) (neg max_delta) max_delta)

  unfoldable pub publish_execution_frozen : Bool → Controller W → Controller W
  publish_execution_frozen b s = record s { published = execution_frozen b ∷ s.published }

  -- publishStop with its default argument.
  unfoldable pub publish_stop : ℕ → Controller W → Controller W
  publish_stop now s =
      let angular = clamp (decimal 0 0) (neg s.max_vyaw) s.max_vyaw in
      record s {
        published = twist (decimal 0 0) angular ∷ s.published;
        last_linear_cmd = decimal 0 0;
        last_angular_cmd = angular;
        last_cmd_time = now;
      }

module _ {W : Type 0} ⦃d : Double W⦄ (lib : Library W) where
  -- The time since the last command, or a period if that is no plausible step.
  unfoldable pub command_step : ℕ → Controller W → W
  command_step current_time s =
      let dt = lib.seconds (sub_ℕ current_time s.last_cmd_time) in
      if le dt (decimal 0 0) || gt dt (decimal 2 1) then d.div (decimal 1 0) s.control_rate else dt

  unfoldable pub publish_rotation_command : W → ℕ → Controller W → Controller W
  publish_rotation_command angular current_time s =
      let dt = command_step current_time s in
      let z =
        limit_rate (clamp angular (d.neg s.max_vyaw) s.max_vyaw) s.last_angular_cmd
          s.max_angular_accel dt in
      record s {
        published = twist (decimal 0 0) z ∷ s.published;
        last_linear_cmd = decimal 0 0;
        last_angular_cmd = z;
        last_cmd_time = current_time;
      }

  unfoldable pub publish_limited_command : W → W → ℕ → Controller W → Controller W
  publish_limited_command linear angular current_time s =
      let dt = command_step current_time s in
      let x = limit_rate linear s.last_linear_cmd s.max_linear_accel dt in
      let z = limit_rate angular s.last_angular_cmd s.max_angular_accel dt in
      record s {
        published = twist x z ∷ s.published;
        last_linear_cmd = x;
        last_angular_cmd = z;
        last_cmd_time = current_time;
      }
