-- ===== src/Controller/Limits/Commands.antt =====
-- closed_loop_controller_safe.cpp: the velocity commands that the control timer publishes.
use tron2_navigation_ros.Base.{
  ℕ, ◌≡◌, refl, Bool, true, false, not, ◌&&◌, ◌||◌, List, [], ◌∷◌, inl, inr, arith, sub_ℕ, ℤ,
}
use tron2_navigation_ros.Double.{Double, IsOrdered, IsExact, le, gt, decimal}
use tron2_navigation_ros.Vector.{Library}
use tron2_navigation_ros.Controller.State.{
  Config, Controller, Clock, Output, twist, execution_frozen,
}
use tron2_navigation_ros.Controller.Command.{
  clamp, command_step, publish_execution_frozen, publish_stop, publish_rotation_command,
  publish_limited_command,
}
use tron2_navigation_ros.Controller.Tracking.{
  follow, steer, turn, move_on, drive, update_nearest, is_finished, update_rotating,
  compute_linear_command, compute_angular_command, compute_remaining_arc, compute_yaw_error,
}
use tron2_navigation_ros.Controller.Limits.{
  if_intro, num_left, clamp_range, neg_nonpos, limit_rate-Within,
}

module _ {W : Type 0} ⦃d : Double W⦄ where
  -- The limits of a configuration are numbers of the sign that the constructor means them to have.
  pub record IsProper (c : Config W) : Type 0 where
    pub vyaw : le (decimal 0 0) c.max_vyaw ≡ true
    pub vx : le (decimal 0 0) c.max_vx ≡ true
    pub linear_accel : le (decimal 0 0) c.max_linear_accel ≡ true
    pub angular_accel : le (decimal 0 0) c.max_angular_accel ≡ true
    pub rate : le c.control_rate c.control_rate ≡ true
    pub rate_positive : le c.control_rate (decimal 0 0) ≡ false

  abbrev pub InLimit : W → W → Type 0
  InLimit m x = (le (d.neg m) x ≡ true) × (le x m ≡ true)

  -- Every velocity command of the list is within the limits.
  abbrev pub AllLimited : Config W → List (Output W) → Type 0
  AllLimited c [] = Unit {0}
  AllLimited c (twist x z ∷ os) = InLimit c.max_vx x × InLimit c.max_vyaw z × AllLimited c os
  AllLimited c (execution_frozen b ∷ os) = AllLimited c os

  pub record IsLimited (s : Controller W) : Type 0 where
    pub proper : IsProper s.config
    pub last_linear : InLimit s.max_vx s.last_linear_cmd
    pub last_angular : InLimit s.max_vyaw s.last_angular_cmd
    pub sent : AllLimited s.config s.published

or_left : (a b : Bool) → a || b ≡ false → a ≡ false
or_left true b e = e
or_left false b e = refl

module _ {W : Type 0} ⦃d : Double W⦄ (ordered : IsOrdered W) (exact : IsExact W) where
  neg_le : (m : W) → le (decimal 0 0) m ≡ true → le (d.neg m) m ≡ true
  neg_le m h = ordered.le_trans (d.neg m) (decimal 0 0) m (neg_nonpos ordered exact m h) h

  pub zero-InLimit : (m : W) → le (decimal 0 0) m ≡ true → InLimit m (decimal 0 0)
  zero-InLimit m h = (neg_nonpos ordered exact m h, h)

  pub clamp-InLimit : (m x : W) → le (decimal 0 0) m ≡ true → InLimit m (clamp x (d.neg m) m)
  clamp-InLimit m x h = clamp_range ordered x (d.neg m) m (neg_le m h)

  pub nonneg_of_positive :
      (x : W) → le x x ≡ true → le x (decimal 0 0) ≡ false → le (decimal 0 0) x ≡ true
  nonneg_of_positive x h k =
      elim (ordered.le-total (decimal 0 0) x (num_left ordered _ _ exact.zero_le_one) h) [
        | inl e ↦ e
        | inr e ↦ ground arith
      ]

  product_range :
      (m a b : W)
      → le (decimal 0 0) m ≡ true
      → (le (decimal 0 0) a ≡ true) × (le a (decimal 1 0) ≡ true)
      → (le (decimal 0 0) b ≡ true) × (le b (decimal 1 0) ≡ true)
      → (le (decimal 0 0) (d.mul (d.mul m a) b) ≡ true) × (le (d.mul (d.mul m a) b) m ≡ true)
  product_range m a b h k l =
      let n = exact.mul_nonneg m a h k.0 in
      (
        exact.mul_nonneg (d.mul m a) b n l.0,
        ordered.le_trans _ (d.mul m a) m (exact.mul_le (d.mul m a) b n l.0 l.1)
            (exact.mul_le m a h k.0 k.1),
      )

  pub publish_stop-IsLimited :
      (now : ℕ) (s : Controller W) → IsLimited s → IsLimited (publish_stop now s)
  unfolding publish_stop
  publish_stop-IsLimited now s i =
      let z = zero-InLimit s.max_vx i.proper.vx in
      let a = clamp-InLimit s.max_vyaw (decimal 0 0) i.proper.vyaw in
      record { proper = i.proper; last_linear = z; last_angular = a; sent = (z, a, i.sent) }

  pub frozen-IsLimited :
      (b : Bool) (s : Controller W) → IsLimited s → IsLimited (publish_execution_frozen b s)
  unfolding publish_execution_frozen
  frozen-IsLimited b s i = record {
    proper = i.proper;
    last_linear = i.last_linear;
    last_angular = i.last_angular;
    sent = i.sent;
  }

  module _ (lib : Library W)
      (seconds_number : (t : ℤ) → le (lib.seconds t) (lib.seconds t) ≡ true) where
    command_step-nonneg :
        (now : ℕ) (s : Controller W)
        → IsProper s.config
        → le (decimal 0 0) (command_step lib now s) ≡ true
    unfolding command_step
    command_step-nonneg now s p =
        let dt = lib.seconds (sub_ℕ now s.last_cmd_time) in
        if_intro (λ x. le (decimal 0 0) x ≡ true) (le dt (decimal 0 0) || gt dt (decimal 2 1))
          (d.div (decimal 1 0) s.control_rate) dt
          (λ e.
            exact.div_nonneg (decimal 1 0) s.control_rate exact.zero_le_one p.rate p.rate_positive)
          (λ e.
            nonneg_of_positive dt (seconds_number (sub_ℕ now s.last_cmd_time))
              (or_left (le dt (decimal 0 0)) _ e))

    publish_rotation_command-IsLimited :
        (x : W) (now : ℕ) (s : Controller W)
        → IsLimited s
        → IsLimited (publish_rotation_command lib x now s)
    unfolding publish_rotation_command
    publish_rotation_command-IsLimited x now s i =
        let dt = command_step lib now s in
        let z = zero-InLimit s.max_vx i.proper.vx in
        let a =
          limit_rate-Within ordered exact (clamp x (d.neg s.max_vyaw) s.max_vyaw) s.last_angular_cmd
            s.max_angular_accel dt (d.neg s.max_vyaw) s.max_vyaw
            (clamp-InLimit s.max_vyaw x i.proper.vyaw) i.last_angular
            (exact.mul_nonneg _ _ i.proper.angular_accel (command_step-nonneg now s i.proper)) in
        record { proper = i.proper; last_linear = z; last_angular = a; sent = (z, a, i.sent) }

    publish_limited_command-IsLimited :
        (x z : W) (now : ℕ) (s : Controller W)
        → InLimit s.max_vx x
        → InLimit s.max_vyaw z
        → IsLimited s
        → IsLimited (publish_limited_command lib x z now s)
    unfolding publish_limited_command
    publish_limited_command-IsLimited x z now s h k i =
        let dt = command_step lib now s in
        let step = command_step-nonneg now s i.proper in
        let b =
          limit_rate-Within ordered exact x s.last_linear_cmd s.max_linear_accel dt (d.neg s.max_vx)
            s.max_vx h i.last_linear (exact.mul_nonneg _ _ i.proper.linear_accel step) in
        let a =
          limit_rate-Within ordered exact z s.last_angular_cmd s.max_angular_accel dt
            (d.neg s.max_vyaw) s.max_vyaw k i.last_angular
            (exact.mul_nonneg _ _ i.proper.angular_accel step) in
        record { proper = i.proper; last_linear = b; last_angular = a; sent = (b, a, i.sent) }

    -- Slower than the largest velocity, in either direction.
    compute_linear_command-InLimit :
        (yaw_error : W) (s : Controller W)
        → IsProper s.config
        → InLimit s.max_vx (compute_linear_command lib yaw_error s)
    unfolding compute_linear_command
    compute_linear_command-InLimit yaw_error s p =
        let slowdown =
          clamp (d.div (compute_remaining_arc lib s) s.goal_slowdown_distance) (decimal 15 2)
            (decimal 1 0) in
        let heading = clamp (d.cos yaw_error) (decimal 2 1) (decimal 1 0) in
        let a =
          clamp_range ordered (d.div (compute_remaining_arc lib s) s.goal_slowdown_distance)
            (decimal 15 2) (decimal 1 0) exact.le_one_15 in
        let b = clamp_range ordered (d.cos yaw_error) (decimal 2 1) (decimal 1 0) exact.le_one_2 in
        let speed =
          product_range s.max_vx slowdown heading p.vx
            (ordered.le_trans _ _ slowdown exact.zero_le_15 a.0, a.1)
            (ordered.le_trans _ _ heading exact.zero_le_2 b.0, b.1) in
        let x = d.mul (d.mul s.max_vx slowdown) heading in
        if_intro (InLimit s.max_vx)
          (not s.forward_only && gt (d.abs yaw_error) (d.div d.pi (decimal 2 0))) (d.neg x) x
          (λ e. (
            exact.neg_antitone x s.max_vx speed.1,
            ordered.le_trans (d.neg x) (decimal 0 0) s.max_vx (neg_nonpos ordered exact x speed.0)
                p.vx,
          ))
          (λ e. (
            ordered.le_trans (d.neg s.max_vx) (decimal 0 0) x
                (neg_nonpos ordered exact s.max_vx p.vx) speed.0,
            speed.1,
          ))

    compute_angular_command-InLimit :
        (x y : W) (s : Controller W)
        → IsProper s.config
        → InLimit s.max_vyaw (compute_angular_command lib x y s)
    unfolding compute_angular_command
    compute_angular_command-InLimit x y s p = clamp-InLimit s.max_vyaw _ p.vyaw

    drive-IsLimited :
        (x : W) (clock : Clock) (s : Controller W) → IsLimited s → IsLimited (drive lib x clock s)
    unfolding drive
    drive-IsLimited x clock s i =
        publish_limited_command-IsLimited _ _ clock.now s
          (compute_linear_command-InLimit x s i.proper)
          (compute_angular_command-InLimit x (compute_linear_command lib x s) s i.proper) i

    turn-IsLimited :
        (x : W) (clock : Clock) (s : Controller W) → IsLimited s → IsLimited (turn lib x clock s)
    unfolding turn
    turn-IsLimited x clock s i =
        publish_rotation_command-IsLimited _ clock.now (publish_execution_frozen true s)
          (frozen-IsLimited true s i)

    move_on-IsLimited :
        (x : W) (clock : Clock) (s : Controller W) → IsLimited s → IsLimited (move_on lib x clock s)
    unfolding move_on
    move_on-IsLimited x clock s i =
        let t : Controller W = publish_execution_frozen false s in
        let j = frozen-IsLimited false s i in
        if_intro IsLimited (is_finished lib s) (publish_stop clock.stop_now t) (drive lib x clock t)
          (λ e. publish_stop-IsLimited clock.stop_now t j) (λ e. drive-IsLimited x clock t j)

    pub follow-IsLimited :
        (clock : Clock) (s : Controller W) → IsLimited s → IsLimited (follow lib clock s)
    unfolding follow steer update_nearest
    follow-IsLimited clock s i =
        let t = update_nearest lib s in
        let x = compute_yaw_error lib t in
        let rotating = update_rotating (d.abs x) t.heading_error_threshold t.rotating_in_place in
        let u : Controller W = record t {
          rotating_in_place = rotating;
          last_update_time = clock.now;
        } in
        let j : IsLimited u = record {
          proper = i.proper;
          last_linear = i.last_linear;
          last_angular = i.last_angular;
          sent = i.sent;
        } in
        if_intro IsLimited rotating (turn lib x clock u) (move_on lib x clock u)
          (λ e. turn-IsLimited x clock u j) (λ e. move_on-IsLimited x clock u j)
