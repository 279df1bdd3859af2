-- ===== src/PoseOdometry/Laws/Velocity.antt =====
-- pose_stamped_to_odometry.cpp: the range of the velocity, and what is published.
use tron2_navigation_ros.Base.{
  ◌≡◌, refl, sym, subst, Bool, true, false, not, ◌&&◌, List, ℤ, ◌-ℤ◌, if◌then◌else◌, arith, All,
  one_more,
}
use tron2_navigation_ros.Double.{Double, le, gt, decimal}
use tron2_navigation_ros.Vector.{Vector3, Library}
use tron2_navigation_ros.Controller.Command.{normalize_angle}
use tron2_navigation_ros.PoseOdometry.State.{
  Pose, Output, odometry, transform, Parameters, Velocity, Node, reset_velocity,
}
use tron2_navigation_ros.PoseOdometry.Callback.{
  blend, raw_velocity, speed_of, blend_velocity, filter_velocity, estimate_velocity, messages,
}

pub if_intro :
    {A : Type 0} (P : A → Type 0) (b : Bool) (x y : A)
    → (b ≡ true → P x)
    → (b ≡ false → P y)
    → P (if b then x else y)
if_intro P true x y f g = f refl
if_intro P false x y f g = g refl

-- Between -m and m.
abbrev pub Within : {W : Type 0} ⦃d : Double W⦄ → W → W → Type 0
Within ⦃d⦄ m v = (le (d.neg m) v ≡ true) × (le v m ≡ true)

-- A message that the node may publish with the parameters `p`, where `m` bounds the speed.
abbrev pub IsPublished : {W : Type 0} ⦃d : Double W⦄ → W → Parameters W → Output W → Type 0
IsPublished m p (odometry o) =
    (o.frame_id ≡ p.frame_id)
    × (o.child_frame_id ≡ p.child_frame_id)
    × Within m o.linear.x
    × Within m o.linear.y
    × Within m o.linear.z
IsPublished m p (transform t) =
    (p.broadcast_sensor_tf ≡ true)
    × (t.frame_id ≡ p.frame_id)
    × (t.child_frame_id ≡ p.sensor_frame_id)

-- Arithmetic without rounding, where `m` bounds a speed: products and sums keep the order, the two
-- weights of the filter add up to one, and no component of a velocity is more than its length.
pub record IsExactBelow {W : Type 0} ⦃d : Double W⦄ (m alpha : W) : Type 0 where
  pub mul_mono :
      (a x y : W) → le (decimal 0 0) a ≡ true → le x y ≡ true → le (d.mul a x) (d.mul a y) ≡ true
  pub add_mono : (a b x y : W) → le a b ≡ true → le x y ≡ true → le (d.add a x) (d.add b y) ≡ true
  pub upper : d.add (d.mul alpha m) (d.mul (d.sub (decimal 1 0) alpha) m) ≡ m
  pub lower : d.add (d.mul alpha (d.neg m)) (d.mul (d.sub (decimal 1 0) alpha) (d.neg m)) ≡ d.neg m
  pub component :
      (x y z : W)
      → le (d.sqrt (d.add (d.add (d.mul x x) (d.mul y y)) (d.mul z z))) m ≡ true
      → Within m x × Within m y × Within m z

module _ {W : Type 0} ⦃d : Double W⦄ (m alpha : W) (nonneg : le (decimal 0 0) alpha ≡ true)
    (weight : le (decimal 0 0) (d.sub (decimal 1 0) alpha) ≡ true) (exact : IsExactBelow m alpha)
    (zero_within : Within m (decimal 0 0)) where
  open exact use {mul_mono, add_mono, upper, lower, component}

  blend-Within :
      (v filtered : W) → Within m v → Within m filtered → Within m (blend alpha v filtered)
  unfolding blend
  blend-Within v f (a, b) (c, e) =
      let rest = d.sub (decimal 1 0) alpha in
      (
        subst (λ x. le x (d.add (d.mul alpha v) (d.mul rest f)) ≡ true) lower
            (add_mono _ _ _ _ (mul_mono alpha _ _ nonneg a) (mul_mono rest _ _ weight c)),
        subst (λ x. le (d.add (d.mul alpha v) (d.mul rest f)) x ≡ true) upper
            (add_mono _ _ _ _ (mul_mono alpha _ _ nonneg b) (mul_mono rest _ _ weight e)),
      )

  abbrev pub IsSlow : Velocity W → Type 0
  IsSlow v = Within m v.filtered_vx × Within m v.filtered_vy × Within m v.filtered_vz

  pub reset-IsSlow : IsSlow reset_velocity
  unfolding reset_velocity
  reset-IsSlow = (zero_within, zero_within, zero_within)

  second : (a b : Bool) → (a && b) ≡ true → b ≡ true
  second a b h = ground arith

  blend_velocity-IsSlow :
      (v : Vector3 W) (wz : W) (before : Velocity W)
      → le (speed_of v) m ≡ true
      → IsSlow before
      → IsSlow (blend_velocity alpha v wz before)
  unfolding blend_velocity speed_of
  blend_velocity-IsSlow v wz before h g =
      let c = component v.x v.y v.z h in
      (
        blend-Within v.x before.filtered_vx c.0 g.0,
        blend-Within v.y before.filtered_vy c.1 g.1,
        blend-Within v.z before.filtered_vz c.2 g.2,
      )

  -- The node has the two parameters, and its velocity is in the range.
  pub record IsSteady (s : Node W) : Type 0 where
    pub same_alpha : s.velocity_filter_alpha ≡ alpha
    pub same_max : s.max_linear_speed ≡ m
    pub is_slow : IsSlow s.velocity

  filter_velocity-IsSlow :
      (s : Node W) (pose : Pose W) (yaw dt : W)
      → IsSteady s
      → IsSlow (filter_velocity s pose yaw dt)
  unfolding filter_velocity
  filter_velocity-IsSlow s pose yaw dt h =
      let v = raw_velocity s pose dt in
      let wz : W = d.div (normalize_angle (d.sub yaw s.previous_yaw)) dt in
      if_intro IsSlow (d.is_finite (speed_of v) && le (speed_of v) s.max_linear_speed)
        (blend_velocity s.velocity_filter_alpha v wz s.velocity) reset_velocity
        (λ e.
          subst (λ a. IsSlow (blend_velocity a v wz s.velocity)) (sym h.same_alpha)
            (blend_velocity-IsSlow v wz s.velocity
              (subst (λ x. le (speed_of v) x ≡ true) h.same_max (second _ _ e)) h.is_slow))
        (λ e. reset-IsSlow)

  module _ (rclcpp : Library W) where
    pub estimate_velocity-IsSlow :
        (s : Node W) (pose : Pose W) (yaw : W) (t : ℤ)
        → IsSteady s
        → IsSlow (estimate_velocity rclcpp s pose yaw t)
    unfolding estimate_velocity
    estimate_velocity-IsSlow s pose yaw t h =
        let dt = rclcpp.seconds (t -ℤ s.previous_time) in
        if_intro IsSlow (not s.have_previous) s.velocity
          (if gt dt (decimal 1 4) && le dt s.max_pose_gap
            then filter_velocity s pose yaw dt
            else reset_velocity)
          (λ e. h.is_slow)
          (λ e.
            if_intro IsSlow (gt dt (decimal 1 4) && le dt s.max_pose_gap)
              (filter_velocity s pose yaw dt) reset_velocity
              (λ g. filter_velocity-IsSlow s pose yaw dt h) (λ g. reset-IsSlow))

    pub messages-IsPublished :
        (s : Node W) (pose : Pose W) (v : Velocity W) (t : ℤ) (before : List (Output W))
        → IsSlow v
        → All (IsPublished m s.parameters) before
        → All (IsPublished m s.parameters) (messages rclcpp s pose v t before)
    unfolding messages
    messages-IsPublished s pose v t before h g =
        let o = one_more (refl, refl, h.0, h.1, h.2) g in
        if_intro (All (IsPublished m s.parameters)) s.broadcast_sensor_tf _ _
          (λ e. one_more (e, refl, refl) o) (λ e. o)
