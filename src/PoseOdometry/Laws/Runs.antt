-- ===== src/PoseOdometry/Laws/Runs.antt =====
-- pose_stamped_to_odometry.cpp: any sequence of poses.
use tron2_navigation_ros.Base.{
  ◌≡◌, refl, sym, subst, true, Option, none, some, List, [], ◌∷◌, ℤ, if◌then◌else◌, All, none_left,
}
use tron2_navigation_ros.Double.{Double, IsOrdered, IsExact, lt, le, decimal}
use tron2_navigation_ros.Vector.{Library}
use tron2_navigation_ros.PoseOdometry.State.{Pose, PoseMsg, Parameters, Node, std_clamp, construct}
use tron2_navigation_ros.PoseOdometry.Callback.{accept_pose, is_rejected, pose_callback, run}
use tron2_navigation_ros.PoseOdometry.Laws.Velocity.{
  if_intro, Within, IsPublished, IsExactBelow, IsSlow, IsSteady, reset-IsSlow,
  estimate_velocity-IsSlow, messages-IsPublished,
}

module _ {W : Type 0} ⦃d : Double W⦄ (m alpha : W) (nonneg : le (decimal 0 0) alpha ≡ true)
    (weight : le (decimal 0 0) (d.sub (decimal 1 0) alpha) ≡ true) (exact : IsExactBelow m alpha)
    (zero_within : Within m (decimal 0 0)) where
  module _ (rclcpp : Library W) where
    accept_pose-IsSteady :
        (s : Node W) (now : ℤ) (msg : PoseMsg W)
        → IsSteady m alpha nonneg weight exact zero_within s
        → All (IsPublished m s.parameters) s.published
        → IsSteady m alpha nonneg weight exact zero_within (accept_pose rclcpp s now msg)
          × All (IsPublished m s.parameters) (accept_pose rclcpp s now msg).published
    unfolding accept_pose
    accept_pose-IsSteady s now msg h g =
        let v = estimate_velocity-IsSlow m alpha nonneg weight exact zero_within rclcpp s _ _ _ h in
        (
          record { same_alpha = h.same_alpha; same_max = h.same_max; is_slow = v },
          messages-IsPublished m alpha nonneg weight exact zero_within rclcpp s _ _ _ s.published v
              g,
        )

    accept_pose-parameters :
        (s : Node W) (now : ℤ) (msg : PoseMsg W)
        → (accept_pose rclcpp s now msg).parameters ≡ s.parameters
    unfolding accept_pose
    accept_pose-parameters s now msg = refl

    pose_callback-IsSteady :
        (s : Node W) (now : ℤ) (msg : Option (PoseMsg W))
        → IsSteady m alpha nonneg weight exact zero_within s
        → All (IsPublished m s.parameters) s.published
        → IsSteady m alpha nonneg weight exact zero_within (pose_callback rclcpp s now msg)
          × ((pose_callback rclcpp s now msg).parameters ≡ s.parameters)
          × All (IsPublished m s.parameters) (pose_callback rclcpp s now msg).published
    unfolding pose_callback
    pose_callback-IsSteady s now none h g = (h, refl, g)
    pose_callback-IsSteady s now (some msg) h g =
        let a = accept_pose-IsSteady s now msg h g in
        let P = λ (r : Node W).
          IsSteady m alpha nonneg weight exact zero_within r
          × (r.parameters ≡ s.parameters)
          × All (IsPublished m s.parameters) r.published in
        if_intro P (is_rejected rclcpp s msg) s (accept_pose rclcpp s now msg) (λ e. (h, refl, g))
          (λ e. (a.0, accept_pose-parameters s now msg, a.1))

    run-IsSteady :
        (s : Node W) (es : List (ℤ × Option (PoseMsg W)))
        → IsSteady m alpha nonneg weight exact zero_within s
        → All (IsPublished m s.parameters) s.published
        → IsSlow m alpha nonneg weight exact zero_within (run rclcpp s es).velocity
          × All (IsPublished m s.parameters) (run rclcpp s es).published
    unfolding run
    run-IsSteady s [] h g = (h.is_slow, g)
    run-IsSteady s (e ∷ es) h g =
        let c = pose_callback-IsSteady s e.0 e.1 h g in
        let q = pose_callback rclcpp s e.0 e.1 in
        let r =
          run-IsSteady q es c.0 (subst (λ p. All (IsPublished m p) q.published) (sym c.1) c.2) in
        (r.0, subst (λ p. All (IsPublished m p) (run rclcpp q es).published) c.1 r.1)

module _ {W : Type 0} ⦃d : Double W⦄ (ordered : IsOrdered W) (exact : IsExact W) where
  zero_num : d.le (d.decimal 0 0) (d.decimal 0 0) ≡ true
  zero_num = (ordered.refl_of_le _ _ exact.zero_le_one).0

  one_num : d.le (d.decimal 1 0) (d.decimal 1 0) ≡ true
  one_num = (ordered.refl_of_le _ _ exact.zero_le_one).1

  -- No motion is within a bound that is not negative.
  zero-Within : (m : W) → le (decimal 0 0) m ≡ true → Within m (decimal 0 0)
  zero-Within m h =
      (subst (λ x. le (d.neg m) x ≡ true) exact.neg_zero (exact.neg_antitone (decimal 0 0) m h), h)

  -- A number is clamped to a weight.
  std_clamp-range :
      (v : W)
      → le v v ≡ true
      → (le (decimal 0 0) (std_clamp v (decimal 0 0) (decimal 1 0)) ≡ true)
        × (le (std_clamp v (decimal 0 0) (decimal 1 0)) (decimal 1 0) ≡ true)
  unfolding std_clamp
  std_clamp-range v h =
      let P = λ (x : W). (le (decimal 0 0) x ≡ true) × (le x (decimal 1 0) ≡ true) in
      if_intro P (lt v (decimal 0 0)) (decimal 0 0) (if lt (decimal 1 0) v then decimal 1 0 else v)
        (λ e. (zero_num, exact.zero_le_one))
        (λ e.
          if_intro P (lt (decimal 1 0) v) (decimal 1 0) v (λ g. (exact.zero_le_one, one_num))
            (λ g. (
              ordered.le-of_not_lt v (decimal 0 0) h zero_num e,
              ordered.le-of_not_lt (decimal 1 0) v one_num h g,
            )))

  -- After any poses, where the arithmetic is exact, the filter's parameter is a number and
  -- max_linear_speed is not negative: the velocity is
  -- in each direction at most max_linear_speed, and so is that of every odometry message published so
  -- far; each has the frames of the parameters without a leading '/', and a transform is sent only if
  -- broadcast_sensor_tf is set.
  pub run-construct-IsPublished :
      (rclcpp : Library W) (declared : Parameters W) (unset : Pose W)
      (es : List (ℤ × Option (PoseMsg W)))
      → le declared.velocity_filter_alpha declared.velocity_filter_alpha ≡ true
      → le (decimal 0 0) declared.max_linear_speed ≡ true
      → IsExactBelow declared.max_linear_speed
          (std_clamp declared.velocity_filter_alpha (decimal 0 0) (decimal 1 0))
      → let s = construct declared unset in
        let r = run rclcpp s es in
        Within declared.max_linear_speed r.velocity.filtered_vx
        × Within declared.max_linear_speed r.velocity.filtered_vy
        × Within declared.max_linear_speed r.velocity.filtered_vz
        × All (IsPublished declared.max_linear_speed s.parameters) r.published
  unfolding construct
  run-construct-IsPublished rclcpp declared unset es h positive e =
      let m = declared.max_linear_speed in
      let a = std_clamp declared.velocity_filter_alpha (decimal 0 0) (decimal 1 0) in
      let c = std_clamp-range declared.velocity_filter_alpha h in
      let z = zero-Within m positive in
      let w = exact.sub_nonneg (decimal 1 0) a c.1 in
      let s = construct declared unset in
      let r =
        run-IsSteady m a c.0 w e z rclcpp s es
          (record { same_alpha = refl; same_max = refl; is_slow = reset-IsSlow m a c.0 w e z })
          none_left in
      (r.0.0, r.0.1, r.0.2, r.1)
