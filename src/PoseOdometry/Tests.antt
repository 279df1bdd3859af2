-- ===== src/PoseOdometry/Tests.antt =====
-- pose_stamped_to_odometry.cpp: a few poses, and the theorem at them.
use tron2_navigation_ros.Base.{
  ℕ, suc, ◌+◌, ◌*◌, ◌/◌, ◌≤◌, ◌<◌, ◌≡◌, refl, true, Option, none, some, List, [], ◌∷◌, ℤ, pos,
  negsuc, arith, All, Bool-cases, inl, inr, ◌⊎◌, leb, pos_part, neg_part,
}
use tron2_navigation_ros.Exact.{Milli, milli, Milli-IsOrdered, Milli-IsExact, mul_le_left}
use tron2_navigation_ros.Samples.{num, point, library}
use tron2_navigation_ros.PoseOdometry.State.{Pose, PoseMsg, Parameters, construct, std_clamp}
use tron2_navigation_ros.PoseOdometry.Callback.{run}
use tron2_navigation_ros.PoseOdometry.Laws.Velocity.{IsExactBelow, Within, IsPublished}
use tron2_navigation_ros.PoseOdometry.Laws.Runs.{run-construct-IsPublished}

product_mono :
    (a x y : Milli)
    → milli.le (num 0) a ≡ true
    → milli.le x y ≡ true
    → milli.le (milli.mul a x) (milli.mul a y) ≡ true
product_mono (some (pos a)) (some (pos x)) (some (pos y)) h g =
    let m = mul_le_left a x y (ground arith) in ground arith
product_mono (some (pos a)) (some (negsuc x)) (some (pos y)) h g = ground arith
product_mono (some (pos a)) (some (negsuc x)) (some (negsuc y)) h g =
    let m = mul_le_left a (suc y) (suc x) (ground arith) in ground arith
product_mono (some (pos a)) (some (pos x)) (some (negsuc y)) h g = ground arith
product_mono (some (negsuc a)) x y h g = ground arith
product_mono none x y h g = ground arith
product_mono a none y h g = ground arith
product_mono a (some x) none h g = ground arith

-- The square of a number above 3 is above 3.
square_large : (n : ℕ) → 3000 < n → 3000 < n * n / 1000
square_large n h = let m = mul_le_left n 1000 n (omega arith) in omega arith

bound-cases : (n : ℕ) → (n ≤ 3000) ⊎ (3000 < n)
bound-cases n = elim (Bool-cases (leb n 3000)) [
  | inl e ↦ inl (ground arith)
  | inr e ↦ inr (ground arith)
]

square_small : (n : ℕ) → n * n / 1000 ≤ 3000 → n ≤ 3000
square_small n h = elim (bound-cases n) [
  | inl e ↦ e
  | inr e ↦ let l = square_large n e in omega arith
]

-- The squares of three numbers, added.
squares_small :
    (a b c : ℕ)
    → a * a / 1000 + b * b / 1000 + c * c / 1000 ≤ 3000
    → (a ≤ 3000) × (b ≤ 3000) × (c ≤ 3000)
squares_small a b c h =
    (square_small a (omega arith), square_small b (omega arith), square_small c (omega arith))

abbrev size : ℤ → ℕ
size a = pos_part a + neg_part a

Within-size : (a : ℤ) → size a ≤ 3000 → Within {W = Milli} (num 3) (some a)
Within-size (pos a) h = (ground arith, ground arith)
Within-size (negsuc a) h = (ground arith, ground arith)

squared : (a : ℤ) → milli.mul (some a) (some a) ≡ some (pos (size a * size a / 1000))
squared (pos a) = ground arith
squared (negsuc a) = ground arith

component_small :
    (x y z : Milli)
    → milli.le (milli.add (milli.add (milli.mul x x) (milli.mul y y)) (milli.mul z z)) (num 3)
      ≡ true
    → Within {W = Milli} (num 3) x × Within {W = Milli} (num 3) y × Within {W = Milli} (num 3) z
component_small (some x) (some y) (some z) h =
    let p = squared x in
    let q = squared y in
    let r = squared z in
    let s = squares_small (size x) (size y) (size z) (ground arith) in
    (Within-size x s.0, Within-size y s.1, Within-size z s.2)
component_small none y z h = ground arith
component_small x none z h = ground arith
component_small x y none h = ground arith

abbrev half : Milli
half = some (pos 500)

exact_below : IsExactBelow {W = Milli} (num 3) (std_clamp half (num 0) (num 1))
unfolding std_clamp
exact_below = record {
  mul_mono = product_mono;
  add_mono = λ a b x y h g. ground arith;
  upper = refl;
  lower = refl;
  component = component_small;
}

abbrev declared : Parameters Milli
declared = record {
  frame_id = b'm' ∷ [];
  child_frame_id = b'/' ∷ (b'b' ∷ []);
  sensor_frame_id = b's' ∷ [];
  broadcast_sensor_tf = true;
  z_offset = num 0;
  velocity_filter_alpha = half;
  max_pose_gap = num 1;
  max_linear_speed = num 3;
}

abbrev pose_at : ℕ → Pose Milli
pose_at x = record {
  position = point x 0;
  orientation = record { w = num 1; x = num 0; y = num 0; z = num 0 };
}

abbrev pose_msg : ℕ → ℕ → PoseMsg Milli
pose_msg x t = record { frame_id = b'/' ∷ (b'm' ∷ []); stamp = pos t; pose = pose_at x }

-- Two poses half a second apart, and a null message.
abbrev poses : List (ℤ × Option (PoseMsg Milli))
poses =
    (pos 5, some (pose_msg 0 1000000000))
    ∷ ((pos 6, none) ∷ ((pos 7, some (pose_msg 1 1500000000)) ∷ []))

run-construct-IsPublished_example :
    let s = construct declared (pose_at 0) in
    let r = run library s poses in
    Within declared.max_linear_speed r.velocity.filtered_vx
    × Within declared.max_linear_speed r.velocity.filtered_vy
    × Within declared.max_linear_speed r.velocity.filtered_vz
    × All (IsPublished declared.max_linear_speed s.parameters) r.published
run-construct-IsPublished_example =
    run-construct-IsPublished Milli-IsOrdered Milli-IsExact library declared (pose_at 0) poses refl
      refl exact_below
