-- ===== src/Samples.antt =====
-- Eigen and rclcpp at the fixed-point numbers: what the tests take for the parameter.
use tron2_navigation_ros.Base.{
  ℕ, suc, ◌*◌, ◌/◌, ◌^◌, none, some, ℤ, pos, negsuc, pos_part, neg_part, sub_ℕ,
}
use tron2_navigation_ros.Exact.{Milli, milli}
use tron2_navigation_ros.Vector.{Vector3, Library}

abbrev pub num : ℕ → Milli
num n = some (pos (n * 1000))

abbrev pub add_m : Milli → Milli → Milli
add_m = milli.add

abbrev pub point : ℕ → ℕ → Vector3 Milli
point a b = record { x = num a; y = num b; z = num 0 }

abbrev size : Vector3 Milli → Milli
size v = add_m (milli.abs v.x) (milli.abs v.y)

abbrev shrunk : Vector3 Milli → Vector3 Milli
shrunk v = record {
  x = milli.div v.x (size v);
  y = milli.div v.y (size v);
  z = milli.div v.z (size v);
}

abbrev to_seconds : ℤ → Milli
to_seconds (pos n) = some (pos (n / 10 ^ 6))
to_seconds (negsuc n) = some (sub_ℕ 0 (suc n / 10 ^ 6))

abbrev to_nanoseconds : Milli → ℤ
to_nanoseconds none = pos 0
to_nanoseconds (some a) = sub_ℕ (pos_part a * 10 ^ 6) (neg_part a * 10 ^ 6)

abbrev pub library : Library Milli
library = record {
  zero3 = point 0 0;
  vec_sub = λ u v. record { x = milli.sub u.x v.x; y = milli.sub u.y v.y; z = milli.sub u.z v.z };
  vec_scale = λ u k. record { x = milli.mul u.x k; y = milli.mul u.y k; z = milli.mul u.z k };
  normalized = shrunk;
  norm = λ v. add_m (size v) (milli.abs v.z);
  norm_xy = size;
  squared_norm_xy = λ v. add_m (milli.mul v.x v.x) (milli.mul v.y v.y);
  dot_xy = λ u v. add_m (milli.mul u.x v.x) (milli.mul u.y v.y);
  heading = λ q. point 1 0;
  seconds = to_seconds;
  from_seconds = to_nanoseconds;
}
