-- ===== src/Double.antt =====
-- What the C++ code does with a `double`: literals, arithmetic, the functions of <cmath>, comparisons
-- and casts. The type is a parameter, since a proof here rests on the order of numbers at most.
use tron2_navigation_ros.Base.{ℕ, Bool, true, false, ◌≡◌, ◌⊎◌, if◌then◌else◌, ℤ}

pub record Double (W : Type 0) : Type 0 where
  -- `decimal m k` is the literal m / 10 ^ k.
  pub decimal : ℕ → ℕ → W
  pub add : W → W → W
  pub sub : W → W → W
  pub mul : W → W → W
  pub div : W → W → W
  pub neg : W → W
  pub abs : W → W
  pub sqrt : W → W
  pub sin : W → W
  pub cos : W → W
  pub floor : W → W
  pub ceil : W → W
  pub round : W → W
  pub atan2 : W → W → W
  pub fmod : W → W → W
  pub hypot : W → W → W
  -- `M_PI`, and the largest value of the type.
  pub pi : W
  pub max : W
  pub infinity : W
  pub lt : W → W → Bool
  pub le : W → W → Bool
  pub is_finite : W → Bool
  -- The cast of an integer, and `static_cast<int>` of a value in range.
  pub of_int : ℤ → W
  pub to_int : W → ℤ

module _ {W : Type 0} ⦃d : Double W⦄ where
  abbrev pub lt : W → W → Bool
  lt = d.lt

  abbrev pub le : W → W → Bool
  le = d.le

  abbrev pub decimal : ℕ → ℕ → W
  decimal = d.decimal

  -- `a > b` and `a >= b`.
  abbrev pub gt : W → W → Bool
  gt a b = d.lt b a

  abbrev pub ge : W → W → Bool
  ge a b = d.le b a

  -- `std::max`, `std::min`, which return their first argument when neither is less.
  abbrev pub std_max : W → W → W
  std_max a b = if d.lt a b then b else a

  abbrev pub std_min : W → W → W
  std_min a b = if d.lt b a then b else a

-- NaN is the value that is not `<=` itself; the order is total away from it.
pub record IsOrdered (W : Type 0) ⦃d : Double W⦄ : Type 0 where
  pub refl_of_le : (x y : W) → d.le x y ≡ true → (d.le x x ≡ true) × (d.le y y ≡ true)
  pub le_trans : (x y z : W) → d.le x y ≡ true → d.le y z ≡ true → d.le x z ≡ true
  pub le-total :
      (x y : W) → d.le x x ≡ true → d.le y y ≡ true → (d.le x y ≡ true) ⊎ (d.le y x ≡ true)
  pub le-of_lt : (x y : W) → d.lt x y ≡ true → d.le x y ≡ true
  pub le-of_not_lt :
      (x y : W) → d.le x x ≡ true → d.le y y ≡ true → d.lt x y ≡ false → d.le y x ≡ true
  pub not-lt-of_le : (x y : W) → d.le x y ≡ true → d.lt y x ≡ false

-- What holds of exact arithmetic, and of rounded arithmetic up to rounding; x is a number if it is
-- `<=` itself.
pub record IsExact (W : Type 0) ⦃d : Double W⦄ : Type 0 where
  -- The order of some literals: 0 and 1, 0 and 0.15, 0.15 and 1, 0 and 0.2, 0.2 and 1.
  pub zero_le_one : d.le (d.decimal 0 0) (d.decimal 1 0) ≡ true
  pub zero_le_15 : d.le (d.decimal 0 0) (d.decimal 15 2) ≡ true
  pub le_one_15 : d.le (d.decimal 15 2) (d.decimal 1 0) ≡ true
  pub zero_le_2 : d.le (d.decimal 0 0) (d.decimal 2 1) ≡ true
  pub le_one_2 : d.le (d.decimal 2 1) (d.decimal 1 0) ≡ true
  pub add_sub : (p t : W) → d.le p p ≡ true → d.le t t ≡ true → d.add p (d.sub t p) ≡ t
  pub add_zero : (p : W) → d.le p p ≡ true → d.add p (d.decimal 0 0) ≡ p
  pub add_mono :
      (p a b : W) → d.le p p ≡ true → d.le a b ≡ true → d.le (d.add p a) (d.add p b) ≡ true
  pub sub_nonpos : (t p : W) → d.le t p ≡ true → d.le (d.sub t p) (d.decimal 0 0) ≡ true
  pub sub_nonneg : (t p : W) → d.le p t ≡ true → d.le (d.decimal 0 0) (d.sub t p) ≡ true
  pub neg_antitone : (a b : W) → d.le a b ≡ true → d.le (d.neg b) (d.neg a) ≡ true
  pub neg_zero : d.neg (d.decimal 0 0) ≡ d.decimal 0 0
  pub mul_nonneg :
      (a b : W)
      → d.le (d.decimal 0 0) a ≡ true
      → d.le (d.decimal 0 0) b ≡ true
      → d.le (d.decimal 0 0) (d.mul a b) ≡ true
  pub mul_le :
      (a b : W)
      → d.le (d.decimal 0 0) a ≡ true
      → d.le (d.decimal 0 0) b ≡ true
      → d.le b (d.decimal 1 0) ≡ true
      → d.le (d.mul a b) a ≡ true
  pub div_nonneg :
      (a b : W)
      → d.le (d.decimal 0 0) a ≡ true
      → d.le b b ≡ true
      → d.le b (d.decimal 0 0) ≡ false
      → d.le (d.decimal 0 0) (d.div a b) ≡ true
