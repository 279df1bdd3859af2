-- ===== src/Exact.antt =====
-- Fixed-point numbers in thousandths: a value of the parameter `Double`, at which the definitions run
-- and the laws of the order hold. `none` stands for NaN.
use tron2_navigation_ros.Base.{
  ℕ, zero, suc, ◌+◌, ◌*◌, ◌/◌, ◌^◌, Bool, true, false, Option, none, some, ℤ, pos, negsuc, pos_part,
  neg_part, sub_ℕ, ◌≤◌, ◌≡◌, refl, ltb_ℤ, leb_ℤ, arith,
}
use tron2_navigation_ros.Double.{Double, IsOrdered, IsExact}

abbrev pub Milli : Type 0
Milli = Option ℤ

abbrev size : ℤ → ℕ
size a = pos_part a + neg_part a

-- The sign of `a` and `b` together, with the given size.
abbrev signed_as : ℤ → ℤ → ℕ → ℤ
signed_as (pos _) (pos _) n = pos n
signed_as (negsuc _) (negsuc _) n = pos n
signed_as _ _ n = sub_ℕ 0 n

abbrev opposite : ℤ → ℤ
opposite a = sub_ℕ (neg_part a) (pos_part a)

abbrev plus : ℤ → ℤ → ℤ
plus a b = sub_ℕ (pos_part a + pos_part b) (neg_part a + neg_part b)

abbrev lift1 : (ℤ → ℤ) → Milli → Milli
lift1 f none = none
lift1 f (some a) = some (f a)

abbrev lift2 : (ℤ → ℤ → ℤ) → Milli → Milli → Milli
lift2 f (some a) (some b) = some (f a b)
lift2 f _ _ = none

abbrev test : (ℤ → ℤ → Bool) → Milli → Milli → Bool
test f (some a) (some b) = f a b
test f _ _ = false

abbrev finite : Milli → Bool
finite none = false
finite (some _) = true

abbrev to_whole : Milli → ℤ
to_whole none = pos 0
to_whole (some a) = signed_as a (pos 0) (size a / 1000)

instance abbrev pub milli : Double Milli
milli = record {
  decimal = λ m k. some (pos (m * 1000 / 10 ^ k));
  add = lift2 plus;
  sub = lift2 (λ a b. plus a (opposite b));
  mul = lift2 (λ a b. signed_as a b (size a * size b / 1000));
  div = lift2 (λ a b. signed_as a b (size a * 1000 / size b));
  neg = lift1 opposite;
  abs = lift1 (λ a. pos (size a));
  sqrt = λ a. a;
  sin = λ a. a;
  cos = λ a. a;
  floor = lift1 (λ a. signed_as a (pos 0) (size a / 1000 * 1000));
  ceil = lift1 (λ a. signed_as a (pos 0) ((size a + 999) / 1000 * 1000));
  round = lift1 (λ a. signed_as a (pos 0) ((size a + 500) / 1000 * 1000));
  atan2 = λ a b. a;
  fmod = λ a b. a;
  hypot = lift2 (λ a b. pos (size a + size b));
  pi = some (pos 3141);
  max = some (pos (10 ^ 12));
  infinity = some (pos (10 ^ 15));
  lt = test ltb_ℤ;
  le = test leb_ℤ;
  is_finite = finite;
  of_int = λ n. some (signed_as n (pos 0) (size n * 1000));
  to_int = to_whole;
}

pub Milli-IsOrdered : IsOrdered Milli
Milli-IsOrdered = ground arith

pub mul_le_left : (a b c : ℕ) → b ≤ c → a * b ≤ a * c
mul_le_left zero b c h = omega arith
mul_le_left (suc a) b c h = let k = mul_le_left a b c h in grind arith

mul_div_le : (a b : ℕ) → b ≤ 1000 → a * b / 1000 ≤ a
mul_div_le a b h = let k = mul_le_left a b 1000 h in omega arith

product-nonneg :
    (a b : Milli)
    → milli.le (some (pos 0)) a ≡ true
    → milli.le (some (pos 0)) b ≡ true
    → milli.le (some (pos 0)) (milli.mul a b) ≡ true
product-nonneg (some (pos a)) (some (pos b)) h k = ground arith
product-nonneg none b h k = h
product-nonneg a none h k = ground arith
product-nonneg (some (negsuc a)) b h k = ground arith
product-nonneg a (some (negsuc b)) h k = ground arith

product-le :
    (a b : Milli)
    → milli.le (some (pos 0)) a ≡ true
    → milli.le (some (pos 0)) b ≡ true
    → milli.le b (some (pos 1000)) ≡ true
    → milli.le (milli.mul a b) a ≡ true
product-le (some (pos a)) (some (pos b)) h k l =
    let m = mul_div_le a b (ground arith) in ground arith
product-le none b h k l = h
product-le a none h k l = ground arith
product-le (some (negsuc a)) b h k l = ground arith
product-le a (some (negsuc b)) h k l = ground arith

quotient-nonneg :
    (a b : Milli)
    → milli.le (some (pos 0)) a ≡ true
    → milli.le b b ≡ true
    → milli.le b (some (pos 0)) ≡ false
    → milli.le (some (pos 0)) (milli.div a b) ≡ true
quotient-nonneg (some (pos a)) (some (pos b)) h k l = ground arith
quotient-nonneg none b h k l = h
quotient-nonneg a none h k l = ground arith
quotient-nonneg (some (negsuc a)) b h k l = ground arith
quotient-nonneg a (some (negsuc b)) h k l = ground arith

pub Milli-IsExact : IsExact Milli
Milli-IsExact = record {
  zero_le_one = refl;
  zero_le_15 = refl;
  le_one_15 = refl;
  zero_le_2 = refl;
  le_one_2 = refl;
  add_sub = ground arith;
  add_zero = ground arith;
  add_mono = ground arith;
  sub_nonpos = ground arith;
  sub_nonneg = ground arith;
  neg_antitone = ground arith;
  neg_zero = refl;
  mul_nonneg = product-nonneg;
  mul_le = product-le;
  div_nonneg = quotient-nonneg;
}
