-- ===== src/Controller/Limits.antt =====
-- closed_loop_controller_safe.cpp: the range of a clamped and of a rate-limited value.
pub mod Commands
pub mod Construct
pub mod Runs
use tron2_navigation_ros.Base.{
  ℕ, zero, suc, ◌≡◌, refl, sym, ap, subst, ◌∙◌, Bool, true, false, not, ◌&&◌, ◌||◌, List, [], ◌∷◌,
  ◌⊎◌, inl, inr, arith, if◌then◌else◌, Bool-cases, sub_ℕ, ℤ, Option, none, some, pos,
}
use tron2_navigation_ros.Double.{Double, IsOrdered, IsExact, lt, le, gt, decimal, std_max, std_min}
use tron2_navigation_ros.Vector.{Vector3, Quaternion, Library}
use tron2_navigation_ros.Controller.State.{
  Config, Controller, Bspline, Clock, Output, twist, execution_frozen,
}
use tron2_navigation_ros.Controller.Command.{
  clamp, limit_rate, command_step, publish_execution_frozen, publish_stop, publish_rotation_command,
  publish_limited_command,
}

pub if_intro :
    {A : Type 0} (P : A → Type 0) (b : Bool) (x y : A)
    → (b ≡ true → P x)
    → (b ≡ false → P y)
    → P (if b then x else y)
if_intro P true x y f g = f refl
if_intro P false x y f g = g refl

module _ {W : Type 0} ⦃d : Double W⦄ (ordered : IsOrdered W) where
  open ordered use {le_trans, le-total, le-of_lt, le-of_not_lt, not-lt-of_le}

  pub num_left : (x y : W) → le x y ≡ true → le x x ≡ true
  num_left x y h = (ordered.refl_of_le x y h).0

  pub num_right : (x y : W) → le x y ≡ true → le y y ≡ true
  num_right x y h = (ordered.refl_of_le x y h).1

  std_min_le : (hi x : W) → le hi hi ≡ true → le (std_min hi x) hi ≡ true
  std_min_le hi x h =
      if_intro (λ y. le y hi ≡ true) (d.lt x hi) x hi (λ e. le-of_lt x hi e) (λ e. h)

  std_max_ge : (lo x : W) → le lo lo ≡ true → le lo (std_max lo x) ≡ true
  std_max_ge lo x h =
      if_intro (λ y. le lo y ≡ true) (d.lt lo x) x lo (λ e. le-of_lt lo x e) (λ e. h)

  -- Whatever the value, NaN included, a clamped value is in the range.
  pub clamp_range :
      (value lo hi : W)
      → le lo hi ≡ true
      → (le lo (clamp value lo hi) ≡ true) × (le (clamp value lo hi) hi ≡ true)
  unfolding clamp
  clamp_range value lo hi h = (
    std_max_ge lo (std_min hi value) (num_left lo hi h),
    if_intro (λ y. le y hi ≡ true) (d.lt lo (std_min hi value)) (std_min hi value) lo
        (λ e. std_min_le hi value (num_right lo hi h)) (λ e. h),
  )

  clamp_above :
      (x lo hi z : W)
      → le lo z ≡ true
      → le z hi ≡ true
      → le z x ≡ true
      → (le z (clamp x lo hi) ≡ true) × (le (clamp x lo hi) x ≡ true)
  unfolding clamp
  clamp_above x lo hi z a b c =
      let m : (le z (std_min hi x) ≡ true) × (le (std_min hi x) x ≡ true) =
        if_intro (λ y. (le z y ≡ true) × (le y x ≡ true)) (d.lt x hi) x hi
          (λ e. (c, num_right z x c))
          (λ e. (b, le-of_not_lt x hi (num_right z x c) (num_right z hi b) e)) in
      if_intro (λ y. (le z y ≡ true) × (le y x ≡ true)) (d.lt lo (std_min hi x)) (std_min hi x) lo
        (λ e. m)
        (λ e.
          let f = le-of_not_lt lo (std_min hi x) (num_left lo z a) (num_right z _ m.0) e in
          (le_trans z (std_min hi x) lo m.0 f, le_trans lo z x a c))

  clamp_below :
      (x lo hi z : W)
      → le lo z ≡ true
      → le z hi ≡ true
      → le x z ≡ true
      → (le x (clamp x lo hi) ≡ true) × (le (clamp x lo hi) z ≡ true)
  unfolding clamp
  clamp_below x lo hi z a b c =
      let x_num = num_left x z c in
      let m : (le x (std_min hi x) ≡ true) × (le (std_min hi x) z ≡ true) =
        if_intro (λ y. (le x y ≡ true) × (le y z ≡ true)) (d.lt x hi) x hi (λ e. (x_num, c))
          (λ e.
            let f = le-of_not_lt x hi x_num (num_right z hi b) e in
            (le_trans x z hi c b, le_trans hi x z f c)) in
      if_intro (λ y. (le x y ≡ true) × (le y z ≡ true)) (d.lt lo (std_min hi x)) (std_min hi x) lo
        (λ e. m)
        (λ e.
          let f = le-of_not_lt lo (std_min hi x) (num_left lo z a) (num_left _ z m.1) e in
          (le_trans x (std_min hi x) lo m.0 f, a))

  -- One step of the limited rate stays between the two ends of a range that has both values.
  abbrev pub Within : W → W → W → Type 0
  Within lo hi x = (le lo x ≡ true) × (le x hi ≡ true)

  module _ (exact : IsExact W) where
    pub neg_nonpos : (x : W) → le (decimal 0 0) x ≡ true → le (d.neg x) (decimal 0 0) ≡ true
    neg_nonpos x h =
        subst (λ y. le (d.neg x) y ≡ true) exact.neg_zero (exact.neg_antitone (decimal 0 0) x h)

    pub limit_rate-Within :
        (target previous rate dt lo hi : W)
        → Within lo hi target
        → Within lo hi previous
        → le (decimal 0 0) (d.mul rate dt) ≡ true
        → Within lo hi (limit_rate target previous rate dt)
    unfolding limit_rate
    limit_rate-Within target previous rate dt lo hi t p m =
        let p_num = num_right lo previous p.0 in
        let t_num = num_right lo target t.0 in
        let delta = d.mul rate dt in
        let step = clamp (d.sub target previous) (d.neg delta) delta in
        let same = exact.add_zero previous p_num in
        let whole = exact.add_sub previous target p_num t_num in
        if_intro (Within lo hi) (le dt (decimal 0 0)) previous (d.add previous step) (λ e. p)
          (λ e. elim (le-total previous target p_num t_num) [
            | inl up ↦
                let c =
                  clamp_above (d.sub target previous) (d.neg delta) delta (decimal 0 0)
                    (neg_nonpos delta m) m (exact.sub_nonneg target previous up) in
                let a = exact.add_mono previous (decimal 0 0) step p_num c.0 in
                let b = exact.add_mono previous step (d.sub target previous) p_num c.1 in
                (
                  le_trans lo previous _ p.0
                      (subst (λ x. le x (d.add previous step) ≡ true) same a),
                  le_trans _ target hi (subst (λ x. le (d.add previous step) x ≡ true) whole b) t.1,
                )
            | inr down ↦
                let c =
                  clamp_below (d.sub target previous) (d.neg delta) delta (decimal 0 0)
                    (neg_nonpos delta m) m (exact.sub_nonpos target previous down) in
                let a = exact.add_mono previous (d.sub target previous) step p_num c.0 in
                let b = exact.add_mono previous step (decimal 0 0) p_num c.1 in
                (
                  le_trans lo target _ t.0 (subst (λ x. le x (d.add previous step) ≡ true) whole a),
                  le_trans _ previous hi (subst (λ x. le (d.add previous step) x ≡ true) same b)
                      p.1,
                )
          ])
