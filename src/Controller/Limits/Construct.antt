-- ===== src/Controller/Limits/Construct.antt =====
-- closed_loop_controller_safe.cpp: the limits after the constructor, and what it does not check.
use tron2_navigation_ros.Base.{
  ℕ, ◌≡◌, refl, sym, ap, subst, ◌∙◌, Bool, true, false, ◌||◌, [], ◌∷◌, ◌⊎◌, inl, inr, arith,
  if◌then◌else◌, Option, none, some,
}
use tron2_navigation_ros.Double.{Double, IsOrdered, IsExact, le, decimal}
use tron2_navigation_ros.Vector.{Library}
use tron2_navigation_ros.Controller.State.{Config, Controller, Clock, twist, check_config}
use tron2_navigation_ros.Controller.Command.{clamp, publish_stop}
use tron2_navigation_ros.Controller.Events.{construct, initial}
use tron2_navigation_ros.Controller.Limits.Commands.{
  IsProper, IsLimited, publish_stop-IsLimited, nonneg_of_positive, zero-InLimit,
}

-- The limits of a configuration are numbers, and the yaw rate is not negative.
pub record IsNumeric {W : Type 0} ⦃d : Double W⦄ (c : Config W) : Type 0 where
  pub vyaw : le (decimal 0 0) c.max_vyaw ≡ true
  pub vx : le c.max_vx c.max_vx ≡ true
  pub linear_accel : le c.max_linear_accel c.max_linear_accel ≡ true
  pub angular_accel : le c.max_angular_accel c.max_angular_accel ≡ true
  pub rate : le c.control_rate c.control_rate ≡ true

some_injective : {A : Type 0} {x y : A} → some x ≡ some y → x ≡ y
some_injective e = ground arith

module _ {W : Type 0} ⦃d : Double W⦄ (ordered : IsOrdered W) (exact : IsExact W)
    (lib : Library W) where
  checked_choice :
      (b x : Bool) (c c1 c2 : Config W)
      → (if b then none else (if x then some c1 else some c)) ≡ some c2
      → (b ≡ false) × ((c2 ≡ c1) ⊎ (c2 ≡ c))
  checked_choice true x c c1 c2 e = ground arith
  checked_choice false true c c1 c2 e = (refl, inl (ground arith))
  checked_choice false false c c1 c2 e = (refl, inr (ground arith))

  none_set :
      (a b c e f g h i : Bool)
      → a || b || c || e || f || g || h || i ≡ false
      → (b ≡ false) × (c ≡ false) × (e ≡ false) × (h ≡ false)
  none_set a b c e f g h i k = ground arith

  nonneg : (x : W) → le x x ≡ true → le x (decimal 0 0) ≡ false → le (decimal 0 0) x ≡ true
  nonneg = nonneg_of_positive ordered exact

  check_config-IsProper : (c c2 : Config W) → IsNumeric c → check_config c ≡ some c2 → IsProper c2
  unfolding check_config
  check_config-IsProper c c2 n e =
      let r = checked_choice _ _ c (record c { max_vyaw = decimal 1 0 }) c2 e in
      let k = none_set _ _ _ _ _ _ _ _ r.0 in
      let p : IsProper c = record {
        vyaw = n.vyaw;
        vx = nonneg c.max_vx n.vx k.3;
        linear_accel = nonneg c.max_linear_accel n.linear_accel k.0;
        angular_accel = nonneg c.max_angular_accel n.angular_accel k.1;
        rate = n.rate;
        rate_positive = k.2;
      } in
      let capped : IsProper (record c { max_vyaw = decimal 1 0 }) = record {
        vyaw = exact.zero_le_one;
        vx = p.vx;
        linear_accel = p.linear_accel;
        angular_accel = p.angular_accel;
        rate = p.rate;
        rate_positive = p.rate_positive;
      } in
      elim r.1 [ inl q ↦ subst IsProper (sym q) capped | inr q ↦ subst IsProper (sym q) p ]

  initial-IsLimited :
      (c : Config W) (b : Bool) (now : ℕ) → IsProper c → IsLimited (initial lib c b now)
  unfolding initial
  initial-IsLimited c b now p = record {
    proper = p;
    last_linear = zero-InLimit ordered exact c.max_vx p.vx;
    last_angular = zero-InLimit ordered exact c.max_vyaw p.vyaw;
    sent = tt;
  }

  stop_after : (now : ℕ) (s : Controller W) → IsLimited s → IsLimited (publish_stop now s)
  stop_after = publish_stop-IsLimited ordered exact

  stopped_choice :
      (o : Option (Config W)) (b : Bool) (clock : Clock) (s : Controller W)
      → ((c : Config W) → o ≡ some c → IsProper c)
      → elim o [
        | none ↦ none
        | some c ↦ some (publish_stop clock.stop_now (initial lib c b clock.now))
      ]
        ≡ some s
      → IsLimited s
  stopped_choice none b clock s f e = ground arith
  stopped_choice (some c) b clock s f e =
      subst IsLimited (some_injective e)
        (stop_after clock.stop_now _ (initial-IsLimited c b clock.now (f c refl)))

  pub construct-IsLimited :
      (c : Config W) (b : Bool) (clock : Clock) (s : Controller W)
      → IsNumeric c
      → construct lib c b clock ≡ some s
      → IsLimited s
  unfolding construct
  construct-IsLimited c b clock s n e =
      stopped_choice (check_config c) b clock s (λ c2. check_config-IsProper c c2 n) e

  -- The range [-m, m] of a negative m clamps to -m.
  clamp_reversed :
      (m : W)
      → le m (decimal 0 0) ≡ true
      → le m (d.neg m) ≡ true
      → clamp (decimal 0 0) (d.neg m) m ≡ d.neg m
  unfolding clamp
  clamp_reversed m h k =
      let a = ordered.not-lt-of_le m (decimal 0 0) h in
      let b = ordered.not-lt-of_le m (d.neg m) k in ground arith

  uncapped :
      (c c2 : Config W)
      → le c.max_vyaw (decimal 0 0) ≡ true
      → check_config c ≡ some c2
      → c2.max_vyaw ≡ c.max_vyaw
  unfolding check_config
  uncapped c c2 h e =
      let a =
        ordered.not-lt-of_le c.max_vyaw (decimal 1 0)
          (ordered.le_trans c.max_vyaw (decimal 0 0) (decimal 1 0) h exact.zero_le_one) in
      ground arith

  turning_choice :
      (o : Option (Config W)) (m : W) (b : Bool) (clock : Clock) (s : Controller W)
      → ((c : Config W) → o ≡ some c → c.max_vyaw ≡ m)
      → clamp (decimal 0 0) (d.neg m) m ≡ d.neg m
      → elim o [
        | none ↦ none
        | some c ↦ some (publish_stop clock.stop_now (initial lib c b clock.now))
      ]
        ≡ some s
      → s.published ≡ twist (decimal 0 0) (d.neg m) ∷ []
  unfolding initial publish_stop
  turning_choice none m b clock s f h e = ground arith
  turning_choice (some c) m b clock s f h e =
      ap (λ t. t.published) (sym (some_injective e))
      ∙ ap (λ x. twist (decimal 0 0) x ∷ [])
          (subst (λ x. clamp (decimal 0 0) (d.neg x) x ≡ d.neg x) (sym (f c refl)) h
            ∙ ap d.neg (f c refl))

  -- The constructor takes a negative max_vyaw, and the first command it publishes, a stop, is then a
  -- rotation by -max_vyaw: with max_vyaw at most 0 and at most its opposite, if the constructor does
  -- not throw, its only message has the angular velocity -max_vyaw.
  pub construct-turns :
      (c : Config W) (b : Bool) (clock : Clock) (s : Controller W)
      → le c.max_vyaw (decimal 0 0) ≡ true
      → le c.max_vyaw (d.neg c.max_vyaw) ≡ true
      → construct lib c b clock ≡ some s
      → s.published ≡ twist (decimal 0 0) (d.neg c.max_vyaw) ∷ []
  unfolding construct
  construct-turns c b clock s h k e =
      turning_choice (check_config c) c.max_vyaw b clock s (λ c2. uncapped c c2 h)
        (clamp_reversed c.max_vyaw h k) e
