-- ===== src/Replan/Path/Limit.antt =====
-- The limit on the waypoints of a reference path.
use Prim.Native.Nat.{min}
use tron2_navigation_ros.Base.{
  ℕ, zero, suc, ◌+◌, ◌-◌, ◌≤◌, ◌<◌, true, ◌≡◌, refl, ap, ◌∙◌, ◌⊎◌, inl, inr, List, [], ◌∷◌, pos,
  arith, length, get_or, Bool-cases, ltb, if◌then◌else◌,
}
use tron2_navigation_ros.Double.{Double, le, decimal}
use tron2_navigation_ros.Vector.{Vector3}
use tron2_navigation_ros.Replan.Path.{pick_from, limit_waypoints, size_of}

module _ {W : Type 0} ⦃d : Double W⦄ where
  -- `static_cast<size_t>(std::round(i * scale))`
  abbrev chosen : W → ℕ → ℕ
  chosen scale i = size_of (d.to_int (d.round (d.mul (d.of_int (pos i)) scale)))

  abbrev pub quotient : ℕ → ℕ → W
  quotient n k = d.div (d.of_int (pos n)) (d.of_int (pos k))

-- Arithmetic where rounding of products does no harm, for the quotient of `n` by `k`, which is at
-- least 1: multiples of it are at least 1 apart, and rounding keeps such numbers apart.
pub record IsSpread (W : Type 0) ⦃d : Double W⦄ (n k : ℕ) : Type 0 where
  pub none : d.to_int (d.round (d.mul (d.of_int (pos 0)) (quotient {W = W} n k))) ≡ pos 0
  pub whole : d.to_int (d.round (d.mul (d.of_int (pos k)) (quotient {W = W} n k))) ≡ pos n
  pub at_least_one : k ≤ n → le (decimal 1 0) (quotient {W = W} n k) ≡ true
  pub nonneg :
      (i : ℕ) (c : W)
      → le (decimal 1 0) c ≡ true
      → le (decimal 0 0) (d.mul (d.of_int (pos i)) c) ≡ true
  pub next_multiple :
      (i : ℕ) (c : W)
      → le (decimal 1 0) c ≡ true
      → le (d.add (d.mul (d.of_int (pos i)) c) (decimal 1 0)) (d.mul (d.of_int (pos (i + 1))) c)
        ≡ true
  pub round_apart :
      (a b : W)
      → le (decimal 0 0) a ≡ true
      → le (d.add a (decimal 1 0)) b ≡ true
      → size_of (d.to_int (d.round a)) < size_of (d.to_int (d.round b))

module _ {W : Type 0} ⦃d : Double W⦄ where
  -- The elements at the indices `f i`, `f (i + 1)`, ..., where `x` stands for one out of range.
  abbrev pub taken : Vector3 W → List (Vector3 W) → (ℕ → ℕ) → ℕ → ℕ → List (Vector3 W)
  taken x ps f i zero = []
  taken x ps f i (suc m) = get_or ps (f i) x ∷ taken x ps f (i + 1) m

  module _ (n k : ℕ) (laws : IsSpread W n k) (more : k ≤ n) where
    rises : (i : ℕ) → chosen (quotient {W = W} n k) i < chosen (quotient {W = W} n k) (i + 1)
    rises i =
        let c = quotient {W = W} n k in
        let h = laws.at_least_one more in
        laws.round_apart (d.mul (d.of_int (pos i)) c) (d.mul (d.of_int (pos (i + 1))) c)
          (laws.nonneg i c h) (laws.next_multiple i c h)

    stays_below : (j i : ℕ) → i + j ≡ k → chosen (quotient {W = W} n k) i + j ≤ n
    stays_below zero i e =
        let q : i ≡ k = omega (arith, e) in
        let w = ap size_of laws.whole in
        let z = ap (chosen (quotient {W = W} n k)) q in omega (arith, z, w)
    stays_below (suc j) i e =
        let b = stays_below j (i + 1) (omega (arith, e)) in let r = rises i in omega (arith, b, r)

    pick_from-taken :
        (p : Vector3 W) (ps : List (Vector3 W)) (i m : ℕ)
        → length ps ≡ n
        → i + m ≤ suc k
        → pick_from p ps (quotient {W = W} n k) i m
          ≡ taken p (p ∷ ps) (chosen (quotient {W = W} n k)) i m
    unfolding pick_from
    pick_from-taken p ps i zero l h = refl
    pick_from-taken p ps i (suc m) l h =
        let b = stays_below (k - i) i (omega (arith, h)) in
        let e : min (chosen (quotient {W = W} n k) i) (length ps)
            ≡ chosen (quotient {W = W} n k) i =
          omega (arith, b, l) in
        ap (λ x. get_or (p ∷ ps) x p ∷ pick_from p ps (quotient {W = W} n k) (i + 1) m) e
        ∙ ap (λ x. get_or (p ∷ ps) (chosen (quotient {W = W} n k) i) p ∷ x)
            (pick_from-taken p ps (i + 1) m l (omega (arith, h)))

  -- The waypoints that remain are those at rising indices, from the first one to the last.
  abbrev pub IsThinned : ℕ → Vector3 W → List (Vector3 W) → List (Vector3 W) → Type 0
  IsThinned max p ps r =
      (f : ℕ → ℕ) × (f 0 ≡ 0)
      × (f (max - 1) ≡ length ps)
      × ((i : ℕ) → f i < f (i + 1))
      × (r ≡ taken p (p ∷ ps) f 0 max)

  limit_choice :
      (max : ℕ) (p : Vector3 W) (ps : List (Vector3 W))
      → 2 ≤ max
      → limit_waypoints (pos max) (p ∷ ps) ≡ (
          if ltb max (length (p ∷ ps))
          then pick_from p ps (quotient (length ps) (max - 1)) 0 max
          else p ∷ ps)
  unfolding limit_waypoints
  limit_choice max p ps h = ground arith

  -- The limit on the waypoints of a reference path with at least one waypoint, where it is at least 2
  -- and rounding does no harm. If there are no more waypoints than the limit says, they all stay. Else
  -- as many as it says remain, at strictly rising indices, of which the first is that of the first
  -- waypoint and the last that of the last one.
  pub limit_waypoints_lem :
      (max : ℕ) (p : Vector3 W) (ps : List (Vector3 W))
      → 2 ≤ max
      → IsSpread W (length ps) (max - 1)
      → let r = limit_waypoints (pos max) (p ∷ ps) in
        ((length (p ∷ ps) ≤ max) × (r ≡ p ∷ ps)) ⊎ ((max < length (p ∷ ps)) × IsThinned max p ps r)
  limit_waypoints_lem max p ps h laws = elim (Bool-cases (ltb max (length (p ∷ ps)))) [
    | inl e ↦
        let k = max - 1 in
        let n = length ps in
        let c = limit_choice max p ps h in
        let t : max < suc n = ground arith in
        let m : k ≤ n = omega (arith, t) in
        inr (
          t,
          (
            chosen (quotient {W = W} n k),
            ap size_of laws.none,
            ap size_of laws.whole,
            rises n k laws m,
            c
                ∙ ap (λ b. if b then pick_from p ps (quotient {W = W} n k) 0 max else p ∷ ps) e
                ∙ pick_from-taken n k laws m p ps 0 max refl (omega (arith, h)),
          ),
        )
    | inr e ↦ inl (
      ground arith,
      limit_choice max p ps h
          ∙ ap (λ b. if b then pick_from p ps (quotient (length ps) (max - 1)) 0 max else p ∷ ps) e,
    )
  ]
