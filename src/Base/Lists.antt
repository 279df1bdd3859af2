-- ===== src/Base/Lists.antt =====
-- Lists measured and indexed by native numbers, under the library's names.
use Prim.Native.Nat.{ℕ, zero, suc, ◌+◌, ◌<◌}
use mathlib.Core.Path.{◌≡◌, refl, ap}
use mathlib.Core.List.{List, [], ◌∷◌, ◌++◌}
use mathlib.Core.Bool.{Bool, true, false}
use mathlib.Core.Option.{Option, none, some}
use tron2_navigation_ros.Base.Tests.{if◌then◌else◌}
use native.Mathlib.Omega.{arith}

module _ {ℓ} {A : Type ℓ} where
  abbrev pub length : List A → ℕ
  length [] = 0
  length (x ∷ xs) = suc (length xs)

  abbrev pub get_elem? : List A → ℕ → Option A
  get_elem? [] i = none
  get_elem? (x ∷ xs) zero = some x
  get_elem? (x ∷ xs) (suc i) = get_elem? xs i

  abbrev pub filter : (A → Bool) → List A → List A
  filter f [] = []
  filter f (x ∷ xs) = if f x then x ∷ filter f xs else filter f xs

  -- The last element; `d` stands for the undefined result of `back` on an empty vector.
  abbrev pub back : List A → A → A
  back [] d = d
  back (x ∷ xs) d = back xs x

  -- `xs[i]`, where `d` stands for a read out of range.
  abbrev pub get_or : List A → ℕ → A → A
  get_or [] i d = d
  get_or (x ∷ xs) zero d = x
  get_or (x ∷ xs) (suc i) d = get_or xs i d

  abbrev pub drop : ℕ → List A → List A
  drop zero xs = xs
  drop (suc n) [] = []
  drop (suc n) (x ∷ xs) = drop n xs

  abbrev pub is_empty : List A → Bool
  is_empty [] = true
  is_empty (x ∷ xs) = false

  pub length-append : (xs ys : List A) → length (xs ++ ys) ≡ length xs + length ys
  length-append [] ys = omega arith
  length-append (x ∷ xs) ys = omega (arith, length-append xs ys)

  pub get_elem?-lt : (xs : List A) (i : ℕ) → i < length xs → (a : A) × (get_elem? xs i ≡ some a)
  get_elem?-lt [] i h = elim h [ ]
  get_elem?-lt (x ∷ xs) zero h = (x, refl)
  get_elem?-lt (x ∷ xs) (suc i) h = get_elem?-lt xs i (omega arith)

  pub append-nil : (xs : List A) → xs ++ [] ≡ xs
  append-nil [] = refl
  append-nil (x ∷ xs) = ap (λ ys. x ∷ ys) (append-nil xs)

  pub append-snoc : (xs : List A) (y : A) (zs : List A) → (xs ++ (y ∷ [])) ++ zs ≡ xs ++ (y ∷ zs)
  append-snoc [] y zs = refl
  append-snoc (x ∷ xs) y zs = ap (λ ys. x ∷ ys) (append-snoc xs y zs)

-- Each element of the list has the property.
pub data All {ℓ ℓ'} {A : Type ℓ} (P : A → Type ℓ') : List A → Type (ℓ ⊔ ℓ') where
  none_left : All P []
  one_more : {x : A} {xs : List A} → P x → All P xs → All P (x ∷ xs)

-- The element is in the list.
pub data Mem {ℓ} {A : Type ℓ} (a : A) : List A → Type ℓ where
  here : {x : A} {xs : List A} → a ≡ x → Mem a (x ∷ xs)
  there : {x : A} {xs : List A} → Mem a xs → Mem a (x ∷ xs)

pub All-append {ℓ ℓ'} :
    {A : Type ℓ} {P : A → Type ℓ'} (xs ys : List A) → All P xs → All P ys → All P (xs ++ ys)
All-append [] ys h g = g
All-append (x ∷ xs) ys (one_more p h) g = one_more p (All-append xs ys h g)

pub All-mono {ℓ ℓ' ℓ''} :
    {A : Type ℓ} (P : A → Type ℓ') (Q : A → Type ℓ'') (xs : List A)
    → ((x : A) → P x → Q x)
    → All P xs
    → All Q xs
All-mono P Q [] g h = none_left
All-mono P Q (x ∷ xs) g (one_more p h) = one_more (g x p) (All-mono P Q xs g h)

pub mem-append_left {ℓ} : {A : Type ℓ} (a : A) (xs ys : List A) → Mem a xs → Mem a (xs ++ ys)
mem-append_left a [] ys h = elim h [ ]
mem-append_left a (x ∷ xs) ys (here e) = here e
mem-append_left a (x ∷ xs) ys (there h) = there (mem-append_left a xs ys h)

pub mem-append_right {ℓ} : {A : Type ℓ} (a : A) (xs ys : List A) → Mem a ys → Mem a (xs ++ ys)
mem-append_right a [] ys h = h
mem-append_right a (x ∷ xs) ys h = there (mem-append_right a xs ys h)
