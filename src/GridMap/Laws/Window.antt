-- ===== src/GridMap/Laws/Window.antt =====
-- grid_map.h: the local index, which wraps around the window.
use tron2_navigation_ros.Base.{
  ℕ, zero, suc, ◌+◌, ◌-◌, ◌%◌, ◌<◌, ◌≡◌, refl, ap, ◌∙◌, inl, inr, ℤ, pos, negsuc, sub_ℕ, ◌+ℤ◌,
  ltb_ℤ, ltb, ◌==◌, if◌then◌else◌, arith, Bool-cases,
}
use native.Mathlib.Nat.{mod-lt, suc-mod, mod-eq_of_lt, mod_self, zero-mod}
use tron2_navigation_ros.GridMap.Address.{get_local_index, unwrap}

-- The remainder of the next number.
mod-next : (a n : ℕ) → 0 < n → suc a % n ≡ (if suc (a % n) == n then 0 else suc (a % n))
mod-next a n h = elim (Bool-cases (suc (a % n) == n)) [
  | inl e ↦
      let s = suc-mod a n in
      let l = mod_self n in
      let q : suc (a % n) ≡ n = ground arith in let t = ap (λ k. k % n) q in ground arith
  | inr e ↦
      let s = suc-mod a n in
      let b = mod-lt a h in
      let q = mod-eq_of_lt {n = suc (a % n)} {m = n} (ground arith) in ground arith
]

pub get_local_index-lt : (a : ℤ) (n : ℕ) → 0 < n → get_local_index a n < n
unfolding get_local_index ◌+ℤ◌
get_local_index-lt (pos a) n h = let b = mod-lt a h in ground arith
get_local_index-lt (negsuc a) n h = let b = mod-lt (suc a) h in ground arith

get_local_index-pos : (a n : ℕ) → get_local_index (pos a) n ≡ a % n
unfolding get_local_index
get_local_index-pos a n = ground arith

get_local_index-negsuc :
    (a n : ℕ) → 0 < n → get_local_index (negsuc a) n ≡ (if suc a % n == 0 then 0 else n - suc a % n)
unfolding get_local_index ◌+ℤ◌
get_local_index-negsuc a n h = let b = mod-lt (suc a) h in ground arith

pos-next : (a : ℕ) → pos a +ℤ pos 1 ≡ pos (suc a)
unfolding ◌+ℤ◌
pos-next a = ground arith

negsuc-next : (a : ℕ) → negsuc (suc a) +ℤ pos 1 ≡ negsuc a
unfolding ◌+ℤ◌
negsuc-next a = ground arith

zero-next : negsuc 0 +ℤ pos 1 ≡ pos 0
unfolding ◌+ℤ◌
zero-next = refl

pub get_local_index-next :
    (a : ℤ) (n : ℕ)
    → 0 < n
    → get_local_index (a +ℤ pos 1) n
      ≡ (if suc (get_local_index a n) == n then 0 else suc (get_local_index a n))
get_local_index-next (pos a) n h =
    let p = ap (λ x. get_local_index x n) (pos-next a) ∙ get_local_index-pos (suc a) n in
    let q = get_local_index-pos a n in let b = mod-next a n h in ground arith
get_local_index-next (negsuc zero) n h =
    let p = ap (λ x. get_local_index x n) zero-next ∙ get_local_index-pos 0 n in
    let q = get_local_index-negsuc 0 n h in
    let z = mod-lt 0 h in let b = mod-next 0 n h in let e = zero-mod n in ground arith
get_local_index-next (negsuc (suc a)) n h =
    let p = ap (λ x. get_local_index x n) (negsuc-next a) in
    let q = get_local_index-negsuc a n h in
    let r = get_local_index-negsuc (suc a) n h in
    let z = mod-lt (suc a) h in let b = mod-next (suc a) n h in ground arith

next-more : (a : ℤ) (k : ℕ) → a +ℤ pos (suc k) ≡ a +ℤ pos k +ℤ pos 1
unfolding ◌+ℤ◌
next-more (pos a) k = ground arith
next-more (negsuc a) k = ground arith

add_zero : (a : ℤ) → a +ℤ pos 0 ≡ a
unfolding ◌+ℤ◌
add_zero (pos a) = ground arith
add_zero (negsuc a) = ground arith

distance :
    (l m n k : ℕ)
    → k < n
    → l < n
    → m ≡ (if ltb (l + k) n then l + k else l + k - n)
    → (if ltb_ℤ (sub_ℕ m l) (pos 0) then sub_ℕ m l +ℤ pos n else sub_ℕ m l) ≡ pos k
unfolding ◌+ℤ◌
distance l m n k h g e = ground arith

pub get_local_index-add :
    (a : ℤ) (n k : ℕ)
    → k < n
    → get_local_index (a +ℤ pos k) n ≡ (
        if ltb (get_local_index a n + k) n
        then get_local_index a n + k
        else get_local_index a n + k - n)
get_local_index-add a n zero h =
    let l = get_local_index-lt a n (omega arith) in
    let e = ap (λ x. get_local_index x n) (add_zero a) in ground arith
get_local_index-add a n (suc k) h =
    let r = get_local_index-add a n k (omega arith) in
    let s = get_local_index-next (a +ℤ pos k) n (omega arith) in
    let e = ap (λ x. get_local_index x n) (next-more a k) in
    let l = get_local_index-lt a n (omega arith) in ground arith

-- An index of the window is found again from its local index.
pub unwrap-get_local_index :
    (min : ℤ) (n k : ℕ) → k < n → unwrap min n (get_local_index (min +ℤ pos k) n) ≡ min +ℤ pos k
unfolding unwrap
unwrap-get_local_index min n k h =
    let l = get_local_index-lt min n (omega arith) in
    let r = get_local_index-add min n k h in
    ap (λ x. min +ℤ x)
      (distance (get_local_index min n) (get_local_index (min +ℤ pos k) n) n k h l r)
