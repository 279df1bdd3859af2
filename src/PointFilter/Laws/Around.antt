-- ===== src/PointFilter/Laws/Around.antt =====
-- rslidar_point_filter.hpp: the 27 cells around a cell are its neighbours, each of them once.
use tron2_navigation_ros.Base.{
  ℕ, ◌+◌, ◌*◌, ◌≡◌, ap, ◌∙◌, Bool, true, false, ◌&&◌, List, [], ◌++◌, ℤ, pos, negsuc, ◌+ℤ◌, leb_ℤ,
  arith,
}
use tron2_navigation_ros.PointFilter.State.{GridKey}
use tron2_navigation_ros.PointFilter.Grid.{
  same_ℤ, same_key, cells_around, along_x, along_y, along_z, offsets,
}
use tron2_navigation_ros.PointFilter.Laws.Count.{bit, count, count-append}

-- The numbers differ by at most one.
abbrev pub is_next : ℤ → ℤ → Bool
is_next a b = leb_ℤ b (a +ℤ pos 1) && leb_ℤ a (b +ℤ pos 1)

abbrev pub is_adjacent : GridKey → GridKey → Bool
is_adjacent c k = is_next c.x k.x && is_next c.y k.y && is_next c.z k.z

three :
    (a b : ℤ)
    → bit (same_ℤ b (a +ℤ negsuc 0))
        + (bit (same_ℤ b (a +ℤ pos 0)) + (bit (same_ℤ b (a +ℤ pos 1)) + 0))
      ≡ bit (is_next a b)
unfolding ◌+ℤ◌
three a b = ground arith

share :
    (o p q r s : Bool)
    → bit (o && p && q) + (bit (o && p && r) + (bit (o && p && s) + 0))
      ≡ bit (o && p) * (bit q + (bit r + (bit s + 0)))
share true true q r s = ground arith
share true false q r s = ground arith
share false p q r s = ground arith

spread :
    (o p q r : Bool) (n : ℕ)
    → bit (o && p) * n + (bit (o && q) * n + bit (o && r) * n)
      ≡ bit o * ((bit p + (bit q + (bit r + 0))) * n)
spread true p q r n = grind arith
spread false p q r n = ground arith

bit_and : (a b c : Bool) → bit a * (bit b * bit c) ≡ bit (a && b && c)
bit_and true true c = omega arith
bit_and true false c = omega arith
bit_and false b c = omega arith

count-append3 :
    {A : Type 0} (f : A → Bool) (xs ys zs : List A)
    → count f (xs ++ (ys ++ (zs ++ []))) ≡ count f xs + (count f ys + count f zs)
count-append3 f xs ys zs = omega (
  arith,
  count-append f xs (ys ++ (zs ++ [])),
  count-append f ys (zs ++ []),
  count-append f zs [],
)

module _ (c k : GridKey) where
  along_z-count :
      (dx dy : ℤ)
      → count (same_key k) (along_z c dx dy offsets)
        ≡ bit (same_ℤ k.x (c.x +ℤ dx) && same_ℤ k.y (c.y +ℤ dy)) * bit (is_next c.z k.z)
  unfolding along_z same_key
  along_z-count dx dy =
      share (same_ℤ k.x (c.x +ℤ dx)) (same_ℤ k.y (c.y +ℤ dy)) (same_ℤ k.z (c.z +ℤ negsuc 0))
        (same_ℤ k.z (c.z +ℤ pos 0)) (same_ℤ k.z (c.z +ℤ pos 1))
      ∙ ap (λ n. bit (same_ℤ k.x (c.x +ℤ dx) && same_ℤ k.y (c.y +ℤ dy)) * n) (three c.z k.z)

  along_y-count :
      (dx : ℤ)
      → count (same_key k) (along_y c dx offsets)
        ≡ bit (same_ℤ k.x (c.x +ℤ dx)) * (bit (is_next c.y k.y) * bit (is_next c.z k.z))
  unfolding along_y
  along_y-count dx =
      let h =
        count-append3 (same_key k) (along_z c dx (negsuc 0) offsets) (along_z c dx (pos 0) offsets)
          (along_z c dx (pos 1) offsets) in
      let s =
        spread (same_ℤ k.x (c.x +ℤ dx)) (same_ℤ k.y (c.y +ℤ negsuc 0)) (same_ℤ k.y (c.y +ℤ pos 0))
          (same_ℤ k.y (c.y +ℤ pos 1)) (bit (is_next c.z k.z)) in
      let e =
        ap (λ n. bit (same_ℤ k.x (c.x +ℤ dx)) * (n * bit (is_next c.z k.z))) (three c.y k.y) in
      h
      ∙ omega
          (arith, along_z-count dx (negsuc 0), along_z-count dx (pos 0), along_z-count dx (pos 1))
      ∙ s
      ∙ e

  along_x-count :
      count (same_key k) (along_x c offsets)
      ≡ bit (is_next c.x k.x) * (bit (is_next c.y k.y) * bit (is_next c.z k.z))
  unfolding along_x
  along_x-count =
      let n : ℕ = bit (is_next c.y k.y) * bit (is_next c.z k.z) in
      count-append3 (same_key k) (along_y c (negsuc 0) offsets) (along_y c (pos 0) offsets)
        (along_y c (pos 1) offsets)
      ∙ omega (arith, along_y-count (negsuc 0), along_y-count (pos 0), along_y-count (pos 1))
      ∙ spread true (same_ℤ k.x (c.x +ℤ negsuc 0)) (same_ℤ k.x (c.x +ℤ pos 0))
          (same_ℤ k.x (c.x +ℤ pos 1)) n
      ∙ omega (arith, ap (λ m. m * n) (three c.x k.x))

  pub cells_around-count : count (same_key k) (cells_around c) ≡ bit (is_adjacent c k)
  unfolding cells_around
  cells_around-count = along_x-count ∙ bit_and (is_next c.x k.x) (is_next c.y k.y) (is_next c.z k.z)
