-- ===== src/AStar/Laws/Rounding.antt =====
-- dyn_a_star.h: the place that Coord2Index finds for the position of a place.
use tron2_navigation_ros.Base.{
  ◌≡◌, ap, ◌∙◌, ℤ, pos, negsuc, ◌+ℤ◌, ◌-ℤ◌, ltb_ℤ, if◌then◌else◌, arith,
}
use tron2_navigation_ros.Double.{Double}
use tron2_navigation_ros.Vector.{Vector3i}
use tron2_navigation_ros.AStar.State.{Frame}
use tron2_navigation_ros.AStar.Grid.{index_to_coord, coord_to_index, nearest}
use tron2_navigation_ros.Vector.Index.{index_eq}

-- Arithmetic without rounding, for an offset of `k` places from the centre; the cast drops the fraction.
pub record IsExactAt {W : Type 0} ⦃d : Double W⦄ (f : Frame W) (center : W) (k : ℤ) : Type 0 where
  pub add_sub :
      d.sub (d.add (d.mul (d.of_int k) f.step_size) center) center ≡ d.mul (d.of_int k) f.step_size
  pub mul_inv : d.mul (d.mul (d.of_int k) f.step_size) f.inv_step_size ≡ d.of_int k
  pub cast :
      d.to_int (d.add (d.of_int k) (d.decimal 5 1)) ≡ (if ltb_ℤ k (pos 0) then k +ℤ pos 1 else k)

back_again :
    (i c : ℤ)
    → (if ltb_ℤ (i -ℤ c) (pos 0) then i -ℤ c +ℤ pos 1 else i -ℤ c) +ℤ c
      ≡ (if ltb_ℤ i c then i +ℤ pos 1 else i)
unfolding ◌+ℤ◌ ◌-ℤ◌
back_again (pos i) (pos c) = ground arith
back_again (pos i) (negsuc c) = ground arith
back_again (negsuc i) (pos c) = ground arith
back_again (negsuc i) (negsuc c) = ground arith

module _ {W : Type 0} ⦃d : Double W⦄ where
  nearest-coord :
      (f : Frame W) (center : W) (c i : ℤ)
      → IsExactAt f center (i -ℤ c)
      → nearest f center c (d.add (d.mul (d.of_int (i -ℤ c)) f.step_size) center)
        ≡ (if ltb_ℤ i c then i +ℤ pos 1 else i)
  unfolding nearest
  nearest-coord f center c i h =
      ap (λ x. d.to_int (d.add (d.mul x f.inv_step_size) (d.decimal 5 1)) +ℤ c) h.add_sub
      ∙ ap (λ x. d.to_int (d.add x (d.decimal 5 1)) +ℤ c) h.mul_inv
      ∙ ap (λ x. x +ℤ c) h.cast
      ∙ back_again i c

  -- Where the arithmetic is exact and the cast drops the fraction, the position of a place is taken back
  -- to the place in each direction in which it is not below the centre of the grid, and to the next place
  -- up in each direction in which it is.
  pub coord_to_index-index_to_coord :
      (f : Frame W) (idx : Vector3i)
      → IsExactAt f f.center.x (idx.x -ℤ f.center_idx.x)
      → IsExactAt f f.center.y (idx.y -ℤ f.center_idx.y)
      → IsExactAt f f.center.z (idx.z -ℤ f.center_idx.z)
      → coord_to_index f (index_to_coord f idx) ≡ (record {
        x = if ltb_ℤ idx.x f.center_idx.x then idx.x +ℤ pos 1 else idx.x;
        y = if ltb_ℤ idx.y f.center_idx.y then idx.y +ℤ pos 1 else idx.y;
        z = if ltb_ℤ idx.z f.center_idx.z then idx.z +ℤ pos 1 else idx.z;
      })
  unfolding coord_to_index index_to_coord
  coord_to_index-index_to_coord f idx a b c =
      index_eq (nearest-coord f f.center.x f.center_idx.x idx.x a)
        (nearest-coord f f.center.y f.center_idx.y idx.y b)
        (nearest-coord f f.center.z f.center_idx.z idx.z c)
