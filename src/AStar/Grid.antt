-- ===== src/AStar/Grid.antt =====
-- dyn_a_star.h, dyn_a_star.cpp: positions and places in the grid, and the estimate of the rest of a path.
use tron2_navigation_ros.Base.{
  ◌+◌, Bool, true, false, ◌&&◌, ◌||◌, ℤ, pos, pos_part, neg_part, ◌+ℤ◌, ◌-ℤ◌, ltb_ℤ, leb_ℤ,
  if◌then◌else◌,
}
use tron2_navigation_ros.Double.{Double, le, decimal, std_min}
use tron2_navigation_ros.Vector.{Vector3, Vector3i}
use tron2_navigation_ros.AStar.State.{Frame}

-- The places of the grid, and those that have a place on each side.
unfoldable pub is_in_pool : {W : Type 0} → Frame W → Vector3i → Bool
is_in_pool f idx =
    if ltb_ℤ idx.x (pos 0)
      || leb_ℤ f.pool_size.x idx.x
      || ltb_ℤ idx.y (pos 0)
      || leb_ℤ f.pool_size.y idx.y
      || ltb_ℤ idx.z (pos 0)
      || leb_ℤ f.pool_size.z idx.z
    then false
    else true

unfoldable pub is_inner : {W : Type 0} → Frame W → Vector3i → Bool
is_inner f idx =
    if ltb_ℤ idx.x (pos 1)
      || leb_ℤ (f.pool_size.x -ℤ pos 1) idx.x
      || ltb_ℤ idx.y (pos 1)
      || leb_ℤ (f.pool_size.y -ℤ pos 1) idx.y
      || ltb_ℤ idx.z (pos 1)
      || leb_ℤ (f.pool_size.z -ℤ pos 1) idx.z
    then false
    else true

module _ {W : Type 0} ⦃d : Double W⦄ where
  open d use {add, sub, mul, div, of_int}

  abbrev coord : Frame W → W → ℤ → ℤ → W
  coord f center center_idx i = add (mul (of_int (i -ℤ center_idx)) f.step_size) center

  unfoldable pub index_to_coord : Frame W → Vector3i → Vector3 W
  index_to_coord f index = record {
    x = coord f f.center.x f.center_idx.x index.x;
    y = coord f f.center.y f.center_idx.y index.y;
    z = coord f f.center.z f.center_idx.z index.z;
  }

  -- The nearest place of a coordinate, the way the cast rounds it.
  unfoldable pub nearest : Frame W → W → ℤ → W → ℤ
  nearest f center center_idx p =
      d.to_int (add (mul (sub p center) f.inv_step_size) (decimal 5 1)) +ℤ center_idx

  unfoldable pub coord_to_index : Frame W → Vector3 W → Vector3i
  coord_to_index f pt = record {
    x = nearest f f.center.x f.center_idx.x pt.x;
    y = nearest f f.center.y f.center_idx.y pt.y;
    z = nearest f f.center.z f.center_idx.z pt.z;
  }

  abbrev distance : ℤ → ℤ → W
  distance a b = let c = a -ℤ b in of_int (pos (pos_part c + neg_part c))

  -- `dx == 0` of a number.
  abbrev is_null : W → Bool
  is_null a = le a (decimal 0 0) && le (decimal 0 0) a

  -- What a path along the diagonals adds when one of the distances is used up.
  unfoldable pub along : ℤ → W → W → W
  along diag a b =
      add
        (add (mul (mul (decimal 1 0) (d.sqrt (decimal 3 0))) (of_int diag))
          (mul (d.sqrt (decimal 2 0)) (std_min a b)))
        (mul (decimal 1 0) (d.abs (sub a b)))

  -- getDiagHeu, getHeu
  unfoldable pub get_diag_heu : Vector3i → Vector3i → W
  get_diag_heu index1 index2 =
      let diag = d.to_int (
        std_min (std_min (distance index1.x index2.x) (distance index1.y index2.y))
          (distance index1.z index2.z)) in
      let dx = sub (distance index1.x index2.x) (of_int diag) in
      let dy = sub (distance index1.y index2.y) (of_int diag) in
      let dz = sub (distance index1.z index2.z) (of_int diag) in
      let hx = if is_null dx then along diag dy dz else decimal 0 0 in
      let hy = if is_null dy then along diag dx dz else hx in
      if is_null dz then along diag dx dy else hy

  unfoldable pub get_heu : Vector3i → Vector3i → W
  get_heu index1 index2 =
      mul (add (decimal 1 0) (div (decimal 1 0) (decimal 10000 0))) (get_diag_heu index1 index2)
