-- ===== src/GridMap/Laws/Roundtrip.antt =====
-- grid_map.cpp: every voxel of the window has an address of its own.
use tron2_navigation_ros.Base.{
  ℕ, zero, suc, ◌+◌, ◌-◌, ◌*◌, ◌/◌, ◌<◌, ◌≡◌, sym, ap, ◌∙◌, Bool, true, false, ℤ, pos, pos_part,
  ltb_ℤ, ◌-ℤ◌, ◌||◌, if◌then◌else◌, ◌+ℤ◌, arith,
}
use native.Mathlib.Nat.{mul_assoc, mul-add-div_right, div-eq_of_lt}
use tron2_navigation_ros.Vector.{Vector3i}
use tron2_navigation_ros.Vector.Index.{index_eq}
use tron2_navigation_ros.GridMap.State.{GridMap}
use tron2_navigation_ros.GridMap.Address.{
  get_local_index, to_address, unwrap, hash_id_to_global_index, is_in_map_index,
}
use tron2_navigation_ros.GridMap.Laws.Window.{get_local_index-lt, unwrap-get_local_index}

less : (y n z k : ℕ) → y < n → z < k → y * k + z < n * k
less y zero z k h g = omega arith
less zero (suc n) z k h g = grind arith
less (suc y) (suc n) z k h g = let r = less y n z k (omega arith) g in grind arith

quotient : (q r n : ℕ) → r < n → (q * n + r) / n ≡ q
quotient q r n h =
    let a = mul-add-div_right {m = n} (omega arith) q r in
    let b = div-eq_of_lt {n = r} {m = n} h in omega arith

-- The three digits of an address.
pub digits :
    (x y z ny nz : ℕ)
    → y < ny
    → z < nz
    → let a = x * ny * nz + y * nz + z in
      let q = a / (ny * nz) in
      let r = (a - q * ny * nz) / nz in (q ≡ x) × (r ≡ y) × (a - q * ny * nz - r * nz ≡ z)
digits x y z ny nz h g =
    let a : ℕ = x * ny * nz + y * nz + z in
    let q : ℕ = a / (ny * nz) in
    let r : ℕ = (a - q * ny * nz) / nz in
    let m = mul_assoc x ny nz in
    let first : q ≡ x =
      ap (λ n. n / (ny * nz)) (omega (arith, m))
      ∙ quotient x (y * nz + z) (ny * nz) (less y ny z nz h g) in
    let rest : a - q * ny * nz ≡ y * nz + z = ap (λ n. a - n * ny * nz) first ∙ omega arith in
    let second : r ≡ y = ap (λ n. n / nz) rest ∙ quotient y z nz g in
    (first, second, ap (λ n. a - q * ny * nz - n * nz) second ∙ omega (arith, rest))

pub record IsWindow {W : Type 0} (m : GridMap W) : Type 0 where
  pub x_pos : 0 < m.voxel_num_x
  pub y_pos : 0 < m.voxel_num_y
  pub z_pos : 0 < m.voxel_num_z
  pub x_max : m.map_bound_max_idx.x ≡ m.map_bound_min_idx.x +ℤ pos m.voxel_num_x -ℤ pos 1
  pub y_max : m.map_bound_max_idx.y ≡ m.map_bound_min_idx.y +ℤ pos m.voxel_num_y -ℤ pos 1
  pub z_max : m.map_bound_max_idx.z ≡ m.map_bound_min_idx.z +ℤ pos m.voxel_num_z -ℤ pos 1

abbrev pub Inside : ℤ → ℕ → ℤ → Type 0
Inside min n id = (k : ℕ) × (k < n) × (id ≡ min +ℤ pos k)

pub in_map_choice :
    (a b c e f g : Bool)
    → (if a || b || c then false else if e || f || g then false else true) ≡ true
    → (a ≡ false) × (b ≡ false) × (c ≡ false) × (e ≡ false) × (f ≡ false) × (g ≡ false)
in_map_choice a b c e f g h = ground arith

pub inside :
    (min max id : ℤ) (n : ℕ)
    → max ≡ min +ℤ pos n -ℤ pos 1
    → ltb_ℤ id min ≡ false
    → ltb_ℤ max id ≡ false
    → Inside min n id
unfolding ◌+ℤ◌ ◌-ℤ◌
inside min max id n e h g = let k = pos_part (id -ℤ min) in (k, ground arith, ground arith)

pub all-Inside :
    {W : Type 0} (m : GridMap W) (id : Vector3i)
    → IsWindow m
    → is_in_map_index m id ≡ true
    → Inside m.map_bound_min_idx.x m.voxel_num_x id.x
      × Inside m.map_bound_min_idx.y m.voxel_num_y id.y
      × Inside m.map_bound_min_idx.z m.voxel_num_z id.z
unfolding is_in_map_index
all-Inside m id w h =
    let c = in_map_choice _ _ _ _ _ _ h in
    (inside _ _ _ _ w.x_max c.0 c.3, inside _ _ _ _ w.y_max c.1 c.4, inside _ _ _ _ w.z_max c.2 c.5)

pub found_again :
    (min : ℤ) (n : ℕ) (id : ℤ) → Inside min n id → unwrap min n (get_local_index id n) ≡ id
found_again min n id (k, h, e) =
    ap (λ x. unwrap min n (get_local_index x n)) e ∙ unwrap-get_local_index min n k h ∙ sym e

-- In a window with voxels in each direction, an index of the map is found again from its address.
pub hash_id_to_global_index-to_address :
    {W : Type 0} (m : GridMap W) (id : Vector3i)
    → IsWindow m
    → is_in_map_index m id ≡ true
    → hash_id_to_global_index m (to_address m.parameters id) ≡ id
unfolding hash_id_to_global_index to_address
hash_id_to_global_index-to_address m id w h =
    let c = all-Inside m id w h in
    let g =
      digits (get_local_index id.x m.voxel_num_x) (get_local_index id.y m.voxel_num_y)
        (get_local_index id.z m.voxel_num_z) m.voxel_num_y m.voxel_num_z
        (get_local_index-lt id.y m.voxel_num_y w.y_pos)
        (get_local_index-lt id.z m.voxel_num_z w.z_pos) in
    index_eq (ap (unwrap m.map_bound_min_idx.x m.voxel_num_x) g.0 ∙ found_again _ _ _ c.0)
      (ap (unwrap m.map_bound_min_idx.y m.voxel_num_y) g.1 ∙ found_again _ _ _ c.1)
      (ap (unwrap m.map_bound_min_idx.z m.voxel_num_z) g.2 ∙ found_again _ _ _ c.2)

-- In a window with voxels in each direction, every address is inside the buffers.
pub to_address-lt :
    {W : Type 0} (m : GridMap W) (id : Vector3i)
    → IsWindow m
    → to_address m.parameters id < m.voxel_num_x * m.voxel_num_y * m.voxel_num_z
unfolding to_address
to_address-lt m id w =
    let x = get_local_index-lt id.x m.voxel_num_x w.x_pos in
    let y = get_local_index-lt id.y m.voxel_num_y w.y_pos in
    let z = get_local_index-lt id.z m.voxel_num_z w.z_pos in
    let p = less _ m.voxel_num_y _ m.voxel_num_z y z in
    let q = less _ m.voxel_num_x _ (m.voxel_num_y * m.voxel_num_z) x p in
    let a = mul_assoc (get_local_index id.x m.voxel_num_x) m.voxel_num_y m.voxel_num_z in
    let b = mul_assoc m.voxel_num_x m.voxel_num_y m.voxel_num_z in omega arith

-- In such a window, two indices of the map with the same address are the same.
pub to_address_inj :
    {W : Type 0} (m : GridMap W) (a b : Vector3i)
    → IsWindow m
    → is_in_map_index m a ≡ true
    → is_in_map_index m b ≡ true
    → to_address m.parameters a ≡ to_address m.parameters b
    → a ≡ b
to_address_inj m a b w h g e =
    sym (hash_id_to_global_index-to_address m a w h)
    ∙ ap (hash_id_to_global_index m) e
    ∙ hash_id_to_global_index-to_address m b w g
