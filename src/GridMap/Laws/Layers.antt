-- ===== src/GridMap/Laws/Layers.antt =====
-- grid_map.cpp: the addresses of the cleared layers are those of the voxels in them.
use tron2_navigation_ros.Base.{
  ℕ, suc, ◌+◌, ◌-◌, ◌*◌, ◌/◌, ◌+ℤ◌, ◌-ℤ◌, ◌<◌, ◌≡◌, sym, ap, subst, ◌∙◌, List, ℤ, pos, negsuc, Mem,
}
use tron2_navigation_ros.Vector.{Vector3i}
use tron2_navigation_ros.GridMap.State.{GridMap}
use tron2_navigation_ros.GridMap.Address.{get_local_index, to_address, to_address_local}
use tron2_navigation_ros.GridMap.Region.{flat_map, to_list}
use tron2_navigation_ros.GridMap.Slide.{below, leaving, leaving_x, leaving_y, leaving_z}
use tron2_navigation_ros.GridMap.Ranges.{mem-flat_map, flat_map-mem}
use tron2_navigation_ros.GridMap.Laws.Window.{get_local_index-lt}
use tron2_navigation_ros.GridMap.Laws.Roundtrip.{digits, IsWindow}
use tron2_navigation_ros.GridMap.Laws.Leaving.{
  mem-to_list_below, to_list_below-mem, below-mem, mem-below,
}

digits_inj :
    (x y z a b c ny nz : ℕ)
    → y < ny
    → z < nz
    → b < ny
    → c < nz
    → x * ny * nz + y * nz + z ≡ a * ny * nz + b * nz + c
    → (x ≡ a) × (y ≡ b) × (z ≡ c)
digits_inj x y z a b c ny nz p q r s e =
    let g = digits x y z ny nz p q in
    let h = digits a b c ny nz r s in
    let f = λ (n : ℕ). n / (ny * nz) in
    let u = λ (n : ℕ). (n - n / (ny * nz) * ny * nz) / nz in
    let v = λ (n : ℕ). n - n / (ny * nz) * ny * nz - (n - n / (ny * nz) * ny * nz) / nz * nz in
    (sym g.0 ∙ ap f e ∙ h.0, sym g.1 ∙ ap u e ∙ h.1, sym g.2 ∙ ap v e ∙ h.2)

leaving-lt : (min max : ℤ) (n l : ℕ) (shift : ℤ) → 0 < n → Mem l (leaving min max n shift) → l < n
unfolding leaving
leaving-lt min max n l (pos s) p h =
    let r = to_list_below-mem _ s l h in
    subst (λ x. x < n) (sym r.2) (get_local_index-lt (min +ℤ pos r.0) n p)
leaving-lt min max n l (negsuc t) p h =
    let r = to_list_below-mem _ (suc t) l h in
    subst (λ x. x < n) (sym r.2) (get_local_index-lt (max -ℤ pos r.0) n p)

-- Three nested loops.
abbrev cube : (ℕ → ℕ → ℕ → ℕ) → List ℕ → ℕ → ℕ → List ℕ
cube f layers na nb =
    flat_map (λ l. flat_map (λ a. to_list (λ b. f l a b) (below nb)) (below na)) layers

cube-mem :
    (f : ℕ → ℕ → ℕ → ℕ) (layers : List ℕ) (na nb y : ℕ)
    → Mem y (cube f layers na nb)
    → (l : ℕ) × (a : ℕ) × (b : ℕ) × Mem l layers × (a < na) × (b < nb) × (y ≡ f l a b)
cube-mem f layers na nb y h =
    let (l, m, g) = flat_map-mem _ layers y h in
    let (a, n, k) = flat_map-mem _ (below na) y g in
    let (b, p, e) = to_list_below-mem (λ b. f l a b) nb y k in (l, a, b, m, below-mem na a n, p, e)

mem-cube :
    (f : ℕ → ℕ → ℕ → ℕ) (layers : List ℕ) (na nb l a b : ℕ)
    → Mem l layers
    → a < na
    → b < nb
    → Mem (f l a b) (cube f layers na nb)
mem-cube f layers na nb l a b h p q =
    mem-flat_map (λ l. flat_map (λ a. to_list (λ b. f l a b) (below nb)) (below na)) layers l
      (f l a b) h
      (mem-flat_map (λ a. to_list (λ b. f l a b) (below nb)) (below na) a (f l a b)
        (mem-below na a p) (mem-to_list_below (λ b. f l a b) nb b q))

module _ {W : Type 0} (m : GridMap W) (w : IsWindow m) (shift : Vector3i) where
  abbrev pub layers_x : List ℕ
  layers_x = leaving m.map_bound_min_idx.x m.map_bound_max_idx.x m.voxel_num_x shift.x

  abbrev pub layers_y : List ℕ
  layers_y = leaving m.map_bound_min_idx.y m.map_bound_max_idx.y m.voxel_num_y shift.y

  abbrev pub layers_z : List ℕ
  layers_z = leaving m.map_bound_min_idx.z m.map_bound_max_idx.z m.voxel_num_z shift.z

  abbrev x_of : Vector3i → ℕ
  x_of p = get_local_index p.x m.voxel_num_x

  abbrev y_of : Vector3i → ℕ
  y_of p = get_local_index p.y m.voxel_num_y

  abbrev z_of : Vector3i → ℕ
  z_of p = get_local_index p.z m.voxel_num_z

  y_lt : (p : Vector3i) → y_of p < m.voxel_num_y
  y_lt p = get_local_index-lt p.y m.voxel_num_y w.y_pos

  z_lt : (p : Vector3i) → z_of p < m.voxel_num_z
  z_lt p = get_local_index-lt p.z m.voxel_num_z w.z_pos

  pub leaving_x-mem :
      (p : Vector3i) → Mem (to_address m.parameters p) (leaving_x m shift.x) → Mem (x_of p) layers_x
  unfolding leaving_x to_address to_address_local
  leaving_x-mem p h =
      let (l, a, b, k, q, r, e) = cube-mem _ layers_x m.voxel_num_y m.voxel_num_z _ h in
      let g = digits_inj _ _ _ l a b m.voxel_num_y m.voxel_num_z (y_lt p) (z_lt p) q r e in
      subst (λ i. Mem i layers_x) (sym g.0) k

  pub leaving_y-mem :
      (p : Vector3i) → Mem (to_address m.parameters p) (leaving_y m shift.y) → Mem (y_of p) layers_y
  unfolding leaving_y to_address to_address_local
  leaving_y-mem p h =
      let (l, a, b, k, q, r, e) = cube-mem _ layers_y m.voxel_num_z m.voxel_num_x _ h in
      let n = leaving-lt _ _ m.voxel_num_y l shift.y w.y_pos k in
      let g = digits_inj _ _ _ b l a m.voxel_num_y m.voxel_num_z (y_lt p) (z_lt p) n q e in
      subst (λ i. Mem i layers_y) (sym g.1) k

  pub leaving_z-mem :
      (p : Vector3i) → Mem (to_address m.parameters p) (leaving_z m shift.z) → Mem (z_of p) layers_z
  unfolding leaving_z to_address to_address_local
  leaving_z-mem p h =
      let (l, a, b, k, q, r, e) = cube-mem _ layers_z m.voxel_num_x m.voxel_num_y _ h in
      let n = leaving-lt _ _ m.voxel_num_z l shift.z w.z_pos k in
      let g = digits_inj _ _ _ a b l m.voxel_num_y m.voxel_num_z (y_lt p) (z_lt p) r n e in
      subst (λ i. Mem i layers_z) (sym g.2) k

  pub mem-leaving_x :
      (p : Vector3i) → Mem (x_of p) layers_x → Mem (to_address m.parameters p) (leaving_x m shift.x)
  unfolding leaving_x to_address to_address_local
  mem-leaving_x p h =
      mem-cube (λ l a b. l * m.voxel_num_y * m.voxel_num_z + a * m.voxel_num_z + b) layers_x
        m.voxel_num_y m.voxel_num_z (x_of p) (y_of p) (z_of p) h (y_lt p) (z_lt p)

  pub mem-leaving_y :
      (p : Vector3i) → Mem (y_of p) layers_y → Mem (to_address m.parameters p) (leaving_y m shift.y)
  unfolding leaving_y to_address to_address_local
  mem-leaving_y p h =
      mem-cube (λ l a b. b * m.voxel_num_y * m.voxel_num_z + l * m.voxel_num_z + a) layers_y
        m.voxel_num_z m.voxel_num_x (y_of p) (z_of p) (x_of p) h (z_lt p)
        (get_local_index-lt p.x m.voxel_num_x w.x_pos)

  pub mem-leaving_z :
      (p : Vector3i) → Mem (z_of p) layers_z → Mem (to_address m.parameters p) (leaving_z m shift.z)
  unfolding leaving_z to_address to_address_local
  mem-leaving_z p h =
      mem-cube (λ l a b. a * m.voxel_num_y * m.voxel_num_z + b * m.voxel_num_z + l) layers_z
        m.voxel_num_x m.voxel_num_y (z_of p) (x_of p) (y_of p) h
        (get_local_index-lt p.x m.voxel_num_x w.x_pos) (y_lt p)
