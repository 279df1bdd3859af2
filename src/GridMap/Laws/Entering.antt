-- ===== src/GridMap/Laws/Entering.antt =====
-- grid_map.cpp: which voxels updateSlidingMap clears, by the windows before and after the move.
use tron2_navigation_ros.Base.{
  ℕ, ◌+◌, ◌/◌, ◌≤◌, ◌<◌, ◌≡◌, refl, sym, ap, subst, ◌∙◌, ◌⊎◌, inl, inr, Bool, true, false, ◌||◌, ℤ,
  pos, negsuc, pos_part, neg_part, ◌+ℤ◌, ◌-ℤ◌, ltb_ℤ, leb, if◌then◌else◌, arith, Bool-cases, Mem,
}
use tron2_navigation_ros.Vector.{Vector3i, sub_index}
use tron2_navigation_ros.GridMap.State.{Parameters, GridMap}
use tron2_navigation_ros.GridMap.Address.{to_address, is_in_map_index}
use tron2_navigation_ros.GridMap.Slide.{cells_to_clear, is_far_shift}
use tron2_navigation_ros.GridMap.Laws.Roundtrip.{IsWindow, in_map_choice}
use tron2_navigation_ros.GridMap.Laws.Moves.{leaving-stays, mem-leaving_new, apart}
use tron2_navigation_ros.GridMap.Laws.Layers.{
  leaving_x-mem, leaving_y-mem, leaving_z-mem, mem-leaving_x, mem-leaving_y, mem-leaving_z,
}
use tron2_navigation_ros.GridMap.Laws.Mask.{mem-cells_to_clear, cells_to_clear-mem}

-- The bounds of a window of `n` voxels around the origin.
abbrev lower : ℕ → ℤ → ℤ
lower n o = o -ℤ pos (n / 2)

abbrev upper : ℕ → ℤ → ℤ
upper n o = lower n o +ℤ pos n -ℤ pos 1

-- The bounds of the map are those that updateMapBoundaryFromIndex makes of its origin.
pub record IsAnchored {W : Type 0} (m : GridMap W) : Type 0 where
  pub x_min : m.map_bound_min_idx.x ≡ lower m.voxel_num_x m.map_origin_idx.x
  pub y_min : m.map_bound_min_idx.y ≡ lower m.voxel_num_y m.map_origin_idx.y
  pub z_min : m.map_bound_min_idx.z ≡ lower m.voxel_num_z m.map_origin_idx.z

moved_lower : (o b h : ℤ) → o -ℤ h +ℤ (b -ℤ o) ≡ b -ℤ h
unfolding ◌+ℤ◌ ◌-ℤ◌
moved_lower (pos o) (pos b) (pos h) = ground arith
moved_lower (pos o) (negsuc b) (pos h) = ground arith
moved_lower (negsuc o) (pos b) (pos h) = ground arith
moved_lower (negsuc o) (negsuc b) (pos h) = ground arith
moved_lower (pos o) (pos b) (negsuc h) = ground arith
moved_lower (pos o) (negsuc b) (negsuc h) = ground arith
moved_lower (negsuc o) (pos b) (negsuc h) = ground arith
moved_lower (negsuc o) (negsuc b) (negsuc h) = ground arith

new_lower : (n : ℕ) (min o b : ℤ) → min ≡ lower n o → min +ℤ (b -ℤ o) ≡ lower n b
new_lower n min o b e = ap (λ x. x +ℤ (b -ℤ o)) e ∙ moved_lower o b (pos (n / 2))

-- The tests of one direction, for the window before and the window after.
abbrev Within : ℤ → ℤ → ℤ → Type 0
Within min max i = (ltb_ℤ i min ≡ false) × (ltb_ℤ max i ≡ false)

Within-new :
    (n : ℕ) (min o b i : ℤ)
    → min ≡ lower n o
    → Within (lower n b) (upper n b) i
    → Within (min +ℤ (b -ℤ o)) (min +ℤ (b -ℤ o) +ℤ pos n -ℤ pos 1) i
Within-new n min o b i e h =
    subst (λ l. Within l (l +ℤ pos n -ℤ pos 1) i) (sym (new_lower n min o b e)) h

-- Outside a window, in one direction at least.
outside_choice :
    (a b c e f g : Bool)
    → (if a || b || c then false else if e || f || g then false else true) ≡ false
    → ((a ≡ true) ⊎ (e ≡ true)) ⊎ ((b ≡ true) ⊎ (f ≡ true)) ⊎ ((c ≡ true) ⊎ (g ≡ true))
outside_choice true b c e f g h = inl (inl refl)
outside_choice false true c e f g h = inr (inl (inl refl))
outside_choice false false true e f g h = inr (inr (inl refl))
outside_choice false false false true f g h = inl (inr refl)
outside_choice false false false false true g h = inr (inl (inr refl))
outside_choice false false false false false true h = inr (inr (inr refl))
outside_choice false false false false false false h = let z : ⊥ = ground arith in elim z [ ]

far_choice : (x y z a b c : ℕ) → leb x a || leb y b || leb z c ≡ true → (x ≤ a) ⊎ (y ≤ b) ⊎ (z ≤ c)
far_choice x y z a b c h = elim (Bool-cases (leb x a)) [
  | inl e ↦ inl (ground arith)
  | inr e ↦ elim (Bool-cases (leb y b)) [
    | inl f ↦ inr (inl (ground arith))
    | inr f ↦ inr (inr (ground arith))
  ]
]

near_choice :
    (x y z a b c : ℕ) → leb x a || leb y b || leb z c ≡ false → (a < x) × (b < y) × (c < z)
near_choice x y z a b c h = (ground arith, ground arith, ground arith)

abbrev size : ℤ → ℕ
size a = pos_part a + neg_part a

far_shift :
    {W : Type 0} (m : GridMap W) (s : Vector3i)
    → is_far_shift m s ≡ true
    → (m.voxel_num_x ≤ size s.x) ⊎ (m.voxel_num_y ≤ size s.y) ⊎ (m.voxel_num_z ≤ size s.z)
unfolding is_far_shift
far_shift m s h =
    far_choice m.voxel_num_x m.voxel_num_y m.voxel_num_z (size s.x) (size s.y) (size s.z) h

near_shift :
    {W : Type 0} (m : GridMap W) (s : Vector3i)
    → is_far_shift m s ≡ false
    → (size s.x < m.voxel_num_x) × (size s.y < m.voxel_num_y) × (size s.z < m.voxel_num_z)
unfolding is_far_shift
near_shift m s h =
    near_choice m.voxel_num_x m.voxel_num_y m.voxel_num_z (size s.x) (size s.y) (size s.z) h

-- The position is in the window around the origin `o`.
abbrev pub IsWithin : {W : Type 0} → Parameters W → Vector3i → Vector3i → Type 0
IsWithin p o id =
    Within (lower p.voxel_num_x o.x) (upper p.voxel_num_x o.x) id.x
    × Within (lower p.voxel_num_y o.y) (upper p.voxel_num_y o.y) id.y
    × Within (lower p.voxel_num_z o.z) (upper p.voxel_num_z o.z) id.z

module _ {W : Type 0} (m : GridMap W) (w : IsWindow m) (a : IsAnchored m) (o id : Vector3i) where
  abbrev shift : Vector3i
  shift = sub_index o m.map_origin_idx

  pub cleared_outside :
      is_far_shift m shift ≡ false
      → IsWithin m.parameters o id
      → is_in_map_index m id ≡ false
      → Mem (to_address m.parameters id) (cells_to_clear m shift).clear_addrs
  unfolding is_in_map_index
  cleared_outside near (gx, gy, gz) h =
      let (x, y, z) = near_shift m shift near in
      let nx = Within-new _ _ m.map_origin_idx.x o.x id.x a.x_min gx in
      let ny = Within-new _ _ m.map_origin_idx.y o.y id.y a.y_min gy in
      let nz = Within-new _ _ m.map_origin_idx.z o.z id.z a.z_min gz in
      mem-cells_to_clear m shift (to_address m.parameters id) (elim (outside_choice _ _ _ _ _ _ h) [
        | inl c ↦ inl (
            mem-leaving_x m w shift id
              (mem-leaving_new _ _ shift.x m.voxel_num_x w.x_max x id.x nx.0 nx.1 c))
        | inr k ↦ elim k [
          | inl c ↦ inr (
              inl (
                mem-leaving_y m w shift id
                  (mem-leaving_new _ _ shift.y m.voxel_num_y w.y_max y id.y ny.0 ny.1 c)))
          | inr c ↦ inr (
              inr (
                mem-leaving_z m w shift id
                  (mem-leaving_new _ _ shift.z m.voxel_num_z w.z_max z id.z nz.0 nz.1 c)))
        ]
      ])

  pub kept_inside :
      is_far_shift m shift ≡ false
      → IsWithin m.parameters o id
      → is_in_map_index m id ≡ true
      → Mem (to_address m.parameters id) (cells_to_clear m shift).clear_addrs
      → ⊥
  unfolding is_in_map_index
  kept_inside near (gx, gy, gz) h k =
      let (x, y, z) = near_shift m shift near in
      let nx = Within-new _ _ m.map_origin_idx.x o.x id.x a.x_min gx in
      let ny = Within-new _ _ m.map_origin_idx.y o.y id.y a.y_min gy in
      let nz = Within-new _ _ m.map_origin_idx.z o.z id.z a.z_min gz in
      let c = in_map_choice _ _ _ _ _ _ h in
      elim (cells_to_clear-mem m shift (to_address m.parameters id) k) [
        | inl q ↦
            leaving-stays _ _ shift.x m.voxel_num_x w.x_max x id.x c.0 c.3 nx.0 nx.1
              (leaving_x-mem m w shift id q)
        | inr p ↦ elim p [
          | inl q ↦
              leaving-stays _ _ shift.y m.voxel_num_y w.y_max y id.y c.1 c.4 ny.0 ny.1
                (leaving_y-mem m w shift id q)
          | inr q ↦
              leaving-stays _ _ shift.z m.voxel_num_z w.z_max z id.z c.2 c.5 nz.0 nz.1
                (leaving_z-mem m w shift id q)
        ]
      ]

  pub none_inside_both :
      is_far_shift m shift ≡ true → IsWithin m.parameters o id → is_in_map_index m id ≡ true → ⊥
  unfolding is_in_map_index
  none_inside_both far (gx, gy, gz) h =
      let nx = Within-new _ _ m.map_origin_idx.x o.x id.x a.x_min gx in
      let ny = Within-new _ _ m.map_origin_idx.y o.y id.y a.y_min gy in
      let nz = Within-new _ _ m.map_origin_idx.z o.z id.z a.z_min gz in
      let c = in_map_choice _ _ _ _ _ _ h in
      elim (far_shift m shift far) [
        | inl q ↦ apart _ _ shift.x m.voxel_num_x w.x_max q id.x c.0 c.3 nx.0 nx.1
        | inr p ↦ elim p [
          | inl q ↦ apart _ _ shift.y m.voxel_num_y w.y_max q id.y c.1 c.4 ny.0 ny.1
          | inr q ↦ apart _ _ shift.z m.voxel_num_z w.z_max q id.z c.2 c.5 nz.0 nz.1
        ]
      ]
