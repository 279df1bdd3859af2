-- ===== src/GridMap/Region.antt =====
-- grid_map.cpp: the loops over ranges of indices, which reset a box of the map and list the offsets
-- of the inflation.
use tron2_navigation_ros.Base.{
  ℕ, zero, suc, List, [], ◌∷◌, ◌++◌, ℤ, pos, pos_part, ◌+ℤ◌, ◌-ℤ◌, if◌then◌else◌,
}
use tron2_navigation_ros.Double.{Double, ge, decimal, std_max}
use tron2_navigation_ros.Vector.{Vector3, Vector3i, Library}
use tron2_navigation_ros.GridMap.State.{GridMap}
use tron2_navigation_ros.GridMap.Address.{to_address, bound_index, pos_to_index}
use tron2_navigation_ros.GridMap.Update.{reset_cell_by_address, reset_all_map_data}

-- `n` integers from `first` on.
unfoldable pub count_up : ℤ → ℕ → List ℤ
count_up first zero = []
count_up first (suc n) = first ∷ count_up (first +ℤ pos 1) n

-- The values of `for (int i = first; i <= last; ++i)`.
unfoldable pub up_to : ℤ → ℤ → List ℤ
up_to first last = count_up first (pos_part (last -ℤ first +ℤ pos 1))

unfoldable pub flat_map {ℓ} : {A B : Type ℓ} → (A → List B) → List A → List B
flat_map f [] = []
flat_map f (x ∷ xs) = f x ++ flat_map f xs

unfoldable pub to_list {ℓ} : {A B : Type ℓ} → (A → B) → List A → List B
to_list f [] = []
to_list f (x ∷ xs) = f x ∷ to_list f xs

-- The rounds of three nested loops from `min` to `max`, in their order.
unfoldable pub box : Vector3i → Vector3i → List Vector3i
box min max =
    flat_map
      (λ x.
        flat_map (λ y. to_list (λ z. record { x = x; y = y; z = z }) (up_to min.z max.z))
          (up_to min.y max.y))
      (up_to min.x max.x)

module _ {W : Type 0} ⦃d : Double W⦄ where
  open d use {mul, div, of_int}

  unfoldable pub reset_cells : GridMap W → List Vector3i → GridMap W
  reset_cells m [] = m
  reset_cells m (id ∷ ids) = reset_cells (reset_cell_by_address m (to_address m.parameters id)) ids

  unfoldable pub reset_buffer : GridMap W → GridMap W
  reset_buffer m = record (reset_all_map_data m) {
    local_bound_min = m.map_bound_min_idx;
    local_bound_max = m.map_bound_max_idx;
  }

  -- `resetBuffer(min_pos, max_pos)`
  unfoldable pub reset_buffer_between : GridMap W → Vector3 W → Vector3 W → GridMap W
  reset_buffer_between m min_pos max_pos =
      reset_cells m
        (box (bound_index m (pos_to_index m min_pos)) (bound_index m (pos_to_index m max_pos)))

  unfoldable pub inflate_step : W → W → ℤ
  inflate_step inflation resolution = d.to_int (d.ceil (div inflation resolution))

  module _ (eigen : Library W) where
    -- The offsets of one round of the loops on `x` and `y`.
    unfoldable pub inflate_column : GridMap W → W → ℤ → ℤ → ℤ → ℤ → List Vector3i
    inflate_column m double_radius step_z_up step_z_down x y =
        let offset_xy : Vector3 W = record {
          x = mul (of_int x) m.resolution;
          y = mul (of_int y) m.resolution;
          z = decimal 0 0;
        } in
        if ge (eigen.norm_xy offset_xy) double_radius
        then []
        else to_list (λ z. record { x = x; y = y; z = z }) (up_to (pos 0 -ℤ step_z_down) step_z_up)

    unfoldable pub rebuild_inflation_offsets : GridMap W → GridMap W
    rebuild_inflation_offsets m =
        let double_radius = std_max (decimal 0 0) m.double_cylinder_radius in
        let step_xy = inflate_step double_radius m.resolution in
        let step_z_up = inflate_step m.obstacles_inflation_z_up m.resolution in
        let step_z_down = inflate_step m.obstacles_inflation_z_down m.resolution in
        record m {
          inflate_offsets =
              flat_map
                (λ x.
                  flat_map (inflate_column m double_radius step_z_up step_z_down x)
                    (up_to (pos 0 -ℤ step_xy) step_xy))
                (up_to (pos 0 -ℤ step_xy) step_xy);
        }
