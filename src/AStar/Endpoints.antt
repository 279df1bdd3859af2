-- ===== src/AStar/Endpoints.antt =====
-- dyn_a_star.cpp: ConvertToIndexAndAdjustStartEndPoints, which moves an endpoint inside an obstacle
-- away along the line of the two. Its loops run on fuel.
use tron2_navigation_ros.Base.{ℕ, zero, suc, not, ◌||◌, ℤ, pos, ◌+ℤ◌, is_zero, if◌then◌else◌}
use tron2_navigation_ros.Double.{Double, lt, decimal}
use tron2_navigation_ros.Vector.{Vector3, Vector3i, Library}
use tron2_navigation_ros.GridMap.State.{GridMap}
use tron2_navigation_ros.GridMap.Update.{get_inflate_occupancy}
use tron2_navigation_ros.AStar.State.{Frame}
use tron2_navigation_ros.AStar.Grid.{is_in_pool, index_to_coord, coord_to_index}

pub data Adjusted : Type 0 where
  adjusted : Vector3i → Adjusted
  unable : Adjusted
  out_of_fuel : Adjusted

pub data Endpoints : Type 0 where
  endpoints : Vector3i → Vector3i → Endpoints
  unable : Endpoints
  out_of_fuel : Endpoints

unfoldable pub both_points : Adjusted → Adjusted → Endpoints
both_points unable end = unable
both_points out_of_fuel end = out_of_fuel
both_points (adjusted start_idx) unable = unable
both_points (adjusted start_idx) out_of_fuel = out_of_fuel
both_points (adjusted start_idx) (adjusted end_idx) = endpoints start_idx end_idx

module _ {W : Type 0} ⦃d : Double W⦄ where
  open d use {add, sub, mul}

  -- checkOccupancy at a place of the grid.
  unfoldable pub check_occupancy : GridMap W → Frame W → Vector3i → W → ℤ
  check_occupancy map f idx yaw = get_inflate_occupancy map (index_to_coord f idx) yaw

  -- `pt -= start_to_end * step_size_` and `pt += start_to_end * step_size_`
  abbrev pub shifted : (W → W → W) → Frame W → Vector3 W → Vector3 W → Vector3 W
  shifted op f dir pt = record {
    x = op pt.x (mul dir.x f.step_size);
    y = op pt.y (mul dir.y f.step_size);
    z = op pt.z (mul dir.z f.step_size);
  }

  -- The `do ... while (occ)` of an endpoint.
  unfoldable pub move_away :
      ℕ → (W → W → W) → GridMap W → Frame W → W → Vector3 W → Vector3 W → Adjusted
  move_away zero op map f path_yaw dir pt = out_of_fuel
  move_away (suc fuel) op map f path_yaw dir pt =
      let next = shifted op f dir pt in
      let idx = coord_to_index f next in
      let occ = check_occupancy map f idx path_yaw in
      let rest = move_away fuel op map f path_yaw dir next in
      if not (is_in_pool f idx)
      then unable
      else if is_zero (occ +ℤ pos 1)
      then unable
      else if is_zero occ
      then adjusted idx
      else rest

  unfoldable pub adjust_point :
      ℕ → (W → W → W) → GridMap W → Frame W → W → Vector3 W → Vector3 W → Adjusted
  adjust_point fuel op map f path_yaw dir pt =
      let idx = coord_to_index f pt in
      if is_zero (check_occupancy map f idx path_yaw)
      then adjusted idx
      else move_away fuel op map f path_yaw dir pt

  module _ (eigen : Library W) where
    unfoldable pub convert_to_index : ℕ → GridMap W → Frame W → Vector3 W → Vector3 W → Endpoints
    convert_to_index fuel map f start_pt end_pt =
        let start_to_end = eigen.vec_sub end_pt start_pt in
        let path_yaw = d.atan2 start_to_end.y start_to_end.x in
        let dir = eigen.normalized start_to_end in
        if not (is_in_pool f (coord_to_index f start_pt))
          || not (is_in_pool f (coord_to_index f end_pt))
        then unable
        else if lt (eigen.norm start_to_end) (decimal 1 6)
        then unable
        else both_points (adjust_point fuel sub map f path_yaw dir start_pt)
            (adjust_point fuel add map f path_yaw dir end_pt)
