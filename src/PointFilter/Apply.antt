-- ===== src/PointFilter/Apply.antt =====
-- rslidar_point_filter.hpp: apply, whose parallel loop writes one flag for each point.
use tron2_navigation_ros.Base.{
  ℕ, suc, ◌%◌, ◌^◌, Bool, true, not, ◌&&◌, List, [], ◌∷◌, ◌++◌, length, get_or, map, is_empty, ltb,
  if◌then◌else◌,
}
use tron2_navigation_ros.Double.{Double, le, gt}
use tron2_navigation_ros.PointFilter.State.{Point, PointCloud, Filter}
use tron2_navigation_ros.PointFilter.Stage.{
  is_finite_point, squared_range, squared_distance, is_rejected, cell_for,
}
use tron2_navigation_ros.PointFilter.Grid.{Grid, build_grid, cells_around, scan_cells}

-- The points that go on, and those that are rejected.
pub record Split (W : Type 0) : Type 0 where
  pub kept : List (Point W)
  pub rejected : List (Point W)

module _ {W : Type 0} ⦃d : Double W⦄ where
  unfoldable pub copy_metadata : PointCloud W → PointCloud W
  copy_metadata source = record source { height = 1; width = 0; is_dense = true; points = [] }

  unfoldable pub finalize_unorganized : PointCloud W → PointCloud W
  finalize_unorganized cloud = record cloud {
    height = 1;
    width = length cloud.points % 2 ^ 32;
    is_dense = true;
  }

  -- One round of the first loop.
  unfoldable pub sort_point : Filter W → Point W → Split W → Split W
  sort_point f p r =
      if not (is_finite_point p)
      then r
      else if is_rejected f p
      then record r { rejected = r.rejected ++ (p ∷ []) }
      else record r { kept = r.kept ++ (p ∷ []) }

  unfoldable pub first_stage : Filter W → List (Point W) → Split W → Split W
  first_stage f [] r = r
  first_stage f (p ∷ ps) r = first_stage f ps (sort_point f p r)

  -- Whether the point stays, given the points and their grid.
  unfoldable pub has_neighbors : Filter W → List (Point W) → Grid → Point W → Bool
  has_neighbors f stage1 grid query =
      let near : ℕ → Bool = λ i.
        le (squared_distance query (get_or stage1 i query))
          (d.mul f.search_radius f.search_radius) in
      if gt (squared_range query) (d.mul f.radius_apply_range f.radius_apply_range)
      then true
      else scan_cells near (suc f.min_neighbors) grid (cells_around (cell_for f query)) 0

  unfoldable pub keep_flags : Filter W → List (Point W) → List Bool
  keep_flags f stage1 =
      let grid = build_grid (map (cell_for f) stage1) 0 [] in
      if f.radius_filter_enable && ltb 0 f.min_neighbors && not (is_empty stage1)
      then map (has_neighbors f stage1 grid) stage1
      else map (λ p. true) stage1

  -- The last loop, over the points and their flags.
  unfoldable pub second_stage : List (Point W) → List Bool → Split W → Split W
  second_stage (p ∷ ps) (b ∷ bs) r = second_stage ps bs (
      if b
      then record r { kept = r.kept ++ (p ∷ []) }
      else record r { rejected = r.rejected ++ (p ∷ []) })
  second_stage _ _ r = r

  -- The three loops: what stays, and what is removed.
  unfoldable pub filter_points : Filter W → List (Point W) → Split W
  filter_points f points =
      let first = first_stage f points (record { kept = []; rejected = [] }) in
      second_stage first.kept (keep_flags f first.kept)
        (record { kept = []; rejected = first.rejected })

  unfoldable pub with_points : PointCloud W → List (Point W) → PointCloud W
  with_points input points = finalize_unorganized (record (copy_metadata input) { points = points })

  -- The output and the removed points, for a caller that asks for both.
  unfoldable pub apply_filter : Filter W → PointCloud W → PointCloud W × PointCloud W
  apply_filter f input =
      let r = filter_points f input.points in
      if not f.enabled
      then (input, copy_metadata input)
      else (with_points input r.kept, with_points input r.rejected)
