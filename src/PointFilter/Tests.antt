-- ===== src/PointFilter/Tests.antt =====
-- RslidarPointFilter at concrete inputs: a cluster of points, a lonely one, one too near, and NaN.
use mathlib.Core.List.{Perm}
use tron2_navigation_ros.Base.{
  ℕ, true, false, not, ◌≡◌, refl, List, [], ◌∷◌, ◌++◌, filter, some, none, pos, negsuc, map, ◌||◌,
  leb,
}
use tron2_navigation_ros.Double.{gt}
use tron2_navigation_ros.Exact.{Milli, milli, Milli-IsOrdered}
use tron2_navigation_ros.Samples.{num}
use tron2_navigation_ros.PointFilter.State.{Point, PointCloud, Filter}
use tron2_navigation_ros.PointFilter.Stage.{is_finite_point, cell_for, squared_range}
use tron2_navigation_ros.PointFilter.Grid.{build_grid}
use tron2_navigation_ros.PointFilter.Apply.{apply_filter, has_neighbors}
use tron2_navigation_ros.PointFilter.Configure.{
  YamlNode, skipped, configure, clamp_settings, read_radius, read_angle, read_self, read_intensity,
}
use tron2_navigation_ros.PointFilter.Laws.Settings.{IsSane, configure-IsSane}
use tron2_navigation_ros.PointFilter.Laws.Count.{count}
use tron2_navigation_ros.PointFilter.Laws.Neighbors.{is_neighbor, has_neighbors_lem}
use tron2_navigation_ros.PointFilter.Laws.Partition.{
  goes_on, is_dropped, stays, apply_filter-points, apply_filter-Perm,
}

abbrev at : Milli → Milli → Point Milli
at x y = record { x = x; y = y; z = num 0; intensity = num 50; ring = 0; timestamp = num 0 }

abbrev milli_num : ℕ → Milli
milli_num n = some (pos n)

abbrev settings : Filter Milli
settings = record {
  enabled = true;
  min_range = milli_num 300;
  intensity_filter_enable = true;
  min_intensity = num 15;
  intensity_apply_range = num 2;
  self_filter_enable = false;
  self_box_min_x = num 0;
  self_box_min_y = num 0;
  self_box_min_z = num 0;
  self_box_max_x = num 0;
  self_box_max_y = num 0;
  self_box_max_z = num 0;
  angle_mask_enable = false;
  angle_mask_ranges = [];
  radius_filter_enable = true;
  radius_apply_range = num 3;
  search_radius = milli_num 500;
  min_neighbors = 1;
}

abbrev cloud : List (Point Milli)
cloud =
    at (milli_num 1000) (num 0)
    ∷ at (milli_num 1300) (num 0)
    ∷ at (num 0) (num 2)
    ∷ at (milli_num 100) (num 0)
    ∷ at none (num 0)
    ∷ []

abbrev input : PointCloud Milli
input = record {
  height = 1;
  width = 5;
  is_dense = false;
  timestamp = num 0;
  seq = 7;
  frame_id = [];
  points = cloud;
}

abbrev result : List (Point Milli) × List (Point Milli)
result = ((apply_filter settings input).0.points, (apply_filter settings input).1.points)

apply_filter-points_example :
    let r = apply_filter settings input in
    let going = filter (goes_on settings) cloud in
    (r.0.points ≡ filter (stays settings going) going)
    × (r.1.points
        ≡ filter (is_dropped settings) cloud ++ filter (λ p. not (stays settings going p)) going)
apply_filter-points_example = apply_filter-points settings input refl

apply_filter-Perm_example :
    let r = apply_filter settings input in
    Perm (r.0.points ++ r.1.points) (filter is_finite_point cloud)
apply_filter-Perm_example = apply_filter-Perm settings input refl

has_neighbors_lem_example :
    has_neighbors settings cloud
      (build_grid (map (cell_for settings) cloud) 0 [])
      (at (milli_num 1000) (num 0))
    ≡ (gt (squared_range (at (milli_num 1000) (num 0))) (num 9)
        || leb 2 (count (is_neighbor settings (at (milli_num 1000) (num 0))) cloud))
has_neighbors_lem_example = has_neighbors_lem settings cloud (at (milli_num 1000) (num 0))

-- A configuration with a negative range and NaN for a radius, and a mask without ranges.
abbrev node : YamlNode Milli
node = record {
  enable = some true;
  min_range = some (some (negsuc 999));
  intensity_filter = none;
  self_filter = none;
  angle_mask = some (record { enable = some true; ranges = some (skipped ∷ []) });
  radius_filter = some (record {
    enable = none;
    apply_range = none;
    search_radius = some none;
    min_neighbors = none;
  });
}

abbrev fresh : Filter Milli
fresh = record settings { enabled = false }

configure-IsSane_example : IsSane (configure (some node) fresh)
unfolding configure clamp_settings read_radius read_angle read_self read_intensity
configure-IsSane_example =
    configure-IsSane Milli-IsOrdered refl refl (some node) fresh refl refl refl
