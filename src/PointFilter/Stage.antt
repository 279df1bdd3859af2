-- ===== src/PointFilter/Stage.antt =====
-- rslidar_point_filter.hpp: the tests of a single point.
use tron2_navigation_ros.Base.{Bool, false, ◌&&◌, ◌||◌, List, [], ◌∷◌, if◌then◌else◌}
use tron2_navigation_ros.Double.{Double, lt, le, ge, decimal}
use tron2_navigation_ros.PointFilter.State.{Point, Filter, GridKey}

module _ {W : Type 0} ⦃d : Double W⦄ where
  open d use {add, sub, mul, div, is_finite}

  unfoldable pub is_finite_point : Point W → Bool
  is_finite_point p = is_finite p.x && is_finite p.y && is_finite p.z

  unfoldable pub squared_range : Point W → W
  squared_range p = add (add (mul p.x p.x) (mul p.y p.y)) (mul p.z p.z)

  unfoldable pub squared_distance : Point W → Point W → W
  squared_distance p q =
      let dx = sub p.x q.x in
      let dy = sub p.y q.y in let dz = sub p.z q.z in add (add (mul dx dx) (mul dy dy)) (mul dz dz)

  unfoldable pub azimuth_degrees : Point W → W
  azimuth_degrees p =
      let angle = mul (d.atan2 p.y p.x) (decimal 572957795130823208768 19) in
      if lt angle (decimal 0 0) then add angle (decimal 360 0) else angle

  -- A range that begins above its end goes through north.
  unfoldable pub is_angle_masked : List (W × W) → W → Bool
  is_angle_masked [] azimuth = false
  is_angle_masked (r ∷ rs) azimuth =
      (if le r.0 r.1 then ge azimuth r.0 && le azimuth r.1 else ge azimuth r.0 || le azimuth r.1)
      || is_angle_masked rs azimuth

  unfoldable pub in_self_box : Filter W → Point W → Bool
  in_self_box f p =
      ge p.x f.self_box_min_x
      && le p.x f.self_box_max_x
      && ge p.y f.self_box_min_y
      && le p.y f.self_box_max_y
      && ge p.z f.self_box_min_z
      && le p.z f.self_box_max_z

  -- The first loop's test.
  unfoldable pub is_rejected : Filter W → Point W → Bool
  is_rejected f p =
      let range_squared = squared_range p in
      lt range_squared (mul f.min_range f.min_range)
      || (f.intensity_filter_enable
          && lt range_squared (mul f.intensity_apply_range f.intensity_apply_range)
          && lt p.intensity f.min_intensity)
      || (f.self_filter_enable && in_self_box f p)
      || (f.angle_mask_enable && is_angle_masked f.angle_mask_ranges (azimuth_degrees p))

  unfoldable pub cell_for : Filter W → Point W → GridKey
  cell_for f p = record {
    x = d.to_int (d.floor (div p.x f.search_radius));
    y = d.to_int (d.floor (div p.y f.search_radius));
    z = d.to_int (d.floor (div p.z f.search_radius));
  }
