-- ===== src/PointFilter/Configure.antt =====
-- rslidar_point_filter.hpp: configure. A YAML node is a record of what reading it gives: `none` is a
-- value that is missing, null or of the wrong type.
use tron2_navigation_ros.Base.{
  Bool, true, false, Option, none, some, List, [], ◌∷◌, ℤ, pos, pos_part, is_empty, if◌then◌else◌,
}
use tron2_navigation_ros.Double.{Double, decimal, std_max, std_min}
use tron2_navigation_ros.Vector.{Vector3}
use tron2_navigation_ros.PointFilter.State.{Filter}

-- An element of the sequence of angle ranges: too short or no sequence, not of numbers, or a range.
pub data RangeNode (W : Type 0) : Type 0 where
  skipped : RangeNode W
  throwing : RangeNode W
  range : W → W → RangeNode W

pub record IntensityNode (W : Type 0) : Type 0 where
  pub enable : Option Bool
  pub min_intensity : Option W
  pub apply_range : Option W

pub record SelfNode (W : Type 0) : Type 0 where
  pub enable : Option Bool
  pub minimum : Option (Vector3 W)
  pub maximum : Option (Vector3 W)

pub record AngleNode (W : Type 0) : Type 0 where
  pub enable : Option Bool
  pub ranges : Option (List (RangeNode W))

pub record RadiusNode (W : Type 0) : Type 0 where
  pub enable : Option Bool
  pub apply_range : Option W
  pub search_radius : Option W
  pub min_neighbors : Option ℤ

pub record YamlNode (W : Type 0) : Type 0 where
  pub enable : Option Bool
  pub min_range : Option W
  pub intensity_filter : Option (IntensityNode W)
  pub self_filter : Option (SelfNode W)
  pub angle_mask : Option (AngleNode W)
  pub radius_filter : Option (RadiusNode W)

-- The value that a node has, or the fallback.
abbrev pub value_or : {A : Type 0} → Option A → A → A
value_or none fallback = fallback
value_or (some a) fallback = a

module _ {W : Type 0} ⦃d : Double W⦄ where
  open d use {add}

  unfoldable pub normalize_degrees : W → W
  normalize_degrees degrees =
      d.fmod (add (d.fmod degrees (decimal 360 0)) (decimal 360 0)) (decimal 360 0)

  -- The loop over the ranges; `none` is an exception, after which no range is left.
  unfoldable pub load_ranges : List (RangeNode W) → Option (List (W × W))
  load_ranges [] = some []
  load_ranges (skipped ∷ ns) = load_ranges ns
  load_ranges (throwing ∷ ns) = none
  load_ranges (range a b ∷ ns) = elim (load_ranges ns) [
    | none ↦ none
    | some rs ↦ some ((normalize_degrees a, normalize_degrees b) ∷ rs)
  ]

  unfoldable pub load_angle_mask : Option (List (RangeNode W)) → List (W × W)
  load_angle_mask none = []
  load_angle_mask (some ns) = value_or (load_ranges ns) []

  unfoldable pub read_intensity : Option (IntensityNode W) → Filter W → Filter W
  read_intensity none f = f
  read_intensity (some n) f = record f {
    intensity_filter_enable = value_or n.enable false;
    min_intensity = value_or n.min_intensity (decimal 15 0);
    intensity_apply_range = value_or n.apply_range (decimal 2 0);
  }

  unfoldable pub load_vec3 : Vector3 W → Vector3 W → Filter W → Filter W
  load_vec3 a b f = record f {
    self_box_min_x = std_min a.x b.x;
    self_box_min_y = std_min a.y b.y;
    self_box_min_z = std_min a.z b.z;
    self_box_max_x = std_max a.x b.x;
    self_box_max_y = std_max a.y b.y;
    self_box_max_z = std_max a.z b.z;
  }

  -- An enabled box whose corners cannot be read is disabled; what was read of them is then unused.
  unfoldable pub set_self : Bool → Option (Vector3 W) → Option (Vector3 W) → Filter W → Filter W
  set_self true (some a) (some b) f = load_vec3 a b (record f { self_filter_enable = true })
  set_self _ _ _ f = record f { self_filter_enable = false }

  unfoldable pub read_self : Option (SelfNode W) → Filter W → Filter W
  read_self none f = f
  read_self (some n) f = set_self (value_or n.enable false) n.minimum n.maximum f

  unfoldable pub read_angle : Option (AngleNode W) → Filter W → Filter W
  read_angle none f = record f { angle_mask_ranges = [] }
  read_angle (some n) f =
      let ranges = load_angle_mask n.ranges in
      record f {
        angle_mask_ranges = ranges;
        angle_mask_enable = if is_empty ranges then false else value_or n.enable false;
      }

  unfoldable pub read_radius : Option (RadiusNode W) → Filter W → ℤ × Filter W
  read_radius none f = (pos f.min_neighbors, f)
  read_radius (some n) f = (
    value_or n.min_neighbors (pos 4),
    record f {
      radius_filter_enable = value_or n.enable true;
      radius_apply_range = value_or n.apply_range (decimal 3 0);
      search_radius = value_or n.search_radius (decimal 5 1);
    },
  )

  -- The bounds of the settings, at the end of configure.
  unfoldable pub clamp_settings : ℤ × Filter W → Filter W
  clamp_settings (n, f) = record f {
    min_range = std_max (decimal 0 0) f.min_range;
    min_intensity = std_max (decimal 0 0) f.min_intensity;
    intensity_apply_range = std_max (decimal 0 0) f.intensity_apply_range;
    radius_apply_range = std_max (decimal 0 0) f.radius_apply_range;
    search_radius = std_max (decimal 1 3) f.search_radius;
    min_neighbors = pos_part n;
  }

  -- `none` is a node that is no map.
  unfoldable pub configure : Option (YamlNode W) → Filter W → Filter W
  configure none f = f
  configure (some n) f =
      let g : Filter W = record f {
        enabled = true;
        min_range = value_or n.min_range (decimal 3 1);
      } in
      if value_or n.enable false
      then clamp_settings (
          read_radius n.radius_filter (
            read_angle n.angle_mask
              (read_self n.self_filter (read_intensity n.intensity_filter g))))
      else record f { enabled = false }
