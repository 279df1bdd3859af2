-- ===== src/PointFilter/Laws/Settings.antt =====
-- rslidar_point_filter.hpp: the settings after configure, whatever the configuration holds.
use tron2_navigation_ros.Base.{
  ◌≡◌, refl, ◌∙◌, Bool, true, false, Option, none, some, ℤ, is_empty, arith, if◌then◌else◌,
}
use tron2_navigation_ros.Double.{Double, IsOrdered, le, decimal, std_max}
use tron2_navigation_ros.Vector.{Vector3}
use tron2_navigation_ros.PointFilter.State.{Filter}
use tron2_navigation_ros.PointFilter.Configure.{
  YamlNode, RadiusNode, AngleNode, IntensityNode, SelfNode, load_vec3, set_self, value_or,
  read_intensity, read_self, read_angle, read_radius, clamp_settings, configure,
}

-- The limits are numbers and not negative, the cells have a size, and an enabled mask has ranges.
pub record IsSane {W : Type 0} ⦃d : Double W⦄ (f : Filter W) : Type 0 where
  pub range : le (decimal 0 0) f.min_range ≡ true
  pub intensity : le (decimal 0 0) f.min_intensity ≡ true
  pub intensity_range : le (decimal 0 0) f.intensity_apply_range ≡ true
  pub radius_range : le (decimal 0 0) f.radius_apply_range ≡ true
  pub radius : le (decimal 1 3) f.search_radius ≡ true
  pub mask : f.angle_mask_enable ≡ true → is_empty f.angle_mask_ranges ≡ false

module _ {W : Type 0} ⦃d : Double W⦄ (ordered : IsOrdered W)
    (zero_number : d.le (d.decimal 0 0) (d.decimal 0 0) ≡ true)
    (milli_number : d.le (d.decimal 1 3) (d.decimal 1 3) ≡ true) where
  max_choice :
      (a x : W) (b : Bool)
      → le a a ≡ true
      → (b ≡ true → le a x ≡ true)
      → le a (if b then x else a) ≡ true
  max_choice a x true h k = k refl
  max_choice a x false h k = h

  std_max-ge : (a x : W) → le a a ≡ true → le a (std_max a x) ≡ true
  std_max-ge a x h = max_choice a x (d.lt a x) h (ordered.le-of_lt a x)

  mask_choice : (b e : Bool) → (if b then false else e) ≡ true → b ≡ false
  mask_choice true e h = ground arith
  mask_choice false e h = refl

  read_angle-mask :
      (n : Option (AngleNode W)) (f : Filter W)
      → f.angle_mask_enable ≡ false
      → (read_angle n f).angle_mask_enable ≡ true
      → is_empty (read_angle n f).angle_mask_ranges ≡ false
  unfolding read_angle
  read_angle-mask none f h e = ground arith
  read_angle-mask (some n) f h e = mask_choice _ _ e

  read_intensity-mask :
      (n : Option (IntensityNode W)) (f : Filter W)
      → (read_intensity n f).angle_mask_enable ≡ f.angle_mask_enable
  unfolding read_intensity
  read_intensity-mask none f = refl
  read_intensity-mask (some n) f = refl

  self_choice :
      (b : Bool) (lo hi : Option (Vector3 W)) (f : Filter W)
      → (set_self b lo hi f).angle_mask_enable ≡ f.angle_mask_enable
  unfolding set_self load_vec3
  self_choice false lo hi f = refl
  self_choice true none hi f = refl
  self_choice true (some a) none f = refl
  self_choice true (some a) (some c) f = refl

  read_self-mask :
      (n : Option (SelfNode W)) (f : Filter W)
      → (read_self n f).angle_mask_enable ≡ f.angle_mask_enable
  unfolding read_self
  read_self-mask none f = refl
  read_self-mask (some n) f = self_choice (value_or n.enable false) n.minimum n.maximum f

  sane :
      (f : Filter W)
      → (f.angle_mask_enable ≡ true → is_empty f.angle_mask_ranges ≡ false)
      → (k : ℤ) → IsSane (clamp_settings (k, f))
  unfolding clamp_settings
  sane f h k = record {
    range = std_max-ge (decimal 0 0) f.min_range zero_number;
    intensity = std_max-ge (decimal 0 0) f.min_intensity zero_number;
    intensity_range = std_max-ge (decimal 0 0) f.intensity_apply_range zero_number;
    radius_range = std_max-ge (decimal 0 0) f.radius_apply_range zero_number;
    radius = std_max-ge (decimal 1 3) f.search_radius milli_number;
    mask = h;
  }

  clamp_settings-IsSane :
      (n : Option (RadiusNode W)) (f : Filter W)
      → (f.angle_mask_enable ≡ true → is_empty f.angle_mask_ranges ≡ false)
      → IsSane (clamp_settings (read_radius n f))
  unfolding read_radius
  clamp_settings-IsSane none f h = sane f h _
  clamp_settings-IsSane (some n) f h = sane _ h _

  configured_choice :
      (b : Bool) (f g : Filter W)
      → f.enabled ≡ false
      → IsSane g
      → (if b then g else f).enabled ≡ true
      → IsSane (if b then g else f)
  configured_choice true f g h s e = s
  configured_choice false f g h s e = ground arith

  -- A new filter (disabled, without a mask) that is enabled after configure has limits that are
  -- numbers and not negative, cells of at least 0.001, and ranges if its mask is enabled, whatever
  -- the configuration holds, NaN and negative numbers too. The literals 0 and 0.001 are taken to be
  -- numbers.
  pub configure-IsSane :
      (n : Option (YamlNode W)) (f : Filter W)
      → f.enabled ≡ false
      → f.angle_mask_enable ≡ false
      → (configure n f).enabled ≡ true
      → IsSane (configure n f)
  unfolding configure
  configure-IsSane none f h m e = ground arith
  configure-IsSane (some n) f h m e =
      let g : Filter W = record f {
        enabled = true;
        min_range = value_or n.min_range (decimal 3 1);
      } in
      let before = read_self n.self_filter (read_intensity n.intensity_filter g) in
      let unmasked =
        read_self-mask n.self_filter (read_intensity n.intensity_filter g)
        ∙ read_intensity-mask n.intensity_filter g
        ∙ m in
      configured_choice (value_or n.enable false) (record f { enabled = false })
        (clamp_settings (read_radius n.radius_filter (read_angle n.angle_mask before))) refl
        (clamp_settings-IsSane n.radius_filter (read_angle n.angle_mask before)
          (read_angle-mask n.angle_mask before unmasked))
        e
