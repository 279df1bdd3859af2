-- ===== src/Vector/Index.antt =====
-- The indices of voxels: when two are the same, and that a shift is undone by the opposite one.
use tron2_navigation_ros.Base.{◌≡◌, Bool, true, ◌&&◌, ℤ, pos, negsuc, ◌+ℤ◌, ◌-ℤ◌, is_zero, arith}
use tron2_navigation_ros.Vector.{Vector3i, add_index, sub_index}

unfoldable pub same_index : Vector3i → Vector3i → Bool
same_index a b = is_zero (a.x -ℤ b.x) && (is_zero (a.y -ℤ b.y) && is_zero (a.z -ℤ b.z))

difference_zero : (a b : ℤ) → is_zero (a -ℤ b) ≡ true → a ≡ b
unfolding ◌-ℤ◌
difference_zero (pos a) (pos b) h = ground arith
difference_zero (pos a) (negsuc b) h = ground arith
difference_zero (negsuc a) (pos b) h = ground arith
difference_zero (negsuc a) (negsuc b) h = ground arith

difference_self : (a : ℤ) → is_zero (a -ℤ a) ≡ true
unfolding ◌-ℤ◌
difference_self a = ground arith

both : (a b : Bool) → (a && b) ≡ true → (a ≡ true) × (b ≡ true)
both a b h = ground arith

pub index_eq : {a b : Vector3i} → a.x ≡ b.x → a.y ≡ b.y → a.z ≡ b.z → a ≡ b
index_eq {a} {b} p q r = λ i. record { x = p i; y = q i; z = r i }

pub same_index-eq : (a b : Vector3i) → same_index a b ≡ true → a ≡ b
unfolding same_index
same_index-eq a b h =
    let p = both _ _ h in
    let q = both _ _ p.1 in
    index_eq (difference_zero a.x b.x p.0) (difference_zero a.y b.y q.0)
      (difference_zero a.z b.z q.1)

pub same_index_refl : (a : Vector3i) → same_index a a ≡ true
unfolding same_index
same_index_refl a =
    let p = difference_self a.x in
    let q = difference_self a.y in let r = difference_self a.z in ground arith

add_sub : (a b : ℤ) → (a -ℤ b) +ℤ b ≡ a
unfolding ◌+ℤ◌ ◌-ℤ◌
add_sub (pos a) (pos b) = ground arith
add_sub (pos a) (negsuc b) = ground arith
add_sub (negsuc a) (pos b) = ground arith
add_sub (negsuc a) (negsuc b) = ground arith

sub_add : (a b : ℤ) → (a +ℤ b) -ℤ b ≡ a
unfolding ◌+ℤ◌ ◌-ℤ◌
sub_add (pos a) (pos b) = ground arith
sub_add (pos a) (negsuc b) = ground arith
sub_add (negsuc a) (pos b) = ground arith
sub_add (negsuc a) (negsuc b) = ground arith

pub add_index-sub_index : (a b : Vector3i) → add_index (sub_index a b) b ≡ a
add_index-sub_index a b = index_eq (add_sub a.x b.x) (add_sub a.y b.y) (add_sub a.z b.z)

pub sub_index-add_index : (a b : Vector3i) → sub_index (add_index a b) b ≡ a
sub_index-add_index a b = index_eq (sub_add a.x b.x) (sub_add a.y b.y) (sub_add a.z b.z)
