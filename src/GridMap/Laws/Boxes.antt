-- ===== src/GridMap/Laws/Boxes.antt =====
-- grid_map.cpp: the indices that the nested loops run through, and those that boundIndex gives.
use tron2_navigation_ros.Base.{
  ℕ, zero, suc, ◌+◌, ◌≤◌, ◌<◌, ◌≡◌, refl, sym, ◌⊎◌, subst, inl, inr, Bool, true, false, ◌||◌, List,
  [], ◌∷◌, ℤ, pos, negsuc, pos_part, neg_part, ◌+ℤ◌, ◌-ℤ◌, ltb_ℤ, if◌then◌else◌, arith, All,
  none_left, one_more, All-append,
}
use tron2_navigation_ros.Vector.{Vector3i}
use tron2_navigation_ros.GridMap.State.{GridMap}
use tron2_navigation_ros.GridMap.Address.{max_ℤ, min_ℤ, bound_index, is_in_map_index}
use tron2_navigation_ros.GridMap.Region.{count_up, up_to, flat_map, to_list, box}
use tron2_navigation_ros.GridMap.Laws.Roundtrip.{IsWindow, in_map_choice}

All-flat_map :
    {A B : Type 0} (Q : A → Type 0) (P : B → Type 0) (f : A → List B) (xs : List A)
    → All Q xs
    → ((x : A) → Q x → All P (f x))
    → All P (flat_map f xs)
unfolding flat_map
All-flat_map Q P f [] h g = none_left
All-flat_map Q P f (x ∷ xs) (one_more q h) g =
    All-append (f x) (flat_map f xs) (g x q) (All-flat_map Q P f xs h g)

All-to_list :
    {A B : Type 0} (Q : A → Type 0) (P : B → Type 0) (f : A → B) (xs : List A)
    → All Q xs
    → ((x : A) → Q x → P (f x))
    → All P (to_list f xs)
unfolding to_list
All-to_list Q P f [] h g = none_left
All-to_list Q P f (x ∷ xs) (one_more q h) g = one_more (g x q) (All-to_list Q P f xs h g)

-- `i` is between `lo` and `hi`, the way isInMap tests it.
abbrev Between : ℤ → ℤ → ℤ → Type 0
Between lo hi i = (ltb_ℤ i lo ≡ false) × (ltb_ℤ hi i ≡ false)

next-Between :
    (lo hi first : ℤ) (n : ℕ)
    → pos_part first + suc n + neg_part hi ≤ suc (pos_part hi + neg_part first)
    → ltb_ℤ first lo ≡ false
    → Between lo hi first
      × (pos_part (first +ℤ pos 1) + n + neg_part hi
          ≤ suc (pos_part hi + neg_part (first +ℤ pos 1)))
      × (ltb_ℤ (first +ℤ pos 1) lo ≡ false)
unfolding ◌+ℤ◌
next-Between lo hi (pos first) n h g = ground arith
next-Between lo hi (negsuc first) n h g = ground arith

count_up-Between :
    (lo hi first : ℤ) (n : ℕ)
    → pos_part first + n + neg_part hi ≤ suc (pos_part hi + neg_part first)
    → ltb_ℤ first lo ≡ false
    → All (Between lo hi) (count_up first n)
unfolding count_up
count_up-Between lo hi first zero h g = none_left
count_up-Between lo hi first (suc n) h g =
    let s = next-Between lo hi first n h g in
    one_more s.0 (count_up-Between lo hi (first +ℤ pos 1) n s.1 s.2)

room :
    (first last : ℤ)
    → (n : ℕ) → n ≡ pos_part (last -ℤ first +ℤ pos 1)
    → (n ≡ 0) ⊎ (pos_part first + n + neg_part last ≤ suc (pos_part last + neg_part first))
unfolding ◌+ℤ◌ ◌-ℤ◌
room (pos a) (pos b) n h = ground arith
room (pos a) (negsuc b) n h = ground arith
room (negsuc a) (pos b) n h = ground arith
room (negsuc a) (negsuc b) n h = ground arith

empty-Between : (lo hi first : ℤ) → All (Between lo hi) (count_up first 0)
unfolding count_up
empty-Between lo hi first = none_left

up_to-Between :
    (lo first last : ℤ) → ltb_ℤ first lo ≡ false → All (Between lo last) (up_to first last)
unfolding up_to
up_to-Between lo first last g = elim (room first last (pos_part (last -ℤ first +ℤ pos 1)) refl) [
  | inl e ↦
      subst (λ n. All (Between lo last) (count_up first n)) (sym e) (empty-Between lo last first)
  | inr h ↦ count_up-Between lo last first _ h g
]

below_hi : (lo last hi i : ℤ) → ltb_ℤ hi last ≡ false → Between lo last i → Between lo hi i
below_hi lo last hi i h (a, b) = (a, ground arith)

in_map_chosen :
    (a b c e f g : Bool)
    → a ≡ false
    → b ≡ false
    → c ≡ false
    → e ≡ false
    → f ≡ false
    → g ≡ false
    → (if a || b || c then false else if e || f || g then false else true) ≡ true
in_map_chosen a b c e f g p q r s t u = ground arith

lower_below : (lo hi : ℤ) (n : ℕ) → 0 < n → hi ≡ lo +ℤ pos n -ℤ pos 1 → ltb_ℤ hi lo ≡ false
unfolding ◌+ℤ◌ ◌-ℤ◌
lower_below (pos a) hi n h e = ground arith
lower_below (negsuc a) hi n h e = ground arith

clamp_ordered : (lo hi i : ℤ) → ltb_ℤ hi lo ≡ false → Between lo hi (max_ℤ (min_ℤ i hi) lo)
clamp_ordered lo hi i h = (ground arith, ground arith)

in_map-intro :
    {W : Type 0} (m : GridMap W) (id : Vector3i)
    → Between m.map_bound_min_idx.x m.map_bound_max_idx.x id.x
    → Between m.map_bound_min_idx.y m.map_bound_max_idx.y id.y
    → Between m.map_bound_min_idx.z m.map_bound_max_idx.z id.z
    → is_in_map_index m id ≡ true
unfolding is_in_map_index
in_map-intro m id (a, e) (b, f) (c, g) = in_map_chosen _ _ _ _ _ _ a b c e f g

in_map-elim :
    {W : Type 0} (m : GridMap W) (id : Vector3i)
    → is_in_map_index m id ≡ true
    → Between m.map_bound_min_idx.x m.map_bound_max_idx.x id.x
      × Between m.map_bound_min_idx.y m.map_bound_max_idx.y id.y
      × Between m.map_bound_min_idx.z m.map_bound_max_idx.z id.z
unfolding is_in_map_index
in_map-elim m id h = let c = in_map_choice _ _ _ _ _ _ h in ((c.0, c.3), (c.1, c.4), (c.2, c.5))

-- Between two voxels of the map, all are in it.
pub box-is_in_map_index :
    {W : Type 0} (m : GridMap W) (min max : Vector3i)
    → is_in_map_index m min ≡ true
    → is_in_map_index m max ≡ true
    → All (λ id. is_in_map_index m id ≡ true) (box min max)
unfolding box
box-is_in_map_index m min max h g =
    let a = in_map-elim m min h in
    let b = in_map-elim m max g in
    let lo = m.map_bound_min_idx in
    let P = λ (id : Vector3i). is_in_map_index m id ≡ true in
    All-flat_map (Between lo.x max.x) P _ (up_to min.x max.x) (up_to-Between lo.x min.x max.x a.0.0)
      (λ x p.
        All-flat_map (Between lo.y max.y) P _ (up_to min.y max.y)
          (up_to-Between lo.y min.y max.y a.1.0)
          (λ y q.
            All-to_list (Between lo.z max.z) P _ (up_to min.z max.z)
              (up_to-Between lo.z min.z max.z a.2.0)
              (λ z r.
                in_map-intro m (record { x = x; y = y; z = z })
                  (below_hi lo.x max.x m.map_bound_max_idx.x x b.0.1 p)
                  (below_hi lo.y max.y m.map_bound_max_idx.y y b.1.1 q)
                  (below_hi lo.z max.z m.map_bound_max_idx.z z b.2.1 r))))

clamp-Between :
    (lo hi i : ℤ) (n : ℕ)
    → 0 < n
    → hi ≡ lo +ℤ pos n -ℤ pos 1
    → Between lo hi (max_ℤ (min_ℤ i hi) lo)
clamp-Between lo hi i n h e = clamp_ordered lo hi i (lower_below lo hi n h e)

-- boundIndex gives a voxel of the map.
pub bound_index-is_in_map_index :
    {W : Type 0} (m : GridMap W) (id : Vector3i)
    → IsWindow m
    → is_in_map_index m (bound_index m id) ≡ true
unfolding bound_index
bound_index-is_in_map_index m id w =
    in_map-intro m (bound_index m id) (clamp-Between _ _ id.x m.voxel_num_x w.x_pos w.x_max)
      (clamp-Between _ _ id.y m.voxel_num_y w.y_pos w.y_max)
      (clamp-Between _ _ id.z m.voxel_num_z w.z_pos w.z_max)
