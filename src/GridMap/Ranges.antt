-- ===== src/GridMap/Ranges.antt =====
-- grid_map.cpp: what is in the lists that the nested loops run through.
use tron2_navigation_ros.Base.{
  ap, subst, ◌⊎◌, inl, inr, List, [], ◌∷◌, ◌++◌, Mem, here, there, mem-append_left,
  mem-append_right,
}
use tron2_navigation_ros.GridMap.Region.{flat_map, to_list}

pub mem-flat_map :
    {A B : Type 0} (f : A → List B) (xs : List A) (a : A) (b : B)
    → Mem a xs
    → Mem b (f a)
    → Mem b (flat_map f xs)
unfolding flat_map
mem-flat_map f [] a b h g = elim h [ ]
mem-flat_map f (x ∷ xs) a b (here e) g =
    mem-append_left b (f x) (flat_map f xs) (subst (λ y. Mem b (f y)) e g)
mem-flat_map f (x ∷ xs) a b (there h) g =
    mem-append_right b (f x) (flat_map f xs) (mem-flat_map f xs a b h g)

pub mem-to_list :
    {A B : Type 0} (f : A → B) (xs : List A) (a : A) → Mem a xs → Mem (f a) (to_list f xs)
unfolding to_list
mem-to_list f [] a h = elim h [ ]
mem-to_list f (x ∷ xs) a (here e) = here (ap f e)
mem-to_list f (x ∷ xs) a (there h) = there (mem-to_list f xs a h)

append-mem : {A : Type 0} (a : A) (xs ys : List A) → Mem a (xs ++ ys) → Mem a xs ⊎ Mem a ys
append-mem a [] ys h = inr h
append-mem a (x ∷ xs) ys (here e) = inl (here e)
append-mem a (x ∷ xs) ys (there h) = elim (append-mem a xs ys h) [
  | inl g ↦ inl (there g)
  | inr g ↦ inr g
]

pub flat_map-mem :
    {A B : Type 0} (f : A → List B) (xs : List A) (b : B)
    → Mem b (flat_map f xs)
    → (a : A) × Mem a xs × Mem b (f a)
unfolding flat_map
flat_map-mem f [] b h = elim h [ ]
flat_map-mem f (x ∷ xs) b h = elim (append-mem b (f x) (flat_map f xs) h) [
  | inl g ↦ (x, here (λ i. x), g)
  | inr g ↦ let r = flat_map-mem f xs b g in (r.0, there r.1, r.2)
]
