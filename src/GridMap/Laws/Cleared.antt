-- ===== src/GridMap/Laws/Cleared.antt =====
-- grid_map.cpp: what the last loop of updateSlidingMap leaves in the buffers.
use tron2_navigation_ros.Base.{
  ℕ, ◌≡◌, refl, sym, ap, subst, ◌∙◌, inl, inr, Bool, true, false, List, [], ◌∷◌, ◌==◌,
  if◌then◌else◌, arith, Bool-cases, Mem, here, there,
}
use tron2_navigation_ros.Double.{Double}
use tron2_navigation_ros.GridMap.State.{GridMap, write}
use tron2_navigation_ros.GridMap.Update.{update_inflation, forget_cell, occupied_value}
use tron2_navigation_ros.GridMap.Slide.{
  reset_cell_by_address_for_sliding, uninflate_cells, clear_cell, clear_cells,
}

pub write_same : {A : Type 0} (f : ℕ → A) (x : ℕ) (a : A) → write f x a x ≡ a
write_same f x a = let e : (x == x) ≡ true = ground arith in ap (λ b. if b then a else f x) e

pub write_again : {A : Type 0} (f : ℕ → A) (x addr : ℕ) (a : A) → f x ≡ a → write f addr a x ≡ a
write_again f x addr a e = elim (Bool-cases (x == addr)) [
  | inl q ↦ ap (λ b. if b then a else f x) q
  | inr q ↦ ap (λ b. if b then a else f x) q ∙ e
]

pub write_other :
    {A : Type 0} (f : ℕ → A) (x addr : ℕ) (a : A) → (x ≡ addr → ⊥) → write f addr a x ≡ f x
write_other f x addr a n = elim (Bool-cases (x == addr)) [
  | inl q ↦ let e : x ≡ addr = ground arith in elim (n e) [ ]
  | inr q ↦ ap (λ b. if b then a else f x) q
]

module _ {W : Type 0} ⦃d : Double W⦄ where
  -- The occupancy of a voxel that no ray has met.
  abbrev pub unknown : GridMap W → W
  unknown m = d.sub m.clamp_min_log m.unknown_flag

  -- Nothing is known of the voxel at the address, and nothing is inflated to it.
  abbrev pub IsBlank : GridMap W → ℕ → Type 0
  IsBlank m x =
      (m.occupancy_buffer x ≡ unknown m)
      × (m.occupancy_buffer_inflate_cnt x ≡ 0)
      × (m.occupancy_buffer_inflate x ≡ 0)

  clear_cell-IsBlank : (m : GridMap W) (x : ℕ) → IsBlank (clear_cell m x) x
  unfolding clear_cell forget_cell
  clear_cell-IsBlank m x = (
    write_same m.occupancy_buffer x _,
    write_same m.occupancy_buffer_inflate_cnt x _,
    write_same m.occupancy_buffer_inflate x _,
  )

  clear_cell-IsBlank_still :
      (m : GridMap W) (addr x : ℕ) → IsBlank m x → IsBlank (clear_cell m addr) x
  unfolding clear_cell forget_cell
  clear_cell-IsBlank_still m addr x h = (
    write_again m.occupancy_buffer x addr _ h.0,
    write_again m.occupancy_buffer_inflate_cnt x addr _ h.1,
    write_again m.occupancy_buffer_inflate x addr _ h.2,
  )

  clear_cell-other :
      (m : GridMap W) (addr x : ℕ)
      → (x ≡ addr → ⊥)
      → (clear_cell m addr).occupancy_buffer x ≡ m.occupancy_buffer x
  unfolding clear_cell forget_cell
  clear_cell-other m addr x n = write_other m.occupancy_buffer x addr _ n

  clear_cells-IsBlank_still :
      (m : GridMap W) (l : List ℕ) (x : ℕ) → IsBlank m x → IsBlank (clear_cells m l) x
  unfolding clear_cells
  clear_cells-IsBlank_still m [] x h = h
  clear_cells-IsBlank_still m (a ∷ l) x h =
      clear_cells-IsBlank_still (clear_cell m a) l x (clear_cell-IsBlank_still m a x h)

  pub clear_cells-IsBlank :
      (m : GridMap W) (l : List ℕ) (x : ℕ) → Mem x l → IsBlank (clear_cells m l) x
  unfolding clear_cells
  clear_cells-IsBlank m [] x h = elim h [ ]
  clear_cells-IsBlank m (a ∷ l) x (here e) =
      clear_cells-IsBlank_still (clear_cell m a) l x
        (subst (λ y. IsBlank (clear_cell m a) y) (sym e) (clear_cell-IsBlank m a))
  clear_cells-IsBlank m (a ∷ l) x (there h) = clear_cells-IsBlank (clear_cell m a) l x h

  pub clear_cells-other :
      (m : GridMap W) (l : List ℕ) (x : ℕ)
      → (Mem x l → ⊥)
      → (clear_cells m l).occupancy_buffer x ≡ m.occupancy_buffer x
  unfolding clear_cells
  clear_cells-other m [] x n = refl
  clear_cells-other m (a ∷ l) x n =
      clear_cells-other (clear_cell m a) l x (λ h. n (there h))
      ∙ clear_cell-other m a x (λ e. n (here e))

  clear_cell-parameters : (m : GridMap W) (addr : ℕ) → (clear_cell m addr).parameters ≡ m.parameters
  unfolding clear_cell forget_cell
  clear_cell-parameters m addr = refl

  pub clear_cells-parameters :
      (m : GridMap W) (l : List ℕ) → (clear_cells m l).parameters ≡ m.parameters
  unfolding clear_cells
  clear_cells-parameters m [] = refl
  clear_cells-parameters m (a ∷ l) =
      clear_cells-parameters (clear_cell m a) l ∙ clear_cell-parameters m a

  -- What the loop that takes back the inflation leaves as it is.
  abbrev pub IsSame : GridMap W → GridMap W → Type 0
  IsSame m n = (m.parameters ≡ n.parameters) × (m.occupancy_buffer ≡ n.occupancy_buffer)

  if-IsSame : (b : Bool) (m n : GridMap W) → IsSame n m → IsSame (if b then n else m) m
  if-IsSame true m n h = h
  if-IsSame false m n h = (refl, refl)

  reset_one-IsSame :
      (m : GridMap W) (addr : ℕ) (mask : ℕ → Bool)
      → IsSame (reset_cell_by_address_for_sliding m addr mask) m
  unfolding reset_cell_by_address_for_sliding update_inflation
  reset_one-IsSame m addr mask =
      if-IsSame (occupied_value m (m.occupancy_buffer addr)) m _ (refl, refl)

  pub uninflate_cells-IsSame :
      (m : GridMap W) (mask : ℕ → Bool) (l : List ℕ) → IsSame (uninflate_cells m mask l) m
  unfolding uninflate_cells
  uninflate_cells-IsSame m mask [] = (refl, refl)
  uninflate_cells-IsSame m mask (a ∷ l) =
      let h = uninflate_cells-IsSame (reset_cell_by_address_for_sliding m a mask) mask l in
      let g = reset_one-IsSame m a mask in (h.0 ∙ g.0, h.1 ∙ g.1)
