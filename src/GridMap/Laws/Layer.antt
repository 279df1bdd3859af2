-- ===== src/GridMap/Laws/Layer.antt =====
-- grid_map.cpp: what one call of updateInflationLayer does to the count and the flag of a voxel.
use tron2_navigation_ros.Base.{
  ℕ, suc, ◌+◌, ◌-◌, ◌≡◌, ◌≢◌, refl, sym, ap, ◌∙◌, inl, inr, Bool, true, false, Option, List, [],
  ◌∷◌, ℤ, pos, negsuc, pos_part, ◌+ℤ◌, ltb, if◌then◌else◌, arith, Bool-cases,
}
use tron2_navigation_ros.Vector.{Vector3i, add_index, sub_index}
use tron2_navigation_ros.GridMap.State.{GridMap}
use tron2_navigation_ros.GridMap.Address.{to_address, is_in_map_index}
use tron2_navigation_ros.GridMap.Update.{Layer, is_masked, inflate_offset, update_inflation_layer}
use tron2_navigation_ros.Vector.Index.{
  same_index, same_index-eq, same_index_refl, add_index-sub_index, sub_index-add_index,
}
use tron2_navigation_ros.GridMap.Laws.Roundtrip.{IsWindow, to_address_inj}

-- How often the offsets lead from `id` to `c`.
unfoldable pub hits : Vector3i → Vector3i → List Vector3i → ℕ
hits id c [] = 0
hits id c (offset ∷ offsets) =
    (if same_index (add_index id offset) c then 1 else 0) + hits id c offsets

hits-nil : (id c : Vector3i) → hits id c [] ≡ 0
unfolding hits
hits-nil id c = refl

hits-here :
    (id c offset : Vector3i) (offsets : List Vector3i)
    → same_index (add_index id offset) c ≡ true
    → hits id c (offset ∷ offsets) ≡ suc (hits id c offsets)
unfolding hits
hits-here id c offset offsets e = ap (λ b. (if b then 1 else 0) + hits id c offsets) e ∙ omega arith

hits-elsewhere :
    (id c offset : Vector3i) (offsets : List Vector3i)
    → same_index (add_index id offset) c ≡ false
    → hits id c (offset ∷ offsets) ≡ hits id c offsets
unfolding hits
hits-elsewhere id c offset offsets e =
    ap (λ b. (if b then 1 else 0) + hits id c offsets) e ∙ omega arith

one-more : (n : ℕ) → pos_part (pos n +ℤ pos 1) ≡ suc n
unfolding ◌+ℤ◌
one-more n = ground arith

one-less : (n : ℕ) → pos_part (pos n +ℤ negsuc 0) ≡ n - 1
unfolding ◌+ℤ◌
one-less n = ground arith

abbrev pub flag_of : ℕ → ℕ
flag_of cnt = if ltb 0 cnt then 1 else 0

module _ {W : Type 0} (m : GridMap W) (w : IsWindow m) (c : Vector3i)
    (in_map : is_in_map_index m c ≡ true) (mask : Option (ℕ → Bool))
    (unmasked : is_masked mask (to_address m.parameters c) ≡ false) where
  abbrev addr : ℕ
  addr = to_address m.parameters c

  -- The voxel that an offset leads to is counted, another is not.
  offset-here :
      (id : Vector3i) (delta : ℤ) (l : Layer) (offset : Vector3i)
      → same_index (add_index id offset) c ≡ true
      → let r = inflate_offset m id delta mask l offset in
        let cnt = pos_part (pos (l.cnt_buffer addr) +ℤ delta) in
        (r.cnt_buffer addr ≡ cnt) × (r.flag_buffer addr ≡ flag_of cnt)
  unfolding inflate_offset
  offset-here id delta l offset h =
      let e = same_index-eq _ c h in
      let i = ap (is_in_map_index m) e ∙ in_map in
      let a = ap (to_address m.parameters) e in ground arith

  offset-elsewhere :
      (id : Vector3i) (delta : ℤ) (l : Layer) (offset : Vector3i)
      → same_index (add_index id offset) c ≡ false
      → let r = inflate_offset m id delta mask l offset in
        (r.cnt_buffer addr ≡ l.cnt_buffer addr) × (r.flag_buffer addr ≡ l.flag_buffer addr)
  unfolding inflate_offset
  offset-elsewhere id delta l offset h =
      elim (Bool-cases (is_in_map_index m (add_index id offset))) [
        | inl i ↦
            let n : to_address m.parameters (add_index id offset) ≢ addr = λ e.
              let s = ap (λ a. same_index a c) (to_address_inj m _ c w i in_map e) in
              let t = same_index_refl c in ground arith in
            ground arith
        | inr i ↦ ground arith
      ]

  -- The count goes up by the number of offsets that lead to the voxel, and the flag follows it.
  pub layer-up :
      (id : Vector3i) (offsets : List Vector3i) (l : Layer)
      → l.flag_buffer addr ≡ flag_of (l.cnt_buffer addr)
      → let r = update_inflation_layer m id (pos 1) mask offsets l in
        (r.cnt_buffer addr ≡ l.cnt_buffer addr + hits id c offsets)
        × (r.flag_buffer addr ≡ flag_of (r.cnt_buffer addr))
  unfolding update_inflation_layer
  layer-up id [] l h = (omega (arith, hits-nil id c), h)
  layer-up id (offset ∷ offsets) l h = elim (Bool-cases (same_index (add_index id offset) c)) [
    | inl e ↦
        let s = offset-here id (pos 1) l offset e in
        let g = s.1 ∙ ap flag_of (sym s.0) in
        let r = layer-up id offsets (inflate_offset m id (pos 1) mask l offset) g in
        let n = s.0 ∙ one-more (l.cnt_buffer addr) in
        (omega (arith, r.0, n, hits-here id c offset offsets e), r.1)
    | inr e ↦
        let s = offset-elsewhere id (pos 1) l offset e in
        let g = s.1 ∙ h ∙ ap flag_of (sym s.0) in
        let r = layer-up id offsets (inflate_offset m id (pos 1) mask l offset) g in
        (omega (arith, r.0, s.0, hits-elsewhere id c offset offsets e), r.1)
  ]

  -- Likewise down, to 0 at the least.
  pub layer-down :
      (id : Vector3i) (offsets : List Vector3i) (l : Layer)
      → l.flag_buffer addr ≡ flag_of (l.cnt_buffer addr)
      → let r = update_inflation_layer m id (negsuc 0) mask offsets l in
        (r.cnt_buffer addr ≡ l.cnt_buffer addr - hits id c offsets)
        × (r.flag_buffer addr ≡ flag_of (r.cnt_buffer addr))
  unfolding update_inflation_layer
  layer-down id [] l h = (omega (arith, hits-nil id c), h)
  layer-down id (offset ∷ offsets) l h = elim (Bool-cases (same_index (add_index id offset) c)) [
    | inl e ↦
        let s = offset-here id (negsuc 0) l offset e in
        let g = s.1 ∙ ap flag_of (sym s.0) in
        let r = layer-down id offsets (inflate_offset m id (negsuc 0) mask l offset) g in
        let n = s.0 ∙ one-less (l.cnt_buffer addr) in
        (omega (arith, r.0, n, hits-here id c offset offsets e), r.1)
    | inr e ↦
        let s = offset-elsewhere id (negsuc 0) l offset e in
        let g = s.1 ∙ h ∙ ap flag_of (sym s.0) in
        let r = layer-down id offsets (inflate_offset m id (negsuc 0) mask l offset) g in
        (omega (arith, r.0, s.0, hits-elsewhere id c offset offsets e), r.1)
  ]

-- How many offsets lead to `c` from a voxel that `occ` holds of.
unfoldable pub reaching : (Vector3i → Bool) → Vector3i → List Vector3i → ℕ
reaching occ c [] = 0
reaching occ c (offset ∷ offsets) =
    (if occ (sub_index c offset) then 1 else 0) + reaching occ c offsets

-- Forward from `id` and back from `c`.
same_index-back :
    (id c offset : Vector3i) → same_index (add_index id offset) c ≡ true → sub_index c offset ≡ id
same_index-back id c offset h =
    sym (ap (λ x. sub_index x offset) (same_index-eq _ c h)) ∙ sub_index-add_index id offset

same_index-forth :
    (id c offset : Vector3i) → same_index (sub_index c offset) id ≡ true → add_index id offset ≡ c
same_index-forth id c offset h =
    sym (ap (λ x. add_index x offset) (same_index-eq _ id h)) ∙ add_index-sub_index c offset

-- A voxel that becomes occupied reaches others as often as its offsets lead to them.
pub reaching-gain :
    (occ next : Vector3i → Bool) (id c : Vector3i) (offsets : List Vector3i)
    → ((x : Vector3i) → same_index x id ≡ false → next x ≡ occ x)
    → occ id ≡ false
    → next id ≡ true
    → reaching next c offsets ≡ reaching occ c offsets + hits id c offsets
unfolding reaching hits
reaching-gain occ next id c [] h f t = refl
reaching-gain occ next id c (offset ∷ offsets) h f t =
    let r = reaching-gain occ next id c offsets h f t in
    elim (Bool-cases (same_index (add_index id offset) c)) [
      | inl e ↦
          let b = same_index-back id c offset e in
          let p = ap occ b ∙ f in let q = ap next b ∙ t in ground arith
      | inr e ↦ elim (Bool-cases (same_index (sub_index c offset) id)) [
        | inl g ↦
            let s = ap (λ x. same_index x c) (same_index-forth id c offset g) in
            let z = same_index_refl c in ground arith
        | inr g ↦ let q = h (sub_index c offset) g in ground arith
      ]
    ]

pub reaching-ext :
    (occ next : Vector3i → Bool) (c : Vector3i) (offsets : List Vector3i)
    → ((x : Vector3i) → next x ≡ occ x)
    → reaching next c offsets ≡ reaching occ c offsets
unfolding reaching
reaching-ext occ next c [] h = refl
reaching-ext occ next c (offset ∷ offsets) h =
    let r = reaching-ext occ next c offsets h in let q = h (sub_index c offset) in ground arith
