-- ===== src/AStar/Laws/Work.antt =====
-- dyn_a_star.cpp: how many rounds the search can still make: the nodes in the open set, and those of the
-- grid that this search has not marked.
use tron2_navigation_ros.Base.{
  ℕ, ◌+◌, ◌≤◌, ◌<◌, ◌≡◌, sym, ap, ◌∙◌, inl, inr, true, false, List, [], ◌∷◌, pos, ◌-ℤ◌, ◌==◌,
  if◌then◌else◌, arith, Bool-cases, Mem, here, there, length,
}
use tron2_navigation_ros.Vector.{Vector3i}
use tron2_navigation_ros.Vector.Index.{same_index, same_index-eq, same_index_refl}
use tron2_navigation_ros.GridMap.Region.{box}
use tron2_navigation_ros.AStar.State.{GridNode, Frame, Nodes, put_node}
use tron2_navigation_ros.AStar.Laws.Visits.{put_node-here, put_node-elsewhere}

-- The places that have a place on each side.
unfoldable pub inner_places : {W : Type 0} → Frame W → List Vector3i
inner_places f =
    box (record { x = pos 1; y = pos 1; z = pos 1 })
      (record {
        x = f.pool_size.x -ℤ pos 2;
        y = f.pool_size.y -ℤ pos 2;
        z = f.pool_size.z -ℤ pos 2;
      })

same_rounds : (a b : ℕ) → a ≡ b → (a == b) ≡ true
same_rounds a b h = ground arith

module _ {W : Type 0} (f : Frame W) where
  -- How many of the places the search has not marked.
  unfoldable pub unmarked : (Vector3i → GridNode W) → List Vector3i → ℕ
  unmarked nodes [] = 0
  unmarked nodes (p ∷ ps) = (if (nodes p).rounds == f.rounds then 0 else 1) + unmarked nodes ps

  mark-here :
      (nodes : Vector3i → GridNode W) (place p : Vector3i) (node : GridNode W)
      → node.rounds ≡ f.rounds
      → same_index p place ≡ true
      → ((put_node nodes place node p).rounds == f.rounds) ≡ true
  mark-here nodes place p node h e =
      let q =
        ap (put_node nodes place node) (same_index-eq p place e) ∙ put_node-here nodes place node in
      same_rounds _ _ (ap (λ (x : GridNode W). x.rounds) q ∙ h)

  mark-elsewhere :
      (nodes : Vector3i → GridNode W) (place p : Vector3i) (node : GridNode W)
      → same_index p place ≡ false
      → ((put_node nodes place node p).rounds == f.rounds) ≡ ((nodes p).rounds == f.rounds)
  mark-elsewhere nodes place p node e =
      ap (λ (x : GridNode W). x.rounds == f.rounds) (put_node-elsewhere nodes place node p e)

  -- A mark leaves no more places unmarked.
  pub unmarked-le :
      (nodes : Vector3i → GridNode W) (place : Vector3i) (node : GridNode W) (ps : List Vector3i)
      → node.rounds ≡ f.rounds
      → unmarked (put_node nodes place node) ps ≤ unmarked nodes ps
  unfolding unmarked
  unmarked-le nodes place node [] h = omega arith
  unmarked-le nodes place node (p ∷ ps) h =
      let r = unmarked-le nodes place node ps h in
      elim (Bool-cases (same_index p place)) [
        | inl e ↦ let m = mark-here nodes place p node h e in ground arith
        | inr e ↦ let m = mark-elsewhere nodes place p node e in ground arith
      ]

  -- The mark of a place that had none leaves fewer.
  pub unmarked-lt :
      (nodes : Vector3i → GridNode W) (place : Vector3i) (node : GridNode W) (ps : List Vector3i)
      → node.rounds ≡ f.rounds
      → ((nodes place).rounds == f.rounds) ≡ false
      → Mem place ps
      → unmarked (put_node nodes place node) ps < unmarked nodes ps
  unfolding unmarked
  unmarked-lt nodes place node [] h g m = elim m [ ]
  unmarked-lt nodes place node (p ∷ ps) h g (here e) =
      let r = unmarked-le nodes place node ps h in
      let q =
        mark-here nodes place p node h
          (ap (λ x. same_index x place) (sym e) ∙ same_index_refl place) in
      let o = ap (λ x. (nodes x).rounds == f.rounds) (sym e) ∙ g in ground arith
  unmarked-lt nodes place node (p ∷ ps) h g (there m) =
      let r = unmarked-lt nodes place node ps h g m in
      elim (Bool-cases (same_index p place)) [
        | inl e ↦ let q = mark-here nodes place p node h e in ground arith
        | inr e ↦ let q = mark-elsewhere nodes place p node e in ground arith
      ]

  pub unmarked-length :
      (nodes : Vector3i → GridNode W) (ps : List Vector3i) → unmarked nodes ps ≤ length ps
  unfolding unmarked
  unmarked-length nodes [] = omega arith
  unmarked-length nodes (p ∷ ps) = let r = unmarked-length nodes ps in ground arith

  abbrev pub work : Nodes W → ℕ
  work s = length s.open_nodes + unmarked s.grid_node_map (inner_places f)
