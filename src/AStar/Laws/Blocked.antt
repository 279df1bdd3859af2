-- ===== src/AStar/Laws/Blocked.antt =====
-- dyn_a_star.cpp: a place that is visited first along a heading on which it is not free.
use tron2_navigation_ros.Base.{
  ℕ, ◌≡◌, sym, ap, subst, ◌∙◌, ◌⊎◌, inl, inr, Bool, true, false, List, [], ◌∷◌, ℤ, is_zero, ◌==◌,
  arith, Bool-cases, some, ◌≢◌, All, one_more,
}
use tron2_navigation_ros.Double.{Double}
use tron2_navigation_ros.Vector.{Vector3i}
use tron2_navigation_ros.Vector.Index.{same_index, same_index-eq, same_index_refl}
use tron2_navigation_ros.GridMap.State.{GridMap}
use tron2_navigation_ros.AStar.State.{Frame, Nodes, put_node}
use tron2_navigation_ros.AStar.Grid.{is_inner}
use tron2_navigation_ros.AStar.Endpoints.{check_occupancy}
use tron2_navigation_ros.AStar.Search.{
  neighbor_idx, neighbor_yaw, reached_node, reach, visit, visit_all, close, turns, top,
}
use tron2_navigation_ros.AStar.Laws.Ends.{top-All, next_nodes}

module _ {W : Type 0} ⦃d : Double W⦄ (map : GridMap W) (f : Frame W)
    (start_idx end_idx : Vector3i) where
  abbrev place_of : Nodes W → Vector3i → ℤ × ℤ → Vector3i
  place_of s current turn =
      neighbor_idx map f start_idx end_idx (s.grid_node_map current).index turn

  abbrev is_marked : Nodes W → Vector3i → Bool
  is_marked s p = (s.grid_node_map p).rounds == f.rounds

  -- A turn opens no node but one without a mark.
  visit-open_nodes :
      (s : Nodes W) (current : Vector3i) (turn : ℤ × ℤ)
      → ((visit map f start_idx end_idx s current turn).open_nodes ≡ s.open_nodes)
        ⊎ (((visit map f start_idx end_idx s current turn).open_nodes
              ≡ place_of s current turn ∷ s.open_nodes)
            × (is_marked s (place_of s current turn) ≡ false))
  unfolding visit reach
  visit-open_nodes s current turn = ground arith

  -- Marks stay.
  visit-marked :
      (s : Nodes W) (current p : Vector3i) (turn : ℤ × ℤ)
      → is_marked s p ≡ true
      → is_marked (visit map f start_idx end_idx s current turn) p ≡ true
  unfolding visit reach put_node reached_node
  visit-marked s current p turn h = ground arith

  -- The place has a mark, and is not in the open set.
  abbrev IsOut : Vector3i → Nodes W → Type 0
  IsOut p s = (is_marked s p ≡ true) × All (λ q. q ≢ p) s.open_nodes

  visit-IsOut :
      (s : Nodes W) (current p : Vector3i) (turn : ℤ × ℤ)
      → IsOut p s
      → IsOut p (visit map f start_idx end_idx s current turn)
  visit-IsOut s current p turn (h, a) = (
    visit-marked s current p turn h,
    elim (visit-open_nodes s current turn) [
      | inl e ↦ subst (All (λ q. q ≢ p)) (sym e) a
      | inr (e, n) ↦
          subst (All (λ q. q ≢ p)) (sym e)
            (one_more (λ g. let m = sym (ap (is_marked s) g ∙ h) ∙ n in let z : ⊥ = cc in z) a)
    ],
  )

  visit_all-IsOut :
      (s : Nodes W) (current p : Vector3i) (ts : List (ℤ × ℤ))
      → IsOut p s
      → IsOut p (visit_all map f start_idx end_idx s current ts)
  unfolding visit_all
  visit_all-IsOut s current p [] h = h
  visit_all-IsOut s current p (t ∷ ts) h =
      visit_all-IsOut (visit map f start_idx end_idx s current t) current p ts
        (visit-IsOut s current p t h)

  close-IsOut :
      (s : Nodes W) (current p : Vector3i)
      → IsOut p s
      → IsOut p (close map f start_idx end_idx s current)
  unfolding close put_node
  close-IsOut s current p (h, a) = (
    elim (Bool-cases (same_index p current)) [
      | inl e ↦ let q = same_index-eq p current e in let r = ap (is_marked s) q in ground arith
      | inr e ↦ ground arith
    ],
    a,
  )

  blocked-open_nodes :
      (s : Nodes W) (current : Vector3i) (turn : ℤ × ℤ)
      → let place = place_of s current turn in
        is_inner f place ≡ true
        → is_marked s place ≡ false
        → is_zero (check_occupancy map f place (neighbor_yaw turn)) ≡ false
        → (visit map f start_idx end_idx s current turn).open_nodes ≡ s.open_nodes
  unfolding visit
  blocked-open_nodes s current turn i m o = ground arith

  -- A turn to a place that is not free on its heading leaves it marked and as it was in the open set.
  visit-blocked :
      (s : Nodes W) (current : Vector3i) (turn : ℤ × ℤ)
      → let place = place_of s current turn in
        is_inner f place ≡ true
        → is_marked s place ≡ false
        → is_zero (check_occupancy map f place (neighbor_yaw turn)) ≡ false
        → All (λ q. q ≢ place) s.open_nodes
        → IsOut place (visit map f start_idx end_idx s current turn)
  unfolding visit put_node
  visit-blocked s current turn i m o a =
      let e = same_index_refl (place_of s current turn) in
      (
        ground arith,
        subst (All (λ q. q ≢ place_of s current turn))
            (sym (blocked-open_nodes s current turn i m o)) a,
      )

  module _ (choose : List Vector3i → ℕ) where
    -- The rounds that the loop can make from the nodes `s` on.
    pub data Later (s : Nodes W) : Nodes W → Type 0 where
      now : Later s s
      round :
          {t : Nodes W} {current : Vector3i} {others : List Vector3i}
          → Later s t
          → top choose t.open_nodes ≡ some (current, others)
          → Later s (next_nodes map f start_idx end_idx t current others)

    Later-IsOut : (p : Vector3i) (s t : Nodes W) → Later s t → IsOut p s → IsOut p t
    Later-IsOut p s t now h = h
    Later-IsOut p s t (round {t = u} {current = c} {others = o} l e) h =
        let r = Later-IsOut p s u l h in
        let q = top-All choose u.open_nodes c o e r.1 in
        visit_all-IsOut _ c p turns (close-IsOut (record u { open_nodes = o }) c p (r.0, q.1))

    -- When a search comes to a place inside the grid for the first time, and the place is not free for the
    -- heading of that turn, the place is not taken from the open set in any later round of the search,
    -- whatever the rest of the turns, even where it is free for the heading of a later turn.
    pub visit-blocked_for_good :
        (s : Nodes W) (current : Vector3i) (turn : ℤ × ℤ) (rest : List (ℤ × ℤ)) (t : Nodes W)
        (next : Vector3i) (others : List Vector3i)
        → let place = neighbor_idx map f start_idx end_idx (s.grid_node_map current).index turn in
          is_inner f place ≡ true
          → ((s.grid_node_map place).rounds == f.rounds) ≡ false
          → is_zero (check_occupancy map f place (neighbor_yaw turn)) ≡ false
          → All (λ q. q ≢ place) s.open_nodes
          → Later
              (visit_all map f start_idx end_idx
                (visit map f start_idx end_idx s current turn)
                current
                rest)
              t
          → top choose t.open_nodes ≡ some (next, others)
          → next ≢ place
    visit-blocked_for_good s current turn rest t next others i m o a l e =
        let place = place_of s current turn in
        let h =
          visit_all-IsOut (visit map f start_idx end_idx s current turn) current place rest
            (visit-blocked s current turn i m o a) in
        (top-All choose t.open_nodes next others e (Later-IsOut place _ t l h).1).0
