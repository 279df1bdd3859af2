-- ===== src/AStar/Laws/Loop.antt =====
-- dyn_a_star.cpp: the loop on the open set keeps its invariant, and ends.
use tron2_navigation_ros.Base.{
  ℕ, ◌≤◌, ◌≡◌, sym, ap, subst, ◌∙◌, inl, inr, false, some, List, [], ◌∷◌, ℤ, ◌==◌, arith,
  Bool-cases, All, one_more, All-mono,
}
use tron2_navigation_ros.Double.{Double}
use tron2_navigation_ros.Vector.{Vector3i}
use tron2_navigation_ros.Vector.Index.{same_index, same_index-eq}
use tron2_navigation_ros.GridMap.State.{GridMap}
use tron2_navigation_ros.AStar.State.{GridNode, Frame, Nodes, put_node}
use tron2_navigation_ros.AStar.Search.{store, visit, visit_all}
use tron2_navigation_ros.AStar.Laws.Route.{IsTurn, IsStep, Chain, Linked, Chain-IsDone, Chain-kept}
use tron2_navigation_ros.AStar.Laws.Visits.{
  IsWrite, Visited, left_alone, written, opened, put_node-here, put_node-elsewhere, write-Keeps,
  write-Linked, origin-toward, Linked-with, Pointed,
}
use tron2_navigation_ros.AStar.Laws.Turns.{visit-Visited}
use tron2_navigation_ros.AStar.Laws.Work.{inner_places, unmarked-le, unmarked-lt, work}
use tron2_navigation_ros.AStar.Laws.Places.{inner_places_complete}

module _ {W : Type 0} ⦃d : Double W⦄ (map : GridMap W) (f : Frame W)
    (start_idx end_idx : Vector3i) where
  -- Every open node is linked by chains of at most `n` nodes, and the end node has its index.
  pub record Invariant (n : ℕ) (s : Nodes W) : Type 0 where
    pub linked : All (Linked map f start_idx end_idx s.grid_node_map n) s.open_nodes
    pub end_named : (s.grid_node_map end_idx).index ≡ end_idx

  pub named-after :
      (nodes : Vector3i → GridNode W) (place : Vector3i) (node : GridNode W)
      → node.index ≡ place
      → (nodes end_idx).index ≡ end_idx
      → (put_node nodes place node end_idx).index ≡ end_idx
  named-after nodes place node h g = elim (Bool-cases (same_index end_idx place)) [
    | inl e ↦
        let q = same_index-eq end_idx place e in
        ap (λ x. (put_node nodes place node x).index) q
        ∙ ap (λ (x : GridNode W). x.index) (put_node-here nodes place node)
        ∙ h
        ∙ sym q
    | inr e ↦ ap (λ (x : GridNode W). x.index) (put_node-elsewhere nodes place node end_idx e) ∙ g
  ]

  -- What a turn around a node with a chain leaves.
  abbrev pub After : ℕ → Nodes W → Vector3i → Nodes W → Type 0
  After n s current next =
      Invariant n next
      × Chain map f start_idx end_idx next.grid_node_map current n
      × (work f next ≤ work f s)

  pointed :
      (s : Nodes W) (current place : Vector3i) (node : GridNode W) (n : ℕ)
      → IsWrite map f start_idx end_idx s.grid_node_map current place node
      → Chain map f start_idx end_idx s.grid_node_map current n
      → Pointed map f start_idx end_idx s.grid_node_map current place node n
  pointed s current place node n w c = elim w.pointer [ inl e ↦ inl e | inr (e, t) ↦ inr (e, t, c) ]

  written-After :
      (n : ℕ) (s : Nodes W) (current place : Vector3i) (node : GridNode W)
      → IsWrite map f start_idx end_idx s.grid_node_map current place node
      → Chain map f start_idx end_idx s.grid_node_map current n
      → Invariant n s
      → After n s current (store s place node)
  written-After n s current place node w c v =
      let nodes = s.grid_node_map in
      let le = unmarked-le f nodes place node (inner_places f) w.this_round in
      (
        record {
          linked =
              All-mono _ _ s.open_nodes
                (write-Linked map f start_idx end_idx nodes current place node n w
                  (pointed s current place node n w c))
                v.linked;
          end_named = named-after nodes place node w.named v.end_named;
        },
        Chain-kept map f start_idx end_idx nodes (put_node nodes place node)
            (write-Keeps map f start_idx end_idx nodes current place node w) current n c,
        omega arith,
      )

  opened-After :
      (n : ℕ) (s : Nodes W) (current place : Vector3i) (node : GridNode W)
      → IsWrite map f start_idx end_idx s.grid_node_map current place node
      → node.came_from ≡ some current
      → IsStep map f start_idx end_idx current place
      → ((s.grid_node_map place).rounds == f.rounds) ≡ false
      → Chain map f start_idx end_idx s.grid_node_map current n
      → Invariant n s
      → After n s current (record {
        grid_node_map = put_node s.grid_node_map place node;
        open_nodes = place ∷ s.open_nodes;
      })
  opened-After n s current place node w e t h c v =
      let nodes = s.grid_node_map in
      let r = written-After n s current place node w c v in
      let lt =
        unmarked-lt f nodes place node (inner_places f) w.this_round h
          (inner_places_complete f place t.inner) in
      (
        record {
          linked =
              one_more
                (Linked-with map f start_idx end_idx nodes current place node n w
                  (origin-toward map f start_idx end_idx nodes current place node n w c e t))
                r.0.linked;
          end_named = r.0.end_named;
        },
        r.1,
        omega arith,
      )

  visited-After :
      (n : ℕ) (s : Nodes W) (current : Vector3i) (next : Nodes W)
      → Visited map f start_idx end_idx s current next
      → Chain map f start_idx end_idx s.grid_node_map current n
      → Invariant n s
      → After n s current next
  visited-After n s current next (left_alone e) c v =
      subst (After n s current) (sym e) (v, c, omega arith)
  visited-After n s current next (written {place = place} {node = node} w e) c v =
      subst (After n s current) (sym e) (written-After n s current place node w c v)
  visited-After n s current next (opened {place = place} {node = node} w e t h q) c v =
      subst (After n s current) (sym q) (opened-After n s current place node w e t h c v)

  pub visit_all-After :
      (n : ℕ) (s : Nodes W) (current : Vector3i) (ts : List (ℤ × ℤ))
      → All IsTurn ts
      → Chain map f start_idx end_idx s.grid_node_map current n
      → Invariant n s
      → After n s current (visit_all map f start_idx end_idx s current ts)
  unfolding visit_all
  visit_all-After n s current [] h c v = (v, c, omega arith)
  visit_all-After n s current (t ∷ ts) (one_more p h) c v =
      let named = (Chain-IsDone map f start_idx end_idx s.grid_node_map current n c).2 in
      let next = visit map f start_idx end_idx s current t in
      let r =
        visited-After n s current next (visit-Visited map f start_idx end_idx s current t p named) c
          v in
      let q = visit_all-After n next current ts h r.1 r.0 in (q.0, q.1, omega (arith, q.2, r.2))
