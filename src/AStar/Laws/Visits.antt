-- ===== src/AStar/Laws/Visits.antt =====
-- dyn_a_star.cpp: closing a node and visiting its neighbours keeps every pointer on a way back to the
-- start.
use tron2_navigation_ros.Base.{
  ℕ, ◌≡◌, sym, ap, subst, ◌∙◌, ◌⊎◌, inl, inr, false, some, ◌∷◌, ◌==◌, if◌then◌else◌, Bool-cases,
}
use tron2_navigation_ros.Double.{Double}
use tron2_navigation_ros.Vector.{Vector3i}
use tron2_navigation_ros.Vector.Index.{same_index, same_index-eq, same_index_refl}
use tron2_navigation_ros.GridMap.State.{GridMap}
use tron2_navigation_ros.AStar.State.{GridNode, Frame, Nodes, put_node}
use tron2_navigation_ros.AStar.Search.{store}
use tron2_navigation_ros.AStar.Laws.Route.{IsStep, IsDone, Chain, Origin, Linked, Keeps, Chain-kept}

pub put_node-here :
    {W : Type 0} (nodes : Vector3i → GridNode W) (place : Vector3i) (node : GridNode W)
    → put_node nodes place node place ≡ node
unfolding put_node
put_node-here nodes place node = ap (λ b. if b then node else nodes place) (same_index_refl place)

pub put_node-elsewhere :
    {W : Type 0} (nodes : Vector3i → GridNode W) (place : Vector3i) (node : GridNode W)
    (p : Vector3i)
    → same_index p place ≡ false
    → put_node nodes place node p ≡ nodes p
unfolding put_node
put_node-elsewhere nodes place node p h = ap (λ b. if b then node else nodes p) h

module _ {W : Type 0} ⦃d : Double W⦄ (map : GridMap W) (f : Frame W)
    (start_idx end_idx : Vector3i) where
  -- What may be written to a node: its name and mark, and no pointer but one to `current`.
  pub record IsWrite (nodes : Vector3i → GridNode W) (current place : Vector3i) (node : GridNode W)
      : Type 0 where
    pub unless_done : IsDone map f start_idx end_idx (nodes place) place → node ≡ nodes place
    pub named : node.index ≡ place
    pub this_round : node.rounds ≡ f.rounds
    pub pointer :
        (node.came_from ≡ (nodes place).came_from)
        ⊎ ((node.came_from ≡ some current) × IsStep map f start_idx end_idx current place)

  pub write-Keeps :
      (nodes : Vector3i → GridNode W) (current place : Vector3i) (node : GridNode W)
      → IsWrite nodes current place node
      → Keeps map f start_idx end_idx nodes (put_node nodes place node)
  write-Keeps nodes current place node w p h = elim (Bool-cases (same_index p place)) [
    | inl e ↦
        let q = same_index-eq p place e in
        subst (λ x. put_node nodes place node x ≡ nodes x) (sym q)
          (put_node-here nodes place node
            ∙ w.unless_done (subst (λ x. IsDone map f start_idx end_idx (nodes x) x) q h))
    | inr e ↦ put_node-elsewhere nodes place node p e
  ]

  origin-kept :
      (nodes next : Vector3i → GridNode W) (p : Vector3i) (n : ℕ)
      → Keeps map f start_idx end_idx nodes next
      → (next p).came_from ≡ (nodes p).came_from
      → Origin map f start_idx end_idx nodes p n
      → Origin map f start_idx end_idx next p n
  origin-kept nodes next p n k e (inl (s, g)) = inl (s, e ∙ g)
  origin-kept nodes next p n k e (inr (q, g, s, c)) =
      inr (q, e ∙ g, s, Chain-kept map f start_idx end_idx nodes next k q n c)

  pub origin-toward :
      (nodes : Vector3i → GridNode W) (current place : Vector3i) (node : GridNode W) (n : ℕ)
      → IsWrite nodes current place node
      → Chain map f start_idx end_idx nodes current n
      → node.came_from ≡ some current
      → IsStep map f start_idx end_idx current place
      → Origin map f start_idx end_idx (put_node nodes place node) place n
  origin-toward nodes current place node n w c e s = inr (
    current,
    ap (λ (x : GridNode W). x.came_from) (put_node-here nodes place node) ∙ e,
    s,
    Chain-kept map f start_idx end_idx nodes (put_node nodes place node)
        (write-Keeps nodes current place node w) current n c,
  )

  pub Linked-with :
      (nodes : Vector3i → GridNode W) (current place : Vector3i) (node : GridNode W) (n : ℕ)
      → IsWrite nodes current place node
      → Origin map f start_idx end_idx (put_node nodes place node) place n
      → Linked map f start_idx end_idx (put_node nodes place node) n place
  Linked-with nodes current place node n w o =
      let e = put_node-here nodes place node in
      record {
        this_round = ap (λ (x : GridNode W). x.rounds) e ∙ w.this_round;
        named = ap (λ (x : GridNode W). x.index) e ∙ w.named;
        reached = o;
      }

  -- The pointer stays, or leads to a node with a chain.
  abbrev pub Pointed : (Vector3i → GridNode W) → Vector3i → Vector3i → GridNode W → ℕ → Type 0
  Pointed nodes current place node n =
      (node.came_from ≡ (nodes place).came_from)
      ⊎ ((node.came_from ≡ some current)
          × IsStep map f start_idx end_idx current place
          × Chain map f start_idx end_idx nodes current n)

  write-here :
      (nodes : Vector3i → GridNode W) (current place : Vector3i) (node : GridNode W) (n : ℕ)
      → IsWrite nodes current place node
      → Pointed nodes current place node n
      → Linked map f start_idx end_idx nodes n place
      → Linked map f start_idx end_idx (put_node nodes place node) n place
  write-here nodes current place node n w c l =
      let next = put_node nodes place node in
      Linked-with nodes current place node n w (elim c [
        | inl e ↦
            origin-kept nodes next place n (write-Keeps nodes current place node w)
              (ap (λ (x : GridNode W). x.came_from) (put_node-here nodes place node) ∙ e) l.reached
        | inr (e, s, h) ↦ origin-toward nodes current place node n w h e s
      ])

  -- A write leaves every linked node linked.
  pub write-Linked :
      (nodes : Vector3i → GridNode W) (current place : Vector3i) (node : GridNode W) (n : ℕ)
      → IsWrite nodes current place node
      → Pointed nodes current place node n
      → (p : Vector3i) → Linked map f start_idx end_idx nodes n p
      → Linked map f start_idx end_idx (put_node nodes place node) n p
  write-Linked nodes current place node n w c p l =
      let next = put_node nodes place node in
      elim (Bool-cases (same_index p place)) [
        | inl e ↦
            let q = same_index-eq p place e in
            subst (Linked map f start_idx end_idx next n) (sym q) (
              write-here nodes current place node n w c
                (subst (Linked map f start_idx end_idx nodes n) q l))
        | inr e ↦
            let q = put_node-elsewhere nodes place node p e in
            record {
              this_round = ap (λ (x : GridNode W). x.rounds) q ∙ l.this_round;
              named = ap (λ (x : GridNode W). x.index) q ∙ l.named;
              reached =
                  origin-kept nodes next p n (write-Keeps nodes current place node w)
                    (ap (λ (x : GridNode W). x.came_from) q) l.reached;
            }
      ]

  -- What one turn does: nothing, a write to a node, or a write to one that it opens.
  pub data Visited (s : Nodes W) (current : Vector3i) : Nodes W → Type 0 where
    left_alone : {next : Nodes W} → next ≡ s → Visited s current next
    written :
        {next : Nodes W} {place : Vector3i} {node : GridNode W}
        → IsWrite s.grid_node_map current place node
        → next ≡ store s place node
        → Visited s current next
    opened :
        {next : Nodes W} {place : Vector3i} {node : GridNode W}
        → IsWrite s.grid_node_map current place node
        → node.came_from ≡ some current
        → IsStep map f start_idx end_idx current place
        → ((s.grid_node_map place).rounds == f.rounds) ≡ false
        → next ≡ record {
          grid_node_map = put_node s.grid_node_map place node;
          open_nodes = place ∷ s.open_nodes;
        }
        → Visited s current next
