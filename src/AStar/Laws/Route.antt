-- ===== src/AStar/Laws/Route.antt =====
-- dyn_a_star.cpp: the pointers `cameFrom` lead back to the start whatever the search has visited.
use tron2_navigation_ros.Base.{
  ℕ, zero, suc, ◌+◌, ◌≤◌, ◌<◌, ◌≡◌, sym, ap, subst, ◌∙◌, ◌⊎◌, inl, inr, true, none, some, List, [],
  ◌∷◌, ℤ, pos_part, neg_part, is_zero, arith,
}
use tron2_navigation_ros.Double.{Double}
use tron2_navigation_ros.Vector.{Vector3i}
use tron2_navigation_ros.GridMap.State.{GridMap}
use tron2_navigation_ros.AStar.State.{GridNode, Frame, is_closed}
use tron2_navigation_ros.AStar.Grid.{is_inner}
use tron2_navigation_ros.AStar.Endpoints.{check_occupancy}
use tron2_navigation_ros.AStar.Search.{neighbor_idx, neighbor_yaw, retrieve_path}

-- One of the eight turns.
abbrev pub IsTurn : ℤ × ℤ → Type 0
IsTurn t =
    (pos_part t.0 + neg_part t.0 ≤ 1)
    × (pos_part t.1 + neg_part t.1 ≤ 1)
    × (0 < pos_part t.0 + neg_part t.0 + pos_part t.1 + neg_part t.1)

module _ {W : Type 0} ⦃d : Double W⦄ (map : GridMap W) (f : Frame W)
    (start_idx end_idx : Vector3i) where
  -- `p` is a free neighbour of `q` inside the grid, by one of the eight turns.
  pub record IsStep (q p : Vector3i) : Type 0 where
    pub turn : ℤ × ℤ
    pub is_turn : IsTurn turn
    pub to_neighbor : neighbor_idx map f start_idx end_idx q turn ≡ p
    pub inner : is_inner f p ≡ true
    pub is_free : is_zero (check_occupancy map f p (neighbor_yaw turn)) ≡ true

  -- A path back from a place to the start, each step from a neighbour.
  pub data Route : Vector3i → List Vector3i → Type 0 where
    alone : {p : Vector3i} → p ≡ start_idx → Route p (p ∷ [])
    further :
        {p q : Vector3i} {path : List Vector3i} → IsStep q p → Route q path → Route p (p ∷ path)

  -- The node was taken from the open set in this search.
  abbrev pub IsDone : GridNode W → Vector3i → Type 0
  IsDone node p = (node.rounds ≡ f.rounds) × (is_closed node.state ≡ true) × (node.index ≡ p)

  -- The pointers of at most `n` nodes that are done lead from `p` to the start.
  pub data Chain (nodes : Vector3i → GridNode W) : Vector3i → ℕ → Type 0 where
    origin :
        {p : Vector3i} {n : ℕ}
        → IsDone (nodes p) p
        → p ≡ start_idx
        → (nodes p).came_from ≡ none
        → Chain nodes p (suc n)
    link :
        {p q : Vector3i} {n : ℕ}
        → IsDone (nodes p) p
        → (nodes p).came_from ≡ some q
        → IsStep q p
        → Chain nodes q n
        → Chain nodes p (suc n)

  -- The pointer of `p` is that of the start, or leads to such a chain.
  abbrev pub Origin : (Vector3i → GridNode W) → Vector3i → ℕ → Type 0
  Origin nodes p n =
      ((p ≡ start_idx) × ((nodes p).came_from ≡ none))
      ⊎ ((q : Vector3i) × ((nodes p).came_from ≡ some q) × IsStep q p × Chain nodes q n)

  pub record Linked (nodes : Vector3i → GridNode W) (n : ℕ) (p : Vector3i) : Type 0 where
    pub this_round : (nodes p).rounds ≡ f.rounds
    pub named : (nodes p).index ≡ p
    pub reached : Origin nodes p n

  pub Chain-IsDone :
      (nodes : Vector3i → GridNode W) (p : Vector3i) (n : ℕ) → Chain nodes p n → IsDone (nodes p) p
  Chain-IsDone nodes p zero c = elim c [ ]
  Chain-IsDone nodes p (suc n) (origin h e g) = h
  Chain-IsDone nodes p (suc n) (link h e s c) = h

  pub Chain-more :
      (nodes : Vector3i → GridNode W) (p : Vector3i) (n : ℕ)
      → Chain nodes p n
      → Chain nodes p (suc n)
  Chain-more nodes p zero c = elim c [ ]
  Chain-more nodes p (suc n) (origin h e g) = origin h e g
  Chain-more nodes p (suc n) (link {q = q} h e s c) = link h e s (Chain-more nodes q n c)

  -- Nodes that are done stay as they are.
  abbrev pub Keeps : (Vector3i → GridNode W) → (Vector3i → GridNode W) → Type 0
  Keeps nodes next = (p : Vector3i) → IsDone (nodes p) p → next p ≡ nodes p

  pub Chain-kept :
      (nodes next : Vector3i → GridNode W)
      → Keeps nodes next
      → (p : Vector3i) (n : ℕ) → Chain nodes p n
      → Chain next p n
  Chain-kept nodes next k p zero c = elim c [ ]
  Chain-kept nodes next k p (suc n) (origin h e g) =
      let s = k p h in
      origin (subst (λ x. IsDone x p) (sym s) h) e (ap (λ (x : GridNode W). x.came_from) s ∙ g)
  Chain-kept nodes next k p (suc n) (link {q = q} h e t c) =
      let s = k p h in
      link (subst (λ x. IsDone x p) (sym s) h) (ap (λ (x : GridNode W). x.came_from) s ∙ e) t
        (Chain-kept nodes next k q n c)

  -- A chain leads to the start within its number of nodes.
  pub retrieve_path-Chain :
      (nodes : Vector3i → GridNode W) (p : Vector3i) (n fuel : ℕ)
      → Chain nodes p n
      → n ≤ fuel
      → (path : List Vector3i) × (retrieve_path fuel nodes p ≡ some path) × Route p path
  unfolding retrieve_path
  retrieve_path-Chain nodes p zero fuel c h = elim c [ ]
  retrieve_path-Chain nodes p (suc n) zero c h = let z : ⊥ = omega arith in elim z [ ]
  retrieve_path-Chain nodes p (suc n) (suc fuel) (origin i e g) h = (p ∷ [], ground arith, alone e)
  retrieve_path-Chain nodes p (suc n) (suc fuel) (link {q = q} i e s c) h =
      let r = retrieve_path-Chain nodes q n fuel c (omega arith) in
      (p ∷ r.0, ground arith, further s r.2)

  pub retrieve_path-Linked :
      (nodes : Vector3i → GridNode W) (p : Vector3i) (n fuel : ℕ)
      → Linked nodes n p
      → n < fuel
      → (path : List Vector3i) × (retrieve_path fuel nodes p ≡ some path) × Route p path
  unfolding retrieve_path
  retrieve_path-Linked nodes p n zero l h = let z : ⊥ = omega arith in elim z [ ]
  retrieve_path-Linked nodes p n (suc fuel) l h = elim l.reached [
    | inl (e, g) ↦ (p ∷ [], ground arith, alone e)
    | inr (q, e, s, c) ↦
        let r = retrieve_path-Chain nodes q n fuel c (omega arith) in
        (p ∷ r.0, ground arith, further s r.2)
  ]
