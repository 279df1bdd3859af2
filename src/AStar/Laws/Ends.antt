-- ===== src/AStar/Laws/Ends.antt =====
-- dyn_a_star.cpp: the loop on the open set ends, with a route if it reaches the end node.
use tron2_navigation_ros.Base.{
  ℕ, zero, suc, ◌+◌, ◌≤◌, ◌<◌, ◌≡◌, refl, sym, ap, subst, ◌∙◌, inl, inr, Bool, true, false, none,
  some, List, [], ◌∷◌, if◌then◌else◌, arith, Option-cases, All, none_left, one_more, All-mono,
  length,
}
use tron2_navigation_ros.Double.{Double}
use tron2_navigation_ros.Vector.{Vector3i}
use tron2_navigation_ros.Vector.Index.{same_index-eq}
use tron2_navigation_ros.GridMap.State.{GridMap}
use tron2_navigation_ros.AStar.State.{
  GridNode, Frame, Nodes, NodeState, open_set, closed_set, undefined, put_node, is_closed,
}
use tron2_navigation_ros.AStar.Search.{
  Searched, found, failed, retrieve_path, visit_all, close, turns, top, pop_at, is_end, finish,
  search_loop, prepare,
}
use tron2_navigation_ros.AStar.Laws.Route.{
  IsTurn, Route, IsDone, Chain, origin, link, Linked, Chain-more, Chain-kept, retrieve_path-Linked,
}
use tron2_navigation_ros.AStar.Laws.Visits.{IsWrite, put_node-here, write-Keeps, write-Linked}
use tron2_navigation_ros.AStar.Laws.Work.{inner_places, unmarked-le, work}
use tron2_navigation_ros.AStar.Laws.Loop.{Invariant, named-after, After, visit_all-After}

pop_at-All :
    {P : Vector3i → Type 0} (x : Vector3i) (xs : List Vector3i) (n : ℕ)
    → P x
    → All P xs
    → P (pop_at x xs n).0 × All P (pop_at x xs n).1
unfolding pop_at
pop_at-All x [] n p h = (p, none_left)
pop_at-All x (y ∷ ys) zero p h = (p, h)
pop_at-All x (y ∷ ys) (suc n) p (one_more q h) =
    let r = pop_at-All y ys n q h in (r.0, one_more p r.1)

length-pop_at : (x : Vector3i) (xs : List Vector3i) (n : ℕ) → length (pop_at x xs n).1 ≡ length xs
unfolding pop_at
length-pop_at x [] n = refl
length-pop_at x (y ∷ ys) zero = refl
length-pop_at x (y ∷ ys) (suc n) = let r = length-pop_at y ys n in omega arith

-- What is popped had the property, and what is left has it and is shorter.
pub top-All :
    {P : Vector3i → Type 0} (choose : List Vector3i → ℕ) (xs : List Vector3i)
    → (current : Vector3i) → (others : List Vector3i) → top choose xs ≡ some (current, others)
    → All P xs
    → P current × All P others × (suc (length others) ≡ length xs)
unfolding top
top-All {P} choose [] current others e h = let z : ⊥ = ground arith in elim z [ ]
top-All {P} choose (x ∷ xs) current others e (one_more p h) =
    let n = choose (x ∷ xs) in
    let r = pop_at-All x xs n p h in
    let l = length-pop_at x xs n in
    let a : (pop_at x xs n).0 ≡ current = ground arith in
    let b : (pop_at x xs n).1 ≡ others = ground arith in
    (subst P a r.0, subst (All P) b r.1, ap suc (ap length (sym b) ∙ l))

turns-IsTurn : All IsTurn turns
turns-IsTurn = one_more (omega arith) (
    one_more (omega arith) (
      one_more (omega arith) (
        one_more (omega arith) (
          one_more (omega arith)
            (one_more (omega arith) (one_more (omega arith) (one_more (omega arith) none_left)))))))

closed_eq : (st : NodeState) → is_closed st ≡ true → st ≡ closed_set
closed_eq open_set h = cc
closed_eq closed_set h = refl
closed_eq undefined h = cc

-- What a result of the loop is to be: a route to the end node, or the end without a path.
abbrev pub IsSound :
    {W : Type 0} ⦃d : Double W⦄ → GridMap W → Frame W → Vector3i → Vector3i → Searched W → Type 0
IsSound map f start_idx end_idx (found s path) = Route map f start_idx end_idx end_idx path
IsSound map f start_idx end_idx (failed s) = Unit
IsSound map f start_idx end_idx Searched.out_of_fuel = ⊥

module _ {W : Type 0} ⦃d : Double W⦄ (map : GridMap W) (f : Frame W)
    (start_idx end_idx : Vector3i) where
  Linked-more :
      (nodes : Vector3i → GridNode W) (n : ℕ) (p : Vector3i)
      → Linked map f start_idx end_idx nodes n p
      → Linked map f start_idx end_idx nodes (suc n) p
  Linked-more nodes n p l = record {
    this_round = l.this_round;
    named = l.named;
    reached = elim l.reached [
      | inl h ↦ inl h
      | inr (q, e, s, c) ↦ inr (q, e, s, Chain-more map f start_idx end_idx nodes q n c)
    ];
  }

  closed-IsWrite :
      (nodes : Vector3i → GridNode W) (n : ℕ) (current : Vector3i)
      → Linked map f start_idx end_idx nodes n current
      → IsWrite map f start_idx end_idx nodes current current
          (record (nodes current) { state = closed_set })
  closed-IsWrite nodes n current l = record {
    unless_done =
        λ g i. record (nodes current) { state = sym (closed_eq (nodes current).state g.1) i };
    named = l.named;
    this_round = l.this_round;
    pointer = inl refl;
  }

  -- A node that is closed has a chain.
  closed-Chain :
      (nodes : Vector3i → GridNode W) (n : ℕ) (current : Vector3i)
      → Linked map f start_idx end_idx nodes n current
      → Chain map f start_idx end_idx
          (put_node nodes current (record (nodes current) { state = closed_set }))
          current
          (suc n)
  closed-Chain nodes n current l =
      let node : GridNode W = record (nodes current) { state = closed_set } in
      let e = put_node-here nodes current node in
      let i =
        subst (λ x. IsDone map f start_idx end_idx x current) (sym e)
          (l.this_round, refl, l.named) in
      let p = ap (λ (x : GridNode W). x.came_from) e in
      elim l.reached [
        | inl (s, g) ↦ origin i s (p ∙ g)
        | inr (q, g, t, c) ↦ link i (p ∙ g) t (
            Chain-kept map f start_idx end_idx nodes (put_node nodes current node)
              (write-Keeps map f start_idx end_idx nodes current current node
                (closed-IsWrite nodes n current l))
              q n c)
      ]

  close-After :
      (n : ℕ) (s : Nodes W) (current : Vector3i)
      → Linked map f start_idx end_idx s.grid_node_map n current
      → Invariant map f start_idx end_idx n s
      → After map f start_idx end_idx (suc n) s current (close map f start_idx end_idx s current)
  unfolding close
  close-After n s current l v =
      let nodes = s.grid_node_map in
      let w = closed-IsWrite nodes n current l in
      let node : GridNode W = record (nodes current) { state = closed_set } in
      let le = unmarked-le f nodes current node (inner_places f) w.this_round in
      (
        record {
          linked =
              All-mono _ _ s.open_nodes
                (λ p h. Linked-more (put_node nodes current node) n p (
                  write-Linked map f start_idx end_idx nodes current current node n w (inl refl) p
                    h))
                v.linked;
          end_named = named-after map f start_idx end_idx nodes current node l.named v.end_named;
        },
        closed-Chain nodes n current l,
        omega arith,
      )

  finish-path :
      (fuel : ℕ) (s : Nodes W) (current : Vector3i) (path : List Vector3i)
      → retrieve_path fuel s.grid_node_map current ≡ some path
      → finish map f start_idx end_idx fuel s current ≡ found s path
  unfolding finish
  finish-path fuel s current path h = ground arith

  finish-IsSound :
      (n fuel : ℕ) (s : Nodes W) (current : Vector3i)
      → Linked map f start_idx end_idx s.grid_node_map n current
      → (s.grid_node_map end_idx).index ≡ end_idx
      → is_end map f start_idx end_idx s current ≡ true
      → n < fuel
      → IsSound map f start_idx end_idx (finish map f start_idx end_idx fuel s current)
  unfolding is_end
  finish-IsSound n fuel s current l g e h =
      let r = retrieve_path-Linked map f start_idx end_idx s.grid_node_map current n fuel l h in
      let q = sym l.named ∙ same_index-eq _ _ e ∙ g in
      subst (IsSound map f start_idx end_idx) (sym (finish-path fuel s current r.0 r.1))
        (subst (λ p. Route map f start_idx end_idx p r.0) q r.2)

  IsSound-if :
      (b c : Bool) (x y z : Searched W)
      → (b ≡ true → IsSound map f start_idx end_idx x)
      → IsSound map f start_idx end_idx y
      → IsSound map f start_idx end_idx z
      → IsSound map f start_idx end_idx (if b then x else if c then y else z)
  IsSound-if true c x y z h g k = h refl
  IsSound-if false true x y z h g k = g
  IsSound-if false false x y z h g k = k

  abbrev pub popped : Nodes W → List Vector3i → Nodes W
  popped s others = record s { open_nodes = others }

  abbrev pub next_nodes : Nodes W → Vector3i → List Vector3i → Nodes W
  next_nodes s current others =
      visit_all map f start_idx end_idx (close map f start_idx end_idx (popped s others) current)
        current turns

  module _ (choose : List Vector3i → ℕ) (late : ℕ → Bool) where
    search_loop-empty :
        (fuel path_fuel : ℕ) (s : Nodes W) (i : ℕ)
        → top choose s.open_nodes ≡ none
        → search_loop map f start_idx end_idx choose late (suc fuel) path_fuel s i ≡ failed s
    unfolding search_loop
    search_loop-empty fuel path_fuel s i h = ground arith

    search_loop-round :
        (fuel path_fuel : ℕ) (s : Nodes W) (i : ℕ) (current : Vector3i) (others : List Vector3i)
        → top choose s.open_nodes ≡ some (current, others)
        → search_loop map f start_idx end_idx choose late (suc fuel) path_fuel s i ≡ (
            if is_end map f start_idx end_idx (popped s others) current
            then finish map f start_idx end_idx path_fuel (popped s others) current
            else if late (suc i)
            then failed (next_nodes s current others)
            else search_loop map f start_idx end_idx choose late fuel path_fuel
                (next_nodes s current others)
                (suc i))
    unfolding search_loop
    search_loop-round fuel path_fuel s i current others h = ground arith

    -- With fuel for the work that is left, the loop ends and is sound.
    pub search_loop-IsSound :
        (fuel path_fuel : ℕ) (s : Nodes W) (i n : ℕ)
        → Invariant map f start_idx end_idx n s
        → work f s < fuel
        → n + fuel ≤ path_fuel
        → IsSound map f start_idx end_idx
            (search_loop map f start_idx end_idx choose late fuel path_fuel s i)
    search_loop-IsSound zero path_fuel s i n v h g = let z : ⊥ = omega arith in elim z [ ]
    search_loop-IsSound (suc fuel) path_fuel s i n v h g =
        elim (Option-cases (top choose s.open_nodes)) [
          | inl e ↦
              subst (IsSound map f start_idx end_idx) (sym (search_loop-empty fuel path_fuel s i e))
                tt
          | inr ((current, others), e) ↦
              let t = top-All choose s.open_nodes current others e v.linked in
              let p = popped s others in
              let u : Invariant map f start_idx end_idx n p = record {
                linked = t.1;
                end_named = v.end_named;
              } in
              let next = next_nodes s current others in
              let c = close-After n p current t.0 u in
              let a =
                visit_all-After map f start_idx end_idx (suc n)
                  (close map f start_idx end_idx p current) current turns turns-IsTurn c.1 c.0 in
              let r =
                search_loop-IsSound fuel path_fuel next (suc i) (suc n) a.0
                  (omega (arith, a.2, c.2, t.2)) (omega arith) in
              subst (IsSound map f start_idx end_idx)
                (sym (search_loop-round fuel path_fuel s i current others e))
                (IsSound-if (is_end map f start_idx end_idx p current) (late (suc i)) _ _ _
                  (λ q. finish-IsSound n path_fuel p current t.0 v.end_named q (omega arith)) tt r)
        ]

  -- The start node is linked, alone in the open set.
  pub prepare-Invariant :
      (s : Nodes W) → Invariant map f start_idx end_idx 0 (prepare f s start_idx end_idx)
  unfolding prepare
  prepare-Invariant s = record {
    linked =
        one_more
          (record {
            this_round = ap (λ (x : GridNode W). x.rounds) (put_node-here _ start_idx _);
            named = ap (λ (x : GridNode W). x.index) (put_node-here _ start_idx _);
            reached =
                inl (refl, ap (λ (x : GridNode W). x.came_from) (put_node-here _ start_idx _));
          })
          none_left;
    end_named =
        named-after map f start_idx end_idx _ start_idx _ refl
          (ap (λ (x : GridNode W). x.index) (put_node-here s.grid_node_map end_idx _));
  }
