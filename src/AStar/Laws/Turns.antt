-- ===== src/AStar/Laws/Turns.antt =====
-- dyn_a_star.cpp: each turn around a node is one of the three kinds of visit.
use tron2_navigation_ros.Base.{
  ℕ, ◌≡◌, refl, sym, ap, subst, ◌∙◌, inl, inr, Bool, true, false, not, ◌&&◌, some, ℤ, is_zero, ◌==◌,
  if◌then◌else◌, arith, Bool-cases,
}
use tron2_navigation_ros.Double.{Double, lt}
use tron2_navigation_ros.Vector.{Vector3i}
use tron2_navigation_ros.GridMap.State.{GridMap}
use tron2_navigation_ros.AStar.State.{GridNode, Frame, Nodes, open_set, is_closed}
use tron2_navigation_ros.AStar.Grid.{is_inner}
use tron2_navigation_ros.AStar.Endpoints.{check_occupancy}
use tron2_navigation_ros.AStar.Search.{
  neighbor_idx, neighbor_yaw, store, reached_node, reach, visit,
}
use tron2_navigation_ros.AStar.Laws.Route.{IsTurn, IsStep, IsDone}
use tron2_navigation_ros.AStar.Laws.Visits.{IsWrite, Visited, left_alone, written, opened}

same_number : (a b : ℕ) → (a == b) ≡ true → a ≡ b
same_number a b h = ground arith

both : (a b : Bool) → a ≡ true → b ≡ true → (a && b) ≡ true
both a b h g = ground arith

number_same : (a b : ℕ) → a ≡ b → (a == b) ≡ true
number_same a b h = ground arith

first_of : (a b : Bool) → (a && b) ≡ true → a ≡ true
first_of a b h = ground arith

never : {A : Type 0} (b : Bool) → b ≡ true → b ≡ false → A
never b h g = let z : ⊥ = ground arith in elim z [ ]

module _ {W : Type 0} ⦃d : Double W⦄ (map : GridMap W) (f : Frame W)
    (start_idx end_idx : Vector3i) where
  abbrev was_explored : Nodes W → Vector3i → Bool
  was_explored s place = (s.grid_node_map place).rounds == f.rounds

  abbrev is_shut : Nodes W → Vector3i → Bool
  is_shut s place = was_explored s place && is_closed (s.grid_node_map place).state

  abbrev marked : Nodes W → Vector3i → GridNode W
  marked s place = record (s.grid_node_map place) { index = place; rounds = f.rounds }

  done-is_shut :
      (s : Nodes W) (place : Vector3i)
      → IsDone map f start_idx end_idx (s.grid_node_map place) place
      → is_shut s place ≡ true
  done-is_shut s place h = both _ _ (number_same _ _ h.0) h.1

  -- The kinds of writes.
  indexed-IsWrite :
      (s : Nodes W) (current place : Vector3i)
      → was_explored s place ≡ true
      → IsWrite map f start_idx end_idx s.grid_node_map current place
          (record (s.grid_node_map place) { index = place })
  indexed-IsWrite s current place h = record {
    unless_done = λ g i. record (s.grid_node_map place) { index = sym g.2 i };
    named = refl;
    this_round = same_number _ _ h;
    pointer = inl refl;
  }

  marked-IsWrite :
      (s : Nodes W) (current place : Vector3i)
      → is_shut s place ≡ false
      → IsWrite map f start_idx end_idx s.grid_node_map current place (marked s place)
  marked-IsWrite s current place h = record {
    unless_done = λ g. never _ (done-is_shut s place g) h;
    named = refl;
    this_round = refl;
    pointer = inl refl;
  }

  pointed-IsWrite :
      (s : Nodes W) (current place : Vector3i) (node : GridNode W)
      → is_shut s place ≡ false
      → IsStep map f start_idx end_idx current place
      → node.index ≡ place
      → node.rounds ≡ f.rounds
      → node.came_from ≡ some current
      → IsWrite map f start_idx end_idx s.grid_node_map current place node
  pointed-IsWrite s current place node h t a b c = record {
    unless_done = λ g. never _ (done-is_shut s place g) h;
    named = a;
    this_round = b;
    pointer = inr (c, t);
  }

  visit-outer :
      (s : Nodes W) (current : Vector3i) (turn : ℤ × ℤ)
      → is_inner f (neighbor_idx map f start_idx end_idx (s.grid_node_map current).index turn)
        ≡ false
      → visit map f start_idx end_idx s current turn ≡ s
  unfolding visit
  visit-outer s current turn h = ground arith

  module _ (s : Nodes W) (current : Vector3i) (turn : ℤ × ℤ) (place : Vector3i)
      (at : neighbor_idx map f start_idx end_idx (s.grid_node_map current).index turn ≡ place)
      (inner : is_inner f place ≡ true) where
    abbrev result : Nodes W
    result = visit map f start_idx end_idx s current turn

    abbrev free_here : Bool
    free_here = is_zero (check_occupancy map f place (neighbor_yaw turn))

    -- The turn with its place given a name.
    visit-named : result ≡ (
        if is_shut s place
        then store s place (record (s.grid_node_map place) { index = place })
        else if not free_here
        then store s place (marked s place)
        else reach map f start_idx end_idx s current turn place
            (was_explored s place)
            (marked s place))
    unfolding visit
    visit-named = ground arith

    abbrev reached : GridNode W
    reached = reached_node map f start_idx end_idx s current turn place (marked s place)

    abbrev reach_now : Nodes W
    reach_now =
        reach map f start_idx end_idx s current turn place (was_explored s place) (marked s place)

    abbrev otherwise : Nodes W
    otherwise = if not free_here then store s place (marked s place) else reach_now

    reach-Visited :
        (explored : Bool)
        → was_explored s place ≡ explored
        → is_shut s place ≡ false
        → IsStep map f start_idx end_idx current place
        → Visited map f start_idx end_idx s current
            (reach map f start_idx end_idx s current turn place explored (marked s place))
    unfolding reach reached_node
    reach-Visited false e h t =
        opened
          (pointed-IsWrite s current place (record reached { state = open_set }) h t refl refl refl)
          refl t e refl
    reach-Visited true e h t =
        elim (Bool-cases (lt reached.g_score (s.grid_node_map place).g_score)) [
          | inl l ↦
              written (pointed-IsWrite s current place reached h t refl refl refl)
                (ap (λ b. if b then store s place reached else store s place (marked s place)) l)
          | inr l ↦
              written (marked-IsWrite s current place h)
                (ap (λ b. if b then store s place reached else store s place (marked s place)) l)
        ]

    inner-Visited :
        IsTurn turn
        → (s.grid_node_map current).index ≡ current
        → Visited map f start_idx end_idx s current result
    inner-Visited t named = elim (Bool-cases (is_shut s place)) [
      | inl h ↦ written (indexed-IsWrite s current place (first_of _ _ h)) (
          visit-named
          ∙ ap
              (λ b.
                if b
                then store s place (record (s.grid_node_map place) { index = place })
                else otherwise)
              h)
      | inr h ↦
          let e =
            visit-named
            ∙ ap
                (λ b.
                  if b
                  then store s place (record (s.grid_node_map place) { index = place })
                  else otherwise)
                h in
          elim (Bool-cases free_here) [
            | inl g ↦
                subst (Visited map f start_idx end_idx s current)
                  (sym
                    (e ∙ ap (λ b. if not b then store s place (marked s place) else reach_now) g))
                  (reach-Visited (was_explored s place) refl h (record {
                    turn = turn;
                    is_turn = t;
                    to_neighbor =
                        ap (λ x. neighbor_idx map f start_idx end_idx x turn) (sym named) ∙ at;
                    inner = inner;
                    is_free = g;
                  }))
            | inr g ↦
                written (marked-IsWrite s current place h)
                  (e ∙ ap (λ b. if not b then store s place (marked s place) else reach_now) g)
          ]
    ]

  pub visit-Visited :
      (s : Nodes W) (current : Vector3i) (turn : ℤ × ℤ)
      → IsTurn turn
      → (s.grid_node_map current).index ≡ current
      → Visited map f start_idx end_idx s current (visit map f start_idx end_idx s current turn)
  visit-Visited s current turn t named =
      let place = neighbor_idx map f start_idx end_idx (s.grid_node_map current).index turn in
      elim (Bool-cases (is_inner f place)) [
        | inl h ↦ inner-Visited s current turn place refl h t named
        | inr h ↦ left_alone (visit-outer s current turn h)
      ]
