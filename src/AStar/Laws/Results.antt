-- ===== src/AStar/Laws/Results.antt =====
-- dyn_a_star.cpp: what a whole search ends with.
use tron2_navigation_ros.Base.{
  ℕ, suc, ◌<◌, ◌≡◌, ◌≢◌, refl, sym, ap, subst, ◌∙◌, ◌⊎◌, inl, inr, Bool, Option, none, some, List,
  arith, length,
}
use tron2_navigation_ros.Double.{Double}
use tron2_navigation_ros.Vector.{Vector3, Vector3i, Library}
use tron2_navigation_ros.GridMap.State.{GridMap}
use tron2_navigation_ros.AStar.State.{AstarRet, success, init_err, Frame, Nodes, AStar}
use tron2_navigation_ros.AStar.Endpoints.{Endpoints, endpoints, convert_to_index}
use tron2_navigation_ros.AStar.Search.{
  Searched, found, failed, search_loop, prepare, begin, conclude, astar_search,
}
use tron2_navigation_ros.AStar.Laws.Route.{Route}
use tron2_navigation_ros.AStar.Laws.Work.{inner_places, unmarked-length, work}
use tron2_navigation_ros.AStar.Laws.Ends.{IsSound, search_loop-IsSound, prepare-Invariant}
use tron2_navigation_ros.AStar.Laws.Adjust.{
  LeavesPool, AreAdjusted, direction, path_yaw, convert_to_index-AreAdjusted,
}

conclude-success :
    {W : Type 0} ⦃d : Double W⦄ (map : GridMap W) (f : Frame W) (s e : Vector3i) (a : AStar W)
    (r : Searched W)
    → IsSound map f s e r
    → (conclude a r).1 ≡ some success
    → Route map f s e e (conclude a r).0.grid_path
unfolding conclude
conclude-success map f s e a (found n path) h g = h
conclude-success map f s e a (failed n) h g = let z : ⊥ = ground arith in elim z [ ]
conclude-success map f s e a Searched.out_of_fuel h g = elim h [ ]

conclude-returns :
    {W : Type 0} ⦃d : Double W⦄ (map : GridMap W) (f : Frame W) (s e : Vector3i) (a : AStar W)
    (r : Searched W)
    → IsSound map f s e r
    → (conclude a r).1 ≢ none
unfolding conclude
conclude-returns map f s e a (found n path) h g = ground arith
conclude-returns map f s e a (failed n) h g = ground arith
conclude-returns map f s e a Searched.out_of_fuel h g = h

Endpoints-cases :
    (x : Endpoints)
    → ((s : Vector3i) × (e : Vector3i) × (x ≡ endpoints s e))
      ⊎ (x ≡ Endpoints.unable)
      ⊎ (x ≡ Endpoints.out_of_fuel)
Endpoints-cases (endpoints s e) = inl (s, e, refl)
Endpoints-cases Endpoints.unable = inr (inl refl)
Endpoints-cases Endpoints.out_of_fuel = inr (inr refl)

module _ {W : Type 0} ⦃d : Double W⦄ (eigen : Library W) (map : GridMap W) (f : Frame W)
    (start_pt end_pt : Vector3 W) where
  -- The walks away from both endpoints leave the grid within the fuel, and there is fuel for every place
  -- of the grid that has a place on each side, and for two more rounds.
  pub record EnoughFuel (fuel : ℕ) : Type 0 where
    pub start_steps : ℕ
    pub start_leaves :
        LeavesPool start_steps d.sub f (direction eigen map f start_pt end_pt) start_pt
    pub start_fuel : start_steps < fuel
    pub end_steps : ℕ
    pub end_leaves : LeavesPool end_steps d.add f (direction eigen map f start_pt end_pt) end_pt
    pub end_fuel : end_steps < fuel
    pub search_fuel : suc (length (inner_places f)) < fuel

  converted :
      (fuel : ℕ)
      → EnoughFuel fuel
      → AreAdjusted map f
          (path_yaw eigen map f start_pt end_pt)
          (convert_to_index eigen fuel map f start_pt end_pt)
  converted fuel h =
      convert_to_index-AreAdjusted eigen map f start_pt end_pt fuel h.start_steps h.end_steps
        h.start_leaves h.end_leaves h.start_fuel h.end_fuel

  module _ (choose : List Vector3i → ℕ) (late : ℕ → Bool) (fuel : ℕ) where
    abbrev searched : Nodes W → Vector3i → Vector3i → Searched W
    searched nodes s e = search_loop map f s e choose late fuel fuel (prepare f nodes s e) 0

    prepared-work :
        (nodes : Nodes W) (s e : Vector3i)
        → suc (length (inner_places f)) < fuel
        → work f (prepare f nodes s e) < fuel
    unfolding prepare
    prepared-work nodes s e h =
        omega (arith, unmarked-length f (prepare f nodes s e).grid_node_map (inner_places f))

    searched-IsSound :
        (nodes : Nodes W) (s e : Vector3i)
        → EnoughFuel fuel
        → IsSound map f s e (searched nodes s e)
    searched-IsSound nodes s e h =
        search_loop-IsSound map f s e choose late fuel fuel (prepare f nodes s e) 0 0
          (prepare-Invariant map f s e nodes) (prepared-work nodes s e h.search_fuel) (omega arith)

module _ {W : Type 0} ⦃d : Double W⦄ (eigen : Library W) (map : GridMap W)
    (choose : List Vector3i → ℕ) (late : ℕ → Bool) (fuel : ℕ) (a : AStar W) (step_size : W)
    (start_pt end_pt : Vector3 W) where
  abbrev f : Frame W
  f = begin a.frame step_size start_pt end_pt

  abbrev result : AStar W × Option AstarRet
  result = astar_search eigen map choose late fuel a step_size start_pt end_pt

  search-endpoints :
      (s e : Vector3i)
      → convert_to_index eigen fuel map f start_pt end_pt ≡ endpoints s e
      → result
        ≡ conclude
            (record a { frame = f })
            (searched eigen map f start_pt end_pt choose late fuel a.nodes s e)
  unfolding astar_search
  search-endpoints s e h = ground arith

  search-unable :
      convert_to_index eigen fuel map f start_pt end_pt ≡ Endpoints.unable
      → result ≡ (record a { frame = f }, some init_err)
  unfolding astar_search
  search-unable h = ground arith

  -- With enough fuel the search ends with one of its three results, whichever node of the open set is
  -- taken each time and whenever the time is over.
  pub astar_search-returns :
      EnoughFuel eigen map (begin a.frame step_size start_pt end_pt) start_pt end_pt fuel
      → (astar_search eigen map choose late fuel a step_size start_pt end_pt).1 ≢ none
  astar_search-returns h g =
      let c = converted eigen map f start_pt end_pt fuel h in
      elim (Endpoints-cases (convert_to_index eigen fuel map f start_pt end_pt)) [
        | inl (s, e, q) ↦
            conclude-returns map f s e (record a { frame = f })
              (searched eigen map f start_pt end_pt choose late fuel a.nodes s e)
              (searched-IsSound eigen map f start_pt end_pt choose late fuel a.nodes s e h)
              (sym (ap (λ (x : AStar W × Option AstarRet). x.1) (search-endpoints s e q)) ∙ g)
        | inr (inl q) ↦
            let z = sym (ap (λ (x : AStar W × Option AstarRet). x.1) (search-unable q)) ∙ g in
            ground arith
        | inr (inr q) ↦ subst (AreAdjusted map f (path_yaw eigen map f start_pt end_pt)) q c
      ]

  -- With enough fuel, a search that succeeds has moved both endpoints to places of the grid that are free
  -- for the heading from start to end, and its path leads from the end place back to the start place, each
  -- time to a place that has the last one as one of its eight neighbours in the plane, where the last one
  -- has a place on each side and is free for the heading of that turn.
  pub astar_search-Route :
      EnoughFuel eigen map (begin a.frame step_size start_pt end_pt) start_pt end_pt fuel
      → (astar_search eigen map choose late fuel a step_size start_pt end_pt).1 ≡ some success
      → let f = begin a.frame step_size start_pt end_pt in
        (start_idx : Vector3i) × (end_idx : Vector3i) × (convert_to_index eigen fuel map f start_pt
            end_pt
          ≡ endpoints start_idx end_idx)
        × AreAdjusted map f (path_yaw eigen map f start_pt end_pt) (endpoints start_idx end_idx)
        × Route map f start_idx end_idx end_idx
            (astar_search eigen map choose late fuel a step_size start_pt end_pt).0.grid_path
  astar_search-Route h g =
      let c = converted eigen map f start_pt end_pt fuel h in
      elim (Endpoints-cases (convert_to_index eigen fuel map f start_pt end_pt)) [
        | inl (s, e, q) ↦
            let r = search-endpoints s e q in
            let p = sym (ap (λ (x : AStar W × Option AstarRet). x.1) r) ∙ g in
            (
              s,
              e,
              q,
              subst (AreAdjusted map f (path_yaw eigen map f start_pt end_pt)) q c,
              subst (λ (x : AStar W × Option AstarRet). Route map f s e e x.0.grid_path) (sym r)
                  (conclude-success map f s e (record a { frame = f })
                    (searched eigen map f start_pt end_pt choose late fuel a.nodes s e)
                    (searched-IsSound eigen map f start_pt end_pt choose late fuel a.nodes s e h)
                    p),
            )
        | inr (inl q) ↦
            let p = sym (ap (λ (x : AStar W × Option AstarRet). x.1) (search-unable q)) ∙ g in
            let z : ⊥ = ground arith in elim z [ ]
        | inr (inr q) ↦
            elim (subst (AreAdjusted map f (path_yaw eigen map f start_pt end_pt)) q c) [ ]
      ]
