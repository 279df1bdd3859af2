-- ===== src/AStar/Search.antt =====
-- dyn_a_star.cpp: AstarSearch, retrievePath, getPath. `std::priority_queue` orders the nodes by their
-- fScore, which the loop changes while they are in the queue, so that its documentation does not say
-- which one is on top: `choose` says it, and the theorems hold for each choice. `late` says of each
-- iteration whether the 0.2 s are over after it.
use tron2_navigation_ros.Base.{
  ℕ, zero, suc, ◌+◌, Bool, not, ◌&&◌, ◌==◌, Option, none, some, List, [], ◌∷◌, ℤ, pos, negsuc,
  pos_part, neg_part, ◌+ℤ◌, ◌-ℤ◌, is_zero, ◌*◌, if◌then◌else◌,
}
use tron2_navigation_ros.Double.{Double, lt, decimal, std_max, std_min}
use tron2_navigation_ros.Vector.{Vector3, Vector3i, Library}
use tron2_navigation_ros.Vector.Index.{same_index}
use tron2_navigation_ros.GridMap.State.{GridMap}
use tron2_navigation_ros.AStar.State.{
  AstarRet, success, init_err, search_err, open_set, closed_set, is_closed, GridNode, Frame, Nodes,
  AStar, put_node,
}
use tron2_navigation_ros.AStar.Grid.{index_to_coord, is_inner, get_heu}
use tron2_navigation_ros.AStar.Endpoints.{Endpoints, check_occupancy, convert_to_index}

-- The element at a position of a queue, the last one past the end, and the others.
unfoldable pub pop_at : Vector3i → List Vector3i → ℕ → Vector3i × List Vector3i
pop_at x [] n = (x, [])
pop_at x (y ∷ ys) zero = (x, y ∷ ys)
pop_at x (y ∷ ys) (suc n) = let r = pop_at y ys n in (r.0, x ∷ r.1)

-- `top` and `pop` of a queue that is not empty.
unfoldable pub top : (List Vector3i → ℕ) → List Vector3i → Option (Vector3i × List Vector3i)
top choose [] = none
top choose (x ∷ xs) = some (pop_at x xs (choose (x ∷ xs)))

-- `reverse`
unfoldable pub reversed {ℓ} : {A : Type ℓ} → List A → List A → List A
reversed [] done = done
reversed (x ∷ xs) done = reversed xs (x ∷ done)

-- The turns of the two loops around a node.
abbrev pub turns : List (ℤ × ℤ)
turns =
    (negsuc 0, negsuc 0)
    ∷ ((negsuc 0, pos 0)
        ∷ ((negsuc 0, pos 1)
            ∷ ((pos 0, negsuc 0)
                ∷ ((pos 0, pos 1)
                    ∷ ((pos 1, negsuc 0) ∷ ((pos 1, pos 0) ∷ ((pos 1, pos 1) ∷ [])))))))

module _ {W : Type 0} where
  -- retrievePath: the pointers from a node back to the first one.
  unfoldable pub retrieve_path : ℕ → (Vector3i → GridNode W) → Vector3i → Option (List Vector3i)
  retrieve_path zero nodes current = none
  retrieve_path (suc fuel) nodes current = elim (nodes current).came_from [
    | none ↦ some (current ∷ [])
    | some previous ↦ elim (retrieve_path fuel nodes previous) [
      | none ↦ none
      | some path ↦ some (current ∷ path)
    ]
  ]

-- How the loop ends: at the end node with the path back, or without a path.
pub data Searched (W : Type 0) : Type 0 where
  found : Nodes W → List Vector3i → Searched W
  failed : Nodes W → Searched W
  out_of_fuel : Searched W

abbrev pub store : {W : Type 0} → Nodes W → Vector3i → GridNode W → Nodes W
store s place node = record s { grid_node_map = put_node s.grid_node_map place node }

module _ {W : Type 0} ⦃d : Double W⦄ where
  open d use {add, sub, mul, div, of_int}

  -- interpolateZIndexOnSearchPlane
  unfoldable pub interpolate_z : Frame W → Vector3i → Vector3i → ℤ → ℤ → ℤ
  interpolate_z f start_idx end_idx x_idx y_idx =
      let search_start = index_to_coord f start_idx in
      let search_end = index_to_coord f end_idx in
      let delta_x = sub search_end.x search_start.x in
      let delta_y = sub search_end.y search_start.y in
      let len2 = add (mul delta_x delta_x) (mul delta_y delta_y) in
      let sample = index_to_coord f (record { x = x_idx; y = y_idx; z = start_idx.z }) in
      let ratio =
        div
          (add (mul (sub sample.x search_start.x) delta_x)
            (mul (sub sample.y search_start.y) delta_y))
          len2 in
      let clamped = std_max (decimal 0 0) (std_min (decimal 1 0) ratio) in
      let z = add search_start.z (mul clamped (sub search_end.z search_start.z)) in
      if lt len2 (decimal 1 8)
      then start_idx.z
      else d.to_int (add (mul (sub z f.center.z) f.inv_step_size) (decimal 5 1)) +ℤ f.center_idx.z

  -- `sqrt(dx * dx + dy * dy + dz * dz)` of integers.
  unfoldable pub static_cost : ℤ → ℤ → ℤ → W
  static_cost dx dy dz =
      let sq = λ (i : ℤ). (pos_part i + neg_part i) * (pos_part i + neg_part i) in
      d.sqrt (of_int (pos (sq dx + sq dy + sq dz)))

  -- The heading along which a neighbour is entered.
  abbrev pub neighbor_yaw : ℤ × ℤ → W
  neighbor_yaw turn = d.atan2 (of_int turn.1) (of_int turn.0)

  -- The nodes of the endpoints at the start of the loop.
  unfoldable pub prepare : Frame W → Nodes W → Vector3i → Vector3i → Nodes W
  prepare f s start_idx end_idx =
      let named = store s end_idx (record (s.grid_node_map end_idx) { index = end_idx }) in
      record {
        grid_node_map = put_node named.grid_node_map start_idx (record {
          rounds = f.rounds;
          state = open_set;
          index = start_idx;
          g_score = decimal 0 0;
          f_score = get_heu start_idx end_idx;
          came_from = none;
        });
        open_nodes = start_idx ∷ [];
      }

  module _ (map : GridMap W) (f : Frame W) (start_idx end_idx : Vector3i) where
    -- The place that the loops visit for `dx` and `dy`.
    unfoldable pub neighbor_idx : Vector3i → ℤ × ℤ → Vector3i
    neighbor_idx index turn = record {
      x = index.x +ℤ turn.0;
      y = index.y +ℤ turn.1;
      z = interpolate_z f start_idx end_idx (index.x +ℤ turn.0) (index.y +ℤ turn.1);
    }

    -- A node with the cost of the way through `current`, and the pointer to it.
    unfoldable pub reached_node : Nodes W → Vector3i → ℤ × ℤ → Vector3i → GridNode W → GridNode W
    reached_node s current turn place node =
        let from = s.grid_node_map current in
        let dz = place.z -ℤ from.index.z in
        let tentative_g_score = add from.g_score (static_cost turn.0 turn.1 dz) in
        let target = if same_index place end_idx then node else s.grid_node_map end_idx in
        record node {
          came_from = some current;
          g_score = tentative_g_score;
          f_score = add tentative_g_score (get_heu node.index target.index);
        }

    -- A free neighbour: it is opened, or gets the better of two ways.
    unfoldable pub reach : Nodes W → Vector3i → ℤ × ℤ → Vector3i → Bool → GridNode W → Nodes W
    reach s current turn place explored node =
        let reached = reached_node s current turn place node in
        if not explored
        then record {
          grid_node_map = put_node s.grid_node_map place (record reached { state = open_set });
          open_nodes = place ∷ s.open_nodes;
        }
        else if lt reached.g_score node.g_score
        then store s place reached
        else store s place node

    -- One turn of the loops on `dx` and `dy`.
    unfoldable pub visit : Nodes W → Vector3i → ℤ × ℤ → Nodes W
    visit s current turn =
        let place = neighbor_idx (s.grid_node_map current).index turn in
        let old = s.grid_node_map place in
        let indexed = record old { index = place } in
        let explored = old.rounds == f.rounds in
        let marked = record indexed { rounds = f.rounds } in
        if not (is_inner f place)
        then s
        else if explored && is_closed old.state
        then store s place indexed
        else if not (is_zero (check_occupancy map f place (neighbor_yaw turn)))
        then store s place marked
        else reach s current turn place explored marked

    unfoldable pub visit_all : Nodes W → Vector3i → List (ℤ × ℤ) → Nodes W
    visit_all s current [] = s
    visit_all s current (turn ∷ rest) = visit_all (visit s current turn) current rest

    unfoldable pub close : Nodes W → Vector3i → Nodes W
    close s current = store s current (record (s.grid_node_map current) { state = closed_set })

    -- `current->index` is `endPtr->index`.
    unfoldable pub is_end : Nodes W → Vector3i → Bool
    is_end s current = same_index (s.grid_node_map current).index (s.grid_node_map end_idx).index

    unfoldable pub finish : ℕ → Nodes W → Vector3i → Searched W
    finish fuel s current = elim (retrieve_path fuel s.grid_node_map current) [
      | none ↦ out_of_fuel
      | some path ↦ found s path
    ]

    module _ (choose : List Vector3i → ℕ) (late : ℕ → Bool) where
      -- The loop on the open set, with the fuel for the path.
      unfoldable pub search_loop : ℕ → ℕ → Nodes W → ℕ → Searched W
      search_loop zero path_fuel s num_iter = out_of_fuel
      search_loop (suc fuel) path_fuel s num_iter = elim (top choose s.open_nodes) [
        | none ↦ failed s
        | some (current, others) ↦
            let popped = record s { open_nodes = others } in
            let next = visit_all (close popped current) current turns in
            let rest = search_loop fuel path_fuel next (suc num_iter) in
            if is_end popped current
            then finish path_fuel popped current
            else if late (suc num_iter)
            then failed next
            else rest
      ]

  -- AstarSearch: the state after it, and its result unless the fuel is used up.
  unfoldable pub begin : Frame W → W → Vector3 W → Vector3 W → Frame W
  begin f step_size start_pt end_pt =
      let middle = λ (p q : W). div (add p q) (decimal 2 0) in
      record f {
        rounds = suc f.rounds;
        step_size = step_size;
        inv_step_size = div (decimal 1 0) step_size;
        center = record {
          x = middle start_pt.x end_pt.x;
          y = middle start_pt.y end_pt.y;
          z = middle start_pt.z end_pt.z;
        };
      }

  unfoldable pub conclude : AStar W → Searched W → AStar W × Option AstarRet
  conclude a (found s path) = (record a { nodes = s; grid_path = path }, some success)
  conclude a (failed s) = (record a { nodes = s }, some search_err)
  conclude a out_of_fuel = (a, none)

  unfoldable pub astar_search :
      Library W
      → GridMap W
      → (List Vector3i → ℕ)
      → (ℕ → Bool)
      → ℕ
      → AStar W
      → W
      → Vector3 W
      → Vector3 W
      → AStar W × Option AstarRet
  astar_search eigen map choose late fuel a step_size start_pt end_pt =
      let f = begin a.frame step_size start_pt end_pt in
      let begun = record a { frame = f } in
      elim (convert_to_index eigen fuel map f start_pt end_pt) [
        | Endpoints.endpoints start_idx end_idx ↦ conclude begun (
            search_loop map f start_idx end_idx choose late fuel fuel
              (prepare f a.nodes start_idx end_idx) 0)
        | Endpoints.unable ↦ (begun, some init_err)
        | Endpoints.out_of_fuel ↦ (begun, none)
      ]

  unfoldable pub coords : Frame W → Nodes W → List Vector3i → List (Vector3 W)
  coords f s [] = []
  coords f s (ptr ∷ ptrs) = index_to_coord f (s.grid_node_map ptr).index ∷ coords f s ptrs

  -- getPath
  unfoldable pub get_path : AStar W → List (Vector3 W)
  get_path a = reversed (coords a.frame a.nodes a.grid_path) []
