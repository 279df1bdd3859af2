-- ===== src/AStar/Tests.antt =====
-- dyn_a_star.h, dyn_a_star.cpp: a search on a small grid, and the theorems at it.
use tron2_navigation_ros.Base.{
  ℕ, ◌≡◌, ◌≢◌, refl, ◌+ℤ◌, ◌-ℤ◌, ◌==◌, Bool, false, none, some, List, [], ◌∷◌, ℤ, pos, negsuc,
  if◌then◌else◌, arith, none_left,
}
use tron2_navigation_ros.Exact.{Milli, milli}
use tron2_navigation_ros.Samples.{num, point, library}
use tron2_navigation_ros.Vector.{Vector3i}
use tron2_navigation_ros.Vector.Index.{same_index}
use tron2_navigation_ros.GridMap.State.{GridMap}
use tron2_navigation_ros.GridMap.Address.{to_address, get_local_index, is_in_map, pos_to_index}
use tron2_navigation_ros.GridMap.Update.{
  get_inflate_occupancy, get_inflate_occupancy_from_buffer, cylinder,
}
use tron2_navigation_ros.GridMap.Region.{box, up_to, count_up, flat_map, to_list}
use tron2_navigation_ros.GridMap.Tests.{index, free_map}
use tron2_navigation_ros.AStar.State.{success, Frame, Nodes, AStar, new_node, put_node}
use tron2_navigation_ros.AStar.Grid.{
  is_in_pool, is_inner, index_to_coord, coord_to_index, nearest, get_heu, get_diag_heu, along,
}
use tron2_navigation_ros.AStar.Endpoints.{
  endpoints, check_occupancy, convert_to_index, both_points, adjust_point, move_away,
}
use tron2_navigation_ros.AStar.Search.{
  astar_search, begin, prepare, conclude, search_loop, top, pop_at, close, visit, visit_all, reach,
  reached_node, neighbor_idx, interpolate_z, static_cost, is_end, finish, retrieve_path,
}
use tron2_navigation_ros.AStar.Laws.Route.{Route}
use tron2_navigation_ros.AStar.Laws.Work.{inner_places}
use tron2_navigation_ros.AStar.Laws.Adjust.{AreAdjusted, path_yaw, steps_away}
use tron2_navigation_ros.AStar.Laws.Results.{EnoughFuel, astar_search-returns, astar_search-Route}
use tron2_navigation_ros.AStar.Laws.Blocked.{now, visit-blocked_for_good}
use tron2_navigation_ros.AStar.Laws.Rounding.{IsExactAt, coord_to_index-index_to_coord}

abbrev blank : AStar Milli
blank = record {
  frame = record {
    step_size = num 1;
    inv_step_size = num 1;
    center = point 0 0;
    center_idx = index (pos 2) (pos 2) (pos 1);
    pool_size = index (pos 5) (pos 5) (pos 3);
    rounds = 0;
  };
  nodes = record { grid_node_map = new_node; open_nodes = [] };
  grid_path = [];
}

-- The second node of a queue.
abbrev second : List Vector3i → ℕ
second xs = 1

abbrev in_time : ℕ → Bool
in_time i = false

abbrev started : Frame Milli
started = begin blank.frame (num 1) (point 0 0) (point 1 0)

enough : EnoughFuel library free_map started (point 0 0) (point 1 0) 20
unfolding steps_away is_in_pool coord_to_index nearest begin inner_places box up_to count_up
    flat_map to_list ◌+ℤ◌ ◌-ℤ◌
enough = record {
  start_steps = 5;
  start_leaves = refl;
  start_fuel = omega arith;
  end_steps = 5;
  end_leaves = refl;
  end_fuel = omega arith;
  search_fuel = omega arith;
}

astar_search-returns_example :
    (astar_search library free_map second in_time 20 blank (num 1) (point 0 0) (point 1 0)).1 ≢ none
astar_search-returns_example =
    astar_search-returns library free_map second in_time 20 blank (num 1) (point 0 0) (point 1 0)
      enough

succeeds :
    (astar_search library free_map second in_time 20 blank (num 1) (point 0 0) (point 1 0)).1
    ≡ some success
unfolding astar_search begin prepare conclude search_loop top pop_at close visit visit_all reach
    reached_node neighbor_idx interpolate_z static_cost is_end finish retrieve_path get_heu
    get_diag_heu along convert_to_index both_points adjust_point move_away check_occupancy
    is_in_pool is_inner index_to_coord coord_to_index nearest put_node new_node same_index
    to_address get_local_index is_in_map pos_to_index get_inflate_occupancy
    get_inflate_occupancy_from_buffer cylinder ◌+ℤ◌ ◌-ℤ◌
succeeds = refl

astar_search-Route_example :
    (start_idx : Vector3i) × (end_idx : Vector3i) × (convert_to_index library 20 free_map started
        (point 0 0)
        (point 1 0)
      ≡ endpoints start_idx end_idx)
    × AreAdjusted free_map started
        (path_yaw library free_map started (point 0 0) (point 1 0))
        (endpoints start_idx end_idx)
    × Route free_map started start_idx end_idx end_idx
        (astar_search library free_map second in_time 20 blank
          (num 1)
          (point 0 0)
          (point 1 0)).0.grid_path
astar_search-Route_example =
    astar_search-Route library free_map second in_time 20 blank (num 1) (point 0 0) (point 1 0)
      enough succeeds

-- The place up and to the right of the middle is not free.
abbrev blocked_map : GridMap Milli
blocked_map = record free_map {
  occupancy_buffer_inflate = λ addr.
      if addr == to_address free_map.parameters (index (pos 1) (pos 1) (pos 0)) then 1 else 0;
}

abbrev middle : Vector3i
middle = index (pos 2) (pos 2) (pos 1)

abbrev up_right : ℤ × ℤ
up_right = (pos 1, pos 1)

abbrev rightwards : List (ℤ × ℤ)
rightwards = (pos 1, pos 0) ∷ []

abbrev next_place : Vector3i
next_place = index (pos 3) (pos 2) (pos 1)

abbrev after_turns : Nodes Milli
after_turns =
    visit_all blocked_map started middle next_place
      (visit blocked_map started middle next_place blank.nodes middle up_right) middle rightwards

visit-blocked_for_good_example :
    next_place ≢ neighbor_idx blocked_map started middle next_place middle up_right
unfolding begin top pop_at visit visit_all reach reached_node neighbor_idx interpolate_z
    check_occupancy is_inner index_to_coord put_node new_node same_index to_address get_local_index
    is_in_map pos_to_index get_inflate_occupancy get_inflate_occupancy_from_buffer cylinder ◌+ℤ◌
    ◌-ℤ◌
visit-blocked_for_good_example =
    visit-blocked_for_good blocked_map started middle next_place second blank.nodes middle up_right
      rightwards after_turns next_place [] refl refl refl none_left now refl

-- One step below the middle, and in the middle.
below_middle : IsExactAt started (some (pos 500)) (negsuc 0)
unfolding begin ◌+ℤ◌
below_middle = record { add_sub = refl; mul_inv = refl; cast = refl }

at_middle : IsExactAt started (some (pos 0)) (pos 0)
unfolding begin
at_middle = record { add_sub = refl; mul_inv = refl; cast = refl }

coord_to_index-index_to_coord_example :
    coord_to_index started (index_to_coord started (index (pos 1) (pos 2) (pos 1)))
    ≡ index (pos 2) (pos 2) (pos 1)
unfolding begin ◌-ℤ◌ ◌+ℤ◌
coord_to_index-index_to_coord_example =
    coord_to_index-index_to_coord started (index (pos 1) (pos 2) (pos 1)) below_middle at_middle
      at_middle
