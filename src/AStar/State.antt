-- ===== src/AStar/State.antt =====
-- dyn_a_star.h: the nodes of the grid and the state of AStar. A pointer to a node is its place in the
-- grid.
use tron2_navigation_ros.Base.{
  ℕ, ◌/◌, Bool, true, false, Option, none, List, ℤ, pos, negsuc, sub_ℕ, suc, if◌then◌else◌,
}
use tron2_navigation_ros.Double.{Double, decimal}
use tron2_navigation_ros.Vector.{Vector3, Vector3i}
use tron2_navigation_ros.Vector.Index.{same_index}

-- The result of a search, ASTAR_RET.
pub data AstarRet : Type 0 where
  success : AstarRet
  init_err : AstarRet
  search_err : AstarRet

pub data NodeState : Type 0 where
  open_set : NodeState
  closed_set : NodeState
  undefined : NodeState

abbrev pub is_closed : NodeState → Bool
is_closed closed_set = true
is_closed open_set = false
is_closed undefined = false

pub record GridNode (W : Type 0) : Type 0 where
  pub rounds : ℕ
  pub state : NodeState
  pub index : Vector3i
  pub g_score : W
  pub f_score : W
  pub came_from : Option Vector3i

-- What stays as it is during a search.
pub record Frame (W : Type 0) : Type 0 where
  pub step_size : W
  pub inv_step_size : W
  pub center : Vector3 W
  pub center_idx : Vector3i
  pub pool_size : Vector3i
  pub rounds : ℕ

-- What a search changes: the nodes, and the pointers in the open set.
pub record Nodes (W : Type 0) : Type 0 where
  pub grid_node_map : Vector3i → GridNode W
  pub open_nodes : List Vector3i

pub record AStar (W : Type 0) : Type 0 where
  pub frame : Frame W
  pub nodes : Nodes W
  pub grid_path : List Vector3i

-- The nodes with a new one at a place.
unfoldable pub put_node :
    {W : Type 0} → (Vector3i → GridNode W) → Vector3i → GridNode W → Vector3i → GridNode W
put_node nodes place node p = if same_index p place then node else nodes p

-- Half of a C++ integer.
abbrev pub half_ℤ : ℤ → ℤ
half_ℤ (pos n) = pos (n / 2)
half_ℤ (negsuc n) = sub_ℕ 0 (suc n / 2)

module _ {W : Type 0} ⦃d : Double W⦄ where
  -- A new node; `inf` is `1 >> 20`, which is 0. The index is not set, and stands as that of the place.
  unfoldable pub new_node : Vector3i → GridNode W
  new_node place = record {
    rounds = 0;
    state = undefined;
    index = place;
    g_score = decimal 0 0;
    f_score = decimal 0 0;
    came_from = none;
  }

  unfoldable pub init_grid_map : AStar W → Vector3i → AStar W
  init_grid_map a pool_size = record a {
    frame = record a.frame {
      pool_size = pool_size;
      center_idx = record {
        x = half_ℤ pool_size.x;
        y = half_ℤ pool_size.y;
        z = half_ℤ pool_size.z;
      };
    };
    nodes = record a.nodes { grid_node_map = new_node };
  }
