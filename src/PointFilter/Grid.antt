-- ===== src/PointFilter/Grid.antt =====
-- rslidar_point_filter.hpp: the grid of buckets, and the search of the cells around a point.
use tron2_navigation_ros.Base.{
  ℕ, suc, Bool, true, false, ◌&&◌, List, [], ◌∷◌, ◌++◌, ℤ, pos, negsuc, ◌+ℤ◌, ◌==◌, leb,
  if◌then◌else◌,
}
use tron2_navigation_ros.PointFilter.State.{GridKey}

abbrev pub same_ℤ : ℤ → ℤ → Bool
same_ℤ (pos m) (pos n) = m == n
same_ℤ (negsuc m) (negsuc n) = m == n
same_ℤ _ _ = false

unfoldable pub same_key : GridKey → GridKey → Bool
same_key a b = same_ℤ a.x b.x && same_ℤ a.y b.y && same_ℤ a.z b.z

-- The map from cells to the indices of their points, in the order of their insertion.
abbrev pub Grid : Type 0
Grid = List (GridKey × List ℕ)

-- grid[key].push_back(i)
unfoldable pub insert : GridKey → ℕ → Grid → Grid
insert key i [] = (key, i ∷ []) ∷ []
insert key i (b ∷ bs) =
    let rest = insert key i bs in if same_key b.0 key then (b.0, b.1 ++ (i ∷ [])) ∷ bs else b ∷ rest

-- The bucket of a cell, empty if there is none.
unfoldable pub find : GridKey → Grid → List ℕ
find key [] = []
find key (b ∷ bs) = let rest = find key bs in if same_key b.0 key then b.1 else rest

-- The grid of the points from index `i` on.
unfoldable pub build_grid : List GridKey → ℕ → Grid → Grid
build_grid [] i grid = grid
build_grid (key ∷ keys) i grid = build_grid keys (suc i) (insert key i grid)

-- The values of dx, dy and dz, and the cells around one in the order of the three loops.
abbrev pub offsets : List ℤ
offsets = negsuc 0 ∷ pos 0 ∷ pos 1 ∷ []

unfoldable pub along_z : GridKey → ℤ → ℤ → List ℤ → List GridKey
along_z c dx dy [] = []
along_z c dx dy (dz ∷ dzs) =
    record { x = c.x +ℤ dx; y = c.y +ℤ dy; z = c.z +ℤ dz } ∷ along_z c dx dy dzs

unfoldable pub along_y : GridKey → ℤ → List ℤ → List GridKey
along_y c dx [] = []
along_y c dx (dy ∷ dys) = along_z c dx dy offsets ++ along_y c dx dys

unfoldable pub along_x : GridKey → List ℤ → List GridKey
along_x c [] = []
along_x c (dx ∷ dxs) = along_y c dx offsets ++ along_x c dxs

unfoldable pub cells_around : GridKey → List GridKey
unfolding along_z along_y along_x
cells_around c = along_x c offsets

-- The loop over a bucket: the count of neighbours, and whether they are enough.
unfoldable pub scan_bucket : (ℕ → Bool) → ℕ → List ℕ → ℕ → ℕ × Bool
scan_bucket near required [] neighbors = (neighbors, false)
scan_bucket near required (i ∷ is) neighbors =
    let counted = if near i then suc neighbors else neighbors in
    let rest = scan_bucket near required is counted in
    if near i && leb required counted then (counted, true) else rest

-- The loops over the cells, which end when there are enough neighbours.
unfoldable pub scan_cells : (ℕ → Bool) → ℕ → Grid → List GridKey → ℕ → Bool
scan_cells near required grid [] neighbors = false
scan_cells near required grid (key ∷ keys) neighbors =
    let found = scan_bucket near required (find key grid) neighbors in
    let rest = scan_cells near required grid keys found.0 in if found.1 then true else rest
