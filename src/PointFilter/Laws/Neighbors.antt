-- ===== src/PointFilter/Laws/Neighbors.antt =====
-- rslidar_point_filter.hpp: the radius filter keeps the points with enough neighbours.
use tron2_navigation_ros.Base.{
  ℕ, suc, ◌+◌, ◌*◌, ◌<◌, ◌≡◌, refl, ap, ◌∙◌, Bool, true, false, ◌&&◌, ◌||◌, List, [], ◌∷◌, map,
  get_or, leb, if◌then◌else◌, arith,
}
use tron2_navigation_ros.Double.{Double, le, gt}
use tron2_navigation_ros.PointFilter.State.{GridKey, Point, Filter}
use tron2_navigation_ros.PointFilter.Stage.{squared_range, squared_distance, cell_for}
use tron2_navigation_ros.PointFilter.Grid.{build_grid, cells_around, scan_cells}
use tron2_navigation_ros.PointFilter.Apply.{has_neighbors}
use tron2_navigation_ros.PointFilter.Laws.Count.{bit, count, count_from}
use tron2_navigation_ros.PointFilter.Laws.Around.{is_adjacent, cells_around-count}
use tron2_navigation_ros.PointFilter.Laws.Search.{weigh, count_cells-weigh, scan_cells-count}

if_or : (b : Bool) {x y : Bool} → x ≡ y → (if b then true else x) ≡ (b || y)
if_or true e = refl
if_or false e = e

product : (a b : Bool) → bit a * bit b ≡ bit (b && a)
product true b = ground arith
product false b = ground arith

module _ (near : ℕ → Bool) (c : GridKey) where
  weigh-adjacent :
      (keys : List GridKey) (i : ℕ)
      → weigh near (cells_around c) keys i ≡ count_from (is_adjacent c) near keys i
  weigh-adjacent [] i = refl
  weigh-adjacent (k ∷ ks) i =
      let h = weigh-adjacent ks (suc i) in
      let e =
        ap (λ n. bit (near i) * n) (cells_around-count c k) ∙ product (near i) (is_adjacent c k) in
      omega arith

  search_lem :
      (required : ℕ) (keys : List GridKey)
      → 0 < required
      → scan_cells near required (build_grid keys 0 []) (cells_around c) 0
        ≡ leb required (count_from (is_adjacent c) near keys 0)
  search_lem required keys h =
      scan_cells-count near required (build_grid keys 0 []) (cells_around c) 0 h
      ∙ ap (leb required)
          (omega arith ∙ count_cells-weigh near (cells_around c) keys 0 ∙ weigh-adjacent keys 0)

module _ {A : Type 0} (q : A) (key : A → GridKey) (cell : GridKey → Bool) (g : A → Bool)
    (get : ℕ → A) where
  count_from-points :
      (ps : List A) (i : ℕ)
      → ((j : ℕ) → get (j + i) ≡ get_or ps j q)
      → count_from cell (λ j. g (get j)) (map key ps) i ≡ count (λ p. cell (key p) && g p) ps
  count_from-points [] i h = refl
  count_from-points (p ∷ ps) i h =
      let e : get i ≡ p = ap get (omega arith) ∙ h 0 in
      let t = count_from-points ps (suc i) (λ j. ap get (omega arith) ∙ h (suc j)) in
      let b = ap (λ x. bit (cell (key p) && g x)) e in omega arith

module _ {W : Type 0} ⦃d : Double W⦄ (f : Filter W) where
  -- In the cells around the point and within the radius of the search.
  abbrev pub is_neighbor : Point W → Point W → Bool
  is_neighbor query p =
      is_adjacent (cell_for f query) (cell_for f p)
      && le (squared_distance query p) (d.mul f.search_radius f.search_radius)

  -- The test of the radius filter says that the point is out of its range, or that more points
  -- than the required number of neighbours (the point itself counts) are in the cells around that of
  -- the point, differing by at most one in each coordinate, and within the radius of the search.
  pub has_neighbors_lem :
      (stage1 : List (Point W)) (query : Point W)
      → has_neighbors f stage1 (build_grid (map (cell_for f) stage1) 0 []) query ≡ (
          gt (squared_range query) (d.mul f.radius_apply_range f.radius_apply_range)
          || leb (suc f.min_neighbors) (count (is_neighbor query) stage1))
  unfolding has_neighbors
  has_neighbors_lem stage1 query =
      let within : Point W → Bool =
        λ p. le (squared_distance query p) (d.mul f.search_radius f.search_radius) in
      let e =
        search_lem (λ i. within (get_or stage1 i query)) (cell_for f query) (suc f.min_neighbors)
          (map (cell_for f) stage1) (omega arith) in
      let c =
        count_from-points query (cell_for f) (is_adjacent (cell_for f query)) within
          (λ i. get_or stage1 i query) stage1 0
          (λ j. ap (λ i. get_or stage1 i query) (omega arith)) in
      if_or _ (e ∙ ap (leb (suc f.min_neighbors)) c)
