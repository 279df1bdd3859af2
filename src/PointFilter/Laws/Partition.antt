-- ===== src/PointFilter/Laws/Partition.antt =====
-- rslidar_point_filter.hpp: what becomes of each point of the cloud.
use mathlib.Core.List.{Perm, perm_middle, append_assoc}
use mathlib.Core.List.Perm
use tron2_navigation_ros.Base.{
  suc, ◌≡◌, refl, sym, ap, subst, ◌∙◌, Bool, true, false, not, ◌&&◌, ◌||◌, List, [], ◌∷◌, ◌++◌, map,
  filter, ltb, leb, if◌then◌else◌, append-nil, append-snoc,
}
use tron2_navigation_ros.Double.{Double, gt}
use tron2_navigation_ros.PointFilter.State.{Point, PointCloud, Filter}
use tron2_navigation_ros.PointFilter.Stage.{is_finite_point, squared_range, is_rejected, cell_for}
use tron2_navigation_ros.PointFilter.Grid.{build_grid}
use tron2_navigation_ros.PointFilter.Apply.{
  Split, sort_point, first_stage, has_neighbors, keep_flags, second_stage, apply_filter,
  copy_metadata, finalize_unorganized, filter_points, with_points,
}
use tron2_navigation_ros.PointFilter.Laws.Count.{count}
use tron2_navigation_ros.PointFilter.Laws.Neighbors.{is_neighbor, has_neighbors_lem}

append_comm-Perm : {A : Type 0} (xs ys : List A) → Perm (xs ++ ys) (ys ++ xs)
append_comm-Perm [] ys = subst (λ zs. Perm ys zs) (sym (append-nil ys)) (Perm.refl ys)
append_comm-Perm (x ∷ xs) ys =
    Perm.trans (Perm.cons x (append_comm-Perm xs ys)) (Perm.symm (perm_middle ys xs))

-- A list is a rearrangement of what a test takes from it and what it leaves.
filter-complement :
    {A : Type 0} (h : A → Bool) (ps : List A) → Perm (filter h ps ++ filter (λ p. not (h p)) ps) ps
filter-complement h [] = Perm.refl []
filter-complement h (p ∷ ps) =
    step (h p) p (filter h ps) (filter (λ q. not (h q)) ps) ps (filter-complement h ps)
  where
    step :
        {A : Type 0} (b : Bool) (x : A) (xs ys zs : List A)
        → Perm (xs ++ ys) zs
        → Perm ((if b then x ∷ xs else xs) ++ (if not b then x ∷ ys else ys)) (x ∷ zs)
    step true x xs ys zs h = Perm.cons x h
    step false x xs ys zs h = Perm.trans (perm_middle xs ys) (Perm.cons x h)

-- A list is a rearrangement of what two exclusive tests take from it.
filter-parts :
    {A : Type 0} (f g : A → Bool) (ps : List A)
    → Perm (filter (λ p. f p && not (g p)) ps ++ filter (λ p. f p && g p) ps) (filter f ps)
filter-parts f g [] = Perm.refl []
filter-parts f g (p ∷ ps) =
    step (f p) (g p) p (filter (λ q. f q && not (g q)) ps) (filter (λ q. f q && g q) ps)
      (filter f ps) (filter-parts f g ps)
  where
    step :
        {A : Type 0} (a b : Bool) (x : A) (xs ys zs : List A)
        → Perm (xs ++ ys) zs
        → Perm
            ((if a && not b then x ∷ xs else xs) ++ (if a && b then x ∷ ys else ys))
            (if a then x ∷ zs else zs)
    step true true x xs ys zs h = Perm.trans (perm_middle xs ys) (Perm.cons x h)
    step true false x xs ys zs h = Perm.cons x h
    step false b x xs ys zs h = h

module _ {W : Type 0} ⦃d : Double W⦄ (f : Filter W) where
  -- The point goes on to the radius filter, or is rejected before.
  abbrev pub goes_on : Point W → Bool
  goes_on p = is_finite_point p && not (is_rejected f p)

  abbrev pub is_dropped : Point W → Bool
  is_dropped p = is_finite_point p && is_rejected f p

  -- The point is kept among the points that go on: the radius filter is off, the point is far, or
  -- it has enough neighbours among them.
  abbrev pub stays : List (Point W) → Point W → Bool
  stays ps p =
      not (f.radius_filter_enable && ltb 0 f.min_neighbors)
      || (gt (squared_range p) (d.mul f.radius_apply_range f.radius_apply_range)
          || leb (suc f.min_neighbors) (count (is_neighbor f p) ps))

  abbrev split : List (Point W) → List (Point W) → Split W
  split a b = record { kept = a; rejected = b }

  stage_step :
      (fin rej : Bool) (p : Point W) (ps go drop a b : List (Point W))
      → ((a b : List (Point W)) → first_stage f ps (split a b) ≡ split (a ++ go) (b ++ drop))
      → first_stage f ps (
          if not fin
          then split a b
          else if rej
          then split a (b ++ (p ∷ []))
          else split (a ++ (p ∷ [])) b)
        ≡ split
            (a ++ (if fin && not rej then p ∷ go else go))
            (b ++ (if fin && rej then p ∷ drop else drop))
  stage_step false rej p ps go drop a b h = h a b
  stage_step true true p ps go drop a b h =
      h a (b ++ (p ∷ [])) ∙ ap (split (a ++ go)) (append-snoc b p drop)
  stage_step true false p ps go drop a b h =
      h (a ++ (p ∷ [])) b ∙ ap (λ x. split x (b ++ drop)) (append-snoc a p go)

  keep_step :
      (keep : Bool) (p : Point W) (rest : Split W → Split W) (go drop a b : List (Point W))
      → ((a b : List (Point W)) → rest (split a b) ≡ split (a ++ go) (b ++ drop))
      → rest (if keep then split (a ++ (p ∷ [])) b else split a (b ++ (p ∷ [])))
        ≡ split (a ++ (if keep then p ∷ go else go)) (b ++ (if not keep then p ∷ drop else drop))
  keep_step true p rest go drop a b h =
      h (a ++ (p ∷ [])) b ∙ ap (λ x. split x (b ++ drop)) (append-snoc a p go)
  keep_step false p rest go drop a b h =
      h a (b ++ (p ∷ [])) ∙ ap (split (a ++ go)) (append-snoc b p drop)

  first_stage-filter :
      (ps : List (Point W)) (a b : List (Point W))
      → first_stage f ps (split a b) ≡ split (a ++ filter goes_on ps) (b ++ filter is_dropped ps)
  unfolding first_stage sort_point
  first_stage-filter [] a b =
      sym (ap (λ x. split x (b ++ [])) (append-nil a) ∙ ap (split a) (append-nil b))
  first_stage-filter (p ∷ ps) a b =
      stage_step (is_finite_point p) (is_rejected f p) p ps (filter goes_on ps)
        (filter is_dropped ps) a b (first_stage-filter ps)

  second_stage-filter :
      (h : Point W → Bool) (ps a b : List (Point W))
      → second_stage ps (map h ps) (split a b)
        ≡ split (a ++ filter h ps) (b ++ filter (λ p. not (h p)) ps)
  unfolding second_stage
  second_stage-filter h [] a b =
      sym (ap (λ x. split x (b ++ [])) (append-nil a) ∙ ap (split a) (append-nil b))
  second_stage-filter h (p ∷ ps) a b =
      keep_step (h p) p (second_stage ps (map h ps)) (filter h ps) (filter (λ q. not (h q)) ps) a b
        (second_stage-filter h ps)

  flag_choice :
      (b c : Bool) (has x : Point W → Bool) (ps : List (Point W))
      → ((p : Point W) → has p ≡ x p)
      → (if b && c && true then map has ps else map (λ p. true) ps)
        ≡ map (λ p. not (b && c) || x p) ps
  flag_choice true true has x ps e = ap (λ h. map h ps) (λ i p. e p i)
  flag_choice true false has x ps e = refl
  flag_choice false c has x ps e = refl

  no_flags : (b : Bool) → ◌≡◌ {A = List Bool} (if b then [] else []) []
  no_flags true = refl
  no_flags false = refl

  keep_flags-stays : (ps : List (Point W)) → keep_flags f ps ≡ map (stays ps) ps
  unfolding keep_flags
  keep_flags-stays [] = no_flags _
  keep_flags-stays (p ∷ ps) =
      flag_choice f.radius_filter_enable (ltb 0 f.min_neighbors)
        (has_neighbors f (p ∷ ps) (build_grid (map (cell_for f) (p ∷ ps)) 0 []))
        (λ q.
          gt (squared_range q) (d.mul f.radius_apply_range f.radius_apply_range)
          || leb (suc f.min_neighbors) (count (is_neighbor f q) (p ∷ ps)))
        (p ∷ ps) (has_neighbors_lem f (p ∷ ps))

  filter_points-split :
      (ps : List (Point W))
      → let going = filter goes_on ps in
        filter_points f ps
        ≡ split
            (filter (stays going) going)
            (filter is_dropped ps ++ filter (λ p. not (stays going p)) going)
  unfolding filter_points
  filter_points-split ps =
      let going = filter goes_on ps in
      ap (λ r. second_stage r.kept (keep_flags f r.kept) (split [] r.rejected))
        (first_stage-filter ps [] [])
      ∙ ap (λ flags. second_stage going flags (split [] (filter is_dropped ps)))
          (keep_flags-stays going)
      ∙ second_stage-filter (stays going) going [] (filter is_dropped ps)

  -- With the filter enabled: the points of the output are those points of the input, in order, that
  -- are finite, are not rejected by the first stage, and stay among the points like these, because
  -- the radius filter is off, they are out of its range or they have more points than the required
  -- number of neighbours around them. The removed points are the finite ones that the first stage
  -- rejects, and after them those that do not stay.
  pub apply_filter-points :
      (input : PointCloud W)
      → f.enabled ≡ true
      → let r = apply_filter f input in
        let going = filter goes_on input.points in
        (r.0.points ≡ filter (stays going) going)
        × (r.1.points ≡ filter is_dropped input.points ++ filter (λ p. not (stays going p)) going)
  unfolding apply_filter with_points copy_metadata finalize_unorganized
  apply_filter-points input e =
      let r = filter_points f input.points in
      let chosen =
        ap {B = PointCloud W × PointCloud W}
          (λ b.
            if not b
            then (input, copy_metadata input)
            else (with_points input r.kept, with_points input r.rejected))
          e in
      let h = filter_points-split input.points in
      (
        ap (λ c. c.0.points) chosen ∙ ap (λ x. x.kept) h,
        ap (λ c. c.1.points) chosen ∙ ap (λ x. x.rejected) h,
      )

  -- With the filter enabled, no finite point is lost, doubled or made up: the points of the output and
  -- the removed ones are together a rearrangement of the finite points of the input.
  pub apply_filter-Perm :
      (input : PointCloud W)
      → f.enabled ≡ true
      → let r = apply_filter f input in
        Perm (r.0.points ++ r.1.points) (filter is_finite_point input.points)
  apply_filter-Perm input e =
      let h = apply_filter-points input e in
      let going = filter goes_on input.points in
      let dropped = filter is_dropped input.points in
      let kept = filter (stays going) going in
      let left = filter (λ p. not (stays going p)) going in
      subst (λ x. Perm x (filter is_finite_point input.points))
        (sym (ap (λ x. x ++ (apply_filter f input).1.points) h.0 ∙ ap (λ y. kept ++ y) h.1))
        (Perm.trans (Perm.append_left kept (append_comm-Perm dropped left)) (
          subst (λ x. Perm x (filter is_finite_point input.points)) (append_assoc kept left dropped)
            (Perm.trans (Perm.append_right dropped (filter-complement (stays going) going))
              (filter-parts is_finite_point (is_rejected f) input.points))))
