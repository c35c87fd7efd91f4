-- ===== src/Webot/Controller/Ranges.antt =====
-- webot/controllers/waypoints_runner/robot.cpp: what its loops over the ranges reach.
use p7_kode.Base.{
  ℕ, suc, ◌%◌, ◌<◌, ◌≡◌, refl, sym, ap, subst, ◌∙◌, false, Option, some, [], inl, inr, ◌⊎◌, arith,
  length, Option-cases,
}
use native.Mathlib.Nat.{mod-lt}
use p7_kode.Base.Int.{pos}
use p7_kode.Base.Double.{Double}
use p7_kode.Base.Trig.{Trig, min}
use p7_kode.Config.Convert.{vector_index}
use p7_kode.Webot.Controller.{Controller, range_at}
use p7_kode.Webot.Controller.Loops.{get_elem?_below, before_or_last, Gives, for_up-Gives}
use p7_kode.Webot.Controller.Least.{OrderLaws, min_either, min_second, min_lower}
use p7_kode.Webot.Controller.Edges.{get_discontinuity_points, add_edge, push_edge, edge}
use p7_kode.Webot.Controller.Phases.{
  or_max, goal_dist, nearer_obstacle, update_dfollowed, nearer_reach, dreach,
}

module _ (d : Double) where
  -- lidar_range_values has a value for every index of the lidar.
  abbrev pub IsComplete : Controller d → Type 0
  IsComplete c = length c.lidar_range_values ≡ c.lidar_resolution

module _ (d : Double) (t : Trig d) (c : Controller d) (complete : IsComplete d c) where
  pub range_at-Gives : (i : ℕ) → i < c.lidar_resolution → Gives (range_at d t (pos i) c) (λ _. Unit)
  unfolding vector_index
  range_at-Gives i h = get_elem?_below c.lidar_range_values i (subst (λ z. i < z) (sym complete) h)

  pub get_discontinuity_points-Gives : Gives (get_discontinuity_points d t c) (λ _. Unit)
  unfolding get_discontinuity_points add_edge
  get_discontinuity_points-Gives =
      for_up-Gives (λ _ _. Unit) c.lidar_resolution (add_edge d t c) [] tt
        (λ i s h _.
          let (here, e, _) = range_at-Gives i h in
          let (there, f, _) =
            range_at-Gives (suc i % c.lidar_resolution) (mod-lt (suc i) (omega arith)) in
          (push_edge d t c i (edge d t c.lidar_max_range here there) s, (rw (e, f) refl), tt))

module _ (d : Double) (t : Trig d) (c : Controller d) where
  -- The value is not above the distance to the goal of what is seen at the first indices.
  abbrev pub IsBelow : (ℕ → d.Carrier → Type 0) → ℕ → d.Carrier → Type 0
  IsBelow sees n least =
      (i : ℕ) (dist : d.Carrier) → i < n → sees i dist → d.lt (goal_dist d t c dist i) least ≡ false

  -- The value is the distance to the goal of something that is seen at the first indices, or DBL_MAX.
  abbrev pub IsAttained : (ℕ → d.Carrier → Type 0) → ℕ → d.Carrier → Type 0
  IsAttained sees n least =
      (least ≡ d.dbl_max)
      ⊎ ((i : ℕ) × (dist : d.Carrier) × (i < n) × sees i dist × (least ≡ goal_dist d t c dist i))

  -- The value is the least of DBL_MAX and the distances to the goal of what is seen at the first
  -- indices.
  abbrev pub IsNearest : (ℕ → d.Carrier → Type 0) → ℕ → d.Carrier → Type 0
  IsNearest sees n least = IsBelow sees n least × IsAttained sees n least

  -- An obstacle at an index.
  abbrev pub HasObstacle : ℕ → d.Carrier → Type 0
  HasObstacle i dist = range_at d t (pos i) c ≡ some (some dist)

  -- The way that is free at an index, at most as far as the lidar sees.
  abbrev pub IsReach : ℕ → d.Carrier → Type 0
  IsReach i dist =
      (range : Option d.Carrier) × (range_at d t (pos i) c ≡ some range)
      × (dist ≡ or_max d t c.lidar_max_range range)

  -- dfollowed becomes the smaller of itself and of the least distance of an obstacle to the goal.
  abbrev pub IsFollowed : Controller d → Type 0
  IsFollowed c' =
      (least : d.Carrier) × (c' ≡ record c { dfollowed = min d c.dfollowed least })
      × IsNearest HasObstacle c.lidar_resolution least

module _ (d : Double) (t : Trig d) (laws : OrderLaws d) (c : Controller d)
    (complete : IsComplete d c) where
  IsBelow-min :
      (sees : ℕ → d.Carrier → Type 0) (n : ℕ) (dist least : d.Carrier)
      → ((other : d.Carrier) → sees n other → other ≡ dist)
      → IsBelow d t c sees n least
      → IsBelow d t c sees (suc n) (min d least (goal_dist d t c dist n))
  IsBelow-min sees n dist least only h i other below seen = elim (before_or_last i n below) [
    | inl earlier ↦
        min_lower d laws least (goal_dist d t c dist n) (goal_dist d t c other i)
          (h i other earlier seen)
    | inr last ↦
        let e : other ≡ dist = only other (subst (λ z. sees z other) last seen) in
        rw (e, last) (min_second d laws least (goal_dist d t c dist n))
  ]

  IsAttained-suc :
      (sees : ℕ → d.Carrier → Type 0) (n : ℕ) (least : d.Carrier)
      → IsAttained d t c sees n least
      → IsAttained d t c sees (suc n) least
  IsAttained-suc sees n least (inl e) = inl e
  IsAttained-suc sees n least (inr (i, dist, below, seen, e)) =
      inr (i, dist, (omega arith), seen, e)

  IsAttained-min :
      (sees : ℕ → d.Carrier → Type 0) (n : ℕ) (dist least : d.Carrier)
      → sees n dist
      → IsAttained d t c sees n least
      → IsAttained d t c sees (suc n) (min d least (goal_dist d t c dist n))
  IsAttained-min sees n dist least seen h = elim (min_either d least (goal_dist d t c dist n)) [
    | inl e ↦ subst (λ z. IsAttained d t c sees (suc n) z) (sym e) (IsAttained-suc sees n least h)
    | inr e ↦ inr (n, dist, (omega arith), seen, e)
  ]

  nearer_obstacle-Gives :
      (i : ℕ) (least : d.Carrier)
      → i < c.lidar_resolution
      → IsNearest d t c (HasObstacle d t c) i least
      → Gives (nearer_obstacle d t c i least) (IsNearest d t c (HasObstacle d t c) (suc i))
  nearer_obstacle-Gives i least h (near, attained) =
      let (range, e, _) = range_at-Gives d t c complete i h in
      elim (Option-cases range) [
        | inl f ↦ (
          least,
          (rw (e, f) refl),
          (
            λ k other below seen. elim (before_or_last k i below) [
              | inl earlier ↦ near k other earlier seen
              | inr last ↦ let g = ap (λ z. range_at d t (pos z) c) last in cc
            ],
            IsAttained-suc (HasObstacle d t c) i least attained,
          ),
        )
        | inr (dist, f) ↦ (
          min d least (goal_dist d t c dist i),
          (rw (e, f) refl),
          (
            IsBelow-min (HasObstacle d t c) i dist least (λ other seen. cc) near,
            IsAttained-min (HasObstacle d t c) i dist least (e ∙ ap some f) attained,
          ),
        )
      ]

  nearer_reach-Gives :
      (i : ℕ) (least : d.Carrier)
      → i < c.lidar_resolution
      → IsNearest d t c (IsReach d t c) i least
      → Gives (nearer_reach d t c i least) (IsNearest d t c (IsReach d t c) (suc i))
  nearer_reach-Gives i least h (near, attained) =
      let (range, e, _) = range_at-Gives d t c complete i h in
      let dist = or_max d t c.lidar_max_range range in
      (
        min d least (goal_dist d t c dist i),
        (rw e refl),
        (
          IsBelow-min (IsReach d t c) i dist least
              (λ other (range', f, g). let k : some range ≡ some range' = sym e ∙ f in cc) near,
          IsAttained-min (IsReach d t c) i dist least (range, e, refl) attained,
        ),
      )

  pub update_dfollowed-IsFollowed : Gives (update_dfollowed d t c) (IsFollowed d t c)
  unfolding update_dfollowed
  update_dfollowed-IsFollowed =
      let (least, e, h) =
        for_up-Gives (IsNearest d t c (HasObstacle d t c)) c.lidar_resolution
          (nearer_obstacle d t c) d.dbl_max (λ i dist below. absurd (omega arith), inl refl)
          nearer_obstacle-Gives in
      (record c { dfollowed = min d c.dfollowed least }, (rw e refl), (least, refl, h))

  pub dreach-IsNearest : Gives (dreach d t c) (IsNearest d t c (IsReach d t c) c.lidar_resolution)
  unfolding dreach
  dreach-IsNearest =
      for_up-Gives (IsNearest d t c (IsReach d t c)) c.lidar_resolution (nearer_reach d t c)
        d.dbl_max (λ i dist below. absurd (omega arith), inl refl) nearer_reach-Gives
