-- ===== src/Webot/Controller/Phases.antt =====
-- webot/controllers/waypoints_runner/robot.cpp: `motion2goal`, `boundary_following` and what they call.
use p7_kode.Base.{ℕ, Bool, true, false, not, Option, none, some, List, [], ◌∷◌, if◌then◌else◌}
use p7_kode.Base.Optional.{◌>>=◌}
use p7_kode.Base.Int.{pos}
use p7_kode.Base.Text.{codes}
use p7_kode.Base.Double.{Double}
use p7_kode.Base.Trig.{Trig, min}
use p7_kode.Webot.Geo.{
  relative, Angle, GlobalPoint, Point2D, sub_angles, abs_angle, from_polar, euclidean_dist,
}
use p7_kode.Webot.Controller.{
  Phase, is_to_goal, to_goal, to_discontinuity, following, Controller, for_up,
  get_relative_angle_to_goal, get_angle_to_point, angle2index, index2angle, range_at,
}
use p7_kode.Webot.Controller.Drive.{go_towards_angle, go_to_discontinuity}
use p7_kode.Webot.Controller.Edges.{Candidate, point_at, get_discontinuity_points}

module _ (d : Double) (t : Trig d) where
  open d use {Carrier, add, sub, mul, lt, literal, of_int, dbl_max}
  open t use {pi, le, div, abs}

  abbrev pub or_max : Carrier → Option Carrier → Carrier
  or_max max_range none = max_range
  or_max max_range (some dist) = dist

  abbrev pub goal_dist : Controller d → Carrier → ℕ → Carrier
  goal_dist c dist i = euclidean_dist d t (point_at d t c dist i) c.goal

  -- The body of the loop of update_dfollowed; the state is obstacle2goal.
  abbrev pub nearer_obstacle : Controller d → ℕ → Carrier → Option Carrier
  nearer_obstacle c i obstacle2goal = do
    range ← range_at d t (pos i) c
    some
        (elim range [ none ↦ obstacle2goal | some dist ↦ min d obstacle2goal (goal_dist c dist i) ])

  unfoldable pub update_dfollowed : Controller d → Option (Controller d)
  update_dfollowed c = do
    obstacle2goal ← for_up c.lidar_resolution (nearer_obstacle c) dbl_max
    some (record c { dfollowed = min d c.dfollowed obstacle2goal })

  abbrev pub nearer_reach : Controller d → ℕ → Carrier → Option Carrier
  nearer_reach c i min_dist = do
    range ← range_at d t (pos i) c
    some (min d min_dist (goal_dist c (or_max c.lidar_max_range range) i))

  unfoldable pub dreach : Controller d → Option Carrier
  dreach c = for_up c.lidar_resolution (nearer_reach c) dbl_max

  abbrev pub near_way : Angle d → Option Carrier → Bool
  near_way diff none = false
  near_way diff (some dist) =
      let p : Point2D d relative = from_polar d t dist diff in
      le (abs p.y) (literal (codes "0.021"))

  -- The body of the loop of clear; the state is false when the call returned false.
  abbrev pub still_clear : Controller d → ℕ → Bool → Option Bool
  still_clear c i false = some false
  still_clear c i true =
      let diff =
        abs_angle d t (sub_angles d t (index2angle d t i c) (get_relative_angle_to_goal d t c)) in
      if le diff.theta (div pi (of_int (pos 2)))
      then (do range ← range_at d t (pos i) c; some (not (near_way diff range)))
      else some true

  unfoldable pub clear : Controller d → Option Bool
  clear c = if is_to_goal c.phase then some true else for_up c.lidar_resolution (still_clear c) true

  -- The loops over the discontinuities, which keep the first point with the least value below the start.
  -- `none` is best_point as it was declared, the point (0, 0), with a direction that has no value.
  unfoldable pub best_of :
      (GlobalPoint d → Carrier)
      → List (Candidate d t)
      → Carrier
      → Option (Candidate d t)
      → Option (Candidate d t)
  best_of value [] least best = best
  best_of value ((point, direction) ∷ rest) least best =
      if lt (value point) least
      then best_of value rest (value point) (some (point, direction))
      else best_of value rest least best

  abbrev pub best_point : Option (Candidate d t) → GlobalPoint d
  best_point none = record { x = of_int (pos 0); y = of_int (pos 0) }
  best_point (some (point, direction)) = point

  unfoldable pub heuristic : Controller d → GlobalPoint d → Carrier
  heuristic c point = add (euclidean_dist d t c.position point) (euclidean_dist d t point c.goal)

  abbrev pub go_to_best : Option (Candidate d t) → Controller d → Option (Controller d)
  go_to_best none c = none
  go_to_best (some (point, direction)) c = some (go_to_discontinuity d t point direction c)

  -- Around obstacles
  unfoldable pub around_obstacles : Controller d → Option (Phase × Controller d)
  around_obstacles c = do
    discontinuities ← get_discontinuity_points d t c
    let best = best_of (heuristic c) discontinuities dbl_max none
    if lt c.prev_dist2goal (euclidean_dist d t (best_point best) c.goal)
        then (do c' ← update_dfollowed (record c { dfollowed = dbl_max }); some (following, c'))
        else (do c' ← go_to_best best c; some (to_discontinuity, c'))

  abbrev pub nothing_before : Carrier → Option Carrier → Bool
  nothing_before dist none = true
  nothing_before dist (some range) = lt dist range

  unfoldable pub motion2goal : Controller d → Option (Phase × Controller d)
  motion2goal c = do
    let c1 = record c { prev_dist2goal = c.cur_dist2goal }
    let angle2goal = get_relative_angle_to_goal d t c1
    range2goal ← range_at d t (angle2index d t angle2goal c1) c1
    free ← if nothing_before c1.cur_dist2goal range2goal then clear c1 else some false
    if free then some (to_goal, go_towards_angle d t angle2goal c1) else around_obstacles c1

  unfoldable pub turn_to : Controller d → GlobalPoint d → Carrier
  turn_to c point = (abs_angle d t (get_angle_to_point d t point c)).theta

  unfoldable pub boundary_following : Controller d → Option (Phase × Controller d)
  boundary_following c = do
    reach ← dreach c
    if lt (add reach (literal (codes "0.05"))) c.dfollowed then some (to_goal, c) else (do
      discontinuities ← get_discontinuity_points d t c
      c1 ← go_to_best (best_of (turn_to c) discontinuities dbl_max none) c
      c2 ← update_dfollowed c1
      some (following, c2))
