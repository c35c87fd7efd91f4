-- ===== src/Webot/Controller/Edges.antt =====
-- webot/controllers/waypoints_runner/robot.cpp: `get_discontinuity_points`.
use p7_kode.Base.{ℕ, suc, ◌%◌, Option, none, some, List, [], ◌∷◌, ◌++◌, if◌then◌else◌}
use p7_kode.Base.Optional.{◌>>=◌}
use p7_kode.Base.Int.{pos}
use p7_kode.Base.Text.{codes}
use p7_kode.Base.Double.{Double}
use p7_kode.Base.Trig.{Trig}
use p7_kode.Webot.Geo.{GlobalPoint, from_polar, to_global_coordinates}
use p7_kode.Webot.Controller.{
  DiscontinuityDirection, on_left, on_right, Controller, for_up, get_facing_angle, index2angle,
  range_at,
}

module _ (d : Double) (t : Trig d) where
  open d use {Carrier, sub, lt, literal}

  abbrev pub Candidate : Type 0
  Candidate = GlobalPoint d × DiscontinuityDirection

  -- The two tests on the value at an index and the one at the next, with the distance and the direction
  -- that are taken where one of them holds.
  unfoldable pub edge :
      Carrier → Option Carrier → Option Carrier → Option (Carrier × DiscontinuityDirection)
  edge max_range (some a) none = some (a, on_left)
  edge max_range none (some b) = some (max_range, on_right)
  edge max_range none none = none
  edge max_range (some a) (some b) =
      if lt (literal (codes "0.05f")) (t.abs (sub a b))
      then some (a, if lt a b then on_left else on_right)
      else none

  -- The point at this distance in the direction of the index.
  unfoldable pub point_at : Controller d → Carrier → ℕ → GlobalPoint d
  point_at c dist i =
      to_global_coordinates d t c.position (get_facing_angle d t c)
        (from_polar d t dist (index2angle d t i c))

  abbrev pub push_edge :
      Controller d → ℕ → Option (Carrier × DiscontinuityDirection) → List Candidate → List Candidate
  push_edge c i none discontinuities = discontinuities
  push_edge c i (some (dist, direction)) discontinuities =
      discontinuities ++ (point_at c dist i, direction) ∷ []

  -- The body of the loop.
  unfoldable pub add_edge : Controller d → ℕ → List Candidate → Option (List Candidate)
  add_edge c i discontinuities = do
    here ← range_at d t (pos i) c
    there ← range_at d t (pos (suc i % c.lidar_resolution)) c
    some (push_edge c i (edge c.lidar_max_range here there) discontinuities)

  unfoldable pub get_discontinuity_points : Controller d → Option (List Candidate)
  get_discontinuity_points c = for_up c.lidar_resolution (add_edge c) []
