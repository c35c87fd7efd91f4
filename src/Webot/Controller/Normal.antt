-- ===== src/Webot/Controller/Normal.antt =====
-- webot/controllers/waypoints_runner/robot.cpp: `normal_angle`.
use p7_kode.Base.{ℕ, Option, none, some, List, [], ◌∷◌, ◌++◌, length, if◌then◌else◌}
use p7_kode.Base.Optional.{◌>>=◌}
use p7_kode.Base.Int.{pos}
use p7_kode.Base.Text.{codes}
use p7_kode.Base.Double.{Double}
use p7_kode.Base.Trig.{Trig}
use p7_kode.Webot.Geo.{Angle, make_angle}
use p7_kode.Webot.Controller.{Controller, for_up, index2angle, range_at}

module _ (d : Double) (t : Trig d) where
  open d use {Carrier, add, sub, mul, lt, literal, of_int, dbl_max}

  -- `candidates` and `normal_dist`
  abbrev Nearest : Type 0
  Nearest = List (Angle d) × Carrier

  unfoldable pub nearest_value : Angle d → Option Carrier → Nearest → Nearest
  nearest_value angle none (candidates, normal_dist) = (candidates, normal_dist)
  nearest_value angle (some value) (candidates, normal_dist) =
      if lt value (sub normal_dist (literal (codes "0.0001")))
      then (angle ∷ [], value)
      else if lt (t.abs (sub value normal_dist)) (literal (codes "0.0001"))
      then (
        candidates ++ angle ∷ [],
        add (mul (literal (codes "0.99")) normal_dist) (mul (literal (codes "0.01")) value),
      )
      else (candidates, normal_dist)

  -- The body of the loop.
  unfoldable pub nearest_at : Controller d → ℕ → Nearest → Option Nearest
  nearest_at c i nearest = do
    range ← range_at d t (pos i) c
    some (nearest_value (index2angle d t i c) range nearest)

  unfoldable pub sum_angles : List (Angle d) → Carrier → Carrier
  sum_angles [] sum = sum
  sum_angles (angle ∷ candidates) sum = sum_angles candidates (add sum angle.theta)

  unfoldable pub normal_angle : Controller d → Option (Angle d)
  normal_angle c = do
    nearest ← for_up c.lidar_resolution (nearest_at c) ([], dbl_max)
    some (
        make_angle d t
          (t.div (sum_angles nearest.0 (of_int (pos 0))) (of_int (pos (length nearest.0)))))
