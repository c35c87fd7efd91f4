-- ===== src/Webot/Controller/Transitions/Nearer.antt =====
-- webot/controllers/waypoints_runner/robot.cpp: how `boundary_following` goes on.
use p7_kode.Base.{◌≡◌, true, false, ◌⊎◌}
use p7_kode.Base.Text.{codes}
use p7_kode.Base.Double.{Double}
use p7_kode.Base.Trig.{Trig}
use p7_kode.Webot.Controller.{Phase, to_goal, following, Controller}
use p7_kode.Webot.Controller.Least.{OrderLaws}
use p7_kode.Webot.Controller.Ranges.{IsComplete, IsNearest, IsReach, IsFollowed}
use p7_kode.Webot.Controller.Drive.{go_to_discontinuity}
use p7_kode.Webot.Controller.Edges.{Candidate}
use p7_kode.Webot.Controller.Phases.{turn_to}
use p7_kode.Webot.Controller.Transitions.{IsBestOf}

module _ (d : Double) (t : Trig d) (laws : OrderLaws d) (c : Controller d)
    (complete : IsComplete d c) where
  -- How boundary_following goes on: the least distance to the goal that the free ways come to is more
  -- than 0.05 below that of the obstacle, and nothing changes; or it drives to the discontinuity that
  -- takes the least turn, and the distance of the obstacle to the goal becomes the least of itself and
  -- those seen from here, and does not grow.
  abbrev pub GoesOn : Phase → Controller d → Type 0
  GoesOn phase c' =
      ((phase ≡ to_goal)
        × (c' ≡ c)
        × ((reach : d.Carrier) × IsNearest d t c (IsReach d t c) c.lidar_resolution reach
            × (d.lt (d.add reach (d.literal (codes "0.05"))) c.dfollowed ≡ true)))
      ⊎ ((phase ≡ following)
          × ((best : Candidate d t) × IsBestOf d t c (turn_to d t c) best
              × IsFollowed d t (go_to_discontinuity d t best.0 best.1 c) c')
          × (d.lt c.dfollowed c'.dfollowed ≡ false))
