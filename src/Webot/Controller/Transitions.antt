-- ===== src/Webot/Controller/Transitions.antt =====
-- webot/controllers/waypoints_runner/robot.cpp: the steps of its three phases, as a relation.
pub mod Follow
pub mod Nearer
use p7_kode.Base.{
  ℕ, ◌<◌, ◌≡◌, refl, sym, ap, subst, ◌∙◌, Bool, true, false, Option, none, some, List, ◌⊎◌, inl,
  inr, Bool-cases, if◌then◌else◌,
}
use p7_kode.Base.Optional.{◌>>=◌}
use p7_kode.Base.Int.{pos}
use p7_kode.Base.Text.{codes}
use p7_kode.Base.Double.{Double}
use p7_kode.Base.Trig.{Trig}
use p7_kode.Webot.Geo.{Angle, GlobalPoint, euclidean_dist}
use p7_kode.Webot.Controller.{
  Phase, to_goal, to_discontinuity, following, is_to_goal, is_following, Controller,
  get_relative_angle_to_goal, angle2index, range_at,
}
use p7_kode.Webot.Controller.Loops.{Gives}
use p7_kode.Webot.Controller.Least.{OrderLaws, NoneBelow, IsBest, Chosen, best_of-Chosen}
use p7_kode.Webot.Controller.Ranges.{
  IsComplete, range_at-Gives, get_discontinuity_points-Gives, IsNearest, IsReach, IsFollowed,
  update_dfollowed-IsFollowed,
}
use p7_kode.Webot.Controller.Clear.{IsBlocked, Verdict, clear-Verdict, clear-Gives}
use p7_kode.Webot.Controller.Drive.{go_towards_angle, go_to_discontinuity}
use p7_kode.Webot.Controller.Edges.{Candidate, get_discontinuity_points}
use p7_kode.Webot.Controller.Phases.{
  clear, dreach, best_of, best_point, heuristic, go_to_best, around_obstacles, nothing_before,
  motion2goal, turn_to,
}

module _ (d : Double) (t : Trig d) where
  abbrev pub started : Controller d → Controller d
  started c = record c { prev_dist2goal = c.cur_dist2goal }

  -- An index with the range in the direction of the goal.
  abbrev pub LooksAt : Controller d → ℕ → Type 0
  LooksAt c i =
      (angle2index d t (get_relative_angle_to_goal d t (started c)) (started c) ≡ pos i)
      × (i < c.lidar_resolution)

  -- No obstacle before the goal, and none beside the way, unless the robot is on the way already.
  abbrev pub IsFree : Controller d → Type 0
  IsFree c =
      ((i : ℕ) × (range : Option d.Carrier) × LooksAt c i
        × (range_at d t (pos i) c ≡ some range)
        × (nothing_before d t c.cur_dist2goal range ≡ true))
      × ((is_to_goal c.phase ≡ true)
          ⊎ ((i : ℕ) → i < c.lidar_resolution → ¬ IsBlocked d t (started c) i))

  -- The best of the candidates, by this value.
  abbrev pub IsBestOf : Controller d → (GlobalPoint d → d.Carrier) → Candidate d t → Type 0
  IsBestOf c value best =
      (candidates : List (Candidate d t)) × (get_discontinuity_points d t c ≡ some candidates)
      × IsBest d t value d.dbl_max candidates best

  -- There is no candidate with a value below DBL_MAX: best_point and dir are as they were declared.
  abbrev pub HasNone : Controller d → (GlobalPoint d → d.Carrier) → Type 0
  HasNone c value =
      (candidates : List (Candidate d t)) × (get_discontinuity_points d t c ≡ some candidates)
      × NoneBelow d t value d.dbl_max candidates

  -- From a controller to the phase and the controller that follow.
  pub data Transition (c : Controller d) : Phase → Controller d → Type 0 where
    towards_goal :
        is_following c.phase ≡ false
        → IsFree c
        → Transition c to_goal
            (go_towards_angle d t (get_relative_angle_to_goal d t (started c)) (started c))
    towards_discontinuity :
        is_following c.phase ≡ false
        → (best : Candidate d t) → IsBestOf (started c) (heuristic d t (started c)) best
        → d.lt c.cur_dist2goal (euclidean_dist d t best.0 c.goal) ≡ false
        → Transition c to_discontinuity (go_to_discontinuity d t best.0 best.1 (started c))
    meets_obstacle :
        is_following c.phase ≡ false
        → (point : GlobalPoint d)
        → (HasNone (started c) (heuristic d t (started c)) × (point ≡ best_point d t none))
          ⊎ ((best : Candidate d t) × IsBestOf (started c) (heuristic d t (started c)) best
              × (point ≡ best.0))
        → d.lt c.cur_dist2goal (euclidean_dist d t point c.goal) ≡ true
        → (c' : Controller d) → IsFollowed d t (record (started c) { dfollowed = d.dbl_max }) c'
        → Transition c following c'
    leaves_obstacle :
        is_following c.phase ≡ true
        → (reach : d.Carrier) → dreach d t c ≡ some reach
        → IsNearest d t c (IsReach d t c) c.lidar_resolution reach
        → d.lt (d.add reach (d.literal (codes "0.05"))) c.dfollowed ≡ true
        → Transition c to_goal c
    along_obstacle :
        is_following c.phase ≡ true
        → (reach : d.Carrier) → dreach d t c ≡ some reach
        → IsNearest d t c (IsReach d t c) c.lidar_resolution reach
        → d.lt (d.add reach (d.literal (codes "0.05"))) c.dfollowed ≡ false
        → (best : Candidate d t) → IsBestOf c (turn_to d t c) best
        → (c' : Controller d) → IsFollowed d t (go_to_discontinuity d t best.0 best.1 c) c'
        → Transition c following c'
