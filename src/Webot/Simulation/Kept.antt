-- ===== src/Webot/Simulation/Kept.antt =====
-- webot/controllers/waypoints_runner/robot.cpp: what every iteration of `run_simulation` keeps.
pub mod Steps
use p7_kode.Base.{
  ℕ, ◌≡◌, refl, sym, ap, ◌∙◌, Bool, true, false, not, Option, none, some, List, inl, inr,
  Bool-cases, if◌then◌else◌,
}
use p7_kode.Base.Optional.{◌>>=◌, Ensures, Ensures->>=, Ensures-some, Ensures-if}
use p7_kode.Base.Text.{codes}
use p7_kode.Base.Double.{Double}
use p7_kode.Base.Trig.{Trig}
use p7_kode.Webot.Geo.{GlobalPoint, euclidean_dist}
use p7_kode.Webot.Controller.{
  Phase, is_following, Controller, for_up, get_relative_angle_to_goal, range_at, angle2index,
}
use p7_kode.Webot.Controller.Sensors.{update_sensor_values, store_range}
use p7_kode.Webot.Controller.Drive.{go_towards_angle, go_to_discontinuity, stop}
use p7_kode.Webot.Controller.Drive.Commands.{
  IsCommanded, stands, turns_left, turns_right, goes_straight, corrects, Obeys, stop-Obeys,
  go_towards_angle-Obeys, go_to_discontinuity-Obeys,
}
use p7_kode.Webot.Controller.Edges.{Candidate, get_discontinuity_points}
use p7_kode.Webot.Controller.Phases.{
  best_point, heuristic, nothing_before, turn_to, update_dfollowed, nearer_obstacle, dreach, clear,
  best_of, go_to_best, around_obstacles, motion2goal, boundary_following,
}
use p7_kode.Webot.Simulation.{next_phase, drive, move}

module _ (d : Double) (t : Trig d) (goal : GlobalPoint d) where
  -- The motors and the lights show a command, and this is the goal.
  pub record IsKept (c : Controller d) : Type 0 where
    pub commanded : IsCommanded d t c
    pub same_goal : c.goal ≡ goal
    pub with_goal : c.has_goal ≡ true

  -- What they show is the same.
  pub record IsAlike (c c' : Controller d) : Type 0 where
    pub left : c'.left_motor ≡ c.left_motor
    pub right : c'.right_motor ≡ c.right_motor
    pub lights : c'.leds ≡ c.leds
    pub stopped : c'.is_stopped ≡ c.is_stopped

  pub IsAlike-IsCommanded :
      (c c' : Controller d) → IsAlike c c' → IsCommanded d t c → IsCommanded d t c'
  IsAlike-IsCommanded c c' a (stands l r s) = stands (a.left ∙ l) (a.right ∙ r) (a.stopped ∙ s)
  IsAlike-IsCommanded c c' a (turns_left (l, r, g) s) =
      turns_left (a.left ∙ l, a.right ∙ r, a.lights ∙ g) (a.stopped ∙ s)
  IsAlike-IsCommanded c c' a (turns_right (l, r, g) s) =
      turns_right (a.left ∙ l, a.right ∙ r, a.lights ∙ g) (a.stopped ∙ s)
  IsAlike-IsCommanded c c' a (goes_straight (l, r, g)) =
      goes_straight (a.left ∙ l, a.right ∙ r, a.lights ∙ g)
  IsAlike-IsCommanded c c' a (corrects angle low high (l, r, g) s) =
      corrects angle low high (a.left ∙ l, a.right ∙ r, a.lights ∙ g) (a.stopped ∙ s)

  pub IsAlike-IsKept :
      (c c' : Controller d)
      → IsAlike c c'
      → c'.goal ≡ c.goal
      → c'.has_goal ≡ c.has_goal
      → IsKept c
      → IsKept c'
  IsAlike-IsKept c c' a g h k = record {
    commanded = IsAlike-IsCommanded c c' a k.commanded;
    same_goal = g ∙ k.same_goal;
    with_goal = h ∙ k.with_goal;
  }

  pub Obeys-IsKept : (c c' : Controller d) → Obeys d t c c' → IsKept c → IsKept c'
  Obeys-IsKept c c' (driven, commanded) k = record {
    commanded = commanded;
    same_goal = ap (λ z. z.goal) driven ∙ k.same_goal;
    with_goal = ap (λ z. z.has_goal) driven ∙ k.with_goal;
  }
