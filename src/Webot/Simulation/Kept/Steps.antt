-- ===== src/Webot/Simulation/Kept/Steps.antt =====
-- webot/controllers/waypoints_runner/robot.cpp: what its phases keep of the commands and the goal.
use p7_kode.Base.{refl, false, not, Option, none, some, if◌then◌else◌}
use p7_kode.Base.Optional.{Ensures, Ensures->>=, Ensures-some, Ensures-if}
use p7_kode.Base.Text.{codes}
use p7_kode.Base.Double.{Double}
use p7_kode.Base.Trig.{Trig}
use p7_kode.Webot.Geo.{GlobalPoint, euclidean_dist}
use p7_kode.Webot.Controller.{
  Phase, is_following, Controller, for_up, get_relative_angle_to_goal, range_at, angle2index,
}
use p7_kode.Webot.Controller.Sensors.{update_sensor_values, store_range}
use p7_kode.Webot.Controller.Drive.{stop}
use p7_kode.Webot.Controller.Drive.Commands.{
  stop-Obeys, go_towards_angle-Obeys, go_to_discontinuity-Obeys,
}
use p7_kode.Webot.Controller.Edges.{Candidate, get_discontinuity_points}
use p7_kode.Webot.Controller.Phases.{
  best_point, heuristic, nothing_before, turn_to, update_dfollowed, nearer_obstacle, dreach, clear,
  best_of, go_to_best, around_obstacles, motion2goal, boundary_following,
}
use p7_kode.Webot.Simulation.{near_goal, next_phase, drive, move}
use p7_kode.Webot.Simulation.Kept.{IsKept, IsAlike-IsKept, Obeys-IsKept}

module _ (d : Double) (t : Trig d) (goal : GlobalPoint d) where
  pub any : {A : Type 0} (o : Option A) → Ensures o (λ _. Unit)
  any o a e = tt

  pub update_dfollowed-IsKept :
      (c : Controller d) → IsKept d t goal c → Ensures (update_dfollowed d t c) (IsKept d t goal)
  unfolding update_dfollowed
  update_dfollowed-IsKept c k =
      Ensures->>= (for_up c.lidar_resolution (nearer_obstacle d t c) d.dbl_max) _ (λ _. Unit)
        (IsKept d t goal) (any (for_up c.lidar_resolution (nearer_obstacle d t c) d.dbl_max))
        (λ least _. Ensures-some _ (IsKept d t goal) (
          IsAlike-IsKept d t goal c _
            (record { left = refl; right = refl; lights = refl; stopped = refl }) refl refl k))

  go_to_best-IsKept :
      (best : Option (Candidate d t)) (c : Controller d)
      → IsKept d t goal c
      → Ensures (go_to_best d t best c) (IsKept d t goal)
  go_to_best-IsKept none c k = λ c' e. cc
  go_to_best-IsKept (some (point, direction)) c k =
      Ensures-some _ (IsKept d t goal)
        (Obeys-IsKept d t goal c _ (go_to_discontinuity-Obeys d t point direction c) k)

  -- The step keeps them.
  abbrev pub KeepsStep : Phase × Controller d → Type 0
  KeepsStep r = IsKept d t goal r.1

  around_obstacles-IsKept :
      (c : Controller d) → IsKept d t goal c → Ensures (around_obstacles d t c) KeepsStep
  unfolding around_obstacles
  around_obstacles-IsKept c k =
      Ensures->>= (get_discontinuity_points d t c) _ (λ _. Unit) KeepsStep
        (any (get_discontinuity_points d t c))
        (λ candidates _.
          let best = best_of d t (heuristic d t c) candidates d.dbl_max none in
          let c1 = record c { dfollowed = d.dbl_max } in
          Ensures-if (d.lt c.prev_dist2goal (euclidean_dist d t (best_point d t best) c.goal)) _ _
            KeepsStep
            (Ensures->>= (update_dfollowed d t c1) _ (IsKept d t goal) KeepsStep
              (update_dfollowed-IsKept c1 (
                IsAlike-IsKept d t goal c c1
                  (record { left = refl; right = refl; lights = refl; stopped = refl }) refl refl
                  k))
              (λ c' k'. Ensures-some _ KeepsStep k'))
            (Ensures->>= (go_to_best d t best c) _ (IsKept d t goal) KeepsStep
              (go_to_best-IsKept best c k) (λ c' k'. Ensures-some _ KeepsStep k')))

  motion2goal-IsKept :
      (c : Controller d) → IsKept d t goal c → Ensures (motion2goal d t c) KeepsStep
  unfolding motion2goal
  motion2goal-IsKept c k =
      let c1 = record c { prev_dist2goal = c.cur_dist2goal } in
      let angle = get_relative_angle_to_goal d t c1 in
      let k1 =
        IsAlike-IsKept d t goal c c1
          (record { left = refl; right = refl; lights = refl; stopped = refl }) refl refl k in
      Ensures->>= (range_at d t (angle2index d t angle c1) c1) _ (λ _. Unit) KeepsStep
        (any (range_at d t (angle2index d t angle c1) c1))
        (λ range _.
          Ensures->>=
            (if nothing_before d t c1.cur_dist2goal range then clear d t c1 else some false) _
            (λ _. Unit) KeepsStep (any _)
            (λ free _.
              Ensures-if free _ _ KeepsStep
                (Ensures-some _ KeepsStep
                  (Obeys-IsKept d t goal c1 _ (go_towards_angle-Obeys d t angle c1) k1))
                (around_obstacles-IsKept c1 k1)))

  boundary_following-IsKept :
      (c : Controller d) → IsKept d t goal c → Ensures (boundary_following d t c) KeepsStep
  unfolding boundary_following
  boundary_following-IsKept c k =
      Ensures->>= (dreach d t c) _ (λ _. Unit) KeepsStep (any (dreach d t c))
        (λ reach _.
          Ensures-if (d.lt (d.add reach (d.literal (codes "0.05"))) c.dfollowed) _ _ KeepsStep
            (Ensures-some _ KeepsStep k)
            (Ensures->>= (get_discontinuity_points d t c) _ (λ _. Unit) KeepsStep
              (any (get_discontinuity_points d t c))
              (λ candidates _.
                let best = best_of d t (turn_to d t c) candidates d.dbl_max none in
                Ensures->>= (go_to_best d t best c) _ (IsKept d t goal) KeepsStep
                  (go_to_best-IsKept best c k)
                  (λ c1 k1.
                    Ensures->>= (update_dfollowed d t c1) _ (IsKept d t goal) KeepsStep
                      (update_dfollowed-IsKept c1 k1) (λ c2 k2. Ensures-some _ KeepsStep k2)))))

  pub next_phase-IsKept :
      (c : Controller d) → IsKept d t goal c → Ensures (next_phase d t c) KeepsStep
  next_phase-IsKept c k =
      Ensures-if (is_following c.phase) _ _ KeepsStep (boundary_following-IsKept c k)
        (motion2goal-IsKept c k)

  update_sensor_values-IsKept :
      (c : Controller d)
      → IsKept d t goal c
      → Ensures (update_sensor_values d t c) (IsKept d t goal)
  unfolding update_sensor_values
  update_sensor_values-IsKept c k =
      Ensures->>= (for_up c.lidar_resolution (store_range d t c) c.lidar_range_values) _ (λ _. Unit)
        (IsKept d t goal) (any (for_up c.lidar_resolution (store_range d t c) c.lidar_range_values))
        (λ values _. Ensures-some _ (IsKept d t goal) (
          IsAlike-IsKept d t goal c _
            (record { left = refl; right = refl; lights = refl; stopped = refl }) refl refl k))

  stop-IsKept : (c : Controller d) → IsKept d t goal c → IsKept d t goal (stop d c)
  stop-IsKept c k = Obeys-IsKept d t goal c (stop d c) (stop-Obeys d t c) k

  drive-IsKept : (c : Controller d) → IsKept d t goal c → Ensures (drive d t c) (IsKept d t goal)
  unfolding drive
  drive-IsKept c k =
      Ensures-if (near_goal d t c) _ _ (IsKept d t goal)
        (Ensures-some _ (IsKept d t goal) (stop-IsKept c k))
        (Ensures->>= (next_phase d t c) _ KeepsStep (IsKept d t goal) (next_phase-IsKept c k)
          (λ r k'. Ensures-some _ (IsKept d t goal) (
            IsAlike-IsKept d t goal r.1 _
              (record { left = refl; right = refl; lights = refl; stopped = refl }) refl refl k')))

  pub move-IsKept : (c : Controller d) → IsKept d t goal c → Ensures (move d t c) (IsKept d t goal)
  unfolding move
  move-IsKept c k =
      Ensures-if c.first_iteration _ _ (IsKept d t goal)
        (Ensures-some _ (IsKept d t goal) (
          IsAlike-IsKept d t goal c _
            (record { left = refl; right = refl; lights = refl; stopped = refl }) refl refl k))
        (Ensures-if (not c.has_goal) _ _ (IsKept d t goal)
          (Ensures-some _ (IsKept d t goal) (stop-IsKept c k))
          (Ensures->>= (update_sensor_values d t c) _ (IsKept d t goal) (IsKept d t goal)
            (update_sensor_values-IsKept c k) drive-IsKept))
