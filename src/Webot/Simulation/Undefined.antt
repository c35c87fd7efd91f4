-- ===== src/Webot/Simulation/Undefined.antt =====
-- webot/controllers/waypoints_runner/robot.cpp: when C++ does not define an iteration of `run_simulation`.
use p7_kode.Base.{
  ℕ, ◌≡◌, ◌≢◌, refl, sym, ap, ◌∙◌, Bool, true, false, not, Option, none, some, ◌⊎◌, inl, inr,
  Bool-cases, arith, length, ltb, ◌==◌, if◌then◌else◌,
}
use p7_kode.Base.Optional.{◌>>=◌ as bind}
use p7_kode.Base.Int.{ℤ, pos, negsuc}
use p7_kode.Base.Double.{Double}
use p7_kode.Base.Trig.{Trig}
use p7_kode.Webot.Controller.{is_following, Controller, get_relative_angle_to_goal, angle2index}
use p7_kode.Webot.Controller.Least.{OrderLaws}
use p7_kode.Webot.Controller.Ranges.{IsComplete}
use p7_kode.Webot.Controller.Phases.{heuristic, turn_to}
use p7_kode.Webot.Controller.Sensors.{update_sensor_values}
use p7_kode.Webot.Controller.Sensors.Mirror.{update_sensor_values-IsRead}
use p7_kode.Webot.Controller.Transitions.{started, LooksAt, HasNone}
use p7_kode.Webot.Controller.Transitions.Follow.{next_phase-Proceeds}
use p7_kode.Webot.Simulation.{in_phase, next_phase, near_goal, drive, move}

if-none :
    {A : Type 0} (b : Bool) (a : A) (m : Option A) → (if b then some a else m) ≡ none → m ≡ none
if-none true a m h = cc
if-none false a m h = h

bind-none : {A B : Type 0} (m : Option A) (f : A → B) → bind m (λ a. some (f a)) ≡ none → m ≡ none
bind-none none f h = refl
bind-none (some a) f h = cc

module _ (d : Double) (t : Trig d) where
  -- The direction of the goal is at no index of the lidar; or no discontinuity has a value below
  -- DBL_MAX: in BoundaryFollowing the turn to it, and otherwise the length of the way over it to the
  -- goal.
  abbrev pub LacksNext : Controller d → Type 0
  LacksNext c =
      ((i : ℕ) → ¬ LooksAt d t c i)
      ⊎ (((is_following c.phase ≡ false)
            × HasNone d t (started d t c) (heuristic d t (started d t c)))
          ⊎ ((is_following c.phase ≡ true) × HasNone d t c (turn_to d t c)))

  -- The image of the lidar or lidar_range_values does not have as many values as the lidar says; or,
  -- with the sensors read, there is nothing to head for.
  abbrev pub IsStuck : Controller d → Type 0
  IsStuck c =
      (length c.readings.range_image ≢ c.lidar_resolution)
      ⊎ ((length c.lidar_range_values ≢ c.lidar_resolution)
          ⊎ ((c' : Controller d) × (update_sensor_values d t c ≡ some c') × LacksNext c'))

  module _ (laws : OrderLaws d) where
    next_phase-LacksNext :
        (c : Controller d) → IsComplete d c → next_phase d t c ≡ none → LacksNext c
    next_phase-LacksNext c complete h =
        go (angle2index d t (get_relative_angle_to_goal d t (started d t c)) (started d t c)) refl
      where
        looks : (i : ℕ) → LooksAt d t c i → LacksNext c
        looks i l = elim (next_phase-Proceeds d t laws c complete i l) [
          | inl (r, e, step) ↦ let f : some r ≡ none = sym e ∙ h in cc
          | inr (e, lacking) ↦ inr lacking
        ]

        go :
            (z : ℤ)
            → angle2index d t (get_relative_angle_to_goal d t (started d t c)) (started d t c) ≡ z
            → LacksNext c
        go (negsuc n) e = inl (λ i (f, below). let g : negsuc n ≡ pos i = sym e ∙ f in cc)
        go (pos n) e = elim (Bool-cases (ltb n c.lidar_resolution)) [
          | inl b ↦ looks n (e, (ground arith))
          | inr b ↦ inl (λ i (f, below).
              let g : pos n ≡ pos i = sym e ∙ f in let g' : n ≡ i = cc in ground arith)
        ]

    drive-LacksNext : (c : Controller d) → IsComplete d c → drive d t c ≡ none → LacksNext c
    unfolding drive
    drive-LacksNext c complete h =
        next_phase-LacksNext c complete
          (bind-none (next_phase d t c) (λ r. in_phase d t r) (if-none (near_goal d t c) _ _ h))

    -- An iteration that C++ does not define finds what IsStuck says.
    pub move-IsStuck : (c : Controller d) → move d t c ≡ none → IsStuck c
    unfolding move
    move-IsStuck c h =
        let h' = if-none (not c.has_goal) _ _ (if-none c.first_iteration _ _ h) in
        elim (Bool-cases (length c.readings.range_image == c.lidar_resolution)) [
          | inl a ↦ elim (Bool-cases (length c.lidar_range_values == c.lidar_resolution)) [
            | inl b ↦
                let (values, place, e, _, complete, _) =
                  update_sensor_values-IsRead d t c (ground arith) (ground arith) in
                inr (
                  inr (
                    _,
                    e,
                    drive-LacksNext _ complete (sym (ap (λ o. bind o (λ c'. drive d t c')) e) ∙ h'),
                  ))
            | inr b ↦ inr (inl (λ k. ground arith))
          ]
          | inr a ↦ inl (λ k. ground arith)
        ]
