-- ===== src/Webot/Controller/Drive/Commands.antt =====
-- webot/controllers/waypoints_runner/robot.cpp: what the motors and the lights show after a command.
use p7_kode.Base.{◌≡◌, refl, true, false, inl, inr, Bool-cases}
use p7_kode.Base.Int.{pos, negsuc}
use p7_kode.Base.Text.{codes}
use p7_kode.Base.Double.{Double}
use p7_kode.Base.Trig.{Trig}
use p7_kode.Webot.Geo.{Angle, GlobalPoint, abs_angle}
use p7_kode.Webot.Controller.{left, right, straight, Direction, DiscontinuityDirection, Controller}
use p7_kode.Webot.Controller.Drive.{
  led_values, go_straight_ahead, do_left_turn, do_right_turn, stop, go_adjusted_straight,
  go_towards_angle, go_to_discontinuity,
}

module _ (d : Double) where
  open d use {Carrier, of_int}

  -- The velocities of the motors, and the lights.
  abbrev Shows : Carrier → Carrier → Direction → Controller d → Type 0
  Shows l r dir c = (c.left_motor ≡ l) × (c.right_motor ≡ r) × (c.leds ≡ led_values dir)

  -- Nothing but the motors, the lights and is_stopped is different.
  abbrev pub IsDriven : Controller d → Controller d → Type 0
  IsDriven c c' = c' ≡ record c {
    left_motor = c'.left_motor;
    right_motor = c'.right_motor;
    leds = c'.leds;
    is_stopped = c'.is_stopped;
  }

module _ (d : Double) (t : Trig d) where
  open d use {Carrier, add, sub, mul, lt, literal, of_int}
  open t use {pi, neg, div}

  -- The robot stands and says so; or it turns on the spot, or goes ahead with a correction that is not
  -- more than a tenth of pi, and says that it runs; or it goes straight ahead, where what it says is open.
  pub data IsCommanded (c : Controller d) : Type 0 where
    stands :
        c.left_motor ≡ of_int (pos 0)
        → c.right_motor ≡ of_int (pos 0)
        → c.is_stopped ≡ true
        → IsCommanded c
    turns_left :
        Shows d (of_int (negsuc 3)) (of_int (pos 4)) left c → c.is_stopped ≡ false → IsCommanded c
    turns_right :
        Shows d (of_int (pos 4)) (of_int (negsuc 3)) right c → c.is_stopped ≡ false → IsCommanded c
    goes_straight : Shows d (of_int (pos 6)) (of_int (pos 6)) straight c → IsCommanded c
    corrects :
        (angle : Carrier)
        → lt (div pi (of_int (pos 10))) angle ≡ false
        → lt angle (div (neg pi) (of_int (pos 10))) ≡ false
        → Shows d
            (sub (of_int (pos 8)) (mul (literal (codes "3.5")) angle))
            (add (of_int (pos 8)) (mul (literal (codes "3.5")) angle))
            straight
            c
        → c.is_stopped ≡ false
        → IsCommanded c

  abbrev pub Obeys : Controller d → Controller d → Type 0
  Obeys c c' = IsDriven d c c' × IsCommanded c'

  pub stop-Obeys : (c : Controller d) → Obeys c (stop d c)
  unfolding stop
  stop-Obeys c = (refl, stands refl refl refl)

  pub go_towards_angle-Obeys :
      (angle : Angle d) (c : Controller d) → Obeys c (go_towards_angle d t angle c)
  unfolding go_towards_angle go_straight_ahead do_left_turn do_right_turn go_adjusted_straight
  go_towards_angle-Obeys angle c = elim (Bool-cases (lt (div pi (of_int (pos 10))) angle.theta)) [
    | inl e ↦ rw e (refl, turns_left (refl, refl, refl) refl)
    | inr e ↦ elim (Bool-cases (lt angle.theta (div (neg pi) (of_int (pos 10))))) [
      | inl f ↦ rw (e, f) (refl, turns_right (refl, refl, refl) refl)
      | inr f ↦
          elim (Bool-cases (
            lt (abs_angle d t angle).theta
              (mul (literal (codes "0.5")) (div pi (of_int (pos 180)))))) [
                | inl g ↦ rw (e, f, g) (refl, goes_straight (refl, refl, refl))
                | inr g ↦ rw (e, f, g) (refl, corrects angle.theta e f (refl, refl, refl) refl)
              ]
    ]
  ]

  pub go_to_discontinuity-Obeys :
      (point : GlobalPoint d) (dir : DiscontinuityDirection) (c : Controller d)
      → Obeys c (go_to_discontinuity d t point dir c)
  unfolding go_to_discontinuity
  go_to_discontinuity-Obeys point dir c = go_towards_angle-Obeys _ c
