-- ===== src/Webot/Controller/Drive.antt =====
-- webot/controllers/waypoints_runner/robot.cpp: the motors and the lights.
pub mod Commands
use p7_kode.Base.{Bool, true, false, Option, none, some, List, [], ◌∷◌, if◌then◌else◌}
use p7_kode.Base.Int.{pos, negsuc}
use p7_kode.Base.Text.{codes}
use p7_kode.Base.Double.{Double}
use p7_kode.Base.Trig.{Trig, min}
use p7_kode.Webot.Geo.{Angle, GlobalPoint, make_angle, add_angles, abs_angle, euclidean_dist}
use p7_kode.Webot.Controller.{
  Direction, left, right, straight, DiscontinuityDirection, on_left, on_right, Controller,
  get_angle_to_point,
}

abbrev pub is_left : Direction → Bool
is_left left = true
is_left _ = false

abbrev pub is_right : Direction → Bool
is_right right = true
is_right _ = false

-- The values of leds[0] to leds[7].
abbrev pub led_values : Direction → List Bool
led_values dir =
    false
    ∷ is_left dir
    ∷ is_left dir
    ∷ is_left dir
    ∷ is_right dir
    ∷ is_right dir
    ∷ is_right dir
    ∷ false
    ∷ []

module _ (d : Double) where
  open d use {Carrier, of_int}

  -- setVelocity of the two motors
  abbrev pub set_velocities : Carrier → Carrier → Controller d → Controller d
  set_velocities l r c = record c { left_motor = l; right_motor = r }

  abbrev pub set_leds : Direction → Controller d → Controller d
  set_leds dir c = record c { leds = led_values dir }

  unfoldable pub go_straight_ahead : Controller d → Controller d
  go_straight_ahead c = set_leds straight (set_velocities (of_int (pos 6)) (of_int (pos 6)) c)

  unfoldable pub do_left_turn : Controller d → Controller d
  do_left_turn c =
      set_leds left
        (record (set_velocities (of_int (negsuc 3)) (of_int (pos 4)) c) { is_stopped = false })

  unfoldable pub do_right_turn : Controller d → Controller d
  do_right_turn c =
      set_leds right
        (record (set_velocities (of_int (pos 4)) (of_int (negsuc 3)) c) { is_stopped = false })

  unfoldable pub stop : Controller d → Controller d
  stop c = record (set_velocities (of_int (pos 0)) (of_int (pos 0)) c) { is_stopped = true }

module _ (d : Double) (t : Trig d) where
  open d use {Carrier, add, sub, mul, lt, literal, of_int}
  open t use {pi, neg, div}

  unfoldable pub go_adjusted_straight : Angle d → Controller d → Controller d
  go_adjusted_straight angle c =
      let turn = mul (literal (codes "3.5")) angle.theta in
      record (set_leds d straight
        (set_velocities d (sub (of_int (pos 8)) turn) (add (of_int (pos 8)) turn) c)) {
          is_stopped = false;
        }

  unfoldable pub go_towards_angle : Angle d → Controller d → Controller d
  go_towards_angle angle c =
      if lt (div pi (of_int (pos 10))) angle.theta
      then do_left_turn d c
      else if lt angle.theta (div (neg pi) (of_int (pos 10)))
      then do_right_turn d c
      else if lt (abs_angle d t angle).theta
          (mul (literal (codes "0.5")) (div pi (of_int (pos 180))))
      then go_straight_ahead d c
      else go_adjusted_straight angle c

  abbrev sign : DiscontinuityDirection → Carrier
  sign on_left = of_int (pos 1)
  sign on_right = of_int (negsuc 0)

  unfoldable pub go_to_discontinuity :
      GlobalPoint d → DiscontinuityDirection → Controller d → Controller d
  go_to_discontinuity point dir c =
      let dist = euclidean_dist d t c.position point in
      let remaining = sub (of_int (pos 1)) (min d (literal (codes "1.0")) dist) in
      let correction = mul (div (mul remaining pi) (of_int (pos 4))) (sign dir) in
      go_towards_angle (add_angles d t (get_angle_to_point d t point c) (make_angle d t correction))
        c
