-- ===== src/Webot/Examples.antt =====
-- webot/controllers/waypoints_runner: a robot that sees four ranges.
use p7_kode.Base.{
  ℕ, suc, ◌+◌, ◌-◌, ◌*◌, ◌/◌, ◌%◌, ◌≡◌, refl, true, false, none, some, List, [], ◌∷◌, Result, ok,
  arith, ltb, leb, if◌then◌else◌,
}
use p7_kode.Base.Int.{ℤ, pos, negsuc}
use p7_kode.Base.Text.{Bytes, codes}
use p7_kode.Base.Double.{Double}
use p7_kode.Base.Trig.{Trig}
use p7_kode.Tcp.Connection.{connected}
use p7_kode.Webot.Geo.{make_angle}
use p7_kode.Webot.Geo.Bounds.{AngleLaws, make_angle-bounded}
use p7_kode.Webot.Controller.{Phase, to_goal, to_discontinuity, Controller, Readings}
use p7_kode.Webot.Controller.Loops.{Gives}
use p7_kode.Webot.Controller.Sensors.{update_sensor_values}
use p7_kode.Webot.Controller.Sensors.Mirror.{IsRead, update_sensor_values-IsRead}
use p7_kode.Webot.Controller.Phases.{clear}
use p7_kode.Webot.Controller.Clear.{Verdict, clear-Verdict}
use p7_kode.Webot.Simulation.{Robot}
use p7_kode.Base.{All, inl}
use p7_kode.Webot.Server.Requests.{Request, asks_state, sets, sets_one, other, wires, IsRequest}
use p7_kode.Webot.Simulation.{communicate}
use p7_kode.Webot.Simulation.Answers.{IsRead as StodReads, communicate-wires}

-- Whole numbers from -360 on in place of doubles: n stands for n - 360.
abbrev magnitude : ℕ → ℕ
magnitude a = (a - 360) + (360 - a)

abbrev of_int : ℤ → ℕ
of_int (pos n) = 360 + n
of_int (negsuc n) = 360 - suc n

abbrev degrees : Double
degrees = record {
  Carrier = ℕ;
  add = λ a b. a + b - 360;
  sub = λ a b. a + 360 - b;
  mul = λ a b. 360 + (a - 360) * (b - 360);
  sqrt = λ a. a;
  lt = ltb;
  literal = λ s. 361;
  of_int = of_int;
  dbl_max = 1000000;
}

-- Angles in degrees: pi is 180. Every direction is that of the x axis.
abbrev turns : Trig degrees
turns = record {
  pi = 540;
  le = leb;
  neg = λ a. 720 - a;
  div = λ a b. 360 + (a - 360) / (b - 360);
  pow = λ a b. 360 + magnitude a;
  fmod = λ a b. if leb 360 a then 360 + (a - 360) % (b - 360) else 360 - (360 - a) % (b - 360);
  abs = λ a. 360 + magnitude a;
  sin = λ a. 360;
  cos = λ a. 361;
  atan2 = λ y x. 360;
  round = λ a. pos (a - 360);
}

degrees-AngleLaws : AngleLaws degrees turns (λ a. Unit)
degrees-AngleLaws = record {
  lt_le = λ a b h. ground arith;
  ge_le = λ a b f g h. ground arith;
  add_two_pi_le = λ a b f g h. ground arith;
  sub_pi_le = λ a b h. ground arith;
  IsFinite-fmod = λ a f. tt;
  IsFinite-zero = tt;
  IsFinite-neg_two_pi = tt;
  fmod_above = λ a f. ground arith;
  fmod_below = λ a f. ground arith;
  add_neg_two_pi = refl;
  add_zero_two_pi = refl;
  sub_two_pi = refl;
  sub_zero = refl;
}

-- 270 degrees are -90.
make_angle-bounded_example :
    (leb 180 (make_angle degrees turns 630).theta ≡ true)
    × (leb (make_angle degrees turns 630).theta 540 ≡ true)
make_angle-bounded_example = make_angle-bounded degrees turns (λ a. Unit) degrees-AngleLaws 630 tt

abbrev devices : Readings degrees
devices = record {
  front_gps = record { x = 364; y = 360; z = 362 };
  back_gps = record { x = 362; y = 360; z = 362 };
  distance_sensors = 361 ∷ [];
  range_image = 365 ∷ 362 ∷ 450 ∷ 363 ∷ [];
}

-- A robot that stands, two from the goal.
abbrev standing : Phase → ℕ → Controller degrees
standing phase dfollowed = record {
  readings = devices;
  left_motor = 360;
  right_motor = 360;
  leds = [];
  lidar_resolution = 4;
  lidar_max_range = 380;
  lidar_min_range = 361;
  lidar_range_values = some 362 ∷ some 365 ∷ some 363 ∷ none ∷ [];
  is_stopped = true;
  has_goal = false;
  goal = record { x = 365; y = 362 };
  sensor_readings = [];
  cur_dist2goal = 362;
  prev_dist2goal = 362;
  first_iteration = false;
  phase = phase;
  dfollowed = dfollowed;
  position = record { x = 363; y = 362 };
}

update_sensor_values-IsRead_example :
    IsRead degrees turns
      (standing to_goal 370)
      (update_sensor_values degrees turns (standing to_goal 370))
update_sensor_values-IsRead_example =
    update_sensor_values-IsRead degrees turns (standing to_goal 370) refl refl

clear-Verdict_example :
    Gives
      (clear degrees turns (standing to_discontinuity 370))
      (Verdict degrees turns (standing to_discontinuity 370) 4)
clear-Verdict_example = clear-Verdict degrees turns (standing to_discontinuity 370) refl refl

abbrev robot : Robot degrees
robot = record {
  controller = standing to_goal 370;
  link = record { client = connected 3; sent = [] };
  destination = none;
}

abbrev read_number : Bytes → Result ℕ
read_number s = ok 361

abbrev steps : List (Readings degrees × List Bytes)
steps =
    (devices, codes "set_destination,1,2" ∷ codes "get_state" ∷ [])
    ∷ (devices, codes "dance" ∷ [])
    ∷ []

abbrev requests : List Request
requests =
    other (codes "dance") ∷ sets (codes "1") (codes "2") ∷ asks_state ∷ sets_one (codes "7") ∷ []

requests-IsRequest :
    All
      (IsRequest
        (λ s. some 1)
        (λ s. (1, refl))
        (StodReads degrees read_number (λ x. []) (λ s. some 1) (λ s. (1, refl)) (λ s. 361)))
      requests
requests-IsRequest =
    (inl (ground arith, (λ e. cc)), ((ground arith, refl, refl), (tt, (ground arith, tt))))

communicate-wires_example :
    communicate degrees read_number (λ x. []) (λ s. some 1) (wires requests) robot ≡ (
      ok tt,
      record robot {
        link = record robot.link {
          sent =
              codes "not_understood,dance"
              ∷ codes "get_state,,,stopped"
              ∷ codes "not_understood,7"
              ∷ [];
        };
        destination = some (record { x = 361; y = 361 });
      },
    )
communicate-wires_example =
    communicate-wires degrees read_number (λ x. []) (λ s. some 1) (λ s. (1, refl)) (λ s. 361)
      requests robot (refl, refl) requests-IsRequest
