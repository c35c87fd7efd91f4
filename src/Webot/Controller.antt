-- ===== src/Webot/Controller.antt =====
-- webot/controllers/waypoints_runner/robot.hpp: the state of `RobotController`, and its angles.
pub mod Loops
pub mod Sensors
pub mod Drive
pub mod Edges
pub mod Phases
pub mod Normal
pub mod Least
pub mod Ranges
pub mod Clear
pub mod Transitions
use p7_kode.Base.{ℕ, zero, suc, Bool, true, false, Option, none, some, List}
use p7_kode.Base.Optional.{◌>>=◌}
use p7_kode.Base.Int.{ℤ, pos}
use p7_kode.Base.Double.{Double}
use p7_kode.Base.Trig.{Trig, two_pi}
use p7_kode.Config.Convert.{vector_index}
use p7_kode.Webot.Geo.{GlobalPoint, Angle, make_angle, get_midpoint, angle_of_line, sub_angles}

pub data Direction : Type 0 where
  left right straight : Direction

-- Motion2Goal, Motion2Discontinuity and BoundaryFollowing
pub data Phase : Type 0 where
  to_goal to_discontinuity following : Phase

abbrev pub is_to_goal : Phase → Bool
is_to_goal to_goal = true
is_to_goal _ = false

abbrev pub is_following : Phase → Bool
is_following following = true
is_following _ = false

pub data DiscontinuityDirection : Type 0 where
  on_left on_right : DiscontinuityDirection

module _ (d : Double) where
  open d use {Carrier}

  -- The values of a GPS.
  pub record Gps : Type 0 where
    pub x : Carrier
    pub y : Carrier
    pub z : Carrier

  -- What the devices show from one call of robot->step to the next.
  pub record Readings : Type 0 where
    pub front_gps : Gps
    pub back_gps : Gps
    pub distance_sensors : List Carrier
    pub range_image : List Carrier

  -- The velocity of a motor and the values of the lights are those that were set last.
  pub record Controller : Type 0 where
    pub readings : Readings
    pub left_motor : Carrier
    pub right_motor : Carrier
    pub leds : List Bool
    pub lidar_resolution : ℕ
    pub lidar_max_range : Carrier
    pub lidar_min_range : Carrier
    pub lidar_range_values : List (Option Carrier)
    pub is_stopped : Bool
    pub has_goal : Bool
    pub goal : GlobalPoint d
    pub sensor_readings : List Carrier
    pub cur_dist2goal : Carrier
    pub prev_dist2goal : Carrier
    pub first_iteration : Bool
    pub phase : Phase
    pub dfollowed : Carrier
    pub position : GlobalPoint d

-- for (int i = 0; i < n; ++i) body
unfoldable pub for_up : {S : Type 0} → ℕ → (ℕ → S → Option S) → S → Option S
for_up zero body s = some s
for_up (suc n) body s = do s' ← for_up n body s; body n s'

module _ (d : Double) (t : Trig d) where
  open d use {Carrier, add, sub, mul, of_int}
  open t use {pi, div, round}

  abbrev pub gps_reading_to_point : Gps d → GlobalPoint d
  gps_reading_to_point gps = record { x = gps.x; y = gps.z }

  unfoldable pub get_position : Controller d → GlobalPoint d
  get_position c =
      get_midpoint d t (gps_reading_to_point c.readings.front_gps)
        (gps_reading_to_point c.readings.back_gps)

  unfoldable pub get_facing_angle : Controller d → Angle d
  get_facing_angle c =
      angle_of_line d t (gps_reading_to_point c.readings.back_gps)
        (gps_reading_to_point c.readings.front_gps)

  unfoldable pub get_angle_to_goal : Controller d → Angle d
  get_angle_to_goal c = angle_of_line d t (get_position c) c.goal

  unfoldable pub get_relative_angle_to_goal : Controller d → Angle d
  get_relative_angle_to_goal c = sub_angles d t (get_angle_to_goal c) (get_facing_angle c)

  unfoldable pub get_angle_to_point : GlobalPoint d → Controller d → Angle d
  get_angle_to_point point c =
      sub_angles d t (angle_of_line d t (get_position c) point) (get_facing_angle c)

  unfoldable pub angle2index : Angle d → Controller d → ℤ
  angle2index angle c =
      round (mul (div (add angle.theta pi) (two_pi d t)) (of_int (pos c.lidar_resolution)))

  unfoldable pub index2angle : ℕ → Controller d → Angle d
  index2angle index c = make_angle d t (
      sub
        (mul (mul (div (of_int (pos index)) (of_int (pos c.lidar_resolution))) (of_int (pos 2))) pi)
        pi)

  -- lidar_range_values[index]
  abbrev pub range_at : ℤ → Controller d → Option (Option Carrier)
  range_at index c = vector_index c.lidar_range_values index
