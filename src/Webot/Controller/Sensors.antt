-- ===== src/Webot/Controller/Sensors.antt =====
-- webot/controllers/waypoints_runner/robot.cpp: `update_sensor_values`.
pub mod Mirror
use p7_kode.Base.{
  ℕ, zero, suc, ◌+◌, ◌-◌, ◌/◌, ◌%◌, Bool, ◌&&◌, Option, none, some, List, [], ◌∷◌, if◌then◌else◌,
  get_elem?,
}
use p7_kode.Base.Optional.{◌>>=◌}
use p7_kode.Base.Text.{codes}
use p7_kode.Base.Double.{Double}
use p7_kode.Base.Trig.{Trig}
use p7_kode.Webot.Geo.{euclidean_dist}
use p7_kode.Webot.Controller.{Controller, for_up, get_position}

module _ {A : Type 0} where
  -- v[i] = a; `none` is behind the end.
  unfoldable pub assign : ℕ → A → List A → Option (List A)
  assign i a [] = none
  assign zero a (b ∷ v) = some (a ∷ v)
  assign (suc i) a (b ∷ v) = do v' ← assign i a v; some (b ∷ v')

-- lidar_resolution - 1 - (i - quarter + lidar_resolution) % lidar_resolution, where quarter is at most
-- lidar_resolution.
unfoldable pub mirrored : ℕ → ℕ → ℕ
mirrored resolution i = resolution - 1 - (i + resolution - resolution / 4) % resolution

module _ (d : Double) (t : Trig d) where
  open d use {Carrier, mul, literal}
  open t use {le}

  -- The distance if it is well inside the range of the lidar.
  unfoldable pub in_range : Controller d → Carrier → Option Carrier
  in_range c dist =
      if le (mul (literal (codes "1.01")) c.lidar_min_range) dist
        && le dist (mul (literal (codes "0.99")) c.lidar_max_range)
      then some dist
      else none

  -- The body of the loop; the state is lidar_range_values.
  abbrev pub store_range : Controller d → ℕ → List (Option Carrier) → Option (List (Option Carrier))
  store_range c i values = do
    dist ← get_elem? c.readings.range_image i
    assign (mirrored c.lidar_resolution i) (in_range c dist) values

  unfoldable pub update_sensor_values : Controller d → Option (Controller d)
  update_sensor_values c = do
    values ← for_up c.lidar_resolution (store_range c) c.lidar_range_values
    some (record c {
      sensor_readings = c.readings.distance_sensors;
      position = get_position d t c;
      cur_dist2goal = euclidean_dist d t (get_position d t c) c.goal;
      lidar_range_values = values;
    })
