-- ===== src/Config/Calls/Reference.antt =====
-- config/src/config_wrapper.cpp: its functions without static variables, which compute each answer anew
-- from the two configurations.
use p7_kode.Base.{Bool, Option, some, List, [], Result, ok, err}
use p7_kode.Base.Fallible.{◌>>=◌}
use p7_kode.Base.Int.{ℤ, pos, negsuc, ◌+ℤ◌, ◌-ℤ◌}
use p7_kode.Base.Text.{codes}
use p7_kode.Base.Double.{Double}
use p7_kode.Base.Json.{Json}
use p7_kode.Config.Values.{Action, get_int, get_double, get_vector, get_matrix, get_plans, get_size}
use p7_kode.Config.Store.{
  IntStatic, VectorStatic, FlagsStatic, MatrixStatic, PlansStatic, EtaStatic,
}
use p7_kode.Config.Convert.{
  vector_at, combined_stations, next_station_index, convert_visited_stations,
  station_id_to_dist_index_conversion, convert_robot_next_station, convert_eta, waypoint_flags,
  rounds_of, convert_to_action_type, done_code, dist_at,
}
use p7_kode.Config.Wrapper.{copy_from, at_step}
use p7_kode.Config.Calls.{Call, Answer, int, real, distance, flags, ids}

abbrev pub or_else : {A : Type 0} → A → Result A → A
or_else a (ok b) = b
or_else a (err e) = a

module _ (d : Double) (j : Json d) (static_config dynamic_config : j.Value) where
  abbrev stations_size : Result ℤ
  stations_size = do
    a ← get_size d j static_config (codes "stations")
    b ← get_size d j static_config (codes "end_stations")
    ok (a +ℤ b)

  abbrev waypoints_size : Result ℤ
  waypoints_size = do
    a ← get_size d j static_config (codes "stations")
    b ← get_size d j static_config (codes "end_stations")
    c ← get_size d j static_config (codes "vias")
    ok (a +ℤ b +ℤ c)

  abbrev robots_size : Result ℤ
  robots_size = do a ← get_size d j dynamic_config (codes "robot_info_map"); ok (a +ℤ pos 1)

  -- What the static variables are initialised with.
  abbrev pub int_value : IntStatic → Result ℤ
  int_value IntStatic.number_of_stations = stations_size
  int_value IntStatic.number_of_end_stations = get_size d j static_config (codes "end_stations")
  int_value IntStatic.number_of_robots = robots_size
  int_value IntStatic.number_of_waypoints = waypoints_size
  int_value IntStatic.waypoint_passing_time = get_int d j static_config (codes "waypoint_delay")
  int_value IntStatic.station_passing_time = get_int d j static_config (codes "station_delay")
  int_value IntStatic.next_station = next_station_index d j static_config dynamic_config
  int_value IntStatic.destination = get_int d j dynamic_config (codes "next_station")

  abbrev pub vector_value : VectorStatic → Result (List ℤ)
  vector_value VectorStatic.convert_to_waypoint_id =
      combined_stations d j static_config dynamic_config
  vector_value VectorStatic.conversion =
      station_id_to_dist_index_conversion d j static_config dynamic_config
  vector_value VectorStatic.station_list = combined_stations d j static_config dynamic_config

  abbrev pub visited_waypoints : Result (List Bool)
  visited_waypoints = do
    visited ← get_vector d j dynamic_config (codes "visited_waypoints")
    ok (waypoint_flags visited (rounds_of (or_else (pos 0) waypoints_size)))

  abbrev pub flags_value : FlagsStatic → Result (List Bool)
  flags_value FlagsStatic.station_visited =
      convert_visited_stations d j static_config dynamic_config
  flags_value FlagsStatic.waypoint_visited = visited_waypoints

  abbrev pub matrix_value : MatrixStatic → Result (List (List ℤ))
  matrix_value MatrixStatic.station_dist =
      get_matrix d j static_config (codes "station_distance_matrix")
  matrix_value MatrixStatic.robot_schedules =
      convert_robot_next_station d j static_config dynamic_config
  matrix_value MatrixStatic.waypoint_dist =
      get_matrix d j static_config (codes "waypoint_distance_matrix")

  abbrev pub plans_value : PlansStatic → Result (List (List Action))
  plans_value k = get_plans d j dynamic_config (codes "robot_info_map") (codes "waypoint_plan")

  abbrev pub eta_value : EtaStatic → Result (List d.Carrier)
  eta_value k = convert_eta d j static_config dynamic_config

  abbrev pub plan_step : {A : Type 0} → (Action → A) → A → ℤ → ℤ → Result A
  plan_step f end robot step = do
    plans ← get_plans d j dynamic_config (codes "robot_info_map") (codes "waypoint_plan")
    schedule ← vector_at plans (robot -ℤ pos 2)
    at_step f end schedule step

  abbrev pub waypoint_id : ℤ → Result ℤ
  waypoint_id station_id = do
    stations ← combined_stations d j static_config dynamic_config
    vector_at stations (station_id -ℤ pos 1)

  abbrev pub station_dist : ℤ → ℤ → Result (Option ℤ)
  station_dist from to = do
    dist ← get_matrix d j static_config (codes "station_distance_matrix")
    conversion ← station_id_to_dist_index_conversion d j static_config dynamic_config
    dist_at dist conversion from to

  abbrev pub robot_station : ℤ → ℤ → Result ℤ
  robot_station robot step = do
    schedules ← convert_robot_next_station d j static_config dynamic_config
    schedule ← vector_at schedules (robot -ℤ pos 2)
    at_step (λ station. station) (pos 0) schedule step

  abbrev pub waypoint_dist : ℤ → ℤ → Result ℤ
  waypoint_dist from to = do
    dists ← get_matrix d j static_config (codes "waypoint_distance_matrix")
    row ← vector_at dists from
    vector_at row to

  abbrev pub robot_eta : ℤ → Result d.Carrier
  robot_eta robot = do
    etas ← convert_eta d j static_config dynamic_config
    vector_at etas (robot -ℤ pos 1)

  abbrev pub copied : {A : Type 0} → ℤ → Result (List A) → Result (List A)
  copied n r = do values ← r; ok (copy_from 0 (rounds_of n) values)

  abbrev pub reference : Call → Answer d.Carrier
  reference Call.number_of_stations = int (or_else (pos 0) stations_size)
  reference Call.number_of_end_stations =
      int (or_else (pos 0) (get_size d j static_config (codes "end_stations")))
  reference Call.number_of_robots = int (or_else (pos 1) robots_size)
  reference Call.number_of_waypoints = int (or_else (pos 0) waypoints_size)
  reference Call.waypoint_passing_time =
      int (or_else (pos 0) (get_int d j static_config (codes "waypoint_delay")))
  reference Call.station_passing_time =
      int (or_else (pos 0) (get_int d j static_config (codes "station_delay")))
  reference Call.next_station =
      int (or_else (pos 0) (next_station_index d j static_config dynamic_config))
  reference Call.destination =
      int (or_else (negsuc 0) (get_int d j dynamic_config (codes "next_station")))
  reference Call.next_waypoint =
      int (or_else (pos 0) (get_int d j dynamic_config (codes "next_waypoint")))
  reference Call.uncertainty =
      real (or_else (d.literal (codes "0.0")) (get_double d j static_config (codes "uncertainty")))
  reference (Call.convert_to_waypoint_id i) = int (or_else (negsuc 0) (waypoint_id i))
  reference (Call.station_visited n) =
      flags (or_else [] (copied n (convert_visited_stations d j static_config dynamic_config)))
  reference (Call.eta i) = real (or_else (d.of_int (pos 0)) (robot_eta i))
  reference (Call.waypoint_visited n) = flags (or_else [] (copied n visited_waypoints))
  reference (Call.station_list n) =
      ids (or_else [] (copied n (combined_stations d j static_config dynamic_config)))
  reference (Call.get_station_dist a b) =
      distance (or_else (some (pos 2147483647)) (station_dist a b))
  reference (Call.next_robot_station i k) = int (or_else (pos 0) (robot_station i k))
  reference (Call.get_waypoint_dist a b) = int (or_else (negsuc 0) (waypoint_dist a b))
  reference (Call.get_next_action_type i k) =
      int (or_else done_code (plan_step convert_to_action_type done_code i k))
  reference (Call.get_next_action_value i k) =
      int (or_else (pos 0) (plan_step (λ action. action.1) (pos 0) i k))
