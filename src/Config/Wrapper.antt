-- ===== src/Config/Wrapper.antt =====
-- config/src/config_wrapper.cpp: the functions that the UPPAAL models call. The type of the result of a
-- call is that of the C function; an array that it fills is the list of the values written to it, from
-- its first element on.
use p7_kode.Base.{
  ℕ, zero, suc, Bool, Option, none, some, List, [], ◌∷◌, Result, ok, err, if◌then◌else◌, get_elem?,
  length,
}
use p7_kode.Base.Exec.{Exec, pure, lift, ◌>>=◌}
use p7_kode.Base.Int.{ℤ, pos, negsuc, leb_ℤ, ◌+ℤ◌, ◌-ℤ◌}
use p7_kode.Base.Text.{Bytes, codes}
use p7_kode.Base.Double.{Double}
use p7_kode.Base.Json.{Json}
use p7_kode.Config.Values.{
  Action, File, get_int, get_double, get_vector, get_matrix, get_plans, get_size,
}
use p7_kode.Config.Store.{
  State, load, static_int, static_vector, static_flags, static_matrix, static_plans, static_etas,
}
use p7_kode.Config.Store.{IntStatic, VectorStatic, FlagsStatic, MatrixStatic, PlansStatic}
use p7_kode.Config.Convert.{
  vector_at, combined_stations, next_station_index, convert_visited_stations,
  station_id_to_dist_index_conversion, convert_robot_next_station, convert_eta, waypoint_flags,
  rounds_of, convert_to_action_type, done_code, dist_at,
}

module _ {S A : Type 0} where
  -- catch (const std::exception &e): every exception is caught, and the default returned.
  abbrev pub or_default : A → Result A × S → A × S
  or_default a (ok b, s) = (b, s)
  or_default a (err e, s) = (a, s)

  abbrev pub caught : A → Exec S A → S → A × S
  caught a m s = or_default a (m s)

  -- A call that throws nothing.
  abbrev pub calling : (S → A × S) → Exec S A
  calling f s = (ok (f s).0, (f s).1)

-- arr[i] = v.at(i) for n rounds from i on; the exception behind the last element of v ends the loop.
unfoldable pub copy_from : {A : Type 0} → ℕ → ℕ → List A → List A
copy_from i zero v = []
copy_from i (suc n) v = elim (get_elem? v i) [ none ↦ [] | some a ↦ a ∷ copy_from (suc i) n v ]

-- schedule.size() > step ? f(schedule.at(step)) : end
unfoldable pub at_step : {A B : Type 0} → (A → B) → B → List A → ℤ → Result B
at_step f end schedule step =
    if leb_ℤ (pos (length schedule)) step
    then ok end
    else (elim (vector_at schedule step) [ ok a ↦ ok (f a) | err e ↦ err e ])

module _ (d : Double) (j : Json d) (files : Bytes → File d j) where
  open j use {Value}

  -- A value that is read from the static configuration, and from the dynamic one.
  abbrev pub of_static : {A : Type 0} → (Value → Result A) → Exec (State d j) A
  of_static f s = (f s.static_config, s)

  abbrev pub of_dynamic : {A : Type 0} → (Value → Result A) → Exec (State d j) A
  of_dynamic f s = (f s.dynamic_config, s)

  abbrev pub of_both : {A : Type 0} → (Value → Value → Result A) → Exec (State d j) A
  of_both f s = (f s.static_config s.dynamic_config, s)

  -- load(); try { return m; } catch (…) { return default; }
  abbrev pub loading : {A : Type 0} → A → Exec (State d j) A → State d j → A × State d j
  loading a m s = caught a m (load d j files s)

  unfoldable pub number_of_stations : State d j → ℤ × State d j
  number_of_stations = loading (pos 0) (
      static_int d j IntStatic.number_of_stations (
        of_static (λ json. get_size d j json (codes "stations")) >>= λ a.
        of_static (λ json. get_size d j json (codes "end_stations")) >>= λ b. pure (a +ℤ b)))

  unfoldable pub number_of_end_stations : State d j → ℤ × State d j
  number_of_end_stations = loading (pos 0) (
      static_int d j IntStatic.number_of_end_stations
        (of_static (λ json. get_size d j json (codes "end_stations"))))

  unfoldable pub number_of_robots : State d j → ℤ × State d j
  number_of_robots = loading (pos 1) (
      static_int d j IntStatic.number_of_robots (
        of_dynamic (λ json. get_size d j json (codes "robot_info_map")) >>= λ a. pure (a +ℤ pos 1)))

  unfoldable pub number_of_waypoints : State d j → ℤ × State d j
  number_of_waypoints = loading (pos 0) (
      static_int d j IntStatic.number_of_waypoints (
        of_static (λ json. get_size d j json (codes "stations")) >>= λ a.
        of_static (λ json. get_size d j json (codes "end_stations")) >>= λ b.
        of_static (λ json. get_size d j json (codes "vias")) >>= λ c. pure (a +ℤ b +ℤ c)))

  unfoldable pub waypoint_passing_time : State d j → ℤ × State d j
  waypoint_passing_time = loading (pos 0) (
      static_int d j IntStatic.waypoint_passing_time
        (of_static (λ json. get_int d j json (codes "waypoint_delay"))))

  unfoldable pub station_passing_time : State d j → ℤ × State d j
  station_passing_time = loading (pos 0) (
      static_int d j IntStatic.station_passing_time
        (of_static (λ json. get_int d j json (codes "station_delay"))))

  -- CONFIG_GETTER
  unfoldable pub uncertainty : State d j → d.Carrier × State d j
  uncertainty =
      loading (d.literal (codes "0.0"))
        (of_static (λ json. get_double d j json (codes "uncertainty")))

  unfoldable pub next_waypoint : State d j → ℤ × State d j
  next_waypoint = loading (pos 0) (of_dynamic (λ json. get_int d j json (codes "next_waypoint")))

  unfoldable pub convert_to_waypoint_id : ℤ → State d j → ℤ × State d j
  convert_to_waypoint_id station_id = loading (negsuc 0) (
      static_vector d j VectorStatic.convert_to_waypoint_id (of_both (combined_stations d j))
      >>= λ stations. lift (vector_at stations (station_id -ℤ pos 1)))

  unfoldable pub next_station : State d j → ℤ × State d j
  next_station =
      loading (pos 0) (static_int d j IntStatic.next_station (of_both (next_station_index d j)))

  unfoldable pub destination : State d j → ℤ × State d j
  destination = loading (negsuc 0) (
      static_int d j IntStatic.destination
        (of_dynamic (λ json. get_int d j json (codes "next_station"))))

  unfoldable pub station_visited : ℤ → State d j → List Bool × State d j
  station_visited number_of_stations = loading [] (
      static_flags d j FlagsStatic.station_visited (of_both (convert_visited_stations d j))
      >>= λ is_visited. pure (copy_from 0 (rounds_of number_of_stations) is_visited))

  unfoldable pub get_station_dist : ℤ → ℤ → State d j → Option ℤ × State d j
  get_station_dist from to = loading (some (pos 2147483647)) (
      static_matrix d j MatrixStatic.station_dist
        (of_static (λ json. get_matrix d j json (codes "station_distance_matrix")))
      >>= λ dist.
          static_vector d j VectorStatic.conversion
            (of_both (station_id_to_dist_index_conversion d j))
          >>= λ conversion. lift (dist_at dist conversion from to))

  unfoldable pub next_robot_station : ℤ → ℤ → State d j → ℤ × State d j
  next_robot_station robot step = loading (pos 0) (
      static_matrix d j MatrixStatic.robot_schedules (of_both (convert_robot_next_station d j))
      >>= λ robot_schedules. lift (vector_at robot_schedules (robot -ℤ pos 2)) >>= λ robot_schedule.
          lift (at_step (λ station. station) (pos 0) robot_schedule step))

  unfoldable pub eta : ℤ → State d j → d.Carrier × State d j
  eta robot = loading (d.of_int (pos 0)) (
      static_etas d j (of_both (convert_eta d j)) >>= λ etas.
      lift (vector_at etas (robot -ℤ pos 1)))

  unfoldable pub get_waypoint_dist : ℤ → ℤ → State d j → ℤ × State d j
  get_waypoint_dist from to = loading (negsuc 0) (
      static_matrix d j MatrixStatic.waypoint_dist
        (of_static (λ json. get_matrix d j json (codes "waypoint_distance_matrix")))
      >>= λ dists. lift (vector_at dists from) >>= λ row. lift (vector_at row to))

  unfoldable pub convert_visited_waypoints : Exec (State d j) (List Bool)
  convert_visited_waypoints =
      of_dynamic (λ json. get_vector d j json (codes "visited_waypoints")) >>= λ visited_waypoints.
      calling number_of_waypoints >>= λ num_waypoints.
      pure (waypoint_flags visited_waypoints (rounds_of num_waypoints))

  unfoldable pub waypoint_visited : ℤ → State d j → List Bool × State d j
  waypoint_visited number_of_waypoints = loading [] (
      static_flags d j FlagsStatic.waypoint_visited convert_visited_waypoints >>= λ is_visited.
      pure (copy_from 0 (rounds_of number_of_waypoints) is_visited))

  unfoldable pub station_list : ℤ → State d j → List ℤ × State d j
  station_list number_of_stations = loading [] (
      static_vector d j VectorStatic.station_list (of_both (combined_stations d j)) >>= λ stations.
      pure (copy_from 0 (rounds_of number_of_stations) stations))

  unfoldable pub get_waypoint_plan : Exec (State d j) (List (List Action))
  get_waypoint_plan =
      static_plans d j PlansStatic.get_waypoint_plan
        (of_dynamic (λ json. get_plans d j json (codes "robot_info_map") (codes "waypoint_plan")))

  unfoldable pub get_next_action_type : ℤ → ℤ → State d j → ℤ × State d j
  get_next_action_type robot step = loading done_code (
      static_plans d j PlansStatic.next_action_type get_waypoint_plan >>= λ waypoint_plans.
      lift (vector_at waypoint_plans (robot -ℤ pos 2)) >>= λ robot_schedule.
      lift (at_step convert_to_action_type done_code robot_schedule step))

  unfoldable pub get_next_action_value : ℤ → ℤ → State d j → ℤ × State d j
  get_next_action_value robot step = loading (pos 0) (
      static_plans d j PlansStatic.next_action_value get_waypoint_plan >>= λ waypoint_plans.
      lift (vector_at waypoint_plans (robot -ℤ pos 2)) >>= λ robot_schedule.
      lift (at_step (λ action. action.1) (pos 0) robot_schedule step))
