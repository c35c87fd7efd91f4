-- ===== src/Config/Calls/Answers.antt =====
-- config/src/config_wrapper.cpp: each function answers as its reference.
use p7_kode.Base.{◌≡◌, refl, ap, List, [], ◌∷◌, map, inl, inr}
use p7_kode.Base.Text.{Bytes}
use p7_kode.Base.Double.{Double}
use p7_kode.Base.Json.{Json}
use p7_kode.Config.Values.{File}
use p7_kode.Config.Store.{State, start}
use p7_kode.Config.Calls.{Call, run}
use p7_kode.Config.Calls.Reference.{reference}
use p7_kode.Config.Calls.Ready.{loaded_static, loaded_dynamic, IsReady}
use p7_kode.Config.Calls.Same.{Same}
use p7_kode.Config.Calls.Numbers.{
  number_of_stations-reference, number_of_end_stations-reference, number_of_robots-reference,
  number_of_waypoints-reference, waypoint_passing_time-reference, station_passing_time-reference,
  next_station-reference, destination-reference, next_waypoint-reference, uncertainty-reference,
}
use p7_kode.Config.Calls.Indexed.{
  convert_to_waypoint_id-reference, station_visited-reference, eta-reference,
  station_list-reference, get_station_dist-reference, next_robot_station-reference,
  get_waypoint_dist-reference, waypoint_visited-reference, get_next_action_type-reference,
  get_next_action_value-reference,
}

module _ (d : Double) (j : Json d) (files : Bytes → File d j) where
  call-reference : (c : Call) → Same d j files c
  call-reference Call.number_of_stations = number_of_stations-reference d j files
  call-reference Call.number_of_end_stations = number_of_end_stations-reference d j files
  call-reference Call.number_of_robots = number_of_robots-reference d j files
  call-reference Call.number_of_waypoints = number_of_waypoints-reference d j files
  call-reference Call.waypoint_passing_time = waypoint_passing_time-reference d j files
  call-reference Call.station_passing_time = station_passing_time-reference d j files
  call-reference Call.next_station = next_station-reference d j files
  call-reference Call.destination = destination-reference d j files
  call-reference Call.next_waypoint = next_waypoint-reference d j files
  call-reference Call.uncertainty = uncertainty-reference d j files
  call-reference (Call.convert_to_waypoint_id n) = convert_to_waypoint_id-reference d j files n
  call-reference (Call.station_visited n) = station_visited-reference d j files n
  call-reference (Call.eta n) = eta-reference d j files n
  call-reference (Call.waypoint_visited n) = waypoint_visited-reference d j files n
  call-reference (Call.station_list n) = station_list-reference d j files n
  call-reference (Call.get_station_dist i k) = get_station_dist-reference d j files i k
  call-reference (Call.next_robot_station i k) = next_robot_station-reference d j files i k
  call-reference (Call.get_waypoint_dist i k) = get_waypoint_dist-reference d j files i k
  call-reference (Call.get_next_action_type i k) = get_next_action_type-reference d j files i k
  call-reference (Call.get_next_action_value i k) = get_next_action_value-reference d j files i k

  run_ready :
      (calls : List Call) (s : State d j)
      → IsReady d j files s
      → run d j files calls s
        ≡ map (reference d j (loaded_static d j files) (loaded_dynamic d j files)) calls
  unfolding run
  run_ready [] s ready = refl
  run_ready (c ∷ calls) s ready =
      let (s', e, settled) = call-reference c s ready in
      rw (run, e)
        (ap (◌∷◌ (reference d j (loaded_static d j files) (loaded_dynamic d j files) c))
          (run_ready calls s' (inr settled)))

  -- Whatever sequence of calls a model makes, each call gives the answer that the function without static
  -- variables computes from what the two files leave in the configurations: neither the order of the
  -- calls nor an exception in one of them changes the answer of another.
  pub run-reference :
      (calls : List Call)
      → run d j files calls (start d j)
        ≡ map (reference d j (loaded_static d j files) (loaded_dynamic d j files)) calls
  run-reference calls = run_ready calls (start d j) (inl refl)
