-- ===== src/Config/Calls.antt =====
-- config/include/config/config_wrapper.hpp: sequences of calls of the library.
pub mod Reference
pub mod Static
pub mod Memory
pub mod Ready
pub mod Same
pub mod Numbers
pub mod Indexed
pub mod Answers
use p7_kode.Base.{ℕ, Bool, Option, List, [], ◌∷◌}
use p7_kode.Base.Int.{ℤ}
use p7_kode.Base.Text.{Bytes}
use p7_kode.Base.Double.{Double}
use p7_kode.Base.Json.{Json}
use p7_kode.Config.Values.{File}
use p7_kode.Config.Store.{State}
use p7_kode.Config.Wrapper

pub data Call : Type 0 where
  number_of_stations number_of_end_stations number_of_robots number_of_waypoints : Call
  waypoint_passing_time station_passing_time next_station destination next_waypoint : Call
  uncertainty : Call
  convert_to_waypoint_id station_visited eta waypoint_visited station_list : ℤ → Call
  get_station_dist next_robot_station get_waypoint_dist : ℤ → ℤ → Call
  get_next_action_type get_next_action_value : ℤ → ℤ → Call

-- What a call returns, or writes to its array. The distance `none` is undefined behaviour.
pub data Answer (R : Type 0) : Type 0 where
  int : ℤ → Answer R
  real : R → Answer R
  distance : Option ℤ → Answer R
  flags : List Bool → Answer R
  ids : List ℤ → Answer R

abbrev pub answered : {S A R : Type 0} → (A → Answer R) → A × S → Answer R × S
answered f (a, s) = (f a, s)

module _ (d : Double) (j : Json d) (files : Bytes → File d j) where
  unfoldable pub call : Call → State d j → Answer d.Carrier × State d j
  call number_of_stations s = answered int (Wrapper.number_of_stations d j files s)
  call number_of_end_stations s = answered int (Wrapper.number_of_end_stations d j files s)
  call number_of_robots s = answered int (Wrapper.number_of_robots d j files s)
  call number_of_waypoints s = answered int (Wrapper.number_of_waypoints d j files s)
  call waypoint_passing_time s = answered int (Wrapper.waypoint_passing_time d j files s)
  call station_passing_time s = answered int (Wrapper.station_passing_time d j files s)
  call next_station s = answered int (Wrapper.next_station d j files s)
  call destination s = answered int (Wrapper.destination d j files s)
  call next_waypoint s = answered int (Wrapper.next_waypoint d j files s)
  call uncertainty s = answered real (Wrapper.uncertainty d j files s)
  call (convert_to_waypoint_id i) s = answered int (Wrapper.convert_to_waypoint_id d j files i s)
  call (station_visited n) s = answered flags (Wrapper.station_visited d j files n s)
  call (eta i) s = answered real (Wrapper.eta d j files i s)
  call (waypoint_visited n) s = answered flags (Wrapper.waypoint_visited d j files n s)
  call (station_list n) s = answered ids (Wrapper.station_list d j files n s)
  call (get_station_dist a b) s = answered distance (Wrapper.get_station_dist d j files a b s)
  call (next_robot_station i k) s = answered int (Wrapper.next_robot_station d j files i k s)
  call (get_waypoint_dist a b) s = answered int (Wrapper.get_waypoint_dist d j files a b s)
  call (get_next_action_type i k) s = answered int (Wrapper.get_next_action_type d j files i k s)
  call (get_next_action_value i k) s = answered int (Wrapper.get_next_action_value d j files i k s)

  unfoldable pub run : List Call → State d j → List (Answer d.Carrier)
  run [] s = []
  run (c ∷ calls) s = let (answer, s') = call c s in answer ∷ run calls s'
