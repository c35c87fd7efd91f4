-- ===== src/Config/Calls/Numbers.antt =====
-- config/src/config_wrapper.cpp: the functions without an argument answer as their references.
use p7_kode.Base.{ok}
use p7_kode.Base.Int.{pos, negsuc, ◌+ℤ◌}
use p7_kode.Base.Text.{Bytes, codes}
use p7_kode.Base.Double.{Double}
use p7_kode.Base.Json.{Json}
use p7_kode.Config.Values.{File, get_int, get_double, get_size}
use p7_kode.Config.Store.{IntStatic}
use p7_kode.Config.Convert.{next_station_index}
use p7_kode.Config.Wrapper
use p7_kode.Config.Wrapper.{copy_from, at_step, calling}
use p7_kode.Config.Calls.{Call, int, real, call}
use p7_kode.Config.Calls.Static.{Yields-lift, Yields->>=}
use p7_kode.Config.Calls.Memory.{static_int-Yields}
use p7_kode.Config.Calls.Ready.{
  loaded_static, loaded_dynamic, loading-Answers, of_static-Yields, of_dynamic-Yields,
  of_both-Yields,
}
use p7_kode.Config.Calls.Same.{Good, Same, answered-Answers}

module _ (d : Double) (j : Json d) (files : Bytes → File d j) where
  pub number_of_stations-reference : Same d j files Call.number_of_stations
  unfolding call Wrapper.number_of_stations
  number_of_stations-reference = answered-Answers d j files int _ _ (
      loading-Answers d j files (pos 0) _ _ (
        static_int-Yields d j (loaded_static d j files) (loaded_dynamic d j files)
          IntStatic.number_of_stations _
          (Yields->>= (Good d j files) _ _ _ _
            (of_static-Yields d j files (λ json. get_size d j json (codes "stations")))
            (λ a.
              Yields->>= (Good d j files) _ _ _ _
                (of_static-Yields d j files (λ json. get_size d j json (codes "end_stations")))
                (λ b. Yields-lift (Good d j files) (ok (a +ℤ b)))))))

  pub number_of_end_stations-reference : Same d j files Call.number_of_end_stations
  unfolding call Wrapper.number_of_end_stations
  number_of_end_stations-reference = answered-Answers d j files int _ _ (
      loading-Answers d j files (pos 0) _ _ (
        static_int-Yields d j (loaded_static d j files) (loaded_dynamic d j files)
          IntStatic.number_of_end_stations _
          (of_static-Yields d j files (λ json. get_size d j json (codes "end_stations")))))

  pub number_of_robots-reference : Same d j files Call.number_of_robots
  unfolding call Wrapper.number_of_robots
  number_of_robots-reference = answered-Answers d j files int _ _ (
      loading-Answers d j files (pos 1) _ _ (
        static_int-Yields d j (loaded_static d j files) (loaded_dynamic d j files)
          IntStatic.number_of_robots _
          (Yields->>= (Good d j files) _ _ _ _
            (of_dynamic-Yields d j files (λ json. get_size d j json (codes "robot_info_map")))
            (λ a. Yields-lift (Good d j files) (ok (a +ℤ pos 1))))))

  pub number_of_waypoints-reference : Same d j files Call.number_of_waypoints
  unfolding call Wrapper.number_of_waypoints
  number_of_waypoints-reference = answered-Answers d j files int _ _ (
      loading-Answers d j files (pos 0) _ _ (
        static_int-Yields d j (loaded_static d j files) (loaded_dynamic d j files)
          IntStatic.number_of_waypoints _
          (Yields->>= (Good d j files) _ _ _ _
            (of_static-Yields d j files (λ json. get_size d j json (codes "stations")))
            (λ a.
              Yields->>= (Good d j files) _ _ _ _
                (of_static-Yields d j files (λ json. get_size d j json (codes "end_stations")))
                (λ b.
                  Yields->>= (Good d j files) _ _ _ _
                    (of_static-Yields d j files (λ json. get_size d j json (codes "vias")))
                    (λ c. Yields-lift (Good d j files) (ok (a +ℤ b +ℤ c))))))))

  pub waypoint_passing_time-reference : Same d j files Call.waypoint_passing_time
  unfolding call Wrapper.waypoint_passing_time
  waypoint_passing_time-reference = answered-Answers d j files int _ _ (
      loading-Answers d j files (pos 0) _ _ (
        static_int-Yields d j (loaded_static d j files) (loaded_dynamic d j files)
          IntStatic.waypoint_passing_time _
          (of_static-Yields d j files (λ json. get_int d j json (codes "waypoint_delay")))))

  pub station_passing_time-reference : Same d j files Call.station_passing_time
  unfolding call Wrapper.station_passing_time
  station_passing_time-reference = answered-Answers d j files int _ _ (
      loading-Answers d j files (pos 0) _ _ (
        static_int-Yields d j (loaded_static d j files) (loaded_dynamic d j files)
          IntStatic.station_passing_time _
          (of_static-Yields d j files (λ json. get_int d j json (codes "station_delay")))))

  pub next_station-reference : Same d j files Call.next_station
  unfolding call Wrapper.next_station
  next_station-reference = answered-Answers d j files int _ _ (
      loading-Answers d j files (pos 0) _ _ (
        static_int-Yields d j (loaded_static d j files) (loaded_dynamic d j files)
          IntStatic.next_station _ (of_both-Yields d j files (next_station_index d j))))

  pub destination-reference : Same d j files Call.destination
  unfolding call Wrapper.destination
  destination-reference = answered-Answers d j files int _ _ (
      loading-Answers d j files (negsuc 0) _ _ (
        static_int-Yields d j (loaded_static d j files) (loaded_dynamic d j files)
          IntStatic.destination _
          (of_dynamic-Yields d j files (λ json. get_int d j json (codes "next_station")))))

  pub next_waypoint-reference : Same d j files Call.next_waypoint
  unfolding call Wrapper.next_waypoint
  next_waypoint-reference = answered-Answers d j files int _ _ (
      loading-Answers d j files (pos 0) _ _
        (of_dynamic-Yields d j files (λ json. get_int d j json (codes "next_waypoint"))))

  pub uncertainty-reference : Same d j files Call.uncertainty
  unfolding call Wrapper.uncertainty
  uncertainty-reference = answered-Answers d j files real _ _ (
      loading-Answers d j files (d.literal (codes "0.0")) _ _
        (of_static-Yields d j files (λ json. get_double d j json (codes "uncertainty"))))
