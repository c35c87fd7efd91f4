-- ===== src/Config/Calls/Indexed.antt =====
-- config/src/config_wrapper.cpp: the functions of an index answer as their references.
use p7_kode.Base.{refl, some, [], ok, inr}
use p7_kode.Base.Int.{ℤ, pos, negsuc, ◌+ℤ◌, ◌-ℤ◌}
use p7_kode.Base.Text.{Bytes, codes}
use p7_kode.Base.Double.{Double}
use p7_kode.Base.Json.{Json}
use p7_kode.Config.Values.{File, get_vector, get_matrix, get_plans, get_size}
use p7_kode.Config.Store.{State, IntStatic, VectorStatic, FlagsStatic, MatrixStatic, PlansStatic}
use p7_kode.Config.Convert.{
  vector_at, combined_stations, convert_visited_stations, station_id_to_dist_index_conversion,
  convert_robot_next_station, convert_eta, waypoint_flags, rounds_of, convert_to_action_type,
  done_code, dist_at,
}
use p7_kode.Config.Wrapper
use p7_kode.Config.Wrapper.{copy_from, at_step, calling}
use p7_kode.Config.Calls.{Call, int, real, distance, flags, ids, call}
use p7_kode.Config.Calls.Reference.{or_else, int_value, plans_value}
use p7_kode.Config.Calls.Static.{Yields, Yields-lift, Yields->>=}
use p7_kode.Config.Calls.Memory.{
  static_int-Yields, static_vector-Yields, static_flags-Yields, static_matrix-Yields,
  static_plans-Yields, static_etas-Yields,
}
use p7_kode.Config.Calls.Ready.{
  loaded_static, loaded_dynamic, Answers, loading-Answers, of_static-Yields, of_dynamic-Yields,
  of_both-Yields,
}
use p7_kode.Config.Calls.Same.{Good, Same, answered-Answers}

module _ (d : Double) (j : Json d) (files : Bytes → File d j) where
  pub convert_to_waypoint_id-reference : (i : ℤ) → Same d j files (Call.convert_to_waypoint_id i)
  unfolding call Wrapper.convert_to_waypoint_id
  convert_to_waypoint_id-reference i = answered-Answers d j files int _ _ (
      loading-Answers d j files (negsuc 0) _ _ (
        Yields->>= (Good d j files) _ _ _ _
          (static_vector-Yields d j (loaded_static d j files) (loaded_dynamic d j files)
            VectorStatic.convert_to_waypoint_id _
            (of_both-Yields d j files (combined_stations d j)))
          (λ v. Yields-lift (Good d j files) (vector_at v (i -ℤ pos 1)))))

  pub station_visited-reference : (n : ℤ) → Same d j files (Call.station_visited n)
  unfolding call Wrapper.station_visited
  station_visited-reference n = answered-Answers d j files flags _ _ (
      loading-Answers d j files [] _ _ (
        Yields->>= (Good d j files) _ _ _ _
          (static_flags-Yields d j (loaded_static d j files) (loaded_dynamic d j files)
            FlagsStatic.station_visited _ (of_both-Yields d j files (convert_visited_stations d j)))
          (λ v. Yields-lift (Good d j files) (ok (copy_from 0 (rounds_of n) v)))))

  pub eta-reference : (i : ℤ) → Same d j files (Call.eta i)
  unfolding call Wrapper.eta
  eta-reference i = answered-Answers d j files real _ _ (
      loading-Answers d j files (d.of_int (pos 0)) _ _ (
        Yields->>= (Good d j files) _ _ _ _
          (static_etas-Yields d j (loaded_static d j files) (loaded_dynamic d j files) _
            (of_both-Yields d j files (convert_eta d j)))
          (λ v. Yields-lift (Good d j files) (vector_at v (i -ℤ pos 1)))))

  pub station_list-reference : (n : ℤ) → Same d j files (Call.station_list n)
  unfolding call Wrapper.station_list
  station_list-reference n = answered-Answers d j files ids _ _ (
      loading-Answers d j files [] _ _ (
        Yields->>= (Good d j files) _ _ _ _
          (static_vector-Yields d j (loaded_static d j files) (loaded_dynamic d j files)
            VectorStatic.station_list _ (of_both-Yields d j files (combined_stations d j)))
          (λ v. Yields-lift (Good d j files) (ok (copy_from 0 (rounds_of n) v)))))

  pub get_station_dist-reference : (i k : ℤ) → Same d j files (Call.get_station_dist i k)
  unfolding call Wrapper.get_station_dist
  get_station_dist-reference i k = answered-Answers d j files distance _ _ (
      loading-Answers d j files (some (pos 2147483647)) _ _ (
        Yields->>= (Good d j files) _ _ _ _
          (static_matrix-Yields d j (loaded_static d j files) (loaded_dynamic d j files)
            MatrixStatic.station_dist _
            (of_static-Yields d j files
              (λ json. get_matrix d j json (codes "station_distance_matrix"))))
          (λ m.
            Yields->>= (Good d j files) _ _ _ _
              (static_vector-Yields d j (loaded_static d j files) (loaded_dynamic d j files)
                VectorStatic.conversion _
                (of_both-Yields d j files (station_id_to_dist_index_conversion d j)))
              (λ v. Yields-lift (Good d j files) (dist_at m v i k)))))

  pub next_robot_station-reference : (i k : ℤ) → Same d j files (Call.next_robot_station i k)
  unfolding call Wrapper.next_robot_station
  next_robot_station-reference i k = answered-Answers d j files int _ _ (
      loading-Answers d j files (pos 0) _ _ (
        Yields->>= (Good d j files) _ _ _ _
          (static_matrix-Yields d j (loaded_static d j files) (loaded_dynamic d j files)
            MatrixStatic.robot_schedules _
            (of_both-Yields d j files (convert_robot_next_station d j)))
          (λ m.
            Yields->>= (Good d j files) _ _ _ _
              (Yields-lift (Good d j files) (vector_at m (i -ℤ pos 2)))
              (λ v. Yields-lift (Good d j files) (at_step (λ station. station) (pos 0) v k)))))

  pub get_waypoint_dist-reference : (i k : ℤ) → Same d j files (Call.get_waypoint_dist i k)
  unfolding call Wrapper.get_waypoint_dist
  get_waypoint_dist-reference i k = answered-Answers d j files int _ _ (
      loading-Answers d j files (negsuc 0) _ _ (
        Yields->>= (Good d j files) _ _ _ _
          (static_matrix-Yields d j (loaded_static d j files) (loaded_dynamic d j files)
            MatrixStatic.waypoint_dist _
            (of_static-Yields d j files
              (λ json. get_matrix d j json (codes "waypoint_distance_matrix"))))
          (λ m.
            Yields->>= (Good d j files) _ _ _ _ (Yields-lift (Good d j files) (vector_at m i))
              (λ v. Yields-lift (Good d j files) (vector_at v k)))))

  calling-Yields :
      {A : Type 0} (f : State d j → A × State d j) (a : A)
      → Answers d j files f a
      → Yields (Good d j files) (calling f) (ok a)
  calling-Yields f a h s good = let (s', e, settled) = h s (inr good) in (s', rw e refl, settled)

  waypoint_count : Answers d j files (Wrapper.number_of_waypoints d j files) (
      or_else (pos 0) (
        int_value d j
          (loaded_static d j files)
          (loaded_dynamic d j files)
          IntStatic.number_of_waypoints))
  unfolding Wrapper.number_of_waypoints
  waypoint_count = loading-Answers d j files (pos 0) _ _ (
      static_int-Yields d j (loaded_static d j files) (loaded_dynamic d j files)
        IntStatic.number_of_waypoints _
        (Yields->>= (Good d j files) _ _ _ _
          (of_static-Yields d j files (λ json. get_size d j json (codes "stations")))
          (λ a.
            Yields->>= (Good d j files) _ _ _ _
              (of_static-Yields d j files (λ json. get_size d j json (codes "end_stations")))
              (λ b.
                Yields->>= (Good d j files) _ _ _ _
                  (of_static-Yields d j files (λ json. get_size d j json (codes "vias")))
                  (λ c. Yields-lift (Good d j files) (ok (a +ℤ b +ℤ c)))))))

  pub waypoint_visited-reference : (n : ℤ) → Same d j files (Call.waypoint_visited n)
  unfolding call Wrapper.waypoint_visited Wrapper.convert_visited_waypoints
  waypoint_visited-reference n = answered-Answers d j files flags _ _ (
      loading-Answers d j files [] _ _ (
        Yields->>= (Good d j files) _ _ _ _
          (static_flags-Yields d j (loaded_static d j files) (loaded_dynamic d j files)
            FlagsStatic.waypoint_visited _
            (Yields->>= (Good d j files) _ _ _ _
              (of_dynamic-Yields d j files
                (λ json. get_vector d j json (codes "visited_waypoints")))
              (λ visited.
                Yields->>= (Good d j files) _ (ok _) _
                  (λ m. ok (waypoint_flags visited (rounds_of m)))
                  (calling-Yields (Wrapper.number_of_waypoints d j files) _ waypoint_count)
                  (λ m. Yields-lift (Good d j files) (ok (waypoint_flags visited (rounds_of m)))))))
          (λ v. Yields-lift (Good d j files) (ok (copy_from 0 (rounds_of n) v)))))

  get_waypoint_plan-Yields : Yields (Good d j files) (Wrapper.get_waypoint_plan d j files) (
      plans_value d j
        (loaded_static d j files)
        (loaded_dynamic d j files)
        PlansStatic.get_waypoint_plan)
  unfolding Wrapper.get_waypoint_plan
  get_waypoint_plan-Yields =
      static_plans-Yields d j (loaded_static d j files) (loaded_dynamic d j files)
        PlansStatic.get_waypoint_plan _
        (of_dynamic-Yields d j files
          (λ json. get_plans d j json (codes "robot_info_map") (codes "waypoint_plan")))

  pub get_next_action_type-reference : (i k : ℤ) → Same d j files (Call.get_next_action_type i k)
  unfolding call Wrapper.get_next_action_type
  get_next_action_type-reference i k = answered-Answers d j files int _ _ (
      loading-Answers d j files done_code _ _ (
        Yields->>= (Good d j files) _ _ _ _
          (static_plans-Yields d j (loaded_static d j files) (loaded_dynamic d j files)
            PlansStatic.next_action_type _ (get_waypoint_plan-Yields))
          (λ m.
            Yields->>= (Good d j files) _ _ _ _
              (Yields-lift (Good d j files) (vector_at m (i -ℤ pos 2)))
              (λ v. Yields-lift (Good d j files) (at_step convert_to_action_type done_code v k)))))

  pub get_next_action_value-reference : (i k : ℤ) → Same d j files (Call.get_next_action_value i k)
  unfolding call Wrapper.get_next_action_value
  get_next_action_value-reference i k = answered-Answers d j files int _ _ (
      loading-Answers d j files (pos 0) _ _ (
        Yields->>= (Good d j files) _ _ _ _
          (static_plans-Yields d j (loaded_static d j files) (loaded_dynamic d j files)
            PlansStatic.next_action_value _ (get_waypoint_plan-Yields))
          (λ m.
            Yields->>= (Good d j files) _ _ _ _
              (Yields-lift (Good d j files) (vector_at m (i -ℤ pos 2)))
              (λ v. Yields-lift (Good d j files) (at_step (λ action. action.1) (pos 0) v k)))))
