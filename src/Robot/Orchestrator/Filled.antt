-- ===== src/Robot/Orchestrator/Filled.antt =====
-- robot/src/orchestrator.cpp: the configuration that a world of numbered waypoints gives.
use p7_kode.Base.{Option, ℕ, ◌<◌, ◌≡◌, refl, sym, subst, false, [], ◌∷◌, ok, length, arith}
use p7_kode.Base.Fallible.{◌>>=◌, Returns, Returns-map}
use p7_kode.Base.Exec.{◌>>◌}
use p7_kode.Base.Int.{pos}
use p7_kode.Base.Text.{Bytes, codes}
use p7_kode.Base.Double.{Double}
use p7_kode.Base.Json.{Json}
use p7_kode.Base.JsonLaws.{JsonLaws}
use p7_kode.Wbt.World.{Ast}
use p7_kode.Wbt.Apsp.{ApspResult, at2, all_pairs_shortest_path}
use p7_kode.Wbt.Apsp.Graph.{IsNumbered}
use p7_kode.Wbt.Apsp.Cells.{rounds_tables}
use p7_kode.Wbt.Apsp.Initial.{start, all_pairs_shortest_path-Represents}
use p7_kode.Wbt.DistanceMatrix.{distance_matrix}
use p7_kode.Wbt.DistanceMatrix.Entries.{direct_distance, IsDirect, direct_distance-IsDirect}
use p7_kode.Robot.Orchestrator.{
  Sorted, config_set, sorted, waypoint_count, set_ids, add_waypoint_matrix, add_station_matrix,
  dump_waypoint_info, world_to_config, waypoint_rows, station_rows,
}
use p7_kode.Robot.Orchestrator.Ids.{by_type, sorted-by_type, sorted-count}
use p7_kode.Robot.Orchestrator.Members.{
  Leaves, Wanted, Members, IsInts, is_key, Writes, Writes->>, config_set-Writes, lift-Writes,
  config_set_vector-Writes,
}
use p7_kode.Robot.Orchestrator.Matrices.{
  all_below, IsMatrix, waypoint_rows-IsMatrix, station_numbers, station_rows-IsMatrix,
}
use p7_kode.Robot.Orchestrator.Dump.{WaypointsBehind, append_waypoints-WaypointsBehind}

module _ (d : Double) (j : Json d) (laws : JsonLaws j) where
  open j use {Value, of_int, of_double, empty_array}

  abbrev pub IsCount : ℕ → Value → Type 0
  IsCount n v = v ≡ of_int (pos n)

  -- What set_ids writes, the last first.
  abbrev pub ids_wanted : Sorted → ℕ → ℕ → Wanted d j laws
  ids_wanted s waypoints robots =
      (codes "number_of_robots", IsCount robots)
      ∷ (codes "number_of_waypoints", IsCount waypoints)
      ∷ (codes "number_of_vias", IsCount (length s.vias))
      ∷ (codes "number_of_end_stations", IsCount (length s.end_stations))
      ∷ (codes "number_of_stations", IsCount (length s.stations))
      ∷ (codes "vias", IsInts d j laws s.vias)
      ∷ (codes "end_stations", IsInts d j laws s.end_stations)
      ∷ (codes "stations", IsInts d j laws s.stations)
      ∷ []

  set_ids-Writes :
      (s : Sorted) (robots : ℕ)
      → Writes d j laws [] (ids_wanted s (waypoint_count s) robots) (set_ids d j s robots)
  unfolding set_ids
  set_ids-Writes s robots =
      let vector = config_set_vector-Writes d j laws in
      let count : (k : Bytes) (n : ℕ) (wanted : Wanted d j laws)
          → is_key d j laws k wanted ≡ false
          → Writes d j laws wanted ((k, IsCount n) ∷ wanted) (config_set d j k (of_int (pos n))) =
        λ k n wanted e. config_set-Writes d j laws k (IsCount n) (of_int (pos n)) wanted e refl in
      let h1 = vector (codes "stations") s.stations [] refl in
      let h2 = Writes->> d j laws h1 (vector (codes "end_stations") s.end_stations _ refl) in
      let h3 = Writes->> d j laws h2 (vector (codes "vias") s.vias _ refl) in
      let h4 =
        Writes->> d j laws h3 (count (codes "number_of_stations") (length s.stations) _ refl) in
      let h5 =
        Writes->> d j laws h4
          (count (codes "number_of_end_stations") (length s.end_stations) _ refl) in
      let h6 = Writes->> d j laws h5 (count (codes "number_of_vias") (length s.vias) _ refl) in
      let h7 =
        Writes->> d j laws h6 (count (codes "number_of_waypoints") (waypoint_count s) _ refl) in
      Writes->> d j laws h7 (count (codes "number_of_robots") robots _ refl)

  module _ (nodes : Ast d) (h : IsNumbered d nodes) where
    -- The distances are those of the result of all_pairs_shortest_path.
    abbrev pub IsDistances : (ℕ → ℕ → d.Carrier) → Type 0
    IsDistances f =
        (r : ApspResult d) × (all_pairs_shortest_path d nodes ≡ ok r)
        × ((i k : ℕ)
            → i < length nodes
            → k < length nodes
            → at2 r.dist (pos i) (pos k) ≡ ok (f i k))

    -- A row for each station with the distances to each station, in the order of their ids.
    abbrev pub IsStationMatrix : Value → Type 0
    IsStationMatrix v =
        (f : ℕ → ℕ → d.Carrier) × IsDistances f
        × IsMatrix d j laws nodes h f (station_numbers d j laws nodes h) v

    -- A row for each waypoint with the distances along the lines, in the order of the ids.
    abbrev pub IsWaypointMatrix : Value → Type 0
    IsWaypointMatrix v =
        (f : ℕ → ℕ → d.Carrier) × ((i k : ℕ) → IsDirect d nodes h i k (f i k))
        × IsMatrix d j laws nodes h f (all_below (length nodes)) v

    -- What is in the configuration in the end, the last first.
    abbrev pub wanted : ℕ → Wanted d j laws
    wanted robots =
        (codes "waypoints", WaypointsBehind d j laws [] nodes)
        ∷ (codes "station_distance_matrix", IsStationMatrix)
        ∷ (codes "waypoint_distance_matrix", IsWaypointMatrix)
        ∷ ids_wanted (by_type d nodes) (length nodes) robots

    add_waypoint_matrix-Writes :
        (robots : ℕ)
        → Writes d j laws
            (ids_wanted (by_type d nodes) (length nodes) robots)
            ((codes "waypoint_distance_matrix", IsWaypointMatrix)
              ∷ ids_wanted (by_type d nodes) (length nodes) robots)
            (add_waypoint_matrix d j nodes (length nodes))
    unfolding add_waypoint_matrix
    add_waypoint_matrix-Writes robots =
        lift-Writes d j laws (codes "waypoint_distance_matrix") IsWaypointMatrix _ _ refl (
          Returns-map
            (IsMatrix d j laws nodes h (direct_distance d nodes h) (all_below (length nodes)))
            IsWaypointMatrix
            (do matrix ← distance_matrix d nodes; waypoint_rows d j matrix (length nodes))
            (λ v m. (direct_distance d nodes h, direct_distance-IsDirect d nodes h, m))
            (waypoint_rows-IsMatrix d j laws nodes h))

    station_matrix :
        Returns IsStationMatrix
          (do r ← all_pairs_shortest_path d nodes; station_rows d j nodes r.dist (length nodes))
    station_matrix =
        let (r, e, shows) = all_pairs_shortest_path-Represents d nodes h in
        let f = (rounds_tables d (length nodes) (start d nodes h)).dist in
        rw e (
          Returns-map (IsMatrix d j laws nodes h f (station_numbers d j laws nodes h))
            IsStationMatrix (station_rows d j nodes r.dist (length nodes))
            (λ v m. (f, (r, e, shows.dist_shown), m))
            (station_rows-IsMatrix d j laws nodes h r f shows.dist_shown))

    add_station_matrix-Writes :
        (wanted : Wanted d j laws)
        → is_key d j laws (codes "station_distance_matrix") wanted ≡ false
        → Writes d j laws wanted
            ((codes "station_distance_matrix", IsStationMatrix) ∷ wanted)
            (add_station_matrix d j nodes (length nodes))
    unfolding add_station_matrix
    add_station_matrix-Writes wanted e =
        lift-Writes d j laws (codes "station_distance_matrix") IsStationMatrix _ wanted e
          station_matrix

    dump_waypoint_info-Writes :
        (wanted : Wanted d j laws)
        → is_key d j laws (codes "waypoints") wanted ≡ false
        → Writes d j laws wanted
            ((codes "waypoints", WaypointsBehind d j laws [] nodes) ∷ wanted)
            (dump_waypoint_info d j nodes)
    unfolding dump_waypoint_info
    dump_waypoint_info-Writes wanted e =
        lift-Writes d j laws (codes "waypoints") (WaypointsBehind d j laws [] nodes) _ wanted e
          (append_waypoints-WaypointsBehind d j laws nodes [] empty_array laws.empty_array-IsArray)

    sorted-Writes :
        (robots : ℕ)
        → Writes d j laws []
            (ids_wanted (by_type d nodes) (length nodes) robots)
            (set_ids d j (sorted d nodes) robots)
    sorted-Writes robots =
        subst
          (λ n.
            Writes d j laws [] (ids_wanted (by_type d nodes) n robots)
              (set_ids d j (sorted d nodes) robots))
          (sorted-count d nodes)
          (subst
            (λ s.
              Writes d j laws [] (ids_wanted s (waypoint_count (sorted d nodes)) robots)
                (set_ids d j (sorted d nodes) robots))
            (sorted-by_type d nodes) (set_ids-Writes (sorted d nodes) robots))

    all_steps-Writes :
        (robots : ℕ)
        → Writes d j laws [] (wanted robots) (
            set_ids d j (sorted d nodes) robots
            >> add_waypoint_matrix d j nodes (length nodes)
            >> add_station_matrix d j nodes (length nodes)
            >> dump_waypoint_info d j nodes)
    all_steps-Writes robots =
        let h1 = Writes->> d j laws (sorted-Writes robots) (add_waypoint_matrix-Writes robots) in
        let h2 = Writes->> d j laws h1 (add_station_matrix-Writes _ refl) in
        Writes->> d j laws h2 (dump_waypoint_info-Writes _ refl)

  -- From an object, such as the value of a new Config, a world of numbered waypoints gives a
  -- configuration without an exception. It has the ids of the stations, of the end stations and of the
  -- vias, each in the order of the ids, their numbers and that of the robots, a matrix with the lengths
  -- of the lines between the waypoints and -1 where there is none, a matrix with a row and a column for each station and the
  -- distances of all_pairs_shortest_path in it, and an object for each waypoint.
  pub world_to_config-Members :
      (nodes : Ast d) (h : IsNumbered d nodes)
      → 0 < length nodes
      → (robots : ℕ) (json : Value) (f : Bytes → Option Value) → laws.IsObject json f
      → Leaves (Members d j laws (wanted nodes h robots)) (world_to_config d j nodes robots json)
  unfolding world_to_config
  world_to_config-Members [] h n robots json f o = absurd (omega arith)
  world_to_config-Members (node ∷ ns) h n robots json f o =
      let nodes = node ∷ ns in
      subst
        (λ m. Leaves (Members d j laws (wanted nodes h robots)) (
          (set_ids d j (sorted d nodes) robots
              >> add_waypoint_matrix d j nodes m
              >> add_station_matrix d j nodes m
              >> dump_waypoint_info d j nodes)
            json))
        (sym (sorted-count d nodes))
        ((all_steps-Writes nodes h robots).run json
          (record { members = f; w-IsObject = o; all = tt }))
