-- ===== src/Robot/Orchestrator.antt =====
-- robot/src/orchestrator.cpp: `Orchestrator`, from the world file to the static configuration. The state
-- of the code below is `static_config`, which is its field `json` (config/include/config/config.hpp).
pub mod Members
pub mod Rows
pub mod Matrices
pub mod Ids
pub mod Dump
pub mod Filled
pub mod Read
pub mod Broadcast
use p7_kode.Base.{
  ℕ, ◌+◌, ◌%◌, ◌^◌, Bool, true, false, Option, none, some, List, [], ◌∷◌, ◌++◌, Result, ok, err,
  malformed_world_file, length, if◌then◌else◌,
}
use p7_kode.Base.Fallible.{◌>>=◌}
use p7_kode.Base.Exec
use p7_kode.Base.Exec.{Exec, lift, throw, ◌>>◌}
use p7_kode.Base.Int.{ℤ, pos, negsuc, int_of_unsigned}
use p7_kode.Base.Text.{Bytes, codes}
use p7_kode.Base.Double.{Double}
use p7_kode.Base.Json.{Json}
use p7_kode.Wbt.World.{Waypoint, WaypointType, via, station, end_point, Ast}
use p7_kode.Wbt.Parser.{Input, World, parse_stream}
use p7_kode.Wbt.Apsp.{Matrix, at_key, at2, for_up, all_pairs_shortest_path}
use p7_kode.Wbt.DistanceMatrix.{distance_matrix}
use p7_kode.Config.Convert.{vector_at}
use p7_kode.Robot.Info.{append_all}

-- The int that a size_t becomes.
abbrev pub int_of_key : ℤ → ℤ
int_of_key (pos key) = int_of_unsigned (key % 2 ^ 32)
int_of_key (negsuc n) = negsuc n

-- to_string(WaypointType)
unfoldable pub type_text : WaypointType → Bytes
type_text via = codes "via"
type_text station = codes "station"
type_text end_point = codes "endpoint"

abbrev pub is_station : WaypointType → Bool
is_station station = true
is_station _ = false

-- The ids of the waypoints by their types, in the order of the map.
pub record Sorted : Type 0 where
  pub stations : List ℤ
  pub end_stations : List ℤ
  pub vias : List ℤ

abbrev pub push_id : ℤ → WaypointType → Sorted → Sorted
push_id id station s = record s { stations = s.stations ++ id ∷ [] }
push_id id end_point s = record s { end_stations = s.end_stations ++ id ∷ [] }
push_id id via s = record s { vias = s.vias ++ id ∷ [] }

abbrev pub waypoint_count : Sorted → ℕ
waypoint_count s = length s.stations + length s.end_stations + length s.vias

module _ (d : Double) where
  unfoldable pub sort_loop : Ast d → Sorted → Sorted
  sort_loop [] s = s
  sort_loop ((id, waypoint) ∷ nodes) s =
      sort_loop nodes (push_id (int_of_key id) waypoint.waypoint_type s)

  unfoldable pub sorted : Ast d → Sorted
  sorted nodes = sort_loop nodes (record { stations = []; end_stations = []; vias = [] })

module _ (d : Double) (j : Json d) where
  open d use {Carrier}
  open j use {Value, null, empty_array, empty_object, of_int, of_double, of_string, set, append}

  abbrev pub stored : Value → Result Value → Result (Unit {0}) × Value
  stored json (ok json') = (ok tt, json')
  stored json (err e) = (err e, json)

  -- Config::set with what a Json::Value can be assigned.
  unfoldable pub config_set : Bytes → Value → Exec Value (Unit {0})
  config_set key value json = stored json (set key value json)

  unfoldable pub append_ints : List ℤ → Value → Result Value
  append_ints [] arr = ok arr
  append_ints (z ∷ zs) arr = do arr' ← append arr (of_int z); append_ints zs arr'

  -- Config::set with a container.
  unfoldable pub config_set_vector : Bytes → List ℤ → Exec Value (Unit {0})
  config_set_vector key value = Exec.◌>>=◌ (lift (append_ints value empty_array)) (config_set key)

  -- matrix.at(i).at(j)
  abbrev pub entry_at : List (List Carrier) → ℕ → ℕ → Result Carrier
  entry_at matrix i j = do distances ← vector_at matrix (pos i); vector_at distances (pos j)

  abbrev pub append_at : List (List Carrier) → ℕ → ℕ → Value → Result Value
  append_at matrix i j row = do distance ← entry_at matrix i j; append row (of_double distance)

  abbrev pub append_row : ℕ → (ℕ → Value → Result Value) → Value → Result Value
  append_row n body arr = do row ← for_up n body empty_array; append arr row

  unfoldable pub waypoint_rows : List (List Carrier) → ℕ → Result Value
  waypoint_rows matrix n = for_up n (λ i. append_row n (append_at matrix i)) empty_array

  unfoldable pub add_waypoint_matrix : Ast d → ℕ → Exec Value (Unit {0})
  add_waypoint_matrix nodes n =
      Exec.◌>>=◌ (lift (do matrix ← distance_matrix d nodes; waypoint_rows matrix n))
        (config_set (codes "waypoint_distance_matrix"))

  -- if (ast.nodes.at(i).waypointType == WaypointType::eStation) body
  abbrev pub if_station : Ast d → ℕ → (Value → Result Value) → Value → Result Value
  if_station nodes i body arr = do
    waypoint ← at_key nodes (pos i)
    if is_station waypoint.waypoint_type then body arr else ok arr

  abbrev pub append_distance : Matrix Carrier → ℕ → ℕ → Value → Result Value
  append_distance dist i j row = do
    distance ← at2 dist (pos i) (pos j)
    append row (of_double distance)

  unfoldable pub station_rows : Ast d → Matrix Carrier → ℕ → Result Value
  station_rows nodes dist n =
      for_up n
        (λ i.
          if_station nodes i (append_row n (λ k. if_station nodes k (append_distance dist i k))))
        empty_array

  unfoldable pub add_station_matrix : Ast d → ℕ → Exec Value (Unit {0})
  add_station_matrix nodes n =
      Exec.◌>>=◌ (lift (do r ← all_pairs_shortest_path d nodes; station_rows nodes r.dist n))
        (config_set (codes "station_distance_matrix"))

  -- What `last` refers to behind its assignments; it is part of `waypoint_list` from the start.
  unfoldable pub waypoint_object : ℤ → Waypoint d → Result Value
  waypoint_object id waypoint = do
    last1 ← set (codes "id") (of_int (int_of_key id)) empty_object
    last2 ← set (codes "x") (of_double waypoint.translation.x) last1
    last3 ← set (codes "y") (of_double waypoint.translation.z) last2
    last4 ← set (codes "type") (of_string (type_text waypoint.waypoint_type)) last3
    last5 ← set (codes "adjList") empty_array last4
    append_all d j (codes "adjList") (λ adj. ok (of_int adj)) waypoint.adjlist last5

  unfoldable pub append_waypoints : Ast d → Value → Result Value
  append_waypoints [] waypoint_list = ok waypoint_list
  append_waypoints ((id, waypoint) ∷ nodes) waypoint_list = do
    last ← waypoint_object id waypoint
    waypoint_list' ← append waypoint_list last
    append_waypoints nodes waypoint_list'

  unfoldable pub dump_waypoint_info : Ast d → Exec Value (Unit {0})
  dump_waypoint_info nodes =
      Exec.◌>>=◌ (lift (append_waypoints nodes empty_array)) (config_set (codes "waypoints"))

  abbrev pub set_count : Bytes → ℕ → Exec Value (Unit {0})
  set_count key count = config_set key (of_int (pos count))

  -- The calls of `set` for the ids and their numbers.
  unfoldable pub set_ids : Sorted → ℕ → Exec Value (Unit {0})
  set_ids s number_of_robots =
      let station_count = length s.stations in
      let endpoint_count = length s.end_stations in
      let via_count = length s.vias in
      config_set_vector (codes "stations") s.stations
      >> config_set_vector (codes "end_stations") s.end_stations
      >> config_set_vector (codes "vias") s.vias
      >> set_count (codes "number_of_stations") station_count
      >> set_count (codes "number_of_end_stations") endpoint_count
      >> set_count (codes "number_of_vias") via_count
      >> set_count (codes "number_of_waypoints") (station_count + endpoint_count + via_count)
      >> set_count (codes "number_of_robots") number_of_robots

  -- load_webots_to_config, behind the call of the parser.
  unfoldable pub world_to_config : Ast d → ℕ → Exec Value (Unit {0})
  world_to_config [] number_of_robots = throw malformed_world_file
  world_to_config (n ∷ ns) number_of_robots =
      let nodes = n ∷ ns in
      let s = sorted d nodes in
      set_ids s number_of_robots
      >> add_waypoint_matrix nodes (waypoint_count s)
      >> add_station_matrix nodes (waypoint_count s)
      >> dump_waypoint_info nodes

  -- How a call of load_webots_to_config ends: exit(1) where the file cannot be opened.
  pub data Ending : Type 0 where
    exits : Ending
    finished : Result (Unit {0}) → Ending

  module _ (stod : Bytes → Result Carrier) where
    abbrev after_parse : Result (World d stod) → Exec Value (Unit {0})
    after_parse (ok w) = world_to_config w.nodes w.number_of_robots
    after_parse (err e) = throw e

    abbrev finish : Result (Unit {0}) × Value → Ending × Value
    finish (r, json) = (finished r, json)

    -- `file` is the opened file, if there is one.
    unfoldable pub load_webots_to_config : Option Input → Value → Ending × Value
    load_webots_to_config none json = (exits, json)
    load_webots_to_config (some infile) json =
        finish (after_parse (parse_stream d stod [] infile).0 json)
