-- ===== src/Config/Examples.antt =====
-- config/: two end stations and two stations.
use p7_kode.Base.{ℕ, suc, ◌≤◌, ◌<◌, ◌≡◌, refl, inl, inr, List, [], ◌∷◌, map, some, ok, false}
use p7_kode.Base.Int.{ℤ, pos}
use p7_kode.Base.Text.{Bytes, codes, bytes_eq}
use p7_kode.Base.Samples.{whole, trees, Tree, Trees, Members}
use p7_kode.Config.Values.{
  File, extracted, load_from_file, get_int, get_vector, get_matrix, member, vector_from_json,
  matrix_from_json, convert_all,
}
use p7_kode.Base.{if◌then◌else◌}
use p7_kode.Config.Store.{start}
use p7_kode.Config.Convert.{combined_stations}
use p7_kode.Config.Calls.{Call, int, distance, run}
use p7_kode.Config.Calls.Reference.{reference}
use p7_kode.Config.Calls.Ready.{loaded_static, loaded_dynamic}
use p7_kode.Config.Calls.Answers.{run-reference}
use p7_kode.Config.Stations.{next_station-destination}
use p7_kode.Config.Stations.Rank.{get_station_dist-smaller}
use p7_kode.Config.Stations.Bounds.{next_robot_station-bounded}

abbrev ints : List ℤ → Trees
ints [] = Trees.nil
ints (z ∷ zs) = Trees.cons (Tree.int z) (ints zs)

abbrev row : List ℤ → Trees → Trees
row zs = Trees.cons (Tree.array (ints zs))

abbrev static_tree : Tree
static_tree = Tree.object (
    Members.member (codes "stations") (Tree.array (ints (pos 7 ∷ pos 2 ∷ []))) (
      Members.member (codes "end_stations") (Tree.array (ints (pos 4 ∷ []))) (
        Members.member (codes "station_distance_matrix")
          (Tree.array (row (pos 0 ∷ pos 8 ∷ []) (row (pos 9 ∷ pos 0 ∷ []) Trees.nil)))
          Members.empty)))

abbrev dynamic_tree : Tree
dynamic_tree = Tree.object (Members.member (codes "next_station") (Tree.int (pos 2)) Members.empty)

abbrev files : Bytes → File whole trees
files path =
    if bytes_eq path (codes "static_config.json")
    then extracted static_tree (ok false)
    else extracted dynamic_tree (ok false)

stations_loaded :
    combined_stations whole trees
      (loaded_static whole trees files)
      (loaded_dynamic whole trees files)
    ≡ ok (pos 4 ∷ pos 7 ∷ pos 2 ∷ [])
unfolding combined_stations get_vector member vector_from_json convert_all load_from_file
stations_loaded = refl

next_station_loaded :
    get_int whole trees (loaded_dynamic whole trees files) (codes "next_station") ≡ ok (pos 2)
unfolding get_int member load_from_file
next_station_loaded = refl

matrix_loaded :
    get_matrix whole trees (loaded_static whole trees files) (codes "station_distance_matrix")
    ≡ ok ((pos 0 ∷ pos 8 ∷ []) ∷ (pos 9 ∷ pos 0 ∷ []) ∷ [])
unfolding get_matrix member matrix_from_json vector_from_json convert_all load_from_file
matrix_loaded = refl

run-reference_example :
    run whole trees files
      (Call.destination ∷ Call.next_waypoint ∷ Call.destination ∷ [])
      (start whole trees)
    ≡ map
        (reference whole trees (loaded_static whole trees files) (loaded_dynamic whole trees files))
        (Call.destination ∷ Call.next_waypoint ∷ Call.destination ∷ [])
run-reference_example =
    run-reference whole trees files (Call.destination ∷ Call.next_waypoint ∷ Call.destination ∷ [])

next_station-destination_example :
    (i : ℕ) × (i < 3)
    × (run whole trees files
          (Call.next_station ∷ Call.convert_to_waypoint_id (pos (suc i)) ∷ Call.destination ∷ [])
          (start whole trees)
        ≡ int (pos (suc i)) ∷ int (pos 2) ∷ int (pos 2) ∷ [])
next_station-destination_example =
    next_station-destination whole trees files (pos 4 ∷ pos 7 ∷ pos 2 ∷ []) (pos 2) stations_loaded
      next_station_loaded (inr (inr (inl refl)))

-- The stations 7 and 2 are far apart, but the row of 7 is behind the matrix.
get_station_dist-smaller_example :
    run whole trees files (Call.get_station_dist (pos 2) (pos 3) ∷ []) (start whole trees)
    ≡ distance (some (pos 2147483647)) ∷ []
get_station_dist-smaller_example =
    get_station_dist-smaller whole trees files (pos 4 ∷ pos 7 ∷ pos 2 ∷ [])
      ((pos 0 ∷ pos 8 ∷ []) ∷ (pos 9 ∷ pos 0 ∷ []) ∷ []) 1 2 (pos 7) (pos 2) stations_loaded
      matrix_loaded refl refl

next_robot_station-bounded_example :
    (m : ℕ) × (m ≤ 3)
    × (run whole trees files (Call.next_robot_station (pos 2) (pos 0) ∷ []) (start whole trees)
        ≡ int (pos m) ∷ [])
next_robot_station-bounded_example =
    next_robot_station-bounded whole trees files (pos 4 ∷ pos 7 ∷ pos 2 ∷ []) (pos 2) (pos 0)
      stations_loaded
