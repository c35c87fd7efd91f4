-- ===== src/Config/Convert.antt =====
-- config/src/config_wrapper.cpp: what its functions compute from the two configurations.
use p7_kode.Base.{
  ℕ, zero, suc, ◌+◌, Bool, false, not, Option, none, some, List, [], ◌∷◌, ◌++◌, map, Result, ok,
  err, invalid_value, out_of_range, if◌then◌else◌, get_elem?,
}
use p7_kode.Base.Fallible.{◌>>=◌}
use p7_kode.Base.Int.{ℤ, pos, negsuc, eqb_ℤ, leb_ℤ, ◌-ℤ◌}
use p7_kode.Base.Text.{codes, bytes_eq}
use p7_kode.Base.Double.{Double}
use p7_kode.Base.Json.{Json}
use p7_kode.Wbt.World.{contains}
use p7_kode.Config.Values.{
  Action, convert_all, get_int, get_double, get_vector, get_rows, get_doubles,
}

-- v.at(i); an int below 0 becomes a size_t above every size.
module _ {A : Type 0} where
  abbrev of_option : Option A → Result A
  of_option none = err out_of_range
  of_option (some a) = ok a

  unfoldable pub vector_at : List A → ℤ → Result A
  vector_at v (pos i) = of_option (get_elem? v i)
  vector_at v (negsuc i) = err out_of_range

  -- v[i]: `none` is undefined behaviour.
  unfoldable pub vector_index : List A → ℤ → Option A
  vector_index v (pos i) = get_elem? v i
  vector_index v (negsuc i) = none

-- std::distance(begin, std::find(begin, end, x)); `none` where find returns end.
unfoldable pub find_index : ℤ → List ℤ → Option ℕ
find_index x [] = none
find_index x (y ∷ ys) =
    if eqb_ℤ y x then some 0 else (elim (find_index x ys) [ none ↦ none | some i ↦ some (suc i) ])

-- std::sort
unfoldable pub insert_sorted : ℤ → List ℤ → List ℤ
insert_sorted x [] = x ∷ []
insert_sorted x (y ∷ ys) =
    let rest = insert_sorted x ys in if leb_ℤ x y then x ∷ y ∷ ys else y ∷ rest

unfoldable pub sort : List ℤ → List ℤ
sort [] = []
sort (x ∷ xs) = insert_sorted x (sort xs)

abbrev pub index_or_throw : ℕ → Option ℕ → Result ℤ
index_or_throw base none = err (invalid_value [])
index_or_throw base (some i) = ok (pos (i + base))

-- The flag of a station: an end station is never visited, another when it is not to be visited.
abbrev pub visited_flag : List ℤ → List ℤ → ℤ → Bool
visited_flag to_visit end_stations station =
    if contains station end_stations then false else not (contains station to_visit)

-- The flags of the waypoints 0, 1, … below n.
unfoldable pub waypoint_flags : List ℤ → ℕ → List Bool
waypoint_flags visited zero = []
waypoint_flags visited (suc n) = waypoint_flags visited n ++ contains (pos n) visited ∷ []

-- for (int i = 0; i < n; i++)
abbrev pub rounds_of : ℤ → ℕ
rounds_of (pos n) = n
rounds_of (negsuc n) = 0

-- DONE, HOLD and WAYPOINT of config_wrapper.hpp
abbrev pub done_code : ℤ
done_code = pos 0

abbrev pub hold_code : ℤ
hold_code = pos 1

abbrev pub waypoint_code : ℤ
waypoint_code = pos 2

unfoldable pub convert_to_action_type : Action → ℤ
convert_to_action_type (name, value) =
    if bytes_eq name (codes "Waypoint")
    then waypoint_code
    else if bytes_eq name (codes "Hold")
    then hold_code
    else done_code

-- `none` is undefined behaviour: conversion[i] at an index that it does not have.
unfoldable pub dist_at : List (List ℤ) → List ℤ → ℤ → ℤ → Result (Option ℤ)
dist_at dist conversion from to = elim (vector_index conversion (from -ℤ pos 1)) [
  | none ↦ ok none
  | some i ↦ elim (vector_at dist i) [
    | err e ↦ err e
    | ok row ↦ elim (vector_index conversion (to -ℤ pos 1)) [
      | none ↦ ok none
      | some k ↦ elim (vector_at row k) [ err e ↦ err e | ok v ↦ ok (some v) ]
    ]
  ]
]

module _ (d : Double) (j : Json d) (static_config dynamic_config : j.Value) where
  unfoldable pub combined_stations : Result (List ℤ)
  combined_stations = do
    end_stations ← get_vector d j static_config (codes "end_stations")
    stations ← get_vector d j static_config (codes "stations")
    ok (end_stations ++ stations)

  unfoldable pub next_station_index : Result ℤ
  next_station_index = do
    station ← get_int d j dynamic_config (codes "next_station")
    stations ← combined_stations
    index_or_throw 1 (find_index station stations)

  unfoldable pub convert_visited_stations : Result (List Bool)
  convert_visited_stations = do
    to_visit ← get_vector d j dynamic_config (codes "stations_to_visit")
    stations ← combined_stations
    end_stations ← get_vector d j static_config (codes "end_stations")
    ok (map (visited_flag to_visit end_stations) stations)

  unfoldable pub station_id_to_dist_index_conversion : Result (List ℤ)
  station_id_to_dist_index_conversion = do
    stations ← combined_stations
    convert_all (λ station. index_or_throw 0 (find_index station (sort stations))) stations

  unfoldable pub convert_robot_next_station : Result (List (List ℤ))
  convert_robot_next_station = do
    station_plans ← get_rows d j dynamic_config (codes "robot_info_map") (codes "station_plan")
    stations ← combined_stations
    convert_all (convert_all (λ station. index_or_throw 1 (find_index station stations)))
        station_plans

  unfoldable pub convert_eta : Result (List d.Carrier)
  convert_eta = do
    etas ← get_doubles d j dynamic_config (codes "robot_info_map") (codes "station_eta")
    own ← get_double d j dynamic_config (codes "station_eta")
    ok (own ∷ etas)
