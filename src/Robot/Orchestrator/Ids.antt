-- ===== src/Robot/Orchestrator/Ids.antt =====
-- robot/src/orchestrator.cpp: the ids of the waypoints, sorted by type.
use p7_kode.Base.{
  suc, ◌+◌, ◌≡◌, refl, sym, ap, ◌∙◌, Bool, true, false, List, [], ◌∷◌, ◌++◌, append_assoc,
  append-nil, length, length-append, if◌then◌else◌, arith,
}
use p7_kode.Base.Int.{ℤ}
use p7_kode.Base.Double.{Double}
use p7_kode.Wbt.World.{WaypointType, via, station, end_point, Ast}
use p7_kode.Robot.Orchestrator.{
  Sorted, int_of_key, is_station, push_id, sort_loop, sorted, waypoint_count,
}

abbrev pub is_end_point : WaypointType → Bool
is_end_point end_point = true
is_end_point _ = false

abbrev pub is_via : WaypointType → Bool
is_via via = true
is_via _ = false

module _ (d : Double) where
  -- The ids of the waypoints whose type passes the test, in the order of the map.
  abbrev pub ids_of : (WaypointType → Bool) → Ast d → List ℤ
  ids_of test [] = []
  ids_of test ((id, waypoint) ∷ nodes) =
      if test waypoint.waypoint_type then int_of_key id ∷ ids_of test nodes else ids_of test nodes

  Adds : (Sorted → List ℤ) → (WaypointType → Bool) → Type 0
  Adds field test =
      (id : ℤ) (type : WaypointType) (s : Sorted)
      → field (push_id id type s) ≡ field s ++ (if test type then id ∷ [] else [])

  add_one :
      (zs ids : List ℤ) (id : ℤ) (b : Bool)
      → (zs ++ (if b then id ∷ [] else [])) ++ ids ≡ zs ++ (if b then id ∷ ids else ids)
  add_one zs ids id true = append_assoc zs (id ∷ []) ids
  add_one zs ids id false = ap (λ v. v ++ ids) (append-nil zs)

  sort_loop-Adds :
      (field : Sorted → List ℤ) (test : WaypointType → Bool)
      → Adds field test
      → (nodes : Ast d) (s : Sorted) → field (sort_loop d nodes s) ≡ field s ++ ids_of test nodes
  unfolding sort_loop Adds
  sort_loop-Adds field test h [] s = sym (append-nil (field s))
  sort_loop-Adds field test h ((id, waypoint) ∷ nodes) s =
      sort_loop-Adds field test h nodes (push_id (int_of_key id) waypoint.waypoint_type s)
      ∙ rw (h (int_of_key id) waypoint.waypoint_type s)
          (add_one (field s) (ids_of test nodes) (int_of_key id) (test waypoint.waypoint_type))

  sort_loop-count :
      (nodes : Ast d) (s : Sorted)
      → waypoint_count (sort_loop d nodes s) ≡ waypoint_count s + length nodes
  unfolding sort_loop
  sort_loop-count [] s = omega arith
  sort_loop-count ((id, waypoint) ∷ nodes) s =
      sort_loop-count nodes (push_id (int_of_key id) waypoint.waypoint_type s)
      ∙ (let e = one (int_of_key id) waypoint.waypoint_type s in omega arith)
    where
      one :
          (id : ℤ) (type : WaypointType) (s : Sorted)
          → waypoint_count (push_id id type s) ≡ suc (waypoint_count s)
      one id station s = let e = length-append s.stations (id ∷ []) in omega arith
      one id end_point s = let e = length-append s.end_stations (id ∷ []) in omega arith
      one id via s = let e = length-append s.vias (id ∷ []) in omega arith

  pub sorted-stations : (nodes : Ast d) → (sorted d nodes).stations ≡ ids_of is_station nodes
  unfolding sorted Adds
  sorted-stations nodes = sort_loop-Adds (λ s. s.stations) is_station adds nodes _
    where
      adds :
          (id : ℤ) (type : WaypointType) (s : Sorted)
          → (push_id id type s).stations ≡ s.stations ++ (if is_station type then id ∷ [] else [])
      adds id station s = refl
      adds id end_point s = sym (append-nil s.stations)
      adds id via s = sym (append-nil s.stations)

  pub sorted-end_stations :
      (nodes : Ast d) → (sorted d nodes).end_stations ≡ ids_of is_end_point nodes
  unfolding sorted Adds
  sorted-end_stations nodes = sort_loop-Adds (λ s. s.end_stations) is_end_point adds nodes _
    where
      adds :
          (id : ℤ) (type : WaypointType) (s : Sorted)
          → (push_id id type s).end_stations
            ≡ s.end_stations ++ (if is_end_point type then id ∷ [] else [])
      adds id station s = sym (append-nil s.end_stations)
      adds id end_point s = refl
      adds id via s = sym (append-nil s.end_stations)

  pub sorted-vias : (nodes : Ast d) → (sorted d nodes).vias ≡ ids_of is_via nodes
  unfolding sorted Adds
  sorted-vias nodes = sort_loop-Adds (λ s. s.vias) is_via adds nodes _
    where
      adds :
          (id : ℤ) (type : WaypointType) (s : Sorted)
          → (push_id id type s).vias ≡ s.vias ++ (if is_via type then id ∷ [] else [])
      adds id station s = sym (append-nil s.vias)
      adds id end_point s = sym (append-nil s.vias)
      adds id via s = refl

  pub sorted-count : (nodes : Ast d) → waypoint_count (sorted d nodes) ≡ length nodes
  unfolding sorted
  sorted-count nodes = sort_loop-count nodes _ ∙ omega arith

  -- The ids of the stations, the end stations and the vias, each in the order of the map.
  abbrev pub by_type : Ast d → Sorted
  by_type nodes = record {
    stations = ids_of is_station nodes;
    end_stations = ids_of is_end_point nodes;
    vias = ids_of is_via nodes;
  }

  pub sorted-by_type : (nodes : Ast d) → sorted d nodes ≡ by_type nodes
  sorted-by_type nodes =
      let s = sorted d nodes in
      ap (λ z. record s { stations = z }) (sorted-stations nodes)
      ∙ ap (λ z. record s { stations = ids_of is_station nodes; end_stations = z })
          (sorted-end_stations nodes)
      ∙ ap
          (λ z. record {
            stations = ids_of is_station nodes;
            end_stations = ids_of is_end_point nodes;
            vias = z;
          })
          (sorted-vias nodes)
