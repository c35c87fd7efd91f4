-- ===== src/Robot/Orchestrator/Dump.antt =====
-- robot/src/orchestrator.cpp: what `dump_waypoint_info` writes.
use p7_kode.Base.{
  ◌≡◌, refl, sym, subst, none, some, Option, List, [], ◌∷◌, ◌++◌, ok, Each, append_assoc,
  append-nil,
}
use p7_kode.Base.Fallible.{Returns, Returns->>=, Returns-map}
use p7_kode.Base.Int.{ℤ}
use p7_kode.Base.Text.{Bytes, codes}
use p7_kode.Base.Double.{Double}
use p7_kode.Base.Json.{Json}
use p7_kode.Base.JsonLaws.{JsonLaws, updated}
use p7_kode.Base.JsonObjects.{set->>=, append->>=}
use p7_kode.Wbt.World.{Waypoint, Ast}
use p7_kode.Robot.Info.{append_all}
use p7_kode.Robot.Info.Written.{Appended, append_all-Appended}
use p7_kode.Robot.Orchestrator.{int_of_key, type_text, waypoint_object, append_waypoints}

module _ (d : Double) (j : Json d) (laws : JsonLaws j) where
  open j use {Value, of_int, of_double, of_string, empty_array, empty_object, append, set}
  open laws use {IsObject, IsArray, empty_object-IsObject, empty_array-IsArray, append-IsArray}

  -- An object with the id, the place, the type and the neighbours of the waypoint.
  pub record WrittenWaypoint (node : ℤ × Waypoint d) (w : Value) : Type 0 where
    pub members : Bytes → Option Value
    pub w-IsObject : IsObject w members
    pub id : members (codes "id") ≡ some (of_int (int_of_key node.0))
    pub x : members (codes "x") ≡ some (of_double node.1.translation.x)
    pub y : members (codes "y") ≡ some (of_double node.1.translation.z)
    pub type : members (codes "type") ≡ some (of_string (type_text node.1.waypoint_type))
    pub adj_list : Value
    pub adj_list_member : members (codes "adjList") ≡ some adj_list
    pub adjacent : List Value
    pub adj_list-IsArray : IsArray adj_list adjacent
    pub adjacent-Each : Each (λ adj v. v ≡ of_int adj) node.1.adjlist adjacent

  waypoint_object-WrittenWaypoint :
      (id : ℤ) (waypoint : Waypoint d)
      → Returns (WrittenWaypoint (id, waypoint)) (waypoint_object d j id waypoint)
  unfolding waypoint_object
  waypoint_object-WrittenWaypoint id waypoint =
      let Q : Value → Type 0 = WrittenWaypoint (id, waypoint) in
      let x = of_double waypoint.translation.x in
      let y = of_double waypoint.translation.z in
      let t = of_string (type_text waypoint.waypoint_type) in
      let f0 : Bytes → Option Value = λ k. none in
      let f1 = updated (codes "id") (of_int (int_of_key id)) f0 in
      let f2 = updated (codes "x") x f1 in
      let f3 = updated (codes "y") y f2 in
      let f4 = updated (codes "type") t f3 in
      let f5 = updated (codes "adjList") empty_array f4 in
      set->>= laws Q (codes "id") _ empty_object f0 _ empty_object-IsObject (λ w1 h1.
        set->>= laws Q (codes "x") x w1 f1 _ h1 (λ w2 h2.
          set->>= laws Q (codes "y") y w2 f2 _ h2 (λ w3 h3.
            set->>= laws Q (codes "type") t w3 f3 _ h3 (λ w4 h4.
              set->>= laws Q (codes "adjList") empty_array w4 f4 _ h4 (λ w5 h5.
                Returns-map
                  (Appended d j laws (λ adj v. v ≡ of_int adj) (codes "adjList") [] waypoint.adjlist
                    f5)
                  Q (append_all d j (codes "adjList") (λ adj. ok (of_int adj)) waypoint.adjlist w5)
                  (λ w q. record {
                    members = q.members;
                    w-IsObject = q.w-IsObject;
                    id = q.others (codes "id") refl;
                    x = q.others (codes "x") refl;
                    y = q.others (codes "y") refl;
                    type = q.others (codes "type") refl;
                    adj_list = q.arr;
                    adj_list_member = q.arr_member;
                    adjacent = q.written;
                    adj_list-IsArray = q.arr-IsArray;
                    adjacent-Each = q.written-Each;
                  })
                  (append_all-Appended d j laws (λ adj v. v ≡ of_int adj) (codes "adjList")
                    (λ adj. ok (of_int adj)) waypoint.adjlist w5 empty_array [] f5 (λ adj. refl) h5
                    refl empty_array-IsArray))))))

  -- An array of these waypoints, behind what it had before.
  abbrev pub WaypointsBehind : List Value → Ast d → Value → Type 0
  WaypointsBehind vs nodes w =
      (us : List Value) × IsArray w (vs ++ us) × Each WrittenWaypoint nodes us

  pub append_waypoints-WaypointsBehind :
      (nodes : Ast d) (vs : List Value) (w : Value)
      → IsArray w vs
      → Returns (WaypointsBehind vs nodes) (append_waypoints d j nodes w)
  unfolding append_waypoints
  append_waypoints-WaypointsBehind [] vs w h = ([], subst (IsArray w) (sym (append-nil vs)) h, tt)
  append_waypoints-WaypointsBehind ((id, waypoint) ∷ nodes) vs w h =
      let Q : Value → Type 0 = WaypointsBehind vs ((id, waypoint) ∷ nodes) in
      Returns->>= (WrittenWaypoint (id, waypoint)) Q (waypoint_object d j id waypoint) _
        (waypoint_object-WrittenWaypoint id waypoint)
        (λ v hv. append->>= laws Q v w vs (append_waypoints d j nodes) h (λ w' h'.
          Returns-map (WaypointsBehind (vs ++ v ∷ []) nodes) Q (append_waypoints d j nodes w')
            (λ w2 (us, ha, e).
              (v ∷ us, subst (IsArray w2) (append_assoc vs (v ∷ []) us) ha, (hv, e)))
            (append_waypoints-WaypointsBehind nodes (vs ++ v ∷ []) w' h')))
