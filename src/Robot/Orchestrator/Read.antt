-- ===== src/Robot/Orchestrator/Read.antt =====
-- robot/src/orchestrator.cpp and config/src/config.cpp: the configuration that the orchestrator fills,
-- read through the getters.
use p7_kode.Base.{
  Bool-cases, ℕ, ◌≤◌, ◌<◌, ◌≡◌, refl, sym, ap, subst, ◌∙◌, inl, inr, Bool, Option, List, [], ◌∷◌,
  map, ok, length, All, arith,
}
use p7_kode.Base.Int.{ℤ, pos, InInt}
use p7_kode.Base.Text.{Bytes, codes}
use p7_kode.Base.Double.{Double}
use p7_kode.Base.Json.{Json}
use p7_kode.Base.JsonLaws.{JsonLaws}
use p7_kode.Base.JsonObjects.{get-some, is_member-some}
use p7_kode.Wbt.World.{Waypoint, WaypointType, Ast}
use p7_kode.Wbt.Apsp.Graph.{IsNumbered, IsNode}
use p7_kode.Config.Values.{convert_all, member, get_int, get_vector, vector_from_json}
use p7_kode.Robot.Orchestrator.{int_of_key, is_station, world_to_config}
use p7_kode.Robot.Orchestrator.Ids.{is_end_point, is_via, ids_of}
use p7_kode.Robot.Orchestrator.Members.{Leaves, Leaves-map, Members, HasMember, IsInts}
use p7_kode.Robot.Orchestrator.Filled.{IsCount, wanted, world_to_config-Members}

module _ (d : Double) (j : Json d) (laws : JsonLaws j) where
  open j use {Value, of_int, as_int}

  convert_all-of_int : (zs : List ℤ) → All InInt zs → convert_all as_int (map of_int zs) ≡ ok zs
  unfolding convert_all
  convert_all-of_int [] h = refl
  convert_all-of_int (z ∷ zs) (h, hs) = rw (laws.as_int-of_int z h, convert_all-of_int zs hs) refl

  module _ (json : Value) (f : Bytes → Option Value) (h : laws.IsObject json f) (k : Bytes) where
    get_vector-IsInts :
        (zs : List ℤ)
        → All InInt zs
        → HasMember d j laws f (k, IsInts d j laws zs)
        → get_vector d j json k ≡ ok zs
    unfolding get_vector member vector_from_json
    get_vector-IsInts zs all (v, e, ha) =
        rw
          (
            is_member-some laws json v f k h e,
            get-some laws json v f k h e,
            laws.is_array-IsArray v (map of_int zs) ha,
            laws.elements-IsArray v (map of_int zs) ha,
          )
          (convert_all-of_int zs all)

    get_int-IsCount :
        (n : ℕ)
        → n < 2147483648
        → HasMember d j laws f (k, IsCount d j laws n)
        → get_int d j json k ≡ ok (pos n)
    unfolding get_int member
    get_int-IsCount n b (v, e, c) =
        rw (is_member-some laws json v f k h e, get-some laws json v f k h e, c)
          (laws.as_int-of_int (pos n) (omega arith))

module _ (d : Double) where
  key_pos : (i : ℕ) → i < 2147483648 → int_of_key (pos i) ≡ pos i
  key_pos i h = ground arith

  ids_of-InInt :
      (test : WaypointType → Bool) (n : ℕ) (point : ℕ → Waypoint d) (nodes : Ast d)
      → n ≤ 2147483648
      → All (IsNode d n point) nodes
      → All InInt (ids_of d test nodes)
  ids_of-InInt test n point [] b h = tt
  ids_of-InInt test n point ((id, waypoint) ∷ nodes) b ((i, hi, e, _), hs) =
      let rest = ids_of-InInt test n point nodes b hs in
      elim (Bool-cases (test waypoint.waypoint_type)) [
        | inl c ↦
            rw c (subst InInt (sym (ap int_of_key e ∙ key_pos i (omega arith))) (omega arith), rest)
        | inr c ↦ rw c rest
      ]

  length-ids_of :
      (test : WaypointType → Bool) (nodes : Ast d) → length (ids_of d test nodes) ≤ length nodes
  length-ids_of test [] = omega arith
  length-ids_of test ((id, waypoint) ∷ nodes) =
      let h = length-ids_of test nodes in
      elim (Bool-cases (test waypoint.waypoint_type)) [
        | inl e ↦ rw e (omega arith)
        | inr e ↦ rw e (omega arith)
      ]

module _ (d : Double) (j : Json d) (laws : JsonLaws j) where
  -- What the getters read in the configuration of a world.
  pub record Reads (nodes : Ast d) (robots : ℕ) (json : j.Value) : Type 0 where
    pub stations : get_vector d j json (codes "stations") ≡ ok (ids_of d is_station nodes)
    pub end_stations : get_vector d j json (codes "end_stations") ≡ ok (ids_of d is_end_point nodes)
    pub vias : get_vector d j json (codes "vias") ≡ ok (ids_of d is_via nodes)
    pub number_of_stations :
        get_int d j json (codes "number_of_stations")
        ≡ ok (pos (length (ids_of d is_station nodes)))
    pub number_of_end_stations :
        get_int d j json (codes "number_of_end_stations")
        ≡ ok (pos (length (ids_of d is_end_point nodes)))
    pub number_of_vias :
        get_int d j json (codes "number_of_vias") ≡ ok (pos (length (ids_of d is_via nodes)))
    pub number_of_waypoints :
        get_int d j json (codes "number_of_waypoints") ≡ ok (pos (length nodes))
    pub number_of_robots : get_int d j json (codes "number_of_robots") ≡ ok (pos robots)

  module _ (nodes : Ast d) (h : IsNumbered d nodes) (short : length nodes < 2147483648)
      (json : j.Value) (f : Bytes → Option j.Value) (o : laws.IsObject json f) where
    get_vector-ids_of :
        (k : Bytes) (test : WaypointType → Bool)
        → HasMember d j laws f (k, IsInts d j laws (ids_of d test nodes))
        → get_vector d j json k ≡ ok (ids_of d test nodes)
    get_vector-ids_of k test m =
        get_vector-IsInts d j laws json f o k (ids_of d test nodes)
          (ids_of-InInt d test (length nodes) h.point nodes (omega arith) h.listed) m

    get_int-ids_of :
        (k : Bytes) (test : WaypointType → Bool)
        → HasMember d j laws f (k, IsCount d j laws (length (ids_of d test nodes)))
        → get_int d j json k ≡ ok (pos (length (ids_of d test nodes)))
    get_int-ids_of k test m =
        get_int-IsCount d j laws json f o k (length (ids_of d test nodes))
          (let b = length-ids_of d test nodes in omega arith) m

  Members-Reads :
      (nodes : Ast d) (h : IsNumbered d nodes) (robots : ℕ)
      → length nodes < 2147483648
      → robots < 2147483648
      → (json : j.Value) → Members d j laws (wanted d j laws nodes h robots) json
      → Reads nodes robots json
  Members-Reads nodes h robots n r json m =
      let (_, (_, (_, (c1, (c2, (c3, (c4, (c5, (v1, (v2, (v3, _))))))))))) = m.all in
      let ids = get_vector-ids_of nodes h n json m.members m.w-IsObject in
      let count = get_int-ids_of nodes h n json m.members m.w-IsObject in
      record {
        stations = ids (codes "stations") is_station v3;
        end_stations = ids (codes "end_stations") is_end_point v2;
        vias = ids (codes "vias") is_via v1;
        number_of_stations = count (codes "number_of_stations") is_station c5;
        number_of_end_stations = count (codes "number_of_end_stations") is_end_point c4;
        number_of_vias = count (codes "number_of_vias") is_via c3;
        number_of_waypoints =
            get_int-IsCount d j laws json m.members m.w-IsObject (codes "number_of_waypoints")
              (length nodes) n c2;
        number_of_robots =
            get_int-IsCount d j laws json m.members m.w-IsObject (codes "number_of_robots") robots r
              c1;
      }

  -- The configuration that a world of numbered waypoints gives is read back by the getters of Config:
  -- the ids of the stations, the end stations and the vias in the order of the ids, the number of each,
  -- of all waypoints and of the robots. Supposed is that the numbers of waypoints and robots are ints,
  -- and that the configuration was an object, such as that of a new Config.
  pub world_to_config-Reads :
      (nodes : Ast d)
      → IsNumbered d nodes
      → 0 < length nodes
      → length nodes < 2147483648
      → (robots : ℕ) → robots < 2147483648
      → (json : j.Value) (f : Bytes → Option j.Value) → laws.IsObject json f
      → Leaves (Reads nodes robots) (world_to_config d j nodes robots json)
  world_to_config-Reads nodes h one n robots r json f o =
      Leaves-map (Members d j laws (wanted d j laws nodes h robots)) (Reads nodes robots)
        (world_to_config d j nodes robots json) (Members-Reads nodes h robots n r)
        (world_to_config-Members d j laws nodes h one robots json f o)
