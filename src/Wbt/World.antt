-- ===== src/Wbt/World.antt =====
-- wbt-translator/include/wbt-translator/webots_parser.hpp and the distance of
-- wbt-translator/src/distance_matrix.cpp: waypoints and the graph that they form.
use p7_kode.Base.{
  Bool, false, none, some, List, [], ◌∷◌, ◌||◌, Result, ok, err, malformed_world_file,
}
use p7_kode.Base.Int.{ℤ, eqb_ℤ}
use p7_kode.Base.IntMap.{IntMap, lookup}
use p7_kode.Base.Double.{Double}

pub data WaypointType : Type 0 where
  via station end_point : WaypointType

-- id == j for some id of the list
abbrev pub contains : ℤ → List ℤ → Bool
contains j [] = false
contains j (id ∷ ids) = eqb_ℤ id j || contains j ids

module _ (d : Double) where
  open d use {Carrier, add, sub, mul, sqrt}

  pub record Translation : Type 0 where
    pub x : Carrier
    pub y : Carrier
    pub z : Carrier

  pub record Waypoint : Type 0 where
    pub id : ℤ
    pub adjlist : List ℤ
    pub translation : Translation
    pub waypoint_type : WaypointType

  -- The keys are of type size_t.
  abbrev pub Ast : Type 0
  Ast = IntMap Waypoint

  unfoldable pub are_connected : Ast → ℤ → ℤ → Result Bool
  are_connected nodes i j = elim (lookup i nodes) [
    | none ↦ err malformed_world_file
    | some start ↦ ok (contains j start.adjlist)
  ]

  unfoldable pub euclidean_distance : Waypoint → Waypoint → Carrier
  euclidean_distance p1 p2 =
      let xdist = sub p1.translation.x p2.translation.x in
      let zdist = sub p1.translation.z p2.translation.z in
      sqrt (add (mul xdist xdist) (mul zdist zdist))
