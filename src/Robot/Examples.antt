-- ===== src/Robot/Examples.antt =====
-- robot/: a robot on its way to two stations.
use p7_kode.Base.{
  zero, All, ℕ, suc, ◌<◌, ◌≡◌, refl, none, some, List, [], ◌∷◌, ok, err, invalid_robot_info, inl,
  arith,
}
use p7_kode.Base.Fallible.{◌>>=◌}
use p7_kode.Base.Int.{ℤ, pos}
use p7_kode.Base.Samples.{whole, trees, Tree}
use p7_kode.Base.SampleLaws.{trees_laws}
use p7_kode.Scheduling.Waypoint.{go_to, hold_for}
use p7_kode.Scheduling.Actions.{action_to_json, action_from_json}
use p7_kode.Scheduling.Actions.RoundTrip.{action_from_json-action_to_json}
use p7_kode.Robot.Info.{Info, eta_or_null, to_json, from_json}
use p7_kode.Robot.Info.RoundTrip.{read_back, from_json-to_json}
use p7_kode.Robot.Info.Errors.{from_json-lacking}
use p7_kode.Base.IntMap.{lookup}
use p7_kode.Wbt.World.{Waypoint, WaypointType, station, via, Ast}
use p7_kode.Wbt.Apsp.Graph.{IsNumbered}
use p7_kode.Robot.Orchestrator.{world_to_config}
use p7_kode.Robot.Orchestrator.Members.{Leaves, Members}
use p7_kode.Robot.Orchestrator.Filled.{wanted, world_to_config-Members}
use p7_kode.Robot.Orchestrator.Read.{Reads, world_to_config-Reads}
use p7_kode.Robot.InfoMap.{info_map, info_at, info_at-info_map}

action_from_json-action_to_json_example :
    (action_to_json whole trees (hold_for 7) >>= action_from_json whole trees) ≡ ok (hold_for 7)
action_from_json-action_to_json_example =
    action_from_json-action_to_json whole trees trees_laws (hold_for 7) (omega arith)

abbrev robot : ℤ → Info whole
robot id = record {
  id = id;
  location = record { x = 3; y = 4 };
  station_plan = pos 5 ∷ pos 2 ∷ [];
  waypoint_plan = go_to (pos 3) ∷ hold_for 7 ∷ [];
  eta = none;
}

read_back_example :
    read_back whole (robot (pos 1))
    ≡ record (robot (pos 1)) { station_plan = pos 0 ∷ pos 1 ∷ []; eta = some 0 }
unfolding eta_or_null
read_back_example = refl

from_json-to_json_example :
    (to_json whole trees (robot (pos 1)) >>= from_json whole trees)
    ≡ ok (read_back whole (robot (pos 1)))
from_json-to_json_example =
    from_json-to_json whole trees trees_laws (robot (pos 1))
      (omega arith, omega arith, omega arith, (omega arith, (omega arith, tt)))

from_json-lacking_example : from_json whole trees Tree.null ≡ err invalid_robot_info
from_json-lacking_example =
    from_json-lacking whole trees trees_laws Tree.null (λ k. none) (trees_laws.null-IsObject)
      (inl refl)

info_at-info_map_example :
    info_at whole (info_map whole (robot (pos 1) ∷ robot (pos 2) ∷ [])) (pos 2) ≡ ok (robot (pos 2))
info_at-info_map_example = info_at-info_map whole (pos 2) (robot (pos 1) ∷ robot (pos 2) ∷ [])

abbrev waypoint : ℕ → WaypointType → List ℤ → Waypoint whole
waypoint id type ids = record {
  id = pos id;
  adjlist = ids;
  translation = record { x = id; y = 0; z = 0 };
  waypoint_type = type;
}

-- A station and a via that are next to each other.
abbrev place : ℕ → Waypoint whole
place zero = waypoint 0 station (pos 1 ∷ [])
place (suc i) = waypoint 1 via (pos 0 ∷ [])

abbrev world : Ast whole
world = (pos 0, place 0) ∷ (pos 1, place 1) ∷ []

place-found : (i : ℕ) → i < 2 → lookup (pos i) world ≡ some (place i)
unfolding lookup
place-found zero h = refl
place-found (suc zero) h = refl
place-found (suc (suc i)) h = absurd (omega arith)

place-id : (i : ℕ) → i < 2 → (place i).id ≡ pos i
place-id zero h = refl
place-id (suc zero) h = refl
place-id (suc (suc i)) h = absurd (omega arith)

place-adjacent : (i : ℕ) → All (λ id. (k : ℕ) × (k < 2) × (id ≡ pos k)) (place i).adjlist
place-adjacent zero = ((1, omega arith, refl), tt)
place-adjacent (suc i) = ((0, omega arith, refl), tt)

world-IsNumbered : IsNumbered whole world
world-IsNumbered = record {
  point = place;
  listed = ((0, omega arith, refl, refl), ((1, omega arith, refl, refl), tt));
  found = place-found;
  ids = place-id;
  adjacent = λ i h. place-adjacent i;
}

world_to_config-Members_example :
    Leaves
      (Members whole trees trees_laws (wanted whole trees trees_laws world world-IsNumbered 2))
      (world_to_config whole trees world 2 Tree.null)
world_to_config-Members_example =
    world_to_config-Members whole trees trees_laws world world-IsNumbered (omega arith) 2 Tree.null
      (λ k. none) (trees_laws.null-IsObject)

world_to_config-Reads_example :
    Leaves (Reads whole trees trees_laws world 2) (world_to_config whole trees world 2 Tree.null)
world_to_config-Reads_example =
    world_to_config-Reads whole trees trees_laws world world-IsNumbered (omega arith) (omega arith)
      2 (omega arith) Tree.null (λ k. none) (trees_laws.null-IsObject)
