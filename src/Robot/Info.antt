-- ===== src/Robot/Info.antt =====
-- robot/src/info.cpp: `Info` and its conversions to and from JSON.
pub mod Written
pub mod Plans
pub mod RoundTrip
pub mod Errors
use p7_kode.Base.{
  Bool, true, false, not, ◌||◌, Option, none, some, List, [], ◌∷◌, Result, ok, err,
  invalid_robot_info, if◌then◌else◌,
}
use p7_kode.Base.Fallible.{◌>>=◌}
use p7_kode.Base.Int.{ℤ, pos}
use p7_kode.Base.Text.{Bytes, codes}
use p7_kode.Base.Double.{Double}
use p7_kode.Base.Json.{Json}
use p7_kode.Config.Values.{convert_all}
use p7_kode.Scheduling.Waypoint.{Action}
use p7_kode.Scheduling.Actions.{action_to_json, read_action}

module _ (d : Double) where
  pub record Point : Type 0 where
    pub x : d.Carrier
    pub y : d.Carrier

  pub record Info : Type 0 where
    pub id : ℤ
    pub location : Point
    pub station_plan : List ℤ
    pub waypoint_plan : List Action
    pub eta : Option d.Carrier

  -- eta.has_value() ? eta.value() : Json::nullValue, which is of type double: the enumerator is 0.
  unfoldable pub eta_or_null : Option d.Carrier → d.Carrier
  eta_or_null none = d.of_int (pos 0)
  eta_or_null (some time) = time

module _ (d : Double) (j : Json d) where
  open d use {Carrier}
  open j use {
    Value, null, empty_array, of_int, of_double, is_member, get, get_index, as_int, as_double, keys,
    set, append,
  }

  -- json[key1][key2] = value
  unfoldable pub set_in : Bytes → Bytes → Value → Value → Result Value
  set_in key1 key2 value json = do
    inner ← get json key1
    inner' ← set key2 value inner
    set key1 inner' json

  -- json[key].append(value)
  unfoldable pub append_in : Bytes → Value → Value → Result Value
  append_in key value json = do
    inner ← get json key
    inner' ← append inner value
    set key inner' json

  -- for (const A &a : list) json[key].append(f(a));
  unfoldable pub append_all :
      {A : Type 0} → Bytes → (A → Result Value) → List A → Value → Result Value
  append_all key f [] json = ok json
  append_all key f (a ∷ rest) json = do
    value ← f a
    json' ← append_in key value json
    append_all key f rest json'

  unfoldable pub to_json : Info d → Result Value
  to_json info = do
    json1 ← set (codes "id") (of_int info.id) null
    json2 ← set (codes "eta") (of_double (eta_or_null d info.eta)) json1
    json3 ← set_in (codes "location") (codes "x") (of_double info.location.x) json2
    json4 ← set_in (codes "location") (codes "y") (of_double info.location.y) json3
    json5 ← set (codes "station_plan") empty_array json4
    json6 ←
        append_all (codes "station_plan") (λ station. ok (of_int station)) info.station_plan json5
    json7 ← set (codes "waypoint_plan") empty_array json6
    append_all (codes "waypoint_plan") (action_to_json d j) info.waypoint_plan json7

  -- The specialisations of get_field_as, by their types.
  unfoldable pub vector_field : Value → Bytes → Result (List ℤ)
  vector_field json field = do
    found ← is_member json field
    if found then (do arr ← get json field; convert_all as_int (keys arr)) else ok []

  -- One round of the loop over the actions.
  abbrev action_at : Value → Value → Result Action
  action_at arr key = do
    index ← as_int key
    arr_value ← get_index arr index
    read_action d j arr_value

  unfoldable pub actions_field : Value → Bytes → Result (List Action)
  actions_field json field = do
    found ← is_member json field
    if found then (do arr ← get json field; convert_all (action_at arr) (keys arr)) else ok []

  unfoldable pub point_field : Value → Bytes → Result (Point d)
  point_field json field = do
    point ← get json field
    x_json ← get point (codes "x")
    x ← as_double x_json
    y_json ← get point (codes "y")
    y ← as_double y_json
    ok (record { x = x; y = y })

  unfoldable pub int_field : Value → Bytes → Result ℤ
  int_field json field = do
    found ← is_member json field
    if found then (do value ← get json field; as_int value) else err invalid_robot_info

  unfoldable pub optional_field : Value → Bytes → Result (Option Carrier)
  optional_field json field = do
    found ← is_member json field
    if found then (do value ← get json field; time ← as_double value; ok (some time)) else ok none

  -- !json.isMember("location") || !json.isMember("id")
  abbrev lacks_field : Value → Result Bool
  lacks_field json = do
    located ← is_member json (codes "location")
    if located then (do identified ← is_member json (codes "id"); ok (not identified)) else ok true

  -- Of the two that are called from_json, the one that takes a Json::Value.
  unfoldable pub from_json : Value → Result (Info d)
  from_json json = do
    lacking ← lacks_field json
    if lacking then err invalid_robot_info else (do
      id ← int_field json (codes "id")
      location ← point_field json (codes "location")
      station_plan ← vector_field json (codes "station_plan")
      waypoint_plan ← actions_field json (codes "waypoint_plan")
      eta ← optional_field json (codes "eta")
      ok (record {
        id = id;
        location = location;
        station_plan = station_plan;
        waypoint_plan = waypoint_plan;
        eta = eta;
      }))

  -- The one that takes a text; `parse` is what `>>` extracts from it.
  unfoldable pub from_text : (Bytes → Result Value) → Bytes → Result (Info d)
  from_text parse text = do root ← parse text; from_json root
