-- ===== src/Scheduling/Actions.antt =====
-- scheduling/src/waypoint_scheduler.cpp: `Action::to_json` and `Action::from_json`.
pub mod RoundTrip
use p7_kode.Base.{Bool, true, false, ◌||◌, Result, ok, err, json_conversion, if◌then◌else◌}
use p7_kode.Base.Fallible.{◌>>=◌}
use p7_kode.Base.Text.{Bytes, codes, bytes_eq}
use p7_kode.Base.Double.{Double}
use p7_kode.Base.Json.{Json}
use p7_kode.Scheduling.Waypoint.{Action, ActionType, hold, waypoint}

unfoldable pub type_name : ActionType → Bytes
type_name hold = codes "Hold"
type_name waypoint = codes "Waypoint"

-- type_str == "Hold" ? ActionType::Hold : ActionType::Waypoint
unfoldable pub type_of : Bytes → ActionType
type_of type_str = if bytes_eq type_str (codes "Hold") then hold else waypoint

module _ (d : Double) (j : Json d) where
  open j use {Value, null, of_int, of_string, set, get, as_int, as_string}

  unfoldable pub action_to_json : Action → Result Value
  action_to_json a = do
    json ← set (codes "type") (of_string (type_name a.type)) null
    set (codes "value") (of_int a.value) json

  -- The type and the value, the type as ActionType::Waypoint where it is not "Hold".
  unfoldable pub read_action : Value → Result Action
  read_action json = do
    type_json ← get json (codes "type")
    type_str ← as_string type_json
    value_json ← get json (codes "value")
    value ← as_int value_json
    ok (record { type = type_of type_str; value = value })

  -- Of the two that are called from_json, the one that takes a Json::Value.
  unfoldable pub action_from_json : Value → Result Action
  action_from_json json = do
    type_json ← get json (codes "type")
    type_str ← as_string type_json
    if bytes_eq type_str (codes "Hold") || bytes_eq type_str (codes "Waypoint")
        then (do
          value_json ← get json (codes "value")
          value ← as_int value_json
          ok (record { type = type_of type_str; value = value }))
        else err json_conversion

  -- The one that takes a text; `parse` is what `>>` extracts from it.
  unfoldable pub action_from_text : (Bytes → Result Value) → Bytes → Result Action
  action_from_text parse text = do root ← parse text; action_from_json root
