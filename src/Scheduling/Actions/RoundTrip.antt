-- ===== src/Scheduling/Actions/RoundTrip.antt =====
-- scheduling/src/waypoint_scheduler.cpp: an action is read back from its JSON.
use p7_kode.Base.{◌≡◌, refl, true, Option, none, some, ◌||◌, ok}
use p7_kode.Base.Fallible.{◌>>=◌, Returns, Returns-map, Returns-then}
use p7_kode.Base.Int.{InInt}
use p7_kode.Base.Text.{Bytes, codes, bytes_eq}
use p7_kode.Base.Double.{Double}
use p7_kode.Base.Json.{Json}
use p7_kode.Base.JsonLaws.{JsonLaws, updated}
use p7_kode.Base.JsonObjects.{set->>=, get-some}
use p7_kode.Scheduling.Waypoint.{Action, ActionType, hold, waypoint}
use p7_kode.Scheduling.Actions.{type_name, type_of, action_to_json, read_action, action_from_json}

pub type_of-type_name : (t : ActionType) → type_of (type_name t) ≡ t
unfolding type_of type_name
type_of-type_name hold = refl
type_of-type_name waypoint = refl

-- The test of action_from_json.
known :
    (t : ActionType)
    → bytes_eq (type_name t) (codes "Hold") || bytes_eq (type_name t) (codes "Waypoint") ≡ true
unfolding type_name
known hold = refl
known waypoint = refl

module _ (d : Double) (j : Json d) (laws : JsonLaws j) where
  open j use {Value, of_int, of_string, get, as_int, as_string, null, set}
  open laws use {
    IsObject, get-IsObject, as_int-of_int, as_string-of_string, null-IsObject, set-IsObject,
  }

  pub record WrittenAction (a : Action) (json : Value) : Type 0 where
    pub members : Bytes → Option Value
    pub json-IsObject : IsObject json members
    pub type : members (codes "type") ≡ some (of_string (type_name a.type))
    pub value : members (codes "value") ≡ some (of_int a.value)

  pub action_to_json-WrittenAction : (a : Action) → Returns (WrittenAction a) (action_to_json d j a)
  unfolding action_to_json
  action_to_json-WrittenAction a =
      let type_json = of_string (type_name a.type) in
      let value_json = of_int a.value in
      let typed = updated (codes "type") type_json (λ k. none) in
      set->>= laws (WrittenAction a) (codes "type") type_json null (λ k. none)
        (set (codes "value") value_json) null-IsObject
        (λ w h.
          Returns-map (λ w'. IsObject w' (updated (codes "value") value_json typed))
            (WrittenAction a) (set (codes "value") value_json w)
            (λ w' h'. record {
              members = updated (codes "value") value_json typed;
              json-IsObject = h';
              type = refl;
              value = refl;
            })
            (set-IsObject (codes "value") value_json w typed h))

  pub read_action-WrittenAction :
      (a : Action) (json : Value)
      → InInt a.value
      → WrittenAction a json
      → read_action d j json ≡ ok a
  unfolding read_action
  read_action-WrittenAction a json i h =
      rw
        (
          get-some laws json (of_string (type_name a.type)) h.members (codes "type") h.json-IsObject
              h.type,
          as_string-of_string (type_name a.type),
          get-some laws json (of_int a.value) h.members (codes "value") h.json-IsObject h.value,
          as_int-of_int a.value i,
          type_of-type_name a.type,
        )
        refl

  action_from_json-WrittenAction :
      (a : Action) (json : Value)
      → InInt a.value
      → WrittenAction a json
      → action_from_json d j json ≡ ok a
  unfolding action_from_json
  action_from_json-WrittenAction a json i h =
      rw
        (
          get-some laws json (of_string (type_name a.type)) h.members (codes "type") h.json-IsObject
              h.type,
          as_string-of_string (type_name a.type),
          known a.type,
          get-some laws json (of_int a.value) h.members (codes "value") h.json-IsObject h.value,
          as_int-of_int a.value i,
          type_of-type_name a.type,
        )
        refl

  -- An action whose value is an int is read back from the JSON value that is made of it.
  pub action_from_json-action_to_json :
      (a : Action) → InInt a.value → (action_to_json d j a >>= action_from_json d j) ≡ ok a
  action_from_json-action_to_json a i =
      Returns-then (WrittenAction a) (action_to_json d j a) (action_from_json d j) (ok a)
        (action_to_json-WrittenAction a) (λ json. action_from_json-WrittenAction a json i)
