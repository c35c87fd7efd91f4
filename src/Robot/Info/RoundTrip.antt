-- ===== src/Robot/Info/RoundTrip.antt =====
-- robot/src/info.cpp: what `Info::from_json` makes of the value that `Info::to_json` wrote.
use p7_kode.Base.{
  ℕ, suc, ◌+◌, ◌≤◌, ◌≡◌, refl, sym, ap, ◌∙◌, true, Option, none, some, List, [], ◌∷◌, ok, Each, All,
  length, get_elem?, arith,
}
use p7_kode.Base.Fallible.{◌>>=◌, Returns-then}
use p7_kode.Base.Int.{ℤ, pos, InInt}
use p7_kode.Base.Text.{Bytes, codes}
use p7_kode.Base.Double.{Double}
use p7_kode.Base.Json.{Json}
use p7_kode.Base.JsonLaws.{JsonLaws, indices}
use p7_kode.Base.JsonObjects.{get-some, is_member-some}
use p7_kode.Config.Values.{convert_all}
use p7_kode.Scheduling.Waypoint.{Action}
use p7_kode.Scheduling.Actions.RoundTrip.{WrittenAction, read_action-WrittenAction}
use p7_kode.Robot.Info.{
  Info, eta_or_null, to_json, from_json, vector_field, actions_field, action_at, point_field,
  int_field, optional_field,
}
use p7_kode.Robot.Info.Plans.{WrittenInfo, IsStation, to_json-WrittenInfo}

-- The numbers from i, as many as the list has elements.
abbrev pub positions : {A : Type 0} → ℕ → List A → List ℤ
positions i [] = []
positions i (a ∷ rest) = pos i ∷ positions (suc i) rest

module _ (d : Double) where
  -- The ints and the indices of the arrays are in the range of int.
  abbrev pub Fits : Info d → Type 0
  Fits info =
      InInt info.id
      × (length info.station_plan ≤ 2147483648)
      × (length info.waypoint_plan ≤ 2147483648)
      × All (λ (a : Action). InInt a.value) info.waypoint_plan

  -- A missing time of arrival counts as zero.
  abbrev pub time_or_zero : Option d.Carrier → d.Carrier
  time_or_zero none = d.of_int (pos 0)
  time_or_zero (some time) = time

  eta_or_null-time_or_zero : (eta : Option d.Carrier) → eta_or_null d eta ≡ time_or_zero eta
  unfolding eta_or_null
  eta_or_null-time_or_zero none = refl
  eta_or_null-time_or_zero (some time) = refl

  -- The stations of the plan are replaced by their positions, and a missing time of arrival by zero.
  abbrev pub read_back : Info d → Info d
  read_back info = record info {
    station_plan = positions 0 info.station_plan;
    eta = some (time_or_zero info.eta);
  }

module _ (d : Double) (j : Json d) (laws : JsonLaws j) where
  open j use {Value, of_int, as_int, get, get_index, null}
  open laws use {
    IsObject, IsArray, get-IsObject, is_member-IsObject, keys-IsArray, get_index-IsArray,
    as_int-of_int, as_double-of_double,
  }

  convert_all-indices :
      (i : ℕ) (plan : List ℤ) (vs : List Value)
      → i + length plan ≤ 2147483648
      → Each (IsStation d j laws) plan vs
      → convert_all as_int (indices of_int i vs) ≡ ok (positions i plan)
  unfolding convert_all
  convert_all-indices i [] [] n h = refl
  convert_all-indices i [] (v ∷ vs) n h = absurd h
  convert_all-indices i (s ∷ plan) [] n h = absurd h
  convert_all-indices i (s ∷ plan) (v ∷ vs) n (h, hs) =
      rw (as_int-of_int (pos i) (omega arith), convert_all-indices (suc i) plan vs (omega arith) hs)
        refl

  convert_all-action_at :
      (arr : Value) (all : List Value) (i : ℕ) (plan : List Action) (vs : List Value)
      → IsArray arr all
      → ((k : ℕ) → get_elem? vs k ≡ get_elem? all (i + k))
      → i + length plan ≤ 2147483648
      → All (λ (a : Action). InInt a.value) plan
      → Each (WrittenAction d j laws) plan vs
      → convert_all (action_at d j arr) (indices of_int i vs) ≡ ok plan
  unfolding convert_all
  convert_all-action_at arr all i [] [] ha e n b h = refl
  convert_all-action_at arr all i [] (v ∷ vs) ha e n b h = absurd h
  convert_all-action_at arr all i (a ∷ plan) [] ha e n b h = absurd h
  convert_all-action_at arr all i (a ∷ plan) (v ∷ vs) ha e n (b, bs) (h, hs) =
      let here : get_elem? all i ≡ some v = ap (get_elem? all) (omega arith) ∙ sym (e 0) in
      rw
        (
          as_int-of_int (pos i) (omega arith),
          get_index-IsArray arr all i v ha here,
          read_action-WrittenAction d j laws a v b h,
          convert_all-action_at arr all (suc i) plan vs ha
              (λ k. e (suc k) ∙ ap (get_elem? all) (omega arith)) (omega arith) bs hs,
        )
        refl

  module _ (info : Info d) (w : Value) (h : WrittenInfo d j laws info w) where
    abbrev found : (k : Bytes) (v : Value) → h.located.members k ≡ some v → get w k ≡ ok v
    found k v = get-some laws w v h.located.members k h.located.w-IsObject

    abbrev there :
        (k : Bytes) (v : Value) → h.located.members k ≡ some v → j.is_member w k ≡ ok true
    there k v = is_member-some laws w v h.located.members k h.located.w-IsObject

    abbrev found_in :
        (k : Bytes) (v : Value) → h.located.point_members k ≡ some v → get h.located.point k ≡ ok v
    found_in k v =
        get-some laws h.located.point v h.located.point_members k h.located.point-IsObject

    int_field-WrittenInfo : InInt info.id → int_field d j w (codes "id") ≡ ok info.id
    unfolding int_field
    int_field-WrittenInfo i =
        let v = of_int info.id in
        rw
          (
            there (codes "id") v h.located.id,
            found (codes "id") v h.located.id,
            as_int-of_int info.id i,
          )
          refl

    point_field-WrittenInfo : point_field d j w (codes "location") ≡ ok info.location
    unfolding point_field
    point_field-WrittenInfo =
        rw
          (
            found (codes "location") h.located.point h.located.location,
            found_in (codes "x") (j.of_double info.location.x) h.located.x,
            as_double-of_double info.location.x,
            found_in (codes "y") (j.of_double info.location.y) h.located.y,
            as_double-of_double info.location.y,
          )
          refl

    vector_field-WrittenInfo :
        length info.station_plan ≤ 2147483648
        → vector_field d j w (codes "station_plan") ≡ ok (positions 0 info.station_plan)
    unfolding vector_field
    vector_field-WrittenInfo n =
        rw
          (
            there (codes "station_plan") h.stations h.station_plan,
            found (codes "station_plan") h.stations h.station_plan,
            keys-IsArray h.stations h.station_values h.stations-IsArray,
          )
          (convert_all-indices 0 info.station_plan h.station_values (omega arith) h.stations-Each)

    actions_field-WrittenInfo :
        length info.waypoint_plan ≤ 2147483648
        → All (λ (a : Action). InInt a.value) info.waypoint_plan
        → actions_field d j w (codes "waypoint_plan") ≡ ok info.waypoint_plan
    unfolding actions_field
    actions_field-WrittenInfo n all =
        rw
          (
            there (codes "waypoint_plan") h.waypoints h.waypoint_plan,
            found (codes "waypoint_plan") h.waypoints h.waypoint_plan,
            keys-IsArray h.waypoints h.waypoint_values h.waypoints-IsArray,
          )
          (convert_all-action_at h.waypoints h.waypoint_values 0 info.waypoint_plan
            h.waypoint_values h.waypoints-IsArray
            (λ k. ap (get_elem? h.waypoint_values) (omega arith)) (omega arith) all
            h.waypoints-Each)

    optional_field-WrittenInfo :
        optional_field d j w (codes "eta") ≡ ok (some (time_or_zero d info.eta))
    unfolding optional_field
    optional_field-WrittenInfo =
        let v = j.of_double (eta_or_null d info.eta) in
        rw
          (
            there (codes "eta") v h.located.eta,
            found (codes "eta") v h.located.eta,
            as_double-of_double (eta_or_null d info.eta),
          )
          (ap (λ z. ok (some z)) (eta_or_null-time_or_zero d info.eta))

    from_json-WrittenInfo : Fits d info → from_json d j w ≡ ok (read_back d info)
    unfolding from_json
    from_json-WrittenInfo (i, ns, nw, all) =
        rw
          (
            there (codes "location") h.located.point h.located.location,
            there (codes "id") (of_int info.id) h.located.id,
            int_field-WrittenInfo i,
            point_field-WrittenInfo,
            vector_field-WrittenInfo ns,
            actions_field-WrittenInfo nw all,
            optional_field-WrittenInfo,
          )
          refl

  -- to_json always gives a value, and from_json makes of it the same information again, but with the
  -- positions 0, 1, … in place of the stations of the station plan, and with a time of arrival of 0 where
  -- there was none. Supposed is that the id and the values of the actions are ints and that the plans
  -- have at most 2 ^ 31 elements.
  pub from_json-to_json :
      (info : Info d) → Fits d info → (to_json d j info >>= from_json d j) ≡ ok (read_back d info)
  from_json-to_json info fits =
      Returns-then (WrittenInfo d j laws info) (to_json d j info) (from_json d j)
        (ok (read_back d info)) (to_json-WrittenInfo d j laws info)
        (λ w h. from_json-WrittenInfo info w h fits)
