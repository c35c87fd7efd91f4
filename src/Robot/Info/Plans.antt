-- ===== src/Robot/Info/Plans.antt =====
-- robot/src/info.cpp: the plans that `Info::to_json` writes behind the other members.
use p7_kode.Base.{◌≡◌, refl, ◌∙◌, false, Option, some, List, [], Result, ok, Each}
use p7_kode.Base.Fallible.{◌>>=◌, Returns, Returns->>=, Returns-map}
use p7_kode.Base.Int.{ℤ}
use p7_kode.Base.Text.{Bytes, codes, bytes_eq, bytes_eq_refl}
use p7_kode.Base.Double.{Double}
use p7_kode.Base.Json.{Json}
use p7_kode.Base.JsonLaws.{JsonLaws, updated}
use p7_kode.Base.JsonObjects.{set->>=}
use p7_kode.Scheduling.Actions.{action_to_json}
use p7_kode.Scheduling.Actions.RoundTrip.{WrittenAction, action_to_json-WrittenAction}
use p7_kode.Robot.Info.{Info, append_all, to_json}
use p7_kode.Robot.Info.Written.{Appended, append_all-Appended, Located, located->>=}

module _ (d : Double) (j : Json d) (laws : JsonLaws j) where
  open j use {Value, of_int, empty_array, set}
  open laws use {IsArray, empty_array-IsArray}

  -- json[key] = Json::Value{Json::arrayValue}, and the loop that appends to it.
  array->>= :
      {A B : Type 0} (Q : B → Type 0) (R : A → Value → Type 0) (key : Bytes)
      (make : A → Result Value) (as' : List A) (w : Value) (f : Bytes → Option Value)
      (rest : Value → Result B)
      → ((a : A) → Returns (R a) (make a))
      → laws.IsObject w f
      → ((w' arr : Value)
          → Appended d j laws R key [] as' (updated key arr f) w'
          → Returns Q (rest w'))
      → Returns Q (do w1 ← set key empty_array w; w2 ← append_all d j key make as' w1; rest w2)
  array->>= Q R key make as' w f rest each h next =
      let f' = updated key empty_array f in
      set->>= laws Q key empty_array w f _ h (λ w1 h1.
        Returns->>= (Appended d j laws R key [] as' f') Q (append_all d j key make as' w1) rest
          (append_all-Appended d j laws R key make as' w1 empty_array [] f' each h1
            (let b = bytes_eq_refl key in rw b refl) empty_array-IsArray)
          (λ w2. next w2 empty_array))

  -- The members stay when an array is filled whose key is none of theirs.
  kept :
      {A : Type 0} (info : Info d) (R : A → Value → Type 0) (key : Bytes) (as' : List A)
      (w0 arr w : Value) (l : Located d j laws info w0)
      → bytes_eq key (codes "id") ≡ false
      → bytes_eq key (codes "eta") ≡ false
      → bytes_eq key (codes "location") ≡ false
      → Appended d j laws R key [] as' (updated key arr l.members) w
      → Located d j laws info w
  kept info R key as' w0 arr w l ni ne nl q = record {
    members = q.members;
    w-IsObject = q.w-IsObject;
    id = q.others (codes "id") ni ∙ rw ni l.id;
    eta = q.others (codes "eta") ne ∙ rw ne l.eta;
    point = l.point;
    location = q.others (codes "location") nl ∙ rw nl l.location;
    point_members = l.point_members;
    point-IsObject = l.point-IsObject;
    x = l.x;
    y = l.y;
  }

  abbrev pub IsStation : ℤ → Value → Type 0
  IsStation station v = v ≡ of_int station

  pub record WrittenInfo (info : Info d) (w : Value) : Type 0 where
    pub located : Located d j laws info w
    pub stations : Value
    pub station_plan : located.members (codes "station_plan") ≡ some stations
    pub station_values : List Value
    pub stations-IsArray : IsArray stations station_values
    pub stations-Each : Each IsStation info.station_plan station_values
    pub waypoints : Value
    pub waypoint_plan : located.members (codes "waypoint_plan") ≡ some waypoints
    pub waypoint_values : List Value
    pub waypoints-IsArray : IsArray waypoints waypoint_values
    pub waypoints-Each : Each (WrittenAction d j laws) info.waypoint_plan waypoint_values

  written :
      (info : Info d) (w0 a1 w1 a2 w2 : Value) (l : Located d j laws info w0)
      (q1 : Appended d j laws IsStation
        (codes "station_plan")
        []
        info.station_plan
        (updated (codes "station_plan") a1 l.members)
        w1)
      → Appended d j laws
          (WrittenAction d j laws)
          (codes "waypoint_plan")
          []
          info.waypoint_plan
          (updated (codes "waypoint_plan") a2 q1.members)
          w2
      → WrittenInfo info w2
  unfolding kept
  written info w0 a1 w1 a2 w2 l q1 q2 =
      let l1 =
        kept info IsStation (codes "station_plan") info.station_plan w0 a1 w1 l refl refl refl q1 in
      record {
        located =
            kept info (WrittenAction d j laws) (codes "waypoint_plan") info.waypoint_plan w1 a2 w2
              l1 refl refl refl q2;
        stations = q1.arr;
        station_plan = q2.others (codes "station_plan") refl ∙ q1.arr_member;
        station_values = q1.written;
        stations-IsArray = q1.arr-IsArray;
        stations-Each = q1.written-Each;
        waypoints = q2.arr;
        waypoint_plan = q2.arr_member;
        waypoint_values = q2.written;
        waypoints-IsArray = q2.arr-IsArray;
        waypoints-Each = q2.written-Each;
      }

  pub to_json-WrittenInfo : (info : Info d) → Returns (WrittenInfo info) (to_json d j info)
  unfolding to_json
  to_json-WrittenInfo info = located->>= d j laws (WrittenInfo info) info _ (λ w0 l.
      array->>= (WrittenInfo info) IsStation (codes "station_plan") (λ station. ok (of_int station))
        info.station_plan w0 l.members _ (λ station. refl) l.w-IsObject
        (λ w1 a1 q1.
          let wp = codes "waypoint_plan" in
          let f2 = updated wp empty_array q1.members in
          set->>= laws (WrittenInfo info) wp empty_array w1 q1.members _ q1.w-IsObject (λ w2 h2.
            Returns-map (Appended d j laws (WrittenAction d j laws) wp [] info.waypoint_plan f2)
              (WrittenInfo info) (append_all d j wp (action_to_json d j) info.waypoint_plan w2)
              (λ w3. written info w0 a1 w1 empty_array w3 l q1)
              (append_all-Appended d j laws (WrittenAction d j laws) wp (action_to_json d j)
                info.waypoint_plan w2 empty_array [] f2 (action_to_json-WrittenAction d j laws) h2
                refl empty_array-IsArray))))
