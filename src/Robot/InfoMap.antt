-- ===== src/Robot/InfoMap.antt =====
-- robot/src/info.cpp: `InfoMap`. An InfoMap is its field `robot_info`.
use p7_kode.Base.{
  ◌≡◌, refl, ◌∙◌, Option, none, some, List, [], ◌∷◌, Result, ok, err, out_of_range, arith,
  if◌then◌else◌,
}
use p7_kode.Base.Fallible.{◌>>=◌}
use p7_kode.Base.Int.{ℤ, pos, eqb_ℤ}
use p7_kode.Base.IntMap.{IntMap, lookup, insert_or_assign, lookup-insert_or_assign}
use p7_kode.Base.Text.{Bytes}
use p7_kode.Base.Decimal.{to_string}
use p7_kode.Base.Double.{Double}
use p7_kode.Base.Json.{Json}
use p7_kode.Config.Values.{convert_all}
use p7_kode.Robot.Info
use p7_kode.Robot.Info.{Info}

module _ (d : Double) where
  -- The loop of the constructor.
  unfoldable pub add_all : List (Info d) → IntMap (Info d) → IntMap (Info d)
  add_all [] robot_info = robot_info
  add_all (info ∷ infos) robot_info = add_all infos (insert_or_assign info.id info robot_info)

  unfoldable pub info_map : List (Info d) → IntMap (Info d)
  info_map infos = add_all infos []

  -- The value of a new entry.
  abbrev pub default_info : Info d
  default_info = record {
    id = pos 0;
    location = record { x = d.of_int (pos 0); y = d.of_int (pos 0) };
    station_plan = [];
    waypoint_plan = [];
    eta = none;
  }

  -- operator[](index), which makes an entry where there is none; what it refers to and the map.
  unfoldable pub index_or_default : ℤ → IntMap (Info d) → Info d × IntMap (Info d)
  index_or_default index robot_info = elim (lookup index robot_info) [
    | some info ↦ (info, robot_info)
    | none ↦ (default_info, insert_or_assign index default_info robot_info)
  ]

  -- operator[](index) const
  unfoldable pub info_at : IntMap (Info d) → ℤ → Result (Info d)
  info_at robot_info index = elim (lookup index robot_info) [
    | some info ↦ ok info
    | none ↦ err out_of_range
  ]

module _ (d : Double) (j : Json d) where
  open j use {Value, empty_object, set, elements}

  unfoldable pub set_all : IntMap (Info d) → Value → Result Value
  set_all [] json = ok json
  set_all ((robot_id, info) ∷ rest) json = do
    value ← Info.to_json d j info
    json' ← set (to_string robot_id) value json
    set_all rest json'

  unfoldable pub map_to_json : IntMap (Info d) → Result Value
  map_to_json robot_info = set_all robot_info empty_object

  unfoldable pub map_from_json : Value → Result (IntMap (Info d))
  map_from_json json = do
    infos ← convert_all (Info.from_json d j) (elements json)
    ok (info_map d infos)

  -- The from_json that takes a text; `parse` is what `>>` extracts from it.
  unfoldable pub map_from_text : (Bytes → Result Value) → Bytes → Result (IntMap (Info d))
  map_from_text parse text = do root ← parse text; map_from_json root

module _ (d : Double) where
  -- The last of the list that has this id.
  abbrev pub last_with : ℤ → List (Info d) → Option (Info d)
  last_with k [] = none
  last_with k (info ∷ infos) = elim (last_with k infos) [
    | some later ↦ some later
    | none ↦ if eqb_ℤ info.id k then some info else none
  ]

  abbrev pub or_out_of_range : Option (Info d) → Result (Info d)
  or_out_of_range none = err out_of_range
  or_out_of_range (some info) = ok info

  abbrev first_of : Option (Info d) → Option (Info d) → Option (Info d)
  first_of (some info) o = some info
  first_of none o = o

  lookup-add_all :
      (k : ℤ) (infos : List (Info d)) (m : IntMap (Info d))
      → lookup k (add_all d infos m) ≡ first_of (last_with k infos) (lookup k m)
  unfolding add_all
  lookup-add_all k [] m = refl
  lookup-add_all k (info ∷ infos) m =
      let e = lookup-insert_or_assign info.id k info m in
      let rest = lookup-add_all k infos (insert_or_assign info.id info m) in ground arith

  first_of-none : (o : Option (Info d)) → first_of o none ≡ o
  first_of-none none = refl
  first_of-none (some info) = refl

  lookup-info_map :
      (k : ℤ) (infos : List (Info d)) → lookup k (info_map d infos) ≡ last_with k infos
  unfolding info_map lookup
  lookup-info_map k infos = lookup-add_all k infos [] ∙ first_of-none (last_with k infos)

  info_at-lookup :
      (k : ℤ) (m : IntMap (Info d)) (o : Option (Info d))
      → lookup k m ≡ o
      → info_at d m k ≡ or_out_of_range o
  unfolding info_at
  info_at-lookup k m none e = rw (info_at, e) refl
  info_at-lookup k m (some info) e = rw (info_at, e) refl

  -- A map that is made of a list has under each id the last of the list with that id; the const
  -- operator[] throws std::out_of_range where there is none.
  pub info_at-info_map :
      (k : ℤ) (infos : List (Info d))
      → info_at d (info_map d infos) k ≡ or_out_of_range (last_with k infos)
  info_at-info_map k infos =
      info_at-lookup k (info_map d infos) (last_with k infos) (lookup-info_map k infos)
