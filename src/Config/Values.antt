-- ===== src/Config/Values.antt =====
-- config/src/config.cpp: `Config`. A Config is its field `json`.
use p7_kode.Base.{
  Bool, true, false, List, [], ◌∷◌, ◌||◌, Result, ok, err, invalid_key, invalid_value,
  file_not_opened, read_exception, if◌then◌else◌,
}
use p7_kode.Base.Fallible.{◌>>=◌}
use p7_kode.Base.Int.{ℤ, pos}
use p7_kode.Base.Text.{Bytes, codes}
use p7_kode.Base.Double.{Double}
use p7_kode.Base.Json.{Json}

-- The loops that push back what `f` makes of each element.
unfoldable pub convert_all : {A B : Type 0} → (A → Result B) → List A → Result (List B)
convert_all f [] = ok []
convert_all f (a ∷ rest) = do b ← f a; bs ← convert_all f rest; ok (b ∷ bs)

abbrev pub Action : Type 0
Action = Bytes × ℤ

module _ (d : Double) (j : Json d) where
  open d use {Carrier}
  open j use {
    Value, is_array, is_object, is_member, get, as_int, as_double, as_string, elements, size,
  }

  unfoldable pub vector_from_json : Value → Result (List ℤ)
  vector_from_json arr =
      if is_array arr then convert_all as_int (elements arr) else err (invalid_value [])

  unfoldable pub matrix_from_json : Value → Result (List (List ℤ))
  matrix_from_json arr =
      if is_array arr then convert_all vector_from_json (elements arr) else err (invalid_value [])

  -- json[key], behind the test of isMember.
  unfoldable pub member : Value → Bytes → Result Value
  member json key = do
    found ← is_member json key
    if found then get json key else err (invalid_key key)

  unfoldable pub get_int : Value → Bytes → Result ℤ
  get_int json key = do value ← member json key; as_int value

  unfoldable pub get_double : Value → Bytes → Result Carrier
  get_double json key = do value ← member json key; as_double value

  unfoldable pub get_vector : Value → Bytes → Result (List ℤ)
  get_vector json key = do value ← member json key; vector_from_json value

  unfoldable pub get_matrix : Value → Bytes → Result (List (List ℤ))
  get_matrix json key = do value ← member json key; matrix_from_json value

  -- level1[key2], behind its tests.
  unfoldable pub level2 : Bytes → Value → Result Value
  level2 key level1 = if is_object level1 then member level1 key else err (invalid_value [])

  unfoldable pub container : Value → Result (List Value)
  container value =
      if is_object value || is_array value then ok (elements value) else err (invalid_value [])

  unfoldable pub int_row : Bytes → Value → Result (List ℤ)
  int_row key level1 = do
    value ← level2 key level1
    elems ← container value
    convert_all as_int elems

  unfoldable pub get_rows : Value → Bytes → Bytes → Result (List (List ℤ))
  get_rows json key1 key2 = do value ← member json key1; convert_all (int_row key2) (elements value)

  unfoldable pub double_of : Bytes → Value → Result Carrier
  double_of key level1 = do value ← level2 key level1; as_double value

  unfoldable pub get_doubles : Value → Bytes → Bytes → Result (List Carrier)
  get_doubles json key1 key2 = do
    value ← member json key1
    convert_all (double_of key2) (elements value)

  unfoldable pub action_of : Value → Result Action
  action_of elem = do
    type_value ← get elem (codes "type")
    type_name ← as_string type_value
    value ← get elem (codes "value")
    number ← as_int value
    ok (type_name, number)

  unfoldable pub action_row : Bytes → Value → Result (List Action)
  action_row key level1 = do
    value ← level2 key level1
    elems ← container value
    convert_all action_of elems

  unfoldable pub get_plans : Value → Bytes → Bytes → Result (List (List Action))
  get_plans json key1 key2 = do
    value ← member json key1
    convert_all (action_row key2) (elements value)

  unfoldable pub get_size : Value → Bytes → Result ℤ
  get_size json key = do
    value ← member json key
    if is_array value || is_object value then ok (pos (size value)) else err (invalid_value key)

  -- A file as std::ifstream and the parser find it: not open, or what `>>` leaves in the value, and how
  -- it ends: with an exception, or with the stream failed or not.
  pub data File : Type 0 where
    not_open : File
    extracted : Value → Result Bool → File

  -- load_from_file: what becomes of the value, and how the call ends.
  unfoldable pub load_from_file : File → Bytes → Value → Result (Unit {0}) × Value
  load_from_file not_open path json = (err (file_not_opened path), json)
  load_from_file (extracted value (ok false)) path json = (ok tt, value)
  load_from_file (extracted value (ok true)) path json = (err read_exception, value)
  load_from_file (extracted value (err e)) path json = (err e, value)
