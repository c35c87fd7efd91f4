-- ===== src/Base/Json.antt =====
-- Json::Value of jsoncpp, as a parameter: the operations that the program calls, on values that do not
-- change. A call that throws a Json::Exception returns `err`.
use mathlib.Core.Bool.{Bool}
use mathlib.Core.List.{List}
use Prim.Native.Nat.{ℕ}
use p7_kode.Base.Errors.{Result}
use p7_kode.Base.Int.{ℤ}
use p7_kode.Base.Text.{Bytes}
use p7_kode.Base.Double.{Double}

pub record Json (d : Double) : Type 1 where
  pub Value : Type 0
  pub null : Value
  -- Json::Value{Json::arrayValue}, Json::Value{Json::objectValue}
  pub empty_array : Value
  pub empty_object : Value
  pub of_int : ℤ → Value
  pub of_double : d.Carrier → Value
  pub of_string : Bytes → Value
  pub is_array : Value → Bool
  pub is_object : Value → Bool
  -- v.isMember(key), v[key], v[index]
  pub is_member : Value → Bytes → Result Bool
  pub get : Value → Bytes → Result Value
  pub get_index : Value → ℤ → Result Value
  pub as_int : Value → Result ℤ
  pub as_double : Value → Result d.Carrier
  pub as_string : Value → Result Bytes
  -- The values from v.begin() to v.end(), and what key() is on the way.
  pub elements : Value → List Value
  pub keys : Value → List Value
  pub size : Value → ℕ
  -- v[key] = w, v.append(w)
  pub set : Bytes → Value → Value → Result Value
  pub append : Value → Value → Result Value
