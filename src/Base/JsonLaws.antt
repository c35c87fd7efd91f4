-- ===== src/Base/JsonLaws.antt =====
-- What the program relies on in Json::Value, as hypotheses: which members an object has, which elements
-- an array has, and that an int or a string comes back from the value made of it.
use Prim.Native.Nat.{ℕ, suc}
use mathlib.Core.Path.{◌≡◌}
use mathlib.Core.Bool.{Bool, true, false}
use mathlib.Core.Option.{Option, none, some}
use mathlib.Core.List.{List, [], ◌∷◌, ◌++◌}
use p7_kode.Base.Tests.{if◌then◌else◌}
use p7_kode.Base.Errors.{ok}
use p7_kode.Base.Fallible.{Returns}
use p7_kode.Base.Lists.{get_elem?}
use p7_kode.Base.Int.{ℤ, pos, InInt}
use p7_kode.Base.Text.{Bytes, bytes_eq}
use p7_kode.Base.Double.{Double}
use p7_kode.Base.Json.{Json}

-- Whether there is a member.
abbrev pub is_some : {A : Type 0} → Option A → Bool
is_some none = false
is_some (some a) = true

abbrev pub or_else : {A : Type 0} → A → Option A → A
or_else a none = a
or_else a (some b) = b

-- The members after an assignment.
abbrev pub updated : {V : Type 0} → Bytes → V → (Bytes → Option V) → Bytes → Option V
updated k v f l = if bytes_eq k l then some v else f l

-- The keys of an array of n elements, from i.
abbrev pub indices : {V : Type 0} → (ℤ → V) → ℕ → List V → List V
indices of i [] = []
indices of i (v ∷ vs) = of (pos i) ∷ indices of (suc i) vs

pub record JsonLaws {d : Double} (j : Json d) : Type 1 where
  -- A value that is null or an object with these members; an array of these elements.
  pub IsObject : j.Value → (Bytes → Option j.Value) → Type 0
  pub IsArray : j.Value → List j.Value → Type 0
  pub null-IsObject : IsObject j.null (λ k. none)
  pub empty_object-IsObject : IsObject j.empty_object (λ k. none)
  pub empty_array-IsArray : IsArray j.empty_array []
  pub set-IsObject :
      (k : Bytes) (v w : j.Value) (f : Bytes → Option j.Value)
      → IsObject w f
      → Returns (λ w'. IsObject w' (updated k v f)) (j.set k v w)
  pub is_member-IsObject :
      (w : j.Value) (f : Bytes → Option j.Value) (k : Bytes)
      → IsObject w f
      → j.is_member w k ≡ ok (is_some (f k))
  pub get-IsObject :
      (w : j.Value) (f : Bytes → Option j.Value) (k : Bytes)
      → IsObject w f
      → j.get w k ≡ ok (or_else j.null (f k))
  pub append-IsArray :
      (v w : j.Value) (vs : List j.Value)
      → IsArray w vs
      → Returns (λ w'. IsArray w' (vs ++ v ∷ [])) (j.append w v)
  pub is_array-IsArray : (w : j.Value) (vs : List j.Value) → IsArray w vs → j.is_array w ≡ true
  pub elements-IsArray : (w : j.Value) (vs : List j.Value) → IsArray w vs → j.elements w ≡ vs
  pub keys-IsArray :
      (w : j.Value) (vs : List j.Value) → IsArray w vs → j.keys w ≡ indices j.of_int 0 vs
  pub get_index-IsArray :
      (w : j.Value) (vs : List j.Value) (i : ℕ) (v : j.Value)
      → IsArray w vs
      → get_elem? vs i ≡ some v
      → j.get_index w (pos i) ≡ ok v
  pub as_int-of_int : (z : ℤ) → InInt z → j.as_int (j.of_int z) ≡ ok z
  pub as_double-of_double : (r : d.Carrier) → j.as_double (j.of_double r) ≡ ok r
  pub as_string-of_string : (s : Bytes) → j.as_string (j.of_string s) ≡ ok s
