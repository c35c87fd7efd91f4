-- ===== src/Base/JsonObjects.antt =====
-- Json::Value: code that assigns a member and goes on, and code that finds a member and reads it.
use mathlib.Core.Path.{◌≡◌, refl}
use mathlib.Core.Bool.{true}
use mathlib.Core.Option.{Option, some}
use mathlib.Core.List.{List, [], ◌∷◌, ◌++◌}
use p7_kode.Base.Errors.{Result, ok}
use p7_kode.Base.Fallible.{◌>>=◌, Returns, Returns->>=}
use p7_kode.Base.Text.{Bytes}
use p7_kode.Base.Double.{Double}
use p7_kode.Base.Json.{Json}
use p7_kode.Base.JsonLaws.{JsonLaws, updated}

module _ {d : Double} {j : Json d} (laws : JsonLaws j) where
  open j use {Value, get, is_member, null, set, append}
  open laws use {IsObject, IsArray, get-IsObject, is_member-IsObject, set-IsObject, append-IsArray}

  -- json[k] = v; rest
  pub set->>= :
      {B : Type 0} (Q : B → Type 0) (k : Bytes) (v w : Value) (f : Bytes → Option Value)
      (rest : Value → Result B)
      → IsObject w f
      → ((w' : Value) → IsObject w' (updated k v f) → Returns Q (rest w'))
      → Returns Q (set k v w >>= rest)
  set->>= Q k v w f rest h next =
      Returns->>= (λ w'. IsObject w' (updated k v f)) Q (set k v w) rest (set-IsObject k v w f h)
        next

  pub append->>= :
      {B : Type 0} (Q : B → Type 0) (v w : Value) (vs : List Value) (rest : Value → Result B)
      → IsArray w vs
      → ((w' : Value) → IsArray w' (vs ++ v ∷ []) → Returns Q (rest w'))
      → Returns Q (append w v >>= rest)
  append->>= Q v w vs rest h next =
      Returns->>= (λ w'. IsArray w' (vs ++ v ∷ [])) Q (append w v) rest (append-IsArray v w vs h)
        next

  pub get-some :
      (w v : Value) (f : Bytes → Option Value) (k : Bytes)
      → IsObject w f
      → f k ≡ some v
      → get w k ≡ ok v
  get-some w v f k h e = rw (get-IsObject w f k h, e) refl

  pub is_member-some :
      (w v : Value) (f : Bytes → Option Value) (k : Bytes)
      → IsObject w f
      → f k ≡ some v
      → is_member w k ≡ ok true
  is_member-some w v f k h e = rw (is_member-IsObject w f k h, e) refl

  -- A member is found and read.
  pub get-member :
      {A : Type 0} (read : Value → Result A) (w v : Value) (f : Bytes → Option Value) (k : Bytes)
      (r : Result A)
      → IsObject w f
      → f k ≡ some v
      → read v ≡ r
      → (do found ← get w k; read found) ≡ r
  get-member read w v f k r h e q = rw (get-some w v f k h e) q
