-- ===== src/Robot/Orchestrator/Members.antt =====
-- robot/src/orchestrator.cpp: the members that calls of `Config::set` leave in the configuration.
use p7_kode.Base.{
  ◌≡◌, refl, sym, subst, inl, inr, Bool, false, ◌||◌, Option, some, List, [], ◌∷◌, ◌++◌, map,
  Result, ok, err, All, append_assoc, append-nil, Bool-cases,
}
use p7_kode.Base.Fallible.{Returns, Returns-map}
use p7_kode.Base.Exec
use p7_kode.Base.Exec.{Exec, lift, ◌>>◌}
use p7_kode.Base.Int.{ℤ}
use p7_kode.Base.Text.{Bytes, bytes_eq, bytes_eq_refl}
use p7_kode.Base.Double.{Double}
use p7_kode.Base.Json.{Json}
use p7_kode.Base.JsonLaws.{JsonLaws, updated}
use p7_kode.Base.JsonObjects.{append->>=}
use p7_kode.Robot.Orchestrator.{stored, config_set, append_ints, config_set_vector}

-- The call ends without an exception and leaves a state with the property.
abbrev pub Leaves : {S : Type 0} → (S → Type 0) → Result (Unit {0}) × S → Type 0
Leaves P (ok _, s) = P s
Leaves P (err e, s) = ⊥

pub Leaves->> :
    {S : Type 0} (P Q : S → Type 0) (m k : Exec S (Unit {0})) (s : S)
    → Leaves P (m s)
    → ((s' : S) → P s' → Leaves Q (k s'))
    → Leaves Q ((m >> k) s)
Leaves->> P Q m k s h next = go (m s) h
  where
    go : (r : Result (Unit {0}) × _) → Leaves P r → Leaves Q (Exec.continue (λ _. k) r.0 r.1)
    go (ok u, s') h = next s' h
    go (err e, s') h = absurd h

pub Leaves-map :
    {S : Type 0} (P Q : S → Type 0) (r : Result (Unit {0}) × S)
    → ((s : S) → P s → Q s)
    → Leaves P r
    → Leaves Q r
Leaves-map P Q (ok u, s) next h = next s h
Leaves-map P Q (err e, s) next h = h

module _ (d : Double) (j : Json d) (laws : JsonLaws j) where
  open j use {Value, of_int, set, empty_array, append}
  open laws use {IsObject, IsArray, set-IsObject, empty_array-IsArray}

  -- Keys, each with what is asked of the value under it.
  abbrev pub Wanted : Type 1
  Wanted = List (Bytes × (Value → Type 0))

  abbrev pub HasMember : (Bytes → Option Value) → Bytes × (Value → Type 0) → Type 0
  HasMember f (k, P) = (v : Value) × (f k ≡ some v) × P v

  -- The value is an object with these members.
  pub record Members (wanted : Wanted) (w : Value) : Type 0 where
    pub members : Bytes → Option Value
    pub w-IsObject : IsObject w members
    pub all : All (HasMember members) wanted

  abbrev pub is_key : Bytes → Wanted → Bool
  is_key k [] = false
  is_key k ((l, P) ∷ wanted) = bytes_eq k l || is_key k wanted

  HasMember-updated :
      (f : Bytes → Option Value) (k : Bytes) (v : Value) (wanted : Wanted)
      → is_key k wanted ≡ false
      → All (HasMember f) wanted
      → All (HasMember (updated k v f)) wanted
  HasMember-updated f k v [] e all = tt
  HasMember-updated f k v ((l, P) ∷ wanted) e ((u, m, p), all) = elim (Bool-cases (bytes_eq k l)) [
    | inl b ↦ absurd (let e' = rw b at e in cc)
    | inr b ↦ ((u, rw b m, p), HasMember-updated f k v wanted (rw b at e) all)
  ]

  stored-Leaves :
      (P Q : Value → Type 0) (json : Value) (r : Result Value)
      → ((v : Value) → P v → Q v)
      → Returns P r
      → Leaves Q (stored d j json r)
  stored-Leaves P Q json (ok v) next h = next v h
  stored-Leaves P Q json (err e) next h = h

  config_set-Members :
      (k : Bytes) (P : Value → Type 0) (v w : Value) (wanted : Wanted)
      → is_key k wanted ≡ false
      → P v
      → Members wanted w
      → Leaves (Members ((k, P) ∷ wanted)) (config_set d j k v w)
  unfolding config_set
  config_set-Members k P v w wanted e p h =
      let f = updated k v h.members in
      stored-Leaves (λ w'. IsObject w' f) (Members ((k, P) ∷ wanted)) w (set k v w)
        (λ w' h'. record {
          members = f;
          w-IsObject = h';
          all = (
            (v, (let b = bytes_eq_refl k in rw b refl), p),
            HasMember-updated h.members k v wanted e h.all,
          );
        })
        (set-IsObject k v w h.members h.w-IsObject)

  -- A value that is computed first.
  lift-Members :
      (k : Bytes) (P : Value → Type 0) (r : Result Value) (w : Value) (wanted : Wanted)
      → is_key k wanted ≡ false
      → Returns P r
      → Members wanted w
      → Leaves (Members ((k, P) ∷ wanted)) (Exec.◌>>=◌ (lift r) (config_set d j k) w)
  lift-Members k P (ok v) w wanted e p h = config_set-Members k P v w wanted e p h
  lift-Members k P (err x) w wanted e p h = absurd p

  append_ints-IsArray :
      (zs : List ℤ) (vs : List Value) (arr : Value)
      → IsArray arr vs
      → Returns (λ w. IsArray w (vs ++ map of_int zs)) (append_ints d j zs arr)
  unfolding append_ints
  append_ints-IsArray [] vs arr h = subst (IsArray arr) (sym (append-nil vs)) h
  append_ints-IsArray (z ∷ zs) vs arr h =
      append->>= laws (λ w. IsArray w (vs ++ map of_int (z ∷ zs))) (of_int z) arr vs
        (append_ints d j zs) h
        (λ arr' h'.
          Returns-map (λ w. IsArray w ((vs ++ of_int z ∷ []) ++ map of_int zs)) _
            (append_ints d j zs arr')
            (λ w. subst (IsArray w) (append_assoc vs (of_int z ∷ []) (map of_int zs)))
            (append_ints-IsArray zs (vs ++ of_int z ∷ []) arr' h'))

  -- An array of these ints.
  abbrev pub IsInts : List ℤ → Value → Type 0
  IsInts zs v = IsArray v (map of_int zs)

  config_set_vector-Members :
      (k : Bytes) (zs : List ℤ) (w : Value) (wanted : Wanted)
      → is_key k wanted ≡ false
      → Members wanted w
      → Leaves (Members ((k, IsInts zs) ∷ wanted)) (config_set_vector d j k zs w)
  unfolding config_set_vector
  config_set_vector-Members k zs w wanted e h =
      lift-Members k (IsInts zs) (append_ints d j zs empty_array) w wanted e
        (append_ints-IsArray zs [] empty_array empty_array-IsArray) h

  -- Code that ends without an exception, and that leaves the members `to` where there are those of `from`.
  pub record Writes (from to : Wanted) (m : Exec Value (Unit {0})) : Type 0 where
    pub run : (w : Value) → Members from w → Leaves (Members to) (m w)

  pub Writes->> :
      {from between to : Wanted} {m k : Exec Value (Unit {0})}
      → Writes from between m
      → Writes between to k
      → Writes from to (m >> k)
  Writes->> {from} {between} {to} {m} {k} h next = record {
    run = λ w hw. Leaves->> (Members between) (Members to) m k w (h.run w hw) next.run;
  }

  pub config_set-Writes :
      (k : Bytes) (P : Value → Type 0) (v : Value) (wanted : Wanted)
      → is_key k wanted ≡ false
      → P v
      → Writes wanted ((k, P) ∷ wanted) (config_set d j k v)
  config_set-Writes k P v wanted e p = record { run = λ w. config_set-Members k P v w wanted e p }

  pub lift-Writes :
      (k : Bytes) (P : Value → Type 0) (r : Result Value) (wanted : Wanted)
      → is_key k wanted ≡ false
      → Returns P r
      → Writes wanted ((k, P) ∷ wanted) (Exec.◌>>=◌ (lift r) (config_set d j k))
  lift-Writes k P r wanted e p = record { run = λ w. lift-Members k P r w wanted e p }

  pub config_set_vector-Writes :
      (k : Bytes) (zs : List ℤ) (wanted : Wanted)
      → is_key k wanted ≡ false
      → Writes wanted ((k, IsInts zs) ∷ wanted) (config_set_vector d j k zs)
  config_set_vector-Writes k zs wanted e = record {
    run = λ w. config_set_vector-Members k zs w wanted e;
  }
