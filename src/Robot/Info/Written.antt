-- ===== src/Robot/Info/Written.antt =====
-- robot/src/info.cpp: what `Info::to_json` writes.
use p7_kode.Base.{
  ◌≡◌, refl, sym, subst, ◌∙◌, false, Option, none, some, List, [], ◌∷◌, ◌++◌, Result, Each,
  append_assoc, append-nil,
}
use p7_kode.Base.Fallible.{◌>>=◌, Returns, Returns->>=, Returns-map}
use p7_kode.Base.Text.{Bytes, codes, bytes_eq, bytes_eq_refl}
use p7_kode.Base.Double.{Double}
use p7_kode.Base.Json.{Json}
use p7_kode.Base.JsonLaws.{JsonLaws, updated, or_else}
use p7_kode.Base.JsonObjects.{set->>=, append->>=, get-some}
use p7_kode.Robot.Info.{Info, eta_or_null, set_in, append_in, append_all}

module _ (d : Double) (j : Json d) (laws : JsonLaws j) where
  open j use {Value, of_int, of_double, null, empty_array, set, append, get}
  open laws use {
    IsObject, IsArray, get-IsObject, set-IsObject, append-IsArray, null-IsObject,
    empty_array-IsArray,
  }

  -- After the loop over `as` the member has the elements that it had and one for each of `as`, and
  -- the other members are as before.
  pub record Appended {A : Type 0} (R : A → Value → Type 0) (key : Bytes) (vs : List Value)
      (as' : List A) (f : Bytes → Option Value) (w : Value) : Type 0 where
    pub members : Bytes → Option Value
    pub w-IsObject : IsObject w members
    pub arr : Value
    pub arr_member : members key ≡ some arr
    pub written : List Value
    pub arr-IsArray : IsArray arr (vs ++ written)
    pub written-Each : Each R as' written
    pub others : (l : Bytes) → bytes_eq key l ≡ false → members l ≡ f l

  -- An array member with one element more.
  abbrev AppendedOne : Bytes → Value → List Value → (Bytes → Option Value) → Value → Type 0
  AppendedOne key v vs f w =
      (arr : Value) × IsObject w (updated key arr f) × IsArray arr (vs ++ v ∷ [])

  append_in-AppendedOne :
      (key : Bytes) (v w arr : Value) (vs : List Value) (f : Bytes → Option Value)
      → IsObject w f
      → f key ≡ some arr
      → IsArray arr vs
      → Returns (AppendedOne key v vs f) (append_in d j key v w)
  unfolding append_in
  append_in-AppendedOne key v w arr vs f h e ha =
      rw (append_in, get-some laws w arr f key h e)
        (append->>= laws (AppendedOne key v vs f) v arr vs (λ inner. set key inner w) ha
          (λ arr' ha'.
            Returns-map (λ w'. IsObject w' (updated key arr' f)) (AppendedOne key v vs f)
              (set key arr' w) (λ w' h'. (arr', h', ha')) (set-IsObject key arr' w f h)))

  append_one :
      {A : Type 0} (R : A → Value → Type 0) (key : Bytes) (v arr : Value) (vs : List Value) (a : A)
      (rest : List A) (f : Bytes → Option Value) (w : Value)
      → R a v
      → Appended R key (vs ++ v ∷ []) rest (updated key arr f) w
      → Appended R key vs (a ∷ rest) f w
  append_one R key v arr vs a rest f w r q = record {
    members = q.members;
    w-IsObject = q.w-IsObject;
    arr = q.arr;
    arr_member = q.arr_member;
    written = v ∷ q.written;
    arr-IsArray = subst (IsArray q.arr) (append_assoc vs (v ∷ []) q.written) q.arr-IsArray;
    written-Each = (r, q.written-Each);
    others = λ l n. q.others l n ∙ rw n refl;
  }

  pub append_all-Appended :
      {A : Type 0} (R : A → Value → Type 0) (key : Bytes) (make : A → Result Value) (as' : List A)
      (w arr : Value) (vs : List Value) (f : Bytes → Option Value)
      → ((a : A) → Returns (R a) (make a))
      → IsObject w f
      → f key ≡ some arr
      → IsArray arr vs
      → Returns (Appended R key vs as' f) (append_all d j key make as' w)
  unfolding append_all
  append_all-Appended R key make [] w arr vs f each h e ha = record {
    members = f;
    w-IsObject = h;
    arr = arr;
    arr_member = e;
    written = [];
    arr-IsArray = subst (IsArray arr) (sym (append-nil vs)) ha;
    written-Each = tt;
    others = λ l n. refl;
  }
  append_all-Appended R key make (a ∷ rest) w arr vs f each h e ha =
      let Goal : Value → Type 0 = Appended R key vs (a ∷ rest) f in
      Returns->>= (R a) Goal (make a) _ (each a) (λ v r.
        Returns->>= (AppendedOne key v vs f) Goal (append_in d j key v w)
          (append_all d j key make rest) (append_in-AppendedOne key v w arr vs f h e ha)
          (λ w' (arr', h', ha').
            let f' = updated key arr' f in
            Returns-map (Appended R key (vs ++ v ∷ []) rest f') Goal
              (append_all d j key make rest w') (λ w2. append_one R key v arr' vs a rest f w2 r)
              (append_all-Appended R key make rest w' arr' (vs ++ v ∷ []) f' each h'
                (let b = bytes_eq_refl key in rw b refl) ha')))

  -- The members that are written before the plans.
  pub record Located (info : Info d) (w : Value) : Type 0 where
    pub members : Bytes → Option Value
    pub w-IsObject : IsObject w members
    pub id : members (codes "id") ≡ some (of_int info.id)
    pub eta : members (codes "eta") ≡ some (of_double (eta_or_null d info.eta))
    pub point : Value
    pub location : members (codes "location") ≡ some point
    pub point_members : Bytes → Option Value
    pub point-IsObject : IsObject point point_members
    pub x : point_members (codes "x") ≡ some (of_double info.location.x)
    pub y : point_members (codes "y") ≡ some (of_double info.location.y)

  set_in->>= :
      {B : Type 0} (Q : B → Type 0) (key1 key2 : Bytes) (v w : Value) (f g : Bytes → Option Value)
      (rest : Value → Result B)
      → IsObject w f
      → IsObject (or_else null (f key1)) g
      → ((w' inner : Value)
          → IsObject w' (updated key1 inner f)
          → IsObject inner (updated key2 v g)
          → Returns Q (rest w'))
      → Returns Q (set_in d j key1 key2 v w >>= rest)
  unfolding set_in
  set_in->>= Q key1 key2 v w f g rest h hi next =
      let Pair : Value → Type 0 = λ w'.
        (inner : Value) × IsObject w' (updated key1 inner f) × IsObject inner (updated key2 v g) in
      Returns->>= Pair Q (set_in d j key1 key2 v w) rest
        (rw (set_in, get-IsObject w f key1 h)
          (set->>= laws Pair key2 v (or_else null (f key1)) g (λ inner. set key1 inner w) hi
            (λ inner hi'.
              Returns-map (λ w'. IsObject w' (updated key1 inner f)) Pair (set key1 inner w)
                (λ w' h'. (inner, h', hi')) (set-IsObject key1 inner w f h))))
        (λ w' (inner, h', hi'). next w' inner h' hi')

  pub located->>= :
      (Q : Value → Type 0) (info : Info d) (rest : Value → Result Value)
      → ((w : Value) → Located info w → Returns Q (rest w))
      → Returns Q (do
        json1 ← set (codes "id") (of_int info.id) null
        json2 ← set (codes "eta") (of_double (eta_or_null d info.eta)) json1
        json3 ← set_in d j (codes "location") (codes "x") (of_double info.location.x) json2
        json4 ← set_in d j (codes "location") (codes "y") (of_double info.location.y) json3
        rest json4)
  located->>= Q info rest next =
      let x = of_double info.location.x in
      let y = of_double info.location.y in
      let f0 : Bytes → Option Value = λ k. none in
      let f1 = updated (codes "id") (of_int info.id) f0 in
      let f2 = updated (codes "eta") (of_double (eta_or_null d info.eta)) f1 in
      let g = updated (codes "x") x f0 in
      set->>= laws Q (codes "id") (of_int info.id) null f0 _ null-IsObject (λ w1 h1.
        set->>= laws Q (codes "eta") (of_double (eta_or_null d info.eta)) w1 f1 _ h1 (λ w2 h2.
          set_in->>= Q (codes "location") (codes "x") x w2 f2 f0 _ h2 null-IsObject (λ w3 p3 h3 i3.
            set_in->>= Q (codes "location") (codes "y") y w3 (updated (codes "location") p3 f2) g
              rest h3 i3
              (λ w4 p4 h4 i4. next w4 (record {
                members = updated (codes "location") p4 (updated (codes "location") p3 f2);
                w-IsObject = h4;
                id = refl;
                eta = refl;
                point = p4;
                location = refl;
                point_members = updated (codes "y") y g;
                point-IsObject = i4;
                x = refl;
                y = refl;
              })))))
