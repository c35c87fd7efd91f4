-- ===== src/Robot/Orchestrator/Rows.antt =====
-- robot/src/orchestrator.cpp: the arrays that the loops over the waypoints fill.
use p7_kode.Base.{
  ℕ, zero, suc, ◌<◌, ◌≡◌, refl, sym, subst, Bool, true, false, List, [], ◌∷◌, ◌++◌, Result, ok,
  Each, Each-append, append-nil, if◌then◌else◌, arith,
}
use p7_kode.Base.Fallible.{◌>>=◌, Returns, Returns->>=, Returns-map}
use p7_kode.Base.Int.{pos}
use p7_kode.Base.Double.{Double}
use p7_kode.Base.Json.{Json}
use p7_kode.Base.JsonLaws.{JsonLaws}
use p7_kode.Wbt.World.{Waypoint, Ast}
use p7_kode.Wbt.Apsp.{at_key, for_up}
use p7_kode.Robot.Orchestrator.{append_row, is_station, if_station}

abbrev pub picked : (ℕ → Bool) → ℕ → List ℕ
picked test i = if test i then i ∷ [] else []

-- The numbers below n that pass the test.
abbrev pub chosen : (ℕ → Bool) → ℕ → List ℕ
chosen test zero = []
chosen test (suc n) = chosen test n ++ picked test n

module _ (d : Double) (j : Json d) (laws : JsonLaws j) where
  open j use {Value, of_double, empty_array, append}
  open laws use {IsArray, append-IsArray, empty_array-IsArray}

  -- An array with an element for each of the numbers.
  abbrev pub IsRow : (ℕ → Value → Type 0) → List ℕ → Value → Type 0
  IsRow R is w = (us : List Value) × IsArray w us × Each R is us

  abbrev Extended : (ℕ → Value → Type 0) → List ℕ → List Value → Value → Type 0
  Extended R is vs w = (us : List Value) × IsArray w (vs ++ us) × Each R is us

  -- A round appends an element for its number if it passes the test, and nothing if not.
  abbrev pub Appends : (ℕ → Value → Type 0) → (ℕ → Bool) → ℕ → (ℕ → Value → Result Value) → Type 0
  Appends R test n body =
      (i : ℕ)
      → i < n
      → (arr : Value) (vs : List Value) → IsArray arr vs
      → Returns (Extended R (picked test i) vs) (body i arr)

  pub for_up-IsRow :
      (R : ℕ → Value → Type 0) (test : ℕ → Bool) (n : ℕ) (body : ℕ → Value → Result Value)
      → Appends R test n body
      → Returns (IsRow R (chosen test n)) (for_up n body empty_array)
  unfolding for_up
  for_up-IsRow R test zero body h = ([], empty_array-IsArray, tt)
  for_up-IsRow R test (suc n) body h =
      Returns->>= (IsRow R (chosen test n)) (IsRow R (chosen test (suc n)))
        (for_up n body empty_array) (body n)
        (for_up-IsRow R test n body (λ i hi. h i (omega arith)))
        (λ arr (us, ha, e).
          Returns-map (Extended R (picked test n) us) (IsRow R (chosen test (suc n))) (body n arr)
            (λ w (vs, hw, e').
              (us ++ vs, hw, Each-append R (chosen test n) us (picked test n) vs e e'))
            (h n (omega arith) arr us ha))

  append-Extended :
      (R : ℕ → Value → Type 0) (i : ℕ) (v arr : Value) (vs : List Value)
      → R i v
      → IsArray arr vs
      → Returns (Extended R (i ∷ []) vs) (append arr v)
  append-Extended R i v arr vs r h =
      Returns-map (λ w. IsArray w (vs ++ v ∷ [])) (Extended R (i ∷ []) vs) (append arr v)
        (λ w h'. (v ∷ [], h', (r, tt))) (append-IsArray v arr vs h)

  -- append(matrix.at(i).at(j)), where there is such an entry.
  pub append-Appends :
      (f : ℕ → d.Carrier) (n : ℕ) (value : ℕ → Result d.Carrier)
      → ((i : ℕ) → i < n → value i ≡ ok (f i))
      → Appends
          (λ i u. u ≡ of_double (f i))
          (λ i. true)
          n
          (λ i arr. do distance ← value i; append arr (of_double distance))
  append-Appends f n value h i hi arr vs ha =
      rw (h i hi) (append-Extended (λ i u. u ≡ of_double (f i)) i (of_double (f i)) arr vs refl ha)

  pub append_row-Appends :
      (R : ℕ → ℕ → Value → Type 0) (test : ℕ → Bool) (n : ℕ) (body : ℕ → ℕ → Value → Result Value)
      → ((i : ℕ) → i < n → Appends (R i) test n (body i))
      → Appends (λ i. IsRow (R i) (chosen test n)) (λ i. true) n (λ i. append_row d j n (body i))
  append_row-Appends R test n body h i hi arr vs ha =
      Returns->>= (IsRow (R i) (chosen test n))
        (Extended (λ i. IsRow (R i) (chosen test n)) (i ∷ []) vs) (for_up n (body i) empty_array)
        (append arr) (for_up-IsRow (R i) test n (body i) (h i hi))
        (λ row hr. append-Extended (λ i. IsRow (R i) (chosen test n)) i row arr vs hr ha)

  pub if_station-Appends :
      (R : ℕ → Value → Type 0) (n : ℕ) (nodes : Ast d) (point : ℕ → Waypoint d)
      (body : ℕ → Value → Result Value)
      → ((i : ℕ) → i < n → at_key nodes (pos i) ≡ ok (point i))
      → Appends R (λ i. true) n body
      → Appends R (λ i. is_station (point i).waypoint_type) n (λ i. if_station d j nodes i (body i))
  if_station-Appends R n nodes point body found h i hi arr vs ha =
      rw (found i hi) (go (is_station (point i).waypoint_type))
    where
      go :
          (b : Bool)
          → Returns (Extended R (if b then i ∷ [] else []) vs) (if b then body i arr else ok arr)
      go true = h i hi arr vs ha
      go false = ([], subst (IsArray arr) (sym (append-nil vs)) ha, tt)
