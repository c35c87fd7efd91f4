-- ===== src/Wbt/Apsp/Graph.antt =====
-- wbt-translator/src/apsp.cpp: the loops before the rounds, on waypoints numbered from 0.
use p7_kode.Base.{
  ℕ, ◌<◌, ◌≡◌, refl, ap, ◌∙◌, inl, inr, Bool, true, false, ◌&&◌, ◌||◌, none, some, [], ◌∷◌, ok,
  if◌then◌else◌, Bool-cases, Option-cases, length, All,
}
use p7_kode.Base.Int.{ℤ, pos, negsuc, eqb_ℤ, eqb_ℤ_iff}
use p7_kode.Base.IntMap.{IntMap, lookup, insert, lookup-insert}
use p7_kode.Base.Double.{Double}
use p7_kode.Wbt.World.{Waypoint, Ast}
use p7_kode.Wbt.Apsp.{at_key, ApspResult, full_row, initialise}
use p7_kode.Wbt.Apsp.Cells.{Tables, Represents}

module _ {V : Type 0} where
  abbrev pub is_listed : IntMap V → ℕ → Bool
  is_listed nodes a = elim (lookup (pos a) nodes) [ none ↦ false | some v ↦ true ]

  lookup-insert_old :
      (k j : ℤ) (v u : V) (m : IntMap V) → lookup j m ≡ some u → lookup j (insert k v m) ≡ some u
  unfolding insert
  lookup-insert_old k j v u m h = elim (Option-cases (lookup k m)) [
    | inl e ↦ elim (Bool-cases (eqb_ℤ k j)) [
      | inl e' ↦ absurd (let f = rw ((eqb_ℤ_iff k j).0 e') at e in cc)
      | inr e' ↦ lookup-insert k j v m e ∙ rw e' h
    ]
    | inr (w, e) ↦ rw (insert, e) h
  ]

  pub at_key-lookup : (m : IntMap V) (k : ℤ) (v : V) → lookup k m ≡ some v → at_key m k ≡ ok v
  at_key-lookup m k v e = rw (at_key, e) refl

  pub is_listed-cons :
      (k : ℤ) (v : V) (m : IntMap V) (a : ℕ)
      → is_listed ((k, v) ∷ m) a ≡ (eqb_ℤ k (pos a) || is_listed m a)
  unfolding lookup
  is_listed-cons k v m a = elim (Bool-cases (eqb_ℤ k (pos a))) [
    | inl e ↦ rw (is_listed, e) refl
    | inr e ↦ rw (is_listed, e) refl
  ]

  pub merge_listed :
      (p l c c' : Bool) (v t : V)
      → (p ≡ true → c' ≡ c)
      → (if l && c then v else if c' && p then v else t) ≡ (if (p || l) && c then v else t)
  merge_listed true l c c' v t h = rw (h refl) (go l c)
    where
      go : (l c : Bool) → (if l && c then v else if c && true then v else t) ≡ (if c then v else t)
      go true true = refl
      go true false = refl
      go false true = refl
      go false false = refl
  merge_listed false true true true v t h = refl
  merge_listed false true true false v t h = refl
  merge_listed false true false true v t h = refl
  merge_listed false true false false v t h = refl
  merge_listed false false c true v t h = refl
  merge_listed false false c false v t h = refl

  pub merge_self :
      (p q l e : Bool) (v v' t : V)
      → (p ≡ true → (q ≡ e) × (v' ≡ v))
      → (if l && e then v else if p && q then v' else t) ≡ (if (p || l) && e then v else t)
  merge_self true q l e v v' t h = rw ((h refl).0, (h refl).1) (go l e)
    where
      go : (l e : Bool) → (if l && e then v else if e then v else t) ≡ (if e then v else t)
      go true true = refl
      go true false = refl
      go false e = refl
  merge_self false q l e v v' t h = refl

  -- Two tests with their values, the second on top.
  pub merge :
      (p q r : Bool) (v' v t : V)
      → (p ≡ true → q ≡ true → v' ≡ v)
      → (if r && p then v else if p && q then v' else t) ≡ (if (q || r) && p then v else t)
  merge true true true v' v t h = refl
  merge true true false v' v t h = h refl refl
  merge true false true v' v t h = refl
  merge true false false v' v t h = refl
  merge false true true v' v t h = refl
  merge false true false v' v t h = refl
  merge false false true v' v t h = refl
  merge false false false v' v t h = refl

module _ (d : Double) where
  open d use {Carrier, of_int, dbl_max}

  -- An entry of the map of waypoints: its key is a number below `n`, the id of its waypoint.
  abbrev pub IsNode : ℕ → (ℕ → Waypoint d) → ℤ × Waypoint d → Type 0
  IsNode n point node = (i : ℕ) × (i < n) × (node.0 ≡ pos i) × (node.1 ≡ point i)

  abbrev pub IsBelow : ℕ → ℤ → Type 0
  IsBelow n id = (i : ℕ) × (i < n) × (id ≡ pos i)

  -- The ids of the waypoints are 0 up to n - 1, with n their number, and so are those they are next to.
  pub record IsNumbered (nodes : Ast d) : Type 0 where
    pub point : ℕ → Waypoint d
    pub listed : All (IsNode (length nodes) point) nodes
    pub found : (i : ℕ) → i < length nodes → lookup (pos i) nodes ≡ some (point i)
    pub ids : (i : ℕ) → i < length nodes → (point i).id ≡ pos i
    pub adjacent : (i : ℕ) → i < length nodes → All (IsBelow (length nodes)) (point i).adjlist

  -- The table with the entries that the test picks replaced.
  abbrev pub overlay :
      (ℕ → ℕ → Bool) → (ℕ → ℕ → Carrier) → (ℕ → ℕ → ℤ) → Tables Carrier → Tables Carrier
  overlay test dist next t = record {
    dist = λ a b. if test a b then dist a b else t.dist a b;
    next = λ a b. if test a b then next a b else t.next a b;
  }

  abbrev pub blank : Tables Carrier
  blank = record { dist = λ a b. dbl_max; next = λ a b. negsuc 0 }

  pub Represents-eq :
      (n : ℕ) (r : ApspResult d) (t u : Tables Carrier)
      → Represents d n r t
      → ((a b : ℕ) → a < n → b < n → t.dist a b ≡ u.dist a b)
      → ((a b : ℕ) → a < n → b < n → t.next a b ≡ u.next a b)
      → Represents d n r u
  Represents-eq n r t u h e f = record {
    dist_shown = λ a b ha hb. h.dist_shown a b ha hb ∙ ap ok (e a b ha hb);
    next_shown = λ a b ha hb. h.next_shown a b ha hb ∙ ap ok (f a b ha hb);
  }

  module _ {V : Type 0} (v : V) where
    full_row-old :
        (nodes : Ast d) (column : IntMap V) (j : ℤ)
        → lookup j column ≡ some v
        → lookup j (full_row d v nodes column) ≡ some v
    unfolding full_row
    full_row-old [] column j h = h
    full_row-old ((k, w) ∷ nodes) column j h =
        full_row-old nodes _ j (lookup-insert_old k j v v column h)

    pub full_row-listed :
        (nodes : Ast d) (column : IntMap V) (a : ℕ)
        → lookup (pos a) column ≡ none
        → is_listed nodes a ≡ true
        → lookup (pos a) (full_row d v nodes column) ≡ some v
    unfolding full_row lookup insert
    full_row-listed [] column a h e = cc
    full_row-listed ((k, w) ∷ nodes) column a h e = elim (Bool-cases (eqb_ℤ k (pos a))) [
      | inl here ↦
          full_row-old nodes _ (pos a)
            (lookup-insert k (pos a) v column (rw ((eqb_ℤ_iff k (pos a)).0 here) h) ∙ rw here refl)
      | inr later ↦
          full_row-listed nodes (insert k v column) a
            (elim (Option-cases (lookup k column)) [
              | inl f ↦ lookup-insert k (pos a) v column f ∙ rw later h
              | inr (u, f) ↦ rw (insert, f) h
            ])
            (rw (is_listed, later) at e)
    ]

  pub initialise-rows :
      (nodes rest : Ast d) (r : ApspResult d)
      → initialise d nodes rest r ≡ record {
        dist = full_row d (full_row d dbl_max nodes []) rest r.dist;
        next = full_row d (full_row d (negsuc 0) nodes []) rest r.next;
      }
  unfolding initialise full_row
  initialise-rows nodes [] r = refl
  initialise-rows nodes ((k, w) ∷ rest) r = initialise-rows nodes rest _
