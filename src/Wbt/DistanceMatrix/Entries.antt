-- ===== src/Wbt/DistanceMatrix/Entries.antt =====
-- wbt-translator/src/distance_matrix.cpp: the entries of the matrix.
use p7_kode.Base.{
  ℕ, zero, suc, ◌<◌, ◌≡◌, refl, sym, inl, inr, ◌⊎◌, true, In, List, [], ◌∷◌, ◌++◌, Result, ok,
  arith, length, if◌then◌else◌, Bool-cases,
}
use p7_kode.Base.Int.{ℤ, eqb_ℤ, eqb_ℤ_iff, pos, negsuc}
use p7_kode.Base.Double.{Double}
use p7_kode.Wbt.World.{Ast, are_connected, euclidean_distance, contains}
use p7_kode.Wbt.Apsp.{for_up}
use p7_kode.Wbt.Apsp.Graph.{IsNumbered, at_key-lookup}
use p7_kode.Wbt.DistanceMatrix.{push_back, entry, distance_matrix}

module _ {V : Type 0} where
  -- The values of the numbers below n, in order.
  abbrev pub tabulate : ℕ → (ℕ → V) → List V
  tabulate zero f = []
  tabulate (suc n) f = tabulate n f ++ f n ∷ []

  for_up-push_back :
      (n : ℕ) (value : ℕ → Result V) (f : ℕ → V)
      → ((i : ℕ) → i < n → value i ≡ ok (f i))
      → for_up n (push_back value) [] ≡ ok (tabulate n f)
  unfolding for_up
  for_up-push_back zero value f h = refl
  for_up-push_back (suc n) value f h =
      rw (for_up-push_back n value f (λ i hi. h i (omega arith)), h n (omega arith)) refl

contains-In : (z : ℤ) (ids : List ℤ) → contains z ids ≡ true → In z ids
contains-In z [] e = cc
contains-In z (id ∷ ids) e = elim (Bool-cases (eqb_ℤ id z)) [
  | inl f ↦ inl (sym ((eqb_ℤ_iff id z).0 f))
  | inr f ↦ inr (contains-In z ids (ground arith))
]

In-contains : (z : ℤ) (ids : List ℤ) → In z ids → contains z ids ≡ true
In-contains z [] m = absurd m
In-contains z (id ∷ ids) (inl e) = rw ((eqb_ℤ_iff id z).1 (sym e)) refl
In-contains z (id ∷ ids) (inr m) =
    let rest = In-contains z ids m in
    elim (Bool-cases (eqb_ℤ id z)) [ inl f ↦ rw f refl | inr f ↦ rw f rest ]

module _ (d : Double) (nodes : Ast d) (h : IsNumbered d nodes) where
  open d use {Carrier, add, sub, mul, sqrt, of_int}

  -- The distance along the line between two waypoints that are connected, and -1 for others.
  abbrev pub direct_distance : ℕ → ℕ → Carrier
  direct_distance i j =
      if contains (pos j) (h.point i).adjlist
      then euclidean_distance d (h.point i) (h.point j)
      else of_int (negsuc 0)

  entry-direct_distance :
      (i j : ℕ) → i < length nodes → j < length nodes → entry d nodes i j ≡ ok (direct_distance i j)
  unfolding entry are_connected
  entry-direct_distance i j hi hj = elim (Bool-cases (contains (pos j) (h.point i).adjlist)) [
    | inl e ↦
        rw
          (
            entry,
            are_connected,
            h.found i hi,
            e,
            at_key-lookup nodes (pos i) _ (h.found i hi),
            at_key-lookup nodes (pos j) _ (h.found j hj),
          )
          refl
    | inr e ↦ rw (entry, are_connected, h.found i hi, e) refl
  ]

  -- What is between two waypoints: for one in the list of the first the length of the straight line
  -- between their positions, and -1 for any other.
  abbrev pub IsDirect : ℕ → ℕ → Carrier → Type 0
  IsDirect i k a =
      let p = (h.point i).translation in
      let q = (h.point k).translation in
      let dx = sub p.x q.x in
      let dz = sub p.z q.z in
      (In (pos k) (h.point i).adjlist × (a ≡ sqrt (add (mul dx dx) (mul dz dz))))
      ⊎ ((¬ In (pos k) (h.point i).adjlist) × (a ≡ of_int (negsuc 0)))

  pub direct_distance-IsDirect : (i k : ℕ) → IsDirect i k (direct_distance i k)
  unfolding euclidean_distance
  direct_distance-IsDirect i k = elim (Bool-cases (contains (pos k) (h.point i).adjlist)) [
    | inl e ↦ inl (contains-In (pos k) (h.point i).adjlist e, (rw e refl))
    | inr e ↦ inr ((λ m. let f = In-contains (pos k) (h.point i).adjlist m in cc), (rw e refl))
  ]

  pub distance_matrix-direct_distance :
      distance_matrix d nodes
      ≡ ok (tabulate (length nodes) (λ i. tabulate (length nodes) (direct_distance i)))
  unfolding distance_matrix
  distance_matrix-direct_distance =
      for_up-push_back (length nodes) _ _
        (λ i hi. for_up-push_back (length nodes) _ _ (λ k hk. entry-direct_distance i k hi hk))

  -- In a world of numbered waypoints the constructor ends without an exception, with a row for each
  -- waypoint in the order of their ids, in which the distances to the waypoints are in this order too:
  -- those that it is next to at their straight distance, and -1 for the others.
  pub distance_matrix-tabulate :
      (f : ℕ → ℕ → Carrier) × (distance_matrix d nodes
        ≡ ok (tabulate (length nodes) (λ i. tabulate (length nodes) (f i))))
      × ((i k : ℕ) → i < length nodes → k < length nodes → IsDirect i k (f i k))
  distance_matrix-tabulate =
      (direct_distance, distance_matrix-direct_distance, λ i k hi hk. direct_distance-IsDirect i k)
