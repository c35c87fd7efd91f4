-- ===== src/Wbt/Apsp/Shortest.antt =====
-- wbt-translator/src/apsp.cpp: `all_pairs_shortest_path` finds the lengths of shortest routes.
use p7_kode.Base.{
  ℕ, ◌+◌, ◌≤◌, ◌<◌, ◌≡◌, refl, ap, ◌∙◌, inl, inr, ◌⊎◌, true, some, ok, arith, ◌==◌, ==_iff, ltb,
  Bool-cases, length,
}
use p7_kode.Base.Int.{ℤ, pos}
use p7_kode.Base.IntMap.{lookup}
use p7_kode.Base.Double.{Double, Exact}
use p7_kode.Wbt.World.{Waypoint, Ast, euclidean_distance, contains, are_connected}
use p7_kode.Wbt.Apsp.{at2, ApspResult, all_pairs_shortest_path}
use p7_kode.Wbt.Apsp.Cells.{Represents, rounds_tables}
use p7_kode.Wbt.Apsp.Rounds.{Lengths}
use p7_kode.Wbt.Apsp.Routes.{Route, entry, join, After, rounds_tables-After, lengths}
use p7_kode.Wbt.Apsp.Graph.{IsNumbered}
use p7_kode.Wbt.Apsp.Initial.{start, graph, between, all_pairs_shortest_path-Represents}

ltb-true : (i n : ℕ) → ltb i n ≡ true → i < n
ltb-true i n e = ground arith

below : (i n : ℕ) → i < n → ltb i n ≡ true
below i n h = ground arith

module _ (d : Double) (x : Exact d) where
  open d use {Carrier, dbl_max}

  -- A way through the graph from one id to another, of the given length.
  pub data Way (nodes : Ast d) : ℕ → ℕ → ℕ → Type 0 where
    stay : (i : ℕ) → Way nodes i i 0
    edge :
        (i j : ℕ) (v w : Waypoint d)
        → lookup (pos i) nodes ≡ some v
        → lookup (pos j) nodes ≡ some w
        → are_connected d nodes (pos i) (pos j) ≡ ok true
        → Way nodes i j (x.units (euclidean_distance d v w))
    and_then :
        (i k j a b : ℕ)
        → k < length nodes
        → Way nodes i k a
        → Way nodes k j b
        → Way nodes i j (a + b)

  -- No edge is longer than DBL_MAX.
  abbrev pub HasShortEdges : Ast d → Type 0
  HasShortEdges nodes =
      (i j : ℤ) (v w : Waypoint d)
      → lookup i nodes ≡ some v
      → lookup j nodes ≡ some w
      → x.units (euclidean_distance d v w) ≤ x.units dbl_max

  -- The entry of the distance matrix is the length of a shortest way, or DBL_MAX.
  pub IsShortest : Ast d → ApspResult d → ℕ → ℕ → Type 0
  IsShortest nodes r i j =
      (v : Carrier) × (at2 r.dist (pos i) (pos j) ≡ ok v)
      × (Way nodes i j (x.units v) ⊎ (x.units v ≡ x.units dbl_max))
      × ((a : ℕ) → Way nodes i j a → x.units v ≤ a)

  module _ (nodes : Ast d) (h : IsNumbered d nodes) where
    IsNumbered-are_connected :
        (i j : ℕ)
        → i < length nodes
        → are_connected d nodes (pos i) (pos j) ≡ ok (contains (pos j) (h.point i).adjlist)
    unfolding are_connected
    IsNumbered-are_connected i j hi = rw (are_connected, h.found i hi) refl

    start_length : ℕ → ℕ → ℕ
    start_length = lengths d x (start d nodes h)

    -- What an entry of the start can be.
    data IsInitial (i j : ℕ) : ℕ → Type 0 where
      same : i ≡ j → IsInitial i j 0
      next_to :
          i < length nodes
          → j < length nodes
          → contains (pos j) (h.point i).adjlist ≡ true
          → IsInitial i j (x.units (between d nodes h i j))
      apart : IsInitial i j (x.units dbl_max)

    graph-IsInitial :
        (i j : ℕ)
        → i < length nodes
        → j < length nodes
        → IsInitial i j (lengths d x (graph d nodes h) i j)
    graph-IsInitial i j hi hj = elim (Bool-cases (i == j)) [
      | inl f ↦ rw (lengths, f, x.zero_units) (IsInitial.same ((==_iff i j).0 f))
      | inr f ↦ elim (Bool-cases (contains (pos j) (h.point i).adjlist)) [
        | inl g ↦ rw (lengths, f, g) (IsInitial.next_to hi hj g)
        | inr g ↦ rw (lengths, f, g) IsInitial.apart
      ]
    ]

    start-IsInitial : (i j : ℕ) → IsInitial i j (start_length i j)
    unfolding start_length
    start-IsInitial i j = elim (Bool-cases (ltb i (length nodes))) [
      | inl e ↦ elim (Bool-cases (ltb j (length nodes))) [
        | inl e' ↦ rw (lengths, e, e') (graph-IsInitial i j (ltb-true i _ e) (ltb-true j _ e'))
        | inr e' ↦ rw (lengths, e, e') IsInitial.apart
      ]
      | inr e ↦ rw (lengths, e) IsInitial.apart
    ]

    start_same : (i : ℕ) → i < length nodes → start_length i i ≡ 0
    unfolding start_length
    start_same i hi = rw (lengths, below i _ hi, (==_iff i i).1 refl) x.zero_units

    start_edge :
        (i j : ℕ)
        → i < length nodes
        → j < length nodes
        → contains (pos j) (h.point i).adjlist ≡ true
        → start_length i j ≤ x.units (between d nodes h i j)
    unfolding start_length
    start_edge i j hi hj g = elim (Bool-cases (i == j)) [
      | inl f ↦ rw (lengths, below i _ hi, below j _ hj, f, x.zero_units) (omega arith)
      | inr f ↦ rw (lengths, below i _ hi, below j _ hj, f, g) (omega arith)
    ]

    IsInitial-bounded : (i j l : ℕ) → HasShortEdges nodes → IsInitial i j l → l ≤ x.units dbl_max
    IsInitial-bounded i j _ short (same e) = omega arith
    IsInitial-bounded i j _ short (next_to hi hj e) =
        short (pos i) (pos j) (h.point i) (h.point j) (h.found i hi) (h.found j hj)
    IsInitial-bounded i j _ short apart = omega arith

    IsInitial-Way : (i j l : ℕ) → IsInitial i j l → (Way nodes i j l) ⊎ (x.units dbl_max ≤ l)
    IsInitial-Way i j _ (same e) = inl (rw e (stay j))
    IsInitial-Way i j _ (next_to hi hj e) = inl (
        edge i j (h.point i) (h.point j) (h.found i hi) (h.found j hj)
          (IsNumbered-are_connected i j hi ∙ ap ok e))
    IsInitial-Way i j _ apart = inr (omega arith)

    -- A route of the start is a way through the graph, or not shorter than DBL_MAX.
    Route-Way :
        (i j l : ℕ)
        → Route (length nodes) start_length i j l
        → (Way nodes i j l) ⊎ (x.units dbl_max ≤ l)
    Route-Way i j _ (entry _ _) = IsInitial-Way i j _ (start-IsInitial i j)
    Route-Way i j _ (join _ k _ a b hk p q) = elim (Route-Way i k a p) [
      | inl way ↦ elim (Route-Way k j b q) [
        | inl way' ↦ inl (and_then i k j a b hk way way')
        | inr e ↦ inr (omega arith)
      ]
      | inr e ↦ inr (omega arith)
    ]

    -- A way through the graph is not shorter than what the rounds have found.
    Way-shortest :
        (u : Lengths)
        → After (length nodes) start_length (length nodes) u
        → (i j a : ℕ) → i < length nodes
        → j < length nodes
        → Way nodes i j a
        → u i j ≤ a
    Way-shortest u after i j _ hi hj (stay _) =
        let e = start_same i hi in let f = after.shorter i i in omega arith
    Way-shortest u after i j _ hi hj (edge _ _ v w e f g) =
        let from : h.point i ≡ v = let e' = h.found i hi in cc in
        let to : h.point j ≡ w = let f' = h.found j hj in cc in
        let adjacent : contains (pos j) (h.point i).adjlist ≡ true =
          (let g' = IsNumbered-are_connected i j hi in cc) in
        let shorter = after.shorter i j in
        let straight = start_edge i j hi hj adjacent in rw (← from, ← to) (omega arith)
    Way-shortest u after i j _ hi hj (and_then _ k _ a b hk p q) =
        let first = Way-shortest u after i k a hi hk p in
        let second = Way-shortest u after k j b hk hj q in
        let over = after.settled i j k hi hj hk in omega arith

    After-Way :
        HasShortEdges nodes
        → (u : Lengths) → After (length nodes) start_length (length nodes) u
        → (i j : ℕ) → (Way nodes i j (u i j)) ⊎ (u i j ≡ x.units dbl_max)
    After-Way short u after i j = elim (Route-Way i j _ (after.routes i j)) [
      | inl way ↦ inl way
      | inr e ↦
          let f = after.shorter i j in
          let g = IsInitial-bounded i j _ short (start-IsInitial i j) in inr (omega arith)
    ]

    rounds-IsShortest :
        HasShortEdges nodes
        → (i j : ℕ) → i < length nodes
        → j < length nodes
        → (r : ApspResult d)
        → Represents d (length nodes) r (rounds_tables d (length nodes) (start d nodes h))
        → IsShortest nodes r i j
    unfolding start_length IsShortest
    rounds-IsShortest short i j hi hj r shows =
        let final = rounds_tables d (length nodes) (start d nodes h) in
        let after =
          rounds_tables-After d x (length nodes) (start d nodes h)
            (λ a b. IsInitial-bounded a b _ short (start-IsInitial a b)) in
        (
          final.dist i j,
          shows.dist_shown i j hi hj,
          After-Way short (lengths d x final) after i j,
          λ a way. Way-shortest (lengths d x final) after i j a hi hj way,
        )

  -- In a world of numbered waypoints with no two further apart than DBL_MAX, when doubles are added
  -- exactly up to DBL_MAX, `all_pairs_shortest_path` ends without an exception, and its distance for two
  -- waypoints is the length of a way between them or DBL_MAX, and not more than the length of any way
  -- between them.
  pub all_pairs_shortest_path-IsShortest :
      (nodes : Ast d)
      → IsNumbered d nodes
      → HasShortEdges nodes
      → (i j : ℕ) → i < length nodes
      → j < length nodes
      → (r : ApspResult d) × (all_pairs_shortest_path d nodes ≡ ok r) × IsShortest nodes r i j
  all_pairs_shortest_path-IsShortest nodes h short i j hi hj =
      let (r, e, shows) = all_pairs_shortest_path-Represents d nodes h in
      (r, e, rounds-IsShortest nodes h short i j hi hj r shows)
