-- ===== src/Wbt/Apsp/Initial.antt =====
-- wbt-translator/src/apsp.cpp: what the loops before the rounds make of numbered waypoints.
use p7_kode.Base.{
  ℕ, ◌<◌, ◌≡◌, refl, ap, ◌∙◌, true, ◌&&◌, List, [], ◌∷◌, ok, arith, ◌==◌, ==_iff, ltb, length, All,
}
use p7_kode.Base.Int.{ℤ, pos, negsuc}
use p7_kode.Base.IntMap.{lookup}
use p7_kode.Base.Double.{Double}
use p7_kode.Wbt.World.{Ast, euclidean_distance, contains}
use p7_kode.Wbt.Apsp.{
  at2, ApspResult, full_row, initialise, set_edges_of, set_edges, set_self, assign,
  all_pairs_shortest_path,
}
use p7_kode.Wbt.Apsp.Cells.{
  Shows, Tables, Represents, assign-Represents, rounds_tables, rounds-Represents,
}
use p7_kode.Wbt.Apsp.Graph.{
  is_listed, at_key-lookup, is_listed-cons, merge_listed, merge_self, merge, full_row-listed,
  initialise-rows, Represents-eq, IsNode, IsBelow, IsNumbered, overlay, blank,
}

module _ (d : Double) (nodes : Ast d) (h : IsNumbered d nodes) where
  open d use {Carrier, of_int, dbl_max}

  abbrev n : ℕ
  n = length nodes

  IsNumbered-listed : (a : ℕ) → a < n → is_listed nodes a ≡ true
  IsNumbered-listed a ha = rw (is_listed, h.found a ha) refl

  initialise-Represents :
      Represents d n (initialise d nodes nodes (record { dist = []; next = [] })) (blank d)
  unfolding lookup at2
  initialise-Represents =
      rw (initialise-rows d nodes nodes (record { dist = []; next = [] })) (record {
        dist_shown = λ i j hi hj. shown dbl_max i j hi hj;
        next_shown = λ i j hi hj. shown (negsuc 0) i j hi hj;
      })
    where
      shown :
          {V : Type 0} (v : V) → Shows n (full_row d (full_row d v nodes []) nodes []) (λ i j. v)
      shown v i j hi hj =
          rw
            (
              at2,
              at_key-lookup _ _ _ (
                  full_row-listed d (full_row d v nodes []) nodes [] i refl
                    (IsNumbered-listed i hi)),
              at_key-lookup _ _ _ (full_row-listed d v nodes [] j refl (IsNumbered-listed j hj)),
            )
            refl

  -- The distance from the waypoint of one id to that of another.
  abbrev pub between : ℕ → ℕ → Carrier
  between a b = euclidean_distance d (h.point a) (h.point b)

  abbrev to : ℕ → ℕ → ℤ
  to a b = pos b

  set_edges_of-Represents :
      (i : ℕ)
      → i < n
      → (ids : List ℤ) → All (IsBelow d n) ids
      → (r : ApspResult d) (t : Tables Carrier) → Represents d n r t
      → (r' : ApspResult d) × (set_edges_of d nodes (h.point i) ids r ≡ ok r')
        × Represents d n r' (overlay d (λ a b. contains (pos b) ids && (i == a)) between to t)
  unfolding set_edges_of
  set_edges_of-Represents i hi [] all r t shows = (r, refl, shows)
  set_edges_of-Represents i hi (id ∷ ids) ((c, hc, e), all) r t shows =
      let (r', f, shows') = assign-Represents d n i c (between i c) (pos c) r t shows hi hc in
      let f' = ap (λ z. assign d z (pos c) (between i c) (pos c) r) (h.ids i hi) ∙ f in
      let (r'', g, shows'') = set_edges_of-Represents i hi ids all r' _ shows' in
      (
        r'',
        rw (e, at_key-lookup nodes (pos c) _ (h.found c hc), f') g,
        Represents-eq d n r'' _ _ shows''
            (λ a b ha hb. rw e (
              merge (i == a) (c == b) (contains (pos b) ids) _ _ _
                (λ p q. rw ((==_iff i a).0 p, (==_iff c b).0 q) refl)))
            (λ a b ha hb. rw e (
              merge (i == a) (c == b) (contains (pos b) ids) _ _ _
                (λ p q. ap pos ((==_iff c b).0 q)))),
      )

  set_edges-Represents :
      (rest : Ast d)
      → All (IsNode d n h.point) rest
      → (r : ApspResult d) (t : Tables Carrier) → Represents d n r t
      → (r' : ApspResult d) × (set_edges d nodes rest r ≡ ok r')
        × Represents d n r' (
            overlay d
              (λ a b. is_listed rest a && contains (pos b) (h.point a).adjlist)
              between
              to
              t)
  unfolding set_edges lookup
  set_edges-Represents [] all r t shows = (r, refl, shows)
  set_edges-Represents ((k, w) ∷ rest) ((i, hi, e, f), all) r t shows =
      let (r', g, shows') =
        set_edges_of-Represents i hi (h.point i).adjlist (h.adjacent i hi) r t shows in
      let (r'', g', shows'') = set_edges-Represents rest all r' _ shows' in
      (
        r'',
        rw (f, g) g',
        Represents-eq d n r'' _ _ shows''
            (λ a b ha hb.
              rw (e, is_listed-cons (pos i) w rest a)
                (merge_listed (i == a) (is_listed rest a) _ _ _ _
                  (λ p. rw ((==_iff i a).0 p) refl)))
            (λ a b ha hb.
              rw (e, is_listed-cons (pos i) w rest a)
                (merge_listed (i == a) (is_listed rest a) _ _ _ _
                  (λ p. rw ((==_iff i a).0 p) refl))),
      )

  set_self-Represents :
      (rest : Ast d)
      → All (IsNode d n h.point) rest
      → (r : ApspResult d) (t : Tables Carrier) → Represents d n r t
      → (r' : ApspResult d) × (set_self d rest r ≡ ok r')
        × Represents d n r' (
            overlay d
              (λ a b. is_listed rest a && (a == b))
              (λ a b. of_int (pos 0))
              (λ a b. pos a)
              t)
  unfolding set_self lookup
  set_self-Represents [] all r t shows = (r, refl, shows)
  set_self-Represents ((k, w) ∷ rest) ((i, hi, e, f), all) r t shows =
      let (r', g, shows') = assign-Represents d n i i (of_int (pos 0)) (pos i) r t shows hi hi in
      let (r'', g', shows'') = set_self-Represents rest all r' _ shows' in
      (
        r'',
        rw (e, g) g',
        Represents-eq d n r'' _ _ shows''
            (λ a b ha hb.
              rw (e, is_listed-cons (pos i) w rest a)
                (merge_self (i == a) (i == b) (is_listed rest a) (a == b) _ _ _
                  (λ p. (rw ((==_iff i a).0 p) refl, refl))))
            (λ a b ha hb.
              rw (e, is_listed-cons (pos i) w rest a)
                (merge_self (i == a) (i == b) (is_listed rest a) (a == b) _ _ _
                  (λ p. (rw ((==_iff i a).0 p) refl, ap pos ((==_iff i a).0 p))))),
      )

  -- The distances and next waypoints of the graph: nothing to the waypoint itself, a straight line to
  -- one that is next to it, DBL_MAX and -1 to the others.
  abbrev pub graph : Tables Carrier
  graph =
      overlay d (λ a b. a == b) (λ a b. of_int (pos 0)) (λ a b. pos a)
        (overlay d (λ a b. contains (pos b) (h.point a).adjlist) between to (blank d))

  -- The same, and nothing at ids that no waypoint has.
  abbrev pub start : Tables Carrier
  start = overlay d (λ a b. ltb a n && ltb b n) graph.dist graph.next (blank d)

  below_n : (a : ℕ) → a < n → ltb a n ≡ true
  below_n a h = ground arith

  initial_loops-Represents :
      (r : ApspResult d) × (r' : ApspResult d) × (set_edges d nodes nodes
          (initialise d nodes nodes (record { dist = []; next = [] }))
        ≡ ok r)
      × (set_self d nodes r ≡ ok r')
      × Represents d n r' start
  initial_loops-Represents =
      let (r, e, shows) = set_edges-Represents nodes h.listed _ _ initialise-Represents in
      let (r', e', shows') = set_self-Represents nodes h.listed r _ shows in
      (
        r,
        r',
        e,
        e',
        Represents-eq d n r' _ _ shows'
            (λ a b ha hb. rw (IsNumbered-listed a ha, below_n a ha, below_n b hb) refl)
            (λ a b ha hb. rw (IsNumbered-listed a ha, below_n a ha, below_n b hb) refl),
      )

  pub all_pairs_shortest_path-Represents :
      (r : ApspResult d) × (all_pairs_shortest_path d nodes ≡ ok r)
      × Represents d n r (rounds_tables d n start)
  unfolding all_pairs_shortest_path
  all_pairs_shortest_path-Represents =
      let (r, r', e, e', shows) = initial_loops-Represents in
      let (r'', f, shows') = rounds-Represents d n r' start shows in (r'', rw (e, e') f, shows')
