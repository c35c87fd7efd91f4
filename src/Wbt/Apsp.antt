-- ===== src/Wbt/Apsp.antt =====
-- wbt-translator/src/apsp.cpp: `all_pairs_shortest_path`, the algorithm of Floyd and Warshall.
pub mod Cells
pub mod Rounds
pub mod Routes
pub mod Graph
pub mod Initial
pub mod Shortest
use p7_kode.Base.{
  ℕ, zero, suc, Bool, true, false, Option, none, some, List, [], ◌∷◌, Result, ok, err, out_of_range,
  length, if◌then◌else◌,
}
use p7_kode.Base.Fallible.{◌>>=◌}
use p7_kode.Base.Int.{ℤ, pos, negsuc}
use p7_kode.Base.IntMap.{IntMap, lookup, insert, insert_or_assign}
use p7_kode.Base.Double.{Double}
use p7_kode.Wbt.World.{Waypoint, Ast, euclidean_distance}

-- A std::map of std::maps, both with keys of type int.
abbrev pub Matrix : Type 0 → Type 0
Matrix V = IntMap (IntMap V)

module _ {V : Type 0} where
  -- m.at(k)
  abbrev pub at_key : IntMap V → ℤ → Result V
  at_key m k = elim (lookup k m) [ none ↦ err out_of_range | some v ↦ ok v ]

module _ {V : Type 0} where
  -- m.at(i).at(j)
  unfoldable pub at2 : Matrix V → ℤ → ℤ → Result V
  at2 m i j = do row ← at_key m i; at_key row j

  -- m.at(i).at(j) = v
  unfoldable pub assign_at2 : Matrix V → ℤ → ℤ → V → Result (Matrix V)
  assign_at2 m i j v = do
    row ← at_key m i
    _ ← at_key row j
    ok (insert_or_assign i (insert_or_assign j v row) m)

-- for (size_t i = 0; i < n; i++) body
unfoldable pub for_up {ℓ} : {S : Type ℓ} → ℕ → (ℕ → S → Result S) → S → Result S
for_up zero body s = ok s
for_up (suc n) body s = do s' ← for_up n body s; body n s'

module _ (d : Double) where
  open d use {Carrier, add, lt, of_int, dbl_max}

  pub record ApspResult : Type 0 where
    pub dist : Matrix Carrier
    pub next : Matrix ℤ

  -- The first loops: a row for each node, with an entry for each node.
  pub full_row : {V : Type 0} → V → Ast d → IntMap V → IntMap V
  full_row v [] column = column
  full_row v ((col_id, w) ∷ nodes) column = full_row v nodes (insert col_id v column)

  pub initialise : Ast d → Ast d → ApspResult → ApspResult
  initialise nodes [] r = r
  initialise nodes ((row_id, w) ∷ rest) r = initialise nodes rest (record {
    dist = insert row_id (full_row dbl_max nodes []) r.dist;
    next = insert row_id (full_row (negsuc 0) nodes []) r.next;
  })

  -- result.dist.at(i).at(j) = v; result.next.at(i).at(j) = n
  unfoldable pub assign : ℤ → ℤ → Carrier → ℤ → ApspResult → Result ApspResult
  assign i j v n r = do
    dist ← assign_at2 r.dist i j v
    next ← assign_at2 r.next i j n
    ok (record { dist = dist; next = next })

  set_edges_of : Ast d → Waypoint d → List ℤ → ApspResult → Result ApspResult
  set_edges_of nodes from [] r = ok r
  set_edges_of nodes from (adj_id ∷ ids) r = do
    to ← at_key nodes adj_id
    r' ← assign from.id adj_id (euclidean_distance d from to) adj_id r
    set_edges_of nodes from ids r'

  set_edges : Ast d → Ast d → ApspResult → Result ApspResult
  set_edges nodes [] r = ok r
  set_edges nodes ((_, from) ∷ rest) r = do
    r' ← set_edges_of nodes from from.adjlist r
    set_edges nodes rest r'

  set_self : Ast d → ApspResult → Result ApspResult
  set_self [] r = ok r
  set_self ((node_id, _) ∷ rest) r = do
    r' ← assign node_id node_id (of_int (pos 0)) node_id r
    set_self rest r'

  -- The body of the three loops.
  unfoldable pub relax : ℕ → ℕ → ℕ → ApspResult → Result ApspResult
  relax k i j r = do
    to_k ← at2 r.dist (pos i) (pos k)
    from_k ← at2 r.dist (pos k) (pos j)
    direct ← at2 r.dist (pos i) (pos j)
    let new_dist = add to_k from_k
    if lt new_dist direct
        then (do first ← at2 r.next (pos i) (pos k); assign (pos i) (pos j) new_dist first r)
        else ok r

  unfoldable pub round : ℕ → ℕ → ApspResult → Result ApspResult
  round n k = for_up n (λ i. for_up n (λ j. relax k i j))

  unfoldable pub rounds : ℕ → ApspResult → Result ApspResult
  rounds n = for_up n (round n)

  unfoldable pub all_pairs_shortest_path : Ast d → Result ApspResult
  unfolding initialise full_row set_edges set_edges_of set_self
  all_pairs_shortest_path nodes = do
    r ← set_edges nodes nodes (initialise nodes nodes (record { dist = []; next = [] }))
    r' ← set_self nodes r
    rounds (length nodes) r'
