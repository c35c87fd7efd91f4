-- ===== src/Robot/Orchestrator/Matrices.antt =====
-- robot/src/orchestrator.cpp: the two distance matrices as JSON.
use p7_kode.Base.{
  length-append, Bool-cases, ltb, ℕ, zero, suc, ◌<◌, ◌≡◌, refl, sym, ap, ◌∙◌, inl, inr, true, some,
  List, [], ◌∷◌, ◌++◌, ok, length, get_elem?, arith,
}
use p7_kode.Base.Fallible.{◌>>=◌, Returns}
use p7_kode.Base.Int.{pos}
use p7_kode.Base.Double.{Double}
use p7_kode.Base.Json.{Json}
use p7_kode.Base.JsonLaws.{JsonLaws}
use p7_kode.Wbt.World.{Ast}
use p7_kode.Wbt.Apsp.{ApspResult, at_key, at2}
use p7_kode.Wbt.Apsp.Graph.{IsNumbered, at_key-lookup}
use p7_kode.Wbt.DistanceMatrix.{distance_matrix}
use p7_kode.Wbt.DistanceMatrix.Entries.{tabulate, direct_distance, distance_matrix-direct_distance}
use p7_kode.Config.Convert.{vector_at}
use p7_kode.Robot.Orchestrator.{
  is_station, entry_at, append_at, append_row, waypoint_rows, append_distance, station_rows,
}
use p7_kode.Robot.Orchestrator.Rows.{
  chosen, IsRow, for_up-IsRow, append-Appends, append_row-Appends, if_station-Appends,
}

length-tabulate : {V : Type 0} (n : ℕ) (f : ℕ → V) → length (tabulate n f) ≡ n
length-tabulate zero f = refl
length-tabulate (suc n) f =
    length-append (tabulate n f) (f n ∷ []) ∙ (let e = length-tabulate n f in omega arith)

get_elem?-append :
    {V : Type 0} (vs ws : List V) (i : ℕ) → i < length vs → get_elem? (vs ++ ws) i ≡ get_elem? vs i
get_elem?-append [] ws i h = absurd (omega arith)
get_elem?-append (v ∷ vs) ws zero h = refl
get_elem?-append (v ∷ vs) ws (suc i) h = get_elem?-append vs ws i (omega arith)

get_elem?-last : {V : Type 0} (vs : List V) (v : V) → get_elem? (vs ++ v ∷ []) (length vs) ≡ some v
get_elem?-last [] v = refl
get_elem?-last (u ∷ vs) v = get_elem?-last vs v

get_elem?-tabulate :
    {V : Type 0} (n : ℕ) (f : ℕ → V) (i : ℕ) → i < n → get_elem? (tabulate n f) i ≡ some (f i)
get_elem?-tabulate zero f i h = absurd (omega arith)
get_elem?-tabulate (suc n) f i h =
    let e = length-tabulate n f in
    elim (Bool-cases (ltb i n)) [
      | inl l ↦
          let l' : i < n = ground arith in
          get_elem?-append (tabulate n f) (f n ∷ []) i (omega arith) ∙ get_elem?-tabulate n f i l'
      | inr l ↦
          let k : i ≡ n = ground arith in
          let last = get_elem?-last (tabulate n f) (f n) in
          ap (λ m. get_elem? (tabulate n f ++ f n ∷ []) m) (k ∙ sym e)
          ∙ last
          ∙ ap (λ m. some (f m)) (sym k)
    ]

vector_at-tabulate :
    {V : Type 0} (n : ℕ) (f : ℕ → V) (i : ℕ) → i < n → vector_at (tabulate n f) (pos i) ≡ ok (f i)
unfolding vector_at
vector_at-tabulate n f i h = rw (vector_at, get_elem?-tabulate n f i h) refl

-- The numbers below n.
abbrev pub all_below : ℕ → List ℕ
all_below = chosen (λ i. true)

module _ (d : Double) (j : Json d) (laws : JsonLaws j) (nodes : Ast d)
    (h : IsNumbered d nodes) where
  open j use {Value, of_double}

  -- A row for each number, with a number for each number.
  abbrev pub IsMatrix : (ℕ → ℕ → d.Carrier) → List ℕ → Value → Type 0
  IsMatrix f is = IsRow d j laws (λ i. IsRow d j laws (λ k u. u ≡ of_double (f i k)) is) is

  pub waypoint_rows-IsMatrix :
      Returns
        (IsMatrix (direct_distance d nodes h) (all_below (length nodes)))
        (do matrix ← distance_matrix d nodes; waypoint_rows d j matrix (length nodes))
  unfolding waypoint_rows
  waypoint_rows-IsMatrix =
      let n = length nodes in
      let f = direct_distance d nodes h in
      let matrix = tabulate n (λ i. tabulate n (f i)) in
      rw (distance_matrix-direct_distance d nodes h) (
        for_up-IsRow d j laws _ (λ i. true) n (λ i. append_row d j n (append_at d j matrix i))
          (append_row-Appends d j laws (λ i k u. u ≡ of_double (f i k)) (λ i. true) n
            (append_at d j matrix)
            (λ i hi. append-Appends d j laws (f i) n (entry_at d j matrix i) (λ k hk.
              rw (vector_at-tabulate n (λ i. tabulate n (f i)) i hi)
                (vector_at-tabulate n (f i) k hk)))))

  -- The numbers of the stations.
  abbrev pub station_numbers : List ℕ
  station_numbers = chosen (λ i. is_station (h.point i).waypoint_type) (length nodes)

  pub station_rows-IsMatrix :
      (r : ApspResult d) (f : ℕ → ℕ → d.Carrier)
      → ((i k : ℕ) → i < length nodes → k < length nodes → at2 r.dist (pos i) (pos k) ≡ ok (f i k))
      → Returns (IsMatrix f station_numbers) (station_rows d j nodes r.dist (length nodes))
  unfolding station_rows
  station_rows-IsMatrix r f shows =
      let n = length nodes in
      let found : (i : ℕ) → i < n → at_key nodes (pos i) ≡ ok (h.point i) =
        λ i hi. at_key-lookup nodes (pos i) (h.point i) (h.found i hi) in
      for_up-IsRow d j laws _ (λ i. is_station (h.point i).waypoint_type) n _
        (if_station-Appends d j laws _ n nodes h.point _ found (
          append_row-Appends d j laws (λ i k u. u ≡ of_double (f i k))
            (λ k. is_station (h.point k).waypoint_type) n _
            (λ i hi.
              if_station-Appends d j laws (λ k u. u ≡ of_double (f i k)) n nodes h.point
                (append_distance d j r.dist i) found
                (append-Appends d j laws (f i) n (λ k. at2 r.dist (pos i) (pos k))
                  (λ k hk. shows i k hi hk)))))
