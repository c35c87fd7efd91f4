-- ===== src/Wbt/DistanceMatrix.antt =====
-- wbt-translator/src/distance_matrix.cpp: the constructor of `distance_matrix`.
pub mod Entries
use p7_kode.Base.{ℕ, zero, suc, Bool, true, false, List, [], ◌∷◌, ◌++◌, Result, ok, err, length}
use p7_kode.Base.Fallible.{◌>>=◌}
use p7_kode.Base.Int.{ℤ, pos, negsuc}
use p7_kode.Base.Double.{Double}
use p7_kode.Wbt.World.{Waypoint, Ast, are_connected, euclidean_distance}
use p7_kode.Wbt.Apsp.{at_key, for_up}

module _ {V : Type 0} where
  -- The body of a loop that pushes back one value.
  abbrev pub push_back : (ℕ → Result V) → ℕ → List V → Result (List V)
  push_back value i values = do v ← value i; ok (values ++ v ∷ [])

module _ (d : Double) (nodes : Ast d) where
  open d use {Carrier, of_int}

  abbrev distance_if : Bool → ℕ → ℕ → Result Carrier
  distance_if false i j = ok (of_int (negsuc 0))
  distance_if true i j = do
    from ← at_key nodes (pos i)
    to ← at_key nodes (pos j)
    ok (euclidean_distance d from to)

  unfoldable pub entry : ℕ → ℕ → Result Carrier
  entry i j = do connected ← are_connected d nodes (pos i) (pos j); distance_if connected i j

  unfoldable pub distance_matrix : Result (List (List Carrier))
  distance_matrix =
      let rows = length nodes in
      for_up rows (push_back (λ i. for_up rows (push_back (entry i)) [])) []
