-- ===== src/Order/Examples.antt =====
-- order/: a few stations.
use p7_kode.Base.{ℕ, ◌+◌, ◌*◌, ◌≡◌, refl, inl, inr, List, [], ◌∷◌, map, ok, arith, length, All}
use p7_kode.Base.Int.{ℤ, pos}
use p7_kode.Base.Decimal.{to_string}
use p7_kode.Util.Split.{join}
use p7_kode.Order.Random.{drawn, undefined, pick_n_random}
use p7_kode.Order.Random.Picks.{IsDistinct, pick_n_random-AllSame}
use p7_kode.Order.Generator.{Order, construct, generate_n_orders}
use p7_kode.Order.Generator.Orders.{IsOrder, generate_n_orders-IsOrder}
use p7_kode.Order.Arguments.{parse_stations_argument, parse_stations_argument-join}

-- A sequence that rand() could return.
abbrev sequence : ℕ → ℕ
sequence t = 7 * t + 3

abbrev stations : List ℤ
stations = pos 4 ∷ pos 1 ∷ pos 9 ∷ []

stations-IsDistinct : IsDistinct stations
stations-IsDistinct = (
  (λ h. elim h [ inl e ↦ cc | inr r ↦ elim r [ inl e ↦ cc | inr n ↦ n ] ]),
  ((λ h. elim h [ inl e ↦ cc | inr n ↦ n ]), ((λ n. n), tt)),
)

generate_n_orders-IsOrder_example :
    (orders : List Order) × (t' : ℕ) × (generate_n_orders sequence
        (construct stations 1 1 3)
        (pos 5)
        0
      ≡ drawn orders t')
    × (length orders ≡ 5)
    × All (IsOrder stations 1 3) orders
generate_n_orders-IsOrder_example =
    generate_n_orders-IsOrder sequence stations 1 1 3 5 0 stations-IsDistinct (omega arith)
      (omega arith) (omega arith)

pick_n_random-AllSame_example : pick_n_random sequence (pos 4 ∷ pos 4 ∷ []) (pos 2) 0 ≡ undefined
pick_n_random-AllSame_example =
    pick_n_random-AllSame sequence (pos 4) (pos 4 ∷ pos 4 ∷ []) 2 0 (refl, (refl, tt)) (omega arith)
      (omega arith)

parse_stations_argument-join_example :
    parse_stations_argument (join b' ' (map to_string stations)) ≡ ok stations
parse_stations_argument-join_example =
    parse_stations_argument-join (pos 4) (pos 1 ∷ pos 9 ∷ [])
      (omega arith, (omega arith, (omega arith, tt)))
