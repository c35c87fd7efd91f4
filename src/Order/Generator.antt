-- ===== src/Order/Generator.antt =====
-- order/include/order/random_generator.hpp and order/src/random_generator.cpp: `RandomGenerator`.
pub mod Orders
use p7_kode.Base.{
  ℕ, zero, suc, ◌+◌, ◌%◌, List, [], ◌∷◌, ◌++◌, if◌then◌else◌, length, ◌==◌, ◌&&◌, not,
}
use p7_kode.Base.Int.{ℤ, pos, negsuc, ◌+ℤ◌, ◌-ℤ◌, is_int, magnitude, int_of_unsigned}
use p7_kode.Order.Random.{Drawn, drawn, thrown, undefined, pick_n_random}

-- An order is its list of stations.
pub record Order : Type 0 where
  pub stations : List ℤ

pub record RandomGenerator : Type 0 where
  pub stations : List ℤ
  pub min_size : ℤ
  pub max_size : ℤ
  pub seed : ℤ

-- The constructors. The arguments seed, min_size and max_size are unsigned.
abbrev pub construct : List ℤ → ℕ → ℕ → ℕ → RandomGenerator
construct stations seed min_size max_size = record {
  stations = stations;
  min_size = int_of_unsigned min_size;
  max_size = int_of_unsigned max_size;
  seed = int_of_unsigned seed;
}

abbrev with_min_size : List ℤ → ℕ → ℕ → RandomGenerator
with_min_size stations seed min_size = construct stations seed min_size (length stations)

abbrev with_seed : List ℤ → ℕ → RandomGenerator
with_seed stations seed = with_min_size stations seed 0

abbrev pub in_order : Drawn (List ℤ) → Drawn Order
in_order (drawn stations t) = drawn (record { stations = stations }) t
in_order (thrown e) = thrown e
in_order undefined = undefined

-- `rand t` is what the call of rand() after t others returns.
module _ (rand : ℕ → ℕ) where
  -- An int that overflows and a remainder by 0 are undefined.
  unfoldable pub generate_order : RandomGenerator → ℕ → Drawn Order
  generate_order g t =
      let range = g.max_size -ℤ g.min_size +ℤ pos 1 in
      let n = g.min_size +ℤ pos (rand t % magnitude range) in
      if is_int (g.max_size -ℤ g.min_size) && is_int range && not (magnitude range == 0) && is_int n
      then in_order (pick_n_random rand g.stations n (suc t))
      else undefined

  unfoldable pub orders_loop : RandomGenerator → ℕ → List Order → ℕ → Drawn (List Order)
  orders_loop g zero orders t = drawn orders t
  orders_loop g (suc n) orders t = elim (generate_order g t) [
    | drawn order t' ↦ orders_loop g n (orders ++ order ∷ []) t'
    | thrown e ↦ thrown e
    | undefined ↦ undefined
  ]

  unfoldable pub generate_n_orders : RandomGenerator → ℤ → ℕ → Drawn (List Order)
  generate_n_orders g (pos n) t = orders_loop g n [] t
  generate_n_orders g (negsuc n) t = drawn [] t
