-- ===== src/Order/Generator/Orders.antt =====
-- order/src/random_generator.cpp: what the generated orders are.
use p7_kode.Base.{
  In, ℕ, zero, suc, ◌+◌, ◌-◌, ◌%◌, ◌^◌, ◌≤◌, ◌<◌, ◌≡◌, refl, ap, ap₂, ◌==◌, ◌∙◌, true, false, List,
  [], ◌∷◌, ◌++◌, arith, length, All, append_assoc, append-nil,
}
use native.Mathlib.Nat.{mod-lt}
use p7_kode.Base.Int.{ℤ, pos, ◌-ℤ◌, is_int, int_of_unsigned}
use p7_kode.Order.Random.{drawn, pick_n_random}
use p7_kode.Order.Random.Picks.{IsDistinct, pick_n_random-Picks}
use p7_kode.Order.Generator.{
  Order, RandomGenerator, construct, generate_order, orders_loop, generate_n_orders, in_order,
}

-- Between min_size and max_size different stations.
abbrev pub IsOrder : List ℤ → ℕ → ℕ → Order → Type 0
IsOrder stations min_size max_size order =
    (min_size ≤ length order.stations)
    × (length order.stations ≤ max_size)
    × IsDistinct order.stations
    × All (λ a. In a stations) order.stations

span_of : (a b : ℕ) → a ≤ b → pos b -ℤ pos a ≡ pos (b - a)
span_of zero b h = ground arith
span_of (suc a) b h = ground arith

unsigned_int : (u : ℕ) → u < 2 ^ 31 → int_of_unsigned u ≡ pos u
unsigned_int u h = ground arith

module _ (rand : ℕ → ℕ) (stations : List ℤ) (seed min_size max_size : ℕ) where
  abbrev size : ℕ → ℕ
  size t = min_size + rand t % (max_size - min_size + 1)

  size_bounds : (t : ℕ) → min_size ≤ max_size → (min_size ≤ size t) × (size t ≤ max_size)
  size_bounds t h =
      let below = mod-lt (rand t) {m = max_size - min_size + 1} (omega arith) in
      (omega arith, omega arith)

  -- The generator with its sizes as they are.
  abbrev sized : RandomGenerator
  sized = record {
    stations = stations;
    min_size = pos min_size;
    max_size = pos max_size;
    seed = int_of_unsigned seed;
  }

  construct-sized :
      min_size ≤ max_size
      → max_size + 1 < 2 ^ 31
      → construct stations seed min_size max_size ≡ sized
  construct-sized h k =
      ap₂
        (λ a b. record {
          stations = stations;
          min_size = a;
          max_size = b;
          seed = int_of_unsigned seed;
        })
        (unsigned_int min_size (omega arith)) (unsigned_int max_size (omega arith))

  small_int : (u : ℕ) → u < 2 ^ 31 → is_int (pos u) ≡ true
  small_int u h = ground arith

  generate_order-pick_n_random :
      (t : ℕ)
      → min_size ≤ max_size
      → max_size + 1 < 2 ^ 31
      → generate_order rand sized t ≡ in_order (pick_n_random rand stations (pos (size t)) (suc t))
  unfolding generate_order
  generate_order-pick_n_random t h k =
      let (low, high) = size_bounds t h in
      let positive : (max_size - min_size + 1 == 0) ≡ false = ground arith in
      rw
        (
          generate_order,
          span_of min_size max_size h,
          small_int (max_size - min_size) (omega arith),
          small_int (max_size - min_size + 1) (omega arith),
          positive,
          small_int (size t) (omega arith),
        )
        refl

  -- The order holds between min_size and max_size stations, all different and all of the generator's.
  pub generate_order-IsOrder :
      (t : ℕ)
      → IsDistinct stations
      → min_size ≤ max_size
      → max_size ≤ length stations
      → max_size + 1 < 2 ^ 31
      → (order : Order) × (t' : ℕ) × (generate_order rand
            (construct stations seed min_size max_size)
            t
          ≡ drawn order t')
        × IsOrder stations min_size max_size order
  generate_order-IsOrder t d h l k =
      let (low, high) = size_bounds t h in
      let (picked, e, len, (distinct, all)) =
        pick_n_random-Picks rand stations (size t) (suc t) d (omega arith) in
      (
        record { stations = picked },
        suc t + size t,
        ap (λ g. generate_order rand g t) (construct-sized h k)
            ∙ generate_order-pick_n_random t h k
            ∙ ap in_order e,
        (rw len low, rw len high, distinct, all),
      )

  orders_loop-IsOrder :
      (n t : ℕ) (orders : List Order)
      → IsDistinct stations
      → min_size ≤ max_size
      → max_size ≤ length stations
      → max_size + 1 < 2 ^ 31
      → (more : List Order) × (t' : ℕ) × (orders_loop rand
            (construct stations seed min_size max_size)
            n
            orders
            t
          ≡ drawn (orders ++ more) t')
        × (length more ≡ n)
        × All (IsOrder stations min_size max_size) more
  unfolding orders_loop
  orders_loop-IsOrder zero t orders d h l k = ([], t, rw (append-nil orders) refl, refl, tt)
  orders_loop-IsOrder (suc n) t orders d h l k =
      let (order, t', e, is_order) = generate_order-IsOrder t d h l k in
      let (more, t'', f, len, all) = orders_loop-IsOrder n t' (orders ++ order ∷ []) d h l k in
      (
        order ∷ more,
        t'',
        rw (orders_loop, e) (f ∙ rw (append_assoc orders (order ∷ []) more) refl),
        ap suc len,
        (is_order, all),
      )

  -- When the stations of the generator are all different and its sizes are min_size ≤ max_size, both not
  -- above the number of stations (and max_size + 1 is an int), `generate_n_orders` makes n orders,
  -- whatever rand() returns, each of them of min_size to max_size different stations of the generator.
  pub generate_n_orders-IsOrder :
      (n t : ℕ)
      → IsDistinct stations
      → min_size ≤ max_size
      → max_size ≤ length stations
      → max_size + 1 < 2 ^ 31
      → (orders : List Order) × (t' : ℕ) × (generate_n_orders rand
            (construct stations seed min_size max_size)
            (pos n)
            t
          ≡ drawn orders t')
        × (length orders ≡ n)
        × All (IsOrder stations min_size max_size) orders
  unfolding generate_n_orders
  generate_n_orders-IsOrder n t d h l k = orders_loop-IsOrder n t [] d h l k
