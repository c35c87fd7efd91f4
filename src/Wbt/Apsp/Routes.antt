-- ===== src/Wbt/Apsp/Routes.antt =====
-- wbt-translator/src/apsp.cpp: the distances that the rounds leave are those of shortest routes.
use p7_kode.Base.{
  ℕ, suc, ◌+◌, ◌≤◌, ◌<◌, ◌≡◌, refl, ap, ◌∙◌, inl, inr, true, false, arith, Bool-cases,
}
use p7_kode.Base.Double.{Double, Exact}
use p7_kode.Wbt.Apsp.Cells.{
  Tables, update2-or_old, update2-new, relax_tables, round_tables, rounds_tables,
}
use p7_kode.Wbt.Apsp.Rounds.{
  Lengths, Relaxed, Mid, InRound, InRound-start, InRound-step, InRound-next_row, for_tables_inv,
  ≤-cases,
}

-- A route over the ids below `n`, of the given length: one entry of `s`, or two routes.
pub data Route (n : ℕ) (s : Lengths) : ℕ → ℕ → ℕ → Type 0 where
  entry : (i j : ℕ) → Route n s i j (s i j)
  join : (i k j w v : ℕ) → k < n → Route n s i k w → Route n s k j v → Route n s i j (w + v)

-- No detour over an id below `m` is shorter.
abbrev pub Settled : ℕ → ℕ → Lengths → Type 0
Settled m n u = (i j k : ℕ) → i < n → j < n → k < m → u i j ≤ u i k + u k j

module _ (k n : ℕ) (s u : Lengths) (m : Mid k s u) where
  Settled-round :
      k < n
      → ((i j : ℕ) → i < n → j < n → u i j ≤ s i k + s k j)
      → Settled k n s
      → Settled (suc k) n u
  Settled-round hk over h i j c hi hj hc = elim (≤-cases c k (omega arith)) [
    | inl before ↦
        let direct = m.shorter i j in
        let new = over i j hi hj in
        let old = h i j c hi hj before in
        let to_k = h i k c hi hk before in
        let from_k = h k j c hk hj before in
        elim (m.old_or_new i c) [
          | inl e ↦ elim (m.old_or_new c j) [ inl f ↦ omega arith | inr f ↦ omega arith ]
          | inr e ↦ elim (m.old_or_new c j) [ inl f ↦ omega arith | inr f ↦ omega arith ]
        ]
    | inr now ↦ rw (now, m.column i, m.row j) (over i j hi hj)
  ]

  Route-round :
      (t : Lengths)
      → k < n
      → ((i j : ℕ) → Route n t i j (s i j))
      → (i j : ℕ) → Route n t i j (u i j)
  Route-round t hk h i j = elim (m.old_or_new i j) [
    | inl e ↦ rw e (h i j)
    | inr e ↦ rw e (join i k j (s i k) (s k j) hk (h i k) (h k j))
  ]

-- What the rounds have made of `s` once those of the ids below `m` are over.
pub record After (n : ℕ) (s : Lengths) (m : ℕ) (u : Lengths) : Type 0 where
  pub shorter : (a b : ℕ) → u a b ≤ s a b
  pub settled : Settled m n u
  pub routes : (i j : ℕ) → Route n s i j (u i j)

After-start : (n : ℕ) (s : Lengths) → After n s 0 s
After-start n s = record {
  shorter = λ a b. omega arith;
  settled = λ i j k hi hj hk. absurd (omega arith);
  routes = entry;
}

pub After-shortest :
    (n : ℕ) (s u : Lengths)
    → After n s n u
    → (i j w : ℕ) → Route n s i j w
    → i < n
    → j < n
    → u i j ≤ w
After-shortest n s u h i j _ (entry _ _) hi hj = h.shorter i j
After-shortest n s u h i j _ (join _ k _ w v hk p q) hi hj =
    let first = After-shortest n s u h i k w p hi hk in
    let second = After-shortest n s u h k j v q hk hj in
    let over = h.settled i j k hi hj hk in omega arith

module _ (d : Double) (x : Exact d) where
  open d use {Carrier, add, lt, dbl_max}

  abbrev pub lengths : Tables Carrier → Lengths
  lengths t a b = x.units (t.dist a b)

  lt-add :
      (p q r : Carrier)
      → x.units r ≤ x.units dbl_max
      → lt (add p q) r ≡ true
      → (x.units (add p q) ≡ x.units p + x.units q) × (x.units p + x.units q < x.units r)
  lt-add p q r h e =
      let below = x.lt_units (add p q) r in
      let small = x.add_small p q in let large = x.add_large p q in ground arith

  not_lt-add :
      (p q r : Carrier)
      → x.units r ≤ x.units dbl_max
      → lt (add p q) r ≡ false
      → x.units r ≤ x.units p + x.units q
  not_lt-add p q r h e =
      let below = x.lt_units (add p q) r in
      let small = x.add_small p q in let large = x.add_large p q in ground arith

  relax_tables-Relaxed :
      (k i j : ℕ) (t : Tables Carrier)
      → ((a b : ℕ) → lengths t a b ≤ x.units dbl_max)
      → Relaxed k i j (lengths t) (lengths (relax_tables d k i j t))
  unfolding relax_tables
  relax_tables-Relaxed k i j t h =
      let v = add (t.dist i k) (t.dist k j) in
      elim (Bool-cases (lt v (t.dist i j))) [
        | inl e ↦
            let (sum, less) = lt-add (t.dist i k) (t.dist k j) (t.dist i j) (h i j) e in
            rw e (record {
              entries = λ a b. elim (update2-or_old t.dist i j v a b) [
                | inl old ↦ inl (ap x.units old)
                | inr (at_i, at_j, new) ↦ inr (at_i, at_j, ap x.units new ∙ sum, less)
              ];
              bounded = let new = ap x.units (update2-new t.dist i j v) ∙ sum in omega arith;
            })
        | inr e ↦ rw e (record {
          entries = λ a b. inl refl;
          bounded = not_lt-add (t.dist i k) (t.dist k j) (t.dist i j) (h i j) e;
        })
      ]

  module _ (n : ℕ) (s : Lengths) (small : (a b : ℕ) → s a b ≤ x.units dbl_max) where
    round_tables-InRound :
        (k : ℕ) (t : Tables Carrier)
        → After n s k (lengths t)
        → k < n
        → InRound k n (lengths t) n 0 (lengths (round_tables d n k t))
    round_tables-InRound k t after hk =
        for_tables_inv (λ i u. InRound k n (lengths t) i 0 (lengths u)) n _
          (λ i hi u h. InRound-next_row k n (lengths t) i _ (
            for_tables_inv (λ j u. InRound k n (lengths t) i j (lengths u)) n _
              (λ j hj u h.
                InRound-step k n (lengths t) i j (lengths u) _
                  (relax_tables-Relaxed k i j u (λ a b.
                    let e = h.mid.shorter a b in
                    let f = after.shorter a b in let g = small a b in omega arith))
                  h)
              u h))
          t (InRound-start k n (lengths t))

    round_tables-After :
        (k : ℕ) (t : Tables Carrier)
        → After n s k (lengths t)
        → k < n
        → After n s (suc k) (lengths (round_tables d n k t))
    round_tables-After k t after hk =
        let done = round_tables-InRound k t after hk in
        record {
          shorter = λ a b. let e = done.mid.shorter a b in let f = after.shorter a b in omega arith;
          settled =
              Settled-round k n (lengths t) _ done.mid hk (λ i j. done.above i j) after.settled;
          routes = Route-round k n (lengths t) _ done.mid s hk after.routes;
        }

  pub rounds_tables-After :
      (n : ℕ) (t : Tables Carrier)
      → ((a b : ℕ) → lengths t a b ≤ x.units dbl_max)
      → After n (lengths t) n (lengths (rounds_tables d n t))
  rounds_tables-After n t small =
      for_tables_inv (λ k u. After n (lengths t) k (lengths u)) n _
        (λ k hk u h. round_tables-After n (lengths t) small k u h hk) t (After-start n (lengths t))
