-- ===== src/Wbt/Apsp/Cells.antt =====
-- wbt-translator/src/apsp.cpp: the maps of the algorithm seen as tables over the ids below `n`.
use p7_kode.Base.{
  ℕ, zero, suc, ◌<◌, ◌≡◌, refl, sym, inl, inr, ◌⊎◌, ◌&&◌, Result, ok, err, arith, ◌==◌, ==_iff,
  if◌then◌else◌, Bool-cases,
}
use p7_kode.Base.Fallible.{◌>>=◌}
use p7_kode.Base.Int.{ℤ, pos, eqb_ℤ}
use p7_kode.Base.IntMap.{IntMap, insert_or_assign, lookup-insert_or_assign}
use p7_kode.Base.Double.{Double}
use p7_kode.Wbt.Apsp.{
  Matrix, at_key, at2, assign_at2, for_up, ApspResult, assign, relax, round, rounds,
}

module _ {V : Type 0} where
  -- The entries of the matrix at the ids below `n` are those of the table.
  abbrev pub Shows : ℕ → Matrix V → (ℕ → ℕ → V) → Type 0
  Shows n m f = (i j : ℕ) → i < n → j < n → at2 m (pos i) (pos j) ≡ ok (f i j)

  abbrev pub update2 : (ℕ → ℕ → V) → ℕ → ℕ → V → ℕ → ℕ → V
  update2 f i j v a b = if (i == a) && (j == b) then v else f a b

  -- A matrix that has an entry has its row.
  row_of_entry :
      (m : Matrix V) (i j : ℤ) {v : V}
      → at2 m i j ≡ ok v
      → (row : IntMap V) × (at_key m i ≡ ok row) × (at_key row j ≡ ok v)
  unfolding at2
  row_of_entry m i j h = split_entry (at_key m i) h
    where
      split_entry :
          (found : Result (IntMap V)) {v : V}
          → (do row ← found; at_key row j) ≡ ok v
          → (row : IntMap V) × (found ≡ ok row) × (at_key row j ≡ ok v)
      split_entry (ok row) e = (row, refl, e)
      split_entry (err exception) e = cc

  at_key-insert :
      (m : IntMap V) (k j : ℤ) (v : V)
      → at_key (insert_or_assign k v m) j ≡ (if eqb_ℤ k j then ok v else at_key m j)
  at_key-insert m k j v = elim (Bool-cases (eqb_ℤ k j)) [
    | inl e ↦ rw (at_key, lookup-insert_or_assign k j v m, e)
    | inr e ↦ rw (at_key, lookup-insert_or_assign k j v m, e)
  ]

module _ {V : Type 0} (f : ℕ → ℕ → V) (i j : ℕ) (v : V) where
  pub update2-or_old :
      (a b : ℕ) → (update2 f i j v a b ≡ f a b) ⊎ ((a ≡ i) × (b ≡ j) × (update2 f i j v a b ≡ v))
  update2-or_old a b = elim (Bool-cases (i == a)) [
    | inl e ↦ elim (Bool-cases (j == b)) [
      | inl e' ↦ inr (sym ((==_iff i a).0 e), sym ((==_iff j b).0 e'), rw (e, e') refl)
      | inr e' ↦ inl (rw (e, e') refl)
    ]
    | inr e ↦ inl (rw e refl)
  ]

  pub update2-new : update2 f i j v i j ≡ v
  update2-new = rw ((==_iff i i).1 refl, (==_iff j j).1 refl) refl

module _ {V : Type 0} where
  at2-insert :
      (m : Matrix V) (f : ℕ → ℕ → V) (i j a b : ℕ) (v : V) (row : IntMap V)
      → at_key m (pos i) ≡ ok row
      → at2 m (pos a) (pos b) ≡ ok (f a b)
      → at2 (insert_or_assign (pos i) (insert_or_assign (pos j) v row) m) (pos a) (pos b)
        ≡ ok (update2 f i j v a b)
  unfolding at2
  at2-insert m f i j a b v row e h = elim (Bool-cases (i == a)) [
    | inl same ↦
        let this_row : at_key m (pos a) ≡ ok row = rw (← (==_iff i a).0 same) e in
        let cell : at_key row (pos b) ≡ ok (f a b) = rw (this_row, at2) at h in
        rw (at_key-insert m (pos i) (pos a) _, same, at_key-insert row (pos j) (pos b) v)
          (elim (Bool-cases (j == b)) [ inl e' ↦ rw e' refl | inr e' ↦ rw e' cell ])
    | inr other ↦ rw (at_key-insert m (pos i) (pos a) _, other) h
  ]

module _ {V : Type 0} where
  pub assign_at2-Shows :
      (n : ℕ) (m : Matrix V) (f : ℕ → ℕ → V) (i j : ℕ) (v : V)
      → Shows n m f
      → i < n
      → j < n
      → (m' : Matrix V) × (assign_at2 m (pos i) (pos j) v ≡ ok m') × Shows n m' (update2 f i j v)
  unfolding assign_at2 at2
  assign_at2-Shows n m f i j v h hi hj =
      let (row, e, g) = row_of_entry m (pos i) (pos j) (h i j hi hj) in
      (
        insert_or_assign (pos i) (insert_or_assign (pos j) v row) m,
        rw (e, g),
        λ a b ha hb. at2-insert m f i j a b v row e (h a b ha hb),
      )

-- The two matrices as tables.
pub record Tables (V : Type 0) : Type 0 where
  pub dist : ℕ → ℕ → V
  pub next : ℕ → ℕ → ℤ

-- A counting loop on tables.
abbrev pub for_tables {ℓ} : {T : Type ℓ} → ℕ → (ℕ → T → T) → T → T
for_tables zero body t = t
for_tables (suc n) body t = body n (for_tables n body t)

-- A loop whose body is, on what `P` relates, the body on tables.
pub for_up-for_tables {ℓ κ} :
    {S : Type ℓ} {T : Type ℓ} (P : S → T → Type κ) (n : ℕ) (body : ℕ → S → Result S)
    (step : ℕ → T → T)
    → ((i : ℕ) → i < n → (s : S) (t : T) → P s t → (s' : S) × (body i s ≡ ok s') × P s' (step i t))
    → (s : S) (t : T) → P s t
    → (s' : S) × (for_up n body s ≡ ok s') × P s' (for_tables n step t)
unfolding for_up
for_up-for_tables P zero body step keep s t h = (s, refl, h)
for_up-for_tables P (suc n) body step keep s t h =
    let (s', e, h') = for_up-for_tables P n body step (λ i hi. keep i (omega arith)) s t h in
    let (s'', e', h'') = keep n (omega arith) s' _ h' in (s'', rw (e, e'), h'')

module _ (d : Double) where
  open d use {Carrier, add, lt}

  pub record Represents (n : ℕ) (r : ApspResult d) (t : Tables Carrier) : Type 0 where
    pub dist_shown : Shows n r.dist t.dist
    pub next_shown : Shows n r.next t.next

  abbrev pub assign_tables : ℕ → ℕ → Carrier → ℤ → Tables Carrier → Tables Carrier
  assign_tables i j v first t = record {
    dist = update2 t.dist i j v;
    next = update2 t.next i j first;
  }

  pub assign-Represents :
      (n : ℕ) (i j : ℕ) (v : Carrier) (first : ℤ) (r : ApspResult d) (t : Tables Carrier)
      → Represents n r t
      → i < n
      → j < n
      → (r' : ApspResult d) × (assign d (pos i) (pos j) v first r ≡ ok r')
        × Represents n r' (assign_tables i j v first t)
  unfolding assign
  assign-Represents n i j v first r t h hi hj =
      let (dist, e, hd) = assign_at2-Shows n r.dist t.dist i j v h.dist_shown hi hj in
      let (next, f, hn) = assign_at2-Shows n r.next t.next i j first h.next_shown hi hj in
      (record { dist = dist; next = next }, rw (e, f), record { dist_shown = hd; next_shown = hn })

  unfoldable pub relax_tables : ℕ → ℕ → ℕ → Tables Carrier → Tables Carrier
  relax_tables k i j t =
      let new_dist = add (t.dist i k) (t.dist k j) in
      if lt new_dist (t.dist i j) then assign_tables i j new_dist (t.next i k) t else t

  relax-Represents :
      (n k i j : ℕ) (r : ApspResult d) (t : Tables Carrier)
      → k < n
      → i < n
      → j < n
      → Represents n r t
      → (r' : ApspResult d) × (relax d k i j r ≡ ok r') × Represents n r' (relax_tables k i j t)
  unfolding relax relax_tables
  relax-Represents n k i j r t hk hi hj h =
      let new_dist = add (t.dist i k) (t.dist k j) in
      elim (Bool-cases (lt new_dist (t.dist i j))) [
        | inl e ↦
            let (r', f, h') = assign-Represents n i j new_dist (t.next i k) r t h hi hj in
            (
              r',
              rw (
                h.dist_shown i k hi hk,
                h.dist_shown k j hk hj,
                h.dist_shown i j hi hj,
                e,
                h.next_shown i k hi hk,
                f,
              ),
              rw e h',
            )
        | inr e ↦ (
          r,
          rw (h.dist_shown i k hi hk, h.dist_shown k j hk hj, h.dist_shown i j hi hj, e),
          rw e h,
        )
      ]

  abbrev pub round_tables : ℕ → ℕ → Tables Carrier → Tables Carrier
  round_tables n k = for_tables n (λ i. for_tables n (λ j. relax_tables k i j))

  abbrev pub rounds_tables : ℕ → Tables Carrier → Tables Carrier
  rounds_tables n = for_tables n (round_tables n)

  -- The three loops on the maps end without an exception, and do on them what they do on tables.
  pub rounds-Represents :
      (n : ℕ) (r : ApspResult d) (t : Tables Carrier)
      → Represents n r t
      → (r' : ApspResult d) × (rounds d n r ≡ ok r') × Represents n r' (rounds_tables n t)
  unfolding rounds round
  rounds-Represents n = for_up-for_tables (Represents n) n (round d n) (round_tables n) (λ k hk.
      for_up-for_tables (Represents n) n _ _ (λ i hi.
        for_up-for_tables (Represents n) n _ _ (λ j hj r t. relax-Represents n k i j r t hk hi hj)))
