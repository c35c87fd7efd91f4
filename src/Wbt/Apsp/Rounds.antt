-- ===== src/Wbt/Apsp/Rounds.antt =====
-- wbt-translator/src/apsp.cpp: what the three loops make of the distances.
use p7_kode.Base.{
  ℕ, zero, suc, ◌+◌, ◌≤◌, ◌<◌, ◌≡◌, refl, ◌∙◌, inl, inr, ◌⊎◌, arith, ◌==◌, ==_iff, Bool-cases,
}
use p7_kode.Wbt.Apsp.Cells.{for_tables}

-- An invariant of a counting loop, indexed by the rounds that are over.
pub for_tables_inv {ℓ κ} :
    {T : Type ℓ} (Q : ℕ → T → Type κ) (n : ℕ) (step : ℕ → T → T)
    → ((i : ℕ) → i < n → (t : T) → Q i t → Q (suc i) (step i t))
    → (t : T) → Q 0 t
    → Q n (for_tables n step t)
for_tables_inv Q zero step keep t h = h
for_tables_inv Q (suc n) step keep t h =
    keep n (omega arith) _ (for_tables_inv Q n step (λ i hi. keep i (omega arith)) t h)

pub ≤-cases : (a b : ℕ) → a ≤ b → (a < b) ⊎ (a ≡ b)
≤-cases a b h = elim (Bool-cases (a == b)) [
  | inl e ↦ inr ((==_iff a b).0 e)
  | inr e ↦ inl (ground (arith, ==_iff a b))
]

-- The distances of a table, in units.
abbrev pub Lengths : Type 0
Lengths = ℕ → ℕ → ℕ

-- What one relaxation of (i, j) by k makes of `u`: at most that entry changes, and then to the smaller
-- sum.
pub record Relaxed (k i j : ℕ) (u u' : Lengths) : Type 0 where
  pub entries :
      (a b : ℕ)
      → (u' a b ≡ u a b) ⊎ ((a ≡ i) × (b ≡ j) × (u' a b ≡ u i k + u k j) × (u i k + u k j < u i j))
  pub bounded : u' i j ≤ u i k + u k j

-- In the round of k, against the lengths `s` at its start.
pub record Mid (k : ℕ) (s u : Lengths) : Type 0 where
  pub shorter : (a b : ℕ) → u a b ≤ s a b
  pub old_or_new : (a b : ℕ) → (u a b ≡ s a b) ⊎ (u a b ≡ s a k + s k b)
  pub column : (a : ℕ) → u a k ≡ s a k
  pub row : (b : ℕ) → u k b ≡ s k b

module _ (k i j : ℕ) (s u u' : Lengths) (r : Relaxed k i j u u') where
  Relaxed-shorter : (a b : ℕ) → u' a b ≤ u a b
  Relaxed-shorter a b = elim (r.entries a b) [
    | inl e ↦ omega arith
    | inr (e, f, g, h) ↦ rw (e, f) (omega arith)
  ]

  Relaxed-Mid : Mid k s u → Mid k s u'
  Relaxed-Mid m = record {
    shorter = λ a b. let e = Relaxed-shorter a b in let f = m.shorter a b in omega arith;
    old_or_new = λ a b. elim (r.entries a b) [
      | inl e ↦ rw e (m.old_or_new a b)
      | inr (e, f, g, h) ↦ inr (g ∙ rw (m.column i, m.row j, e, f) refl)
    ];
    column = λ a. elim (r.entries a k) [
      | inl e ↦ e ∙ m.column a
      | inr (e, f, g, h) ↦ absurd (let h' = rw (← e, ← f) at h in omega arith)
    ];
    row = λ b. elim (r.entries k b) [
      | inl e ↦ e ∙ m.row b
      | inr (e, f, g, h) ↦ absurd (let h' = rw (← e, ← f) at h in omega arith)
    ];
  }

module _ (k n : ℕ) (s : Lengths) where
  -- In the round of k, before the relaxation of (i, j).
  pub record InRound (i j : ℕ) (u : Lengths) : Type 0 where
    pub mid : Mid k s u
    pub above : (a b : ℕ) → a < i → b < n → u a b ≤ s a k + s k b
    pub left : (b : ℕ) → b < j → u i b ≤ s i k + s k b

  pub InRound-start : InRound 0 0 s
  InRound-start = record {
    mid = record {
      shorter = λ a b. omega arith;
      old_or_new = λ a b. inl refl;
      column = λ a. refl;
      row = λ b. refl;
    };
    above = λ a b h. absurd (omega arith);
    left = λ b h. absurd (omega arith);
  }

  pub InRound-step :
      (i j : ℕ) (u u' : Lengths) → Relaxed k i j u u' → InRound i j u → InRound i (suc j) u'
  InRound-step i j u u' r h = record {
    mid = Relaxed-Mid k i j s u u' r h.mid;
    above = λ a b ha hb.
        let e = Relaxed-shorter k i j s u u' r a b in let f = h.above a b ha hb in omega arith;
    left = λ b hb. elim (≤-cases b j (omega arith)) [
      | inl before ↦
          let e = Relaxed-shorter k i j s u u' r i b in let f = h.left b before in omega arith
      | inr now ↦ rw (now, ← h.mid.column i, ← h.mid.row j) r.bounded
    ];
  }

  pub InRound-next_row : (i : ℕ) (u : Lengths) → InRound i n u → InRound (suc i) 0 u
  InRound-next_row i u h = record {
    mid = h.mid;
    above = λ a b ha hb. elim (≤-cases a i (omega arith)) [
      | inl before ↦ h.above a b before hb
      | inr now ↦ rw now (h.left b hb)
    ];
    left = λ b hb. absurd (omega arith);
  }
