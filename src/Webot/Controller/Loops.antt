-- ===== src/Webot/Controller/Loops.antt =====
-- webot/controllers/waypoints_runner/robot.cpp: what its counting loops reach.
use p7_kode.Base.{
  ℕ, zero, suc, ◌<◌, ◌≡◌, refl, Option, some, arith, List, [], ◌∷◌, length, get_elem?, ◌⊎◌,
}
use p7_kode.Webot.Controller.{for_up}

-- A result in which this holds.
abbrev pub Gives : {S : Type 0} → Option S → (S → Type 0) → Type 0
Gives {S = S} o P = (s : S) × (o ≡ some s) × P s

module _ {S : Type 0} (P : ℕ → S → Type 0) where
  -- A loop whose body is defined and keeps what the counter says is defined and reaches it.
  pub for_up-Gives :
      (n : ℕ) (body : ℕ → S → Option S) (s : S)
      → P 0 s
      → ((i : ℕ) (s' : S) → i < n → P i s' → Gives (body i s') (P (suc i)))
      → Gives (for_up n body s) (P n)
  unfolding for_up
  for_up-Gives zero body s start step = (s, refl, start)
  for_up-Gives (suc n) body s start step =
      let (s1, e1, h1) = for_up-Gives n body s start (λ i s' lt h. step i s' (omega arith) h) in
      let (s2, e2, h2) = step n s1 (omega arith) h1 in (s2, (rw e1 e2), h2)

pub before_or_last : (k n : ℕ) → k < suc n → (k < n) ⊎ (k ≡ n)
before_or_last k n h = grind arith

module _ {A : Type 0} where
  pub get_elem?_below : (xs : List A) (i : ℕ) → i < length xs → Gives (get_elem? xs i) (λ _. Unit)
  get_elem?_below [] i h = absurd (omega arith)
  get_elem?_below (x ∷ xs) zero h = (x, refl, tt)
  get_elem?_below (x ∷ xs) (suc i) h = get_elem?_below xs i (omega arith)
