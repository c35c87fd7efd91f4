-- ===== src/Base/Exec.antt =====
-- Code that changes a state and may throw: what it throws leaves the state as it then is.
use p7_kode.Base.Errors.{Exception, Result, ok, err}
use mathlib.Core.Option.{Option, none, some}

abbrev pub Exec : Type 0 → Type 0 → Type 0
Exec S A = S → Result A × S

module _ {S : Type 0} where
  abbrev pub pure : {A : Type 0} → A → Exec S A
  pure a s = (ok a, s)

  abbrev pub throw : {A : Type 0} → Exception → Exec S A
  throw e s = (err e, s)

  abbrev pub lift : {A : Type 0} → Result A → Exec S A
  lift r s = (r, s)

  abbrev pub continue : {A B : Type 0} → (A → Exec S B) → Result A → Exec S B
  continue f (ok a) s = f a s
  continue f (err e) s = (err e, s)

  infixl 5 ◌>>=◌ ◌>>◌
  abbrev pub ◌>>=◌ : {A B : Type 0} → Exec S A → (A → Exec S B) → Exec S B
  ◌>>=◌ m f s = continue f (m s).0 (m s).1

  abbrev pub ◌>>◌ : {B : Type 0} → Exec S (Unit {0}) → Exec S B → Exec S B
  m >> k = m >>= λ _. k

  -- try { m } catch …: `h` says for which exceptions there is a handler.
  abbrev pub handle : {A : Type 0} → (Exception → Option (Exec S A)) → Result A → Exec S A
  handle h (ok a) s = (ok a, s)
  handle h (err e) s = elim (h e) [ none ↦ (err e, s) | some k ↦ k s ]

  abbrev pub try_catch : {A : Type 0} → Exec S A → (Exception → Option (Exec S A)) → Exec S A
  try_catch m h s = handle h (m s).0 (m s).1
