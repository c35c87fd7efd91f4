-- ===== src/Base/Fallible.antt =====
-- Code that may throw and changes no state.
use mathlib.Core.Path.{◌≡◌}
use p7_kode.Base.Errors.{Result, ok, err}

infixl 5 ◌>>=◌
abbrev pub ◌>>=◌ {ℓ κ} : {A : Type ℓ} {B : Type κ} → Result A → (A → Result B) → Result B
ok a >>= f = f a
err e >>= f = err e

-- The value, if there is one, has the property.
abbrev pub Holds {ℓ} : {A : Type ℓ} → (A → Type 0) → Result A → Type 0
Holds P (ok a) = P a
Holds P (err e) = Unit

pub Holds->>= :
    {A B : Type 0} (P : A → Type 0) (Q : B → Type 0) (m : Result A) (f : A → Result B)
    → Holds P m
    → ((a : A) → P a → Holds Q (f a))
    → Holds Q (m >>= f)
Holds->>= P Q (ok a) f h k = k a h
Holds->>= P Q (err e) f h k = tt

-- There is a value, and it has the property.
abbrev pub Returns {ℓ} : {A : Type ℓ} → (A → Type 0) → Result A → Type 0
Returns P (ok a) = P a
Returns P (err e) = ⊥

pub Returns->>= :
    {A B : Type 0} (P : A → Type 0) (Q : B → Type 0) (m : Result A) (f : A → Result B)
    → Returns P m
    → ((a : A) → P a → Returns Q (f a))
    → Returns Q (m >>= f)
Returns->>= P Q (ok a) f h k = k a h
Returns->>= P Q (err e) f h k = h

-- What follows may suppose the property.
pub Returns-then :
    {A B : Type 0} (P : A → Type 0) (m : Result A) (f : A → Result B) (r : Result B)
    → Returns P m
    → ((a : A) → P a → f a ≡ r)
    → (m >>= f) ≡ r
Returns-then P (ok a) f r h k = k a h
Returns-then P (err e) f r h k = absurd h

pub Returns-map :
    {A : Type 0} (P Q : A → Type 0) (m : Result A)
    → ((a : A) → P a → Q a)
    → Returns P m
    → Returns Q m
Returns-map P Q (ok a) k h = k a h
Returns-map P Q (err e) k h = h
