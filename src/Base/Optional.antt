-- ===== src/Base/Optional.antt =====
-- Code that may do what C++ does not define, such as reading behind the end of a vector: `none`.
use mathlib.Core.Option.{Option, none, some}
use mathlib.Core.Bool.{Bool, true, false}
use p7_kode.Base.Tests.{if◌then◌else◌}
use mathlib.Core.Path.{◌≡◌, refl, subst}

infixl 5 ◌>>=◌
abbrev pub ◌>>=◌ {ℓ κ} : {A : Type ℓ} {B : Type κ} → Option A → (A → Option B) → Option B
some a >>= f = f a
none >>= f = none

-- Where there is a result, this holds of it.
abbrev pub Ensures {ℓ} : {A : Type ℓ} → Option A → (A → Type 0) → Type ℓ
Ensures {A = A} o P = (a : A) → o ≡ some a → P a

pub Ensures->>= {ℓ κ} :
    {A : Type ℓ} {B : Type κ} (o : Option A) (f : A → Option B) (Q : A → Type 0) (P : B → Type 0)
    → Ensures o Q
    → ((a : A) → Q a → Ensures (f a) P)
    → Ensures (o >>= f) P
Ensures->>= none f Q P h step b e = cc
Ensures->>= (some a) f Q P h step b e = step a (h a refl) b e

pub Ensures-some {ℓ} : {A : Type ℓ} (a : A) (P : A → Type 0) → P a → Ensures (some a) P
Ensures-some a P h b e = let f : a ≡ b = cc in subst P f h

pub Ensures-if {ℓ} :
    {A : Type ℓ} (b : Bool) (x y : Option A) (P : A → Type 0)
    → Ensures x P
    → Ensures y P
    → Ensures (if b then x else y) P
Ensures-if true x y P h k = h
Ensures-if false x y P h k = k
