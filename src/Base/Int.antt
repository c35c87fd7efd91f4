-- ===== src/Base/Int.antt =====
-- The integers of the program's `int`, and the range of its 32 bits.
use Prim.Native.Nat.{ℕ, zero, suc, ◌+◌, ◌-◌, ◌^◌, ◌≤◌}
use mathlib.Core.Path.{◌≡◌}
use mathlib.Core.Bool.{Bool, true, false}
use mathlib.Core.Logic.{◌↔◌}
use native.Mathlib.Omega.{arith}
use p7_kode.Base.Tests.{leb, ltb, ◌==◌, if◌then◌else◌}

-- `negsuc n` is -(n + 1).
pub data ℤ : Type 0 where
  pos : ℕ → ℤ
  negsuc : ℕ → ℤ

-- a == b
abbrev pub eqb_ℤ : ℤ → ℤ → Bool
eqb_ℤ (pos a) (pos b) = a == b
eqb_ℤ (negsuc a) (negsuc b) = a == b
eqb_ℤ _ _ = false

pub eqb_ℤ_iff : (a b : ℤ) → (eqb_ℤ a b ≡ true) ↔ (a ≡ b)
eqb_ℤ_iff a b = ground arith

-- Order of the integers: `ltb_ℤ a b` is a < b.
abbrev pub leb_ℤ : ℤ → ℤ → Bool
leb_ℤ (pos a) (pos b) = leb a b
leb_ℤ (pos a) (negsuc b) = false
leb_ℤ (negsuc a) (pos b) = true
leb_ℤ (negsuc a) (negsuc b) = leb b a

-- The values of a 32-bit int: -2^31 ≤ z < 2^31.
abbrev pub InInt : ℤ → Type 0
InInt (pos n) = suc n ≤ 2 ^ 31
InInt (negsuc n) = suc n ≤ 2 ^ 31

-- a - b for natural numbers
abbrev difference : ℕ → ℕ → ℤ
difference a b = if leb b a then pos (a - b) else negsuc (b - a - 1)

infixl 6 ◌+ℤ◌ ◌-ℤ◌
abbrev pub ◌+ℤ◌ : ℤ → ℤ → ℤ
pos a +ℤ pos b = pos (a + b)
pos a +ℤ negsuc b = difference a (b + 1)
negsuc a +ℤ pos b = difference b (a + 1)
negsuc a +ℤ negsuc b = negsuc (a + b + 1)

abbrev pub ◌-ℤ◌ : ℤ → ℤ → ℤ
a -ℤ pos zero = a
a -ℤ pos (suc b) = a +ℤ negsuc b
a -ℤ negsuc b = a +ℤ pos (b + 1)

-- The value is one of a 32-bit int.
abbrev pub is_int : ℤ → Bool
is_int (pos n) = ltb n (2 ^ 31)
is_int (negsuc n) = ltb n (2 ^ 31)

abbrev pub magnitude : ℤ → ℕ
magnitude (pos n) = n
magnitude (negsuc n) = n + 1

-- The int that an unsigned becomes.
abbrev pub int_of_unsigned : ℕ → ℤ
int_of_unsigned u = if ltb u (2 ^ 31) then pos u else negsuc (2 ^ 32 - 1 - u)
