-- ===== src/Base/Double.antt =====
-- The type double, as a parameter: there are no floating-point numbers here, so the code that
-- computes with them is stated over any type with these operations.
use mathlib.Core.Bool.{Bool}
use Prim.Native.Nat.{ℕ, ◌+◌, ◌≤◌, ◌<◌}
use mathlib.Core.Path.{◌≡◌}
use p7_kode.Base.Tests.{ltb}
use p7_kode.Base.Int.{ℤ, pos}
use p7_kode.Base.Text.{Bytes}

pub record Double : Type 1 where
  pub Carrier : Type 0
  pub add : Carrier → Carrier → Carrier
  pub sub : Carrier → Carrier → Carrier
  pub mul : Carrier → Carrier → Carrier
  pub sqrt : Carrier → Carrier
  -- a < b
  pub lt : Carrier → Carrier → Bool
  -- The value of a literal of the source, and of an int.
  pub literal : Bytes → Carrier
  pub of_int : ℤ → Carrier
  pub dbl_max : Carrier

-- What a proof about sums of doubles supposes: the values stand for whole numbers of some unit, the
-- order is that of the units, and a sum that is not above DBL_MAX is exact, while a larger one is
-- rounded to DBL_MAX or above.
pub record Exact (d : Double) : Type 0 where
  pub units : d.Carrier → ℕ
  pub lt_units : (a b : d.Carrier) → d.lt a b ≡ ltb (units a) (units b)
  pub add_small :
      (a b : d.Carrier)
      → units a + units b ≤ units d.dbl_max
      → units (d.add a b) ≡ units a + units b
  pub add_large :
      (a b : d.Carrier) → units d.dbl_max < units a + units b → units d.dbl_max ≤ units (d.add a b)
  pub zero_units : units (d.of_int (pos 0)) ≡ 0
