-- ===== src/Base/Trig.antt =====
-- What the robot controller uses of <cmath> and of the type double beyond Base.Double, as a parameter.
use mathlib.Core.Bool.{Bool}
use p7_kode.Base.Int.{ℤ, pos}
use p7_kode.Base.Tests.{if◌then◌else◌}
use p7_kode.Base.Double.{Double}

pub record Trig (d : Double) : Type 0 where
  -- M_PI
  pub pi : d.Carrier
  -- a <= b; a < b is that of Base.Double
  pub le : d.Carrier → d.Carrier → Bool
  pub neg : d.Carrier → d.Carrier
  pub div : d.Carrier → d.Carrier → d.Carrier
  pub pow : d.Carrier → d.Carrier → d.Carrier
  pub fmod : d.Carrier → d.Carrier → d.Carrier
  -- `abs` as robot.cpp calls it on a double, unqualified: std::abs, or ::abs of int, which drops the
  -- fraction, as the headers have it. No law is supposed of it.
  pub abs : d.Carrier → d.Carrier
  pub sin : d.Carrier → d.Carrier
  pub cos : d.Carrier → d.Carrier
  -- atan2(y, x)
  pub atan2 : d.Carrier → d.Carrier → d.Carrier
  -- std::round, and the int that it becomes
  pub round : d.Carrier → ℤ

module _ (d : Double) where
  -- std::min(a, b)
  abbrev pub min : d.Carrier → d.Carrier → d.Carrier
  min a b = if d.lt b a then b else a

  abbrev pub two_pi : Trig d → d.Carrier
  two_pi t = d.mul (d.of_int (pos 2)) t.pi
