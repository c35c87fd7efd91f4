-- ===== src/Webot/Geo/Bounds.antt =====
-- webot/controllers/waypoints_runner/geo/geo.cpp: the range of an angle.
use p7_kode.Base.{◌≡◌, subst, inl, inr, true, false, Bool-cases, if◌then◌else◌}
use p7_kode.Base.Int.{pos}
use p7_kode.Base.Double.{Double}
use p7_kode.Base.Trig.{Trig, two_pi}
use p7_kode.Webot.Geo.{constrain_angle, make_angle}

-- What the range of an angle rests on. `IsFinite` is a double that is neither NaN nor infinite; of these
-- < and <= are one order, adding and subtracting the same finite number keeps <= (the rounding is
-- monotone), std::fmod by 2 * pi is finite and
-- stays between -2 * pi and 2 * pi, and the sums of 2 * pi, pi and 0 that stand here are exact.
pub record AngleLaws (d : Double) (t : Trig d) (IsFinite : d.Carrier → Type 0) : Type 0 where
  pub lt_le : (a b : d.Carrier) → d.lt a b ≡ true → t.le a b ≡ true
  pub ge_le : (a b : d.Carrier) → IsFinite a → IsFinite b → d.lt a b ≡ false → t.le b a ≡ true
  pub add_two_pi_le :
      (a b : d.Carrier)
      → IsFinite a
      → IsFinite b
      → t.le a b ≡ true
      → t.le (d.add a (two_pi d t)) (d.add b (two_pi d t)) ≡ true
  pub sub_pi_le : (a b : d.Carrier) → t.le a b ≡ true → t.le (d.sub a t.pi) (d.sub b t.pi) ≡ true
  pub IsFinite-fmod : (a : d.Carrier) → IsFinite a → IsFinite (t.fmod a (two_pi d t))
  pub IsFinite-zero : IsFinite (d.of_int (pos 0))
  pub IsFinite-neg_two_pi : IsFinite (t.neg (two_pi d t))
  pub fmod_above :
      (a : d.Carrier) → IsFinite a → t.le (t.neg (two_pi d t)) (t.fmod a (two_pi d t)) ≡ true
  pub fmod_below : (a : d.Carrier) → IsFinite a → t.le (t.fmod a (two_pi d t)) (two_pi d t) ≡ true
  pub add_neg_two_pi : d.add (t.neg (two_pi d t)) (two_pi d t) ≡ d.of_int (pos 0)
  pub add_zero_two_pi : d.add (d.of_int (pos 0)) (two_pi d t) ≡ two_pi d t
  pub sub_two_pi : d.sub (two_pi d t) t.pi ≡ t.pi
  pub sub_zero : d.sub (d.of_int (pos 0)) t.pi ≡ t.neg t.pi

module _ (d : Double) (t : Trig d) (IsFinite : d.Carrier → Type 0)
    (laws : AngleLaws d t IsFinite) where
  open d use {Carrier, add, sub, lt, of_int}
  open t use {pi, le, neg, fmod}
  open laws use {
    lt_le, ge_le, add_two_pi_le, sub_pi_le, IsFinite-fmod, IsFinite-zero, IsFinite-neg_two_pi,
    fmod_above, fmod_below, add_neg_two_pi, add_zero_two_pi, sub_two_pi, sub_zero,
  }

  -- From 0 to 2 * pi.
  abbrev lifted : Carrier → Carrier
  lifted rest = if lt rest (of_int (pos 0)) then add rest (two_pi d t) else rest

  lifted-bounded :
      (rest : Carrier)
      → IsFinite rest
      → le (neg (two_pi d t)) rest ≡ true
      → le rest (two_pi d t) ≡ true
      → (le (of_int (pos 0)) (lifted rest) ≡ true) × (le (lifted rest) (two_pi d t) ≡ true)
  lifted-bounded rest finite low high = elim (Bool-cases (lt rest (of_int (pos 0)))) [
    | inl e ↦ rw e (
      subst (λ z. le z (add rest (two_pi d t)) ≡ true) add_neg_two_pi
          (add_two_pi_le (neg (two_pi d t)) rest IsFinite-neg_two_pi finite low),
      subst (λ z. le (add rest (two_pi d t)) z ≡ true) add_zero_two_pi
          (add_two_pi_le rest (of_int (pos 0)) finite IsFinite-zero
            (lt_le rest (of_int (pos 0)) e)),
    )
    | inr e ↦ rw e (ge_le rest (of_int (pos 0)) finite IsFinite-zero e, high)
  ]

  -- For an angle that is a finite number, and finite also after pi is added, and under the laws of
  -- AngleLaws for finite doubles, the angle that Angle keeps is from -pi to pi, both included. Nothing is
  -- said of NaN and of infinite angles.
  pub make_angle-bounded :
      (angle : Carrier)
      → IsFinite (add angle pi)
      → (le (neg pi) (make_angle d t angle).theta ≡ true)
        × (le (make_angle d t angle).theta pi ≡ true)
  unfolding make_angle constrain_angle
  make_angle-bounded angle finite =
      let rest = fmod (add angle pi) (two_pi d t) in
      let (low, high) =
        lifted-bounded rest (IsFinite-fmod (add angle pi) finite) (fmod_above (add angle pi) finite)
          (fmod_below (add angle pi) finite) in
      (
        subst (λ z. le z (sub (lifted rest) pi) ≡ true) sub_zero
            (sub_pi_le (of_int (pos 0)) (lifted rest) low),
        subst (λ z. le (sub (lifted rest) pi) z ≡ true) sub_two_pi
            (sub_pi_le (lifted rest) (two_pi d t) high),
      )
