-- ===== src/Webot/Controller/Clear.antt =====
-- webot/controllers/waypoints_runner/robot.cpp: what `clear` decides.
use p7_kode.Base.{
  ℕ, suc, ◌<◌, ◌≡◌, refl, sym, ap, subst, ◌∙◌, Bool, true, false, not, Option, none, some, inl, inr,
  Bool-cases, arith,
}
use p7_kode.Base.Int.{pos}
use p7_kode.Base.Text.{codes}
use p7_kode.Base.Double.{Double}
use p7_kode.Base.Trig.{Trig}
use p7_kode.Webot.Geo.{Angle, from_polar, abs_angle, sub_angles}
use p7_kode.Webot.Controller.{
  is_to_goal, Controller, get_relative_angle_to_goal, index2angle, range_at,
}
use p7_kode.Webot.Controller.Loops.{before_or_last, Gives, for_up-Gives}
use p7_kode.Webot.Controller.Ranges.{IsComplete, range_at-Gives}
use p7_kode.Webot.Controller.Phases.{near_way, still_clear, clear}

module _ (d : Double) (t : Trig d) (c : Controller d) where
  -- How far the direction of an index is from that of the goal.
  abbrev turn_at : ℕ → Angle d
  turn_at i =
      abs_angle d t (sub_angles d t (index2angle d t i c) (get_relative_angle_to_goal d t c))

  -- The index is seen in front, and the obstacle there is no further than 0.021, the radius of the robot,
  -- from the straight way to the goal: the way off it is the range times the sine of the turn, with the
  -- sign taken off by `abs`.
  abbrev pub IsBlocked : ℕ → Type 0
  IsBlocked i =
      (dist : d.Carrier) × (range_at d t (pos i) c ≡ some (some dist))
      × (t.le (turn_at i).theta (t.div t.pi (d.of_int (pos 2))) ≡ true)
      × (t.le (t.abs (d.mul (t.neg dist) (t.sin (turn_at i).theta))) (d.literal (codes "0.021"))
          ≡ true)

  near_way-some :
      (a : Angle d) (dist : d.Carrier)
      → near_way d t a (some dist)
        ≡ t.le (t.abs (d.mul (t.neg dist) (t.sin a.theta))) (d.literal (codes "0.021"))
  unfolding from_polar
  near_way-some a dist = refl

  -- `clear` answers true where no index is blocked, and false where one is.
  abbrev pub Verdict : ℕ → Bool → Type 0
  Verdict n true = (i : ℕ) → i < n → ¬ IsBlocked i
  Verdict n false = (i : ℕ) × (i < n) × IsBlocked i

  module _ (complete : IsComplete d c) where
    last_free : (n : ℕ) → ¬ IsBlocked n → Verdict n true → Verdict (suc n) true
    last_free n free h i below blocked = elim (before_or_last i n below) [
      | inl earlier ↦ h i earlier blocked
      | inr last ↦ free (subst (λ z. IsBlocked z) last blocked)
    ]

    near_way-Verdict :
        (n : ℕ) (range : Option d.Carrier)
        → range_at d t (pos n) c ≡ some range
        → t.le (turn_at n).theta (t.div t.pi (d.of_int (pos 2))) ≡ true
        → Verdict n true
        → Verdict (suc n) (not (near_way d t (turn_at n) range))
    near_way-Verdict n none e front h = last_free n (λ (dist, f, g, k). cc) h
    near_way-Verdict n (some dist) e front h =
        elim (Bool-cases (near_way d t (turn_at n) (some dist))) [
          | inl near ↦
              rw near
                (n, (omega arith), (dist, e, front, sym (near_way-some (turn_at n) dist) ∙ near))
          | inr far ↦ rw far (
              last_free n
                (λ (dist', f, g, k).
                  let same : some (some dist) ≡ some (some dist') = sym e ∙ f in
                  let same' : dist ≡ dist' = cc in
                  let k' = ap (λ z. near_way d t (turn_at n) (some z)) same' in
                  let k'' = near_way-some (turn_at n) dist' in cc)
                h)
        ]

    still_clear-Verdict :
        (n : ℕ) (free : Bool)
        → n < c.lidar_resolution
        → Verdict n free
        → Gives (still_clear d t c n free) (Verdict (suc n))
    still_clear-Verdict n false h (i, below, blocked) = (false, refl, (i, (omega arith), blocked))
    still_clear-Verdict n true h free =
        let (range, e, _) = range_at-Gives d t c complete n h in
        elim (Bool-cases (t.le (turn_at n).theta (t.div t.pi (d.of_int (pos 2))))) [
          | inl front ↦ (
            not (near_way d t (turn_at n) range),
            (rw (front, e) refl),
            near_way-Verdict n range e front free,
          )
          | inr behind ↦ (true, (rw behind refl), last_free n (λ (dist, f, g, k). cc) free)
        ]

    -- Where the last phase was not that of going straight to the goal, and there is a value for every
    -- index of the lidar, `clear` answers true where no index is blocked, and false where one is: a
    -- blocked index is one in front with an obstacle that is no further than 0.021, the radius of the
    -- robot, from the straight way to the goal, as far as `abs` of <cmath> keeps the fraction.
    pub clear-Verdict :
        is_to_goal c.phase ≡ false → Gives (clear d t c) (Verdict c.lidar_resolution)
    unfolding clear
    clear-Verdict e = rw e (
        for_up-Gives Verdict c.lidar_resolution (still_clear d t c) true
          (λ i below blocked. absurd (omega arith)) still_clear-Verdict)

    pub clear-Gives : Gives (clear d t c) (λ _. Unit)
    unfolding clear
    clear-Gives = elim (Bool-cases (is_to_goal c.phase)) [
      | inl e ↦ (true, (rw e refl), tt)
      | inr e ↦ let (free, f, _) = clear-Verdict e in (free, f, tt)
    ]
