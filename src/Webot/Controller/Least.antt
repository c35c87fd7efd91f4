-- ===== src/Webot/Controller/Least.antt =====
-- webot/controllers/waypoints_runner/robot.cpp: the point that its loops over the discontinuities keep.
use p7_kode.Base.{
  ◌≡◌, refl, true, false, Option, some, List, [], ◌∷◌, ◌⊎◌, inl, inr, Bool-cases, In,
}
use p7_kode.Base.Double.{Double}
use p7_kode.Base.Trig.{Trig, min}
use p7_kode.Webot.Geo.{GlobalPoint}
use p7_kode.Webot.Controller.Edges.{Candidate}
use p7_kode.Webot.Controller.Phases.{best_of}

-- What a < b on doubles keeps to, NaN included.
pub record OrderLaws (d : Double) : Type 0 where
  pub irreflexive : (a : d.Carrier) → d.lt a a ≡ false
  pub transitive : (a b c : d.Carrier) → d.lt a b ≡ true → d.lt b c ≡ true → d.lt a c ≡ true

module _ (d : Double) (t : Trig d) (value : GlobalPoint d → d.Carrier) where
  -- No candidate of the list has a value below this one.
  abbrev pub NoneBelow : d.Carrier → List (Candidate d t) → Type 0
  NoneBelow least candidates =
      (other : Candidate d t) → In other candidates → d.lt (value other.0) least ≡ false

  -- The candidate is one of the list with a value below `least`, and none of the list has a smaller
  -- one.
  abbrev pub IsBest : d.Carrier → List (Candidate d t) → Candidate d t → Type 0
  IsBest least candidates best =
      In best candidates × (d.lt (value best.0) least ≡ true) × NoneBelow (value best.0) candidates

  -- What the loop returns: the start, or the best of the list.
  abbrev pub Chosen :
      d.Carrier → List (Candidate d t) → Option (Candidate d t) → Option (Candidate d t) → Type 0
  Chosen least candidates start result =
      ((result ≡ start) × NoneBelow least candidates)
      ⊎ ((best : Candidate d t) × (result ≡ some best) × IsBest least candidates best)

pub min_either : (d : Double) (a b : d.Carrier) → (min d a b ≡ a) ⊎ (min d a b ≡ b)
min_either d a b = elim (Bool-cases (d.lt b a)) [
  | inl e ↦ inr (rw e refl)
  | inr e ↦ inl (rw e refl)
]

module _ (d : Double) (laws : OrderLaws d) where
  open d use {Carrier, lt}
  open laws use {irreflexive, transitive}

  pub not_below : (a b c : Carrier) → lt a c ≡ false → lt b c ≡ true → lt a b ≡ false
  not_below a b c h k = elim (Bool-cases (lt a b)) [
    | inl e ↦ let f = transitive a b c e k in cc
    | inr e ↦ e
  ]

  pub asymmetric : (a b : Carrier) → lt a b ≡ true → lt b a ≡ false
  asymmetric a b h = not_below b a b (irreflexive b) h

  -- std::min is above neither of its arguments.
  pub min_first : (a b : Carrier) → lt a (min d a b) ≡ false
  min_first a b = elim (Bool-cases (lt b a)) [
    | inl e ↦ rw e (asymmetric b a e)
    | inr e ↦ rw e (irreflexive a)
  ]

  pub min_second : (a b : Carrier) → lt b (min d a b) ≡ false
  min_second a b = elim (Bool-cases (lt b a)) [ inl e ↦ rw e (irreflexive b) | inr e ↦ rw e e ]

  pub min_lower : (a b x : Carrier) → lt x a ≡ false → lt x (min d a b) ≡ false
  min_lower a b x h = elim (Bool-cases (lt b a)) [
    | inl e ↦ rw e (not_below x b a h e)
    | inr e ↦ rw e h
  ]

  module _ (t : Trig d) (value : GlobalPoint d → Carrier) where
    NoneBelow-cons :
        (least : Carrier) (c : Candidate d t) (candidates : List (Candidate d t))
        → lt (value c.0) least ≡ false
        → NoneBelow d t value least candidates
        → NoneBelow d t value least (c ∷ candidates)
    NoneBelow-cons least c candidates h k other (inl e) = rw e h
    NoneBelow-cons least c candidates h k other (inr i) = k other i

    pub best_of-Chosen :
        (candidates : List (Candidate d t)) (least : Carrier) (start : Option (Candidate d t))
        → Chosen d t value least candidates start (best_of d t value candidates least start)
    unfolding best_of
    best_of-Chosen [] least start = inl (refl, λ other i. absurd i)
    best_of-Chosen (c ∷ rest) least start = elim (Bool-cases (lt (value c.0) least)) [
      | inl e ↦ rw e (elim (best_of-Chosen rest (value c.0) (some c)) [
        | inl (same, h) ↦
            inr (
              c,
              same,
              (inl refl, e, NoneBelow-cons (value c.0) c rest (irreflexive (value c.0)) h),
            )
        | inr (best, same, (i, below, h)) ↦ inr (
          best,
          same,
          (
            inr i,
            transitive (value best.0) (value c.0) least below e,
            NoneBelow-cons (value best.0) c rest (asymmetric (value best.0) (value c.0) below) h,
          ),
        )
      ])
      | inr e ↦ rw e (elim (best_of-Chosen rest least start) [
        | inl (same, h) ↦ inl (same, NoneBelow-cons least c rest e h)
        | inr (best, same, (i, below, h)) ↦ inr (
          best,
          same,
          (
            inr i,
            below,
            NoneBelow-cons (value best.0) c rest
                (not_below (value c.0) (value best.0) least e below) h,
          ),
        )
      ])
    ]
