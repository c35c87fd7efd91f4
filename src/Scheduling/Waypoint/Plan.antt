-- ===== src/Scheduling/Waypoint/Plan.antt =====
-- The schedules of the waypoint scheduler: their form, and when there is one.
use p7_kode.Base.{
  ℕ, zero, suc, ◌≡◌, refl, sym, ap, ◌∙◌, inl, inr, ◌⊎◌, List, [], ◌∷◌, ◌++◌, append_assoc,
  append-nil, Bool-cases, arith,
}
use p7_kode.Base.Int.{ℤ, eqb_ℤ}
use p7_kode.Base.Double.{Double}
use p7_kode.Scheduling.Traces.{
  TimeValuePair, done, undefined, pop_same, changes, changes-after_pop, pop_same-cases,
}
use p7_kode.Scheduling.Waypoint.{
  Action, go_to, hold_for, held, reach, pop_before, count_hold, waypoint_loop,
}

-- Nothing for no delay, and else one hold for it.
abbrev pub stay : ℕ → List Action
stay zero = []
stay (suc n) = hold_for (suc n) ∷ []

pub held-stay : (delay : ℕ) → held delay ≡ stay delay
held-stay zero = refl
held-stay (suc n) = ground arith

-- For each waypoint the robot goes there, and holds for the delay if there is one.
abbrev pub plan : List (ℤ × ℕ) → List Action
plan [] = []
plan ((v, delay) ∷ blocks) = go_to v ∷ (stay delay ++ plan blocks)

abbrev pub targets : List (ℤ × ℕ) → List ℤ
targets [] = []
targets ((v, delay) ∷ blocks) = v ∷ targets blocks

module _ (d : Double) where
  pub loop_step :
      (fuel : ℕ) (last : ℤ) (dest : List (TimeValuePair d)) (c : TimeValuePair d)
      (cur holds : List (TimeValuePair d)) (schedule : List Action) (p : TimeValuePair d)
      (rest : List (TimeValuePair d)) (r : TimeValuePair d × List (TimeValuePair d))
      → pop_same d last dest ≡ p ∷ rest
      → reach d p.value (c ∷ cur) ≡ done r
      → waypoint_loop d (suc fuel) last dest (c ∷ cur) holds schedule ≡ (
          let counted = count_hold d (pop_before d r.0.time holds) 0 in
          waypoint_loop d fuel p.value rest r.1 counted.1
            (schedule ++ go_to p.value ∷ held counted.0))
  unfolding waypoint_loop
  loop_step fuel last dest c cur holds schedule p rest r e f = rw (e, waypoint_loop, f)

  pub loop_stop :
      (fuel : ℕ) (last : ℤ) (dest cur holds : List (TimeValuePair d)) (schedule : List Action)
      → pop_same d last dest ≡ []
      → waypoint_loop d (suc fuel) last dest cur holds schedule ≡ done schedule
  unfolding waypoint_loop
  loop_stop fuel last dest [] holds schedule e = refl
  loop_stop fuel last dest (c ∷ cur) holds schedule e = rw (e, waypoint_loop)

  loop_fault :
      (fuel : ℕ) (last : ℤ) (dest : List (TimeValuePair d)) (c : TimeValuePair d)
      (cur holds : List (TimeValuePair d)) (schedule : List Action) (p : TimeValuePair d)
      (rest : List (TimeValuePair d))
      → pop_same d last dest ≡ p ∷ rest
      → reach d p.value (c ∷ cur) ≡ undefined
      → waypoint_loop d (suc fuel) last dest (c ∷ cur) holds schedule ≡ undefined
  unfolding waypoint_loop
  loop_fault fuel last dest c cur holds schedule p rest e f = rw (e, waypoint_loop, f)

  reach-cases :
      (v : ℤ) (cur : List (TimeValuePair d))
      → (reach d v cur ≡ undefined)
        ⊎ ((r : TimeValuePair d × List (TimeValuePair d)) × (reach d v cur ≡ done r))
  unfolding reach
  reach-cases v [] = inl refl
  reach-cases v (p ∷ cur) = elim (Bool-cases (eqb_ℤ p.value v)) [
    | inl e ↦ inr ((p, cur), rw e)
    | inr e ↦ rw e (reach-cases v cur)
  ]

  -- The schedule `s` extends `schedule` by a plan for the first of the changes of `dest`.
  pub record Plans (last : ℤ) (dest : List (TimeValuePair d)) (schedule s : List Action)
      : Type 0 where
    pub blocks : List (ℤ × ℕ)
    pub others : List ℤ
    pub planned : s ≡ schedule ++ plan blocks
    pub order : targets blocks ++ others ≡ changes d last dest

  Plans-none :
      (last : ℤ) (dest : List (TimeValuePair d)) (schedule s : List Action)
      → done schedule ≡ done s
      → Plans last dest schedule s
  Plans-none last dest schedule s e = record {
    blocks = [];
    others = changes d last dest;
    planned = cc (append-nil schedule);
    order = refl;
  }

  Plans-step :
      (last : ℤ) (dest : List (TimeValuePair d)) (schedule s : List Action) (delay : ℕ)
      (p : TimeValuePair d) (rest : List (TimeValuePair d))
      → pop_same d last dest ≡ p ∷ rest
      → Plans p.value rest (schedule ++ go_to p.value ∷ held delay) s
      → Plans last dest schedule s
  Plans-step last dest schedule s delay p rest e h = record {
    blocks = (p.value, delay) ∷ h.blocks;
    others = h.others;
    planned =
        h.planned
        ∙ append_assoc schedule (go_to p.value ∷ held delay) (plan h.blocks)
        ∙ ap (λ z. schedule ++ go_to p.value ∷ (z ++ plan h.blocks)) (held-stay delay);
    order = ap (◌∷◌ p.value) h.order ∙ sym (changes-after_pop d last dest p rest e);
  }

  pub waypoint_loop-Plans :
      (fuel : ℕ) (last : ℤ) (dest cur holds : List (TimeValuePair d)) (schedule s : List Action)
      → waypoint_loop d fuel last dest cur holds schedule ≡ done s
      → Plans last dest schedule s
  waypoint_loop-Plans zero last dest cur holds schedule s e = unfold waypoint_loop in cc
  waypoint_loop-Plans (suc fuel) last dest [] holds schedule s e =
      Plans-none last dest schedule s (unfold waypoint_loop in e)
  waypoint_loop-Plans (suc fuel) last dest (c ∷ cur) holds schedule s e =
      elim (pop_same-cases d last dest) [
        | inl none_left ↦
            Plans-none last dest schedule s
              (sym (loop_stop fuel last dest (c ∷ cur) holds schedule none_left) ∙ e)
        | inr (p, rest, found) ↦ elim (reach-cases p.value (c ∷ cur)) [
          | inl lost ↦
              absurd (cc (loop_fault fuel last dest c cur holds schedule p rest found lost, e))
          | inr (r, reached) ↦
              let counted = count_hold d (pop_before d r.0.time holds) 0 in
              Plans-step last dest schedule s counted.0 p rest found (
                waypoint_loop-Plans fuel p.value rest r.1 counted.1 _ s
                  (sym (loop_step fuel last dest c cur holds schedule p rest r found reached) ∙ e))
        ]
      ]
