-- ===== src/Scheduling/Waypoint/Complete.antt =====
-- When the waypoint scheduler has a schedule, and that it is complete.
use p7_kode.Base.{
  ℕ, zero, suc, ◌+◌, ◌<◌, ◌≡◌, sym, ap, subst, ◌∙◌, inl, inr, ◌≢◌, refl, All, Bool-cases, List, [],
  ◌∷◌, ◌++◌, append_assoc, append-nil, arith, length,
}
use p7_kode.Base.Int.{ℤ, eqb_ℤ, eqb_ℤ_iff}
use p7_kode.Base.Text.{codes}
use p7_kode.Base.Double.{Double}
use p7_kode.Scheduling.Traces.{
  TimeValuePair, SimulationExpression, Outcome, done, find_first_run_as_queue, pop_same, changes,
  changes_nil, changes-after_pop, length-pop_same, pop_same-cases,
}
use p7_kode.Scheduling.Waypoint.{
  Action, go_to, held, reach, pop_before, count_hold, waypoint_loop, convert_result,
}
use p7_kode.Scheduling.Waypoint.Plan.{
  plan, held-stay, targets, loop_step, loop_stop, Plans, waypoint_loop-Plans,
}

module _ (d : Double) where
  -- The trace takes the value first at this pair, and this is the trace behind it.
  pub record FirstAt (v : ℤ) (cur : List (TimeValuePair d)) (p : TimeValuePair d)
      (rest : List (TimeValuePair d)) : Type 0 where
    pub skipped : List (TimeValuePair d)
    pub is_split : cur ≡ skipped ++ p ∷ rest
    pub others : All (λ (q : TimeValuePair d). q.value ≢ v) skipped
    pub there : p.value ≡ v

  -- The robot's position takes these values in this order, each behind the one before it.
  abbrev pub Visits : List ℤ → List (TimeValuePair d) → Type 0
  Visits [] cur = Unit {0}
  Visits (v ∷ vs) cur =
      (p : TimeValuePair d) × (rest : List (TimeValuePair d)) × FirstAt v cur p rest
      × Visits vs rest

  reach-FirstAt :
      (v : ℤ) (skipped : List (TimeValuePair d)) (p : TimeValuePair d)
      (rest : List (TimeValuePair d))
      → All (λ (q : TimeValuePair d). q.value ≢ v) skipped
      → p.value ≡ v
      → reach d v (skipped ++ p ∷ rest) ≡ done (p, rest)
  unfolding reach
  reach-FirstAt v [] p rest h e = rw ((eqb_ℤ_iff p.value v).1 e) refl
  reach-FirstAt v (q ∷ skipped) p rest (h, hs) e = elim (Bool-cases (eqb_ℤ q.value v)) [
    | inl f ↦ absurd (h ((eqb_ℤ_iff q.value v).0 f))
    | inr f ↦ rw f (reach-FirstAt v skipped p rest hs e)
  ]

  -- What the loop finds on the way.
  abbrev Reaches : List ℤ → List (TimeValuePair d) → Type 0
  Reaches [] cur = Unit {0}
  Reaches (v ∷ vs) cur =
      (p : TimeValuePair d) × (rest : List (TimeValuePair d)) × (reach d v cur ≡ done (p, rest))
      × Reaches vs rest

  Visits-Reaches : (vs : List ℤ) (cur : List (TimeValuePair d)) → Visits vs cur → Reaches vs cur
  Visits-Reaches [] cur h = tt
  Visits-Reaches (v ∷ vs) cur (p, rest, f, later) = (
    p,
    rest,
    (ap (reach d v) f.is_split ∙ reach-FirstAt v f.skipped p rest f.others f.there),
    Visits-Reaches vs rest later,
  )

  -- The loop ends with a schedule for all the changes of `dest`.
  pub record Completes (last : ℤ) (dest : List (TimeValuePair d)) (schedule : List Action)
      (o : Outcome (List Action)) : Type 0 where
    pub blocks : List (ℤ × ℕ)
    pub scheduled : o ≡ done (schedule ++ plan blocks)
    pub order : targets blocks ≡ changes d last dest

  Completes-none :
      (last : ℤ) (dest : List (TimeValuePair d)) (schedule : List Action)
      → changes d last dest ≡ []
      → Completes last dest schedule (done schedule)
  Completes-none last dest schedule e = record {
    blocks = [];
    scheduled = ap done (sym (append-nil schedule));
    order = sym e;
  }

  Completes-step :
      (last : ℤ) (dest : List (TimeValuePair d)) (schedule : List Action) (delay : ℕ)
      (p : TimeValuePair d) (rest : List (TimeValuePair d)) (o : Outcome (List Action))
      → pop_same d last dest ≡ p ∷ rest
      → Completes p.value rest (schedule ++ go_to p.value ∷ held delay) o
      → Completes last dest schedule o
  Completes-step last dest schedule delay p rest o e h = record {
    blocks = (p.value, delay) ∷ h.blocks;
    scheduled =
        h.scheduled
        ∙ ap done (append_assoc schedule (go_to p.value ∷ held delay) (plan h.blocks))
        ∙ ap (λ z. done (schedule ++ go_to p.value ∷ (z ++ plan h.blocks))) (held-stay delay);
    order = ap (◌∷◌ p.value) h.order ∙ sym (changes-after_pop d last dest p rest e);
  }

  reach-nil : (v : ℤ) (r : TimeValuePair d × List (TimeValuePair d)) → reach d v [] ≡ done r → ⊥
  unfolding reach
  reach-nil v r e = cc

  -- One round, with the rounds after it.
  Completes-round :
      (fuel : ℕ) (last : ℤ) (dest cur holds : List (TimeValuePair d)) (schedule : List Action)
      (p : TimeValuePair d) (rest : List (TimeValuePair d))
      → pop_same d last dest ≡ p ∷ rest
      → Reaches (p.value ∷ changes d p.value rest) cur
      → ((cur holds : List (TimeValuePair d)) (schedule : List Action)
          → Reaches (changes d p.value rest) cur
          → Completes p.value rest schedule (waypoint_loop d fuel p.value rest cur holds schedule))
      → Completes last dest schedule (waypoint_loop d (suc fuel) last dest cur holds schedule)
  Completes-round fuel last dest [] holds schedule p rest e (q, left, reached, later) again =
      absurd (reach-nil p.value (q, left) reached)
  Completes-round fuel last dest (c ∷ cur) holds schedule p rest e (q, left, reached, later) again =
      let counted = count_hold d (pop_before d q.time holds) 0 in
      rw (loop_step d fuel last dest c cur holds schedule p rest (q, left) e reached)
        (Completes-step last dest schedule counted.0 p rest _ e (again left counted.1 _ later))

  waypoint_loop-Completes :
      (fuel : ℕ) (last : ℤ) (dest cur holds : List (TimeValuePair d)) (schedule : List Action)
      → length dest < fuel
      → Reaches (changes d last dest) cur
      → Completes last dest schedule (waypoint_loop d fuel last dest cur holds schedule)
  waypoint_loop-Completes zero last dest cur holds schedule fuel_left h = absurd (omega arith)
  waypoint_loop-Completes (suc fuel) last dest cur holds schedule fuel_left h =
      elim (pop_same-cases d last dest) [
        | inl e ↦
            rw (loop_stop d fuel last dest cur holds schedule e)
              (Completes-none last dest schedule (changes_nil d last dest e))
        | inr (p, rest, e) ↦
            let shorter : length rest < fuel =
              omega (arith, length-pop_same d last dest, ap length e) in
            Completes-round fuel last dest cur holds schedule p rest e
              (subst (λ vs. Reaches vs cur) (changes-after_pop d last dest p rest e) h)
              (λ left holds_left so_far reached.
                waypoint_loop-Completes fuel p.value rest left holds_left so_far shorter reached)
      ]

-- The three traces that the conversion reads, with the elements that it pops first.
pub record Reads (d : Double) (values : List (SimulationExpression d)) : Type 0 where
  pub cur_first : TimeValuePair d
  pub cur : List (TimeValuePair d)
  pub dest_first : TimeValuePair d
  pub dest_second : TimeValuePair d
  pub dest : List (TimeValuePair d)
  pub holds_first : TimeValuePair d
  pub holds : List (TimeValuePair d)
  pub cur_second : TimeValuePair d
  pub cur_read :
      find_first_run_as_queue d values (codes "Robot.cur_waypoint")
      ≡ done (cur_first ∷ cur_second ∷ cur)
  pub dest_read :
      find_first_run_as_queue d values (codes "Robot.dest_waypoint")
      ≡ done (dest_first ∷ dest_second ∷ dest)
  pub holds_read :
      find_first_run_as_queue d values (codes "Robot.Holding") ≡ done (holds_first ∷ holds)

module _ (d : Double) (values : List (SimulationExpression d)) (r : Reads d values) where
  convert_result_lem :
      convert_result d values
      ≡ waypoint_loop d
          (length r.dest + 1)
          r.dest_second.value
          r.dest
          (r.cur_second ∷ r.cur)
          r.holds
          []
  unfolding convert_result
  convert_result_lem = rw (r.cur_read, convert_result, r.dest_read, r.holds_read)

  -- Every schedule that the conversion of three long enough traces returns is a plan: it goes to
  -- waypoints and, between two of them, holds at most once and then for a positive delay. Its
  -- waypoints are the first of the changes of the destination, in their order.
  pub convert_result-Plans :
      (s : List Action) → convert_result d values ≡ done s → Plans d r.dest_second.value r.dest [] s
  convert_result-Plans s e =
      waypoint_loop-Plans d (length r.dest + 1) r.dest_second.value r.dest (r.cur_second ∷ r.cur)
        r.holds [] s (sym convert_result_lem ∙ e)

  -- If the traces are long enough and the robot's position takes all the new destinations in their
  -- order, each behind the one before it, the conversion ends with a schedule, with no `front` or `pop` of an empty queue, and the
  -- schedule goes to each new destination.
  pub convert_result-Completes :
      Visits d (changes d r.dest_second.value r.dest) (r.cur_second ∷ r.cur)
      → Completes d r.dest_second.value r.dest [] (convert_result d values)
  convert_result-Completes h = rw convert_result_lem (
      waypoint_loop-Completes d (length r.dest + 1) r.dest_second.value r.dest
        (r.cur_second ∷ r.cur) r.holds [] (omega arith) (Visits-Reaches d _ _ h))
