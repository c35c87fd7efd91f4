-- ===== src/Scheduling/Station/Schedule.antt =====
-- The schedule of the station scheduler is the sequence of new destinations.
use p7_kode.Base.{
  ℕ, zero, suc, ◌+◌, ◌<◌, ◌≡◌, ◌≢◌, refl, ap, ◌∙◌, inl, inr, List, [], ◌∷◌, ◌++◌, append_assoc,
  append-nil, arith, length, Bool-cases,
}
use p7_kode.Base.Int.{ℤ, eqb_ℤ, eqb_ℤ_iff}
use p7_kode.Base.Text.{codes}
use p7_kode.Base.Double.{Double}
use p7_kode.Scheduling.Traces.{
  TimeValuePair, SimulationExpression, done, find_first_run_as_queue, changes, changes_nil,
  changes-after_pop, length-pop_same, pop_same-cases,
}
use p7_kode.Scheduling.Station.{station_loop, convert_result}

-- A list in which no element repeats the one before it, `last` for the first.
abbrev pub Alternates : ℤ → List ℤ → Type 0
Alternates last [] = Unit {0}
Alternates last (x ∷ xs) = (x ≢ last) × Alternates x xs

module _ (d : Double) where
  station_loop-changes :
      (fuel : ℕ) (last : ℤ) (dest : List (TimeValuePair d)) (schedule : List ℤ)
      → length dest < fuel
      → station_loop d fuel last dest schedule ≡ schedule ++ changes d last dest
  unfolding station_loop
  station_loop-changes zero last dest schedule h = absurd (omega arith)
  station_loop-changes (suc fuel) last dest schedule h = elim (pop_same-cases d last dest) [
    | inl e ↦ rw (e, station_loop, changes_nil d last dest e, append-nil) refl
    | inr (p, rest, e) ↦
        let shorter : length rest < fuel =
          omega (arith, length-pop_same d last dest, ap length e) in
        rw (e, station_loop, changes-after_pop d last dest p rest e)
          (station_loop-changes fuel p.value rest (schedule ++ p.value ∷ []) shorter
            ∙ append_assoc schedule (p.value ∷ []) _)
  ]

  -- When the trace of the destination is found and has a first element, the schedule is the sequence
  -- of the values to which the destination changes behind it.
  pub convert_result-changes :
      (values : List (SimulationExpression d)) (first : TimeValuePair d)
      (dest : List (TimeValuePair d))
      → find_first_run_as_queue d values (codes "Robot.converted_dest()") ≡ done (first ∷ dest)
      → convert_result d values ≡ done (changes d first.value dest)
  unfolding convert_result
  convert_result-changes values first dest e =
      rw (e, convert_result)
        (ap done (station_loop-changes (length dest + 1) first.value dest [] (omega arith)))

  changes-Alternates : (last : ℤ) (q : List (TimeValuePair d)) → Alternates last (changes d last q)
  unfolding changes
  changes-Alternates last [] = tt
  changes-Alternates last (p ∷ q) = elim (Bool-cases (eqb_ℤ p.value last)) [
    | inl e ↦ rw (e, Alternates) (changes-Alternates last q)
    | inr e ↦
        rw (e, Alternates)
          ((λ same. cc (e, (eqb_ℤ_iff p.value last).1 same)), changes-Alternates p.value q)
  ]

  -- Under the same conditions there is a schedule, and it sends the robot to no destination twice in
  -- a row, nor first to the destination that the trace begins with.
  pub convert_result-Alternates :
      (values : List (SimulationExpression d)) (first : TimeValuePair d)
      (dest : List (TimeValuePair d))
      → find_first_run_as_queue d values (codes "Robot.converted_dest()") ≡ done (first ∷ dest)
      → (s : List ℤ) × (convert_result d values ≡ done s) × Alternates first.value s
  convert_result-Alternates values first dest e = (
    changes d first.value dest,
    convert_result-changes values first dest e,
    changes-Alternates first.value dest,
  )
