-- ===== src/Scheduling/Station.antt =====
-- scheduling/src/station_scheduler.cpp: `StationScheduler::convert_result`.
pub mod Schedule
use p7_kode.Base.{ℕ, zero, suc, ◌+◌, List, [], ◌∷◌, ◌++◌, length}
use p7_kode.Base.Int.{ℤ}
use p7_kode.Base.Text.{codes}
use p7_kode.Base.Double.{Double}
use p7_kode.Scheduling.Traces.{
  TimeValuePair, SimulationExpression, Outcome, done, undefined, ◌>>=◌, find_first_run_as_queue,
  pop_same,
}

module _ (d : Double) where
  -- The outer loop; each round pops an element at least, so fuel above the length is enough. Its test
  -- on an empty queue and the `break` behind `pop_same` end it alike.
  station_loop : ℕ → ℤ → List (TimeValuePair d) → List ℤ → List ℤ
  station_loop zero last_dest dest schedule = schedule
  station_loop (suc fuel) last_dest dest schedule = elim (pop_same d last_dest dest) [
    | [] ↦ schedule
    | p ∷ rest ↦ station_loop fuel p.value rest (schedule ++ p.value ∷ [])
  ]

  schedule_of : List (TimeValuePair d) → Outcome (List ℤ)
  unfolding station_loop
  schedule_of [] = undefined
  schedule_of (last_dest ∷ dest) = done (station_loop (length dest + 1) last_dest.value dest [])

  unfoldable pub convert_result : List (SimulationExpression d) → Outcome (List ℤ)
  unfolding schedule_of
  convert_result values = do
    dest ← find_first_run_as_queue d values (codes "Robot.converted_dest()")
    schedule_of dest
