-- ===== src/Scheduling/Examples.antt =====
-- The schedulers on concrete traces.
use p7_kode.Base.{ℕ, ◌+◌, ◌-◌, ◌*◌, ◌≡◌, refl, List, [], ◌∷◌, ltb}
use p7_kode.Base.Int.{pos}
use p7_kode.Base.Text.{Bytes, codes}
use p7_kode.Base.Double.{Double}
use p7_kode.Scheduling.Traces.{
  TimeValuePair, SimulationExpression, done, find_first_run_as_queue, changes, pop_same,
}
use p7_kode.Scheduling.Station
use p7_kode.Scheduling.Station.Schedule.{convert_result-changes}
use p7_kode.Scheduling.Waypoint
use p7_kode.Scheduling.Waypoint.{Action, go_to, hold_for, reach, pop_before, count_hold}
use p7_kode.Scheduling.Waypoint.Plan.{Plans}
use p7_kode.Scheduling.Waypoint.Complete.{
  Visits, Completes, Reads, convert_result-Plans, convert_result-Completes,
}

-- Natural numbers in place of doubles: enough for the times of the traces below.
abbrev counting : Double
counting = record {
  Carrier = ℕ;
  add = ◌+◌;
  sub = ◌-◌;
  mul = ◌*◌;
  sqrt = λ x. x;
  lt = ltb;
  literal = λ s. 1;
  of_int = λ z. 0;
  dbl_max = 1000000;
}

abbrev at_time : ℕ → ℕ → TimeValuePair counting
at_time t v = record { time = t; value = pos v }

abbrev run_of : Bytes → List (TimeValuePair counting) → SimulationExpression counting
run_of name values = record { name = name; runs = record { number = pos 0; values = values } ∷ [] }

abbrev stations : List (SimulationExpression counting)
stations =
    run_of (codes "Robot.converted_dest()")
      (at_time 0 0 ∷ at_time 1 0 ∷ at_time 2 4 ∷ at_time 3 4 ∷ at_time 4 2 ∷ [])
    ∷ []

stations_read :
    find_first_run_as_queue counting stations (codes "Robot.converted_dest()")
    ≡ done (at_time 0 0 ∷ at_time 1 0 ∷ at_time 2 4 ∷ at_time 3 4 ∷ at_time 4 2 ∷ [])
unfolding find_first_run_as_queue
stations_read = refl

convert_result-changes_example :
    Station.convert_result counting stations
    ≡ done (changes counting (pos 0) (at_time 1 0 ∷ at_time 2 4 ∷ at_time 3 4 ∷ at_time 4 2 ∷ []))
convert_result-changes_example =
    convert_result-changes counting stations (at_time 0 0)
      (at_time 1 0 ∷ at_time 2 4 ∷ at_time 3 4 ∷ at_time 4 2 ∷ []) stations_read

abbrev waypoints : List (SimulationExpression counting)
waypoints =
    run_of (codes "Robot.cur_waypoint") (at_time 0 0 ∷ at_time 0 1 ∷ at_time 5 3 ∷ at_time 9 2 ∷ [])
    ∷ run_of (codes "Robot.dest_waypoint")
        (at_time 0 0 ∷ at_time 0 1 ∷ at_time 1 3 ∷ at_time 8 2 ∷ [])
    ∷ run_of (codes "Robot.Holding")
        (at_time 0 0 ∷ at_time 5 0 ∷ at_time 6 1 ∷ at_time 7 1 ∷ at_time 8 0 ∷ [])
    ∷ []

waypoints_Reads : Reads counting waypoints
unfolding find_first_run_as_queue
waypoints_Reads = record {
  cur_first = at_time 0 0;
  cur = at_time 5 3 ∷ at_time 9 2 ∷ [];
  dest_first = at_time 0 0;
  dest_second = at_time 0 1;
  dest = at_time 1 3 ∷ at_time 8 2 ∷ [];
  holds_first = at_time 0 0;
  holds = at_time 5 0 ∷ at_time 6 1 ∷ at_time 7 1 ∷ at_time 8 0 ∷ [];
  cur_second = at_time 0 1;
  cur_read = refl;
  dest_read = refl;
  holds_read = refl;
}

waypoints_scheduled :
    Waypoint.convert_result counting waypoints
    ≡ done (go_to (pos 3) ∷ hold_for 2 ∷ go_to (pos 2) ∷ [])
unfolding Waypoint.convert_result find_first_run_as_queue pop_same reach pop_before count_hold
waypoints_scheduled = refl

convert_result-Plans_example :
    Plans counting
      (pos 1)
      (at_time 1 3 ∷ at_time 8 2 ∷ [])
      []
      (go_to (pos 3) ∷ hold_for 2 ∷ go_to (pos 2) ∷ [])
unfolding waypoints_Reads
convert_result-Plans_example =
    convert_result-Plans counting waypoints waypoints_Reads
      (go_to (pos 3) ∷ hold_for 2 ∷ go_to (pos 2) ∷ []) waypoints_scheduled

reached :
    Visits counting
      (changes counting (pos 1) (at_time 1 3 ∷ at_time 8 2 ∷ []))
      (at_time 0 1 ∷ at_time 5 3 ∷ at_time 9 2 ∷ [])
unfolding changes
reached = (
  at_time 5 3,
  at_time 9 2 ∷ [],
  record { skipped = at_time 0 1 ∷ []; is_split = refl; others = ((λ e. cc), tt); there = refl },
  (at_time 9 2, [], record { skipped = []; is_split = refl; others = tt; there = refl }, tt),
)

convert_result-Completes_example :
    Completes counting
      (pos 1)
      (at_time 1 3 ∷ at_time 8 2 ∷ [])
      []
      (Waypoint.convert_result counting waypoints)
unfolding waypoints_Reads
convert_result-Completes_example =
    convert_result-Completes counting waypoints waypoints_Reads reached
