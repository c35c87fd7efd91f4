-- ===== src/Scheduling/Waypoint.antt =====
-- scheduling/src/waypoint_scheduler.cpp: `WaypointScheduler::convert_result`.
pub mod Plan
pub mod Complete
use p7_kode.Base.{
  ℕ, zero, suc, ◌+◌, Bool, true, false, List, [], ◌∷◌, ◌++◌, length, ◌==◌, ltb, if◌then◌else◌,
}
use p7_kode.Base.Int.{ℤ, pos, eqb_ℤ}
use p7_kode.Base.Text.{codes}
use p7_kode.Base.Double.{Double}
use p7_kode.Scheduling.Traces.{
  TimeValuePair, SimulationExpression, Outcome, done, undefined, out_of_fuel, ◌>>=◌,
  find_first_run_as_queue, pop_same,
}

pub data ActionType : Type 0 where
  hold waypoint : ActionType

pub record Action : Type 0 where
  pub type : ActionType
  pub value : ℤ

abbrev pub go_to : ℤ → Action
go_to v = record { type = waypoint; value = v }

abbrev pub hold_for : ℕ → Action
hold_for delay = record { type = hold; value = pos delay }

-- What one round appends for the delay.
abbrev pub held : ℕ → List Action
held delay = if ltb 0 delay then hold_for delay ∷ [] else []

module _ (d : Double) where
  open d use {Carrier, sub, lt, literal}

  -- `do { last_cur = cur.front(); cur.pop(); } while (last_cur.value != v);` and what is left of the
  -- queue. On an empty queue `front` is undefined.
  unfoldable pub reach :
      ℤ → List (TimeValuePair d) → Outcome (TimeValuePair d × List (TimeValuePair d))
  reach v [] = undefined
  reach v (p ∷ cur) =
      let further = reach v cur in if eqb_ℤ p.value v then done (p, cur) else further

  -- hold.front().time - last_cur.time < 0.0001
  abbrev before : Carrier → TimeValuePair d → Bool
  before now p = lt (sub p.time now) (literal (codes "0.0001"))

  unfoldable pub pop_before : Carrier → List (TimeValuePair d) → List (TimeValuePair d)
  pop_before now [] = []
  pop_before now (p ∷ q) = if before now p then pop_before now q else p ∷ q

  -- The loop that counts `delay`, the pop behind it, and the count.
  unfoldable pub count_hold : List (TimeValuePair d) → ℕ → ℕ × List (TimeValuePair d)
  count_hold [] delay = (delay, [])
  count_hold (p ∷ q) delay = if eqb_ℤ p.value (pos 1) then count_hold q (delay + 1) else (delay, q)

  -- The outer loop. Each round pops an element of `dest` at least, so fuel above its length is enough.
  pub waypoint_loop :
      ℕ → ℤ → (dest cur holds : List (TimeValuePair d)) → List Action → Outcome (List Action)
  waypoint_loop zero last_dest dest cur holds schedule = out_of_fuel
  waypoint_loop (suc fuel) last_dest dest [] holds schedule = done schedule
  waypoint_loop (suc fuel) last_dest dest (c ∷ cur) holds schedule =
      elim (pop_same d last_dest dest) [
        | [] ↦ done schedule
        | p ∷ rest ↦ do
          reached ← reach p.value (c ∷ cur)
          let counted = count_hold (pop_before reached.0.time holds) 0
          waypoint_loop fuel p.value rest reached.1 counted.1
              (schedule ++ go_to p.value ∷ held counted.0)
      ]

  -- pop()
  abbrev pop : List (TimeValuePair d) → Outcome (List (TimeValuePair d))
  pop [] = undefined
  pop (p ∷ q) = done q

  -- front()
  abbrev front : List (TimeValuePair d) → Outcome (TimeValuePair d)
  front [] = undefined
  front (p ∷ q) = done p

  schedule_of : (cur dest holds : List (TimeValuePair d)) → Outcome (List Action)
  unfolding waypoint_loop
  schedule_of cur dest holds = do
    cur ← pop cur
    last_cur ← front cur
    dest ← pop dest
    last_dest ← front dest
    dest ← pop dest
    holds ← pop holds
    waypoint_loop (length dest + 1) last_dest.value dest cur holds []

  unfoldable pub convert_result : List (SimulationExpression d) → Outcome (List Action)
  unfolding schedule_of
  convert_result values = do
    cur_waypoint ← find_first_run_as_queue d values (codes "Robot.cur_waypoint")
    dest_waypoint ← find_first_run_as_queue d values (codes "Robot.dest_waypoint")
    holds ← find_first_run_as_queue d values (codes "Robot.Holding")
    schedule_of cur_waypoint dest_waypoint holds
