-- ===== src/Scheduling/Parser.antt =====
-- scheduling/src/uppaal_simulation_parser.cpp: `parse` and `parseValue`.
pub mod Patterns
pub mod Rows
pub mod Report
pub mod Lines
pub mod RoundTrip
mod Examples
use p7_kode.Base.{
  ℕ, zero, suc, ◌+◌, ◌-◌, Bool, true, false, Option, none, some, List, [], ◌∷◌, ◌++◌, ◌==◌, Result,
  ok, err, out_of_range, if◌then◌else◌, leb, length, take, drop,
}
use p7_kode.Base.Int.{ℤ, pos, ◌+ℤ◌}
use p7_kode.Base.Text.{Bytes, codes, find}
use p7_kode.Base.Decimal.{to_string, stoi}
use p7_kode.Base.Double.{Double}
use p7_kode.Scheduling.Traces.{
  Outcome, done, undefined, out_of_fuel, ◌>>=◌, TimeValuePair, SimulationTrace,
  SimulationExpression,
}
use p7_kode.Scheduling.Parser.Patterns.{match_line, search_pair}

-- What is left of the std::stringstream, and its eof().
pub record Stream : Type 0 where
  pub rest : Bytes
  pub eof : Bool

-- The bytes before a newline and those behind it, if there is one.
unfoldable pub cut_line : Bytes → Bytes × Option Bytes
cut_line [] = ([], none)
cut_line (c ∷ s) = let r = cut_line s in if c == 10 then ([], some s) else (c ∷ r.0, r.1)

abbrev after_cut : Bytes × Option Bytes → Bytes × Stream
after_cut (line, none) = (line, record { rest = []; eof = true })
after_cut (line, some rest) = (line, record { rest = rest; eof = false })

-- std::getline(ss, line), which leaves the line as it is at the end of the stream
unfoldable pub get_line : Bytes → Stream → Bytes × Stream
get_line line ss = if ss.eof then (line, ss) else after_cut (cut_line ss.rest)

-- std::stod and std::stoi throw nothing but std::out_of_range on what the patterns match.
abbrev pub thrown : {A : Type 0} → Result A → Outcome A
thrown (ok a) = done a
thrown (err out_of_range) = Outcome.out_of_range
thrown (err e) = undefined

-- result.substr(startIndex, stopIndex - startIndex), which throws where startIndex is npos
unfoldable pub formula_text : Option ℕ → Option ℕ → Bytes → Outcome Bytes
formula_text none stop result = Outcome.out_of_range
formula_text (some start) none result = done (drop start result)
formula_text (some start) (some stop) result =
    done (if leb start stop then take (stop - start) (drop start result) else drop start result)

abbrev pub heading : ℤ → Bytes
heading formula_number = codes "Verifying formula " ++ to_string formula_number

-- `stod` is std::stod.
module _ (d : Double) (stod : Bytes → Result d.Carrier) where
  abbrev pub Pairs : Type 0
  Pairs = List (TimeValuePair d)

  -- The loop over `pairs`, on fuel: each round shortens the text.
  unfoldable pub pairs_loop : ℕ → Bytes → Pairs → Outcome Pairs
  pairs_loop zero pairs values = out_of_fuel
  pairs_loop (suc fuel) pairs values = elim (search_pair pairs) [
    | none ↦ done values
    | some (time, value, suffix) ↦ thrown (stod time) >>= λ time'. thrown (stoi value) >>= λ value'.
        pairs_loop fuel suffix (values ++ record { time = time'; value = value' } ∷ [])
  ]

  abbrev pub Runs : Type 0
  Runs = List (SimulationTrace d)

  -- The loop over the lines of an expression, on fuel: each round reads a line.
  unfoldable pub runs_loop : ℕ → Bytes → Stream → Runs → Outcome (Runs × Bytes × Stream)
  runs_loop zero line ss runs = out_of_fuel
  runs_loop (suc fuel) line ss runs = elim (match_line line) [
    | none ↦ done (runs, line, ss)
    | some (number, pairs) ↦ thrown (stoi number) >>= λ run_number.
        pairs_loop (suc (length pairs)) pairs [] >>= λ values.
        let runs' = runs ++ record { number = run_number; values = values } ∷ [] in
        elim ss.eof [
          | true ↦ done (runs', line, ss)
          | false ↦ runs_loop fuel (get_line line ss).0 (get_line line ss).1 runs'
        ]
  ]

  abbrev named : Bytes → Runs × Bytes × Stream → Outcome (SimulationExpression d × Bytes × Stream)
  named name (runs, line, ss) = done (record { name = name; runs = runs }, line, ss)

  unfoldable pub parse_value :
      ℕ → Bytes → Stream → Outcome (SimulationExpression d × Bytes × Stream)
  parse_value fuel line ss =
      runs_loop fuel (get_line line ss).0 (get_line line ss).1 []
      >>= named (take (length line - 1) line)

  -- The loop of parse, on fuel: each round reads a line.
  unfoldable pub values_loop :
      ℕ → Bytes → Stream → List (SimulationExpression d) → Outcome (List (SimulationExpression d))
  values_loop zero line ss values = out_of_fuel
  values_loop (suc fuel) [] ss values = done values
  values_loop (suc fuel) (c ∷ line) ss values = parse_value (suc fuel) (c ∷ line) ss >>= λ r.
      elim r.2.eof [
        | true ↦ done (values ++ r.0 ∷ [])
        | false ↦ values_loop fuel r.1 r.2 (values ++ r.0 ∷ [])
      ]

  -- Behind the two lines that are not used.
  unfoldable pub parse_lines : ℕ → Bytes × Stream → Outcome (List (SimulationExpression d))
  parse_lines fuel (line, ss) =
      if ss.eof then done [] else values_loop fuel (get_line line ss).0 (get_line line ss).1 []

  unfoldable pub parse : Bytes → ℤ → Outcome (List (SimulationExpression d))
  parse result formula_number =
      formula_text (find (heading formula_number) result)
        (find (heading (formula_number +ℤ pos 1)) result) result
      >>= λ formula.
          let first = get_line [] (record { rest = formula; eof = false }) in
          parse_lines (suc (suc (length formula))) (get_line first.0 first.1)
