-- ===== src/Scheduling/Parser/Report.antt =====
-- scheduling/src/uppaal_simulation_parser.cpp: what verifyta writes for a formula, as a text.
use p7_kode.Base.{
  ℕ, suc, ◌+◌, ◌≤◌, ◌≡◌, Result, ok, none, List, [], ◌∷◌, ◌++◌, arith, All, length, length-append,
}
use p7_kode.Base.Int.{ℤ, pos, InInt}
use p7_kode.Base.Text.{Bytes}
use p7_kode.Base.Double.{Double}
use p7_kode.Util.Split.{Lacks}
use p7_kode.Scheduling.Traces.{TimeValuePair, SimulationTrace, SimulationExpression}
use p7_kode.Scheduling.Parser.{heading}
use p7_kode.Scheduling.Parser.Patterns.{match_line}
use p7_kode.Scheduling.Parser.Rows.{IsNumberText, row_text}

module _ (d : Double) where
  -- A value at a time, with the text of the time.
  pub record Sample : Type 0 where
    pub text : Bytes
    pub time : d.Carrier
    pub value : ℤ

  pub record Run : Type 0 where
    pub number : ℕ
    pub samples : List Sample

  pub record Block : Type 0 where
    pub name : Bytes
    pub runs : List Run

  abbrev pub texts : List Sample → List (Bytes × ℤ)
  texts [] = []
  texts (s ∷ samples) = (s.text, s.value) ∷ texts samples

  abbrev pub pair_values : List Sample → List (TimeValuePair d)
  pair_values [] = []
  pair_values (s ∷ samples) = record { time = s.time; value = s.value } ∷ pair_values samples

  abbrev pub traces : List Run → List (SimulationTrace d)
  traces [] = []
  traces (r ∷ runs) = record { number = pos r.number; values = pair_values r.samples } ∷ traces runs

  abbrev pub expressions : List Block → List (SimulationExpression d)
  expressions [] = []
  expressions (b ∷ blocks) = record { name = b.name; runs = traces b.runs } ∷ expressions blocks

  -- The lines of the runs, in front of the rest.
  unfoldable pub runs_text : List Run → Bytes → Bytes
  runs_text [] rest = rest
  runs_text (r ∷ runs) rest = row_text r.number (texts r.samples) ++ 10 ∷ runs_text runs rest

  -- The lines of the expressions: the name and a colon, and the runs.
  unfoldable pub blocks_text : List Block → Bytes
  blocks_text [] = []
  blocks_text (b ∷ blocks) = (b.name ++ b':' ∷ []) ++ 10 ∷ runs_text b.runs (blocks_text blocks)

  -- What verifyta writes for a formula: two lines, and those of the expressions.
  abbrev pub report : ℤ → Bytes → Bytes → List Block → Bytes
  report number place verdict blocks =
      (heading number ++ place) ++ 10 ∷ (verdict ++ 10 ∷ blocks_text blocks)

  pub length-runs_text :
      (runs : List Run) (rest : Bytes) → length runs + length rest ≤ length (runs_text runs rest)
  unfolding runs_text
  length-runs_text [] rest = omega arith
  length-runs_text (r ∷ runs) rest =
      let h = length-runs_text runs rest in
      let e = length-append (row_text r.number (texts r.samples)) (10 ∷ runs_text runs rest) in
      omega arith

  pub length-blocks_text :
      (b : Block) (blocks : List Block)
      → suc (length b.runs + length (blocks_text blocks)) ≤ length (blocks_text (b ∷ blocks))
  unfolding blocks_text
  length-blocks_text b blocks =
      let h = length-runs_text b.runs (blocks_text blocks) in
      let e = length-append (b.name ++ b':' ∷ []) (10 ∷ runs_text b.runs (blocks_text blocks)) in
      omega arith

  module _ (stod : Bytes → Result d.Carrier) where
    -- A double that std::stod reads, and an int in its range.
    abbrev pub IsSample : Sample → Type 0
    IsSample s = IsNumberText s.text × (stod s.text ≡ ok s.time) × InInt s.value

    abbrev pub IsRun : Run → Type 0
    IsRun r = InInt (pos r.number) × All IsSample r.samples

    -- The name is in one line, which does not look like a run.
    abbrev pub IsBlock : Block → Type 0
    IsBlock b =
        Lacks 10 (b.name ++ b':' ∷ [])
        × (match_line (b.name ++ b':' ∷ []) ≡ none)
        × All IsRun b.runs
