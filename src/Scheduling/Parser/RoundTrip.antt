-- ===== src/Scheduling/Parser/RoundTrip.antt =====
-- scheduling/src/uppaal_simulation_parser.cpp: `parse` reads back what verifyta writes.
use p7_kode.Base.{
  ℕ, zero, suc, ◌-◌, ◌<◌, ◌≡◌, ◌≢◌, refl, sym, ap, ◌∙◌, Bool, true, false, Result, none, some, List,
  [], ◌∷◌, ◌++◌, ◌==◌, arith, All, All-append, length, length-append, take, append_assoc,
  append-nil, take-length-append,
}
use p7_kode.Base.Int.{ℤ, pos, ◌+ℤ◌}
use p7_kode.Base.Text.{Bytes, codes, find, find-zero, starts_with, starts_with-append}
use p7_kode.Base.Decimal.{to_string}
use p7_kode.Base.Double.{Double}
use p7_kode.Util.Split.{Lacks}
use p7_kode.Scheduling.Traces.{done, SimulationExpression}
use p7_kode.Scheduling.Parser.{
  Stream, cut_line, get_line, parse_value, values_loop, formula_text, heading, parse_lines, parse,
}
use p7_kode.Scheduling.Parser.Patterns.{match_line}
use p7_kode.Scheduling.Parser.Report.{
  Run, Block, traces, expressions, runs_text, blocks_text, IsRun, IsBlock, report,
  length-blocks_text,
}
use p7_kode.Scheduling.Parser.Lines.{next, to_string-Lacks, next-append, runs_loop-runs_text}

at_false : {A : Type 0} (b : Bool) (x y : A) → b ≡ false → elim b [ true ↦ x | false ↦ y ] ≡ y
at_false true x y e = cc
at_false false x y e = refl

starts_with_itself : (s : Bytes) → starts_with s s ≡ true
starts_with_itself [] = refl
starts_with_itself (c ∷ s) = let e : (c == c) ≡ true = ground arith in rw e (starts_with_itself s)

starts_with-prefix : (s place rest : Bytes) → starts_with s ((s ++ place) ++ rest) ≡ true
starts_with-prefix s place rest =
    rw (append_assoc s place rest) (starts_with-append s s (place ++ rest) (starts_with_itself s))

heading-Lacks : (number : ℤ) (place : Bytes) → Lacks 10 place → Lacks 10 (heading number ++ place)
heading-Lacks number place h =
    All-append (λ c. c ≢ 10) (heading number) place
      (All-append (λ c. c ≢ 10) (codes "Verifying formula ") (to_string number) (ground arith)
        (to_string-Lacks number))
      h

header-cons : (name : Bytes) → (c : ℕ) × (line : Bytes) × (name ++ b':' ∷ [] ≡ c ∷ line)
header-cons [] = (b':', [], refl)
header-cons (c ∷ name) = (c, name ++ b':' ∷ [], refl)

name_of : (name line : Bytes) → line ≡ name ++ b':' ∷ [] → take (length line - 1) line ≡ name
name_of name line e =
    let f : length line - 1 ≡ length name =
      ap (λ z. length z - 1) e ∙ (let g = length-append name (b':' ∷ []) in omega arith) in
    rw (f, e) (take-length-append name (b':' ∷ []))

module _ (d : Double) (stod : Bytes → Result d.Carrier) where
  parse_value-runs_text :
      (fuel : ℕ) (name line : Bytes) (runs : List (Run d)) (rest : Bytes)
      → line ≡ name ++ b':' ∷ []
      → All (IsRun d stod) runs
      → length runs < fuel
      → match_line (next rest).0 ≡ none
      → parse_value d stod fuel line (record { rest = runs_text d runs rest; eof = false })
        ≡ done (record { name = name; runs = traces d runs }, (next rest).0, (next rest).1)
  unfolding parse_value get_line
  parse_value-runs_text fuel name line runs rest e h enough after =
      let f : take (length line - 1) line ≡ name = name_of name line e in
      rw (runs_loop-runs_text d stod fuel runs rest [] h enough after, f) refl

  values_loop_next :
      (fuel c : ℕ) (line : Bytes) (ss ss' : Stream) (values : List (SimulationExpression d))
      (value : SimulationExpression d) (line' : Bytes)
      → parse_value d stod (suc fuel) (c ∷ line) ss ≡ done (value, line', ss')
      → ss'.eof ≡ false
      → values_loop d stod (suc fuel) (c ∷ line) ss values
        ≡ values_loop d stod fuel line' ss' (values ++ value ∷ [])
  unfolding values_loop
  values_loop_next fuel c line ss ss' values value line' e f =
      rw (values_loop, e) (at_false ss'.eof _ _ f)

  values_loop_last :
      (fuel c : ℕ) (line : Bytes) (ss ss' : Stream) (values : List (SimulationExpression d))
      (value : SimulationExpression d) (line' : Bytes)
      → parse_value d stod (suc fuel) (c ∷ line) ss ≡ done (value, line', ss')
      → ss'.eof ≡ true
      → values_loop d stod (suc fuel) (c ∷ line) ss values ≡ done (values ++ value ∷ [])
  unfolding values_loop
  values_loop_last fuel c line ss ss' values value line' e f = rw (values_loop, e, f) refl

  -- What follows the runs of an expression is no run.
  no_run :
      (blocks : List (Block d))
      → All (IsBlock d stod) blocks
      → match_line (next (blocks_text d blocks)).0 ≡ none
  unfolding blocks_text
  no_run [] h = unfold cut_line match_line in refl
  no_run (b ∷ blocks) ((lacks, none_matches, _), _) =
      rw (next-append (b.name ++ b':' ∷ []) (runs_text d b.runs (blocks_text d blocks)) lacks)
        none_matches

  has_more :
      (b : Block d) (blocks : List (Block d))
      → IsBlock d stod b
      → (next (blocks_text d (b ∷ blocks))).1.eof ≡ false
  unfolding blocks_text
  has_more b blocks h =
      rw (next-append (b.name ++ b':' ∷ []) (runs_text d b.runs (blocks_text d blocks)) h.0) refl

  after_block :
      (fuel c : ℕ) (line : Bytes) (ss : Stream) (value : SimulationExpression d)
      (blocks : List (Block d)) (values : List (SimulationExpression d))
      → All (IsBlock d stod) blocks
      → parse_value d stod (suc fuel) (c ∷ line) ss
        ≡ done (value, (next (blocks_text d blocks)).0, (next (blocks_text d blocks)).1)
      → ((values' : List (SimulationExpression d))
          → values_loop d stod fuel
              (next (blocks_text d blocks)).0
              (next (blocks_text d blocks)).1
              values'
            ≡ done (values' ++ expressions d blocks))
      → values_loop d stod (suc fuel) (c ∷ line) ss values
        ≡ done (values ++ value ∷ expressions d blocks)
  after_block fuel c line ss value [] values h e k =
      values_loop_last fuel c line ss _ values value _ e (unfold cut_line blocks_text in refl)
  after_block fuel c line ss value (b ∷ blocks) values (h, hs) e k =
      values_loop_next fuel c line ss _ values value _ e (has_more b blocks h)
      ∙ k (values ++ value ∷ [])
      ∙ ap done (append_assoc values (value ∷ []) (expressions d (b ∷ blocks)))

  values_loop-blocks_text :
      (fuel : ℕ) (blocks : List (Block d)) (values : List (SimulationExpression d))
      → All (IsBlock d stod) blocks
      → length (blocks_text d blocks) < fuel
      → values_loop d stod fuel
          (next (blocks_text d blocks)).0
          (next (blocks_text d blocks)).1
          values
        ≡ done (values ++ expressions d blocks)
  unfolding blocks_text
  values_loop-blocks_text zero blocks values h enough = absurd (omega arith)
  values_loop-blocks_text (suc fuel) [] values h enough =
      unfold values_loop cut_line blocks_text in ap done (sym (append-nil values))
  values_loop-blocks_text (suc fuel) (b ∷ blocks) values (h, hs) enough =
      let (c, line, e) = header-cons b.name in
      let l = length-blocks_text d b blocks in
      rw (next-append (b.name ++ b':' ∷ []) (runs_text d b.runs (blocks_text d blocks)) h.0, e)
        (after_block fuel c line _ (record { name = b.name; runs = traces d b.runs }) blocks values
          hs
          (parse_value-runs_text (suc fuel) b.name (c ∷ line) b.runs (blocks_text d blocks) (sym e)
            h.2 (omega arith) (no_run blocks hs))
          (λ values'. values_loop-blocks_text fuel blocks values' hs (omega arith)))

  -- From the report of a formula, behind which there is none of the next formula, parse reads every
  -- expression with all its runs and their values. The doubles are those that std::stod reads from
  -- their texts; the ints are in their range, the lines have no newline, and no name looks like a run.
  pub parse-report :
      (number : ℤ) (place verdict : Bytes) (blocks : List (Block d))
      → Lacks 10 place
      → Lacks 10 verdict
      → All (IsBlock d stod) blocks
      → find (heading (number +ℤ pos 1)) (report d number place verdict blocks) ≡ none
      → parse d stod (report d number place verdict blocks) number ≡ done (expressions d blocks)
  unfolding parse formula_text get_line parse_lines
  parse-report number place verdict blocks hp hv h only =
      let text = report d number place verdict blocks in
      let start : find (heading number) text ≡ some 0 =
        find-zero (heading number) text (starts_with-prefix (heading number) place _) in
      let first =
        next-append (heading number ++ place) (verdict ++ 10 ∷ blocks_text d blocks)
          (heading-Lacks number place hp) in
      rw (start, only, first, next-append verdict (blocks_text d blocks) hv)
        (values_loop-blocks_text (suc (suc (length text))) blocks [] h (
          let l =
            length-append (heading number ++ place) (10 ∷ (verdict ++ 10 ∷ blocks_text d blocks)) in
          let m = length-append verdict (10 ∷ blocks_text d blocks) in omega arith))
