-- ===== src/Scheduling/Parser/Lines.antt =====
-- scheduling/src/uppaal_simulation_parser.cpp: its loops over the pairs of a row and over the rows of an expression.
use p7_kode.Base.{
  ℕ, zero, suc, ◌≤◌, ◌<◌, ◌≡◌, ◌≢◌, refl, sym, ap, ◌∙◌, Bool, true, false, Result, ok, none, some,
  List, [], ◌∷◌, ◌++◌, ◌==◌, arith, All, All-append, length, append_assoc, append-nil,
  if◌then◌else◌, inl, inr,
}
use p7_kode.Base.Int.{ℤ, pos}
use p7_kode.Base.Text.{Bytes}
use p7_kode.Base.Decimal.{IsDigit, IsIntText, to_string, stoi, stoi-to_string, to_string-All}
use p7_kode.Base.Double.{Double}
use p7_kode.Util.Split.{Lacks}
use p7_kode.Scheduling.Traces.{done, TimeValuePair, SimulationTrace}
use p7_kode.Scheduling.Parser.{Stream, cut_line, after_cut, get_line, pairs_loop, runs_loop}
use p7_kode.Scheduling.Parser.Patterns.{match_line, search_pair}
use p7_kode.Scheduling.Parser.Rows.{
  IsNumberText, pair_text, pairs_text, row_text, HasNumberText, length-pairs_text,
  search_pair-pair_text, match_line-row_text,
}
use p7_kode.Scheduling.Parser.Report.{
  Sample, Run, texts, pair_values, traces, runs_text, IsSample, IsRun,
}

digits_lack : (digits : Bytes) → All IsDigit digits → Lacks 10 digits
digits_lack [] h = tt
digits_lack (c ∷ digits) (h, hs) = ((ground arith), digits_lack digits hs)

IsIntText-Lacks : (text : Bytes) → IsIntText text → Lacks 10 text
IsIntText-Lacks text h = rw h.is_text (signed h.minus)
  where
    signed :
        (minus : Bool) → Lacks 10 (if minus then b'-' ∷ h.first ∷ h.others else h.first ∷ h.others)
    signed true = ((ground arith), digits_lack (h.first ∷ h.others) h.all_digits)
    signed false = digits_lack (h.first ∷ h.others) h.all_digits

cut_line-append :
    (line rest : Bytes) → Lacks 10 line → cut_line (line ++ 10 ∷ rest) ≡ (line, some rest)
unfolding cut_line
cut_line-append [] rest h = refl
cut_line-append (c ∷ line) rest (h, hs) =
    let e : (c == 10) ≡ false = ground arith in rw (e, cut_line-append line rest hs) refl

IsNumberText-Lacks : (text : Bytes) → IsNumberText text → Lacks 10 text
IsNumberText-Lacks text h = rw h.is_text (
    All-append (λ c. c ≢ 10) h.whole h.fraction (IsIntText-Lacks h.whole h.is_whole)
      (elim h.is_fraction [
        | inl e ↦ rw e tt
        | inr (b, digits, e, all) ↦ rw e ((ground arith), digits_lack (b ∷ digits) all)
      ]))

pub to_string-Lacks : (z : ℤ) → Lacks 10 (to_string z)
to_string-Lacks z = to_string-All z (ground arith) (λ c h. ground arith)

pairs_text-Lacks :
    (pairs : List (Bytes × ℤ)) → All HasNumberText pairs → Lacks 10 (pairs_text pairs)
unfolding pairs_text pair_text
pairs_text-Lacks [] h = tt
pairs_text-Lacks ((time, value) ∷ pairs) (h, hs) = (
  (ground arith),
  (
    (ground arith),
    All-append (λ c. c ≢ 10) time _ (IsNumberText-Lacks time h)
        (
          (ground arith),
          All-append (λ c. c ≢ 10) (to_string value) _ (to_string-Lacks value)
              ((ground arith), pairs_text-Lacks pairs hs),
        ),
  ),
)

row_text-Lacks :
    (number : ℕ) (pairs : List (Bytes × ℤ))
    → All HasNumberText pairs
    → Lacks 10 (row_text number pairs)
unfolding row_text
row_text-Lacks number pairs h = (
  (ground arith),
  All-append (λ c. c ≢ 10) (to_string (pos number)) _ (to_string-Lacks (pos number))
      ((ground arith), ((ground arith), pairs_text-Lacks pairs h)),
)

-- The next line of a stream that is not at its end.
abbrev pub next : Bytes → Bytes × Stream
next rest = after_cut (cut_line rest)

pub next-append :
    (line rest : Bytes)
    → Lacks 10 line
    → next (line ++ 10 ∷ rest) ≡ (line, record { rest = rest; eof = false })
next-append line rest h = ap after_cut (cut_line-append line rest h)

search_pair_nil : search_pair [] ≡ none
unfolding search_pair
search_pair_nil = refl

module _ (d : Double) (stod : Bytes → Result d.Carrier) where
  pairs_loop_end :
      (fuel : ℕ) (pairs : Bytes) (values : List (TimeValuePair d))
      → search_pair pairs ≡ none
      → pairs_loop d stod (suc fuel) pairs values ≡ done values
  unfolding pairs_loop
  pairs_loop_end fuel pairs values e = rw (pairs_loop, e) refl

  pairs_loop_next :
      (fuel : ℕ) (pairs time value suffix : Bytes) (values : List (TimeValuePair d))
      (time' : d.Carrier) (value' : ℤ)
      → search_pair pairs ≡ some (time, value, suffix)
      → stod time ≡ ok time'
      → stoi value ≡ ok value'
      → pairs_loop d stod (suc fuel) pairs values
        ≡ pairs_loop d stod fuel suffix (values ++ record { time = time'; value = value' } ∷ [])
  unfolding pairs_loop
  pairs_loop_next fuel pairs time value suffix values time' value' e f g =
      rw (pairs_loop, e, f, g) refl

  pairs_loop-pairs_text :
      (fuel : ℕ) (samples : List (Sample d)) (values : List (TimeValuePair d))
      → All (IsSample d stod) samples
      → length samples < fuel
      → pairs_loop d stod fuel (pairs_text (texts d samples)) values
        ≡ done (values ++ pair_values d samples)
  unfolding pairs_text
  pairs_loop-pairs_text zero samples values h enough = absurd (omega arith)
  pairs_loop-pairs_text (suc fuel) [] values h enough =
      pairs_loop_end fuel [] values search_pair_nil ∙ ap done (sym (append-nil values))
  pairs_loop-pairs_text (suc fuel) (s ∷ samples) values ((number, time, int), hs) enough =
      let value : TimeValuePair d = record { time = s.time; value = s.value } in
      pairs_loop_next fuel _ s.text (to_string s.value) (pairs_text (texts d samples)) values s.time
        s.value (search_pair-pair_text s.text s.value (pairs_text (texts d samples)) number) time
        (stoi-to_string s.value int)
      ∙ pairs_loop-pairs_text fuel samples (values ++ value ∷ []) hs (omega arith)
      ∙ ap done (append_assoc values (value ∷ []) (pair_values d samples))

  runs_loop_end :
      (fuel : ℕ) (line : Bytes) (ss : Stream) (runs : List (SimulationTrace d))
      → match_line line ≡ none
      → runs_loop d stod (suc fuel) line ss runs ≡ done (runs, line, ss)
  unfolding runs_loop
  runs_loop_end fuel line ss runs e = rw (runs_loop, e) refl

  runs_loop_next :
      (fuel : ℕ) (line rest number pairs : Bytes) (runs : List (SimulationTrace d)) (n : ℤ)
      (values : List (TimeValuePair d))
      → match_line line ≡ some (number, pairs)
      → stoi number ≡ ok n
      → pairs_loop d stod (suc (length pairs)) pairs [] ≡ done values
      → runs_loop d stod (suc fuel) line (record { rest = rest; eof = false }) runs
        ≡ runs_loop d stod fuel
            (next rest).0
            (next rest).1
            (runs ++ record { number = n; values = values } ∷ [])
  unfolding runs_loop get_line
  runs_loop_next fuel line rest number pairs runs n values e f g = rw (runs_loop, e, f, g) refl

  texts-HasNumberText :
      (samples : List (Sample d))
      → All (IsSample d stod) samples
      → All HasNumberText (texts d samples)
  texts-HasNumberText [] h = tt
  texts-HasNumberText (s ∷ samples) (h, hs) = (h.0, texts-HasNumberText samples hs)

  length_same : (samples : List (Sample d)) → length samples ≤ length (texts d samples)
  length_same [] = omega arith
  length_same (s ∷ samples) = let h = length_same samples in omega arith

  length-texts :
      (samples : List (Sample d)) → length samples ≤ length (pairs_text (texts d samples))
  length-texts samples =
      let h = length-pairs_text (texts d samples) in let e = length_same samples in omega arith

  pub runs_loop-runs_text :
      (fuel : ℕ) (runs : List (Run d)) (rest : Bytes) (before : List (SimulationTrace d))
      → All (IsRun d stod) runs
      → length runs < fuel
      → match_line (next rest).0 ≡ none
      → runs_loop d stod fuel
          (next (runs_text d runs rest)).0
          (next (runs_text d runs rest)).1
          before
        ≡ done (before ++ traces d runs, (next rest).0, (next rest).1)
  unfolding runs_text
  runs_loop-runs_text zero runs rest before h enough after = absurd (omega arith)
  runs_loop-runs_text (suc fuel) [] rest before h enough after =
      runs_loop_end fuel (next rest).0 (next rest).1 before after
      ∙ ap (λ z. done (z, (next rest).0, (next rest).1)) (sym (append-nil before))
  runs_loop-runs_text (suc fuel) (r ∷ runs) rest before ((number, samples), hs) enough after =
      let trace : SimulationTrace d = record {
        number = pos r.number;
        values = pair_values d r.samples;
      } in
      let numbers = texts-HasNumberText r.samples samples in
      rw
        (next-append (row_text r.number (texts d r.samples)) (runs_text d runs rest)
          (row_text-Lacks r.number (texts d r.samples) numbers))
        (runs_loop_next fuel (row_text r.number (texts d r.samples)) (runs_text d runs rest)
            (to_string (pos r.number)) (pairs_text (texts d r.samples)) before (pos r.number)
            (pair_values d r.samples) (match_line-row_text r.number (texts d r.samples) numbers)
            (stoi-to_string (pos r.number) number)
            (pairs_loop-pairs_text (suc (length (pairs_text (texts d r.samples)))) r.samples []
              samples (let l = length-texts r.samples in omega arith))
          ∙ runs_loop-runs_text fuel runs rest (before ++ trace ∷ []) hs (omega arith) after
          ∙ ap (λ z. done (z, (next rest).0, (next rest).1))
              (append_assoc before (trace ∷ []) (traces d runs)))
