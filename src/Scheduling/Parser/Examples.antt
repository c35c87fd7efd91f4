-- ===== src/Scheduling/Parser/Examples.antt =====
-- scheduling: a report of verifyta with one run.
use p7_kode.Base.{ℕ, ◌≡◌, refl, none, List, [], ◌∷◌, Result, ok, inr, All, arith, false}
use p7_kode.Base.Int.{pos, negsuc}
use p7_kode.Base.Text.{Bytes, codes, find}
use p7_kode.Base.Decimal.{to_string}
use p7_kode.Base.Samples.{whole}
use p7_kode.Scheduling.Traces.{done}
use p7_kode.Scheduling.Parser.{heading, parse}
use p7_kode.Scheduling.Parser.Patterns.{match_line}
use p7_kode.Scheduling.Parser.Rows.{IsNumberText, pair_text, pairs_text, row_text}
use p7_kode.Scheduling.Parser.Report.{Block, IsBlock, expressions, runs_text, blocks_text, report}
use p7_kode.Scheduling.Parser.RoundTrip.{parse-report}

abbrev half_five : Bytes → Result ℕ
half_five s = ok 25

-- 2.5, written with a fraction
two_and_a_half : IsNumberText (codes "2.5")
two_and_a_half = record {
  whole = codes "2";
  fraction = codes ".5";
  is_text = refl;
  is_whole = record {
    minus = false;
    first = b'2';
    others = [];
    is_text = refl;
    all_digits = ((omega arith, omega arith), tt);
  };
  is_fraction = inr (b'5', [], refl, ((omega arith, omega arith), tt));
}

abbrev printed_blocks : List (Block whole)
printed_blocks =
    record {
      name = codes "x[0]";
      runs =
          record {
            number = 0;
            samples = record { text = codes "2.5"; time = 25; value = negsuc 6 } ∷ [];
          }
          ∷ [];
    }
    ∷ []

printed_blocks-IsBlock : All (IsBlock whole half_five) printed_blocks
printed_blocks-IsBlock = (
  (
    ground arith,
    unfold match_line in refl,
    (((omega arith), ((two_and_a_half, refl, (omega arith)), tt)), tt),
  ),
  tt,
)

one_formula :
    find (heading (pos 2)) (report whole (pos 1) (codes " at q") (codes "ok") printed_blocks) ≡ none
unfolding find to_string blocks_text runs_text row_text pairs_text pair_text
one_formula = refl

parse-report_example :
    parse whole half_five (report whole (pos 1) (codes " at q") (codes "ok") printed_blocks) (pos 1)
    ≡ done (expressions whole printed_blocks)
parse-report_example =
    parse-report whole half_five (pos 1) (codes " at q") (codes "ok") printed_blocks (ground arith)
      (ground arith) printed_blocks-IsBlock one_formula
