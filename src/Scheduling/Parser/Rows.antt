-- ===== src/Scheduling/Parser/Rows.antt =====
-- scheduling/src/uppaal_simulation_parser.cpp: the patterns on rows as verifyta writes them.
use p7_kode.Base.{
  ℕ, zero, suc, ◌≤◌, ◌≡◌, refl, ap, ◌∙◌, Bool, true, false, some, List, [], ◌∷◌, ◌++◌, ◌==◌, ◌⊎◌,
  inl, inr, if◌then◌else◌, arith, All, length, length-append, append_assoc, append-nil,
}
use p7_kode.Base.Int.{ℤ, pos}
use p7_kode.Base.Text.{Bytes}
use p7_kode.Base.Decimal.{
  is_digit, IsDigit, IsDigit-is_digit, IsIntText, to_string, to_string-IsIntText, to_string-digits,
}
use p7_kode.Scheduling.Parser.Patterns.{
  match_all_digits, at_least_one, match_digits, match_int, match_fraction, match_number, match_pair,
  is_pairs, match_line, search_pair,
}

match_all_digits-append :
    (digits : Bytes) (c : ℕ) (s : Bytes)
    → All IsDigit digits
    → is_digit c ≡ false
    → match_all_digits (digits ++ c ∷ s) ≡ (digits, c ∷ s)
unfolding match_all_digits
match_all_digits-append [] c s h stop = rw stop refl
match_all_digits-append (b ∷ digits) c s (h, hs) stop =
    rw (IsDigit-is_digit b h, match_all_digits-append digits c s hs stop) refl

match_digits-append :
    (b : ℕ) (digits : Bytes) (c : ℕ) (s : Bytes)
    → All IsDigit (b ∷ digits)
    → is_digit c ≡ false
    → match_digits ((b ∷ digits) ++ c ∷ s) ≡ some (b ∷ digits, c ∷ s)
match_digits-append b digits c s h stop =
    ap at_least_one (match_all_digits-append (b ∷ digits) c s h stop)

digit_no_minus : (c : ℕ) → IsDigit c → (c == b'-') ≡ false
digit_no_minus c h = ground arith

match_int-minus :
    (minus : Bool) (b : ℕ) (digits : Bytes) (c : ℕ) (s : Bytes)
    → All IsDigit (b ∷ digits)
    → is_digit c ≡ false
    → match_int ((if minus then b'-' ∷ b ∷ digits else b ∷ digits) ++ c ∷ s)
      ≡ some (if minus then b'-' ∷ b ∷ digits else b ∷ digits, c ∷ s)
unfolding match_int
match_int-minus true b digits c s h stop = rw (match_digits-append b digits c s h stop) refl
match_int-minus false b digits c s h stop =
    rw (digit_no_minus b h.0, match_digits-append b digits c s h stop) refl

pub match_int-append :
    (text : Bytes) (c : ℕ) (s : Bytes)
    → IsIntText text
    → is_digit c ≡ false
    → match_int (text ++ c ∷ s) ≡ some (text, c ∷ s)
match_int-append text c s h stop =
    rw h.is_text (match_int-minus h.minus h.first h.others c s h.all_digits stop)

-- The text of a double: that of an int, and perhaps a point with digits.
pub record IsNumberText (text : Bytes) : Type 0 where
  pub whole : Bytes
  pub fraction : Bytes
  pub is_text : text ≡ whole ++ fraction
  pub is_whole : IsIntText whole
  pub is_fraction :
      (fraction ≡ [])
      ⊎ ((b : ℕ) × (digits : Bytes) × (fraction ≡ b'.' ∷ b ∷ digits) × All IsDigit (b ∷ digits))

match_number-append :
    (text : Bytes) (s : Bytes)
    → IsNumberText text
    → match_number (text ++ b',' ∷ s) ≡ some (text, b',' ∷ s)
unfolding match_number match_fraction
match_number-append text s h = elim h.is_fraction [
  | inl e ↦
      let f : text ≡ h.whole = h.is_text ∙ ap (◌++◌ h.whole) e ∙ append-nil h.whole in
      rw (f, match_int-append h.whole b',' s h.is_whole refl)
        (ap (λ z. some (z, b',' ∷ s)) (append-nil h.whole))
  | inr (b, digits, e, all) ↦
      let f : text ≡ h.whole ++ b'.' ∷ b ∷ digits = h.is_text ∙ ap (◌++◌ h.whole) e in
      rw
        (
          f,
          append_assoc h.whole (b'.' ∷ b ∷ digits) (b',' ∷ s),
          match_int-append h.whole b'.' ((b ∷ digits) ++ b',' ∷ s) h.is_whole refl,
          match_digits-append b digits b',' s all refl,
        )
        refl
]

-- A pair as it is written, in front of the rest of the row.
unfoldable pub pair_text : Bytes → ℤ → Bytes → Bytes
pair_text time value rest = b' ' ∷ b'(' ∷ (time ++ b',' ∷ (to_string value ++ b')' ∷ rest))

match_pair-pair_text :
    (time : Bytes) (value : ℤ) (rest : Bytes)
    → IsNumberText time
    → match_pair (pair_text time value rest) ≡ some (time, to_string value, rest)
unfolding match_pair pair_text
match_pair-pair_text time value rest h =
    rw
      (
        match_number-append time (to_string value ++ b')' ∷ rest) h,
        match_int-append (to_string value) b')' rest (to_string-IsIntText value) refl,
      )
      refl

search_pair_start :
    (c : ℕ) (s : Bytes) (r : Bytes × Bytes × Bytes)
    → match_pair (c ∷ s) ≡ some r
    → search_pair (c ∷ s) ≡ some r
unfolding search_pair
search_pair_start c s r e = rw (search_pair, e) refl

is_pairs_next :
    (fuel c : ℕ) (s : Bytes) (r : Bytes × Bytes × Bytes)
    → match_pair (c ∷ s) ≡ some r
    → is_pairs (suc fuel) (c ∷ s) ≡ is_pairs fuel r.2
unfolding is_pairs
is_pairs_next fuel c s r e = rw (is_pairs, e) refl

pub search_pair-pair_text :
    (time : Bytes) (value : ℤ) (rest : Bytes)
    → IsNumberText time
    → search_pair (pair_text time value rest) ≡ some (time, to_string value, rest)
unfolding pair_text
search_pair-pair_text time value rest h =
    search_pair_start b' ' _ (time, to_string value, rest) (match_pair-pair_text time value rest h)

-- The pairs of a row: the texts of the times, and the values.
unfoldable pub pairs_text : List (Bytes × ℤ) → Bytes
pairs_text [] = []
pairs_text ((time, value) ∷ pairs) = pair_text time value (pairs_text pairs)

abbrev pub HasNumberText : Bytes × ℤ → Type 0
HasNumberText (time, value) = IsNumberText time

is_pairs-pairs_text :
    (fuel : ℕ) (pairs : List (Bytes × ℤ))
    → All HasNumberText pairs
    → length pairs ≤ fuel
    → is_pairs fuel (pairs_text pairs) ≡ true
unfolding is_pairs pairs_text pair_text
is_pairs-pairs_text fuel [] h enough = refl
is_pairs-pairs_text zero (p ∷ pairs) h enough = absurd (omega arith)
is_pairs-pairs_text (suc fuel) ((time, value) ∷ pairs) (h, hs) enough =
    is_pairs_next fuel b' ' _ (time, to_string value, pairs_text pairs)
      (match_pair-pair_text time value (pairs_text pairs) h)
    ∙ (is_pairs-pairs_text fuel pairs hs (omega arith))

pub length-pairs_text : (pairs : List (Bytes × ℤ)) → length pairs ≤ length (pairs_text pairs)
unfolding pairs_text pair_text
length-pairs_text [] = omega arith
length-pairs_text ((time, value) ∷ pairs) =
    let h = length-pairs_text pairs in
    let e = length-append time (b',' ∷ (to_string value ++ b')' ∷ pairs_text pairs)) in
    let f = length-append (to_string value) (b')' ∷ pairs_text pairs) in omega arith

-- A run as it is written.
unfoldable pub row_text : ℕ → List (Bytes × ℤ) → Bytes
row_text number pairs = b'[' ∷ (to_string (pos number) ++ b']' ∷ b':' ∷ pairs_text pairs)

pub match_line-row_text :
    (number : ℕ) (pairs : List (Bytes × ℤ))
    → All HasNumberText pairs
    → match_line (row_text number pairs) ≡ some (to_string (pos number), pairs_text pairs)
unfolding match_line row_text
match_line-row_text number pairs h =
    let (b, digits, e, all) = to_string-digits number in
    rw
      (
        e,
        match_digits-append b digits b']' (b':' ∷ pairs_text pairs) all refl,
        is_pairs-pairs_text (length (pairs_text pairs)) pairs h (length-pairs_text pairs),
      )
      refl
