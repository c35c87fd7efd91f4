-- ===== src/Scheduling/Parser/Patterns.antt =====
-- scheduling/src/uppaal_simulation_parser.cpp: what std::regex_match and std::regex_search find for
-- `line_pattern` and `pair_pattern`. No text has two matches of a pattern with the same start, so
-- that the order in which the alternatives are tried plays no part.
use p7_kode.Base.{
  ℕ, zero, suc, Bool, true, false, Option, none, some, [], ◌∷◌, ◌++◌, ◌==◌, if◌then◌else◌, length,
}
use p7_kode.Base.Optional.{◌>>=◌}
use p7_kode.Base.Text.{Bytes}
use p7_kode.Base.Decimal.{is_digit}

-- This byte, and what is behind it.
abbrev pub match_byte : ℕ → Bytes → Option Bytes
match_byte c [] = none
match_byte c (b ∷ s) = if b == c then some s else none

-- \d*
unfoldable pub match_all_digits : Bytes → Bytes × Bytes
match_all_digits [] = ([], [])
match_all_digits (c ∷ s) =
    let r = match_all_digits s in if is_digit c then (c ∷ r.0, r.1) else ([], c ∷ s)

abbrev pub at_least_one : Bytes × Bytes → Option (Bytes × Bytes)
at_least_one ([], s) = none
at_least_one (c ∷ digits, s) = some (c ∷ digits, s)

-- \d+
abbrev pub match_digits : Bytes → Option (Bytes × Bytes)
match_digits s = at_least_one (match_all_digits s)

-- -?
abbrev pub match_minus : Bytes → Bytes × Bytes
match_minus [] = ([], [])
match_minus (c ∷ s) = if c == b'-' then (c ∷ [], s) else ([], c ∷ s)

abbrev pub signed_text : Bytes → Bytes × Bytes → Option (Bytes × Bytes)
signed_text minus (digits, s) = some (minus ++ digits, s)

-- -?\d+
unfoldable pub match_int : Bytes → Option (Bytes × Bytes)
match_int s = do r ← match_digits (match_minus s).1; signed_text (match_minus s).0 r

abbrev pub or_empty : Bytes → Option (Bytes × Bytes) → Bytes × Bytes
or_empty s none = ([], s)
or_empty s (some (digits, rest)) = (b'.' ∷ digits, rest)

-- (?:\.\d+)?
unfoldable pub match_fraction : Bytes → Bytes × Bytes
match_fraction s = or_empty s (match_byte b'.' s >>= match_digits)

-- -?\d+(?:\.\d+)?
unfoldable pub match_number : Bytes → Option (Bytes × Bytes)
match_number s = do
  whole ← match_int s
  some (whole.0 ++ (match_fraction whole.1).0, (match_fraction whole.1).1)

-- pair_pattern, at the start of the text: its two groups, and the suffix
unfoldable pub match_pair : Bytes → Option (Bytes × Bytes × Bytes)
match_pair s = do
  s1 ← match_byte b' ' s
  s2 ← match_byte b'(' s1
  time ← match_number s2
  s3 ← match_byte b',' time.1
  value ← match_int s3
  s4 ← match_byte b')' value.1
  some (time.0, value.0, s4)

-- pair_pattern any number of times, and nothing else; on fuel
unfoldable pub is_pairs : ℕ → Bytes → Bool
is_pairs fuel [] = true
is_pairs zero (c ∷ s) = false
is_pairs (suc fuel) (c ∷ s) = elim (match_pair (c ∷ s)) [
  | none ↦ false
  | some r ↦ is_pairs fuel r.2
]

-- std::regex_match with line_pattern: its two groups
unfoldable pub match_line : Bytes → Option (Bytes × Bytes)
match_line s = do
  s1 ← match_byte b'[' s
  number ← match_digits s1
  s2 ← match_byte b']' number.1
  s3 ← match_byte b':' s2
  if is_pairs (length s3) s3 then some (number.0, s3) else none

-- std::regex_search with pair_pattern: the groups of the first match, and its suffix
unfoldable pub search_pair : Bytes → Option (Bytes × Bytes × Bytes)
search_pair [] = none
search_pair (c ∷ s) =
    let later = search_pair s in elim (match_pair (c ∷ s)) [ none ↦ later | some r ↦ some r ]
