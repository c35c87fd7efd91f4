-- ===== src/Base/Decimal.antt =====
-- std::to_string and std::stoi on a 32-bit int.
use Prim.Native.Nat.{ℕ, zero, suc, ◌+◌, ◌-◌, ◌*◌, ◌/◌, ◌%◌, ◌^◌, ◌≤◌, ◌<◌}
use mathlib.Core.Path.{◌≡◌, refl, ◌∙◌}
use mathlib.Core.Bool.{Bool, true, false, ◌&&◌, ◌||◌}
use mathlib.Core.Logic.{inl, inr}
use mathlib.Core.List.{[], ◌∷◌}
use native.Mathlib.Omega.{arith}
use p7_kode.Base.Tests.{◌==◌, ltb, leb, if◌then◌else◌, Bool-cases}
use p7_kode.Base.Lists.{All}
use p7_kode.Base.Errors.{Result, ok, err, invalid_argument, out_of_range}
use p7_kode.Base.Int.{ℤ, pos, negsuc, InInt}
use p7_kode.Base.Text.{Bytes, codes}

-- The digits of `n` in front of `out`; as much fuel as `n` is enough.
digits : ℕ → ℕ → Bytes → Bytes
digits zero n out = out
digits (suc fuel) n out = elim (n == 0) [
  | true ↦ out
  | false ↦ digits fuel (n / 10) ((b'0' + n % 10) ∷ out)
]

-- The last digit is always printed, so that 0 is "0".
abbrev natural_text : ℕ → Bytes
natural_text n = digits n (n / 10) ((b'0' + n % 10) ∷ [])

-- std::to_string
unfoldable pub to_string : ℤ → Bytes
unfolding digits
to_string (pos n) = natural_text n
to_string (negsuc n) = b'-' ∷ natural_text (n + 1)

abbrev pub is_digit : ℕ → Bool
is_digit c = leb b'0' c && leb c b'9'

-- std::isspace in the C locale
abbrev pub is_space : ℕ → Bool
is_space c = (c == 32) || (leb 9 c && leb c 13)

-- The value of the leading digits behind `acc`; what follows them is not read.
read_digits : ℕ → Bytes → ℕ
read_digits acc [] = acc
read_digits acc (c ∷ s) = elim (is_digit c) [
  | true ↦ read_digits (acc * 10 + (c - b'0')) s
  | false ↦ acc
]

skip_space : Bytes → Bytes
skip_space [] = []
skip_space (c ∷ s) = if is_space c then skip_space s else c ∷ s

abbrev in_range_pos : ℕ → Result ℤ
in_range_pos n = if ltb n (2 ^ 31) then ok (pos n) else err out_of_range

abbrev negated : ℕ → ℤ
negated zero = pos 0
negated (suc n) = negsuc n

abbrev in_range_neg : ℕ → Result ℤ
in_range_neg n = if leb n (2 ^ 31) then ok (negated n) else err out_of_range

abbrev unsigned : (ℕ → Result ℤ) → Bytes → Result ℤ
unsigned k [] = err invalid_argument
unsigned k (c ∷ s) = if is_digit c then k (read_digits 0 (c ∷ s)) else err invalid_argument

abbrev signed : Bytes → Result ℤ
signed [] = err invalid_argument
signed (c ∷ s) =
    if c == b'-'
    then unsigned in_range_neg s
    else if c == b'+'
    then unsigned in_range_pos s
    else unsigned in_range_pos (c ∷ s)

-- std::stoi
unfoldable pub stoi : Bytes → Result ℤ
unfolding skip_space read_digits
stoi s = signed (skip_space s)

stoi_runs :
    (stoi (codes " -42x") ≡ ok (negsuc 41))
    × (stoi (codes "2147483648") ≡ err out_of_range)
    × (to_string (negsuc 41) ≡ codes "-42")
    × (to_string (pos 0) ≡ codes "0")
unfolding stoi to_string
stoi_runs = (refl, refl, refl, refl)

digit_step : (n : ℕ) → n / 10 * 10 + (b'0' + n % 10 - b'0') ≡ n
digit_step n = omega arith

read_digits-digit :
    (acc d : ℕ) (out : Bytes)
    → d < 10
    → read_digits acc ((b'0' + d) ∷ out) ≡ read_digits (acc * 10 + d) out
unfolding read_digits
read_digits-digit acc d out h = ground arith

read_digits-digits :
    (fuel n : ℕ) (out : Bytes) → n ≤ fuel → read_digits 0 (digits fuel n out) ≡ read_digits n out
unfolding digits
read_digits-digits zero n out h = let e : n ≡ 0 = omega arith in rw e
read_digits-digits (suc fuel) n out h = elim (Bool-cases (n == 0)) [
  | inl e ↦ let e' : n ≡ 0 = ground arith in rw e'
  | inr e ↦
      let smaller : n / 10 ≤ fuel = ground arith in
      let whole : n / 10 * 10 + n % 10 ≡ n = omega arith in
      rw (e, digits)
        (read_digits-digits fuel (n / 10) ((b'0' + n % 10) ∷ out) smaller
          ∙ read_digits-digit (n / 10) (n % 10) out (omega arith)
          ∙ rw whole)
]

read_digits-natural_text : (n : ℕ) → read_digits 0 (natural_text n) ≡ n
unfolding read_digits
read_digits-natural_text n =
    let whole : n / 10 * 10 + n % 10 ≡ n = omega arith in
    read_digits-digits n (n / 10) _ (omega arith)
    ∙ read_digits-digit (n / 10) (n % 10) [] (omega arith)
    ∙ whole

-- A byte that stands in the text of a number.
abbrev pub IsDigit : ℕ → Type 0
IsDigit c = (b'0' ≤ c) × (c ≤ b'9')

digits_stop : (fuel n : ℕ) (out : Bytes) → (n == 0) ≡ true → digits (suc fuel) n out ≡ out
unfolding digits
digits_stop fuel n out e = rw (e, digits)

digits_more :
    (fuel n : ℕ) (out : Bytes)
    → (n == 0) ≡ false
    → digits (suc fuel) n out ≡ digits fuel (n / 10) ((b'0' + n % 10) ∷ out)
unfolding digits
digits_more fuel n out e = rw (e, digits)

digits-IsDigit : (fuel n : ℕ) (out : Bytes) → All IsDigit out → All IsDigit (digits fuel n out)
digits-IsDigit zero n out h = unfold digits in h
digits-IsDigit (suc fuel) n out h = elim (Bool-cases (n == 0)) [
  | inl e ↦ rw (digits_stop fuel n out e) h
  | inr e ↦
      rw (digits_more fuel n out e) (digits-IsDigit fuel (n / 10) _ ((omega arith, omega arith), h))
]

digits-cons :
    (fuel n c : ℕ) (out : Bytes) → (d : ℕ) × (t : Bytes) × (digits fuel n (c ∷ out) ≡ d ∷ t)
digits-cons zero n c out = (c, out, unfold digits in refl)
digits-cons (suc fuel) n c out = elim (Bool-cases (n == 0)) [
  | inl e ↦ (c, out, digits_stop fuel n (c ∷ out) e)
  | inr e ↦
      let (d, t, h) = digits-cons fuel (n / 10) (b'0' + n % 10) (c ∷ out) in
      (d, t, digits_more fuel n (c ∷ out) e ∙ h)
]

natural_text-IsDigit : (n : ℕ) → All IsDigit (natural_text n)
natural_text-IsDigit n = digits-IsDigit n (n / 10) _ ((omega arith, omega arith), tt)

-- The text of a number is a first digit and a rest that reads back to the number.
natural_text_first :
    (n : ℕ)
    → (d : ℕ) × (t : Bytes) × (natural_text n ≡ d ∷ t) × IsDigit d × (read_digits 0 (d ∷ t) ≡ n)
natural_text_first n =
    let (d, t, e) = digits-cons n (n / 10) (b'0' + n % 10) [] in
    let all : All IsDigit (d ∷ t) = rw e at (natural_text-IsDigit n) in
    (d, t, e, all.0, rw (← e) (read_digits-natural_text n))

module _ (d : ℕ) (t : Bytes) (h : IsDigit d) where
  is_digit-IsDigit : is_digit d ≡ true
  is_digit-IsDigit = ground arith

  skip_space-IsDigit : skip_space (d ∷ t) ≡ d ∷ t
  unfolding skip_space
  skip_space-IsDigit = ground arith

  signed-IsDigit : signed (d ∷ t) ≡ in_range_pos (read_digits 0 (d ∷ t))
  signed-IsDigit = ground arith

  unsigned-IsDigit : (k : ℕ → Result ℤ) → unsigned k (d ∷ t) ≡ k (read_digits 0 (d ∷ t))
  unsigned-IsDigit k = rw is_digit-IsDigit

-- std::stoi reads back what std::to_string prints, for every 32-bit int.
pub stoi-to_string : (z : ℤ) → InInt z → stoi (to_string z) ≡ ok z
unfolding stoi to_string
stoi-to_string (pos n) h =
    let (d, t, e, digit, value) = natural_text_first n in
    rw (e, skip_space-IsDigit d t digit, signed-IsDigit d t digit, value) (ground arith)
stoi-to_string (negsuc n) h =
    let (d, t, e, digit, value) = natural_text_first (n + 1) in
    let next : n + 1 ≡ suc n = omega arith in
    rw (e, unsigned-IsDigit d t digit in_range_neg, value, next) (ground arith)

All-map : {P Q : ℕ → Type 0} → ((c : ℕ) → P c → Q c) → (s : Bytes) → All P s → All Q s
All-map f [] h = tt
All-map f (c ∷ s) h = (f c h.0, All-map f s h.1)

-- The text of an int is digits, with a minus in front of a negative one.
pub to_string-All :
    {P : ℕ → Type 0} (z : ℤ) → P b'-' → ((c : ℕ) → IsDigit c → P c) → All P (to_string z)
unfolding to_string
to_string-All (pos n) minus digit = All-map digit (natural_text n) (natural_text-IsDigit n)
to_string-All (negsuc n) minus digit =
    (minus, All-map digit (natural_text (n + 1)) (natural_text-IsDigit (n + 1)))

-- The text of an int as digits, at least one, behind a minus or nothing.
pub record IsIntText (s : Bytes) : Type 0 where
  pub minus : Bool
  pub first : ℕ
  pub others : Bytes
  pub is_text : s ≡ (if minus then b'-' ∷ first ∷ others else first ∷ others)
  pub all_digits : All IsDigit (first ∷ others)

natural_text-IsIntText :
    (minus : Bool) (n : ℕ) → IsIntText (if minus then b'-' ∷ natural_text n else natural_text n)
natural_text-IsIntText minus n =
    let (d, t, e, digit, value) = natural_text_first n in
    record {
      minus = minus;
      first = d;
      others = t;
      is_text = rw e refl;
      all_digits = rw e at (natural_text-IsDigit n);
    }

pub to_string-IsIntText : (z : ℤ) → IsIntText (to_string z)
unfolding to_string
to_string-IsIntText (pos n) = natural_text-IsIntText false n
to_string-IsIntText (negsuc n) = natural_text-IsIntText true (n + 1)

pub IsDigit-is_digit : (c : ℕ) → IsDigit c → is_digit c ≡ true
IsDigit-is_digit c h = ground arith

pub to_string-digits :
    (n : ℕ)
    → (b : ℕ) × (digits : Bytes) × (to_string (pos n) ≡ b ∷ digits) × All IsDigit (b ∷ digits)
unfolding to_string
to_string-digits n =
    let (b, digits, e, digit, value) = natural_text_first n in
    (b, digits, e, rw e at (natural_text-IsDigit n))
