-- ===== src/Base/Text.antt =====
-- Byte strings and the parts of std::string that the program calls.
use Prim.Native.Char.{code}
use Prim.Native.String.{String}
use Prim.Native.Nat.{ℕ, zero, suc, ◌+◌, ◌≤◌}
use mathlib.Core.Path.{◌≡◌, refl, ap, ◌∙◌}
use mathlib.Core.Bool.{Bool, true, false, ◌&&◌}
use mathlib.Core.Logic.{◌↔◌, inl, inr}
use mathlib.Core.Option
use mathlib.Core.Option.{Option, none, some}
use mathlib.Core.List.{List, [], ◌∷◌, ◌++◌}
use native.Mathlib.Omega.{arith}
use p7_kode.Base.Tests.{◌==◌, if◌then◌else◌, Bool-cases, Option-cases}
use p7_kode.Base.Lists.{length}

abbrev pub Bytes : Type 0
Bytes = List ℕ

-- The code points of a literal, which are its bytes when the text is ASCII.
abbrev pub codes : String → Bytes
codes String.[] = []
codes (String.◌∷◌ c s) = code c ∷ codes s

-- s == t
abbrev pub bytes_eq : Bytes → Bytes → Bool
bytes_eq [] [] = true
bytes_eq [] (d ∷ t) = false
bytes_eq (c ∷ s) [] = false
bytes_eq (c ∷ s) (d ∷ t) = (c == d) && bytes_eq s t

pub bytes_eq_iff : (s t : Bytes) → (bytes_eq s t ≡ true) ↔ (s ≡ t)
bytes_eq_iff [] [] = ground arith
bytes_eq_iff [] (d ∷ t) = ground arith
bytes_eq_iff (c ∷ s) [] = ground arith
bytes_eq_iff (c ∷ s) (d ∷ t) = ground (arith, bytes_eq_iff s t)

pub bytes_eq_refl : (s : Bytes) → bytes_eq s s ≡ true
bytes_eq_refl s = (bytes_eq_iff s s).1 refl

abbrev pub starts_with : Bytes → Bytes → Bool
starts_with [] s = true
starts_with (p ∷ ps) [] = false
starts_with (p ∷ ps) (c ∷ s) = (p == c) && starts_with ps s

-- s.find(needle): the first position at which the needle stands; `none` is std::string::npos.
unfoldable pub find : Bytes → Bytes → Option ℕ
find needle [] = if starts_with needle [] then some 0 else none
find needle (c ∷ s) =
    let later = Option.map suc (find needle s) in
    if starts_with needle (c ∷ s) then some 0 else later

-- s.find(c)
unfoldable pub find_char : ℕ → Bytes → Option ℕ
find_char d [] = none
find_char d (c ∷ s) = let later = Option.map suc (find_char d s) in if c == d then some 0 else later

pub starts_with-append : (n p q : Bytes) → starts_with n p ≡ true → starts_with n (p ++ q) ≡ true
starts_with-append [] p q h = refl
starts_with-append (x ∷ n) [] q h = cc
starts_with-append (x ∷ n) (c ∷ p) q h = ground (arith, starts_with-append n p q)

starts_with-length : (n p : Bytes) → starts_with n p ≡ true → length n ≤ length p
starts_with-length [] p h = omega arith
starts_with-length (x ∷ n) [] h = cc
starts_with-length (x ∷ n) (c ∷ p) h = ground (arith, starts_with-length n p)

-- What is found lies inside the text.
pub find-length : (n s : Bytes) (k : ℕ) → find n s ≡ some k → k + length n ≤ length s
unfolding find
find-length n [] k h = ground (arith, starts_with-length n [])
find-length n (c ∷ s) zero h = elim (Bool-cases (starts_with n (c ∷ s))) [
  | inl e ↦ omega (arith, starts_with-length n (c ∷ s) e)
  | inr e ↦ ground arith
]
find-length n (c ∷ s) (suc k) h = ground (arith, find-length n s k)

starts_with-nil : (n : Bytes) → starts_with n [] ≡ true → (q : Bytes) → starts_with n q ≡ true
starts_with-nil [] h q = refl
starts_with-nil (x ∷ n) h q = cc

pub find-zero : (n s : Bytes) → starts_with n s ≡ true → find n s ≡ some 0
unfolding find
find-zero n [] h = rw h
find-zero n (c ∷ s) h = rw h

starts_with-short :
    (n p q : Bytes) → length n ≤ length p → starts_with n p ≡ false → starts_with n (p ++ q) ≡ false
starts_with-short [] p q h e = e
starts_with-short (x ∷ n) [] q h e = absurd (omega arith)
starts_with-short (x ∷ n) (c ∷ p) q h e = ground (arith, starts_with-short n p q)

find-tail :
    (n : Bytes) (c : ℕ) (p : Bytes) (k : ℕ)
    → starts_with n (c ∷ p) ≡ false
    → find n (c ∷ p) ≡ some (suc k)
    → (j : ℕ) × ((find n p ≡ some j) × (suc j ≡ suc k))
unfolding find
find-tail n c p k e h = elim (Option-cases (find n p)) [
  | inl f ↦ ground arith
  | inr (j, f) ↦ (j, (f, ground arith))
]

-- A text behind does not change the first place.
pub find-append : (n p q : Bytes) (k : ℕ) → find n p ≡ some k → find n (p ++ q) ≡ some k
unfolding find
find-append n [] q k h = elim (Bool-cases (starts_with n [])) [
  | inl e ↦ find-zero n q (starts_with-nil n e q) ∙ ground arith
  | inr e ↦ ground arith
]
find-append n (c ∷ p) q zero h = elim (Bool-cases (starts_with n (c ∷ p))) [
  | inl e ↦ rw (starts_with-append n (c ∷ p) q e)
  | inr e ↦ ground arith
]
find-append n (c ∷ p) q (suc k) h = elim (Bool-cases (starts_with n (c ∷ p))) [
  | inl e ↦ ground arith
  | inr e ↦
      let (j, found) = find-tail n c p k e h in
      let inside : length n ≤ length (c ∷ p) = omega (arith, find-length n p j found.0) in
      let early : starts_with n ((c ∷ p) ++ q) ≡ false = starts_with-short n (c ∷ p) q inside e in
      rw (early, find-append n p q j found.0) (ap some found.1)
]

-- Where the needle stands behind a text in which it is not found, made of the text's end or not.
pub find_mark :
    (t rest : Bytes)
    → find (b'|' ∷ b'#' ∷ []) t ≡ none
    → find (b'|' ∷ b'#' ∷ []) (t ++ b'|' ∷ b'#' ∷ rest) ≡ some (length t)
unfolding find
find_mark [] rest h = refl
find_mark (c ∷ []) rest h = ground arith
find_mark (c ∷ d ∷ t) rest h = ground (arith, find_mark (d ∷ t) rest)
