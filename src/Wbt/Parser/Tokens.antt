-- ===== src/Wbt/Parser/Tokens.antt =====
-- wbt-translator/src/webots_parser.cpp: reading words and quoted texts.
use p7_kode.Base.{ℕ, ◌≡◌, ◌≢◌, refl, ap, ◌∙◌, false, true, [], ◌∷◌, ◌++◌, ok, All, arith, ◌==◌}
use p7_kode.Base.Text.{Bytes}
use p7_kode.Base.Decimal.{is_space}
use p7_kode.Wbt.Parser.{Input, skip_space, word_or_end, word, read_token, quoted, read_string}

-- The stream at `s`, its end not reached.
abbrev pub before : Bytes → Input
before s = record { unread = s; eof = false }

-- A byte of a word.
abbrev pub IsGraph : ℕ → Type 0
IsGraph c = is_space c ≡ false

-- A byte that stands for itself between quotes.
abbrev pub IsPlain : ℕ → Type 0
IsPlain c = (c ≢ b'"') × (c ≢ b'\\')

abbrev pub IsSpace : ℕ → Type 0
IsSpace c = is_space c ≡ true

-- The text begins with white space.
abbrev pub IsSpaced : Bytes → Type 0
IsSpaced [] = ⊥
IsSpaced (c ∷ s) = IsSpace c

-- One or more bytes of white space.
abbrev pub IsGap : Bytes → Type 0
IsGap gap = IsSpaced gap × All IsSpace gap

pub IsGap-IsSpaced : (gap s : Bytes) → IsGap gap → IsSpaced (gap ++ s)
IsGap-IsSpaced [] s (h, hs) = absurd h
IsGap-IsSpaced (c ∷ gap) s (h, hs) = h

word-append : (w s : Bytes) → All IsGraph w → IsSpaced s → word (w ++ s) ≡ (w, before s)
unfolding word
word-append [] [] h k = absurd k
word-append [] (c ∷ s) h k = rw k refl
word-append (c ∷ w) s (h, hs) k = rw (h, word-append w s hs k) refl

skip_space-gap : (gap s : Bytes) → All IsSpace gap → skip_space (gap ++ s) ≡ skip_space s
skip_space-gap [] s h = refl
skip_space-gap (c ∷ gap) s (h, hs) = rw h (skip_space-gap gap s hs)

skip_space-graph : (c : ℕ) (s : Bytes) → IsGraph c → skip_space (c ∷ s) ≡ c ∷ s
skip_space-graph c s h = rw h refl

-- A word behind white space and in front of some.
pub read_token-word :
    (gap : Bytes) (c : ℕ) (w s : Bytes)
    → All IsSpace gap
    → All IsGraph (c ∷ w)
    → IsSpaced s
    → read_token (before (gap ++ (c ∷ w ++ s))) ≡ (ok (c ∷ w), before s)
unfolding read_token
read_token-word gap c w s g (h, hs) k =
    ap (λ t. word_or_end t) (skip_space-gap gap (c ∷ w ++ s) g ∙ skip_space-graph c (w ++ s) h)
    ∙ ap (λ z. (ok z.0, z.1)) (word-append (c ∷ w) s (h, hs) k)

-- A space and a word in front of a text.
abbrev pub then_word : Bytes → Bytes → Bytes
then_word w s = b' ' ∷ (w ++ s)

different : (c e : ℕ) → c ≢ e → (c == e) ≡ false
different c e h = ground arith

quoted-append : (t s : Bytes) → All IsPlain t → quoted (t ++ b'"' ∷ s) ≡ (t, before s)
unfolding quoted
quoted-append [] [] h = refl
quoted-append [] (e ∷ s) h = refl
quoted-append (c ∷ []) s ((a, b), hs) =
    rw (different c b'"' a, different c b'\\' b, quoted-append [] s tt) refl
quoted-append (c ∷ e ∷ t) s ((a, b), hs) =
    rw (different c b'"' a, different c b'\\' b, quoted-append (e ∷ t) s hs) refl

abbrev pub then_quoted : Bytes → Bytes → Bytes
then_quoted t s = b' ' ∷ b'"' ∷ (t ++ b'"' ∷ s)

-- A text between quotes, behind a space.
pub read_string-quoted :
    (t s : Bytes) → All IsPlain t → read_string (before (then_quoted t s)) ≡ (ok t, before s)
unfolding read_string
read_string-quoted t s h = rw (quoted-append t s h) refl
