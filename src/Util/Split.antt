-- ===== src/Util/Split.antt =====
-- util/include/util/split.hpp: `split`
use mathlib.Core.Option
use p7_kode.Base.{
  ℕ, zero, suc, ◌+◌, ◌-◌, ◌<◌, ◌≡◌, refl, sym, ap, ap₂, ◌∙◌, ◌≢◌, inl, inr, Option, none, some,
  List, [], ◌∷◌, ◌++◌, append_assoc, arith, ◌==◌, if◌then◌else◌, ==_iff, Bool-cases, Option-cases,
  length, take, drop, drop-drop, All,
}
use p7_kode.Base.Text.{Bytes, find_char}

-- input.find(delimiter, from)
find_from : ℕ → Bytes → ℕ → Option ℕ
find_from d s from = Option.map (λ k. from + k) (find_char d (drop from s))

-- The `while` loop over `current`, and the piece behind it. Fuel counts rounds; without any the
-- result is the empty vector, which `split` never returns.
split_loop : ℕ → Bytes → ℕ → ℕ → Option ℕ → List Bytes → List Bytes
split_loop zero s d previous current result = []
split_loop (suc fuel) s d previous none result = result ++ drop previous s ∷ []
split_loop (suc fuel) s d previous (some current) result =
    split_loop fuel s d (current + 1) (find_from d s (current + 1))
      (result ++ take (current - previous) (drop previous s) ∷ [])

unfoldable pub split : Bytes → ℕ → List Bytes
unfolding split_loop find_from
split s d = split_loop (length s + 1) s d 0 (find_from d s 0) []

abbrev on_head : ℕ → List Bytes → List Bytes
on_head c [] = (c ∷ []) ∷ []
on_head c (p ∷ ps) = (c ∷ p) ∷ ps

-- The pieces of a text between the delimiters, by recursion on the text.
unfoldable pub pieces : ℕ → Bytes → List Bytes
pieces d [] = [] ∷ []
pieces d (c ∷ s) = if c == d then [] ∷ pieces d s else on_head c (pieces d s)

pub pieces-none : (d : ℕ) (s : Bytes) → find_char d s ≡ none → pieces d s ≡ s ∷ []
unfolding pieces find_char
pieces-none d [] h = refl
pieces-none d (c ∷ s) h = ground (arith, pieces-none d s)

pub pieces-some :
    (d : ℕ) (s : Bytes) (k : ℕ)
    → find_char d s ≡ some k
    → pieces d s ≡ take k s ∷ pieces d (drop (suc k) s)
unfolding pieces find_char
pieces-some d [] k h = ground arith
pieces-some d (c ∷ s) zero h = elim (Option-cases (find_char d s)) [
  | inl e ↦ ground arith
  | inr (j, e) ↦ ground arith
]
pieces-some d (c ∷ s) (suc k) h = ground (arith, pieces-some d s k)

pub find_char-lt : (d : ℕ) (s : Bytes) (k : ℕ) → find_char d s ≡ some k → k < length s
unfolding find_char
find_char-lt d [] k h = ground arith
find_char-lt d (c ∷ s) zero h = omega arith
find_char-lt d (c ∷ s) (suc k) h = ground (arith, find_char-lt d s k)

length-drop : (n : ℕ) (xs : Bytes) → length (drop n xs) ≡ length xs - n
length-drop zero xs = omega arith
length-drop (suc n) [] = omega arith
length-drop (suc n) (x ∷ xs) = omega (arith, length-drop n xs)

step_lem : (p k : ℕ) → p + suc k ≡ p + k + 1
step_lem p k = omega arith

-- From position `previous` on, the loop appends the pieces of what is left, in at most one round
-- for each byte left and one more.
split_loop-pieces :
    (fuel : ℕ) (s : Bytes) (d previous : ℕ) (result : List Bytes)
    → length (drop previous s) < fuel
    → split_loop fuel s d previous (find_from d s previous) result
      ≡ result ++ pieces d (drop previous s)
unfolding split_loop find_from
split_loop-pieces zero s d previous result h = absurd (omega arith)
split_loop-pieces (suc fuel) s d previous result h =
    elim (Option-cases (find_char d (drop previous s))) [
      | inl e ↦ rw (e, pieces-none d _ e)
      | inr (k, e) ↦
          let next : drop (previous + k + 1) s ≡ drop (suc k) (drop previous s) =
            sym (rw drop-drop (ap (λ (n : ℕ). drop n s) (step_lem previous k))) in
          let width : previous + k - previous ≡ k = omega arith in
          let shorter : length (drop (previous + k + 1) s) < fuel = omega (
            arith,
            length-drop (previous + k + 1) s,
            length-drop previous s,
            find_char-lt d _ k e,
          ) in
          rw (e, pieces-some d _ k e, width)
            (split_loop-pieces fuel s d (previous + k + 1) _ shorter ∙ rw (next, append_assoc))
    ]

-- `split` returns the pieces of the text between the delimiters, for every text and delimiter.
pub split-pieces : (s : Bytes) (d : ℕ) → split s d ≡ pieces d s
unfolding split
split-pieces s d = split_loop-pieces (length s + 1) s d 0 [] (omega arith)

-- The parts with a delimiter between each two.
abbrev pub join : ℕ → List Bytes → Bytes
join d [] = []
join d (p ∷ []) = p
join d (p ∷ q ∷ ps) = p ++ d ∷ join d (q ∷ ps)

join-on_head : (d c : ℕ) (ps : List Bytes) → join d (on_head c ps) ≡ c ∷ join d ps
join-on_head d c [] = refl
join-on_head d c (p ∷ []) = refl
join-on_head d c (p ∷ q ∷ ps) = refl

pieces-ne-nil : (d : ℕ) (s : Bytes) → (p : Bytes) × (ps : List Bytes) × (pieces d s ≡ p ∷ ps)
unfolding pieces
pieces-ne-nil d [] = ([], [], refl)
pieces-ne-nil d (c ∷ s) = elim (Bool-cases (c == d)) [
  | inl e ↦ ([], pieces d s, rw e)
  | inr e ↦ let (p, ps, h) = pieces-ne-nil d s in (c ∷ p, ps, rw (e, h))
]

join-pieces : (d : ℕ) (s : Bytes) → join d (pieces d s) ≡ s
unfolding pieces
join-pieces d [] = refl
join-pieces d (c ∷ s) = elim (Bool-cases (c == d)) [
  | inl e ↦
      let (p, ps, h) = pieces-ne-nil d s in
      let ih : join d (p ∷ ps) ≡ s = rw (← h) (join-pieces d s) in
      rw (e, h) (ap₂ ◌∷◌ (sym ((==_iff c d).0 e)) ih)
  | inr e ↦ rw (e, join-on_head) (ap (◌∷◌ c) (join-pieces d s))
]

abbrev pub Lacks : ℕ → Bytes → Type 0
Lacks d = All (λ c. c ≢ d)

pub pieces-Lacks : (d : ℕ) (p : Bytes) → Lacks d p → pieces d p ≡ p ∷ []
unfolding pieces
pieces-Lacks d [] h = refl
pieces-Lacks d (c ∷ p) h = ground (arith, pieces-Lacks d p)

-- A part without the delimiter, and a delimiter behind it, is the first piece.
pub pieces-append : (d : ℕ) (p s : Bytes) → Lacks d p → pieces d (p ++ d ∷ s) ≡ p ∷ pieces d s
unfolding pieces
pieces-append d [] s h = ground arith
pieces-append d (c ∷ p) s h = ground (arith, pieces-append d p s)

-- Joining the result of `split` gives the text back, for every text and delimiter.
pub join-split : (s : Bytes) (d : ℕ) → join d (split s d) ≡ s
join-split s d = rw split-pieces (join-pieces d s)

pieces-join : (d : ℕ) (ps : List Bytes) → ps ≢ [] → All (Lacks d) ps → pieces d (join d ps) ≡ ps
pieces-join d [] h _ = absurd (h refl)
pieces-join d (p ∷ []) _ (hp, _) = pieces-Lacks d p hp
pieces-join d (p ∷ q ∷ ps) _ (hp, hps) =
    pieces-append d p _ hp ∙ ap (◌∷◌ p) (pieces-join d (q ∷ ps) (λ e. cc) hps)

-- Splitting parts that were joined by the delimiter gives the parts back, if there is a part and no
-- part holds the delimiter.
pub split-join : (ps : List Bytes) (d : ℕ) → ps ≢ [] → All (Lacks d) ps → split (join d ps) d ≡ ps
split-join ps d h lacks = rw split-pieces (pieces-join d ps h lacks)

pub find_char-Lacks : (d : ℕ) (p : Bytes) → Lacks d p → find_char d p ≡ none
unfolding find_char
find_char-Lacks d [] h = refl
find_char-Lacks d (c ∷ p) (h, hs) = let e = find_char-Lacks d p hs in ground arith

pub find_char-append :
    (d : ℕ) (p s : Bytes) → Lacks d p → find_char d (p ++ d ∷ s) ≡ some (length p)
unfolding find_char
find_char-append d [] s h = ground arith
find_char-append d (c ∷ p) s (h, hs) = let e = find_char-append d p s hs in ground arith

pub drop_comma : (p s : Bytes) → drop (suc (length p)) (p ++ b',' ∷ s) ≡ s
drop_comma [] s = refl
drop_comma (c ∷ p) s = drop_comma p s
