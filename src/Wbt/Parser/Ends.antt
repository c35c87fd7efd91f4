-- ===== src/Wbt/Parser/Ends.antt =====
-- wbt-translator/src/webots_parser.cpp: no part of the parser puts anything back into the
-- stream, and `read_token` takes a word.
use p7_kode.Base.{
  ℕ, zero, suc, ◌≤◌, ◌<◌, ◌≡◌, refl, inl, inr, Bool, true, false, [], ◌∷◌, Result, ok, err, arith,
  length, Option-cases, Bool-cases, if◌then◌else◌,
}
use p7_kode.Base.Exec.{Exec, lift, continue, ◌>>=◌}
use p7_kode.Base.Text.{Bytes, codes, bytes_eq}
use p7_kode.Base.Decimal.{is_space, stoi}
use p7_kode.Base.Double.{Double}
use p7_kode.Wbt.World.{WaypointType}
use p7_kode.Wbt.Adjlist.{parse_adjlist}
use p7_kode.Wbt.Parser.{
  read_double, Input, skip_space, word, word_or_end, read_token, quoted, string_at, read_string,
  parse_id, parse_translation, Fields, complete, read_field, fields_loop,
}

-- What is left to read.
abbrev pub left : Input → ℕ
left is = length is.unread

-- The code never puts anything back.
abbrev pub Reads : {A : Type 0} → Exec Input A → Type 0
Reads m = (is : Input) → left (m is).1 ≤ left is

pub Reads->>= :
    {A B : Type 0} (m : Exec Input A) (k : A → Exec Input B)
    → Reads m
    → ((a : A) → Reads (k a))
    → Reads (m >>= k)
Reads->>= m k h hk is = go (m is) (h is)
  where
    go : (r : Result _ × Input) → left r.1 ≤ left is → left (continue k r.0 r.1).1 ≤ left is
    go (ok a, s) l = let l' = hk a s in omega arith
    go (err e, s) l = l

word-shorter : (s : Bytes) → left (word s).1 ≤ length s
unfolding word
word-shorter [] = omega arith
word-shorter (c ∷ s) = let h = word-shorter s in ground arith

word-strict : (c : ℕ) (s : Bytes) → is_space c ≡ false → left (word (c ∷ s)).1 < length (c ∷ s)
unfolding word
word-strict c s e = let h = word-shorter s in rw e (omega arith)

skip_space-shorter : (s : Bytes) → length (skip_space s) ≤ length s
skip_space-shorter [] = omega arith
skip_space-shorter (c ∷ s) = let h = skip_space-shorter s in ground arith

skip_space-first : (s : Bytes) (c : ℕ) (r : Bytes) → skip_space s ≡ c ∷ r → is_space c ≡ false
skip_space-first [] c r e = cc
skip_space-first (b ∷ s) c r e = elim (Bool-cases (is_space b)) [
  | inl h ↦ skip_space-first s c r (rw h at e)
  | inr h ↦ let e' = rw h at e in ground arith
]

quoted-shorter : (s : Bytes) → left (quoted s).1 ≤ length s
unfolding quoted
quoted-shorter [] = omega arith
quoted-shorter (c ∷ []) = ground arith
quoted-shorter (c ∷ e ∷ s) =
    let h = quoted-shorter (e ∷ s) in let k = quoted-shorter s in ground arith

-- A word was read, so less is left; and at the end of the text nothing is.
unfoldable pub ReadsWord : Input → Result Bytes × Input → Type 0
ReadsWord is (ok token, s) = left s < left is
ReadsWord is (err e, s) = left s ≤ left is

word_or_end-ReadsWord :
    (is : Input) (t : Bytes)
    → skip_space is.unread ≡ t
    → length t ≤ left is
    → ReadsWord is (word_or_end t)
unfolding ReadsWord
word_or_end-ReadsWord is [] e h = omega arith
word_or_end-ReadsWord is (c ∷ r) e h =
    let strict = word-strict c r (skip_space-first is.unread c r e) in omega arith

pub read_token-ReadsWord : (is : Input) → ReadsWord is (read_token is)
unfolding read_token ReadsWord
read_token-ReadsWord is = elim (Bool-cases is.eof) [
  | inl e ↦ rw (read_token, e) (omega arith)
  | inr e ↦
      rw (read_token, e)
        (word_or_end-ReadsWord is (skip_space is.unread) refl (skip_space-shorter is.unread))
]

ReadsWord-left : (is : Input) (r : Result Bytes × Input) → ReadsWord is r → left r.1 ≤ left is
unfolding ReadsWord
ReadsWord-left is (ok token, s) h = omega arith
ReadsWord-left is (err e, s) h = h

read_token-Reads : Reads read_token
read_token-Reads is = ReadsWord-left is (read_token is) (read_token-ReadsWord is)

string_at-shorter : (s : Bytes) → left (string_at s).1 ≤ length s
string_at-shorter [] = omega arith
string_at-shorter (c ∷ s) = let h = quoted-shorter s in let k = word-shorter (c ∷ s) in ground arith

read_string-Reads : Reads read_string
unfolding read_string
read_string-Reads is = elim (Bool-cases is.eof) [
  | inl e ↦ rw (read_string, e) (omega arith)
  | inr e ↦
      rw (read_string, e)
        (let h = string_at-shorter (skip_space is.unread) in
          let k = skip_space-shorter is.unread in omega arith)
]

pub lift-Reads : {A : Type 0} (r : Result A) → Reads (lift r)
lift-Reads r is = omega arith

module _ (d : Double) (stod : Bytes → Result d.Carrier) where
  read_double-Reads : Reads (read_double d stod)
  unfolding read_double
  read_double-Reads = Reads->>= read_token _ read_token-Reads (λ token. lift-Reads (stod token))

  parse_translation-Reads : Reads (parse_translation d stod)
  unfolding parse_translation
  parse_translation-Reads = Reads->>= (read_double d stod) _ read_double-Reads (λ x.
      Reads->>= (read_double d stod) _ read_double-Reads
        (λ y. Reads->>= (read_double d stod) _ read_double-Reads (λ z is. omega arith)))

  parse_id-Reads : Reads parse_id
  unfolding parse_id
  parse_id-Reads = Reads->>= read_token _ read_token-Reads (λ token. lift-Reads (stoi token))

  pub if-Reads :
      {A : Type 0} (b : Bool) (m k : Exec Input A) → Reads m → Reads k → Reads (if b then m else k)
  if-Reads true m k h hk = h
  if-Reads false m k h hk = hk

  pub read_field-Reads : (f : Fields d stod) (token : Bytes) → Reads (read_field d stod f token)
  unfolding read_field
  read_field-Reads f token =
      if-Reads (bytes_eq token (codes "translation")) _ _
        (Reads->>= (parse_translation d stod) _ parse_translation-Reads (λ t is. omega arith))
        (if-Reads (bytes_eq token (codes "id")) _ _
          (Reads->>= parse_id _ parse_id-Reads (λ i is. omega arith))
          (if-Reads (bytes_eq token (codes "adjList")) _ _
            (Reads->>= read_string _ read_string-Reads (λ s.
              Reads->>= (lift (parse_adjlist s)) _ (lift-Reads (parse_adjlist s))
                (λ ids is. omega arith)))
            (λ is. omega arith)))

  pub fields_loop-Reads :
      (fuel : ℕ) (type : WaypointType) (f : Fields d stod) → Reads (fields_loop d stod fuel type f)
  unfolding fields_loop
  fields_loop-Reads zero type f is = omega arith
  fields_loop-Reads (suc fuel) type f is = elim (Option-cases (complete d stod type f)) [
    | inl e ↦
        rw (fields_loop, e)
          (Reads->>= read_token _ read_token-Reads
            (λ token.
              Reads->>= (read_field d stod f token) _ (read_field-Reads f token)
                (fields_loop-Reads fuel type))
            is)
    | inr (waypoint, e) ↦ rw (fields_loop, e) (omega arith)
  ]
