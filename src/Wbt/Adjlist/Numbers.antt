-- ===== src/Wbt/Adjlist/Numbers.antt =====
-- wbt-translator/src/webots_parser.cpp: the ids that `Parser::parse_adjlist` reads of any text.
use p7_kode.Base.{
  ℕ, zero, suc, ◌<◌, ◌≡◌, refl, ◌∙◌, inl, inr, List, [], ◌∷◌, ◌++◌, append_assoc, Exception, Result,
  ok, err, invalid_argument, malformed_world_file, arith, length, take, drop, Option-cases,
}
use p7_kode.Base.Fallible.{◌>>=◌}
use p7_kode.Base.Int.{ℤ}
use p7_kode.Base.Text.{Bytes, find_char}
use p7_kode.Base.Decimal.{stoi}
use p7_kode.Util.Split.{pieces, pieces-none, pieces-some, find_char-lt}
use p7_kode.Wbt.Adjlist.{adjlist_loop, caught, parse_adjlist}

drop-shorter : (k : ℕ) (s : Bytes) → k < length s → length (drop (suc k) s) < length s
drop-shorter k [] h = absurd (omega arith)
drop-shorter zero (c ∷ s) h = omega arith
drop-shorter (suc k) (c ∷ s) h = let e = drop-shorter k s (omega arith) in omega arith

-- What std::stoi makes of each piece, up to the first exception.
abbrev pub numbers : List Bytes → Result (List ℤ)
numbers [] = ok []
numbers (p ∷ ps) = let rest = numbers ps in (do id ← stoi p; ids ← rest; ok (id ∷ ids))

-- A piece that is no number makes the world file malformed; other exceptions stay as they are.
abbrev pub of_file : Result (List ℤ) → Result (List ℤ)
of_file (ok ids) = ok ids
of_file (err invalid_argument) = err malformed_world_file
of_file (err e) = err e

abbrev behind : List ℤ → Result (List ℤ) → Result (List ℤ)
behind adjlist (ok ids) = ok (adjlist ++ ids)
behind adjlist (err e) = err e

last_id :
    (m : Result ℤ) (adjlist : List ℤ)
    → (m >>= λ id. ok (adjlist ++ id ∷ [])) ≡ behind adjlist (m >>= λ id. ok (id ∷ []))
last_id (ok id) adjlist = refl
last_id (err e) adjlist = refl

behind-cons :
    (id : ℤ) (rest : Result (List ℤ)) (adjlist : List ℤ)
    → behind (adjlist ++ id ∷ []) rest ≡ behind adjlist (rest >>= λ ids. ok (id ∷ ids))
behind-cons id (ok ids) adjlist = rw (append_assoc adjlist (id ∷ []) ids) refl
behind-cons id (err e) adjlist = refl

next_id :
    (m : Result ℤ) (rest : Result (List ℤ)) (adjlist : List ℤ) (f : ℤ → Result (List ℤ))
    → ((id : ℤ) → f id ≡ behind (adjlist ++ id ∷ []) rest)
    → (m >>= f) ≡ behind adjlist (m >>= λ id. rest >>= λ ids. ok (id ∷ ids))
next_id (ok id) rest adjlist f h = h id ∙ behind-cons id rest adjlist
next_id (err e) rest adjlist f h = refl

-- With more fuel than the string has bytes, the loop appends the numbers of the pieces.
adjlist_loop-numbers :
    (fuel : ℕ) (s : Bytes) (adjlist : List ℤ)
    → length s < fuel
    → adjlist_loop fuel s adjlist ≡ behind adjlist (numbers (pieces b',' s))
unfolding adjlist_loop
adjlist_loop-numbers zero s adjlist h = absurd (omega arith)
adjlist_loop-numbers (suc fuel) s adjlist h = elim (Option-cases (find_char b',' s)) [
  | inl e ↦ rw (adjlist_loop, e, pieces-none b',' s e) (last_id (stoi s) adjlist)
  | inr (at_comma, e) ↦
      let shorter = drop-shorter at_comma s (find_char-lt b',' s at_comma e) in
      rw (adjlist_loop, e, pieces-some b',' s at_comma e)
        (next_id (stoi (take at_comma s)) (numbers (pieces b',' (drop (suc at_comma) s))) adjlist _
          (λ id.
            adjlist_loop-numbers fuel (drop (suc at_comma) s) (adjlist ++ id ∷ []) (omega arith)))
]

caught_numbers :
    (s : Bytes) (m : Result (List ℤ))
    → adjlist_loop (suc (length s)) s [] ≡ behind [] m
    → parse_adjlist s ≡ of_file m
unfolding parse_adjlist
caught_numbers s (ok ids) h = rw (parse_adjlist, h) refl
caught_numbers s (err e) h = rw (parse_adjlist, h) (same e)
  where
    same : (e : Exception) → caught (err e) ≡ of_file (err e)
    same invalid_argument = refl
    same e = refl

-- For every text, parse_adjlist returns the number that std::stoi reads in each piece between the commas,
-- in their order. Where std::stoi throws for a piece, the first such exception is thrown instead, as
-- MalformedWorldFileError where it is std::invalid_argument.
pub parse_adjlist-numbers : (s : Bytes) → parse_adjlist s ≡ of_file (numbers (pieces b',' s))
parse_adjlist-numbers s =
    caught_numbers s (numbers (pieces b',' s))
      (adjlist_loop-numbers (suc (length s)) s [] (omega arith))
