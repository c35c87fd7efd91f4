-- ===== src/Wbt/Adjlist.antt =====
-- wbt-translator/src/webots_parser.cpp: `Parser::parse_adjlist` behind its call of `read_string`.
pub mod Numbers
use p7_kode.Base.{
  ℕ, zero, suc, ◌≤◌, ◌<◌, ◌≡◌, refl, ◌∙◌, none, some, List, [], ◌∷◌, ◌++◌, map, Result, ok, err,
  invalid_argument, malformed_world_file, All, arith, append_assoc, length, take, drop,
  length-append, take-length-append,
}
use p7_kode.Base.Fallible.{◌>>=◌}
use p7_kode.Base.Int.{ℤ, InInt}
use p7_kode.Base.Text.{Bytes, find_char}
use p7_kode.Base.Decimal.{to_string, stoi, stoi-to_string, to_string-All}
use p7_kode.Util.Split.{join, Lacks, drop_comma, find_char-Lacks, find_char-append}

-- The while loop and the push_back behind it, on fuel: each round shortens the string.
unfoldable pub adjlist_loop : ℕ → Bytes → List ℤ → Result (List ℤ)
adjlist_loop zero adj_string adjlist = err malformed_world_file
adjlist_loop (suc fuel) adj_string adjlist = elim (find_char b',' adj_string) [
  | some at_comma ↦ (do
    id ← stoi (take at_comma adj_string)
    adjlist_loop fuel (drop (suc at_comma) adj_string) (adjlist ++ id ∷ []))
  | none ↦ (do id ← stoi adj_string; ok (adjlist ++ id ∷ []))
]

-- catch (std::invalid_argument &e)
abbrev caught : Result (List ℤ) → Result (List ℤ)
caught (ok adjlist) = ok adjlist
caught (err invalid_argument) = err malformed_world_file
caught (err e) = err e

unfoldable pub parse_adjlist : Bytes → Result (List ℤ)
parse_adjlist adj_string = caught (adjlist_loop (suc (length adj_string)) adj_string [])

to_string-Lacks : (z : ℤ) → Lacks b',' (to_string z)
to_string-Lacks z = to_string-All z (ground arith) (λ c h. ground arith)

abbrev text : List ℤ → Bytes
text ids = join b',' (map to_string ids)

length-text : (z : ℤ) (ids : List ℤ) → length ids ≤ length (text (z ∷ ids))
length-text z [] = omega arith
length-text z (y ∷ ids) =
    let h = length-text y ids in
    let e = length-append (to_string z) (b',' ∷ text (y ∷ ids)) in omega arith

adjlist_loop-text :
    (fuel : ℕ) (z : ℤ) (ids adjlist : List ℤ)
    → length ids < fuel
    → All InInt (z ∷ ids)
    → adjlist_loop fuel (text (z ∷ ids)) adjlist ≡ ok (adjlist ++ z ∷ ids)
unfolding adjlist_loop
adjlist_loop-text zero z ids adjlist h all = absurd (omega arith)
adjlist_loop-text (suc fuel) z [] adjlist h (i, all) =
    rw (adjlist_loop, find_char-Lacks b',' (to_string z) (to_string-Lacks z), stoi-to_string z i)
      refl
adjlist_loop-text (suc fuel) z (y ∷ ids) adjlist h (i, all) =
    rw
      (
        adjlist_loop,
        find_char-append b',' (to_string z) (text (y ∷ ids)) (to_string-Lacks z),
        take-length-append (to_string z) (b',' ∷ text (y ∷ ids)),
        stoi-to_string z i,
        drop_comma (to_string z) (text (y ∷ ids)),
      )
      (adjlist_loop-text fuel y ids (adjlist ++ z ∷ []) (omega arith) all
        ∙ rw (append_assoc adjlist (z ∷ []) (y ∷ ids)) refl)

-- One or more ids that are ints are read back from their decimal texts with a comma between each two.
pub parse_adjlist-text :
    (z : ℤ) (ids : List ℤ)
    → All InInt (z ∷ ids)
    → parse_adjlist (join b',' (map to_string (z ∷ ids))) ≡ ok (z ∷ ids)
unfolding parse_adjlist
parse_adjlist-text z ids h =
    let enough = length-text z ids in
    rw (parse_adjlist, adjlist_loop-text (suc (length (text (z ∷ ids)))) z ids [] (omega arith) h)
      refl
