-- ===== src/Wbt/Parser/Words.antt =====
-- wbt-translator/src/webots_parser.cpp: the words and numbers of a node are read.
use p7_kode.Base.{All-append}
use p7_kode.Base.{
  ℕ, ◌≡◌, ◌≢◌, refl, inl, inr, Bool-cases, false, List, [], ◌∷◌, ◌++◌, map, Result, ok, All, arith,
}
use p7_kode.Base.Int.{ℤ, InInt}
use p7_kode.Base.Text.{Bytes, codes, bytes_eq, bytes_eq_iff}
use p7_kode.Base.Decimal.{to_string, stoi, stoi-to_string, to_string-All}
use p7_kode.Base.Double.{Double}
use p7_kode.Util.Split.{join}
use p7_kode.Wbt.Parser.{read_token, parse_translation, parse_id}
use p7_kode.Wbt.Parser.Tokens.{
  before, IsGraph, IsPlain, IsSpace, IsSpaced, then_word, read_token-word,
}

to_string-IsPlain : (z : ℤ) → All IsPlain (to_string z)
to_string-IsPlain z =
    to_string-All z (ground arith, ground arith) (λ c h. (ground arith, ground arith))

pub join-IsPlain : (z : ℤ) (ids : List ℤ) → All IsPlain (join b',' (map to_string (z ∷ ids)))
join-IsPlain z [] = to_string-IsPlain z
join-IsPlain z (y ∷ ids) =
    All-append IsPlain (to_string z) _ (to_string-IsPlain z)
      ((ground arith, ground arith), join-IsPlain y ids)

pub to_string-IsGraph : (z : ℤ) → All IsGraph (to_string z)
to_string-IsGraph z = to_string-All z (ground arith) (λ c h. ground arith)

pub to_string-some : (z : ℤ) → InInt z → to_string z ≢ []
unfolding stoi
to_string-some z h e = let read = rw e at (stoi-to_string z h) in cc

pub parse_id-word :
    (w s : Bytes) (z : ℤ)
    → w ≢ []
    → All IsGraph w
    → IsSpaced s
    → stoi w ≡ ok z
    → parse_id (before (then_word w s)) ≡ (ok z, before s)
unfolding parse_id
parse_id-word [] s z h g k r = absurd (h refl)
parse_id-word (c ∷ w) s z h g k r =
    rw (parse_id, read_token-word (codes " ") c w s (refl, tt) g k, r) refl

pub read_translation :
    (gap s : Bytes)
    → All IsSpace gap
    → IsSpaced s
    → read_token (before (gap ++ (codes "translation" ++ s))) ≡ (ok (codes "translation"), before s)
read_translation gap s g k =
    read_token-word gap b't' (codes "ranslation") s g
      (refl, (refl, (refl, (refl, (refl, (refl, (refl, (refl, (refl, (refl, (refl, tt))))))))))) k

pub read_id :
    (gap s : Bytes)
    → All IsSpace gap
    → IsSpaced s
    → read_token (before (gap ++ (codes "id" ++ s))) ≡ (ok (codes "id"), before s)
read_id gap s g k = read_token-word gap b'i' (codes "d") s g (refl, (refl, tt)) k

pub read_adj_list :
    (gap s : Bytes)
    → All IsSpace gap
    → IsSpaced s
    → read_token (before (gap ++ (codes "adjList" ++ s))) ≡ (ok (codes "adjList"), before s)
read_adj_list gap s g k =
    read_token-word gap b'a' (codes "djList") s g
      (refl, (refl, (refl, (refl, (refl, (refl, (refl, tt))))))) k

pub not_equal : (s t : Bytes) → s ≢ t → bytes_eq s t ≡ false
not_equal s t h = elim (Bool-cases (bytes_eq s t)) [
  | inl e ↦ absurd (h ((bytes_eq_iff s t).0 e))
  | inr e ↦ e
]

module _ (d : Double) (stod : Bytes → Result d.Carrier) where
  -- A word that std::stod reads as the given number.
  pub record IsNumber (w : Bytes) (a : d.Carrier) : Type 0 where
    pub first : ℕ
    pub others : Bytes
    pub is_word : w ≡ first ∷ others
    pub graph : All IsGraph (first ∷ others)
    pub read : stod (first ∷ others) ≡ ok a

  pub parse_translation-words :
      (u v w s : Bytes) (x y z : d.Carrier)
      → IsNumber u x
      → IsNumber v y
      → IsNumber w z
      → IsSpaced s
      → parse_translation d stod (before (then_word u (then_word v (then_word w s))))
        ≡ (ok (record { x = x; y = y; z = z }), before s)
  unfolding parse_translation
  parse_translation-words u v w s x y z hu hv hw k =
      rw
        (
          hu.is_word,
          hv.is_word,
          hw.is_word,
          parse_translation,
          read_token-word (codes " ") hu.first hu.others _ (refl, tt) hu.graph refl,
          hu.read,
          read_token-word (codes " ") hv.first hv.others _ (refl, tt) hv.graph refl,
          hv.read,
          read_token-word (codes " ") hw.first hw.others s (refl, tt) hw.graph k,
          hw.read,
        )
        refl
