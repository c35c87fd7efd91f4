-- ===== src/Base/SampleLaws.antt =====
-- The trees satisfy what the program relies on in Json::Value.
use Prim.Native.Nat.{ℕ, zero, suc}
use mathlib.Core.Path.{◌≡◌, refl, ap, ◌∙◌}
use mathlib.Core.Bool.{true}
use mathlib.Core.Logic.{◌⊎◌, inl, inr}
use mathlib.Core.Option.{Option, none, some}
use native.Mathlib.Omega.{arith}
use mathlib.Core.List.{List, [], ◌∷◌, ◌++◌}
use p7_kode.Base.Lists.{get_elem?}
use p7_kode.Base.Int.{pos}
use p7_kode.Base.Text.{Bytes, bytes_eq_iff}
use p7_kode.Base.Errors.{ok}
use p7_kode.Base.Fallible.{Returns}
use p7_kode.Base.JsonLaws.{JsonLaws, updated, indices, is_some, or_else}
use p7_kode.Base.Samples.{
  trees, Tree, Trees, Members, member_of, set_member, listed, indices_of, add_last, tree_at, found,
  or_null,
}

abbrev IsObject : Tree → (Bytes → Option Tree) → Type 0
IsObject t f =
    ((t ≡ Tree.null) × ((k : Bytes) → f k ≡ none))
    ⊎ ((ms : Members) × (t ≡ Tree.object ms) × ((k : Bytes) → f k ≡ member_of k ms))

abbrev IsArray : Tree → List Tree → Type 0
IsArray t vs = (ts : Trees) × (t ≡ Tree.array ts) × (listed ts ≡ vs)

member_of-set_member :
    (k l : Bytes) (v : Tree) (ms : Members)
    → member_of l (set_member k v ms) ≡ updated k v (λ l. member_of l ms) l
member_of-set_member k l v Members.empty = refl
member_of-set_member k l v (Members.member m u ms) =
    grind
      (arith, bytes_eq_iff k l, bytes_eq_iff m k, bytes_eq_iff m l, member_of-set_member k l v ms)

listed-add_last : (ts : Trees) (t : Tree) → listed (add_last ts t) ≡ listed ts ++ t ∷ []
listed-add_last Trees.nil t = refl
listed-add_last (Trees.cons u ts) t = ap (◌∷◌ u) (listed-add_last ts t)

indices_of-listed : (i : ℕ) (ts : Trees) → indices_of i ts ≡ indices Tree.int i (listed ts)
indices_of-listed i Trees.nil = refl
indices_of-listed i (Trees.cons t ts) = ap (◌∷◌ (Tree.int (pos i))) (indices_of-listed (suc i) ts)

tree_at-listed :
    (ts : Trees) (i : ℕ) (t : Tree) → get_elem? (listed ts) i ≡ some t → tree_at ts i ≡ t
tree_at-listed Trees.nil i t e = cc
tree_at-listed (Trees.cons u ts) zero t e = cc
tree_at-listed (Trees.cons u ts) (suc i) t e = tree_at-listed ts i t e

found-is_some : (o : Option Tree) → ok (found o) ≡ ok (is_some o)
found-is_some none = refl
found-is_some (some t) = refl

or_null-or_else : (o : Option Tree) → ok (or_null o) ≡ ok (or_else Tree.null o)
or_null-or_else none = refl
or_null-or_else (some t) = refl

set_case :
    (k : Bytes) (v w : Tree) (f : Bytes → Option Tree)
    → IsObject w f
    → Returns (λ w'. IsObject w' (updated k v f)) (trees.set k v w)
set_case k v w f (inl (e, h)) =
    rw e (inr (Members.member k v Members.empty, refl, λ l. let h' = h l in ground arith))
set_case k v w f (inr (ms, e, h)) = rw e (
    inr (
      set_member k v ms,
      refl,
      λ l. let h' = h l in let m = member_of-set_member k l v ms in ground arith,
    ))

is_member_case :
    (w : Tree) (f : Bytes → Option Tree) (k : Bytes)
    → IsObject w f
    → trees.is_member w k ≡ ok (is_some (f k))
is_member_case w f k (inl (e, h)) = rw (e, h k) refl
is_member_case w f k (inr (ms, e, h)) = rw (e, h k) (found-is_some (member_of k ms))

get_case :
    (w : Tree) (f : Bytes → Option Tree) (k : Bytes)
    → IsObject w f
    → trees.get w k ≡ ok (or_else Tree.null (f k))
get_case w f k (inl (e, h)) = rw (e, h k) refl
get_case w f k (inr (ms, e, h)) = rw (e, h k) (or_null-or_else (member_of k ms))

append_case :
    (v w : Tree) (vs : List Tree)
    → IsArray w vs
    → Returns (λ w'. IsArray w' (vs ++ v ∷ [])) (trees.append w v)
append_case v w vs (ts, e, h) =
    rw e (add_last ts v, refl, listed-add_last ts v ∙ ap (λ us. us ++ v ∷ []) h)

is_array_case : (w : Tree) (vs : List Tree) → IsArray w vs → trees.is_array w ≡ true
is_array_case w vs (ts, e, h) = rw e refl

elements_case : (w : Tree) (vs : List Tree) → IsArray w vs → trees.elements w ≡ vs
elements_case w vs (ts, e, h) = rw e h

keys_case : (w : Tree) (vs : List Tree) → IsArray w vs → trees.keys w ≡ indices Tree.int 0 vs
keys_case w vs (ts, e, h) = rw e (indices_of-listed 0 ts ∙ ap (indices Tree.int 0) h)

get_index_case :
    (w : Tree) (vs : List Tree) (i : ℕ) (v : Tree)
    → IsArray w vs
    → get_elem? vs i ≡ some v
    → trees.get_index w (pos i) ≡ ok v
get_index_case w vs i v (ts, e, h) g =
    rw e (ap ok (tree_at-listed ts i v (ap (λ us. get_elem? us i) h ∙ g)))

pub trees_laws : JsonLaws trees
trees_laws = record {
  IsObject = IsObject;
  IsArray = IsArray;
  null-IsObject = inl (refl, λ k. refl);
  empty_object-IsObject = inr (Members.empty, refl, λ k. refl);
  empty_array-IsArray = (Trees.nil, refl, refl);
  set-IsObject = set_case;
  is_member-IsObject = is_member_case;
  get-IsObject = get_case;
  append-IsArray = append_case;
  is_array-IsArray = is_array_case;
  elements-IsArray = elements_case;
  keys-IsArray = keys_case;
  get_index-IsArray = get_index_case;
  as_int-of_int = λ z h. refl;
  as_double-of_double = λ r. refl;
  as_string-of_string = λ s. refl;
}
