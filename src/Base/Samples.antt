-- ===== src/Base/Samples.antt =====
-- Values of the parameters: whole numbers in place of doubles, and trees in place of Json::Value.
use Prim.Native.Nat.{ℕ, zero, suc, ◌+◌, ◌-◌, ◌*◌}
use mathlib.Core.Bool.{Bool, true, false}
use mathlib.Core.Option.{Option, none, some}
use mathlib.Core.List.{List, [], ◌∷◌}
use p7_kode.Base.Tests.{ltb, if◌then◌else◌}
use p7_kode.Base.Errors.{Result, ok, err, json_error}
use p7_kode.Base.Int.{ℤ, pos}
use p7_kode.Base.Text.{Bytes, bytes_eq}
use p7_kode.Base.Double.{Double}
use p7_kode.Base.Json.{Json}

abbrev pub whole : Double
whole = record {
  Carrier = ℕ;
  add = ◌+◌;
  sub = λ a b. (a - b) + (b - a);
  mul = ◌*◌;
  sqrt = λ a. a;
  lt = ltb;
  literal = λ s. 0;
  of_int = λ z. 0;
  dbl_max = 1000000;
}

mutual
  pub data Tree : Type 0 where
    null : Tree
    int : ℤ → Tree
    real : ℕ → Tree
    text : Bytes → Tree
    array : Trees → Tree
    object : Members → Tree

  pub data Trees : Type 0 where
    nil : Trees
    cons : Tree → Trees → Trees

  pub data Members : Type 0 where
    empty : Members
    member : Bytes → Tree → Members → Members

abbrev pub listed : Trees → List Tree
listed Trees.nil = []
listed (Trees.cons t ts) = t ∷ listed ts

abbrev members : Members → List Tree
members Members.empty = []
members (Members.member k t ms) = t ∷ members ms

abbrev names : Members → List Tree
names Members.empty = []
names (Members.member k t ms) = Tree.text k ∷ names ms

abbrev pub indices_of : ℕ → Trees → List Tree
indices_of i Trees.nil = []
indices_of i (Trees.cons t ts) = Tree.int (pos i) ∷ indices_of (suc i) ts

abbrev pub member_of : Bytes → Members → Option Tree
member_of k Members.empty = none
member_of k (Members.member l t ms) = if bytes_eq l k then some t else member_of k ms

abbrev pub set_member : Bytes → Tree → Members → Members
set_member k t Members.empty = Members.member k t Members.empty
set_member k t (Members.member l u ms) =
    let rest = set_member k t ms in
    if bytes_eq l k then Members.member k t ms else Members.member l u rest

abbrev pub add_last : Trees → Tree → Trees
add_last Trees.nil t = Trees.cons t Trees.nil
add_last (Trees.cons u ts) t = Trees.cons u (add_last ts t)

abbrev pub tree_at : Trees → ℕ → Tree
tree_at Trees.nil i = Tree.null
tree_at (Trees.cons t ts) zero = t
tree_at (Trees.cons t ts) (suc i) = tree_at ts i

abbrev pub found : Option Tree → Bool
found none = false
found (some t) = true

abbrev pub or_null : Option Tree → Tree
or_null none = Tree.null
or_null (some t) = t

abbrev is_array : Tree → Bool
is_array (Tree.array ts) = true
is_array t = false

abbrev is_object : Tree → Bool
is_object (Tree.object ms) = true
is_object t = false

abbrev is_member : Tree → Bytes → Result Bool
is_member Tree.null k = ok false
is_member (Tree.object ms) k = ok (found (member_of k ms))
is_member t k = err json_error

abbrev get : Tree → Bytes → Result Tree
get Tree.null k = ok Tree.null
get (Tree.object ms) k = ok (or_null (member_of k ms))
get t k = err json_error

abbrev get_index : Tree → ℤ → Result Tree
get_index Tree.null i = ok Tree.null
get_index (Tree.array ts) (pos i) = ok (tree_at ts i)
get_index t i = err json_error

abbrev as_int : Tree → Result ℤ
as_int Tree.null = ok (pos 0)
as_int (Tree.int z) = ok z
as_int t = err json_error

abbrev as_double : Tree → Result ℕ
as_double Tree.null = ok 0
as_double (Tree.real r) = ok r
as_double t = err json_error

abbrev as_string : Tree → Result Bytes
as_string (Tree.text s) = ok s
as_string Tree.null = ok []
as_string t = err json_error

abbrev elements : Tree → List Tree
elements (Tree.array ts) = listed ts
elements (Tree.object ms) = members ms
elements t = []

abbrev keys : Tree → List Tree
keys (Tree.array ts) = indices_of 0 ts
keys (Tree.object ms) = names ms
keys t = []

abbrev count : List Tree → ℕ
count [] = 0
count (t ∷ ts) = suc (count ts)

abbrev set : Bytes → Tree → Tree → Result Tree
set k v Tree.null = ok (Tree.object (Members.member k v Members.empty))
set k v (Tree.object ms) = ok (Tree.object (set_member k v ms))
set k v t = err json_error

abbrev append : Tree → Tree → Result Tree
append Tree.null v = ok (Tree.array (Trees.cons v Trees.nil))
append (Tree.array ts) v = ok (Tree.array (add_last ts v))
append t v = err json_error

abbrev pub trees : Json whole
trees = record {
  Value = Tree;
  null = Tree.null;
  empty_array = Tree.array Trees.nil;
  empty_object = Tree.object Members.empty;
  of_int = Tree.int;
  of_double = Tree.real;
  of_string = Tree.text;
  is_array = is_array;
  is_object = is_object;
  is_member = is_member;
  get = get;
  get_index = get_index;
  as_int = as_int;
  as_double = as_double;
  as_string = as_string;
  elements = elements;
  keys = keys;
  size = λ t. count (elements t);
  set = set;
  append = append;
}
