-- ===== src/Config/Stations/Rank.antt =====
-- config/src/config_wrapper.cpp: the rows and columns of the station distance matrix.
use p7_kode.Base.{
  ℕ, zero, suc, ◌+◌, ◌≡◌, refl, sym, ap, ◌∙◌, inl, inr, ◌⊎◌, true, false, none, some, List, [], ◌∷◌,
  map, Result, ok, arith, if◌then◌else◌, Bool-cases, Option-cases, get_elem?, In, All,
}
use p7_kode.Base.Int.{ℤ, pos, eqb_ℤ, eqb_ℤ_iff, leb_ℤ}
use p7_kode.Base.Text.{Bytes, codes}
use p7_kode.Base.Double.{Double}
use p7_kode.Base.Json.{Json}
use p7_kode.Config.Values.{File, get_matrix, convert_all}
use p7_kode.Config.Store.{start}
use p7_kode.Config.Convert.{
  find_index, insert_sorted, sort, vector_at, vector_index, dist_at, combined_stations,
  station_id_to_dist_index_conversion, index_or_throw,
}
use p7_kode.Config.Calls.{Call, distance, run}
use p7_kode.Config.Calls.Reference.{or_else}
use p7_kode.Config.Calls.Ready.{loaded_static, loaded_dynamic}
use p7_kode.Config.Calls.Answers.{run-reference}
use p7_kode.Config.Stations.{minus_one}

-- How many elements are below x.
abbrev pub smaller : ℤ → List ℤ → ℕ
smaller x [] = 0
smaller x (y ∷ ys) = (if leb_ℤ x y then 0 else 1) + smaller x ys

-- Every element is at most those behind it.
abbrev IsSorted : List ℤ → Type 0
IsSorted [] = Unit
IsSorted (y ∷ ys) = All (λ z. leb_ℤ y z ≡ true) ys × IsSorted ys

leb_ℤ_total : (x y : ℤ) → leb_ℤ x y ≡ false → leb_ℤ y x ≡ true
leb_ℤ_total x y h = ground arith

leb_ℤ_trans : (x y z : ℤ) → leb_ℤ x y ≡ true → leb_ℤ y z ≡ true → leb_ℤ x z ≡ true
leb_ℤ_trans x y z h k = ground arith

leb_ℤ_antisym : (x y : ℤ) → leb_ℤ x y ≡ true → leb_ℤ y x ≡ true → x ≡ y
leb_ℤ_antisym x y h k = ground arith

All-leb :
    (x y : ℤ) (zs : List ℤ)
    → leb_ℤ x y ≡ true
    → All (λ z. leb_ℤ y z ≡ true) zs
    → All (λ z. leb_ℤ x z ≡ true) zs
All-leb x y [] h all = tt
All-leb x y (z ∷ zs) h (k, all) = (leb_ℤ_trans x y z h k, All-leb x y zs h all)

All-insert_sorted :
    (x y : ℤ) (zs : List ℤ)
    → leb_ℤ x y ≡ true
    → All (λ z. leb_ℤ x z ≡ true) zs
    → All (λ z. leb_ℤ x z ≡ true) (insert_sorted y zs)
unfolding insert_sorted
All-insert_sorted x y [] h all = (h, tt)
All-insert_sorted x y (z ∷ zs) h (k, all) = elim (Bool-cases (leb_ℤ y z)) [
  | inl e ↦ rw e (h, (k, all))
  | inr e ↦ rw e (k, All-insert_sorted x y zs h all)
]

insert_sorted-IsSorted : (x : ℤ) (ys : List ℤ) → IsSorted ys → IsSorted (insert_sorted x ys)
unfolding insert_sorted
insert_sorted-IsSorted x [] h = (tt, tt)
insert_sorted-IsSorted x (y ∷ ys) (all, h) = elim (Bool-cases (leb_ℤ x y)) [
  | inl e ↦ rw e ((e, All-leb x y ys e all), (all, h))
  | inr e ↦ rw e (All-insert_sorted y x ys (leb_ℤ_total x y e) all, insert_sorted-IsSorted x ys h)
]

sort-IsSorted : (xs : List ℤ) → IsSorted (sort xs)
unfolding sort
sort-IsSorted [] = tt
sort-IsSorted (x ∷ xs) = insert_sorted-IsSorted x (sort xs) (sort-IsSorted xs)

In-insert_sorted : (x y : ℤ) (zs : List ℤ) → (x ≡ y) ⊎ In x zs → In x (insert_sorted y zs)
unfolding insert_sorted
In-insert_sorted x y [] h = h
In-insert_sorted x y (z ∷ zs) h = elim (Bool-cases (leb_ℤ y z)) [
  | inl e ↦ rw e h
  | inr e ↦ rw e (elim h [
    | inl here ↦ inr (In-insert_sorted x y zs (inl here))
    | inr there ↦ elim there [
      | inl first ↦ inl first
      | inr later ↦ inr (In-insert_sorted x y zs (inr later))
    ]
  ])
]

In-sort : (x : ℤ) (ys : List ℤ) → In x ys → In x (sort ys)
unfolding sort
In-sort x [] h = h
In-sort x (y ∷ ys) (inl here) = In-insert_sorted x y (sort ys) (inl here)
In-sort x (y ∷ ys) (inr there) = In-insert_sorted x y (sort ys) (inr (In-sort x ys there))

smaller-insert_sorted :
    (x y : ℤ) (zs : List ℤ) → smaller x (insert_sorted y zs) ≡ smaller x (y ∷ zs)
unfolding insert_sorted
smaller-insert_sorted x y [] = refl
smaller-insert_sorted x y (z ∷ zs) = elim (Bool-cases (leb_ℤ y z)) [
  | inl e ↦ rw e refl
  | inr e ↦ rw (e, smaller-insert_sorted x y zs) (omega arith)
]

smaller-sort : (x : ℤ) (ys : List ℤ) → smaller x (sort ys) ≡ smaller x ys
unfolding sort
smaller-sort x [] = refl
smaller-sort x (y ∷ ys) =
    smaller-insert_sorted x y (sort ys)
    ∙ ap (λ n. (if leb_ℤ x y then 0 else 1) + n) (smaller-sort x ys)

smaller-All : (x : ℤ) (ys : List ℤ) → All (λ z. leb_ℤ x z ≡ true) ys → smaller x ys ≡ 0
smaller-All x [] all = refl
smaller-All x (y ∷ ys) (h, all) = rw (h, smaller-All x ys all) refl

leb_ℤ-eqb_ℤ : (x y : ℤ) → eqb_ℤ y x ≡ true → leb_ℤ x y ≡ true
leb_ℤ-eqb_ℤ x y h = ground arith

not-leb_ℤ : (x y : ℤ) → leb_ℤ y x ≡ true → eqb_ℤ y x ≡ false → leb_ℤ x y ≡ false
not-leb_ℤ x y h k = ground arith

leb_ℤ-In : (y x : ℤ) (zs : List ℤ) → All (λ z. leb_ℤ y z ≡ true) zs → In x zs → leb_ℤ y x ≡ true
leb_ℤ-In y x [] all h = absurd h
leb_ℤ-In y x (z ∷ zs) (k, all) (inl here) = rw here k
leb_ℤ-In y x (z ∷ zs) (k, all) (inr there) = leb_ℤ-In y x zs all there

-- In a sorted list an element stands behind those that are smaller.
find_index-IsSorted :
    (x : ℤ) (ys : List ℤ) → IsSorted ys → In x ys → find_index x ys ≡ some (smaller x ys)
unfolding find_index
find_index-IsSorted x [] h there = absurd there
find_index-IsSorted x (y ∷ ys) (all, h) there = elim (Bool-cases (eqb_ℤ y x)) [
  | inl same ↦
      let all' = rw ((eqb_ℤ_iff y x).0 same) at all in
      rw (same, leb_ℤ-eqb_ℤ x y same, smaller-All x ys all') refl
  | inr other ↦ elim there [
    | inl here ↦ (let same = (eqb_ℤ_iff y x).1 (sym here) in cc)
    | inr later ↦
        (let above = not-leb_ℤ x y (leb_ℤ-In y x ys all later) other in
          rw (other, find_index-IsSorted x ys h later, above) (ap some (omega arith)))
  ]
]

convert_all-map :
    {A B : Type 0} (f : A → Result B) (g : A → B) (xs : List A)
    → ((a : A) → In a xs → f a ≡ ok (g a))
    → convert_all f xs ≡ ok (map g xs)
unfolding convert_all
convert_all-map f g [] h = refl
convert_all-map f g (x ∷ xs) h =
    rw (h x (inl refl), convert_all-map f g xs (λ a there. h a (inr there))) refl

find_index-sort : (x : ℤ) (ys : List ℤ) → In x ys → find_index x (sort ys) ≡ some (smaller x ys)
find_index-sort x ys h =
    find_index-IsSorted x (sort ys) (sort-IsSorted ys) (In-sort x ys h)
    ∙ ap some (smaller-sort x ys)

-- The conversion never throws: it gives each station the number of stations with a smaller id.
pub conversion-smaller :
    (stations : List ℤ)
    → convert_all (λ station. index_or_throw 0 (find_index station (sort stations))) stations
      ≡ ok (map (λ station. pos (smaller station stations)) stations)
conversion-smaller stations =
    convert_all-map _ (λ station. pos (smaller station stations)) stations
      (λ station there.
        let none_added : smaller station stations + 0 ≡ smaller station stations = omega arith in
        rw (find_index-sort station stations there, none_added) refl)

get_elem?-map :
    {A B : Type 0} (g : A → B) (xs : List A) (i : ℕ) {a : A}
    → get_elem? xs i ≡ some a
    → get_elem? (map g xs) i ≡ some (g a)
get_elem?-map g [] i e = cc
get_elem?-map g (x ∷ xs) zero e = ap some (ap g (cc))
get_elem?-map g (x ∷ xs) (suc i) e = get_elem?-map g xs i e

-- m[i][k], or INT_MAX when it has no such entry.
abbrev pub entry_or_max : List (List ℤ) → ℕ → ℕ → ℤ
entry_or_max m i k = elim (get_elem? m i) [
  | none ↦ pos 2147483647
  | some row ↦ elim (get_elem? row k) [ none ↦ pos 2147483647 | some v ↦ v ]
]

dist_at-entry :
    (m : List (List ℤ)) (conversion : List ℤ) (i k a b : ℕ)
    → get_elem? conversion i ≡ some (pos a)
    → get_elem? conversion k ≡ some (pos b)
    → or_else (some (pos 2147483647)) (dist_at m conversion (pos (suc i)) (pos (suc k)))
      ≡ some (entry_or_max m a b)
unfolding dist_at vector_at vector_index
dist_at-entry m conversion i k a b e f = elim (Option-cases (get_elem? m a)) [
  | inl g ↦ rw (entry_or_max, dist_at, minus_one i, vector_index, e, vector_at, g) refl
  | inr (row, g) ↦ elim (Option-cases (get_elem? row b)) [
    | inl g' ↦
        rw
          (
            entry_or_max,
            dist_at,
            minus_one i,
            vector_index,
            e,
            vector_at,
            g,
            minus_one k,
            vector_index,
            f,
            vector_at,
            g',
          )
          refl
    | inr (v, g') ↦
        rw
          (
            entry_or_max,
            dist_at,
            minus_one i,
            vector_index,
            e,
            vector_at,
            g,
            minus_one k,
            vector_index,
            f,
            vector_at,
            g',
          )
          refl
  ]
]

module _ (d : Double) (j : Json d) (files : Bytes → File d j) where
  -- For two station ids, get_station_dist has defined behaviour: it is the entry of the station distance
  -- matrix in the row and the column that are the numbers of stations with smaller waypoint ids, and
  -- INT_MAX when the matrix has no such entry.
  pub get_station_dist-smaller :
      (stations : List ℤ) (m : List (List ℤ)) (i k : ℕ) (a b : ℤ)
      → combined_stations d j (loaded_static d j files) (loaded_dynamic d j files) ≡ ok stations
      → get_matrix d j (loaded_static d j files) (codes "station_distance_matrix") ≡ ok m
      → get_elem? stations i ≡ some a
      → get_elem? stations k ≡ some b
      → run d j files (Call.get_station_dist (pos (suc i)) (pos (suc k)) ∷ []) (start d j)
        ≡ distance (some (entry_or_max m (smaller a stations) (smaller b stations))) ∷ []
  unfolding station_id_to_dist_index_conversion
  get_station_dist-smaller stations m i k a b e f g h =
      let rank = λ (s : ℤ). pos (smaller s stations) in
      run-reference d j files _
      ∙ rw (station_id_to_dist_index_conversion, e, f, conversion-smaller stations)
          (ap (λ z. distance z ∷ [])
            (dist_at-entry m (map rank stations) i k _ _ (get_elem?-map rank stations i g)
              (get_elem?-map rank stations k h)))
