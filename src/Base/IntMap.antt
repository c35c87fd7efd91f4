-- ===== src/Base/IntMap.antt =====
-- std::map with keys of type int, as the list of its entries in the order of the keys.
use mathlib.Core.Path.{◌≡◌, refl}
use mathlib.Core.Option.{Option, none, some}
use mathlib.Core.List.{List, [], ◌∷◌}
use native.Mathlib.Omega.{arith}
use p7_kode.Base.Tests.{if◌then◌else◌}
use p7_kode.Base.Int.{ℤ, eqb_ℤ, eqb_ℤ_iff, leb_ℤ}

abbrev pub IntMap {ℓ} : Type ℓ → Type ℓ
IntMap V = List (ℤ × V)

module _ {ℓ} {V : Type ℓ} where
  -- m.find(k); `none` is m.end(). m.at(k) throws out_of_range there.
  unfoldable pub lookup : ℤ → IntMap V → Option V
  lookup k [] = none
  lookup k ((j, v) ∷ m) = if eqb_ℤ j k then some v else lookup k m

  -- m[k] = v
  unfoldable pub insert_or_assign : ℤ → V → IntMap V → IntMap V
  insert_or_assign k v [] = (k, v) ∷ []
  insert_or_assign k v ((j, w) ∷ m) =
      if eqb_ℤ j k
      then (k, v) ∷ m
      else if leb_ℤ k j
      then (k, v) ∷ (j, w) ∷ m
      else (j, w) ∷ insert_or_assign k v m

  -- m.insert({k, v}): an entry that is there stays.
  unfoldable pub insert : ℤ → V → IntMap V → IntMap V
  insert k v m = elim (lookup k m) [ none ↦ insert_or_assign k v m | some _ ↦ m ]

  -- m.erase(k)
  unfoldable pub erase : ℤ → IntMap V → IntMap V
  erase k [] = []
  erase k ((j, w) ∷ m) = if eqb_ℤ j k then erase k m else (j, w) ∷ erase k m

  pub lookup-insert_or_assign :
      (k j : ℤ) (v : V) (m : IntMap V)
      → lookup j (insert_or_assign k v m) ≡ (if eqb_ℤ k j then some v else lookup j m)
  unfolding lookup insert_or_assign
  lookup-insert_or_assign k j v [] = refl
  lookup-insert_or_assign k j v ((i, w) ∷ m) =
      grind (arith, eqb_ℤ_iff k j, eqb_ℤ_iff i k, eqb_ℤ_iff i j, lookup-insert_or_assign k j v m)

  pub lookup-insert :
      (k j : ℤ) (v : V) (m : IntMap V)
      → lookup k m ≡ none
      → lookup j (insert k v m) ≡ (if eqb_ℤ k j then some v else lookup j m)
  unfolding insert
  lookup-insert k j v m e = rw (e, insert) (lookup-insert_or_assign k j v m)

  pub lookup-erase :
      (k j : ℤ) (m : IntMap V) → lookup j (erase k m) ≡ (if eqb_ℤ k j then none else lookup j m)
  unfolding lookup erase
  lookup-erase k j [] = ground arith
  lookup-erase k j ((i, w) ∷ m) =
      grind (arith, eqb_ℤ_iff k j, eqb_ℤ_iff i k, eqb_ℤ_iff i j, lookup-erase k j m)
