-- ===== src/Base/Lists.antt =====
-- Lists measured and indexed by native numbers, under the library's names.
use Prim.Native.Nat.{ℕ, zero, suc, ◌+◌, ◌≤◌}
use mathlib.Core.Path.{◌≡◌, refl, sym, ap, ◌∙◌}
use mathlib.Core.List.{List, [], ◌∷◌, ◌++◌}
use mathlib.Core.Logic.{◌⊎◌}
use mathlib.Core.Option.{Option, none, some}
use native.Mathlib.Omega.{arith}

module _ {ℓ} {A : Type ℓ} where
  abbrev pub length : List A → ℕ
  length [] = 0
  length (x ∷ xs) = suc (length xs)

  abbrev pub get_elem? : List A → ℕ → Option A
  get_elem? [] i = none
  get_elem? (x ∷ xs) zero = some x
  get_elem? (x ∷ xs) (suc i) = get_elem? xs i

  abbrev pub take : ℕ → List A → List A
  take zero xs = []
  take (suc n) [] = []
  take (suc n) (x ∷ xs) = x ∷ take n xs

  abbrev pub drop : ℕ → List A → List A
  drop zero xs = xs
  drop (suc n) [] = []
  drop (suc n) (x ∷ xs) = drop n xs

  abbrev pub replicate : ℕ → A → List A
  replicate zero a = []
  replicate (suc n) a = a ∷ replicate n a

module _ {ℓ κ} {A : Type ℓ} (P : A → Type κ) where
  abbrev pub All : List A → Type κ
  All [] = Unit
  All (x ∷ xs) = P x × All xs

pub All-append {ℓ κ} :
    {A : Type ℓ} (P : A → Type κ) (xs ys : List A) → All P xs → All P ys → All P (xs ++ ys)
All-append P [] ys h k = k
All-append P (x ∷ xs) ys (h, hs) k = (h, All-append P xs ys hs k)

module _ {ℓ κ} {A : Type ℓ} {B : Type κ} (R : A → B → Type 0) where
  -- The two lists are as long, and their elements are related one by one.
  abbrev pub Each : List A → List B → Type 0
  Each [] [] = Unit
  Each [] (b ∷ bs) = ⊥
  Each (a ∷ rest) [] = ⊥
  Each (a ∷ rest) (b ∷ bs) = R a b × Each rest bs

module _ {A : Type 0} where
  -- The element is in the list.
  abbrev pub In : A → List A → Type 0
  In a [] = ⊥
  In a (b ∷ bs) = (a ≡ b) ⊎ In a bs

module _ {ℓ} {A : Type ℓ} where
  pub length-append : (xs ys : List A) → length (xs ++ ys) ≡ length xs + length ys
  length-append [] ys = omega arith
  length-append (x ∷ xs) ys = omega (arith, length-append xs ys)

  pub drop-length-append : (xs ys : List A) → drop (length xs) (xs ++ ys) ≡ ys
  drop-length-append [] ys = refl
  drop-length-append (x ∷ xs) ys = drop-length-append xs ys

  pub take-length-append : (xs ys : List A) → take (length xs) (xs ++ ys) ≡ xs
  take-length-append [] ys = refl
  take-length-append (x ∷ xs) ys = ap (◌∷◌ x) (take-length-append xs ys)

  pub take_all : (n : ℕ) (xs : List A) → length xs ≤ n → take n xs ≡ xs
  take_all zero [] h = refl
  take_all zero (x ∷ xs) h = absurd (omega arith)
  take_all (suc n) [] h = refl
  take_all (suc n) (x ∷ xs) h = ap (◌∷◌ x) (take_all n xs (omega arith))

  pub drop-nil : (n : ℕ) → drop {A = A} n [] ≡ []
  drop-nil zero = refl
  drop-nil (suc n) = refl

  pub drop-drop : (k p : ℕ) (xs : List A) → drop k (drop p xs) ≡ drop (p + k) xs
  drop-drop k zero xs = let e : zero + k ≡ k = omega arith in rw e
  drop-drop k (suc p) [] = drop-nil k ∙ sym (drop-nil (suc p + k))
  drop-drop k (suc p) (x ∷ xs) =
      let e : suc p + k ≡ suc (p + k) = omega arith in rw e (drop-drop k p xs)

module _ {ℓ κ} {A : Type ℓ} {B : Type κ} (R : A → B → Type 0) where
  pub Each-append :
      (as' : List A) (bs : List B) (cs : List A) (ds : List B)
      → Each R as' bs
      → Each R cs ds
      → Each R (as' ++ cs) (bs ++ ds)
  Each-append [] [] cs ds h k = k
  Each-append [] (b ∷ bs) cs ds h k = absurd h
  Each-append (a ∷ rest) [] cs ds h k = absurd h
  Each-append (a ∷ rest) (b ∷ bs) cs ds (r, h) k = (r, Each-append rest bs cs ds h k)
