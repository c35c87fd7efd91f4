-- ===== src/Order/Random/Picks.antt =====
-- util/include/util/pick_random.hpp: what is picked.
use p7_kode.Base.{
  In, ℕ, zero, suc, ◌+◌, ◌%◌, ◌≤◌, ◌<◌, ◌≡◌, refl, sym, ap, ◌∙◌, inl, inr, false, some, List, [],
  ◌∷◌, ◌++◌, arith, length, get_elem?, ltb, Bool-cases, All, append_assoc, append-nil,
}
use native.Mathlib.Nat.{mod-lt}
use p7_kode.Base.Int.{ℤ, pos, eqb_ℤ, eqb_ℤ_iff}
use p7_kode.Order.Random.{drawn, undefined, remove, pick_random, pick_loop, pick_n_random}

-- No element is in the list twice.
abbrev pub IsDistinct : List ℤ → Type 0
IsDistinct [] = Unit
IsDistinct (a ∷ bs) = (In a bs → ⊥) × IsDistinct bs

remove-In : (e a : ℤ) (xs : List ℤ) → In a (remove e xs) → In a xs
unfolding remove
remove-In e a [] h = h
remove-In e a (x ∷ xs) h = elim (Bool-cases (eqb_ℤ x e)) [
  | inl same ↦ inr (remove-In e a xs (rw same at h))
  | inr other ↦ elim (rw other at h) [
    | inl here ↦ inl here
    | inr there ↦ inr (remove-In e a xs there)
  ]
]

remove-gone : (e : ℤ) (xs : List ℤ) → In e (remove e xs) → ⊥
unfolding remove
remove-gone e [] h = h
remove-gone e (x ∷ xs) h = elim (Bool-cases (eqb_ℤ x e)) [
  | inl same ↦ remove-gone e xs (rw same at h)
  | inr other ↦ elim (rw other at h) [
    | inl here ↦ (let same = (eqb_ℤ_iff x e).1 (sym here) in cc)
    | inr there ↦ remove-gone e xs there
  ]
]

remove-IsDistinct : (e : ℤ) (xs : List ℤ) → IsDistinct xs → IsDistinct (remove e xs)
unfolding remove
remove-IsDistinct e [] h = tt
remove-IsDistinct e (x ∷ xs) (absent, h) = elim (Bool-cases (eqb_ℤ x e)) [
  | inl same ↦ rw same (remove-IsDistinct e xs h)
  | inr other ↦ rw other ((λ there. absent (remove-In e x xs there)), remove-IsDistinct e xs h)
]

remove-absent : (e : ℤ) (xs : List ℤ) → (In e xs → ⊥) → remove e xs ≡ xs
unfolding remove
remove-absent e [] h = refl
remove-absent e (x ∷ xs) h = elim (Bool-cases (eqb_ℤ x e)) [
  | inl same ↦ absurd (h (inl (sym ((eqb_ℤ_iff x e).0 same))))
  | inr other ↦ rw other (ap (◌∷◌ x) (remove-absent e xs (λ there. h (inr there))))
]

length-remove :
    (e : ℤ) (xs : List ℤ) → IsDistinct xs → In e xs → length xs ≡ suc (length (remove e xs))
unfolding remove
length-remove e [] d h = absurd h
length-remove e (x ∷ xs) (absent, d) h = elim (Bool-cases (eqb_ℤ x e)) [
  | inl same ↦
      rw (same, remove-absent e xs (λ there. absent (rw ((eqb_ℤ_iff x e).0 same) there))) refl
  | inr other ↦ elim h [
    | inl here ↦ (let same = (eqb_ℤ_iff x e).1 (sym here) in cc)
    | inr there ↦ rw other (ap suc (length-remove e xs d there))
  ]
]

get_elem?-In : (xs : List ℤ) (i : ℕ) → i < length xs → (a : ℤ) × (get_elem? xs i ≡ some a) × In a xs
get_elem?-In [] i h = absurd (omega arith)
get_elem?-In (x ∷ xs) zero h = (x, refl, inl refl)
get_elem?-In (x ∷ xs) (suc i) h =
    let (a, e, there) = get_elem?-In xs i (omega arith) in (a, e, inr there)

All-In :
    (choices picked : List ℤ) (a : ℤ) → All (λ b. In b choices) picked → In a picked → In a choices
All-In choices (b ∷ picked) a (h, all) (inl here) = rw here h
All-In choices (b ∷ picked) a (h, all) (inr there) = All-In choices picked a all there
All-In choices [] a all h = absurd h

All-remove :
    (e : ℤ) (choices picked : List ℤ)
    → All (λ b. In b (remove e choices)) picked
    → All (λ b. In b choices) picked
All-remove e choices [] all = tt
All-remove e choices (b ∷ picked) (h, all) =
    (remove-In e b choices h, All-remove e choices picked all)

-- The list holds different elements of the choices.
abbrev pub Picks : List ℤ → List ℤ → Type 0
Picks choices picked = IsDistinct picked × All (λ a. In a choices) picked

-- All the choices are one element.
abbrev pub AllSame : ℤ → List ℤ → Type 0
AllSame v = All (λ c. c ≡ v)

AllSame-In : (v a : ℤ) (choices : List ℤ) → AllSame v choices → In a choices → a ≡ v
AllSame-In v a [] all h = absurd h
AllSame-In v a (c ∷ choices) (e, all) (inl here) = here ∙ e
AllSame-In v a (c ∷ choices) (e, all) (inr there) = AllSame-In v a choices all there

remove-AllSame : (v : ℤ) (choices : List ℤ) → AllSame v choices → remove v choices ≡ []
unfolding remove
remove-AllSame v [] all = refl
remove-AllSame v (c ∷ choices) (e, all) =
    let same = (eqb_ℤ_iff c v).1 e in rw same (remove-AllSame v choices all)

module _ (rand : ℕ → ℕ) where
  pick_random-In :
      (choices : List ℤ) (t : ℕ)
      → 0 < length choices
      → (a : ℤ) × (pick_random rand choices t ≡ drawn a (suc t)) × In a choices
  unfolding pick_random
  pick_random-In choices t h =
      let (a, e, there) = get_elem?-In choices (rand t % length choices) (mod-lt (rand t) h) in
      (a, rw (pick_random, e) refl, there)

  pick_loop-Picks :
      (n : ℕ) (choices selected : List ℤ) (t : ℕ)
      → IsDistinct choices
      → n ≤ length choices
      → (picked : List ℤ) × (pick_loop rand n choices selected t
          ≡ drawn (selected ++ picked) (t + n))
        × (length picked ≡ n)
        × Picks choices picked
  unfolding pick_loop
  pick_loop-Picks zero choices selected t d h = (
    [],
    (let calls : t + 0 ≡ t = omega arith in rw (append-nil selected, calls) refl),
    refl,
    (tt, tt),
  )
  pick_loop-Picks (suc n) choices selected t d h =
      let (a, e, there) = pick_random-In choices t (omega arith) in
      let left : n ≤ length (remove a choices) =
        (let shorter = length-remove a choices d there in omega arith) in
      let calls : suc t + n ≡ t + suc n = omega arith in
      let (picked, f, len, (dist, all)) =
        pick_loop-Picks n (remove a choices) (selected ++ a ∷ []) (suc t)
          (remove-IsDistinct a choices d) left in
      (
        a ∷ picked,
        rw (pick_loop, e) (f ∙ rw (append_assoc selected (a ∷ []) picked, calls) refl),
        ap suc len,
        (
          ((λ again. remove-gone a choices (All-In _ picked a all again)), dist),
          (there, All-remove a choices picked all),
        ),
      )

  -- From n or more different choices, whatever rand() returns, `pick_n_random` picks n different ones,
  -- with n calls of rand().
  pub pick_n_random-Picks :
      (choices : List ℤ) (n t : ℕ)
      → IsDistinct choices
      → n ≤ length choices
      → (picked : List ℤ) × (pick_n_random rand choices (pos n) t ≡ drawn picked (t + n))
        × (length picked ≡ n)
        × Picks choices picked
  unfolding pick_n_random
  pick_n_random-Picks choices n t d h =
      let (picked, e, len, picks) = pick_loop-Picks n choices [] t d h in
      let enough : ltb (length choices) n ≡ false = ground arith in
      (picked, rw (pick_n_random, enough) e, len, picks)

  -- When all the choices are the same element, to pick two or more of them, and not more than there are,
  -- is undefined: the first pick removes them all.
  pub pick_n_random-AllSame :
      (v : ℤ) (choices : List ℤ) (n t : ℕ)
      → AllSame v choices
      → 2 ≤ n
      → n ≤ length choices
      → pick_n_random rand choices (pos n) t ≡ undefined
  unfolding pick_n_random pick_loop pick_random
  pick_n_random-AllSame v choices zero t all low h = absurd (omega arith)
  pick_n_random-AllSame v choices (suc zero) t all low h = absurd (omega arith)
  pick_n_random-AllSame v choices (suc (suc n)) t all low h =
      let (a, e, there) = pick_random-In choices t (omega arith) in
      let enough : ltb (length choices) (suc (suc n)) ≡ false = ground arith in
      let none_left : remove a choices ≡ [] =
        rw (AllSame-In v a choices all there) (remove-AllSame v choices all) in
      rw (pick_n_random, enough, pick_loop, e, none_left) refl
