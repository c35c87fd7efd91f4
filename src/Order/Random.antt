-- ===== src/Order/Random.antt =====
-- util/include/util/pick_random.hpp and order/src/random_generator.cpp.
pub mod Picks
use p7_kode.Base.{
  ℕ, zero, suc, ◌+◌, ◌-◌, ◌%◌, Bool, true, false, Option, none, some, List, [], ◌∷◌, ◌++◌,
  Exception, invalid_argument, if◌then◌else◌, length, get_elem?, ltb, ◌==◌,
}
use p7_kode.Base.Int.{ℤ, pos, negsuc, eqb_ℤ}

-- What code that calls rand() comes to: a value and the number of calls of rand() made so far, an
-- exception, or undefined behaviour (a remainder by 0, an int that overflows).
pub data Drawn (A : Type 0) : Type 0 where
  drawn : A → ℕ → Drawn A
  thrown : Exception → Drawn A
  undefined : Drawn A

-- choices.erase(std::remove(choices.begin(), choices.end(), element), choices.end())
unfoldable pub remove : ℤ → List ℤ → List ℤ
remove element [] = []
remove element (c ∷ choices) =
    if eqb_ℤ c element then remove element choices else c ∷ remove element choices

-- `rand t` is what the call of rand() after t others returns.
module _ (rand : ℕ → ℕ) where
  unfoldable pub pick_random : List ℤ → ℕ → Drawn ℤ
  pick_random choices t = elim (get_elem? choices (rand t % length choices)) [
    | none ↦ undefined
    | some element ↦ drawn element (suc t)
  ]

  unfoldable pub pick_loop : ℕ → List ℤ → List ℤ → ℕ → Drawn (List ℤ)
  pick_loop zero choices selected t = drawn selected t
  pick_loop (suc n) choices selected t = elim (pick_random choices t) [
    | drawn element t' ↦ pick_loop n (remove element choices) (selected ++ element ∷ []) t'
    | thrown e ↦ thrown e
    | undefined ↦ undefined
  ]

  -- n is compared as a size_t, so a negative n is above every size.
  unfoldable pub pick_n_random : List ℤ → ℤ → ℕ → Drawn (List ℤ)
  pick_n_random choices (pos n) t =
      if ltb (length choices) n then thrown invalid_argument else pick_loop n choices [] t
  pick_n_random choices (negsuc n) t = thrown invalid_argument
