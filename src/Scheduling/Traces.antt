-- ===== src/Scheduling/Traces.antt =====
-- scheduling/include/uppaal_simulation_parser.hpp and the lookup of a trace in
-- scheduling/src/uppaal_simulation_parser.cpp.
use p7_kode.Base.{◌≤◌, ◌≡◌, refl, inl, inr, ◌⊎◌, List, [], ◌∷◌, length, arith, if◌then◌else◌}
use p7_kode.Base.Int.{ℤ, eqb_ℤ}
use p7_kode.Base.Text.{Bytes, bytes_eq}
use p7_kode.Base.Double.{Double}

-- What a conversion comes to. `undefined` is behaviour that C++ does not define: `front` or `pop` of
-- an empty queue; `out_of_fuel` is no behaviour of the program.
pub data Outcome (A : Type 0) : Type 0 where
  done : A → Outcome A
  name_not_found out_of_range undefined out_of_fuel : Outcome A

infixl 5 ◌>>=◌
abbrev pub ◌>>=◌ : {A B : Type 0} → Outcome A → (A → Outcome B) → Outcome B
done a >>= f = f a
name_not_found >>= f = name_not_found
out_of_range >>= f = out_of_range
undefined >>= f = undefined
out_of_fuel >>= f = out_of_fuel

module _ (d : Double) where
  open d use {Carrier}

  pub record TimeValuePair : Type 0 where
    pub time : Carrier
    pub value : ℤ

  pub record SimulationTrace : Type 0 where
    pub number : ℤ
    pub values : List TimeValuePair

  pub record SimulationExpression : Type 0 where
    pub name : Bytes
    pub runs : List SimulationTrace

  -- iter->runs.at(0)
  abbrev first_run : List SimulationTrace → Outcome (List TimeValuePair)
  first_run [] = out_of_range
  first_run (run ∷ runs) = done run.values

  -- The queue is the list of its elements, the front first.
  unfoldable pub find_first_run_as_queue :
      List SimulationExpression → Bytes → Outcome (List TimeValuePair)
  find_first_run_as_queue [] name = name_not_found
  find_first_run_as_queue (val ∷ values) name =
      if bytes_eq val.name name then first_run val.runs else find_first_run_as_queue values name

  -- `while (!q.empty() && q.front().value == last) q.pop();`
  unfoldable pub pop_same : ℤ → List TimeValuePair → List TimeValuePair
  pop_same last [] = []
  pop_same last (p ∷ q) = if eqb_ℤ p.value last then pop_same last q else p ∷ q

  -- The values to which a trace changes, behind the value `last`.
  unfoldable pub changes : ℤ → List TimeValuePair → List ℤ
  changes last [] = []
  changes last (p ∷ q) = if eqb_ℤ p.value last then changes last q else p.value ∷ changes p.value q

  -- Popping shortens the queue.
  pub length-pop_same : (last : ℤ) (q : List TimeValuePair) → length (pop_same last q) ≤ length q
  unfolding pop_same
  length-pop_same last [] = omega arith
  length-pop_same last (p ∷ q) = ground (arith, length-pop_same last q)

  -- What is left begins with a new value.
  pub changes-after_pop :
      (last : ℤ) (q : List TimeValuePair) (p : TimeValuePair) (rest : List TimeValuePair)
      → pop_same last q ≡ p ∷ rest
      → changes last q ≡ p.value ∷ changes p.value rest
  unfolding changes pop_same
  changes-after_pop last [] p rest e = ground arith
  changes-after_pop last (x ∷ q) p rest e = ground (arith, changes-after_pop last q p rest)

  pub changes_nil : (last : ℤ) (q : List TimeValuePair) → pop_same last q ≡ [] → changes last q ≡ []
  unfolding changes pop_same
  changes_nil last [] e = refl
  changes_nil last (x ∷ q) e = ground (arith, changes_nil last q)

  pub pop_same-cases :
      (last : ℤ) (q : List TimeValuePair)
      → (pop_same last q ≡ [])
        ⊎ ((p : TimeValuePair) × (rest : List TimeValuePair) × (pop_same last q ≡ p ∷ rest))
  pop_same-cases last q = cases (pop_same last q)
    where
      cases :
          (r : List TimeValuePair)
          → (r ≡ []) ⊎ ((p : TimeValuePair) × (rest : List TimeValuePair) × (r ≡ p ∷ rest))
      cases [] = inl refl
      cases (p ∷ rest) = inr (p, rest, refl)
