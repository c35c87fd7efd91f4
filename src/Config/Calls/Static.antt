-- ===== src/Config/Calls/Static.antt =====
-- config/src/config_wrapper.cpp: a static variable holds what its initialisation computes.
use p7_kode.Base.{
  ℕ, ◌≡◌, refl, sym, ap, ◌∙◌, inl, inr, some, Result, ok, err, ◌==◌, ==_iff, Bool-cases,
  Option-cases,
}
use p7_kode.Base.Exec.{Exec, lift, ◌>>=◌}
use p7_kode.Base.Fallible.{◌>>=◌ as bind}
use p7_kode.Config.Store.{Memo, static_auto, set_memo, store}

-- A memo holds nothing but the values of its variables.
abbrev pub Keeps : {K V : Type 0} → (K → Result V) → Memo K V → Type 0
Keeps {K} {V} value m = (k : K) (v : V) → m k ≡ some v → value k ≡ ok v

module _ {K : Type 0} (number : K → ℕ) (inverse : ℕ → K)
    (inverse-number : (k : K) → inverse (number k) ≡ k) where
  same_number : (k l : K) → number k ≡ number l → k ≡ l
  same_number k l e = sym (inverse-number k) ∙ ap inverse e ∙ inverse-number l

  Keeps-set_memo :
      {V : Type 0} (value : K → Result V) (m : Memo K V) (k : K) (v : V)
      → Keeps value m
      → value k ≡ ok v
      → Keeps value (set_memo number k v m)
  Keeps-set_memo value m k v h e l w f = elim (Bool-cases (number k == number l)) [
    | inl same ↦
        (let there = same_number k l ((==_iff (number k) (number l)).0 same) in
          let f' = rw same at f in rw (← there) (e ∙ ap ok (cc)))
    | inr other ↦ h l w (rw other at f)
  ]

-- On the states that `Good` describes, the code ends as `r` does, in such a state.
abbrev pub Yields : {S A : Type 0} → (S → Type 0) → Exec S A → Result A → Type 0
Yields {S} Good m r = (s : S) → Good s → (s' : S) × (m s ≡ (r, s')) × Good s'

module _ {S : Type 0} (Good : S → Type 0) where
  pub Yields-lift : {A : Type 0} (r : Result A) → Yields Good (lift r) r
  Yields-lift r s h = (s, refl, h)

  pub Yields->>= :
      {A B : Type 0} (m : Exec S A) (r : Result A) (f : A → Exec S B) (g : A → Result B)
      → Yields Good m r
      → ((a : A) → Yields Good (f a) (g a))
      → Yields Good (m >>= f) (bind r g)
  Yields->>= m (ok a) f g h k s good =
      let (s', e, good') = h s good in
      let (s'', e', good'') = k a s' good' in (s'', rw e e', good'')
  Yields->>= m (err x) f g h k s good = let (s', e, good') = h s good in (s', rw e refl, good')

  module _ {K V : Type 0} (number : K → ℕ) (inverse : ℕ → K)
      (inverse-number : (k : K) → inverse (number k) ≡ k) (memo : S → Memo K V)
      (put : S → Memo K V → S) (value : K → Result V)
      (kept : (s : S) → Good s → Keeps value (memo s))
      (put-Good : (s : S) (m : Memo K V) → Good s → Keeps value m → Good (put s m)) where
    store-Good :
        (k : K) (s : S)
        → Good s
        → (r : Result V) → value k ≡ r
        → (s' : S) × (store number memo put k (r, s) ≡ (r, s')) × Good s'
    store-Good k s good (ok v) e = (
      _,
      refl,
      put-Good s _ good
          (Keeps-set_memo number inverse inverse-number value (memo s) k v (kept s good) e),
    )
    store-Good k s good (err x) e = (s, refl, good)

    pub Yields-static_auto :
        (k : K) (m : Exec S V)
        → Yields Good m (value k)
        → Yields Good (static_auto number memo put k m) (value k)
    unfolding static_auto
    Yields-static_auto k m h s good = elim (Option-cases (memo s k)) [
      | inl e ↦
          let (s', f, good') = h s good in
          let (s'', g, good'') = store-Good k s' good' (value k) refl in
          (s'', rw (static_auto, e, f) g, good'')
      | inr (v, e) ↦ (s, rw (static_auto, e, kept s good k v e) refl, good)
    ]
