-- ===== src/Config/Calls/Ready.antt =====
-- config/src/config_wrapper.cpp: the states in which a call can begin.
use p7_kode.Base.{◌≡◌, refl, ap, ap₂, inl, inr, ◌⊎◌, Result, ok, err}
use p7_kode.Base.Exec.{Exec}
use p7_kode.Base.Text.{Bytes, codes}
use p7_kode.Base.Double.{Double}
use p7_kode.Base.Json.{Json}
use p7_kode.Config.Values.{File, load_from_file}
use p7_kode.Config.Store.{State, start, load}
use p7_kode.Config.Wrapper.{of_static, of_dynamic, of_both, loading}
use p7_kode.Config.Calls.Reference.{or_else}
use p7_kode.Config.Calls.Static.{Yields}
use p7_kode.Config.Calls.Memory.{IsSettled}

module _ (d : Double) (j : Json d) (files : Bytes → File d j) where
  -- What the files leave in the two configurations.
  abbrev pub loaded_static : j.Value
  loaded_static =
      (load_from_file d j (files (codes "static_config.json")) (codes "static_config.json")
        j.null).1

  abbrev pub loaded_dynamic : j.Value
  loaded_dynamic =
      (load_from_file d j (files (codes "dynamic_config.json")) (codes "dynamic_config.json")
        j.null).1

  abbrev pub IsReady : State d j → Type 0
  IsReady s = (s ≡ start d j) ⊎ IsSettled d j loaded_static loaded_dynamic s

  load-start : IsSettled d j loaded_static loaded_dynamic (load d j files (start d j))
  unfolding load
  load-start = record {
    is_loaded = refl;
    static_same = refl;
    dynamic_same = refl;
    ints_kept = λ k v e. cc;
    vectors_kept = λ k v e. cc;
    flags_kept = λ k v e. cc;
    matrices_kept = λ k v e. cc;
    plans_kept = λ k v e. cc;
    etas_kept = λ k v e. cc;
  }

  load-IsSettled :
      (s : State d j) → IsReady s → IsSettled d j loaded_static loaded_dynamic (load d j files s)
  unfolding load
  load-IsSettled s (inl e) = rw e load-start
  load-IsSettled s (inr h) =
      let same : load d j files s ≡ s = rw (load, h.is_loaded) refl in rw same h

  -- In every state that is ready the call has the answer, and leaves a state that is settled.
  abbrev pub Answers : {A : Type 0} → (State d j → A × State d j) → A → Type 0
  Answers f a =
      (s : State d j)
      → IsReady s
      → (s' : State d j) × (f s ≡ (a, s')) × IsSettled d j loaded_static loaded_dynamic s'

  pub loading-Answers :
      {A : Type 0} (a : A) (m : Exec (State d j) A) (r : Result A)
      → Yields (IsSettled d j loaded_static loaded_dynamic) m r
      → Answers (loading d j files a m) (or_else a r)
  loading-Answers a m (ok b) h s ready =
      let (s', e, settled) = h (load d j files s) (load-IsSettled s ready) in
      (s', rw e refl, settled)
  loading-Answers a m (err x) h s ready =
      let (s', e, settled) = h (load d j files s) (load-IsSettled s ready) in
      (s', rw e refl, settled)

  pub of_static-Yields :
      {A : Type 0} (f : j.Value → Result A)
      → Yields
          (IsSettled d j loaded_static loaded_dynamic)
          (of_static d j files f)
          (f loaded_static)
  of_static-Yields f s h = (s, ap (λ z. (f z, s)) h.static_same, h)

  pub of_dynamic-Yields :
      {A : Type 0} (f : j.Value → Result A)
      → Yields
          (IsSettled d j loaded_static loaded_dynamic)
          (of_dynamic d j files f)
          (f loaded_dynamic)
  of_dynamic-Yields f s h = (s, ap (λ z. (f z, s)) h.dynamic_same, h)

  pub of_both-Yields :
      {A : Type 0} (f : j.Value → j.Value → Result A)
      → Yields
          (IsSettled d j loaded_static loaded_dynamic)
          (of_both d j files f)
          (f loaded_static loaded_dynamic)
  of_both-Yields f s h = (s, ap₂ (λ z w. (f z w, s)) h.static_same h.dynamic_same, h)
