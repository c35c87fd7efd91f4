-- ===== src/Config/Stations/Bounds.antt =====
-- config/src/config_wrapper.cpp: the station ids that next_robot_station returns.
use p7_kode.Base.{
  ℕ, zero, suc, ◌+◌, ◌≤◌, ◌<◌, ◌≡◌, refl, ap, ◌∙◌, inl, inr, some, List, [], ◌∷◌, Result, ok, err,
  arith, Bool-cases, Option-cases, get_elem?, length, All,
}
use p7_kode.Base.Fallible.{Holds, Holds->>=}
use p7_kode.Base.Int.{ℤ, pos, negsuc, eqb_ℤ, leb_ℤ, ◌-ℤ◌}
use p7_kode.Base.Text.{Bytes, codes}
use p7_kode.Base.Double.{Double}
use p7_kode.Base.Json.{Json}
use p7_kode.Config.Values.{File, get_rows, convert_all}
use p7_kode.Config.Store.{start}
use p7_kode.Config.Convert.{
  find_index, vector_at, combined_stations, convert_robot_next_station, index_or_throw,
}
use p7_kode.Config.Wrapper.{at_step}
use p7_kode.Config.Calls.{Call, int, run}
use p7_kode.Config.Calls.Reference.{or_else, robot_station}
use p7_kode.Config.Calls.Ready.{loaded_static, loaded_dynamic}
use p7_kode.Config.Calls.Answers.{run-reference}

-- 0, or a station id when there are n stations.
abbrev pub IsStationOrZero : ℕ → ℤ → Type 0
IsStationOrZero n z = (m : ℕ) × (z ≡ pos m) × (m ≤ n)

find_index-bound : (x : ℤ) (ys : List ℤ) (i : ℕ) → find_index x ys ≡ some i → i < length ys
unfolding find_index
find_index-bound x [] i e = cc
find_index-bound x (y ∷ ys) i e = elim (Bool-cases (eqb_ℤ y x)) [
  | inl same ↦ (let e' = rw same at e in let first : i ≡ 0 = cc in omega arith)
  | inr other ↦ elim (Option-cases (find_index x ys)) [
    | inl f ↦ (let e' = rw (find_index, other, f) at e in cc)
    | inr (k, f) ↦
        (let e' = rw (find_index, other, f) at e in
          let next : i ≡ suc k = cc in let h = find_index-bound x ys k f in omega arith)
  ]
]

Holds-index_or_throw :
    (x : ℤ) (stations : List ℤ)
    → Holds (IsStationOrZero (length stations)) (index_or_throw 1 (find_index x stations))
Holds-index_or_throw x stations = elim (Option-cases (find_index x stations)) [
  | inl e ↦ rw e tt
  | inr (i, e) ↦ rw e (let h = find_index-bound x stations i e in (i + 1, refl, omega arith))
]

Holds-convert_all :
    {A B : Type 0} (P : B → Type 0) (f : A → Result B) (xs : List A)
    → ((a : A) → Holds P (f a))
    → Holds (All P) (convert_all f xs)
unfolding convert_all
Holds-convert_all P f [] h = tt
Holds-convert_all P f (x ∷ xs) h = Holds->>= P (All P) (f x) _ (h x) (λ b p.
    Holds->>= (All P) (All P) (convert_all f xs) _ (Holds-convert_all P f xs h) (λ bs ps. (p, ps)))

Holds-get_elem? :
    {A : Type 0} (P : A → Type 0) (xs : List A) (i : ℕ) {a : A}
    → All P xs
    → get_elem? xs i ≡ some a
    → P a
Holds-get_elem? P [] i all e = cc
Holds-get_elem? P (x ∷ xs) zero {a} (h, all) e = let same : x ≡ a = cc in rw (← same) h
Holds-get_elem? P (x ∷ xs) (suc i) (h, all) e = Holds-get_elem? P xs i all e

Holds-vector_at :
    {A : Type 0} (P : A → Type 0) (xs : List A) (i : ℤ) → All P xs → Holds P (vector_at xs i)
unfolding vector_at
Holds-vector_at P xs (negsuc i) all = tt
Holds-vector_at P xs (pos i) all = elim (Option-cases (get_elem? xs i)) [
  | inl e ↦ rw (vector_at, e) tt
  | inr (a, e) ↦ rw (vector_at, e) (Holds-get_elem? P xs i all e)
]

Holds-at_step :
    (n : ℕ) (schedule : List ℤ) (step : ℤ)
    → All (IsStationOrZero n) schedule
    → Holds (IsStationOrZero n) (at_step (λ station. station) (pos 0) schedule step)
unfolding at_step
Holds-at_step n schedule step all = elim (Bool-cases (leb_ℤ (pos (length schedule)) step)) [
  | inl e ↦ rw (at_step, e) (0, refl, omega arith)
  | inr e ↦
      rw (at_step, e) (ok_or_err (vector_at schedule step) (Holds-vector_at _ schedule step all))
]
  where
    ok_or_err :
        (r : Result ℤ)
        → Holds (IsStationOrZero n) r
        → Holds (IsStationOrZero n) (elim r [ ok a ↦ ok a | err e ↦ err e ])
    ok_or_err (ok a) h = h
    ok_or_err (err e) h = tt

Holds-or_else :
    (n : ℕ) (r : Result ℤ) → Holds (IsStationOrZero n) r → IsStationOrZero n (or_else (pos 0) r)
Holds-or_else n (ok a) h = h
Holds-or_else n (err e) h = (0, refl, omega arith)

Holds-any : {A : Type 0} (r : Result A) → Holds (λ a. Unit {0}) r
Holds-any (ok a) = tt
Holds-any (err e) = tt

plans-bounded :
    (d : Double) (j : Json d) (static_config dynamic_config : j.Value) (stations : List ℤ)
    → combined_stations d j static_config dynamic_config ≡ ok stations
    → Holds
        (All (All (IsStationOrZero (length stations))))
        (convert_robot_next_station d j static_config dynamic_config)
unfolding convert_robot_next_station
plans-bounded d j static_config dynamic_config stations e =
    Holds->>= (λ plans. Unit {0}) _
      (get_rows d j dynamic_config (codes "robot_info_map") (codes "station_plan")) _ (Holds-any _)
      (λ plans h. rw e (
        Holds-convert_all (All (IsStationOrZero (length stations))) _ plans (λ plan.
          Holds-convert_all (IsStationOrZero (length stations)) _ plan
            (λ station. Holds-index_or_throw station stations))))

module _ (d : Double) (j : Json d) (files : Bytes → File d j) where
  robot_station-bounded :
      (stations : List ℤ) (robot step : ℤ)
      → combined_stations d j (loaded_static d j files) (loaded_dynamic d j files) ≡ ok stations
      → Holds
          (IsStationOrZero (length stations))
          (robot_station d j (loaded_static d j files) (loaded_dynamic d j files) robot step)
  robot_station-bounded stations robot step e =
      Holds->>= (All (All (IsStationOrZero (length stations)))) _
        (convert_robot_next_station d j (loaded_static d j files) (loaded_dynamic d j files)) _
        (plans-bounded d j _ _ stations e)
        (λ schedules all.
          Holds->>= (All (IsStationOrZero (length stations))) _
            (vector_at schedules (robot -ℤ pos 2)) _
            (Holds-vector_at _ schedules (robot -ℤ pos 2) all)
            (λ schedule all'. Holds-at_step (length stations) schedule step all'))

  -- Whatever plans the other robots have, for every robot and step, next_robot_station returns 0 or the
  -- id of a station.
  pub next_robot_station-bounded :
      (stations : List ℤ) (robot step : ℤ)
      → combined_stations d j (loaded_static d j files) (loaded_dynamic d j files) ≡ ok stations
      → (m : ℕ) × (m ≤ length stations)
        × (run d j files (Call.next_robot_station robot step ∷ []) (start d j) ≡ int (pos m) ∷ [])
  next_robot_station-bounded stations robot step e =
      let (m, f, h) =
        Holds-or_else (length stations) _ (robot_station-bounded stations robot step e) in
      (m, h, run-reference d j files _ ∙ ap (λ z. int z ∷ []) f)
