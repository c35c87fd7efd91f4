-- ===== src/Config/Stations.antt =====
-- config/src/config_wrapper.cpp: the station ids and what they stand for.
pub mod Rank
pub mod Bounds
use p7_kode.Base.{
  ℕ, zero, suc, ◌+◌, ◌≤◌, ◌<◌, ◌≡◌, refl, sym, ap, ◌∙◌, inl, inr, ◌⊎◌, Bool, true, false, Option,
  none, some, List, [], ◌∷◌, ◌++◌, map, Result, ok, err, arith, if◌then◌else◌, Bool-cases,
  get_elem?, length, In, All,
}
use p7_kode.Base.Fallible.{◌>>=◌}
use p7_kode.Base.Int.{ℤ, pos, negsuc, eqb_ℤ, eqb_ℤ_iff, ◌-ℤ◌}
use p7_kode.Base.Text.{Bytes, codes}
use p7_kode.Base.Double.{Double}
use p7_kode.Base.Json.{Json}
use p7_kode.Config.Values.{File, get_int, get_rows, convert_all}
use p7_kode.Config.Store.{start}
use p7_kode.Config.Convert.{
  find_index, vector_at, combined_stations, next_station_index, convert_robot_next_station,
  index_or_throw,
}
use p7_kode.Config.Wrapper.{at_step}
use p7_kode.Config.Calls.{Call, Answer, int, run}
use p7_kode.Config.Calls.Reference.{or_else, reference, robot_station}
use p7_kode.Config.Calls.Ready.{loaded_static, loaded_dynamic}
use p7_kode.Config.Calls.Answers.{run-reference}

-- find_index finds an element that is there, at a place where it is.
pub find_index-In :
    (x : ℤ) (ys : List ℤ)
    → In x ys
    → (i : ℕ) × (find_index x ys ≡ some i) × (get_elem? ys i ≡ some x)
unfolding find_index
find_index-In x [] h = absurd h
find_index-In x (y ∷ ys) h = elim (Bool-cases (eqb_ℤ y x)) [
  | inl same ↦ (0, rw same refl, ap some ((eqb_ℤ_iff y x).0 same))
  | inr other ↦ elim h [
    | inl here ↦ (let same = (eqb_ℤ_iff y x).1 (sym here) in cc)
    | inr there ↦
        let (i, e, f) = find_index-In x ys there in (suc i, rw (find_index, other, e) refl, f)
  ]
]

pub get_elem?-length :
    {A : Type 0} (xs : List A) (i : ℕ) {a : A} → get_elem? xs i ≡ some a → i < length xs
get_elem?-length [] i e = cc
get_elem?-length (x ∷ xs) zero e = omega arith
get_elem?-length (x ∷ xs) (suc i) e = let h = get_elem?-length xs i e in omega arith

pub minus_one : (i : ℕ) → pos (suc i) -ℤ pos 1 ≡ pos i
minus_one i = ground arith

module _ (d : Double) (j : Json d) (files : Bytes → File d j) where
  -- When the waypoint of the next station is one of the stations, next_station is a station id, the
  -- library converts it to this waypoint, and destination is this waypoint too.
  pub next_station-destination :
      (stations : List ℤ) (w : ℤ)
      → combined_stations d j (loaded_static d j files) (loaded_dynamic d j files) ≡ ok stations
      → get_int d j (loaded_dynamic d j files) (codes "next_station") ≡ ok w
      → In w stations
      → (i : ℕ) × (i < length stations)
        × (run d j files
              (Call.next_station
                ∷ Call.convert_to_waypoint_id (pos (suc i))
                ∷ Call.destination
                ∷ [])
              (start d j)
            ≡ int (pos (suc i)) ∷ int w ∷ int w ∷ [])
  unfolding next_station_index vector_at
  next_station-destination stations w e f h =
      let (i, found, there) = find_index-In w stations h in
      let id : i + 1 ≡ suc i = omega arith in
      (
        i,
        get_elem?-length stations i there,
        run-reference d j files _
            ∙ rw (next_station_index, f, e, found, id, minus_one i, vector_at, there) refl,
      )
