-- ===== src/Config/Store.antt =====
-- config/src/config_wrapper.cpp: `load`, and the variables that keep their values between calls.
use p7_kode.Base.{
  ℕ, Bool, true, false, Option, none, some, List, Result, ok, err, ◌==◌, if◌then◌else◌,
}
use p7_kode.Base.Exec.{Exec}
use p7_kode.Base.Int.{ℤ}
use p7_kode.Base.Text.{Bytes, codes}
use p7_kode.Base.Double.{Double}
use p7_kode.Base.Json.{Json}
use p7_kode.Config.Values.{Action, File, load_from_file}

-- The `static` variables of the functions, by their types and named for the functions.
pub data IntStatic : Type 0 where
  number_of_stations number_of_end_stations number_of_robots number_of_waypoints : IntStatic
  waypoint_passing_time station_passing_time next_station destination : IntStatic

pub data VectorStatic : Type 0 where
  convert_to_waypoint_id conversion station_list : VectorStatic

pub data FlagsStatic : Type 0 where
  station_visited waypoint_visited : FlagsStatic

pub data MatrixStatic : Type 0 where
  station_dist robot_schedules waypoint_dist : MatrixStatic

pub data PlansStatic : Type 0 where
  get_waypoint_plan next_action_type next_action_value : PlansStatic

pub data EtaStatic : Type 0 where
  etas : EtaStatic

abbrev pub Memo : Type 0 → Type 0 → Type 0
Memo K V = K → Option V

abbrev pub int_number : IntStatic → ℕ
int_number number_of_stations = 0
int_number number_of_end_stations = 1
int_number number_of_robots = 2
int_number number_of_waypoints = 3
int_number waypoint_passing_time = 4
int_number station_passing_time = 5
int_number next_station = 6
int_number destination = 7

abbrev pub vector_number : VectorStatic → ℕ
vector_number convert_to_waypoint_id = 0
vector_number conversion = 1
vector_number station_list = 2

abbrev pub flags_number : FlagsStatic → ℕ
flags_number station_visited = 0
flags_number waypoint_visited = 1

abbrev pub matrix_number : MatrixStatic → ℕ
matrix_number station_dist = 0
matrix_number robot_schedules = 1
matrix_number waypoint_dist = 2

abbrev pub plans_number : PlansStatic → ℕ
plans_number get_waypoint_plan = 0
plans_number next_action_type = 1
plans_number next_action_value = 2

module _ (d : Double) (j : Json d) where
  -- `loaded`, the two configurations, and the static variables that are initialised.
  pub record State : Type 0 where
    pub loaded : Bool
    pub static_config : j.Value
    pub dynamic_config : j.Value
    pub ints : Memo IntStatic ℤ
    pub vectors : Memo VectorStatic (List ℤ)
    pub flags : Memo FlagsStatic (List Bool)
    pub matrices : Memo MatrixStatic (List (List ℤ))
    pub plans : Memo PlansStatic (List (List Action))
    pub eta_values : Memo EtaStatic (List d.Carrier)

  abbrev pub start : State
  start = record {
    loaded = false;
    static_config = j.null;
    dynamic_config = j.null;
    ints = λ k. none;
    vectors = λ k. none;
    flags = λ k. none;
    matrices = λ k. none;
    plans = λ k. none;
    eta_values = λ k. none;
  }

  -- What an exception of load_from_file ends is caught, so the rest of the call goes on.
  unfoldable pub load : (Bytes → File d j) → State → State
  load files s = if s.loaded then s else record s {
    loaded = true;
    static_config =
        (load_from_file d j (files (codes "static_config.json")) (codes "static_config.json")
          s.static_config).1;
    dynamic_config =
        (load_from_file d j (files (codes "dynamic_config.json")) (codes "dynamic_config.json")
          s.dynamic_config).1;
  }

abbrev pub set_memo : {K V : Type 0} → (K → ℕ) → K → V → Memo K V → Memo K V
set_memo number k v m k' = if number k == number k' then some v else m k'

-- static auto variable = m: the variable of `k` is initialised by the first call that m does not leave
-- by an exception.
module _ {S K V : Type 0} (number : K → ℕ) (memo : S → Memo K V) (put : S → Memo K V → S) where
  abbrev pub store : K → Result V × S → Result V × S
  store k (ok v, s) = (ok v, put s (set_memo number k v (memo s)))
  store k (err e, s) = (err e, s)

  unfoldable pub static_auto : K → Exec S V → Exec S V
  static_auto k m s = elim (memo s k) [ some v ↦ (ok v, s) | none ↦ store k (m s) ]

module _ (d : Double) (j : Json d) where
  abbrev pub static_int : IntStatic → Exec (State d j) ℤ → Exec (State d j) ℤ
  static_int = static_auto int_number (λ s. s.ints) (λ s m. record s { ints = m })

  abbrev pub static_vector : VectorStatic → Exec (State d j) (List ℤ) → Exec (State d j) (List ℤ)
  static_vector = static_auto vector_number (λ s. s.vectors) (λ s m. record s { vectors = m })

  abbrev pub static_flags :
      FlagsStatic → Exec (State d j) (List Bool) → Exec (State d j) (List Bool)
  static_flags = static_auto flags_number (λ s. s.flags) (λ s m. record s { flags = m })

  abbrev pub static_matrix :
      MatrixStatic → Exec (State d j) (List (List ℤ)) → Exec (State d j) (List (List ℤ))
  static_matrix = static_auto matrix_number (λ s. s.matrices) (λ s m. record s { matrices = m })

  abbrev pub static_plans :
      PlansStatic → Exec (State d j) (List (List Action)) → Exec (State d j) (List (List Action))
  static_plans = static_auto plans_number (λ s. s.plans) (λ s m. record s { plans = m })

  abbrev pub static_etas : Exec (State d j) (List d.Carrier) → Exec (State d j) (List d.Carrier)
  static_etas = static_auto (λ k. 0) (λ s. s.eta_values) (λ s m. record s { eta_values = m }) etas
