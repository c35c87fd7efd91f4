-- ===== src/Config/Calls/Memory.antt =====
-- config/src/config_wrapper.cpp: what the library remembers from call to call.
use p7_kode.Base.{ℕ, zero, suc, ◌≡◌, refl, Bool, true, List}
use p7_kode.Base.Exec.{Exec}
use p7_kode.Base.Int.{ℤ}
use p7_kode.Base.Double.{Double}
use p7_kode.Base.Json.{Json}
use p7_kode.Config.Values.{Action}
use p7_kode.Config.Store.{
  State, static_int, static_vector, static_flags, static_matrix, static_plans, static_etas,
  IntStatic, VectorStatic, FlagsStatic, MatrixStatic, PlansStatic, EtaStatic, etas, int_number,
  vector_number, flags_number, matrix_number, plans_number,
}
use p7_kode.Config.Calls.Reference.{
  int_value, vector_value, flags_value, matrix_value, plans_value, eta_value,
}
use p7_kode.Config.Calls.Static.{Keeps, Yields, Yields-static_auto}

int_static : ℕ → IntStatic
int_static zero = IntStatic.number_of_stations
int_static (suc zero) = IntStatic.number_of_end_stations
int_static (suc (suc zero)) = IntStatic.number_of_robots
int_static (suc (suc (suc zero))) = IntStatic.number_of_waypoints
int_static (suc (suc (suc (suc zero)))) = IntStatic.waypoint_passing_time
int_static (suc (suc (suc (suc (suc zero))))) = IntStatic.station_passing_time
int_static (suc (suc (suc (suc (suc (suc zero)))))) = IntStatic.next_station
int_static (suc (suc (suc (suc (suc (suc (suc n))))))) = IntStatic.destination

int_static-number : (k : IntStatic) → int_static (int_number k) ≡ k
unfolding int_static
int_static-number IntStatic.number_of_stations = refl
int_static-number IntStatic.number_of_end_stations = refl
int_static-number IntStatic.number_of_robots = refl
int_static-number IntStatic.number_of_waypoints = refl
int_static-number IntStatic.waypoint_passing_time = refl
int_static-number IntStatic.station_passing_time = refl
int_static-number IntStatic.next_station = refl
int_static-number IntStatic.destination = refl

-- One of three values by number.
third_of : {K : Type 0} → K → K → K → ℕ → K
third_of a b c zero = a
third_of a b c (suc zero) = b
third_of a b c (suc (suc n)) = c

vector_static-number :
    (k : VectorStatic)
    → third_of VectorStatic.convert_to_waypoint_id VectorStatic.conversion VectorStatic.station_list
        (vector_number k)
      ≡ k
unfolding third_of
vector_static-number VectorStatic.convert_to_waypoint_id = refl
vector_static-number VectorStatic.conversion = refl
vector_static-number VectorStatic.station_list = refl

flags_static-number :
    (k : FlagsStatic)
    → third_of FlagsStatic.station_visited FlagsStatic.waypoint_visited FlagsStatic.waypoint_visited
        (flags_number k)
      ≡ k
unfolding third_of
flags_static-number FlagsStatic.station_visited = refl
flags_static-number FlagsStatic.waypoint_visited = refl

matrix_static-number :
    (k : MatrixStatic)
    → third_of MatrixStatic.station_dist MatrixStatic.robot_schedules MatrixStatic.waypoint_dist
        (matrix_number k)
      ≡ k
unfolding third_of
matrix_static-number MatrixStatic.station_dist = refl
matrix_static-number MatrixStatic.robot_schedules = refl
matrix_static-number MatrixStatic.waypoint_dist = refl

plans_static-number :
    (k : PlansStatic)
    → third_of PlansStatic.get_waypoint_plan PlansStatic.next_action_type
        PlansStatic.next_action_value
        (plans_number k)
      ≡ k
unfolding third_of
plans_static-number PlansStatic.get_waypoint_plan = refl
plans_static-number PlansStatic.next_action_type = refl
plans_static-number PlansStatic.next_action_value = refl

eta_static-number : (k : EtaStatic) → etas ≡ k
eta_static-number etas = refl

module _ (d : Double) (j : Json d) (static_config dynamic_config : j.Value) where
  -- The files are loaded, and each static variable that is initialised holds its value.
  pub record IsSettled (s : State d j) : Type 0 where
    pub is_loaded : s.loaded ≡ true
    pub static_same : s.static_config ≡ static_config
    pub dynamic_same : s.dynamic_config ≡ dynamic_config
    pub ints_kept : Keeps (int_value d j static_config dynamic_config) s.ints
    pub vectors_kept : Keeps (vector_value d j static_config dynamic_config) s.vectors
    pub flags_kept : Keeps (flags_value d j static_config dynamic_config) s.flags
    pub matrices_kept : Keeps (matrix_value d j static_config dynamic_config) s.matrices
    pub plans_kept : Keeps (plans_value d j static_config dynamic_config) s.plans
    pub etas_kept : Keeps (eta_value d j static_config dynamic_config) s.eta_values

  pub static_int-Yields :
      (k : IntStatic) (m : Exec (State d j) ℤ)
      → Yields IsSettled m (int_value d j static_config dynamic_config k)
      → Yields IsSettled (static_int d j k m) (int_value d j static_config dynamic_config k)
  static_int-Yields k m =
      Yields-static_auto IsSettled int_number int_static int_static-number (λ s. s.ints)
        (λ s m. record s { ints = m }) (int_value d j static_config dynamic_config)
        (λ s h. h.ints_kept)
        (λ s m h kept. record {
          is_loaded = h.is_loaded;
          static_same = h.static_same;
          dynamic_same = h.dynamic_same;
          ints_kept = kept;
          vectors_kept = h.vectors_kept;
          flags_kept = h.flags_kept;
          matrices_kept = h.matrices_kept;
          plans_kept = h.plans_kept;
          etas_kept = h.etas_kept;
        })
        k m

  pub static_vector-Yields :
      (k : VectorStatic) (m : Exec (State d j) (List ℤ))
      → Yields IsSettled m (vector_value d j static_config dynamic_config k)
      → Yields IsSettled (static_vector d j k m) (vector_value d j static_config dynamic_config k)
  static_vector-Yields k m =
      Yields-static_auto IsSettled vector_number
        (third_of VectorStatic.convert_to_waypoint_id VectorStatic.conversion
          VectorStatic.station_list)
        vector_static-number (λ s. s.vectors) (λ s m. record s { vectors = m })
        (vector_value d j static_config dynamic_config) (λ s h. h.vectors_kept)
        (λ s m h kept. record {
          is_loaded = h.is_loaded;
          static_same = h.static_same;
          dynamic_same = h.dynamic_same;
          ints_kept = h.ints_kept;
          vectors_kept = kept;
          flags_kept = h.flags_kept;
          matrices_kept = h.matrices_kept;
          plans_kept = h.plans_kept;
          etas_kept = h.etas_kept;
        })
        k m

  pub static_flags-Yields :
      (k : FlagsStatic) (m : Exec (State d j) (List Bool))
      → Yields IsSettled m (flags_value d j static_config dynamic_config k)
      → Yields IsSettled (static_flags d j k m) (flags_value d j static_config dynamic_config k)
  static_flags-Yields k m =
      Yields-static_auto IsSettled flags_number
        (third_of FlagsStatic.station_visited FlagsStatic.waypoint_visited
          FlagsStatic.waypoint_visited)
        flags_static-number (λ s. s.flags) (λ s m. record s { flags = m })
        (flags_value d j static_config dynamic_config) (λ s h. h.flags_kept)
        (λ s m h kept. record {
          is_loaded = h.is_loaded;
          static_same = h.static_same;
          dynamic_same = h.dynamic_same;
          ints_kept = h.ints_kept;
          vectors_kept = h.vectors_kept;
          flags_kept = kept;
          matrices_kept = h.matrices_kept;
          plans_kept = h.plans_kept;
          etas_kept = h.etas_kept;
        })
        k m

  pub static_matrix-Yields :
      (k : MatrixStatic) (m : Exec (State d j) (List (List ℤ)))
      → Yields IsSettled m (matrix_value d j static_config dynamic_config k)
      → Yields IsSettled (static_matrix d j k m) (matrix_value d j static_config dynamic_config k)
  static_matrix-Yields k m =
      Yields-static_auto IsSettled matrix_number
        (third_of MatrixStatic.station_dist MatrixStatic.robot_schedules MatrixStatic.waypoint_dist)
        matrix_static-number (λ s. s.matrices) (λ s m. record s { matrices = m })
        (matrix_value d j static_config dynamic_config) (λ s h. h.matrices_kept)
        (λ s m h kept. record {
          is_loaded = h.is_loaded;
          static_same = h.static_same;
          dynamic_same = h.dynamic_same;
          ints_kept = h.ints_kept;
          vectors_kept = h.vectors_kept;
          flags_kept = h.flags_kept;
          matrices_kept = kept;
          plans_kept = h.plans_kept;
          etas_kept = h.etas_kept;
        })
        k m

  pub static_plans-Yields :
      (k : PlansStatic) (m : Exec (State d j) (List (List Action)))
      → Yields IsSettled m (plans_value d j static_config dynamic_config k)
      → Yields IsSettled (static_plans d j k m) (plans_value d j static_config dynamic_config k)
  static_plans-Yields k m =
      Yields-static_auto IsSettled plans_number
        (third_of PlansStatic.get_waypoint_plan PlansStatic.next_action_type
          PlansStatic.next_action_value)
        plans_static-number (λ s. s.plans) (λ s m. record s { plans = m })
        (plans_value d j static_config dynamic_config) (λ s h. h.plans_kept)
        (λ s m h kept. record {
          is_loaded = h.is_loaded;
          static_same = h.static_same;
          dynamic_same = h.dynamic_same;
          ints_kept = h.ints_kept;
          vectors_kept = h.vectors_kept;
          flags_kept = h.flags_kept;
          matrices_kept = h.matrices_kept;
          plans_kept = kept;
          etas_kept = h.etas_kept;
        })
        k m

  pub static_etas-Yields :
      (m : Exec (State d j) (List d.Carrier))
      → Yields IsSettled m (eta_value d j static_config dynamic_config etas)
      → Yields IsSettled (static_etas d j m) (eta_value d j static_config dynamic_config etas)
  static_etas-Yields m =
      Yields-static_auto IsSettled (λ k. 0) (λ n. etas) eta_static-number (λ s. s.eta_values)
        (λ s m. record s { eta_values = m }) (eta_value d j static_config dynamic_config)
        (λ s h. h.etas_kept)
        (λ s m h kept. record {
          is_loaded = h.is_loaded;
          static_same = h.static_same;
          dynamic_same = h.dynamic_same;
          ints_kept = h.ints_kept;
          vectors_kept = h.vectors_kept;
          flags_kept = h.flags_kept;
          matrices_kept = h.matrices_kept;
          plans_kept = h.plans_kept;
          etas_kept = kept;
        })
        etas m
