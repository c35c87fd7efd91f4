-- ===== src/Base/Errors.antt =====
-- The exceptions that the program and the standard library throw, and results that may be one.
use Prim.Native.Nat.{ℕ}
use mathlib.Core.List.{List}

-- One constructor for each exception class; the argument is what its message is made of.
pub data Exception : Type 0 where
  -- std::invalid_argument, std::out_of_range
  invalid_argument out_of_range : Exception
  -- tcp/connection.hpp, tcp/exception.hpp
  connection_exception malformed_message send_exception message_exception : List ℕ → Exception
  receive_exception accept_exception bind_exception listen_exception : ℕ → Exception
  close_exception : Exception
  -- wbt-translator/webots_parser.hpp
  malformed_world_file end_of_stream : Exception
  -- config/config.hpp
  file_not_opened invalid_value invalid_key : List ℕ → Exception
  read_exception : Exception
  -- robot/info.hpp
  invalid_robot_info : Exception
  -- util/json.hpp
  json_conversion : Exception
  -- Json::Exception
  json_error : Exception
  -- port_discovery/port_service.hpp
  unreadable_function invalid_parameters id_already_defined : List ℕ → Exception

pub data Result {ℓ} (A : Type ℓ) : Type ℓ where
  ok : A → Result A
  err : Exception → Result A
