-- ===== src/PortDiscovery/Service.antt =====
-- port_discovery/src/port_service.cpp: the functions behind `PortService`. A handler reads or writes
-- the robot map once, under `robot_map_lock`, so each call below is one step on the shared map.
use p7_kode.Base.{
  ℕ, Option, none, some, List, [], ◌∷◌, ◌++◌, Exception, Result, ok, err, invalid_argument,
  out_of_range, malformed_message, unreadable_function, invalid_parameters, id_already_defined,
  accept_exception, if◌then◌else◌, length, zero, suc,
}
use p7_kode.Base.Exec.{Exec, pure, throw, lift, try_catch, handle, ◌>>=◌}
use p7_kode.Base.Int.{ℤ, pos}
use p7_kode.Base.Text.{Bytes, codes, bytes_eq}
use p7_kode.Base.Decimal.{to_string, stoi}
use p7_kode.Base.IntMap.{IntMap, lookup, insert, erase}
use p7_kode.Util.Split.{split}
use p7_kode.Tcp.Server
use p7_kode.Tcp.Server.{Net, Accepted}
use p7_kode.Tcp.Connection.{
  Connection, Recv, Progress, returns, waits, aborts, send, receive_blocking,
}

pub data Function : Type 0 where
  add_robot get_robot remove_robot : Function

-- The robot map {robot id, port}, the thread's connection, and what was sent on it.
pub record Session : Type 0 where
  pub robot_map : IntMap ℤ
  pub connection : Connection
  pub replies : List Bytes

-- What a `const char *` to the text holds: the bytes in front of the first NUL.
unfoldable pub c_str : Bytes → Bytes
c_str [] = []
c_str (zero ∷ s) = []
c_str (suc c ∷ s) = suc c ∷ c_str s

unfoldable pub parse_function : Bytes → Result Function
parse_function function =
    if bytes_eq function (codes "add_robot")
    then ok add_robot
    else if bytes_eq function (codes "get_robot")
    then ok get_robot
    else if bytes_eq function (codes "remove_robot")
    then ok remove_robot
    else err (unreadable_function function)

pub data Handled : Type 0 where
  finished : Result (Unit {0}) → Session → List Recv → Handled
  waiting : Session → Handled
  aborted : Handled

abbrev push : ℕ → Result (List ℕ) → Result (List ℕ)
push con (ok cons) = ok (con ∷ cons)
push con (err e) = err e

-- `os_send` is ::send on the thread's socket; `what` is the what() of std::invalid_argument.
module _ (os_send : Bytes → Option ℕ) (what : Bytes) where
  sent_reply : Bytes → Session → Result ℕ → Result (Unit {0}) × Session
  sent_reply message s (ok bytes) = (ok tt, record s { replies = s.replies ++ message ∷ [] })
  sent_reply message s (err e) = (err e, s)

  -- connection->send(message)
  unfoldable pub reply : Bytes → Exec Session (Unit {0})
  unfolding sent_reply
  reply message s = sent_reply message s (send os_send message s.connection).0

  unfoldable pub do_add_robot : ℤ → ℤ → Exec Session (Unit {0})
  do_add_robot id port s = elim (lookup id s.robot_map) [
    | none ↦ (ok tt, record s { robot_map = insert id port s.robot_map })
    | some _ ↦ (err (id_already_defined (to_string id)), s)
  ]

  -- robot_map.at(id)
  unfoldable pub port_of : ℤ → Exec Session ℤ
  port_of id s = elim (lookup id s.robot_map) [ none ↦ (err out_of_range, s) | some p ↦ (ok p, s) ]

  no_robot : ℤ → Exception → Option (Exec Session (Unit {0}))
  no_robot id out_of_range = some (reply (codes "No robot with Id " ++ to_string id))
  no_robot id _ = none

  unfoldable pub do_get_robot : ℤ → Exec Session (Unit {0})
  unfolding port_of no_robot
  do_get_robot id = try_catch (do port ← port_of id; reply (to_string port)) (no_robot id)

  unfoldable pub do_remove_robot : ℤ → Exec Session (Unit {0})
  do_remove_robot id s = (ok tt, record s { robot_map = erase id s.robot_map })

  -- std::to_string(parameters.size())
  wrong_number : List Bytes → Exec Session (Unit {0})
  wrong_number parameters = throw (invalid_parameters (to_string (pos (length parameters))))

  -- The `switch`; a test on the size is a pattern.
  unfoldable pub dispatch : Function → List Bytes → Exec Session (Unit {0})
  unfolding wrong_number
  dispatch get_robot (f ∷ a ∷ []) = do id ← lift (stoi a); do_get_robot id
  dispatch get_robot parameters = wrong_number parameters
  dispatch add_robot (f ∷ a ∷ b ∷ []) = do
    id ← lift (stoi a)
    port ← lift (stoi b)
    do_add_robot id port
  dispatch add_robot parameters = wrong_number parameters
  dispatch remove_robot (f ∷ a ∷ []) = do id ← lift (stoi a); do_remove_robot id
  dispatch remove_robot parameters = wrong_number parameters

  call_handlers : Exception → Option (Exec Session (Unit {0}))
  call_handlers invalid_argument = some (reply (codes "Invalid argument" ++ what))
  call_handlers (id_already_defined id) =
      some (reply (codes "Tried to add robot, but the id was already in the map. Id: " ++ c_str id))
  call_handlers _ = none

  unfoldable pub call_function : Function → List Bytes → Exec Session (Unit {0})
  unfolding call_handlers
  call_function function parameters = try_catch (dispatch function parameters) call_handlers

  -- `parse_message` behind `receive_blocking`. `split` returns at least one part.
  handle_parts : List Bytes → Exec Session (Unit {0})
  handle_parts [] = pure tt
  handle_parts (function ∷ args) = do
    f ← lift (parse_function function)
    call_function f (function ∷ args)

  message_handlers : Exception → Option (Exec Session (Unit {0}))
  message_handlers (malformed_message m) =
      some (reply (c_str (codes "Missing start sequence: " ++ m)))
  message_handlers (unreadable_function f) = some (reply (c_str f))
  message_handlers (invalid_parameters n) =
      some (reply (c_str (codes "Invalid number of arguments:" ++ n)))
  message_handlers _ = none

  unfoldable pub handle_message : Bytes → Exec Session (Unit {0})
  unfolding handle_parts message_handlers
  handle_message message = try_catch (handle_parts (split message b',')) message_handlers

  -- What `parse_message` comes to: it ends, with an exception that leaves the thread or without, or it
  -- waits for the peer, or `receive_blocking` aborts.
  after_receive : Progress Bytes → Session → Handled
  after_receive (returns (ok message) c rs) s =
      let r = handle_message message (record s { connection = c }) in finished r.0 r.1 rs
  after_receive (returns (err e) c rs) s =
      let r = handle message_handlers (err e) (record s { connection = c }) in finished r.0 r.1 rs
  after_receive (waits c) s = waiting (record s { connection = c })
  after_receive aborts s = aborted

  unfoldable pub parse_message : List Recv → Session → Handled
  unfolding after_receive message_handlers
  parse_message rs s = after_receive (receive_blocking rs s.connection) s

-- `PortService::start` on these results of ::accept: the connections for which a thread is started. An
-- AcceptException is printed, any other exception leaves the loop.
unfoldable pub start : List Accepted → Net → Result (List ℕ) × Net
start [] n = (ok [], n)
start (a ∷ later) n =
    let r = Server.accept a n in
    let rest = start later r.1 in
    elim r.0 [
      | ok con ↦ (push con rest.0, rest.1)
      | err (accept_exception errno) ↦ rest
      | err e ↦ (err e, r.1)
    ]
