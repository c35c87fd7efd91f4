-- ===== src/Communication/ComModule.antt =====
-- communication/src/com-module.cpp: `ComModule`. A handler reads or writes the map once, under `mutex`,
-- so each call below is one step on the shared map.
use p7_kode.Base.{
  ℕ, zero, suc, Option, none, some, List, [], ◌∷◌, ◌++◌, Exception, Result, ok, err,
  malformed_message, message_exception, receive_exception, if◌then◌else◌, take, drop,
}
use p7_kode.Base.Exec.{Exec, lift, ◌>>=◌}
use p7_kode.Base.IntMap.{IntMap, insert_or_assign}
use p7_kode.Base.Text.{Bytes, codes, bytes_eq, find_char}
use p7_kode.Base.Double.{Double}
use p7_kode.Base.Json.{Json}
use p7_kode.Tcp.Connection.{
  Connection, Recv, Progress, returns, waits, aborts, send, receive_blocking,
}
use p7_kode.PortDiscovery.Service.{c_str}
use p7_kode.Robot.Info.{Info, from_text}
use p7_kode.Robot.InfoMap.{map_to_json}

pub data Function : Type 0 where
  get_robot_info put_robot_info : Function

-- The text in front of the first comma and the text behind it; both are the whole text where there is
-- no comma, since npos + 1 is 0.
unfoldable pub split_message : Bytes → Bytes × Bytes
split_message message = elim (find_char b',' message) [
  | none ↦ (message, message)
  | some k ↦ (take k message, drop (suc k) message)
]

unfoldable pub parse_function : Bytes → Result Function
parse_function function =
    if bytes_eq function (codes "get_robot_info")
    then ok get_robot_info
    else if bytes_eq function (codes "put_robot_info")
    then ok put_robot_info
    else err (message_exception function)

module _ (d : Double) where
  -- The shared map, the connection of the thread and what was sent on it.
  pub record Session : Type 0 where
    pub robot_info : IntMap (Info d)
    pub connection : Connection
    pub replies : List Bytes

-- What a thread of the module comes to: it goes on with the results of ::recv that are left, it ends
-- because of a ReceiveException or with an exception that nothing catches, it waits for the peer, or
-- `receive_blocking` aborts.
pub data Thread (S : Type 0) : Type 0 where
  goes_on : S → List Recv → Thread S
  ends : S → Thread S
  leaves : Exception → S → Thread S
  waiting : S → Thread S
  aborted : Thread S

-- `styled` is toStyledString, `parse` is what `>>` makes of a text, and `os_send` is ::send on the socket
-- of the thread.
module _ (d : Double) (j : Json d) (styled : j.Value → Bytes) (parse : Bytes → Result j.Value)
    (os_send : Bytes → Option ℕ) where
  abbrev sent_reply : Bytes → Session d → Result ℕ → Result (Unit {0}) × Session d
  sent_reply message s (ok bytes) = (ok tt, record s { replies = s.replies ++ message ∷ [] })
  sent_reply message s (err e) = (err e, s)

  unfoldable pub reply : Bytes → Exec (Session d) (Unit {0})
  reply message s = sent_reply message s (send os_send message s.connection).0

  unfoldable pub do_get_robot_info : Exec (Session d) (Unit {0})
  do_get_robot_info s = (lift (map_to_json d j s.robot_info) >>= λ result. reply (styled result)) s

  abbrev stored : Session d → Info d → Session d
  stored s info = record s { robot_info = insert_or_assign info.id info s.robot_info }

  abbrev store_info : Result (Info d) → Exec (Session d) (Unit {0})
  store_info (ok info) s = (ok tt, stored s info)
  store_info (err e) s = (err e, s)

  unfoldable pub do_put_robot_info : Bytes → Exec (Session d) (Unit {0})
  do_put_robot_info robot_payload = store_info (from_text d j parse robot_payload)

  unfoldable pub call_function : Function → Bytes → Exec (Session d) (Unit {0})
  call_function put_robot_info parameters = do_put_robot_info parameters
  call_function get_robot_info parameters = do_get_robot_info

  -- The body of the loop of `parse_message`, behind `receive_blocking`.
  unfoldable pub handle_message : Bytes → Exec (Session d) (Unit {0})
  handle_message message =
      let result = split_message message in
      lift (parse_function result.0) >>= λ function. call_function function result.1

  -- The catch clauses; UnknownFunctionException and UnknownParameterException are thrown nowhere.
  abbrev caught : List Recv → Exception → Session d → Thread (Session d)
  caught rs (malformed_message m) s =
      resumed rs (reply (c_str (codes "Missing start sequence: " ++ m)) s)
    where
      resumed : List Recv → Result (Unit {0}) × Session d → Thread (Session d)
      resumed rs (ok _, s) = goes_on s rs
      resumed rs (err e, s) = leaves e s
  caught rs (receive_exception errno) s = ends s
  caught rs e s = leaves e s

  abbrev after_handling : List Recv → Result (Unit {0}) × Session d → Thread (Session d)
  after_handling rs (ok _, s) = goes_on s rs
  after_handling rs (err e, s) = caught rs e s

  abbrev after_receive : Progress Bytes → Session d → Thread (Session d)
  after_receive (returns (ok message) c rs) s =
      after_handling rs (handle_message message (record s { connection = c }))
  after_receive (returns (err e) c rs) s = caught rs e (record s { connection = c })
  after_receive (waits c) s = waiting (record s { connection = c })
  after_receive aborts s = aborted

  unfoldable pub round : List Recv → Session d → Thread (Session d)
  round rs s = after_receive (receive_blocking rs s.connection) s

  abbrev next_round :
      (List Recv → Session d → Thread (Session d)) → Thread (Session d) → Thread (Session d)
  next_round go_on (goes_on s rs) = go_on rs s
  next_round go_on t = t

  -- The first rounds of `parse_message`.
  unfoldable pub parse_message : ℕ → List Recv → Session d → Thread (Session d)
  parse_message zero rs s = goes_on s rs
  parse_message (suc n) rs s = next_round (parse_message n) (round rs s)
