-- ===== src/Webot/Server.antt =====
-- webot/controllers/waypoints_runner/webots_server.cpp: `get_messages` and `send_message`.
pub mod Requests
use p7_kode.Base.{
  ℕ, suc, Option, none, some, List, [], ◌∷◌, ◌++◌, Result, ok, err, if◌then◌else◌, take, drop,
}
use p7_kode.Base.Exec.{Exec, pure, ◌>>=◌, ◌>>◌}
use p7_kode.Base.Text.{Bytes, codes, bytes_eq, find_char}
use p7_kode.Tcp.Connection.{Connection, send}

pub data MessageType : Type 0 where
  get_state set_destination not_understood : MessageType

pub record Message : Type 0 where
  pub payload : Bytes
  pub type : MessageType

-- The connection `client`, and what was sent on it.
pub record Link : Type 0 where
  pub client : Connection
  pub sent : List Bytes

unfoldable pub prefix : MessageType → Bytes
prefix get_state = codes "get_state,"
prefix set_destination = codes "set_destination,"
prefix not_understood = codes "not_understood,"

-- `os_send` is ::send on the socket of the client.
module _ (os_send : Bytes → Option ℕ) where
  abbrev record_sent : Bytes → Link → Result ℕ → Result (Unit {0}) × Link
  record_sent payload l (ok bytes) = (ok tt, record l { sent = l.sent ++ payload ∷ [] })
  record_sent payload l (err e) = (err e, l)

  unfoldable pub send_message : Message → Exec Link (Unit {0})
  send_message message l =
      let payload = prefix message.type ++ message.payload in
      record_sent payload l (send os_send payload l.client).0

  abbrev refuse : Bytes → List Message → Exec Link (List Message)
  refuse raw_message messages =
      send_message (record { payload = raw_message; type = not_understood }) >> pure messages

  -- The body of the loop. Behind npos + 1, which is 0, stands the whole message.
  unfoldable pub read_message : Bytes → List Message → Exec Link (List Message)
  read_message raw_message messages = elim (find_char b',' raw_message) [
    | none ↦
        if bytes_eq raw_message (codes "get_state")
        then pure (messages ++ record { payload = raw_message; type = get_state } ∷ [])
        else refuse raw_message messages
    | some split_pos ↦
        if bytes_eq (take split_pos raw_message) (codes "set_destination")
        then pure (
            messages
            ++ record { payload = drop (suc split_pos) raw_message; type = set_destination } ∷ [])
        else refuse raw_message messages
  ]

  unfoldable pub messages_loop : List Bytes → List Message → Exec Link (List Message)
  messages_loop [] messages = pure messages
  messages_loop (raw_message ∷ raw_messages) messages =
      read_message raw_message messages >>= messages_loop raw_messages

  -- `raw_messages` is what client->receive() returned.
  unfoldable pub get_messages : List Bytes → Exec Link (List Message)
  get_messages raw_messages = messages_loop raw_messages []
