-- ===== src/Robot/Orchestrator/Broadcast.antt =====
-- robot/src/orchestrator.cpp: the messages on `broadcast_client`.
use p7_kode.Base.{ℕ, Option, List, ◌++◌}
use p7_kode.Base.Exec.{Exec, lift, ◌>>=◌}
use p7_kode.Base.Int.{ℤ}
use p7_kode.Base.Text.{Bytes, codes}
use p7_kode.Base.Double.{Double}
use p7_kode.Base.Json.{Json}
use p7_kode.Tcp.Connection.{Connection, Recv, Progress, send, receive_blocking}
use p7_kode.Robot.Info.{Info, to_json}

-- `os_send` is ::send on the socket of the client.
unfoldable pub request_broadcast_info : (Bytes → Option ℕ) → Exec Connection ℕ
request_broadcast_info os_send = send os_send (codes "get_robot_locations")

unfoldable pub recv_broadcast_info : List Recv → Connection → Progress Bytes
recv_broadcast_info rs c = receive_blocking rs c

module _ (d : Double) (j : Json d) where
  -- `styled` is toStyledString.
  unfoldable pub send_robot_info :
      (j.Value → Bytes) → (Bytes → Option ℕ) → ℤ → Info d → Exec Connection ℕ
  send_robot_info styled os_send robot_id robot_info = lift (to_json d j robot_info) >>= λ json.
      send os_send (codes "post_robot_location, " ++ styled json)
