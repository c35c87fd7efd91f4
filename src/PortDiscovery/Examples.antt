-- ===== src/PortDiscovery/Examples.antt =====
-- The port discovery service on concrete messages.
use p7_kode.Base.{ℕ, ◌≡◌, refl, Option, some, List, [], ◌∷◌, arith, err, out_of_range, map, length}
use p7_kode.Base.Int.{pos}
use p7_kode.Base.Text.{Bytes, codes}
use p7_kode.Base.Decimal.{stoi, to_string}
use p7_kode.Tcp.Connection.{connected}
use p7_kode.PortDiscovery.Service.{Session, handle_message}
use p7_kode.PortDiscovery.Registry.{
  Request, add, get, remove, text, history, view, Serves, CanSend, handle_all,
  handle_message-Serves, handle_all-history,
}
use p7_kode.PortDiscovery.Errors.{get_robot_out_of_range}

abbrev os_sends : Bytes → Option ℕ
os_sends b = some (length b)

abbrev one_robot : Session
one_robot = record { robot_map = (pos 1, pos 4000) ∷ []; connection = connected 3; replies = [] }

sending : CanSend os_sends one_robot.connection
sending = record { ready = refl; takes = λ b. (length b, refl) }

handle_message-Serves_example :
    Serves one_robot (get (pos 1)) (handle_message os_sends [] (codes "get_robot,1") one_robot)
unfolding to_string
handle_message-Serves_example =
    handle_message-Serves os_sends [] (get (pos 1)) one_robot (omega arith) sending

abbrev requests : List Request
requests = add (pos 2) (pos 4001) ∷ add (pos 1) (pos 9) ∷ remove (pos 1) ∷ get (pos 1) ∷ []

handle_all-history_example :
    (view (handle_all os_sends [] (map text requests) one_robot)
      ≡ (history requests (view one_robot)).0)
    × ((handle_all os_sends [] (map text requests) one_robot).replies
        ≡ (history requests (view one_robot)).1)
handle_all-history_example = handle_all-history os_sends [] requests one_robot (omega arith) sending

too_large : stoi (codes "4294967296") ≡ err out_of_range
unfolding stoi
too_large = refl

get_robot_out_of_range_example :
    handle_message os_sends [] (codes "get_robot,4294967296") one_robot
    ≡ (err out_of_range, one_robot)
get_robot_out_of_range_example =
    get_robot_out_of_range os_sends [] (codes "4294967296") one_robot (omega arith) too_large
