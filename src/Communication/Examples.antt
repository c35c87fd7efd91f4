-- ===== src/Communication/Examples.antt =====
-- communication/: a robot that reports, and a request of the orchestrator.
use p7_kode.Base.{
  ℕ, ◌≡◌, refl, Option, none, some, [], ◌∷◌, map, Result, ok, err, message_exception, json_error,
  arith, if◌then◌else◌,
}
use p7_kode.Base.Int.{pos}
use p7_kode.Base.Text.{Bytes, codes, bytes_eq, find}
use p7_kode.Base.Samples.{whole, trees, Tree, Members}
use p7_kode.Tcp.Connection.{connected, got}
use p7_kode.Robot.Info.{
  Info, from_text, from_json, int_field, point_field, vector_field, actions_field, optional_field,
}
use p7_kode.Robot.InfoMap.{info_at}
use p7_kode.Communication.ComModule.{Session, round}
use p7_kode.Communication.Requests.{
  locations, LeavesWith, round-IsRequest, handle_all, put, IsTextOf, handle_all-last_with,
}

abbrev session : Session whole
session = record { robot_info = []; connection = connected 3; replies = [] }

abbrev styled : Tree → Bytes
styled t = []

abbrev robot_tree : Tree
robot_tree = Tree.object (
    Members.member (codes "id") (Tree.int (pos 6)) (
      Members.member (codes "location")
        (Tree.object (
          Members.member (codes "x") (Tree.real 3)
            (Members.member (codes "y") (Tree.real 4) Members.empty)))
        Members.empty))

-- The text "r" is that of the one robot.
abbrev parse : Bytes → Result Tree
parse text = if bytes_eq text (codes "r") then ok robot_tree else err json_error

abbrev robot : Info whole
robot = record {
  id = pos 6;
  location = record { x = 3; y = 4 };
  station_plan = [];
  waypoint_plan = [];
  eta = none;
}

abbrev os_send : Bytes → Option ℕ
os_send s = some 1

robot-IsTextOf : IsTextOf whole trees parse (codes "r") robot
unfolding from_text from_json int_field point_field vector_field actions_field optional_field
robot-IsTextOf = refl

handle_all-last_with_example :
    info_at whole
      (handle_all whole trees styled parse os_send (map put (codes "r" ∷ [])) session).1.robot_info
      (pos 6)
    ≡ ok robot
handle_all-last_with_example =
    handle_all-last_with whole trees styled parse os_send (codes "r" ∷ []) (robot ∷ []) session refl
      (robot-IsTextOf, tt) (pos 6)

locations-framable : find (codes "|#") (b'|' ∷ codes "get_robot_locations") ≡ none
unfolding find
locations-framable = refl

round-IsRequest_example :
    LeavesWith whole (message_exception (codes "get_robot_locations")) session (
      round whole trees styled parse os_send
        (map got (codes "#|get_robot_" ∷ codes "locations|#" ∷ []))
        session)
round-IsRequest_example =
    round-IsRequest whole trees styled parse os_send (codes "get_robot_locations")
      (codes "get_robot_locations") locations [] (codes "#|get_robot_" ∷ codes "locations|#" ∷ [])
      session locations-framable (omega arith) refl refl
