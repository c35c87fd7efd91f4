-- ===== src/Communication/Requests.antt =====
-- communication/src/com-module.cpp: what becomes of the messages, and of those of the orchestrator.
use p7_kode.Base.{
  ℕ, ◌+◌, ◌^◌, ◌<◌, ◌≡◌, refl, Option, none, List, [], ◌∷◌, ◌++◌, map, Result, ok, err, Exception,
  message_exception, length, Each,
}
use p7_kode.Base.Exec.{Exec, ◌>>◌}
use p7_kode.Base.Int.{ℤ}
use p7_kode.Base.IntMap.{insert_or_assign}
use p7_kode.Base.Text.{Bytes, codes, find, find_char}
use p7_kode.Base.Double.{Double}
use p7_kode.Base.Json.{Json}
use p7_kode.Tcp.Connection.{Connection, frame, got, usable, receive_blocking}
use p7_kode.Tcp.Framing.{concat, receive-Delivers}
use p7_kode.Robot.Info.{Info, from_text}
use p7_kode.Robot.InfoMap.{add_all, info_map, info_at, last_with, or_out_of_range, info_at-info_map}
use p7_kode.Communication.ComModule.{
  Session, Thread, leaves, split_message, parse_function, call_function, do_put_robot_info,
  handle_message, round,
}

-- A message of the orchestrator, and the text in front of its first comma: that of
-- request_broadcast_info, and those of send_robot_info.
pub data IsRequest : Bytes → Bytes → Type 0 where
  locations : IsRequest (codes "get_robot_locations") (codes "get_robot_locations")
  location :
      (text : Bytes)
      → IsRequest (codes "post_robot_location, " ++ text) (codes "post_robot_location")

abbrev pub put : Bytes → Bytes
put text = codes "put_robot_info" ++ b',' ∷ text

module _ (d : Double) where
  -- The thread is left with this exception, and the map is as it was.
  abbrev pub LeavesWith : Exception → Session d → Thread (Session d) → Type 0
  LeavesWith e s t = (s' : Session d) × (t ≡ leaves e s') × (s'.robot_info ≡ s.robot_info)

module _ (d : Double) (j : Json d) (parse : Bytes → Result j.Value) where
  abbrev pub IsTextOf : Bytes → Info d → Type 0
  IsTextOf text info = from_text d j parse text ≡ ok info

module _ (d : Double) (j : Json d) (styled : j.Value → Bytes) (parse : Bytes → Result j.Value)
    (os_send : Bytes → Option ℕ) where
  handle_message-put :
      (text : Bytes) (s : Session d)
      → handle_message d j styled parse os_send (codes "put_robot_info" ++ b',' ∷ text) s
        ≡ do_put_robot_info d j styled parse os_send text s
  unfolding handle_message split_message parse_function find_char call_function
  handle_message-put text s = refl

  handle_message-locations :
      (s : Session d)
      → handle_message d j styled parse os_send (codes "get_robot_locations") s
        ≡ (err (message_exception (codes "get_robot_locations")), s)
  unfolding handle_message split_message parse_function find_char
  handle_message-locations s = refl

  handle_message-location :
      (text : Bytes) (s : Session d)
      → handle_message d j styled parse os_send (codes "post_robot_location, " ++ text) s
        ≡ (err (message_exception (codes "post_robot_location")), s)
  unfolding handle_message split_message parse_function find_char
  handle_message-location text s = refl

  handle_message-IsRequest :
      (m f : Bytes)
      → IsRequest m f
      → (s : Session d)
      → handle_message d j styled parse os_send m s ≡ (err (message_exception f), s)
  handle_message-IsRequest m f locations s = handle_message-locations s
  handle_message-IsRequest m f (location text) s = handle_message-location text s

  -- When a message of the orchestrator comes in on a usable connection, in whatever chunks, the module
  -- throws MessageException, which nothing catches, so it leaves the detached thread. Supposed is that
  -- the message holds no end mark and is shorter than 2 ^ 64 - 2 bytes.
  pub round-IsRequest :
      (m f : Bytes)
      → IsRequest m f
      → (rest : Bytes) (chunks : List Bytes) (s : Session d) → find (codes "|#") (b'|' ∷ m) ≡ none
      → length m + 2 < 2 ^ 64
      → usable s.connection ≡ ok tt
      → s.connection.obuffer ++ concat chunks ≡ frame m ++ rest
      → LeavesWith d (message_exception f) s (round d j styled parse os_send (map got chunks) s)
  unfolding round receive_blocking
  round-IsRequest m f q rest chunks s framable short ready e =
      let r = receive-Delivers m rest chunks s.connection framable short ready e in
      let c : Connection = record s.connection { obuffer = r.left } in
      (
        record s { connection = c },
        rw
            (
              round,
              receive_blocking,
              r.delivered,
              handle_message-IsRequest m f q (record s { connection = c }),
            )
            refl,
        refl,
      )

  -- The messages one after the other, as long as they are handled without an exception.
  unfoldable pub handle_all : List Bytes → Exec (Session d) (Unit {0})
  handle_all [] s = (ok tt, s)
  handle_all (m ∷ ms) s = (handle_message d j styled parse os_send m >> handle_all ms) s

  handle_all-add_all :
      (texts : List Bytes) (infos : List (Info d)) (s : Session d)
      → Each (IsTextOf d j parse) texts infos
      → handle_all (map put texts) s
        ≡ (ok tt, record s { robot_info = add_all d infos s.robot_info })
  unfolding handle_all add_all do_put_robot_info
  handle_all-add_all [] [] s h = refl
  handle_all-add_all [] (info ∷ infos) s h = absurd h
  handle_all-add_all (text ∷ texts) [] s h = absurd h
  handle_all-add_all (text ∷ texts) (info ∷ infos) s (e, h) =
      rw (handle_message-put text s, do_put_robot_info, e)
        (handle_all-add_all texts infos
          (record s { robot_info = insert_or_assign info.id info s.robot_info }) h)

  -- Behind any number of put_robot_info messages whose texts are read as robots, the module that
  -- started with an empty map has under each id the last of these robots with that id.
  pub handle_all-last_with :
      (texts : List Bytes) (infos : List (Info d)) (s : Session d)
      → s.robot_info ≡ []
      → Each (IsTextOf d j parse) texts infos
      → (k : ℤ)
      → info_at d (handle_all (map put texts) s).1.robot_info k
        ≡ or_out_of_range d (last_with d k infos)
  unfolding info_map
  handle_all-last_with texts infos s empty h k =
      rw (handle_all-add_all texts infos s h, empty) (info_at-info_map d k infos)
