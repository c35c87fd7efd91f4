-- ===== src/PortDiscovery/Errors.antt =====
-- port_discovery/src/port_service.cpp: messages that are no request.
use p7_kode.Base.{ℕ, ◌≡◌, ◌∙◌, ap, Option, [], ◌∷◌, ◌++◌, arith, err, out_of_range}
use p7_kode.Base.Text.{Bytes, codes}
use p7_kode.Base.Decimal.{stoi}
use p7_kode.Util.Split.{split, split-pieces, pieces-append, pieces-Lacks, Lacks}
use p7_kode.PortDiscovery.Service.{
  Session, parse_function, reply, dispatch, call_function, handle_message,
}

module _ (os_send : Bytes → Option ℕ) (what : Bytes) where
  -- An id that std::stoi refuses as out of the range of int leaves the thread of a lookup as the
  -- uncaught exception std::out_of_range, for every session, and nothing is sent.
  pub get_robot_out_of_range :
      (a : Bytes) (s : Session)
      → Lacks b',' a
      → stoi a ≡ err out_of_range
      → handle_message os_send what (codes "get_robot" ++ b',' ∷ a) s ≡ (err out_of_range, s)
  unfolding handle_message parse_function call_function dispatch
  get_robot_out_of_range a s h e =
      let parts : split (codes "get_robot" ++ b',' ∷ a) b',' ≡ codes "get_robot" ∷ a ∷ [] =
        split-pieces _ _
        ∙ pieces-append b',' (codes "get_robot") _ (omega arith)
        ∙ ap (◌∷◌ (codes "get_robot")) (pieces-Lacks b',' a h) in
      rw (parts, e)

  reply-robot_map : (m : Bytes) (s : Session) → (reply os_send what m s).1.robot_map ≡ s.robot_map
  unfolding reply
  reply-robot_map m s = ground arith
