-- ===== src/Webot/Simulation/Answers.antt =====
-- webot/controllers/waypoints_runner/robot.cpp: what `communicate` answers.
use p7_kode.Base.{
  ℕ, ◌≡◌, refl, ap, ◌∙◌, Option, some, List, [], ◌∷◌, ◌++◌, Result, ok, take-length-append,
  append_assoc, append-nil, All, if◌then◌else◌,
}
use p7_kode.Base.Text.{Bytes, codes}
use p7_kode.Base.Double.{Double}
use p7_kode.Util.Split.{Lacks, drop_comma, find_char-Lacks, find_char-append}
use p7_kode.Webot.Geo.{GlobalPoint}
use p7_kode.Webot.Controller.{Controller}
use p7_kode.Webot.Server.{get_state, set_destination, not_understood, Message, prefix, get_messages}
use p7_kode.Webot.Server.Requests.{
  Request, asks_state, sets, sets_one, other, wires, refusals, understood, IsUsable, IsRequest,
  answered, send_message-answered, messages_loop-wires,
}
use p7_kode.Webot.Simulation.{Robot, state_text, handle, handle_all, communicate}

module _ (d : Double) (stod : Bytes → Result d.Carrier) (text : d.Carrier → Bytes)
    (os_send : Bytes → Option ℕ) (sends : (s : Bytes) → (n : ℕ) × (os_send s ≡ some n))
    (value_of : Bytes → d.Carrier) where
  -- std::stod reads this value.
  abbrev pub IsRead : Bytes → Type 0
  IsRead s = stod s ≡ ok (value_of s)

  -- The position of the robot and its state, with commas between.
  abbrev pub state_words : Controller d → Bytes
  state_words c =
      let words = if c.is_stopped then codes "stopped" else codes "running" in
      text c.position.x ++ b',' ∷ text c.position.y ++ b',' ∷ words

  state_text-words : (c : Controller d) → state_text d stod text os_send c ≡ state_words c
  unfolding state_text
  state_text-words c = refl

  -- The answers of the switch, in the state of the controller.
  abbrev pub replies : Controller d → List Request → List Bytes
  replies c [] = []
  replies c (asks_state ∷ requests) = (codes "get_state," ++ state_words c) ∷ replies c requests
  replies c (sets_one x ∷ requests) = (codes "not_understood," ++ x) ∷ replies c requests
  replies c (request ∷ requests) = replies c requests

  -- The destination that was set last.
  abbrev pub destined : Option (GlobalPoint d) → List Request → Option (GlobalPoint d)
  destined point [] = point
  destined point (sets x y ∷ requests) =
      destined (some (record { x = value_of x; y = value_of y })) requests
  destined point (request ∷ requests) = destined point requests

  abbrev replied : Bytes → Robot d → Robot d
  replied payload r = record r { link = answered os_send sends payload r.link }

  handle-get :
      (payload : Bytes) (r : Robot d)
      → IsUsable os_send sends r.link
      → handle d stod text os_send (record { payload = payload; type = get_state }) r
        ≡ (ok tt, replied (codes "get_state," ++ state_words r.controller) r)
  unfolding handle prefix
  handle-get payload r u =
      rw (handle, state_text-words r.controller)
        (ap (λ z. (z.0, record r { link = z.1 }))
          (send_message-answered os_send sends (state_words r.controller) get_state r.link u))

  handle-one :
      (x : Bytes) (r : Robot d)
      → IsUsable os_send sends r.link
      → Lacks b',' x
      → handle d stod text os_send (record { payload = x; type = set_destination }) r
        ≡ (ok tt, replied (codes "not_understood," ++ x) r)
  unfolding handle prefix
  handle-one x r u lacks =
      rw (handle, find_char-Lacks b',' x lacks)
        (ap (λ z. (z.0, record r { link = z.1 }))
          (send_message-answered os_send sends x not_understood r.link u))

  handle-set :
      (x y : Bytes) (r : Robot d)
      → Lacks b',' x
      → IsRead x
      → IsRead y
      → handle d stod text os_send (record { payload = x ++ b',' ∷ y; type = set_destination }) r
        ≡ (ok tt, record r { destination = some (record { x = value_of x; y = value_of y }) })
  unfolding handle
  handle-set x y r lacks first second =
      rw
        (
          handle,
          find_char-append b',' x y lacks,
          take-length-append x (b',' ∷ y),
          first,
          drop_comma x y,
          second,
        )
        refl

  handle_all_next :
      (message : Message) (messages : List Message) (r r' : Robot d)
      → handle d stod text os_send message r ≡ (ok tt, r')
      → handle_all d stod text os_send (message ∷ messages) r
        ≡ handle_all d stod text os_send messages r'
  unfolding handle_all
  handle_all_next message messages r r' e = rw e refl

  -- The robot behind the requests: the answers were sent, and the last destination is set.
  abbrev served : List Request → Robot d → Robot d
  served requests r = record r {
    link = record r.link { sent = r.link.sent ++ replies r.controller requests };
    destination = destined r.destination requests;
  }

  sent_first :
      (payload : Bytes) (answers : List Bytes) (point : Option (GlobalPoint d)) (r : Robot d)
      → ◌≡◌ {A = Result (Unit {0}) × Robot d}
          (
            ok tt,
            record r {
              link = record r.link { sent = r.link.sent ++ payload ∷ [] ++ answers };
              destination = point;
            },
          )
          (
            ok tt,
            record r {
              link = record r.link { sent = r.link.sent ++ payload ∷ answers };
              destination = point;
            },
          )
  sent_first payload answers point r =
      ap (λ z. (ok tt, record r { link = record r.link { sent = z }; destination = point }))
        (append_assoc r.link.sent (payload ∷ []) answers)

  handle_none : (r : Robot d) → handle_all d stod text os_send [] r ≡ (ok tt, served [] r)
  unfolding handle_all
  handle_none r = rw (append-nil r.link.sent) refl

  handle_all-understood :
      (requests : List Request) (r : Robot d)
      → IsUsable os_send sends r.link
      → All (IsRequest os_send sends IsRead) requests
      → handle_all d stod text os_send (understood requests) r ≡ (ok tt, served requests r)
  handle_all-understood [] r u h = handle_none r
  handle_all-understood (asks_state ∷ requests) r u (h, hs) =
      let answer = codes "get_state," ++ state_words r.controller in
      handle_all_next _ (understood requests) r (replied answer r)
        (handle-get (codes "get_state") r u)
      ∙ handle_all-understood requests (replied answer r) u hs
      ∙ sent_first answer (replies r.controller requests) (destined r.destination requests) r
  handle_all-understood (sets x y ∷ requests) r u ((lacks, first, second), hs) =
      let there = record r { destination = some (record { x = value_of x; y = value_of y }) } in
      handle_all_next _ (understood requests) r there (handle-set x y r lacks first second)
      ∙ handle_all-understood requests there u hs
  handle_all-understood (sets_one x ∷ requests) r u (h, hs) =
      let answer = codes "not_understood," ++ x in
      handle_all_next _ (understood requests) r (replied answer r) (handle-one x r u h)
      ∙ handle_all-understood requests (replied answer r) u hs
      ∙ sent_first answer (replies r.controller requests) (destined r.destination requests) r
  handle_all-understood (other raw ∷ requests) r u (h, hs) = handle_all-understood requests r u hs

  -- On a connection that is ready and open and where ::send does not fail, and for texts of
  -- destinations that std::stod reads, communicate handles every message that came: first the unknown
  -- ones are sent back as not understood, and then, in the order of the messages, get_state is answered
  -- with the position and the state, a set_destination without a second number is sent back, and any
  -- other set_destination sets the destination, which the last one determines.
  pub communicate-wires :
      (requests : List Request) (r : Robot d)
      → IsUsable os_send sends r.link
      → All (IsRequest os_send sends IsRead) requests
      → communicate d stod text os_send (wires requests) r ≡ (
        ok tt,
        record r {
          link = record r.link {
            sent = (r.link.sent ++ refusals requests) ++ replies r.controller requests;
          };
          destination = destined r.destination requests;
        },
      )
  unfolding communicate get_messages
  communicate-wires requests r u h =
      rw (messages_loop-wires os_send sends IsRead requests h [] r.link u) (
        handle_all-understood requests
          (record r { link = record r.link { sent = r.link.sent ++ refusals requests } }) u h)
