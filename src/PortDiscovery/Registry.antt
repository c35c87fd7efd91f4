-- ===== src/PortDiscovery/Registry.antt =====
-- port_discovery/src/port_service.cpp against a registry that is a function from ids to ports.
use mathlib.Core.Path.{fun_ext}
use p7_kode.Base.{
  ℕ, zero, suc, ◌≡◌, ◌≢◌, refl, sym, ap, ◌∙◌, Option, none, some, List, [], ◌∷◌, ◌++◌, append-nil,
  append_assoc, map, arith, Result, ok, if◌then◌else◌, All,
}
use p7_kode.Base.Int.{ℤ, eqb_ℤ, InInt}
use p7_kode.Base.Text.{Bytes, codes}
use p7_kode.Base.Decimal.{to_string, stoi-to_string, to_string-All}
use p7_kode.Base.IntMap.{lookup, insert, erase, lookup-insert, lookup-erase}
use p7_kode.Util.Split.{split, split-pieces, pieces-append, pieces-Lacks, Lacks}
use p7_kode.Tcp.Connection.{Connection, usable, frame, send}
use p7_kode.PortDiscovery.Service.{
  Session, add_robot, get_robot, remove_robot, c_str, parse_function, reply, do_add_robot,
  do_get_robot, do_remove_robot, port_of, dispatch, call_function, handle_message,
}

pub data Request : Type 0 where
  add : ℤ → ℤ → Request
  get remove : ℤ → Request

-- The message of a request.
abbrev pub text : Request → Bytes
text (add id port) = codes "add_robot" ++ b',' ∷ (to_string id ++ b',' ∷ to_string port)
text (get id) = codes "get_robot" ++ b',' ∷ to_string id
text (remove id) = codes "remove_robot" ++ b',' ∷ to_string id

abbrev pub IsInt : Request → Type 0
IsInt (add id port) = InInt id × InInt port
IsInt (get id) = InInt id
IsInt (remove id) = InInt id

abbrev pub Registry : Type 0
Registry = ℤ → Option ℤ

abbrev pub port_reply : ℤ → Option ℤ → Bytes
port_reply id (some port) = to_string port
port_reply id none = codes "No robot with Id " ++ to_string id

abbrev pub add_step : ℤ → ℤ → Registry → Option ℤ → Registry × List Bytes
add_step id port r none = (λ j. if eqb_ℤ id j then some port else r j, [])
add_step id port r (some _) =
    (r, (codes "Tried to add robot, but the id was already in the map. Id: " ++ to_string id) ∷ [])

-- The registry after a request, and the replies to it: an id is added once, a lookup is answered, and
-- a removal is silent.
abbrev pub step : Request → Registry → Registry × List Bytes
step (add id port) r = add_step id port r (r id)
step (get id) r = (r, port_reply id (r id) ∷ [])
step (remove id) r = (λ j. if eqb_ℤ id j then none else r j, [])

abbrev pub history : List Request → Registry → Registry × List Bytes
history [] r = (r, [])
history (q ∷ qs) r =
    let next = step q r in let later = history qs next.0 in (later.0, next.1 ++ later.1)

abbrev pub view : Session → Registry
view s j = lookup j s.robot_map

-- The session ends a request without an exception, as the registry says.
pub record Serves (s : Session) (q : Request) (r : Result (Unit {0}) × Session) : Type 0 where
  pub returns : r.0 ≡ ok tt
  pub registered : view r.1 ≡ (step q (view s)).0
  pub replied : r.1.replies ≡ s.replies ++ (step q (view s)).1
  pub connected : r.1.connection ≡ s.connection

to_string-Lacks : (z : ℤ) → Lacks b',' (to_string z)
to_string-Lacks z = to_string-All z (ground arith) (λ c h. ground arith)

c_str-All : (s : Bytes) → All (λ c. c ≢ 0) s → c_str s ≡ s
unfolding c_str
c_str-All [] h = refl
c_str-All (zero ∷ s) h = absurd (h.0 refl)
c_str-All (suc c ∷ s) h = ap (◌∷◌ (suc c)) (c_str-All s h.1)

c_str-to_string : (z : ℤ) → c_str (to_string z) ≡ to_string z
c_str-to_string z = c_str-All _ (to_string-All z (ground arith) (λ c h. ground arith))

abbrev parts : Request → List Bytes
parts (add id port) = codes "add_robot" ∷ to_string id ∷ to_string port ∷ []
parts (get id) = codes "get_robot" ∷ to_string id ∷ []
parts (remove id) = codes "remove_robot" ∷ to_string id ∷ []

split-text : (q : Request) → split (text q) b',' ≡ parts q
split-text (add id port) =
    split-pieces _ _
    ∙ pieces-append b',' (codes "add_robot") _ (omega arith)
    ∙ ap (◌∷◌ (codes "add_robot")) (
        pieces-append b',' (to_string id) _ (to_string-Lacks id)
        ∙ ap (◌∷◌ (to_string id)) (pieces-Lacks b',' _ (to_string-Lacks port)))
split-text (get id) =
    split-pieces _ _
    ∙ pieces-append b',' (codes "get_robot") _ (omega arith)
    ∙ ap (◌∷◌ (codes "get_robot")) (pieces-Lacks b',' _ (to_string-Lacks id))
split-text (remove id) =
    split-pieces _ _
    ∙ pieces-append b',' (codes "remove_robot") _ (omega arith)
    ∙ ap (◌∷◌ (codes "remove_robot")) (pieces-Lacks b',' _ (to_string-Lacks id))

abbrev already : ℤ → Bytes
already id = codes "Tried to add robot, but the id was already in the map. Id: " ++ to_string id

abbrev added : ℤ → ℤ → Session → Option ℤ → Session
added id port s none = record s { robot_map = insert id port s.robot_map }
added id port s (some _) = record s { replies = s.replies ++ already id ∷ [] }

abbrev answered : ℤ → Session → Option ℤ → Session
answered id s o = record s { replies = s.replies ++ port_reply id o ∷ [] }

abbrev after : Request → Session → Session
after (add id port) s = added id port s (lookup id s.robot_map)
after (get id) s = answered id s (lookup id s.robot_map)
after (remove id) s = record s { robot_map = erase id s.robot_map }

-- The connection can send, and ::send takes every message.
pub record CanSend (os_send : Bytes → Option ℕ) (c : Connection) : Type 0 where
  pub ready : usable c ≡ ok tt
  pub takes : (b : Bytes) → (n : ℕ) × (os_send b ≡ some n)

added-Serves :
    (id port : ℤ) (s : Session) (o : Option ℤ)
    → lookup id s.robot_map ≡ o
    → Serves s (add id port) (ok tt, added id port s o)
added-Serves id port s none e = record {
  returns = refl;
  registered = rw e (fun_ext λ j. lookup-insert id j port s.robot_map e);
  replied = rw e (sym (append-nil s.replies));
  connected = refl;
}
added-Serves id port s (some p) e = record {
  returns = refl;
  registered = rw e refl;
  replied = rw e refl;
  connected = refl;
}

after-Serves : (q : Request) (s : Session) → Serves s q (ok tt, after q s)
after-Serves (add id port) s = added-Serves id port s _ refl
after-Serves (get id) s = record {
  returns = refl;
  registered = refl;
  replied = refl;
  connected = refl;
}
after-Serves (remove id) s = record {
  returns = refl;
  registered = fun_ext λ j. lookup-erase id j s.robot_map;
  replied = sym (append-nil s.replies);
  connected = refl;
}

module _ (os_send : Bytes → Option ℕ) (what : Bytes) where
  reply_sent :
      (m : Bytes) (s : Session)
      → CanSend os_send s.connection
      → reply os_send what m s ≡ (ok tt, record s { replies = s.replies ++ m ∷ [] })
  unfolding reply send
  reply_sent m s can = let (n, e) = can.takes (frame m) in rw (can.ready, reply, e)

  call_add :
      (id port : ℤ) (s : Session) (o : Option ℤ)
      → InInt id
      → InInt port
      → CanSend os_send s.connection
      → lookup id s.robot_map ≡ o
      → call_function os_send what add_robot (parts (add id port)) s ≡ (ok tt, added id port s o)
  unfolding call_function dispatch do_add_robot
  call_add id port s none h k can e =
      rw (stoi-to_string id h, stoi-to_string port k, e, do_add_robot) refl
  call_add id port s (some p) h k can e =
      rw (stoi-to_string id h, stoi-to_string port k, e, do_add_robot)
        (rw c_str-to_string (reply_sent _ s can))

  get-answered :
      (id : ℤ) (s : Session) (o : Option ℤ)
      → CanSend os_send s.connection
      → lookup id s.robot_map ≡ o
      → do_get_robot os_send what id s ≡ (ok tt, answered id s o)
  unfolding do_get_robot
  get-answered id s none can e = rw (e, do_get_robot, port_of, reply_sent _ s can)
  get-answered id s (some p) can e = rw (e, do_get_robot, port_of, reply_sent _ s can)

  call_get :
      (id : ℤ) (s : Session)
      → InInt id
      → CanSend os_send s.connection
      → call_function os_send what get_robot (parts (get id)) s ≡ (ok tt, after (get id) s)
  unfolding call_function dispatch
  call_get id s h can = rw (stoi-to_string id h, get-answered id s _ can refl)

  call_remove :
      (id : ℤ) (s : Session)
      → InInt id
      → call_function os_send what remove_robot (parts (remove id)) s ≡ (ok tt, after (remove id) s)
  unfolding call_function dispatch do_remove_robot
  call_remove id s h = rw (stoi-to_string id h)

  -- A message that asks for `q` ends without an exception in the session `after q s`.
  handle_text :
      (q : Request) (s : Session)
      → IsInt q
      → CanSend os_send s.connection
      → handle_message os_send what (text q) s ≡ (ok tt, after q s)
  unfolding handle_message parse_function
  handle_text (add id port) s h can =
      rw (split-text (add id port), call_add id port s _ h.0 h.1 can refl) refl
  handle_text (get id) s h can = rw (split-text (get id), call_get id s h can) refl
  handle_text (remove id) s h can = rw (split-text (remove id), call_remove id s h) refl

  -- On a connection that can send, the message of any request with 32-bit ids and ports is handled as
  -- the registry says: no exception leaves the handler, an id that is registered is not registered
  -- again, lookups are answered from the registry, and the replies sent are exactly the registry's.
  pub handle_message-Serves :
      (q : Request) (s : Session)
      → IsInt q
      → CanSend os_send s.connection
      → Serves s q (handle_message os_send what (text q) s)
  handle_message-Serves q s h can = rw (handle_text q s h can) (after-Serves q s)

  -- The handlers of several threads, in the order in which they reach the robot map.
  pub handle_all : List Bytes → Session → Session
  handle_all [] s = s
  handle_all (m ∷ ms) s = handle_all ms (handle_message os_send what m s).1

  -- After any sequence of requests with 32-bit ids and ports, the robot map is the registry that
  -- these requests make of the registry before them, and all replies are the registry's, in order.
  pub handle_all-history :
      (qs : List Request) (s : Session)
      → All IsInt qs
      → CanSend os_send s.connection
      → (view (handle_all (map text qs) s) ≡ (history qs (view s)).0)
        × ((handle_all (map text qs) s).replies ≡ s.replies ++ (history qs (view s)).1)
  unfolding handle_all
  handle_all-history [] s h can = (refl, sym (append-nil s.replies))
  handle_all-history (q ∷ qs) s h can =
      let served = handle_message-Serves q s h.0 can in
      let s' = (handle_message os_send what (text q) s).1 in
      let can' : CanSend os_send s'.connection = rw served.connected can in
      let later = handle_all-history qs s' h.1 can' in
      (
        later.0 ∙ rw served.registered,
        later.1 ∙ rw (served.registered, served.replied, append_assoc),
      )
