-- ===== src/Webot/Server/Requests.antt =====
-- webot/controllers/waypoints_runner/webots_server.cpp: what `get_messages` reads and answers.
use p7_kode.Base.{
  ℕ, ◌≡◌, ◌≢◌, refl, ap, ◌∙◌, true, false, Option, some, List, [], ◌∷◌, ◌++◌, ◌⊎◌, inl, inr,
  Bool-cases, ok, take-length-append, append_assoc, append-nil, All,
}
use p7_kode.Base.Text.{Bytes, codes, find_char, bytes_eq, bytes_eq_iff}
use p7_kode.Util.Split.{Lacks, find_char-Lacks, find_char-append}
use p7_kode.Tcp.Connection.{send, frame}
use p7_kode.Webot.Server.{
  MessageType, get_state, set_destination, not_understood, Message, Link, prefix, send_message,
  refuse, read_message, messages_loop,
}

-- What a client sends.
pub data Request : Type 0 where
  asks_state : Request
  sets : Bytes → Bytes → Request
  sets_one : Bytes → Request
  other : Bytes → Request

abbrev pub wire : Request → Bytes
wire asks_state = codes "get_state"
wire (sets x y) = codes "set_destination," ++ x ++ b',' ∷ y
wire (sets_one x) = codes "set_destination," ++ x
wire (other raw) = raw

-- No message of the server.
abbrev pub IsUnknown : Bytes → Type 0
IsUnknown raw =
    (Lacks b',' raw × (raw ≢ codes "get_state"))
    ⊎ ((kind : Bytes) × (rest : Bytes) × (raw ≡ kind ++ b',' ∷ rest)
        × Lacks b',' kind
        × (kind ≢ codes "set_destination"))

-- The answers that get_messages gives, and the messages it returns.
abbrev pub refusals : List Request → List Bytes
refusals [] = []
refusals (other raw ∷ requests) = (codes "not_understood," ++ raw) ∷ refusals requests
refusals (request ∷ requests) = refusals requests

abbrev pub understood : List Request → List Message
understood [] = []
understood (asks_state ∷ requests) =
    record { payload = codes "get_state"; type = get_state } ∷ understood requests
understood (sets x y ∷ requests) =
    record { payload = x ++ b',' ∷ y; type = set_destination } ∷ understood requests
understood (sets_one x ∷ requests) =
    record { payload = x; type = set_destination } ∷ understood requests
understood (other raw ∷ requests) = understood requests

abbrev pub wires : List Request → List Bytes
wires [] = []
wires (request ∷ requests) = wire request ∷ wires requests

module _ (os_send : Bytes → Option ℕ) (sends : (s : Bytes) → (n : ℕ) × (os_send s ≡ some n)) where
  -- The connection can be used.
  abbrev pub IsUsable : Link → Type 0
  IsUsable l = (l.client.ready ≡ true) × (l.client.is_open ≡ true)

  abbrev pub answered : Bytes → Link → Link
  answered payload l = record l { sent = l.sent ++ payload ∷ [] }

  pub send_message-answered :
      (payload : Bytes) (type : MessageType) (l : Link)
      → IsUsable l
      → send_message os_send (record { payload = payload; type = type }) l
        ≡ (ok tt, answered (prefix type ++ payload) l)
  unfolding send_message send
  send_message-answered payload type l (ready, is_open) =
      let (n, e) = sends (frame (prefix type ++ payload)) in rw (ready, is_open, e) refl

  refused :
      (raw : Bytes) (messages : List Message) (l : Link)
      → IsUsable l
      → refuse os_send raw messages l ≡ (ok messages, answered (codes "not_understood," ++ raw) l)
  unfolding prefix
  refused raw messages l u = rw (send_message-answered raw not_understood l u) refl

  not_equal : (s t : Bytes) → s ≢ t → bytes_eq s t ≡ false
  not_equal s t ne = elim (Bool-cases (bytes_eq s t)) [
    | inl e ↦ absurd (ne ((bytes_eq_iff s t).0 e))
    | inr e ↦ e
  ]

  read_message-unknown :
      (raw : Bytes) (messages : List Message) (l : Link)
      → IsUsable l
      → IsUnknown raw
      → read_message os_send raw messages l
        ≡ (ok messages, answered (codes "not_understood," ++ raw) l)
  unfolding read_message
  read_message-unknown raw messages l u (inl (lacks, ne)) =
      rw (read_message, find_char-Lacks b',' raw lacks, not_equal raw (codes "get_state") ne)
        (refused raw messages l u)
  read_message-unknown raw messages l u (inr (kind, rest, e, lacks, ne)) = rw e (
      rw
        (
          read_message,
          find_char-append b',' kind rest lacks,
          take-length-append kind (b',' ∷ rest),
          not_equal kind (codes "set_destination") ne,
        )
        (refused (kind ++ b',' ∷ rest) messages l u))

  read_message-set :
      (payload : Bytes) (messages : List Message) (l : Link)
      → read_message os_send (codes "set_destination," ++ payload) messages l
        ≡ (ok (messages ++ record { payload = payload; type = set_destination } ∷ []), l)
  unfolding read_message find_char
  read_message-set payload messages l = refl

  read_message-get :
      (messages : List Message) (l : Link)
      → read_message os_send (codes "get_state") messages l
        ≡ (ok (messages ++ record { payload = codes "get_state"; type = get_state } ∷ []), l)
  unfolding read_message find_char
  read_message-get messages l = refl

  module _ (stod_reads : Bytes → Type 0) where
    -- The texts of a destination are read by std::stod; there is no comma but that between them.
    abbrev pub IsRequest : Request → Type 0
    IsRequest asks_state = Unit
    IsRequest (sets x y) = Lacks b',' x × stod_reads x × stod_reads y
    IsRequest (sets_one x) = Lacks b',' x
    IsRequest (other raw) = IsUnknown raw

    -- The messages that are understood are returned, and the others refused.
    abbrev pub ReadsAll : List Request → Type 0
    ReadsAll requests =
        (messages : List Message) (l : Link)
        → IsUsable l
        → messages_loop os_send (wires requests) messages l
          ≡ (ok (messages ++ understood requests), record l { sent = l.sent ++ refusals requests })

    messages_loop_read :
        (raw : Bytes) (message : Message) (requests : List Request) (messages : List Message)
        (l : Link)
        → IsUsable l
        → read_message os_send raw messages l ≡ (ok (messages ++ message ∷ []), l)
        → ReadsAll requests
        → messages_loop os_send (raw ∷ wires requests) messages l ≡ (
          ok (messages ++ message ∷ understood requests),
          record l { sent = l.sent ++ refusals requests },
        )
    unfolding messages_loop
    messages_loop_read raw message requests messages l u e later = rw e (
        later (messages ++ message ∷ []) l u
        ∙ ap (λ z. (ok z, record l { sent = l.sent ++ refusals requests }))
            (append_assoc messages (message ∷ []) (understood requests)))

    messages_loop_refuse :
        (raw : Bytes) (requests : List Request) (messages : List Message) (l : Link)
        → IsUsable l
        → IsUnknown raw
        → ReadsAll requests
        → messages_loop os_send (raw ∷ wires requests) messages l ≡ (
          ok (messages ++ understood requests),
          record l { sent = l.sent ++ (codes "not_understood," ++ raw) ∷ refusals requests },
        )
    unfolding messages_loop
    messages_loop_refuse raw requests messages l u h later =
        rw (read_message-unknown raw messages l u h) (
          later messages (answered (codes "not_understood," ++ raw) l) u
          ∙ ap (λ z. (ok (messages ++ understood requests), record l { sent = z }))
              (append_assoc l.sent ((codes "not_understood," ++ raw) ∷ []) (refusals requests)))

    pub messages_loop-wires : (requests : List Request) → All IsRequest requests → ReadsAll requests
    messages_loop-wires [] h =
        λ messages l u. unfold messages_loop in rw (append-nil messages, append-nil l.sent) refl
    messages_loop-wires (asks_state ∷ requests) (h, hs) = λ messages l u.
        messages_loop_read (codes "get_state") _ requests messages l u (read_message-get messages l)
          (messages_loop-wires requests hs)
    messages_loop-wires (sets x y ∷ requests) (h, hs) = λ messages l u.
        messages_loop_read (wire (sets x y)) _ requests messages l u
          (read_message-set (x ++ b',' ∷ y) messages l) (messages_loop-wires requests hs)
    messages_loop-wires (sets_one x ∷ requests) (h, hs) = λ messages l u.
        messages_loop_read (wire (sets_one x)) _ requests messages l u
          (read_message-set x messages l) (messages_loop-wires requests hs)
    messages_loop-wires (other raw ∷ requests) (h, hs) = λ messages l u.
        messages_loop_refuse raw requests messages l u h (messages_loop-wires requests hs)
