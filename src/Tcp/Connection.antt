-- ===== src/Tcp/Connection.antt =====
-- tcp/src/connection.cpp and tcp/include/tcp/connection.hpp: `tcp::Connection`. What the system calls
-- ::send, ::recv and ::close return is given as an argument.
use p7_kode.Base.{
  ℕ, ◌+◌, ◌-◌, ◌%◌, ◌^◌, Bool, true, false, not, ◌||◌, Option, none, some, List, [], ◌∷◌, ◌++◌,
  Result, ok, err, connection_exception, malformed_message, send_exception, receive_exception,
  close_exception, ◌==◌, if◌then◌else◌, take, drop,
}
use p7_kode.Base.Exec.{Exec, ◌>>◌}
use p7_kode.Base.Text.{Bytes, codes, find}

-- `open` is a reserved word: the field is `is_open`.
pub record Connection : Type 0 where
  pub fd : ℕ
  pub obuffer : Bytes
  pub is_open : Bool
  pub ready : Bool

-- Connection(int fd)
abbrev pub connected : ℕ → Connection
connected fd = record { fd = fd; obuffer = []; is_open = true; ready = true }

abbrev pub start_mark : Bytes
start_mark = b'#' ∷ b'|' ∷ []

abbrev pub end_mark : Bytes
end_mark = b'|' ∷ b'#' ∷ []

-- "#|" + message + "|#"
abbrev pub frame : Bytes → Bytes
frame message = start_mark ++ message ++ end_mark

-- The two guards of `send` and `receive`.
abbrev pub usable : Connection → Result (Unit {0})
usable c =
    if not c.ready
    then err (connection_exception (codes "Connection not ready"))
    else if not c.is_open
    then err (connection_exception (codes "Connection not open"))
    else ok tt

abbrev sent : Bytes → Option ℕ → Result ℕ
sent message none = err (send_exception message)
sent message (some bytes) = ok bytes

abbrev lift_usable : Exec Connection (Unit {0})
lift_usable c = (usable c, c)

-- `os_send` is ::send on the socket: the number of bytes, or `none` for -1.
unfoldable pub send : (Bytes → Option ℕ) → Bytes → Exec Connection ℕ
send os_send message = lift_usable >> λ c. (sent message (os_send (frame message)), c)

-- a - b in size_t
abbrev pub sub64 : ℕ → ℕ → ℕ
sub64 a b = (a + 2 ^ 64 - b) % 2 ^ 64

-- start_pos != 0, where `none` is npos
abbrev is_zero : Option ℕ → Bool
is_zero none = false
is_zero (some start_pos) = start_pos == 0

-- The branch in which the end mark was found. The buffer begins with the two bytes of the start mark
-- where `substr` is called, so `substr` does not throw.
abbrev parse_found : Option ℕ → ℕ → Exec Connection (Option Bytes)
parse_found start_pos end_pos c =
    if is_zero start_pos
    then (
      ok (some (take (sub64 end_pos 2) (drop 2 c.obuffer))),
      record c { obuffer = drop (end_pos + 2) c.obuffer },
    )
    else (err (malformed_message c.obuffer), c)

unfoldable pub parse_message : Exec Connection (Option Bytes)
parse_message c = elim (find end_mark c.obuffer) [
  | some end_pos ↦ parse_found (find start_mark c.obuffer) end_pos c
  | none ↦ (ok none, c)
]

-- One result of ::recv: bytes (none of them when the peer has closed), EAGAIN or EWOULDBLOCK, or
-- another errno.
pub data Recv : Type 0 where
  got : Bytes → Recv
  would_block : Recv
  failed : ℕ → Recv

-- What a call comes to, with the results of ::recv that it has not used; it waits if it needs more
-- results than there are, and `aborts` is a failed assert.
pub data Progress (A : Type 0) : Type 0 where
  returns : Result A → Connection → List Recv → Progress A
  waits : Connection → Progress A
  aborts : Progress A

abbrev pub append_buffer : Bytes → Connection → Connection
append_buffer bytes c = record c { obuffer = c.obuffer ++ bytes }

-- What follows a call of `parse_message`; `more` is the next round of the loop.
abbrev after_parse :
    Result (Option Bytes)
    → Connection
    → List Recv
    → Progress (Option Bytes)
    → Progress (Option Bytes)
after_parse (ok none) c rs more = more
after_parse (ok (some message)) c rs more = returns (ok (some message)) c rs
after_parse (err e) c rs more = returns (err e) c rs

-- The `do … while (!message)` loop.
unfoldable pub receive_loop : List Recv → Connection → Progress (Option Bytes)
receive_loop [] c = waits c
receive_loop (would_block ∷ rs) c = returns (ok none) c rs
receive_loop (failed errno ∷ rs) c = returns (err (receive_exception errno)) c rs
receive_loop (got bytes ∷ rs) c =
    let parsed = parse_message (append_buffer bytes c) in
    let more = receive_loop rs parsed.1 in after_parse parsed.0 parsed.1 rs more

-- The flag `blocking` only reaches ::recv, whose results are given.
abbrev if_usable :
    Result (Unit {0}) → List Recv → Connection → Progress (Option Bytes) → Progress (Option Bytes)
if_usable (err e) rs c body = returns (err e) c rs
if_usable (ok _) rs c body = body

unfoldable pub receive : List Recv → Connection → Progress (Option Bytes)
receive rs c =
    let parsed = parse_message c in
    let body = after_parse parsed.0 parsed.1 rs (receive_loop rs parsed.1) in
    if_usable (usable c) rs c body

-- assert(received.has_value())
abbrev has_value : Progress (Option Bytes) → Progress Bytes
has_value (returns (ok (some message)) c rs) = returns (ok message) c rs
has_value (returns (ok none) c rs) = aborts
has_value (returns (err e) c rs) = returns (err e) c rs
has_value (waits c) = waits c
has_value aborts = aborts

unfoldable pub receive_blocking : List Recv → Connection → Progress Bytes
receive_blocking rs c = has_value (receive rs c)

unfoldable pub receive_nonblocking : List Recv → Connection → Progress (Option Bytes)
receive_nonblocking rs c = receive rs c

unfoldable pub set_fd : ℕ → Connection → Connection
set_fd fd c = record c { fd = fd; ready = true }

unfoldable pub closed : Connection → Bool
closed c = not c.ready || not c.is_open

-- `os_close` is ::close: false for -1.
unfoldable pub close : (ℕ → Bool) → Exec Connection (Unit {0})
close os_close c =
    if not c.is_open
    then (ok tt, c)
    else if not (os_close c.fd)
    then (err close_exception, c)
    else (ok tt, record c { is_open = false })

-- ~Connection()
unfoldable pub destroy : (ℕ → Bool) → Exec Connection (Unit {0})
destroy os_close c = if c.is_open then close os_close c else (ok tt, c)
