-- ===== src/Tcp/Faults.antt =====
-- tcp/src/connection.cpp: messages that are not framed right, and a peer that has closed.
use p7_kode.Base.{
  ℕ, zero, suc, ◌-◌, ◌^◌, ◌≤◌, ◌<◌, ◌≡◌, refl, none, some, [], ◌∷◌, ◌++◌, append-nil, arith, ok,
  length, take_all, replicate,
}
use p7_kode.Base.Text.{Bytes, find}
use p7_kode.Tcp.Connection.{
  Connection, usable, frame, end_mark, parse_message, got, waits, receive_loop, receive,
}
use p7_kode.Tcp.Framing.{parse_message-none}

-- A message that begins with '#' is not received as it was sent: the start mark's last byte and the
-- '#' are taken for the end mark, so the whole buffer behind the start mark is returned as the message,
-- and the buffer is left in the middle of the frame. (For buffers shorter than 2^64 bytes.)
pub parse_message-hash :
    (m rest : Bytes) (c : Connection)
    → c.obuffer ≡ frame (b'#' ∷ m) ++ rest
    → length c.obuffer < 2 ^ 64
    → parse_message c
      ≡ (ok (some (b'#' ∷ (m ++ end_mark ++ rest))), record c { obuffer = m ++ end_mark ++ rest })
unfolding parse_message find
parse_message-hash m rest c e fits =
    let short : length (b'#' ∷ b'|' ∷ b'#' ∷ (m ++ end_mark ++ rest)) < 2 ^ 64 = rw e at fits in
    let whole : length (b'#' ∷ (m ++ end_mark ++ rest)) ≤ 2 ^ 64 - 1 = omega arith in
    rw (e, take_all (2 ^ 64 - 1) (b'#' ∷ (m ++ end_mark ++ rest)) whole)

receive_loop_eof :
    (n : ℕ) (c : Connection)
    → find end_mark c.obuffer ≡ none
    → receive_loop (replicate n (got [])) c ≡ waits c
unfolding receive_loop
receive_loop_eof zero c e = refl
receive_loop_eof (suc n) c e = rw (append-nil, parse_message-none c e) (receive_loop_eof n c e)

-- When the peer has closed and ::recv returns 0 bytes from then on, `receive` on a usable connection
-- whose buffer has no end mark does not return, however many times ::recv is called.
pub receive_eof :
    (n : ℕ) (c : Connection)
    → usable c ≡ ok tt
    → find end_mark c.obuffer ≡ none
    → receive (replicate n (got [])) c ≡ waits c
unfolding receive
receive_eof n c ready e = rw (ready, receive, parse_message-none c e) (receive_loop_eof n c e)
