-- ===== src/Tcp/Framing.antt =====
-- tcp/src/connection.cpp: what a receiver makes of the frames that a sender writes.
use mathlib.Core.Option
use p7_kode.Base.{
  ℕ, suc, ◌+◌, ◌^◌, ◌≤◌, ◌<◌, ◌≡◌, refl, sym, ap, ◌∙◌, ◌⊎◌, inl, inr, Option, none, some, List, [],
  ◌∷◌, ◌++◌, append_assoc, map, append-nil, arith, ok, Option-cases, length, length-append, take,
  drop, take-length-append, drop-length-append, drop-drop,
}
use p7_kode.Base.Text.{Bytes, find, find_mark, find-length, find-append}
use p7_kode.Tcp.Connection.{
  Connection, usable, append_buffer, end_mark, frame, sub64, parse_message, got, Progress, returns,
  receive_loop, receive,
}

-- Between its two marks the message spells no end mark: the end mark is neither inside it nor made of
-- the start mark's last byte and the message's first.
abbrev pub IsFramable : Bytes → Type 0
IsFramable message = find end_mark (b'|' ∷ message) ≡ none

-- The first end mark in a buffer that begins with the frame of a framable message.
find-frame :
    (m rest : Bytes) → IsFramable m → find end_mark (frame m ++ rest) ≡ some (suc (suc (length m)))
unfolding find
find-frame m rest h =
    let marked : find end_mark ((b'|' ∷ m) ++ (end_mark ++ rest)) ≡ some (suc (length m)) =
      find_mark (b'|' ∷ m) rest h in
    let regroup : m ++ end_mark ++ rest ≡ m ++ (end_mark ++ rest) = append_assoc m end_mark rest in
    rw regroup (ap (Option.map suc) marked)

sub64-suc : (n : ℕ) → n + 2 < 2 ^ 64 → sub64 (suc (suc n)) 2 ≡ n
sub64-suc n h = omega arith

take-frame : (m rest : Bytes) → take (length m) (m ++ end_mark ++ rest) ≡ m
take-frame m rest = rw append_assoc (take-length-append m (end_mark ++ rest))

drop-frame : (m rest : Bytes) → drop (length m) (m ++ end_mark ++ rest) ≡ b'|' ∷ b'#' ∷ rest
drop-frame m rest = rw append_assoc (drop-length-append m (end_mark ++ rest))

drop-frame_whole : (m rest : Bytes) → drop (suc (suc (length m)) + 2) (frame m ++ rest) ≡ rest
drop-frame_whole m rest =
    let e : suc (suc (length m)) + 2 ≡ suc (suc (length m + 2)) = omega arith in
    rw (e, ← drop-drop 2 (length m) (m ++ end_mark ++ rest), drop-frame)

-- A buffer that begins with the frame of a framable message, shorter than 2^64 - 2 bytes, is parsed
-- as that message, and what stands behind the frame stays in the buffer.
pub parse_message-frame :
    (m rest : Bytes) (c : Connection)
    → IsFramable m
    → length m + 2 < 2 ^ 64
    → c.obuffer ≡ frame m ++ rest
    → parse_message c ≡ (ok (some m), record c { obuffer = rest })
unfolding parse_message find
parse_message-frame m rest c h fits e =
    rw (e, find-frame m rest h)
      (rw (sub64-suc (length m) fits, take-frame m rest, drop-frame_whole m rest))

append-split :
    (x y b r : Bytes)
    → b ++ r ≡ x ++ y
    → length x ≤ length b
    → (b' : Bytes) × ((b ≡ x ++ b') × (b' ++ r ≡ y))
append-split [] y b r e h = (b, (refl, e))
append-split (c ∷ x) y [] r e h = absurd (omega arith)
append-split (c ∷ x) y (d ∷ b) r e h =
    let (b', rest) = append-split x y b r (ground arith) (omega arith) in
    let same : d ≡ c = ground arith in (b', (rw (same, rest.0), rest.1))

-- What the chunks of a stream hold.
abbrev pub concat : List Bytes → Bytes
concat [] = []
concat (b ∷ bs) = b ++ concat bs

-- The call returns `m`, and then the buffer and the chunks not yet received hold `rest`.
pub record Delivers (m rest : Bytes) (c : Connection) (p : Progress (Option Bytes)) : Type 0 where
  pub left : Bytes
  pub later : List Bytes
  pub delivered : p ≡ returns (ok (some m)) (record c { obuffer = left }) (map got later)
  pub remaining : left ++ concat later ≡ rest

-- A buffer is a first part of a stream that begins with a frame: it has no end mark yet, or holds
-- the whole frame.
frame-cases :
    (m rest b r : Bytes)
    → IsFramable m
    → b ++ r ≡ frame m ++ rest
    → (find end_mark b ≡ none) ⊎ ((b' : Bytes) × ((b ≡ frame m ++ b') × (b' ++ r ≡ rest)))
frame-cases m rest b r h e = elim (Option-cases (find end_mark b)) [
  | inl missing ↦ inl missing
  | inr (k, found) ↦
      let whole : find end_mark (frame m ++ rest) ≡ some k =
        rw (← e) (find-append end_mark b r k found) in
      let place : some (suc (suc (length m))) ≡ some k = sym (find-frame m rest h) ∙ whole in
      let size : length (frame m) ≤ length b =
        ground (arith, find-length end_mark b k found, place, length-append m end_mark) in
      inr (append-split (frame m) rest b r e size)
]

pub parse_message-none :
    (c : Connection) → find end_mark c.obuffer ≡ none → parse_message c ≡ (ok none, c)
unfolding parse_message
parse_message-none c e = rw (e, parse_message)

Delivers-append :
    {m rest : Bytes} {c : Connection} {p : Progress (Option Bytes)} (b : Bytes)
    → Delivers m rest (append_buffer b c) p
    → Delivers m rest c p
Delivers-append b d = record {
  left = d.left;
  later = d.later;
  delivered = d.delivered;
  remaining = d.remaining;
}

receive_loop-Delivers :
    (m rest : Bytes) (chunks : List Bytes) (c : Connection)
    → IsFramable m
    → length m + 2 < 2 ^ 64
    → find end_mark c.obuffer ≡ none
    → c.obuffer ++ concat chunks ≡ frame m ++ rest
    → Delivers m rest c (receive_loop (map got chunks) c)
unfolding receive_loop
receive_loop-Delivers m rest [] c h fits missing e =
    let stream : c.obuffer ≡ frame m ++ rest = sym (append-nil c.obuffer) ∙ e in
    let found : find end_mark c.obuffer ≡ some (suc (suc (length m))) =
      rw stream (find-frame m rest h) in
    absurd (cc (missing, found))
receive_loop-Delivers m rest (b ∷ bs) c h fits missing e =
    let c' = append_buffer b c in
    let stream : c'.obuffer ++ concat bs ≡ frame m ++ rest =
      append_assoc c.obuffer b (concat bs) ∙ e in
    elim (frame-cases m rest c'.obuffer (concat bs) h stream) [
      | inl more ↦
          rw (parse_message-none c' more)
            (Delivers-append b (receive_loop-Delivers m rest bs c' h fits more stream))
      | inr (left, (whole, remaining)) ↦
          rw (parse_message-frame m left c' h fits whole)
            (record { left = left; later = bs; delivered = refl; remaining = remaining })
    ]

-- However a stream that begins with the frame of a framable message (of fewer than 2^64 - 2 bytes) is
-- cut into received chunks, `receive` on a usable connection returns that message, and the rest of the
-- stream stays for later calls.
pub receive-Delivers :
    (m rest : Bytes) (chunks : List Bytes) (c : Connection)
    → IsFramable m
    → length m + 2 < 2 ^ 64
    → usable c ≡ ok tt
    → c.obuffer ++ concat chunks ≡ frame m ++ rest
    → Delivers m rest c (receive (map got chunks) c)
unfolding receive
receive-Delivers m rest chunks c h fits ready e =
    elim (frame-cases m rest c.obuffer (concat chunks) h e) [
      | inl more ↦
          rw (ready, receive, parse_message-none c more)
            (receive_loop-Delivers m rest chunks c h fits more e)
      | inr (left, (whole, remaining)) ↦
          rw (ready, receive, parse_message-frame m left c h fits whole)
            (record { left = left; later = chunks; delivered = refl; remaining = remaining })
    ]
