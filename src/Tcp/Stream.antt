-- ===== src/Tcp/Stream.antt =====
-- tcp/src/connection.cpp: a sequence of messages over one connection.
use p7_kode.Base.{
  ℕ, zero, suc, ◌+◌, ◌^◌, ◌<◌, ◌≡◌, refl, ◌∙◌, List, [], ◌∷◌, ◌++◌, append_assoc, map, ok, err,
  length, All,
}
use p7_kode.Base.Text.{Bytes}
use p7_kode.Tcp.Connection.{
  Connection, usable, frame, Recv, got, Progress, returns, waits, aborts, receive_blocking,
}
use p7_kode.Tcp.Framing.{IsFramable, concat, receive-Delivers}

abbrev prepend : Bytes → Progress (List Bytes) → Progress (List Bytes)
prepend m (returns (ok ms) c rs) = returns (ok (m ∷ ms)) c rs
prepend m p = p

abbrev and_then :
    Progress Bytes → (List Recv → Connection → Progress (List Bytes)) → Progress (List Bytes)
and_then (returns (ok m) c rs) next = prepend m (next rs c)
and_then (returns (err e) c rs) next = returns (err e) c rs
and_then (waits c) next = waits c
and_then aborts next = aborts

-- A reader that calls `receive_blocking` once for each of `n` messages.
pub receive_many : ℕ → List Recv → Connection → Progress (List Bytes)
receive_many zero rs c = returns (ok []) c rs
receive_many (suc n) rs c = and_then (receive_blocking rs c) (receive_many n)

-- What a sender writes for these messages.
abbrev pub stream : List Bytes → Bytes
stream [] = []
stream (m ∷ ms) = frame m ++ stream ms

-- Messages that can be framed, of a length that size_t holds.
abbrev pub Framable : List Bytes → Type 0
Framable = All (λ m. IsFramable m × (length m + 2 < 2 ^ 64))

pub record DeliversAll (ms : List Bytes) (rest : Bytes) (c : Connection) (p : Progress (List Bytes))
    : Type 0 where
  pub left : Bytes
  pub later : List Bytes
  pub delivered : p ≡ returns (ok ms) (record c { obuffer = left }) (map got later)
  pub remaining : left ++ concat later ≡ rest

-- A sequence of framable messages arrives whole and in order, however the stream of their frames is
-- cut into received chunks: a reader of as many messages gets exactly these, and what follows them
-- stays in the buffer and the chunks not yet received.
pub receive_many-DeliversAll :
    (ms : List Bytes) (rest : Bytes) (chunks : List Bytes) (c : Connection)
    → Framable ms
    → usable c ≡ ok tt
    → c.obuffer ++ concat chunks ≡ stream ms ++ rest
    → DeliversAll ms rest c (receive_many (length ms) (map got chunks) c)
unfolding receive_many receive_blocking
receive_many-DeliversAll [] rest chunks c h ready e = record {
  left = c.obuffer;
  later = chunks;
  delivered = refl;
  remaining = e;
}
receive_many-DeliversAll (m ∷ ms) rest chunks c h ready e =
    let first =
      receive-Delivers m (stream ms ++ rest) chunks c h.0.0 h.0.1 ready
        (e ∙ append_assoc (frame m) (stream ms) rest) in
    let c' : Connection = record c { obuffer = first.left } in
    let others = receive_many-DeliversAll ms rest first.later c' h.1 ready first.remaining in
    record {
      left = others.left;
      later = others.later;
      delivered = rw (first.delivered, others.delivered);
      remaining = others.remaining;
    }
