-- ===== src/Tcp/Examples.antt =====
-- Connections and servers on concrete messages.
use p7_kode.Base.{◌≡◌, refl, true, none, some, List, [], ◌∷◌, arith, ok, map, replicate}
use p7_kode.Base.Text.{Bytes, codes, find}
use p7_kode.Tcp.Connection.{Connection, connected, end_mark, parse_message, got, waits, receive}
use p7_kode.Tcp.Framing.{IsFramable, parse_message-frame}
use p7_kode.Tcp.Stream.{DeliversAll, receive_many, receive_many-DeliversAll}
use p7_kode.Tcp.Faults.{parse_message-hash, receive_eof}
use p7_kode.Tcp.Server.{Net, close}
use p7_kode.Tcp.Closing.{close-clients}

abbrev holding : Bytes → Connection
holding b = record (connected 3) { obuffer = b }

IsFramable-ab : IsFramable (codes "ab")
unfolding find
IsFramable-ab = refl

parse_message-frame_example :
    parse_message (holding (codes "#|ab|##|c")) ≡ (ok (some (codes "ab")), holding (codes "#|c"))
parse_message-frame_example =
    parse_message-frame (codes "ab") (codes "#|c") (holding (codes "#|ab|##|c")) IsFramable-ab
      (omega arith) refl

abbrev ab_in_chunks : List Bytes
ab_in_chunks = codes "#" ∷ codes "|a" ∷ [] ∷ codes "b|##|" ∷ codes "c|#" ∷ []

IsFramable-c : IsFramable (codes "c")
unfolding find
IsFramable-c = refl

receive_many-DeliversAll_example :
    DeliversAll
      (codes "ab" ∷ codes "c" ∷ [])
      []
      (connected 3)
      (receive_many 2 (map got ab_in_chunks) (connected 3))
receive_many-DeliversAll_example =
    receive_many-DeliversAll (codes "ab" ∷ codes "c" ∷ []) [] ab_in_chunks (connected 3)
      ((IsFramable-ab, omega arith), ((IsFramable-c, omega arith), tt)) refl refl

parse_message-hash_example :
    parse_message (holding (codes "#|#a|#")) ≡ (ok (some (codes "#a|#")), holding (codes "a|#"))
parse_message-hash_example =
    parse_message-hash (codes "a") [] (holding (codes "#|#a|#")) refl (omega arith)

no_mark : find end_mark (codes "#|hello") ≡ none
unfolding find
no_mark = refl

receive_eof_example :
    receive (replicate 5 (got [])) (holding (codes "#|hello")) ≡ waits (holding (codes "#|hello"))
receive_eof_example = receive_eof 5 (holding (codes "#|hello")) refl no_mark

abbrev one_client : Net
one_client = record {
  server = record { socket_fd = 4; port = 4444; is_open = true; clients = 0 ∷ [] };
  heap = some (connected 5) ∷ some (connected 6) ∷ [];
}

close-clients_example : (close (λ fd. true) one_client).0 ≡ ok tt
close-clients_example = (close-clients (λ fd. true) one_client refl refl).0
