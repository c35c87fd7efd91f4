-- ===== src/Tcp/Server.antt =====
-- tcp/src/server.cpp and tcp/include/tcp/server.hpp: `tcp::Server`. What the system calls return is
-- given as an argument.
use p7_kode.Base.{
  ℕ, Bool, true, false, not, ◌||◌, Option, none, some, List, [], ◌∷◌, ◌++◌, Result, ok, err,
  connection_exception, accept_exception, bind_exception, listen_exception, close_exception,
  if◌then◌else◌, length, zero, suc,
}
use p7_kode.Base.Exec.{Exec}
use p7_kode.Base.Text.{codes}
use p7_kode.Tcp.Connection.{Connection, connected}

-- A client is a std::weak_ptr: the place of its connection among all connections.
pub record Server : Type 0 where
  pub socket_fd : ℕ
  pub port : ℕ
  pub is_open : Bool
  pub clients : List ℕ

-- The server and the connections that it has made; `none` where the last std::shared_ptr is gone.
pub record Net : Type 0 where
  pub server : Server
  pub heap : List (Option Connection)

-- What ::bind and ::listen return: `none` for success, or errno. `named` is the port that
-- getsockname reports.
unfoldable pub construct :
    (socket : ℕ) (bind : Option ℕ) (named : ℕ) (listen : Option ℕ) → Result Server
construct socket (some errno) named listen = err (bind_exception errno)
construct socket none named (some errno) = err (listen_exception errno)
construct socket none named none =
    ok (record { socket_fd = socket; port = named; is_open = true; clients = [] })

-- What ::accept returns.
pub data Accepted : Type 0 where
  from : ℕ → Accepted
  refused : ℕ → Accepted

-- The result is the place of the new connection.
unfoldable pub accept : Accepted → Exec Net ℕ
accept (from fd) n =
    let con = length n.heap in
    if not n.server.is_open
    then (err (connection_exception (codes "Connection not open")), n)
    else (
      ok con,
      record {
        server = record (n.server) { clients = n.server.clients ++ con ∷ [] };
        heap = n.heap ++ some (connected fd) ∷ [];
      },
    )
accept (refused errno) n =
    if not n.server.is_open
    then (err (connection_exception (codes "Connection not open")), n)
    else (err (accept_exception errno), n)

abbrev pub shut : Option Connection → Option Connection
shut none = none
shut (some c) = some (record c { is_open = false })

-- if (auto spt = connection.lock()) spt->open = false
abbrev pub shut_at : ℕ → List (Option Connection) → List (Option Connection)
shut_at i [] = []
shut_at zero (c ∷ h) = shut c ∷ h
shut_at (suc i) (c ∷ h) = c ∷ shut_at i h

abbrev pub shut_all : List ℕ → List (Option Connection) → List (Option Connection)
shut_all [] heap = heap
shut_all (i ∷ is) heap = shut_all is (shut_at i heap)

-- The field `open` of the server is not written.
unfoldable pub close : (ℕ → Bool) → Exec Net (Unit {0})
close os_close n =
    if not n.server.is_open || not (os_close n.server.socket_fd)
    then (err close_exception, n)
    else (ok tt, record n { heap = shut_all n.server.clients n.heap })

unfoldable pub get_port : Net → ℕ
get_port n = n.server.port

-- ~Server()
unfoldable pub destroy : (ℕ → Bool) → Exec Net (Unit {0})
unfolding close
destroy os_close n = close os_close n
