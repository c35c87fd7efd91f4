-- ===== src/Tcp/Closing.antt =====
-- tcp/src/server.cpp: closing a server.
use mathlib.Core.Option
use p7_kode.Base.{
  ℕ, zero, suc, ◌≡◌, refl, ap, inl, inr, ◌∙◌, Bool, true, false, ◌||◌, Option, none, some, List, [],
  ◌∷◌, arith, ok, ◌==◌, if◌then◌else◌, Bool-cases, get_elem?,
}
use p7_kode.Tcp.Connection.{Connection}
use p7_kode.Tcp.Server.{Net, shut, shut_at, shut_all, close}

abbrev pub contains : ℕ → List ℕ → Bool
contains i [] = false
contains i (j ∷ js) = (j == i) || contains i js

shut_twice : (c : Option Connection) → shut (shut c) ≡ shut c
shut_twice none = refl
shut_twice (some c) = refl

shut_at-get_elem? :
    (j i : ℕ) (h : List (Option Connection))
    → get_elem? (shut_at j h) i
      ≡ (if j == i then Option.map shut (get_elem? h i) else get_elem? h i)
shut_at-get_elem? j i [] = ground arith
shut_at-get_elem? zero zero (c ∷ h) = refl
shut_at-get_elem? zero (suc i) (c ∷ h) = ground arith
shut_at-get_elem? (suc j) zero (c ∷ h) = ground arith
shut_at-get_elem? (suc j) (suc i) (c ∷ h) = ground (arith, shut_at-get_elem? j i h)

map-shut_twice :
    (o : Option (Option Connection)) → Option.map shut (Option.map shut o) ≡ Option.map shut o
map-shut_twice none = refl
map-shut_twice (some c) = ap some (shut_twice c)

shut_all-get_elem? :
    (js : List ℕ) (i : ℕ) (h : List (Option Connection))
    → get_elem? (shut_all js h) i
      ≡ (if contains i js then Option.map shut (get_elem? h i) else get_elem? h i)
shut_all-get_elem? [] i h = refl
shut_all-get_elem? (j ∷ js) i h =
    rw (shut_all-get_elem? js i (shut_at j h), shut_at-get_elem? j i h)
      (elim (Bool-cases (j == i)) [
        | inl e ↦ elim (Bool-cases (contains i js)) [
          | inl f ↦ rw (e, f) (map-shut_twice (get_elem? h i))
          | inr f ↦ rw (e, f) refl
        ]
        | inr e ↦ rw e refl
      ])

-- A connection that still exists, with its field `open` false and nothing else changed.
abbrev pub closed : Option Connection → Option Connection
closed none = none
closed (some c) = some (record { fd = c.fd; obuffer = c.obuffer; is_open = false; ready = c.ready })

map-shut : (o : Option (Option Connection)) → Option.map shut o ≡ Option.map closed o
map-shut none = refl
map-shut (some none) = refl
map-shut (some (some c)) = refl

shut_all-closed :
    (js : List ℕ) (i : ℕ) (h : List (Option Connection))
    → get_elem? (shut_all js h) i
      ≡ (if contains i js then Option.map closed (get_elem? h i) else get_elem? h i)
shut_all-closed js i h =
    shut_all-get_elem? js i h
    ∙ ap (λ o. if contains i js then o else get_elem? h i) (map-shut (get_elem? h i))

-- When the server is open and ::close succeeds, `Server::close` marks exactly the connections that the
-- server has accepted and that still exist as closed; it changes no other connection, and it leaves
-- the server itself as it was.
pub close-clients :
    (os_close : ℕ → Bool) (n : Net)
    → n.server.is_open ≡ true
    → os_close n.server.socket_fd ≡ true
    → ((close os_close n).0 ≡ ok tt)
      × ((close os_close n).1.server ≡ n.server)
      × ((i : ℕ)
          → get_elem? (close os_close n).1.heap i ≡ (
              if contains i n.server.clients
              then Option.map closed (get_elem? n.heap i)
              else get_elem? n.heap i))
unfolding close
close-clients os_close n e f =
    rw (e, f) (refl, refl, λ i. shut_all-closed n.server.clients i n.heap)
