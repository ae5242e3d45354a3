-- ===== src/Net.antt =====
-- How the three programs open their sockets: startServer, acceptClientConnection and buildClient of
-- project2_HTTPproxy/docker-deploy/src/socketutils.hpp, createHost, createClient and acceptConnection
-- of project4_stockexchange/docker-deploy/matching-engine/server.cpp, and createClient of
-- project5_miniUPS/docker-deploy/backend/server.cpp.
pub mod Resources
mod Tests
use duke_ece.Prelude.{
  ℕ, suc, ◌==◌, ◌-◌, ◌+◌, Bool, true, false, List, [], ◌∷◌, Option, some, none, if◌then◌else◌,
}

-- What a process holds: its open sockets, and how many results of getaddrinfo it has not freed.
pub record Holdings : Type 0 where
  pub sockets : List ℕ
  pub addresses : ℕ

-- What the calls of the system answer: whether getaddrinfo, setsockopt, bind, listen and connect
-- succeed, and the descriptor that socket gives, if it gives one.
pub record Answers : Type 0 where
  pub resolved : Bool
  pub descriptor : Option ℕ
  pub option_set : Bool
  pub bound : Bool
  pub listening : Bool
  pub connected : Bool

-- A descriptor; the result -1; or the end of the process, by `exit` or by an exception.
pub data Opened : Type 0 where
  opened : ℕ → Opened
  minus_one ended : Opened

abbrev pub resolve : Holdings → Holdings
resolve h = record h { addresses = suc h.addresses }

abbrev pub free_address : Holdings → Holdings
free_address h = record h { addresses = h.addresses - 1 }

abbrev pub hold : ℕ → Holdings → Holdings
hold fd h = record h { sockets = fd ∷ h.sockets }

unfoldable pub without : ℕ → List ℕ → List ℕ
without fd [] = []
without fd (x ∷ xs) = if x == fd then xs else x ∷ without fd xs

abbrev pub close : ℕ → Holdings → Holdings
close fd h = record h { sockets = without fd h.sockets }

-- startServer behind `socket`: each failure frees the addresses and closes the socket.
unfoldable pub listen_on : Answers → ℕ → Holdings → Opened × Holdings
listen_on a fd h =
    let gives_up : Opened × Holdings = (minus_one, close fd (free_address h)) in
    if a.option_set
    then (if a.bound
        then (if a.listening then (opened fd, free_address h) else gives_up)
        else gives_up)
    else gives_up

-- startServer. Its host name is NULL, of which the message about a failed getaddrinfo makes a
-- std::string: an exception.
unfoldable pub start_server : Answers → Holdings → Opened × Holdings
start_server a h =
    if a.resolved
    then elim a.descriptor [
      | none ↦ (minus_one, free_address (resolve h))
      | some fd ↦ listen_on a fd (hold fd (resolve h))
    ]
    else (ended, h)

-- acceptClientConnection; `none` is a failed accept.
unfoldable pub accept_client_connection : Option ℕ → Holdings → Opened × Holdings
accept_client_connection none h = (minus_one, h)
accept_client_connection (some fd) h = (opened fd, hold fd h)

-- buildClient.
unfoldable pub build_client : Answers → Holdings → Opened × Holdings
build_client a h =
    if a.resolved
    then elim a.descriptor [
      | none ↦ (minus_one, resolve h)
      | some fd ↦
          let held = hold fd (resolve h) in
          if a.connected then (opened fd, free_address held) else (minus_one, close fd held)
    ]
    else (minus_one, h)

-- Server::createHost: every failure exits.
unfoldable pub create_host : Answers → Holdings → Opened × Holdings
create_host a h =
    if a.resolved
    then elim a.descriptor [
      | none ↦ (ended, resolve h)
      | some fd ↦
          let held = hold fd (resolve h) in
          if a.option_set
          then (if a.bound
              then (if a.listening then (opened fd, free_address held) else (ended, held))
              else (ended, held))
          else (ended, held)
    ]
    else (ended, h)

-- Server::createClient: every failure exits.
unfoldable pub create_client_or_exit : Answers → Holdings → Opened × Holdings
create_client_or_exit a h =
    if a.resolved
    then elim a.descriptor [
      | none ↦ (ended, resolve h)
      | some fd ↦
          let held = hold fd (resolve h) in
          if a.connected then (opened fd, free_address held) else (ended, held)
    ]
    else (ended, h)

-- Server::acceptConnection.
unfoldable pub accept_connection : Option ℕ → Holdings → Opened × Holdings
accept_connection none h = (ended, h)
accept_connection (some fd) h = (opened fd, hold fd h)

-- createClient of the delivery back end: a failed connect gives -1, the others exit.
unfoldable pub create_client : Answers → Holdings → Opened × Holdings
create_client a h =
    if a.resolved
    then elim a.descriptor [
      | none ↦ (ended, resolve h)
      | some fd ↦
          let held = hold fd (resolve h) in
          if a.connected then (opened fd, free_address held) else (minus_one, held)
    ]
    else (ended, h)
