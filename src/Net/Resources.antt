-- ===== src/Net/Resources.antt =====
-- Which sockets and addresses are held after an attempt to open a socket: socketutils.hpp and the two
-- server.cpp.
use duke_ece.Prelude.{
  ℕ, ◌≡◌, ◌≢◌, ◌∙◌, refl, ap, some, none, arith, Bool-cases, Option-cases, inl, inr, ==_self,
  if◌then◌else◌,
}
use duke_ece.Net.{
  Holdings, Answers, Opened, opened, minus_one, ended, resolve, free_address, hold, without, close,
  listen_on, start_server, build_client, create_host, create_client_or_exit, create_client,
}

-- What an attempt leaves: one socket more, where it opened it; what is named, where it answers -1.
abbrev pub Leaves : Holdings → Holdings → Opened × Holdings → Type 0
Leaves h failed (opened fd, after) = after ≡ hold fd h
Leaves h failed (minus_one, after) = after ≡ failed
Leaves h failed (ended, after) = Unit {0}

freed : (h : Holdings) → free_address (resolve h) ≡ h
freed h = ap (λ n. record h { addresses = n }) (omega arith)

closed : (fd : ℕ) (h : Holdings) → close fd (hold fd h) ≡ h
unfolding without
closed fd h = rw (==_self fd) refl

freed_held : (fd : ℕ) (h : Holdings) → free_address (hold fd (resolve h)) ≡ hold fd h
freed_held fd h = ap (hold fd) (freed h)

given_up : (fd : ℕ) (h : Holdings) → close fd (free_address (hold fd (resolve h))) ≡ h
given_up fd h = ap (close fd) (freed_held fd h) ∙ closed fd h

start_server-Leaves : (a : Answers) (h : Holdings) → Leaves h h (start_server a h)
unfolding start_server listen_on
start_server-Leaves a h = elim (Bool-cases a.resolved) [
  | inr unknown ↦ rw unknown tt
  | inl known ↦ rw known (elim (Option-cases a.descriptor) [
    | inl no_socket ↦ rw (no_socket, start_server) (freed h)
    | inr (fd, socket) ↦
        rw (socket, start_server)
          (elim (Bool-cases a.option_set) [
            | inr unset ↦ rw unset (given_up fd h)
            | inl set ↦ elim (Bool-cases a.bound) [
              | inr unbound ↦ rw (set, unbound) (given_up fd h)
              | inl bound ↦ elim (Bool-cases a.listening) [
                | inr deaf ↦ rw (set, bound, deaf) (given_up fd h)
                | inl listens ↦ rw (set, bound, listens) (freed_held fd h)
              ]
            ]
          ])
  ])
]

-- What buildClient holds where it answers -1: the addresses that getaddrinfo gave.
abbrev pub build_leaves : Answers → Holdings → Holdings
build_leaves a h = if a.resolved then resolve h else h

build_client-Leaves : (a : Answers) (h : Holdings) → Leaves h (build_leaves a h) (build_client a h)
unfolding build_client
build_client-Leaves a h = elim (Bool-cases a.resolved) [
  | inr unknown ↦ rw unknown refl
  | inl known ↦ rw known (elim (Option-cases a.descriptor) [
    | inl no_socket ↦ rw (no_socket, build_client) refl
    | inr (fd, socket) ↦
        rw (socket, build_client)
          (elim (Bool-cases a.connected) [
            | inl well ↦ rw well (freed_held fd h)
            | inr ill ↦ rw ill (closed fd (resolve h))
          ])
  ])
]

-- What createClient of the delivery back end holds where it answers -1: the addresses and its socket.
abbrev pub create_leaves : Answers → Holdings → Holdings
create_leaves a h = elim a.descriptor [ none ↦ resolve h | some fd ↦ hold fd (resolve h) ]

create_client-Leaves :
    (a : Answers) (h : Holdings) → Leaves h (create_leaves a h) (create_client a h)
unfolding create_client
create_client-Leaves a h = elim (Bool-cases a.resolved) [
  | inr unknown ↦ rw unknown tt
  | inl known ↦ rw known (elim (Option-cases a.descriptor) [
    | inl no_socket ↦ rw (no_socket, create_client) tt
    | inr (fd, socket) ↦
        rw (socket, create_client)
          (elim (Bool-cases a.connected) [
            | inl well ↦ rw well (freed_held fd h)
            | inr ill ↦ rw ill refl
          ])
  ])
]

-- The result is not -1, and a socket that was opened is the one new holding.
abbrev pub OpensOrEnds : Holdings → Opened × Holdings → Type 0
OpensOrEnds h r = (r.0 ≢ minus_one) × Leaves h h r

create_host-OpensOrEnds : (a : Answers) (h : Holdings) → OpensOrEnds h (create_host a h)
unfolding create_host
create_host-OpensOrEnds a h = elim (Bool-cases a.resolved) [
  | inr unknown ↦ rw unknown (λ e. cc, tt)
  | inl known ↦ rw known (elim (Option-cases a.descriptor) [
    | inl no_socket ↦ rw (no_socket, create_host) (λ e. cc, tt)
    | inr (fd, socket) ↦
        rw (socket, create_host)
          (elim (Bool-cases a.option_set) [
            | inr unset ↦ rw unset (λ e. cc, tt)
            | inl set ↦ elim (Bool-cases a.bound) [
              | inr unbound ↦ rw (set, unbound) (λ e. cc, tt)
              | inl bound ↦ elim (Bool-cases a.listening) [
                | inr deaf ↦ rw (set, bound, deaf) (λ e. cc, tt)
                | inl listens ↦ rw (set, bound, listens) (λ e. cc, freed_held fd h)
              ]
            ]
          ])
  ])
]

create_client_or_exit-OpensOrEnds :
    (a : Answers) (h : Holdings) → OpensOrEnds h (create_client_or_exit a h)
unfolding create_client_or_exit
create_client_or_exit-OpensOrEnds a h = elim (Bool-cases a.resolved) [
  | inr unknown ↦ rw unknown (λ e. cc, tt)
  | inl known ↦ rw known (elim (Option-cases a.descriptor) [
    | inl no_socket ↦ rw (no_socket, create_client_or_exit) (λ e. cc, tt)
    | inr (fd, socket) ↦
        rw (socket, create_client_or_exit)
          (elim (Bool-cases a.connected) [
            | inl well ↦ rw well (λ e. cc, freed_held fd h)
            | inr ill ↦ rw ill (λ e. cc, tt)
          ])
  ])
]

-- A socket that is opened is all that an attempt adds. Where it answers -1, startServer of the proxy has
-- freed and closed everything; its buildClient keeps the addresses that getaddrinfo gave; and
-- createClient of the delivery back end keeps the addresses and the socket. The exchange's createHost
-- and createClient never answer -1.
pub opens-Leaves :
    (a : Answers) (h : Holdings)
    → Leaves h h (start_server a h)
      × Leaves h (build_leaves a h) (build_client a h)
      × Leaves h (create_leaves a h) (create_client a h)
      × OpensOrEnds h (create_host a h)
      × OpensOrEnds h (create_client_or_exit a h)
opens-Leaves a h = (
  start_server-Leaves a h,
  build_client-Leaves a h,
  create_client-Leaves a h,
  create_host-OpensOrEnds a h,
  create_client_or_exit-OpensOrEnds a h,
)
