-- ===== src/Exchange/MainLaws.antt =====
-- The exchange from its start on: main.cpp, server.cpp and database.cpp of
-- project4_stockexchange/docker-deploy/matching-engine.
use duke_ece.Prelude.{
  ◌≡◌, refl, true, List, [], ◌∷◌, Option, none, some, arith, Bool-cases, Option-cases, inl, inr,
}
use duke_ece.Net.{Answers, Opened, opened, minus_one, ended, create_host}
use duke_ece.Exchange.Tables.{Server}
use duke_ece.Exchange.Requests.{Exchange}
use duke_ece.Exchange.Validity.{IsValid}
use duke_ece.Exchange.Xml.{Bytes, Xml}
use duke_ece.Exchange.Client.{
  Handled, replied, terminated, handle_client, received, handle_client_request,
}
use duke_ece.Exchange.ClientLaws.{left_by, handle_client_request-IsValid}
use duke_ece.Exchange.Main.{
  Schema, empty_tables, create_tables, Visit, Log, left_with, goes_on, hosted, handle_visit,
  run_server, listen_and_run, main,
}

empty_tables-IsValid : IsValid empty_tables
empty_tables-IsValid = record {
  keys = omega arith;
  all_settled = tt;
  numbered = tt;
  solvent = tt;
  owned = tt;
}

goes_on-IsValid :
    (handled : Option Handled) (x : Exchange) (further : Log)
    → IsValid (left_with handled x).db
    → IsValid further.left.db
    → IsValid (goes_on handled further).left.db
goes_on-IsValid none x further v w = w
goes_on-IsValid (some (replied answer after)) x further v w = w
goes_on-IsValid (some (terminated after)) x further v w = v

left_with-IsValid :
    (handled : Handled) (x : Exchange)
    → IsValid (left_by handled).db
    → IsValid (left_with (some handled) x).db
left_with-IsValid (replied answer after) x v = v
left_with-IsValid (terminated after) x v = v

hosted-IsValid :
    (o : Opened) (x : Exchange) (further : Log)
    → IsValid x.db
    → IsValid further.left.db
    → IsValid (hosted o x further).left.db
hosted-IsValid (opened fd) x further v w = w
hosted-IsValid minus_one x further v w = v
hosted-IsValid ended x further v w = v

module _ (xml : Xml) (server : Server) where
  handle_client-IsValid :
      (arrived : Option Bytes) (x : Exchange)
      → IsValid x.db
      → IsValid (left_with (handle_client xml server arrived x) x).db
  unfolding handle_client
  handle_client-IsValid none x v = v
  handle_client-IsValid (some bytes) x v =
      left_with-IsValid (handle_client_request xml server (received bytes) x) x
        (handle_client_request-IsValid xml server (received bytes) x v)

  handle_visit-IsValid :
      (visit : Visit) (x : Exchange)
      → IsValid x.db
      → IsValid (left_with (handle_visit xml server visit x) x).db
  unfolding handle_visit
  handle_visit-IsValid visit x v = elim (Bool-cases visit.thread_created) [
    | inl well ↦ rw well (handle_client-IsValid visit.arrived x v)
    | inr ill ↦ rw ill v
  ]

  run_server-IsValid :
      (visits : List Visit) (x : Exchange)
      → IsValid x.db
      → IsValid (run_server xml server visits x).left.db
  unfolding run_server
  run_server-IsValid [] x v = v
  run_server-IsValid (visit ∷ visits) x v = elim (Option-cases visit.accepted) [
    | inl failed ↦ rw (failed, run_server) v
    | inr (fd, well) ↦
        rw (well, run_server)
          (goes_on-IsValid (handle_visit xml server visit x) x _ (handle_visit-IsValid visit x v)
            (run_server-IsValid visits _ (handle_visit-IsValid visit x v)))
  ]

  listen_and_run-IsValid :
      (host : Answers) (visits : List Visit) (x : Exchange)
      → IsValid x.db
      → IsValid (listen_and_run xml server host visits x).left.db
  unfolding listen_and_run
  listen_and_run-IsValid host visits x v =
      hosted-IsValid (create_host host (record { sockets = []; addresses = 0 })).0 x
        (run_server xml server visits x) v (run_server-IsValid visits x v)

-- Whatever tables the database has when the exchange starts, whatever its clients send, and wherever
-- accept, reading, a thread's creation or a request ends it: once it has reached its database it makes
-- its tables, and they are valid at the end.
pub main-IsValid :
    (xml : Xml) (server : Server) (schema : Schema) (host : Answers) (visits : List Visit)
    → (log : Log) × (main xml server true schema host visits ≡ some log) × IsValid log.left.db
unfolding main create_tables
main-IsValid xml server schema host visits = (
  listen_and_run xml server host visits (record { db = empty_tables; order_counter = 0 }),
  refl,
  listen_and_run-IsValid xml server host visits (record { db = empty_tables; order_counter = 0 })
      empty_tables-IsValid,
)
