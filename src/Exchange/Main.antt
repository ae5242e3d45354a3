-- ===== src/Exchange/Main.antt =====
-- main.cpp and Server::runServer (server.cpp) of project4_stockexchange/docker-deploy/matching-engine,
-- with connectDatabase, dropTables and createTables of database.cpp. Each client is served to its end
-- before the next one is accepted; Exchange/Threads has other orders.
use duke_ece.Prelude.{ℕ, Bool, true, false, List, [], ◌∷◌, Option, none, some, ◌>>=◌, if◌then◌else◌}
use duke_ece.Net.{Answers, Opened, opened, minus_one, ended, create_host}
use duke_ece.Exchange.Tables.{Database, Server}
use duke_ece.Exchange.Requests.{Exchange}
use duke_ece.Exchange.Xml.{Bytes, Xml}
use duke_ece.Exchange.Client.{Answer, Handled, replied, terminated, handle_client}

-- The tables that the database has, if it has them.
abbrev pub Schema : Type 0
Schema = Option Database

-- `DROP TABLE IF EXISTS`, also with the sequences of the BIGSERIAL columns.
abbrev pub drop_tables : Schema → Schema
drop_tables schema = none

abbrev pub empty_tables : Database
empty_tables = record {
  accounts = [];
  orders = [];
  transactions = [];
  symbols = [];
  next_unique_id = 1;
  next_transaction_id = 1;
}

-- CREATE TABLE raises where a table of that name exists.
unfoldable pub create_tables : Schema → Option Database
create_tables none = some empty_tables
create_tables (some db) = none

-- What a round of runServer meets: the result of accept; whether the thread is created; and the bytes
-- that have come when it reads, where the reading succeeds.
pub record Visit : Type 0 where
  pub accepted : Option ℕ
  pub thread_created : Bool
  pub arrived : Option Bytes

-- What runServer has done: the answers, `none` for a client that gets none; and whether the process
-- waits for the next client, or has ended, with what it leaves.
pub record Log : Type 0 where
  pub answers : List (Option Answer)
  pub waits : Bool
  pub left : Exchange

abbrev pub ends_with : Bool → Exchange → Log
ends_with waits x = record { answers = []; waits = waits; left = x }

abbrev pub logged : Option Answer → Log → Log
logged answer log = record log { answers = answer ∷ log.answers }

-- The exchange that a client leaves; `none` is a client without an answer.
abbrev pub left_with : Option Handled → Exchange → Exchange
left_with none x = x
left_with (some (replied answer after)) x = after
left_with (some (terminated after)) x = after

-- How runServer goes on behind a client.
abbrev pub goes_on : Option Handled → Log → Log
goes_on none further = logged none further
goes_on (some (replied answer after)) further = logged (some answer) further
goes_on (some (terminated after)) further = ends_with false after

-- createHost exits where it fails.
abbrev pub hosted : Opened → Exchange → Log → Log
hosted (opened fd) x further = further
hosted minus_one x further = ends_with false x
hosted ended x further = ends_with false x

module _ (xml : Xml) (server : Server) where
  -- A thread that cannot be created leaves its client without an answer.
  unfoldable pub handle_visit : Visit → Exchange → Option Handled
  handle_visit v x = if v.thread_created then handle_client xml server v.arrived x else none

  -- The loop of runServer. acceptConnection exits where accept fails, so that the test of its result
  -- is never true.
  unfoldable pub run_server : List Visit → Exchange → Log
  run_server [] x = ends_with true x
  run_server (v ∷ vs) x =
      let handled = handle_visit v x in
      let further = run_server vs (left_with handled x) in
      elim v.accepted [ some fd ↦ goes_on handled further | none ↦ ends_with false x ]

  unfoldable pub listen_and_run : Answers → List Visit → Exchange → Log
  listen_and_run host vs x =
      hosted (create_host host (record { sockets = []; addresses = 0 })).0 x (run_server vs x)

  -- main, on what PostgreSQL has and whether it can be reached; `none` where the process ends before
  -- there are tables.
  unfoldable pub main : Bool → Schema → Answers → List Visit → Option Log
  main connected schema host vs =
      if connected
      then (do
        db ← create_tables (drop_tables schema)
        some (listen_and_run host vs (record { db = db; order_counter = 0 })))
      else none
