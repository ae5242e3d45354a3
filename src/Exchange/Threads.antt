-- ===== src/Exchange/Threads.antt =====
-- The threads of Server::runServer and handleClient, server.cpp of
-- project4_stockexchange/docker-deploy/matching-engine, on the one connection that main opens. A pqxx
-- connection has one transaction at a time: `work W(*C)` raises while another is open.
-- handle_transactions opens its `work` outside its try block and without db_mutex; an insertion of
-- handle_creation opens one under db_mutex and inside a try block.
use duke_ece.Prelude.{String, List, Option, none, some}
use duke_ece.Prelude.Int.{ℤ}
use duke_ece.Exchange.Tables.{Server}
use duke_ece.Exchange.Creation.{create_account, create_symbol}
use duke_ece.Exchange.Requests.{Exchange}
use duke_ece.Exchange.Xml.{Xml}
use duke_ece.Exchange.Client.{transact}

-- What a `work` on the connection is for: a request of an account, or one insertion.
pub data Job (xml : Xml) : Type 0 where
  transacts : String → List xml.Element → Job xml
  inserts_account : String → ℤ → Job xml
  inserts_symbol : String → String × ℤ → Job xml

-- What a job leaves, once it has committed or has been rolled back.
abbrev pub finished : (xml : Xml) → Server → Job xml → Exchange → Exchange
finished xml server (transacts account es) x = (transact xml server account es x).1
finished xml server (inserts_account id balance) x = record x {
  db = (create_account id balance x.db).1;
}
finished xml server (inserts_symbol name child) x = record x {
  db = (create_symbol name child x.db).1;
}

-- The process, with the tables as committed and the job whose `work` is open; or its end, by an
-- exception that no thread catches.
pub data Process (xml : Xml) : Type 0 where
  serving : Exchange → Option (Job xml) → Process xml
  ended : Exchange → Process xml

-- What a thread does next. A job begins where none is open. A <transactions> that comes while one is
-- open raises, which nothing catches; an insertion that comes while a <transactions> is open is
-- answered by an error. An insertion waits for db_mutex while another is open: that is no step. A
-- request without a name that the code reads, which the reader of attributes gives as null, raises
-- at any time.
pub data Step (xml : Xml) (server : Server) : Process xml → Process xml → Type 0 where
  begins : (x : Exchange) (job : Job xml) → Step xml server (serving x none) (serving x (some job))
  finishes :
      (x : Exchange) (job : Job xml)
      → Step xml server (serving x (some job)) (serving (finished xml server job x) none)
  overlaps :
      (x : Exchange) (job : Job xml) (account : String) (es : List xml.Element)
      → Step xml server (serving x (some job)) (ended x)
  refuses_account :
      (x : Exchange) (account : String) (es : List xml.Element) (id : String) (balance : ℤ)
      → Step xml server
          (serving x (some (transacts account es)))
          (serving x (some (transacts account es)))
  refuses_symbol :
      (x : Exchange) (account : String) (es : List xml.Element) (name : String) (child : String × ℤ)
      → Step xml server
          (serving x (some (transacts account es)))
          (serving x (some (transacts account es)))
  unreadable :
      (x : Exchange) (open_job : Option (Job xml)) → Step xml server (serving x open_job) (ended x)

-- Any number of steps.
pub data Steps (xml : Xml) (server : Server) : Process xml → Process xml → Type 0 where
  stays : (p : Process xml) → Steps xml server p p
  more : (p q r : Process xml) → Steps xml server p q → Step xml server q r → Steps xml server p r
