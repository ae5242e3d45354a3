-- ===== src/Exchange/Requests.antt =====
-- queryAll and handle_transactions of
-- project4_stockexchange/docker-deploy/matching-engine/database.cpp, on the parsed request.
use duke_ece.Prelude.{
  ◌>>=◌, ℕ, ◌+◌, ◌==◌, String, Bool, true, false, List, [], ◌∷◌, ◌++◌, Option, none, some,
  find_first, select, str_eq, ◌&&◌, if◌then◌else◌,
}
use duke_ece.Prelude.Int.{ℤ, abs}
use duke_ece.Exchange.Columns.{same_char}
use duke_ece.Exchange.Tables.{
  Order, Transaction, Database, Server, find_account, status_text, created_before,
}
use duke_ece.Exchange.Orders.{Session, CancelReply, has_order_id, insert_order, cancel_order}
use duke_ece.Exchange.Matching.{match_orders}

-- The lines of a <status> element.
pub data StatusLine : Type 0 where
  open_line : ℤ → StatusLine
  executed_line : ℤ → ℤ → ℕ → StatusLine
  canceled_line : ℤ → StatusLine

abbrev pub has_transaction_id : ℕ → Transaction → Bool
has_transaction_id id t = t.transaction_id == id

-- The line of an executed row: `none` where TRANSACTION_ID is NULL, or no such row exists.
unfoldable pub executed_lines : Order → Database → Option (List StatusLine)
executed_lines r db = do
  id ← r.transaction_id
  t ← find_first (has_transaction_id id) db.transactions
  some (executed_line (abs r.order_quantity) r.limit_price t.execution_time ∷ [])

-- The tests of the loop of queryAll on the text of ORDER_STATUS.
unfoldable pub lines_for : String → Order → Database → Option (List StatusLine)
lines_for status r db =
    if str_eq status "OPEN"
    then some (open_line (abs r.order_quantity) ∷ [])
    else if str_eq status "EXECUTED"
    then executed_lines r db
    else if str_eq status "CANCELED"
    then some (canceled_line (abs r.order_quantity) ∷ [])
    else some []

unfoldable pub status_lines : Order → Database → Option (List StatusLine)
status_lines r db = lines_for (status_text r.order_status) r db

unfoldable pub all_lines : List Order → Database → Option (List StatusLine)
all_lines [] db = some []
all_lines (r ∷ rows) db = do
  lines ← status_lines r db
  more ← all_lines rows db
  some (lines ++ more)

unfoldable pub query_all : Server → ℤ → Database → Option (List StatusLine)
query_all server id db =
    all_lines (server.order_by created_before (server.scan (select (has_order_id id) db.orders))) db

-- The children of a <transactions> element.
pub data Operation : Type 0 where
  order : String → ℤ → ℤ → Operation
  cancel query : ℤ → Operation
  unknown_operation : String → Operation

pub data Reply : Type 0 where
  order_opened : String → ℤ → ℤ → ℕ → Reply
  order_refused : ℕ → Reply
  cancel_reply : CancelReply → Reply
  status : ℤ → List StatusLine → Reply
  not_yours : ℤ → Reply
  cancel_unreadable : String → Reply
  unknown_reply : String → Reply

-- The state of handle_transactions: the transaction, the process's counter `order_id`, and the
-- replies so far.
pub record Run : Type 0 where
  pub session : Session
  pub order_counter : ℕ
  pub replies : List Reply

abbrev pub reply : Run → Reply → Run
reply run r = record run { replies = run.replies ++ r ∷ [] }

abbrev pub live : Database → Session
live db = record { db = db; aborted = false }

-- After match_orders, which raises on `none`.
abbrev pub matched : Run → Option Database → Bool × Run
matched run none = (false, run)
matched run (some db) = (true, record run { session = live db })

-- What handle_transactions does with the result of insertOrder: an id for an order that was placed, and
-- match_orders; or a refusal.
unfoldable pub take_result : Server → String → ℤ → ℤ → ℕ → Database → Run → Bool × Run
take_result server symbol amount limit code db run =
    if code == 4
    then (let id = run.order_counter + 1 in
        matched
          (record run {
            session = live db;
            order_counter = id;
            replies = run.replies ++ order_opened symbol amount limit id ∷ [];
          })
          (match_orders server symbol db))
    else (true, reply run (order_refused code))

abbrev pub take_code : Server → String → ℤ → ℤ → Option ℕ × Database → Run → Bool × Run
take_code server symbol amount limit (none, db) run = (false, run)
take_code server symbol amount limit (some code, db) run =
    take_result server symbol amount limit code db run

-- An <order>, in a transaction that is not aborted.
unfoldable pub perform_order : Server → String → String → ℤ → ℤ → Run → Bool × Run
perform_order server account symbol amount limit run =
    take_code server symbol amount limit
      (insert_order server account symbol amount limit run.session.db) run

abbrev pub belongs : ℤ → String → Order → Bool
belongs id account r = has_order_id id r && same_char r.account_id account

abbrev pub answered : Run → ℤ → Option (List StatusLine) → Bool × Run
answered run id none = (false, run)
answered run id (some lines) = (true, reply run (status id lines))

-- A <query>: the count of the account's rows with the id, then queryAll.
unfoldable pub perform_query : Server → String → ℤ → Run → Bool × Run
perform_query server account id run = elim (find_first (belongs id account) run.session.db.orders) [
  | none ↦ (true, reply run (not_yours id))
  | some _ ↦ answered run id (query_all server id run.session.db)
]

-- One child of the root. `false` is an exception that leaves the loop. In an aborted transaction the
-- first statement of an order or a query raises; cancelOrder catches its own.
unfoldable pub perform : Server → String → Operation → Run → Bool × Run
perform server account (order symbol amount limit) run = elim run.session.aborted [
  | true ↦ (false, run)
  | false ↦ perform_order server account symbol amount limit run
]
perform server account (cancel id) run =
    let (answer, session) = cancel_order server id run.session in
    (true, reply (record run { session = session }) (cancel_reply answer))
perform server account (query id) run = elim run.session.aborted [
  | true ↦ (false, run)
  | false ↦ perform_query server account id run
]
perform server account (unknown_operation name) run = (true, reply run (unknown_reply name))

unfoldable pub perform_all : Server → String → List Operation → Run → Bool × Run
perform_all server account [] run = (true, run)
perform_all server account (op ∷ ops) run =
    let (continues, after) = perform server account op run in
    let rest = perform_all server account ops after in if continues then rest else (false, after)

-- What the process holds between requests.
pub record Exchange : Type 0 where
  pub db : Database
  pub order_counter : ℕ

pub data Response : Type 0 where
  no_account failed : Response
  results : List Reply → Response

-- A roll-back keeps the tables as they were; the sequences go on.
abbrev pub rolled_back : Database → Database → Database
rolled_back before during = record before {
  next_unique_id = during.next_unique_id;
  next_transaction_id = during.next_transaction_id;
}

abbrev pub abandon : Exchange → Run → Response → Response × Exchange
abandon x run response =
    (response, record { db = rolled_back x.db run.session.db; order_counter = run.order_counter })

-- The end of the try block: `commit`, or the handler.
unfoldable pub finish : Server → Exchange → Bool × Run → Response × Exchange
finish server x (false, run) = abandon x run failed
finish server x (true, run) =
    if run.session.aborted
    then abandon x run (if server.commit_raises then failed else results run.replies)
    else (results run.replies, record { db = run.session.db; order_counter = run.order_counter })

unfoldable pub handle_transactions :
    Server → String → List Operation → Exchange → Response × Exchange
handle_transactions server account ops x = elim (find_account account x.db.accounts) [
  | none ↦ (no_account, x)
  | some _ ↦ finish server x (
      perform_all server account ops
        (record { session = live x.db; order_counter = x.order_counter; replies = [] }))
]
