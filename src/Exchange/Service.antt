-- ===== src/Exchange/Service.antt =====
-- What a client of project4_stockexchange/docker-deploy/matching-engine/database.cpp can rely on:
-- handle_transactions as a whole.
use duke_ece.Prelude.{
  none, Option, ◌||◌, not, ℕ, ◌==◌, ◌≡◌, refl, Bool, String, true, false, List, [], ◌∷◌, ◌++◌, some,
  arith, ◌≤◌, ◌∙◌, ◌≢◌, ap, find_first, Bool-cases, inl, inr, Option-cases,
}
use duke_ece.Prelude.Int.{ℤ, abs}
use duke_ece.Exchange.Tables.{
  Order, OrderStatus, opened, executed, closed, Transaction, Database, Server, find_account,
  created_before, status_text,
}
use duke_ece.Exchange.Orders.{insert_order}
use duke_ece.Exchange.Columns.{fits}
use duke_ece.Exchange.Orders.{refusal, place_order}
use duke_ece.Exchange.Requests.{
  take_code, take_result, has_transaction_id, executed_lines, lines_for, status_lines, all_lines,
  query_all, Operation, order, cancel, query, unknown_operation, perform_order, perform_query,
  perform, perform_all, Run, Exchange, finish, handle_transactions, belongs, executed_line,
  open_line, StatusLine, live, rolled_back, Reply, results,
}
use duke_ece.Exchange.Rows.{All-query}
use duke_ece.Exchange.Ids.{ids, Rising-mono, insert_order_grows, cancel_order_grows}
use duke_ece.Exchange.Rule.{booked_id}
use duke_ece.Exchange.Validity.{
  IsValid, settled, AllSettled, match_orders-IsValid, insert_order-IsValid, cancel_order-IsValid,
}

find-booked :
    (id : ℕ) (ts : List Transaction)
    → booked_id id ts ≡ true
    → (t : Transaction) × (find_first (has_transaction_id id) ts ≡ some t)
unfolding find_first
find-booked id [] h = ground arith
find-booked id (x ∷ ts) h = elim (Bool-cases (has_transaction_id id x)) [
  | inl here ↦ (x, rw here)
  | inr there ↦ let (t, e) = find-booked id ts (ground arith) in (t, rw there e)
]

executed_lines_total :
    (r : Order) (db : Database)
    → r.order_status ≡ executed
    → settled db.transactions r ≡ true
    → (lines : List StatusLine) × (executed_lines r db ≡ some lines)
unfolding executed_lines
executed_lines_total r db e h = elim (Option-cases r.transaction_id) [
  | inl missing ↦ ground arith
  | inr (id, known) ↦
      let (t, found) = find-booked id db.transactions (ground arith) in
      (executed_line (abs r.order_quantity) r.limit_price t.execution_time ∷ [], rw (known, found))
]

status_lines_total :
    (r : Order) (db : Database)
    → settled db.transactions r ≡ true
    → (lines : List StatusLine) × (status_lines r db ≡ some lines)
unfolding status_lines lines_for
status_lines_total r db h = go r.order_status refl
  where
    by : {s : OrderStatus} → r.order_status ≡ s → status_lines r db ≡ lines_for (status_text s) r db
    by e = ap (λ s. lines_for (status_text s) r db) e

    go :
        (s : OrderStatus)
        → r.order_status ≡ s
        → (lines : List StatusLine) × (status_lines r db ≡ some lines)
    go opened e = (open_line (abs r.order_quantity) ∷ [], by e)
    go executed e = let (lines, f) = executed_lines_total r db e h in (lines, by e ∙ f)
    go closed e = ([], by e)

all_lines_total :
    (rows : List Order) (db : Database)
    → AllSettled db.transactions rows
    → (lines : List StatusLine) × (all_lines rows db ≡ some lines)
unfolding all_lines
all_lines_total [] db h = ([], refl)
all_lines_total (r ∷ rows) db h =
    let (lines, e) = status_lines_total r db h.0 in
    let (more, f) = all_lines_total rows db h.1 in (lines ++ more, rw (e, f))

-- A query on valid tables raises no exception: every executed row has its transaction.
pub query_all_total :
    (server : Server) (id : ℤ) (db : Database)
    → IsValid db
    → (lines : List StatusLine) × (query_all server id db ≡ some lines)
unfolding query_all
query_all_total server id db v =
    all_lines_total _ db (All-query _ server _ created_before db.orders v.all_settled)

-- An <order> whose limit LIMIT_PRICE has no room for.
abbrev pub overflows : Operation → Bool
overflows (order symbol amount limit) = not (fits 10 limit)
overflows (cancel id) = false
overflows (query id) = false
overflows (unknown_operation name) = false

-- What an operation leaves behind: valid tables, and an exception only in an aborted transaction or for
-- a limit that overflows.
abbrev pub Leaves : Operation → Run → Bool × Run → Type 0
Leaves op before (continues, after) =
    IsValid after.session.db
    × (before.session.db.next_unique_id ≤ after.session.db.next_unique_id)
    × ((continues || (before.session.aborted || overflows op)) ≡ true)

raised-overflows :
    (server : Server) (account symbol : String) (amount limit : ℤ) (db : Database)
    → (insert_order server account symbol amount limit db).0 ≡ none
    → fits 10 limit ≡ false
unfolding insert_order place_order
raised-overflows server account symbol amount limit db h =
    elim (Option-cases (find_account account db.accounts)) [
      | inl missing ↦
          absurd (let f : ◌≡◌ {A = Option ℕ} (some 0) none = rw (missing, insert_order) at h in cc)
      | inr (a, known) ↦ elim (Option-cases (refusal a symbol amount limit db)) [
        | inr (code, refused) ↦ absurd (
            let f : ◌≡◌ {A = Option ℕ} (some code) none = rw (known, refused, insert_order) at h in
            cc)
        | inl fine ↦ elim (Bool-cases (fits 10 limit)) [
          | inr wide ↦ wide
          | inl room ↦ absurd (
              let f : ◌≡◌ {A = Option ℕ} (some 4) none =
                rw (known, fine, insert_order, room) at h in
              cc)
        ]
      ]
    ]

perform_order-Leaves :
    (server : Server) (account symbol : String) (amount limit : ℤ) (run : Run)
    → IsValid run.session.db
    → Leaves (order symbol amount limit) run (perform_order server account symbol amount limit run)
unfolding perform_order take_result
perform_order-Leaves server account symbol amount limit run v =
    go (insert_order server account symbol amount limit run.session.db)
      (insert_order-IsValid server account symbol amount limit run.session.db v)
      (insert_order_grows server account symbol amount limit run.session.db)
      (raised-overflows server account symbol amount limit run.session.db)
  where
    go :
        (r : Option ℕ × Database)
        → IsValid r.1
        → run.session.db.next_unique_id ≤ r.1.next_unique_id
        → (r.0 ≡ none → fits 10 limit ≡ false)
        → Leaves (order symbol amount limit) run (take_code server symbol amount limit r run)
    go (none, db) w g raised =
        let wide : fits 10 limit ≡ false = raised refl in (v, omega arith, ground arith)
    go (some code, db) w g raised =
        let (after, e, i, more) = match_orders-IsValid server symbol db w in
        elim (Bool-cases (code == 4)) [
          | inl placed ↦ rw (placed, e) (i, omega arith, refl)
          | inr refused ↦ rw refused (v, omega arith, refl)
        ]

perform_query-Leaves :
    (server : Server) (account : String) (id : ℤ) (run : Run)
    → IsValid run.session.db
    → Leaves (query id) run (perform_query server account id run)
unfolding perform_query
perform_query-Leaves server account id run v =
    let (lines, e) = query_all_total server id run.session.db v in
    elim (Option-cases (find_first (belongs id account) run.session.db.orders)) [
      | inl other ↦ rw (other, perform_query) (v, omega arith, refl)
      | inr (r, mine) ↦ rw (mine, perform_query, e) (v, omega arith, refl)
    ]

alive_result : (a b c : Bool) → b ≡ false → (a || (b || c)) ≡ true → (a || (false || c)) ≡ true
alive_result a b c alive h = ground arith

-- Every operation keeps valid tables valid and gives no id back. It raises only where a statement had
-- failed before it, or for an <order> whose limit LIMIT_PRICE, DECIMAL(10, 2), has no room for.
pub perform-Leaves :
    (server : Server) (account : String) (op : Operation) (run : Run)
    → IsValid run.session.db
    → Leaves op run (perform server account op run)
unfolding perform
perform-Leaves server account (order sym amount limit) run v =
    elim (Bool-cases run.session.aborted) [
      | inl dead ↦ rw (dead, perform) (v, omega arith, ground arith)
      | inr alive ↦
          rw (alive, perform)
            (let (w, g, c) = perform_order-Leaves server account sym amount limit run v in
              (
                w,
                g,
                alive_result (perform_order server account sym amount limit run).0
                    run.session.aborted (overflows (order sym amount limit)) alive c,
              ))
    ]
perform-Leaves server account (cancel id) run v =
    (cancel_order-IsValid server id run.session v, cancel_order_grows server id run.session, refl)
perform-Leaves server account (query id) run v = elim (Bool-cases run.session.aborted) [
  | inl dead ↦ rw (dead, perform) (v, omega arith, ground arith)
  | inr alive ↦
      rw (alive, perform)
        (let (w, g, c) = perform_query-Leaves server account id run v in
          (
            w,
            g,
            alive_result (perform_query server account id run).0 run.session.aborted
                (overflows (query id)) alive c,
          ))
]
perform-Leaves server account (unknown_operation name) run v = (v, omega arith, refl)

perform_all-IsValid :
    (server : Server) (account : String) (ops : List Operation) (run : Run)
    → IsValid run.session.db
    → IsValid (perform_all server account ops run).1.session.db
      × (run.session.db.next_unique_id
          ≤ (perform_all server account ops run).1.session.db.next_unique_id)
unfolding perform_all
perform_all-IsValid server account [] run v = (v, omega arith)
perform_all-IsValid server account (op ∷ ops) run v =
    let (w, g, _) = perform-Leaves server account op run v in
    let (w', g') = perform_all-IsValid server account ops (perform server account op run).1 w in
    elim (Bool-cases (perform server account op run).0) [
      | inl more ↦ rw more (w', omega arith)
      | inr stop ↦ rw stop (w, g)
    ]

-- A rolled back transaction keeps the tables, and its numbers are not given again.
pub rolled_back-IsValid :
    (before during : Database)
    → before.next_unique_id ≤ during.next_unique_id
    → IsValid before
    → IsValid (rolled_back before during)
rolled_back-IsValid before during g v = record {
  keys = Rising-mono 0 (ids before.orders) _ _ g v.keys;
  all_settled = v.all_settled;
  numbered = v.numbered;
  solvent = v.solvent;
  owned = v.owned;
}

pub finish-IsValid :
    (server : Server) (x : Exchange) (end : Bool × Run)
    → IsValid x.db
    → IsValid end.1.session.db
    → x.db.next_unique_id ≤ end.1.session.db.next_unique_id
    → IsValid (finish server x end).1.db
unfolding finish
finish-IsValid server x (false, run) v w g = rolled_back-IsValid x.db run.session.db g v
finish-IsValid server x (true, run) v w g = elim (Bool-cases run.session.aborted) [
  | inl dead ↦ rw (dead, finish) (rolled_back-IsValid x.db run.session.db g v)
  | inr alive ↦ rw (alive, finish) w
]

-- A request leaves valid tables valid, whatever operations it holds and however it ends.
pub handle_transactions-IsValid :
    (server : Server) (account : String) (ops : List Operation) (x : Exchange)
    → IsValid x.db
    → IsValid (handle_transactions server account ops x).1.db
unfolding handle_transactions
handle_transactions-IsValid server account ops x v =
    let start : Run = record {
      session = live x.db;
      order_counter = x.order_counter;
      replies = [];
    } in
    let (w, g) = perform_all-IsValid server account ops start v in
    elim (Option-cases (find_account account x.db.accounts)) [
      | inl stranger ↦ rw (stranger, handle_transactions) v
      | inr (a, known) ↦
          rw (known, handle_transactions)
            (finish-IsValid server x (perform_all server account ops start) v w g)
    ]

-- The tables that a client can see.
abbrev pub SameTables : Database → Database → Type 0
SameTables a b =
    (a.accounts ≡ b.accounts)
    × (a.orders ≡ b.orders)
    × (a.transactions ≡ b.transactions)
    × (a.symbols ≡ b.symbols)

pub finish_atomic :
    (server : Server) (x : Exchange) (end : Bool × Run)
    → ((replies : List Reply) → (finish server x end).0 ≢ results replies)
    → SameTables (finish server x end).1.db x.db
unfolding finish
finish_atomic server x (false, run) h = (refl, refl, refl, refl)
finish_atomic server x (true, run) h = elim (Bool-cases run.session.aborted) [
  | inl dead ↦ rw (dead, finish) (refl, refl, refl, refl)
  | inr alive ↦ absurd (h run.replies (rw (alive, finish)))
]

-- A request that is not answered by results (its account does not exist, or an exception left the
-- loop) leaves the tables as they were: none of its operations takes effect.
pub handle_transactions_atomic :
    (server : Server) (account : String) (ops : List Operation) (x : Exchange)
    → ((replies : List Reply) → (handle_transactions server account ops x).0 ≢ results replies)
    → SameTables (handle_transactions server account ops x).1.db x.db
unfolding handle_transactions
handle_transactions_atomic server account ops x h =
    elim (Option-cases (find_account account x.db.accounts)) [
      | inl stranger ↦ rw (stranger, handle_transactions) (refl, refl, refl, refl)
      | inr (a, known) ↦
          rw (known, handle_transactions)
            (finish_atomic server x _ (λ replies e. h replies (rw (known, handle_transactions) e)))
    ]
