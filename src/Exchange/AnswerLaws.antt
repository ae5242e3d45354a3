-- ===== src/Exchange/AnswerLaws.antt =====
-- Whether the answers of the exchange are XML, request by request: database.cpp of
-- project4_stockexchange/docker-deploy/matching-engine.
use duke_ece.Prelude.{
  ℕ, ◌+◌, ◌==◌, String, Bool, true, false, List, [], ◌∷◌, Option, some, none, All, All-append,
  Bool-cases, Option-cases, inl, inr, find_first,
}
use duke_ece.Prelude.Int.{ℤ}
use duke_ece.Prelude.Bytes.{bytes}
use duke_ece.Exchange.Tables.{Database, Server, find_account}
use duke_ece.Exchange.Creation.{CreateElement, CreateReply, handle_creation}
use duke_ece.Exchange.Orders.{insert_order}
use duke_ece.Exchange.Matching.{match_orders}
use duke_ece.Exchange.Requests.{
  take_code, take_result, StatusLine, Reply, order_opened, status, Operation, order, cancel, query,
  unknown_operation, Run, live, matched, reply, answered, Exchange, perform_order, belongs,
  query_all, perform_query, perform, perform_all, finish, handle_transactions,
}
use duke_ece.Exchange.Xml.{Bytes}
use duke_ece.Exchange.Client.{creation, transactions}
use duke_ece.Exchange.Answers.{answer_text}
use duke_ece.Exchange.Nesting.{Nests, Plain, Quotable}
use duke_ece.Exchange.Markup.{UnmarkedElement, handle_creation-Nests}
use duke_ece.Exchange.Replies.{Texts, transactions_text}
use duke_ece.Exchange.ReplyMarkup.{
  UnmarkedTexts, UnmarkedReply, UnmarkedResponse, transactions_text-Nests,
}

abbrev pub UnmarkedOperation : Operation → Type 0
UnmarkedOperation (order symbol amount limit) = Quotable (bytes symbol)
UnmarkedOperation (cancel id) = Unit {0}
UnmarkedOperation (query id) = Unit {0}
UnmarkedOperation (unknown_operation name) = Plain (bytes name)

abbrev UnmarkedRun : Run → Type 0
UnmarkedRun run = All UnmarkedReply run.replies

reply-Unmarked :
    (run : Run) (r : Reply) → UnmarkedRun run → UnmarkedReply r → UnmarkedRun (reply run r)
reply-Unmarked run r h k = All-append UnmarkedReply run.replies (r ∷ []) h (k, tt)

matched-Unmarked :
    (run : Run) (after : Option Database) → UnmarkedRun run → UnmarkedRun (matched run after).1
matched-Unmarked run none h = h
matched-Unmarked run (some db) h = h

answered-Unmarked :
    (run : Run) (id : ℤ) (lines : Option (List StatusLine))
    → UnmarkedRun run
    → UnmarkedRun (answered run id lines).1
answered-Unmarked run id none h = h
answered-Unmarked run id (some lines) h = reply-Unmarked run (status id lines) h tt

perform_order-Unmarked :
    (server : Server) (account symbol : String) (amount limit : ℤ) (run : Run)
    → UnmarkedRun run
    → Quotable (bytes symbol)
    → UnmarkedRun (perform_order server account symbol amount limit run).1
unfolding perform_order take_result
perform_order-Unmarked server account symbol amount limit run h k =
    go (insert_order server account symbol amount limit run.session.db)
  where
    go : (r : Option ℕ × Database) → UnmarkedRun (take_code server symbol amount limit r run).1
    go (none, db) = h
    go (some code, db) = elim (Bool-cases (code == 4)) [
      | inl placed ↦ rw placed (
          matched-Unmarked _ (match_orders server symbol db) (
            All-append UnmarkedReply run.replies
              (order_opened symbol amount limit (run.order_counter + 1) ∷ []) h (k, tt)))
      | inr refused ↦ rw refused (reply-Unmarked run _ h tt)
    ]

perform_query-Unmarked :
    (server : Server) (account : String) (id : ℤ) (run : Run)
    → UnmarkedRun run
    → UnmarkedRun (perform_query server account id run).1
unfolding perform_query
perform_query-Unmarked server account id run h =
    elim (Option-cases (find_first (belongs id account) run.session.db.orders)) [
      | inl missing ↦ rw (missing, perform_query) (reply-Unmarked run _ h tt)
      | inr (o, there) ↦
          rw (there, perform_query)
            (answered-Unmarked run id (query_all server id run.session.db) h)
    ]

perform-Unmarked :
    (server : Server) (account : String) (op : Operation) (run : Run)
    → UnmarkedRun run
    → UnmarkedOperation op
    → UnmarkedRun (perform server account op run).1
unfolding perform
perform-Unmarked server account (order symbol amount limit) run h k =
    elim (Bool-cases run.session.aborted) [
      | inl dead ↦ rw (dead, perform) h
      | inr alive ↦
          rw (alive, perform) (perform_order-Unmarked server account symbol amount limit run h k)
    ]
perform-Unmarked server account (cancel id) run h k = reply-Unmarked run _ h tt
perform-Unmarked server account (query id) run h k = elim (Bool-cases run.session.aborted) [
  | inl dead ↦ rw (dead, perform) h
  | inr alive ↦ rw (alive, perform) (perform_query-Unmarked server account id run h)
]
perform-Unmarked server account (unknown_operation name) run h k = reply-Unmarked run _ h k

perform_all-Unmarked :
    (server : Server) (account : String) (ops : List Operation) (run : Run)
    → UnmarkedRun run
    → All UnmarkedOperation ops
    → UnmarkedRun (perform_all server account ops run).1
unfolding perform_all
perform_all-Unmarked server account [] run h k = h
perform_all-Unmarked server account (op ∷ ops) run h (k, l) =
    let g = perform-Unmarked server account op run h k in
    elim (Bool-cases (perform server account op run).0) [
      | inl more ↦
          rw more (perform_all-Unmarked server account ops (perform server account op run).1 g l)
      | inr stop ↦ rw stop g
    ]

finish-Unmarked :
    (server : Server) (x : Exchange) (r : Bool × Run)
    → UnmarkedRun r.1
    → UnmarkedResponse (finish server x r).0
unfolding finish
finish-Unmarked server x (false, run) h = tt
finish-Unmarked server x (true, run) h = elim (Bool-cases run.session.aborted) [
  | inr alive ↦ rw alive h
  | inl dead ↦ elim (Bool-cases server.commit_raises) [
    | inl raises ↦ rw (dead, raises) tt
    | inr silent ↦ rw (dead, silent) h
  ]
]

handle_transactions-Unmarked :
    (server : Server) (account : String) (ops : List Operation) (x : Exchange)
    → All UnmarkedOperation ops
    → UnmarkedResponse (handle_transactions server account ops x).0
unfolding handle_transactions
handle_transactions-Unmarked server account ops x h =
    let start : Run = record {
      session = live x.db;
      order_counter = x.order_counter;
      replies = [];
    } in
    elim (Option-cases (find_account account x.db.accounts)) [
      | inl stranger ↦ rw (stranger, handle_transactions) tt
      | inr (a, known) ↦
          rw (known, handle_transactions)
            (finish-Unmarked server x (perform_all server account ops start)
              (perform_all-Unmarked server account ops start tt h))
    ]

-- Where no name in a request, no id of an order, no time and no message of PostgreSQL has a mark that
-- XML reserves, the answers to <create> and to <transactions> nest: their tags and quotation marks
-- close what they open, on every branch of every operation, refusals and exceptions included.
pub answers-Nests :
    (what : CreateReply → Bytes) (messages : (r : CreateReply) → Plain (what r)) (t : Texts)
    (u : UnmarkedTexts t) (server : Server) (account : String) (es : List CreateElement)
    (ops : List Operation) (x : Exchange)
    → Quotable (bytes account)
    → All UnmarkedElement es
    → All UnmarkedOperation ops
    → Nests (answer_text what (transactions_text t account) (creation (handle_creation es x.db).0))
      × Nests (
          answer_text what
            (transactions_text t account)
            (transactions (handle_transactions server account ops x).0))
unfolding answer_text
answers-Nests what messages t u server account es ops x a h k = (
  handle_creation-Nests what messages (transactions_text t account) es x.db h,
  transactions_text-Nests t u account (handle_transactions server account ops x).0 a
      (handle_transactions-Unmarked server account ops x k),
)
