-- ===== src/Exchange/Client.antt =====
-- handle_client_request, handle_creation and handle_transactions of
-- project4_stockexchange/docker-deploy/matching-engine/database.cpp on the text of a request, and
-- Server::handleClient of server.cpp.
mod Tests
use duke_ece.Prelude.Int.{ℤ}
use duke_ece.Prelude.{
  ◌>>=◌, ℕ, zero, suc, ◌==◌, String, Bool, true, false, List, [], ◌∷◌, ◌++◌, Option, some, none,
  select, find_first, str_eq, if◌then◌else◌,
}
use duke_ece.Exchange.Tables.{Database, Server, find_account}
use duke_ece.Exchange.Creation.{CreateReply, unknown_reply, create_account, create_symbol}
use duke_ece.Exchange.Requests.{
  Operation, order, cancel, query, unknown_operation, Run, reply, cancel_unreadable, live, perform,
  finish, Exchange, Response, no_account,
}
use duke_ece.Exchange.Xml.{Bytes, Xml, named, request_xml}

-- How the loops of handle_creation go on: the replies and the tables so far; or an exception outside
-- the try blocks, which leaves the thread, and so ends the process.
pub data Made : Type 0 where
  made : List CreateReply → Database → Made
  stopped : Database → Made

infixl 5 ◌then_make◌
abbrev pub ◌then_make◌ : Made → (Database → Made) → Made
stopped db then_make f = stopped db
made replies db then_make f = elim (f db) [
  | made more after ↦ made (replies ++ more) after
  | stopped after ↦ stopped after
]

abbrev pub answer : CreateReply × Database → Made
answer (reply, db) = made (reply ∷ []) db

-- `read(client_fd, buffer, 1023)`.
unfoldable pub at_most : ℕ → Bytes → Bytes
at_most n [] = []
at_most zero (c ∷ s) = []
at_most (suc n) (c ∷ s) = c ∷ at_most n s

-- `string(buffer)`, up to the first zero byte.
unfoldable pub c_string : Bytes → Bytes
c_string [] = []
c_string (c ∷ s) = if c == 0 then [] else c ∷ c_string s

unfoldable pub received : Bytes → Bytes
received arrived = c_string (at_most 1023 arrived)

-- How a request ends.
pub data Answer : Type 0 where
  invalid_xml not_accepted missing_create missing_transactions : Answer
  creation : List CreateReply → Answer
  transactions : Response → Answer

pub data Handled : Type 0 where
  replied : Answer → Exchange → Handled
  terminated : Exchange → Handled

abbrev pub created : Exchange → Made → Handled
created x (made replies db) = replied (creation replies) (record x { db = db })
created x (stopped db) = terminated (record x { db = db })

abbrev pub transacted : Response × Exchange → Handled
transacted (response, x) = replied (transactions response) x

abbrev pub first_run : Exchange → Run
first_run x = record { session = live x.db; order_counter = x.order_counter; replies = [] }

module _ (xml : Xml) where
  open xml use {Element, error, top, name, children, attribute, double_attribute}
  open xml use {text, stod, order_number}

  -- An <account> of a <symbol>: the attribute `id`, then std::stod of the text.
  unfoldable pub read_shares : Element → Option (String × ℤ)
  read_shares e = do id ← attribute e "id"; t ← text e; shares ← stod t; some (id, shares)

  unfoldable pub make_shares : String → List Element → Database → Made
  make_shares sym [] db = made [] db
  make_shares sym (e ∷ es) db = elim (read_shares e) [
    | none ↦ stopped db
    | some child ↦ answer (create_symbol sym child db) then_make make_shares sym es
  ]

  unfoldable pub make_symbol : Element → Database → Made
  make_symbol e db = elim (attribute e "sym") [
    | none ↦ stopped db
    | some sym ↦ make_shares sym (select (named xml "account") (children e)) db
  ]

  unfoldable pub make_account : Element → Database → Made
  make_account e db = elim (attribute e "id") [
    | none ↦ stopped db
    | some id ↦ answer (create_account id (double_attribute e "balance") db)
  ]

  -- One child of <create>.
  unfoldable pub make_element : Element → Database → Made
  make_element e db =
      if named xml "account" e
      then make_account e db
      else if named xml "symbol" e
      then make_symbol e db
      else made (unknown_reply (name e) ∷ []) db

  unfoldable pub make_elements : List Element → Database → Made
  make_elements [] db = made [] db
  make_elements (e ∷ es) db = make_element e db then_make make_elements es

  -- handle_creation, from the text.
  unfoldable pub create_from : Bytes → Exchange → Handled
  create_from request x =
      if error request
      then replied invalid_xml x
      else elim (find_first (named xml "create") (top request)) [
        | none ↦ replied missing_create x
        | some root ↦ created x (make_elements (children root) x.db)
      ]

  -- A <cancel> whose id is no integer: the SELECT fails, and cancelOrder catches that.
  unfoldable pub cancel_text : Server → String → String → Run → Bool × Run
  cancel_text server account id run = elim (order_number id) [
    | some n ↦ perform server account (cancel n) run
    | none ↦
        let failed = record run { session = record { db = run.session.db; aborted = true } } in
        (true, reply failed (cancel_unreadable id))
  ]

  -- A <query>: a null pointer for its id, and a failed SELECT, are exceptions that leave the loop.
  unfoldable pub query_text : Server → String → Element → Run → Bool × Run
  query_text server account e run = elim (attribute e "id" >>= order_number) [
    | none ↦ (false, run)
    | some n ↦ perform server account (query n) run
  ]

  unfoldable pub order_text : Server → String → Element → Run → Bool × Run
  order_text server account e run = elim (attribute e "sym") [
    | none ↦ (false, run)
    | some sym ↦
        perform server account
          (order sym (double_attribute e "amount") (double_attribute e "limit")) run
  ]

  -- One child of <transactions>.
  unfoldable pub perform_element : Server → String → Element → Run → Bool × Run
  perform_element server account e run =
      if named xml "order" e
      then order_text server account e run
      else if named xml "cancel" e
      then elim (attribute e "id") [
        | none ↦ (false, run)
        | some id ↦ cancel_text server account id run
      ]
      else if named xml "query" e
      then query_text server account e run
      else perform server account (unknown_operation (name e)) run

  unfoldable pub perform_elements : Server → String → List Element → Run → Bool × Run
  perform_elements server account [] run = (true, run)
  perform_elements server account (e ∷ es) run =
      let (continues, after) = perform_element server account e run in
      let rest = perform_elements server account es after in
      if continues then rest else (false, after)

  -- handle_transactions behind the check of the account's attribute.
  unfoldable pub transact : Server → String → List Element → Exchange → Response × Exchange
  transact server account es x = elim (find_account account x.db.accounts) [
    | none ↦ (no_account, x)
    | some _ ↦ finish server x (perform_elements server account es (first_run x))
  ]

  -- handle_transactions, from the text.
  unfoldable pub transact_from : Server → Bytes → Exchange → Handled
  transact_from server request x = elim (find_first (named xml "transactions") (top request)) [
    | none ↦ replied missing_transactions x
    | some root ↦ elim (attribute root "id") [
      | none ↦ terminated x
      | some account ↦ transacted (transact server account (children root) x)
    ]
  ]

  unfoldable pub dispatch : Server → Bytes → Exchange → Handled
  dispatch server request x =
      if error request
      then replied invalid_xml x
      else elim (find_first (named xml "create") (top request)) [
        | some _ ↦ create_from request x
        | none ↦ elim (find_first (named xml "transactions") (top request)) [
          | some _ ↦ transact_from server request x
          | none ↦ replied not_accepted x
        ]
      ]

  unfoldable pub handle_client_request : Server → Bytes → Exchange → Handled
  handle_client_request server input x = dispatch server (request_xml input) x

  -- Server::handleClient, on the bytes that have come when it reads; `none` is a failed `read`, after
  -- which nothing is answered.
  unfoldable pub handle_client : Server → Option Bytes → Exchange → Option Handled
  handle_client server none x = none
  handle_client server (some arrived) x = some (handle_client_request server (received arrived) x)
