-- ===== src/Exchange/ClientLaws.antt =====
-- What any request, well formed or not, leaves behind:
-- project4_stockexchange/docker-deploy/matching-engine/database.cpp.
use duke_ece.Prelude.{
  ◌≤◌, Bool, String, List, [], ◌∷◌, ◌++◌, arith, Bool-cases, Option-cases, inl, inr, find_first,
  ◌>>=◌,
}
use duke_ece.Exchange.Tables.{Database, Server, find_account}
use duke_ece.Exchange.Creation.{create_symbol}
use duke_ece.Exchange.Requests.{Exchange, Run, Operation, order, cancel, query, perform}
use duke_ece.Exchange.Validity.{IsValid}
use duke_ece.Exchange.Service.{perform-Leaves, finish-IsValid}
use duke_ece.Exchange.CreationLaws.{create_account-IsValid, create_symbol-IsValid}
use duke_ece.Exchange.Xml.{Bytes, Xml, named, request_xml}
use duke_ece.Exchange.Client.{
  Made, made, stopped, ◌then_make◌, answer, read_shares, make_shares, make_symbol, make_account,
  make_element, make_elements, create_from, Handled, replied, terminated, created, cancel_text,
  query_text, order_text, perform_element, perform_elements, first_run, transact, transact_from,
  dispatch, handle_client_request,
}

-- The tables that the loops of handle_creation have come to, also where an exception ended them.
abbrev pub tables : Made → Database
tables (made replies db) = db
tables (stopped db) = db

then_make-IsValid :
    (m : Made) (f : Database → Made)
    → IsValid (tables m)
    → ((db : Database) → IsValid db → IsValid (tables (f db)))
    → IsValid (tables (m then_make f))
then_make-IsValid (stopped db) f v keep = v
then_make-IsValid (made replies db) f v keep = go (f db) (keep db v)
  where
    go :
        (m : Made)
        → IsValid (tables m)
        → IsValid (
            tables (elim m as (λ _. Made) [
              | made more after ↦ made (replies ++ more) after
              | stopped after ↦ stopped after
            ]))
    go (made more after) w = w
    go (stopped after) w = w

-- What one operation does to a run, in a request that may stop at any child.
abbrev Keeps : Run → Bool × Run → Type 0
Keeps before (continues, after) =
    IsValid after.session.db × (before.session.db.next_unique_id ≤ after.session.db.next_unique_id)

-- What the process, or its database, has after a request.
abbrev pub left_by : Handled → Exchange
left_by (replied answer x) = x
left_by (terminated x) = x

created-IsValid :
    (x : Exchange) (m : Made) → IsValid (tables m) → IsValid (left_by (created x m)).db
created-IsValid x (made replies db) v = v
created-IsValid x (stopped db) v = v

module _ (xml : Xml) where
  make_shares-IsValid :
      (sym : String) (es : List xml.Element) (db : Database)
      → IsValid db
      → IsValid (tables (make_shares xml sym es db))
  unfolding make_shares
  make_shares-IsValid sym [] db v = v
  make_shares-IsValid sym (e ∷ es) db v = elim (Option-cases (read_shares xml e)) [
    | inl unreadable ↦ rw (unreadable, make_shares) v
    | inr (child, readable) ↦
        rw (readable, make_shares)
          (then_make-IsValid (answer (create_symbol sym child db)) (make_shares xml sym es)
            (create_symbol-IsValid sym child db v) (make_shares-IsValid sym es))
  ]

  make_element-IsValid :
      (e : xml.Element) (db : Database) → IsValid db → IsValid (tables (make_element xml e db))
  unfolding make_element make_account make_symbol
  make_element-IsValid e db v = elim (Bool-cases (named xml "account" e)) [
    | inl is_account ↦ rw is_account (elim (Option-cases (xml.attribute e "id")) [
      | inl missing ↦ rw (missing, make_account) v
      | inr (id, there) ↦ rw (there, make_account) (create_account-IsValid id _ db v)
    ])
    | inr not_account ↦ elim (Bool-cases (named xml "symbol" e)) [
      | inl is_symbol ↦
          rw (not_account, is_symbol)
            (elim (Option-cases (xml.attribute e "sym")) [
              | inl missing ↦ rw (missing, make_symbol) v
              | inr (sym, there) ↦ rw (there, make_symbol) (make_shares-IsValid sym _ db v)
            ])
      | inr not_symbol ↦ rw (not_account, not_symbol) v
    ]
  ]

  make_elements-IsValid :
      (es : List xml.Element) (db : Database)
      → IsValid db
      → IsValid (tables (make_elements xml es db))
  unfolding make_elements
  make_elements-IsValid [] db v = v
  make_elements-IsValid (e ∷ es) db v =
      then_make-IsValid (make_element xml e db) (make_elements xml es) (make_element-IsValid e db v)
        (make_elements-IsValid es)

  perform-Keeps :
      (server : Server) (account : String) (op : Operation) (run : Run)
      → IsValid run.session.db
      → Keeps run (perform server account op run)
  perform-Keeps server account op run v =
      let (w, g, _) = perform-Leaves server account op run v in (w, g)

  cancel_text-Keeps :
      (server : Server) (account id : String) (run : Run)
      → IsValid run.session.db
      → Keeps run (cancel_text xml server account id run)
  unfolding cancel_text
  cancel_text-Keeps server account id run v = elim (Option-cases (xml.order_number id)) [
    | inl unreadable ↦ rw (unreadable, cancel_text) (v, omega arith)
    | inr (n, number) ↦ rw (number, cancel_text) (perform-Keeps server account (cancel n) run v)
  ]

  query_text-Keeps :
      (server : Server) (account : String) (e : xml.Element) (run : Run)
      → IsValid run.session.db
      → Keeps run (query_text xml server account e run)
  unfolding query_text
  query_text-Keeps server account e run v =
      elim (Option-cases (xml.attribute e "id" >>= xml.order_number)) [
        | inl unreadable ↦ rw (unreadable, query_text) (v, omega arith)
        | inr (n, number) ↦ rw (number, query_text) (perform-Keeps server account (query n) run v)
      ]

  order_text-Keeps :
      (server : Server) (account : String) (e : xml.Element) (run : Run)
      → IsValid run.session.db
      → Keeps run (order_text xml server account e run)
  unfolding order_text
  order_text-Keeps server account e run v = elim (Option-cases (xml.attribute e "sym")) [
    | inl missing ↦ rw (missing, order_text) (v, omega arith)
    | inr (sym, there) ↦ rw (there, order_text) (perform-Keeps server account (order sym _ _) run v)
  ]

  perform_element-Keeps :
      (server : Server) (account : String) (e : xml.Element) (run : Run)
      → IsValid run.session.db
      → Keeps run (perform_element xml server account e run)
  unfolding perform_element
  perform_element-Keeps server account e run v = elim (Bool-cases (named xml "order" e)) [
    | inl is_order ↦ rw is_order (order_text-Keeps server account e run v)
    | inr not_order ↦ elim (Bool-cases (named xml "cancel" e)) [
      | inl is_cancel ↦
          rw (not_order, is_cancel)
            (elim (Option-cases (xml.attribute e "id")) [
              | inl missing ↦ rw (missing, perform_element) (v, omega arith)
              | inr (id, there) ↦
                  rw (there, perform_element) (cancel_text-Keeps server account id run v)
            ])
      | inr not_cancel ↦ elim (Bool-cases (named xml "query" e)) [
        | inl is_query ↦
            rw (not_order, not_cancel, is_query) (query_text-Keeps server account e run v)
        | inr not_query ↦
            rw (not_order, not_cancel, not_query) (perform-Keeps server account _ run v)
      ]
    ]
  ]

  perform_elements-Keeps :
      (server : Server) (account : String) (es : List xml.Element) (run : Run)
      → IsValid run.session.db
      → Keeps run (perform_elements xml server account es run)
  unfolding perform_elements
  perform_elements-Keeps server account [] run v = (v, omega arith)
  perform_elements-Keeps server account (e ∷ es) run v =
      let (w, g) = perform_element-Keeps server account e run v in
      let (w', g') =
        perform_elements-Keeps server account es (perform_element xml server account e run).1 w in
      elim (Bool-cases (perform_element xml server account e run).0) [
        | inl more ↦ rw more (w', omega arith)
        | inr stop ↦ rw stop (w, g)
      ]

  pub transact-IsValid :
      (server : Server) (account : String) (es : List xml.Element) (x : Exchange)
      → IsValid x.db
      → IsValid (transact xml server account es x).1.db
  unfolding transact
  transact-IsValid server account es x v =
      let (w, g) = perform_elements-Keeps server account es (first_run x) v in
      elim (Option-cases (find_account account x.db.accounts)) [
        | inl stranger ↦ rw (stranger, transact) v
        | inr (a, known) ↦
            rw (known, transact)
              (finish-IsValid server x (perform_elements xml server account es (first_run x)) v w g)
      ]

  create_from-IsValid :
      (request : Bytes) (x : Exchange)
      → IsValid x.db
      → IsValid (left_by (create_from xml request x)).db
  unfolding create_from
  create_from-IsValid request x v = elim (Bool-cases (xml.error request)) [
    | inl broken ↦ rw broken v
    | inr parsed ↦ elim (Option-cases (find_first (named xml "create") (xml.top request))) [
      | inl missing ↦ rw (parsed, missing, create_from) v
      | inr (root, there) ↦
          rw (parsed, there, create_from)
            (created-IsValid x (make_elements xml (xml.children root) x.db)
              (make_elements-IsValid (xml.children root) x.db v))
    ]
  ]

  transact_from-IsValid :
      (server : Server) (request : Bytes) (x : Exchange)
      → IsValid x.db
      → IsValid (left_by (transact_from xml server request x)).db
  unfolding transact_from
  transact_from-IsValid server request x v =
      elim (Option-cases (find_first (named xml "transactions") (xml.top request))) [
        | inl missing ↦ rw (missing, transact_from) v
        | inr (root, there) ↦ elim (Option-cases (xml.attribute root "id")) [
          | inl nameless ↦ rw (there, transact_from, nameless, transact_from) v
          | inr (account, named_so) ↦
              rw (there, transact_from, named_so, transact_from)
                (transact-IsValid server account (xml.children root) x v)
        ]
      ]

  dispatch-IsValid :
      (server : Server) (request : Bytes) (x : Exchange)
      → IsValid x.db
      → IsValid (left_by (dispatch xml server request x)).db
  unfolding dispatch
  dispatch-IsValid server request x v = elim (Bool-cases (xml.error request)) [
    | inl broken ↦ rw broken v
    | inr parsed ↦ elim (Option-cases (find_first (named xml "create") (xml.top request))) [
      | inr (root, there) ↦ rw (parsed, there, dispatch) (create_from-IsValid request x v)
      | inl missing ↦
          elim (Option-cases (find_first (named xml "transactions") (xml.top request))) [
            | inl neither ↦ rw (parsed, missing, dispatch, neither, dispatch) v
            | inr (root, there) ↦
                rw (parsed, missing, dispatch, there, dispatch)
                  (transact_from-IsValid server request x v)
          ]
    ]
  ]

-- Whatever bytes a client sends and whatever the parser makes of them, valid tables stay valid, also
-- where an exception ends the process.
pub handle_client_request-IsValid :
    (xml : Xml) (server : Server) (input : Bytes) (x : Exchange)
    → IsValid x.db
    → IsValid (left_by (handle_client_request xml server input x)).db
unfolding handle_client_request
handle_client_request-IsValid xml server input x v =
    dispatch-IsValid xml server (request_xml input) x v
