-- ===== src/Exchange/Refusals.antt =====
-- Requests that are answered by an error of the whole request:
-- project4_stockexchange/docker-deploy/matching-engine/database.cpp.
use duke_ece.Prelude.{
  ◌≡◌, refl, subst, Bool, String, true, false, List, Bool-cases, Option-cases, inl, inr, find_first,
}
use duke_ece.Exchange.Tables.{Server, find_account}
use duke_ece.Exchange.Requests.{Exchange, no_account, failed, results, Run, finish}
use duke_ece.Exchange.Xml.{Bytes, Xml, named, request_xml}
use duke_ece.Exchange.Client.{
  Made, made, stopped, Answer, invalid_xml, not_accepted, missing_create, missing_transactions,
  creation, transactions, Handled, replied, terminated, created, transacted, create_from,
  make_elements, perform_elements, first_run, transact, transact_from, dispatch,
  handle_client_request,
}

-- The answers that are one error for the whole request, before any of it is performed.
abbrev pub refused : Answer → Bool
refused invalid_xml = true
refused not_accepted = true
refused missing_create = true
refused missing_transactions = true
refused (creation replies) = false
refused (transactions no_account) = true
refused (transactions failed) = false
refused (transactions (results replies)) = false

-- Where the answer is such an error, nothing has changed.
abbrev Unchanged : Exchange → Handled → Type 0
Unchanged x (replied a after) = refused a ≡ true → after ≡ x
Unchanged x (terminated after) = Unit {0}

created-Unchanged : (x : Exchange) (m : Made) → Unchanged x (created x m)
created-Unchanged x (made replies db) = λ h. cc
created-Unchanged x (stopped db) = tt

finish-Unchanged :
    (server : Server) (x : Exchange) (end : Bool × Run)
    → Unchanged x (transacted (finish server x end))
unfolding finish
finish-Unchanged server x (false, run) = λ h. cc
finish-Unchanged server x (true, run) = elim (Bool-cases run.session.aborted) [
  | inl dead ↦ elim (Bool-cases server.commit_raises) [
    | inl raises ↦ rw (dead, finish, raises) (λ h. cc)
    | inr quiet ↦ rw (dead, finish, quiet) (λ h. cc)
  ]
  | inr alive ↦ rw (alive, finish) (λ h. cc)
]

module _ (xml : Xml) where
  create_from-Unchanged : (request : Bytes) (x : Exchange) → Unchanged x (create_from xml request x)
  unfolding create_from
  create_from-Unchanged request x = elim (Bool-cases (xml.error request)) [
    | inl broken ↦ rw broken (λ h. refl)
    | inr parsed ↦ elim (Option-cases (find_first (named xml "create") (xml.top request))) [
      | inl missing ↦ rw (parsed, missing, create_from) (λ h. refl)
      | inr (root, there) ↦
          rw (parsed, there, create_from)
            (created-Unchanged x (make_elements xml (xml.children root) x.db))
    ]
  ]

  transact-Unchanged :
      (server : Server) (account : String) (es : List xml.Element) (x : Exchange)
      → Unchanged x (transacted (transact xml server account es x))
  unfolding transact
  transact-Unchanged server account es x =
      elim (Option-cases (find_account account x.db.accounts)) [
        | inl stranger ↦ rw (stranger, transact) (λ h. refl)
        | inr (a, known) ↦
            rw (known, transact)
              (finish-Unchanged server x (perform_elements xml server account es (first_run x)))
      ]

  transact_from-Unchanged :
      (server : Server) (request : Bytes) (x : Exchange)
      → Unchanged x (transact_from xml server request x)
  unfolding transact_from
  transact_from-Unchanged server request x =
      elim (Option-cases (find_first (named xml "transactions") (xml.top request))) [
        | inl missing ↦ rw (missing, transact_from) (λ h. refl)
        | inr (root, there) ↦ elim (Option-cases (xml.attribute root "id")) [
          | inl nameless ↦ rw (there, transact_from, nameless, transact_from) tt
          | inr (account, so) ↦
              rw (there, transact_from, so, transact_from)
                (transact-Unchanged server account (xml.children root) x)
        ]
      ]

  dispatch-Unchanged :
      (server : Server) (request : Bytes) (x : Exchange)
      → Unchanged x (dispatch xml server request x)
  unfolding dispatch
  dispatch-Unchanged server request x = elim (Bool-cases (xml.error request)) [
    | inl broken ↦ rw broken (λ h. refl)
    | inr parsed ↦ elim (Option-cases (find_first (named xml "create") (xml.top request))) [
      | inr (root, there) ↦ rw (parsed, there, dispatch) (create_from-Unchanged request x)
      | inl missing ↦
          elim (Option-cases (find_first (named xml "transactions") (xml.top request))) [
            | inl neither ↦ rw (parsed, missing, dispatch, neither, dispatch) (λ h. refl)
            | inr (root, there) ↦
                rw (parsed, missing, dispatch, there, dispatch)
                  (transact_from-Unchanged server request x)
          ]
    ]
  ]

-- A request that is answered by one error for the whole of it (invalid XML, a root that is missing or
-- not accepted, an account that does not exist) has changed nothing: no table, no number.
pub handle_client_request-refused :
    (xml : Xml) (server : Server) (input : Bytes) (x : Exchange) (a : Answer) (after : Exchange)
    → handle_client_request xml server input x ≡ replied a after
    → refused a ≡ true
    → after ≡ x
unfolding handle_client_request
handle_client_request-refused xml server input x a after e h =
    subst (Unchanged x) e (dispatch-Unchanged xml server (request_xml input) x) h
