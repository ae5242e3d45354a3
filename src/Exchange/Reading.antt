-- ===== src/Exchange/Reading.antt =====
-- Transactions that can be read, and requests that are refused:
-- project4_stockexchange/docker-deploy/matching-engine/database.cpp.
use duke_ece.Prelude.{
  ◌≡◌, ◌∙◌, refl, sym, ap, String, false, List, [], ◌∷◌, Option, none, some, Bool-cases,
  Option-cases, inl, inr, find_first, if◌then◌else◌, ◌>>=◌, >>=-eq-some, some-eq,
}
use duke_ece.Exchange.Tables.{Server, find_account}
use duke_ece.Exchange.Requests.{
  Exchange, no_account, Run, finish, Operation, order, cancel, query, unknown_operation, perform,
  perform_all, handle_transactions,
}
use duke_ece.Exchange.Xml.{Bytes, Xml, named, request_xml}
use duke_ece.Exchange.Decoding.{read_all}
use duke_ece.Exchange.Client.{
  transacted, cancel_text, query_text, order_text, perform_element, perform_elements, first_run,
  transact, transact_from, dispatch, handle_client_request,
}

module _ (xml : Xml) where
  -- The operation that a child of <transactions> stands for.
  abbrev pub read_operation : xml.Element → Option Operation
  read_operation e =
      if named xml "order" e
      then (do
        name ← xml.attribute e "sym"
        some (order name (xml.double_attribute e "amount") (xml.double_attribute e "limit")))
      else if named xml "cancel" e
      then (do id ← xml.attribute e "id"; n ← xml.order_number id; some (cancel n))
      else if named xml "query" e
      then (do n ← (xml.attribute e "id" >>= xml.order_number); some (query n))
      else some (unknown_operation (xml.name e))

module _ (xml : Xml) (server : Server) (account : String) where
  perform_element-eq :
      (e : xml.Element) (op : Operation) (run : Run)
      → read_operation xml e ≡ some op
      → perform_element xml server account e run ≡ perform server account op run
  unfolding perform_element order_text cancel_text query_text
  perform_element-eq e op run h = elim (Bool-cases (named xml "order" e)) [
    | inl is_order ↦
        let (name, p, e₁) = >>=-eq-some (xml.attribute e "sym") _ (rw is_order at h) in
        rw (is_order, p, order_text) refl ∙ ap (λ o. perform server account o run) (some-eq e₁)
    | inr not_order ↦ elim (Bool-cases (named xml "cancel" e)) [
      | inl is_cancel ↦
          let h' = (rw (not_order, is_cancel) at h) in
          let (id, p, e₁) = >>=-eq-some (xml.attribute e "id") _ h' in
          let (n, q, e₂) = >>=-eq-some (xml.order_number id) _ e₁ in
          rw (not_order, is_cancel, p, perform_element, q, cancel_text) refl
          ∙ ap (λ o. perform server account o run) (some-eq e₂)
      | inr not_cancel ↦ elim (Bool-cases (named xml "query" e)) [
        | inl is_query ↦
            let h' = (rw (not_order, not_cancel, is_query) at h) in
            let (n, p, e₁) = >>=-eq-some (xml.attribute e "id" >>= xml.order_number) _ h' in
            rw (not_order, not_cancel, is_query, p, query_text) refl
            ∙ ap (λ o. perform server account o run) (some-eq e₁)
        | inr not_query ↦
            rw (not_order, not_cancel, not_query) refl
            ∙ ap (λ o. perform server account o run)
                (some-eq (rw (not_order, not_cancel, not_query) at h))
      ]
    ]
  ]

  perform_elements-eq :
      (es : List xml.Element) (ops : List Operation) (run : Run)
      → read_all (read_operation xml) es ≡ some ops
      → perform_elements xml server account es run ≡ perform_all server account ops run
  unfolding perform_elements perform_all
  perform_elements-eq [] ops run h = ap (λ l. perform_all server account l run) (some-eq h)
  perform_elements-eq (e ∷ es) ops run h =
      let (op, p, e₁) = >>=-eq-some (read_operation xml e) _ h in
      let (rest, q, e₂) = >>=-eq-some (read_all (read_operation xml) es) _ e₁ in
      let (continues, after) = perform server account op run in
      rw (perform_element-eq e op run p) (elim (Bool-cases continues) [
        | inl more ↦ rw (more, perform_elements-eq es rest after q) refl
        | inr stop ↦ rw stop refl
      ])
      ∙ ap (λ l. perform_all server account l run) (some-eq e₂)

  transact-eq :
      (es : List xml.Element) (ops : List Operation) (x : Exchange)
      → read_all (read_operation xml) es ≡ some ops
      → transact xml server account es x ≡ handle_transactions server account ops x
  unfolding transact handle_transactions
  transact-eq es ops x h = elim (Option-cases (find_account account x.db.accounts)) [
    | inl stranger ↦
        let theirs : handle_transactions server account ops x ≡ (no_account, x) =
          (rw (stranger, handle_transactions) refl) in
        rw (stranger, transact) (sym theirs)
    | inr (a, known) ↦
        let theirs : handle_transactions server account ops x
            ≡ finish server x (perform_all server account ops (first_run x)) =
          (rw (known, handle_transactions) refl) in
        rw (known, transact)
          (ap (finish server x) (perform_elements-eq es ops (first_run x) h) ∙ sym theirs)
  ]

-- A request whose <transactions> can be read is answered as handle_transactions answers the
-- operations that it holds.
pub handle_client_request-handle_transactions :
    (xml : Xml) (server : Server) (input : Bytes) (x : Exchange) (root : xml.Element)
    (account : String) (ops : List Operation)
    → xml.error (request_xml input) ≡ false
    → find_first (named xml "create") (xml.top (request_xml input)) ≡ none
    → find_first (named xml "transactions") (xml.top (request_xml input)) ≡ some root
    → xml.attribute root "id" ≡ some account
    → read_all (read_operation xml) (xml.children root) ≡ some ops
    → handle_client_request xml server input x
      ≡ transacted (handle_transactions server account ops x)
unfolding handle_client_request dispatch transact_from
handle_client_request-handle_transactions xml server input x root account ops ok no_create there a
      h =
    rw (ok, no_create, dispatch, there, dispatch, there, transact_from, a, transact_from)
      (ap transacted (transact-eq xml server account (xml.children root) ops x h))
