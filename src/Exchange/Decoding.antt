-- ===== src/Exchange/Decoding.antt =====
-- Requests that can be read and requests that are refused:
-- project4_stockexchange/docker-deploy/matching-engine/database.cpp.
use duke_ece.Prelude.{
  ◌≡◌, ◌∙◌, refl, ap, String, true, false, List, [], ◌∷◌, ◌++◌, Option, none, some, Bool-cases, inl,
  inr, select, find_first, if◌then◌else◌, ◌>>=◌, >>=-eq-some, some-eq,
}
use duke_ece.Prelude.Int.{ℤ}
use duke_ece.Exchange.Tables.{Database, Server}
use duke_ece.Exchange.Creation.{
  CreateElement, CreateReply, account, symbol, unknown_element, create_symbol, create_symbols,
  create_element, handle_creation,
}
use duke_ece.Exchange.Requests.{Exchange}
use duke_ece.Exchange.Xml.{Bytes, Xml, named, request_xml}
use duke_ece.Exchange.Client.{
  Made, made, stopped, ◌then_make◌, answer, read_shares, make_shares, make_symbol, make_account,
  make_element, make_elements, create_from, creation, replied, terminated, created, dispatch,
  handle_client_request,
}

-- All that is read, in order, or `none` where something is missing or is no number.
abbrev pub read_all : {A B : Type 0} → (A → Option B) → List A → Option (List B)
read_all f [] = some []
read_all f (x ∷ xs) = do y ← f x; ys ← read_all f xs; some (y ∷ ys)

module _ (xml : Xml) where
  -- The child of <create> that an element stands for.
  abbrev pub read_element : xml.Element → Option CreateElement
  read_element e =
      if named xml "account" e
      then (do id ← xml.attribute e "id"; some (account id (xml.double_attribute e "balance")))
      else if named xml "symbol" e
      then (do
        name ← xml.attribute e "sym"
        shares ← read_all (read_shares xml) (select (named xml "account") (xml.children e))
        some (symbol name shares))
      else some (unknown_element (xml.name e))

abbrev all_made : List CreateReply × Database → Made
all_made end = made end.0 end.1

made_then :
    (reply : CreateReply) (db : Database) (f : Database → Made) (end : List CreateReply × Database)
    → f db ≡ all_made end
    → (answer (reply, db) then_make f) ≡ made (reply ∷ end.0) end.1
made_then reply db f end e = rw e refl

stop_then :
    (replies : List CreateReply) (db : Database) (f : Database → Made) (last : Database)
    → f db ≡ stopped last
    → (made replies db then_make f) ≡ stopped last
stop_then replies db f last e = go (f db) e
  where
    go :
        (m : Made)
        → m ≡ stopped last
        → elim m as (λ _. Made) [
          | made more after ↦ made (replies ++ more) after
          | stopped after ↦ stopped after
        ]
          ≡ stopped last
    go m e = rw e refl

module _ (xml : Xml) where
  make_shares-eq :
      (name : String) (es : List xml.Element) (shares : List (String × ℤ)) (db : Database)
      → read_all (read_shares xml) es ≡ some shares
      → make_shares xml name es db ≡ all_made (create_symbols name shares db)
  unfolding make_shares create_symbols
  make_shares-eq name [] shares db e = ap (λ l. all_made (create_symbols name l db)) (some-eq e)
  make_shares-eq name (x ∷ es) shares db e =
      let (c, p, e₁) = >>=-eq-some (read_shares xml x) _ e in
      let (cs, q, e₂) = >>=-eq-some (read_all (read_shares xml) es) _ e₁ in
      let (reply, after) = create_symbol name c db in
      rw (p, make_shares)
        (made_then reply after (make_shares xml name es) (create_symbols name cs after)
          (make_shares-eq name es cs after q))
      ∙ ap (λ l. all_made (create_symbols name l db)) (some-eq e₂)

  make_element-eq :
      (e : xml.Element) (c : CreateElement) (db : Database)
      → read_element xml e ≡ some c
      → make_element xml e db ≡ all_made (create_element c db)
  unfolding make_element make_account make_symbol create_element
  make_element-eq e c db h = elim (Bool-cases (named xml "account" e)) [
    | inl is_account ↦
        let (id, p, e₁) = >>=-eq-some (xml.attribute e "id") _ (rw is_account at h) in
        rw (is_account, p, make_account) refl
        ∙ ap (λ x. all_made (create_element x db)) (some-eq e₁)
    | inr not_account ↦ elim (Bool-cases (named xml "symbol" e)) [
      | inl is_symbol ↦
          let h' = (rw (not_account, is_symbol) at h) in
          let (name, p, e₁) = >>=-eq-some (xml.attribute e "sym") _ h' in
          let (shares, q, e₂) =
            >>=-eq-some (read_all (read_shares xml) (select (named xml "account") (xml.children e)))
              _ e₁ in
          rw (not_account, is_symbol, p, make_symbol) (make_shares-eq name _ shares db q)
          ∙ ap (λ x. all_made (create_element x db)) (some-eq e₂)
      | inr not_symbol ↦
          rw (not_account, not_symbol) refl
          ∙ ap (λ x. all_made (create_element x db)) (some-eq (rw (not_account, not_symbol) at h))
    ]
  ]

  make_elements-eq :
      (es : List xml.Element) (cs : List CreateElement) (db : Database)
      → read_all (read_element xml) es ≡ some cs
      → make_elements xml es db ≡ all_made (handle_creation cs db)
  unfolding make_elements handle_creation
  make_elements-eq [] cs db h = ap (λ l. all_made (handle_creation l db)) (some-eq h)
  make_elements-eq (e ∷ es) cs db h =
      let (c, p, e₁) = >>=-eq-some (read_element xml e) _ h in
      let (rest, q, e₂) = >>=-eq-some (read_all (read_element xml) es) _ e₁ in
      let (replies, after) = create_element c db in
      rw (make_element-eq e c db p, make_elements-eq es rest after q) refl
      ∙ ap (λ l. all_made (handle_creation l db)) (some-eq e₂)

  -- A null pointer for the id of an <account> ends the loop behind the elements before it.
  make_elements-stopped :
      (good : List xml.Element) (bad : xml.Element) (rest : List xml.Element)
      (cs : List CreateElement) (db : Database)
      → read_all (read_element xml) good ≡ some cs
      → named xml "account" bad ≡ true
      → xml.attribute bad "id" ≡ none
      → make_elements xml (good ++ bad ∷ rest) db ≡ stopped (handle_creation cs db).1
  unfolding make_elements make_element make_account handle_creation
  make_elements-stopped [] bad rest cs db h is_account missing =
      rw (is_account, missing, make_account) refl
      ∙ ap (λ l. stopped (handle_creation l db).1) (some-eq h)
  make_elements-stopped (e ∷ good) bad rest cs db h is_account missing =
      let (c, p, e₁) = >>=-eq-some (read_element xml e) _ h in
      let (more, q, e₂) = >>=-eq-some (read_all (read_element xml) good) _ e₁ in
      let (replies, after) = create_element c db in
      let tail = make_elements-stopped good bad rest more after q is_account missing in
      ap (λ m. m then_make make_elements xml (good ++ bad ∷ rest)) (make_element-eq e c db p)
      ∙ stop_then replies after (make_elements xml (good ++ bad ∷ rest)) _ tail
      ∙ ap (λ l. stopped (handle_creation l db).1) (some-eq e₂)

-- A request whose <create> can be read is answered as handle_creation answers what it holds.
pub handle_client_request-handle_creation :
    (xml : Xml) (server : Server) (input : Bytes) (x : Exchange) (root : xml.Element)
    (cs : List CreateElement)
    → xml.error (request_xml input) ≡ false
    → find_first (named xml "create") (xml.top (request_xml input)) ≡ some root
    → read_all (read_element xml) (xml.children root) ≡ some cs
    → handle_client_request xml server input x
      ≡ replied
          (creation (handle_creation cs x.db).0)
          (record x { db = (handle_creation cs x.db).1 })
unfolding handle_client_request dispatch create_from
handle_client_request-handle_creation xml server input x root cs parsed there readable =
    rw (parsed, there, dispatch, parsed, there, create_from)
      (ap (created x) (make_elements-eq xml (xml.children root) cs x.db readable))

-- One <account> without an id ends the whole process; what stood before it has been created.
pub handle_client_request_terminated :
    (xml : Xml) (server : Server) (input : Bytes) (x : Exchange) (root : xml.Element)
    (good : List xml.Element) (bad : xml.Element) (rest : List xml.Element)
    (cs : List CreateElement)
    → xml.error (request_xml input) ≡ false
    → find_first (named xml "create") (xml.top (request_xml input)) ≡ some root
    → xml.children root ≡ good ++ bad ∷ rest
    → read_all (read_element xml) good ≡ some cs
    → named xml "account" bad ≡ true
    → xml.attribute bad "id" ≡ none
    → handle_client_request xml server input x
      ≡ terminated (record x { db = (handle_creation cs x.db).1 })
unfolding handle_client_request dispatch create_from
handle_client_request_terminated xml server input x root good bad rest cs parsed there is readable a
      m =
    rw (parsed, there, dispatch, parsed, there, create_from, is)
      (ap (created x) (make_elements-stopped xml good bad rest cs x.db readable a m))
