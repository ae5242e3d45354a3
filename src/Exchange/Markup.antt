-- ===== src/Exchange/Markup.antt =====
-- Whether the answer to <create> is XML: handle_creation of database.cpp,
-- project4_stockexchange/docker-deploy/matching-engine.
use duke_ece.Prelude.{
  ◌≡◌, ◌∙◌, refl, sym, String, List, [], ◌∷◌, ◌++◌, some, All, All-append, Option-cases, inl, inr,
}
use duke_ece.Prelude.Int.{ℤ}
use duke_ece.Prelude.Bytes.{bytes}
use duke_ece.Exchange.Tables.{Database}
use duke_ece.Exchange.Creation.{
  CreateElement, account, symbol, unknown_element, CreateReply, created_account, failed_account,
  created_symbol, failed_symbol, unknown_reply, insert_account, insert_symbol, create_account,
  create_symbol, create_symbols, create_element, handle_creation,
}
use duke_ece.Exchange.Requests.{Response}
use duke_ece.Exchange.Xml.{Bytes}
use duke_ece.Exchange.Client.{creation}
use duke_ece.Exchange.Answers.{
  line_end, attribute_text, error_end, creation_line, creation_lines, framed, answer_text,
}
use duke_ece.Exchange.Nesting.{
  in_content, read, Nests, Plain, Quotable, read-append, read-value, read-text,
}

-- The names that a reply repeats have no mark that XML reserves.
abbrev pub Unmarked : CreateReply → Type 0
Unmarked (created_account id) = Quotable (bytes id)
Unmarked (failed_account id) = Quotable (bytes id)
Unmarked (created_symbol sym id) = Quotable (bytes sym) × Quotable (bytes id)
Unmarked (failed_symbol sym id) = Quotable (bytes sym) × Quotable (bytes id)
Unmarked (unknown_reply name) = Plain (bytes name)

-- The same of the names in a request.
abbrev pub UnmarkedElement : CreateElement → Type 0
UnmarkedElement (account id balance) = Quotable (bytes id)
UnmarkedElement (symbol sym children) =
    Quotable (bytes sym) × All (λ child. Quotable (bytes child.0)) children
UnmarkedElement (unknown_element name) = Plain (bytes name)

creation_line-Nests :
    (what : CreateReply → Bytes) (messages : (r : CreateReply) → Plain (what r)) (r : CreateReply)
    → Unmarked r
    → read (creation_line what r) (in_content 1) ≡ some (in_content 1)
unfolding read
creation_line-Nests what messages (created_account id) h =
    read-value (bytes id) (bytes "/>" ++ line_end) 1 h
creation_line-Nests what messages (failed_account id) h =
    read-value (bytes id) (bytes ">" ++ (what (failed_account id) ++ error_end)) 1 h
    ∙ read-text (what (failed_account id)) error_end 2 (messages (failed_account id))
creation_line-Nests what messages (created_symbol sym id) (h, k) =
    read-value (bytes sym)
      (bytes " " ++ (attribute_text "id" (bytes id) ++ (bytes "/>" ++ line_end))) 1 h
    ∙ read-value (bytes id) (bytes "/>" ++ line_end) 1 k
creation_line-Nests what messages (failed_symbol sym id) (h, k) =
    let inner = bytes ">" ++ (what (failed_symbol sym id) ++ error_end) in
    read-value (bytes sym) (bytes " " ++ (attribute_text "id" (bytes id) ++ inner)) 1 h
    ∙ read-value (bytes id) inner 1 k
    ∙ read-text (what (failed_symbol sym id)) error_end 2 (messages (failed_symbol sym id))
creation_line-Nests what messages (unknown_reply name) h = read-text (bytes name) error_end 2 h

creation_lines-Nests :
    (what : CreateReply → Bytes) (messages : (r : CreateReply) → Plain (what r))
    (rs : List CreateReply)
    → All Unmarked rs
    → read (creation_lines what rs) (in_content 1) ≡ some (in_content 1)
unfolding creation_lines read
creation_lines-Nests what messages [] h = refl
creation_lines-Nests what messages (r ∷ rs) (h, k) =
    read-append (creation_line what r) (creation_lines what rs) (in_content 1) (in_content 1)
      (creation_line-Nests what messages r h)
    ∙ creation_lines-Nests what messages rs k

pub framed-Nests :
    (inner : Bytes) → read inner (in_content 1) ≡ some (in_content 1) → Nests (framed inner)
unfolding read
framed-Nests inner h =
    read-append inner (bytes "</results>" ++ line_end) (in_content 1) (in_content 1) h

create_account-Unmarked :
    (id : String) (balance : ℤ) (db : Database)
    → Quotable (bytes id)
    → Unmarked (create_account id balance db).0
unfolding create_account
create_account-Unmarked id balance db h = elim (Option-cases (insert_account id balance db)) [
  | inl failed ↦ rw (failed, create_account) h
  | inr (after, well) ↦ rw (well, create_account) h
]

create_symbol-Unmarked :
    (name : String) (child : String × ℤ) (db : Database)
    → Quotable (bytes name)
    → Quotable (bytes child.0)
    → Unmarked (create_symbol name child db).0
unfolding create_symbol
create_symbol-Unmarked name (id, shares) db h k =
    elim (Option-cases (insert_symbol id name shares db)) [
      | inl failed ↦ rw (failed, create_symbol) (h, k)
      | inr (after, well) ↦ rw (well, create_symbol) (h, k)
    ]

create_symbols-Unmarked :
    (name : String) (children : List (String × ℤ)) (db : Database)
    → Quotable (bytes name)
    → All (λ child. Quotable (bytes child.0)) children
    → All Unmarked (create_symbols name children db).0
unfolding create_symbols
create_symbols-Unmarked name [] db h k = tt
create_symbols-Unmarked name (child ∷ children) db h (k, l) = (
  create_symbol-Unmarked name child db h k,
  create_symbols-Unmarked name children (create_symbol name child db).1 h l,
)

create_element-Unmarked :
    (e : CreateElement) (db : Database) → UnmarkedElement e → All Unmarked (create_element e db).0
unfolding create_element
create_element-Unmarked (account id balance) db h = (create_account-Unmarked id balance db h, tt)
create_element-Unmarked (symbol name children) db (h, k) =
    create_symbols-Unmarked name children db h k
create_element-Unmarked (unknown_element name) db h = (h, tt)

handle_creation-Unmarked :
    (es : List CreateElement) (db : Database)
    → All UnmarkedElement es
    → All Unmarked (handle_creation es db).0
unfolding handle_creation
handle_creation-Unmarked [] db h = tt
handle_creation-Unmarked (e ∷ es) db (h, k) =
    All-append Unmarked (create_element e db).0 (handle_creation es (create_element e db).1).0
      (create_element-Unmarked e db h) (handle_creation-Unmarked es (create_element e db).1 k)

-- Where no name of a request and no message of PostgreSQL has a mark that XML reserves, the answer to
-- <create> closes what it opens: its tags and quotation marks nest.
pub handle_creation-Nests :
    (what : CreateReply → Bytes) (messages : (r : CreateReply) → Plain (what r))
    (texts : Response → Bytes) (es : List CreateElement) (db : Database)
    → All UnmarkedElement es
    → Nests (answer_text what texts (creation (handle_creation es db).0))
unfolding answer_text
handle_creation-Nests what messages texts es db h =
    framed-Nests (creation_lines what (handle_creation es db).0) (
      creation_lines-Nests what messages (handle_creation es db).0
        (handle_creation-Unmarked es db h))
