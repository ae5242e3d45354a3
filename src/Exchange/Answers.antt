-- ===== src/Exchange/Answers.antt =====
-- The text of the answers to <create>, and to a request that is not accepted: handle_creation and
-- handle_client_request of project4_stockexchange/docker-deploy/matching-engine/database.cpp.
mod Tests
use duke_ece.Prelude.{String, List, [], ◌∷◌, ◌++◌, Option, some, none}
use duke_ece.Prelude.Bytes.{bytes}
use duke_ece.Exchange.Creation.{
  CreateReply, created_account, failed_account, created_symbol, failed_symbol, unknown_reply,
}
use duke_ece.Exchange.Requests.{Response}
use duke_ece.Exchange.Xml.{Bytes}
use duke_ece.Exchange.Client.{
  Answer, invalid_xml, not_accepted, missing_create, missing_transactions, creation, transactions,
}

-- The quotation mark, and the end of a line.
abbrev pub quote : Bytes
quote = 34 ∷ []

abbrev pub line_end : Bytes
line_end = 10 ∷ []

-- ` key="value"`: the value as it came, with nothing escaped.
abbrev pub attribute_text : String → Bytes → Bytes
attribute_text key value = bytes key ++ (bytes "=" ++ (quote ++ (value ++ quote)))

abbrev pub error_end : Bytes
error_end = bytes "</error>" ++ line_end

-- The line that handle_creation adds for a reply, where `what` is the text of the exception.
abbrev pub creation_line : (CreateReply → Bytes) → CreateReply → Bytes
creation_line what (created_account id) =
    bytes "    <created " ++ (attribute_text "id" (bytes id) ++ (bytes "/>" ++ line_end))
creation_line what (failed_account id) =
    bytes "    <error "
    ++ (attribute_text "id" (bytes id) ++ (bytes ">" ++ (what (failed_account id) ++ error_end)))
creation_line what (created_symbol sym id) =
    bytes "    <created "
    ++ (attribute_text "sym" (bytes sym)
        ++ (bytes " " ++ (attribute_text "id" (bytes id) ++ (bytes "/>" ++ line_end))))
creation_line what (failed_symbol sym id) =
    bytes "    <error "
    ++ (attribute_text "sym" (bytes sym)
        ++ (bytes " "
            ++ (attribute_text "id" (bytes id)
                ++ (bytes ">" ++ (what (failed_symbol sym id) ++ error_end)))))
creation_line what (unknown_reply name) =
    bytes "    <error>Unknown element: " ++ (bytes name ++ error_end)

unfoldable pub creation_lines : (CreateReply → Bytes) → List CreateReply → Bytes
creation_lines what [] = []
creation_lines what (r ∷ rs) = creation_line what r ++ creation_lines what rs

abbrev pub prolog : Bytes
prolog = bytes "<?xml version=" ++ (quote ++ (bytes "1.0" ++ (quote ++ (bytes "?>" ++ line_end))))

-- What each answer is framed by.
abbrev pub framed : Bytes → Bytes
framed inner =
    prolog ++ (bytes "<results>" ++ (line_end ++ (inner ++ (bytes "</results>" ++ line_end))))

abbrev pub error_text : String → Bytes
error_text message = framed (bytes "    <error>" ++ (bytes message ++ error_end))

-- The text of an answer, where `transactions_text` writes the answers to <transactions>. handle_creation
-- has its own text for XML that is invalid, but is called only on XML that is valid.
unfoldable pub answer_text : (CreateReply → Bytes) → (Response → Bytes) → Answer → Bytes
answer_text what transactions_text invalid_xml = error_text "Invalid XML format"
answer_text what transactions_text not_accepted =
    error_text "Invalid XML input, only accept creation or transactions"
answer_text what transactions_text missing_create = error_text "Missing create tag"
answer_text what transactions_text missing_transactions = error_text "Missing transactions tag"
answer_text what transactions_text (creation replies) = framed (creation_lines what replies)
answer_text what transactions_text (transactions r) = transactions_text r
