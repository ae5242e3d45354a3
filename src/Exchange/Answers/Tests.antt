-- ===== src/Exchange/Answers/Tests.antt =====
-- Answers to small requests, on the tables of the exchange's tests:
-- project4_stockexchange/docker-deploy/matching-engine.
use duke_ece.Prelude.{◌≡◌, refl, List, [], ◌∷◌, ◌++◌, arith}
use duke_ece.Prelude.Int.{pos}
use duke_ece.Prelude.Bytes.{bytes}
use duke_ece.Exchange.Tests.{server, tables}
use duke_ece.Exchange.Orders.{canceled}
use duke_ece.Exchange.Creation.{
  CreateElement, CreateReply, account, symbol, unknown_element, created_account, handle_creation,
}
use duke_ece.Exchange.Requests.{
  Response, Exchange, Operation, order, cancel, query, unknown_operation, cancel_reply,
  handle_transactions,
}
use duke_ece.Exchange.Xml.{Bytes}
use duke_ece.Exchange.Client.{creation, transactions, invalid_xml}
use duke_ece.Exchange.Answers.{answer_text, creation_line}
use duke_ece.Exchange.Nesting.{Nests, read}
use duke_ece.Exchange.Replies.{Texts, transactions_text, reply_text}
use duke_ece.Exchange.ReplyMarkup.{UnmarkedTexts}
use duke_ece.Exchange.AnswerLaws.{answers-Nests}

abbrev what : CreateReply → Bytes
what r = bytes "duplicate key"

abbrev texts : Response → Bytes
texts r = []

-- An account, shares for it and for nobody, and a child that is neither.
abbrev elements : List CreateElement
elements =
    account "7" (pos 5)
    ∷ symbol "SYM" (("7", pos 1) ∷ ("8", pos 1) ∷ [])
    ∷ unknown_element "note"
    ∷ []

created_7 :
    creation_line what (created_account "7")
    ≡ bytes "    <created id=" ++ (34 ∷ 55 ∷ 34 ∷ 47 ∷ 62 ∷ 10 ∷ [])
created_7 = refl

refusal-Nests : Nests (answer_text what texts invalid_xml)
unfolding answer_text read
refusal-Nests = refl

-- Every id is 2, every time 60.
abbrev written : Texts
written = record {
  id_text = λ id. bytes "2";
  time_text = λ time. bytes "60";
  failure = bytes "conversion";
  cancel_failure = λ id. bytes "aborted";
  unreadable = λ id. bytes "syntax";
}

written-UnmarkedTexts : UnmarkedTexts written
written-UnmarkedTexts = record {
  ids = λ id. ground arith;
  times = λ time. ground arith;
  failures = ground arith;
  cancel_failures = λ id. ground arith;
  unreadables = λ id. ground arith;
}

abbrev exchange : Exchange
exchange = record { db = tables; order_counter = 0 }

abbrev operations : List Operation
operations =
    order "SYM" (pos 10) (pos 9) ∷ query (pos 2) ∷ cancel (pos 2) ∷ unknown_operation "note" ∷ []

canceled_2 :
    reply_text written "buyer" (cancel_reply (canceled (pos 2)))
    ≡ bytes "<canceled id=" ++ (34 ∷ 50 ∷ 34 ∷ 62 ∷ 10 ∷ (bytes "</canceled>" ++ 10 ∷ []))
canceled_2 = refl

answers-Nests_example :
    Nests (
      answer_text what
        (transactions_text written "buyer")
        (creation (handle_creation elements tables).0))
    × Nests (
        answer_text what
          (transactions_text written "buyer")
          (transactions (handle_transactions server "buyer" operations exchange).0))
answers-Nests_example =
    answers-Nests what (λ r. ground arith) written written-UnmarkedTexts server "buyer" elements
      operations exchange (ground arith) (ground arith, (ground arith, (ground arith, tt)))
      (ground arith, (tt, (tt, (ground arith, tt))))
