-- ===== src/Exchange/Replies.antt =====
-- The text of the answers to <transactions>: handle_transactions, cancelOrder and queryAll of
-- project4_stockexchange/docker-deploy/matching-engine/database.cpp. An order's id is taken to have one
-- text in a request, which the answers repeat.
use duke_ece.Prelude.{ℕ, suc, ◌==◌, String, List, [], ◌∷◌, ◌++◌, if◌then◌else◌}
use duke_ece.Prelude.Int.{ℤ, pos, negsuc, ◌*ℤ◌}
use duke_ece.Prelude.Bytes.{bytes}
use duke_ece.Exchange.Orders.{CancelReply, canceled, not_found, not_open, cancel_failed}
use duke_ece.Exchange.Requests.{
  StatusLine, open_line, executed_line, canceled_line, Reply, order_opened, order_refused,
  cancel_reply, status, not_yours, cancel_unreadable, unknown_reply, Response, no_account, failed,
  results,
}
use duke_ece.Exchange.Xml.{Bytes}
use duke_ece.Exchange.Decimal.{digits_before, fixed_text, format_decimal}
use duke_ece.Exchange.Answers.{attribute_text, error_end, framed, line_end}

-- What the code leaves to others: the text of an order's id, of a time as std::mktime gives it, and of
-- the exceptions.
pub record Texts : Type 0 where
  pub id_text : ℤ → Bytes
  pub time_text : ℕ → Bytes
  pub failure : Bytes
  pub cancel_failure : ℤ → Bytes
  pub unreadable : String → Bytes

-- `to_string(double)`, of a value in millionths.
abbrev pub double_text : ℤ → Bytes
double_text (pos n) = fixed_text n
double_text (negsuc n) = b'-' ∷ fixed_text (suc n)

-- Shares and cents in millionths.
abbrev pub shares : ℤ → ℤ
shares n = n *ℤ pos 1000000

abbrev pub price : ℤ → ℤ
price n = n *ℤ pos 10000

abbrev pub natural_text : ℕ → Bytes
natural_text n = digits_before (suc n) n []

abbrev pub error_line : Bytes → Bytes
error_line message = bytes "    <error>" ++ (message ++ error_end)

abbrev pub error_line_for : Bytes → Bytes → Bytes
error_line_for id message =
    bytes "    <error " ++ (attribute_text "id" id ++ (bytes ">" ++ (message ++ error_end)))

-- The lines that handle_transactions adds for a result of insertOrder below 4.
unfoldable pub refusal_text : ℕ → Bytes
refusal_text code =
    if code == 0
    then error_line (bytes "Account does not exist")
    else if code == 1
    then error_line (bytes "Balance is not sufficient")
    else if code == 2
    then error_line (bytes "Symbol is not owned by account")
    else if code == 3
    then error_line (bytes "Insufficient shares for this sell")
    else []

abbrev pub empty_end : Bytes
empty_end = bytes "/>" ++ line_end

module _ (t : Texts) where
  abbrev pub status_line_text : StatusLine → Bytes
  status_line_text (open_line n) =
      bytes "      <open " ++ (attribute_text "shares" (format_decimal (shares n)) ++ empty_end)
  status_line_text (executed_line n p time) =
      bytes "      <executed "
      ++ (attribute_text "shares" (format_decimal (shares n))
          ++ (bytes " "
              ++ (attribute_text "price" (format_decimal (price p))
                  ++ (bytes " " ++ (attribute_text "time" (t.time_text time) ++ empty_end)))))
  status_line_text (canceled_line n) =
      bytes "      <canceled " ++ (attribute_text "shares" (format_decimal (shares n)) ++ empty_end)

  unfoldable pub status_lines_text : List StatusLine → Bytes
  status_lines_text [] = []
  status_lines_text (l ∷ ls) = status_line_text l ++ status_lines_text ls

  abbrev pub cancel_reply_text : CancelReply → Bytes
  cancel_reply_text (canceled id) =
      bytes "<canceled "
      ++ (attribute_text "id" (t.id_text id)
          ++ (bytes ">" ++ (line_end ++ (bytes "</canceled>" ++ line_end))))
  cancel_reply_text (not_found id) = error_line_for (t.id_text id) (bytes "Order not found")
  cancel_reply_text (not_open id) = error_line_for (t.id_text id) (bytes "Order is not open")
  cancel_reply_text (cancel_failed id) =
      error_line_for (t.id_text id) (bytes "Failed to cancel order: " ++ t.cancel_failure id)

  -- The text of one reply, to a request of this account.
  abbrev pub reply_text : String → Reply → Bytes
  reply_text account (order_opened symbol amount limit id) =
      bytes "    <opened "
      ++ (attribute_text "sym" (bytes symbol)
          ++ (bytes " "
              ++ (attribute_text "amount" (double_text (shares amount))
                  ++ (bytes " "
                      ++ (attribute_text "limit" (double_text (price limit))
                          ++ (bytes " "
                              ++ (attribute_text "id" (natural_text id) ++ empty_end)))))))
  reply_text account (order_refused code) = refusal_text code
  reply_text account (cancel_reply r) = cancel_reply_text r
  reply_text account (status id ls) =
      bytes "    <status "
      ++ (attribute_text "id" (t.id_text id)
          ++ (bytes ">"
              ++ (line_end ++ (status_lines_text ls ++ (bytes "    </status>" ++ line_end)))))
  reply_text account (not_yours id) =
      bytes "    <error>Order ID ("
      ++ (t.id_text id
          ++ (bytes ") does not exist for account ID ("
              ++ (bytes account ++ (bytes ") " ++ error_end))))
  reply_text account (cancel_unreadable id) =
      error_line_for (bytes id) (bytes "Failed to cancel order: " ++ t.unreadable id)
  reply_text account (unknown_reply name) =
      bytes "    <error>Unknown operation: " ++ (bytes name ++ error_end)

  unfoldable pub replies_text : String → List Reply → Bytes
  replies_text account [] = []
  replies_text account (r ∷ rs) = reply_text account r ++ replies_text account rs

  -- The answer to <transactions>. An exception that leaves the loop makes a line without a frame.
  unfoldable pub transactions_text : String → Response → Bytes
  transactions_text account no_account =
      framed (error_line_for (bytes account) (bytes "Account does not exist"))
  transactions_text account failed = error_line t.failure
  transactions_text account (results rs) = framed (replies_text account rs)
