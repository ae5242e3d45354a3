-- ===== src/Exchange/ReplyMarkup.antt =====
-- Whether the answer to <transactions> is XML: handle_transactions of database.cpp,
-- project4_stockexchange/docker-deploy/matching-engine.
use duke_ece.Prelude.{
  ℕ, zero, suc, ◌+◌, ◌/◌, ◌%◌, ◌==◌, ◌≡◌, ◌∙◌, refl, String, false, List, [], ◌∷◌, ◌++◌, some, All,
  All-append, All-imp, arith, Bool-cases, inl, inr,
}
use duke_ece.Prelude.Int.{ℤ, pos, negsuc}
use duke_ece.Prelude.Bytes.{bytes}
use duke_ece.Exchange.Orders.{CancelReply, canceled, not_found, not_open, cancel_failed}
use duke_ece.Exchange.Requests.{
  StatusLine, open_line, executed_line, canceled_line, Reply, order_opened, order_refused,
  cancel_reply, status, not_yours, cancel_unreadable, unknown_reply, Response, no_account, failed,
  results,
}
use duke_ece.Exchange.Xml.{Bytes}
use duke_ece.Exchange.Decimal.{
  point, digits_before, fixed_text, unless_zero, strip_zeros, pop_point, format_natural,
  format_decimal,
}
use duke_ece.Exchange.Answers.{attribute_text, error_end, line_end}
use duke_ece.Exchange.Nesting.{
  in_content, read, Nests, Plain, Quotable, read-append, read-value, read-text,
}
use duke_ece.Exchange.Markup.{framed-Nests}
use duke_ece.Exchange.Replies.{
  Texts, double_text, shares, price, natural_text, error_line, error_line_for, refusal_text,
  empty_end, status_line_text, status_lines_text, cancel_reply_text, reply_text, replies_text,
  transactions_text,
}

-- One character that an attribute's value may hold.
abbrev Clean : ℕ → Type 0
Clean c = ((c == 34) ≡ false) × ((c == b'<') ≡ false) × ((c == b'&') ≡ false)

Quotable-Plain : (s : Bytes) → Quotable s → Plain s
Quotable-Plain s h = All-imp _ _ s (λ c clean. (clean.1, clean.2)) h

digit-Clean : (d : ℕ) → Clean (b'0' + d % 10)
digit-Clean d = ground arith

digits_before-Quotable : (fuel n : ℕ) (s : Bytes) → Quotable s → Quotable (digits_before fuel n s)
unfolding digits_before
digits_before-Quotable zero n s h = h
digits_before-Quotable (suc fuel) n s h = elim (Bool-cases (n / 10 == 0)) [
  | inl last ↦ rw last (digit-Clean n, h)
  | inr more ↦
      rw more (digits_before-Quotable fuel (n / 10) ((b'0' + n % 10) ∷ s) (digit-Clean n, h))
]

fixed_text-Quotable : (n : ℕ) → Quotable (fixed_text n)
unfolding fixed_text
fixed_text-Quotable n =
    digits_before-Quotable (suc (n / 1000000)) (n / 1000000) _ ((refl, refl, refl), ground arith)

strip_zeros-Quotable : (s : Bytes) → Quotable s → Quotable (strip_zeros s)
unfolding strip_zeros
strip_zeros-Quotable [] h = tt
strip_zeros-Quotable (c ∷ s) (clean, h) = go (strip_zeros s) (strip_zeros-Quotable s h)
  where
    go : (t : Bytes) → Quotable t → Quotable (unless_zero c t)
    go [] k = elim (Bool-cases (c == b'0')) [
      | inl nought ↦ rw nought tt
      | inr digit ↦ rw digit (clean, tt)
    ]
    go (d ∷ t) k = (clean, k)

pop_point-Quotable : (s : Bytes) → Quotable s → Quotable (pop_point s)
unfolding pop_point
pop_point-Quotable [] h = tt
pop_point-Quotable (c ∷ []) (clean, h) = elim (Bool-cases (c == point)) [
  | inl dot ↦ rw dot tt
  | inr other ↦ rw other (clean, tt)
]
pop_point-Quotable (c ∷ d ∷ s) (clean, h) = (clean, pop_point-Quotable (d ∷ s) h)

format_decimal-Quotable : (v : ℤ) → Quotable (format_decimal v)
unfolding format_decimal format_natural
format_decimal-Quotable (pos n) =
    pop_point-Quotable _ (strip_zeros-Quotable (fixed_text n) (fixed_text-Quotable n))
format_decimal-Quotable (negsuc n) = pop_point-Quotable _ (
    strip_zeros-Quotable (b'-' ∷ fixed_text (suc n))
      ((refl, refl, refl), fixed_text-Quotable (suc n)))

double_text-Quotable : (v : ℤ) → Quotable (double_text v)
double_text-Quotable (pos n) = fixed_text-Quotable n
double_text-Quotable (negsuc n) = ((refl, refl, refl), fixed_text-Quotable (suc n))

-- What is written for others has no mark that XML reserves.
pub record UnmarkedTexts (t : Texts) : Type 0 where
  pub ids : (id : ℤ) → Quotable (t.id_text id)
  pub times : (time : ℕ) → Quotable (t.time_text time)
  pub failures : Plain t.failure
  pub cancel_failures : (id : ℤ) → Plain (t.cancel_failure id)
  pub unreadables : (id : String) → Plain (t.unreadable id)

abbrev pub UnmarkedReply : Reply → Type 0
UnmarkedReply (order_opened symbol amount limit id) = Quotable (bytes symbol)
UnmarkedReply (order_refused code) = Unit {0}
UnmarkedReply (cancel_reply r) = Unit {0}
UnmarkedReply (status id ls) = Unit {0}
UnmarkedReply (not_yours id) = Unit {0}
UnmarkedReply (cancel_unreadable id) = Quotable (bytes id)
UnmarkedReply (unknown_reply name) = Plain (bytes name)

abbrev Keeps : Bytes → ℕ → Type 0
Keeps s n = read s (in_content n) ≡ some (in_content n)

error_line-Keeps : (message : Bytes) (n : ℕ) → Plain message → Keeps (error_line message) n
unfolding read
error_line-Keeps message n h = read-text message error_end (suc n) h

error_line_for-Keeps :
    (id message : Bytes) → Quotable id → Plain message → Keeps (error_line_for id message) 1
unfolding read
error_line_for-Keeps id message h k =
    read-value id (bytes ">" ++ (message ++ error_end)) 1 h ∙ read-text message error_end 2 k

refusal_text-Keeps : (code : ℕ) → Keeps (refusal_text code) 1
unfolding refusal_text read
refusal_text-Keeps code = elim (Bool-cases (code == 0)) [
  | inl account ↦ rw account refl
  | inr a ↦ elim (Bool-cases (code == 1)) [
    | inl balance ↦ rw (a, balance) refl
    | inr b ↦ elim (Bool-cases (code == 2)) [
      | inl symbol ↦ rw (a, b, symbol) refl
      | inr c ↦ elim (Bool-cases (code == 3)) [
        | inl few ↦ rw (a, b, c, few) refl
        | inr d ↦ rw (a, b, c, d) refl
      ]
    ]
  ]
]

module _ (t : Texts) (u : UnmarkedTexts t) where
  status_line_text-Keeps : (l : StatusLine) → Keeps (status_line_text t l) 2
  unfolding read
  status_line_text-Keeps (open_line n) =
      read-value (format_decimal (shares n)) empty_end 2 (format_decimal-Quotable (shares n))
  status_line_text-Keeps (executed_line n p time) =
      let timed = attribute_text "time" (t.time_text time) ++ empty_end in
      let priced = attribute_text "price" (format_decimal (price p)) ++ (bytes " " ++ timed) in
      read-value (format_decimal (shares n)) (bytes " " ++ priced) 2
        (format_decimal-Quotable (shares n))
      ∙ read-value (format_decimal (price p)) (bytes " " ++ timed) 2
          (format_decimal-Quotable (price p))
      ∙ read-value (t.time_text time) empty_end 2 (u.times time)
  status_line_text-Keeps (canceled_line n) =
      read-value (format_decimal (shares n)) empty_end 2 (format_decimal-Quotable (shares n))

  status_lines_text-Keeps : (ls : List StatusLine) → Keeps (status_lines_text t ls) 2
  unfolding status_lines_text read
  status_lines_text-Keeps [] = refl
  status_lines_text-Keeps (l ∷ ls) =
      read-append (status_line_text t l) (status_lines_text t ls) (in_content 2) (in_content 2)
        (status_line_text-Keeps l)
      ∙ status_lines_text-Keeps ls

  cancel_reply_text-Keeps : (r : CancelReply) → Keeps (cancel_reply_text t r) 1
  unfolding read
  cancel_reply_text-Keeps (canceled id) =
      read-value (t.id_text id) (bytes ">" ++ (line_end ++ (bytes "</canceled>" ++ line_end))) 1
        (u.ids id)
  cancel_reply_text-Keeps (not_found id) =
      error_line_for-Keeps (t.id_text id) (bytes "Order not found") (u.ids id) (ground arith)
  cancel_reply_text-Keeps (not_open id) =
      error_line_for-Keeps (t.id_text id) (bytes "Order is not open") (u.ids id) (ground arith)
  cancel_reply_text-Keeps (cancel_failed id) =
      error_line_for-Keeps (t.id_text id) (bytes "Failed to cancel order: " ++ t.cancel_failure id)
        (u.ids id)
        (All-append _ (bytes "Failed to cancel order: ") (t.cancel_failure id) (ground arith)
          (u.cancel_failures id))

  -- An <opened> line.
  opened-Keeps :
      (account symbol : String) (amount limit : ℤ) (id : ℕ)
      → Quotable (bytes symbol)
      → Keeps (reply_text t account (order_opened symbol amount limit id)) 1
  unfolding read
  opened-Keeps account symbol amount limit id h =
      let numbered = attribute_text "id" (natural_text id) ++ empty_end in
      let limited = attribute_text "limit" (double_text (price limit)) ++ (bytes " " ++ numbered) in
      let sized = attribute_text "amount" (double_text (shares amount)) ++ (bytes " " ++ limited) in
      read-value (bytes symbol) (bytes " " ++ sized) 1 h
      ∙ read-value (double_text (shares amount)) (bytes " " ++ limited) 1
          (double_text-Quotable (shares amount))
      ∙ read-value (double_text (price limit)) (bytes " " ++ numbered) 1
          (double_text-Quotable (price limit))
      ∙ read-value (natural_text id) empty_end 1 (digits_before-Quotable (suc id) id [] tt)

  reply_text-Keeps :
      (account : String) (r : Reply)
      → Quotable (bytes account)
      → UnmarkedReply r
      → Keeps (reply_text t account r) 1
  unfolding read
  reply_text-Keeps account (order_opened symbol amount limit id) a h =
      opened-Keeps account symbol amount limit id h
  reply_text-Keeps account (order_refused code) a h = refusal_text-Keeps code
  reply_text-Keeps account (cancel_reply r) a h = cancel_reply_text-Keeps r
  reply_text-Keeps account (status id ls) a h =
      let tail = bytes "    </status>" ++ line_end in
      read-value (t.id_text id) (bytes ">" ++ (line_end ++ (status_lines_text t ls ++ tail))) 1
        (u.ids id)
      ∙ read-append (status_lines_text t ls) tail (in_content 2) (in_content 2)
          (status_lines_text-Keeps ls)
  reply_text-Keeps account (not_yours id) a h =
      let tail = bytes ") " ++ error_end in
      let asked = bytes ") does not exist for account ID (" ++ (bytes account ++ tail) in
      read-text (t.id_text id) asked 2 (Quotable-Plain (t.id_text id) (u.ids id))
      ∙ read-text (bytes account) tail 2 (Quotable-Plain (bytes account) a)
  reply_text-Keeps account (cancel_unreadable id) a h =
      error_line_for-Keeps (bytes id) (bytes "Failed to cancel order: " ++ t.unreadable id) h (
        All-append _ (bytes "Failed to cancel order: ") (t.unreadable id) (ground arith)
          (u.unreadables id))
  reply_text-Keeps account (unknown_reply name) a h = read-text (bytes name) error_end 2 h

  replies_text-Keeps :
      (account : String) (rs : List Reply)
      → Quotable (bytes account)
      → All UnmarkedReply rs
      → Keeps (replies_text t account rs) 1
  unfolding replies_text read
  replies_text-Keeps account [] a h = refl
  replies_text-Keeps account (r ∷ rs) a (h, k) =
      read-append (reply_text t account r) (replies_text t account rs) (in_content 1) (in_content 1)
        (reply_text-Keeps account r a h)
      ∙ replies_text-Keeps account rs a k

-- Replies in a response.
abbrev pub UnmarkedResponse : Response → Type 0
UnmarkedResponse no_account = Unit {0}
UnmarkedResponse failed = Unit {0}
UnmarkedResponse (results rs) = All UnmarkedReply rs

pub transactions_text-Nests :
    (t : Texts) (u : UnmarkedTexts t) (account : String) (r : Response)
    → Quotable (bytes account)
    → UnmarkedResponse r
    → Nests (transactions_text t account r)
unfolding transactions_text
transactions_text-Nests t u account no_account a h =
    framed-Nests (error_line_for (bytes account) (bytes "Account does not exist"))
      (error_line_for-Keeps (bytes account) (bytes "Account does not exist") a (ground arith))
transactions_text-Nests t u account failed a h = error_line-Keeps t.failure 0 u.failures
transactions_text-Nests t u account (results rs) a h =
    framed-Nests (replies_text t account rs) (replies_text-Keeps t u account rs a h)
