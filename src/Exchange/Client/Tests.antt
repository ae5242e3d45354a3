-- ===== src/Exchange/Client/Tests.antt =====
-- Requests at work on the small tables of the exchange's tests, with a parser for two documents:
-- project4_stockexchange/docker-deploy/matching-engine.
use duke_ece.Prelude.{
  ℕ, ◌==◌, ◌≡◌, ◌≤◌, refl, String, Bool, true, false, List, [], ◌∷◌, Option, some, none, arith,
  length, All, if◌then◌else◌, find_first, suc, zero,
}
use duke_ece.Prelude.Int.{pos, negsuc}
use duke_ece.Exchange.Tests.{server, tables, tables-IsValid}
use duke_ece.Exchange.Creation.{account, handle_creation}
use duke_ece.Exchange.Requests.{Exchange, order, cancel, handle_transactions}
use duke_ece.Exchange.Validity.{IsValid}
use duke_ece.Exchange.Xml.{Bytes, Xml, newline, lines_of, joined, request_xml}
use duke_ece.Exchange.Client.{
  replied, terminated, transacted, invalid_xml, creation, received, handle_client_request,
}
use duke_ece.Exchange.ClientLaws.{left_by, handle_client_request-IsValid}
use duke_ece.Exchange.Lines.{request_xml-joined, received_bounds, handle_client_request_two_lines}
use duke_ece.Exchange.Decoding.{
  handle_client_request-handle_creation, handle_client_request_terminated,
}
use duke_ece.Exchange.Reading.{handle_client_request-handle_transactions}
use duke_ece.Exchange.Refusals.{handle_client_request-refused}
use duke_ece.Net.{Answers}
use duke_ece.Exchange.Main.{Visit, Log, main}
use duke_ece.Exchange.MainLaws.{main-IsValid}
use duke_ece.Exchange.Decimal.{
  format_decimal, format_natural, fixed_text, digits_before, strip_zeros, pop_point,
}
use duke_ece.Exchange.Digits.{read_decimal, read_decimal-format_decimal}
use duke_ece.Exchange.Threads.{inserts_account, ended, finished, Process}

data Tag : Type 0 where
  create_root wrong_root transactions_root account_7 nameless order_sym cancel_0 : Tag

abbrev tag_name : Tag → String
tag_name create_root = "create"
tag_name wrong_root = "create"
tag_name transactions_root = "transactions"
tag_name account_7 = "account"
tag_name nameless = "account"
tag_name order_sym = "order"
tag_name cancel_0 = "cancel"

abbrev tag_children : Tag → List Tag
tag_children create_root = account_7 ∷ []
tag_children wrong_root = account_7 ∷ nameless ∷ account_7 ∷ []
tag_children transactions_root = order_sym ∷ cancel_0 ∷ []
tag_children account_7 = []
tag_children nameless = []
tag_children order_sym = []
tag_children cancel_0 = []

abbrev tag_attribute : Tag → String → Option String
tag_attribute create_root key = none
tag_attribute wrong_root key = none
tag_attribute transactions_root key = some "buyer"
tag_attribute account_7 key = some "7"
tag_attribute nameless key = none
tag_attribute order_sym key = some "SYM"
tag_attribute cancel_0 key = some "0"

abbrev document : Bytes → List Tag
document [] = []
document (c ∷ s) =
    if c == b'c'
    then create_root ∷ []
    else if c == b'w'
    then wrong_root ∷ []
    else if c == b't'
    then transactions_root ∷ []
    else []

abbrev empty_error : Bytes → Bool
empty_error [] = true
empty_error (c ∷ s) = false

abbrev parser : Xml
parser = record {
  Element = Tag;
  error = empty_error;
  top = document;
  name = tag_name;
  children = tag_children;
  attribute = tag_attribute;
  double_attribute = λ e key. pos 5;
  text = λ e. none;
  stod = λ t. none;
  order_number = λ t. some (pos 0);
}

abbrev exchange : Exchange
exchange = record { db = tables; order_counter = 0 }

abbrev input : ℕ → Bytes
input c = b'9' ∷ newline ∷ b'?' ∷ newline ∷ c ∷ newline ∷ []

handle_client_request-IsValid_example :
    IsValid (left_by (handle_client_request parser server (input b'w') exchange)).db
handle_client_request-IsValid_example =
    handle_client_request-IsValid parser server (input b'w') exchange tables-IsValid

request_xml-joined_example :
    request_xml (joined ((b'9' ∷ []) ∷ (b'?' ∷ []) ∷ (b'c' ∷ []) ∷ [])) ≡ b'c' ∷ newline ∷ []
unfolding joined
request_xml-joined_example =
    request_xml-joined (b'9' ∷ []) (b'?' ∷ []) ((b'c' ∷ []) ∷ []) (refl, tt) (refl, tt)
      ((refl, tt), tt)

received_bounds_example :
    (length (received (1 ∷ 0 ∷ 2 ∷ [])) ≤ 1023)
    × All (λ c. (c == 0) ≡ false) (received (1 ∷ 0 ∷ 2 ∷ []))
    × (length (request_xml (received (1 ∷ 0 ∷ 2 ∷ []))) ≤ 1024)
received_bounds_example = received_bounds (1 ∷ 0 ∷ 2 ∷ [])

abbrev copies : ℕ → Bytes
copies zero = []
copies (suc n) = b'x' ∷ copies n

length-copies : (n : ℕ) → length (copies n) ≡ n
length-copies zero = refl
length-copies (suc n) = omega (arith, length-copies n)

handle_client_request-handle_creation_example :
    handle_client_request parser server (input b'c') exchange
    ≡ replied
        (creation (handle_creation (account "7" (pos 5) ∷ []) tables).0)
        (record exchange { db = (handle_creation (account "7" (pos 5) ∷ []) tables).1 })
unfolding request_xml lines_of joined find_first
handle_client_request-handle_creation_example =
    handle_client_request-handle_creation parser server (input b'c') exchange create_root
      (account "7" (pos 5) ∷ []) refl refl refl

handle_client_request_terminated_example :
    handle_client_request parser server (input b'w') exchange
    ≡ terminated (record exchange { db = (handle_creation (account "7" (pos 5) ∷ []) tables).1 })
unfolding request_xml lines_of joined find_first
handle_client_request_terminated_example =
    handle_client_request_terminated parser server (input b'w') exchange wrong_root (account_7 ∷ [])
      nameless (account_7 ∷ []) (account "7" (pos 5) ∷ []) refl refl refl refl refl refl

handle_client_request-handle_transactions_example :
    handle_client_request parser server (input b't') exchange
    ≡ transacted (
        handle_transactions server "buyer"
          (order "SYM" (pos 5) (pos 5) ∷ cancel (pos 0) ∷ [])
          exchange)
unfolding request_xml lines_of joined find_first
handle_client_request-handle_transactions_example =
    handle_client_request-handle_transactions parser server (input b't') exchange transactions_root
      "buyer" (order "SYM" (pos 5) (pos 5) ∷ cancel (pos 0) ∷ []) refl refl refl refl refl

handle_client_request-refused_example : exchange ≡ exchange
handle_client_request-refused_example =
    handle_client_request-refused parser server (b'9' ∷ newline ∷ b'c' ∷ []) exchange invalid_xml
      exchange
      (handle_client_request_two_lines parser server (b'9' ∷ []) (b'c' ∷ []) exchange (refl, tt)
        (refl, tt) refl)
      refl

-- An insertion begins and ends, another one begins, and a <transactions> comes before that has ended.
abbrev stopped : Process parser
stopped = ended (finished parser server (inserts_account "7" (pos 5)) exchange)

-- -12.5.
formatted : format_decimal (negsuc 12499999) ≡ 45 ∷ 49 ∷ 50 ∷ 46 ∷ 53 ∷ []
unfolding format_decimal fixed_text digits_before strip_zeros pop_point
formatted = refl

-- 300.
formatted_whole : format_decimal (pos 300000000) ≡ 51 ∷ 48 ∷ 48 ∷ []
unfolding format_decimal format_natural fixed_text digits_before strip_zeros pop_point
formatted_whole = refl

read_decimal-format_decimal_example :
    read_decimal (format_decimal (negsuc 12499999)) ≡ negsuc 12499999
read_decimal-format_decimal_example = read_decimal-format_decimal (negsuc 12499999)

abbrev host : Answers
host = record {
  resolved = true;
  descriptor = some 3;
  option_set = true;
  bound = true;
  listening = true;
  connected = false;
}

-- Two clients, of which the second gets no thread, and one whose request ends the process.
abbrev visits : List Visit
visits =
    record { accepted = some 4; thread_created = true; arrived = some (input b'c') }
    ∷ record { accepted = some 5; thread_created = false; arrived = none }
    ∷ record { accepted = some 4; thread_created = true; arrived = some (input b'w') }
    ∷ []

main-IsValid_example :
    (log : Log) × (main parser server true (some tables) host visits ≡ some log)
    × IsValid log.left.db
main-IsValid_example = main-IsValid parser server (some tables) host visits
