-- ===== src/Exchange/Tests.antt =====
-- The theorems at work on small tables of
-- project4_stockexchange/docker-deploy/matching-engine/database.cpp: a buyer with one order, a seller
-- with two.
use duke_ece.Prelude.{
  ℕ, ◌≡◌, ◌≤◌, refl, false, List, [], ◌∷◌, some, none, arith, find_first, update_where, none,
}
use duke_ece.Prelude.Int.{ℤ, pos, negsuc, ◌+ℤ◌, ◌*ℤ◌}
use duke_ece.Exchange.Tables.{Order, opened, Transaction, Database, Server, find_account}
use duke_ece.Exchange.Orders.{
  refusal, insert_order, stored_order, place_order, cancel_order, close_orders, canceled,
  add_balance,
}
use duke_ece.Exchange.Matching.{match_orders, match_sell, match_sells, find_order}
use duke_ece.Exchange.Requests.{
  StatusLine, Operation, order, cancel, query, Run, live, perform, query_all, Exchange,
  handle_transactions, no_account,
}
use duke_ece.Exchange.Conserve.{quantity, match_orders-quantity}
use duke_ece.Exchange.Validity.{IsValid, match_orders-IsValid}
use duke_ece.Exchange.Service.{
  Leaves, perform-Leaves, query_all_total, SameTables, handle_transactions_atomic,
}
use duke_ece.Exchange.Trades.{Books, match_sell-Books}
use duke_ece.Exchange.Overfill.{fills_again}
use duke_ece.Exchange.Money.{cancel_order-place_order}
use duke_ece.Exchange.Reports.{query_all-close_orders}
use duke_ece.Exchange.Sort.{order_by, All-order_by, order_by-Sorted}

abbrev pub server : Server
server = record {
  now = 7;
  scan = λ rows. rows;
  order_by = order_by;
  commit_raises = false;
  scan_rows = λ P rows h. h;
  scan_length = λ rows. refl;
  order_by_rows = All-order_by;
  order_by_sorted = λ before rows o. order_by-Sorted before o rows;
}

abbrev pub sale : ℕ → ℤ → ℤ → Order
sale id amount limit = record {
  unique_id = id;
  order_id = pos id;
  account_id = "seller";
  symbol = "SYM";
  order_quantity = amount;
  limit_price = limit;
  order_status = opened;
  transaction_id = none;
  created_at = id;
}

abbrev pub sell_40 : Order
sell_40 = sale 0 (negsuc 39) (pos 9)

abbrev pub sell_50 : Order
sell_50 = sale 1 (negsuc 49) (pos 10)

abbrev pub buy_100 : Order
buy_100 = record (sale 2 (pos 100) (pos 10)) { account_id = "buyer" }

abbrev pub tables : Database
tables = record {
  accounts =
      record { account_id = "buyer"; balance = pos 5000 }
      ∷ record { account_id = "seller"; balance = pos 0 }
      ∷ [];
  orders = sell_40 ∷ sell_50 ∷ buy_100 ∷ [];
  transactions = [];
  symbols = record { symbol_id = "SYM"; account_id = "seller"; share_count = pos 90 } ∷ [];
  next_unique_id = 3;
  next_transaction_id = 0;
}

pub tables-IsValid : IsValid tables
tables-IsValid = record {
  keys = (omega arith, (omega arith, (omega arith, omega arith)));
  all_settled = (refl, (refl, (refl, tt)));
  numbered = ((refl, omega arith), ((refl, omega arith), ((refl, omega arith), tt)));
  solvent = (refl, (refl, tt));
  owned = (refl, tt);
}

match_orders-quantity_example :
    (after : Database) × (match_orders server "SYM" tables ≡ some after)
    × (quantity (pos 2) after.orders ≡ pos 100)
unfolding ◌+ℤ◌
match_orders-quantity_example =
    match_orders-quantity server "SYM" (pos 2) tables tables-IsValid.keys

match_orders-IsValid_example :
    (after : Database) × (match_orders server "SYM" tables ≡ some after)
    × IsValid after
    × (3 ≤ after.next_unique_id)
match_orders-IsValid_example = match_orders-IsValid server "SYM" tables tables-IsValid

abbrev start : Run
start = record { session = live tables; order_counter = 0; replies = [] }

abbrev buy_more : Operation
buy_more = order "SYM" (pos 10) (pos 9)

perform-Leaves_example : Leaves buy_more start (perform server "buyer" buy_more start)
perform-Leaves_example = perform-Leaves server "buyer" buy_more start tables-IsValid

query_all_total_example : (lines : List StatusLine) × (query_all server (pos 2) tables ≡ some lines)
query_all_total_example = query_all_total server (pos 2) tables tables-IsValid

abbrev exchange : Exchange
exchange = record { db = tables; order_counter = 0 }

abbrev operations : List Operation
operations = buy_more ∷ query (pos 2) ∷ cancel (pos 2) ∷ []

-- Nobody has this account.
stranger : (handle_transactions server "nobody" operations exchange).0 ≡ no_account
unfolding handle_transactions find_account find_first
stranger = refl

handle_transactions_atomic_example :
    SameTables (handle_transactions server "nobody" operations exchange).1.db tables
handle_transactions_atomic_example =
    handle_transactions_atomic server "nobody" operations exchange
      (λ replies e. ground (arith, stranger))

found : find_order 2 tables ≡ some buy_100
unfolding find_order find_first
found = refl

sell_found : find_order 0 tables ≡ some sell_40
unfolding find_order find_first
sell_found = refl

match_sell-Books_example :
    (after : Database) × (match_sell server 2 (pos 10) sell_40 tables ≡ some (false, after))
    × (t : Transaction) × (after.transactions ≡ t ∷ [])
    × Books server (pos 10) buy_100 sell_40 t
match_sell-Books_example =
    match_sell-Books server 2 (pos 10) buy_100 sell_40 tables found refl (omega arith)

-- Two sell orders of 40 and 50 shares fill a buy order of 100 with 40 and 40.
fills_again_example :
    (after : Database) × (t₁ : Transaction) × (t₂ : Transaction) × (match_sells server 2
        (pos 10)
        (sell_40 ∷ sell_50 ∷ [])
        tables
      ≡ some after)
    × (after.transactions ≡ t₁ ∷ t₂ ∷ [])
    × (t₁.quantity ≡ pos 40)
    × (t₂.quantity ≡ pos 40)
fills_again_example =
    fills_again server 2 (pos 10) buy_100 sell_40 sell_40 tables found sell_found (omega arith)
      (omega arith) (omega arith) (omega arith) sell_50 (omega arith) refl

-- The account is found with spaces behind its id; and a limit of 100000000.00 raises.
padded : (insert_order server "buyer  " "SYM" (pos 10) (pos 9) tables).0 ≡ some 4
unfolding insert_order place_order find_account find_first refusal stored_order ◌*ℤ◌
padded = refl

raised : (insert_order server "seller" "SYM" (negsuc 9) (pos 10000000000) tables).0 ≡ none
unfolding insert_order place_order find_account find_first refusal stored_order ◌*ℤ◌
raised = refl

cancel_order-place_order_example :
    let (answer, after) =
      cancel_order server
        (pos 3)
        (live (stored_order server "buyer" "SYM" (pos 10) (pos 9) tables)) in
    (answer ≡ canceled (pos 3))
    × (after.aborted ≡ false)
    × (after.db.accounts ≡ add_balance "buyer" (pos 90) tables.accounts)
unfolding ◌*ℤ◌ place_order update_where ◌+ℤ◌
cancel_order-place_order_example =
    cancel_order-place_order server "buyer" "SYM" (pos 10) (pos 9) tables
      (stored_order server "buyer" "SYM" (pos 10) (pos 9) tables) tables-IsValid refl (omega arith)
      (refl, (refl, tt))

query_all-close_orders_example : query_all server (pos 2) (close_orders (pos 2) tables) ≡ some []
query_all-close_orders_example = query_all-close_orders server (pos 2) tables
