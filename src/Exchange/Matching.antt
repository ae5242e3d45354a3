-- ===== src/Exchange/Matching.antt =====
-- execute_trade, update_order_status and match_orders of
-- project4_stockexchange/docker-deploy/matching-engine/database.cpp. `none` is the exception of a
-- violated constraint, or of the first row of an empty result.
use duke_ece.Prelude.{
  ◌>>=◌, ℕ, suc, String, Bool, true, false, List, [], ◌∷◌, ◌++◌, Option, none, some, find_first,
  update_where, select, str_eq, ◌&&◌, if◌then◌else◌, ltb,
}
use duke_ece.Prelude.Int.{ℤ, pos, ◌-ℤ◌, ltb_ℤ, leb_ℤ, eqb_ℤ, abs, min_ℤ}
use duke_ece.Exchange.Tables.{
  Order, opened, executed, Database, Server, is_open, buy_before, sell_before,
}
use duke_ece.Exchange.Orders.{has_unique_id}

unfoldable pub find_order : ℕ → Database → Option Order
find_order id db = find_first (has_unique_id id) db.orders

-- The scalar subquery (SELECT ACCOUNT_ID FROM ORDERS WHERE UNIQUE_ID = id), NULL on no row.
abbrev pub account_of : Option Order → Option String
account_of none = none
account_of (some r) = some r.account_id

-- The INSERT into TRANSACTIONS, for the buy row and the sell row that its subqueries find.
unfoldable pub book : Server → Order → Option Order → ℤ → ℤ → Database → Database
book server buy sell amount price db = record db {
  transactions =
      db.transactions
      ++ record {
        transaction_id = db.next_transaction_id;
        symbol = buy.symbol;
        quantity = amount;
        price_per_unit = price;
        buyer_account_id = some buy.account_id;
        seller_account_id = account_of sell;
        execution_time = server.now;
      }
        ∷ [];
  next_transaction_id = suc db.next_transaction_id;
}

-- The id of the new transaction, and the tables. SYMBOL is NOT NULL, so the buy row must exist.
unfoldable pub execute_trade : Server → ℕ → ℕ → ℤ → ℤ → Database → Option (ℕ × Database)
execute_trade server buy_id sell_id amount price db = do
  buy ← find_order buy_id db
  some (db.next_transaction_id, book server buy (find_order sell_id db) amount price db)

-- UPDATE ORDERS ... WHERE UNIQUE_ID, for an order that is filled.
abbrev pub fill : ℤ → ℕ → Order → Order
fill price transaction r = record r {
  order_status = executed;
  limit_price = price;
  transaction_id = some transaction;
}

-- The same for an order that is filled in part.
abbrev pub fill_part : ℤ → ℤ → ℕ → Order → Order
fill_part amount price transaction r = record r {
  order_status = executed;
  order_quantity = amount;
  limit_price = price;
  transaction_id = some transaction;
}

-- The row that the INSERT makes for what remains.
abbrev pub remainder : Server → Database → Order → ℤ → Order
remainder server db r remain = record {
  unique_id = db.next_unique_id;
  order_id = r.order_id;
  account_id = r.account_id;
  symbol = r.symbol;
  order_quantity = remain;
  limit_price = r.limit_price;
  order_status = opened;
  transaction_id = none;
  created_at = server.now;
}

-- A sell order has a negative quantity.
abbrev pub signed : Order → ℤ → ℤ
signed r amount = if ltb_ℤ r.order_quantity (pos 0) then pos 0 -ℤ amount else amount

-- update_order_status, once the row is read.
unfoldable pub update_row : Server → Order → ℕ → ℤ → ℤ → ℕ → Database → Database
update_row server r id amount price transaction db =
    let remain = abs r.order_quantity -ℤ amount in
    if eqb_ℤ remain (pos 0)
    then record db { orders = update_where (has_unique_id id) (fill price transaction) db.orders }
    else if ltb_ℤ (pos 0) remain
    then record db {
      orders =
          update_where (has_unique_id id) (fill_part (signed r amount) price transaction) db.orders
          ++ remainder server db r (signed r remain) ∷ [];
      next_unique_id = suc db.next_unique_id;
    }
    else db

unfoldable pub update_order_status : Server → ℕ → ℤ → ℤ → ℕ → Database → Option Database
update_order_status server id amount price transaction db = do
  r ← find_order id db
  some (update_row server r id amount price transaction db)

-- `buy_unique_id > sell_unique_id ? buy_price : sell_price`.
abbrev pub execution_price : ℕ → ℕ → ℤ → ℤ → ℤ
execution_price buy_id sell_id buy_price sell_price =
    if ltb sell_id buy_id then buy_price else sell_price

-- The trade of a matched pair, whose buy row was read as `buy`: whether the loop breaks, and the
-- tables.
unfoldable pub trade : Server → ℕ → ℤ → Order → Order → Database → Option (Bool × Database)
trade server buy_id buy_price buy sell db =
    let amount = min_ℤ buy.order_quantity (abs sell.order_quantity) in
    let price = execution_price buy_id sell.unique_id buy_price sell.limit_price in
    do
      (transaction, db₁) ← execute_trade server buy_id sell.unique_id amount price db
      db₂ ← update_order_status server buy_id amount price transaction db₁
      db₃ ← update_order_status server sell.unique_id amount price transaction db₂
      some (eqb_ℤ buy.order_quantity amount, db₃)

-- One round of the loop over the sell orders. The buy row is read again in each round.
unfoldable pub match_sell : Server → ℕ → ℤ → Order → Database → Option (Bool × Database)
match_sell server buy_id buy_price sell db = do
  buy ← find_order buy_id db
  if leb_ℤ sell.limit_price buy_price
      then trade server buy_id buy_price buy sell db
      else some (false, db)

-- The loop over the sell orders; it ends early once the buy order is complete.
unfoldable pub match_sells : Server → ℕ → ℤ → List Order → Database → Option Database
match_sells server buy_id buy_price [] db = some db
match_sells server buy_id buy_price (sell ∷ sells) db =
    elim (match_sell server buy_id buy_price sell db) [
      | none ↦ none
      | some (true, after) ↦ some after
      | some (false, after) ↦ match_sells server buy_id buy_price sells after
    ]

-- The WHERE clauses of the two queries.
abbrev pub is_buy : String → Order → Bool
is_buy symbol r = str_eq r.symbol symbol && is_open r && ltb_ℤ (pos 0) r.order_quantity

abbrev pub is_sell_up_to : String → ℤ → Order → Bool
is_sell_up_to symbol price r =
    str_eq r.symbol symbol
    && is_open r
    && leb_ℤ r.limit_price price
    && ltb_ℤ r.order_quantity (pos 0)

unfoldable pub open_sells : Server → String → ℤ → Database → List Order
open_sells server symbol price db =
    server.order_by sell_before (server.scan (select (is_sell_up_to symbol price) db.orders))

unfoldable pub open_buys : Server → String → Database → List Order
open_buys server symbol db =
    server.order_by buy_before (server.scan (select (is_buy symbol) db.orders))

-- The loop over the buy orders, which were all read before it began.
unfoldable pub match_buys : Server → String → List Order → Database → Option Database
match_buys server symbol [] db = some db
match_buys server symbol (buy ∷ buys) db =
    elim (match_sells server buy.unique_id buy.limit_price
      (open_sells server symbol buy.limit_price db) db) [
        | none ↦ none
        | some after ↦ match_buys server symbol buys after
      ]

unfoldable pub match_orders : Server → String → Database → Option Database
match_orders server symbol db = match_buys server symbol (open_buys server symbol db) db
