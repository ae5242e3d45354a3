-- ===== src/Exchange/Orders.antt =====
-- insertOrder and cancelOrder of
-- project4_stockexchange/docker-deploy/matching-engine/database.cpp.
use duke_ece.Prelude.{
  ℕ, suc, ◌==◌, String, Bool, true, false, List, [], ◌∷◌, ◌++◌, Option, none, some, find_first,
  update_where, select, if◌then◌else◌, ◌||◌, not,
}
use duke_ece.Exchange.Columns.{fits}
use duke_ece.Prelude.Int.{ℤ, pos, negsuc, ◌+ℤ◌, ◌*ℤ◌, ltb_ℤ, leb_ℤ, eqb_ℤ, abs}
use duke_ece.Exchange.Tables.{
  Account, Order, opened, closed, Database, Server, has_account, find_account, holds, is_open,
}

-- The checks of insertOrder on an account that exists: the code of the refusal, or `none`.
unfoldable pub refusal : Account → String → ℤ → ℤ → Database → Option ℕ
refusal a symbol quantity limit_price db =
    if leb_ℤ (pos 0) quantity
    then (if ltb_ℤ a.balance (quantity *ℤ limit_price) then some 1 else none)
    else elim (find_first (holds a.account_id symbol) db.symbols) [
      | none ↦ some 2
      | some s ↦ if ltb_ℤ s.share_count (abs quantity) then some 3 else none
    ]

abbrev pub has_unique_id : ℕ → Order → Bool
has_unique_id id r = r.unique_id == id

abbrev pub has_order_id : ℤ → Order → Bool
has_order_id id r = eqb_ℤ r.order_id id

-- The row of the INSERT, whose ORDER_ID is -1.
abbrev pub new_order : Server → String → String → ℤ → ℤ → ℕ → Order
new_order server account_id symbol quantity limit_price id = record {
  unique_id = id;
  order_id = negsuc 0;
  account_id = account_id;
  symbol = symbol;
  order_quantity = quantity;
  limit_price = limit_price;
  order_status = opened;
  transaction_id = none;
  created_at = server.now;
}

abbrev pub set_order_id : ℤ → Order → Order
set_order_id id r = record r { order_id = id }

-- What the INSERT, RETURNING UNIQUE_ID, and the UPDATE that sets ORDER_ID to that id leave.
unfoldable pub stored_order : Server → String → String → ℤ → ℤ → Database → Database
stored_order server account_id symbol quantity limit_price db =
    let id = db.next_unique_id in
    record db {
      orders =
          update_where (has_unique_id id) (set_order_id (pos id))
            (db.orders ++ new_order server account_id symbol quantity limit_price id ∷ []);
      next_unique_id = suc id;
    }

-- The INSERT raises where the limit does not fit LIMIT_PRICE, DECIMAL(10, 2).
unfoldable pub place_order : Server → String → String → ℤ → ℤ → Database → Option Database
place_order server account_id symbol quantity limit_price db =
    if fits 10 limit_price
    then some (stored_order server account_id symbol quantity limit_price db)
    else none

abbrev pub placed_or_raised : Option Database → Database → Option ℕ × Database
placed_or_raised none db = (none, db)
placed_or_raised (some after) db = (some 4, after)

-- insertOrder: 0 to 3 for a refusal, 4 for an order that is placed, `none` for the INSERT's exception.
unfoldable pub insert_order : Server → String → String → ℤ → ℤ → Database → Option ℕ × Database
insert_order server account_id symbol quantity limit_price db =
    elim (find_account account_id db.accounts) [
      | none ↦ (some 0, db)
      | some a ↦ elim (refusal a symbol quantity limit_price db) [
        | some code ↦ (some code, db)
        | none ↦ placed_or_raised (place_order server account_id symbol quantity limit_price db) db
      ]
    ]

-- A transaction in progress. After a statement has failed, PostgreSQL refuses every other one.
pub record Session : Type 0 where
  pub db : Database
  pub aborted : Bool

pub data CancelReply : Type 0 where
  canceled not_found not_open cancel_failed : ℤ → CancelReply

-- UPDATE ACCOUNT SET BALANCE = BALANCE + amount WHERE ACCOUNT_ID = id.
abbrev pub add_balance : String → ℤ → List Account → List Account
add_balance id amount =
    update_where (has_account id) (λ a. record a { balance = a.balance +ℤ amount })

-- Whether a row breaks CHECK (BALANCE >= 0).
abbrev pub overdrawn : Account → Bool
overdrawn a = ltb_ℤ a.balance (pos 0)

-- Whether a row breaks CHECK (BALANCE >= 0), or is no DECIMAL(15, 2).
abbrev pub unstorable : Account → Bool
unstorable a = overdrawn a || not (fits 15 a.balance)

-- UPDATE ORDERS SET ORDER_STATUS = 'CLOSED' WHERE ORDER_ID = id.
unfoldable pub close_orders : ℤ → Database → Database
close_orders id db = record db {
  orders = update_where (has_order_id id) (λ r. record r { order_status = closed }) db.orders;
}

-- The refund of cancelOrder. The UPDATE fails where it would leave a negative balance, or one that
-- BALANCE has no room for.
unfoldable pub refund : ℤ → Order → Database → CancelReply × Session
refund id row db =
    let accounts = add_balance row.account_id (row.order_quantity *ℤ row.limit_price) db.accounts in
    elim (find_first unstorable accounts) [
      | some _ ↦ (cancel_failed id, record { db = db; aborted = true })
      | none ↦ (canceled id, record { db = record db { accounts = accounts }; aborted = false })
    ]

-- The body of the try block, on the rows that the SELECT gives.
unfoldable pub cancel_rows : ℤ → List Order → Database → CancelReply × Session
cancel_rows id [] db = (not_found id, record { db = db; aborted = false })
cancel_rows id (row ∷ _) db =
    if is_open row
    then refund id row (close_orders id db)
    else (not_open id, record { db = db; aborted = false })

unfoldable pub cancel_order : Server → ℤ → Session → CancelReply × Session
cancel_order server id s = elim s.aborted [
  | true ↦ (cancel_failed id, s)
  | false ↦ cancel_rows id (server.scan (select (has_order_id id) s.db.orders)) s.db
]
