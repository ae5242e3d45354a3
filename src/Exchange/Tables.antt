-- ===== src/Exchange/Tables.antt =====
-- The four tables of createTables in
-- project4_stockexchange/docker-deploy/matching-engine/database.cpp, as lists of rows, and the
-- ORDER BY of its queries. A share count is a whole number of shares and an amount of money a whole
-- number of cents, so that the source's doubles are exact on them.
use duke_ece.Prelude.{
  length, ◌≡◌, ℕ, String, Bool, true, false, List, [], ◌∷◌, Option, All, str_eq, find_first, ◌&&◌,
  ◌||◌, leb,
}
use duke_ece.Prelude.Int.{ℤ, ltb_ℤ, eqb_ℤ}
use duke_ece.Exchange.Columns.{same_char}

pub record Account : Type 0 where
  pub account_id : String
  pub balance : ℤ

pub data OrderStatus : Type 0 where
  opened executed closed : OrderStatus

-- The text that the column ORDER_STATUS holds.
abbrev pub status_text : OrderStatus → String
status_text opened = "OPEN"
status_text executed = "EXECUTED"
status_text closed = "CLOSED"

pub record Order : Type 0 where
  pub unique_id : ℕ
  pub order_id : ℤ
  pub account_id : String
  pub symbol : String
  pub order_quantity : ℤ
  pub limit_price : ℤ
  pub order_status : OrderStatus
  pub transaction_id : Option ℕ
  pub created_at : ℕ

pub record Transaction : Type 0 where
  pub transaction_id : ℕ
  pub symbol : String
  pub quantity : ℤ
  pub price_per_unit : ℤ
  pub buyer_account_id : Option String
  pub seller_account_id : Option String
  pub execution_time : ℕ

pub record Symbol : Type 0 where
  pub symbol_id : String
  pub account_id : String
  pub share_count : ℤ

-- The two counters are the sequences behind the BIGSERIAL columns.
pub record Database : Type 0 where
  pub accounts : List Account
  pub orders : List Order
  pub transactions : List Transaction
  pub symbols : List Symbol
  pub next_unique_id : ℕ
  pub next_transaction_id : ℕ

-- Each row comes before every later one.
abbrev pub Sorted : (Order → Order → Bool) → List Order → Type 0
Sorted before [] = Unit {0}
Sorted before (x ∷ rows) = All (λ y. before x y ≡ true) rows × Sorted before rows

-- The order in which a row comes before another is total and transitive.
pub record IsOrder (before : Order → Order → Bool) : Type 0 where
  pub total : (x y : Order) → before x y ≡ false → before y x ≡ true
  pub trans : (x y z : Order) → before x y ≡ true → before y z ≡ true → before x z ≡ true

-- What the code leaves to PostgreSQL and libpqxx: the time of NOW(), which is one value in a
-- transaction; the order in which a SELECT gives its rows where the query does not say; and whether
-- `commit` raises when a statement of the transaction had failed. A SELECT gives the rows of
-- the table that it selects, each as often as it is there; ORDER BY gives them in its order, where rows
-- that tie stand as the server likes.
pub record Server : Type 1 where
  pub now : ℕ
  pub scan : List Order → List Order
  pub order_by : (Order → Order → Bool) → List Order → List Order
  pub commit_raises : Bool
  pub scan_rows : (P : Order → Type 0) (rows : List Order) → All P rows → All P (scan rows)
  pub scan_length : (rows : List Order) → length (scan rows) ≡ length rows
  pub order_by_rows :
      (P : Order → Type 0) (before : Order → Order → Bool) (rows : List Order)
      → All P rows
      → All P (order_by before rows)
  pub order_by_sorted :
      (before : Order → Order → Bool) (rows : List Order)
      → IsOrder before
      → Sorted before (order_by before rows)

abbrev pub has_account : String → Account → Bool
has_account id a = same_char a.account_id id

unfoldable pub find_account : String → List Account → Option Account
find_account id accounts = find_first (has_account id) accounts

abbrev pub holds : String → String → Symbol → Bool
holds account symbol s = same_char s.account_id account && str_eq s.symbol_id symbol

abbrev pub is_open : Order → Bool
is_open r = str_eq (status_text r.order_status) "OPEN"

-- LIMIT_PRICE DESC, CREATED_AT ASC.
abbrev pub buy_before : Order → Order → Bool
buy_before x y =
    ltb_ℤ y.limit_price x.limit_price
    || (eqb_ℤ x.limit_price y.limit_price && leb x.created_at y.created_at)

-- LIMIT_PRICE ASC, CREATED_AT ASC.
abbrev pub sell_before : Order → Order → Bool
sell_before x y =
    ltb_ℤ x.limit_price y.limit_price
    || (eqb_ℤ x.limit_price y.limit_price && leb x.created_at y.created_at)

-- CREATED_AT ASC.
abbrev pub created_before : Order → Order → Bool
created_before x y = leb x.created_at y.created_at
