-- ===== src/Exchange/Trades.antt =====
-- What a round of the loop in match_orders of
-- project4_stockexchange/docker-deploy/matching-engine/database.cpp books: price, quantity and
-- parties.
use duke_ece.Prelude.{
  ℕ, ◌≡◌, ◌∙◌, refl, true, [], ◌∷◌, ◌++◌, some, arith, Bool-cases, inl, inr, find_first, ltb,
}
use duke_ece.Prelude.Int.{ℤ, leb_ℤ, eqb_ℤ, ◌≤ℤ◌, abs, min_ℤ}
use duke_ece.Exchange.Tables.{Order, Transaction, Database, Server}
use duke_ece.Exchange.Orders.{has_unique_id}
use duke_ece.Exchange.Matching.{book, execution_price, execute_trade, trade, match_sell, find_order}
use duke_ece.Exchange.Rows.{listed, listed-find}
use duke_ece.Exchange.Rule.{status_rule, booked_id, booked_id_last, transactions-update_row}

-- The price lies between the seller's limit and the buyer's.
execution_price_between :
    (buy_id sell_id : ℕ) (buy_price sell_price : ℤ)
    → sell_price ≤ℤ buy_price
    → (sell_price ≤ℤ execution_price buy_id sell_id buy_price sell_price)
      × (execution_price buy_id sell_id buy_price sell_price ≤ℤ buy_price)
execution_price_between buy_id sell_id buy_price sell_price h =
    elim (Bool-cases (ltb sell_id buy_id)) [
      | inl newer ↦ rw newer (h, omega arith)
      | inr older ↦ rw older (omega arith, h)
    ]

-- What the round books.
pub record Books (server : Server) (p : ℤ) (buy sell : Order) (t : Transaction) : Type 0 where
  pub quantity : t.quantity ≡ min_ℤ buy.order_quantity (abs sell.order_quantity)
  pub fair_to_seller : sell.limit_price ≤ℤ t.price_per_unit
  pub fair_to_buyer : t.price_per_unit ≤ℤ p
  pub buyer : t.buyer_account_id ≡ some buy.account_id
  pub time : t.execution_time ≡ server.now

trade-Books :
    (server : Server) (buy_id : ℕ) (p : ℤ) (buy sell : Order) (db : Database)
    → find_first (has_unique_id buy_id) db.orders ≡ some buy
    → listed buy_id db.orders ≡ true
    → listed sell.unique_id db.orders ≡ true
    → sell.limit_price ≤ℤ p
    → (after : Database) × (trade server buy_id p buy sell db
        ≡ some
            (eqb_ℤ buy.order_quantity (min_ℤ buy.order_quantity (abs sell.order_quantity)), after))
      × (t : Transaction) × (after.transactions ≡ db.transactions ++ t ∷ [])
      × Books server p buy sell t
unfolding trade execute_trade find_order book
trade-Books server buy_id p buy sell db e hb hs low =
    let amount = min_ℤ buy.order_quantity (abs sell.order_quantity) in
    let price = execution_price buy_id sell.unique_id p sell.limit_price in
    let seller = find_first (has_unique_id sell.unique_id) db.orders in
    let db₁ = book server buy seller amount price db in
    let t = db.next_transaction_id in
    let b : booked_id t db₁.transactions ≡ true = booked_id_last t db.transactions _ refl in
    let same = λ (d : Database). d.transactions ≡ db₁.transactions in
    let keep =
      λ (d : Database) (r : Order) (id : ℕ) (a q : ℤ) (n : ℕ)
          (_ : find_first (has_unique_id id) d.orders ≡ some r)
          (_ : booked_id n d.transactions ≡ true) (i : same d).
        transactions-update_row server r id a q n d ∙ i in
    let (db₂, e₂, i₂, k₂, b₂) = status_rule server same keep db₁ buy_id amount price t hb b refl in
    let (db₃, e₃, i₃, _, _) =
      status_rule server same keep db₂ sell.unique_id amount price t (k₂ sell.unique_id hs) b₂ i₂ in
    let (above, below) = execution_price_between buy_id sell.unique_id p sell.limit_price low in
    (
      db₃,
      rw (e, e₂, e₃),
      _,
      i₃,
      record {
        quantity = refl;
        fair_to_seller = above;
        fair_to_buyer = below;
        buyer = refl;
        time = refl;
      },
    )

-- A round for a listed buy row and a listed sell order in reach books one transaction: at the smaller of the two quantities, as
-- the tables hold them, at a price within both limits, for the account of the buy row. The loop ends
-- after it exactly when the buy row's quantity is booked.
pub match_sell-Books :
    (server : Server) (buy_id : ℕ) (p : ℤ) (buy sell : Order) (db : Database)
    → find_order buy_id db ≡ some buy
    → listed sell.unique_id db.orders ≡ true
    → sell.limit_price ≤ℤ p
    → (after : Database) × (match_sell server buy_id p sell db
        ≡ some
            (eqb_ℤ buy.order_quantity (min_ℤ buy.order_quantity (abs sell.order_quantity)), after))
      × (t : Transaction) × (after.transactions ≡ db.transactions ++ t ∷ [])
      × Books server p buy sell t
unfolding match_sell find_order
match_sell-Books server buy_id p buy sell db e hs low =
    let near : leb_ℤ sell.limit_price p ≡ true = ground arith in
    rw (e, near)
      (trade-Books server buy_id p buy sell db e (listed-find buy_id db.orders buy e) hs low)
