-- ===== src/Exchange/Rule.antt =====
-- The rule by which a property of the tables is carried through match_orders of
-- project4_stockexchange/docker-deploy/matching-engine/database.cpp: it is enough that booking a
-- trade and updating an order keep it.
use duke_ece.Prelude.{
  ℕ, ◌≡◌, refl, Bool, true, false, String, List, [], ◌∷◌, Option, some, arith, All, Bool-cases, inl,
  inr, find_first, ◌++◌, ◌||◌,
}
use duke_ece.Prelude.Int.{ℤ, ltb_ℤ, leb_ℤ, eqb_ℤ, abs, min_ℤ, pos, ◌-ℤ◌}
use duke_ece.Exchange.Tables.{Order, Transaction, Database, Server, buy_before, sell_before}
use duke_ece.Exchange.Orders.{has_unique_id}
use duke_ece.Exchange.Matching.{
  find_order, book, execute_trade, update_row, update_order_status, execution_price, trade,
  match_sell, match_sells, open_sells, open_buys, match_buys, match_orders, fill, fill_part, signed,
}
use duke_ece.Exchange.Requests.{has_transaction_id}
use duke_ece.Exchange.Rows.{
  listed, find-listed, listed-append_left, listed-update_where, All-listed, All-query,
}

-- Every row of one state of the tables is still there in another.
abbrev pub Keeps : Database → Database → Type 0
Keeps db after = (k : ℕ) → listed k db.orders ≡ true → listed k after.orders ≡ true

abbrev pub AllListed : List Order → Database → Type 0
AllListed rows db = All (λ r. listed r.unique_id db.orders ≡ true) rows

-- A transaction with the id has been booked.
abbrev pub booked_id : ℕ → List Transaction → Bool
booked_id id [] = false
booked_id id (t ∷ ts) = has_transaction_id id t || booked_id id ts

pub booked_id_last :
    (id : ℕ) (ts : List Transaction) (t : Transaction)
    → t.transaction_id ≡ id
    → booked_id id (ts ++ t ∷ []) ≡ true
booked_id_last id [] t e = ground arith
booked_id_last id (x ∷ ts) t e = ground (arith, booked_id_last id ts t)

AllListed-Keeps :
    (rows : List Order) (db after : Database)
    → Keeps db after
    → AllListed rows db
    → AllListed rows after
AllListed-Keeps [] db after k h = tt
AllListed-Keeps (x ∷ rows) db after k h = (k x.unique_id h.0, AllListed-Keeps rows db after k h.1)

pub update_row-Keeps :
    (server : Server) (r : Order) (id : ℕ) (amount price : ℤ) (t : ℕ) (db : Database)
    → Keeps db (update_row server r id amount price t db)
unfolding update_row
update_row-Keeps server r id amount price t db k h =
    elim (Bool-cases (eqb_ℤ (abs r.order_quantity -ℤ amount) (pos 0))) [
      | inl filled ↦
          rw (filled, update_row) (listed-update_where (fill price t) id k db.orders (λ _. refl) h)
      | inr more ↦ elim (Bool-cases (ltb_ℤ (pos 0) (abs r.order_quantity -ℤ amount))) [
        | inl part ↦
            rw (more, part, update_row)
              (listed-append_left k _ _ (
                listed-update_where (fill_part (signed r amount) price t) id k db.orders (λ _. refl)
                  h))
        | inr odd ↦ rw (more, odd, update_row) h
      ]
    ]

pub transactions-update_row :
    (server : Server) (r : Order) (id : ℕ) (amount price : ℤ) (t : ℕ) (db : Database)
    → (update_row server r id amount price t db).transactions ≡ db.transactions
unfolding update_row
transactions-update_row server r id amount price t db = ground arith

module _ (server : Server) (I : Database → Type 0)
    (updated : (db : Database) (r : Order) (id : ℕ) (amount price : ℤ) (t : ℕ)
      → find_first (has_unique_id id) db.orders ≡ some r
      → booked_id t db.transactions ≡ true
      → I db
      → I (update_row server r id amount price t db)) where
  pub status_rule :
      (db : Database) (id : ℕ) (amount price : ℤ) (t : ℕ)
      → listed id db.orders ≡ true
      → booked_id t db.transactions ≡ true
      → I db
      → (after : Database) × (update_order_status server id amount price t db ≡ some after)
        × I after
        × Keeps db after
        × (booked_id t after.transactions ≡ true)
  unfolding update_order_status find_order
  status_rule db id amount price t h b i =
      let (r, e) = find-listed id db.orders h in
      (
        update_row server r id amount price t db,
        rw e,
        updated db r id amount price t e b i,
        update_row-Keeps server r id amount price t db,
        rw (transactions-update_row server r id amount price t db) b,
      )

module _ (server : Server) (I : Database → Type 0)
    (booked : (db : Database) (buy : Order) (sell : Order) (seller : Option Order) (buy_id : ℕ)
        (p : ℤ)
      → leb_ℤ sell.limit_price p ≡ true
      → I db
      → I (
          book server buy seller
            (min_ℤ buy.order_quantity (abs sell.order_quantity))
            (execution_price buy_id sell.unique_id p sell.limit_price)
            db))
    (updated : (db : Database) (r : Order) (id : ℕ) (amount price : ℤ) (t : ℕ)
      → find_first (has_unique_id id) db.orders ≡ some r
      → booked_id t db.transactions ≡ true
      → I db
      → I (update_row server r id amount price t db)) where
  trade_rule :
      (db : Database) (buy_id : ℕ) (p : ℤ) (buy sell : Order)
      → find_first (has_unique_id buy_id) db.orders ≡ some buy
      → leb_ℤ sell.limit_price p ≡ true
      → listed buy_id db.orders ≡ true
      → listed sell.unique_id db.orders ≡ true
      → I db
      → (stop : Bool) × (after : Database) × (trade server buy_id p buy sell db
          ≡ some (stop, after))
        × I after
        × Keeps db after
  unfolding trade execute_trade find_order book
  trade_rule db buy_id p buy sell e low hb hs i =
      let amount = min_ℤ buy.order_quantity (abs sell.order_quantity) in
      let price = execution_price buy_id sell.unique_id p sell.limit_price in
      let seller = find_first (has_unique_id sell.unique_id) db.orders in
      let db₁ = book server buy seller amount price db in
      let t = db.next_transaction_id in
      let b : booked_id t db₁.transactions ≡ true = booked_id_last t db.transactions _ refl in
      let (db₂, e₂, i₂, k₂, b₂) =
        status_rule server I updated db₁ buy_id amount price t hb b
          (booked db buy sell seller buy_id p low i) in
      let (db₃, e₃, i₃, k₃, _) =
        status_rule server I updated db₂ sell.unique_id amount price t (k₂ sell.unique_id hs) b₂
          i₂ in
      (eqb_ℤ buy.order_quantity amount, db₃, rw (e, e₂, e₃), i₃, λ k h. k₃ k (k₂ k h))

  match_sell_rule :
      (db : Database) (buy_id : ℕ) (p : ℤ) (sell : Order)
      → listed buy_id db.orders ≡ true
      → listed sell.unique_id db.orders ≡ true
      → I db
      → (stop : Bool) × (after : Database) × (match_sell server buy_id p sell db
          ≡ some (stop, after))
        × I after
        × Keeps db after
  unfolding match_sell find_order
  match_sell_rule db buy_id p sell hb hs i =
      let (buy, e) = find-listed buy_id db.orders hb in
      elim (Bool-cases (leb_ℤ sell.limit_price p)) [
        | inl low ↦
            let (stop, after, t, j, k) = trade_rule db buy_id p buy sell e low hb hs i in
            (stop, after, rw (e, low) t, j, k)
        | inr high ↦ (false, db, rw (e, high), i, λ _ h. h)
      ]

  pub match_sells_rule :
      (buy_id : ℕ) (p : ℤ) (sells : List Order) (db : Database)
      → listed buy_id db.orders ≡ true
      → AllListed sells db
      → I db
      → (after : Database) × (match_sells server buy_id p sells db ≡ some after)
        × I after
        × Keeps db after
  unfolding match_sells
  match_sells_rule buy_id p [] db hb hs i = (db, refl, i, λ _ h. h)
  match_sells_rule buy_id p (sell ∷ sells) db hb hs i =
      let (stop, next, e, j, k) = match_sell_rule db buy_id p sell hb hs.0 i in
      let (after, e', j', k') =
        match_sells_rule buy_id p sells next (k buy_id hb) (AllListed-Keeps sells db next k hs.1)
          j in
      elim (Bool-cases stop) [
        | inl done ↦ (next, rw (e, match_sells, done), j, k)
        | inr more ↦ (after, rw (e, match_sells, more) e', j', λ n h. k' n (k n h))
      ]

  pub match_buys_rule :
      (symbol : String) (buys : List Order) (db : Database)
      → AllListed buys db
      → I db
      → (after : Database) × (match_buys server symbol buys db ≡ some after)
        × I after
        × Keeps db after
  unfolding match_buys open_sells
  match_buys_rule symbol [] db hb i = (db, refl, i, λ _ h. h)
  match_buys_rule symbol (buy ∷ buys) db hb i =
      let (next, e, j, k) =
        match_sells_rule buy.unique_id buy.limit_price (open_sells server symbol buy.limit_price db)
          db hb.0 (All-query _ server _ sell_before db.orders (All-listed db.orders)) i in
      let (after, e', j', k') =
        match_buys_rule symbol buys next (AllListed-Keeps buys db next k hb.1) j in
      (after, rw (e, match_buys) e', j', λ n h. k' n (k n h))

  -- match_orders raises no exception, and keeps what booking and updating keep.
  pub match_orders_rule :
      (symbol : String) (db : Database)
      → I db
      → (after : Database) × (match_orders server symbol db ≡ some after) × I after × Keeps db after
  unfolding match_orders open_buys
  match_orders_rule symbol db i =
      match_buys_rule symbol (open_buys server symbol db) db
        (All-query _ server _ buy_before db.orders (All-listed db.orders)) i
