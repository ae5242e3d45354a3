-- ===== src/Exchange/Overfill.antt =====
-- A buy order that is filled in part, in match_orders of
-- project4_stockexchange/docker-deploy/matching-engine/database.cpp.
use duke_ece.Prelude.{
  ℕ, ◌≡◌, ◌≢◌, ◌∙◌, refl, sym, ap, true, false, [], ◌∷◌, ◌++◌, some, arith, Bool-cases, inl, inr,
  find_first,
}
use mathlib.Core.List.{append_assoc}
use duke_ece.Prelude.Int.{ℤ, pos, leb_ℤ, ltb_ℤ, eqb_ℤ, ◌≤ℤ◌, ◌<ℤ◌, ◌-ℤ◌, abs, min_ℤ, -ℤ_parts}
use duke_ece.Exchange.Tables.{Order, executed, Transaction, Database, Server}
use duke_ece.Exchange.Orders.{has_unique_id}
use duke_ece.Exchange.Matching.{
  book, execution_price, execute_trade, update_row, update_order_status, trade, match_sell,
  match_sells, find_order, fill, fill_part, signed,
}
use duke_ece.Exchange.Rule.{Keeps, update_row-Keeps, transactions-update_row}
use duke_ece.Exchange.Trades.{match_sell-Books}
use duke_ece.Exchange.Rows.{listed, find-append, find-update_where_self, find-update_where_ne}

-- An update leaves the other rows alone.
find-update_row_ne :
    (server : Server) (r x : Order) (id k : ℕ) (amount price : ℤ) (t : ℕ) (db : Database)
    → k ≢ id
    → find_first (has_unique_id k) db.orders ≡ some x
    → find_first (has_unique_id k) (update_row server r id amount price t db).orders ≡ some x
unfolding update_row
find-update_row_ne server r x id k amount price t db ne e =
    elim (Bool-cases (eqb_ℤ (abs r.order_quantity -ℤ amount) (pos 0))) [
      | inl filled ↦
          rw (filled, update_row)
            (find-update_where_ne (fill price t) id k db.orders (λ _. refl) ne ∙ e)
      | inr more ↦ elim (Bool-cases (ltb_ℤ (pos 0) (abs r.order_quantity -ℤ amount))) [
        | inl part ↦
            rw (more, part, update_row)
              (find-append k _ _ x (
                find-update_where_ne (fill_part (signed r amount) price t) id k db.orders
                  (λ _. refl) ne
                ∙ e))
        | inr odd ↦ rw (more, odd, update_row) e
      ]
    ]

-- A partial fill leaves the executed quantity in the row.
find-update_row_part :
    (server : Server) (r : Order) (id : ℕ) (amount price : ℤ) (t : ℕ) (db : Database)
    → amount <ℤ abs r.order_quantity
    → find_first (has_unique_id id) db.orders ≡ some r
    → find_first (has_unique_id id) (update_row server r id amount price t db).orders
      ≡ some (fill_part (signed r amount) price t r)
unfolding update_row
find-update_row_part server r id amount price t db less e =
    let more : eqb_ℤ (abs r.order_quantity -ℤ amount) (pos 0) ≡ false =
      ground (arith, -ℤ_parts (abs r.order_quantity) amount) in
    let part : ltb_ℤ (pos 0) (abs r.order_quantity -ℤ amount) ≡ true =
      ground (arith, -ℤ_parts (abs r.order_quantity) amount) in
    rw (more, part, update_row)
      (find-append id _ _ _
        (find-update_where_self (fill_part (signed r amount) price t) id db.orders r (λ _. refl) e))

module _ (server : Server) (buy_id : ℕ) (p : ℤ) (buy sell row : Order) (db : Database)
    (found : find_order buy_id db ≡ some buy) (sell_found : find_order sell.unique_id db ≡ some row)
    (apart : buy_id ≢ sell.unique_id) (near : sell.limit_price ≤ℤ p)
    (bought : pos 0 <ℤ buy.order_quantity)
    (less : abs sell.order_quantity <ℤ buy.order_quantity) where
  less_part : min_ℤ buy.order_quantity (abs sell.order_quantity) <ℤ abs buy.order_quantity
  less_part = ground arith

  -- The tables after a sell order that fills the buy order in part.
  pub part_fill :
      (after : Database) × (r : Order) × (t : Transaction) × (match_sell server buy_id p sell db
        ≡ some (false, after))
      × (find_order buy_id after ≡ some r)
      × (r.order_quantity ≡ abs sell.order_quantity)
      × (r.order_status ≡ executed)
      × (after.transactions ≡ db.transactions ++ t ∷ [])
      × (t.quantity ≡ abs sell.order_quantity)
      × Keeps db after
  unfolding match_sell find_order trade execute_trade update_order_status book
  part_fill =
      let amount = min_ℤ buy.order_quantity (abs sell.order_quantity) in
      let price = execution_price buy_id sell.unique_id p sell.limit_price in
      let seller = find_first (has_unique_id sell.unique_id) db.orders in
      let db₁ = book server buy seller amount price db in
      let t = db.next_transaction_id in
      let db₂ = update_row server buy buy_id amount price t db₁ in
      let db₃ = update_row server row sell.unique_id amount price t db₂ in
      let size : amount ≡ abs sell.order_quantity = ground arith in
      let part : amount <ℤ abs buy.order_quantity = less_part in
      let reach : leb_ℤ sell.limit_price p ≡ true = ground arith in
      let goes_on : eqb_ℤ buy.order_quantity amount ≡ false = ground arith in
      let seen : find_first (has_unique_id sell.unique_id) db₂.orders ≡ some row =
        find-update_row_ne server buy row buy_id sell.unique_id amount price t db₁
          (λ e. apart (sym e)) sell_found in
      (
        db₃,
        fill_part (signed buy amount) price t buy,
        _,
        rw (found, reach, found, seen, goes_on),
        find-update_row_ne server row _ sell.unique_id buy_id amount price t db₂ apart
            (find-update_row_part server buy buy_id amount price t db₁ part found),
        ground arith,
        refl,
        transactions-update_row server row sell.unique_id amount price t db₂
            ∙ transactions-update_row server buy buy_id amount price t db₁,
        size,
        λ k h.
            update_row-Keeps server row sell.unique_id amount price t db₂ k
              (update_row-Keeps server buy buy_id amount price t db₁ k h),
      )

  -- Where a buy order meets a sell order in reach of fewer shares, the next listed sell order in reach
  -- is traded against the executed quantity of the buy row, and not against what remains of the order:
  -- the second transaction is for the smaller of the two sell quantities, however much of the buy order
  -- is left.
  pub fills_again :
      (next : Order)
      → next.limit_price ≤ℤ p
      → listed next.unique_id db.orders ≡ true
      → (after : Database) × (t₁ : Transaction) × (t₂ : Transaction) × (match_sells server buy_id p
            (sell ∷ next ∷ [])
            db
          ≡ some after)
        × (after.transactions ≡ db.transactions ++ t₁ ∷ t₂ ∷ [])
        × (t₁.quantity ≡ abs sell.order_quantity)
        × (t₂.quantity ≡ min_ℤ (abs sell.order_quantity) (abs next.order_quantity))
  unfolding match_sells
  fills_again next low there =
      let (db₁, r, t₁, e₁, f, q, _, b₁, q₁, keeps) = part_fill in
      let (db₂, e₂, t₂, b₂, books) =
        match_sell-Books server buy_id p r next db₁ f (keeps next.unique_id there) low in
      let stop = eqb_ℤ r.order_quantity (min_ℤ r.order_quantity (abs next.order_quantity)) in
      (
        db₂,
        t₁,
        t₂,
        elim (Bool-cases stop) [
          | inl done ↦ rw (e₁, match_sells, e₂, done)
          | inr more ↦ rw (e₁, match_sells, e₂, more)
        ],
        b₂ ∙ ap (λ ts. ts ++ t₂ ∷ []) b₁ ∙ append_assoc db.transactions (t₁ ∷ []) (t₂ ∷ []),
        q₁,
        books.quantity ∙ ap (λ q. min_ℤ q (abs next.order_quantity)) q,
      )
