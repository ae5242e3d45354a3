-- ===== src/Exchange/Money.antt =====
-- Balances and share counts in insertOrder, match_orders and cancelOrder of
-- project4_stockexchange/docker-deploy/matching-engine/database.cpp.
use duke_ece.Prelude.{
  some-eq, subst, Option, ℕ, ◌<◌, ◌≡◌, ◌∙◌, refl, ap, String, true, false, List, [], ◌∷◌, ◌++◌,
  some, none, arith, Bool-cases, inl, inr, find_first, update_where, select, All, length,
}
use duke_ece.Prelude.Int.{ℤ, pos, ◌≤ℤ◌, ◌<ℤ◌, ◌*ℤ◌, ◌+ℤ◌, +ℤ_parts, abs}
use duke_ece.Exchange.Columns.{fits}
use duke_ece.Exchange.Requests.{live}
use duke_ece.Exchange.Tables.{Account, Order, Symbol, Database, Server, has_account, holds}
use duke_ece.Exchange.Orders.{
  has_order_id, refusal, stored_order, place_order, unstorable, new_order, set_order_id,
  cancel_order, cancel_rows, close_orders, refund, canceled, add_balance, overdrawn,
}
use duke_ece.Exchange.Matching.{book, match_orders}
use duke_ece.Exchange.Ids.{orders-stored_order, Rising-below}
use duke_ece.Exchange.Rule.{match_orders_rule}
use duke_ece.Exchange.Validity.{IsValid, Numbered, rest-update_row}

-- What insertOrder asks of an account before it places an order.
pub data Affords (symbol : String) (quantity limit : ℤ) (db : Database) (a : Account) : Type 0 where
  buys : pos 0 ≤ℤ quantity → quantity *ℤ limit ≤ℤ a.balance → Affords symbol quantity limit db a
  sells :
      quantity <ℤ pos 0
      → (s : Symbol) → find_first (holds a.account_id symbol) db.symbols ≡ some s
      → abs quantity ≤ℤ s.share_count
      → Affords symbol quantity limit db a

pub Affords-refusal :
    (a : Account) (symbol : String) (quantity limit : ℤ) (db : Database)
    → Affords symbol quantity limit db a
    → refusal a symbol quantity limit db ≡ none
unfolding refusal
Affords-refusal a symbol quantity limit db (buys h k) = ground arith
Affords-refusal a symbol quantity limit db (sells h s held k) = ground arith

-- Matching trades without settling: it changes no balance and no share count.
pub match_orders_settles_nothing :
    (server : Server) (symbol : String) (db : Database)
    → (after : Database) × (match_orders server symbol db ≡ some after)
      × (after.accounts ≡ db.accounts)
      × (after.symbols ≡ db.symbols)
match_orders_settles_nothing server symbol db =
    let (after, e, i, _) =
      match_orders_rule server (λ d. (d.accounts ≡ db.accounts) × (d.symbols ≡ db.symbols))
        (λ d _ _ _ _ _ _ i. unfold book in i)
        (λ d r id a p t _ _ i. (
          (rest-update_row server r id a p t d).0 ∙ i.0,
          (rest-update_row server r id a p t d).1 ∙ i.1,
        ))
        symbol db (refl, refl) in
    (after, e, i.0, i.1)

scan_one : (server : Server) (r : Order) → server.scan (r ∷ []) ≡ r ∷ []
scan_one server r =
    go (server.scan (r ∷ [])) (server.scan_length (r ∷ []))
      (server.scan_rows (λ x. x ≡ r) (r ∷ []) (refl, tt))
  where
    go : (rows : List Order) → length rows ≡ 1 → All (λ x. x ≡ r) rows → rows ≡ r ∷ []
    go [] e h = absurd (omega arith)
    go (x ∷ []) e h = ap (λ y. y ∷ []) h.0
    go (x ∷ y ∷ rows) e h = absurd (omega arith)

-- The rows of older orders do not have the id.
select_new :
    (id : ℕ) (rows : List Order) (r : Order)
    → All Numbered rows
    → All (λ x. x.unique_id < id) rows
    → r.order_id ≡ pos id
    → select (has_order_id (pos id)) (rows ++ r ∷ []) ≡ r ∷ []
unfolding select
select_new id [] r n b e = let mine : has_order_id (pos id) r ≡ true = ground arith in rw mine
select_new id (x ∷ rows) r n b e =
    let other : has_order_id (pos id) x ≡ false = ground arith in
    rw other (select_new id rows r n.1 b.1 e)

add_balance-storable :
    (id : String) (amount : ℤ) (accounts : List Account)
    → pos 0 ≤ℤ amount
    → All (λ a. overdrawn a ≡ false) accounts
    → All (λ a. fits 15 a.balance ≡ true) (add_balance id amount accounts)
    → find_first unstorable (add_balance id amount accounts) ≡ none
unfolding find_first update_where
add_balance-storable id amount [] up h k = refl
add_balance-storable id amount (a ∷ accounts) up h k = elim (Bool-cases (has_account id a)) [
  | inl mine ↦
      let richer = record a { balance = a.balance +ℤ amount } in
      let (room, others) = rw mine at k in
      let fine : overdrawn richer ≡ false = ground (arith, +ℤ_parts a.balance amount) in
      rw (mine, fine, room) (add_balance-storable id amount accounts up h.1 others)
  | inr other ↦
      let (room, others) = rw other at k in
      rw (other, h.0, room) (add_balance-storable id amount accounts up h.1 others)
]

close_one :
    (server : Server) (account symbol : String) (quantity limit : ℤ) (db : Database)
    → IsValid db
    → server.scan (
        select
          (has_order_id (pos db.next_unique_id))
          (stored_order server account symbol quantity limit db).orders)
      ≡ set_order_id
          (pos db.next_unique_id)
          (new_order server account symbol quantity limit db.next_unique_id)
        ∷ []
close_one server account symbol quantity limit db v =
    let row =
      set_order_id (pos db.next_unique_id)
        (new_order server account symbol quantity limit db.next_unique_id) in
    rw
      (
        orders-stored_order server account symbol quantity limit db v.keys,
        select_new db.next_unique_id db.orders row v.numbered
            (Rising-below 0 db.orders db.next_unique_id v.keys) refl,
      )
      (scan_one server row)

place-stored :
    (server : Server) (account symbol : String) (quantity limit : ℤ) (db placed : Database)
    → place_order server account symbol quantity limit db ≡ some placed
    → stored_order server account symbol quantity limit db ≡ placed
unfolding place_order
place-stored server account symbol quantity limit db placed e = elim (Bool-cases (fits 10 limit)) [
  | inl room ↦ some-eq (rw room at e)
  | inr wide ↦ absurd (let f : ◌≡◌ {A = Option Database} none (some placed) = rw wide at e in cc)
]

cancel_order-stored_order :
    (server : Server) (account symbol : String) (quantity limit : ℤ) (db : Database)
    → IsValid db
    → pos 0 ≤ℤ quantity *ℤ limit
    → All (λ a. fits 15 a.balance ≡ true) (add_balance account (quantity *ℤ limit) db.accounts)
    → let (answer, after) =
        cancel_order server
          (pos db.next_unique_id)
          (live (stored_order server account symbol quantity limit db)) in
      (answer ≡ canceled (pos db.next_unique_id))
      × (after.aborted ≡ false)
      × (after.db.accounts ≡ add_balance account (quantity *ℤ limit) db.accounts)
unfolding cancel_order cancel_rows close_orders refund stored_order
cancel_order-stored_order server account symbol quantity limit db v up room =
    rw
      (
        close_one server account symbol quantity limit db v,
        cancel_rows,
        refund,
        add_balance-storable account (quantity *ℤ limit) db.accounts up v.solvent room,
      )
      (refl, refl, refl)

-- On valid tables, an order whose value (quantity times limit) is not negative, which is placed and
-- then cancelled at once, pays out that value, which placing it did not take, where the balances have
-- room for it: the account ends richer by it than before the order.
pub cancel_order-place_order :
    (server : Server) (account symbol : String) (quantity limit : ℤ) (db placed : Database)
    → IsValid db
    → place_order server account symbol quantity limit db ≡ some placed
    → pos 0 ≤ℤ quantity *ℤ limit
    → All (λ a. fits 15 a.balance ≡ true) (add_balance account (quantity *ℤ limit) db.accounts)
    → let (answer, after) = cancel_order server (pos db.next_unique_id) (live placed) in
      (answer ≡ canceled (pos db.next_unique_id))
      × (after.aborted ≡ false)
      × (after.db.accounts ≡ add_balance account (quantity *ℤ limit) db.accounts)
cancel_order-place_order server account symbol quantity limit db placed v e up room =
    subst
      (λ d.
        let (answer, after) = cancel_order server (pos db.next_unique_id) (live d) in
        (answer ≡ canceled (pos db.next_unique_id))
        × (after.aborted ≡ false)
        × (after.db.accounts ≡ add_balance account (quantity *ℤ limit) db.accounts))
      (place-stored server account symbol quantity limit db placed e)
      (cancel_order-stored_order server account symbol quantity limit db v up room)
