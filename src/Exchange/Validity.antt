-- ===== src/Exchange/Validity.antt =====
-- What holds of the tables of project4_stockexchange/docker-deploy/matching-engine/database.cpp
-- between any two operations.
use duke_ece.Prelude.{
  ℕ, ◌≡◌, refl, Bool, String, true, false, List, [], ◌∷◌, ◌++◌, Option, some, none, arith, ◌≤◌,
  find_first, Bool-cases, inl, inr, All, All-append, All-update_where, All-imp, All-find_none,
  All_find, ◌<◌, Option-cases,
}
use native.Mathlib.Nat.{le_trans}
use duke_ece.Prelude.Int.{ℤ, pos, ltb_ℤ, eqb_ℤ, abs, ◌-ℤ◌, ◌*ℤ◌, pos_part, neg_part}
use duke_ece.Exchange.Columns.{fits}
use duke_ece.Exchange.Tables.{
  Account, Order, OrderStatus, opened, executed, closed, Transaction, Symbol, Database, Server,
  find_account, is_open,
}
use duke_ece.Exchange.Orders.{
  has_order_id, has_unique_id, stored_order, place_order, placed_or_raised, unstorable,
  insert_order, refusal, close_orders, refund, cancel_rows, cancel_order, Session, overdrawn,
  add_balance,
}
use duke_ece.Exchange.Matching.{book, update_row, match_orders}
use duke_ece.Exchange.Ids.{
  HasKeys, stored_order-HasKeys, update_row_grows, update_row-HasKeys, ids-update_where,
  Rising-below, orders-stored_order,
}
use duke_ece.Exchange.Rule.{booked_id, match_orders_rule, transactions-update_row}

abbrev settled_as : OrderStatus → Option ℕ → List Transaction → Bool
settled_as executed none ts = false
settled_as executed (some id) ts = booked_id id ts
settled_as opened t ts = true
settled_as closed t ts = true

-- An executed row names a transaction that was booked.
abbrev pub settled : List Transaction → Order → Bool
settled ts r = settled_as r.order_status r.transaction_id ts

abbrev pub AllSettled : List Transaction → List Order → Type 0
AllSettled ts rows = All (λ r. settled ts r ≡ true) rows

abbrev pub short : Symbol → Bool
short s = ltb_ℤ s.share_count (pos 0)

-- An order's rows carry its id, which is that of its first row.
abbrev pub Numbered : Order → Type 0
Numbered r = (neg_part r.order_id ≡ 0) × (pos_part r.order_id ≤ r.unique_id)

pub record IsValid (db : Database) : Type 0 where
  pub keys : HasKeys db
  pub all_settled : AllSettled db.transactions db.orders
  pub numbered : All Numbered db.orders
  pub solvent : All (λ a. overdrawn a ≡ false) db.accounts
  pub owned : All (λ s. short s ≡ false) db.symbols

booked_id-append :
    (id : ℕ) (ts : List Transaction) (t : Transaction)
    → booked_id id ts ≡ true
    → booked_id id (ts ++ t ∷ []) ≡ true
booked_id-append id [] t h = ground arith
booked_id-append id (x ∷ ts) t h = ground (arith, booked_id-append id ts t)

settled-append :
    (ts : List Transaction) (t : Transaction) (s : OrderStatus) (id : Option ℕ)
    → settled_as s id ts ≡ true
    → settled_as s id (ts ++ t ∷ []) ≡ true
settled-append ts t executed none h = h
settled-append ts t executed (some id) h = booked_id-append id ts t h
settled-append ts t opened id h = refl
settled-append ts t closed id h = refl

book-IsValid :
    (server : Server) (buy : Order) (seller : Option Order) (amount price : ℤ) (db : Database)
    → IsValid db
    → IsValid (book server buy seller amount price db)
unfolding book
book-IsValid server buy seller amount price db v = record {
  keys = v.keys;
  all_settled =
      All-imp _ _ db.orders (λ r h. settled-append db.transactions _ r.order_status _ h)
        v.all_settled;
  numbered = v.numbered;
  solvent = v.solvent;
  owned = v.owned;
}

update_row-AllSettled :
    (server : Server) (r : Order) (id : ℕ) (amount price : ℤ) (t : ℕ) (db : Database)
    → booked_id t db.transactions ≡ true
    → AllSettled db.transactions db.orders
    → AllSettled db.transactions (update_row server r id amount price t db).orders
unfolding update_row
update_row-AllSettled server r id amount price t db b h =
    elim (Bool-cases (eqb_ℤ (abs r.order_quantity -ℤ amount) (pos 0))) [
      | inl filled ↦
          rw (filled, update_row)
            (All-update_where (λ r. settled db.transactions r ≡ true) _ _ db.orders (λ _ _. b) h)
      | inr more ↦ elim (Bool-cases (ltb_ℤ (pos 0) (abs r.order_quantity -ℤ amount))) [
        | inl part ↦
            rw (more, part, update_row)
              (All-append (λ r. settled db.transactions r ≡ true) _ _
                (All-update_where (λ r. settled db.transactions r ≡ true) _ _ db.orders (λ _ _. b)
                  h)
                (refl, tt))
        | inr odd ↦ rw (more, odd, update_row) h
      ]
    ]

update_row-Numbered :
    (server : Server) (r : Order) (id : ℕ) (amount price : ℤ) (t : ℕ) (db : Database)
    → HasKeys db
    → find_first (has_unique_id id) db.orders ≡ some r
    → All Numbered db.orders
    → All Numbered (update_row server r id amount price t db).orders
unfolding update_row
update_row-Numbered server r id amount price t db k e h =
    elim (Bool-cases (eqb_ℤ (abs r.order_quantity -ℤ amount) (pos 0))) [
      | inl filled ↦ rw (filled, update_row) (All-update_where Numbered _ _ db.orders (λ _ n. n) h)
      | inr more ↦ elim (Bool-cases (ltb_ℤ (pos 0) (abs r.order_quantity -ℤ amount))) [
        | inl part ↦
            rw (more, part, update_row)
              (All-append Numbered _ _ (All-update_where Numbered _ _ db.orders (λ _ n. n) h) (
                (
                  (All_find Numbered _ db.orders r h e).0,
                  omega (
                    arith,
                    (All_find Numbered _ db.orders r h e).1,
                    All_find (λ q. q.unique_id < db.next_unique_id) _ db.orders r
                        (Rising-below 0 db.orders db.next_unique_id k) e,
                  ),
                ),
                tt,
              ))
        | inr odd ↦ rw (more, odd, update_row) h
      ]
    ]

pub rest-update_row :
    (server : Server) (r : Order) (id : ℕ) (amount price : ℤ) (t : ℕ) (db : Database)
    → ((update_row server r id amount price t db).accounts ≡ db.accounts)
      × ((update_row server r id amount price t db).symbols ≡ db.symbols)
unfolding update_row
rest-update_row server r id amount price t db = ground arith

update_row-IsValid :
    (server : Server) (r : Order) (id : ℕ) (amount price : ℤ) (t : ℕ) (db : Database)
    → find_first (has_unique_id id) db.orders ≡ some r
    → booked_id t db.transactions ≡ true
    → IsValid db
    → IsValid (update_row server r id amount price t db)
update_row-IsValid server r id amount price t db e b v = record {
  keys = update_row-HasKeys server r id amount price t db v.keys;
  all_settled =
      rw (transactions-update_row server r id amount price t db)
        (update_row-AllSettled server r id amount price t db b v.all_settled);
  numbered = update_row-Numbered server r id amount price t db v.keys e v.numbered;
  solvent = rw ((rest-update_row server r id amount price t db).0) v.solvent;
  owned = rw ((rest-update_row server r id amount price t db).1) v.owned;
}

-- On valid tables matching raises no exception and leaves valid tables, with no id given back.
pub match_orders-IsValid :
    (server : Server) (symbol : String) (db : Database)
    → IsValid db
    → (after : Database) × (match_orders server symbol db ≡ some after)
      × IsValid after
      × (db.next_unique_id ≤ after.next_unique_id)
match_orders-IsValid server symbol db v =
    let (after, e, i, _) =
      match_orders_rule server (λ d. IsValid d × (db.next_unique_id ≤ d.next_unique_id))
        (λ d buy sell seller _ _ _ i.
          (book-IsValid server buy seller _ _ d i.0, unfold book in i.1))
        (λ d r id a p t e b i. (
          update_row-IsValid server r id a p t d e b i.0,
          le_trans i.1 (update_row_grows server r id a p t d),
        ))
        symbol db (v, omega arith) in
    (after, e, i.0, i.1)

-- The UPDATE that sets the id reaches the new row only.
stored_order-Numbered :
    (server : Server) (account symbol : String) (quantity limit : ℤ) (db : Database)
    → IsValid db
    → All Numbered (stored_order server account symbol quantity limit db).orders
stored_order-Numbered server account symbol quantity limit db v =
    rw (orders-stored_order server account symbol quantity limit db v.keys)
      (All-append Numbered db.orders _ v.numbered ((refl, omega arith), tt))

stored_order-IsValid :
    (server : Server) (account symbol : String) (quantity limit : ℤ) (db : Database)
    → IsValid db
    → IsValid (stored_order server account symbol quantity limit db)
unfolding stored_order
stored_order-IsValid server account symbol quantity limit db v = record {
  keys = stored_order-HasKeys server account symbol quantity limit db v.keys;
  all_settled =
      All-update_where (λ r. settled db.transactions r ≡ true) _ _ _ (λ _ h. h)
        (All-append (λ r. settled db.transactions r ≡ true) db.orders _ v.all_settled (refl, tt));
  numbered = stored_order-Numbered server account symbol quantity limit db v;
  solvent = v.solvent;
  owned = v.owned;
}

placed_or_raised-IsValid :
    (server : Server) (account symbol : String) (quantity limit : ℤ) (db : Database)
    → IsValid db
    → IsValid (placed_or_raised (place_order server account symbol quantity limit db) db).1
unfolding place_order
placed_or_raised-IsValid server account symbol quantity limit db v =
    elim (Bool-cases (fits 10 limit)) [
      | inl room ↦ rw room (stored_order-IsValid server account symbol quantity limit db v)
      | inr wide ↦ rw wide v
    ]

-- Asking for an order keeps the tables valid, whether it is placed or refused, or its INSERT raises.
pub insert_order-IsValid :
    (server : Server) (account symbol : String) (quantity limit : ℤ) (db : Database)
    → IsValid db
    → IsValid (insert_order server account symbol quantity limit db).1
unfolding insert_order
insert_order-IsValid server account symbol quantity limit db v =
    elim (Option-cases (find_account account db.accounts)) [
      | inl missing ↦ rw (missing, insert_order) v
      | inr (a, found) ↦ elim (Option-cases (refusal a symbol quantity limit db)) [
        | inl fine ↦
            rw (found, fine, insert_order)
              (placed_or_raised-IsValid server account symbol quantity limit db v)
        | inr (code, refused) ↦ rw (found, refused, insert_order) v
      ]
    ]

close_orders-IsValid : (id : ℤ) (db : Database) → IsValid db → IsValid (close_orders id db)
unfolding close_orders
close_orders-IsValid id db v = record {
  keys =
      rw
        (ids-update_where (has_order_id id) (λ r. record r { order_status = closed }) db.orders
          (λ _. refl))
        v.keys;
  all_settled =
      All-update_where (λ r. settled db.transactions r ≡ true) _ _ db.orders (λ _ _. refl)
        v.all_settled;
  numbered = All-update_where Numbered _ _ db.orders (λ _ n. n) v.numbered;
  solvent = v.solvent;
  owned = v.owned;
}

storable-solvent : (a : Account) → unstorable a ≡ false → overdrawn a ≡ false
storable-solvent a h = ground arith

refund-IsValid :
    (id : ℤ) (row : Order) (db : Database) → IsValid db → IsValid (refund id row db).1.db
unfolding refund
refund-IsValid id row db v =
    let accounts = add_balance row.account_id (row.order_quantity *ℤ row.limit_price) db.accounts in
    elim (Option-cases (find_first unstorable accounts)) [
      | inl fine ↦
          rw (fine, refund)
            (record {
              keys = v.keys;
              all_settled = v.all_settled;
              numbered = v.numbered;
              solvent =
                  All-imp _ _ accounts (λ a ok. storable-solvent a ok)
                    (All-find_none unstorable accounts fine);
              owned = v.owned;
            })
      | inr (a, bad) ↦ rw (bad, refund) v
    ]

cancel_rows-IsValid :
    (id : ℤ) (rows : List Order) (db : Database)
    → IsValid db
    → IsValid (cancel_rows id rows db).1.db
unfolding cancel_rows
cancel_rows-IsValid id [] db v = v
cancel_rows-IsValid id (row ∷ _) db v = elim (Bool-cases (is_open row)) [
  | inl live ↦ rw (live, cancel_rows) (refund-IsValid id row _ (close_orders-IsValid id db v))
  | inr dead ↦ rw (dead, cancel_rows) v
]

-- Cancelling keeps the tables valid: where the refund would leave a negative balance, the whole
-- cancellation fails.
pub cancel_order-IsValid :
    (server : Server) (id : ℤ) (s : Session)
    → IsValid s.db
    → IsValid (cancel_order server id s).1.db
unfolding cancel_order
cancel_order-IsValid server id s v = elim (Bool-cases s.aborted) [
  | inl dead ↦ rw (dead, cancel_order) v
  | inr live ↦ rw (live, cancel_order) (cancel_rows-IsValid id _ s.db v)
]
