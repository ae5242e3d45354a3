-- ===== src/Exchange/Ids.antt =====
-- The key UNIQUE_ID of the table ORDERS in
-- project4_stockexchange/docker-deploy/matching-engine/database.cpp: the rows stand in the order of
-- the sequence that made their ids.
use duke_ece.Prelude.{
  All, ◌<◌, ℕ, suc, ◌≤◌, ◌≡◌, refl, Bool, String, List, [], ◌∷◌, ◌++◌, some, arith, map, ap,
  update_where, Bool-cases, inl, inr,
}
use duke_ece.Prelude.Int.{ℤ, pos, ltb_ℤ, eqb_ℤ, abs, ◌-ℤ◌}
use duke_ece.Exchange.Tables.{Order, Database, Server, is_open}
use duke_ece.Exchange.Orders.{
  has_unique_id, stored_order, place_order, set_order_id, new_order, insert_order, refund,
  close_orders, cancel_rows, cancel_order, Session,
}
use duke_ece.Exchange.Matching.{book, update_row, match_orders, fill, fill_part, signed}
use duke_ece.Exchange.Rule.{match_orders_rule}

abbrev pub ids : List Order → List ℕ
ids = map (λ r. r.unique_id)

-- The numbers rise, from `low` on and below `high`.
abbrev pub Rising : ℕ → List ℕ → ℕ → Type 0
Rising low [] high = low ≤ high
Rising low (x ∷ xs) high = (low ≤ x) × Rising (suc x) xs high

-- No id stands twice, and the sequence's next id is a new one.
abbrev pub HasKeys : Database → Type 0
HasKeys db = Rising 0 (ids db.orders) db.next_unique_id

pub Rising-le : (low : ℕ) (xs : List ℕ) (high : ℕ) → Rising low xs high → low ≤ high
Rising-le low [] high h = h
Rising-le low (x ∷ xs) high h = omega (arith, Rising-le (suc x) xs high h.1)

Rising-append :
    (low : ℕ) (xs : List ℕ) (high : ℕ)
    → Rising low xs high
    → Rising low (xs ++ high ∷ []) (suc high)
Rising-append low [] high h = omega arith
Rising-append low (x ∷ xs) high h = (h.0, Rising-append (suc x) xs high h.1)

ids-append : (xs : List Order) (r : Order) → ids (xs ++ r ∷ []) ≡ ids xs ++ r.unique_id ∷ []
ids-append [] r = refl
ids-append (x ∷ xs) r = ap (◌∷◌ x.unique_id) (ids-append xs r)

pub ids-update_where :
    (p : Order → Bool) (f : Order → Order) (rows : List Order)
    → ((r : Order) → (f r).unique_id ≡ r.unique_id)
    → ids (update_where p f rows) ≡ ids rows
unfolding update_where
ids-update_where p f [] keeps = refl
ids-update_where p f (x ∷ rows) keeps = ground (arith, ids-update_where p f rows keeps, keeps x)

pub stored_order-HasKeys :
    (server : Server) (account symbol : String) (quantity limit : ℤ) (db : Database)
    → HasKeys db
    → HasKeys (stored_order server account symbol quantity limit db)
unfolding stored_order
stored_order-HasKeys server account symbol quantity limit db h =
    rw
      (
        ids-update_where (has_unique_id db.next_unique_id) (set_order_id (pos db.next_unique_id))
            (db.orders ++ new_order server account symbol quantity limit db.next_unique_id ∷ [])
            (λ _. refl),
        ids-append,
      )
      (Rising-append 0 _ db.next_unique_id h)

pub update_row-HasKeys :
    (server : Server) (r : Order) (id : ℕ) (amount price : ℤ) (t : ℕ) (db : Database)
    → HasKeys db
    → HasKeys (update_row server r id amount price t db)
unfolding update_row
update_row-HasKeys server r id amount price t db h =
    elim (Bool-cases (eqb_ℤ (abs r.order_quantity -ℤ amount) (pos 0))) [
      | inl filled ↦
          rw (filled, update_row) (rw (ids-update_where _ (fill price t) db.orders (λ _. refl)) h)
      | inr more ↦ elim (Bool-cases (ltb_ℤ (pos 0) (abs r.order_quantity -ℤ amount))) [
        | inl part ↦
            rw (more, part, update_row)
              (rw
                (
                  ids-append,
                  ids-update_where _ (fill_part (signed r amount) price t) db.orders (λ _. refl),
                )
                (Rising-append 0 _ db.next_unique_id h))
        | inr odd ↦ rw (more, odd, update_row) h
      ]
    ]

-- Matching keeps the ids of ORDERS distinct and below the sequence.
pub match_orders-HasKeys :
    (server : Server) (symbol : String) (db : Database)
    → HasKeys db
    → (after : Database) × (match_orders server symbol db ≡ some after) × HasKeys after
match_orders-HasKeys server symbol db h =
    let (after, e, i, _) =
      match_orders_rule server HasKeys (λ d _ _ _ _ _ _ i. unfold book in i)
        (λ d r id a p t _ _ i. update_row-HasKeys server r id a p t d i) symbol db h in
    (after, e, i)

pub Rising-mono :
    (low : ℕ) (xs : List ℕ) (high more : ℕ) → high ≤ more → Rising low xs high → Rising low xs more
Rising-mono low [] high more g h = omega arith
Rising-mono low (x ∷ xs) high more g h = (h.0, Rising-mono (suc x) xs high more g h.1)

pub update_row_grows :
    (server : Server) (r : Order) (id : ℕ) (amount price : ℤ) (t : ℕ) (db : Database)
    → db.next_unique_id ≤ (update_row server r id amount price t db).next_unique_id
unfolding update_row
update_row_grows server r id amount price t db = ground arith

pub insert_order_grows :
    (server : Server) (account symbol : String) (quantity limit : ℤ) (db : Database)
    → db.next_unique_id ≤ (insert_order server account symbol quantity limit db).1.next_unique_id
unfolding insert_order place_order stored_order
insert_order_grows server account symbol quantity limit db = ground arith

refund_grows :
    (id : ℤ) (row : Order) (db : Database)
    → db.next_unique_id ≤ (refund id row db).1.db.next_unique_id
unfolding refund
refund_grows id row db = ground arith

cancel_rows_grows :
    (id : ℤ) (rows : List Order) (db : Database)
    → db.next_unique_id ≤ (cancel_rows id rows db).1.db.next_unique_id
unfolding cancel_rows close_orders
cancel_rows_grows id [] db = omega arith
cancel_rows_grows id (row ∷ _) db = elim (Bool-cases (is_open row)) [
  | inl live ↦ rw (live, cancel_rows) (refund_grows id row (close_orders id db))
  | inr dead ↦ rw (dead, cancel_rows) (omega arith)
]

pub cancel_order_grows :
    (server : Server) (id : ℤ) (s : Session)
    → s.db.next_unique_id ≤ (cancel_order server id s).1.db.next_unique_id
unfolding cancel_order
cancel_order_grows server id s = elim (Bool-cases s.aborted) [
  | inl dead ↦ rw (dead, cancel_order) (omega arith)
  | inr live ↦ rw (live, cancel_order) (cancel_rows_grows id _ s.db)
]

pub Rising-below :
    (low : ℕ) (rows : List Order) (high : ℕ)
    → Rising low (ids rows) high
    → All (λ r. r.unique_id < high) rows
Rising-below low [] high h = tt
Rising-below low (x ∷ rows) high h =
    (Rising-le (suc x.unique_id) (ids rows) high h.1, Rising-below (suc x.unique_id) rows high h.1)

update_where_last :
    (f : Order → Order) (low high : ℕ) (rows : List Order) (r : Order)
    → Rising low (ids rows) high
    → r.unique_id ≡ high
    → update_where (has_unique_id high) f (rows ++ r ∷ []) ≡ rows ++ f r ∷ []
unfolding update_where
update_where_last f low high [] r h e = ground arith
update_where_last f low high (x ∷ rows) r h e = ground (
  arith,
  update_where_last f (suc x.unique_id) high rows r h.1 e,
  Rising-le (suc x.unique_id) (ids rows) high h.1,
)

-- An order is placed by adding one row, whose ORDER_ID is its UNIQUE_ID.
pub orders-stored_order :
    (server : Server) (account symbol : String) (quantity limit : ℤ) (db : Database)
    → HasKeys db
    → (stored_order server account symbol quantity limit db).orders
      ≡ db.orders
        ++ set_order_id
            (pos db.next_unique_id)
            (new_order server account symbol quantity limit db.next_unique_id)
          ∷ []
unfolding stored_order
orders-stored_order server account symbol quantity limit db k =
    update_where_last (set_order_id (pos db.next_unique_id)) 0 db.next_unique_id db.orders
      (new_order server account symbol quantity limit db.next_unique_id) k refl
