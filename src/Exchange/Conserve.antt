-- ===== src/Exchange/Conserve.antt =====
-- The quantity that stands under an order id in the table ORDERS of
-- project4_stockexchange/docker-deploy/matching-engine/database.cpp, over an order's split rows.
use duke_ece.Prelude.{
  ℕ, suc, ◌<◌, ◌≡◌, refl, String, true, false, List, [], ◌∷◌, ◌++◌, some, arith, find_first,
  update_where, Bool-cases, inl, inr, ◌∙◌, if◌then◌else◌, sym, ap,
}
use duke_ece.Prelude.Int.{
  ℤ, pos, negsuc, ltb_ℤ, eqb_ℤ, abs, ◌-ℤ◌, ◌+ℤ◌, int_laws, +ℤ_assoc, +ℤ_swap, +ℤ_under,
  +ℤ_cancel_right, pos_part, neg_part,
}
use duke_ece.Exchange.Tables.{Order, Database, Server}
use duke_ece.Exchange.Orders.{has_unique_id, has_order_id}
use duke_ece.Exchange.Matching.{book, update_row, match_orders, fill, fill_part, signed, remainder}
use duke_ece.Exchange.Ids.{ids, Rising, HasKeys, update_row-HasKeys}
use duke_ece.Exchange.Rule.{match_orders_rule}

-- What one row adds to the order `id`.
abbrev pub share : ℤ → Order → ℤ
share id r = if has_order_id id r then r.order_quantity else pos 0

-- The sum of ORDER_QUANTITY over the rows with ORDER_ID = id.
abbrev pub quantity : ℤ → List Order → ℤ
quantity id [] = pos 0
quantity id (r ∷ rows) = share id r +ℤ quantity id rows

quantity-append :
    (id : ℤ) (rows more : List Order)
    → quantity id (rows ++ more) ≡ quantity id rows +ℤ quantity id more
quantity-append id [] more = omega int_laws
quantity-append id (r ∷ rows) more =
    ap (◌+ℤ◌ (share id r)) (quantity-append id rows more)
    ∙ sym (+ℤ_assoc (share id r) (quantity id rows) (quantity id more))

update_where_absent :
    (f : Order → Order) (id low high : ℕ) (rows : List Order)
    → Rising low (ids rows) high
    → id < low
    → update_where (has_unique_id id) f rows ≡ rows
unfolding update_where
update_where_absent f id low high [] h lt = refl
update_where_absent f id low high (x ∷ rows) h lt =
    ground (arith, update_where_absent f id (suc x.unique_id) high rows h.1)

-- Where the keys are distinct, an UPDATE of one row moves the sum by what it does to that row.
quantity-update_where :
    (f : Order → Order) (o : ℤ) (id low high : ℕ) (rows : List Order) (r : Order)
    → Rising low (ids rows) high
    → find_first (has_unique_id id) rows ≡ some r
    → quantity o (update_where (has_unique_id id) f rows) +ℤ share o r
      ≡ quantity o rows +ℤ share o (f r)
unfolding update_where find_first
quantity-update_where f o id low high [] r h e = ground arith
quantity-update_where f o id low high (x ∷ rows) r h e = elim (Bool-cases (has_unique_id id x)) [
  | inl here ↦
      rw (here, update_where_absent f id (suc x.unique_id) high rows h.1 (ground arith))
        (let same : x ≡ r = ground arith in
          rw same (+ℤ_swap (share o (f r)) (quantity o rows) (share o r)))
  | inr there ↦ rw there (
      +ℤ_under (share o x) _ _ _ _
        (quantity-update_where f o id (suc x.unique_id) high rows r h.1 (rw there at e)))
]

quantity_split :
    (q amount : ℤ)
    → (if ltb_ℤ q (pos 0) then pos 0 -ℤ amount else amount)
        +ℤ ((if ltb_ℤ q (pos 0) then pos 0 -ℤ (abs q -ℤ amount) else abs q -ℤ amount) +ℤ pos 0)
      ≡ q
quantity_split (pos n) amount =
    let e : ltb_ℤ (pos n) (pos 0) ≡ false = ground arith in rw e (omega int_laws)
quantity_split (negsuc n) amount =
    let e : ltb_ℤ (negsuc n) (pos 0) ≡ true = ground arith in rw e (omega int_laws)

-- The two parts of a row that is filled in part.
share_split :
    (server : Server) (db : Database) (o : ℤ) (r : Order) (amount : ℤ)
    → share o (fill_part (signed r amount) (pos 0) 0 r)
        +ℤ quantity o (remainder server db r (signed r (abs r.order_quantity -ℤ amount)) ∷ [])
      ≡ share o r
share_split server db o r amount = elim (Bool-cases (has_order_id o r)) [
  | inl mine ↦ rw mine (quantity_split r.order_quantity amount)
  | inr other ↦ rw other (omega int_laws)
]

split_total :
    (s q q' f rest : ℤ) {total : ℤ}
    → total ≡ q' +ℤ rest
    → q' +ℤ s ≡ q +ℤ f
    → f +ℤ rest ≡ s
    → total ≡ q
split_total s q q' f rest {total} e h k = omega (
  int_laws,
  ap pos_part e,
  ap neg_part e,
  ap pos_part h,
  ap neg_part h,
  ap pos_part k,
  ap neg_part k,
)

-- An update keeps the quantity of every order: what remains of a row goes to the new row.
update_row-quantity :
    (server : Server) (o : ℤ) (r : Order) (id : ℕ) (amount price : ℤ) (t : ℕ) (db : Database)
    → HasKeys db
    → find_first (has_unique_id id) db.orders ≡ some r
    → quantity o (update_row server r id amount price t db).orders ≡ quantity o db.orders
unfolding update_row
update_row-quantity server o r id amount price t db h e =
    elim (Bool-cases (eqb_ℤ (abs r.order_quantity -ℤ amount) (pos 0))) [
      | inl filled ↦
          rw (filled, update_row)
            (+ℤ_cancel_right _ _ _
              (quantity-update_where (fill price t) o id 0 db.next_unique_id db.orders r h e))
      | inr more ↦ elim (Bool-cases (ltb_ℤ (pos 0) (abs r.order_quantity -ℤ amount))) [
        | inl part ↦
            rw (more, part, update_row)
              (split_total (share o r) _ _ _ _ (quantity-append o _ _)
                (quantity-update_where (fill_part (signed r amount) price t) o id 0
                  db.next_unique_id db.orders r h e)
                (share_split server db o r amount))
        | inr odd ↦ rw (more, odd, update_row) refl
      ]
    ]

-- Where the ids of the rows rise below the sequence's next one, matching ends without an exception
-- and keeps the quantity of every order, summed over its split rows: of the order that is placed,
-- and of those it meets.
pub match_orders-quantity :
    (server : Server) (symbol : String) (o : ℤ) (db : Database)
    → HasKeys db
    → (after : Database) × (match_orders server symbol db ≡ some after)
      × (quantity o after.orders ≡ quantity o db.orders)
match_orders-quantity server symbol o db h =
    let (after, e, i, _) =
      match_orders_rule server (λ d. HasKeys d × (quantity o d.orders ≡ quantity o db.orders))
        (λ d _ _ _ _ _ _ i. unfold book in i)
        (λ d r id a p t e _ i. (
          update_row-HasKeys server r id a p t d i.0,
          update_row-quantity server o r id a p t d i.0 e ∙ i.1,
        ))
        symbol db (h, refl) in
    (after, e, i.1)
