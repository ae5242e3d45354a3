-- ===== src/Exchange/Reports.antt =====
-- What the replies of project4_stockexchange/docker-deploy/matching-engine/database.cpp say of an
-- order: the id under which it is opened, and its status once it is cancelled.
use duke_ece.Prelude.{
  ◌≡◌, refl, ap, List, [], ◌∷◌, some, Bool-cases, inl, inr, select, update_where, All,
}
use duke_ece.Prelude.Int.{ℤ}
use duke_ece.Exchange.Tables.{Order, closed, Database, Server, created_before, status_text}
use duke_ece.Exchange.Orders.{has_order_id, close_orders}
use duke_ece.Exchange.Requests.{query_all, all_lines, status_lines, lines_for}

abbrev IsClosed : Order → Type 0
IsClosed r = r.order_status ≡ closed

select-close :
    (id : ℤ) (rows : List Order)
    → All IsClosed (
        select
          (has_order_id id)
          (update_where (has_order_id id) (λ r. record r { order_status = closed }) rows))
unfolding select update_where
select-close id [] = tt
select-close id (x ∷ rows) = elim (Bool-cases (has_order_id id x)) [
  | inl mine ↦ rw (mine, mine) (refl, select-close id rows)
  | inr other ↦ rw (other, other) (select-close id rows)
]

all_lines_closed :
    (rows : List Order) (db : Database) → All IsClosed rows → all_lines rows db ≡ some []
unfolding all_lines status_lines lines_for
all_lines_closed [] db h = refl
all_lines_closed (r ∷ rows) db h =
    let line : status_lines r db ≡ some [] = ap (λ s. lines_for (status_text s) r db) h.0 in
    rw (line, all_lines_closed rows db h.1)

-- Once an order is cancelled, a query for it reports nothing: neither a line of cancelled shares nor
-- those that were executed before.
pub query_all-close_orders :
    (server : Server) (id : ℤ) (db : Database) → query_all server id (close_orders id db) ≡ some []
unfolding query_all close_orders
query_all-close_orders server id db = all_lines_closed _ _ (
    server.order_by_rows IsClosed created_before _
      (server.scan_rows IsClosed _ (select-close id db.orders)))
