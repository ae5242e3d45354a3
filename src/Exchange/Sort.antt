-- ===== src/Exchange/Sort.antt =====
-- A sort, as a server of project4_stockexchange/docker-deploy/matching-engine could do ORDER BY.
use duke_ece.Prelude.{
  ◌≡◌, Bool, true, List, [], ◌∷◌, arith, Bool-cases, inl, inr, All, All-imp, if◌then◌else◌,
}
use duke_ece.Exchange.Tables.{Order, Sorted, IsOrder}

-- An insertion sort. Rows that tie keep the order in which they were found.
unfoldable pub insert_by : (Order → Order → Bool) → Order → List Order → List Order
insert_by before x [] = x ∷ []
insert_by before x (y ∷ ys) = if before x y then x ∷ y ∷ ys else y ∷ insert_by before x ys

unfoldable pub order_by : (Order → Order → Bool) → List Order → List Order
unfolding insert_by
order_by before [] = []
order_by before (x ∷ xs) = insert_by before x (order_by before xs)

-- A sort keeps what holds of every row.
pub All-insert_by :
    (P : Order → Type 0) (before : Order → Order → Bool) (x : Order) (rows : List Order)
    → P x
    → All P rows
    → All P (insert_by before x rows)
unfolding insert_by
All-insert_by P before x [] p h = (p, tt)
All-insert_by P before x (y ∷ rows) p h = ground (arith, All-insert_by P before x rows p h.1)

pub All-order_by :
    (P : Order → Type 0) (before : Order → Order → Bool) (rows : List Order)
    → All P rows
    → All P (order_by before rows)
unfolding order_by
All-order_by P before [] h = tt
All-order_by P before (x ∷ rows) h =
    All-insert_by P before x (order_by before rows) h.0 (All-order_by P before rows h.1)

insert_by-Sorted :
    (before : Order → Order → Bool) (o : IsOrder before) (x : Order) (rows : List Order)
    → Sorted before rows
    → Sorted before (insert_by before x rows)
unfolding insert_by
insert_by-Sorted before o x [] s = (tt, tt)
insert_by-Sorted before o x (y ∷ rows) s = elim (Bool-cases (before x y)) [
  | inl first ↦ rw first ((first, All-imp _ _ rows (λ z h. o.trans x y z first h) s.0), s)
  | inr later ↦ rw later (
    All-insert_by (λ z. before y z ≡ true) before x rows (o.total x y later) s.0,
    insert_by-Sorted before o x rows s.1,
  )
]

pub order_by-Sorted :
    (before : Order → Order → Bool) (o : IsOrder before) (rows : List Order)
    → Sorted before (order_by before rows)
unfolding order_by
order_by-Sorted before o [] = tt
order_by-Sorted before o (x ∷ rows) =
    insert_by-Sorted before o x (order_by before rows) (order_by-Sorted before o rows)
