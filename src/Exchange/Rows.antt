-- ===== src/Exchange/Rows.antt =====
-- Facts on the rows of a table that the proofs about
-- project4_stockexchange/docker-deploy/matching-engine/database.cpp share: which ids are there,
-- and what a sort and a SELECT give.
use duke_ece.Prelude.{
  ◌==◌, ◌≢◌, refl, ap, if◌then◌else◌, ℕ, ◌≡◌, Bool, true, false, List, [], ◌∷◌, ◌++◌, some, arith,
  find_first, Bool-cases, inl, inr, update_where, select, All, All-select, ◌||◌,
}
use duke_ece.Exchange.Tables.{Order, Server}
use duke_ece.Exchange.Orders.{has_unique_id}

-- Whether a row with the id is in the list.
abbrev pub listed : ℕ → List Order → Bool
listed id [] = false
listed id (x ∷ rows) = has_unique_id id x || listed id rows

-- A query for a listed id finds a row with it.
pub find-listed :
    (id : ℕ) (rows : List Order)
    → listed id rows ≡ true
    → (r : Order) × (find_first (has_unique_id id) rows ≡ some r)
unfolding find_first
find-listed id [] h = ground arith
find-listed id (x ∷ rows) h = elim (Bool-cases (has_unique_id id x)) [
  | inl here ↦ (x, rw here)
  | inr there ↦ let (r, e) = find-listed id rows (ground arith) in (r, rw there e)
]

pub listed-append_left :
    (id : ℕ) (rows more : List Order) → listed id rows ≡ true → listed id (rows ++ more) ≡ true
listed-append_left id [] more h = ground arith
listed-append_left id (x ∷ rows) more h = ground (arith, listed-append_left id rows more)

-- An UPDATE that leaves the ids alone keeps every id listed.
pub listed-update_where :
    (f : Order → Order) (id k : ℕ) (rows : List Order)
    → ((r : Order) → (f r).unique_id ≡ r.unique_id)
    → listed k rows ≡ true
    → listed k (update_where (has_unique_id id) f rows) ≡ true
unfolding update_where
listed-update_where f id k [] keeps h = h
listed-update_where f id k (x ∷ rows) keeps h =
    ground (arith, listed-update_where f id k rows keeps, keeps x)

pub All-listed : (rows : List Order) → All (λ r. listed r.unique_id rows ≡ true) rows
All-listed rows = go rows (λ k h. h)
  where
    go :
        (some_rows : List Order)
        → ((k : ℕ) → listed k some_rows ≡ true → listed k rows ≡ true)
        → All (λ r. listed r.unique_id rows ≡ true) some_rows
    go [] keep = tt
    go (x ∷ more) keep = (keep x.unique_id (ground arith), go more (λ k h. keep k (ground arith)))

-- What holds of every row holds of what a SELECT ... ORDER BY gives.
pub All-query :
    (P : Order → Type 0) (server : Server) (p : Order → Bool) (before : Order → Order → Bool)
    (rows : List Order)
    → All P rows
    → All P (server.order_by before (server.scan (select p rows)))
All-query P server p before rows h =
    server.order_by_rows P before _ (server.scan_rows P _ (All-select P p rows h))

pub listed-find :
    (id : ℕ) (rows : List Order) (r : Order)
    → find_first (has_unique_id id) rows ≡ some r
    → listed id rows ≡ true
unfolding find_first
listed-find id [] r e = absurd (ground arith)
listed-find id (x ∷ rows) r e = ground (arith, listed-find id rows r)

pub find-append :
    (id : ℕ) (rows more : List Order) (r : Order)
    → find_first (has_unique_id id) rows ≡ some r
    → find_first (has_unique_id id) (rows ++ more) ≡ some r
unfolding find_first
find-append id [] more r e = absurd (ground arith)
find-append id (x ∷ rows) more r e = ground (arith, find-append id rows more r)

pub find-update_where_self :
    (f : Order → Order) (id : ℕ) (rows : List Order) (r : Order)
    → ((x : Order) → (f x).unique_id ≡ x.unique_id)
    → find_first (has_unique_id id) rows ≡ some r
    → find_first (has_unique_id id) (update_where (has_unique_id id) f rows) ≡ some (f r)
unfolding find_first update_where
find-update_where_self f id [] r keeps e = absurd (ground arith)
find-update_where_self f id (x ∷ rows) r keeps e = elim (Bool-cases (has_unique_id id x)) [
  | inl here ↦
      let same : x ≡ r = ground arith in
      let also : (f x).unique_id == id ≡ true = rw (keeps x) here in
      rw (here, also) (ap (λ y. some (f y)) same)
  | inr there ↦ rw (there, there) (find-update_where_self f id rows r keeps (rw there at e))
]

pub find-update_where_ne :
    (f : Order → Order) (id k : ℕ) (rows : List Order)
    → ((x : Order) → (f x).unique_id ≡ x.unique_id)
    → k ≢ id
    → find_first (has_unique_id k) (update_where (has_unique_id id) f rows)
      ≡ find_first (has_unique_id k) rows
unfolding find_first update_where
find-update_where_ne f id k [] keeps ne = refl
find-update_where_ne f id k (x ∷ rows) keeps ne = elim (Bool-cases (has_unique_id id x)) [
  | inl here ↦
      let other : has_unique_id k x ≡ false = ground arith in
      let also : (f x).unique_id == k ≡ false = rw (keeps x) other in
      rw (here, also, other) (find-update_where_ne f id k rows keeps ne)
  | inr there ↦ rw there (
      ap (λ rest. if has_unique_id k x then some x else rest)
        (find-update_where_ne f id k rows keeps ne))
]
