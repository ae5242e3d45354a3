-- ===== src/Exchange/Priority.antt =====
-- The order in which match_orders meets the orders of a symbol:
-- project4_stockexchange/docker-deploy/matching-engine/database.cpp.
use duke_ece.Prelude.{◌≤◌, ◌≡◌, true, String, List, [], ◌∷◌, All, str_eq}
use duke_ece.Prelude.Int.{ℤ, pos, ◌≤ℤ◌, ◌<ℤ◌}
use duke_ece.Exchange.Tables.{Order, is_open}

-- The first of two orders has the better price, or the same price and is not younger.
pub data Ahead (better : Order → Order → Type 0) (x y : Order) : Type 0 where
  by_price : better x y → Ahead better x y
  by_time : x.limit_price ≡ y.limit_price → x.created_at ≤ y.created_at → Ahead better x y

abbrev pub Cheaper : Order → Order → Type 0
Cheaper x y = x.limit_price <ℤ y.limit_price

abbrev pub Dearer : Order → Order → Type 0
Dearer x y = y.limit_price <ℤ x.limit_price

-- Each order is ahead of every later one.
abbrev pub InPriority : (Order → Order → Type 0) → List Order → Type 0
InPriority better [] = Unit {0}
InPriority better (x ∷ rows) = All (λ y. Ahead better x y) rows × InPriority better rows

-- An order to sell, or to buy, that the matching of a symbol may use.
abbrev pub Offers : String → ℤ → Order → Type 0
Offers symbol price r =
    (str_eq r.symbol symbol ≡ true)
    × (is_open r ≡ true)
    × (r.limit_price ≤ℤ price)
    × (r.order_quantity <ℤ pos 0)

abbrev pub Wants : String → Order → Type 0
Wants symbol r = (str_eq r.symbol symbol ≡ true) × (is_open r ≡ true) × (pos 0 <ℤ r.order_quantity)
