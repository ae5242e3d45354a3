-- ===== src/Exchange/CreationLaws.antt =====
-- handle_creation of project4_stockexchange/docker-deploy/matching-engine/database.cpp as a whole.
use duke_ece.Prelude.{
  ◌≡◌, refl, String, false, List, [], ◌∷◌, Option, some, none, find_first, Bool-cases, inl, inr,
  All, All-append, All-update_where, Option-cases, arith, ◌||◌, ◌&&◌, not,
}
use duke_ece.Exchange.Columns.{fits, fits_20}
use duke_ece.Prelude.Int.{ℤ, pos, ltb_ℤ}
use duke_ece.Exchange.Tables.{Symbol, Database, find_account, holds}
use duke_ece.Exchange.Creation.{
  CreateElement, account, symbol, unknown_element, insert_account, insert_symbol, upsert_symbol,
  create_account, create_symbol, create_symbols, create_element, handle_creation,
}
use duke_ece.Exchange.Orders.{overdrawn}
use duke_ece.Exchange.Validity.{IsValid, short}

-- The tables are valid, if there was no exception.
abbrev pub ValidIfSome : Option Database → Type 0
ValidIfSome none = Unit {0}
ValidIfSome (some db) = IsValid db

pub insert_account-IsValid :
    (id : String) (balance : ℤ) (db : Database)
    → IsValid db
    → ValidIfSome (insert_account id balance db)
unfolding insert_account
insert_account-IsValid id balance db v = elim (Option-cases (find_account id db.accounts)) [
  | inr (a, taken) ↦ rw (taken, insert_account) tt
  | inl fresh ↦ elim (Bool-cases (ltb_ℤ balance (pos 0) || not (fits_20 id && fits 15 balance))) [
    | inl negative ↦ rw (fresh, negative, insert_account) tt
    | inr fine ↦
        rw (fresh, fine, insert_account)
          (record {
            keys = v.keys;
            all_settled = v.all_settled;
            numbered = v.numbered;
            solvent =
                All-append (λ a. overdrawn a ≡ false) db.accounts _ v.solvent (ground arith, tt);
            owned = v.owned;
          })
  ]
]

upsert_symbol-owned :
    (id sym : String) (count : ℤ) (symbols : List Symbol)
    → ltb_ℤ count (pos 0) ≡ false
    → All (λ s. short s ≡ false) symbols
    → All (λ s. short s ≡ false) (upsert_symbol id sym count symbols)
unfolding upsert_symbol
upsert_symbol-owned id sym count symbols fine h =
    elim (Option-cases (find_first (holds id sym) symbols)) [
      | inl fresh ↦
          rw (fresh, upsert_symbol) (All-append (λ s. short s ≡ false) symbols _ h (fine, tt))
      | inr (s, held) ↦
          rw (held, upsert_symbol)
            (All-update_where (λ s. short s ≡ false) _ _ symbols (λ _ _. fine) h)
    ]

pub insert_symbol-IsValid :
    (id sym : String) (count : ℤ) (db : Database)
    → IsValid db
    → ValidIfSome (insert_symbol id sym count db)
unfolding insert_symbol
insert_symbol-IsValid id sym count db v = elim (Option-cases (find_account id db.accounts)) [
  | inl stranger ↦ rw (stranger, insert_symbol) tt
  | inr (a, known) ↦ elim (Bool-cases (ltb_ℤ count (pos 0) || not (fits_20 sym))) [
    | inl negative ↦ rw (known, negative, insert_symbol) tt
    | inr fine ↦
        rw (known, fine, insert_symbol)
          (record {
            keys = v.keys;
            all_settled = v.all_settled;
            numbered = v.numbered;
            solvent = v.solvent;
            owned = upsert_symbol-owned id sym count db.symbols (ground arith) v.owned;
          })
  ]
]

pub create_account-IsValid :
    (id : String) (balance : ℤ) (db : Database)
    → IsValid db
    → IsValid (create_account id balance db).1
unfolding create_account
create_account-IsValid id balance db v = go (insert_account id balance db) refl
  where
    go :
        (o : Option Database)
        → insert_account id balance db ≡ o
        → IsValid (create_account id balance db).1
    go none e = rw (e, create_account) v
    go (some after) e = rw (e, create_account) (rw e at (insert_account-IsValid id balance db v))

pub create_symbol-IsValid :
    (sym : String) (child : String × ℤ) (db : Database)
    → IsValid db
    → IsValid (create_symbol sym child db).1
unfolding create_symbol
create_symbol-IsValid sym (id, count) db v = go (insert_symbol id sym count db) refl
  where
    go :
        (o : Option Database)
        → insert_symbol id sym count db ≡ o
        → IsValid (create_symbol sym (id, count) db).1
    go none e = rw (e, create_symbol) v
    go (some after) e = rw (e, create_symbol) (rw e at (insert_symbol-IsValid id sym count db v))

create_symbols-IsValid :
    (sym : String) (children : List (String × ℤ)) (db : Database)
    → IsValid db
    → IsValid (create_symbols sym children db).1
unfolding create_symbols
create_symbols-IsValid sym [] db v = v
create_symbols-IsValid sym (child ∷ children) db v =
    create_symbols-IsValid sym children _ (create_symbol-IsValid sym child db v)

create_element-IsValid :
    (element : CreateElement) (db : Database) → IsValid db → IsValid (create_element element db).1
unfolding create_element
create_element-IsValid (account id balance) db v = create_account-IsValid id balance db v
create_element-IsValid (symbol sym children) db v = create_symbols-IsValid sym children db v
create_element-IsValid (unknown_element name) db v = v

-- A creation request keeps valid tables valid: what would break a constraint is refused by itself.
pub handle_creation-IsValid :
    (elements : List CreateElement) (db : Database)
    → IsValid db
    → IsValid (handle_creation elements db).1
unfolding handle_creation
handle_creation-IsValid [] db v = v
handle_creation-IsValid (child ∷ children) db v =
    handle_creation-IsValid children _ (create_element-IsValid child db v)
