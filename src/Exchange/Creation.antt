-- ===== src/Exchange/Creation.antt =====
-- insertAccount, insertSymbol and handle_creation of
-- project4_stockexchange/docker-deploy/matching-engine/database.cpp.
use duke_ece.Prelude.{
  String, List, [], ◌∷◌, ◌++◌, Option, none, some, find_first, update_where, if◌then◌else◌, ◌||◌,
  ◌&&◌, not,
}
use duke_ece.Exchange.Columns.{fits, fits_20}
use duke_ece.Prelude.Int.{ℤ, pos, ltb_ℤ}
use duke_ece.Exchange.Tables.{Symbol, Database, find_account, holds}

-- `none` is the exception of a violated constraint: the primary key, BALANCE >= 0, or a value that
-- its column, CHAR(20) or DECIMAL(15, 2), has no room for.
unfoldable pub insert_account : String → ℤ → Database → Option Database
insert_account account_id balance db = elim (find_account account_id db.accounts) [
  | some _ ↦ none
  | none ↦
      if ltb_ℤ balance (pos 0) || not (fits_20 account_id && fits 15 balance)
      then none
      else some (record db {
        accounts = db.accounts ++ record { account_id = account_id; balance = balance } ∷ [];
      })
]

-- ON CONFLICT (SYMBOL_ID, ACCOUNT_ID) DO UPDATE SET SHARE_COUNT = EXCLUDED.SHARE_COUNT.
unfoldable pub upsert_symbol : String → String → ℤ → List Symbol → List Symbol
upsert_symbol account symbol count symbols = elim (find_first (holds account symbol) symbols) [
  | some _ ↦ update_where (holds account symbol) (λ s. record s { share_count = count }) symbols
  | none ↦ symbols ++ record { symbol_id = symbol; account_id = account; share_count = count } ∷ []
]

-- `none` is the exception of a violated constraint: SHARE_COUNT >= 0, the account's foreign
-- key, or a symbol that VARCHAR(20) has no room for. A symbol is taken to end in no space.
unfoldable pub insert_symbol : String → String → ℤ → Database → Option Database
insert_symbol account_id symbol_id share_count db = elim (find_account account_id db.accounts) [
  | none ↦ none
  | some _ ↦
      if ltb_ℤ share_count (pos 0) || not (fits_20 symbol_id)
      then none
      else some (record db { symbols = upsert_symbol account_id symbol_id share_count db.symbols })
]

-- The children of a <create> element.
pub data CreateElement : Type 0 where
  account : String → ℤ → CreateElement
  symbol : String → List (String × ℤ) → CreateElement
  unknown_element : String → CreateElement

pub data CreateReply : Type 0 where
  created_account failed_account : String → CreateReply
  created_symbol failed_symbol : String → String → CreateReply
  unknown_reply : String → CreateReply

-- The try and catch around each insertion: a failure is a reply, and the tables stay as they were.
unfoldable pub create_account : String → ℤ → Database → CreateReply × Database
create_account id balance db = elim (insert_account id balance db) [
  | some after ↦ (created_account id, after)
  | none ↦ (failed_account id, db)
]

unfoldable pub create_symbol : String → String × ℤ → Database → CreateReply × Database
create_symbol sym (id, shares) db = elim (insert_symbol id sym shares db) [
  | some after ↦ (created_symbol sym id, after)
  | none ↦ (failed_symbol sym id, db)
]

-- The loop over the <account> children of a <symbol>.
unfoldable pub create_symbols : String → List (String × ℤ) → Database → List CreateReply × Database
create_symbols sym [] db = ([], db)
create_symbols sym (child ∷ children) db =
    let (reply, db₁) = create_symbol sym child db in
    let (replies, db₂) = create_symbols sym children db₁ in (reply ∷ replies, db₂)

unfoldable pub create_element : CreateElement → Database → List CreateReply × Database
create_element (account id balance) db =
    let (reply, after) = create_account id balance db in (reply ∷ [], after)
create_element (symbol sym children) db = create_symbols sym children db
create_element (unknown_element name) db = (unknown_reply name ∷ [], db)

-- handle_creation, on the parsed <create> element.
unfoldable pub handle_creation : List CreateElement → Database → List CreateReply × Database
handle_creation [] db = ([], db)
handle_creation (child ∷ children) db =
    let (replies, db₁) = create_element child db in
    let (more, db₂) = handle_creation children db₁ in (replies ++ more, db₂)
