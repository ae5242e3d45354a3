-- ===== src/Exchange/Columns.antt =====
-- The column types of createTables in
-- project4_stockexchange/docker-deploy/matching-engine/database.cpp: CHAR(20), VARCHAR(20), and
-- DECIMAL(10, 2) and DECIMAL(15, 2), whose values are amounts in cents.
use Prim.Native.Char.{Char, code}
use Prim.Native.String.{[] as []ₜ, ◌∷◌ as ◌∷ₜ◌}
use duke_ece.Prelude.{ℕ, suc, ◌+◌, ◌^◌, ◌==◌, ltb, leb, String, str_eq, Bool, if◌then◌else◌}
use duke_ece.Prelude.Int.{ℤ, pos_part, neg_part}

abbrev pub unless_space : Char → String → String
unless_space c []ₜ = if code c == 32 then []ₜ else c ∷ₜ []ₜ
unless_space c (d ∷ₜ s) = c ∷ₜ d ∷ₜ s

-- A text of a CHAR column without the spaces at its end, which count for nothing.
abbrev pub unpadded : String → String
unpadded []ₜ = []ₜ
unpadded (c ∷ₜ s) = unless_space c (unpadded s)

-- Whether two texts of CHAR columns are equal.
abbrev pub same_char : String → String → Bool
same_char s t = str_eq (unpadded s) (unpadded t)

abbrev pub characters : String → ℕ
characters []ₜ = 0
characters (c ∷ₜ s) = suc (characters s)

-- Whether CHAR(20) or VARCHAR(20) takes a text: more spaces at its end are cut off.
abbrev pub fits_20 : String → Bool
fits_20 s = leb (characters (unpadded s)) 20

-- Whether DECIMAL(digits, 2) takes an amount.
abbrev pub fits : ℕ → ℤ → Bool
fits digits v = ltb (pos_part v + neg_part v) (10 ^ digits)
