-- ===== src/Exchange/Xml.antt =====
-- What the matching engine, project4_stockexchange/docker-deploy/matching-engine, takes from tinyxml2
-- and the C++ library to read a request, and the lines of a request as std::getline gives them.
use duke_ece.Prelude.{ℕ, ◌==◌, String, Bool, List, [], ◌∷◌, ◌++◌, Option, if◌then◌else◌, str_eq}
use duke_ece.Prelude.Int.{ℤ}

abbrev pub Bytes : Type 0
Bytes = List ℕ

-- `error` is doc.Error() after doc.Parse, and `top` the elements of the document, none where the parse
-- failed. `none` is a null pointer in `attribute` and `text`; in `stod` it is an exception, and in
-- `order_number` a text that PostgreSQL does not take for an integer. Numbers are read in the units
-- of the tables.
pub record Xml : Type 1 where
  pub Element : Type 0
  pub error : Bytes → Bool
  pub top : Bytes → List Element
  pub name : Element → String
  pub children : Element → List Element
  pub attribute : Element → String → Option String
  pub double_attribute : Element → String → ℤ
  pub text : Element → Option String
  pub stod : String → Option ℤ
  pub order_number : String → Option ℤ

abbrev pub named : (xml : Xml) → String → xml.Element → Bool
named xml n e = str_eq (xml.name e) n

abbrev pub newline : ℕ
newline = b'\n'

abbrev pub on_first_line : ℕ → List Bytes → List Bytes
on_first_line c [] = (c ∷ []) ∷ []
on_first_line c (l ∷ ls) = (c ∷ l) ∷ ls

-- The lines that calls of std::getline give until one fails: a last line needs no newline, and nothing
-- behind the last newline is no line.
unfoldable pub lines_of : Bytes → List Bytes
lines_of [] = []
lines_of (c ∷ s) =
    let later = lines_of s in if c == newline then [] ∷ later else on_first_line c later

-- `xml += line + "\n"` for each line.
unfoldable pub joined : List Bytes → Bytes
joined [] = []
joined (l ∷ ls) = l ++ newline ∷ joined ls

abbrev pub drop_two {ℓ} : {A : Type ℓ} → List A → List A
drop_two [] = []
drop_two (x ∷ []) = []
drop_two (x ∷ y ∷ rest) = rest

-- The start of handle_client_request: two lines are read and left out.
unfoldable pub request_xml : Bytes → Bytes
request_xml input = joined (drop_two (lines_of input))
