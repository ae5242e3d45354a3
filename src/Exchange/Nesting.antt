-- ===== src/Exchange/Nesting.antt =====
-- A reader of XML, for the answers that database.cpp of project4_stockexchange/docker-deploy/matching-engine
-- writes.
use duke_ece.Prelude.{
  ℕ, zero, suc, ◌==◌, ◌≡◌, refl, false, [], ◌∷◌, ◌++◌, Option, some, none, All, if◌then◌else◌,
  ◌>>=◌,
}
use duke_ece.Exchange.Xml.{Bytes}
use duke_ece.Exchange.Answers.{quote}

-- Where a reader of XML stands, with the number of elements that are open: in the content; behind `<`;
-- in a declaration; in a start tag; in the value of an attribute; behind the `/` of an empty element;
-- in an end tag.
pub data Place : Type 0 where
  in_content behind_angle in_declaration in_tag in_value behind_slash in_end : ℕ → Place

-- The next place; `none` is a text that is not XML, or that has a reference, which this reader does not
-- know. Names are not compared.
abbrev pub content_step : ℕ → ℕ → Option Place
content_step c n =
    if c == b'<' then some (behind_angle n) else if c == b'&' then none else some (in_content n)

abbrev pub angle_step : ℕ → ℕ → Option Place
angle_step c n =
    if c == b'/'
    then some (in_end n)
    else if c == b'?'
    then some (in_declaration n)
    else if c == b'>'
    then none
    else some (in_tag n)

abbrev pub tag_step : ℕ → ℕ → Option Place
tag_step c n =
    if c == 34
    then some (in_value n)
    else if c == b'/'
    then some (behind_slash n)
    else if c == b'>'
    then some (in_content (suc n))
    else if c == b'<'
    then none
    else some (in_tag n)

abbrev pub value_step : ℕ → ℕ → Option Place
value_step c n =
    if c == 34
    then some (in_tag n)
    else if c == b'<'
    then none
    else if c == b'&'
    then none
    else some (in_value n)

abbrev pub end_step : ℕ → ℕ → Option Place
end_step c zero = none
end_step c (suc n) = if c == b'>' then some (in_content n) else some (in_end (suc n))

abbrev pub step : ℕ → Place → Option Place
step c (in_content n) = content_step c n
step c (behind_angle n) = angle_step c n
step c (in_declaration n) = if c == b'>' then some (in_content n) else some (in_declaration n)
step c (in_tag n) = tag_step c n
step c (in_value n) = value_step c n
step c (behind_slash n) = if c == b'>' then some (in_content n) else none
step c (in_end n) = end_step c n

unfoldable pub read : Bytes → Place → Option Place
read [] p = some p
read (c ∷ s) p = do next ← step c p; read s next

-- A text that closes what it opens.
abbrev pub Nests : Bytes → Type 0
Nests s = read s (in_content 0) ≡ some (in_content 0)

-- What content may hold; and what the value of an attribute may.
abbrev pub Plain : Bytes → Type 0
Plain s = All (λ c. ((c == b'<') ≡ false) × ((c == b'&') ≡ false)) s

abbrev pub Quotable : Bytes → Type 0
Quotable s = All (λ c. ((c == 34) ≡ false) × ((c == b'<') ≡ false) × ((c == b'&') ≡ false)) s

pub read-append : (a b : Bytes) (p q : Place) → read a p ≡ some q → read (a ++ b) p ≡ read b q
unfolding read
read-append [] b p q e = cc
read-append (c ∷ a) b p q e = go (step c p) (λ next. read-append a b next q) e
  where
    go :
        (o : Option Place)
        → ((next : Place) → read a next ≡ some q → read (a ++ b) next ≡ read b q)
        → (o >>= read a) ≡ some q
        → (o >>= read (a ++ b)) ≡ read b q
    go none later f = cc
    go (some next) later f = later next f

pub read-Plain : (s : Bytes) (n : ℕ) → Plain s → read s (in_content n) ≡ some (in_content n)
unfolding read
read-Plain [] n h = refl
read-Plain (c ∷ s) n ((angle, ampersand), h) = rw (angle, ampersand) (read-Plain s n h)

pub read-Quotable : (s : Bytes) (n : ℕ) → Quotable s → read s (in_value n) ≡ some (in_value n)
unfolding read
read-Quotable [] n h = refl
read-Quotable (c ∷ s) n ((quoted, angle, ampersand), h) =
    rw (quoted, angle, ampersand) (read-Quotable s n h)

-- Behind the value of an attribute, and behind a text in the content.
pub read-value :
    (s rest : Bytes) (n : ℕ)
    → Quotable s
    → read ((s ++ quote) ++ rest) (in_value n) ≡ read rest (in_tag n)
unfolding read
read-value s rest n h =
    read-append (s ++ quote) rest (in_value n) (in_tag n)
      (read-append s quote (in_value n) (in_value n) (read-Quotable s n h))

pub read-text :
    (s rest : Bytes) (n : ℕ) → Plain s → read (s ++ rest) (in_content n) ≡ read rest (in_content n)
read-text s rest n h = read-append s rest (in_content n) (in_content n) (read-Plain s n h)

-- What cannot be read stays so.
pub read-none : (a b : Bytes) (p : Place) → read a p ≡ none → read (a ++ b) p ≡ none
unfolding read
read-none [] b p e = cc
read-none (c ∷ a) b p e = go (step c p) (λ next. read-none a b next) e
  where
    go :
        (o : Option Place)
        → ((next : Place) → read a next ≡ none → read (a ++ b) next ≡ none)
        → (o >>= read a) ≡ none
        → (o >>= read (a ++ b)) ≡ none
    go none later f = refl
    go (some next) later f = later next f

-- No value holds `<`.
pub read_angle : (a b : Bytes) (n : ℕ) → Quotable a → read (a ++ b'<' ∷ b) (in_value n) ≡ none
unfolding read
read_angle a b n h = read-append a (b'<' ∷ b) (in_value n) (in_value n) (read-Quotable a n h)
