-- ===== src/Exchange/Lines.antt =====
-- Which part of a request handle_client_request and Server::handleClient read:
-- project4_stockexchange/docker-deploy/matching-engine.
use duke_ece.Prelude.{
  ℕ, zero, suc, ◌==◌, ◌≡◌, ◌∙◌, ◌≤◌, refl, ap, true, false, List, [], ◌∷◌, ◌++◌, length,
  length-append, arith, Bool-cases, inl, inr, All, some,
}
use duke_ece.Exchange.Tables.{Server}
use duke_ece.Exchange.Requests.{Exchange}
use duke_ece.Exchange.Xml.{
  Bytes, Xml, newline, on_first_line, lines_of, joined, drop_two, request_xml,
}
use duke_ece.Exchange.Client.{
  at_most, c_string, received, dispatch, handle_client_request, handle_client, replied, invalid_xml,
}

-- A line holds no newline.
abbrev pub OneLine : Bytes → Type 0
OneLine l = All (λ c. (c == newline) ≡ false) l

lines_of-line : (l s : Bytes) → OneLine l → lines_of (l ++ newline ∷ s) ≡ l ∷ lines_of s
unfolding lines_of
lines_of-line [] s h = refl
lines_of-line (c ∷ l) s (other, h) =
    rw (other, lines_of) (ap (on_first_line c) (lines_of-line l s h))

pub lines_of-joined : (ls : List Bytes) → All OneLine ls → lines_of (joined ls) ≡ ls
unfolding joined
lines_of-joined [] h = unfold lines_of in refl
lines_of-joined (l ∷ ls) (h, hs) =
    lines_of-line l (joined ls) h ∙ ap (◌∷◌ l) (lines_of-joined ls hs)

-- Of a request in lines, the first two are cut off and the rest is what the parser sees, unchanged.
pub request_xml-joined :
    (size declaration : Bytes) (body : List Bytes)
    → OneLine size
    → OneLine declaration
    → All OneLine body
    → request_xml (joined (size ∷ declaration ∷ body)) ≡ joined body
unfolding request_xml
request_xml-joined size declaration body h k hs =
    ap (λ ls. joined (drop_two ls)) (lines_of-joined (size ∷ declaration ∷ body) (h, (k, hs)))

length-on_first_line :
    (c n : ℕ) (ls : List Bytes)
    → length (joined ls) ≤ suc n
    → length (joined (on_first_line c ls)) ≤ suc (suc n)
unfolding joined
length-on_first_line c n [] h = omega arith
length-on_first_line c n (l ∷ ls) h = omega arith

length-joined : (s : Bytes) → length (joined (lines_of s)) ≤ suc (length s)
unfolding lines_of joined
length-joined [] = omega arith
length-joined (c ∷ s) = elim (Bool-cases (c == newline)) [
  | inl break ↦ rw break (omega (arith, length-joined s))
  | inr other ↦ rw other (length-on_first_line c (length s) (lines_of s) (length-joined s))
]

length-drop_two : (ls : List Bytes) → length (joined (drop_two ls)) ≤ length (joined ls)
unfolding joined
length-drop_two [] = omega arith
length-drop_two (l ∷ []) = omega arith
length-drop_two (l ∷ m ∷ ls) = omega (
  arith,
  length-append l (newline ∷ m ++ newline ∷ joined ls),
  length-append m (newline ∷ joined ls),
)

length-at_most : (n : ℕ) (s : Bytes) → length (at_most n s) ≤ n
unfolding at_most
length-at_most n [] = omega arith
length-at_most zero (c ∷ s) = omega arith
length-at_most (suc n) (c ∷ s) = omega (arith, length-at_most n s)

length-c_string : (s : Bytes) → length (c_string s) ≤ length s
unfolding c_string
length-c_string [] = omega arith
length-c_string (c ∷ s) = ground (arith, length-c_string s)

c_string-nonzero : (s : Bytes) → All (λ c. (c == 0) ≡ false) (c_string s)
unfolding c_string
c_string-nonzero [] = tt
c_string-nonzero (c ∷ s) = elim (Bool-cases (c == 0)) [
  | inl end ↦ rw end tt
  | inr other ↦ rw other (other, c_string-nonzero s)
]

at_most-append : (n : ℕ) (s more : Bytes) → length s ≡ n → at_most n (s ++ more) ≡ at_most n s
unfolding at_most
at_most-append zero [] [] e = refl
at_most-append zero [] (c ∷ more) e = refl
at_most-append zero (c ∷ s) more e = absurd (omega arith)
at_most-append (suc n) [] more e = absurd (omega arith)
at_most-append (suc n) (c ∷ s) more e = ap (◌∷◌ c) (at_most-append n s more (omega arith))

-- What handleClient has received is at most 1023 bytes, none of them zero, and the parser is given at
-- most 1024.
pub received_bounds :
    (arrived : Bytes)
    → (length (received arrived) ≤ 1023)
      × All (λ c. (c == 0) ≡ false) (received arrived)
      × (length (request_xml (received arrived)) ≤ 1024)
unfolding received request_xml
received_bounds arrived =
    let short : length (received arrived) ≤ 1023 =
      omega (arith, length-c_string (at_most 1023 arrived), length-at_most 1023 arrived) in
    (
      short,
      c_string-nonzero (at_most 1023 arrived),
      omega (
        arith,
        short,
        length-drop_two (lines_of (received arrived)),
        length-joined (received arrived),
      ),
    )

-- What follows the first 1023 bytes of a request changes neither the answer nor the tables.
pub handle_client-append :
    (xml : Xml) (server : Server) (arrived more : Bytes) (x : Exchange)
    → length arrived ≡ 1023
    → handle_client xml server (some (arrived ++ more)) x
      ≡ handle_client xml server (some arrived) x
unfolding handle_client received
handle_client-append xml server arrived more x e =
    ap (λ s. some (handle_client_request xml server (c_string s) x))
      (at_most-append 1023 arrived more e)

lines_of-last : (m : Bytes) → OneLine m → length (lines_of m) ≤ 1
unfolding lines_of
lines_of-last [] h = omega arith
lines_of-last (c ∷ m) (other, h) = rw other (go (lines_of m) (lines_of-last m h))
  where
    go : (ls : List Bytes) → length ls ≤ 1 → length (on_first_line c ls) ≤ 1
    go [] h = omega arith
    go (l ∷ ls) h = omega arith

drop_two-short : (l : Bytes) (ls : List Bytes) → length ls ≤ 1 → drop_two (l ∷ ls) ≡ []
drop_two-short l [] h = refl
drop_two-short l (m ∷ []) h = refl
drop_two-short l (m ∷ n ∷ ls) h = absurd (omega arith)

-- A request of two lines, the second not ended, comes to nothing even where that line is a whole
-- document: with a parser that refuses the empty text it is answered as invalid XML.
pub handle_client_request_two_lines :
    (xml : Xml) (server : Server) (size document : Bytes) (x : Exchange)
    → OneLine size
    → OneLine document
    → xml.error [] ≡ true
    → handle_client_request xml server (size ++ newline ∷ document) x ≡ replied invalid_xml x
unfolding handle_client_request dispatch request_xml joined
handle_client_request_two_lines xml server size document x h k empty =
    let nothing : drop_two (lines_of (size ++ newline ∷ document)) ≡ [] =
      ap drop_two (lines_of-line size document h)
      ∙ drop_two-short size (lines_of document) (lines_of-last document k) in
    ap (λ ls. dispatch xml server (joined ls) x) nothing ∙ rw empty refl
