-- ===== src/Proxy/Finding.antt =====
-- What std::string's find and substr give on a text made of known pieces, for the parsers of
-- project2_HTTPproxy/docker-deploy/src.
use duke_ece.Prelude.{
  ℕ, ◌+◌, ◌≡◌, refl, ap, ◌==◌, ==_self, leb, true, false, [], ◌∷◌, ◌++◌, some, none, length,
  length-append, arith, All,
}
use duke_ece.Proxy.Text.{
  Text, starts_with, find, find_from, substr, size_minus, take_bytes, drop_bytes, shifted,
}

pub starts_with-append : (p s : Text) → starts_with p (p ++ s) ≡ true
unfolding starts_with
starts_with-append [] s = refl
starts_with-append (c ∷ p) s = rw (==_self c) (starts_with-append p s)

-- A pattern is found behind bytes that its first one is not among.
pub find-append :
    (c : ℕ) (p xs s : Text)
    → All (λ d. (c == d) ≡ false) xs
    → find (c ∷ p) (xs ++ ((c ∷ p) ++ s)) ≡ some (length xs)
unfolding find starts_with
find-append c p [] s h = rw (starts_with-append (c ∷ p) s) refl
find-append c p (x ∷ xs) s (ne, h) = rw (ne, find-append c p xs s h) (ap some (omega arith))

pub find-none : (c : ℕ) (p xs : Text) → All (λ d. (c == d) ≡ false) xs → find (c ∷ p) xs ≡ none
unfolding find starts_with
find-none c p [] h = refl
find-none c p (x ∷ xs) (ne, h) = rw (ne, find-none c p xs h) refl

pub drop-append : (xs s : Text) → drop_bytes (length xs) (xs ++ s) ≡ s
unfolding drop_bytes
drop-append [] [] = refl
drop-append [] (d ∷ s) = refl
drop-append (x ∷ xs) s = drop-append xs s

pub take-append : (xs s : Text) → take_bytes (length xs) (xs ++ s) ≡ xs
unfolding take_bytes
take-append [] [] = refl
take-append [] (d ∷ s) = refl
take-append (x ∷ xs) s = ap (◌∷◌ x) (take-append xs s)

pub substr-append :
    (a xs b : Text) (position count : ℕ)
    → position ≡ length a
    → count ≡ length xs
    → substr (a ++ (xs ++ b)) position count ≡ some xs
unfolding substr
substr-append a xs b position count e f =
    let fits : leb (length a) (length (a ++ (xs ++ b))) ≡ true =
      ground (arith, length-append a (xs ++ b)) in
    rw (e, f, fits, drop-append a (xs ++ b), take-append xs b) refl

pub find_from-append :
    (a p s : Text) (position : ℕ)
    → position ≡ length a
    → find_from p (a ++ s) position ≡ shifted position (find p s)
unfolding find_from
find_from-append a p s position e = rw (e, drop-append a s) refl

pub size_minus-add : (a b : ℕ) → size_minus (a + b) a ≡ b
unfolding size_minus
size_minus-add a b = let fits : leb a (a + b) ≡ true = ground arith in rw fits (omega arith)
