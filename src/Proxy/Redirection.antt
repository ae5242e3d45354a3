-- ===== src/Proxy/Redirection.antt =====
-- Where the first line of a redirected request leads: proxy.cpp of
-- project2_HTTPproxy/docker-deploy/src.
use mathlib.Core.List.{append_assoc}
use duke_ece.Prelude.{
  ℕ, zero, suc, ◌==◌, ◌-◌, ◌+◌, ltb, ◌≡◌, ◌∙◌, refl, sym, ap, true, false, List, [], ◌∷◌, ◌++◌,
  some, none, length, length-append, arith, All,
}
use duke_ece.Proxy.Text.{Text, bytes, find, substr}
use duke_ece.Proxy.Request.{space}
use duke_ece.Proxy.Finding.{find-append, substr-append}
use duke_ece.Proxy.Process.{Response}
use duke_ece.Proxy.Links.{same_text_iff}
use duke_ece.Proxy.Redirect.{
  rfind, relocated, update_request_for_redirection, redirect, check_redirection,
}

-- No space.
abbrev pub Spaceless : Text → Type 0
Spaceless s = All (λ d. (d == 32) ≡ false) s

abbrev Spaceless' : Text → Type 0
Spaceless' s = All (λ d. (32 == d) ≡ false) s

turned : (s : Text) → Spaceless s → Spaceless' s
turned [] h = tt
turned (d ∷ s) (e, h) = (ground arith, turned s h)

rfind-none : (s : Text) → Spaceless s → rfind 32 s ≡ none
unfolding rfind
rfind-none [] h = refl
rfind-none (d ∷ s) (e, h) = rw (rfind-none s h, e) refl

rfind-append : (a s : Text) → Spaceless s → rfind 32 (a ++ 32 ∷ s) ≡ some (length a)
unfolding rfind
rfind-append [] s h = rw (rfind-none s h) refl
rfind-append (d ∷ a) s h = rw (rfind-append a s h) refl

-- A first line.
abbrev pub first_line : Text → Text → Text → Text
first_line method path version = method ++ 32 ∷ (path ++ 32 ∷ version)

update-relocated :
    (location line : Text) (start end : ℕ)
    → find space line ≡ some start
    → rfind 32 line ≡ some end
    → update_request_for_redirection location line ≡ relocated location line start end
unfolding update_request_for_redirection
update-relocated location line start end e f =
    rw (e, update_request_for_redirection, f, update_request_for_redirection) refl

relocated-path :
    (location line path : Text) (start end : ℕ)
    → ltb start end ≡ true
    → substr line (start + 1) (end - start - 1) ≡ some path
    → relocated location line start end
      ≡ some (bytes "GET " ++ (location ++ (path ++ bytes " HTTP/1.1")))
relocated-path location line path start end e f = rw (e, f) refl

update-first_line :
    (location method path version : Text)
    → Spaceless method
    → Spaceless version
    → update_request_for_redirection location (first_line method path version)
      ≡ some (first_line (bytes "GET") (location ++ path) (bytes "HTTP/1.1"))
update-first_line location method path version h k =
    let line = first_line method path version in
    let last = length (method ++ 32 ∷ path) in
    let start : find space line ≡ some (length method) =
      find-append 32 [] method (path ++ 32 ∷ version) (turned method h) in
    let end : rfind 32 line ≡ some last =
      ap (rfind 32) (sym (append_assoc method (32 ∷ path) (32 ∷ version)))
      ∙ rfind-append (method ++ 32 ∷ path) version k in
    let apart : ltb (length method) last ≡ true =
      ground (arith, length-append method (32 ∷ path)) in
    let cut : substr line (length method + 1) (last - length method - 1) ≡ some path =
      ap (λ s. substr s (length method + 1) (last - length method - 1))
        (sym (append_assoc method (32 ∷ []) (path ++ 32 ∷ version)))
      ∙ substr-append (method ++ 32 ∷ []) path (32 ∷ version) (length method + 1)
          (last - length method - 1) (omega (arith, length-append method (32 ∷ [])))
          (omega (arith, length-append method (32 ∷ path))) in
    update-relocated location line (length method) last start end
    ∙ relocated-path location line path (length method) last apart cut
    ∙ (ap (λ t. some (bytes "GET " ++ t)) (sym (append_assoc location path (bytes " HTTP/1.1"))))

-- The first lines of some rounds, each with the location once more in front of the path.
unfoldable pub grown : ℕ → Text → Text → List Text
grown zero location path = []
grown (suc n) location path =
    first_line (bytes "GET") (location ++ path) (bytes "HTTP/1.1")
    ∷ grown n location (location ++ path)

redirect-copies :
    (rounds : ℕ) (location path : Text)
    → redirect rounds location (first_line (bytes "GET") path (bytes "HTTP/1.1"))
      ≡ some (grown rounds location path)
unfolding redirect grown
redirect-copies zero location path = refl
redirect-copies (suc rounds) location path =
    rw
      (
        update-first_line location (bytes "GET") path (bytes "HTTP/1.1") (refl, (refl, (refl, tt)))
            (refl, (refl, (refl, (refl, (refl, (refl, (refl, (refl, tt)))))))),
        redirect-copies rounds location (location ++ path),
      )
      refl

redirect-first_line :
    (rounds : ℕ) (location method path version : Text)
    → Spaceless method
    → Spaceless version
    → redirect (suc rounds) location (first_line method path version)
      ≡ some (grown (suc rounds) location path)
unfolding redirect grown
redirect-first_line rounds location method path version h k =
    rw
      (
        update-first_line location method path version h k,
        redirect-copies rounds location (location ++ path),
      )
      refl

redirects :
    (rounds : ℕ) (r : Response) (line : Text)
    → r.header.status_code ≡ bytes "302"
    → check_redirection rounds r line ≡ redirect rounds r.header.location line
unfolding check_redirection
redirects rounds r line e = rw ((same_text_iff r.header.status_code (bytes "302")).1 e) refl

-- A response 302 is followed for ever, and each round puts the same location in front of the path once
-- more: after any number of rounds these are the first lines that were asked for.
pub check_redirection-grown :
    (rounds : ℕ) (r : Response) (method path version : Text)
    → r.header.status_code ≡ bytes "302"
    → Spaceless method
    → Spaceless version
    → check_redirection (suc rounds) r (first_line method path version)
      ≡ some (grown (suc rounds) r.header.location path)
check_redirection-grown rounds r method path version e h k =
    redirects (suc rounds) r (first_line method path version) e
    ∙ redirect-first_line rounds r.header.location method path version h k
