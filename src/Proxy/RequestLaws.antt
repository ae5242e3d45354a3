-- ===== src/Proxy/RequestLaws.antt =====
-- What the constructor of Request, request.hpp of project2_HTTPproxy/docker-deploy/src, makes of a
-- well-formed request.
use duke_ece.Prelude.{
  ℕ, suc, ◌+◌, ◌≡◌, ◌∙◌, refl, sym, ap, subst, ◌==◌, false, [], ◌∷◌, ◌++◌, Option, some, none,
  length, length-append, arith, All, ◌>>=◌,
}
use duke_ece.Proxy.Text.{
  Text, bytes, find, find_from, substr, size_minus, take_bytes, drop_bytes, shifted,
}
use duke_ece.Proxy.Finding.{
  find-append, find-none, take-append, substr-append, find_from-append, size_minus-add,
}
use duke_ece.Proxy.Request.{
  space, colon, line_end, host_name, find_first_not_space, parse_line, parse_method, split_port,
  parse_host_and_port, parse_request,
}

-- No byte of the text is `c`.
abbrev pub Free : ℕ → Text → Type 0
Free c s = All (λ d. (c == d) ≡ false) s

-- The value of a Host line, its host and its port: `host`, with the port 80, or `host:port`.
pub data Authority (value host port : Text) : Type 0 where
  no_port : Free 58 value → value ≡ host → port ≡ bytes "80" → Authority value host port
  with_port : Free 58 host → value ≡ host ++ (colon ++ port) → Authority value host port

drop_next : (xs s : Text) → drop_bytes (suc (length xs)) (xs ++ (colon ++ s)) ≡ s
unfolding drop_bytes
drop_next [] [] = refl
drop_next [] (d ∷ s) = refl
drop_next (x ∷ xs) s = drop_next xs s

drop_one : (xs s : Text) → drop_bytes (length xs + 1) (xs ++ (colon ++ s)) ≡ s
drop_one xs s =
    let next : length xs + 1 ≡ suc (length xs) = omega arith in
    subst (λ n. drop_bytes n (xs ++ (colon ++ s)) ≡ s) (sym next) (drop_next xs s)

split_at :
    (value : Text) (o : Option ℕ)
    → find colon value ≡ o
    → split_port value ≡ (elim o as (λ _. Text × Text) [
      | none ↦ (value, bytes "80")
      | some start ↦ (take_bytes start value, drop_bytes (start + 1) value)
    ])
unfolding split_port
split_at value o e =
    ap
      (λ (found : Option ℕ). elim found as (λ _. Text × Text) [
        | none ↦ (value, bytes "80")
        | some start ↦ (take_bytes start value, drop_bytes (start + 1) value)
      ])
      e

split_port-Authority :
    (value host port : Text) → Authority value host port → split_port value ≡ (host, port)
split_port-Authority value host port (no_port free e p) =
    split_at value none (find-none 58 [] value free)
    ∙ ap (λ v. (v, bytes "80")) e
    ∙ ap (λ n. (host, n)) (sym p)
split_port-Authority value host port (with_port free e) =
    let split = split_at (host ++ (colon ++ port)) _ (find-append 58 [] host port free) in
    ap split_port e
    ∙ split
    ∙ ap (λ h. (h, drop_bytes (length host + 1) (host ++ (colon ++ port))))
        (take-append host (colon ++ port))
    ∙ ap (λ n. (host, n)) (drop_one host port)

append_assoc : (xs ys zs : Text) → (xs ++ ys) ++ zs ≡ xs ++ (ys ++ zs)
append_assoc [] ys zs = refl
append_assoc (x ∷ xs) ys zs = ap (◌∷◌ x) (append_assoc xs ys zs)

parse_line-append : (xs s : Text) → Free 13 xs → parse_line (xs ++ (line_end ++ s)) ≡ some xs
unfolding parse_line
parse_line-append xs s free =
    rw (find-append 13 (10 ∷ []) xs s free)
      (substr-append [] xs (line_end ++ s) 0 (length xs) refl refl)

method_start : (c : ℕ) (m : Text) → (32 == c) ≡ false → find_first_not_space (c ∷ m) ≡ some 0
unfolding find_first_not_space
method_start c m ne = let other : (c == 32) ≡ false = ground arith in rw other refl

parse_method-append :
    (c : ℕ) (m s : Text) → Free 32 (c ∷ m) → parse_method ((c ∷ m) ++ (space ++ s)) ≡ some (c ∷ m)
unfolding parse_method find_from drop_bytes
parse_method-append c m s free =
    rw (method_start c (m ++ (space ++ s)) free.0, find-append 32 [] (c ∷ m) s free)
      (substr-append [] (c ∷ m) (space ++ s) 0 _ refl (size_minus-add 0 (suc (length m))))

host_line :
    (pre h s : Text)
    → substr
        (pre ++ (host_name ++ (h ++ s)))
        (length pre + 6)
        (size_minus (length pre + (6 + length h)) (length pre + 6))
      ≡ some h
host_line pre h s =
    let size : size_minus (length pre + (6 + length h)) (length pre + 6) ≡ length h =
      ap (λ n. size_minus n (length pre + 6)) (omega arith)
      ∙ size_minus-add (length pre + 6) (length h) in
    let place : length pre + 6 ≡ length (pre ++ host_name) = sym (length-append pre host_name) in
    ap
      (λ text.
        substr text (length pre + 6) (size_minus (length pre + (6 + length h)) (length pre + 6)))
      (sym (append_assoc pre host_name (h ++ s)))
    ∙ substr-append (pre ++ host_name) h s _ _ place size

-- The value of the first Host line.
host_value :
    (pre h tail : Text)
    → Free 13 h
    → find host_name (pre ++ (host_name ++ (h ++ (line_end ++ tail)))) ≡ some (length pre)
    → parse_host_and_port (pre ++ (host_name ++ (h ++ (line_end ++ tail)))) ≡ some (split_port h)
unfolding parse_host_and_port
host_value pre h tail free first =
    let after = host_name ++ (h ++ (line_end ++ tail)) in
    let stop : find_from line_end (pre ++ after) (length pre) ≡ some (length pre + (6 + length h)) =
      find_from-append pre line_end after (length pre) refl
      ∙ ap (shifted (length pre)) (
          find-append 13 (10 ∷ []) (host_name ++ h) tail
            (refl, (refl, (refl, (refl, (refl, (refl, free)))))))
      ∙ ap (λ n. some (length pre + n)) (omega arith) in
    rw (first, stop)
      (ap (λ (line : Option Text). line >>= λ l. some (split_port l))
        (host_line pre h (line_end ++ tail)))

-- A request that begins with a method, a space and the rest of a line, and whose first "Host: " is
-- followed by a host, or by a host, a colon and a port, up to the end of its line, gets these as its
-- fields: the method, the first line, the host, and the port, which is 80 where none is given.
pub parse_request-Authority :
    (input : Text) (c : ℕ) (m target rest pre value host port tail : Text)
    → input ≡ ((c ∷ m) ++ (space ++ target)) ++ (line_end ++ rest)
    → input ≡ pre ++ (host_name ++ (value ++ (line_end ++ tail)))
    → find host_name input ≡ some (length pre)
    → Free 32 (c ∷ m)
    → Free 13 ((c ∷ m) ++ (space ++ target))
    → Free 13 value
    → Authority value host port
    → parse_request input ≡ record {
      input = input;
      port = port;
      host = host;
      method = c ∷ m;
      first_line = (c ∷ m) ++ (space ++ target);
    }
unfolding parse_request
parse_request-Authority input c m target rest pre value host port tail e f first word line_free
      value_free a =
    let found : parse_host_and_port input ≡ some (host, port) =
      ap parse_host_and_port f
      ∙ host_value pre value tail value_free (ap (find host_name) (sym f) ∙ first)
      ∙ ap some (split_port-Authority value host port a) in
    let method : parse_method input ≡ some (c ∷ m) =
      ap parse_method (e ∙ append_assoc (c ∷ m) (space ++ target) (line_end ++ rest))
      ∙ parse_method-append c m (target ++ (line_end ++ rest)) word in
    let line : parse_line input ≡ some ((c ∷ m) ++ (space ++ target)) =
      ap parse_line e ∙ parse_line-append ((c ∷ m) ++ (space ++ target)) rest line_free in
    rw (found, method, line) refl
