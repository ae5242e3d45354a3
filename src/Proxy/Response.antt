-- ===== src/Proxy/Response.antt =====
-- response.cpp, and the TimeParser of time.hpp: project2_HTTPproxy/docker-deploy/src.
use duke_ece.Prelude.{
  ℕ, ◌+◌, ◌*◌, ◌-◌, ◌^◌, ◌==◌, leb, ltb, String, Bool, true, false, List, [], ◌∷◌, Option, some,
  none, ◌||◌, ◌&&◌, length, if◌then◌else◌, ◌>>=◌,
}
use duke_ece.Prelude.Int.{ℤ, pos, ◌-ℤ◌}
use duke_ece.Proxy.Text.{
  same_text, Text, bytes, occurs, find, find_from, substr, size_minus, take_bytes, drop_bytes,
  shifted,
}
use duke_ece.Proxy.Request.{line_end}
use duke_ece.Proxy.Process.{Tm, Header}

-- std::stoi: the int, or one of its exceptions.
pub data Stoi : Type 0 where
  number : ℤ → Stoi
  invalid_argument out_of_range : Stoi

abbrev is_digit : ℕ → Bool
is_digit d = leb 48 d && leb d 57

abbrev is_space : ℕ → Bool
is_space d = (d == 32) || (leb 9 d && leb d 13)

-- The number that the text begins with, where it begins with one.
unfoldable pub digits : ℕ → Bool → Text → Option ℕ
digits n seen [] = if seen then some n else none
digits n seen (d ∷ s) =
    let more = digits (n * 10 + (d - 48)) true s in
    if is_digit d then more else if seen then some n else none

-- The largest int is 2 ^ 31 - 1, the smallest its negative less one.
abbrev signed : Bool → Option ℕ → Stoi
signed negative none = invalid_argument
signed false (some n) = if ltb n (2 ^ 31) then number (pos n) else out_of_range
signed true (some n) = if leb n (2 ^ 31) then number (pos 0 -ℤ pos n) else out_of_range

abbrev unsigned_stoi : Text → Stoi
unsigned_stoi s = signed false (digits 0 false s)

unfoldable pub stoi : Text → Stoi
stoi [] = invalid_argument
stoi (d ∷ s) =
    let rest = stoi s in
    if is_space d
    then rest
    else if d == 45
    then signed true (digits 0 false s)
    else if d == 43
    then unsigned_stoi s
    else unsigned_stoi (d ∷ s)

-- The position of npos.
abbrev pub or_npos : Option ℕ → ℕ
or_npos none = 2 ^ 64 - 1
or_npos (some i) = i

-- `find_first_of("\r\n", position)`.
unfoldable pub find_break : Text → Option ℕ
find_break [] = none
find_break (d ∷ s) =
    let later = find_break s in if (d == 13) || (d == 10) then some 0 else shifted 1 later

-- parseGenericHeaderField, for a position that is found.
unfoldable pub field_at : Text → ℕ → Option Text
field_at hdr start =
    let stop = or_npos (shifted start (find_break (drop_bytes start hdr))) in
    substr hdr start (size_minus stop start)

-- A field that is not there keeps its value. The position is never past the end.
abbrev pub or_old : Text → Option Text → Text
or_old old none = old
or_old old (some value) = value

unfoldable pub parse_generic_header_field : Text → String → Text → Text
parse_generic_header_field hdr name old =
    or_old old (do place ← find (bytes name) hdr; field_at hdr (place + length (bytes name)))

-- TimeMap, whose `[]` gives 0 for a text that is not in it.
abbrev named : List (String × ℕ) → Text → ℕ
named [] s = 0
named ((name, n) ∷ names) s = if same_text s (bytes name) then n else named names s

unfoldable pub mapped_value : Text → ℕ
mapped_value = named (
    ("Jan", 1)
    ∷ ("Feb", 2)
    ∷ ("Mar", 3)
    ∷ ("Apr", 4)
    ∷ ("May", 5)
    ∷ ("Jun", 6)
    ∷ ("Jul", 7)
    ∷ ("Aug", 8)
    ∷ ("Sep", 9)
    ∷ ("Oct", 10)
    ∷ ("Nov", 11)
    ∷ ("Dec", 12)
    ∷ ("Sun", 0)
    ∷ ("Mon", 1)
    ∷ ("Tue", 2)
    ∷ ("Wed", 3)
    ∷ ("Thu", 4)
    ∷ ("Fri", 5)
    ∷ ("Sat", 6)
    ∷ [])

abbrev int_of : Stoi → Option ℤ
int_of (number n) = some n
int_of invalid_argument = none
int_of out_of_range = none

-- `stoi(expression.substr(position))`; `none`: an exception, which parseAndInitTime catches.
unfoldable pub int_at : Text → ℕ → Option ℤ
int_at s position = do rest ← substr s position (2 ^ 64 - 1); int_of (stoi rest)

unfoldable pub name_at : Text → ℕ → Option ℕ
name_at s position = do name ← substr s position 3; some (mapped_value name)

-- One assignment: what comes before an exception stays, what comes after it is left out.
abbrev then_set {ℓ} : {A : Type ℓ} → Option A → (A → Tm → Tm) → (Tm → Tm) → Tm → Tm
then_set none f next t = t
then_set (some a) f next t = next (f a t)

unfoldable pub parse_and_init_time : Text → Tm → Tm
parse_and_init_time s =
    then_set (int_at s 5) (λ n t. record t { tm_mday = n })
      (then_set (name_at s 8) (λ n t. record t { tm_mon = pos n -ℤ pos 1 })
        (then_set (int_at s 12) (λ n t. record t { tm_year = n -ℤ pos 1900 })
          (then_set (int_at s 17) (λ n t. record t { tm_hour = n })
            (then_set (int_at s 20) (λ n t. record t { tm_min = n })
              (then_set (int_at s 23) (λ n t. record t { tm_sec = n })
                (then_set (name_at s 0) (λ n t. record t { tm_wday = pos n; tm_isdst = pos 0 })
                  (λ t. t)))))))

-- The text between the end of a name that is found at `place` and the stop mark.
abbrev pub between : Text → ℕ → ℕ → Option ℕ → Option Text
between hdr place skip stop =
    substr hdr (place + skip) (size_minus (size_minus (or_npos stop) place) skip)

abbrev pub apply_to {ℓ} : {A : Type ℓ} → Option A → (A → Header → Header) → Header → Header
apply_to none f h = h
apply_to (some a) f h = f a h

unfoldable pub parse_generic_fields : Text → Header → Header
parse_generic_fields hdr h = record h {
  content_type = parse_generic_header_field hdr "Content-Type: " h.content_type;
  content_length = parse_generic_header_field hdr "Content-Length: " h.content_length;
  last_modified = parse_generic_header_field hdr "Last-Modified: " h.last_modified;
  server_name = parse_generic_header_field hdr "Server: " h.server_name;
  location = parse_generic_header_field hdr "Location: " h.location;
}

unfoldable pub parse_date : Text → Header → Header
parse_date hdr =
    apply_to
      (do
        place ← find (bytes "Date: ") hdr
        between hdr place 6 (find_from (bytes " GMT") hdr place))
      (λ s h. record h { response_time = parse_and_init_time s h.response_time })

unfoldable pub parse_expires : Text → Header → Header
parse_expires hdr =
    apply_to
      (do
        place ← find_from (bytes "Expires: ") hdr 9
        between hdr place 9 (find_from (bytes "GMT") hdr place))
      (λ s h. record h {
        expiration_str = s;
        expiration_time = parse_and_init_time s h.expiration_time;
      })

unfoldable pub parse_no_cache : Text → Header → Header
parse_no_cache hdr h = if occurs (bytes "no-cache") hdr then record h { no_cache = true } else h

unfoldable pub parse_etag : Text → Header → Header
parse_etag hdr =
    apply_to
      (do
        place ← find (bytes "ETag: ") hdr
        between hdr place 6 (find_from line_end hdr (place + 6)))
      (λ s h. record h { etag = s })

abbrev pub parse_tail : Text → Header → Header
parse_tail hdr h = parse_etag hdr (parse_no_cache hdr (parse_expires hdr h))

-- A max-age that is no int ends parseHeader.
abbrev pub with_max_age : Text → Option Stoi → Header → Header
with_max_age hdr none h = parse_tail hdr h
with_max_age hdr (some (number n)) h = parse_tail hdr (record h { max_age = n })
with_max_age hdr (some invalid_argument) h = h
with_max_age hdr (some out_of_range) h = h

-- `stoi` of what follows "max-age=".
unfoldable pub read_max_age : Text → Option Stoi
read_max_age hdr = do
  place ← find (bytes "max-age=") hdr
  rest ← substr hdr (place + 8) (2 ^ 64 - 1)
  some (stoi rest)

-- parseHeader. The status code that it extracts is not stored.
unfoldable pub parse_header : Text → Header → Header
parse_header hdr h =
    with_max_age hdr (read_max_age hdr) (parse_date hdr (parse_generic_fields hdr h))

unfoldable pub parse_status_line : Text → Text
parse_status_line line = take_bytes (or_npos (find line_end line)) line
