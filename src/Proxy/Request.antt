-- ===== src/Proxy/Request.antt =====
-- request.hpp and request.cpp of project2_HTTPproxy/docker-deploy/src.
use duke_ece.Prelude.{ℕ, ◌+◌, ◌==◌, Bool, [], ◌∷◌, Option, some, none, ◌||◌, if◌then◌else◌, ◌>>=◌}
use duke_ece.Proxy.Text.{
  same_text, Text, bytes, find, find_from, substr, size_minus, take_bytes, drop_bytes, shifted,
}

pub record Request : Type 0 where
  pub input : Text
  pub port : Text
  pub host : Text
  pub method : Text
  pub first_line : Text

abbrev pub space : Text
space = 32 ∷ []

abbrev pub colon : Text
colon = 58 ∷ []

abbrev pub line_end : Text
line_end = 13 ∷ 10 ∷ []

abbrev pub host_name : Text
host_name = 72 ∷ 111 ∷ 115 ∷ 116 ∷ 58 ∷ 32 ∷ []

-- `input.find_first_not_of(" ")`.
unfoldable pub find_first_not_space : Text → Option ℕ
find_first_not_space [] = none
find_first_not_space (d ∷ s) =
    let later = find_first_not_space s in if d == 32 then shifted 1 later else some 0

-- The exceptions of parseLine and parseMethod are `none`.
unfoldable pub parse_line : Text → Option Text
parse_line input = do found ← find line_end input; substr input 0 found

unfoldable pub parse_method : Text → Option Text
parse_method input = do
  start ← find_first_not_space input
  stop ← find_from space input start
  substr input start (size_minus stop start)

-- The host and the port of the header's value.
unfoldable pub split_port : Text → Text × Text
split_port line = elim (find colon line) [
  | none ↦ (line, bytes "80")
  | some start ↦ (take_bytes start line, drop_bytes (start + 1) line)
]

unfoldable pub parse_host_and_port : Text → Option (Text × Text)
parse_host_and_port input = do
  found ← find host_name input
  stop ← find_from line_end input found
  line ← substr input (found + 6) (size_minus stop (found + 6))
  some (split_port line)

-- The handlers of parseHostAndPort leave both fields empty.
abbrev pub or_empty : Option (Text × Text) → Text × Text
or_empty none = ([], [])
or_empty (some found) = found

-- The constructor, whose handler leaves the fields that come after an exception empty.
abbrev pub with_line : Request → Option Text → Request
with_line r none = r
with_line r (some line) = record r { first_line = line }

abbrev pub with_method : Request → Option Text → Request
with_method r none = r
with_method r (some method) = with_line (record r { method = method }) (parse_line r.input)

unfoldable pub parse_request : Text → Request
parse_request input =
    let (host, port) = or_empty (parse_host_and_port input) in
    with_method (record { input = input; port = port; host = host; method = []; first_line = [] })
      (parse_method input)

unfoldable pub has_valid_method : Request → Bool
has_valid_method r =
    same_text r.method (bytes "POST")
    || same_text r.method (bytes "GET")
    || same_text r.method (bytes "CONNECT")
