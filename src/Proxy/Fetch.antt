-- ===== src/Proxy/Fetch.antt =====
-- getLength, containsChunkedTransferEncoding, logResponseNotes, handleGetRequest and
-- forwardRequestToServer of proxy.cpp, project2_HTTPproxy/docker-deploy/src.
use duke_ece.Prelude.{
  ℕ, Bool, true, false, List, [], ◌∷◌, Option, some, none, length, not, if◌then◌else◌,
}
use duke_ece.Prelude.Int.{ℤ, pos, negsuc, ◌-ℤ◌, eqb_ℤ}
use duke_ece.Proxy.Text.{Text, bytes, occurs, find, find_from, is_empty, take_bytes}
use duke_ece.Proxy.Request.{line_end}
use duke_ece.Proxy.Process.{
  Header, Response, chunked, requesting, received, received_line, responding, note_expires,
  note_etag, note_last_modified, note_no_cache, note_max_age, bad_length, client, server, done,
  blocked, crashed, Action, ◌>>=◌, return, note, send,
}
use duke_ece.Proxy.Freshness.{World, no_age, print_cache_log}
use duke_ece.Proxy.Relay.{
  Recv, got, closed, failed, Received, content, threw, waiting, receive_with_content_length,
}
use duke_ece.Proxy.Response.{
  Stoi, number, invalid_argument, out_of_range, stoi, or_npos, between, find_break, parse_header,
  parse_status_line,
}

-- The int that `static_cast` makes of the position; npos is -1.
abbrev heading_end : Option ℕ → ℤ
heading_end none = negsuc 0
heading_end (some i) = pos i

-- The bytes of the body that have come with the head.
abbrev pub partial_length : Text → ℤ
partial_length message = pos (length message) -ℤ heading_end (find (crlf_crlf) message) -ℤ pos 4
  where
    crlf_crlf : Text
    crlf_crlf = 13 ∷ 10 ∷ 13 ∷ 10 ∷ []

-- A number that is too big for an int is an exception that nobody catches.
abbrev pub judged_length : ℤ → Stoi → Action ℤ
judged_length partial (number n) s = done (n -ℤ partial) s
judged_length partial invalid_argument s = (note bad_length >>= λ _. return no_age) s
judged_length partial out_of_range s = crashed

abbrev pub length_of : Text → Option Text → Action ℤ
length_of message none s = crashed
length_of message (some digits) s = judged_length (partial_length message) (stoi digits) s

abbrev pub length_at : Text → Option ℕ → Action ℤ
length_at message none s = done no_age s
length_at message (some place) s =
    length_of message (between message place 16 (find_from line_end message place)) s

-- What is still to come of the message; -1 where that is not known.
unfoldable pub get_length : Text → Action ℤ
get_length message s = length_at message (find (bytes "Content-Length: ") message) s

unfoldable pub contains_chunked_transfer_encoding : Text → Bool
contains_chunked_transfer_encoding message = occurs (bytes "chunked") message

abbrev pub note_if : Bool → Action Unit → Action Unit
note_if true action s = action s
note_if false action s = done tt s

unfoldable pub log_response_notes : Header → ℕ → Action Unit
log_response_notes h id = do
  _ ← note_if (not (eqb_ℤ h.max_age no_age)) (note (note_max_age id h.max_age))
  _ ← note_if (not (is_empty h.expiration_str)) (note (note_expires id h.expiration_str))
  _ ← note_if h.no_cache (note (note_no_cache id))
  _ ← note_if (not (is_empty h.etag)) (note (note_etag id h.etag))
  note_if (not (is_empty h.last_modified)) (note (note_last_modified id h.last_modified))

-- The loop that passes on what comes after a chunked head, until the server closes.
unfoldable pub pass_chunks : List Recv → Action Unit
pass_chunks [] s = blocked
pass_chunks (got d ds ∷ calls) s = (send client (d ∷ ds) >>= λ _. pass_chunks calls) s
pass_chunks (closed ∷ calls) s = done tt s
pass_chunks (failed ∷ calls) s = done tt s

-- What receiveWithContentLength gives, or throws.
abbrev pub receive : Received → Action Text
receive (content text) s = done text s
receive threw s = crashed
receive waiting s = blocked

-- The response that is sent to the client and stored: where a length is known, the rest of the message
-- *without* what came first.
abbrev pub answer : Text → ℤ → List Recv → Action Text
answer message (pos n) calls s = receive (receive_with_content_length n calls []) s
answer message (negsuc n) calls s = done message s

unfoldable pub answer_whole : World → Text → Response → Text → ℕ → List Recv → Action Unit
answer_whole world message r line id calls = do
  _ ← log_response_notes r.header id
  rest ← get_length message
  body ← answer message rest calls
  _ ← send client body
  print_cache_log world (record r { response = body }) (occurs (bytes "no-store") message) line id

unfoldable pub answer_chunked : Text → ℕ → List Recv → Action Unit
answer_chunked message id calls = do
  _ ← note (chunked id)
  _ ← send client message
  pass_chunks calls

-- The first line of the message, up to a CR or an LF.
abbrev first_part : Text → Text
first_part message = take_bytes (or_npos (find_break message)) message

-- The body of handleGetRequest, for a message that came in. `fresh` is the header of a new Response;
-- what parseHeader reads it reads twice.
unfoldable pub answer_message : World → Header → Text → Text → ℕ → List Recv → Action Unit
answer_message world fresh message line id calls = do
  _ ← note (received id)
  _ ← note (received_line id (parse_status_line message))
  _ ←
      if contains_chunked_transfer_encoding message
      then answer_chunked message id calls
      else answer_whole world message
          (record {
            response = message;
            header = parse_header message (parse_header message fresh);
            status_line = parse_status_line message;
          })
          line id calls
  note (responding id (first_part message))

-- handleGetRequest. A length of -1 is no length of a std::string.
unfoldable pub handle_get_request : World → Header → Text → ℕ → List Recv → Action Unit
handle_get_request world fresh line id [] s = blocked
handle_get_request world fresh line id (closed ∷ calls) s = done tt s
handle_get_request world fresh line id (failed ∷ calls) s = crashed
handle_get_request world fresh line id (got d ds ∷ calls) s =
    answer_message world fresh (d ∷ ds) line id calls s

unfoldable pub forward_request_to_server :
    World → Header → Text → Text → ℕ → List Recv → Action Unit
forward_request_to_server world fresh request line id calls = do
  _ ← note (requesting id)
  _ ← send server request
  handle_get_request world fresh line id calls
