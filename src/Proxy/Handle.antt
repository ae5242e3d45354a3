-- ===== src/Proxy/Handle.antt =====
-- handleRequest of proxy.cpp, project2_HTTPproxy/docker-deploy/src.
use duke_ece.Prelude.{ℕ, Bool, true, false, List, [], ◌∷◌, some, none, ◌||◌, ◌&&◌, if◌then◌else◌}
use duke_ece.Proxy.Text.{Text, bytes, same_text, is_empty}
use duke_ece.Proxy.Request.{Request, parse_request, has_valid_method, line_end}
use duke_ece.Proxy.Lru.{get}
use duke_ece.Proxy.Process.{
  Header, Response, requesting, not_in_cache, connection_closed, bad_request, invalid_method, asked,
  server, done, crashed, Action, ◌>>=◌, lock, unlock, note, send,
}
use duke_ece.Proxy.Freshness.{World, should_use_cache, send_cached_response, handle_cached_response}
use duke_ece.Proxy.Relay.{Recv, got, closed, failed, Ready, handle_connect_request}
use duke_ece.Proxy.Fetch.{handle_get_request, forward_request_to_server}
use duke_ece.Proxy.Post.{handle_post_request}

-- isEmptyInput of socketutils.hpp.
unfoldable pub is_empty_input : Text → Bool
is_empty_input s =
    is_empty s || same_text s (13 ∷ []) || same_text s (10 ∷ []) || same_text s line_end

-- Header::isEmpty and Response::isEmpty.
unfoldable pub header_is_empty : Header → Bool
header_is_empty h =
    is_empty h.content_type
    && is_empty h.content_length
    && is_empty h.server_name
    && is_empty h.etag
    && is_empty h.last_modified
    && is_empty h.expiration_str

unfoldable pub response_is_empty : Response → Bool
response_is_empty r = is_empty r.response && is_empty r.status_line && header_is_empty r.header

-- `Response()`.
abbrev pub no_response : Header → Response
no_response fresh = record { response = []; header = fresh; status_line = [] }

abbrev pub read_cache : Response → Text → Action Response
read_cache default line s = elim (get default line s.cache) [
  | none ↦ crashed
  | some (r, after) ↦ done r (record s { cache = after })
]

-- `cache.get(line)` between lock and unlock.
unfoldable pub look_up : Header → Text → Action Response
look_up fresh line = do _ ← lock; r ← read_cache (no_response fresh) line; _ ← unlock; λ s. done r s

-- Not found in the cache.
unfoldable pub fetch : World → Header → Request → ℕ → List Recv → Action Unit
fetch world fresh q id calls = do
  _ ← note (not_in_cache id)
  _ ← note (requesting id)
  _ ← send server q.input
  handle_get_request world fresh q.first_line id calls

-- The cached response, or a new one.
abbrev pub choose : World → Header → Request → Response → ℕ → List Recv → Bool → Action Unit
choose world fresh q r id calls true s = send_cached_response r id s
choose world fresh q r id calls false s =
    forward_request_to_server world fresh q.input q.first_line id calls s

abbrev pub may_use : World → Request → Response → ℕ → Action Bool
may_use world q r id s =
    if r.header.no_cache
    then should_use_cache world r q.input id s
    else handle_cached_response world q.input q.first_line r id s

-- Found in the cache. `display` writes to the standard output, under the mutex.
unfoldable pub use_cached : World → Header → Request → Response → ℕ → List Recv → Action Unit
use_cached world fresh q r id calls = do
  answer ← may_use world q r id
  _ ← choose world fresh q r id calls answer
  _ ← lock
  unlock

abbrev pub by_cache : World → Header → Request → ℕ → List Recv → Response → Action Unit
by_cache world fresh q id calls r s =
    if response_is_empty r
    then fetch world fresh q id calls s
    else use_cached world fresh q r id calls s

unfoldable pub handle_get : World → Header → Request → ℕ → List Recv → Action Unit
handle_get world fresh q id calls = look_up fresh q.first_line >>= by_cache world fresh q id calls

-- What the connections bring, by the kind of the request: for a GET and a POST what the server sends,
-- for a POST also the rest of the client's request, for a CONNECT the rounds of the tunnel.
pub record Traffic : Type 0 where
  pub from_server : List Recv
  pub reply : Recv
  pub from_client : List Recv
  pub rounds : List (Ready × Ready)

unfoldable pub dispatch : World → Header → Request → ℕ → Traffic → Action Unit
dispatch world fresh q id traffic s =
    if same_text q.method (bytes "CONNECT")
    then (note (requesting id) >>= λ _.
          handle_connect_request id traffic.rounds >>= λ _. note (connection_closed id))
        s
    else if same_text q.method (bytes "POST")
    then (note (requesting id) >>= λ _.
          handle_post_request q.input id traffic.from_client traffic.reply)
        s
    else handle_get world fresh q id traffic.from_server s

-- The request, once it is read; `connected` tells whether buildClient reached the server.
unfoldable pub handle_text : World → Header → Bool → Text → ℕ → Traffic → Action Unit
handle_text world fresh connected input id traffic s =
    let q = parse_request input in
    if is_empty_input input
    then done tt s
    else if has_valid_method q
    then (note (asked id q.first_line) >>= λ _.
          if connected then dispatch world fresh q id traffic else done tt)
        s
    else note (invalid_method id q.method) s

-- handleRequest, from the first recv on. An error of recv gives a length of -1, of which no
-- std::string can be made.
unfoldable pub handle_request : World → Header → Bool → Recv → ℕ → Traffic → Action Unit
handle_request world fresh connected (got d ds) id traffic s =
    handle_text world fresh connected (d ∷ ds) id traffic s
handle_request world fresh connected closed id traffic s = note (bad_request id) s
handle_request world fresh connected failed id traffic s =
    (note (bad_request id) >>= λ _ _. crashed) s
