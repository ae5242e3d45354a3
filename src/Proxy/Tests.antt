-- ===== src/Proxy/Tests.antt =====
-- The theorems at work on a cache of two responses, which is full, and on a few messages:
-- project2_HTTPproxy/docker-deploy/src.
use duke_ece.Prelude.{
  ℕ, ◌≡◌, ◌≤◌, refl, true, false, List, [], ◌∷◌, ◌++◌, some, none, arith, length, Bool-cases, inl,
  inr,
}
use duke_ece.Prelude.Int.{◌-ℤ◌, ℤ, pos}
use duke_ece.Proxy.Text.{
  same_text, find_from, drop_bytes, take_bytes, substr, size_minus, Text, bytes, occurs, find,
  starts_with,
}
use duke_ece.Proxy.Recency.{
  view, keep_first, recent_get, recent_put, recent_call, Call, get_call, put_call, remove_call, run,
  replay,
}
use duke_ece.Proxy.Runs.{run-replay}
use duke_ece.Proxy.Lru.{init_lru, erase_key, Lru, find_key}
use duke_ece.Proxy.Nodes.{address_of}
use duke_ece.Proxy.Sync.{InSync}
use duke_ece.Proxy.Process.{Tm, Header, Response, Process, done, blocked}
use duke_ece.Proxy.Freshness.{World, no_age}
use duke_ece.Proxy.Relay.{got, closed, content, receive_with_content_length, Ready}
use duke_ece.Proxy.Request.{Request, space, colon, line_end, host_name, parse_request}
use duke_ece.Proxy.RequestLaws.{with_port, parse_request-Authority}
use duke_ece.Proxy.Response.{stoi, digits}
use duke_ece.Proxy.Fetch.{get_length, contains_chunked_transfer_encoding, handle_get_request}
use duke_ece.Proxy.FetchLaws.{Sends, handle_get_request-Sends, handle_get_request_drops_head}
use duke_ece.Proxy.Handle.{response_is_empty, handle_get}
use duke_ece.Proxy.HandleLaws.{handle_get_blocks}
use duke_ece.Proxy.Post.{handle_post_request}
use duke_ece.Proxy.PostLaws.{Unsent, handle_post_request-Unsent}
use duke_ece.Proxy.Tunnel.{gets, receive_with_content_length-gets}
use duke_ece.Net.{opened, minus_one}
use duke_ece.Proxy.Run
use duke_ece.Proxy.Run.{Client}
use duke_ece.Proxy.Accepting.{NeverDone, run-NeverDone}

abbrev time : ℤ → Tm
time sec = record {
  tm_mday = pos 1;
  tm_mon = pos 0;
  tm_year = pos 70;
  tm_hour = pos 0;
  tm_min = pos 0;
  tm_sec = sec;
  tm_wday = pos 4;
  tm_isdst = pos 0;
}

abbrev plain : Header
plain = record {
  content_type = [];
  content_length = [];
  server_name = [];
  etag = [];
  last_modified = [];
  expiration_str = [];
  location = [];
  status_code = [];
  expiration_time = time (pos 0);
  response_time = time (pos 100);
  no_cache = false;
  max_age = no_age;
}

abbrev page : Text → Response
page text = record { response = text; header = plain; status_line = bytes "HTTP/1.1 200 OK" }

abbrev aged : Response
aged = record (page (1 ∷ [])) { header = record plain { max_age = pos 60 } }

abbrev full : Lru Response
full = record {
  capacity = 2;
  key_map = ((bytes "b"), 1) ∷ ((bytes "a"), 0) ∷ [];
  order = (1, (bytes "b")) ∷ (0, (bytes "a")) ∷ [];
  cache_map = ((bytes "b"), page (2 ∷ [])) ∷ ((bytes "a"), aged) ∷ [];
  next_node = 2;
}

full-InSync : InSync full
unfolding find_key address_of same_text
full-InSync = record {
  linked = λ i. refl;
  stored = λ i. elim (Bool-cases (same_text (bytes "b") i)) [
    | inl b ↦ rw b (λ e. ground arith, λ e. ground arith)
    | inr other ↦ elim (Bool-cases (same_text (bytes "a") i)) [
      | inl a ↦ rw (other, a) (λ e. ground arith, λ e. ground arith)
      | inr neither ↦ rw (other, neither) (λ _. refl, λ _. refl)
    ]
  ];
  distinct = ((refl, tt), refl, (tt, refl, tt));
  fresh = (omega arith, (omega arith, tt));
  map_keys = (refl, (refl, tt));
  cache_keys = (refl, (refl, tt));
  sized = refl;
  bounded = omega arith;
  positive = omega arith;
}

abbrev calls : List (Call ℕ)
calls =
    put_call (bytes "a") 1
    ∷ put_call (bytes "b") 2
    ∷ get_call (bytes "a")
    ∷ remove_call (bytes "b")
    ∷ get_call (bytes "b")
    ∷ []

run-replay_example :
    (last : Lru ℕ) × (run 0 calls init_lru ≡ some ((replay 0 50 calls []).0, last))
    × (view last ≡ (replay 0 50 calls []).1)
    × (length (view last) ≤ 50)
run-replay_example = run-replay 0 calls

replay_answers :
    (replay 0 50 calls []) ≡ (none ∷ none ∷ some 1 ∷ none ∷ some 0 ∷ [], (bytes "a", 1) ∷ [])
unfolding replay recent_call recent_get recent_put keep_first find_key erase_key same_text
replay_answers = refl

no_c : find_key (bytes "c") full.cache_map ≡ none
unfolding find_key same_text
no_c = refl

abbrev process : Process
process = record { cache = full; locked = false; log = []; sent = [] }

abbrev late : World
late = record { now = pos 160; mktime = λ t. t.tm_sec; revalidation = none }

abbrev get_b : Request
get_b = record { input = []; port = []; host = []; method = []; first_line = bytes "b" }

b_there : find_key (bytes "b") full.cache_map ≡ some (page (2 ∷ []))
unfolding find_key same_text
b_there = refl

page_is_full : response_is_empty (page (2 ∷ [])) ≡ false
unfolding response_is_empty
page_is_full = refl

handle_get_blocks_example : handle_get late plain get_b 3 [] process ≡ blocked
handle_get_blocks_example =
    handle_get_blocks late plain get_b (page (2 ∷ [])) 3 [] process refl full-InSync b_there
      page_is_full refl refl refl refl refl

-- The server sends 1 and 2, and then 3 and 4, of which only 3 is taken; the client sends 5.
abbrev rounds : List (Ready × Ready)
rounds = (some (got 1 (2 ∷ []), 2), none) ∷ (some (got 3 (4 ∷ []), 1), some (got 5 [], 1)) ∷ []

receive_with_content_length-gets_example :
    (text : Text) × (receive_with_content_length 3
        (gets ((1, 2 ∷ []) ∷ (3, 4 ∷ []) ∷ (5, []) ∷ []))
        []
      ≡ content text)
    × (3 ≤ length text)
    × ((later : Text) × (text ++ later ≡ 1 ∷ 2 ∷ 3 ∷ 4 ∷ 5 ∷ []))
receive_with_content_length-gets_example =
    receive_with_content_length-gets 3 ((1, 2 ∷ []) ∷ (3, 4 ∷ []) ∷ (5, []) ∷ []) [] (omega arith)

-- "GET /H", and then "Host: a:81".
abbrev line : Text
line = bytes "GET" ++ (space ++ bytes "/H")

abbrev value : Text
value = bytes "a" ++ (colon ++ bytes "81")

abbrev request : Text
request = (line ++ line_end) ++ (host_name ++ (value ++ (line_end ++ line_end)))

first_host : find host_name request ≡ some (length (line ++ line_end))
unfolding find starts_with
first_host = refl

parse_request-Authority_example : parse_request request ≡ record {
  input = request;
  port = bytes "81";
  host = bytes "a";
  method = bytes "GET";
  first_line = line;
}
parse_request-Authority_example =
    parse_request-Authority request 71 (bytes "ET") (bytes "/H")
      (host_name ++ (value ++ (line_end ++ line_end))) (line ++ line_end) value (bytes "a")
      (bytes "81") line_end refl refl first_host (refl, (refl, (refl, tt)))
      (refl, (refl, (refl, (refl, (refl, (refl, tt)))))) (refl, (refl, (refl, (refl, tt))))
      (with_port (refl, tt) refl)

abbrev chunked_head : Text
chunked_head = bytes "chunked"

is_chunked : contains_chunked_transfer_encoding chunked_head ≡ true
unfolding contains_chunked_transfer_encoding occurs starts_with
is_chunked = refl

handle_get_request-Sends_example : Sends (chunked_head ++ 1 ∷ 2 ∷ 3 ∷ []) process (
    handle_get_request late plain
      (bytes "e")
      5
      (got 99 (bytes "hunked") ∷ got 1 (2 ∷ []) ∷ got 3 [] ∷ closed ∷ [])
      process)
handle_get_request-Sends_example =
    handle_get_request-Sends late plain (bytes "e") 5 99 (bytes "hunked")
      ((1, 2 ∷ []) ∷ (3, []) ∷ []) process is_chunked (refl, full-InSync)

-- A head that announces two bytes, which have not come yet.
abbrev head_end : Text
head_end = bytes "ontent-Length: 2" ++ 13 ∷ 10 ∷ 13 ∷ 10 ∷ []

two_to_come : (t : Process) → get_length (67 ∷ head_end) t ≡ done (pos 2) t
unfolding get_length find find_from starts_with drop_bytes take_bytes substr size_minus stoi digits
    ◌-ℤ◌
two_to_come t = refl

not_chunked : contains_chunked_transfer_encoding (67 ∷ head_end) ≡ false
unfolding contains_chunked_transfer_encoding occurs starts_with
not_chunked = refl

handle_get_request_drops_head_example :
    (body : Text) × (later : Text) × (body ++ later ≡ 1 ∷ 2 ∷ [])
    × (2 ≤ length body)
    × Sends body process (
        handle_get_request late plain (bytes "e") 5 (got 67 head_end ∷ got 1 (2 ∷ []) ∷ []) process)
handle_get_request_drops_head_example =
    handle_get_request_drops_head late plain (bytes "e") 5 67 2 head_end ((1, 2 ∷ []) ∷ []) process
      not_chunked two_to_come (omega arith) (refl, full-InSync)

handle_post_request-Unsent_example :
    Unsent process (handle_post_request (67 ∷ head_end) 6 (got 1 (2 ∷ []) ∷ []) (got 9 []) process)
handle_post_request-Unsent_example =
    handle_post_request-Unsent (67 ∷ head_end) 6 (got 1 (2 ∷ []) ∷ []) (got 9 []) process

-- A client that sends nothing, and one whose accept failed.
abbrev silent : Client
silent = record {
  accepted = opened 4;
  first = closed;
  connected = true;
  traffic = record { from_server = []; reply = closed; from_client = []; rounds = [] };
}

abbrev unaccepted : Client
unaccepted = record silent { accepted = minus_one }

run-NeverDone_example :
    NeverDone (Run.run late plain (opened 3) ((silent ∷ []) ++ unaccepted ∷ silent ∷ []) process)
run-NeverDone_example =
    run-NeverDone late plain (opened 3) (silent ∷ []) unaccepted (silent ∷ []) process refl
