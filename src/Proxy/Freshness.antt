-- ===== src/Proxy/Freshness.antt =====
-- handleCachedResponse, shouldUseCache, sendCachedResponseToClient and printCacheLog of
-- proxy.cpp, project2_HTTPproxy/docker-deploy/src.
use duke_ece.Prelude.{
  ℕ, String, Bool, true, false, [], ◌∷◌, ◌++◌, Option, some, none, ◌&&◌, not, if◌then◌else◌,
}
use duke_ece.Prelude.Int.{ℤ, negsuc, ◌+ℤ◌, leb_ℤ, ltb_ℤ, eqb_ℤ}
use duke_ece.Proxy.Text.{Text, bytes, occurs, is_empty, insert_before_end}
use duke_ece.Proxy.Lru.{put, remove}
use duke_ece.Proxy.Process.{
  Tm, Header, Response, LogLine, in_cache_valid, requires_validation, no_store, expired,
  cached_expired, expires_at, expires_text, client, server, done, crashed, Action, ◌>>=◌, return,
  lock, write, note, send, locked_cache,
}

-- What the surroundings give to a call: the time, what `mktime` makes of a `struct tm`, and what `recv`
-- brings from the server when a cached response is validated; `none` is an error of `recv`.
pub record World : Type 0 where
  pub now : ℤ
  pub mktime : Tm → ℤ
  pub revalidation : Option Text

-- A line of the form "If-None-Match: ...", where the field is there.
unfoldable pub add_line : String → Text → Text → Option Text
add_line name value input =
    if is_empty value
    then some input
    else insert_before_end (bytes name ++ value ++ 13 ∷ 10 ∷ []) input

-- `modifiedInput`.
unfoldable pub conditional : Header → Text → Option Text
conditional h input = elim (add_line "If-None-Match: " h.etag input) [
  | none ↦ none
  | some with_etag ↦ add_line "If-Modified-Since: " h.last_modified with_etag
]

-- The answer to the modified request: with a 200 the cache is not to be used. A length of -1 is no
-- length of a std::string.
unfoldable pub judge : Option Text → ℕ → Action Bool
judge none id s = crashed
judge (some reply) id s =
    if occurs (bytes "HTTP/1.1 200 OK") reply
    then (note (requires_validation id) >>= λ _. return false) s
    else done true s

unfoldable pub should_use_cache : World → Response → Text → ℕ → Action Bool
should_use_cache world r input id s =
    if is_empty r.header.etag && is_empty r.header.last_modified
    then done true s
    else elim (conditional r.header input) [
      | none ↦ crashed
      | some request ↦ (send server request >>= λ _. judge world.revalidation id) s
    ]

unfoldable pub send_cached_response : Response → ℕ → Action Unit
send_cached_response r id = do _ ← send client r.response; note (in_cache_valid id)

abbrev pub no_age : ℤ
no_age = negsuc 0

-- Past `max-age`.
abbrev pub too_old : World → Header → Bool
too_old world h =
    not (eqb_ℤ h.max_age no_age) && leb_ℤ (world.mktime h.response_time +ℤ h.max_age) world.now

-- Past the time of `Expires`.
abbrev pub past_expiration : World → Header → Bool
past_expiration world h =
    not (is_empty h.expiration_str) && ltb_ℤ (world.mktime h.expiration_time) world.now

unfoldable pub drop_expired : Text → LogLine → Action Bool
drop_expired line why = do _ ← locked_cache (remove line); _ ← note why; return false

-- The end of handleCachedResponse, which locks the mutex twice.
unfoldable pub confirm : ℕ → Bool → Action Bool
confirm id false = return false
confirm id true = do _ ← lock; _ ← write (in_cache_valid id); _ ← lock; return true

unfoldable pub handle_cached_response : World → Text → Text → Response → ℕ → Action Bool
handle_cached_response world input line r id s =
    let h = r.header in
    if too_old world h
    then drop_expired line (expired id (world.mktime h.response_time +ℤ h.max_age)) s
    else if past_expiration world h
    then drop_expired line (cached_expired id (world.mktime h.expiration_time)) s
    else (should_use_cache world r input id >>= confirm id) s

-- The note about when a stored response expires.
unfoldable pub note_expiry : World → Header → ℕ → Action Unit
note_expiry world h id s =
    if not (eqb_ℤ h.max_age no_age)
    then note (expires_at id (world.mktime h.response_time +ℤ h.max_age)) s
    else if not (is_empty h.expiration_str)
    then note (expires_text id h.expiration_str) s
    else done tt s

-- printCacheLog: a response with status 200 is stored, unless it says no-store.
unfoldable pub print_cache_log : World → Response → Bool → Text → ℕ → Action Unit
print_cache_log world r says_no_store line id s =
    if occurs (bytes "HTTP/1.1 200 OK") r.status_line
    then (if says_no_store
        then note (no_store id) s
        else (note_expiry world r.header id >>= λ _. locked_cache (put line r)) s)
    else done tt s
