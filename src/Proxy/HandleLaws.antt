-- ===== src/Proxy/HandleLaws.antt =====
-- What handleRequest of proxy.cpp, project2_HTTPproxy/docker-deploy/src, makes of a cached response.
use duke_ece.Prelude.{ℕ, ◌≡◌, ◌∙◌, refl, ap, Bool, false, List, [], some, if◌then◌else◌}
use duke_ece.Proxy.Text.{Text}
use duke_ece.Proxy.Request.{Request}
use duke_ece.Proxy.Lru.{find_key}
use duke_ece.Proxy.Sync.{InSync}
use duke_ece.Proxy.Caching.{get-found}
use duke_ece.Proxy.Process.{
  Header, Response, Process, Outcome, done, blocked, ◌>>=◌, and_then, lock, unlock,
}
use duke_ece.Proxy.Freshness.{
  World, should_use_cache, too_old, past_expiration, handle_cached_response,
}
use duke_ece.Proxy.FreshnessLaws.{handle_cached_response_blocks}
use duke_ece.Proxy.Relay.{Recv}
use duke_ece.Proxy.Handle.{
  response_is_empty, no_response, read_cache, look_up, may_use, choose, use_cached, handle_get,
}

look_up_done :
    (fresh : Header) (line : Text) (r : Response) (s : Process)
    → s.locked ≡ false
    → InSync s.cache
    → find_key line s.cache.cache_map ≡ some r
    → (after : Process) × (look_up fresh line s ≡ done r after)
unfolding look_up lock unlock
look_up_done fresh line r s free i held =
    let (cache, e) = get-found (no_response fresh) r line s.cache i held in
    (record s { locked = false; cache = cache }, rw (free, read_cache, e) refl)

-- On an unlocked mutex and a cache in order, a GET whose first line is in the cache, with a response that
-- is not empty, has not expired, and has neither no-cache nor ETag nor Last-Modified, blocks its thread
-- for good: the client is not answered from the cache.
pub handle_get_blocks :
    (world : World) (fresh : Header) (q : Request) (r : Response) (id : ℕ) (calls : List Recv)
    (s : Process)
    → s.locked ≡ false
    → InSync s.cache
    → find_key q.first_line s.cache.cache_map ≡ some r
    → response_is_empty r ≡ false
    → r.header.no_cache ≡ false
    → too_old world r.header ≡ false
    → past_expiration world r.header ≡ false
    → r.header.etag ≡ []
    → r.header.last_modified ≡ []
    → handle_get world fresh q id calls s ≡ blocked
unfolding handle_get use_cached
handle_get_blocks world fresh q r id calls s free i held full plain young valid no_etag no_date =
    let (after, e) = look_up_done fresh q.first_line r s free i held in
    let blocks : handle_cached_response world q.input q.first_line r id after ≡ blocked =
      handle_cached_response_blocks world q.input q.first_line r id after young valid no_etag
        no_date in
    let waits : may_use world q r id after ≡ blocked =
      ap
        (λ (b : Bool).
          if b
          then should_use_cache world r q.input id after
          else handle_cached_response world q.input q.first_line r id after)
        plain
      ∙ blocks in
    rw (e, full)
      (ap
        (λ (o : Outcome Bool).
          and_then o
            (λ answer. choose world fresh q r id calls answer >>= λ _. lock >>= λ _. unlock))
        waits)
