-- ===== src/Proxy/FreshnessLaws.antt =====
-- When handleCachedResponse of proxy.cpp, project2_HTTPproxy/docker-deploy/src, lets the cache answer,
-- and what printCacheLog stores.
use duke_ece.Prelude.{
  ℕ, ◌≡◌, refl, sym, subst, Bool, true, false, [], ◌∷◌, ◌++◌, Option, some, none, arith, Bool-cases,
  inl, inr, not, ◌&&◌, ◌||◌,
}
use duke_ece.Prelude.Int.{◌+ℤ◌, eqb_ℤ}
use duke_ece.Proxy.Text.{Text, bytes, occurs, is_empty}
use duke_ece.Proxy.Lru.{Lru, find_key, put, remove}
use duke_ece.Proxy.Sync.{InSync}
use duke_ece.Proxy.Caching.{remove-InSync, put-InSync}
use duke_ece.Proxy.Process.{
  Header, Response, Process, Outcome, done, blocked, crashed, and_then, lock, unlock, note,
  locked_cache, on_cache, expires_at, expires_text, LogLine,
}
use duke_ece.Proxy.Freshness.{
  World, should_use_cache, too_old, past_expiration, drop_expired, confirm, handle_cached_response,
  note_expiry, print_cache_log, no_age,
}

-- The call does not return `true`.
abbrev pub NeverTrue : Outcome Bool → Type 0
NeverTrue (done answer s) = answer ≡ false
NeverTrue blocked = Unit {0}
NeverTrue crashed = Unit {0}

confirm-NeverTrue : (id : ℕ) (answer : Bool) (s : Process) → NeverTrue (confirm id answer s)
unfolding confirm lock
confirm-NeverTrue id false s = refl
confirm-NeverTrue id true s = elim (Bool-cases s.locked) [
  | inl held ↦ rw held tt
  | inr free ↦ rw free tt
]

confirmed-NeverTrue : (id : ℕ) (o : Outcome Bool) → NeverTrue (and_then o (confirm id))
confirmed-NeverTrue id (done answer s) = confirm-NeverTrue id answer s
confirmed-NeverTrue id blocked = tt
confirmed-NeverTrue id crashed = tt

always_false-NeverTrue : (o : Outcome Unit) → NeverTrue (and_then o (λ _. done false))
always_false-NeverTrue (done _ s) = refl
always_false-NeverTrue blocked = tt
always_false-NeverTrue crashed = tt

drop_expired-NeverTrue :
    (line : Text) (why : LogLine) (s : Process) → NeverTrue (drop_expired line why s)
unfolding drop_expired
drop_expired-NeverTrue line why s = go (locked_cache (remove line) s)
  where
    go :
        (o : Outcome Unit)
        → NeverTrue (and_then o (λ _ s'. and_then (note why s') (λ _. done false)))
    go (done _ s') = always_false-NeverTrue (note why s')
    go blocked = tt
    go crashed = tt

-- The call never returns that the cached response may be used: where it would, it locks the mutex that
-- it holds.
pub handle_cached_response-NeverTrue :
    (world : World) (input : Text) (line : Text) (r : Response) (id : ℕ) (s : Process)
    → NeverTrue (handle_cached_response world input line r id s)
unfolding handle_cached_response
handle_cached_response-NeverTrue world input line r id s =
    elim (Bool-cases (too_old world r.header)) [
      | inl old ↦ rw (old, too_old) (drop_expired-NeverTrue line _ s)
      | inr young ↦ elim (Bool-cases (past_expiration world r.header)) [
        | inl past ↦ rw (young, past) (drop_expired-NeverTrue line _ s)
        | inr valid ↦
            rw (young, valid) (confirmed-NeverTrue id (should_use_cache world r input id s))
      ]
    ]

confirm_blocks : (id : ℕ) (s : Process) → confirm id true s ≡ blocked
unfolding confirm lock
confirm_blocks id s = elim (Bool-cases s.locked) [
  | inl held ↦ rw held refl
  | inr free ↦ rw free refl
]

-- A cached response that has not expired and has neither ETag nor Last-Modified blocks its thread for
-- good.
pub handle_cached_response_blocks :
    (world : World) (input : Text) (line : Text) (r : Response) (id : ℕ) (s : Process)
    → too_old world r.header ≡ false
    → past_expiration world r.header ≡ false
    → r.header.etag ≡ []
    → r.header.last_modified ≡ []
    → handle_cached_response world input line r id s ≡ blocked
unfolding handle_cached_response should_use_cache
handle_cached_response_blocks world input line r id s young valid no_etag no_date =
    rw (young, valid, no_etag, no_date) (confirm_blocks id s)

pub note_done :
    (line : LogLine) (s : Process)
    → s.locked ≡ false
    → note line s ≡ done tt (record s { locked = false; log = s.log ++ line ∷ [] })
unfolding note lock unlock
note_done line s free = rw free refl

locked_cache_done :
    (f : Lru Response → Option (Lru Response)) (s : Process) (after : Lru Response)
    → s.locked ≡ false
    → f s.cache ≡ some after
    → locked_cache f s ≡ done tt (record s { locked = false; cache = after })
unfolding locked_cache lock unlock
locked_cache_done f s after free e = rw (free, on_cache, e) refl

-- What a call on an unlocked mutex leaves: the answer, an unlocked mutex, and a cache in order with
-- the property.
abbrev pub Returns : {A : Type 0} → A → (Process → Type 0) → Outcome A → Type 0
Returns answer P (done a s) = (a ≡ answer) × (s.locked ≡ false) × InSync s.cache × P s
Returns answer P blocked = ⊥
Returns answer P crashed = ⊥

drop_expired-Returns :
    (line : Text) (why : LogLine) (s : Process)
    → s.locked ≡ false
    → InSync s.cache
    → Returns false (λ t. find_key line t.cache.cache_map ≡ none) (drop_expired line why s)
unfolding drop_expired
drop_expired-Returns line why s free i =
    let (after, e, j, gone) = remove-InSync line s.cache i in
    rw
      (
        locked_cache_done (remove line) s after free e,
        note_done why (record s { locked = false; cache = after }) refl,
      )
      (refl, refl, j, gone)

-- On an unlocked mutex and a cache in order, a response that is past its max-age or its Expires time
-- is removed from the cache, and the call returns that it may not be used.
pub handle_cached_response_expired :
    (world : World) (input : Text) (line : Text) (r : Response) (id : ℕ) (s : Process)
    → s.locked ≡ false
    → InSync s.cache
    → (too_old world r.header || past_expiration world r.header) ≡ true
    → Returns false
        (λ t. find_key line t.cache.cache_map ≡ none)
        (handle_cached_response world input line r id s)
unfolding handle_cached_response
handle_cached_response_expired world input line r id s free i stale =
    elim (Bool-cases (too_old world r.header)) [
      | inl old ↦ rw (old, too_old) (drop_expired-Returns line _ s free i)
      | inr young ↦
          let past : past_expiration world r.header ≡ true = (rw young at stale) in
          rw (young, past) (drop_expired-Returns line _ s free i)
    ]

note_expiry_done :
    (world : World) (h : Header) (id : ℕ) (s : Process)
    → s.locked ≡ false
    → (after : Process) × (note_expiry world h id s ≡ done tt after)
      × (after.locked ≡ false)
      × (after.cache ≡ s.cache)
      × (after.sent ≡ s.sent)
unfolding note_expiry
note_expiry_done world h id s free =
    let noted = λ (line : LogLine). record s { locked = false; log = s.log ++ line ∷ [] } in
    elim (Bool-cases (not (eqb_ℤ h.max_age no_age))) [
      | inl aged ↦
          let line = expires_at id (world.mktime h.response_time +ℤ h.max_age) in
          (noted line, rw aged (note_done line s free), refl, refl, refl)
      | inr ageless ↦ elim (Bool-cases (not (is_empty h.expiration_str))) [
        | inl dated ↦
            let line = expires_text id h.expiration_str in
            (noted line, rw (ageless, dated) (note_done line s free), refl, refl, refl)
        | inr undated ↦ (s, rw (ageless, undated) refl, free, refl, refl)
      ]
    ]

-- On an unlocked mutex and a cache in order, a response with status 200 that does not say no-store is
-- stored under its request line; one that says so, or has another status, leaves the cache as it is.
pub print_cache_log-Returns :
    (world : World) (r : Response) (says_no_store : Bool) (line : Text) (id : ℕ) (s : Process)
    → s.locked ≡ false
    → InSync s.cache
    → let storable = occurs (bytes "HTTP/1.1 200 OK") r.status_line && not says_no_store in
      Returns tt
        (λ t.
          (storable ≡ true → find_key line t.cache.cache_map ≡ some r)
          × (storable ≡ false → t.cache ≡ s.cache)
          × (t.sent ≡ s.sent))
        (print_cache_log world r says_no_store line id s)
unfolding print_cache_log
print_cache_log-Returns world r says_no_store line id s free i =
    elim (Bool-cases (occurs (bytes "HTTP/1.1 200 OK") r.status_line)) [
      | inr other ↦ rw other (refl, free, i, (λ e. absurd (ground arith), λ _. refl, refl))
      | inl fine ↦ elim (Bool-cases says_no_store) [
        | inl forbidden ↦
            rw (fine, forbidden, note_done _ s free)
              (refl, refl, i, (λ e. absurd (ground arith), λ _. refl, refl))
        | inr allowed ↦
            let (s₁, e, free₁, same, quiet) = note_expiry_done world r.header id s free in
            let (after, f, j, held) = put-InSync line r s₁.cache (subst InSync (sym same) i) in
            rw (fine, allowed, e, locked_cache_done (put line r) s₁ after free₁ f)
              (refl, refl, j, (λ _. held, λ e. absurd (ground arith), quiet))
      ]
    ]
