-- ===== src/Proxy/FetchLaws.antt =====
-- What handleGetRequest of proxy.cpp, project2_HTTPproxy/docker-deploy/src, sends to the client.
use duke_ece.Prelude.{
  ℕ, ◌≡◌, ◌≤◌, ◌∙◌, refl, sym, ap, subst, Bool, true, false, List, [], ◌∷◌, ◌++◌, some, length, not,
  ◌&&◌,
}
use duke_ece.Prelude.Int.{pos, eqb_ℤ}
use duke_ece.Proxy.Text.{Text, bytes, occurs, is_empty}
use duke_ece.Proxy.Lru.{find_key}
use duke_ece.Proxy.Sync.{InSync}
use duke_ece.Proxy.Process.{
  Header, Response, LogLine, chunked, received, received_line, note_expires, note_etag,
  note_last_modified, note_no_cache, note_max_age, client, Process, Outcome, done, blocked, crashed,
  Action, and_then, note, send,
}
use duke_ece.Proxy.Freshness.{World, no_age, print_cache_log}
use duke_ece.Proxy.FreshnessLaws.{note_done, Returns, print_cache_log-Returns}
use duke_ece.Proxy.Relay.{Recv, got, closed, content, receive_with_content_length}
use duke_ece.Proxy.Response.{parse_status_line, parse_header}
use duke_ece.Proxy.Fetch.{
  note_if, log_response_notes, get_length, answer_whole, contains_chunked_transfer_encoding,
  pass_chunks, answer_chunked, answer_message, handle_get_request,
}
use duke_ece.Proxy.Tunnel.{
  sent_to, sent_to-append, append_assoc, append_nil, gets, joined, receive_with_content_length-gets,
}

-- An unlocked mutex and a cache in order.
abbrev pub Ready : Process → Type 0
Ready s = (s.locked ≡ false) × InSync s.cache

-- The call returns, with an unlocked mutex and a cache in order, and the client has been sent the text.
abbrev pub Sends : Text → Process → Outcome Unit → Type 0
Sends text s (done _ after) =
    Ready after × (sent_to client after.sent ≡ sent_to client s.sent ++ text)
Sends text s blocked = ⊥
Sends text s crashed = ⊥

then_Sends :
    (a b : Text) (s : Process) (o : Outcome Unit) (f : Unit → Action Unit)
    → Sends a s o
    → ((s' : Process) → Ready s' → Sends b s' (f tt s'))
    → Sends (a ++ b) s (and_then o f)
then_Sends a b s (done u after) f (free, e) next = go (f u after) (next after free)
  where
    go : (o : Outcome Unit) → Sends b after o → Sends (a ++ b) s o
    go (done _ last) (free', e') =
        (free', e' ∙ ap (λ t. t ++ b) e ∙ append_assoc (sent_to client s.sent) a b)
    go blocked h = h
    go crashed h = h
then_Sends a b s blocked f h next = absurd h
then_Sends a b s crashed f h next = absurd h

note-Sends : (line : LogLine) (s : Process) → Ready s → Sends [] s (note line s)
note-Sends line s free =
    rw (note_done line s free.0) ((refl, free.1), sym (append_nil (sent_to client s.sent)))

send-Sends : (text : Text) (s : Process) → Ready s → Sends text s (send client text s)
send-Sends text s free = (
  free,
  sent_to-append client s.sent ((client, text) ∷ [])
      ∙ ap (◌++◌ (sent_to client s.sent)) (append_nil text),
)

last_Sends :
    (a : Text) (s : Process) (o : Outcome Unit) (line : LogLine)
    → Sends a s o
    → Sends a s (and_then o (λ _. note line))
last_Sends a s o line h =
    subst (λ text. Sends text s (and_then o (λ _. note line))) (append_nil a)
      (then_Sends a [] s o (λ _. note line) h (λ s' free. note-Sends line s' free))

pass_chunks-Sends :
    (chunks : List (ℕ × Text)) (s : Process)
    → Ready s
    → Sends (joined chunks) s (pass_chunks (gets chunks ++ closed ∷ []) s)
unfolding pass_chunks
pass_chunks-Sends [] s free = (free, sym (append_nil (sent_to client s.sent)))
pass_chunks-Sends ((d, ds) ∷ chunks) s free =
    then_Sends (d ∷ ds) (joined chunks) s (send client (d ∷ ds) s)
      (λ _. pass_chunks (gets chunks ++ closed ∷ [])) (send-Sends (d ∷ ds) s free)
      (λ s' free'. pass_chunks-Sends chunks s' free')

answer_chunked-Sends :
    (message : Text) (id : ℕ) (chunks : List (ℕ × Text)) (s : Process)
    → Ready s
    → Sends (message ++ joined chunks) s (answer_chunked message id (gets chunks ++ closed ∷ []) s)
unfolding answer_chunked
answer_chunked-Sends message id chunks s free =
    then_Sends [] (message ++ joined chunks) s (note (chunked id) s) _
      (note-Sends (chunked id) s free)
      (λ s₁ free₁.
        then_Sends message (joined chunks) s₁ (send client message s₁)
          (λ _. pass_chunks (gets chunks ++ closed ∷ [])) (send-Sends message s₁ free₁)
          (λ s₂ free₂. pass_chunks-Sends chunks s₂ free₂))

-- On an unlocked mutex and a cache in order, a response whose head mentions "chunked" is passed on whole: the client is sent
-- the bytes that came first and all that follow until the server closes, and the call returns.
pub handle_get_request-Sends :
    (world : World) (fresh : Header) (line : Text) (id d : ℕ) (ds : Text) (chunks : List (ℕ × Text))
    (s : Process)
    → contains_chunked_transfer_encoding (d ∷ ds) ≡ true
    → Ready s
    → Sends
        ((d ∷ ds) ++ joined chunks)
        s
        (handle_get_request world fresh line id (got d ds ∷ gets chunks ++ closed ∷ []) s)
unfolding handle_get_request answer_message
handle_get_request-Sends world fresh line id d ds chunks s is_chunked free =
    let message = d ∷ ds in
    let whole = message ++ joined chunks in
    then_Sends [] whole s (note (received id) s) _ (note-Sends (received id) s free) (λ s₁ free₁.
      then_Sends [] whole s₁ (note (received_line id (parse_status_line message)) s₁) _
        (note-Sends _ s₁ free₁)
        (λ s₂ free₂.
          rw is_chunked
            (last_Sends whole s₂ _ _ (answer_chunked-Sends message id chunks s₂ free₂))))

note_if-Sends :
    (b : Bool) (line : LogLine) (s : Process) → Ready s → Sends [] s (note_if b (note line) s)
note_if-Sends true line s free = note-Sends line s free
note_if-Sends false line s free = (free, sym (append_nil (sent_to client s.sent)))

log_response_notes-Sends :
    (h : Header) (id : ℕ) (s : Process) → Ready s → Sends [] s (log_response_notes h id s)
unfolding log_response_notes
log_response_notes-Sends h id s free =
    then_Sends [] [] s (note_if (not (eqb_ℤ h.max_age no_age)) (note (note_max_age id h.max_age)) s)
      _ (note_if-Sends _ _ s free)
      (λ s₁ free₁.
        then_Sends [] [] s₁
          (note_if (not (is_empty h.expiration_str)) (note (note_expires id h.expiration_str)) s₁) _
          (note_if-Sends _ _ s₁ free₁)
          (λ s₂ free₂.
            then_Sends [] [] s₂ (note_if h.no_cache (note (note_no_cache id)) s₂) _
              (note_if-Sends _ _ s₂ free₂)
              (λ s₃ free₃.
                then_Sends [] [] s₃
                  (note_if (not (is_empty h.etag)) (note (note_etag id h.etag)) s₃)
                  (λ _.
                    note_if (not (is_empty h.last_modified))
                      (note (note_last_modified id h.last_modified)))
                  (note_if-Sends _ _ s₃ free₃) (λ s₄ free₄. note_if-Sends _ _ s₄ free₄))))

print_cache_log-Sends :
    (world : World) (r : Response) (says : Bool) (line : Text) (id : ℕ) (s : Process)
    → Ready s
    → Sends [] s (print_cache_log world r says line id s)
print_cache_log-Sends world r says line id s (free, i) =
    go (print_cache_log world r says line id s)
      (print_cache_log-Returns world r says line id s free i)
  where
    go :
        (o : Outcome Unit)
        → Returns tt
            (λ t.
              ((occurs (bytes "HTTP/1.1 200 OK") r.status_line && not says) ≡ true
                → find_key line t.cache.cache_map ≡ some r)
              × ((occurs (bytes "HTTP/1.1 200 OK") r.status_line && not says) ≡ false
                  → t.cache ≡ s.cache)
              × (t.sent ≡ s.sent))
            o
        → Sends [] s o
    go (done _ t) (_, free', j, (_, _, same)) =
        ((free', j), ap (sent_to client) same ∙ sym (append_nil (sent_to client s.sent)))
    go blocked h = h
    go crashed h = h

-- A last step that sends nothing.
quiet_end :
    (a : Text) (s : Process) (o : Outcome Unit) (f : Unit → Action Unit)
    → Sends a s o
    → ((s' : Process) → Ready s' → Sends [] s' (f tt s'))
    → Sends a s (and_then o f)
quiet_end a s o f h next =
    subst (λ text. Sends text s (and_then o f)) (append_nil a) (then_Sends a [] s o f h next)

module _ (world : World) (r : Response) (line : Text) (id n : ℕ) (message body : Text)
    (calls : List Recv) (known : (s : Process) → get_length message s ≡ done (pos n) s)
    (comes : receive_with_content_length n calls [] ≡ content body) where
  answer_whole-Sends :
      (s : Process) → Ready s → Sends body s (answer_whole world message r line id calls s)
  unfolding answer_whole
  answer_whole-Sends s ready =
      let stored = record r { response = body } in
      let says = occurs (bytes "no-store") message in
      then_Sends [] body s (log_response_notes r.header id s) _
        (log_response_notes-Sends r.header id s ready)
        (λ s₁ ready₁.
          rw (known s₁, comes)
            (quiet_end body s₁ (send client body s₁)
              (λ _. print_cache_log world stored says line id) (send-Sends body s₁ ready₁)
              (λ s₂ ready₂. print_cache_log-Sends world stored says line id s₂ ready₂)))

-- On an unlocked mutex and a cache in order, a response with a known length, whose head does not
-- mention "chunked" and of which n bytes are still to come, is answered without what came first: the
-- client is sent only bytes that came after the head and the part of the body that came with it.
pub handle_get_request_drops_head :
    (world : World) (fresh : Header) (line : Text) (id d n : ℕ) (ds : Text)
    (chunks : List (ℕ × Text)) (s : Process)
    → contains_chunked_transfer_encoding (d ∷ ds) ≡ false
    → ((t : Process) → get_length (d ∷ ds) t ≡ done (pos n) t)
    → n ≤ length (joined chunks)
    → Ready s
    → (body : Text) × (later : Text) × (body ++ later ≡ joined chunks)
      × (n ≤ length body)
      × Sends body s (handle_get_request world fresh line id (got d ds ∷ gets chunks) s)
unfolding handle_get_request answer_message
handle_get_request_drops_head world fresh line id d n ds chunks s plain known enough ready =
    let message = d ∷ ds in
    let header = parse_header message (parse_header message fresh) in
    let r : Response = record {
      response = message;
      header = header;
      status_line = parse_status_line message;
    } in
    let (body, comes, size, (later, all)) = receive_with_content_length-gets n chunks [] enough in
    (
      body,
      later,
      all,
      size,
      then_Sends [] body s (note (received id) s) _ (note-Sends (received id) s ready) (λ s₁ ready₁.
          then_Sends [] body s₁ (note (received_line id (parse_status_line message)) s₁) _
            (note-Sends _ s₁ ready₁)
            (λ s₂ ready₂. rw plain (
              last_Sends body s₂ _ _ (
                answer_whole-Sends world r line id n message body (gets chunks) known comes s₂
                  ready₂)))),
    )
