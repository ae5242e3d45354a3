-- ===== src/Proxy/PostLaws.antt =====
-- What handlePOSTRequest of proxy.cpp, project2_HTTPproxy/docker-deploy/src, sends to the server.
use duke_ece.Prelude.{
  ℕ, suc, zero, ◌≡◌, ◌∙◌, refl, List, [], ◌∷◌, Option, some, none, Bool-cases, inl, inr,
}
use duke_ece.Prelude.Int.{ℤ, pos, negsuc}
use duke_ece.Proxy.Text.{Text, find, find_from, bytes}
use duke_ece.Proxy.Process.{
  LogLine, bad_length, received_line, responding, client, server, Process, Outcome, done, blocked,
  crashed, Action, ◌>>=◌, and_then, lock, unlock, note, send,
}
use duke_ece.Proxy.Relay.{Recv, got, closed, failed, Received, content, threw, waiting}
use duke_ece.Proxy.Response.{
  Stoi, number, invalid_argument, out_of_range, stoi, parse_status_line, between,
}
use duke_ece.Proxy.Fetch.{get_length, judged_length, length_of, length_at, partial_length}
use duke_ece.Proxy.Tunnel.{sent_to, sent_to-append, append_nil}
use duke_ece.Proxy.Request.{line_end}
use duke_ece.Proxy.Post.{answer_post, after_body, with_length, handle_post_request}

-- If the call returns, it has sent the server nothing.
abbrev pub Unsent : {A : Type 0} → Process → Outcome A → Type 0
Unsent s (done _ after) = sent_to server after.sent ≡ sent_to server s.sent
Unsent s blocked = Unit {0}
Unsent s crashed = Unit {0}

then_Unsent :
    {A B : Type 0} (s : Process) (o : Outcome A) (f : A → Action B)
    → Unsent s o
    → ((a : A) (s' : Process) → Unsent s' (f a s'))
    → Unsent s (and_then o f)
then_Unsent {B = B} s (done a after) f e next = go (f a after) (next a after)
  where
    go : (o : Outcome B) → Unsent after o → Unsent s o
    go (done _ last) e' = e' ∙ e
    go blocked h = tt
    go crashed h = tt
then_Unsent s blocked f e next = tt
then_Unsent s crashed f e next = tt

note-Unsent : (line : LogLine) (s : Process) → Unsent s (note line s)
unfolding note lock unlock
note-Unsent line s = elim (Bool-cases s.locked) [ inl held ↦ rw held tt | inr free ↦ rw free refl ]

judged_length-Unsent : (partial : ℤ) (n : Stoi) (s : Process) → Unsent s (judged_length partial n s)
judged_length-Unsent partial (number n) s = refl
judged_length-Unsent partial invalid_argument s =
    then_Unsent s (note bad_length s) _ (note-Unsent bad_length s) (λ _ s'. refl)
judged_length-Unsent partial out_of_range s = tt

length_of-Unsent :
    (request : Text) (digits : Option Text) (s : Process) → Unsent s (length_of request digits s)
length_of-Unsent request none s = tt
length_of-Unsent request (some digits) s =
    judged_length-Unsent (partial_length request) (stoi digits) s

length_at-Unsent :
    (request : Text) (place : Option ℕ) (s : Process) → Unsent s (length_at request place s)
length_at-Unsent request none s = refl
length_at-Unsent request (some place) s =
    length_of-Unsent request (between request place 16 (find_from line_end request place)) s

answer_post-Unsent :
    (request : Text) (id : ℕ) (reply : Recv) (s : Process)
    → Unsent s (answer_post request id reply s)
unfolding answer_post
answer_post-Unsent request id closed s = refl
answer_post-Unsent request id failed s = tt
answer_post-Unsent request id (got d ds) s =
    let first = received_line id (parse_status_line request) in
    let last = responding id (parse_status_line request) in
    then_Unsent s (note first s) (λ _. send client (d ∷ ds) >>= λ _. note last)
      (note-Unsent first s)
      (λ _ s₁.
        then_Unsent s₁ (send client (d ∷ ds) s₁) (λ _. note last)
          (sent_to-append server s₁.sent ((client, d ∷ ds) ∷ [])
            ∙ append_nil (sent_to server s₁.sent))
          (λ _ s₂. note-Unsent last s₂))

after_body-Unsent :
    (request : Text) (id : ℕ) (reply : Recv) (body : Received) (s : Process)
    → Unsent s (after_body request id reply body s)
unfolding after_body
after_body-Unsent request id reply (content text) s = answer_post-Unsent request id reply s
after_body-Unsent request id reply threw s = refl
after_body-Unsent request id reply waiting s = tt

with_length-Unsent :
    (request : Text) (id : ℕ) (calls : List Recv) (reply : Recv) (n : ℤ) (s : Process)
    → Unsent s (with_length request id calls reply n s)
unfolding with_length
with_length-Unsent request id calls reply (pos n) s = after_body-Unsent request id reply _ s
with_length-Unsent request id calls reply (negsuc zero) s = refl
with_length-Unsent request id calls reply (negsuc (suc n)) s = tt

-- A POST request is never forwarded: when the call returns, whatever came in from the client and the
-- server, it has sent nothing to the server.
pub handle_post_request-Unsent :
    (request : Text) (id : ℕ) (calls : List Recv) (reply : Recv) (s : Process)
    → Unsent s (handle_post_request request id calls reply s)
unfolding handle_post_request get_length
handle_post_request-Unsent request id calls reply s =
    then_Unsent s (get_length request s) (with_length request id calls reply)
      (length_at-Unsent request (find (bytes "Content-Length: ") request) s)
      (λ n s'. with_length-Unsent request id calls reply n s')
