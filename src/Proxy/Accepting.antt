-- ===== src/Proxy/Accepting.antt =====
-- What a failed accept does to Proxy::run, proxy.cpp: project2_HTTPproxy/docker-deploy/src.
use duke_ece.Prelude.{ℕ, suc, ◌≡◌, ◌≢◌, ◌∙◌, refl, sym, subst, ap, Bool, List, [], ◌∷◌, ◌++◌}
use duke_ece.Net.{Opened, opened, minus_one, ended}
use duke_ece.Proxy.Process.{
  Header, Process, not_listening, bad_request, Outcome, done, blocked, crashed, Action, and_then,
  lock, unlock, note,
}
use duke_ece.Proxy.Freshness.{World}
use duke_ece.Proxy.Relay.{failed}
use duke_ece.Proxy.Handle.{Traffic, handle_request}
use duke_ece.Proxy.Run.{
  Client, first_recv, note_failure, accept_round, serve_client, serve_clients, run,
}

-- A call that does not return.
abbrev pub NeverDone : {A : Type 0} → Outcome A → Type 0
NeverDone {A} o = (a : A) (s : Process) → o ≢ done a s

NeverDone-and_then :
    {A B : Type 0} (o : Outcome A) (f : A → Action B)
    → ((a : A) (s : Process) → NeverDone (f a s))
    → NeverDone (and_then o f)
NeverDone-and_then (done a s) f h = h a s
NeverDone-and_then blocked f h = λ a s e. cc
NeverDone-and_then crashed f h = λ a s e. cc

NeverDone-first :
    {A B : Type 0} (o : Outcome A) (f : A → Action B) → NeverDone o → NeverDone (and_then o f)
NeverDone-first (done a s) f h = absurd (h a s refl)
NeverDone-first blocked f h = λ a s e. cc
NeverDone-first crashed f h = λ a s e. cc

-- What a call returns, if it does.
abbrev Gives : {A : Type 0} → (A → Type 0) → Outcome A → Type 0
Gives P (done a s) = P a
Gives P blocked = Unit {0}
Gives P crashed = Unit {0}

Gives-and_then :
    {A B : Type 0} (P : B → Type 0) (o : Outcome A) (f : A → Action B)
    → ((a : A) (s : Process) → Gives P (f a s))
    → Gives P (and_then o f)
Gives-and_then P (done a s) f h = h a s
Gives-and_then P blocked f h = tt
Gives-and_then P crashed f h = tt

NeverDone-Gives :
    {A B : Type 0} (P : A → Type 0) (o : Outcome A) (f : A → Action B)
    → Gives P o
    → ((a : A) → P a → (s : Process) → NeverDone (f a s))
    → NeverDone (and_then o f)
NeverDone-Gives P (done a s) f p h = h a p s
NeverDone-Gives P blocked f p h = λ a s e. cc
NeverDone-Gives P crashed f p h = λ a s e. cc

module _ (world : World) (fresh : Header) where
  handle_request-failed :
      (connected : Bool) (id : ℕ) (traffic : Traffic) (s : Process)
      → NeverDone (handle_request world fresh connected failed id traffic s)
  unfolding handle_request
  handle_request-failed connected id traffic s =
      NeverDone-and_then (note (bad_request id) s) _ (λ a t b u e. cc)

  accept_round-Gives :
      (fd : Opened) (id : ℕ) (s : Process)
      → Gives (λ context. context.fd ≡ fd) (accept_round fd id s)
  unfolding accept_round
  accept_round-Gives fd id s =
      Gives-and_then _ (note_failure fd s) _
        (λ _ t. Gives-and_then _ (lock t) _ (λ _ u. Gives-and_then _ (unlock u) _ (λ _ v. refl)))

  serve_client-failed :
      (c : Client) (id : ℕ) (s : Process)
      → c.accepted ≡ minus_one
      → NeverDone (serve_client world fresh c id s)
  unfolding serve_client
  serve_client-failed c id s e =
      NeverDone-Gives _ (accept_round c.accepted id s) _ (accept_round-Gives c.accepted id s)
        (λ context same t.
          subst (λ r. NeverDone (handle_request world fresh c.connected r context.id c.traffic t))
            (sym (ap (λ fd. first_recv fd c.first) (same ∙ e)))
            (handle_request-failed c.connected context.id c.traffic t))

  serve_clients-failed :
      (before : List Client) (bad : Client) (after : List Client) (id : ℕ) (s : Process)
      → bad.accepted ≡ minus_one
      → NeverDone (serve_clients world fresh (before ++ bad ∷ after) id s)
  unfolding serve_clients
  serve_clients-failed [] bad after id s e =
      NeverDone-first (serve_client world fresh bad id s) _ (serve_client-failed bad id s e)
  serve_clients-failed (c ∷ before) bad after id s e =
      NeverDone-and_then (serve_client world fresh c id s) _
        (λ _ t. serve_clients-failed before bad after (suc id) t e)

-- One failed accept ends the service: its result -1 is passed on to a thread, so that run, whatever
-- clients come before and after, and whether or not the server socket could be opened, does not get
-- past that client: a thread blocks for good, or an exception ends the process.
pub run-NeverDone :
    (world : World) (fresh : Header) (server : Opened) (before : List Client) (bad : Client)
    (after : List Client) (s : Process)
    → bad.accepted ≡ minus_one
    → NeverDone (run world fresh server (before ++ bad ∷ after) s)
unfolding run
run-NeverDone world fresh (opened fd) before bad after s e =
    serve_clients-failed world fresh before bad after 0 s e
run-NeverDone world fresh minus_one before bad after s e =
    NeverDone-and_then (note not_listening s) _
      (λ _ t. serve_clients-failed world fresh before bad after 0 t e)
run-NeverDone world fresh ended before bad after s e = λ a t f. cc
