-- ===== src/Proxy/Run.antt =====
-- Proxy::run of proxy.cpp, with ClientContext and main: project2_HTTPproxy/docker-deploy/src. Each
-- thread runs to its end before the next client is accepted, which is one way in which they can run.
use duke_ece.Prelude.{ℕ, suc, Bool, List, [], ◌∷◌}
use duke_ece.Net.{Opened, opened, minus_one, ended}
use duke_ece.Proxy.Process.{
  Header, not_listening, no_client, done, crashed, Action, ◌>>=◌, lock, unlock, note,
}
use duke_ece.Proxy.Freshness.{World}
use duke_ece.Proxy.Relay.{Recv, failed}
use duke_ece.Proxy.Handle.{Traffic, handle_request}

-- ClientContext: what run hands to a thread.
pub record ClientContext : Type 0 where
  pub id : ℕ
  pub fd : Opened

-- A client: what acceptClientConnection gives, the first recv on the connection, whether buildClient
-- reaches its server, and what the connections bring then.
pub record Client : Type 0 where
  pub accepted : Opened
  pub first : Recv
  pub connected : Bool
  pub traffic : Traffic

-- recv on the descriptor -1 fails.
abbrev pub first_recv : Opened → Recv → Recv
first_recv (opened fd) r = r
first_recv minus_one r = failed
first_recv ended r = failed

abbrev pub note_failure : Opened → Action Unit
note_failure (opened fd) = λ s. done tt s
note_failure minus_one = note no_client
note_failure ended = note no_client

-- A round up to pthread_create. The result of accept is passed on whatever it is.
unfoldable pub accept_round : Opened → ℕ → Action ClientContext
accept_round fd id = do
  _ ← note_failure fd
  _ ← lock
  _ ← unlock
  λ s. done (record { id = id; fd = fd }) s

unfoldable pub serve_client : World → Header → Client → ℕ → Action Unit
serve_client world fresh c id = do
  context ← accept_round c.accepted id
  handle_request world fresh c.connected (first_recv context.fd c.first) context.id c.traffic

unfoldable pub serve_clients : World → Header → List Client → ℕ → Action Unit
serve_clients world fresh [] id = λ s. done tt s
serve_clients world fresh (c ∷ cs) id = do
  _ ← serve_client world fresh c id
  serve_clients world fresh cs (suc id)

-- run, on the result of startServer and the clients that come. The loop is entered whatever that
-- result is.
unfoldable pub run : World → Header → Opened → List Client → Action Unit
run world fresh (opened fd) cs = serve_clients world fresh cs 0
run world fresh minus_one cs = do _ ← note not_listening; serve_clients world fresh cs 0
run world fresh ended cs = λ s. crashed
