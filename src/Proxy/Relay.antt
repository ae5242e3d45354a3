-- ===== src/Proxy/Relay.antt =====
-- receiveWithContentLength, handleConnectRequest and check502Response of proxy.cpp,
-- project2_HTTPproxy/docker-deploy/src.
use duke_ece.Prelude.{
  ℕ, zero, suc, Bool, true, false, List, [], ◌∷◌, ◌++◌, Option, some, none, if◌then◌else◌, length,
  ltb,
}
use duke_ece.Proxy.Text.{Text, bytes, occurs, take_bytes}
use duke_ece.Proxy.Process.{
  bad_gateway, tunnel_open, Peer, client, server, Process, done, Action, ◌>>=◌, note, send,
}

-- A call of `recv`: some bytes, the end of the connection, or an error.
pub data Recv : Type 0 where
  got : (first : ℕ) → Text → Recv
  closed failed : Recv

-- `waiting`: the loop waits for another `recv`.
pub data Received : Type 0 where
  content : Text → Received
  threw waiting : Received

unfoldable pub receive_with_content_length : ℕ → List Recv → Text → Received
receive_with_content_length n [] acc = if ltb (length acc) n then waiting else content acc
receive_with_content_length n (got d ds ∷ calls) acc =
    let more = receive_with_content_length n calls (acc ++ d ∷ ds) in
    if ltb (length acc) n then more else content acc
receive_with_content_length n (closed ∷ calls) acc = content acc
receive_with_content_length n (failed ∷ calls) acc =
    if ltb (length acc) n then threw else content acc

abbrev pub other : Peer → Peer
other client = server
other server = client

-- What `select` and `recv` give for one connection in a round, and how many bytes the `send` to the
-- other one takes, 0 where it fails; `none` where the connection is not ready.
abbrev pub Ready : Type 0
Ready = Option (Recv × ℕ)

-- The body of the loop over the two connections: whether it goes on, and the state. What a `send` does
-- not take is lost.
unfoldable pub relay : Peer → Ready → Process → Bool × Process
relay source none s = (true, s)
relay source (some (closed, _)) s = (false, s)
relay source (some (failed, _)) s = (false, s)
relay source (some (got d ds, zero)) s = (false, s)
relay source (some (got d ds, suc n)) s =
    (true, record s { sent = s.sent ++ (other source, take_bytes (suc n) (d ∷ ds)) ∷ [] })

unfoldable pub relay_round : Ready × Ready → Process → Bool × Process
relay_round (from_server, from_client) s =
    let (continues, after) = relay server from_server s in
    let second = relay client from_client after in if continues then second else (false, after)

-- The state that the tunnel has reached after the rounds, or in which it ended before.
unfoldable pub tunnel : List (Ready × Ready) → Process → Process
tunnel [] s = s
tunnel (r ∷ rounds) s =
    let (continues, after) = relay_round r s in
    let rest = tunnel rounds after in if continues then rest else after

abbrev pub crlf : Text
crlf = 13 ∷ 10 ∷ []

abbrev pub ok_response : Text
ok_response = bytes "HTTP/1.1 200 OK" ++ crlf ++ crlf

unfoldable pub handle_connect_request : ℕ → List (Ready × Ready) → Action Unit
handle_connect_request id rounds = do
  _ ← send client ok_response
  _ ← note (tunnel_open id)
  λ s. done tt (tunnel rounds s)

unfoldable pub check_502_response : Text → ℕ → Action Unit
check_502_response message id s =
    if occurs (crlf ++ crlf) message
    then done tt s
    else (send client (bytes "HTTP/1.1 502 Bad Gateway") >>= λ _. note (bad_gateway id)) s
