-- ===== src/Proxy/Post.antt =====
-- handlePOSTRequest of proxy.cpp, project2_HTTPproxy/docker-deploy/src.
use duke_ece.Prelude.{ℕ, suc, zero, List, [], ◌∷◌}
use duke_ece.Prelude.Int.{ℤ, pos, negsuc}
use duke_ece.Proxy.Text.{Text}
use duke_ece.Proxy.Process.{
  received_line, responding, client, done, blocked, crashed, Action, ◌>>=◌, note, send,
}
use duke_ece.Proxy.Relay.{
  Recv, got, closed, failed, Received, content, threw, waiting, receive_with_content_length,
}
use duke_ece.Proxy.Response.{parse_status_line}
use duke_ece.Proxy.Fetch.{get_length}

-- What the server sends. The status line in the log is that of the request. A length of -1, from an
-- error, is none that `send` can be given.
unfoldable pub answer_post : Text → ℕ → Recv → Action Unit
answer_post request id closed s = done tt s
answer_post request id failed s = crashed
answer_post request id (got d ds) s =
    (note (received_line id (parse_status_line request)) >>= λ _.
    send client (d ∷ ds) >>= λ _. note (responding id (parse_status_line request)))
      s

-- The exception of receiveWithContentLength is caught, and ends the call.
unfoldable pub after_body : Text → ℕ → Recv → Received → Action Unit
after_body request id reply (content text) s = answer_post request id reply s
after_body request id reply threw s = done tt s
after_body request id reply waiting s = blocked

-- The rest of the request is read from the client; -1 is an unknown length, and any other negative
-- number fails the assertion of receiveWithContentLength.
unfoldable pub with_length : Text → ℕ → List Recv → Recv → ℤ → Action Unit
with_length request id calls reply (pos n) s =
    after_body request id reply (receive_with_content_length n calls []) s
with_length request id calls reply (negsuc zero) s = done tt s
with_length request id calls reply (negsuc (suc n)) s = crashed

unfoldable pub handle_post_request : Text → ℕ → List Recv → Recv → Action Unit
handle_post_request request id calls reply =
    get_length request >>= with_length request id calls reply
