-- ===== src/Proxy/Tunnel.antt =====
-- What handleConnectRequest and receiveWithContentLength of proxy.cpp,
-- project2_HTTPproxy/docker-deploy/src, pass on.
use duke_ece.Prelude.{
  zero, suc, All, ℕ, ◌≡◌, ◌≤◌, ◌∙◌, refl, sym, ap, subst, false, List, [], ◌∷◌, ◌++◌, some, none,
  length, ltb, length-append, arith, Bool-cases, inl, inr,
}
use duke_ece.Proxy.Text.{Text, take_bytes}
use duke_ece.Proxy.Process.{Peer, client, server, Process}
use duke_ece.Proxy.Relay.{Recv, got, closed, failed, content, receive_with_content_length, Ready}

-- The bytes for one side among the messages.
abbrev pub sent_to : Peer → List (Peer × Text) → Text
sent_to client [] = []
sent_to server [] = []
sent_to client ((client, text) ∷ messages) = text ++ sent_to client messages
sent_to client ((server, text) ∷ messages) = sent_to client messages
sent_to server ((client, text) ∷ messages) = sent_to server messages
sent_to server ((server, text) ∷ messages) = text ++ sent_to server messages

-- What goes on of the bytes that a connection brings in a round: those that the `send` takes.
abbrev pub passed : Ready → Text
passed none = []
passed (some (closed, n)) = []
passed (some (failed, n)) = []
passed (some (got d ds, n)) = take_bytes n (d ∷ ds)

-- All that goes on of the server's bytes, and of the client's.
abbrev pub server_bytes : List (Ready × Ready) → Text
server_bytes [] = []
server_bytes ((from_server, from_client) ∷ rounds) = passed from_server ++ server_bytes rounds

abbrev pub client_bytes : List (Ready × Ready) → Text
client_bytes [] = []
client_bytes ((from_server, from_client) ∷ rounds) = passed from_client ++ client_bytes rounds

-- The connection is not ready, or brings bytes of which a `send` takes at least one.
abbrev pub Flows : Ready → Type 0
Flows none = Unit {0}
Flows (some (got d ds, zero)) = ⊥
Flows (some (got d ds, suc n)) = Unit {0}
Flows (some (closed, n)) = ⊥
Flows (some (failed, n)) = ⊥

abbrev pub Over : Recv → Type 0
Over (got d ds) = ⊥
Over closed = Unit {0}
Over failed = Unit {0}

-- The first connection that is ready has ended.
abbrev pub Closes : Ready × Ready → Type 0
Closes (some (r, n), from_client) = Over r
Closes (none, some (r, n)) = Over r
Closes (none, none) = ⊥

pub append_assoc : (xs ys zs : Text) → (xs ++ ys) ++ zs ≡ xs ++ (ys ++ zs)
append_assoc [] ys zs = refl
append_assoc (x ∷ xs) ys zs = ap (◌∷◌ x) (append_assoc xs ys zs)

pub append_nil : (xs : Text) → xs ++ [] ≡ xs
append_nil [] = refl
append_nil (x ∷ xs) = ap (◌∷◌ x) (append_nil xs)

pub sent_to-append :
    (to : Peer) (xs ys : List (Peer × Text))
    → sent_to to (xs ++ ys) ≡ sent_to to xs ++ sent_to to ys
sent_to-append client [] ys = refl
sent_to-append server [] ys = refl
sent_to-append client ((client, text) ∷ xs) ys =
    ap (◌++◌ text) (sent_to-append client xs ys) ∙ sym (append_assoc text _ _)
sent_to-append client ((server, text) ∷ xs) ys = sent_to-append client xs ys
sent_to-append server ((client, text) ∷ xs) ys = sent_to-append server xs ys
sent_to-append server ((server, text) ∷ xs) ys =
    ap (◌++◌ text) (sent_to-append server xs ys) ∙ sym (append_assoc text _ _)

-- What serving one connection adds for each side.
gains : Peer → Peer → Ready → Text
gains client server r = passed r
gains server client r = passed r
gains client client r = []
gains server server r = []

-- All that the rounds add for one side.
bytes_for : Peer → List (Ready × Ready) → Text
bytes_for client rounds = server_bytes rounds
bytes_for server rounds = client_bytes rounds

abbrev pub AllFlow : List (Ready × Ready) → Type 0
AllFlow rounds = All (λ r. Flows r.0 × Flows r.1) rounds

abbrev pub gets : List (ℕ × Text) → List Recv
gets [] = []
gets ((d, ds) ∷ chunks) = got d ds ∷ gets chunks

abbrev pub joined : List (ℕ × Text) → Text
joined [] = []
joined ((d, ds) ∷ chunks) = (d ∷ ds) ++ joined chunks

-- Where the pieces that come in hold enough bytes, receiving ends with at least as many as were asked
-- for, which are the first of those that came in.
pub receive_with_content_length-gets :
    (n : ℕ) (chunks : List (ℕ × Text)) (acc : Text)
    → n ≤ length (acc ++ joined chunks)
    → (text : Text) × (receive_with_content_length n (gets chunks) acc ≡ content text)
      × (n ≤ length text)
      × ((later : Text) × (text ++ later ≡ acc ++ joined chunks))
unfolding receive_with_content_length
receive_with_content_length-gets n [] acc h =
    let enough : n ≤ length acc = omega (arith, h, length-append acc []) in
    let full : ltb (length acc) n ≡ false = ground arith in (acc, rw full refl, enough, ([], refl))
receive_with_content_length-gets n ((d, ds) ∷ chunks) acc h =
    elim (Bool-cases (ltb (length acc) n)) [
      | inr full ↦ (acc, rw full refl, ground arith, (joined ((d, ds) ∷ chunks), refl))
      | inl more ↦
          let moved : (acc ++ d ∷ ds) ++ joined chunks ≡ acc ++ ((d ∷ ds) ++ joined chunks) =
            append_assoc acc (d ∷ ds) (joined chunks) in
          let (text, e, enough, (later, p)) =
            receive_with_content_length-gets n chunks (acc ++ d ∷ ds)
              (subst (λ t. n ≤ length t) (sym moved) h) in
          (text, rw more e, enough, (later, p ∙ moved))
    ]
