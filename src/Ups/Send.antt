-- ===== src/Ups/Send.antt =====
-- message.cpp, the receipt tests and the ack handlers of handleworld.cpp and handleamazon.cpp, and the
-- loops in which they send: project5_miniUPS/docker-deploy/backend.
use duke_ece.Prelude.{ℕ, suc, String, Bool, true, false, List, [], ◌∷◌, ◌++◌, if◌then◌else◌}
use duke_ece.Prelude.Int.{ℤ}
use duke_ece.Ups.State.{
  Message, world_ack, amazon_ack, change_addr, Ups, Other, acked, took_number, failed_sending,
  Round, Env, Outcome, done, waits, to_int, contains, insert, erase,
}

-- hasReceivedMessage and hasReceivedMessageW, which share receivedSeqSet.
unfoldable pub has_received : ℕ → Ups → Bool × Ups
has_received seq s =
    if contains (to_int seq) s.received
    then (true, s)
    else (false, record s { received = insert (to_int seq) s.received })

abbrev pub send : Message → Ups → Ups
send m s = record s { sent = s.sent ++ m ∷ [] }

unfoldable pub send_amazon_ack : ℕ → Ups → Ups
send_amazon_ack seq s = send (amazon_ack seq) s

unfoldable pub send_world_ack : ℕ → Ups → Ups
send_world_ack seq s = send (world_ack seq) s

-- handleWorldArc and handleAmazondArc.
unfoldable pub handle_ack : ℕ → Ups → Ups
handle_ack seq s = record s { waiting = erase (to_int seq) s.waiting }

unfoldable pub handle_acks : List ℕ → Ups → Ups
handle_acks [] s = s
handle_acks (seq ∷ seqs) s = handle_acks seqs (handle_ack seq s)

-- `seqnumGlobal++`.
abbrev pub next_seqnum : Ups → Ups
next_seqnum s = record s { seqnum = suc s.seqnum }

-- `waitingForAckSet.insert(seqnumGlobal)`: the *next* number enters the set.
abbrev pub await_seqnum : Ups → Ups
await_seqnum s = record s { waiting = insert s.seqnum s.waiting }

unfoldable pub handle_other : Other → Ups → Ups
handle_other (acked seq) s = handle_ack seq s
handle_other took_number s = next_seqnum s
handle_other failed_sending s = await_seqnum s

unfoldable pub handle_others : List Other → Ups → Ups
handle_others [] s = s
handle_others (o ∷ os) s = handle_others os (handle_other o s)

-- Whom a message is for: only a failed call to the world enters waitingForAckSet.
pub data Peer : Type 0 where
  world amazon : Peer

-- The call of one round.
unfoldable pub attempt : Peer → Bool → Message → Ups → Ups
attempt to true m s = send m s
attempt world false m s = await_seqnum s
attempt amazon false m s = s

-- One round up to the test.
unfoldable pub round : Peer → Round → Message → Ups → Ups
round to r m s = handle_others r.meanwhile (attempt to r.sent_well m (handle_others r.before s))

-- `do { ... sleep(7); } while (!(waitingForAckSet.find(seqnumGlobal) == waitingForAckSet.end()))`.
unfoldable pub send_loop : Peer → List Round → Message → Ups → Outcome
send_loop to [] m s = waits
send_loop to (r ∷ rounds) m s =
    let after = round to r m s in
    let again = send_loop to rounds m after in
    if contains after.seqnum after.waiting then again else done after

unfoldable pub send_addr_change : Env → ℤ → ℤ → String → Ups → Outcome
send_addr_change env x y tracking s =
    let n = s.seqnum in send_loop amazon (env.rounds n) (change_addr tracking x y n) (next_seqnum s)
