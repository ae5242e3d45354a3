-- ===== src/Ups/Rule.antt =====
-- How a property of the state is carried through the handlers of
-- project5_miniUPS/docker-deploy/backend.
use duke_ece.Prelude.{ℕ, Bool, true, false, List, [], ◌∷◌, Bool-cases, inl, inr}
use duke_ece.Ups.State.{
  Ups, Message, Other, acked, took_number, failed_sending, Round, Outcome, done, waits, crashed,
  ◌>>=◌, contains,
}
use duke_ece.Ups.Send.{
  send, handle_ack, handle_other, handle_others, round, Peer, world, amazon, attempt, send_loop,
}

-- The property holds of the state in which the handler ends, if it ends.
abbrev pub Ends : (Ups → Type 0) → Outcome → Type 0
Ends P (done s) = P s
Ends P waits = Unit {0}
Ends P crashed = Unit {0}

pub Ends-bind :
    (P Q : Ups → Type 0) (o : Outcome) (f : Ups → Outcome)
    → Ends P o
    → ((s : Ups) → P s → Ends Q (f s))
    → Ends Q (o >>= f)
Ends-bind P Q (done s) f h k = k s h
Ends-bind P Q waits f h k = tt
Ends-bind P Q crashed f h k = tt

module _ (P : Ups → Type 0)
    (wait : (s : Ups) (w : List ℕ) (n : ℕ) → P s → P (record s { waiting = w; seqnum = n })) where
  handle_others-keeps : (os : List Other) (s : Ups) → P s → P (handle_others os s)
  unfolding handle_others handle_other handle_ack
  handle_others-keeps [] s p = p
  handle_others-keeps (acked seq ∷ os) s p = handle_others-keeps os _ (wait s _ _ p)
  handle_others-keeps (took_number ∷ os) s p = handle_others-keeps os _ (wait s _ _ p)
  handle_others-keeps (failed_sending ∷ os) s p = handle_others-keeps os _ (wait s _ _ p)

  module _ (m : Message) (sends : (s : Ups) → P s → P (send m s)) where
    attempt-keeps : (to : Peer) (well : Bool) (s : Ups) → P s → P (attempt to well m s)
    unfolding attempt
    attempt-keeps to true s p = sends s p
    attempt-keeps world false s p = wait s _ _ p
    attempt-keeps amazon false s p = p

    -- What sending the message, and changing the set of numbers and the next number, keep, a send loop keeps.
    pub send_loop-Ends :
        (to : Peer) (rounds : List Round) (s : Ups) → P s → Ends P (send_loop to rounds m s)
    unfolding send_loop round
    send_loop-Ends to [] s p = tt
    send_loop-Ends to (r ∷ rounds) s p =
        let after = round to r m s in
        let q : P after =
          handle_others-keeps r.meanwhile _
            (attempt-keeps to r.sent_well _ (handle_others-keeps r.before s p)) in
        elim (Bool-cases (contains after.seqnum after.waiting)) [
          | inl again ↦ rw again (send_loop-Ends to rounds after q)
          | inr ended ↦ rw ended q
        ]

pub Ends-imp : (P Q : Ups → Type 0) (o : Outcome) → ((s : Ups) → P s → Q s) → Ends P o → Ends Q o
Ends-imp P Q (done s) f h = f s h
Ends-imp P Q waits f h = tt
Ends-imp P Q crashed f h = tt
