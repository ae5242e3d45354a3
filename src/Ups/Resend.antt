-- ===== src/Ups/Resend.antt =====
-- How the send loops of project5_miniUPS/docker-deploy/backend end: their test looks for
-- seqnumGlobal, the number after the message's own, in waitingForAckSet.
use duke_ece.Prelude.{
  ℕ, suc, ◌≡◌, ◌∙◌, refl, ap, sym, Bool, true, false, List, [], ◌∷◌, arith, Bool-cases, inl, inr,
  ◌==◌, ==_self, All, if◌then◌else◌,
}
use duke_ece.Ups.State.{
  Ups, Message, go_pickup, Other, acked, took_number, failed_sending, Round, Env, done, waits,
  contains, insert, erase, to_int,
}
use duke_ece.Ups.Send.{
  handle_ack, handle_other, handle_others, round, Peer, world, amazon, attempt, send_loop,
  next_seqnum, await_seqnum,
}
use duke_ece.Ups.Amazon.{order_pickup}

-- Another thread leaves the number `k` where it is: it takes no number, and handles no ack for `k`.
abbrev pub Quiet : ℕ → Other → Type 0
Quiet k (acked seq) = (to_int seq == k) ≡ false
Quiet k took_number = ⊥
Quiet k failed_sending = Unit {0}

contains-erase_other :
    (k a : ℕ) (xs : List ℕ) → (a == k) ≡ false → contains k (erase a xs) ≡ contains k xs
unfolding contains erase
contains-erase_other k a [] apart = refl
contains-erase_other k a (x ∷ xs) apart =
    let rest = contains-erase_other k a xs apart in ground arith

contains-insert : (k : ℕ) (xs : List ℕ) → contains k (insert k xs) ≡ true
unfolding contains insert
contains-insert k xs = elim (Bool-cases (contains k xs)) [
  | inl old ↦ rw (old, insert) old
  | inr new ↦ rw (new, insert, ==_self k)
]

abbrev Waiting : ℕ → Ups → Type 0
Waiting k s = (s.seqnum ≡ k) × (contains k s.waiting ≡ true)

insert-keeps : (k x : ℕ) (xs : List ℕ) → contains k xs ≡ true → contains k (insert x xs) ≡ true
unfolding contains insert
insert-keeps k x xs e = ground arith

handle_other-Waiting :
    (k : ℕ) (o : Other) (s : Ups) → Quiet k o → Waiting k s → Waiting k (handle_other o s)
unfolding handle_other handle_ack
handle_other-Waiting k (acked seq) s quiet (e, there) =
    (e, contains-erase_other k (to_int seq) s.waiting quiet ∙ there)
handle_other-Waiting k took_number s quiet h = absurd quiet
handle_other-Waiting k failed_sending s quiet (e, there) =
    (e, insert-keeps k s.seqnum s.waiting there)

handle_others-Waiting :
    (k : ℕ) (os : List Other) (s : Ups)
    → All (Quiet k) os
    → Waiting k s
    → Waiting k (handle_others os s)
unfolding handle_others
handle_others-Waiting k [] s quiet h = h
handle_others-Waiting k (o ∷ os) s (now, later) h =
    handle_others-Waiting k os (handle_other o s) later (handle_other-Waiting k o s now h)

-- Before the number has entered the set, other threads leave it the next one.
handle_others-seqnum :
    (k : ℕ) (os : List Other) (s : Ups) → All (Quiet k) os → (handle_others os s).seqnum ≡ s.seqnum
unfolding handle_others handle_other handle_ack
handle_others-seqnum k [] s quiet = refl
handle_others-seqnum k (acked seq ∷ os) s (now, later) = handle_others-seqnum k os _ later
handle_others-seqnum k (took_number ∷ os) s (now, later) = absurd now
handle_others-seqnum k (failed_sending ∷ os) s (now, later) = handle_others-seqnum k os _ later

attempt-Waiting :
    (k : ℕ) (to : Peer) (well : Bool) (m : Message) (s : Ups)
    → Waiting k s
    → Waiting k (attempt to well m s)
unfolding attempt
attempt-Waiting k to true m s h = h
attempt-Waiting k world false m s (e, there) = (e, insert-keeps k s.seqnum s.waiting there)
attempt-Waiting k amazon false m s h = h

abbrev pub QuietRound : ℕ → Round → Type 0
QuietRound k r = All (Quiet k) r.before × All (Quiet k) r.meanwhile

round-Waiting :
    (k : ℕ) (to : Peer) (r : Round) (m : Message) (s : Ups)
    → QuietRound k r
    → Waiting k s
    → Waiting k (round to r m s)
unfolding round
round-Waiting k to r m s (before, meanwhile) h =
    handle_others-Waiting k r.meanwhile _ meanwhile
      (attempt-Waiting k to r.sent_well m _ (handle_others-Waiting k r.before s before h))

-- A failed call to the world enters the next number.
failed-Waiting :
    (r : Round) (m : Message) (s : Ups)
    → r.sent_well ≡ false
    → QuietRound s.seqnum r
    → Waiting s.seqnum (round world r m s)
unfolding round attempt
failed-Waiting r m s failed (before, meanwhile) =
    let s₁ = handle_others r.before s in
    let e : s₁.seqnum ≡ s.seqnum = handle_others-seqnum s.seqnum r.before s before in
    let entered : Waiting s.seqnum (await_seqnum s₁) = (
      e,
      ap (λ n. contains n (insert s₁.seqnum s₁.waiting)) (sym e)
          ∙ contains-insert s₁.seqnum s₁.waiting,
    ) in
    let tried : Waiting s.seqnum (attempt world r.sent_well m s₁) = rw failed entered in
    handle_others-Waiting s.seqnum r.meanwhile _ meanwhile tried

again_waits :
    (to : Peer) (rounds : List Round) (m : Message) (s after : Ups)
    → contains after.seqnum after.waiting ≡ true
    → send_loop to rounds m after ≡ waits
    → (if contains after.seqnum after.waiting then send_loop to rounds m after else done after)
      ≡ waits
again_waits to rounds m s after e ih = rw e ih

send_loop_waits :
    (k : ℕ) (to : Peer) (rounds : List Round) (m : Message) (s : Ups)
    → All (QuietRound k) rounds
    → Waiting k s
    → send_loop to rounds m s ≡ waits
unfolding send_loop
send_loop_waits k to [] m s quiet h = refl
send_loop_waits k to (r ∷ rounds) m s (now, later) h =
    let (e, there) : Waiting k (round to r m s) = round-Waiting k to r m s now h in
    again_waits to rounds m s (round to r m s)
      (ap (λ n. contains n (round to r m s).waiting) e ∙ there)
      (send_loop_waits k to rounds m (round to r m s) later (e, there))

failed_waits :
    (r : Round) (rounds : List Round) (m : Message) (s : Ups)
    → r.sent_well ≡ false
    → All (QuietRound s.seqnum) (r ∷ rounds)
    → send_loop world (r ∷ rounds) m s ≡ waits
unfolding send_loop
failed_waits r rounds m s failed (now, later) =
    let (e, there) : Waiting s.seqnum (round world r m s) = failed-Waiting r m s failed now in
    again_waits world rounds m s (round world r m s)
      (ap (λ n. contains n (round world r m s).waiting) e ∙ there)
      (send_loop_waits s.seqnum world rounds m (round world r m s) later (e, there))

-- A pickup order whose first sending fails is never over, however many rounds follow, while no other
-- thread takes a number and no ack for the *next* number comes in: the failed call has put that number
-- into the set, and an ack for the order itself does not take it out.
pub order_pickup_waits :
    (env : Env) (truck wh : ℕ) (s : Ups) (r : Round) (rounds : List Round)
    → env.rounds s.seqnum ≡ r ∷ rounds
    → r.sent_well ≡ false
    → All (QuietRound (suc s.seqnum)) (r ∷ rounds)
    → order_pickup env truck wh s ≡ waits
unfolding order_pickup
order_pickup_waits env truck wh s r rounds given failed quiet =
    rw given (failed_waits r rounds (go_pickup truck wh s.seqnum) (next_seqnum s) failed quiet)
