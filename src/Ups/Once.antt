-- ===== src/Ups/Once.antt =====
-- Messages whose number was received before, in the handlers of handleamazon.cpp and handleworld.cpp,
-- project5_miniUPS/docker-deploy/backend.
use duke_ece.Prelude.{
  ℕ, ◌≡◌, refl, sym, subst, true, List, [], ◌∷◌, some, arith, Bool-cases, Option-cases, inl, inr,
  str_eq, ==_self, find_first,
}
use duke_ece.Ups.State.{Package, Round, Ups, Message, Env, done, contains, insert, to_int}
use duke_ece.Ups.Send.{
  Peer, has_received, send_amazon_ack, send_world_ack, send_loop, next_seqnum, send_addr_change,
  world, amazon,
}
use duke_ece.Ups.Trucks.{get_truck}
use duke_ece.Ups.Amazon.{
  NeedTruck, TruckCanGo, Pack, handle_need_truck, pick_up, insert_package, insert_delivery,
  order_pickup, handle_truck_can_go, go, start_delivery, send_addr_changes, order_delivery,
  same_key, known_user, moved,
}
use duke_ece.Ups.World.{
  DeliveryMade, Finished, handle_delivery_made, deliver, record_first, record_delivery,
  handle_finish_all, finish_all, handle_arrived, arrive, arrive_tables, handle_completion,
}
use duke_ece.Ups.Rule.{Ends, Ends-imp, Ends-bind, send_loop-Ends}

abbrev pub Received : ℕ → Ups → Type 0
Received k s = contains k s.received ≡ true

contains-insert_self : (k : ℕ) (xs : List ℕ) → contains k (insert k xs) ≡ true
unfolding insert contains
contains-insert_self k xs = elim (Bool-cases (contains k xs)) [
  | inl old ↦ rw (old, insert) old
  | inr new ↦ rw (new, insert, ==_self k)
]

get_truck-received :
    (env : Env) (s s' : Ups) (id : ℕ) → get_truck env s ≡ some (id, s') → s'.received ≡ s.received
unfolding get_truck
get_truck-received env s s' id e = ground arith

module _ (k : ℕ) where
  loop-Received :
      (to : Peer) (rounds : List Round) (m : Message) (s : Ups)
      → Received k s
      → Ends (Received k) (send_loop to rounds m s)
  loop-Received to rounds m s h =
      send_loop-Ends (Received k) (λ _ _ _ p. p) m (λ _ p. p) to rounds s h

  insert_package-Received :
      (p : Pack) (truck : ℕ) (s : Ups) → Received k s → Ends (Received k) (insert_package p truck s)
  unfolding insert_package
  insert_package-Received p truck s h = elim (Option-cases (find_first (same_key p) s.packages)) [
    | inr (q, taken) ↦ rw (taken, insert_package) tt
    | inl fresh ↦ elim (Bool-cases (known_user p.upsaccount s.users)) [
      | inl known ↦ rw (fresh, known, insert_package) h
      | inr stranger ↦ rw (fresh, stranger, insert_package) tt
    ]
  ]

  pick_up-Received :
      (env : Env) (m : NeedTruck) (s : Ups) → Received k s → Ends (Received k) (pick_up env m s)
  unfolding pick_up order_pickup insert_delivery send_amazon_ack
  pick_up-Received env m s h = elim (Option-cases (get_truck env (send_amazon_ack m.seqnum s))) [
    | inl none_free ↦ rw (none_free, pick_up) tt
    | inr ((truck, s₁), got) ↦
        rw (got, pick_up)
          (Ends-bind (Received k) (Received k) (insert_package m.pack truck s₁) _
            (insert_package-Received m.pack truck s₁ (rw (get_truck-received env _ s₁ truck got) h))
            (λ s₂ r. loop-Received world _ _ _ r))
  ]

  changes-Received :
      (env : Env) (rows : List Package) (s : Ups)
      → Received k s
      → Ends (Received k) (send_addr_changes env rows s)
  unfolding send_addr_changes send_addr_change
  changes-Received env [] s h = h
  changes-Received env (p ∷ rows) s h = elim (Bool-cases (moved p)) [
    | inl yes_moved ↦ rw yes_moved (
        Ends-bind (Received k) (Received k) _ _ (loop-Received amazon _ _ (next_seqnum s) h)
          (changes-Received env rows))
    | inr stayed ↦ rw stayed (changes-Received env rows s h)
  ]

  go-Received :
      (env : Env) (m : TruckCanGo) (s : Ups) → Received k s → Ends (Received k) (go env m s)
  unfolding go order_delivery start_delivery send_amazon_ack
  go-Received env m s h =
      Ends-bind (Received k) (Received k) _ _ (changes-Received env _ _ h)
        (λ s₁ r. loop-Received world _ _ s₁ r)

  record_first-Received :
      (env : Env) (truck : ℕ) (rows : List Package) (s : Ups)
      → Received k s
      → Received k (record_first env truck rows s)
  unfolding record_first record_delivery
  record_first-Received env truck [] s h = h
  record_first-Received env truck (p ∷ _) s h = h

  deliver-Received :
      (env : Env) (m : DeliveryMade) (s : Ups) → Received k s → Ends (Received k) (deliver env m s)
  unfolding deliver send_world_ack
  deliver-Received env m s h =
      loop-Received amazon _ _ _
        (record_first-Received env m.truckid _ (send_world_ack m.seqnum s) h)

  arrive-Received :
      (env : Env) (m : Finished) (s : Ups) → Received k s → Ends (Received k) (arrive env m s)
  unfolding arrive arrive_tables send_world_ack
  arrive-Received env m s h = loop-Received amazon _ _ _ h

-- The state in which a handler of a new message works.
abbrev noted : ℕ → Ups → Ups
noted seq s = record s { received = insert (to_int seq) s.received }

noted-Received : (seq : ℕ) (s : Ups) → Received (to_int seq) (noted seq s)
noted-Received seq s = contains-insert_self (to_int seq) s.received

need-Received :
    (env : Env) (m : NeedTruck) (s : Ups)
    → Ends (Received (to_int m.seqnum)) (handle_need_truck env m s)
unfolding handle_need_truck has_received
need-Received env m s = elim (Bool-cases (contains (to_int m.seqnum) s.received)) [
  | inl old ↦ rw (old, has_received) old
  | inr new ↦
      rw (new, has_received)
        (pick_up-Received (to_int m.seqnum) env m (noted m.seqnum s) (noted-Received m.seqnum s))
]

can_go-Received :
    (env : Env) (m : TruckCanGo) (s : Ups)
    → Ends (Received (to_int m.seqnum)) (handle_truck_can_go env m s)
unfolding handle_truck_can_go has_received
can_go-Received env m s = elim (Bool-cases (contains (to_int m.seqnum) s.received)) [
  | inl old ↦ rw (old, has_received) old
  | inr new ↦
      rw (new, has_received)
        (go-Received (to_int m.seqnum) env m (noted m.seqnum s) (noted-Received m.seqnum s))
]

made-Received :
    (env : Env) (m : DeliveryMade) (s : Ups)
    → Ends (Received (to_int m.seqnum)) (handle_delivery_made env m s)
unfolding handle_delivery_made has_received
made-Received env m s = elim (Bool-cases (contains (to_int m.seqnum) s.received)) [
  | inl old ↦ rw (old, has_received) old
  | inr new ↦
      rw (new, has_received)
        (deliver-Received (to_int m.seqnum) env m (noted m.seqnum s) (noted-Received m.seqnum s))
]

finish-Received :
    (m : Finished) (s : Ups) → Ends (Received (to_int m.seqnum)) (handle_finish_all m s)
unfolding handle_finish_all has_received finish_all send_world_ack
finish-Received m s = elim (Bool-cases (contains (to_int m.seqnum) s.received)) [
  | inl old ↦ rw (old, has_received) old
  | inr new ↦ rw (new, has_received) (noted-Received m.seqnum s)
]

arrived-Received :
    (env : Env) (m : Finished) (s : Ups)
    → Ends (Received (to_int m.seqnum)) (handle_arrived env m s)
unfolding handle_arrived has_received
arrived-Received env m s = elim (Bool-cases (contains (to_int m.seqnum) s.received)) [
  | inl old ↦ rw (old, has_received) old
  | inr new ↦
      rw (new, has_received)
        (arrive-Received (to_int m.seqnum) env m (noted m.seqnum s) (noted-Received m.seqnum s))
]

completion-Received :
    (env : Env) (m : Finished) (s : Ups)
    → Ends (Received (to_int m.seqnum)) (handle_completion env m s)
unfolding handle_completion
completion-Received env m s = elim (Bool-cases (str_eq m.status "IDLE")) [
  | inl idle ↦ rw idle (finish-Received m s)
  | inr busy ↦ rw busy (arrived-Received env m s)
]

-- A message whose number, as an int, was received before, from either side, changes nothing and is
-- not even acknowledged.
pub repeat_ignored :
    (env : Env) (seq : ℕ) (s : Ups)
    → Received (to_int seq) s
    → ((pack : Pack) → handle_need_truck env (record { pack = pack; seqnum = seq }) s ≡ done s)
      × ((truck : ℕ)
          → handle_truck_can_go env (record { truckid = truck; seqnum = seq }) s ≡ done s)
      × ((truck id : ℕ)
          → handle_delivery_made env (record { truckid = truck; packageid = id; seqnum = seq }) s
            ≡ done s)
      × ((m : Finished) → m.seqnum ≡ seq → handle_completion env m s ≡ done s)
unfolding handle_need_truck handle_truck_can_go handle_delivery_made handle_completion
    handle_finish_all handle_arrived has_received
repeat_ignored env seq s h = (
  λ pack. rw (h, has_received),
  λ truck. rw (h, has_received),
  λ truck id. rw (h, has_received),
  λ m e. elim (Bool-cases (str_eq m.status "IDLE")) [
    | inl idle ↦ rw (idle, e, h, has_received)
    | inr busy ↦ rw (busy, e, h, has_received)
  ],
)

-- Handling a message a second time changes nothing: each handler that ends leaves a state on which
-- the same message has no effect.
pub handled_once :
    (env : Env) (s : Ups)
    → ((m : NeedTruck)
        → Ends (λ s'. handle_need_truck env m s' ≡ done s') (handle_need_truck env m s))
      × ((m : TruckCanGo)
          → Ends (λ s'. handle_truck_can_go env m s' ≡ done s') (handle_truck_can_go env m s))
      × ((m : DeliveryMade)
          → Ends (λ s'. handle_delivery_made env m s' ≡ done s') (handle_delivery_made env m s))
      × ((m : Finished)
          → Ends (λ s'. handle_completion env m s' ≡ done s') (handle_completion env m s))
handled_once env s = (
  λ m.
      Ends-imp _ _ (handle_need_truck env m s) (λ s' r. (repeat_ignored env m.seqnum s' r).0 m.pack)
        (need-Received env m s),
  λ m.
      Ends-imp _ _ (handle_truck_can_go env m s)
        (λ s' r. (repeat_ignored env m.seqnum s' r).1 m.truckid) (can_go-Received env m s),
  λ m.
      Ends-imp _ _ (handle_delivery_made env m s)
        (λ s' r. (repeat_ignored env m.seqnum s' r).2 m.truckid m.packageid)
        (made-Received env m s),
  λ m.
      Ends-imp _ _ (handle_completion env m s) (λ s' r. (repeat_ignored env m.seqnum s' r).3 m refl)
        (completion-Received env m s),
)

-- The two peers number their messages on their own, but share one set here: after a request from
-- Amazon, a delivery report from the world under the same number is lost. It is neither acknowledged
-- nor recorded.
pub report_lost :
    (env : Env) (m : NeedTruck) (d : DeliveryMade) (s : Ups)
    → d.seqnum ≡ m.seqnum
    → Ends (λ s'. handle_delivery_made env d s' ≡ done s') (handle_need_truck env m s)
report_lost env m d s e =
    Ends-imp _ _ (handle_need_truck env m s)
      (λ s' r.
        (repeat_ignored env d.seqnum s' (subst (λ n. Received (to_int n) s') (sym e) r)).2 d.truckid
          d.packageid)
      (need-Received env m s)
