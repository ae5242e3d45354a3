-- ===== src/Ups/Loop.antt =====
-- What handleReceive makes of the bytes of its two sockets, and how main starts:
-- project5_miniUPS/docker-deploy/backend.
use duke_ece.Prelude.{
  ℕ, ◌^◌, ◌<◌, ◌≡◌, ◌≢◌, ◌∙◌, refl, sym, ap, Bool, true, false, List, [], ◌∷◌, ◌++◌, some, none,
  length, length-append, arith, All, if◌then◌else◌,
}
use mathlib.Core.List.{append-nil, append_assoc}
use duke_ece.Ups.Wire.{more, Protobuf, Stream, all_bytes, send_mesg_to, read_size, recv_mesg_from}
use duke_ece.Ups.Framing.{recv_mesg_from-send_mesg_to}
use duke_ece.Ups.Main.{
  Thread, world_thread, amazon_thread, Sockets, Ready, world_received, amazon_received, read_world,
  read_amazon, select_round, handle_receive,
}

-- What arrives before a round: a message of the world, one of Amazon, or one of each.
pub data Arrival (W A : Type 0) : Type 0 where
  from_world : W → Arrival W A
  from_amazon : A → Arrival W A
  from_both : W → A → Arrival W A

abbrev pub ready : {W A : Type 0} → Arrival W A → Ready
ready (from_world m) = record { world_set = true; amazon_set = false }
ready (from_amazon n) = record { world_set = false; amazon_set = true }
ready (from_both m n) = record { world_set = true; amazon_set = true }

abbrev pub threads_for : {W A : Type 0} → Arrival W A → List (Thread W A)
threads_for (from_world m) = world_thread m ∷ []
threads_for (from_amazon n) = amazon_thread n ∷ []
threads_for (from_both m n) = world_thread m ∷ amazon_thread n ∷ []

unfoldable pub all_threads : {W A : Type 0} → List (Arrival W A) → List (Thread W A)
all_threads [] = []
all_threads (a ∷ arrivals) = threads_for a ++ all_threads arrivals

unfoldable pub rounds_for : {W A : Type 0} → List (Arrival W A) → List Ready
rounds_for [] = []
rounds_for (a ∷ arrivals) = ready a ∷ rounds_for arrivals

recv_mesg_from-closed : {M : Type 0} (pb : Protobuf M) → recv_mesg_from pb [] ≡ (none, [])
unfolding recv_mesg_from read_size
recv_mesg_from-closed pb =
    let wants : pb.read_varint [] ≡ more =
      pb.read-part 0 [] (pb.write_varint 0) (omega arith) refl (pb.written 0) in
    rw (wants, read_size) refl

length-pos : (s : List ℕ) → s ≢ [] → 0 < length s
length-pos [] h = absurd (h refl)
length-pos (c ∷ s) h = omega arith

sent_bytes : {M : Type 0} (pb : Protobuf M) (m : M) → 0 < length (send_mesg_to pb m)
unfolding send_mesg_to
sent_bytes pb m =
    let n = length (pb.serialize m) in
    omega (
      arith,
      length-append (pb.write_varint n) (pb.serialize m),
      length-pos (pb.write_varint n) (pb.written n),
    )

one_block :
    {M : Type 0} (pb : Protobuf M) (m : M) (later : Stream)
    → length (pb.serialize m) < 2 ^ 31
    → recv_mesg_from pb (send_mesg_to pb m ∷ later) ≡ (some m, later)
unfolding all_bytes
one_block pb m later short =
    recv_mesg_from-send_mesg_to pb m (send_mesg_to pb m ∷ []) later short (sent_bytes pb m, tt)
      (append-nil (send_mesg_to pb m))

module _ {W A : Type 0} (world_pb : Protobuf W) (amazon_pb : Protobuf A) where
  closed_round :
      (r : Ready) (s : Sockets W A)
      → s.world ≡ []
      → r.world_set ≡ true
      → select_round world_pb amazon_pb r s ≡ s
  unfolding select_round read_world
  closed_round r s closed set =
      let none_left : recv_mesg_from world_pb s.world ≡ (none, []) =
        ap (recv_mesg_from world_pb) closed ∙ recv_mesg_from-closed world_pb in
      rw (set, read_world, none_left) (ap (λ w. record s { world = w }) (sym closed))

  -- Once the world has closed its connection, which select then reports in every round, handleReceive
  -- never reads Amazon's socket again and starts no thread.
  pub handle_receive_starves :
      (rounds : List Ready) (s : Sockets W A)
      → s.world ≡ []
      → All (λ r. r.world_set ≡ true) rounds
      → handle_receive world_pb amazon_pb rounds s ≡ s
  unfolding handle_receive
  handle_receive_starves [] s closed h = refl
  handle_receive_starves (r ∷ rounds) s closed (set, h) =
      ap (handle_receive world_pb amazon_pb rounds) (closed_round r s closed set)
      ∙ handle_receive_starves rounds s closed h

  -- Each message in one block of its own, in front of what comes later on the socket.
  unfoldable pub world_blocks : List (Arrival W A) → Stream → Stream
  world_blocks [] later = later
  world_blocks (from_world m ∷ arrivals) later =
      send_mesg_to world_pb m ∷ world_blocks arrivals later
  world_blocks (from_amazon n ∷ arrivals) later = world_blocks arrivals later
  world_blocks (from_both m n ∷ arrivals) later =
      send_mesg_to world_pb m ∷ world_blocks arrivals later

  unfoldable pub amazon_blocks : List (Arrival W A) → Stream → Stream
  amazon_blocks [] later = later
  amazon_blocks (from_world m ∷ arrivals) later = amazon_blocks arrivals later
  amazon_blocks (from_amazon n ∷ arrivals) later =
      send_mesg_to amazon_pb n ∷ amazon_blocks arrivals later
  amazon_blocks (from_both m n ∷ arrivals) later =
      send_mesg_to amazon_pb n ∷ amazon_blocks arrivals later

  -- A message is shorter than 2 GB.
  abbrev pub Short : Arrival W A → Type 0
  Short (from_world m) = length (world_pb.serialize m) < 2 ^ 31
  Short (from_amazon n) = length (amazon_pb.serialize n) < 2 ^ 31
  Short (from_both m n) =
      (length (world_pb.serialize m) < 2 ^ 31) × (length (amazon_pb.serialize n) < 2 ^ 31)

  -- The second half of a round.
  abbrev goes_on : Bool → Bool × Sockets W A → Sockets W A
  goes_on set (more_to_do, after) =
      if more_to_do then read_amazon world_pb amazon_pb set after else after

  read_world-set :
      (m : W) (later : Stream) (s : Sockets W A)
      → length (world_pb.serialize m) < 2 ^ 31
      → s.world ≡ send_mesg_to world_pb m ∷ later
      → read_world world_pb amazon_pb true s
        ≡ (true, record s { world = later; threads = s.threads ++ world_thread m ∷ [] })
  unfolding read_world
  read_world-set m later s short e =
      ap (world_received s) (ap (recv_mesg_from world_pb) e ∙ one_block world_pb m later short)

  read_amazon-set :
      (n : A) (later : Stream) (s : Sockets W A)
      → length (amazon_pb.serialize n) < 2 ^ 31
      → s.amazon ≡ send_mesg_to amazon_pb n ∷ later
      → read_amazon world_pb amazon_pb true s
        ≡ record s { amazon = later; threads = s.threads ++ amazon_thread n ∷ [] }
  unfolding read_amazon
  read_amazon-set n later s short e =
      ap (amazon_received s) (ap (recv_mesg_from amazon_pb) e ∙ one_block amazon_pb n later short)

  arrival_round :
      (a : Arrival W A) (arrivals : List (Arrival W A)) (world amazon : Stream)
      (threads : List (Thread W A))
      → Short a
      → select_round world_pb amazon_pb (ready a) (record {
        world = world_blocks (a ∷ arrivals) world;
        amazon = amazon_blocks (a ∷ arrivals) amazon;
        threads = threads;
      })
        ≡ record {
          world = world_blocks arrivals world;
          amazon = amazon_blocks arrivals amazon;
          threads = threads ++ threads_for a;
        }
  unfolding select_round world_blocks amazon_blocks read_amazon read_world
  arrival_round (from_world m) arrivals world amazon threads short =
      ap (goes_on false) (read_world-set m (world_blocks arrivals world) _ short refl)
  arrival_round (from_amazon n) arrivals world amazon threads short =
      read_amazon-set n (amazon_blocks arrivals amazon) _ short refl
  arrival_round (from_both m n) arrivals world amazon threads (short, short') =
      ap (goes_on true) (read_world-set m (world_blocks arrivals world) _ short refl)
      ∙ read_amazon-set n (amazon_blocks arrivals amazon) _ short' refl
      ∙ ap
          (λ t. record {
            world = world_blocks arrivals world;
            amazon = amazon_blocks arrivals amazon;
            threads = t;
          })
          (append_assoc threads (world_thread m ∷ []) (amazon_thread n ∷ []))

  -- Where each message comes in a block of its own, every message gets its thread, in the order of
  -- arrival, the world's first where both are there; and what comes later is left for later rounds.
  pub handle_receive-all_threads :
      (arrivals : List (Arrival W A)) (world amazon : Stream) (threads : List (Thread W A))
      → All Short arrivals
      → handle_receive world_pb amazon_pb (rounds_for arrivals) (record {
        world = world_blocks arrivals world;
        amazon = amazon_blocks arrivals amazon;
        threads = threads;
      })
        ≡ record { world = world; amazon = amazon; threads = threads ++ all_threads arrivals }
  unfolding handle_receive rounds_for world_blocks amazon_blocks all_threads
  handle_receive-all_threads [] world amazon threads h =
      ap (λ t. record { world = world; amazon = amazon; threads = t }) (sym (append-nil threads))
  handle_receive-all_threads (a ∷ arrivals) world amazon threads (short, h) =
      ap (handle_receive world_pb amazon_pb (rounds_for arrivals))
        (arrival_round a arrivals world amazon threads short)
      ∙ handle_receive-all_threads arrivals world amazon (threads ++ threads_for a) h
      ∙ ap (λ t. record { world = world; amazon = amazon; threads = t })
          (append_assoc threads (threads_for a) (all_threads arrivals))
