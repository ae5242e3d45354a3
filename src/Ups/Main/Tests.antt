-- ===== src/Ups/Main/Tests.antt =====
-- Messages and sockets at work, with a library that writes a size in unary and a message of bytes as it
-- is: project5_miniUPS/docker-deploy/backend.
use duke_ece.Prelude.{
  ℕ, zero, suc, ◌==◌, ◌+◌, ◌≡◌, ◌≢◌, ◌∙◌, refl, ap, true, false, List, [], ◌∷◌, ◌++◌, some, none,
  arith, if◌then◌else◌,
}
use duke_ece.Ups.State.{Ups}
use duke_ece.Ups.Trucks.{get_truck, truck_row}
use duke_ece.Ups.Tests.{env, fleet}
use duke_ece.Ups.Wire.{Bytes, Varint, size, more, Protobuf, all_bytes, send_mesg_to, recv_mesg_from}
use duke_ece.Ups.Framing.{recv_mesg_from-send_mesg_to, recv_mesg_from_loses}
use duke_ece.Ups.Main.{Sockets, Ready, handle_receive, start}
use duke_ece.Ups.Loop.{
  Arrival, from_world, from_amazon, from_both, all_threads, rounds_for, world_blocks, amazon_blocks,
  handle_receive_starves, handle_receive-all_threads,
}
use duke_ece.Ups.Start.{called_up, start_one_truck}

abbrev unary : ℕ → Bytes
unary zero = 0 ∷ []
unary (suc n) = 1 ∷ unary n

abbrev count : ℕ → Bytes → Varint
count n [] = more
count n (c ∷ s) = let later = count (suc n) s in if c == 0 then size n s else later

count-unary : (n k : ℕ) (rest : Bytes) → count k (unary n ++ rest) ≡ size (n + k) rest
count-unary zero k rest = ap (λ i. size i rest) (omega arith)
count-unary (suc n) k rest = count-unary n (suc k) rest ∙ ap (λ i. size i rest) (omega arith)

append-empty : (s rest : Bytes) → [] ≡ s ++ rest → rest ≡ []
append-empty [] [] e = refl
append-empty [] (c ∷ rest) e = cc
append-empty (c ∷ s) rest e = cc

count_part :
    (n k : ℕ) (part rest : Bytes) → unary n ≡ part ++ rest → rest ≢ [] → count k part ≡ more
count_part n k [] rest e ne = refl
count_part zero k (c ∷ part) rest e ne =
    let left : [] ≡ part ++ rest = cc in absurd (ne (append-empty part rest left))
count_part (suc n) k (c ∷ part) rest e ne =
    let one : c ≡ 1 = cc in
    let left : unary n ≡ part ++ rest = cc in
    let later = count_part n (suc k) part rest left ne in
    let other : (c == 0) ≡ false = ground arith in rw other later

unary-ne : (n : ℕ) → unary n ≢ []
unary-ne zero e = cc
unary-ne (suc n) e = cc

abbrev plain : Protobuf Bytes
plain = record {
  write_varint = unary;
  read_varint = count 0;
  serialize = λ m. m;
  parse = some;
  read-write = λ n rest h. count-unary n 0 rest ∙ ap (λ i. size i rest) (omega arith);
  read-part = λ n part rest h e ne. count_part n 0 part rest e ne;
  written = unary-ne;
  parse-serialize = λ m. refl;
}

recv_mesg_from-send_mesg_to_example :
    recv_mesg_from plain ((1 ∷ []) ∷ (1 ∷ 0 ∷ 7 ∷ []) ∷ (8 ∷ []) ∷ (0 ∷ []) ∷ [])
    ≡ (some (7 ∷ 8 ∷ []), (0 ∷ []) ∷ [])
unfolding all_bytes send_mesg_to
recv_mesg_from-send_mesg_to_example =
    recv_mesg_from-send_mesg_to plain (7 ∷ 8 ∷ []) ((1 ∷ []) ∷ (1 ∷ 0 ∷ 7 ∷ []) ∷ (8 ∷ []) ∷ [])
      ((0 ∷ []) ∷ []) (omega arith) (omega arith, (omega arith, (omega arith, tt))) refl

recv_mesg_from_loses_example :
    recv_mesg_from plain ((send_mesg_to plain (7 ∷ []) ++ send_mesg_to plain (8 ∷ [])) ∷ [])
    ≡ (some (7 ∷ []), [])
recv_mesg_from_loses_example = recv_mesg_from_loses plain (7 ∷ []) (8 ∷ []) [] (omega arith)

abbrev both_set : Ready
both_set = record { world_set = true; amazon_set = true }

abbrev world_gone : Sockets Bytes Bytes
world_gone = record { world = []; amazon = (1 ∷ 0 ∷ 7 ∷ []) ∷ []; threads = [] }

handle_receive_starves_example :
    handle_receive plain plain (both_set ∷ both_set ∷ []) world_gone ≡ world_gone
handle_receive_starves_example =
    handle_receive_starves plain plain (both_set ∷ both_set ∷ []) world_gone refl (refl, (refl, tt))

abbrev arrivals : List (Arrival Bytes Bytes)
arrivals = from_world (7 ∷ []) ∷ from_both (8 ∷ []) (9 ∷ []) ∷ from_amazon [] ∷ []

handle_receive-all_threads_example :
    handle_receive plain plain (rounds_for arrivals) (record {
      world = world_blocks plain plain arrivals [];
      amazon = amazon_blocks plain plain arrivals [];
      threads = [];
    })
    ≡ record { world = []; amazon = []; threads = all_threads arrivals }
handle_receive-all_threads_example =
    handle_receive-all_threads plain plain arrivals [] [] []
      (omega arith, ((omega arith, omega arith), (omega arith, tt)))

abbrev refused_start : Ups
refused_start = (start (some (record { worldid = 3; result = "no" })) none fleet).ups

start_one_truck_example :
    (refused_start.trucks ≡ truck_row 299 ∷ [])
    × (refused_start.packages ≡ [])
    × (refused_start.deliveries ≡ [])
    × (get_truck env refused_start ≡ some (299, called_up env refused_start))
    × (get_truck env (called_up env refused_start) ≡ none)
start_one_truck_example =
    start_one_truck (some (record { worldid = 3; result = "no" })) none fleet env
