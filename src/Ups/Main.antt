-- ===== src/Ups/Main.antt =====
-- main and handleReceive of main.cpp, clearTables of database.cpp, and connectedWorld and initAmazon of
-- handleinit.cpp: project5_miniUPS/docker-deploy/backend.
mod Tests
use duke_ece.Prelude.{
  ℕ, zero, suc, String, Bool, true, false, List, [], ◌∷◌, ◌++◌, Option, some, none, str_eq,
  if◌then◌else◌,
}
use duke_ece.Ups.State.{Ups, to_int}
use duke_ece.Ups.Trucks.{InitTruck, init_world}
use duke_ece.Ups.Amazon.{AmazonCommands}
use duke_ece.Ups.World.{WorldResponses}
use duke_ece.Ups.Wire.{Protobuf, Stream, recv_mesg_from}

-- A thread that handleReceive starts: handleWorldMsg on a UResponses, or handleAmazonMsg on an
-- AUCommands. The two types, which protoc makes, are parameters here.
pub data Thread (W A : Type 0) : Type 0 where
  world_thread : W → Thread W A
  amazon_thread : A → Thread W A

-- The two sockets, and the threads started so far.
pub record Sockets (W A : Type 0) : Type 0 where
  pub world : Stream
  pub amazon : Stream
  pub threads : List (Thread W A)

-- What FD_ISSET says after one select; both are false where it fails.
pub record Ready : Type 0 where
  pub world_set : Bool
  pub amazon_set : Bool

abbrev pub world_received : {W A : Type 0} → Sockets W A → Option W × Stream → Bool × Sockets W A
world_received s (none, rest) = (false, record s { world = rest })
world_received s (some m, rest) =
    (true, record s { world = rest; threads = s.threads ++ world_thread m ∷ [] })

abbrev pub amazon_received : {W A : Type 0} → Sockets W A → Option A × Stream → Sockets W A
amazon_received s (none, rest) = record s { amazon = rest }
amazon_received s (some m, rest) = record s {
  amazon = rest;
  threads = s.threads ++ amazon_thread m ∷ [];
}

module _ {W A : Type 0} (world_pb : Protobuf W) (amazon_pb : Protobuf A) where
  -- `false` is the `continue` after a message of the world that cannot be received.
  unfoldable pub read_world : Bool → Sockets W A → Bool × Sockets W A
  read_world set s = if set then world_received s (recv_mesg_from world_pb s.world) else (true, s)

  unfoldable pub read_amazon : Bool → Sockets W A → Sockets W A
  read_amazon set s = if set then amazon_received s (recv_mesg_from amazon_pb s.amazon) else s

  -- One round of the loop.
  unfoldable pub select_round : Ready → Sockets W A → Sockets W A
  select_round r s =
      let (goes_on, after) = read_world r.world_set s in
      if goes_on then read_amazon r.amazon_set after else after

  -- handleReceive for a number of rounds; it never ends.
  unfoldable pub handle_receive : List Ready → Sockets W A → Sockets W A
  handle_receive [] s = s
  handle_receive (r ∷ rounds) s = handle_receive rounds (select_round r s)

unfoldable pub clear_tables : Ups → Ups
clear_tables s = record s { packages = []; trucks = []; deliveries = [] }

-- UConnected.
pub record Connected : Type 0 where
  pub worldid : ℕ
  pub result : String

pub data LogLine : Type 0 where
  no_connected not_connected no_confirm not_confirmed confirmed : LogLine

-- The process before handleReceive.
pub record Started : Type 0 where
  pub ups : Ups
  pub world_id : ℕ
  pub told_world : List InitTruck
  pub told_amazon : Option ℕ
  pub log : List LogLine

abbrev pub noted : LogLine → Started → Started
noted line p = record p { log = p.log ++ line ∷ [] }

-- connectedWorld; `none` is a message that cannot be received.
unfoldable pub connected_world : Option Connected → Started → Started
connected_world none p = noted no_connected p
connected_world (some c) p =
    record (if str_eq c.result "connected!" then p else noted not_connected p) {
      world_id = to_int c.worldid;
    }

-- initAmazon, on the answer's field `connected`.
unfoldable pub init_amazon : Option Bool → Started → Started
init_amazon answer p =
    let told = record p { told_amazon = some p.world_id } in
    elim answer [
      | none ↦ noted no_confirm told
      | some ok ↦ noted (if ok then confirmed else not_confirmed) told
    ]

-- main up to handleReceive. `worldID` is a global, and so 0 at first.
unfoldable pub start : Option Connected → Option Bool → Ups → Started
start connected answer s =
    let (trucks, ups) = init_world 299 (clear_tables s) in
    init_amazon answer (
      connected_world connected
        (record { ups = ups; world_id = 0; told_world = trucks; told_amazon = none; log = [] }))
