-- ===== src/Ups/State.antt =====
-- What project5_miniUPS/docker-deploy/backend keeps: the globals of main.cpp, the tables that its
-- statements name, and the messages of world_ups.proto and amazon_ups.proto that it sends.
use duke_ece.Prelude.{
  ℕ, ◌==◌, ◌%◌, ◌^◌, ◌≡◌, String, Bool, true, false, List, [], ◌∷◌, Option, All, length,
  if◌then◌else◌,
}
use duke_ece.Prelude.Int.{ℤ}

pub data TruckStatus : Type 0 where
  idle go_to_warehouse arrive_at_warehouse truck_delivering : TruckStatus

pub data PackageStatus : Type 0 where
  at_warehouse loading delivering delivered : PackageStatus

pub record Truck : Type 0 where
  pub truck_id : ℕ
  pub current_x : ℤ
  pub current_y : ℤ
  pub status : TruckStatus
  pub ready_to_pickup_time : Option ℕ
  pub arrive_warehouse_time : Option ℕ
  pub delivery_start_time : Option ℕ
  pub delivered_time : Option ℕ

pub record Package : Type 0 where
  pub whid : ℕ
  pub whats_inside : List (String × ℕ)
  pub tracking_number : String
  pub user_id : Option ℕ
  pub amazon_id : ℕ
  pub dest_addr_x : ℤ
  pub dest_addr_y : ℤ
  pub status : PackageStatus
  pub truck_id : ℕ
  pub init_addr_x : ℤ
  pub init_addr_y : ℤ
  pub package_id_from_amazon : ℕ

pub record Delivery : Type 0 where
  pub truck_id : ℕ
  pub package_id : String
  pub pickup_location : Option (ℤ × ℤ)
  pub go_warehouse_time : Option ℕ
  pub arrive_warehouse_time : Option ℕ
  pub delivery_start_time : Option ℕ
  pub delivered_time : Option ℕ

pub record Location : Type 0 where
  pub packageid : ℕ
  pub x : ℤ
  pub y : ℤ

-- The messages sent, to the world and to Amazon.
pub data Message : Type 0 where
  world_ack amazon_ack : ℕ → Message
  go_pickup : (truckid whid seqnum : ℕ) → Message
  go_deliver : (truckid seqnum : ℕ) → List Location → Message
  truck_arrived : (truckid : ℕ) → String → (wh_id seqnum : ℕ) → Message
  made_delivery : String → (truckid seqnum : ℕ) → Message
  change_addr : String → ℤ → ℤ → (seqnum : ℕ) → Message

-- `users` is the key column of the user table, to which a package's user_id refers.
pub record Ups : Type 0 where
  pub trucks : List Truck
  pub packages : List Package
  pub deliveries : List Delivery
  pub users : List ℕ
  pub received : List ℕ
  pub waiting : List ℕ
  pub seqnum : ℕ
  pub sent : List Message

-- What another thread does to seqnumGlobal and waitingForAckSet: it handles an ack; it takes the next
-- number for a message of its own; or its call to the world fails.
pub data Other : Type 0 where
  acked : ℕ → Other
  took_number failed_sending : Other

-- A round of a send loop: whether its call of sendMesgTo succeeds, and what other threads do before
-- the call, and between it and the test of the loop's condition.
pub record Round : Type 0 where
  pub sent_well : Bool
  pub before : List Other
  pub meanwhile : List Other

-- What the code leaves to its surroundings: the time; the order in which a SELECT gives its rows,
-- which are rows that it selects; the rounds of sending the message with a number; and the value of
-- an int that was never set.
pub record Env : Type 1 where
  pub now : ℕ
  pub scan_trucks : List Truck → List Truck
  pub scan_packages : List Package → List Package
  pub rounds : ℕ → List Round
  pub unset : ℕ
  pub truck_rows : (P : Truck → Type 0) (rows : List Truck) → All P rows → All P (scan_trucks rows)
  pub truck_length : (rows : List Truck) → length (scan_trucks rows) ≡ length rows
  pub package_rows :
      (P : Package → Type 0) (rows : List Package) → All P rows → All P (scan_packages rows)
  pub package_length : (rows : List Package) → length (scan_packages rows) ≡ length rows

-- How a handler ends: with a new state; not at all, since its loop goes on; or by an exception that
-- leaves its thread, and so ends the process.
pub data Outcome : Type 0 where
  done : Ups → Outcome
  waits crashed : Outcome

infixl 5 ◌>>=◌
abbrev pub ◌>>=◌ : Outcome → (Ups → Outcome) → Outcome
done s >>= f = f s
waits >>= f = waits
crashed >>= f = crashed

-- An int64 where an int is wanted: the low 32 bits, as a bit pattern.
unfoldable pub to_int : ℕ → ℕ
to_int n = n % 2 ^ 32

-- std::set<int>.
unfoldable pub contains : ℕ → List ℕ → Bool
contains k [] = false
contains k (x ∷ xs) = if x == k then true else contains k xs

unfoldable pub insert : ℕ → List ℕ → List ℕ
insert k xs = if contains k xs then xs else k ∷ xs

unfoldable pub erase : ℕ → List ℕ → List ℕ
erase k [] = []
erase k (x ∷ xs) = if x == k then erase k xs else x ∷ erase k xs
