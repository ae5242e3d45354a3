-- ===== src/Ups/Amazon.antt =====
-- handleamazon.cpp: project5_miniUPS/docker-deploy/backend.
use duke_ece.Prelude.{
  ℕ, ◌==◌, String, Bool, true, false, List, [], ◌∷◌, ◌++◌, Option, some, none, select, update_where,
  find_first, str_eq, ◌&&◌, ◌||◌, not, map, if◌then◌else◌,
}
use duke_ece.Prelude.Int.{ℤ, eqb_ℤ}
use duke_ece.Ups.State.{
  truck_delivering, Package, PackageStatus, at_warehouse, loading, delivering, delivered, Delivery,
  Location, go_pickup, go_deliver, Ups, Env, Outcome, done, waits, crashed, ◌>>=◌, contains,
}
use duke_ece.Ups.Send.{
  has_received, send_amazon_ack, handle_acks, world, send_loop, next_seqnum, send_addr_change,
}
use duke_ece.Ups.Trucks.{has_truck_id, get_truck}

pub record Pack : Type 0 where
  pub wh_id : ℕ
  pub things : List (String × ℕ)
  pub trackingid : String
  pub packageid : ℕ
  pub upsaccount : Option ℕ
  pub amazonaccount : ℕ
  pub dest_x : ℤ
  pub dest_y : ℤ

pub record NeedTruck : Type 0 where
  pub pack : Pack
  pub seqnum : ℕ

pub record TruckCanGo : Type 0 where
  pub truckid : ℕ
  pub seqnum : ℕ

-- A row with the new one's tracking number or Amazon id breaks a key.
abbrev pub same_key : Pack → Package → Bool
same_key p q = str_eq q.tracking_number p.trackingid || (q.package_id_from_amazon == p.packageid)

abbrev pub known_user : Option ℕ → List ℕ → Bool
known_user none users = true
known_user (some id) users = contains id users

-- Both INSERTs give the destination as the initial address too.
abbrev pub new_package : Pack → ℕ → Package
new_package p truck = record {
  whid = p.wh_id;
  whats_inside = p.things;
  tracking_number = p.trackingid;
  user_id = p.upsaccount;
  amazon_id = p.amazonaccount;
  dest_addr_x = p.dest_x;
  dest_addr_y = p.dest_y;
  status = at_warehouse;
  truck_id = truck;
  init_addr_x = p.dest_x;
  init_addr_y = p.dest_y;
  package_id_from_amazon = p.packageid;
}

unfoldable pub insert_package : Pack → ℕ → Ups → Outcome
insert_package p truck s = elim (find_first (same_key p) s.packages) [
  | some _ ↦ crashed
  | none ↦
      if known_user p.upsaccount s.users
      then done (record s { packages = s.packages ++ new_package p truck ∷ [] })
      else crashed
]

unfoldable pub insert_delivery : Env → Pack → ℕ → Ups → Ups
insert_delivery env p truck s = record s {
  deliveries =
      s.deliveries
      ++ record {
        truck_id = truck;
        package_id = p.trackingid;
        pickup_location = none;
        go_warehouse_time = some env.now;
        arrive_warehouse_time = none;
        delivery_start_time = none;
        delivered_time = none;
      }
        ∷ [];
}

-- The end of handleAUNeedATruck: UGoPickup to the world.
unfoldable pub order_pickup : Env → ℕ → ℕ → Ups → Outcome
order_pickup env truck wh s =
    let n = s.seqnum in send_loop world (env.rounds n) (go_pickup truck wh n) (next_seqnum s)

unfoldable pub pick_up : Env → NeedTruck → Ups → Outcome
pick_up env m s = elim (get_truck env (send_amazon_ack m.seqnum s)) [
  | none ↦ waits
  | some (truck, s₁) ↦ do
    s₂ ← insert_package m.pack truck s₁
    order_pickup env truck m.pack.wh_id (insert_delivery env m.pack truck s₂)
]

unfoldable pub handle_need_truck : Env → NeedTruck → Ups → Outcome
handle_need_truck env m s =
    let (again, s₁) = has_received m.seqnum s in if again then done s₁ else pick_up env m s₁

abbrev pub on_truck : ℕ → Package → Bool
on_truck id p = p.truck_id == id

abbrev pub is_loading : PackageStatus → Bool
is_loading loading = true
is_loading at_warehouse = false
is_loading delivering = false
is_loading delivered = false

abbrev pub is_delivering : PackageStatus → Bool
is_delivering delivering = true
is_delivering at_warehouse = false
is_delivering loading = false
is_delivering delivered = false

abbrev pub set_status : PackageStatus → Package → Package
set_status status p = record p { status = status }

-- UPDATE "UPS_package" SET status = 'delivering' WHERE status = 'loading' AND truck_id = id.
unfoldable pub start_packages : ℕ → List Package → List Package
start_packages id = update_where (λ p. is_loading p.status && on_truck id p) (set_status delivering)

unfoldable pub packages_under_way : Env → ℕ → List Package → List Package
packages_under_way env id rows =
    env.scan_packages (select (λ p. is_delivering p.status && on_truck id p) rows)

-- `string tracking_id;` is empty where no row was found.
abbrev pub first_tracking : List Package → String
first_tracking [] = ""
first_tracking (p ∷ _) = p.tracking_number

abbrev pub of_package : String → Delivery → Bool
of_package tracking d = str_eq d.package_id tracking

unfoldable pub start_delivery : Env → ℕ → Ups → Ups
start_delivery env id s =
    let tracking = first_tracking (env.scan_packages (select (on_truck id) s.packages)) in
    record s {
      trucks =
          update_where (has_truck_id id)
            (λ t. record t { status = truck_delivering; delivery_start_time = some env.now })
            s.trucks;
      deliveries =
          update_where (of_package tracking) (λ d. record d { delivery_start_time = some env.now })
            s.deliveries;
    }

abbrev pub location : Package → Location
location p = record { packageid = p.package_id_from_amazon; x = p.dest_addr_x; y = p.dest_addr_y }

abbrev pub moved : Package → Bool
moved p = not (eqb_ℤ p.dest_addr_x p.init_addr_x) || not (eqb_ℤ p.dest_addr_y p.init_addr_y)

-- The calls of sendArrChangeToAmazon in the loop over the packages.
unfoldable pub send_addr_changes : Env → List Package → Ups → Outcome
send_addr_changes env [] s = done s
send_addr_changes env (p ∷ ps) s =
    (if moved p
      then send_addr_change env p.dest_addr_x p.dest_addr_y p.tracking_number s
      else done s)
    >>= send_addr_changes env ps

-- The end of handleAUTruckCanGo: UGoDeliver to the world. Its number is taken before those of the
-- address changes, which are sent first.
unfoldable pub order_delivery : Env → ℕ → List Package → Ups → Outcome
order_delivery env id rows s =
    let n = s.seqnum in
    send_addr_changes env rows (next_seqnum s)
    >>= send_loop world (env.rounds n) (go_deliver id n (map location rows))

unfoldable pub go : Env → TruckCanGo → Ups → Outcome
go env m s =
    let id = m.truckid in
    let s₁ = send_amazon_ack m.seqnum s in
    let s₂ = record s₁ { packages = start_packages id s₁.packages } in
    let rows = packages_under_way env id s₂.packages in
    order_delivery env id rows (start_delivery env id s₂)

unfoldable pub handle_truck_can_go : Env → TruckCanGo → Ups → Outcome
handle_truck_can_go env m s =
    let (again, s₁) = has_received m.seqnum s in if again then done s₁ else go env m s₁

-- An AUCommands message; its errors are ignored by handleAUerror.
pub record AmazonCommands : Type 0 where
  pub acks : List ℕ
  pub need : List NeedTruck
  pub go_list : List TruckCanGo

unfoldable pub each {ℓ} : {A : Type ℓ} → (A → Ups → Outcome) → List A → Ups → Outcome
each f [] s = done s
each f (x ∷ xs) s = f x s >>= each f xs

unfoldable pub handle_amazon_msg : Env → AmazonCommands → Ups → Outcome
handle_amazon_msg env m s =
    each (handle_need_truck env) m.need (handle_acks m.acks s)
    >>= each (handle_truck_can_go env) m.go_list
