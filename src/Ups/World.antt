-- ===== src/Ups/World.antt =====
-- handleworld.cpp: project5_miniUPS/docker-deploy/backend.
use duke_ece.Prelude.{
  ℕ, ◌==◌, String, Bool, List, [], ◌∷◌, some, select, update_where, str_eq, ◌&&◌, if◌then◌else◌,
}
use duke_ece.Prelude.Int.{ℤ}
use duke_ece.Ups.State.{
  Truck, TruckStatus, idle, arrive_at_warehouse, Package, loading, delivered, truck_arrived,
  made_delivery, Ups, Env, Outcome, done, ◌>>=◌,
}
use duke_ece.Ups.Send.{has_received, send_world_ack, handle_acks, amazon, send_loop, next_seqnum}
use duke_ece.Ups.Trucks.{has_truck_id}
use duke_ece.Ups.Amazon.{on_truck, set_status, is_loading, first_tracking, of_package, each}

pub record DeliveryMade : Type 0 where
  pub truckid : ℕ
  pub packageid : ℕ
  pub seqnum : ℕ

pub record Finished : Type 0 where
  pub truckid : ℕ
  pub x : ℤ
  pub y : ℤ
  pub status : String
  pub seqnum : ℕ

abbrev pub has_amazon_id : ℕ → Package → Bool
has_amazon_id id p = p.package_id_from_amazon == id

-- Where the package is known: the truck's place and time, and the delivery's time.
unfoldable pub record_delivery : Env → ℕ → Package → Ups → Ups
record_delivery env truck p s = record s {
  trucks =
      update_where (has_truck_id truck)
        (λ t. record t {
          current_x = p.dest_addr_x;
          current_y = p.dest_addr_y;
          delivered_time = some env.now;
        })
        s.trucks;
  deliveries =
      update_where (of_package p.tracking_number) (λ d. record d { delivered_time = some env.now })
        s.deliveries;
}

unfoldable pub record_first : Env → ℕ → List Package → Ups → Ups
record_first env truck [] s = s
record_first env truck (p ∷ _) s = record_delivery env truck p s

unfoldable pub deliver : Env → DeliveryMade → Ups → Outcome
deliver env m s =
    let rows = env.scan_packages (select (has_amazon_id m.packageid) s.packages) in
    let s₁ = record_first env m.truckid rows (send_world_ack m.seqnum s) in
    let s₂ = record s₁ {
      packages = update_where (has_amazon_id m.packageid) (set_status delivered) s₁.packages;
    } in
    let n = s₂.seqnum in
    send_loop amazon (env.rounds n) (made_delivery (first_tracking rows) m.truckid n)
      (next_seqnum s₂)

unfoldable pub handle_delivery_made : Env → DeliveryMade → Ups → Outcome
handle_delivery_made env m s =
    let (again, s₁) = has_received m.seqnum s in if again then done s₁ else deliver env m s₁

abbrev pub park : TruckStatus → ℤ → ℤ → Truck → Truck
park status x y t = record t { current_x = x; current_y = y; status = status }

unfoldable pub finish_all : Finished → Ups → Ups
finish_all m s =
    let s₁ = send_world_ack m.seqnum s in
    record s₁ { trucks = update_where (has_truck_id m.truckid) (park idle m.x m.y) s₁.trucks }

unfoldable pub handle_finish_all : Finished → Ups → Outcome
handle_finish_all m s =
    let (again, s₁) = has_received m.seqnum s in if again then done s₁ else done (finish_all m s₁)

-- UPDATE "UPS_package" SET status = 'loading' WHERE truck_id = id.
unfoldable pub load_packages : ℕ → List Package → List Package
load_packages id = update_where (on_truck id) (set_status loading)

-- `int whid;` is not set where no row was found.
abbrev pub first_whid : Env → List Package → ℕ
first_whid env [] = env.unset
first_whid env (p ∷ _) = p.whid

unfoldable pub arrive_tables : Env → Finished → Ups → Ups
arrive_tables env m s = record s {
  trucks =
      update_where (has_truck_id m.truckid)
        (λ t. record (park arrive_at_warehouse m.x m.y t) { arrive_warehouse_time = some env.now })
        s.trucks;
  packages = load_packages m.truckid s.packages;
}

unfoldable pub arrive : Env → Finished → Ups → Outcome
arrive env m s =
    let s₁ = arrive_tables env m (send_world_ack m.seqnum s) in
    let rows =
      env.scan_packages (select (λ p. is_loading p.status && on_truck m.truckid p) s₁.packages) in
    let s₂ = record s₁ {
      deliveries =
          update_where (of_package (first_tracking rows))
            (λ d. record d {
              pickup_location = some (m.x, m.y);
              arrive_warehouse_time = some env.now;
            })
            s₁.deliveries;
    } in
    let n = s₂.seqnum in
    send_loop amazon (env.rounds n)
      (truck_arrived m.truckid (first_tracking rows) (first_whid env rows) n) (next_seqnum s₂)

unfoldable pub handle_arrived : Env → Finished → Ups → Outcome
handle_arrived env m s =
    let (again, s₁) = has_received m.seqnum s in if again then done s₁ else arrive env m s₁

-- The test on the status of a UFinished.
unfoldable pub handle_completion : Env → Finished → Ups → Outcome
handle_completion env m s =
    if str_eq m.status "IDLE" then handle_finish_all m s else handle_arrived env m s

pub record WorldResponses : Type 0 where
  pub acks : List ℕ
  pub delivered_list : List DeliveryMade
  pub completions : List Finished

unfoldable pub handle_world_msg : Env → WorldResponses → Ups → Outcome
handle_world_msg env m s =
    each (handle_delivery_made env) m.delivered_list (handle_acks m.acks s)
    >>= each (handle_completion env) m.completions
