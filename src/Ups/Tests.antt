-- ===== src/Ups/Tests.antt =====
-- The theorems at work on a small state of project5_miniUPS/docker-deploy/backend: two trucks, one of
-- them with a package that is loading and one that was delivered before.
use duke_ece.Prelude.{
  ℕ, zero, suc, ◌≡◌, refl, String, true, false, List, [], ◌∷◌, some, none, select, update_where,
}
use duke_ece.Prelude.Int.{pos}
use duke_ece.Ups.State.{
  Truck, go_to_warehouse, Package, PackageStatus, loading, delivered, Ups, acked, failed_sending,
  Round, Env, done, waits, contains, to_int,
}
use duke_ece.Ups.Trucks.{get_truck, truck_row}
use duke_ece.Ups.Amazon.{
  NeedTruck, TruckCanGo, handle_need_truck, handle_truck_can_go, order_pickup,
}
use duke_ece.Ups.World.{DeliveryMade, Finished, handle_delivery_made, handle_completion}
use duke_ece.Ups.Rule.{Ends}
use duke_ece.Ups.Once.{handled_once}
use duke_ece.Ups.Resend.{order_pickup_waits}

-- Message 0 is sent at once; any other fails first, is sent in the next round, and gets its own ack only.
abbrev rounds : ℕ → List Round
rounds zero = record { sent_well = true; before = []; meanwhile = acked 0 ∷ [] } ∷ []
rounds (suc n) =
    record { sent_well = false; before = []; meanwhile = failed_sending ∷ [] }
    ∷ record { sent_well = true; before = []; meanwhile = acked (suc n) ∷ [] }
    ∷ []

abbrev pub env : Env
env = record {
  now = 7;
  scan_trucks = λ rows. rows;
  scan_packages = λ rows. rows;
  rounds = rounds;
  unset = 0;
  truck_rows = λ P rows h. h;
  truck_length = λ rows. refl;
  package_rows = λ P rows h. h;
  package_length = λ rows. refl;
}

abbrev parcel : ℕ → String → PackageStatus → Package
parcel id tracking state = record {
  whid = 1;
  whats_inside = ("apple", 1) ∷ [];
  tracking_number = tracking;
  user_id = none;
  amazon_id = 5;
  dest_addr_x = pos 3;
  dest_addr_y = pos 4;
  status = state;
  truck_id = 1;
  init_addr_x = pos 3;
  init_addr_y = pos 4;
  package_id_from_amazon = id;
}

abbrev pub fleet : Ups
fleet = record {
  trucks = truck_row 0 ∷ truck_row 1 ∷ [];
  packages = parcel 8 "t8" loading ∷ parcel 9 "t9" delivered ∷ [];
  deliveries = [];
  users = [];
  received = 4 ∷ [];
  waiting = [];
  seqnum = 0;
  sent = [];
}

abbrev need : ℕ → NeedTruck
need n = record {
  pack = record {
    wh_id = 1;
    things = [];
    trackingid = "t10";
    packageid = 10;
    upsaccount = none;
    amazonaccount = 5;
    dest_x = pos 1;
    dest_y = pos 2;
  };
  seqnum = n;
}

abbrev arrival : Finished
arrival = record { truckid = 1; x = pos 0; y = pos 0; status = "ARRIVE WAREHOUSE"; seqnum = 4 }

received_4 : contains (to_int 4) fleet.received ≡ true
unfolding contains to_int
received_4 = refl

handled_once_example :
    ((m : NeedTruck)
      → Ends (λ s'. handle_need_truck env m s' ≡ done s') (handle_need_truck env m fleet))
    × ((m : TruckCanGo)
        → Ends (λ s'. handle_truck_can_go env m s' ≡ done s') (handle_truck_can_go env m fleet))
    × ((m : DeliveryMade)
        → Ends (λ s'. handle_delivery_made env m s' ≡ done s') (handle_delivery_made env m fleet))
    × ((m : Finished)
        → Ends (λ s'. handle_completion env m s' ≡ done s') (handle_completion env m fleet))
handled_once_example = handled_once env fleet

abbrev report : DeliveryMade
report = record { truckid = 1; packageid = 8; seqnum = 0 }

abbrev second : Ups
second = record fleet { seqnum = 1 }

order_pickup_waits_example : order_pickup env 0 1 second ≡ waits
unfolding to_int
order_pickup_waits_example =
    order_pickup_waits env 0 1 second
      (record { sent_well = false; before = []; meanwhile = failed_sending ∷ [] })
      (record { sent_well = true; before = []; meanwhile = acked 1 ∷ [] } ∷ []) refl refl
      ((tt, (tt, tt)), ((tt, (refl, tt)), tt))

none_waiting : contains 1 [] ≡ false
unfolding contains
none_waiting = refl

abbrev called : Truck
called = record (truck_row 0) { status = go_to_warehouse; ready_to_pickup_time = some 7 }

abbrev fleet₁ : Ups
fleet₁ = record fleet { trucks = called ∷ truck_row 1 ∷ [] }

abbrev fleet₂ : Ups
fleet₂ = record fleet {
  trucks =
      called
      ∷ record (truck_row 1) { status = go_to_warehouse; ready_to_pickup_time = some 7 }
      ∷ [];
}

first_call : get_truck env fleet ≡ some (0, fleet₁)
unfolding get_truck select update_where truck_row
first_call = refl

second_call : get_truck env fleet₁ ≡ some (1, fleet₂)
unfolding get_truck select update_where truck_row
second_call = refl
