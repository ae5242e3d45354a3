-- ===== src/Ups/Trucks.antt =====
-- getTruckTopickup of database.cpp and initWorld of handleinit.cpp:
-- project5_miniUPS/docker-deploy/backend.
use duke_ece.Prelude.{
  ℕ, zero, suc, ◌==◌, Bool, true, false, List, [], ◌∷◌, ◌++◌, Option, some, none, select,
  update_where,
}
use duke_ece.Prelude.Int.{ℤ, pos}
use duke_ece.Ups.State.{
  Truck, TruckStatus, idle, go_to_warehouse, arrive_at_warehouse, truck_delivering, Ups, Env,
}

abbrev pub has_truck_id : ℕ → Truck → Bool
has_truck_id id t = t.truck_id == id

-- status IN ('idle', 'delivering', 'arrive at warehouse').
abbrev pub available_status : TruckStatus → Bool
available_status go_to_warehouse = false
available_status idle = true
available_status arrive_at_warehouse = true
available_status truck_delivering = true

abbrev pub available : Truck → Bool
available t = available_status t.status

abbrev pub call_up : ℕ → Truck → Truck
call_up now t = record t { status = go_to_warehouse; ready_to_pickup_time = some now }

abbrev pub first_truck : List Truck → Option ℕ
first_truck [] = none
first_truck (t ∷ _) = some t.truck_id

-- getTruckTopickup. `none`: the loop polls on, since no truck is available.
unfoldable pub get_truck : Env → Ups → Option (ℕ × Ups)
get_truck env s = elim (first_truck (env.scan_trucks (select available s.trucks))) [
  | none ↦ none
  | some id ↦
      some (id, record s { trucks = update_where (has_truck_id id) (call_up env.now) s.trucks })
]

-- A UInitTruck of the UConnect message.
pub record InitTruck : Type 0 where
  pub id : ℕ
  pub x : ℤ
  pub y : ℤ

-- The loop over `i`, for `count` more trucks.
unfoldable pub init_trucks : ℕ → ℕ → List InitTruck
init_trucks zero i = []
init_trucks (suc count) i = record { id = i; x = pos i; y = pos i } ∷ init_trucks count (suc i)

-- The row of the INSERT, made after the loop from what its last round left in the variables.
unfoldable pub truck_row : ℕ → Truck
truck_row id = record {
  truck_id = id;
  current_x = pos id;
  current_y = pos id;
  status = idle;
  ready_to_pickup_time = none;
  arrive_warehouse_time = none;
  delivery_start_time = none;
  delivered_time = none;
}

-- initWorld for a positive number of trucks, `suc last`; the source has 300.
unfoldable pub init_world : ℕ → Ups → List InitTruck × Ups
init_world last s =
    (init_trucks (suc last) 0, record s { trucks = s.trucks ++ truck_row last ∷ [] })
