-- ===== src/Ups/Start.antt =====
-- What main and its handshakes leave for handleReceive: project5_miniUPS/docker-deploy/backend.
use duke_ece.Prelude.{
  ℕ, ◌≡◌, ◌∙◌, refl, sym, ap, subst, Bool, List, [], ◌∷◌, Option, some, none, arith, length, All,
  select, update_where, Bool-cases, inl, inr, str_eq,
}
use duke_ece.Ups.State.{Ups, Env, Truck}
use duke_ece.Ups.Trucks.{
  available, has_truck_id, call_up, first_truck, get_truck, truck_row, init_world,
}
use duke_ece.Ups.Dispatch.{get_truck-none_iff}
use duke_ece.Ups.Main.{clear_tables, Connected, connected_world, init_amazon, Started, start}

one_scanned :
    (rows : List Truck) (t : Truck) → length rows ≡ 1 → All (λ r. r ≡ t) rows → rows ≡ t ∷ []
one_scanned [] t e h = absurd (omega arith)
one_scanned (r ∷ []) t e (same, h) = ap (λ x. x ∷ []) same
one_scanned (r ∷ q ∷ rows) t e h = absurd (omega arith)

-- The process from what initWorld leaves, through connectedWorld and initAmazon.
init_amazon-ups : (answer : Option Bool) (p : Started) → (init_amazon answer p).ups ≡ p.ups
unfolding init_amazon
init_amazon-ups none p = refl
init_amazon-ups (some ok) p = refl

connected_world-ups : (c : Option Connected) (p : Started) → (connected_world c p).ups ≡ p.ups
unfolding connected_world
connected_world-ups none p = refl
connected_world-ups (some c) p = elim (Bool-cases (str_eq c.result "connected!")) [
  | inl well ↦ rw well refl
  | inr ill ↦ rw ill refl
]

start-ups :
    (c : Option Connected) (answer : Option Bool) (s : Ups)
    → (start c answer s).ups ≡ (init_world 299 (clear_tables s)).1
unfolding start
start-ups c answer s = init_amazon-ups answer _ ∙ connected_world-ups c _

abbrev pub called_up : Env → Ups → Ups
called_up env s = record s { trucks = call_up env.now (truck_row 299) ∷ [] }

get_truck-one :
    (env : Env) (s : Ups)
    → s.trucks ≡ truck_row 299 ∷ []
    → get_truck env s ≡ some (299, called_up env s)
unfolding get_truck select truck_row update_where
get_truck-one env s e =
    let selected : select available s.trucks ≡ truck_row 299 ∷ [] = ap (select available) e in
    let found : All (λ r. r ≡ truck_row 299) (select available s.trucks) =
      subst (All (λ r. r ≡ truck_row 299)) (sym selected) (refl, tt) in
    let scanned : env.scan_trucks (select available s.trucks) ≡ truck_row 299 ∷ [] =
      one_scanned (env.scan_trucks (select available s.trucks)) (truck_row 299)
        (env.truck_length (select available s.trucks) ∙ ap length selected)
        (env.truck_rows (λ r. r ≡ truck_row 299) (select available s.trucks) found) in
    ap
      (λ rows. elim (first_truck rows) as (λ _. Option (ℕ × Ups)) [
        | none ↦ none
        | some id ↦
            some
              (id, record s { trucks = update_where (has_truck_id id) (call_up env.now) s.trucks })
      ])
      scanned
    ∙ ap
        (λ rows.
          some (299, record s { trucks = update_where (has_truck_id 299) (call_up env.now) rows }))
        e

-- However the world and Amazon answer, main goes on with one truck in its table, 299, and no package or
-- delivery: the first request for a truck is given that one, and the next waits until its row changes.
pub start_one_truck :
    (c : Option Connected) (answer : Option Bool) (s : Ups) (env : Env)
    → let ups = (start c answer s).ups in
      (ups.trucks ≡ truck_row 299 ∷ [])
      × (ups.packages ≡ [])
      × (ups.deliveries ≡ [])
      × (get_truck env ups ≡ some (299, called_up env ups))
      × (get_truck env (called_up env ups) ≡ none)
unfolding init_world clear_tables select truck_row
start_one_truck c answer s env =
    let ups = (start c answer s).ups in
    let trucks : ups.trucks ≡ truck_row 299 ∷ [] =
      ap (λ (u : Ups). u.trucks) (start-ups c answer s) in
    (
      trucks,
      ap (λ (u : Ups). u.packages) (start-ups c answer s),
      ap (λ (u : Ups). u.deliveries) (start-ups c answer s),
      get_truck-one env ups trucks,
      (get_truck-none_iff env (called_up env ups)).1 refl,
    )
