-- ===== src/Ups/Dispatch.antt =====
-- Which truck getTruckTopickup calls up, and which trucks initWorld registers:
-- project5_miniUPS/docker-deploy/backend.
use duke_ece.Prelude.{
  ℕ, zero, suc, ◌≡◌, ◌≢◌, ◌∙◌, ◌↔◌, refl, sym, ap, subst, true, false, List, [], ◌∷◌, ◌++◌, Option,
  some, none, arith, Bool-cases, Option-cases, inl, inr, ◌==◌, ==_iff, select, update_where,
  find_first, All, length,
}
use duke_ece.Ups.State.{Truck, Ups, Env}
use duke_ece.Ups.Trucks.{
  has_truck_id, available, call_up, first_truck, get_truck, init_trucks, truck_row, init_world,
}

length_zero : {A : Type 0} (xs : List A) → length xs ≡ 0 → xs ≡ []
length_zero [] e = refl
length_zero (x ∷ xs) e = ground arith

first_none : (rows : List Truck) → first_truck rows ≡ none → rows ≡ []
first_none [] e = refl
first_none (t ∷ rows) e = ground arith

-- getTruckTopickup polls on exactly when no truck is idle, delivering or waiting at a warehouse.
pub get_truck-none_iff :
    (env : Env) (s : Ups) → (get_truck env s ≡ none) ↔ (select available s.trucks ≡ [])
unfolding get_truck
get_truck-none_iff env s =
    let rows = select available s.trucks in
    (
      λ e. elim (Option-cases (first_truck (env.scan_trucks rows))) [
        | inl nobody ↦
            length_zero rows
              (sym (env.truck_length rows) ∙ ap length (first_none (env.scan_trucks rows) nobody))
        | inr (id, found) ↦ ground arith
      ],
      λ e.
          ap
            (λ scanned. elim (first_truck scanned) as (λ _. Option (ℕ × Ups)) [
              | none ↦ none
              | some id ↦ some (
                id,
                record s { trucks = update_where (has_truck_id id) (call_up env.now) s.trucks },
              )
            ])
            (length_zero (env.scan_trucks rows) (env.truck_length rows ∙ ap length e)),
    )

-- Not free for another request: no truck with the id is available.
abbrev Taken : ℕ → Truck → Type 0
Taken id t = has_truck_id id t ≡ true → available t ≡ false

called-Taken :
    (id now : ℕ) (rows : List Truck)
    → All (Taken id) (update_where (has_truck_id id) (call_up now) rows)
unfolding update_where
called-Taken id now [] = tt
called-Taken id now (t ∷ rows) = elim (Bool-cases (has_truck_id id t)) [
  | inl mine ↦ rw mine (λ _. refl, called-Taken id now rows)
  | inr other ↦ rw other (λ mine. ground arith, called-Taken id now rows)
]

All-select_and :
    (P : Truck → Type 0) (rows : List Truck)
    → All P rows
    → All (λ t. P t × (available t ≡ true)) (select available rows)
unfolding select
All-select_and P [] h = tt
All-select_and P (t ∷ rows) (p, h) = elim (Bool-cases (available t)) [
  | inl free ↦ rw (free, available) ((p, free), All-select_and P rows h)
  | inr busy ↦ rw (busy, available) (All-select_and P rows h)
]

first_All :
    (P : Truck → Type 0) (rows : List Truck) (id : ℕ)
    → first_truck rows ≡ some id
    → All P rows
    → (t : Truck) × (P t × (t.truck_id ≡ id))
first_All P [] id e h = absurd (ground arith)
first_All P (t ∷ rows) id e (p, h) = (t, (p, ground arith))

-- A truck that is called up comes from a row that was available.
got :
    (P : Truck → Type 0) (env : Env) (s s' : Ups) (id : ℕ)
    → get_truck env s ≡ some (id, s')
    → All P s.trucks
    → (t : Truck) × ((P t × (available t ≡ true)) × (t.truck_id ≡ id))
unfolding get_truck
got P env s s' id e h =
    first_All (λ t. P t × (available t ≡ true)) (env.scan_trucks (select available s.trucks)) id
      (ground arith)
      (env.truck_rows (λ t. P t × (available t ≡ true)) (select available s.trucks)
        (All-select_and P s.trucks h))

get_truck-trucks :
    (env : Env) (s s' : Ups) (id : ℕ)
    → get_truck env s ≡ some (id, s')
    → s'.trucks ≡ update_where (has_truck_id id) (call_up env.now) s.trucks
unfolding get_truck
get_truck-trucks env s s' id e = ground arith

-- A truck that was called up is not called up again while its row stays as it is: two calls in a row
-- give two different trucks.
pub get_truck-get_truck :
    (env : Env) (s s₁ s₂ : Ups) (a b : ℕ)
    → get_truck env s ≡ some (a, s₁)
    → get_truck env s₁ ≡ some (b, s₂)
    → a ≢ b
get_truck-get_truck env s s₁ s₂ a b first second same =
    let taken : All (Taken a) s₁.trucks =
      subst (All (Taken a)) (sym (get_truck-trucks env s s₁ a first))
        (called-Taken a env.now s.trucks) in
    let (t, ((busy, free), named)) = got (Taken a) env s₁ s₂ b second taken in
    let mine : has_truck_id a t ≡ true = (==_iff t.truck_id a).1 (named ∙ sym same) in
    absurd (ground (arith, busy mine))

find_first-skip :
    (i : ℕ) (t : Truck) (rows : List Truck)
    → has_truck_id i t ≡ false
    → find_first (has_truck_id i) (rows ++ t ∷ []) ≡ find_first (has_truck_id i) rows
unfolding find_first
find_first-skip i t [] e = rw (e, has_truck_id)
find_first-skip i t (x ∷ rows) e = ground (arith, find_first-skip i t rows e)

length-init_trucks : (count i : ℕ) → length (init_trucks count i) ≡ count
unfolding init_trucks
length-init_trucks zero i = refl
length-init_trucks (suc count) i = omega (arith, length-init_trucks count (suc i))

apart : (i last : ℕ) → i ≢ last → (last == i) ≡ false
apart i last ne = elim (Bool-cases (last == i)) [
  | inl e ↦ absurd (ne (sym ((==_iff last i).0 e)))
  | inr e ↦ e
]

-- initWorld announces every truck to the world but registers the last one only: for each other
-- number the table has what it had before.
pub init_world_registers_last :
    (last : ℕ) (s : Ups)
    → (length (init_world last s).0 ≡ suc last)
      × ((init_world last s).1.trucks ≡ s.trucks ++ truck_row last ∷ [])
      × ((i : ℕ)
          → i ≢ last
          → find_first (has_truck_id i) (init_world last s).1.trucks
            ≡ find_first (has_truck_id i) s.trucks)
unfolding init_world truck_row
init_world_registers_last last s = (
  length-init_trucks (suc last) 0,
  refl,
  λ i ne. find_first-skip i (truck_row last) s.trucks (apart i last ne),
)
