-- ===== src/Proxy/Lru.antt =====
-- LRUCache.hpp of project2_HTTPproxy/docker-deploy/src, for the key type std::string. `none` is undefined
-- behaviour: an iterator to no node, or `back` on an empty list.
use duke_ece.Prelude.{
  ℕ, suc, ◌==◌, List, [], ◌∷◌, Option, some, none, length, leb, ◌>>=◌, if◌then◌else◌,
}
use duke_ece.Proxy.Text.{Text, same_text}

-- std::unordered_map, whose order the code never looks at.
unfoldable pub find_key {ℓ} : {A : Type ℓ} → Text → List (Text × A) → Option A
find_key k [] = none
find_key k ((j, a) ∷ m) = if same_text j k then some a else find_key k m

unfoldable pub set_key {ℓ} : {A : Type ℓ} → Text → A → List (Text × A) → List (Text × A)
set_key k a [] = (k, a) ∷ []
set_key k a ((j, b) ∷ m) = if same_text j k then (j, a) ∷ m else (j, b) ∷ set_key k a m

unfoldable pub erase_key {ℓ} : {A : Type ℓ} → Text → List (Text × A) → List (Text × A)
erase_key k [] = []
erase_key k ((j, b) ∷ m) = if same_text j k then m else (j, b) ∷ erase_key k m

-- A node of the std::list: its address, to which iterators point, and its key.
abbrev pub Node : Type 0
Node = ℕ × Text

-- list::erase.
unfoldable pub erase_node : ℕ → List Node → Option (List Node)
erase_node a [] = none
erase_node a ((b, j) ∷ nodes) =
    let erased = erase_node a nodes in
    if b == a then some nodes else (do rest ← erased; some ((b, j) ∷ rest))

-- list::back and list::pop_back.
unfoldable pub pop_back : List Node → Option (Text × List Node)
pop_back [] = none
pop_back ((a, k) ∷ []) = some (k, [])
pop_back (n ∷ next ∷ nodes) = do (k, rest) ← pop_back (next ∷ nodes); some (k, n ∷ rest)

-- `next_node` is the address of the next node that the list allocates.
pub record Lru (V : Type 0) : Type 0 where
  pub capacity : ℕ
  pub key_map : List (Text × ℕ)
  pub order : List Node
  pub cache_map : List (Text × V)
  pub next_node : ℕ

abbrev pub init_lru : {V : Type 0} → Lru V
init_lru = record { capacity = 50; key_map = []; order = []; cache_map = []; next_node = 0 }

-- The key is put in front, and keyMap points at its node.
unfoldable pub push_front : {V : Type 0} → Text → Lru V → Lru V
push_front k s = record s {
  order = (s.next_node, k) ∷ s.order;
  key_map = set_key k s.next_node s.key_map;
  next_node = suc s.next_node;
}

-- `order.erase(keyMap[key])`.
unfoldable pub unlink : {V : Type 0} → Text → Lru V → Option (Lru V)
unlink k s = do
  a ← find_key k s.key_map
  rest ← erase_node a s.order
  some (record s { order = rest })

-- The first argument is `ValueType()`.
unfoldable pub get : {V : Type 0} → V → Text → Lru V → Option (V × Lru V)
get default k s = elim (find_key k s.cache_map) [
  | none ↦ some (default, s)
  | some v ↦ (do apart ← unlink k s; some (v, push_front k apart))
]

-- The least recently used element goes.
unfoldable pub evict : {V : Type 0} → Lru V → Option (Lru V)
evict s = do
  (lru, rest) ← pop_back s.order
  some (record s {
    order = rest;
    key_map = erase_key lru s.key_map;
    cache_map = erase_key lru s.cache_map;
  })

unfoldable pub store : {V : Type 0} → Text → V → Lru V → Lru V
store k v s = record s { cache_map = set_key k v s.cache_map }

unfoldable pub make_room : {V : Type 0} → Lru V → Option (Lru V)
make_room s = if leb s.capacity (length s.cache_map) then evict s else some s

unfoldable pub put : {V : Type 0} → Text → V → Lru V → Option (Lru V)
put k v s = elim (find_key k s.cache_map) [
  | some _ ↦ (do apart ← unlink k s; some (store k v (push_front k apart)))
  | none ↦ (do room ← make_room s; some (store k v (push_front k room)))
]

unfoldable pub forget : {V : Type 0} → Text → Lru V → Lru V
forget k s = record s { key_map = erase_key k s.key_map; cache_map = erase_key k s.cache_map }

unfoldable pub remove : {V : Type 0} → Text → Lru V → Option (Lru V)
remove k s = elim (find_key k s.cache_map) [
  | none ↦ some s
  | some _ ↦ (do apart ← unlink k s; some (forget k apart))
]
