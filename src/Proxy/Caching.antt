-- ===== src/Proxy/Caching.antt =====
-- What a client of LRUCache.hpp, project2_HTTPproxy/docker-deploy/src, can rely on.
use duke_ece.Prelude.{
  ◌≡◌, ◌∙◌, ◌≤◌, ◌<◌, refl, true, false, List, some, none, length, leb, arith, Bool-cases,
  Option-cases, inl, inr, subst,
}
use duke_ece.Proxy.Text.{Text, same_text}
use duke_ece.Proxy.Lru.{
  Lru, find_key, Node, pop_back, push_front, get, store, make_room, put, forget, remove,
}
use duke_ece.Proxy.Links.{same_text_iff, find-set_self, find-set_other, find-erase_self}
use duke_ece.Proxy.Sync.{
  InSync, unlink-Unlinked, push_front-InSync, store-Unlinked, new-Unlinked, forget-InSync,
  evict-InSync,
}

module _ {V : Type 0} where
  get-InSync :
      (default : V) (k : Text) (s : Lru V)
      → InSync s
      → (v : V) × (after : Lru V) × (get default k s ≡ some (v, after)) × InSync after
  unfolding get
  get-InSync default k s i = elim (Option-cases (find_key k s.cache_map)) [
    | inl absent ↦ (default, s, rw (absent, get) refl, i)
    | inr (v, held) ↦
        let (rest, e, u) = unlink-Unlinked k s v i held in
        (
          v,
          push_front k (record s { order = rest }),
          rw (held, get, e) refl,
          push_front-InSync k (record s { order = rest }) u,
        )
  ]

  -- A key that is there is found.
  pub get-found :
      (default v : V) (k : Text) (s : Lru V)
      → InSync s
      → find_key k s.cache_map ≡ some v
      → (after : Lru V) × (get default k s ≡ some (v, after))
  unfolding get
  get-found default v k s i held =
      let (rest, e, u) = unlink-Unlinked k s v i held in
      (push_front k (record s { order = rest }), rw (held, get, e) refl)

  pub remove-InSync :
      (k : Text) (s : Lru V)
      → InSync s
      → (after : Lru V) × (remove k s ≡ some after)
        × InSync after
        × (find_key k after.cache_map ≡ none)
  unfolding remove forget
  remove-InSync k s i = elim (Option-cases (find_key k s.cache_map)) [
    | inl absent ↦ (s, rw (absent, remove) refl, i, absent)
    | inr (v, held) ↦
        let (rest, e, u) = unlink-Unlinked k s v i held in
        (
          forget k (record s { order = rest }),
          rw (held, remove, e) refl,
          forget-InSync k (record s { order = rest }) u,
          find-erase_self k s.cache_map i.cache_keys,
        )
  ]

  -- The state in which a new key is stored: the old one, or what an eviction leaves.
  abbrev Roomy : Text → Lru V → Type 0
  Roomy k room =
      InSync room × (length room.order < room.capacity) × (find_key k room.cache_map ≡ none)

  make_room-Roomy :
      (k : Text) (s : Lru V)
      → InSync s
      → find_key k s.cache_map ≡ none
      → (room : Lru V) × (make_room s ≡ some room) × Roomy k room
  unfolding make_room
  make_room-Roomy k s i absent = elim (Bool-cases (leb s.capacity (length s.cache_map))) [
    | inl full ↦
        let (after, lru, rest, e, _, j, fits, _, _, _, still) = evict-InSync s i (ground arith) in
        (after, rw full e, (j, fits, still k absent))
    | inr fits ↦ (s, rw fits refl, (i, ground (arith, i.sized), absent))
  ]

  pub put-InSync :
      (k : Text) (v : V) (s : Lru V)
      → InSync s
      → (after : Lru V) × (put k v s ≡ some after)
        × InSync after
        × (find_key k after.cache_map ≡ some v)
  unfolding put push_front store
  put-InSync k v s i = elim (Option-cases (find_key k s.cache_map)) [
    | inl absent ↦
        let (room, e, (j, fits, new)) = make_room-Roomy k s i absent in
        (
          push_front k (store k v room),
          rw (absent, put, e) refl,
          push_front-InSync k (store k v room) (new-Unlinked k v room j new fits),
          find-set_self k v room.cache_map,
        )
    | inr (old, held) ↦
        let (rest, e, u) = unlink-Unlinked k s old i held in
        let apart = record s { order = rest } in
        (
          push_front k (store k v apart),
          rw (held, put, e) refl,
          push_front-InSync k (store k v apart) (store-Unlinked k v apart u),
          find-set_self k v s.cache_map,
        )
  ]

  -- In a cache whose maps and list agree, no operation follows an iterator to nowhere or pops an
  -- empty list, and each leaves them in agreement, the list within its capacity.
  pub operations-InSync :
      (default v : V) (k : Text) (s : Lru V)
      → InSync s
      → ((found : V) × (after : Lru V) × (get default k s ≡ some (found, after)) × InSync after)
        × ((after : Lru V) × (put k v s ≡ some after) × InSync after)
        × ((after : Lru V) × (remove k s ≡ some after) × InSync after)
  operations-InSync default v k s i =
      let (after, e, j, _) = put-InSync k v s i in
      let (rest, f, l, _) = remove-InSync k s i in
      (get-InSync default k s i, (after, e, j), (rest, f, l))

  -- What is put under a key is what the next `get` of the key gives, whatever stood there before.
  pub get-put :
      (default v : V) (k : Text) (s : Lru V)
      → InSync s
      → (after : Lru V) × (later : Lru V) × (put k v s ≡ some after)
        × (get default k after ≡ some (v, later))
  unfolding get
  get-put default v k s i =
      let (after, e, j, held) = put-InSync k v s i in
      let (rest, f, _) = unlink-Unlinked k after v j held in
      (after, push_front k (record after { order = rest }), e, rw (held, get, f) refl)

  absent_differs :
      (k j : Text) (v : V) (s : Lru V)
      → find_key k s.cache_map ≡ none
      → find_key j s.cache_map ≡ some v
      → same_text k j ≡ false
  absent_differs k j v s absent held = elim (Bool-cases (same_text k j)) [
    | inl same ↦
        let none_too : find_key j s.cache_map ≡ none =
          subst (λ x. find_key x s.cache_map ≡ none) ((same_text_iff k j).0 same) absent in
        absurd (ground (arith, none_too, held))
    | inr differs ↦ differs
  ]

  -- A new key put into a full cache drops the key at the end of the list, the least recently used, and
  -- keeps the value of every other.
  pub put-pop_back :
      (k : Text) (v : V) (s : Lru V)
      → InSync s
      → find_key k s.cache_map ≡ none
      → s.capacity ≤ length s.cache_map
      → (after : Lru V) × (lru : Text) × (rest : List Node) × (put k v s ≡ some after)
        × (pop_back s.order ≡ some (lru, rest))
        × (find_key lru after.cache_map ≡ none)
        × ((j : Text)
            → same_text k j ≡ false
            → same_text lru j ≡ false
            → find_key j after.cache_map ≡ find_key j s.cache_map)
  unfolding put make_room push_front store
  put-pop_back k v s i absent full =
      let (room, lru, rest, e, back, j, fits, (old, held), gone, others, _) =
        evict-InSync s i full in
      let differs : same_text k lru ≡ false = absent_differs k lru old s absent held in
      let crowded : leb s.capacity (length s.cache_map) ≡ true = ground arith in
      (
        push_front k (store k v room),
        lru,
        rest,
        rw (absent, put, crowded, e) refl,
        back,
        find-set_other k lru v room.cache_map differs ∙ gone,
        λ j ne ne'. find-set_other k j v room.cache_map ne ∙ others j ne',
      )
