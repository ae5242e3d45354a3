-- ===== src/Proxy/Refinement.antt =====
-- Each method of LRUCache.hpp, project2_HTTPproxy/docker-deploy/src, as a change of its recency list.
use duke_ece.Prelude.{
  suc, ◌-◌, ◌≡◌, ◌≢◌, ◌∙◌, ◌≤◌, ◌<◌, refl, sym, ap, true, false, List, [], ◌∷◌, none, some, length,
  leb, arith, Bool-cases, Option-cases, inl, inr, some-eq,
}
use duke_ece.Proxy.Text.{Text, same_text}
use duke_ece.Proxy.Lru.{
  Lru, Node, find_key, erase_key, set_key, erase_node, pop_back, unlink, push_front, store, forget,
  evict, make_room, get, put, remove,
}
use duke_ece.Proxy.Links.{
  same_text_self, find-set_other, find-set_self, find-erase_other, length-erase_key,
}
use duke_ece.Proxy.Nodes.{address_of}
use duke_ece.Proxy.Sync.{
  InSync, address_of_present, unlink-Unlinked, push_front-InSync, store-Unlinked, new-Unlinked,
  forget-InSync, evict-InSync,
}
use duke_ece.Proxy.Entries.{
  Valued, length-entries, find-entries-none, find-entries-some, entries-eq, erase_key-none,
  erase_node-entries, keep_first-length, pop_back-entries,
}
use duke_ece.Proxy.Recency.{entries, view, keep_first, recent_get, recent_put}

module _ {V : Type 0} where
  nodes-Valued :
      (m : List (Text × V)) (nodes : List Node)
      → ((i : Text) → address_of i nodes ≢ none → (v : V) × (find_key i m ≡ some v))
      → Valued m nodes
  unfolding address_of
  nodes-Valued m [] h = tt
  nodes-Valued m ((a, k) ∷ nodes) h = (
    h k (rw (same_text_self k) (λ e. cc)),
    nodes-Valued m nodes (λ i there. h i (elim (Bool-cases (same_text k i)) [
      | inl mine ↦ rw mine (λ e. cc)
      | inr other ↦ rw other there
    ])),
  )

  order-Valued : (s : Lru V) → InSync s → Valued s.cache_map s.order
  order-Valued s i = nodes-Valued s.cache_map s.order (λ k there.
      elim (Option-cases (find_key k s.cache_map)) [
        | inl absent ↦ absurd (there ((i.stored k).0 absent))
        | inr held ↦ held
      ])

  find_key-view : (k : Text) (s : Lru V) → InSync s → find_key k (view s) ≡ find_key k s.cache_map
  find_key-view k s i = elim (Option-cases (find_key k s.cache_map)) [
    | inl absent ↦
        find-entries-none k s.order s.cache_map (order-Valued s i) ((i.stored k).0 absent)
        ∙ sym absent
    | inr (v, held) ↦
        let (a, there) = address_of_present k s v i held in
        find-entries-some k a s.order s.cache_map (order-Valued s i) there
  ]

  pub length-view : (s : Lru V) → InSync s → length (view s) ≡ length s.order
  length-view s i = length-entries s.order s.cache_map (order-Valued s i)

  unlink-entries :
      (k : Text) (s : Lru V) (v : V) (rest : List Node)
      → InSync s
      → find_key k s.cache_map ≡ some v
      → unlink k s ≡ some (record s { order = rest })
      → entries rest s.cache_map ≡ erase_key k (view s)
  unfolding unlink
  unlink-entries k s v rest i held e =
      let (a, there) = address_of_present k s v i held in
      let linked : find_key k s.key_map ≡ some a = i.linked k ∙ there in
      elim (Option-cases (erase_node a s.order)) [
        | inl stuck ↦ absurd (ground arith)
        | inr (tail, erased) ↦
            let same : tail ≡ rest = ground arith in
            erase_node-entries k a s.order rest s.cache_map (order-Valued s i) i.distinct there
              (erased ∙ ap some same)
      ]

  -- A state that keeps the invariant and the capacity and shows the list.
  abbrev pub Shows : Lru V → List (Text × V) → Lru V → Type 0
  Shows s es after = InSync after × (view after ≡ es) × (after.capacity ≡ s.capacity)

  pub get_refines :
      (default : V) (k : Text) (s : Lru V)
      → InSync s
      → (after : Lru V) × (get default k s ≡ some ((recent_get default k (view s)).0, after))
        × Shows s (recent_get default k (view s)).1 after
  unfolding get recent_get push_front entries
  get_refines default k s i = elim (Option-cases (find_key k s.cache_map)) [
    | inl absent ↦
        let shown : find_key k (view s) ≡ none = find_key-view k s i ∙ absent in
        (s, rw (absent, get, recent_get, shown) refl, (i, rw (recent_get, shown) refl, refl))
    | inr (v, held) ↦
        let (rest, e, u) = unlink-Unlinked k s v i held in
        let shown : find_key k (view s) ≡ some v = find_key-view k s i ∙ held in
        (
          push_front k (record s { order = rest }),
          rw (held, get, e, recent_get, shown) refl,
          (
            push_front-InSync k (record s { order = rest }) u,
            rw (recent_get, shown, held, entries)
                (ap (◌∷◌ (k, v)) (unlink-entries k s v rest i held e)),
            refl,
          ),
        )
  ]

  pub remove_refines :
      (k : Text) (s : Lru V)
      → InSync s
      → (after : Lru V) × (remove k s ≡ some after) × Shows s (erase_key k (view s)) after
  unfolding remove forget
  remove_refines k s i = elim (Option-cases (find_key k s.cache_map)) [
    | inl absent ↦ (
      s,
      rw (absent, remove) refl,
      (i, sym (erase_key-none k (view s) (find_key-view k s i ∙ absent)), refl),
    )
    | inr (v, held) ↦
        let (rest, e, u) = unlink-Unlinked k s v i held in
        (
          forget k (record s { order = rest }),
          rw (held, remove, e) refl,
          (
            forget-InSync k (record s { order = rest }) u,
            entries-eq k rest s.cache_map (erase_key k s.cache_map) u.gone
                  (λ j ne. find-erase_other k j s.cache_map ne)
                ∙ unlink-entries k s v rest i held e,
            refl,
          ),
        )
  ]

  evicted :
      (s : Lru V) (lru : Text) (rest : List Node)
      → pop_back s.order ≡ some (lru, rest)
      → evict s ≡ some (forget lru (record s { order = rest }))
  unfolding evict forget
  evicted s lru rest back = rw back refl

  -- What make_room leaves for a new key: the first entries, one fewer than the capacity.
  record Room (k : Text) (s room : Lru V) : Type 0 where
    made : make_room s ≡ some room
    in_sync : InSync room
    fits : length room.order < room.capacity
    absent : find_key k room.cache_map ≡ none
    shown : view room ≡ keep_first (s.capacity - 1) (erase_key k (view s))
    same_capacity : room.capacity ≡ s.capacity

  Room-full :
      (k : Text) (s : Lru V)
      → InSync s
      → find_key k s.cache_map ≡ none
      → s.capacity ≤ length s.cache_map
      → (room : Lru V) × Room k s room
  unfolding make_room forget
  Room-full k s i new full =
      let (after, lru, rest, e, back, j, fits, _, gone, _, still) = evict-InSync s i full in
      let same : forget lru (record s { order = rest }) ≡ after =
        some-eq (sym (evicted s lru rest back) ∙ e) in
      let away : address_of lru rest ≡ none =
        ap (λ (x : Lru V). address_of lru x.order) same ∙ (j.stored lru).0 gone in
      let crowded : leb s.capacity (length s.cache_map) ≡ true = ground arith in
      let capacity : length s.order ≡ suc (s.capacity - 1) =
        omega (arith, full, i.sized, i.bounded, i.positive) in
      (
        after,
        record {
          made = rw crowded e;
          in_sync = j;
          fits = fits;
          absent = still k new;
          shown =
              ap view (sym same)
              ∙ entries-eq lru rest s.cache_map (erase_key lru s.cache_map) away
                  (λ i ne. find-erase_other lru i s.cache_map ne)
              ∙ pop_back-entries (s.capacity - 1) s.order rest lru s.cache_map (order-Valued s i)
                  capacity back
              ∙ ap (keep_first (s.capacity - 1))
                  (sym (erase_key-none k (view s) (find_key-view k s i ∙ new)));
          same_capacity = ap (λ (x : Lru V). x.capacity) (sym same);
        },
      )

  Room-left :
      (k : Text) (s : Lru V)
      → InSync s
      → find_key k s.cache_map ≡ none
      → leb s.capacity (length s.cache_map) ≡ false
      → Room k s s
  unfolding make_room
  Room-left k s i new left = record {
    made = rw left refl;
    in_sync = i;
    fits = ground (arith, i.sized);
    absent = new;
    shown = sym (
        ap (keep_first (s.capacity - 1)) (erase_key-none k (view s) (find_key-view k s i ∙ new))
        ∙ keep_first-length (s.capacity - 1) (view s) (ground (arith, length-view s i, i.sized)));
    same_capacity = refl;
  }

  Room-made :
      (k : Text) (s : Lru V)
      → InSync s
      → find_key k s.cache_map ≡ none
      → (room : Lru V) × Room k s room
  Room-made k s i new = elim (Bool-cases (leb s.capacity (length s.cache_map))) [
    | inl full ↦ Room-full k s i new (ground arith)
    | inr left ↦ (s, Room-left k s i new left)
  ]

  -- The key, put in front of a list that it is not in.
  stored-view :
      (k : Text) (v : V) (s : Lru V)
      → address_of k s.order ≡ none
      → view (push_front k (store k v s)) ≡ (k, v) ∷ view s
  unfolding push_front store entries
  stored-view k v s e =
      rw (find-set_self k v s.cache_map, entries)
        (ap (◌∷◌ (k, v)) (
          entries-eq k s.order s.cache_map (set_key k v s.cache_map) e
            (λ j ne. find-set_other k j v s.cache_map ne)))

  pub put_refines :
      (k : Text) (v : V) (s : Lru V)
      → InSync s
      → (after : Lru V) × (put k v s ≡ some after)
        × Shows s (recent_put s.capacity k v (view s)) after
  unfolding put recent_put push_front store
  put_refines k v s i = elim (Option-cases (find_key k s.cache_map)) [
    | inl absent ↦
        let (room, r) = Room-made k s i absent in
        (
          push_front k (store k v room),
          rw (absent, put, r.made) refl,
          (
            push_front-InSync k (store k v room) (new-Unlinked k v room r.in_sync r.absent r.fits),
            stored-view k v room ((r.in_sync.stored k).0 r.absent) ∙ ap (◌∷◌ (k, v)) r.shown,
            r.same_capacity,
          ),
        )
    | inr (old, held) ↦
        let (rest, e, u) = unlink-Unlinked k s old i held in
        let apart = record s { order = rest } in
        let shorter = length-erase_key k old (view s) (find_key-view k s i ∙ held) in
        (
          push_front k (store k v apart),
          rw (held, put, e) refl,
          (
            push_front-InSync k (store k v apart) (store-Unlinked k v apart u),
            stored-view k v apart u.gone
                ∙ ap (◌∷◌ (k, v)) (
                    unlink-entries k s old rest i held e
                    ∙ sym (
                        keep_first-length (s.capacity - 1) (erase_key k (view s))
                          (omega (arith, shorter, length-view s i, i.bounded)))),
            refl,
          ),
        )
  ]
