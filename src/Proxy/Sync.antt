-- ===== src/Proxy/Sync.antt =====
-- How the two maps and the list of LRUCache.hpp, project2_HTTPproxy/docker-deploy/src, hang together.
use duke_ece.Prelude.{
  ℕ, suc, ◌≡◌, ◌∙◌, ◌↔◌, ◌≤◌, ◌<◌, refl, sym, ap, false, List, [], ◌∷◌, some, none, length, arith,
  Bool-cases, Option-cases, inl, inr, All, All-imp, subst,
}
use duke_ece.Proxy.Text.{Text, same_text}
use duke_ece.Proxy.Lru.{
  Lru, find_key, set_key, erase_key, Node, pop_back, push_front, unlink, evict, store, forget,
}
use duke_ece.Proxy.Links.{
  same_text_iff, find-set_self, find-set_other, find-erase_other, find-erase_self, DistinctKeys,
  set_key-DistinctKeys, erase_key-DistinctKeys, length-set_new, length-set_old, length-erase_key,
}
use duke_ece.Proxy.Nodes.{address_of, Distinct, Without, erase_node-Without, pop_back-Without}

module _ {V : Type 0} where
  pub record InSync (s : Lru V) : Type 0 where
    pub linked : (i : Text) → find_key i s.key_map ≡ address_of i s.order
    pub stored : (i : Text) → (find_key i s.cache_map ≡ none) ↔ (address_of i s.order ≡ none)
    pub distinct : Distinct s.order
    pub fresh : All (λ n. n.0 < s.next_node) s.order
    pub map_keys : DistinctKeys s.key_map
    pub cache_keys : DistinctKeys s.cache_map
    pub sized : length s.cache_map ≡ length s.order
    pub bounded : length s.order ≤ s.capacity
    pub positive : 0 < s.capacity

  -- All is in order but for the key, which is in cacheMap and not in the list.
  pub record Unlinked (k : Text) (s : Lru V) : Type 0 where
    pub linked : (i : Text) → same_text k i ≡ false → find_key i s.key_map ≡ address_of i s.order
    pub stored :
        (i : Text)
        → same_text k i ≡ false
        → (find_key i s.cache_map ≡ none) ↔ (address_of i s.order ≡ none)
    pub gone : address_of k s.order ≡ none
    pub present : (v : V) × (find_key k s.cache_map ≡ some v)
    pub distinct : Distinct s.order
    pub fresh : All (λ n. n.0 < s.next_node) s.order
    pub map_keys : DistinctKeys s.key_map
    pub cache_keys : DistinctKeys s.cache_map
    pub sized : length s.cache_map ≡ suc (length s.order)
    pub bounded : suc (length s.order) ≤ s.capacity

  pub address_of_present :
      (k : Text) (s : Lru V) (v : V)
      → InSync s
      → find_key k s.cache_map ≡ some v
      → (a : ℕ) × (address_of k s.order ≡ some a)
  address_of_present k s v i e = elim (Option-cases (address_of k s.order)) [
    | inl nowhere ↦ absurd (ground (arith, (i.stored k).1 nowhere))
    | inr there ↦ there
  ]

  stored_present :
      (k : Text) (s : Lru V)
      → InSync s
      → ((a : ℕ) × (address_of k s.order ≡ some a))
      → (v : V) × (find_key k s.cache_map ≡ some v)
  stored_present k s i (a, there) = elim (Option-cases (find_key k s.cache_map)) [
    | inl absent ↦ absurd (ground (arith, (i.stored k).0 absent))
    | inr held ↦ held
  ]

  -- A full cache has a last key.
  last_taken :
      (s : Lru V)
      → InSync s
      → s.capacity ≤ length s.cache_map
      → (k : Text) × (rest : List Node) × (pop_back s.order ≡ some (k, rest))
        × ((a : ℕ) × (address_of k s.order ≡ some a))
        × Without k s.order rest
  last_taken s i full = go s.order i.distinct (omega (arith, full, i.sized, i.positive))
    where
      go :
          (nodes : List Node)
          → Distinct nodes
          → 0 < length nodes
          → (k : Text) × (rest : List Node) × (pop_back nodes ≡ some (k, rest))
            × ((a : ℕ) × (address_of k nodes ≡ some a))
            × Without k nodes rest
      go [] d some_node = absurd (omega arith)
      go (n ∷ nodes) d some_node = pop_back-Without n nodes d

  taken-Unlinked :
      (k : Text) (s : Lru V) (v : V) (rest : List Node)
      → InSync s
      → find_key k s.cache_map ≡ some v
      → Without k s.order rest
      → Unlinked k (record s { order = rest })
  taken-Unlinked k s v rest i e w =
      let shorter : suc (length rest) ≡ length s.order = w.shorter in
      record {
        linked = λ j ne. i.linked j ∙ sym (w.others j ne);
        stored = λ j ne.
            subst (λ o. (find_key j s.cache_map ≡ none) ↔ (o ≡ none)) (sym (w.others j ne))
              (i.stored j);
        gone = w.gone;
        present = (v, e);
        distinct = w.distinct;
        fresh = w.kept (λ n. n.0 < s.next_node) i.fresh;
        map_keys = i.map_keys;
        cache_keys = i.cache_keys;
        sized = i.sized ∙ sym shorter;
        bounded = omega (arith, i.bounded, shorter);
      }

  -- keyMap's iterator to a stored key points at the key's node.
  pub unlink-Unlinked :
      (k : Text) (s : Lru V) (v : V)
      → InSync s
      → find_key k s.cache_map ≡ some v
      → (rest : List Node) × (unlink k s ≡ some (record s { order = rest }))
        × Unlinked k (record s { order = rest })
  unfolding unlink
  unlink-Unlinked k s v i e =
      let (a, there) = address_of_present k s v i e in
      let (rest, f, w) = erase_node-Without k a s.order i.distinct there in
      (rest, rw (i.linked k ∙ there, f) refl, taken-Unlinked k s v rest i e w)

  pub push_front-InSync : (k : Text) (s : Lru V) → Unlinked k s → InSync (push_front k s)
  unfolding push_front address_of
  push_front-InSync k s u = record {
    linked = λ i. elim (Bool-cases (same_text k i)) [
      | inl mine ↦ rw mine (
          subst (λ x. find_key x (set_key k s.next_node s.key_map) ≡ some s.next_node)
            ((same_text_iff k i).0 mine) (find-set_self k s.next_node s.key_map))
      | inr other ↦ rw other (find-set_other k i s.next_node s.key_map other ∙ u.linked i other)
    ];
    stored = λ i. elim (Bool-cases (same_text k i)) [
      | inl mine ↦
          let there : find_key i s.cache_map ≡ some u.present.0 =
            subst (λ x. find_key x s.cache_map ≡ some u.present.0) ((same_text_iff k i).0 mine)
              u.present.1 in
          rw mine (λ e. absurd (ground (arith, there, e)), λ e. absurd (ground arith))
      | inr other ↦ rw other (u.stored i other)
    ];
    distinct = (All-imp _ _ s.order (λ n h. ground arith) u.fresh, u.gone, u.distinct);
    fresh = (omega arith, All-imp _ _ s.order (λ n h. omega arith) u.fresh);
    map_keys = set_key-DistinctKeys k s.next_node s.key_map u.map_keys;
    cache_keys = u.cache_keys;
    sized = u.sized;
    bounded = u.bounded;
    positive = omega (arith, u.bounded);
  }

  -- A new value for the key.
  pub store-Unlinked : (k : Text) (v : V) (s : Lru V) → Unlinked k s → Unlinked k (store k v s)
  unfolding store
  store-Unlinked k v s u = record {
    linked = u.linked;
    stored = λ i ne.
        subst (λ o. (o ≡ none) ↔ (address_of i s.order ≡ none))
          (sym (find-set_other k i v s.cache_map ne)) (u.stored i ne);
    gone = u.gone;
    present = (v, find-set_self k v s.cache_map);
    distinct = u.distinct;
    fresh = u.fresh;
    map_keys = u.map_keys;
    cache_keys = set_key-DistinctKeys k v s.cache_map u.cache_keys;
    sized = length-set_old k v u.present.0 s.cache_map u.present.1 ∙ u.sized;
    bounded = u.bounded;
  }

  -- A new key, for which there is room.
  pub new-Unlinked :
      (k : Text) (v : V) (s : Lru V)
      → InSync s
      → find_key k s.cache_map ≡ none
      → length s.order < s.capacity
      → Unlinked k (store k v s)
  unfolding store
  new-Unlinked k v s i e room = record {
    linked = λ j ne. i.linked j;
    stored = λ j ne.
        subst (λ o. (o ≡ none) ↔ (address_of j s.order ≡ none))
          (sym (find-set_other k j v s.cache_map ne)) (i.stored j);
    gone = (i.stored k).0 e;
    present = (v, find-set_self k v s.cache_map);
    distinct = i.distinct;
    fresh = i.fresh;
    map_keys = i.map_keys;
    cache_keys = set_key-DistinctKeys k v s.cache_map i.cache_keys;
    sized = length-set_new k v s.cache_map e ∙ ap suc i.sized;
    bounded = omega (arith, room);
  }

  -- The maps forget a key that is no longer in the list.
  erased-linked :
      (k : Text) (s : Lru V)
      → Unlinked k s
      → (i : Text) → find_key i (erase_key k s.key_map) ≡ address_of i s.order
  erased-linked k s u i = elim (Bool-cases (same_text k i)) [
    | inl mine ↦
        subst (λ x. find_key x (erase_key k s.key_map) ≡ address_of x s.order)
          ((same_text_iff k i).0 mine) (find-erase_self k s.key_map u.map_keys ∙ sym u.gone)
    | inr other ↦ find-erase_other k i s.key_map other ∙ u.linked i other
  ]

  erased-stored :
      (k : Text) (s : Lru V)
      → Unlinked k s
      → (i : Text) → (find_key i (erase_key k s.cache_map) ≡ none) ↔ (address_of i s.order ≡ none)
  erased-stored k s u i = elim (Bool-cases (same_text k i)) [
    | inl mine ↦
        subst (λ x. (find_key x (erase_key k s.cache_map) ≡ none) ↔ (address_of x s.order ≡ none))
          ((same_text_iff k i).0 mine)
          (λ _. u.gone, λ _. find-erase_self k s.cache_map u.cache_keys)
    | inr other ↦
        subst (λ o. (o ≡ none) ↔ (address_of i s.order ≡ none))
          (sym (find-erase_other k i s.cache_map other)) (u.stored i other)
  ]

  pub forget-InSync : (k : Text) (s : Lru V) → Unlinked k s → InSync (forget k s)
  unfolding forget
  forget-InSync k s u = record {
    linked = erased-linked k s u;
    stored = erased-stored k s u;
    distinct = u.distinct;
    fresh = u.fresh;
    map_keys = erase_key-DistinctKeys k s.key_map u.map_keys;
    cache_keys = erase_key-DistinctKeys k s.cache_map u.cache_keys;
    sized = omega (arith, length-erase_key k u.present.0 s.cache_map u.present.1, u.sized);
    bounded = omega (arith, u.bounded);
    positive = omega (arith, u.bounded);
  }

  -- A full cache makes room for one more: the last key of the list goes, the others stay.
  pub evict-InSync :
      (s : Lru V)
      → InSync s
      → s.capacity ≤ length s.cache_map
      → (after : Lru V) × (lru : Text) × (rest : List Node) × (evict s ≡ some after)
        × (pop_back s.order ≡ some (lru, rest))
        × InSync after
        × (length after.order < after.capacity)
        × ((v : V) × (find_key lru s.cache_map ≡ some v))
        × (find_key lru after.cache_map ≡ none)
        × ((j : Text)
            → same_text lru j ≡ false
            → find_key j after.cache_map ≡ find_key j s.cache_map)
        × ((j : Text) → find_key j s.cache_map ≡ none → find_key j after.cache_map ≡ none)
  unfolding evict forget
  evict-InSync s i full =
      let (lru, rest, e, there, w) = last_taken s i full in
      let (v, held) = stored_present lru s i there in
      let u = taken-Unlinked lru s v rest i held w in
      (
        forget lru (record s { order = rest }),
        lru,
        rest,
        rw e refl,
        e,
        forget-InSync lru (record s { order = rest }) u,
        u.bounded,
        (v, held),
        find-erase_self lru s.cache_map i.cache_keys,
        λ j ne. find-erase_other lru j s.cache_map ne,
        λ j absent. elim (Bool-cases (same_text lru j)) [
          | inl mine ↦
              subst (λ x. find_key x (erase_key lru s.cache_map) ≡ none)
                ((same_text_iff lru j).0 mine) (find-erase_self lru s.cache_map i.cache_keys)
          | inr other ↦ find-erase_other lru j s.cache_map other ∙ absent
        ],
      )
