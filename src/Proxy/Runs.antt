-- ===== src/Proxy/Runs.antt =====
-- Sequences of calls of the methods of LRUCache.hpp, project2_HTTPproxy/docker-deploy/src, from the cache
-- that its constructor makes.
use duke_ece.Prelude.{ℕ, ◌≡◌, ◌≤◌, refl, subst, List, [], ◌∷◌, some, length, arith}
use duke_ece.Proxy.Text.{Text}
use duke_ece.Proxy.Lru.{Lru, init_lru, find_key}
use duke_ece.Proxy.Nodes.{address_of}
use duke_ece.Proxy.Sync.{InSync}
use duke_ece.Proxy.Recency.{
  entries, view, Call, get_call, put_call, remove_call, call, run, recent_call, replay,
}
use duke_ece.Proxy.Refinement.{get_refines, put_refines, remove_refines, length-view}

module _ {V : Type 0} (default : V) where
  -- One call on a cache, and on a list for the capacity.
  abbrev Calls : Call V → Lru V → ℕ → List (Text × V) → Type 0
  Calls c s n es =
      (after : Lru V) × (call default c s ≡ some ((recent_call default n c es).0, after))
      × InSync after
      × (view after ≡ (recent_call default n c es).1)
      × (after.capacity ≡ n)

  call_refines : (c : Call V) (s : Lru V) → InSync s → Calls c s s.capacity (view s)
  unfolding call recent_call
  call_refines (get_call k) s i =
      let (after, e, (j, shown, same)) = get_refines default k s i in
      (after, rw e refl, j, shown, same)
  call_refines (put_call k v) s i =
      let (after, e, (j, shown, same)) = put_refines k v s i in (after, rw e refl, j, shown, same)
  call_refines (remove_call k) s i =
      let (after, e, (j, shown, same)) = remove_refines k s i in (after, rw e refl, j, shown, same)

  call_shown :
      (c : Call V) (n : ℕ) (es : List (Text × V)) (s : Lru V)
      → InSync s
      → view s ≡ es
      → s.capacity ≡ n
      → Calls c s n es
  call_shown c n es s i p q =
      subst (λ m. Calls c s m es) q (subst (λ xs. Calls c s s.capacity xs) p (call_refines c s i))

  run_refines :
      (calls : List (Call V)) (n : ℕ) (es : List (Text × V)) (s : Lru V)
      → InSync s
      → view s ≡ es
      → s.capacity ≡ n
      → (last : Lru V) × (run default calls s ≡ some ((replay default n calls es).0, last))
        × InSync last
        × (view last ≡ (replay default n calls es).1)
        × (last.capacity ≡ n)
  unfolding run replay
  run_refines [] n es s i p q = (s, refl, i, p, q)
  run_refines (c ∷ calls) n es s i p q =
      let (after, e, j, p', q') = call_shown c n es s i p q in
      let (last, f, l, shown, same) =
        run_refines calls n (recent_call default n c es).1 after j p' q' in
      (last, rw (e, f) refl, l, shown, same)

init_lru-InSync : {V : Type 0} → InSync (init_lru {V = V})
unfolding find_key address_of
init_lru-InSync = record {
  linked = λ i. refl;
  stored = λ i. (λ e. refl, λ e. refl);
  distinct = tt;
  fresh = tt;
  map_keys = tt;
  cache_keys = tt;
  sized = refl;
  bounded = omega arith;
  positive = omega arith;
}

-- Whatever is called on a new cache, no call meets a dangling iterator or an empty list, every `get`
-- answers as the list of the 50 most recently used keys does, and that list is what the cache
-- shows at the end.
pub run-replay :
    {V : Type 0} (default : V) (calls : List (Call V))
    → (last : Lru V) × (run default calls init_lru ≡ some ((replay default 50 calls []).0, last))
      × (view last ≡ (replay default 50 calls []).1)
      × (length (view last) ≤ 50)
unfolding entries
run-replay default calls =
    let (last, e, i, shown, same) =
      run_refines default calls 50 [] init_lru init_lru-InSync refl refl in
    (last, e, shown, omega (arith, length-view last i, i.bounded, same))
