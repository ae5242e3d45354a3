-- ===== src/Proxy/Recency.antt =====
-- What LRUCache.hpp, project2_HTTPproxy/docker-deploy/src, promises: a list of keys with their values,
-- the most recently used first, and no more of them than the capacity. Sequences of calls, on the
-- cache and on such a list.
use duke_ece.Prelude.{ℕ, zero, suc, ◌-◌, List, [], ◌∷◌, Option, none, some, ◌>>=◌}
use duke_ece.Proxy.Text.{Text}
use duke_ece.Proxy.Lru.{Lru, Node, find_key, erase_key, get, put, remove}

-- The keys in the order of the list, each with its value in cacheMap.
unfoldable pub entries : {V : Type 0} → List Node → List (Text × V) → List (Text × V)
entries [] m = []
entries ((a, k) ∷ nodes) m = elim (find_key k m) [
  | none ↦ entries nodes m
  | some v ↦ (k, v) ∷ entries nodes m
]

abbrev pub view : {V : Type 0} → Lru V → List (Text × V)
view s = entries s.order s.cache_map

unfoldable pub keep_first {ℓ} : {A : Type ℓ} → ℕ → List A → List A
keep_first n [] = []
keep_first zero (x ∷ xs) = []
keep_first (suc n) (x ∷ xs) = x ∷ keep_first n xs

unfoldable pub recent_get : {V : Type 0} → V → Text → List (Text × V) → V × List (Text × V)
recent_get default k es = elim (find_key k es) [
  | none ↦ (default, es)
  | some v ↦ (v, (k, v) ∷ erase_key k es)
]

unfoldable pub recent_put : {V : Type 0} → ℕ → Text → V → List (Text × V) → List (Text × V)
recent_put capacity k v es = (k, v) ∷ keep_first (capacity - 1) (erase_key k es)

-- A call of one of the three methods; each answers, `put` and `remove` with nothing.
pub data Call (V : Type 0) : Type 0 where
  get_call : Text → Call V
  put_call : Text → V → Call V
  remove_call : Text → Call V

unfoldable pub call : {V : Type 0} → V → Call V → Lru V → Option (Option V × Lru V)
call default (get_call k) s = do (v, after) ← get default k s; some (some v, after)
call default (put_call k v) s = do after ← put k v s; some (none, after)
call default (remove_call k) s = do after ← remove k s; some (none, after)

unfoldable pub run : {V : Type 0} → V → List (Call V) → Lru V → Option (List (Option V) × Lru V)
run default [] s = some ([], s)
run default (c ∷ calls) s = do
  (answer, after) ← call default c s
  (answers, last) ← run default calls after
  some (answer ∷ answers, last)

unfoldable pub recent_call :
    {V : Type 0} → V → ℕ → Call V → List (Text × V) → Option V × List (Text × V)
recent_call default capacity (get_call k) es =
    let (v, after) = recent_get default k es in (some v, after)
recent_call default capacity (put_call k v) es = (none, recent_put capacity k v es)
recent_call default capacity (remove_call k) es = (none, erase_key k es)

unfoldable pub replay :
    {V : Type 0} → V → ℕ → List (Call V) → List (Text × V) → List (Option V) × List (Text × V)
replay default capacity [] es = ([], es)
replay default capacity (c ∷ calls) es =
    let (answer, after) = recent_call default capacity c es in
    let (answers, last) = replay default capacity calls after in (answer ∷ answers, last)
