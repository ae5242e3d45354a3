-- ===== src/Proxy/Entries.antt =====
-- The keys of the list of LRUCache.hpp, project2_HTTPproxy/docker-deploy/src, with their values in
-- cacheMap, when a node is erased, the last one popped, or the map changed at another key.
use duke_ece.Prelude.{
  ℕ, zero, suc, ◌≡◌, ◌∙◌, ◌≤◌, refl, sym, ap, subst, ◌==◌, true, false, List, [], ◌∷◌, Option, none,
  some, length, arith, Bool-cases, inl, inr, All, ◌>>=◌, some-eq,
}
use duke_ece.Proxy.Text.{Text, same_text}
use duke_ece.Proxy.Lru.{Node, find_key, erase_key, erase_node, pop_back}
use duke_ece.Proxy.Links.{same_text_iff, same_text_sym}
use duke_ece.Proxy.Nodes.{address_of, Distinct, All-address}
use duke_ece.Proxy.Recency.{entries, keep_first}

-- What `erase_node` and `pop_back` do behind the first node.
consed :
    (n : Node) (o : Option (List Node)) (rest : List Node)
    → (do tail ← o; some (n ∷ tail)) ≡ some rest
    → (tail : List Node) × (o ≡ some tail) × (n ∷ tail ≡ rest)
consed n none rest e = absurd (ground arith)
consed n (some tail) rest e = (tail, refl, some-eq e)

last_consed :
    (n : Node) (o : Option (Text × List Node)) (k : Text) (rest : List Node)
    → ◌>>=◌ {B = Text × List Node} o (λ p. some (p.0, n ∷ p.1)) ≡ some (k, rest)
    → (tail : List Node) × (o ≡ some (k, tail)) × (n ∷ tail ≡ rest)
last_consed n none k rest e = absurd (ground arith)
last_consed n (some (j, tail)) k rest e = (tail, ground arith, ground arith)

module _ {V : Type 0} where
  -- Every key of the list has a value.
  abbrev pub Valued : List (Text × V) → List Node → Type 0
  Valued m nodes = All (λ n. (v : V) × (find_key n.1 m ≡ some v)) nodes

  pub length-entries :
      (nodes : List Node) (m : List (Text × V))
      → Valued m nodes
      → length (entries nodes m) ≡ length nodes
  unfolding entries
  length-entries [] m h = refl
  length-entries ((a, k) ∷ nodes) m ((v, e), h) =
      rw (e, entries) (ap suc (length-entries nodes m h))

  pub find-entries-none :
      (i : Text) (nodes : List Node) (m : List (Text × V))
      → Valued m nodes
      → address_of i nodes ≡ none
      → find_key i (entries nodes m) ≡ none
  unfolding entries find_key address_of
  find-entries-none i [] m h e = refl
  find-entries-none i ((a, k) ∷ nodes) m ((v, held), h) e = elim (Bool-cases (same_text k i)) [
    | inl mine ↦ absurd (ground arith)
    | inr other ↦
        rw (held, entries, other, find_key) (find-entries-none i nodes m h (rw other at e))
  ]

  pub find-entries-some :
      (i : Text) (a : ℕ) (nodes : List Node) (m : List (Text × V))
      → Valued m nodes
      → address_of i nodes ≡ some a
      → find_key i (entries nodes m) ≡ find_key i m
  unfolding entries find_key address_of
  find-entries-some i a [] m h e = absurd (ground arith)
  find-entries-some i a ((b, k) ∷ nodes) m ((v, held), h) e = elim (Bool-cases (same_text k i)) [
    | inl mine ↦
        rw (held, entries, mine, find_key)
          (sym (subst (λ x. find_key x m ≡ some v) ((same_text_iff k i).0 mine) held))
    | inr other ↦
        rw (held, entries, other, find_key) (find-entries-some i a nodes m h (rw other at e))
  ]

  -- A key that is not in the list may change its value.
  pub entries-eq :
      (i : Text) (nodes : List Node) (m m' : List (Text × V))
      → address_of i nodes ≡ none
      → ((j : Text) → same_text i j ≡ false → find_key j m' ≡ find_key j m)
      → entries nodes m' ≡ entries nodes m
  unfolding entries address_of
  entries-eq i [] m m' e same = refl
  entries-eq i ((a, k) ∷ nodes) m m' e same = elim (Bool-cases (same_text k i)) [
    | inl mine ↦ absurd (ground arith)
    | inr other ↦
        let tail : entries nodes m' ≡ entries nodes m =
          entries-eq i nodes m m' (rw other at e) same in
        let found : find_key k m' ≡ find_key k m = same k (same_text_sym k i other) in
        (λ t. elim (found t) as (λ _. List (Text × V)) [ none ↦ tail t | some v ↦ (k, v) ∷ tail t ])
  ]

  pub erase_key-none :
      (k : Text) (es : List (Text × V)) → find_key k es ≡ none → erase_key k es ≡ es
  unfolding find_key erase_key
  erase_key-none k [] e = refl
  erase_key-none k ((j, v) ∷ es) e = elim (Bool-cases (same_text j k)) [
    | inl mine ↦ absurd (ground arith)
    | inr other ↦ rw other (ap (◌∷◌ (j, v)) (erase_key-none k es (rw other at e)))
  ]

  -- `order.erase` takes the key out of the view.
  pub erase_node-entries :
      (k : Text) (a : ℕ) (nodes rest : List Node) (m : List (Text × V))
      → Valued m nodes
      → Distinct nodes
      → address_of k nodes ≡ some a
      → erase_node a nodes ≡ some rest
      → entries rest m ≡ erase_key k (entries nodes m)
  unfolding address_of erase_node entries erase_key
  erase_node-entries k a [] rest m h d e f = absurd (ground arith)
  erase_node-entries k a ((b, j) ∷ nodes) rest m ((v, held), h) d e f =
      elim (Bool-cases (same_text j k)) [
        | inl here ↦
            let same : (b == a) ≡ true = ground arith in
            let left : nodes ≡ rest = some-eq (rw same at f) in
            rw (held, entries, here, erase_key) (ap (λ ns. entries ns m) (sym left))
        | inr there ↦
            let found : address_of k nodes ≡ some a = (rw there at e) in
            let apart : (a == b) ≡ false =
              All-address (λ x. (x == b) ≡ false) k a nodes d.0 found in
            let other : (b == a) ≡ false = ground arith in
            let (tail, g, left) = consed (b, j) (erase_node a nodes) rest (rw other at f) in
            ap (λ ns. entries ns m) (sym left)
            ∙ rw (held, entries, there, erase_key)
                (ap (◌∷◌ (j, v)) (erase_node-entries k a nodes tail m h d.2 found g))
      ]

  pub keep_first-length : (n : ℕ) (es : List (Text × V)) → length es ≤ n → keep_first n es ≡ es
  unfolding keep_first
  keep_first-length n [] h = refl
  keep_first-length zero (x ∷ es) h = absurd (omega arith)
  keep_first-length (suc n) (x ∷ es) h = ap (◌∷◌ x) (keep_first-length n es (omega arith))

  -- `pop_back` takes the last entry out of the view.
  pub pop_back-entries :
      (n : ℕ) (nodes rest : List Node) (k : Text) (m : List (Text × V))
      → Valued m nodes
      → length nodes ≡ suc n
      → pop_back nodes ≡ some (k, rest)
      → entries rest m ≡ keep_first n (entries nodes m)
  unfolding pop_back entries keep_first
  pop_back-entries n [] rest k m h e f = absurd (omega arith)
  pop_back-entries n ((b, j) ∷ []) rest k m ((v, held), h) e f =
      let none_left : rest ≡ [] = ground arith in
      let last : n ≡ 0 = omega arith in rw (none_left, last, held, entries) refl
  pop_back-entries zero ((b, j) ∷ next ∷ nodes) rest k m h e f = absurd (omega arith)
  pop_back-entries (suc n) ((b, j) ∷ next ∷ nodes) rest k m ((v, held), h) e f =
      let (tail, g, left) = last_consed (b, j) (pop_back (next ∷ nodes)) k rest f in
      ap (λ ns. entries ns m) (sym left)
      ∙ rw (held, entries, keep_first)
          (ap (◌∷◌ (j, v)) (pop_back-entries n (next ∷ nodes) tail k m h (omega arith) g))
