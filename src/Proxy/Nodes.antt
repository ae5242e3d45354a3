-- ===== src/Proxy/Nodes.antt =====
-- The recency list of LRUCache.hpp, project2_HTTPproxy/docker-deploy/src: what is left when a node is
-- erased or the last one popped.
use duke_ece.Prelude.{
  ℕ, suc, ◌≡◌, ◌∙◌, refl, ap, ◌==◌, true, false, List, [], ◌∷◌, Option, some, none, length, arith,
  Bool-cases, inl, inr, All, if◌then◌else◌, subst,
}
use duke_ece.Proxy.Text.{Text, same_text}
use duke_ece.Proxy.Lru.{Node, erase_node, pop_back}
use duke_ece.Proxy.Links.{same_text_iff, same_text_self, same_text_apart, same_text_sym}

-- The address of the node with the key.
unfoldable pub address_of : Text → List Node → Option ℕ
address_of k [] = none
address_of k ((a, j) ∷ nodes) = if same_text j k then some a else address_of k nodes

-- No address and no key stands twice.
abbrev pub Distinct : List Node → Type 0
Distinct [] = Unit {0}
Distinct ((a, j) ∷ nodes) =
    All (λ n. (n.0 == a) ≡ false) nodes × (address_of j nodes ≡ none) × Distinct nodes

-- What is left when the node of the key is taken out.
pub record Without (k : Text) (nodes rest : List Node) : Type 1 where
  pub gone : address_of k rest ≡ none
  pub others : (i : Text) → same_text k i ≡ false → address_of i rest ≡ address_of i nodes
  pub shorter : suc (length rest) ≡ length nodes
  pub distinct : Distinct rest
  pub kept : (P : Node → Type 0) → All P nodes → All P rest

pub All-address :
    (P : ℕ → Type 0) (k : Text) (a : ℕ) (nodes : List Node)
    → All (λ n. P n.0) nodes
    → address_of k nodes ≡ some a
    → P a
unfolding address_of
All-address P k a [] h e = absurd (ground arith)
All-address P k a ((b, j) ∷ nodes) (p, h) e = elim (Bool-cases (same_text j k)) [
  | inl here ↦ let same : b ≡ a = ground arith in subst P same p
  | inr there ↦ All-address P k a nodes h (rw there at e)
]

head-Without :
    (k j : Text) (b : ℕ) (nodes : List Node)
    → same_text j k ≡ true
    → Distinct ((b, j) ∷ nodes)
    → Without k ((b, j) ∷ nodes) nodes
unfolding address_of
head-Without k j b nodes here (_, new, d) = record {
  gone = subst (λ x. address_of x nodes ≡ none) ((same_text_iff j k).0 here) new;
  others = λ i ne. rw (same_text_apart j k i here ne) refl;
  shorter = refl;
  distinct = d;
  kept = λ P h. h.1;
}

cons-Without :
    (k j : Text) (b : ℕ) (nodes rest : List Node)
    → same_text j k ≡ false
    → Distinct ((b, j) ∷ nodes)
    → Without k nodes rest
    → Without k ((b, j) ∷ nodes) ((b, j) ∷ rest)
unfolding address_of
cons-Without k j b nodes rest other (apart, new, _) w = record {
  gone = rw other w.gone;
  others = λ i ne. elim (Bool-cases (same_text j i)) [
    | inl mine ↦ rw mine refl
    | inr differs ↦ rw differs (w.others i ne)
  ];
  shorter = ap suc w.shorter;
  distinct = (
    w.kept (λ n. (n.0 == b) ≡ false) apart,
    w.others j (same_text_sym j k other) ∙ new,
    w.distinct,
  );
  kept = λ P h. (h.0, w.kept P h.1);
}

-- Erasing the node that the map points at takes out the key.
pub erase_node-Without :
    (k : Text) (a : ℕ) (nodes : List Node)
    → Distinct nodes
    → address_of k nodes ≡ some a
    → (rest : List Node) × (erase_node a nodes ≡ some rest) × Without k nodes rest
unfolding address_of erase_node
erase_node-Without k a [] d e = absurd (ground arith)
erase_node-Without k a ((b, j) ∷ nodes) d e = elim (Bool-cases (same_text j k)) [
  | inl here ↦
      let same : (b == a) ≡ true = ground arith in
      (nodes, rw same refl, head-Without k j b nodes here d)
  | inr there ↦
      let found : address_of k nodes ≡ some a = (rw there at e) in
      let apart : (a == b) ≡ false = All-address (λ x. (x == b) ≡ false) k a nodes d.0 found in
      let other : (b == a) ≡ false = ground arith in
      let (rest, f, w) = erase_node-Without k a nodes d.2 found in
      ((b, j) ∷ rest, rw (other, f) refl, cons-Without k j b nodes rest there d w)
]

-- `back` is a key of the list.
pub pop_back-Without :
    (n : Node) (nodes : List Node)
    → Distinct (n ∷ nodes)
    → (k : Text) × (rest : List Node) × (pop_back (n ∷ nodes) ≡ some (k, rest))
      × ((a : ℕ) × (address_of k (n ∷ nodes) ≡ some a))
      × Without k (n ∷ nodes) rest
unfolding address_of pop_back
pop_back-Without (b, j) [] d =
    (j, [], refl, (b, rw (same_text_self j) refl), head-Without j j b [] (same_text_self j) d)
pop_back-Without (b, j) (next ∷ nodes) d =
    let (k, rest, e, (a, f), w) = pop_back-Without next nodes d.2 in
    let other : same_text j k ≡ false = elim (Bool-cases (same_text j k)) [
      | inl same ↦
          let new : address_of k (next ∷ nodes) ≡ none =
            subst (λ x. address_of x (next ∷ nodes) ≡ none) ((same_text_iff j k).0 same) d.1 in
          absurd (ground (arith, new, f))
      | inr differs ↦ differs
    ] in
    (
      k,
      (b, j) ∷ rest,
      rw (e, pop_back) refl,
      (a, rw other f),
      cons-Without k j b (next ∷ nodes) rest other d w,
    )
