-- ===== src/Proxy/Links.antt =====
-- The list of keys and the maps of LRUCache.hpp, project2_HTTPproxy/docker-deploy/src: what a change
-- at one key does to the others.
use duke_ece.Prelude.{
  ==_iff, ==_self, ◌==◌, ◌↔◌, suc, ◌≡◌, ◌∙◌, refl, sym, ap, true, false, List, [], ◌∷◌, some, none,
  length, arith, Bool-cases, inl, inr, subst,
}
use duke_ece.Proxy.Text.{Text, same_text}
use duke_ece.Proxy.Lru.{find_key, set_key, erase_key}

pub same_text_self : (k : Text) → same_text k k ≡ true
unfolding same_text
same_text_self [] = refl
same_text_self (c ∷ k) = rw (==_self c) (same_text_self k)

same_text-eq : (s t : Text) → same_text s t ≡ true → s ≡ t
unfolding same_text
same_text-eq [] [] h = refl
same_text-eq [] (d ∷ t) h = ground arith
same_text-eq (c ∷ s) [] h = ground arith
same_text-eq (c ∷ s) (d ∷ t) h = elim (Bool-cases (c == d)) [
  | inl same ↦
      let tail : s ≡ t = same_text-eq s t (rw same at h) in
      ap (λ x. x ∷ s) ((==_iff c d).0 same) ∙ ap (◌∷◌ d) tail
  | inr differs ↦ absurd (ground arith)
]

pub same_text_iff : (s t : Text) → (same_text s t ≡ true) ↔ (s ≡ t)
same_text_iff s t = (same_text-eq s t, λ e. subst (λ x. same_text s x ≡ true) e (same_text_self s))

-- Equal texts pass the same tests.
pub same_text_apart :
    (j k i : Text) → same_text j k ≡ true → same_text k i ≡ false → same_text j i ≡ false
same_text_apart j k i same other =
    subst (λ x. same_text x i ≡ false) (sym ((same_text_iff j k).0 same)) other

pub same_text_sym : (j k : Text) → same_text j k ≡ false → same_text k j ≡ false
same_text_sym j k other = elim (Bool-cases (same_text k j)) [
  | inl e ↦
      let same : same_text j k ≡ true = (same_text_iff j k).1 (sym ((same_text_iff k j).0 e)) in
      absurd (ground arith)
  | inr e ↦ e
]

module _ {ℓ} {A : Type ℓ} where
  pub find-set_self : (k : Text) (a : A) (m : List (Text × A)) → find_key k (set_key k a m) ≡ some a
  unfolding find_key set_key
  find-set_self k a [] = rw (same_text_self k) refl
  find-set_self k a ((j, b) ∷ m) = elim (Bool-cases (same_text j k)) [
    | inl here ↦ rw (here, here) refl
    | inr there ↦ rw (there, there) (find-set_self k a m)
  ]

  pub find-set_other :
      (k i : Text) (a : A) (m : List (Text × A))
      → same_text k i ≡ false
      → find_key i (set_key k a m) ≡ find_key i m
  unfolding find_key set_key
  find-set_other k i a [] ne = rw ne refl
  find-set_other k i a ((j, b) ∷ m) ne = elim (Bool-cases (same_text j k)) [
    | inl here ↦ rw (here, same_text_apart j k i here ne, find_key) refl
    | inr there ↦ elim (Bool-cases (same_text j i)) [
      | inl mine ↦ rw (there, mine) refl
      | inr other ↦ rw (there, other) (find-set_other k i a m ne)
    ]
  ]

  pub find-erase_other :
      (k i : Text) (m : List (Text × A))
      → same_text k i ≡ false
      → find_key i (erase_key k m) ≡ find_key i m
  unfolding find_key erase_key
  find-erase_other k i [] ne = refl
  find-erase_other k i ((j, b) ∷ m) ne = elim (Bool-cases (same_text j k)) [
    | inl here ↦ rw (here, same_text_apart j k i here ne) refl
    | inr there ↦ elim (Bool-cases (same_text j i)) [
      | inl mine ↦ rw (there, mine) refl
      | inr other ↦ rw (there, other) (find-erase_other k i m ne)
    ]
  ]

  -- No key stands twice.
  abbrev pub DistinctKeys : List (Text × A) → Type ℓ
  DistinctKeys [] = Unit
  DistinctKeys ((j, b) ∷ m) = (find_key j m ≡ none) × DistinctKeys m

  pub find-erase_self :
      (k : Text) (m : List (Text × A)) → DistinctKeys m → find_key k (erase_key k m) ≡ none
  unfolding find_key erase_key
  find-erase_self k [] d = refl
  find-erase_self k ((j, b) ∷ m) (new, d) = elim (Bool-cases (same_text j k)) [
    | inl here ↦ rw here (subst (λ x. find_key x m ≡ none) ((same_text_iff j k).0 here) new)
    | inr there ↦ rw (there, there) (find-erase_self k m d)
  ]

  pub set_key-DistinctKeys :
      (k : Text) (a : A) (m : List (Text × A)) → DistinctKeys m → DistinctKeys (set_key k a m)
  unfolding find_key set_key
  set_key-DistinctKeys k a [] d = (refl, tt)
  set_key-DistinctKeys k a ((j, b) ∷ m) (new, d) = elim (Bool-cases (same_text j k)) [
    | inl here ↦ rw here (new, d)
    | inr there ↦
        rw there
          (find-set_other k j a m (same_text_sym j k there) ∙ new, set_key-DistinctKeys k a m d)
  ]

  pub erase_key-DistinctKeys :
      (k : Text) (m : List (Text × A)) → DistinctKeys m → DistinctKeys (erase_key k m)
  unfolding find_key erase_key
  erase_key-DistinctKeys k [] d = tt
  erase_key-DistinctKeys k ((j, b) ∷ m) (new, d) = elim (Bool-cases (same_text j k)) [
    | inl here ↦ rw here d
    | inr there ↦
        rw there
          (find-erase_other k j m (same_text_sym j k there) ∙ new, erase_key-DistinctKeys k m d)
  ]

  pub length-set_new :
      (k : Text) (a : A) (m : List (Text × A))
      → find_key k m ≡ none
      → length (set_key k a m) ≡ suc (length m)
  unfolding find_key set_key
  length-set_new k a [] e = refl
  length-set_new k a ((j, b) ∷ m) e = elim (Bool-cases (same_text j k)) [
    | inl here ↦ absurd (ground arith)
    | inr there ↦ rw there (ap suc (length-set_new k a m (rw there at e)))
  ]

  pub length-set_old :
      (k : Text) (a b : A) (m : List (Text × A))
      → find_key k m ≡ some b
      → length (set_key k a m) ≡ length m
  unfolding find_key set_key
  length-set_old k a b [] e = absurd (ground arith)
  length-set_old k a b ((j, c) ∷ m) e = elim (Bool-cases (same_text j k)) [
    | inl here ↦ rw here refl
    | inr there ↦ rw there (ap suc (length-set_old k a b m (rw there at e)))
  ]

  pub length-erase_key :
      (k : Text) (b : A) (m : List (Text × A))
      → find_key k m ≡ some b
      → suc (length (erase_key k m)) ≡ length m
  unfolding find_key erase_key
  length-erase_key k b [] e = absurd (ground arith)
  length-erase_key k b ((j, c) ∷ m) e = elim (Bool-cases (same_text j k)) [
    | inl here ↦ rw here refl
    | inr there ↦ rw there (ap suc (length-erase_key k b m (rw there at e)))
  ]
