-- ===== src/Prelude/Lists.antt =====
-- Lists over the native numbers: lengths, positions, filters by a Boolean test, and predicates on
-- all entries.
use Prim.Native.Nat.{ℕ, suc, ◌+◌}
use mathlib.Core.Path.{◌≡◌, subst}
use mathlib.Core.Bool.{Bool, false}
use mathlib.Core.Option.{Option, none, some}
use mathlib.Core.List.{List, [], ◌∷◌, ◌++◌}
use mathlib.Core.Logic.{inl, inr}
use native.Mathlib.Omega.{arith}
use duke_ece.Prelude.Tests.{if◌then◌else◌, Bool-cases}

module _ {ℓ} {A : Type ℓ} where
  abbrev pub length : List A → ℕ
  length [] = 0
  length (x ∷ xs) = suc (length xs)

  pub length-append : (xs ys : List A) → length (xs ++ ys) ≡ length xs + length ys
  length-append [] ys = omega arith
  length-append (x ∷ xs) ys = omega (arith, length-append xs ys)

  -- The entries that pass a Boolean test.
  unfoldable pub select : (A → Bool) → List A → List A
  select p [] = []
  select p (x ∷ xs) = if p x then x ∷ select p xs else select p xs

  -- The first entry that passes.
  unfoldable pub find_first : (A → Bool) → List A → Option A
  find_first p [] = none
  find_first p (x ∷ xs) = if p x then some x else find_first p xs

  -- The entries that pass are replaced by what `f` makes of them: `UPDATE ... SET ... WHERE ...`.
  unfoldable pub update_where : (A → Bool) → (A → A) → List A → List A
  update_where p f [] = []
  update_where p f (x ∷ xs) = (if p x then f x else x) ∷ update_where p f xs

  -- Every entry has the property.
  abbrev pub All {κ} : (A → Type κ) → List A → Type κ
  All P [] = Unit
  All P (x ∷ xs) = P x × All P xs

  pub All-append {κ} : (P : A → Type κ) (xs ys : List A) → All P xs → All P ys → All P (xs ++ ys)
  All-append P [] ys h k = k
  All-append P (x ∷ xs) ys h k = (h.0, All-append P xs ys h.1 k)

  pub All-select {κ} :
      (P : A → Type κ) (p : A → Bool) (xs : List A) → All P xs → All P (select p xs)
  unfolding select
  All-select P p [] h = tt
  All-select P p (x ∷ xs) h = ground (arith, All-select P p xs h.1)

  pub All-update_where {κ} :
      (P : A → Type κ) (p : A → Bool) (f : A → A) (xs : List A)
      → ((x : A) → P x → P (f x))
      → All P xs
      → All P (update_where p f xs)
  unfolding update_where
  All-update_where P p f [] keep h = tt
  All-update_where P p f (x ∷ xs) keep h =
      ground (arith, keep x h.0, All-update_where P p f xs keep h.1)

  pub All-imp {κ μ} :
      (P : A → Type κ) (Q : A → Type μ) (xs : List A) → ((x : A) → P x → Q x) → All P xs → All Q xs
  All-imp P Q [] imp h = tt
  All-imp P Q (x ∷ xs) imp h = (imp x h.0, All-imp P Q xs imp h.1)

  -- Where no entry is found, every entry fails the test.
  pub All-find_none :
      (p : A → Bool) (xs : List A) → find_first p xs ≡ none → All (λ x. p x ≡ false) xs
  unfolding find_first
  All-find_none p [] h = tt
  All-find_none p (x ∷ xs) h = ground (arith, All-find_none p xs)

  -- What holds of every entry holds of the one that is found.
  pub All_find {κ} :
      (P : A → Type κ) (p : A → Bool) (xs : List A) (x : A)
      → All P xs
      → find_first p xs ≡ some x
      → P x
  unfolding find_first
  All_find P p [] x h e = absurd (ground arith)
  All_find P p (y ∷ ys) x h e = elim (Bool-cases (p y)) [
    | inl here ↦ let same : y ≡ x = ground arith in subst P same h.0
    | inr there ↦ All_find P p ys x h.1 (rw there at e)
  ]
