-- ===== src/Exchange/Digits.antt =====
-- The number that a decimal text stands for, as PostgreSQL reads it, and format_decimal of
-- project4_stockexchange/docker-deploy/matching-engine/database.cpp.
use duke_ece.Prelude.{
  ℕ, zero, suc, ◌+◌, ◌*◌, ◌/◌, ◌%◌, ◌-◌, ◌==◌, ◌<◌, ◌≡◌, ◌∙◌, refl, sym, ap, false, [], ◌∷◌, arith,
  All, Bool-cases, inl, inr, if◌then◌else◌,
}
use duke_ece.Prelude.Int.{ℤ, pos, negsuc}
use duke_ece.Exchange.Xml.{Bytes}
use duke_ece.Exchange.Decimal.{
  point, digits_before, six_digits, fixed_text, unless_zero, strip_zeros, pop_point, format_natural,
  format_decimal,
}

-- The decimals, each worth a tenth of the one before.
unfoldable pub read_decimals : ℕ → Bytes → ℕ
read_decimals worth [] = 0
read_decimals worth (c ∷ s) = (c - b'0') * worth + read_decimals (worth / 10) s

-- The digits in front of the point, added to those that were read; in millionths.
unfoldable pub read_natural : ℕ → Bytes → ℕ
read_natural n [] = n * 1000000
read_natural n (c ∷ s) =
    let further = read_natural (n * 10 + (c - b'0')) s in
    if c == point then n * 1000000 + read_decimals 100000 s else further

abbrev negated : ℕ → ℤ
negated zero = pos 0
negated (suc n) = negsuc n

unfoldable pub read_decimal : Bytes → ℤ
read_decimal [] = pos 0
read_decimal (c ∷ s) =
    if c == b'-' then negated (read_natural 0 s) else pos (read_natural 0 (c ∷ s))

read_decimals-strip_zeros :
    (s : Bytes) (worth : ℕ) → read_decimals worth (strip_zeros s) ≡ read_decimals worth s
unfolding read_decimals strip_zeros
read_decimals-strip_zeros [] worth = refl
read_decimals-strip_zeros (c ∷ s) worth =
    go (strip_zeros s) (read_decimals-strip_zeros s (worth / 10))
  where
    go :
        (t : Bytes)
        → read_decimals (worth / 10) t ≡ read_decimals (worth / 10) s
        → read_decimals worth (unless_zero c t) ≡ read_decimals worth (c ∷ s)
    go [] e = elim (Bool-cases (c == b'0')) [
      | inl nought ↦ rw nought (ground arith)
      | inr digit ↦ rw digit (omega (arith, e))
    ]
    go (d ∷ t) e = omega (arith, e)

read_decimals-six_digits : (n : ℕ) → n < 1000000 → read_decimals 100000 (six_digits n) ≡ n
unfolding read_decimals
read_decimals-six_digits n h = omega arith

read_digit :
    (n d : ℕ) (s : Bytes) → d < 10 → read_natural n ((b'0' + d) ∷ s) ≡ read_natural (n * 10 + d) s
unfolding read_natural
read_digit n d s h =
    let digit : ((b'0' + d) == point) ≡ false = ground arith in
    rw digit (ap (λ k. read_natural (n * 10 + k) s) (omega arith))

read_natural-digits_before :
    (fuel n : ℕ) (s : Bytes) → n < fuel → read_natural 0 (digits_before fuel n s) ≡ read_natural n s
unfolding digits_before
read_natural-digits_before zero n s h = absurd (omega arith)
read_natural-digits_before (suc fuel) n s h = elim (Bool-cases (n / 10 == 0)) [
  | inl last ↦
      rw last (read_digit 0 (n % 10) s (omega arith) ∙ ap (λ k. read_natural k s) (ground arith))
  | inr more ↦ rw more (
      read_natural-digits_before fuel (n / 10) ((b'0' + n % 10) ∷ s) (ground arith)
      ∙ read_digit (n / 10) (n % 10) s (omega arith)
      ∙ ap (λ k. read_natural k s) (omega arith))
]

strip_zeros-cons : (c d : ℕ) (s t : Bytes) → strip_zeros s ≡ d ∷ t → strip_zeros (c ∷ s) ≡ c ∷ d ∷ t
unfolding strip_zeros
strip_zeros-cons c d s t e = ap (unless_zero c) e

strip_zeros-digits_before :
    (fuel n d : ℕ) (s t : Bytes)
    → strip_zeros s ≡ d ∷ t
    → strip_zeros (digits_before fuel n s) ≡ digits_before fuel n (d ∷ t)
unfolding digits_before
strip_zeros-digits_before zero n d s t e = e
strip_zeros-digits_before (suc fuel) n d s t e = elim (Bool-cases (n / 10 == 0)) [
  | inl last ↦ rw last (strip_zeros-cons (b'0' + n % 10) d s t e)
  | inr more ↦ rw more (
      strip_zeros-digits_before fuel (n / 10) (b'0' + n % 10) ((b'0' + n % 10) ∷ s) (d ∷ t)
        (strip_zeros-cons (b'0' + n % 10) d s t e))
]

pop_point-digits_before :
    (fuel n d : ℕ) (t : Bytes)
    → pop_point (digits_before fuel n (d ∷ t)) ≡ digits_before fuel n (pop_point (d ∷ t))
unfolding digits_before pop_point
pop_point-digits_before zero n d t = refl
pop_point-digits_before (suc fuel) n d t = elim (Bool-cases (n / 10 == 0)) [
  | inl last ↦ rw last refl
  | inr more ↦ rw more (pop_point-digits_before fuel (n / 10) (b'0' + n % 10) (d ∷ t))
]

-- A text without a point.
abbrev Pointless : Bytes → Type 0
Pointless s = All (λ c. (c == point) ≡ false) s

strip_zeros-Pointless : (s : Bytes) → Pointless s → Pointless (strip_zeros s)
unfolding strip_zeros
strip_zeros-Pointless [] h = tt
strip_zeros-Pointless (c ∷ s) (other, h) = go (strip_zeros s) (strip_zeros-Pointless s h)
  where
    go : (t : Bytes) → Pointless t → Pointless (unless_zero c t)
    go [] k = elim (Bool-cases (c == b'0')) [
      | inl nought ↦ rw nought tt
      | inr digit ↦ rw digit (other, tt)
    ]
    go (d ∷ t) k = (other, k)

pop_point-Pointless : (s : Bytes) → Pointless s → pop_point s ≡ s
unfolding pop_point
pop_point-Pointless [] h = refl
pop_point-Pointless (c ∷ []) (other, h) = rw other refl
pop_point-Pointless (c ∷ d ∷ s) (other, h) = ap (◌∷◌ c) (pop_point-Pointless (d ∷ s) h)

six_digits-Pointless : (n : ℕ) → Pointless (six_digits n)
six_digits-Pointless n = ground arith

-- The point and the decimals behind it, as they are read behind a number.
read_natural-pop_point :
    (n : ℕ) (t : Bytes)
    → Pointless t
    → read_natural n (pop_point (point ∷ t)) ≡ n * 1000000 + read_decimals 100000 t
unfolding read_natural pop_point read_decimals
read_natural-pop_point n [] h = omega arith
read_natural-pop_point n (c ∷ t) h =
    ap (λ s. n * 1000000 + read_decimals 100000 s) (pop_point-Pointless (c ∷ t) h)

-- A character that is no zero stays in front.
sign_kept : (c : ℕ) (s : Bytes) → (c == b'0') ≡ false → strip_zeros (c ∷ s) ≡ c ∷ strip_zeros s
unfolding strip_zeros
sign_kept c s e = go (strip_zeros s)
  where
    go : (t : Bytes) → unless_zero c t ≡ c ∷ t
    go [] = rw e refl
    go (d ∷ t) = refl

minus_kept : (t : Bytes) → pop_point (b'-' ∷ t) ≡ b'-' ∷ pop_point t
unfolding pop_point
minus_kept [] = refl
minus_kept (d ∷ t) = refl

-- What is behind the whole part of a formatted number.
abbrev behind : ℕ → Bytes
behind n = pop_point (point ∷ strip_zeros (six_digits (n % 1000000)))

abbrev whole_part : ℕ → ℕ
whole_part n = n / 1000000

format_natural-eq :
    (n : ℕ) → format_natural n ≡ digits_before (suc (whole_part n)) (whole_part n) (behind n)
unfolding format_natural fixed_text
format_natural-eq n =
    let decimals = six_digits (n % 1000000) in
    let kept : strip_zeros (point ∷ decimals) ≡ point ∷ strip_zeros decimals =
      sign_kept point decimals refl in
    ap pop_point (
      strip_zeros-digits_before (suc (whole_part n)) (whole_part n) point (point ∷ decimals)
        (strip_zeros decimals) kept)
    ∙ pop_point-digits_before (suc (whole_part n)) (whole_part n) point (strip_zeros decimals)

read_natural-format_natural : (n : ℕ) → read_natural 0 (format_natural n) ≡ n
read_natural-format_natural n =
    let decimals = six_digits (n % 1000000) in
    ap (read_natural 0) (format_natural-eq n)
    ∙ read_natural-digits_before (suc (whole_part n)) (whole_part n) (behind n) (omega arith)
    ∙ read_natural-pop_point (whole_part n) (strip_zeros decimals)
        (strip_zeros-Pointless decimals (six_digits-Pointless (n % 1000000)))
    ∙ omega (
      arith,
      read_decimals-strip_zeros decimals 100000,
      read_decimals-six_digits (n % 1000000) (omega arith),
    )

read_decimal-digit :
    (d : ℕ) (s : Bytes) → read_decimal ((b'0' + d) ∷ s) ≡ pos (read_natural 0 ((b'0' + d) ∷ s))
unfolding read_decimal
read_decimal-digit d s = let digit : ((b'0' + d) == b'-') ≡ false = ground arith in rw digit refl

-- Digits have no sign in front.
read_decimal-digits :
    (fuel n d : ℕ) (s : Bytes)
    → read_decimal (digits_before fuel n ((b'0' + d) ∷ s))
      ≡ pos (read_natural 0 (digits_before fuel n ((b'0' + d) ∷ s)))
unfolding digits_before
read_decimal-digits zero n d s = read_decimal-digit d s
read_decimal-digits (suc fuel) n d s = elim (Bool-cases (n / 10 == 0)) [
  | inl last ↦ rw last (read_decimal-digit (n % 10) ((b'0' + d) ∷ s))
  | inr more ↦ rw more (read_decimal-digits fuel (n / 10) (n % 10) ((b'0' + d) ∷ s))
]

read_decimal-digits_before :
    (fuel n : ℕ) (s : Bytes)
    → read_decimal (digits_before (suc fuel) n s)
      ≡ pos (read_natural 0 (digits_before (suc fuel) n s))
unfolding digits_before
read_decimal-digits_before fuel n s = elim (Bool-cases (n / 10 == 0)) [
  | inl last ↦ rw last (read_decimal-digit (n % 10) s)
  | inr more ↦ rw more (read_decimal-digits fuel (n / 10) (n % 10) s)
]

-- What format_decimal writes stands for the value, to the millionth, whatever its sign: no zero or point
-- that it takes off counts.
pub read_decimal-format_decimal : (v : ℤ) → read_decimal (format_decimal v) ≡ v
unfolding format_decimal
read_decimal-format_decimal (pos n) =
    ap read_decimal (format_natural-eq n)
    ∙ read_decimal-digits_before (whole_part n) (whole_part n) (behind n)
    ∙ ap (λ t. pos (read_natural 0 t)) (sym (format_natural-eq n))
    ∙ ap pos (read_natural-format_natural n)
read_decimal-format_decimal (negsuc n) =
    ap (λ t. read_decimal (pop_point t)) (sign_kept b'-' (fixed_text (suc n)) refl)
    ∙ ap read_decimal (minus_kept (strip_zeros (fixed_text (suc n))))
    ∙ unfold read_decimal format_natural in ap negated (read_natural-format_natural (suc n))
