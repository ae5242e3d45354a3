-- ===== src/Exchange/Decimal.antt =====
-- format_decimal of project4_stockexchange/docker-deploy/matching-engine/database.cpp, on a value in
-- millionths: `std::fixed` writes six decimals.
use duke_ece.Prelude.{ℕ, zero, suc, ◌+◌, ◌/◌, ◌%◌, ◌==◌, [], ◌∷◌, if◌then◌else◌}
use duke_ece.Prelude.Int.{ℤ, pos, negsuc}
use duke_ece.Exchange.Xml.{Bytes}

abbrev pub point : ℕ
point = b'.'

-- The digits of a number in front of a text, for fuel above the number.
unfoldable pub digits_before : ℕ → ℕ → Bytes → Bytes
digits_before zero n s = s
digits_before (suc fuel) n s =
    let more = digits_before fuel (n / 10) ((b'0' + n % 10) ∷ s) in
    if n / 10 == 0 then (b'0' + n % 10) ∷ s else more

abbrev pub six_digits : ℕ → Bytes
six_digits n =
    (b'0' + n / 100000 % 10)
    ∷ (b'0' + n / 10000 % 10)
    ∷ (b'0' + n / 1000 % 10)
    ∷ (b'0' + n / 100 % 10)
    ∷ (b'0' + n / 10 % 10)
    ∷ (b'0' + n % 10)
    ∷ []

-- `oss << std::fixed << value` for a value that is not negative, in front of nothing.
unfoldable pub fixed_text : ℕ → Bytes
fixed_text n = digits_before (suc (n / 1000000)) (n / 1000000) (point ∷ six_digits (n % 1000000))

abbrev pub unless_zero : ℕ → Bytes → Bytes
unless_zero c [] = if c == b'0' then [] else c ∷ []
unless_zero c (d ∷ s) = c ∷ d ∷ s

-- `str.erase(str.find_last_not_of('0') + 1)`.
unfoldable pub strip_zeros : Bytes → Bytes
strip_zeros [] = []
strip_zeros (c ∷ s) = unless_zero c (strip_zeros s)

-- `if (str.back() == '.') str.pop_back()`.
unfoldable pub pop_point : Bytes → Bytes
pop_point [] = []
pop_point (c ∷ []) = if c == point then [] else c ∷ []
pop_point (c ∷ d ∷ s) = c ∷ pop_point (d ∷ s)

unfoldable pub format_natural : ℕ → Bytes
format_natural n = pop_point (strip_zeros (fixed_text n))

-- The sign is in front, where neither the zeros nor the point reach it.
unfoldable pub format_decimal : ℤ → Bytes
format_decimal (pos n) = format_natural n
format_decimal (negsuc n) = pop_point (strip_zeros (b'-' ∷ fixed_text (suc n)))
