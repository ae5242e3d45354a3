-- ===== src/Prelude/Bytes.antt =====
-- std::string as a list of bytes.
use Prim.Native.Nat.{ℕ}
use Prim.Native.Char.{code}
use Prim.Native.String.{String, [] as []ₜ, ◌∷◌ as ◌∷ₜ◌}
use mathlib.Core.List.{List, [], ◌∷◌}

-- The bytes of a string of ASCII characters.
abbrev pub bytes : String → List ℕ
bytes []ₜ = []
bytes (c ∷ₜ s) = code c ∷ bytes s
