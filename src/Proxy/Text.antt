-- ===== src/Proxy/Text.antt =====
-- std::string as project2_HTTPproxy/docker-deploy/src uses it: a list of bytes.
pub use duke_ece.Prelude.Bytes.{bytes}
use duke_ece.Prelude.{
  ℕ, zero, suc, ◌==◌, ◌-◌, ◌+◌, ◌^◌, leb, Bool, true, false, List, [], ◌∷◌, ◌++◌, Option, some,
  none, ◌&&◌, if◌then◌else◌, length, ltb,
}

abbrev pub Text : Type 0
Text = List ℕ

unfoldable pub starts_with : Text → Text → Bool
starts_with [] s = true
starts_with (c ∷ p) [] = false
starts_with (c ∷ p) (d ∷ s) = (c == d) && starts_with p s

-- `find(p) != npos`.
unfoldable pub occurs : Text → Text → Bool
occurs p [] = starts_with p []
occurs p (d ∷ s) = if starts_with p (d ∷ s) then true else occurs p s

abbrev pub is_empty : Text → Bool
is_empty [] = true
is_empty (_ ∷ _) = false

abbrev pub insert_at : ℕ → Text → Text → Text
insert_at zero new s = new ++ s
insert_at (suc n) new [] = new
insert_at (suc n) new (d ∷ s) = d ∷ insert_at n new s

-- `s.insert(s.length() - 2, new)`. `none`: on a shorter text the position wraps, and insert throws.
unfoldable pub insert_before_end : Text → Text → Option Text
insert_before_end new s = if ltb (length s) 2 then none else some (insert_at (length s - 2) new s)

unfoldable pub take_bytes : ℕ → Text → Text
take_bytes n [] = []
take_bytes zero (d ∷ s) = []
take_bytes (suc n) (d ∷ s) = d ∷ take_bytes n s

unfoldable pub drop_bytes : ℕ → Text → Text
drop_bytes n [] = []
drop_bytes zero (d ∷ s) = d ∷ s
drop_bytes (suc n) (d ∷ s) = drop_bytes n s

-- `s.substr(position, count)`. `none`: it throws where the position is past the end.
unfoldable pub substr : Text → ℕ → ℕ → Option Text
substr s position count =
    if leb position (length s) then some (take_bytes count (drop_bytes position s)) else none

-- `a - b` on size_t.
unfoldable pub size_minus : ℕ → ℕ → ℕ
size_minus a b = if leb b a then a - b else a + 2 ^ 64 - b

abbrev pub shifted : ℕ → Option ℕ → Option ℕ
shifted n none = none
shifted n (some i) = some (n + i)

-- `s.find(p)`; `none` is npos.
unfoldable pub find : Text → Text → Option ℕ
find p [] = if starts_with p [] then some 0 else none
find p (d ∷ s) = let later = find p s in if starts_with p (d ∷ s) then some 0 else shifted 1 later

-- `s.find(p, position)`, for a pattern that is not empty.
unfoldable pub find_from : Text → Text → ℕ → Option ℕ
find_from p s position = shifted position (find p (drop_bytes position s))

-- `operator==`.
unfoldable pub same_text : Text → Text → Bool
same_text [] [] = true
same_text [] (_ ∷ _) = false
same_text (_ ∷ _) [] = false
same_text (c ∷ s) (d ∷ t) = (c == d) && same_text s t
