-- ===== src/Import/Keys.antt =====
-- `parse_uid_key` and `is_indexed_port` of lib/Import/SerializedGraphImporter.cpp, with the parts of
-- std::from_chars and std::to_string that they use.
pub mod Canonical
use deep_forge.Base.{
  ℕ, zero, suc, ◌+◌, ◌-◌, ◌*◌, ◌^◌, Bool, true, false, not, ◌&&◌, ◌||◌, Option, none, some, List,
  [], ◌∷◌, Text, is_empty, to_string, if◌then◌else◌, ltb, leb, ◌==◌, nat_eq, list_eq, ℤ, pos,
  negsuc,
}

unfoldable pub is_digit : ℕ → Bool
is_digit c = leb 48 c && leb c 57

-- The digits in front, as a number that continues the given one, and the rest.
unfoldable pub read_digits : ℕ → Text → ℕ × Text
read_digits n [] = (n, [])
read_digits n (c ∷ cs) =
    let further = read_digits (10 * n + (c - 48)) cs in if is_digit c then further else (n, c ∷ cs)

unfoldable pub starts_with_digit : Text → Bool
starts_with_digit [] = false
starts_with_digit (c ∷ cs) = is_digit c

-- std::from_chars on a magnitude within a limit
unfoldable pub from_chars : ℕ → Text → Option (ℕ × Text)
from_chars limit t =
    if not (starts_with_digit t) || ltb limit (read_digits 0 t).0
    then none
    else some (read_digits 0 t)

abbrev pub with_sign : (ℕ → ℤ) → Option (ℕ × Text) → Option (ℤ × Text)
with_sign f none = none
with_sign f (some (n, rest)) = some (f n, rest)

abbrev pub negated : ℕ → ℤ
negated zero = pos zero
negated (suc n) = negsuc n

-- the same for int64_t
unfoldable pub from_chars_i64 : Text → Option (ℤ × Text)
from_chars_i64 [] = none
from_chars_i64 (c ∷ cs) =
    if c == 45
    then with_sign negated (from_chars (2 ^ 63) cs)
    else with_sign pos (from_chars (2 ^ 63 - 1) (c ∷ cs))

abbrev pub to_string_i64 : ℤ → Text
to_string_i64 (pos n) = to_string n
to_string_i64 (negsuc n) = 45 ∷ to_string (n + 1)

-- The end of both functions: all is read, and printing it gives the text.
abbrev pub whole : {V : Type 0} → (V → Text) → Text → Option (V × Text) → Option V
whole print key none = none
whole print key (some (value, rest)) =
    if is_empty rest && (print value == key) then some value else none

unfoldable pub parse_uid_key : Text → Option ℤ
parse_uid_key key = if is_empty key then none else whole to_string_i64 key (from_chars_i64 key)

unfoldable pub indexed_port : Text → Option ℕ
indexed_port port =
    if is_empty port then none else whole to_string port (from_chars (2 ^ 64 - 1) port)

abbrev pub is_some : {V : Type 0} → Option V → Bool
is_some none = false
is_some (some v) = true

unfoldable pub is_indexed_port : Text → Bool
is_indexed_port port = is_some (indexed_port port)
