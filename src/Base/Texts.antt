-- ===== src/Base/Texts.antt =====
-- std::string: the list of its bytes. A quoted text stands for its ASCII codes.
use Prim.Native.Nat.{ℕ, zero, suc, ◌+◌, ◌/◌, ◌%◌}
use Prim.Native.Char.{code}
use Prim.Native.String.{String}
use mathlib.Core.Bool.{Bool, true, false, ◌&&◌, ◌||◌}
use mathlib.Core.List.{List, [], ◌∷◌, ◌++◌}
use deep_forge.Base.Tests.{ltb, eqb, if◌then◌else◌}
use deep_forge.Base.Equality.{contains, nat_eq}

abbrev pub Text : Type 0
Text = List ℕ

unfoldable pub text : String → Text
text String.[] = []
text (String.◌∷◌ c s) = code c ∷ text s

-- `operator<` of std::string: bytewise, a proper prefix first
unfoldable pub text_ltb : Text → Text → Bool
text_ltb [] [] = false
text_ltb [] (y ∷ ys) = true
text_ltb (x ∷ xs) [] = false
text_ltb (x ∷ xs) (y ∷ ys) = ltb x y || (eqb x y && text_ltb xs ys)

-- `find('\0') != npos`
unfoldable pub has_nul : Text → Bool
has_nul s = contains 0 s

-- std::to_string on a number of at most the given count of digits
unfoldable pub decimal : ℕ → ℕ → Text
decimal zero n = []
decimal (suc digits) n =
    let higher = decimal digits (n / 10) in
    if ltb n 10 then (48 + n) ∷ [] else higher ++ (48 + n % 10) ∷ []

abbrev pub to_string : ℕ → Text
to_string = decimal 20
