-- ===== src/Artifact/Reader.antt =====
-- The class `Reader` of lib/Compiler/Artifact.cpp. Its position is the list of the bytes that are
-- left; a read gives its value and the bytes behind it, or fails. A failure of the source's reader
-- says nothing (the type `Unit`); the parser gives a group of reads its error.
use deep_forge.Base.{
  ℕ, zero, suc, ◌+◌, ◌-◌, ◌*◌, ◌^◌, Bool, true, false, Option, none, some, List, [], ◌∷◌, length,
  ltb, if◌then◌else◌, ℤ, pos, negsuc, Text,
}
use deep_forge.Metadata.{Array4, Array2}
use deep_forge.Artifact.Bytes.{maximum_string_size}

pub data Outcome (E A : Type 0) : Type 0 where
  failed : E → Outcome E A
  done : A → List ℕ → Outcome E A

abbrev pub Parser : Type 0 → Type 0 → Type 0
Parser E A = List ℕ → Outcome E A

abbrev pub Reader : Type 0 → Type 0
Reader A = Parser (Unit {0}) A

module _ {E : Type 0} where
  abbrev pub continue : {A B : Type 0} → Outcome E A → (A → Parser E B) → Outcome E B
  continue (failed e) step = failed e
  continue (done a left) step = step a left

  infixl 5 ◌>>=◌ ◌>>◌
  abbrev pub ◌>>=◌ : {A B : Type 0} → Parser E A → (A → Parser E B) → Parser E B
  ◌>>=◌ first step input = continue (first input) step

  abbrev pub ◌>>◌ : {A B : Type 0} → Parser E A → Parser E B → Parser E B
  ◌>>◌ first after input = continue (first input) (λ _. after)

  abbrev pub give : {A : Type 0} → A → Parser E A
  give a input = done a input

  -- `if (condition) return failure`
  abbrev pub refuse : Bool → E → Parser E (Unit {0})
  refuse true e input = failed e
  refuse false e input = done tt input

  -- a value that is there
  abbrev pub known : {A : Type 0} → Option A → E → Parser E A
  known none e input = failed e
  known (some a) e input = done a input

-- the error of a group of reads
abbrev pub or_else : {E A : Type 0} → Outcome (Unit {0}) A → E → Outcome E A
or_else (failed u) e = failed e
or_else (done a left) e = done a left

abbrev pub reading : {E A : Type 0} → Reader A → E → Parser E A
reading reader e input = or_else (reader input) e

-- The loop of `read_u32` and `read_u64`: the bytes left to read, the next byte's weight, and the
-- value so far. The source tests `has` before the loop; both ways a short input fails.
unfoldable pub read_word : ℕ → ℕ → ℕ → Reader ℕ
read_word zero weight value input = done value input
read_word (suc n) weight value [] = failed tt
read_word (suc n) weight value (byte ∷ left) =
    read_word n (weight * 256) (value + byte * weight) left

unfoldable pub read_u32 : Reader ℕ
read_u32 input = read_word 4 1 0 input

unfoldable pub read_u64 : Reader ℕ
read_u64 input = read_word 8 1 0 input

-- `std::bit_cast<std::int64_t>`
unfoldable pub from_u64 : ℕ → ℤ
from_u64 bits = if ltb bits (2 ^ 63) then pos bits else negsuc (2 ^ 64 - 1 - bits)

unfoldable pub read_i64 : Reader ℤ
read_i64 = do bits ← read_u64; give (from_u64 bits)

-- the next `count` bytes, where there are so many
unfoldable pub read_bytes : ℕ → Reader (List ℕ)
read_bytes zero input = done [] input
read_bytes (suc n) [] = failed tt
read_bytes (suc n) (byte ∷ left) = continue (read_bytes n left) (λ bytes. give (byte ∷ bytes))

unfoldable pub read_string : Reader Text
read_string = do size ← read_u32; refuse (ltb maximum_string_size size) tt; read_bytes size

unfoldable pub read_blob : Reader (List ℕ)
read_blob = do size ← read_u64; read_bytes size

unfoldable pub read_i64_vector : ℕ → Reader (List ℤ)
read_i64_vector zero = give []
read_i64_vector (suc n) = do value ← read_i64; values ← read_i64_vector n; give (value ∷ values)

unfoldable pub read_array4 : Reader Array4
read_array4 = do
  a ← read_i64
  b ← read_i64
  c ← read_i64
  d ← read_i64
  give (record { e0 = a; e1 = b; e2 = c; e3 = d })

unfoldable pub read_array2 : Reader Array2
read_array2 = do a ← read_i64; b ← read_i64; give (record { e0 = a; e1 = b })

-- `remaining`
unfoldable pub remaining : {E : Type 0} → Parser E ℕ
remaining input = done (length input) input
