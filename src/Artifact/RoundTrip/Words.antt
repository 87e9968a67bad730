-- ===== src/Artifact/RoundTrip/Words.antt =====
-- lib/Compiler/Artifact.cpp: the bytes of numbers, texts and lists, as the `append_` functions write
-- them and the class `Reader` reads them.
use mathlib.Core.List.{append_assoc, append-nil}
pub use deep_forge.Base.{IsI64}
use deep_forge.Base.{
  ℕ, zero, suc, ◌+◌, ◌-◌, ◌*◌, ◌/◌, ◌%◌, ◌^◌, ◌≤◌, ◌<◌, ◌≡◌, refl, sym, ap, ◌∙◌, Bool, true, false,
  some, List, [], ◌∷◌, ◌++◌, length, length-append, All, ltb, le→ltb, u32_max, ℤ, pos, negsuc,
  to_u64, Text, arith,
}
use deep_forge.Metadata.{Array4, Array2}
use deep_forge.Artifact.Bytes.{
  append_u32, append_u64, append_i64, append_string, append_blob, append_i64_vector, append_array4,
  append_array2, append_shifts, maximum_string_size,
}
use deep_forge.Artifact.Reader.{
  done, read_word, read_u32, read_u64, from_u64, read_i64, read_bytes, read_string, read_blob,
  read_i64_vector, read_array4, read_array2,
}

pub u32_bytes : ℕ → List ℕ
u32_bytes v = v / 2 ^ 0 % 256 ∷ v / 2 ^ 8 % 256 ∷ v / 2 ^ 16 % 256 ∷ v / 2 ^ 24 % 256 ∷ []

pub u64_bytes : ℕ → List ℕ
u64_bytes v =
    v / 2 ^ 0 % 256
    ∷ v / 2 ^ 8 % 256
    ∷ v / 2 ^ 16 % 256
    ∷ v / 2 ^ 24 % 256
    ∷ v / 2 ^ 32 % 256
    ∷ v / 2 ^ 40 % 256
    ∷ v / 2 ^ 48 % 256
    ∷ v / 2 ^ 56 % 256
    ∷ []

pub append_u32-eq : (out : List ℕ) (v : ℕ) → append_u32 out v ≡ out ++ u32_bytes v
unfolding append_u32 append_shifts u32_bytes
append_u32-eq out v = simp append_assoc

pub append_u64-eq : (out : List ℕ) (v : ℕ) → append_u64 out v ≡ out ++ u64_bytes v
unfolding append_u64 append_shifts u64_bytes
append_u64-eq out v = simp append_assoc

pub read_u32-eq :
    (v : ℕ) → v < 2 ^ 32 → (left : List ℕ) → read_u32 (u32_bytes v ++ left) ≡ done v left
unfolding read_u32 read_word u32_bytes
read_u32-eq v h left = ground arith

pub read_u64-eq :
    (v : ℕ) → v < 2 ^ 64 → (left : List ℕ) → read_u64 (u64_bytes v ++ left) ≡ done v left
unfolding read_u64 read_word u64_bytes
read_u64-eq v h left = ground arith

pub i64_bytes : ℤ → List ℕ
i64_bytes z = u64_bytes (to_u64 z)

pub append_i64-eq : (out : List ℕ) (z : ℤ) → append_i64 out z ≡ out ++ i64_bytes z
unfolding append_i64 i64_bytes
append_i64-eq out z = append_u64-eq out (to_u64 z)

to_u64-lt : (z : ℤ) → to_u64 z < 2 ^ 64
unfolding to_u64
to_u64-lt (pos n) = omega arith
to_u64-lt (negsuc n) = omega arith

from_u64-to_u64 : (z : ℤ) → IsI64 z → from_u64 (to_u64 z) ≡ z
unfolding from_u64 to_u64
from_u64-to_u64 (pos n) h = ground arith
from_u64-to_u64 (negsuc n) h = ground arith

pub read_i64-eq : (z : ℤ) → IsI64 z → (left : List ℕ) → read_i64 (i64_bytes z ++ left) ≡ done z left
unfolding read_i64 i64_bytes
read_i64-eq z h left =
    rw (read_u64-eq (to_u64 z) (to_u64-lt z) left) (ap (λ x. done x left) (from_u64-to_u64 z h))

pub string_bytes : Text → List ℕ
string_bytes t = u32_bytes (length t) ++ t

pub append_string-eq :
    (out : List ℕ) (t : Text)
    → length t ≤ u32_max
    → append_string out t ≡ some (out ++ string_bytes t)
unfolding append_string string_bytes
append_string-eq out t h =
    rw (le→ltb u32_max (length t) h, append_u32-eq out (length t))
      (ap some (append_assoc out (u32_bytes (length t)) t))

pub read_bytes-eq :
    (bytes left : List ℕ) → read_bytes (length bytes) (bytes ++ left) ≡ done bytes left
unfolding read_bytes
read_bytes-eq [] left = refl
read_bytes-eq (b ∷ bytes) left = rw (read_bytes-eq bytes left)

-- a text that the reader accepts
abbrev pub IsShort : Text → Type 0
IsShort t = length t ≤ maximum_string_size

pub read_string-eq :
    (t : Text) → IsShort t → (left : List ℕ) → read_string (string_bytes t ++ left) ≡ done t left
unfolding read_string string_bytes
read_string-eq t h left =
    rw
      (
        append_assoc (u32_bytes (length t)) t left,
        read_u32-eq (length t) (omega arith) (t ++ left),
        le→ltb maximum_string_size (length t) h,
      )
      (read_bytes-eq t left)

pub blob_bytes : List ℕ → List ℕ
blob_bytes b = u64_bytes (length b) ++ b

pub append_blob-eq : (out b : List ℕ) → append_blob out b ≡ out ++ blob_bytes b
unfolding append_blob blob_bytes
append_blob-eq out b = rw (append_u64-eq out (length b)) (append_assoc out (u64_bytes (length b)) b)

pub read_blob-eq :
    (b : List ℕ)
    → length b < 2 ^ 64
    → (left : List ℕ) → read_blob (blob_bytes b ++ left) ≡ done b left
unfolding read_blob blob_bytes
read_blob-eq b h left =
    rw (append_assoc (u64_bytes (length b)) b left, read_u64-eq (length b) h (b ++ left))
      (read_bytes-eq b left)

pub vector_bytes : List ℤ → List ℕ
vector_bytes [] = []
vector_bytes (z ∷ zs) = i64_bytes z ++ vector_bytes zs

pub append_i64_vector-eq :
    (out : List ℕ) (zs : List ℤ) → append_i64_vector out zs ≡ out ++ vector_bytes zs
unfolding append_i64_vector vector_bytes
append_i64_vector-eq out [] = sym (append-nil out)
append_i64_vector-eq out (z ∷ zs) = rw (append_i64-eq out z) (
    append_i64_vector-eq (out ++ i64_bytes z) zs ∙ append_assoc out (i64_bytes z) (vector_bytes zs))

pub read_i64_vector-eq :
    (zs : List ℤ)
    → All IsI64 zs
    → (left : List ℕ) → read_i64_vector (length zs) (vector_bytes zs ++ left) ≡ done zs left
unfolding read_i64_vector vector_bytes
read_i64_vector-eq [] h left = refl
read_i64_vector-eq (z ∷ zs) h left = rw (
  append_assoc (i64_bytes z) (vector_bytes zs) left,
  read_i64-eq z h.0 (vector_bytes zs ++ left),
  read_i64_vector-eq zs h.1 left,
)

abbrev pub IsI64₄ : Array4 → Type 0
IsI64₄ a = IsI64 a.e0 × IsI64 a.e1 × IsI64 a.e2 × IsI64 a.e3

abbrev pub IsI64₂ : Array2 → Type 0
IsI64₂ a = IsI64 a.e0 × IsI64 a.e1

pub array4_bytes : Array4 → List ℕ
array4_bytes a = i64_bytes a.e0 ++ (i64_bytes a.e1 ++ (i64_bytes a.e2 ++ i64_bytes a.e3))

pub array2_bytes : Array2 → List ℕ
array2_bytes a = i64_bytes a.e0 ++ i64_bytes a.e1

pub append_array4-eq : (out : List ℕ) (a : Array4) → append_array4 out a ≡ out ++ array4_bytes a
unfolding append_array4 array4_bytes
append_array4-eq out a = simp (append_i64-eq, append_assoc)

pub append_array2-eq : (out : List ℕ) (a : Array2) → append_array2 out a ≡ out ++ array2_bytes a
unfolding append_array2 array2_bytes
append_array2-eq out a = simp (append_i64-eq, append_assoc)

pub read_array4-eq :
    (a : Array4) → IsI64₄ a → (left : List ℕ) → read_array4 (array4_bytes a ++ left) ≡ done a left
unfolding read_array4 array4_bytes
read_array4-eq a h left =
    simp append_assoc
      (rw (read_i64-eq a.e0 h.0, read_i64-eq a.e1 h.1, read_i64-eq a.e2 h.2, read_i64-eq a.e3 h.3))

pub read_array2-eq :
    (a : Array2) → IsI64₂ a → (left : List ℕ) → read_array2 (array2_bytes a ++ left) ≡ done a left
unfolding read_array2 array2_bytes
read_array2-eq a h left = simp append_assoc (rw (read_i64-eq a.e0 h.0, read_i64-eq a.e1 h.1))

-- How many bytes there are.
pub length-u32_bytes : (v : ℕ) → length (u32_bytes v) ≡ 4
unfolding u32_bytes
length-u32_bytes v = refl

pub length-u64_bytes : (v : ℕ) → length (u64_bytes v) ≡ 8
unfolding u64_bytes
length-u64_bytes v = refl

pub length-i64_bytes : (z : ℤ) → length (i64_bytes z) ≡ 8
unfolding i64_bytes
length-i64_bytes z = length-u64_bytes (to_u64 z)

pub length-string_bytes : (t : Text) → length (string_bytes t) ≡ 4 + length t
unfolding string_bytes
length-string_bytes t = simp (length-append, length-u32_bytes)

pub length-array4_bytes : (a : Array4) → length (array4_bytes a) ≡ 32
unfolding array4_bytes
length-array4_bytes a = simp (length-append, length-i64_bytes)

pub length-array2_bytes : (a : Array2) → length (array2_bytes a) ≡ 16
unfolding array2_bytes
length-array2_bytes a = simp (length-append, length-i64_bytes)

pub ruleset lengths = (
  length-append, length-u32_bytes, length-u64_bytes, length-i64_bytes, length-string_bytes,
  length-array4_bytes, length-array2_bytes,
)
