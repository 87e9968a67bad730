-- ===== src/Artifact/Bytes.antt =====
-- lib/Compiler/Artifact.cpp: the checksum, and the functions that append to the output.
use Prim.Native.Nat.{bit_xor}
use deep_forge.Base.{
  ℕ, ◌*◌, ◌/◌, ◌%◌, ◌^◌, Option, none, some, List, [], ◌∷◌, ◌++◌, length, ltb, if◌then◌else◌,
  u32_max, ℤ, to_u64, Text, text,
}
use deep_forge.Metadata.{Array4, Array2}

-- b'D' b'F' b'O' b'B' b'J' '\r' '\n' 0x1A
abbrev pub magic : List ℕ
magic = 68 ∷ 70 ∷ 79 ∷ 66 ∷ 74 ∷ 13 ∷ 10 ∷ 26 ∷ []

abbrev pub endian_marker : ℕ
endian_marker = 0x01020304

unfoldable pub deepforge_version : Text
deepforge_version = text "0.1.0"

unfoldable pub llvm_version : Text
llvm_version = text "22.1.8"

unfoldable pub frontend_version : Text
frontend_version = text "1.24.0"

abbrev pub maximum_string_size : ℕ
maximum_string_size = 2 ^ 20

abbrev pub fnv_prime : ℕ
fnv_prime = 1099511628211

-- One round of the loop: `hash ^= byte; hash *= prime`.
unfoldable pub hash_byte : ℕ → ℕ → ℕ
hash_byte hash byte = bit_xor hash byte * fnv_prime % 2 ^ 64

unfoldable pub checksum_from : ℕ → List ℕ → ℕ
checksum_from hash [] = hash
checksum_from hash (byte ∷ bytes) = checksum_from (hash_byte hash byte) bytes

unfoldable pub checksum : List ℕ → ℕ
checksum bytes = checksum_from 14695981039346656037 bytes

-- The loop of `append_u32` and `append_u64` over the shifts.
unfoldable pub append_shifts : List ℕ → List ℕ → ℕ → List ℕ
append_shifts [] output value = output
append_shifts (shift ∷ shifts) output value =
    append_shifts shifts (output ++ value / 2 ^ shift % 256 ∷ []) value

unfoldable pub append_u32 : List ℕ → ℕ → List ℕ
append_u32 output value = append_shifts (0 ∷ 8 ∷ 16 ∷ 24 ∷ []) output value

unfoldable pub append_u64 : List ℕ → ℕ → List ℕ
append_u64 output value = append_shifts (0 ∷ 8 ∷ 16 ∷ 24 ∷ 32 ∷ 40 ∷ 48 ∷ 56 ∷ []) output value

unfoldable pub append_i64 : List ℕ → ℤ → List ℕ
append_i64 output value = append_u64 output (to_u64 value)

-- `none` where the source returns false: the size does not fit 32 bits.
unfoldable pub append_string : List ℕ → Text → Option (List ℕ)
append_string output value =
    if ltb u32_max (length value) then none else some (append_u32 output (length value) ++ value)

unfoldable pub append_blob : List ℕ → List ℕ → List ℕ
append_blob output value = append_u64 output (length value) ++ value

unfoldable pub append_i64_vector : List ℕ → List ℤ → List ℕ
append_i64_vector output [] = output
append_i64_vector output (value ∷ values) = append_i64_vector (append_i64 output value) values

-- `append_i64_array` at the two sizes that it is used with
unfoldable pub append_array4 : List ℕ → Array4 → List ℕ
append_array4 output a =
    append_i64 (append_i64 (append_i64 (append_i64 output a.e0) a.e1) a.e2) a.e3

unfoldable pub append_array2 : List ℕ → Array2 → List ℕ
append_array2 output a = append_i64 (append_i64 output a.e0) a.e1
