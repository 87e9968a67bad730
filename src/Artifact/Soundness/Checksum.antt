-- ===== src/Artifact/Soundness/Checksum.antt =====
-- lib/Compiler/Artifact.cpp: the checksum tells apart inputs that differ in one byte.
use Prim.Native.Nat.{bit_xor}
use deep_forge.Base.{ℕ, ◌*◌, ◌%◌, ◌^◌, ◌<◌, ◌≡◌, refl, sym, ◌∙◌, List, [], ◌∷◌, ◌++◌, All, arith}
use deep_forge.Base.Xor.{bit_xor-lt, bit_xor-injective_left, bit_xor-injective_right}
use deep_forge.Artifact.Bytes.{fnv_prime, hash_byte, checksum_from, checksum}

-- The prime is odd, so that multiplication by it can be undone modulo 2 ^ 64.
times_prime-injective :
    (x y : ℕ) → x < 2 ^ 64 → y < 2 ^ 64 → x * fnv_prime % 2 ^ 64 ≡ y * fnv_prime % 2 ^ 64 → x ≡ y
times_prime-injective x y hx hy e = omega arith

abbrev pub IsByte : ℕ → Type 0
IsByte b = b < 256

hash_byte-lt : (hash byte : ℕ) → hash_byte hash byte < 2 ^ 64
unfolding hash_byte
hash_byte-lt hash byte = omega arith

hash_byte-injective_left :
    (g h byte : ℕ)
    → g < 2 ^ 64
    → h < 2 ^ 64
    → IsByte byte
    → hash_byte g byte ≡ hash_byte h byte
    → g ≡ h
unfolding hash_byte
hash_byte-injective_left g h byte hg hh hb e = bit_xor-injective_left 64 g h byte hg hh (
    times_prime-injective (bit_xor g byte) (bit_xor h byte) (bit_xor-lt 64 g byte hg (omega arith))
      (bit_xor-lt 64 h byte hh (omega arith)) e)

hash_byte-injective_right :
    (hash x y : ℕ)
    → hash < 2 ^ 64
    → IsByte x
    → IsByte y
    → hash_byte hash x ≡ hash_byte hash y
    → x ≡ y
unfolding hash_byte
hash_byte-injective_right hash x y h hx hy e =
    bit_xor-injective_right 64 x y hash (omega arith) (omega arith) (
      times_prime-injective (bit_xor hash x) (bit_xor hash y) (bit_xor-lt 64 hash x h (omega arith))
        (bit_xor-lt 64 hash y h (omega arith)) e)

pub checksum_from-lt :
    (hash : ℕ) (bytes : List ℕ) → hash < 2 ^ 64 → checksum_from hash bytes < 2 ^ 64
unfolding checksum_from
checksum_from-lt hash [] h = h
checksum_from-lt hash (byte ∷ bytes) h =
    checksum_from-lt (hash_byte hash byte) bytes (hash_byte-lt hash byte)

-- Reading on keeps different states apart.
checksum_from-injective :
    (g h : ℕ) (bytes : List ℕ)
    → g < 2 ^ 64
    → h < 2 ^ 64
    → All IsByte bytes
    → checksum_from g bytes ≡ checksum_from h bytes
    → g ≡ h
unfolding checksum_from
checksum_from-injective g h [] hg hh hb e = e
checksum_from-injective g h (byte ∷ bytes) hg hh hb e =
    hash_byte-injective_left g h byte hg hh hb.0 (
      checksum_from-injective (hash_byte g byte) (hash_byte h byte) bytes (hash_byte-lt g byte)
        (hash_byte-lt h byte) hb.1 e)

checksum_from-append :
    (hash : ℕ) (front : List ℕ) (byte : ℕ) (back : List ℕ)
    → checksum_from hash (front ++ byte ∷ back)
      ≡ checksum_from (hash_byte (checksum_from hash front) byte) back
unfolding checksum_from
checksum_from-append hash [] byte back = refl
checksum_from-append hash (x ∷ front) byte back =
    checksum_from-append (hash_byte hash x) front byte back

-- Two inputs that differ in one byte have different checksums.
pub checksum-separates :
    (front back : List ℕ) (x y : ℕ)
    → IsByte x
    → IsByte y
    → All IsByte back
    → checksum (front ++ x ∷ back) ≡ checksum (front ++ y ∷ back)
    → x ≡ y
unfolding checksum
checksum-separates front back x y hx hy hb e =
    let seed : ℕ = 14695981039346656037 in
    let state = checksum_from seed front in
    let bound = checksum_from-lt seed front (omega arith) in
    let same : checksum_from (hash_byte state x) back ≡ checksum_from (hash_byte state y) back =
      sym (checksum_from-append seed front x back) ∙ e ∙ checksum_from-append seed front y back in
    hash_byte-injective_right state x y bound hx hy (
      checksum_from-injective (hash_byte state x) (hash_byte state y) back (hash_byte-lt state x)
        (hash_byte-lt state y) hb same)
