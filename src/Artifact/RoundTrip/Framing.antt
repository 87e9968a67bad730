-- ===== src/Artifact/RoundTrip/Framing.antt =====
-- lib/Compiler/Artifact.cpp: the frame of an artifact, which is the magic, the payload and the checksum.
use mathlib.Core.List.{append-nil}
use deep_forge.Base.{
  ℕ, ◌+◌, ◌-◌, ◌^◌, ◌≤◌, ◌<◌, ◌≡◌, refl, ap, true, false, List, [], ◌∷◌, ◌++◌, length,
  length-append, take, drop, nat_eq, list_eq, ==-refl, ◌==◌, ltb, le→ltb, arith,
}
use deep_forge.Artifact.Bytes.{magic, checksum}
use deep_forge.Artifact.Parse.{parse_payload, checksum_matches, value_of, parse_artifact}
use deep_forge.Artifact.RoundTrip.Words.{u64_bytes, read_u64-eq, length-u64_bytes}
use deep_forge.Artifact.Soundness.Checksum.{checksum_from-lt}

pub take-append : (xs ys : List ℕ) → take (length xs) (xs ++ ys) ≡ xs
take-append [] ys = refl
take-append (x ∷ xs) ys = ap (λ l. x ∷ l) (take-append xs ys)

pub drop-append : (xs ys : List ℕ) → drop (length xs) (xs ++ ys) ≡ ys
drop-append [] ys = refl
drop-append (x ∷ xs) ys = drop-append xs ys

checksum-lt : (bytes : List ℕ) → checksum bytes < 2 ^ 64
unfolding checksum
checksum-lt bytes = checksum_from-lt 14695981039346656037 bytes (omega arith)

checksum_matches-eq :
    (payload : List ℕ) → checksum_matches (u64_bytes (checksum payload)) payload ≡ true
unfolding checksum_matches
checksum_matches-eq payload =
    rw
      (
        ← append-nil (u64_bytes (checksum payload)),
        read_u64-eq (checksum payload) (checksum-lt payload) [],
        checksum_matches,
      )
      (==-refl (checksum payload))

-- An input that is a payload with its checksum behind.
parse_split :
    (input payload stored : List ℕ)
    → take (length input - 8) input ≡ payload
    → drop (length input - 8) input ≡ stored
    → ltb (length input) 24 ≡ false
    → (take 8 input == magic) ≡ true
    → checksum_matches stored payload ≡ true
    → parse_artifact input ≡ value_of (parse_payload (drop 8 payload))
unfolding parse_artifact
parse_split input payload stored front back long starts sums = rw (front, back, long, starts, sums)

pub parse_artifact-eq :
    (body : List ℕ)
    → 8 ≤ length body
    → parse_artifact ((magic ++ body) ++ u64_bytes (checksum (magic ++ body)))
      ≡ value_of (parse_payload body)
parse_artifact-eq body h =
    let payload = magic ++ body in
    let sum = u64_bytes (checksum payload) in
    let whole : length (payload ++ sum) ≡ length body + 16 =
      omega (arith, length-append body sum, length-u64_bytes (checksum payload)) in
    let split : length (payload ++ sum) - 8 ≡ length payload = omega (arith, whole) in
    parse_split (payload ++ sum) payload sum (rw split (take-append payload sum))
      (rw split (drop-append payload sum))
      (le→ltb (length (payload ++ sum)) 24 (omega (arith, whole))) (==-refl magic)
      (checksum_matches-eq payload)
