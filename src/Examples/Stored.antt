-- ===== src/Examples/Stored.antt =====
-- The bytes of the artifact, and the same bytes with an older format version.
use deep_forge.Base.{
  map, ℕ, ◌≡◌, ◌≢◌, refl, sym, ◌∙◌, true, Bool, List, [], ◌∷◌, ◌++◌, ltb, all, All, nat_eq, text,
  to_u64, arith,
}
use deep_forge.Import.Status.{ok, err, Error}
use deep_forge.Artifact.Serialize.{
  append_header, append_override, append_argument, append_each_argument, append_arguments,
  append_conv_adapter_metadata, adapter_metadata, append_adapter, append_allocation,
  append_each_allocation, append_workspace, append_variant, append_variants, append_payload,
  serialize_artifact,
}
use deep_forge.Artifact.Bytes.{
  deepforge_version, llvm_version, frontend_version, hash_byte, checksum_from, checksum,
  append_shifts, append_u32, append_u64, append_i64, append_string, append_blob, append_i64_vector,
  append_array4, append_array2,
}
use deep_forge.Import.DataTypes.{data_type_code}
use deep_forge.Metadata.{
  adapter_kind_code, access_code, policy_code, storage_policy_code, adapter_kind_beq,
}
use deep_forge.Artifact.Contract.{variant_code}
use deep_forge.Artifact.Parse.{parse_artifact}
use deep_forge.Artifact.Soundness.Checksum.{IsByte}
use deep_forge.Artifact.Soundness.{parse_artifact-IsContract}
use deep_forge.Artifact.Soundness.Corruption.{parse_artifact-refuses}
use deep_forge.Artifact.RoundTrip.Whole.{stored_info}
use deep_forge.Workspace.Invariant.{request_of}
use deep_forge.Workspace.Plan.{IsPlanFor}
use deep_forge.Artifact.Contract.Parts.{IsContract}
use deep_forge.Examples.Archived.{compilation, compilation_valid, round_trip}

abbrev front : List ℕ
front = 68 ∷ 70 ∷ 79 ∷ 66 ∷ 74 ∷ 13 ∷ 10 ∷ 26 ∷ []

abbrev back : List ℕ
back =
    0 ∷ 0 ∷ 0 ∷ 4 ∷ 3 ∷ 2 ∷ 1 ∷ 5 ∷ 0 ∷ 0 ∷ 0 ∷ 48 ∷ 46 ∷ 49 ∷ 46 ∷ 48 ∷ 6 ∷ 0 ∷ 0 ∷ 0 ∷ 50 ∷ 50
    ∷ 46 ∷ 49 ∷ 46 ∷ 56 ∷ 6 ∷ 0 ∷ 0 ∷ 0 ∷ 49 ∷ 46 ∷ 50 ∷ 52 ∷ 46 ∷ 48 ∷ 6 ∷ 0 ∷ 0 ∷ 0 ∷ 120 ∷ 56
    ∷ 54 ∷ 95 ∷ 54 ∷ 52 ∷ 1 ∷ 0 ∷ 0 ∷ 0 ∷ 109 ∷ 0 ∷ 0 ∷ 0 ∷ 0 ∷ 1 ∷ 0 ∷ 0 ∷ 0 ∷ 2 ∷ 0 ∷ 0 ∷ 0 ∷ 3
    ∷ 0 ∷ 0 ∷ 0 ∷ 1 ∷ 0 ∷ 0 ∷ 0 ∷ 0 ∷ 0 ∷ 0 ∷ 0 ∷ 2 ∷ 0 ∷ 0 ∷ 0 ∷ 0 ∷ 0 ∷ 0 ∷ 0 ∷ 3 ∷ 0 ∷ 0 ∷ 0 ∷ 0
    ∷ 0 ∷ 0 ∷ 0 ∷ 0 ∷ 0 ∷ 0 ∷ 0 ∷ 3 ∷ 0 ∷ 0 ∷ 0 ∷ 1 ∷ 0 ∷ 0 ∷ 0 ∷ 0 ∷ 0 ∷ 0 ∷ 0 ∷ 1 ∷ 0 ∷ 0 ∷ 0 ∷ 1
    ∷ 0 ∷ 0 ∷ 0 ∷ 0 ∷ 0 ∷ 0 ∷ 0 ∷ 0 ∷ 0 ∷ 0 ∷ 0 ∷ 0 ∷ 0 ∷ 0 ∷ 0 ∷ 0 ∷ 0 ∷ 0 ∷ 0 ∷ 0 ∷ 0 ∷ 0 ∷ 0 ∷ 0
    ∷ 0 ∷ 0 ∷ 0 ∷ 0 ∷ 1 ∷ 0 ∷ 0 ∷ 0 ∷ 0 ∷ 0 ∷ 0 ∷ 0 ∷ 64 ∷ 0 ∷ 0 ∷ 0 ∷ 0 ∷ 0 ∷ 0 ∷ 0 ∷ 24 ∷ 0 ∷ 0
    ∷ 0 ∷ 0 ∷ 0 ∷ 0 ∷ 0 ∷ 2 ∷ 0 ∷ 0 ∷ 0 ∷ 2 ∷ 0 ∷ 0 ∷ 0 ∷ 0 ∷ 0 ∷ 0 ∷ 0 ∷ 3 ∷ 0 ∷ 0 ∷ 0 ∷ 0 ∷ 0 ∷ 0
    ∷ 0 ∷ 3 ∷ 0 ∷ 0 ∷ 0 ∷ 0 ∷ 0 ∷ 0 ∷ 0 ∷ 1 ∷ 0 ∷ 0 ∷ 0 ∷ 0 ∷ 0 ∷ 0 ∷ 0 ∷ 2 ∷ 0 ∷ 0 ∷ 0 ∷ 0 ∷ 0 ∷ 0
    ∷ 0 ∷ 1 ∷ 0 ∷ 0 ∷ 0 ∷ 2 ∷ 0 ∷ 0 ∷ 0 ∷ 0 ∷ 0 ∷ 0 ∷ 0 ∷ 0 ∷ 0 ∷ 0 ∷ 0 ∷ 0 ∷ 0 ∷ 0 ∷ 0 ∷ 0 ∷ 0 ∷ 0
    ∷ 0 ∷ 0 ∷ 0 ∷ 0 ∷ 0 ∷ 0 ∷ 0 ∷ 0 ∷ 0 ∷ 0 ∷ 1 ∷ 0 ∷ 0 ∷ 0 ∷ 0 ∷ 0 ∷ 0 ∷ 0 ∷ 64 ∷ 0 ∷ 0 ∷ 0 ∷ 0 ∷ 0
    ∷ 0 ∷ 0 ∷ 48 ∷ 0 ∷ 0 ∷ 0 ∷ 0 ∷ 0 ∷ 0 ∷ 0 ∷ 2 ∷ 0 ∷ 0 ∷ 0 ∷ 3 ∷ 0 ∷ 0 ∷ 0 ∷ 0 ∷ 0 ∷ 0 ∷ 0 ∷ 4 ∷ 0
    ∷ 0 ∷ 0 ∷ 0 ∷ 0 ∷ 0 ∷ 0 ∷ 4 ∷ 0 ∷ 0 ∷ 0 ∷ 0 ∷ 0 ∷ 0 ∷ 0 ∷ 1 ∷ 0 ∷ 0 ∷ 0 ∷ 0 ∷ 0 ∷ 0 ∷ 0 ∷ 3 ∷ 0
    ∷ 0 ∷ 0 ∷ 0 ∷ 0 ∷ 0 ∷ 0 ∷ 1 ∷ 0 ∷ 0 ∷ 0 ∷ 3 ∷ 0 ∷ 0 ∷ 0 ∷ 0 ∷ 1 ∷ 0 ∷ 0 ∷ 0 ∷ 0 ∷ 0 ∷ 0 ∷ 0 ∷ 0
    ∷ 0 ∷ 0 ∷ 0 ∷ 0 ∷ 0 ∷ 0 ∷ 0 ∷ 0 ∷ 0 ∷ 0 ∷ 0 ∷ 0 ∷ 0 ∷ 0 ∷ 0 ∷ 1 ∷ 0 ∷ 0 ∷ 0 ∷ 0 ∷ 0 ∷ 0 ∷ 0 ∷ 64
    ∷ 0 ∷ 0 ∷ 0 ∷ 0 ∷ 0 ∷ 0 ∷ 0 ∷ 32 ∷ 0 ∷ 0 ∷ 0 ∷ 0 ∷ 0 ∷ 0 ∷ 0 ∷ 2 ∷ 0 ∷ 0 ∷ 0 ∷ 2 ∷ 0 ∷ 0 ∷ 0 ∷ 0
    ∷ 0 ∷ 0 ∷ 0 ∷ 4 ∷ 0 ∷ 0 ∷ 0 ∷ 0 ∷ 0 ∷ 0 ∷ 0 ∷ 4 ∷ 0 ∷ 0 ∷ 0 ∷ 0 ∷ 0 ∷ 0 ∷ 0 ∷ 1 ∷ 0 ∷ 0 ∷ 0 ∷ 0
    ∷ 0 ∷ 0 ∷ 0 ∷ 1 ∷ 0 ∷ 0 ∷ 0 ∷ 0 ∷ 0 ∷ 0 ∷ 0 ∷ 0 ∷ 0 ∷ 0 ∷ 0 ∷ 0 ∷ 0 ∷ 0 ∷ 0 ∷ 0 ∷ 0 ∷ 0 ∷ 0 ∷ 64
    ∷ 0 ∷ 0 ∷ 0 ∷ 0 ∷ 0 ∷ 0 ∷ 0 ∷ 0 ∷ 0 ∷ 0 ∷ 0 ∷ 45 ∷ 67 ∷ 28 ∷ 235 ∷ 226 ∷ 54 ∷ 26 ∷ 63 ∷ 252
    ∷ 169 ∷ 241 ∷ 210 ∷ 77 ∷ 98 ∷ 80 ∷ 63 ∷ 3 ∷ 0 ∷ 0 ∷ 0 ∷ 0 ∷ 0 ∷ 0 ∷ 0 ∷ 8 ∷ 0 ∷ 0 ∷ 0 ∷ 109 ∷ 95
    ∷ 115 ∷ 99 ∷ 97 ∷ 108 ∷ 97 ∷ 114 ∷ 8 ∷ 0 ∷ 0 ∷ 0 ∷ 98 ∷ 97 ∷ 115 ∷ 101 ∷ 108 ∷ 105 ∷ 110 ∷ 101
    ∷ 1 ∷ 0 ∷ 0 ∷ 0 ∷ 0 ∷ 0 ∷ 0 ∷ 0 ∷ 1 ∷ 1 ∷ 0 ∷ 0 ∷ 0 ∷ 6 ∷ 0 ∷ 0 ∷ 0 ∷ 109 ∷ 95 ∷ 97 ∷ 118 ∷ 120
    ∷ 50 ∷ 8 ∷ 0 ∷ 0 ∷ 0 ∷ 97 ∷ 118 ∷ 120 ∷ 50 ∷ 44 ∷ 102 ∷ 109 ∷ 97 ∷ 1 ∷ 0 ∷ 0 ∷ 0 ∷ 0 ∷ 0 ∷ 0 ∷ 0
    ∷ 2 ∷ 2 ∷ 0 ∷ 0 ∷ 0 ∷ 8 ∷ 0 ∷ 0 ∷ 0 ∷ 109 ∷ 95 ∷ 97 ∷ 118 ∷ 120 ∷ 53 ∷ 49 ∷ 50 ∷ 11 ∷ 0 ∷ 0 ∷ 0
    ∷ 97 ∷ 118 ∷ 120 ∷ 53 ∷ 49 ∷ 50 ∷ 102 ∷ 44 ∷ 102 ∷ 109 ∷ 97 ∷ 1 ∷ 0 ∷ 0 ∷ 0 ∷ 0 ∷ 0 ∷ 0 ∷ 0 ∷ 3
    ∷ []

abbrev sum : List ℕ
sum = 180 ∷ 80 ∷ 254 ∷ 155 ∷ 221 ∷ 101 ∷ 140 ∷ 79 ∷ []

abbrev pub artifact : List ℕ
artifact = (front ++ 12 ∷ back) ++ sum

pub written : serialize_artifact compilation ≡ ok artifact
unfolding append_header append_override append_argument append_each_argument append_arguments
    append_conv_adapter_metadata adapter_metadata append_adapter append_allocation
    append_each_allocation append_workspace append_variant append_variants append_payload
    serialize_artifact deepforge_version llvm_version frontend_version hash_byte checksum_from
    checksum append_shifts append_u32 append_u64 append_i64 append_string append_blob
    append_i64_vector append_array4 append_array2 data_type_code adapter_kind_code access_code
    policy_code storage_policy_code adapter_kind_beq variant_code text to_u64
written = rw compilation_valid refl

pub same_bytes : (a b : List ℕ) → ok a ≡ ok b → a ≡ b
same_bytes a b h = cc

read_back :
    (bytes : List ℕ) × (serialize_artifact compilation ≡ ok bytes)
      × (parse_artifact bytes ≡ ok (stored_info compilation))
    → parse_artifact artifact ≡ ok (stored_info compilation)
read_back (bytes, wrote, parsed) = rw (← same_bytes bytes artifact (sym wrote ∙ written)) parsed

pub accepted : parse_artifact artifact ≡ ok (stored_info compilation)
accepted = read_back round_trip

parse_artifact-IsContract_example :
    IsContract
      (stored_info compilation).adapter_kind
      (stored_info compilation).metadata
      (stored_info compilation).workspace
      (stored_info compilation).variants
    × IsPlanFor
        (map request_of (stored_info compilation).workspace.allocations)
        (stored_info compilation).workspace
parse_artifact-IsContract_example =
    parse_artifact-IsContract artifact (stored_info compilation) accepted

is_byte : ℕ → Bool
is_byte n = ltb n 256

all-IsByte : (xs : List ℕ) → all is_byte xs ≡ true → All IsByte xs
unfolding all is_byte
all-IsByte [] h = tt
all-IsByte (x ∷ xs) h = (ground arith, all-IsByte xs (ground arith))

back_bytes : all is_byte back ≡ true
unfolding all is_byte
back_bytes = refl

twelve : ◌≢◌ {A = ℕ} 12 11
twelve h = omega arith

-- Version 12 changed to 11.
parse_artifact-refuses_example :
    (e : Error) × (parse_artifact ((front ++ 11 ∷ back) ++ sum) ≡ err e)
parse_artifact-refuses_example =
    parse_artifact-refuses front back sum 12 11 (stored_info compilation) refl (omega arith)
      (omega arith) (all-IsByte back back_bytes) twelve accepted
