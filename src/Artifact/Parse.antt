-- ===== src/Artifact/Parse.antt =====
-- `parse_artifact` of lib/Compiler/Artifact.cpp: the variants, and the sections put together.
pub mod Legacy
pub mod Preamble
pub mod Tables
use deep_forge.Base.{
  take, drop, ◌++◌, ℕ, zero, suc, ◌+◌, ◌-◌, Bool, true, false, not, ◌&&◌, ◌||◌, Option, none, some,
  List, [], ◌∷◌, Text, text, length, is_empty, get_elem?, contains, if◌then◌else◌, ltb, ◌==◌, ◌!=◌,
  nat_eq, list_eq, ℤ,
}
use deep_forge.Import.Status.{Result, ok, err, Error}
use deep_forge.Metadata.{
  InvocationAdapterKind, conv2d_ranked_memref, adapter_kind_eq, GraphMetadata, ConvMetadata,
}
use deep_forge.Workspace.{WorkspacePlan}
use deep_forge.Runtime.Dispatch.{CpuVariant, scalar, avx2, avx512, PerVariant, at_variant}
use deep_forge.Artifact.{
  VariantCode, ArtifactInfo, legacy_version, default_absolute_tolerance, default_relative_tolerance,
}
use deep_forge.Artifact.Bytes.{magic, deepforge_version, llvm_version, frontend_version, checksum}
use deep_forge.Artifact.Reader.{
  Outcome, failed, done, Parser, Reader, continue, ◌>>=◌, ◌>>◌, give, refuse, known, reading,
  read_u32, read_u64, read_string, read_blob, remaining,
}
use deep_forge.Artifact.Contract.{validate_contract}
use deep_forge.Artifact.Contract.Conv.{Verdict, refused, accepted, valid_shape}
use deep_forge.Artifact.Parse.Legacy.{parse_failure, ConvExtras, with_extras}
use deep_forge.Artifact.Parse.Preamble.{
  Header, parse_header, Override, no_overrides, parse_override, override_versions, when,
}
use deep_forge.Artifact.Parse.Tables.{
  Invocation, parse_table_invocation, parse_legacy_invocation, parse_workspace,
}

-- the enumerator with a number below three
unfoldable pub variant_of_code : ℕ → Option CpuVariant
variant_of_code n = get_elem? (scalar ∷ avx2 ∷ avx512 ∷ []) n

abbrev pub set_variant : {A : Type 0} → PerVariant A → CpuVariant → A → PerVariant A
set_variant t scalar a = record t { for_scalar = a }
set_variant t avx2 a = record t { for_avx2 = a }
set_variant t avx512 a = record t { for_avx512 = a }

abbrev pub for_each : {A : Type 0} → A → PerVariant A
for_each a = record { for_scalar = a; for_avx2 = a; for_avx512 = a }

-- The state of the loop over the variants.
pub record Slots : Type 0 where
  pub seen : PerVariant Bool
  pub variants : PerVariant VariantCode

abbrev pub no_slots : Slots
no_slots = record {
  seen = for_each false;
  variants =
      for_each (record { variant = scalar; symbol = []; required_features = []; object = [] });
}

unfoldable pub read_code : CpuVariant → Reader VariantCode
read_code id = do
  symbol ← read_string
  required_features ← read_string
  object ← read_blob
  refuse (is_empty symbol || is_empty required_features || is_empty object) tt
  give (record {
    variant = id;
    symbol = symbol;
    required_features = required_features;
    object = object;
  })

-- One round.
unfoldable pub parse_variant : Slots → Parser Error Slots
parse_variant slots = do
  let invalid = parse_failure (text "variant identifier is invalid or duplicated")
  code ← reading read_u32 invalid
  id ← known (variant_of_code code) invalid
  refuse (at_variant slots.seen id) invalid
  variant ← reading (read_code id) (parse_failure (text "variant section is malformed"))
  give (record {
    seen = set_variant slots.seen id true;
    variants = set_variant slots.variants id variant;
  })

unfoldable pub parse_each_variant : ℕ → Slots → Parser Error Slots
parse_each_variant zero slots = give slots
parse_each_variant (suc n) slots = parse_variant slots >>= parse_each_variant n

pub record Code : Type 0 where
  pub absolute_tolerance : ℕ
  pub relative_tolerance : ℕ
  pub variants : PerVariant VariantCode

unfoldable pub parse_variants : Parser Error Code
parse_variants = do
  let invalid = parse_failure (text "numeric contract or variant count is invalid")
  absolute ← reading read_u64 invalid
  relative ← reading read_u64 invalid
  count ← reading read_u32 invalid
  refuse (count != 3) invalid
  refuse (absolute != default_absolute_tolerance || relative != default_relative_tolerance)
      (parse_failure (text "numeric contract is unsupported"))
  slots ← parse_each_variant count no_slots
  give (record {
    absolute_tolerance = absolute;
    relative_tolerance = relative;
    variants = slots.variants;
  })

abbrev pub metadata_of : Header → Override → Invocation → ConvMetadata
metadata_of header override invocation =
    with_extras
      (record {
        function_name = header.function_name;
        arguments = invocation.arguments;
        dynamic_shape_enabled = override.dynamic_shape_enabled;
        override_shape_enabled = override.override_shape_enabled;
        override_policy = override.override_policy;
        override_role_uids = override.override_role_uids;
        override_axis_map = override.override_axis_map;
      })
      invocation.extras

-- the test of the convolution's shapes before the workspace is read
unfoldable pub invalid_shapes : InvocationAdapterKind → ConvExtras → Bool
invalid_shapes adapter m =
    adapter == conv2d_ranked_memref
    && (not (valid_shape m.x_shape)
        || not (valid_shape m.w_shape)
        || not (valid_shape m.y_shape)
        || not (valid_shape m.padded_x_shape))

abbrev pub info_of :
    Header → ConvMetadata → InvocationAdapterKind → WorkspacePlan → Code → ArtifactInfo
info_of header metadata adapter workspace code = record {
  format_version = header.version;
  adapter_kind = adapter;
  deepforge_version = deepforge_version;
  llvm_version = llvm_version;
  frontend_version = frontend_version;
  target_triple = header.target_triple;
  metadata = metadata;
  workspace = workspace;
  absolute_tolerance = code.absolute_tolerance;
  relative_tolerance = code.relative_tolerance;
  variants = code.variants;
}

unfoldable pub parse_invocation : ℕ → Parser Error Invocation
parse_invocation version =
    if version != legacy_version then parse_table_invocation version else parse_legacy_invocation

-- The end of `parse_artifact`: what was read has to meet the contract.
abbrev pub judge : Verdict (Unit {0}) → ArtifactInfo → Parser Error ArtifactInfo
judge (refused detail) info input = failed (parse_failure (text "contract is invalid: " ++ detail))
judge (accepted u) info input = done info input

unfoldable pub check_contract : ArtifactInfo → Parser Error ArtifactInfo
check_contract info =
    judge (validate_contract info.adapter_kind info.metadata info.workspace info.variants) info

-- What is read between the magic and the checksum.
unfoldable pub parse_info : Parser Error ArtifactInfo
parse_info = do
  header ← parse_header
  override ←
      when (contains header.version override_versions) no_overrides (parse_override header.version)
  invocation ← parse_invocation header.version
  refuse (invalid_shapes invocation.adapter_kind invocation.extras)
      (parse_failure (text "serialized shape is invalid"))
  workspace ← parse_workspace
  code ← parse_variants
  left ← remaining
  refuse (left != 0) (parse_failure (text "artifact has trailing payload bytes"))
  give (
      info_of header (metadata_of header override invocation) invocation.adapter_kind workspace
        code)

unfoldable pub parse_payload : Parser Error ArtifactInfo
parse_payload = parse_info >>= check_contract

abbrev pub value_of : {A : Type 0} → Outcome Error A → Result A
value_of (failed e) = err e
value_of (done a left) = ok a

-- whether the last eight bytes are the checksum of the others
unfoldable pub checksum_matches : List ℕ → List ℕ → Bool
checksum_matches stored payload = elim (read_u64 stored) [
  | failed u ↦ false
  | done stored_checksum left ↦ stored_checksum == checksum payload
]

unfoldable pub parse_artifact : List ℕ → Result ArtifactInfo
parse_artifact input =
    let payload = take (length input - 8) input in
    let stored = drop (length input - 8) input in
    if ltb (length input) 24
    then err (parse_failure (text "input is truncated"))
    else if not (take 8 input == magic)
    then err (parse_failure (text "magic does not match DFOBJ"))
    else if not (checksum_matches stored payload)
    then err (parse_failure (text "checksum mismatch"))
    else value_of (parse_payload (drop 8 payload))
