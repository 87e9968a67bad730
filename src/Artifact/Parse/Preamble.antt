-- ===== src/Artifact/Parse/Preamble.antt =====
-- `parse_artifact` of lib/Compiler/Artifact.cpp: the versions, the header and the overrides.
use deep_forge.Base.{
  ℕ, Bool, true, false, not, ◌||◌, List, [], ◌∷◌, Text, text, has_nul, is_empty, contains,
  if◌then◌else◌, ltb, ◌==◌, ◌!=◌, nat_eq, list_eq, ℤ,
}
use deep_forge.Import.Status.{Error}
use deep_forge.Metadata.{
  ShapeOverridePolicy, no_override, policy_code, policy_of_code, pointwise_exact, matmul,
  sdpa_forward, reshape, reduction, transpose, concatenate, block_scale_matmul,
}
use deep_forge.Artifact.{
  legacy_version, static_metadata_version, shape_override_version, ragged_version,
  ragged_sequence_version, matmul_override_version, sdpa_override_version, reshape_override_version,
  reduction_override_version, transpose_override_version, concatenate_override_version,
  format_version,
}
use deep_forge.Artifact.Bytes.{endian_marker, deepforge_version, llvm_version, frontend_version}
use deep_forge.Artifact.Reader.{
  Parser, ◌>>=◌, ◌>>◌, give, refuse, known, reading, read_u32, read_string, read_i64_vector,
}
use deep_forge.Artifact.Parse.Legacy.{parse_failure}

-- The versions that store a part of the metadata.
abbrev pub axis_versions : List ℕ
axis_versions = transpose_override_version ∷ concatenate_override_version ∷ format_version ∷ []

abbrev pub role_versions : List ℕ
role_versions =
    matmul_override_version ∷ sdpa_override_version ∷ reshape_override_version
    ∷ reduction_override_version ∷ axis_versions

abbrev pub divisor_versions : List ℕ
divisor_versions = ragged_sequence_version ∷ role_versions

abbrev pub storage_versions : List ℕ
storage_versions = ragged_version ∷ divisor_versions

abbrev pub override_versions : List ℕ
override_versions = shape_override_version ∷ storage_versions

abbrev pub known_versions : List ℕ
known_versions = legacy_version ∷ static_metadata_version ∷ override_versions

-- a section that only some versions have, with what stands for it in the others
abbrev pub when : {A : Type 0} → Bool → A → Parser Error A → Parser Error A
when true missing parser = parser
when false missing parser = give missing

pub record Header : Type 0 where
  pub version : ℕ
  pub target_triple : Text
  pub function_name : Text

unfoldable pub parse_header : Parser Error Header
parse_header = do
  version ← reading read_u32 (parse_failure (text "header is truncated"))
  endian ← reading read_u32 (parse_failure (text "header is truncated"))
  refuse (not (contains version known_versions)) (parse_failure (text "unsupported format version"))
  refuse (endian != endian_marker) (parse_failure (text "endianness marker is invalid"))
  let malformed = parse_failure (text "metadata is truncated or malformed")
  deepforge ← reading read_string malformed
  llvm ← reading read_string malformed
  frontend ← reading read_string malformed
  target_triple ← reading read_string malformed
  function_name ← reading read_string malformed
  refuse (deepforge != deepforge_version || llvm != llvm_version || frontend != frontend_version)
      (parse_failure (text "producer version is incompatible"))
  refuse (is_empty target_triple || has_nul target_triple)
      (parse_failure (text "target triple is invalid"))
  give (record { version = version; target_triple = target_triple; function_name = function_name })

pub record Override : Type 0 where
  pub dynamic_shape_enabled : Bool
  pub override_shape_enabled : Bool
  pub override_policy : ShapeOverridePolicy
  pub override_role_uids : List ℤ
  pub override_axis_map : List ℤ

abbrev pub no_overrides : Override
no_overrides = record {
  dynamic_shape_enabled = false;
  override_shape_enabled = false;
  override_policy = no_override;
  override_role_uids = [];
  override_axis_map = [];
}

unfoldable pub maximum_policy : ℕ → ShapeOverridePolicy
maximum_policy version =
    if version == matmul_override_version
    then matmul
    else if version == sdpa_override_version
    then sdpa_forward
    else if version == reshape_override_version
    then reshape
    else if version == reduction_override_version
    then reduction
    else if version == transpose_override_version
    then transpose
    else if version == concatenate_override_version
    then concatenate
    else if version == format_version
    then block_scale_matmul
    else pointwise_exact

-- a count up to 64 and as many integers
unfoldable pub read_counted : Text → Text → Parser Error (List ℤ)
read_counted malformed truncated = do
  count ← reading read_u32 (parse_failure malformed)
  refuse (ltb 64 count) (parse_failure malformed)
  reading (read_i64_vector count) (parse_failure truncated)

unfoldable pub parse_override : ℕ → Parser Error Override
parse_override version = do
  let malformed = parse_failure (text "dynamic shape metadata is malformed")
  dynamic ← reading read_u32 malformed
  override ← reading read_u32 malformed
  code ← reading read_u32 malformed
  refuse (ltb 1 dynamic || ltb 1 override) malformed
  refuse (ltb (policy_code (maximum_policy version)) code) malformed
  policy ← known (policy_of_code code) malformed
  roles ← when (contains version role_versions) [] (
      read_counted (text "override role metadata is malformed")
        (text "override role metadata is truncated"))
  axes ← when (contains version axis_versions) [] (
      read_counted (text "override axis metadata is malformed")
        (text "override axis metadata is truncated"))
  give (record {
    dynamic_shape_enabled = dynamic != 0;
    override_shape_enabled = override != 0;
    override_policy = policy;
    override_role_uids = roles;
    override_axis_map = axes;
  })
