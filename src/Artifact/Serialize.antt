-- ===== src/Artifact/Serialize.antt =====
-- `serialize_artifact` of lib/Compiler/Artifact.cpp, in its sections. Each takes the bytes written so
-- far and returns them with its own behind, or an error.
use deep_forge.Base.{
  ℕ, ◌%◌, ◌^◌, Bool, true, false, not, ◌&&◌, ◌||◌, List, [], ◌∷◌, text, has_nul, length, is_empty,
  ltb, ◌==◌, ◌!=◌, nat_eq, u32_max,
}
use deep_forge.Import.Status.{
  Result, Status, ok, err, ◌>>=◌, ◌>>◌, reject, or_fail, fail, invalid_argument, invalid_shape,
  invalid_value, dimension_overflow,
}
use deep_forge.Import.DataTypes.{data_type_code}
use deep_forge.Metadata.{
  InvocationAdapterKind, conv2d_ranked_memref, generic_ranked_memref_pointer_table,
  adapter_kind_code, adapter_kind_eq, access_code, policy_code, storage_policy_code, TensorArgument,
  GraphMetadata, ConvMetadata,
}
use deep_forge.Workspace.{WorkspaceAllocation, WorkspacePlan}
use deep_forge.Runtime.Dispatch.{PerVariant}
use deep_forge.Artifact.{
  VariantCode, CompilationResult, format_version, default_absolute_tolerance,
  default_relative_tolerance,
}
use deep_forge.Artifact.Bytes.{
  magic, endian_marker, deepforge_version, llvm_version, frontend_version, append_u32, append_u64,
  append_i64, append_string, append_blob, append_i64_vector, append_array4, append_array2, checksum,
}
use deep_forge.Artifact.Contract.{variant_code, validate_contract}
use deep_forge.Artifact.Contract.Conv.{refused, accepted, valid_shape}

-- One round of the loop of `validate_compilation` over the variants.
check_slot : VariantCode → ℕ → Status
check_slot v index =
    reject
      (variant_code v.variant != index
        || is_empty v.symbol
        || is_empty v.required_features
        || is_empty v.object)
      (fail invalid_value (text "artifact.variant")
        (text "scalar, AVX2 and AVX-512 objects are required"))

unfoldable pub validate_compilation : CompilationResult → Status
unfolding check_slot
validate_compilation c = do
  reject
      (is_empty c.target_triple
        || has_nul c.target_triple
        || is_empty c.metadata.graph.function_name)
      (fail invalid_argument (text "artifact")
        (text "target triple and function name are required"))
  reject
      (c.adapter_kind == conv2d_ranked_memref
        && (not (valid_shape c.metadata.x_shape)
            || not (valid_shape c.metadata.w_shape)
            || not (valid_shape c.metadata.y_shape)
            || not (valid_shape c.metadata.padded_x_shape)))
      (fail invalid_shape (text "artifact")
        (text "serialized shapes must be static, positive and fit the address range"))
  check_slot c.variants.for_scalar 0
  check_slot c.variants.for_avx2 1
  check_slot c.variants.for_avx512 2
  elim (validate_contract c.adapter_kind c.metadata c.workspace c.variants) [
    | refused detail ↦ err (fail invalid_value (text "artifact.contract") detail)
    | accepted u ↦ ok tt
  ]

unfoldable pub append_header : List ℕ → CompilationResult → Result (List ℕ)
append_header output c = do
  let too_large = fail dimension_overflow (text "artifact.string") (text "string is too large")
  a ←
      or_fail
        (append_string (append_u32 (append_u32 output format_version) endian_marker)
          deepforge_version)
        too_large
  b ← or_fail (append_string a llvm_version) too_large
  c' ← or_fail (append_string b frontend_version) too_large
  d ← or_fail (append_string c' c.target_triple) too_large
  or_fail (append_string d c.metadata.graph.function_name) too_large

-- `condition ? 1U : 0U`
abbrev pub flag : Bool → ℕ
flag true = 1
flag false = 0

unfoldable pub append_override : List ℕ → GraphMetadata → Result (List ℕ)
append_override output g = do
  let flags =
      append_u32
        (append_u32 (append_u32 output (flag g.dynamic_shape_enabled))
          (flag g.override_shape_enabled))
        (policy_code g.override_policy)
  reject (ltb u32_max (length g.override_role_uids) || ltb u32_max (length g.override_axis_map))
      (fail dimension_overflow (text "artifact.override") (text "override metadata is too large"))
  let roles =
      append_i64_vector (append_u32 flags (length g.override_role_uids)) g.override_role_uids
  ok (append_i64_vector (append_u32 roles (length g.override_axis_map)) g.override_axis_map)

unfoldable pub append_argument : List ℕ → TensorArgument → Result (List ℕ)
append_argument output a = do
  named ←
      or_fail (append_string (append_i64 output a.uid) a.name)
        (fail dimension_overflow (text "artifact.arguments") (text "argument name is too large"))
  let typed =
      append_u32 (append_u32 (append_u32 named (data_type_code a.data_type)) (access_code a.access))
        (storage_policy_code a.storage_policy)
  let ragged =
      append_i64 (append_i64 (append_i64 typed a.ragged_offset_uid) a.ragged_sequence_uid)
        a.ragged_sequence_divisor
  let sized = append_u64 (append_u64 ragged a.alignment) a.size_bytes
  let ranked = append_u32 sized (length a.dimensions % 2 ^ 32)
  ok (append_i64_vector (append_i64_vector ranked a.dimensions) a.strides)

unfoldable pub append_each_argument : List ℕ → List TensorArgument → Result (List ℕ)
append_each_argument output [] = ok output
append_each_argument output (a ∷ rest) =
    append_argument output a >>= λ next. append_each_argument next rest

unfoldable pub append_arguments : List ℕ → List TensorArgument → Result (List ℕ)
append_arguments output arguments = do
  reject (ltb u32_max (length arguments))
      (fail dimension_overflow (text "artifact.arguments") (text "too many tensor arguments"))
  append_each_argument (append_u32 output (length arguments)) arguments

unfoldable pub append_conv_adapter_metadata : List ℕ → ConvMetadata → List ℕ
append_conv_adapter_metadata output m =
    let uids = append_i64 (append_i64 (append_i64 output m.x_uid) m.w_uid) m.y_uid in
    let shapes =
      append_array4
        (append_array4 (append_array4 (append_array4 uids m.x_shape) m.w_shape) m.y_shape)
        m.padded_x_shape in
    append_array2
      (append_array2 (append_array2 (append_array2 shapes m.pre_padding) m.post_padding) m.stride)
      m.dilation

-- the blob that follows the adapter's number
unfoldable pub adapter_metadata : InvocationAdapterKind → ConvMetadata → List ℕ
adapter_metadata conv2d_ranked_memref m = append_conv_adapter_metadata [] m
adapter_metadata generic_ranked_memref_pointer_table m = []

unfoldable pub append_adapter : List ℕ → InvocationAdapterKind → ConvMetadata → List ℕ
append_adapter output adapter m =
    append_blob (append_u32 output (adapter_kind_code adapter)) (adapter_metadata adapter m)

unfoldable pub append_allocation : List ℕ → WorkspaceAllocation → Result (List ℕ)
append_allocation output a = do
  named ←
      or_fail (append_string output a.name)
        (fail dimension_overflow (text "artifact.workspace") (text "allocation name is too large"))
  let placed = append_u64 (append_u64 (append_u64 named a.offset) a.size_bytes) a.alignment
  ok (append_u64 (append_u64 placed a.live_start) a.live_end)

unfoldable pub append_each_allocation : List ℕ → List WorkspaceAllocation → Result (List ℕ)
append_each_allocation output [] = ok output
append_each_allocation output (a ∷ rest) =
    append_allocation output a >>= λ next. append_each_allocation next rest

unfoldable pub append_workspace : List ℕ → WorkspacePlan → Result (List ℕ)
append_workspace output w = do
  reject (ltb u32_max (length w.allocations))
      (fail dimension_overflow (text "artifact.workspace") (text "too many workspace allocations"))
  append_each_allocation
      (append_u32 (append_u64 (append_u64 output w.size_bytes) w.alignment) (length w.allocations))
      w.allocations

unfoldable pub append_variant : List ℕ → VariantCode → Result (List ℕ)
append_variant output v = do
  let too_large =
      fail dimension_overflow (text "artifact.variant") (text "variant metadata is too large")
  named ← or_fail (append_string (append_u32 output (variant_code v.variant)) v.symbol) too_large
  described ← or_fail (append_string named v.required_features) too_large
  ok (append_blob described v.object)

-- The tolerances, the count of the variants (a `std::array` of three), and the variants.
unfoldable pub append_variants : List ℕ → PerVariant VariantCode → Result (List ℕ)
append_variants output v = do
  let contract =
      append_u64 (append_u64 output default_absolute_tolerance) default_relative_tolerance
  a ← append_variant (append_u32 contract 3) v.for_scalar
  b ← append_variant a v.for_avx2
  append_variant b v.for_avx512

unfoldable pub append_payload : CompilationResult → Result (List ℕ)
append_payload c = do
  header ← append_header magic c
  override ← append_override header c.metadata.graph
  arguments ← append_arguments override c.metadata.graph.arguments
  workspace ← append_workspace (append_adapter arguments c.adapter_kind c.metadata) c.workspace
  append_variants workspace c.variants

unfoldable pub serialize_artifact : CompilationResult → Result (List ℕ)
serialize_artifact c = do
  validate_compilation c
  bytes ← append_payload c
  ok (append_u64 bytes (checksum bytes))
