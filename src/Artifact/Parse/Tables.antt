-- ===== src/Artifact/Parse/Tables.antt =====
-- `parse_artifact` of lib/Compiler/Artifact.cpp: the arguments, the adapter and the workspace.
use deep_forge.Base.{
  ℕ, zero, suc, ◌/◌, not, ◌||◌, List, [], ◌∷◌, text, is_empty, contains, if◌then◌else◌, ltb, ◌==◌,
  nat_eq, list_eq, ℤ, pos, nonpositive,
}
use deep_forge.Import.Status.{Error}
use deep_forge.Import.DataTypes.{data_type_of_code}
use deep_forge.Metadata.{
  InvocationAdapterKind, conv2d_ranked_memref, generic_ranked_memref_pointer_table,
  adapter_kind_of_code, access_of_code, TensorStoragePolicy, strided, storage_policy_of_code,
  TensorArgument,
}
use deep_forge.Workspace.{WorkspaceAllocation, WorkspacePlan}
use deep_forge.Artifact.Reader.{
  failed, done, Parser, Reader, ◌>>=◌, ◌>>◌, give, refuse, known, reading, read_u32, read_u64,
  read_i64, read_string, read_blob, read_i64_vector, remaining,
}
use deep_forge.Artifact.Parse.Legacy.{
  parse_failure, ConvExtras, no_extras, read_conv_adapter_metadata, synthesize_legacy_arguments,
}
use deep_forge.Artifact.Parse.Preamble.{storage_versions, divisor_versions, when}

pub record Storage : Type 0 where
  pub storage_policy : TensorStoragePolicy
  pub ragged_offset_uid : ℤ
  pub ragged_sequence_uid : ℤ

abbrev strided_storage : Storage
strided_storage = record {
  storage_policy = strided;
  ragged_offset_uid = pos 0;
  ragged_sequence_uid = pos 0;
}

unfoldable pub read_storage : Reader Storage
read_storage = do
  code ← read_u32
  offset ← read_i64
  sequence ← read_i64
  policy ← known (storage_policy_of_code code) tt
  give (record {
    storage_policy = policy;
    ragged_offset_uid = offset;
    ragged_sequence_uid = sequence;
  })

unfoldable pub read_divisor : Reader ℤ
read_divisor = do divisor ← read_i64; refuse (nonpositive divisor) tt; give divisor

-- One round of the loop over the argument table.
unfoldable pub parse_argument : ℕ → Parser Error TensorArgument
parse_argument version = do
  let malformed = parse_failure (text "argument table entry is malformed")
  uid ← reading read_i64 malformed
  name ← reading read_string malformed
  type_code ← reading read_u32 malformed
  access_code ← reading read_u32 malformed
  storage ←
      when (contains version storage_versions) strided_storage
        (reading read_storage (parse_failure (text "argument storage policy is malformed")))
  divisor ←
      when (contains version divisor_versions) (pos 1)
        (reading read_divisor (parse_failure (text "ragged sequence divisor is malformed")))
  alignment ← reading read_u64 malformed
  size_bytes ← reading read_u64 malformed
  rank ← reading read_u32 malformed
  refuse (rank == 0 || ltb 64 rank) malformed
  data_type ← known (data_type_of_code type_code) malformed
  access ← known (access_of_code access_code) malformed
  dimensions ←
      reading (read_i64_vector rank) (parse_failure (text "argument dimensions are truncated"))
  strides ← reading (read_i64_vector rank) (parse_failure (text "argument strides are truncated"))
  give (record {
    uid = uid;
    name = name;
    data_type = data_type;
    dimensions = dimensions;
    strides = strides;
    size_bytes = size_bytes;
    alignment = alignment;
    access = access;
    storage_policy = storage.storage_policy;
    ragged_offset_uid = storage.ragged_offset_uid;
    ragged_sequence_uid = storage.ragged_sequence_uid;
    ragged_sequence_divisor = divisor;
  })

unfoldable pub parse_each_argument : ℕ → ℕ → Parser Error (List TensorArgument)
parse_each_argument version zero = give []
parse_each_argument version (suc n) = do
  argument ← parse_argument version
  arguments ← parse_each_argument version n
  give (argument ∷ arguments)

unfoldable pub parse_arguments : ℕ → Parser Error (List TensorArgument)
parse_arguments version = do
  let invalid = parse_failure (text "argument table count is invalid")
  count ← reading read_u32 invalid
  refuse (count == 0 || ltb 4096 count) invalid
  parse_each_argument version count

-- What the invocation needs: the adapter, its metadata and the argument table.
pub record Invocation : Type 0 where
  pub adapter_kind : InvocationAdapterKind
  pub extras : ConvExtras
  pub arguments : List TensorArgument

-- The blob of the adapter, with a reader of its own.
unfoldable pub parse_extras : InvocationAdapterKind → List ℕ → Parser Error ConvExtras
parse_extras generic_ranked_memref_pointer_table blob input =
    if not (is_empty blob)
    then failed (parse_failure (text "generic adapter metadata must be empty"))
    else done no_extras input
parse_extras conv2d_ranked_memref blob input = elim (read_conv_adapter_metadata blob) [
  | failed u ↦ failed (parse_failure (text "Conv adapter metadata is malformed"))
  | done extras left ↦
      if not (is_empty left)
      then failed (parse_failure (text "Conv adapter metadata is malformed"))
      else done extras input
]

unfoldable pub parse_table_invocation : ℕ → Parser Error Invocation
parse_table_invocation version = do
  arguments ← parse_arguments version
  let truncated = parse_failure (text "adapter metadata is truncated or malformed")
  code ← reading read_u32 truncated
  blob ← reading read_blob truncated
  adapter ← known (adapter_kind_of_code code) (parse_failure (text "adapter kind is unsupported"))
  extras ← parse_extras adapter blob
  give (record { adapter_kind = adapter; extras = extras; arguments = arguments })

unfoldable pub parse_legacy_invocation : Parser Error Invocation
parse_legacy_invocation = do
  extras ←
      reading read_conv_adapter_metadata (parse_failure (text "legacy Conv metadata is truncated"))
  arguments ←
      known (synthesize_legacy_arguments extras)
        (parse_failure (text "legacy argument metadata cannot be reconstructed"))
  give (record { adapter_kind = conv2d_ranked_memref; extras = extras; arguments = arguments })

unfoldable pub read_allocation : Reader WorkspaceAllocation
read_allocation = do
  name ← read_string
  offset ← read_u64
  size_bytes ← read_u64
  alignment ← read_u64
  live_start ← read_u64
  live_end ← read_u64
  give (record {
    name = name;
    offset = offset;
    size_bytes = size_bytes;
    alignment = alignment;
    live_start = live_start;
    live_end = live_end;
  })

unfoldable pub parse_each_allocation : ℕ → Parser Error (List WorkspaceAllocation)
parse_each_allocation zero = give []
parse_each_allocation (suc n) = do
  allocation ← reading read_allocation (parse_failure (text "workspace allocation is malformed"))
  allocations ← parse_each_allocation n
  give (allocation ∷ allocations)

unfoldable pub parse_workspace : Parser Error WorkspacePlan
parse_workspace = do
  let malformed = parse_failure (text "workspace metadata is malformed")
  size_bytes ← reading read_u64 malformed
  alignment ← reading read_u64 malformed
  count ← reading read_u32 malformed
  left ← remaining
  refuse (ltb (left / 44) count) malformed
  allocations ← parse_each_allocation count
  give (record { size_bytes = size_bytes; alignment = alignment; allocations = allocations })
