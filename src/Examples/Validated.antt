-- ===== src/Examples/Validated.antt =====
-- Metadata with a ragged argument: with strided offsets, and with offsets that are ragged in turn.
use mathlib.Core.Bool.{xor}
use deep_forge.Base.{
  ℕ, ◌≡◌, refl, ◌*◌, ◌<◌, false, List, [], ◌∷◌, ℤ, pos, find, list_beq, contains, is_power_of_two,
  has_nul, ◌+ℤ◌, to_u64, arith,
}
use deep_forge.Import.Status.{ok}
use deep_forge.Import.DataTypes.{DataType, float32, int32, data_type_beq}
use deep_forge.Import.Capability.{
  data_type_storage_bits, tensor_storage_bytes, maximum_element_offset,
}
use deep_forge.Metadata.{
  TensorArgument, GraphMetadata, TensorStoragePolicy, strided, ragged_batch_prefix, read,
  no_override, access_beq, policy_beq, storage_policy_beq, find_argument,
}
use deep_forge.Metadata.Arguments.{
  expected_size, ragged_storage_bytes, inner_span_from, check_argument, check_arguments,
  check_identity, check_storage, size_is, check_ragged, check_ragged_references,
  ragged_references_valid,
}
use deep_forge.Metadata.Validation.{
  validate_graph_metadata, check_header, check_policy_data, check_roles,
}
use deep_forge.Metadata.Validity.{IsMetadata, validate_graph_metadata-IsMetadata}
use deep_forge.Runtime.Ragged.{element_index}
use deep_forge.Runtime.Ragged.Reads.{ReadsSafely, validate_graph_metadata-ReadsSafely}

abbrev argument : ℕ → DataType → List ℤ → List ℤ → ℕ → TensorStoragePolicy → ℕ → ℕ → TensorArgument
argument uid type dimensions strides size policy offsets sequences = record {
  uid = pos uid;
  name = uid ∷ [];
  data_type = type;
  dimensions = dimensions;
  strides = strides;
  size_bytes = size;
  alignment = 4;
  access = read;
  storage_policy = policy;
  ragged_offset_uid = pos offsets;
  ragged_sequence_uid = pos sequences;
  ragged_sequence_divisor = pos 1;
}

abbrev column : ℕ → List ℤ
column n = pos n ∷ pos 1 ∷ pos 1 ∷ pos 1 ∷ []

abbrev graph : List TensorArgument → GraphMetadata
graph arguments = record {
  function_name = 103 ∷ [];
  arguments = arguments;
  dynamic_shape_enabled = false;
  override_shape_enabled = false;
  override_policy = no_override;
  override_role_uids = [];
  override_axis_map = [];
}

abbrev values : TensorArgument
values =
    argument 1 float32 (pos 1 ∷ pos 1 ∷ pos 2 ∷ pos 1 ∷ []) (pos 2 ∷ pos 2 ∷ pos 1 ∷ pos 1 ∷ []) 8
      ragged_batch_prefix 2 3

abbrev sequences : TensorArgument
sequences = argument 3 int32 (column 1) (column 1) 4 strided 0 0

abbrev offsets : TensorArgument
offsets = argument 2 int32 (column 2) (column 1) 8 strided 0 0

abbrev plain : GraphMetadata
plain = graph (values ∷ offsets ∷ sequences ∷ [])

plain_valid : validate_graph_metadata plain ≡ ok tt
unfolding validate_graph_metadata check_header check_arguments check_argument check_identity
    check_storage size_is expected_size ragged_storage_bytes inner_span_from tensor_storage_bytes
    maximum_element_offset data_type_storage_bits find data_type_beq check_policy_data check_roles
    check_ragged_references check_ragged ragged_references_valid find_argument contains has_nul
    is_power_of_two access_beq policy_beq storage_policy_beq list_beq ◌+ℤ◌ xor
plain_valid = refl

validate_graph_metadata-IsMetadata_example : IsMetadata plain
validate_graph_metadata-IsMetadata_example = validate_graph_metadata-IsMetadata plain plain_valid

validate_graph_metadata-ReadsSafely_example : ReadsSafely plain values offsets sequences
unfolding find_argument find
validate_graph_metadata-ReadsSafely_example =
    validate_graph_metadata-ReadsSafely plain values offsets sequences 0 plain_valid refl refl refl
      refl refl refl

-- The offsets are themselves ragged, so their stride of 1000 elements is not checked.
abbrev ragged_offsets : TensorArgument
ragged_offsets =
    argument 2 int32 (column 2) (pos 1000 ∷ pos 1 ∷ pos 1 ∷ pos 1 ∷ []) 8 ragged_batch_prefix 4 5

abbrev nested : GraphMetadata
nested = graph (
    values
    ∷ ragged_offsets
    ∷ sequences
    ∷ argument 4 int32 (column 3) (column 1) 12 strided 0 0
    ∷ argument 5 int32 (column 2) (column 1) 8 strided 0 0
    ∷ [])

nested_valid : validate_graph_metadata nested ≡ ok tt
unfolding validate_graph_metadata check_header check_arguments check_argument check_identity
    check_storage size_is expected_size ragged_storage_bytes inner_span_from tensor_storage_bytes
    maximum_element_offset data_type_storage_bits find data_type_beq check_policy_data check_roles
    check_ragged_references check_ragged ragged_references_valid find_argument contains has_nul
    is_power_of_two access_beq policy_beq storage_policy_beq list_beq ◌+ℤ◌ xor
nested_valid = refl

-- The second offset is read 4000 bytes into a buffer of 8.
nested_read_outside : ragged_offsets.size_bytes < element_index ragged_offsets 1 * 4
unfolding element_index to_u64
nested_read_outside = omega arith
