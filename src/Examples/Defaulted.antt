-- ===== src/Examples/Defaulted.antt =====
-- A matrix product that is called without overrides.
use mathlib.Core.Bool.{xor}
use deep_forge.Base.{
  ◌≡◌, refl, true, false, [], ◌∷◌, ℕ, pos, map, find, list_beq, contains, is_power_of_two, has_nul,
}
use deep_forge.Import.Status.{ok}
use deep_forge.Import.DataTypes.{float32, data_type_beq}
use deep_forge.Import.Capability.{
  data_type_storage_bits, tensor_storage_bytes, maximum_element_offset,
}
use deep_forge.Metadata.{
  TensorArgument, GraphMetadata, TensorAccess, read, write, strided, matmul, access_beq, policy_beq,
  storage_policy_beq, find_argument, distinct_count,
}
use deep_forge.Metadata.Arguments.{
  expected_size, check_argument, check_arguments, check_identity, check_storage, size_is,
  check_ragged, check_ragged_references,
}
use deep_forge.Metadata.Shapes.{valid_matmul_dimensions, batches_broadcast}
use deep_forge.Metadata.Policies.{check_matmul, matmul_roles}
use deep_forge.Metadata.Validation.{
  validate_graph_metadata, check_header, check_policy_data, check_roles,
}
use deep_forge.Runtime.Overrides.Arguments.{compiled}
use deep_forge.Runtime.Overrides.Resolution.{resolve_overrides}
use deep_forge.Runtime.Overrides.Defaults.Whole.{resolve_overrides-compiled}

abbrev pub matrix : ℕ → ℕ → ℕ → ℕ → TensorAccess → TensorArgument
matrix uid rows columns size access = record {
  uid = pos uid;
  name = uid ∷ [];
  data_type = float32;
  dimensions = pos rows ∷ pos columns ∷ [];
  strides = pos columns ∷ pos 1 ∷ [];
  size_bytes = size;
  alignment = 64;
  access = access;
  storage_policy = strided;
  ragged_offset_uid = pos 0;
  ragged_sequence_uid = pos 0;
  ragged_sequence_divisor = pos 1;
}

abbrev pub product : GraphMetadata
product = record {
  function_name = 109 ∷ [];
  arguments = matrix 1 2 3 24 read ∷ matrix 2 3 4 48 read ∷ matrix 3 2 4 32 write ∷ [];
  dynamic_shape_enabled = false;
  override_shape_enabled = true;
  override_policy = matmul;
  override_role_uids = pos 1 ∷ pos 2 ∷ pos 3 ∷ [];
  override_axis_map = [];
}

pub product_valid : validate_graph_metadata product ≡ ok tt
unfolding validate_graph_metadata check_header check_arguments check_argument check_identity
    check_storage size_is expected_size tensor_storage_bytes maximum_element_offset
    data_type_storage_bits find data_type_beq check_policy_data check_roles check_matmul
    matmul_roles valid_matmul_dimensions batches_broadcast check_ragged_references check_ragged
    find_argument distinct_count contains has_nul is_power_of_two access_beq policy_beq
    storage_policy_beq list_beq xor
product_valid = refl

resolve_overrides-compiled_example :
    resolve_overrides product [] [] [] ≡ ok (map compiled product.arguments)
resolve_overrides-compiled_example = resolve_overrides-compiled product product_valid
