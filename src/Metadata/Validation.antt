-- ===== src/Metadata/Validation.antt =====
-- `validate_graph_compile_metadata` of lib/Runtime/GraphMetadata.cpp.
use deep_forge.Base.{
  ℕ, Bool, true, false, not, ◌&&◌, ◌||◌, List, [], ◌∷◌, text, has_nul, length, is_empty, ltb, ◌==◌,
  ◌!=◌, nat_eq, ℤ, xor,
}
use deep_forge.Import.Status.{Status, ok, ◌>>=◌, ◌>>◌, reject}
use deep_forge.Metadata.{
  TensorArgument, GraphMetadata, ShapeOverridePolicy, no_override, pointwise_exact, matmul,
  sdpa_forward, reshape, reduction, transpose, concatenate, block_scale_matmul, policy_eq,
}
use deep_forge.Metadata.Arguments.{invalid, check_arguments, check_ragged_references}
use deep_forge.Metadata.Policies.{
  check_matmul, check_sdpa, check_reshape, check_reduction, check_transpose, check_concatenate,
  check_block_scale_matmul,
}

valid_override_policy : ShapeOverridePolicy → Bool
valid_override_policy no_override = true
valid_override_policy pointwise_exact = true
valid_override_policy matmul = true
valid_override_policy sdpa_forward = true
valid_override_policy reshape = true
valid_override_policy reduction = true
valid_override_policy transpose = true
valid_override_policy concatenate = true
valid_override_policy block_scale_matmul = true

-- the policies that name their arguments by role
abbrev pub has_roles : ShapeOverridePolicy → Bool
has_roles no_override = false
has_roles pointwise_exact = false
has_roles _ = true

-- the policies that carry an axis map
abbrev pub has_axis_map : ShapeOverridePolicy → Bool
has_axis_map transpose = true
has_axis_map concatenate = true
has_axis_map _ = false

abbrev pub overrides : ShapeOverridePolicy → Bool
overrides no_override = false
overrides _ = true

-- The checks before the loop over the arguments.
unfoldable pub check_header : GraphMetadata → Status
unfolding valid_override_policy
check_header g = do
  reject (is_empty g.function_name || has_nul g.function_name)
      (invalid (text "function name is empty or contains NUL"))
  reject (is_empty g.arguments || ltb 4096 (length g.arguments))
      (invalid (text "argument count must be between 1 and 4096"))
  reject
      (not (valid_override_policy g.override_policy)
        || xor g.override_shape_enabled (overrides g.override_policy))
      (invalid (text "shape override flag and policy are inconsistent"))
  ok tt

-- The shape of the first argument.
abbrev pub first_shape : List TensorArgument → List ℤ
first_shape [] = []
first_shape (a ∷ rest) = a.dimensions

-- The checks between the loops that no role is needed for.
unfoldable pub check_policy_data : GraphMetadata → ℕ → Status
check_policy_data g writes = do
  reject (g.override_policy == pointwise_exact && (ltb (length g.arguments) 2 || writes != 1))
      (invalid (text "exact-pointwise override metadata requires inputs and one output"))
  reject (not (has_roles g.override_policy) && not (is_empty g.override_role_uids))
      (invalid (text "override role UIDs require a role-based policy"))
  reject (not (has_axis_map g.override_policy) && not (is_empty g.override_axis_map))
      (invalid (text "override axis map requires the TRANSPOSE or CONCATENATE policy"))
  ok tt

unfoldable pub check_roles : ShapeOverridePolicy → GraphMetadata → Status
check_roles no_override g = ok tt
check_roles pointwise_exact g = ok tt
check_roles matmul g = check_matmul g
check_roles sdpa_forward g = check_sdpa g
check_roles reshape g = check_reshape g
check_roles reduction g = check_reduction g
check_roles transpose g = check_transpose g
check_roles concatenate g = check_concatenate g
check_roles block_scale_matmul g = check_block_scale_matmul g

unfoldable pub validate_graph_metadata : GraphMetadata → Status
validate_graph_metadata g = do
  check_header g
  writes ← check_arguments g.override_policy (first_shape g.arguments) g.arguments [] 0
  check_policy_data g writes
  check_roles g.override_policy g
  check_ragged_references g.arguments g.arguments
