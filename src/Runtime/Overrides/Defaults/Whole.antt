-- ===== src/Runtime/Overrides/Defaults/Whole.antt =====
-- `resolve_overrides` of lib/Runtime/Executable.cpp without overrides, on validated metadata.
use deep_forge.Base.{ℕ, ◌≡◌, refl, [], map}
use deep_forge.Import.Status.{ok, >>-eq-ok, >>=-eq-ok}
use deep_forge.Metadata.{
  GraphMetadata, ShapeOverridePolicy, no_override, pointwise_exact, matmul, sdpa_forward, reshape,
  reduction, transpose, concatenate, block_scale_matmul,
}
use deep_forge.Metadata.Arguments.{check_arguments, check_ragged_references}
use deep_forge.Metadata.Validation.{
  validate_graph_metadata, check_header, check_policy_data, check_roles, first_shape,
}
use deep_forge.Runtime.Overrides.Arguments.{compiled, apply_overrides}
use deep_forge.Runtime.Overrides.Resolution.{check_policy, zip_overrides, resolve_overrides}
use deep_forge.Runtime.Overrides.Defaults.Policies.{
  resolve_matmul-compiled, resolve_reshape-compiled, resolve_reduction-compiled,
  resolve_transpose-compiled,
}
use deep_forge.Runtime.Overrides.Defaults.Groups.{
  check_pointwise_shapes-compiled, resolve_sdpa-compiled, resolve_concatenate-compiled,
  resolve_block_scale-compiled,
}

check_policy-compiled :
    (policy : ShapeOverridePolicy) (g : GraphMetadata) (n : ℕ)
    → check_arguments policy (first_shape g.arguments) g.arguments [] 0 ≡ ok n
    → check_roles policy g ≡ ok tt
    → check_policy policy g (map compiled g.arguments) ≡ ok tt
unfolding check_roles check_policy
check_policy-compiled no_override g n h k = refl
check_policy-compiled pointwise_exact g n h k = check_pointwise_shapes-compiled g.arguments [] 0 n h
check_policy-compiled matmul g n h k = resolve_matmul-compiled g k
check_policy-compiled sdpa_forward g n h k = resolve_sdpa-compiled g k
check_policy-compiled reshape g n h k = resolve_reshape-compiled g k
check_policy-compiled reduction g n h k = resolve_reduction-compiled g k
check_policy-compiled transpose g n h k = resolve_transpose-compiled g k
check_policy-compiled concatenate g n h k = resolve_concatenate-compiled g k
check_policy-compiled block_scale_matmul g n h k = resolve_block_scale-compiled g k

-- For validated metadata, whatever its policy, a call without overrides is never refused: every
-- argument is resolved to its compiled shape, strides and size.
pub resolve_overrides-compiled :
    (g : GraphMetadata)
    → validate_graph_metadata g ≡ ok tt
    → resolve_overrides g [] [] [] ≡ ok (map compiled g.arguments)
unfolding validate_graph_metadata resolve_overrides zip_overrides apply_overrides
resolve_overrides-compiled g h =
    let (header, after_header) = >>-eq-ok (check_header g) _ h in
    let (writes, looped, after_loop) =
      >>=-eq-ok (check_arguments g.override_policy (first_shape g.arguments) g.arguments [] 0) _
        after_header in
    let (data_ok, after_data) = >>-eq-ok (check_policy_data g writes) _ after_loop in
    let (roles, references) =
      >>-eq-ok (check_roles g.override_policy g) (check_ragged_references g.arguments g.arguments)
        after_data in
    rw (check_policy-compiled g.override_policy g writes looped roles) refl
