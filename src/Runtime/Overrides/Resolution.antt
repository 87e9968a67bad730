-- ===== src/Runtime/Overrides/Resolution.antt =====
-- `resolve_overrides` of lib/Runtime/Executable.cpp: the last policy, and the whole.
use deep_forge.Base.{
  not, ◌&&◌, ◌||◌, List, [], ◌∷◌, text, length, is_empty, any, map, ◌!=◌, nat_eq, list_eq, ℤ, pos,
  int_eq,
}
use deep_forge.Import.Status.{
  Result, Status, ok, ◌>>=◌, ◌>>◌, reject, fail, or_fail, invalid_value, invalid_layout,
}
use deep_forge.Metadata.{
  GraphMetadata, ShapeOverridePolicy, no_override, pointwise_exact, matmul, sdpa_forward, reshape,
  reduction, transpose, concatenate, block_scale_matmul, axis_of,
}
use deep_forge.Metadata.Shapes.{
  block_scale, scale_dimensions, scales_match, canonical_strides, divides,
}
use deep_forge.Runtime.Overrides.Arguments.{ResolvedArgument, Override, compiled, apply_overrides}
use deep_forge.Runtime.Overrides.Roles.{
  malformed, bad_shape, shape_of, resolve_roles, check_pointwise_shapes, resolve_matmul,
  resolve_sdpa, resolve_reshape, resolve_reduction, resolve_transpose, resolve_concatenate,
}

-- A, its scales, B, its scales, and C.
unfoldable pub check_block_scale_shapes : List (List ℤ) → List (List ℤ) → Status
check_block_scale_shapes (a ∷ scale_a ∷ b ∷ scale_b ∷ c ∷ []) strides = do
  let s = block_scale a b
  reject (any (λ d. length d != 3) (a ∷ scale_a ∷ b ∷ scale_b ∷ c ∷ []))
      (bad_shape (text "block-scale MATMUL overrides require rank-3 tensors"))
  reject
      (not (divides (pos 16) s.k)
        || axis_of b 0 != s.batch
        || axis_of b 1 != s.k
        || axis_of c 0 != s.batch
        || axis_of c 1 != s.m
        || axis_of c 2 != s.n)
      (bad_shape
        (text "block-scale MATMUL B/M/N/K dimensions are inconsistent or K is not divisible by 16"))
  scales ←
      or_fail (scale_dimensions s)
        (bad_shape (text "block-scale MATMUL scale dimensions overflow int64"))
  reject (not (scales_match s scale_a scale_b scales))
      (bad_shape (text "block-scale MATMUL scale dimensions do not match 128x4 padding"))
  expected ← or_fail (canonical_strides s scales) (
      fail invalid_layout (text "runtime.override")
        (text "block-scale MATMUL canonical strides overflow int64"))
  reject (strides != expected) (
      fail invalid_layout (text "runtime.override")
        (text "block-scale MATMUL overrides require producer-canonical strides"))
  ok tt
check_block_scale_shapes _ strides = ok tt

unfoldable pub resolve_block_scale : GraphMetadata → List ResolvedArgument → Status
resolve_block_scale g resolved = do
  reject (length g.override_role_uids != 5)
      (malformed (text "block-scale MATMUL override metadata is malformed"))
  roles ←
      resolve_roles g.arguments resolved g.override_role_uids
        (malformed (text "block-scale MATMUL override role UID is unresolved"))
  check_block_scale_shapes (map shape_of roles) (map (λ r. r.resolved.strides) roles)

unfoldable pub check_policy : ShapeOverridePolicy → GraphMetadata → List ResolvedArgument → Status
check_policy no_override g resolved = ok tt
check_policy pointwise_exact g resolved = check_pointwise_shapes resolved
check_policy matmul g resolved = resolve_matmul g resolved
check_policy sdpa_forward g resolved = resolve_sdpa g resolved
check_policy reshape g resolved = resolve_reshape g resolved
check_policy reduction g resolved = resolve_reduction g resolved
check_policy transpose g resolved = resolve_transpose g resolved
check_policy concatenate g resolved = resolve_concatenate g resolved
check_policy block_scale_matmul g resolved = resolve_block_scale g resolved

-- The three vectors, entry by entry.
unfoldable pub zip_overrides : List ℤ → List (List ℤ) → List (List ℤ) → List Override
zip_overrides (u ∷ us) (d ∷ ds) (s ∷ ss) =
    record { uid = u; dimensions = d; strides = s } ∷ zip_overrides us ds ss
zip_overrides _ _ _ = []

unfoldable pub resolve_overrides :
    GraphMetadata → List ℤ → List (List ℤ) → List (List ℤ) → Result (List ResolvedArgument)
resolve_overrides g uids shapes strides = do
  reject (length uids != length shapes || length uids != length strides) (
      fail invalid_value (text "runtime.override")
        (text "override UIDs, shapes, and strides must have equal counts"))
  reject (not (is_empty uids) && not g.override_shape_enabled)
      (malformed (text "artifact was not compiled with shape overrides enabled"))
  resolved ←
      apply_overrides g.arguments [] (zip_overrides uids shapes strides) (map compiled g.arguments)
  check_policy g.override_policy g resolved
  ok resolved
