-- ===== src/Runtime/Creation/Selected.antt =====
-- An executable that a factory of lib/Runtime/Executable.cpp makes can run the variant that `execute`
-- selects.
use deep_forge.Base.{◌≡◌, refl, Bool, true, some, arith, inl, inr, ◌⊎◌}
use deep_forge.Import.Status.{ok, >>-eq-ok}
use deep_forge.Metadata.{InvocationAdapterKind, conv2d_ranked_memref, ConvMetadata}
use deep_forge.Metadata.Validation.{validate_graph_metadata}
use deep_forge.Workspace.{WorkspacePlan}
use deep_forge.Runtime.Dispatch.{
  CpuVariant, scalar, avx2, avx512, CpuFeatures, PerVariant, at_variant, select_cpu_variant,
}
use deep_forge.Runtime.Dispatch.Choice.{select_cpu_variant-best}
use deep_forge.Runtime.Execute.{Impl, Code, is_compiled, selected_variant, supports_variant}
use deep_forge.Runtime.Execute.Calls.{check_variant}
use deep_forge.Runtime.Creation.{
  Slot, codes, adapter_checks, validate_argument_table, create, create_object,
}

compiled_at : (code : PerVariant Code) → PerVariant Bool
compiled_at code = record {
  for_scalar = is_compiled (at_variant code scalar);
  for_avx2 = is_compiled (at_variant code avx2);
  for_avx512 = is_compiled (at_variant code avx512);
}

at-compiled_at :
    (code : PerVariant Code) (v : CpuVariant)
    → at_variant (compiled_at code) v ≡ is_compiled (at_variant code v)
unfolding compiled_at
at-compiled_at code scalar = refl
at-compiled_at code avx2 = refl
at-compiled_at code avx512 = refl

-- The selected variant passes the checks of `execute_variant`.
selected-check_variant :
    (features : CpuFeatures) (impl : Impl)
    → is_compiled (at_variant impl.code scalar) ≡ true
    → check_variant features impl (selected_variant features (some impl)) ≡ ok tt
unfolding check_variant supports_variant selected_variant compiled_at
selected-check_variant features impl h =
    let (usable, best) = select_cpu_variant-best features (compiled_at impl.code) h in
    let v = select_cpu_variant features (compiled_at impl.code) in
    let there = at-compiled_at impl.code v in ground (arith, usable.0, usable.1, there)

-- What a factory's executable promises: its metadata is validated, and `execute` does not fail on
-- the variant that it selects, on any host.
abbrev pub IsRunnable : Impl → Type 0
IsRunnable impl =
    (validate_graph_metadata impl.metadata.graph ≡ ok tt)
    × ((features : CpuFeatures)
        → check_variant features impl (selected_variant features (some impl)) ≡ ok tt)

validate_argument_table-graph :
    (adapter : InvocationAdapterKind) (m : ConvMetadata)
    → validate_argument_table adapter m ≡ ok tt
    → validate_graph_metadata m.graph ≡ ok tt
unfolding validate_argument_table
validate_argument_table-graph adapter m h =
    (>>-eq-ok (validate_graph_metadata m.graph) (adapter_checks adapter m) h).0

-- Every executable that one of the two factories returns is runnable: its metadata is validated,
-- and the variant that `execute` selects is compiled and supported on any host.
pub create-IsRunnable :
    (adapter : InvocationAdapterKind) (metadata : ConvMetadata) (workspace : WorkspacePlan)
    (slots : PerVariant Slot) (impl : Impl)
    → (create metadata workspace slots ≡ ok impl)
      ⊎ (create_object adapter metadata workspace slots ≡ ok impl)
    → IsRunnable impl
unfolding create create_object
create-IsRunnable adapter metadata workspace slots impl (inl h) =
    let (valid, later) = >>-eq-ok (validate_argument_table conv2d_ranked_memref metadata) _ h in
    let same : record {
      adapter_kind = conv2d_ranked_memref;
      metadata = metadata;
      workspace = workspace;
      code = codes slots;
    }
        ≡ impl =
      ground arith in
    rw (← same) (
      validate_argument_table-graph conv2d_ranked_memref metadata valid,
      λ features. selected-check_variant features _ (ground arith),
    )
create-IsRunnable adapter metadata workspace slots impl (inr h) =
    let (valid, later) = >>-eq-ok (validate_argument_table adapter metadata) _ h in
    let same : record {
      adapter_kind = adapter;
      metadata = metadata;
      workspace = workspace;
      code = codes slots;
    }
        ≡ impl =
      ground arith in
    rw (← same) (
      validate_argument_table-graph adapter metadata valid,
      λ features. selected-check_variant features _ (ground arith),
    )
