-- ===== src/Artifact/Contract.antt =====
-- `validate_contract` of lib/Compiler/Artifact.cpp: what every artifact promises, checked when it is
-- written and again when it is read. A check of the source returns false with a text in `detail`; here
-- it is a verdict that carries the text.
pub mod Conv
pub mod Workspace
pub mod Convolution
pub mod Parts
pub mod Complete
pub mod Planned
use deep_forge.Base.{
  ℕ, zero, suc, ◌+◌, ◌-◌, ◌%◌, ◌^◌, max, Bool, true, false, not, xor, ◌&&◌, ◌||◌, Option, none,
  some, List, [], ◌∷◌, ◌++◌, Text, text, has_nul, is_empty, contains, if◌then◌else◌, ltb, ◌==◌,
  ◌!=◌, nat_eq, list_eq, i64_max, checked_add, is_power_of_two, align_down,
}
use deep_forge.Import.Status.{Status, ok, err}
use deep_forge.Metadata.{
  InvocationAdapterKind, conv2d_ranked_memref, generic_ranked_memref_pointer_table, ConvMetadata,
}
use deep_forge.Metadata.Validation.{validate_graph_metadata}
use deep_forge.Workspace.{WorkspaceAllocation, WorkspacePlan, workspace_alignment}
use deep_forge.Runtime.Dispatch.{CpuVariant, scalar, avx2, avx512, PerVariant}
use deep_forge.Artifact.{VariantCode}
use deep_forge.Artifact.Contract.Conv.{
  Verdict, refused, accepted, ◌>>=◌, ◌>>◌, deny, graph_verdict, validate_conv_arguments, check_conv,
}

-- the enumerator's number
unfoldable pub variant_code : CpuVariant → ℕ
variant_code scalar = 0
variant_code avx2 = 1
variant_code avx512 = 2

unfoldable pub check_adapter : InvocationAdapterKind → ConvMetadata → Verdict (Unit {0})
check_adapter conv2d_ranked_memref m = validate_conv_arguments m
check_adapter generic_ranked_memref_pointer_table m = graph_verdict m.graph

unfoldable pub check_adapter_shapes : InvocationAdapterKind → ConvMetadata → Verdict (Unit {0})
check_adapter_shapes conv2d_ranked_memref m = check_conv m
check_adapter_shapes generic_ranked_memref_pointer_table m = accepted tt

unfoldable pub check_function_name : ConvMetadata → Verdict (Unit {0})
check_function_name m =
    deny (is_empty m.graph.function_name || has_nul m.graph.function_name)
      (text "function name is empty or contains NUL")

-- The checks of the metadata. The error on an unknown adapter is not here: the enumeration has two.
unfoldable pub check_metadata : InvocationAdapterKind → ConvMetadata → Verdict (Unit {0})
check_metadata adapter m = do
  check_adapter adapter m
  check_function_name m
  check_adapter_shapes adapter m

-- One round of the loop over the allocations, with the names seen before: the allocation's end.
unfoldable pub check_allocation : WorkspaceAllocation → List Text → ℕ → Verdict ℕ
check_allocation a names size = do
  deny
      (is_empty a.name
        || has_nul a.name
        || contains a.name names
        || a.size_bytes == 0
        || not (is_power_of_two a.alignment)
        || ltb workspace_alignment a.alignment
        || a.offset % a.alignment != 0
        || ltb a.live_end a.live_start)
      (text "workspace allocation metadata is invalid")
  end ← elim (checked_add a.offset a.size_bytes) [
    | none ↦ refused (text "workspace allocation is outside the planned range")
    | some end ↦ accepted end
  ]
  deny (ltb size end) (text "workspace allocation is outside the planned range")
  accepted end

-- The loop: the highest end.
unfoldable pub check_allocations : List WorkspaceAllocation → List Text → ℕ → ℕ → Verdict ℕ
check_allocations [] names size high = accepted high
check_allocations (a ∷ rest) names size high =
    let later = λ (end : ℕ). check_allocations rest (a.name ∷ names) size (max high end) in
    check_allocation a names size >>= later

-- the end of an allocation, in 64-bit arithmetic
abbrev pub end_of : WorkspaceAllocation → ℕ
end_of a = (a.offset + a.size_bytes) % 2 ^ 64

unfoldable pub overlap : WorkspaceAllocation → WorkspaceAllocation → Bool
overlap left right =
    let lifetime_overlap =
      not (ltb left.live_end right.live_start || ltb right.live_end left.live_start) in
    let range_overlap = ltb left.offset (end_of right) && ltb right.offset (end_of left) in
    lifetime_overlap && range_overlap

unfoldable pub overlaps_any : WorkspaceAllocation → List WorkspaceAllocation → Bool
overlaps_any left [] = false
overlaps_any left (right ∷ rest) = overlap left right || overlaps_any left rest

-- The loop over all pairs.
unfoldable pub any_overlap : List WorkspaceAllocation → Bool
any_overlap [] = false
any_overlap (left ∷ rest) = overlaps_any left rest || any_overlap rest

unfoldable pub expected_size : ℕ → Verdict ℕ
expected_size high =
    if high == 0 then accepted 0 else elim (checked_add high (workspace_alignment - 1)) [
      | none ↦ refused (text "workspace high watermark overflows")
      | some with_padding ↦ accepted (align_down with_padding workspace_alignment)
    ]

-- The checks of the workspace before and behind the loop.
unfoldable pub check_layout : WorkspacePlan → Verdict (Unit {0})
check_layout w = do
  deny
      (w.alignment != workspace_alignment
        || ltb i64_max w.size_bytes
        || w.size_bytes % workspace_alignment != 0)
      (text "workspace size or alignment is invalid")
  deny (xor (w.size_bytes == 0) (is_empty w.allocations))
      (text "workspace size and allocation count disagree")

unfoldable pub check_size : WorkspacePlan → ℕ → Verdict (Unit {0})
check_size w high = do
  deny (any_overlap w.allocations) (text "simultaneously live workspace allocations overlap")
  size ← expected_size high
  deny (w.size_bytes != size) (text "workspace size is not the aligned high watermark")

unfoldable pub check_workspace : WorkspacePlan → Verdict (Unit {0})
check_workspace w = do
  check_layout w
  high ← check_allocations w.allocations [] w.size_bytes 0
  check_size w high

-- One round of the loop over the variants.
unfoldable pub check_variant : VariantCode → ℕ → Text → Text → Text → Verdict (Unit {0})
check_variant v index function_name suffix features =
    deny
      (variant_code v.variant != index
        || v.symbol != function_name ++ suffix
        || v.required_features != features
        || is_empty v.object)
      (text "variant identity, symbol, feature set or object is invalid")

unfoldable pub check_variants : Text → PerVariant VariantCode → Verdict (Unit {0})
check_variants function_name v = do
  check_variant v.for_scalar 0 function_name (text "_scalar") (text "baseline")
  check_variant v.for_avx2 1 function_name (text "_avx2") (text "avx2,fma")
  check_variant v.for_avx512 2 function_name (text "_avx512") (text "avx512f,fma")

unfoldable pub validate_contract :
    InvocationAdapterKind
    → ConvMetadata
    → WorkspacePlan
    → PerVariant VariantCode
    → Verdict (Unit {0})
validate_contract adapter m workspace variants = do
  check_metadata adapter m
  check_workspace workspace
  check_variants m.graph.function_name variants
