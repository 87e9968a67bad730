-- ===== src/Artifact/Contract/Parts.antt =====
-- What `validate_contract` of lib/Compiler/Artifact.cpp establishes, part by part and as a whole.
use deep_forge.Base.{
  ◌≡◌, refl, false, ◌++◌, Text, text, is_empty, nat_eq, int_eq, list_eq, eq_of_!=, arith,
}
use deep_forge.Import.Status.{ok}
use deep_forge.Metadata.{
  InvocationAdapterKind, conv2d_ranked_memref, generic_ranked_memref_pointer_table, ConvMetadata,
}
use deep_forge.Metadata.Validation.{validate_graph_metadata}
use deep_forge.Workspace.{WorkspacePlan}
use deep_forge.Runtime.Dispatch.{CpuVariant, scalar, avx2, avx512, PerVariant}
use deep_forge.Artifact.{VariantCode}
use deep_forge.Artifact.Contract.{
  variant_code, check_adapter, check_adapter_shapes, check_function_name, check_metadata,
  check_workspace, check_variant, check_variants, validate_contract,
}
use deep_forge.Artifact.Contract.Conv.{accepted, graph_verdict, validate_conv_arguments}
use deep_forge.Artifact.Contract.Convolution.{
  IsConvolution, check_conv-IsConvolution, graph_verdict-ok, IsConvTable,
  validate_conv_arguments-IsConvTable,
}
use deep_forge.Artifact.Contract.Workspace.{
  >>-eq-accepted, IsWorkspace, check_workspace-IsWorkspace,
}

-- One slot of the variants: its identity, its symbol, the features it needs and an object.
pub record IsSlot (function_name suffix features : Text) (id : CpuVariant) (v : VariantCode)
    : Type 0 where
  pub variant_is : v.variant ≡ id
  pub symbol_is : v.symbol ≡ function_name ++ suffix
  pub features_are : v.required_features ≡ features
  pub object_there : is_empty v.object ≡ false

variant_code-injective : (a b : CpuVariant) → variant_code a ≡ variant_code b → a ≡ b
unfolding variant_code
variant_code-injective scalar scalar h = refl
variant_code-injective avx2 avx2 h = refl
variant_code-injective avx512 avx512 h = refl
variant_code-injective scalar avx2 h = absurd (omega arith)
variant_code-injective scalar avx512 h = absurd (omega arith)
variant_code-injective avx2 scalar h = absurd (omega arith)
variant_code-injective avx2 avx512 h = absurd (omega arith)
variant_code-injective avx512 scalar h = absurd (omega arith)
variant_code-injective avx512 avx2 h = absurd (omega arith)

check_variant-IsSlot :
    (function_name suffix features : Text) (id : CpuVariant) (v : VariantCode)
    → check_variant v (variant_code id) function_name suffix features ≡ accepted tt
    → IsSlot function_name suffix features id v
unfolding check_variant
check_variant-IsSlot function_name suffix features id v h = record {
  variant_is =
      variant_code-injective v.variant id
        (eq_of_!= (variant_code v.variant) (variant_code id) (ground arith));
  symbol_is = eq_of_!= v.symbol (function_name ++ suffix) (ground arith);
  features_are = eq_of_!= v.required_features features (ground arith);
  object_there = ground arith;
}

pub record HasSlots (function_name : Text) (v : PerVariant VariantCode) : Type 0 where
  pub scalar_slot : IsSlot function_name (text "_scalar") (text "baseline") scalar v.for_scalar
  pub avx2_slot : IsSlot function_name (text "_avx2") (text "avx2,fma") avx2 v.for_avx2
  pub avx512_slot : IsSlot function_name (text "_avx512") (text "avx512f,fma") avx512 v.for_avx512

check_variants-HasSlots :
    (function_name : Text) (v : PerVariant VariantCode)
    → check_variants function_name v ≡ accepted tt
    → HasSlots function_name v
unfolding check_variants variant_code
check_variants-HasSlots f v h =
    let (first, later) =
      >>-eq-accepted (check_variant v.for_scalar 0 f (text "_scalar") (text "baseline")) _ h in
    let (second, last) =
      >>-eq-accepted (check_variant v.for_avx2 1 f (text "_avx2") (text "avx2,fma")) _ later in
    record {
      scalar_slot =
          check_variant-IsSlot f (text "_scalar") (text "baseline") scalar v.for_scalar first;
      avx2_slot = check_variant-IsSlot f (text "_avx2") (text "avx2,fma") avx2 v.for_avx2 second;
      avx512_slot =
          check_variant-IsSlot f (text "_avx512") (text "avx512f,fma") avx512 v.for_avx512 last;
    }

check_adapter-graph :
    (adapter : InvocationAdapterKind) (m : ConvMetadata)
    → check_adapter adapter m ≡ accepted tt
    → validate_graph_metadata m.graph ≡ ok tt
unfolding check_adapter validate_conv_arguments
check_adapter-graph generic_ranked_memref_pointer_table m h = graph_verdict-ok m.graph h
check_adapter-graph conv2d_ranked_memref m h =
    graph_verdict-ok m.graph (>>-eq-accepted (graph_verdict m.graph) _ h).0

check_adapter_shapes-IsConvolution :
    (adapter : InvocationAdapterKind) (m : ConvMetadata)
    → adapter ≡ conv2d_ranked_memref
    → check_adapter_shapes adapter m ≡ accepted tt
    → IsConvolution m
unfolding check_adapter_shapes
check_adapter_shapes-IsConvolution generic_ranked_memref_pointer_table m is h = cc
check_adapter_shapes-IsConvolution conv2d_ranked_memref m is h = check_conv-IsConvolution m h

check_adapter-IsConvTable :
    (adapter : InvocationAdapterKind) (m : ConvMetadata)
    → adapter ≡ conv2d_ranked_memref
    → check_adapter adapter m ≡ accepted tt
    → IsConvTable m
unfolding check_adapter
check_adapter-IsConvTable generic_ranked_memref_pointer_table m is h = cc
check_adapter-IsConvTable conv2d_ranked_memref m is h = validate_conv_arguments-IsConvTable m h

-- The contract of an artifact.
pub record IsContract (adapter : InvocationAdapterKind) (m : ConvMetadata) (w : WorkspacePlan)
    (v : PerVariant VariantCode) : Type 0 where
  pub metadata : validate_graph_metadata m.graph ≡ ok tt
  pub convolution : adapter ≡ conv2d_ranked_memref → IsConvolution m
  pub table : adapter ≡ conv2d_ranked_memref → IsConvTable m
  pub workspace : IsWorkspace w
  pub variants : HasSlots m.graph.function_name v

-- An accepted contract holds.
pub validate_contract-IsContract :
    (adapter : InvocationAdapterKind) (m : ConvMetadata) (w : WorkspacePlan)
    (v : PerVariant VariantCode)
    → validate_contract adapter m w v ≡ accepted tt
    → IsContract adapter m w v
unfolding validate_contract check_metadata
validate_contract-IsContract adapter m w v h =
    let (metadata, after_metadata) = >>-eq-accepted (check_metadata adapter m) _ h in
    let (workspace, variants) =
      >>-eq-accepted (check_workspace w) (check_variants m.graph.function_name v) after_metadata in
    let (graph, after_graph) = >>-eq-accepted (check_adapter adapter m) _ metadata in
    let shapes =
      >>-eq-accepted (check_function_name m) (check_adapter_shapes adapter m) after_graph in
    record {
      metadata = check_adapter-graph adapter m graph;
      convolution = λ is. check_adapter_shapes-IsConvolution adapter m is shapes.1;
      table = λ is. check_adapter-IsConvTable adapter m is graph;
      workspace = check_workspace-IsWorkspace w workspace;
      variants = check_variants-HasSlots m.graph.function_name v variants;
    }
