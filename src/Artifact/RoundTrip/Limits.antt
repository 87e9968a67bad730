-- ===== src/Artifact/RoundTrip/Limits.antt =====
-- lib/Compiler/Artifact.cpp: when a compilation that `serialize_artifact` accepts can be read back.
-- What the C++ types bound is bounded here, and the texts have to be as short as the reader asks.
use deep_forge.Base.{
  ℕ, ◌+◌, ◌^◌, ◌≤◌, ◌<◌, ◌≡◌, refl, false, List, [], ◌∷◌, ◌++◌, length, length-append, All,
  is_empty, Text, text, int_eq, nat_eq, list_eq, nonpositive, u32_max, u64_max, arith,
}
use deep_forge.Metadata.{TensorArgument, adapter_kind_eq}
use deep_forge.Metadata.Validity.{IsArgument, validate_graph_metadata-IsMetadata}
use deep_forge.Metadata.Counts.{validate_graph_metadata-IsCounted}
use deep_forge.Workspace.{WorkspaceAllocation}
use deep_forge.Runtime.Dispatch.{CpuVariant, scalar, avx2, avx512}
use deep_forge.Artifact.{VariantCode, CompilationResult}
use deep_forge.Artifact.Bytes.{maximum_string_size}
use deep_forge.Artifact.Contract.Parts.{IsSlot, HasSlots, IsContract}
use deep_forge.Artifact.Contract.Workspace.{IsAllocation}
use deep_forge.Artifact.RoundTrip.Words.{IsShort, IsI64}
use deep_forge.Artifact.RoundTrip.Preamble.{IsNamed, IsStorableOverride}
use deep_forge.Artifact.RoundTrip.Arguments.{IsStorableArgument, IsStorableTable}
use deep_forge.Artifact.RoundTrip.Invocation.{IsStorableConv}
use deep_forge.Artifact.RoundTrip.Workspace.{IsStorableAllocation, IsStorableWorkspace}
use deep_forge.Artifact.RoundTrip.Variants.{IsStorableVariant, IsStorableVariants}

pub record IsTypedArgument (a : TensorArgument) : Type 0 where
  pub name : IsShort a.name
  pub uids : IsI64 a.uid × IsI64 a.ragged_offset_uid × IsI64 a.ragged_sequence_uid
  pub divisor : IsI64 a.ragged_sequence_divisor
  pub dimensions : All IsI64 a.dimensions
  pub strides : All IsI64 a.strides

pub record IsTypedAllocation (a : WorkspaceAllocation) : Type 0 where
  pub name : IsShort a.name
  pub lifetime : (a.live_start ≤ u64_max) × (a.live_end ≤ u64_max)

-- The ranges of the C++ types, and texts of at most 2 ^ 20 bytes: the symbols are the function's
-- name with a suffix of at most seven. The number of allocations fits 32 bits.
pub record IsWithinLimits (c : CompilationResult) : Type 0 where
  pub target_short : IsShort c.target_triple
  pub name_short : length c.metadata.graph.function_name + 7 ≤ maximum_string_size
  pub roles : All IsI64 c.metadata.graph.override_role_uids
  pub axes : All IsI64 c.metadata.graph.override_axis_map
  pub arguments : All IsTypedArgument c.metadata.graph.arguments
  pub conv : IsStorableConv c.metadata
  pub count : length c.workspace.allocations ≤ u32_max
  pub allocations : All IsTypedAllocation c.workspace.allocations
  pub scalar_object : length c.variants.for_scalar.object < 2 ^ 64
  pub avx2_object : length c.variants.for_avx2.object < 2 ^ 64
  pub avx512_object : length c.variants.for_avx512.object < 2 ^ 64

storable_arguments :
    (as' : List TensorArgument)
    → All IsArgument as'
    → All IsTypedArgument as'
    → All (λ a. nonpositive a.ragged_sequence_divisor ≡ false) as'
    → All IsStorableArgument as'
storable_arguments [] v t p = tt
storable_arguments (a ∷ rest) v t p = (
  record {
    uid = t.0.uids.0;
    name = t.0.name;
    offset_uid = t.0.uids.1;
    sequence_uid = t.0.uids.2;
    divisor = t.0.divisor;
    divides = p.0;
    alignment = omega (arith, v.0.alignment.1);
    size_bytes = v.0.bounded;
    rank = v.0.rank;
    same_rank = v.0.strided;
    dimensions = t.0.dimensions;
    strides = t.0.strides;
  },
  storable_arguments rest v.1 t.1 p.1,
)

storable_allocations :
    (size : ℕ) (as' : List WorkspaceAllocation)
    → size ≤ u64_max
    → All (IsAllocation size) as'
    → All IsTypedAllocation as'
    → All IsStorableAllocation as'
storable_allocations size [] le v t = tt
storable_allocations size (a ∷ rest) le v t = (
  record {
    name = t.0.name;
    offset = omega (arith, v.0.inside);
    size_bytes = omega (arith, v.0.inside);
    alignment = omega (arith, v.0.alignment.1);
    live_start = t.0.lifetime.0;
    live_end = t.0.lifetime.1;
  },
  storable_allocations size rest le v.1 t.1,
)

storable_variant :
    (function_name suffix features : Text) (id : CpuVariant) (v : VariantCode)
    → IsSlot function_name suffix features id v
    → length function_name + 7 ≤ maximum_string_size
    → is_empty (function_name ++ suffix) ≡ false
    → length suffix ≤ 7
    → is_empty features ≡ false
    → IsShort features
    → length v.object < 2 ^ 64
    → IsStorableVariant v
storable_variant f suffix features id v h le there short some_features few object = record {
  symbol = rw h.symbol_is (omega (arith, length-append f suffix));
  symbol_there = rw h.symbol_is there;
  features = rw h.features_are few;
  features_there = rw h.features_are some_features;
  object = object;
  object_there = h.object_there;
}

-- A compilation within the limits whose contract holds can be stored, section by section.
pub record IsStorable (c : CompilationResult) : Type 0 where
  pub named : IsNamed c
  pub override : IsStorableOverride c.metadata.graph
  pub table : IsStorableTable c.metadata.graph.arguments
  pub conv : IsStorableConv c.metadata
  pub workspace : IsStorableWorkspace c.workspace
  pub variants : IsStorableVariants c.variants

not_empty : (f suffix : Text) → is_empty suffix ≡ false → is_empty (f ++ suffix) ≡ false
not_empty [] suffix h = h
not_empty (x ∷ f) suffix h = refl

storable_variants :
    (c : CompilationResult)
    → IsWithinLimits c
    → HasSlots c.metadata.graph.function_name c.variants
    → IsStorableVariants c.variants
unfolding text
storable_variants c t h =
    let f = c.metadata.graph.function_name in
    record {
      scalar_is = h.scalar_slot.variant_is;
      avx2_is = h.avx2_slot.variant_is;
      avx512_is = h.avx512_slot.variant_is;
      scalar_code =
          storable_variant f _ _ scalar c.variants.for_scalar h.scalar_slot t.name_short
            (not_empty f _ refl) (omega arith) refl (omega arith) t.scalar_object;
      avx2_code =
          storable_variant f _ _ avx2 c.variants.for_avx2 h.avx2_slot t.name_short
            (not_empty f _ refl) (omega arith) refl (omega arith) t.avx2_object;
      avx512_code =
          storable_variant f _ _ avx512 c.variants.for_avx512 h.avx512_slot t.name_short
            (not_empty f _ refl) (omega arith) refl (omega arith) t.avx512_object;
    }

pub IsContract-IsStorable :
    (c : CompilationResult)
    → IsContract c.adapter_kind c.metadata c.workspace c.variants
    → IsWithinLimits c
    → IsStorable c
IsContract-IsStorable c h t =
    let g = c.metadata.graph in
    let v = validate_graph_metadata-IsMetadata g h.metadata in
    let n = validate_graph_metadata-IsCounted g h.metadata in
    let bound : c.workspace.size_bytes ≤ u64_max = omega (arith, h.workspace.signed) in
    record {
      named = record { target_short = t.target_short; name_short = omega (arith, t.name_short) };
      override = record { few_roles = n.roles; roles = t.roles; few_axes = n.axes; axes = t.axes };
      table = record {
        count = v.count;
        each = storable_arguments g.arguments v.each t.arguments n.divisors;
      };
      conv = t.conv;
      workspace = record {
        size_bytes = bound;
        alignment = omega (arith, h.workspace.alignment_is);
        count = t.count;
        each =
            storable_allocations c.workspace.size_bytes c.workspace.allocations bound
              h.workspace.each t.allocations;
      };
      variants = storable_variants c t h.variants;
    }
