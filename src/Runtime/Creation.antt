-- ===== src/Runtime/Creation.antt =====
-- lib/Runtime/Executable.cpp: the checks by which `ExecutableFactory` makes an executable.
pub mod Selected
use deep_forge.Base.{
  Bool, false, not, ◌&&◌, ◌||◌, List, [], ◌∷◌, Text, text, length, is_empty, any, ◌==◌, ◌!=◌,
  nat_eq, list_eq, int_eq,
}
use deep_forge.Import.Status.{Result, Status, ok, ◌>>◌, reject, fail, invalid_value}
use deep_forge.Import.DataTypes.{float32, data_type_eq}
use deep_forge.Metadata.{
  InvocationAdapterKind, conv2d_ranked_memref, generic_ranked_memref_pointer_table, TensorArgument,
  ConvMetadata, read, write, access_eq, no_override, policy_eq, list4,
}
use deep_forge.Metadata.Validation.{validate_graph_metadata}
use deep_forge.Workspace.{WorkspacePlan}
use deep_forge.Runtime.Dispatch.{PerVariant}
use deep_forge.Runtime.Execute.{Code, Impl}

-- Whether the three arguments are the convolution's X, W and Y.
unfoldable pub matches_conv : ConvMetadata → List TensorArgument → Bool
unfolding text
matches_conv m (x ∷ w ∷ y ∷ []) =
    x.uid == m.x_uid
    && w.uid == m.w_uid
    && y.uid == m.y_uid
    && x.name == text "X"
    && w.name == text "W"
    && y.name == text "Y"
    && x.access == read
    && w.access == read
    && y.access == write
    && x.dimensions == list4 m.x_shape
    && w.dimensions == list4 m.w_shape
    && y.dimensions == list4 m.y_shape
matches_conv m _ = false

unfoldable pub check_conv_table : ConvMetadata → Status
check_conv_table m = do
  let g = m.graph
  reject (length g.arguments != 3) (
      fail invalid_value (text "metadata.arguments")
        (text "Conv adapter requires a function name and three arguments"))
  reject (g.dynamic_shape_enabled || g.override_shape_enabled || g.override_policy != no_override) (
      fail invalid_value (text "metadata.override")
        (text "Conv adapter does not support dynamic or override metadata"))
  reject (any (λ a. a.data_type != float32 || length a.dimensions != 4) g.arguments) (
      fail invalid_value (text "metadata.arguments")
        (text "Conv adapter requires rank-4 FLOAT arguments"))
  reject (not (matches_conv m g.arguments)) (
      fail invalid_value (text "metadata.arguments")
        (text "argument table does not match the Conv adapter"))
  ok tt

abbrev pub adapter_checks : InvocationAdapterKind → ConvMetadata → Status
adapter_checks generic_ranked_memref_pointer_table m = ok tt
adapter_checks conv2d_ranked_memref m = check_conv_table m

-- The error on an unknown adapter is not here: the enumeration has these two.
unfoldable pub validate_argument_table : InvocationAdapterKind → ConvMetadata → Status
validate_argument_table adapter m = validate_graph_metadata m.graph >> adapter_checks adapter m

-- What one variant brings: its code, and the name of its symbol.
pub record Slot : Type 0 where
  pub code : Code
  pub has_jit : Bool
  pub symbol : Text

abbrev pub codes : PerVariant Slot → PerVariant Code
codes slots = record {
  for_scalar = slots.for_scalar.code;
  for_avx2 = slots.for_avx2.code;
  for_avx512 = slots.for_avx512.code;
}

-- ExecutableFactory::create, for the slots of three JIT engines; the count of the vector is 3.
unfoldable pub create : ConvMetadata → WorkspacePlan → PerVariant Slot → Result Impl
create metadata workspace slots = do
  validate_argument_table conv2d_ranked_memref metadata
  reject (not slots.for_scalar.code.has_engine)
      (fail invalid_value (text "engines") (text "scalar engine is required"))
  reject (is_empty slots.for_scalar.symbol)
      (fail invalid_value (text "symbols") (text "scalar entry symbol is required"))
  ok (record {
    adapter_kind = conv2d_ranked_memref;
    metadata = metadata;
    workspace = workspace;
    code = codes slots;
  })

abbrev pub is_loaded : Slot → Bool
is_loaded s = s.has_jit && s.code.entry_point != 0 && not (is_empty s.symbol)

-- ExecutableFactory::create_object
unfoldable pub create_object :
    InvocationAdapterKind → ConvMetadata → WorkspacePlan → PerVariant Slot → Result Impl
create_object adapter metadata workspace slots = do
  validate_argument_table adapter metadata
  reject
      (not (is_loaded slots.for_scalar && is_loaded slots.for_avx2 && is_loaded slots.for_avx512))
      (fail invalid_value (text "artifact.variant")
        (text "every object variant requires a JIT, entry and symbol"))
  ok (record {
    adapter_kind = adapter;
    metadata = metadata;
    workspace = workspace;
    code = codes slots;
  })
