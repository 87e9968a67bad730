-- ===== src/Examples/Running.antt =====
-- A call of an executable of two arguments, the second overridden to a smaller shape, and a ragged
-- argument.
use deep_forge.Base.{
  ℕ, ◌+◌, ◌*◌, ◌≤◌, ◌≡◌, refl, Bool, true, false, none, some, List, [], ◌∷◌, ℤ, pos, find, All₂,
  checked_add, sort_by, insert_by, arith, contains, ◌==◌, int_eq, if◌then◌else◌, to_u64,
  is_power_of_two, any, list_beq,
}
use deep_forge.Import.Status.{ok}
use deep_forge.Import.DataTypes.{float32, data_type_beq}
use deep_forge.Import.Capability.{
  tensor_storage_bytes, maximum_element_offset, data_type_storage_bits,
}
use deep_forge.Import.Capability.Indexing.{offset, IsIndex}
use deep_forge.Metadata.{
  TensorArgument, GraphMetadata, TensorAccess, read, write, strided,
  generic_ranked_memref_pointer_table, pointwise_exact, adapter_kind_beq, storage_policy_beq,
  access_beq,
}
use deep_forge.Runtime.Dispatch.{
  CpuVariant, avx2, CpuFeatures, cpu_supports_variant, select_cpu_variant, PerVariant,
}
use deep_forge.Runtime.Dispatch.Choice.{IsUsable, rank, select_cpu_variant-best}
use deep_forge.Runtime.Layout.{has_non_overlapping_layout, collect_axes, spans_apart}
use deep_forge.Runtime.Overrides.Arguments.{
  ResolvedArgument, apply_overrides, apply_override, check_override, find_position, within_maxima,
}
use deep_forge.Runtime.Overrides.Resolution.{resolve_overrides, check_policy, zip_overrides}
use deep_forge.Runtime.Overrides.Roles.{check_pointwise_shapes}
use deep_forge.Runtime.Overrides.Bounds.{
  Resolves, Overrides, resolve_overrides-Resolves, Overrides-addresses,
}
use deep_forge.Runtime.Execute.{
  Impl, Code, VariantPack, check_workspace_alias, argument_pointers, nonnull_pointer, intervals_of,
  interval_of, runtime_size, check_aliases, check_alias, overlaps, writes, check_workspace,
  supports_variant,
}
use deep_forge.Runtime.Execute.Calls.{
  Call, Arguments, call_table, prepare_variant, prepare_call, check_variant, call_of,
  descriptor_table, descriptor_words,
}
use deep_forge.Runtime.Execute.Intervals.{IsHostPack}
use deep_forge.Runtime.Execute.Safety.{IsSafe, prepare_variant-IsSafe}
use deep_forge.Runtime.Ragged.{Memory}
use deep_forge.Examples.Scheduling.{metadata}

abbrev pub argument : ℕ → TensorAccess → TensorArgument
argument uid access = record {
  uid = pos uid;
  name = uid ∷ [];
  data_type = float32;
  dimensions = pos 4 ∷ pos 2 ∷ [];
  strides = pos 2 ∷ pos 1 ∷ [];
  size_bytes = 32;
  alignment = 4;
  access = access;
  storage_policy = strided;
  ragged_offset_uid = pos 0;
  ragged_sequence_uid = pos 0;
  ragged_sequence_divisor = pos 1;
}

abbrev pub graph : GraphMetadata
graph = record {
  function_name = 103 ∷ [];
  arguments = argument 1 read ∷ argument 2 write ∷ [];
  dynamic_shape_enabled = false;
  override_shape_enabled = true;
  override_policy = pointwise_exact;
  override_role_uids = [];
  override_axis_map = [];
}

abbrev pub shape : List ℤ
shape = pos 3 ∷ pos 2 ∷ []

abbrev pub rows : List ℤ
rows = pos 2 ∷ pos 1 ∷ []

abbrev pub smaller : ResolvedArgument
smaller = record { dimensions = shape; strides = rows; size_bytes = 24 }

pub both_resolved :
    resolve_overrides graph (pos 1 ∷ pos 2 ∷ []) (shape ∷ shape ∷ []) (rows ∷ rows ∷ [])
    ≡ ok (smaller ∷ smaller ∷ [])
unfolding resolve_overrides check_policy zip_overrides check_pointwise_shapes apply_overrides
    apply_override check_override find_position within_maxima has_non_overlapping_layout
    collect_axes spans_apart sort_by insert_by tensor_storage_bytes maximum_element_offset
    data_type_storage_bits find data_type_beq contains any list_beq
both_resolved = refl

resolve_overrides-Resolves_example : All₂ Resolves graph.arguments (smaller ∷ smaller ∷ [])
resolve_overrides-Resolves_example =
    resolve_overrides-Resolves graph (pos 1 ∷ pos 2 ∷ []) (shape ∷ shape ∷ []) (rows ∷ rows ∷ [])
      both_resolved

smaller-Overrides : Overrides (argument 1 read) smaller
unfolding within_maxima has_non_overlapping_layout collect_axes spans_apart sort_by insert_by
    tensor_storage_bytes maximum_element_offset data_type_storage_bits find data_type_beq
smaller-Overrides = record {
  ranks = (refl, refl);
  extents = ((omega arith, omega arith), ((omega arith, omega arith), tt));
  layout = refl;
  size = refl;
  fits = omega arith;
}

abbrev pub corner : List ℕ
corner = 2 ∷ 1 ∷ []

corner-IsIndex : IsIndex shape corner
corner-IsIndex = (omega arith, (omega arith, tt))

Overrides-addresses_example :
    ((offset rows corner + 1) * data_type_storage_bits float32 ≤ 8 * 32)
    × (offset rows corner ≡ offset rows corner → corner ≡ corner)
Overrides-addresses_example =
    Overrides-addresses (argument 1 read) smaller corner corner smaller-Overrides corner-IsIndex
      corner-IsIndex

-- A host with AVX2 and an executable whose variants are all compiled.
abbrev pub features : CpuFeatures
features = record {
  has_avx = true;
  has_fma = true;
  has_avx2 = true;
  has_avx512f = false;
  os_ymm_state = true;
  os_zmm_state = false;
}

abbrev pub all_compiled : PerVariant Bool
all_compiled = record { for_scalar = true; for_avx2 = true; for_avx512 = true }

avx2_selected : select_cpu_variant features all_compiled ≡ avx2
unfolding select_cpu_variant cpu_supports_variant
avx2_selected = refl

select_cpu_variant-best_example :
    IsUsable features all_compiled (select_cpu_variant features all_compiled)
    × ((v : CpuVariant)
        → IsUsable features all_compiled v
        → rank v ≤ rank (select_cpu_variant features all_compiled))
select_cpu_variant-best_example = select_cpu_variant-best features all_compiled refl

abbrev pub code_at : ℕ → Code
code_at entry = record { has_engine = false; entry_point = entry }

abbrev pub executable : Impl
executable = record {
  adapter_kind = generic_ranked_memref_pointer_table;
  metadata = record {
    graph = graph;
    x_uid = pos 1;
    w_uid = pos 0;
    y_uid = pos 2;
    x_shape = metadata.x_shape;
    w_shape = metadata.w_shape;
    y_shape = metadata.y_shape;
    padded_x_shape = metadata.padded_x_shape;
    pre_padding = metadata.pre_padding;
    post_padding = metadata.post_padding;
    stride = metadata.stride;
    dilation = metadata.dilation;
  };
  workspace = record { size_bytes = 64; alignment = 64; allocations = [] };
  code = record { for_scalar = code_at 7; for_avx2 = code_at 8; for_avx512 = code_at 9 };
}

abbrev pub pack : VariantPack
pack uid = if uid == pos 1 then some 4096 else if uid == pos 2 then some 4128 else none

pack_IsHostPack : IsHostPack pack
pack_IsHostPack uid p h = ground arith

abbrev pub arguments : Arguments
arguments = record {
  pack = pack;
  workspace = 8192;
  override_uids = pos 1 ∷ pos 2 ∷ [];
  override_shapes = shape ∷ shape ∷ [];
  override_strides = rows ∷ rows ∷ [];
}

abbrev pub memory : Memory
memory address = 0

abbrev pub call : Call
call = call_table 8 (
    (4096 ∷ 4096 ∷ 0 ∷ 3 ∷ 2 ∷ 2 ∷ 1 ∷ [])
    ∷ (4128 ∷ 4128 ∷ 0 ∷ 3 ∷ 2 ∷ 2 ∷ 1 ∷ [])
    ∷ (8192 ∷ 8192 ∷ 0 ∷ 64 ∷ 1 ∷ [])
    ∷ [])

prepared : prepare_variant features memory (some executable) avx2 arguments ≡ ok call
unfolding prepare_variant check_variant supports_variant cpu_supports_variant prepare_call
    argument_pointers nonnull_pointer intervals_of interval_of runtime_size checked_add
    check_aliases check_alias overlaps writes check_workspace check_workspace_alias is_power_of_two
    call_of descriptor_table descriptor_words to_u64 storage_policy_beq adapter_kind_beq access_beq
prepared = rw (both_resolved, prepare_variant) refl

prepare_variant-IsSafe_example :
    (impl : Impl) × (some executable ≡ some impl) × IsSafe features impl avx2 arguments call
prepare_variant-IsSafe_example =
    prepare_variant-IsSafe features memory (some executable) avx2 arguments call pack_IsHostPack
      prepared
