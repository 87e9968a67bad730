-- ===== src/Runtime/Execute.antt =====
-- lib/Runtime/Executable.cpp, `Executable::execute_variant`: the checks on the pointers that a call
-- passes, and the call of the compiled code that follows. Pointers are addresses, 0 the null pointer;
-- the compiled code and the JIT engine are behind the call that a model function returns.
pub mod Calls
pub mod Intervals
pub mod Aliases
pub mod Safety
pub mod Acceptance
use deep_forge.Base.{
  ℕ, zero, suc, ◌+◌, ◌%◌, Bool, true, false, not, ◌&&◌, ◌||◌, Option, none, some, List, [], ◌∷◌,
  ◌++◌, length, map, any, Text, text, if◌then◌else◌, ltb, ◌==◌, ◌!=◌, nat_eq, ℤ, pos, ◌*ℤ◌, to_u64,
  is_empty, i64_max, checked_add, is_power_of_two,
}
use deep_forge.Import.Status.{
  Result, Status, Error, ok, err, ◌>>=◌, ◌>>◌, reject, fail, or_fail, invalid_argument,
  invalid_value, invalid_variant_pack, dimension_overflow, unsupported_cpu_feature,
  graph_execution_failed,
}
use deep_forge.Metadata.{
  TensorArgument, GraphMetadata, ConvMetadata, InvocationAdapterKind, TensorAccess, read,
  read_write, access_eq, Array4, list4, storage_policy_eq, ragged_batch_prefix, TensorStoragePolicy,
  generic_ranked_memref_pointer_table, adapter_kind_eq,
}
use deep_forge.Workspace.{WorkspacePlan}
use deep_forge.Runtime.Dispatch.{
  CpuVariant, scalar, avx2, avx512, CpuFeatures, PerVariant, at_variant, cpu_supports_variant,
  select_cpu_variant,
}
use deep_forge.Runtime.Overrides.Arguments.{ResolvedArgument}
use deep_forge.Runtime.Overrides.Resolution.{resolve_overrides}
use deep_forge.Runtime.Ragged.{Memory, resolve_ragged_size}

-- What was loaded for a variant: a JIT engine, or the address of an object's entry point.
pub record Code : Type 0 where
  pub has_engine : Bool
  pub entry_point : ℕ

-- Executable::Impl
pub record Impl : Type 0 where
  pub adapter_kind : InvocationAdapterKind
  pub metadata : ConvMetadata
  pub workspace : WorkspacePlan
  pub code : PerVariant Code

-- std::unordered_map from UIDs to host pointers
abbrev pub VariantPack : Type 0
VariantPack = ℤ → Option ℕ

pub record Interval : Type 0 where
  pub begin : ℕ
  pub end : ℕ
  pub name : Text
  pub access : TensorAccess

unfoldable pub overlaps : Interval → Interval → Bool
overlaps lhs rhs = ltb lhs.begin rhs.end && ltb rhs.begin lhs.end

unfoldable pub writes : TensorAccess → Bool
writes access = access != read

-- The compiled variants, which have an engine or an entry point.
abbrev pub is_compiled : Code → Bool
is_compiled c = c.has_engine || c.entry_point != 0

unfoldable pub selected_variant : CpuFeatures → Option Impl → CpuVariant
selected_variant features none = scalar
selected_variant features (some impl) = select_cpu_variant features (record {
  for_scalar = is_compiled (at_variant impl.code scalar);
  for_avx2 = is_compiled (at_variant impl.code avx2);
  for_avx512 = is_compiled (at_variant impl.code avx512);
})

unfoldable pub supports_variant : CpuFeatures → Option Impl → CpuVariant → Bool
supports_variant features none variant = false
supports_variant features (some impl) variant =
    is_compiled (at_variant impl.code variant) && cpu_supports_variant features variant

unfoldable pub cpu_variant_name : CpuVariant → Text
unfolding text
cpu_variant_name scalar = text "scalar"
cpu_variant_name avx2 = text "avx2"
cpu_variant_name avx512 = text "avx512"

unfoldable pub nonnull_pointer : VariantPack → TensorArgument → Result ℕ
nonnull_pointer pack a = do
  pointer ←
      or_fail (pack a.uid)
        (fail invalid_variant_pack a.name (text "UID is absent from variant pack"))
  reject (pointer == 0) (fail invalid_variant_pack a.name (text "variant-pack pointer is null"))
  reject (pointer % a.alignment != 0)
      (fail invalid_variant_pack a.name (text "tensor pointer does not meet required alignment"))
  ok pointer

-- The loop that collects `argument_pointers`.
unfoldable pub argument_pointers : VariantPack → List TensorArgument → Result (List ℕ)
argument_pointers pack [] = ok []
argument_pointers pack (a ∷ rest) =
    let later = argument_pointers pack rest in
    do pointer ← nonnull_pointer pack a; pointers ← later; ok (pointer ∷ pointers)

-- `pointers.at(uid)` for an argument, whose pointer has been found before.
abbrev pub address : VariantPack → ℤ → ℕ
address pack uid = elim (pack uid) [ none ↦ 0 | some pointer ↦ pointer ]

-- The bytes that a call uses of an argument. The code also writes a ragged size back to the resolved
-- argument, where nothing reads it.
unfoldable pub runtime_size :
    Memory → VariantPack → List TensorArgument → TensorArgument → ResolvedArgument → Result ℕ
runtime_size memory pack arguments a r =
    if a.storage_policy == ragged_batch_prefix
    then resolve_ragged_size memory arguments (address pack) a
    else ok r.size_bytes

-- The size fits in size_t on a 64-bit host, so the source's test of that does nothing.
unfoldable pub interval_of :
    Memory
    → VariantPack
    → List TensorArgument
    → TensorArgument
    → ResolvedArgument
    → ℕ
    → Result Interval
interval_of memory pack arguments a r begin = do
  size ← runtime_size memory pack arguments a r
  end ←
      or_fail (checked_add begin size)
        (fail dimension_overflow a.name (text "tensor pointer range overflows uintptr_t"))
  ok (record { begin = begin; end = end; name = a.name; access = a.access })

-- The loop that collects `intervals`; the three lists are of one length.
unfoldable pub intervals_of :
    Memory
    → VariantPack
    → List TensorArgument
    → List TensorArgument
    → List ResolvedArgument
    → List ℕ
    → Result (List Interval)
intervals_of memory pack arguments (a ∷ as') (r ∷ rs) (p ∷ ps) =
    let later = intervals_of memory pack arguments as' rs ps in
    do
      interval ← interval_of memory pack arguments a r p
      intervals ← later
      ok (interval ∷ intervals)
intervals_of memory pack arguments _ _ _ = ok []

unfoldable pub check_alias : Interval → List Interval → Status
check_alias lhs [] = ok tt
check_alias lhs (rhs ∷ rest) =
    let later = check_alias lhs rest in
    reject (overlaps lhs rhs && (writes lhs.access || writes rhs.access)) (
      fail invalid_variant_pack (text "runtime.alias")
        (lhs.name ++ (text " overlaps " ++ rhs.name)))
    >> later

unfoldable pub check_aliases : List Interval → Status
check_aliases [] = ok tt
check_aliases (lhs ∷ rest) = let later = check_aliases rest in check_alias lhs rest >> later

unfoldable pub check_workspace_alias : Interval → List Interval → Status
check_workspace_alias workspace [] = ok tt
check_workspace_alias workspace (interval ∷ rest) =
    let later = check_workspace_alias workspace rest in
    reject (overlaps interval workspace) (
      fail invalid_variant_pack (text "runtime.alias")
        (interval.name ++ text " overlaps workspace"))
    >> later

abbrev pub workspace_interval : ℕ → ℕ → Interval
workspace_interval pointer end = record {
  begin = pointer;
  end = end;
  name = text "workspace";
  access = read_write;
}

unfoldable pub check_workspace : WorkspacePlan → ℕ → List Interval → Status
check_workspace plan pointer intervals =
    let size = plan.size_bytes in
    if size == 0 then ok tt else do
      reject (not (is_power_of_two plan.alignment))
          (fail invalid_value (text "workspace") (text "compiled workspace alignment is invalid"))
      reject (pointer == 0)
          (fail invalid_variant_pack (text "workspace") (text "workspace pointer is null"))
      reject (pointer % plan.alignment != 0) (
          fail invalid_variant_pack (text "workspace")
            (text "workspace pointer does not meet required alignment"))
      end ← or_fail (checked_add pointer size) (
          fail dimension_overflow (text "workspace")
            (text "workspace pointer range overflows uintptr_t"))
      check_workspace_alias (workspace_interval pointer end) intervals
