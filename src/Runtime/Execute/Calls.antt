-- ===== src/Runtime/Execute/Calls.antt =====
-- lib/Runtime/Executable.cpp: the descriptors that the compiled code receives, the whole of
-- `execute_variant` and `execute`, and `get_workspace_size`.
use deep_forge.Base.{
  ℕ, zero, suc, not, Option, none, some, List, [], ◌∷◌, ◌++◌, map, Text, text, if◌then◌else◌, ltb,
  ◌==◌, ◌!=◌, nat_eq, ℤ, pos, negsuc, negative, ◌*ℤ◌, to_u64, i64_max,
}
use deep_forge.Import.Status.{
  Result, Status, ok, err, ◌>>=◌, ◌>>◌, reject, fail, invalid_argument, dimension_overflow,
  unsupported_cpu_feature, graph_execution_failed,
}
use deep_forge.Metadata.{Array4, list4, generic_ranked_memref_pointer_table, adapter_kind_eq}
use deep_forge.Runtime.Dispatch.{CpuVariant, CpuFeatures, at_variant}
use deep_forge.Runtime.Overrides.Arguments.{ResolvedArgument}
use deep_forge.Runtime.Overrides.Resolution.{resolve_overrides}
use deep_forge.Runtime.Ragged.{Memory}
use deep_forge.Runtime.Execute.{
  Impl, VariantPack, is_compiled, selected_variant, supports_variant, cpu_variant_name,
  argument_pointers, intervals_of, check_aliases, check_workspace,
}

-- StridedMemRefType; basePtr and data are one pointer here and the offset is 0.
pub record StridedMemRef : Type 0 where
  pub data_pointer : ℕ
  pub sizes : List ℤ
  pub strides : List ℤ

-- The strides by the loop from the last axis: the running product, and the strides so far.
pub record Running : Type 0 where
  pub stride : ℤ
  pub strides : List ℤ

unfoldable pub row_major : List ℤ → Running
row_major [] = record { stride = pos 1; strides = [] }
row_major (d ∷ ds) =
    let r = row_major ds in record { stride = r.stride *ℤ d; strides = r.stride ∷ r.strides }

unfoldable pub make_descriptor : ℕ → Array4 → StridedMemRef
unfolding row_major
make_descriptor pointer shape = record {
  data_pointer = pointer;
  sizes = list4 shape;
  strides = (row_major (list4 shape)).strides;
}

abbrev pub make_workspace_descriptor : ℕ → ℕ → StridedMemRef
make_workspace_descriptor pointer size = record {
  data_pointer = pointer;
  sizes = pos size ∷ [];
  strides = pos 1 ∷ [];
}

-- The words of a DynamicRankedMemRefDescriptor.
unfoldable pub descriptor_words : ℕ → List ℤ → List ℤ → List ℕ
descriptor_words pointer dimensions strides =
    pointer ∷ pointer ∷ 0 ∷ (map to_u64 dimensions ++ map to_u64 strides)

unfoldable pub descriptor_table : List ℕ → List ResolvedArgument → List (List ℕ)
unfolding descriptor_words
descriptor_table (p ∷ ps) (r ∷ rs) =
    descriptor_words p r.dimensions r.strides ∷ descriptor_table ps rs
descriptor_table _ _ = []

-- The call of compiled code: an entry point that takes a table of descriptors, one that takes the
-- descriptors of the convolution, or the same through the JIT engine.
pub data Call : Type 0 where
  call_table : ℕ → List (List ℕ) → Call
  call_entry : ℕ → List StridedMemRef → Call
  call_engine : CpuVariant → List StridedMemRef → Call

abbrev pub nth_pointer : List ℕ → ℕ → ℕ
nth_pointer [] i = 0
nth_pointer (p ∷ ps) zero = p
nth_pointer (p ∷ ps) (suc i) = nth_pointer ps i

-- The descriptors of the convolution; the workspace comes last, if there is one.
unfoldable pub conv_descriptors : Impl → List ℕ → ℕ → List StridedMemRef
conv_descriptors impl pointers workspace =
    let size = impl.workspace.size_bytes in
    make_descriptor (nth_pointer pointers 0) impl.metadata.x_shape
    ∷ make_descriptor (nth_pointer pointers 1) impl.metadata.w_shape
    ∷ make_descriptor (nth_pointer pointers 2) impl.metadata.y_shape
    ∷ (if size == 0 then [] else make_workspace_descriptor workspace size ∷ [])

unfoldable pub call_of : Impl → CpuVariant → List ResolvedArgument → List ℕ → ℕ → Result Call
unfolding descriptor_words
call_of impl variant resolved pointers workspace =
    let code = at_variant impl.code variant in
    if impl.adapter_kind == generic_ranked_memref_pointer_table
    then (reject (code.entry_point == 0) (
          fail graph_execution_failed (text "runtime.execute")
            (text "generic adapter requires an object entry point"))
        >> ok (
            call_table code.entry_point (
              descriptor_table pointers resolved
              ++ descriptor_words workspace (pos impl.workspace.size_bytes ∷ []) (pos 1 ∷ [])
                ∷ [])))
    else if code.entry_point != 0
    then ok (call_entry code.entry_point (conv_descriptors impl pointers workspace))
    else ok (call_engine variant (conv_descriptors impl pointers workspace))

-- What a call passes: the pointers and the overrides.
pub record Arguments : Type 0 where
  pub pack : VariantPack
  pub workspace : ℕ
  pub override_uids : List ℤ
  pub override_shapes : List (List ℤ)
  pub override_strides : List (List ℤ)

-- Everything from the lookup of the pointers to the call.
unfoldable pub prepare_call :
    Memory → Impl → CpuVariant → Arguments → List ResolvedArgument → Result Call
prepare_call memory impl variant arguments resolved = do
  let table = impl.metadata.graph.arguments
  pointers ← argument_pointers arguments.pack table
  intervals ← intervals_of memory arguments.pack table table resolved pointers
  check_aliases intervals
  check_workspace impl.workspace arguments.workspace intervals
  call_of impl variant resolved pointers arguments.workspace

unfoldable pub check_variant : CpuFeatures → Impl → CpuVariant → Status
check_variant features impl variant = do
  reject (not (is_compiled (at_variant impl.code variant))) (
      fail invalid_argument (text "variant")
        (text "compiled variant is unavailable: " ++ cpu_variant_name variant))
  reject (not (supports_variant features (some impl) variant)) (
      fail unsupported_cpu_feature (text "variant")
        (text "host CPU does not support: " ++ cpu_variant_name variant))
  ok tt

-- `execute_variant` up to the call of the compiled code.
unfoldable pub prepare_variant :
    CpuFeatures → Memory → Option Impl → CpuVariant → Arguments → Result Call
prepare_variant features memory none variant arguments =
    err (fail invalid_argument (text "executable") (text "executable is empty"))
prepare_variant features memory (some impl) variant arguments = do
  check_variant features impl variant
  resolved ←
      resolve_overrides impl.metadata.graph arguments.override_uids arguments.override_shapes
        arguments.override_strides
  prepare_call memory impl variant arguments resolved

-- The call itself; only the JIT engine reports an error, by a text.
unfoldable pub perform : (CpuVariant → List StridedMemRef → Option Text) → Call → Status
perform invoke (call_table entry table) = ok tt
perform invoke (call_entry entry descriptors) = ok tt
perform invoke (call_engine variant descriptors) = elim (invoke variant descriptors) [
  | none ↦ ok tt
  | some message ↦ err (fail graph_execution_failed (text "runtime.execute") message)
]

unfoldable pub execute_variant :
    (CpuVariant → List StridedMemRef → Option Text)
    → CpuFeatures
    → Memory
    → Option Impl
    → CpuVariant
    → Arguments
    → Status
execute_variant invoke features memory impl variant arguments =
    prepare_variant features memory impl variant arguments >>= λ call. perform invoke call

unfoldable pub execute :
    (CpuVariant → List StridedMemRef → Option Text)
    → CpuFeatures
    → Memory
    → Option Impl
    → Arguments
    → Status
execute invoke features memory impl arguments =
    execute_variant invoke features memory impl (selected_variant features impl) arguments

-- The size alone, -1 when there is none.
unfoldable pub workspace_size_or_negative : Option Impl → ℤ
workspace_size_or_negative none = negsuc 0
workspace_size_or_negative (some impl) =
    let size = impl.workspace.size_bytes in if ltb i64_max size then negsuc 0 else pos size

unfoldable pub workspace_size : Option Impl → Result ℤ
workspace_size none = err (fail invalid_argument (text "executable") (text "executable is empty"))
workspace_size (some impl) = do
  let size = workspace_size_or_negative (some impl)
  reject (negative size)
      (fail dimension_overflow (text "workspace") (text "workspace size does not fit int64"))
  ok size

-- With overrides, which are checked and do not change the size.
unfoldable pub workspace_size_with : Option Impl → List ℤ → List (List ℤ) → List (List ℤ) → Result ℤ
workspace_size_with none uids shapes strides =
    err (fail invalid_argument (text "executable") (text "executable is empty"))
workspace_size_with (some impl) uids shapes strides =
    resolve_overrides impl.metadata.graph uids shapes strides >>= λ resolved.
    workspace_size (some impl)
