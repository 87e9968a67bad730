-- ===== src/Artifact/Loading.antt =====
-- `load_artifact_executable` of lib/Compiler/Artifact.cpp on bytes, and `load_object_executable` of
-- lib/Runtime/Executable.cpp. LLVM's default target triple and its JIT are parameters: the JIT
-- answers an object, a name for it and a symbol with the symbol's address, or with an error.
pub mod Loaded
pub mod Written
use deep_forge.Base.{
  ℕ, Bool, true, false, not, ◌||◌, List, [], ◌∷◌, ◌++◌, Text, text, is_empty, ◌==◌, ◌!=◌, nat_eq,
  list_eq,
}
use deep_forge.Import.Status.{Result, Status, ok, err, ◌>>=◌, ◌>>◌, reject, fail, invalid_value}
use deep_forge.Metadata.{InvocationAdapterKind, ConvMetadata}
use deep_forge.Workspace.{WorkspacePlan}
use deep_forge.Runtime.Dispatch.{PerVariant}
use deep_forge.Runtime.Execute.{Impl}
use deep_forge.Runtime.Creation.{Slot, create_object}
use deep_forge.Artifact.{VariantCode, ArtifactInfo}
use deep_forge.Artifact.Parse.{parse_artifact}

abbrev pub Jit : Type 0
Jit = List ℕ → Text → Text → Result ℕ

-- One round of the loop over the variants.
unfoldable pub load_object : Jit → List ℕ → Text → Result Slot
load_object jit object symbol = do
  reject (is_empty object || is_empty symbol) (
      fail invalid_value (text "runtime.object")
        (text "every CPU variant requires object bytes and a symbol"))
  address ← jit object (symbol ++ text ".o") (text "_mlir_ciface_" ++ symbol)
  ok (record {
    code = record { has_engine = false; entry_point = address };
    has_jit = true;
    symbol = symbol;
  })

unfoldable pub load_objects : Jit → PerVariant VariantCode → Result (PerVariant Slot)
load_objects jit v = do
  a ← load_object jit v.for_scalar.object v.for_scalar.symbol
  b ← load_object jit v.for_avx2.object v.for_avx2.symbol
  c ← load_object jit v.for_avx512.object v.for_avx512.symbol
  ok (record { for_scalar = a; for_avx2 = b; for_avx512 = c })

unfoldable pub load_object_executable :
    Jit
    → InvocationAdapterKind
    → ConvMetadata
    → WorkspacePlan
    → PerVariant VariantCode
    → Result Impl
load_object_executable jit adapter metadata workspace variants = do
  slots ← load_objects jit variants
  create_object adapter metadata workspace slots

unfoldable pub create_loaded_executable : Text → Jit → ArtifactInfo → Result Impl
create_loaded_executable host jit artifact = do
  reject (artifact.target_triple != host) (
      fail invalid_value (text "artifact.target") (
        text "artifact target "
        ++ (artifact.target_triple ++ (text " does not match host " ++ host))))
  load_object_executable jit artifact.adapter_kind artifact.metadata artifact.workspace
      artifact.variants

-- The executable with the artifact's description; both outputs are written on success only.
unfoldable pub load_artifact_executable : Text → Jit → List ℕ → Result (Impl × ArtifactInfo)
load_artifact_executable host jit input = do
  parsed ← parse_artifact input
  executable ← create_loaded_executable host jit parsed
  ok (executable, parsed)
