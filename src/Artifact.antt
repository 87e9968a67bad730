-- ===== src/Artifact.antt =====
-- include/DeepForge/Compiler/Artifact.h and Codegen.h: what the compiler stores in an artifact, and
-- what a reader of one gets back.
pub mod Bytes
pub mod Reader
pub mod Contract
pub mod Serialize
pub mod Parse
pub mod RoundTrip
pub mod Soundness
pub mod Loading
pub mod Files
use deep_forge.Base.{ℕ, List, Text}
use deep_forge.Metadata.{InvocationAdapterKind, ConvMetadata}
use deep_forge.Workspace.{WorkspacePlan}
use deep_forge.Runtime.Dispatch.{CpuVariant, PerVariant}

-- The texts that the artifact does not store (schedule, MLIR and LLVM IR) are left out.
pub record VariantCode : Type 0 where
  pub variant : CpuVariant
  pub symbol : Text
  pub required_features : Text
  pub object : List ℕ

-- The executable and the printed MLIR, which the artifact does not store, are left out.
pub record CompilationResult : Type 0 where
  pub adapter_kind : InvocationAdapterKind
  pub metadata : ConvMetadata
  pub workspace : WorkspacePlan
  pub target_triple : Text
  pub variants : PerVariant VariantCode

-- A tolerance is the bit pattern of its double.
pub record ArtifactInfo : Type 0 where
  pub format_version : ℕ
  pub adapter_kind : InvocationAdapterKind
  pub deepforge_version : Text
  pub llvm_version : Text
  pub frontend_version : Text
  pub target_triple : Text
  pub metadata : ConvMetadata
  pub workspace : WorkspacePlan
  pub absolute_tolerance : ℕ
  pub relative_tolerance : ℕ
  pub variants : PerVariant VariantCode

abbrev pub legacy_version : ℕ
legacy_version = 1

abbrev pub static_metadata_version : ℕ
static_metadata_version = 2

abbrev pub shape_override_version : ℕ
shape_override_version = 3

abbrev pub ragged_version : ℕ
ragged_version = 4

abbrev pub ragged_sequence_version : ℕ
ragged_sequence_version = 5

abbrev pub matmul_override_version : ℕ
matmul_override_version = 6

abbrev pub sdpa_override_version : ℕ
sdpa_override_version = 7

abbrev pub reshape_override_version : ℕ
reshape_override_version = 8

abbrev pub reduction_override_version : ℕ
reduction_override_version = 9

abbrev pub transpose_override_version : ℕ
transpose_override_version = 10

abbrev pub concatenate_override_version : ℕ
concatenate_override_version = 11

abbrev pub format_version : ℕ
format_version = 12

-- the bits of 1.0e-4 and of 1.0e-3
abbrev pub default_absolute_tolerance : ℕ
default_absolute_tolerance = 0x3f1a36e2eb1c432d

abbrev pub default_relative_tolerance : ℕ
default_relative_tolerance = 0x3f50624dd2f1a9fc
