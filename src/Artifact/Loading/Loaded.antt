-- ===== src/Artifact/Loading/Loaded.antt =====
-- lib/Compiler/Artifact.cpp and lib/Runtime/Executable.cpp: what is loaded from an artifact can be run.
use deep_forge.Base.{
  ℕ, ◌≡◌, refl, ap, ◌∙◌, inr, List, Text, nat_eq, list_eq, eq_of_!=, int_eq, arith,
}
use deep_forge.Import.Status.{ok, >>=-eq-ok, >>-eq-ok}
use deep_forge.Metadata.{InvocationAdapterKind, ConvMetadata}
use deep_forge.Workspace.{WorkspacePlan}
use deep_forge.Runtime.Dispatch.{PerVariant}
use deep_forge.Runtime.Execute.{Impl}
use deep_forge.Runtime.Creation.{Slot, codes, create_object, validate_argument_table}
use deep_forge.Runtime.Creation.Selected.{IsRunnable, create-IsRunnable}
use deep_forge.Artifact.{ArtifactInfo}
use deep_forge.Artifact.Contract.Parts.{IsContract}
use deep_forge.Artifact.Parse.{parse_artifact}
use deep_forge.Artifact.Soundness.{parse_artifact-IsContract}
use deep_forge.Artifact.Loading.{
  Jit, load_objects, load_object_executable, create_loaded_executable, load_artifact_executable,
}

create_loaded_executable-ok :
    (host : Text) (jit : Jit) (info : ArtifactInfo) (impl : Impl)
    → create_loaded_executable host jit info ≡ ok impl
    → (info.target_triple ≡ host)
      × (load_object_executable jit info.adapter_kind info.metadata info.workspace info.variants
          ≡ ok impl)
unfolding create_loaded_executable
create_loaded_executable-ok host jit info impl h =
    (eq_of_!= info.target_triple host (ground arith), ground arith)

create_object-fields :
    (adapter : InvocationAdapterKind) (m : ConvMetadata) (w : WorkspacePlan)
    (slots : PerVariant Slot) (impl : Impl)
    → create_object adapter m w slots ≡ ok impl
    → (impl.adapter_kind ≡ adapter) × (impl.workspace ≡ w) × (impl.metadata ≡ m)
unfolding create_object
create_object-fields adapter m w slots impl h =
    let (valid, later) = >>-eq-ok (validate_argument_table adapter m) _ h in
    let same : record { adapter_kind = adapter; metadata = m; workspace = w; code = codes slots }
        ≡ impl =
      ground (arith, later) in
    rw (← same) (refl, refl, refl)

-- What the executable takes over from the artifact.
pub record IsMadeFrom (info : ArtifactInfo) (impl : Impl) : Type 0 where
  pub adapter_kind : impl.adapter_kind ≡ info.adapter_kind
  pub metadata : impl.metadata ≡ info.metadata
  pub workspace : impl.workspace ≡ info.workspace
  pub runnable : IsRunnable impl

load_object_executable-IsMadeFrom :
    (jit : Jit) (info : ArtifactInfo) (impl : Impl)
    → load_object_executable jit info.adapter_kind info.metadata info.workspace info.variants
      ≡ ok impl
    → IsMadeFrom info impl
unfolding load_object_executable
load_object_executable-IsMadeFrom jit info impl h =
    let (slots, loaded, made) = >>=-eq-ok (load_objects jit info.variants) _ h in
    let (same, workspace, metadata) =
      create_object-fields info.adapter_kind info.metadata info.workspace slots impl made in
    record {
      adapter_kind = same;
      metadata = metadata;
      workspace = workspace;
      runnable =
          create-IsRunnable info.adapter_kind info.metadata info.workspace slots impl (inr made);
    }

pub record IsLoaded (host : Text) (input : List ℕ) (impl : Impl) (info : ArtifactInfo)
    : Type 0 where
  pub parsed : parse_artifact input ≡ ok info
  pub target : info.target_triple ≡ host
  pub contract : IsContract info.adapter_kind info.metadata info.workspace info.variants
  pub made_from : IsMadeFrom info impl

-- Loading succeeds only for an artifact that parse_artifact accepts and that names the host's target;
-- the executable then has the artifact's adapter, metadata and workspace, the contract holds of them,
-- and the variant that execute selects is compiled and supported on any host.
pub load_artifact_executable-IsLoaded :
    (host : Text) (jit : Jit) (input : List ℕ) (impl : Impl) (info : ArtifactInfo)
    → load_artifact_executable host jit input ≡ ok (impl, info)
    → IsLoaded host input impl info
unfolding load_artifact_executable
load_artifact_executable-IsLoaded host jit input impl info h =
    let (read, parsed, rest) = >>=-eq-ok (parse_artifact input) _ h in
    let (executable, created, last) = >>=-eq-ok (create_loaded_executable host jit read) _ rest in
    let same : read ≡ info = ground (arith, last) in
    let is : executable ≡ impl = ground (arith, last) in
    let (target, made) =
      create_loaded_executable-ok host jit info impl (rw (← same, ← is) created) in
    let from = load_object_executable-IsMadeFrom jit info impl made in
    let accepted = parsed ∙ ap ok same in
    record {
      parsed = accepted;
      target = target;
      contract = (parse_artifact-IsContract input info accepted).0;
      made_from = from;
    }
