-- ===== src/Artifact/Files/Loaded.antt =====
-- lib/Compiler/Artifact.cpp: from a compilation through a file to an executable.
use deep_forge.Base.{ℕ, ◌≡◌, ap, ◌∙◌, Option, List, Text}
use deep_forge.Import.Status.{ok}
use deep_forge.Artifact.{CompilationResult}
use deep_forge.Artifact.Serialize.{validate_compilation}
use deep_forge.Artifact.RoundTrip.Limits.{IsWithinLimits}
use deep_forge.Artifact.RoundTrip.Whole.{stored_info}
use deep_forge.Artifact.Loading.{Jit, load_artifact_executable}
use deep_forge.Artifact.Loading.Written.{
  Links, executable_of, load_artifact_executable-serialize_artifact,
}
use deep_forge.Artifact.Files.{
  contents, Disk, Store, write_artifact, read_artifact, load_artifact_path,
}
use deep_forge.Artifact.Files.Published.{IsDisk, Saved-bytes, write_artifact-Saved}

module _ {Files : Type 0} (disk : Disk Files) (look : Files → Text → Option (List ℕ))
    (law : IsDisk disk look) where
  -- A file is loaded as its bytes are.
  load_artifact_path-eq :
      (host : Text) (jit : Jit) (path : Text) (files : Files) (bytes : List ℕ)
      → disk.read path files ≡ contents bytes
      → load_artifact_path disk host jit path files ≡ load_artifact_executable host jit bytes
  unfolding load_artifact_path load_artifact_executable read_artifact
  load_artifact_path-eq host jit path files bytes reads =
      rw (reads, load_artifact_path, read_artifact)

  -- A compilation that validate_compilation accepts within the limits of the format, once written
  -- without an error to a path that can be read, is loaded from there by a host of its target whose
  -- JIT links the three objects: into an executable with the compilation's adapter, stored metadata,
  -- workspace and the three entry points.
  pub load_artifact_path-write_artifact :
      (pid : ℕ) (path : Text) (c : CompilationResult) (s : Store Files) (jit : Jit)
      (a : Links jit c.variants.for_scalar) (b : Links jit c.variants.for_avx2)
      (d : Links jit c.variants.for_avx512) (found : List ℕ)
      → validate_compilation c ≡ ok tt
      → IsWithinLimits c
      → (write_artifact disk pid path c s).0 ≡ ok tt
      → disk.read path (write_artifact disk pid path c s).1.files ≡ contents found
      → load_artifact_path disk c.target_triple jit path (write_artifact disk pid path c s).1.files
        ≡ ok (executable_of jit c a b d, stored_info c)
  load_artifact_path-write_artifact pid path c s jit a b d found valid limits success reads =
      let files = (write_artifact disk pid path c s).1.files in
      let (bytes, is, holds) =
        Saved-bytes disk look law _ path c s (write_artifact-Saved disk look law pid path c s)
          success in
      let (encoded, writes, loads) =
        load_artifact_executable-serialize_artifact jit c a b d valid limits in
      let same : found ≡ encoded = cc (law.read_finds path files found reads, holds, is, writes) in
      load_artifact_path-eq c.target_triple jit path files found reads
      ∙ (ap (load_artifact_executable c.target_triple jit) same ∙ loads)
