-- ===== src/Artifact/Files.antt =====
-- `write_artifact` and `read_artifact` of lib/Compiler/Artifact.cpp. The file system is a parameter:
-- operations on a state of its own, each with the error that the code asks for.
pub mod Temporary
pub mod Published
pub mod Loaded
use deep_forge.Base.{
  ℕ, zero, suc, ◌+◌, ◌/◌, ◌%◌, ◌^◌, Bool, true, false, Option, none, some, List, [], ◌∷◌, ◌++◌,
  Text, text, to_string, is_empty, if◌then◌else◌, ltb,
}
use deep_forge.Import.Status.{Result, Status, ok, err, ◌>>=◌, fail, invalid_argument, io_error}
use deep_forge.Runtime.Execute.{Impl}
use deep_forge.Artifact.{CompilationResult, ArtifactInfo}
use deep_forge.Artifact.Serialize.{serialize_artifact}
use deep_forge.Artifact.Parse.{parse_artifact}
use deep_forge.Artifact.Loading.{Jit, create_loaded_executable}

-- What std::ifstream gives: no file, an error while it reads, or the bytes.
pub data Contents : Type 0 where
  not_opened : Contents
  not_read : Contents
  contents : List ℕ → Contents

-- `create` opens an empty file for writing, `store` writes and flushes it and says whether it could,
-- `remove` ignores its error, and `rename` answers the new state or an error.
pub record Disk (Files : Type 0) : Type 0 where
  pub create : Text → Files → Option Files
  pub store : Text → List ℕ → Files → Bool × Files
  pub remove : Text → Files → Files
  pub rename : Text → Text → Files → Option Files
  pub read : Text → Files → Contents

unfoldable pub unique_temporary_path : ℕ → ℕ → Text → Text
unique_temporary_path pid sequence path =
    path ++ (text ".tmp." ++ (to_string pid ++ (text "." ++ to_string sequence)))

-- The files and the counter of the process.
pub record Store (Files : Type 0) : Type 0 where
  pub files : Files
  pub sequence : ℕ

module _ {Files : Type 0} (disk : Disk Files) where
  -- The end of `write_artifact`: the temporary file becomes the artifact.
  unfoldable pub publish : Text → Text → Files → Status × Files
  publish temporary path files = elim (disk.rename temporary path files) [
    | some renamed ↦ (ok tt, renamed)
    | none ↦
        (err (fail io_error path (text "failed to publish artifact")), disk.remove temporary files)
  ]

  unfoldable pub after_store : Text → Text → Bool × Files → Status × Files
  after_store temporary path (true, files) = publish temporary path files
  after_store temporary path (false, files) =
      (err (fail io_error temporary (text "failed to write artifact")), disk.remove temporary files)

  unfoldable pub write_bytes : Text → Text → List ℕ → Files → Status × Files
  write_bytes temporary path bytes files = elim (disk.create temporary files) [
    | none ↦ (err (fail io_error temporary (text "cannot open temporary output")), files)
    | some opened ↦ after_store temporary path (disk.store temporary bytes opened)
  ]

  unfoldable pub write_artifact : ℕ → Text → CompilationResult → Store Files → Status × Store Files
  write_artifact pid path c s = elim (serialize_artifact c) [
    | err e ↦ (err e, s)
    | ok bytes ↦
        if is_empty path
        then (err (fail invalid_argument (text "artifact.path") (text "output path is empty")), s)
        else let temporary = unique_temporary_path pid s.sequence path in
          let written = write_bytes temporary path bytes s.files in
          (written.0, record { files = written.1; sequence = (s.sequence + 1) % 2 ^ 64 })
  ]

  unfoldable pub read_artifact : Text → Files → Result ArtifactInfo
  read_artifact path files = elim (disk.read path files) [
    | not_opened ↦ err (fail io_error path (text "cannot open artifact"))
    | not_read ↦ err (fail io_error path (text "failed to read artifact"))
    | contents bytes ↦ parse_artifact bytes
  ]

  -- The overload of `load_artifact_executable` that takes a path.
  unfoldable pub load_artifact_path : Text → Jit → Text → Files → Result (Impl × ArtifactInfo)
  load_artifact_path host jit path files = do
    parsed ← read_artifact path files
    executable ← create_loaded_executable host jit parsed
    ok (executable, parsed)
