-- ===== src/Examples/Linked.antt =====
-- The artifact of the matrix product, written and loaded with a JIT that answers each object with its
-- first byte.
use deep_forge.Base.{ℕ, ◌≡◌, refl, sym, ◌∙◌, List, [], ◌∷◌, arith}
use deep_forge.Import.Status.{ok, err, fail, invalid_value}
use deep_forge.Runtime.Execute.{Impl}
use deep_forge.Artifact.{ArtifactInfo}
use deep_forge.Artifact.Serialize.{serialize_artifact}
use deep_forge.Artifact.RoundTrip.Whole.{stored_info}
use deep_forge.Artifact.Loading.{Jit, load_artifact_executable}
use deep_forge.Artifact.Loading.Loaded.{IsLoaded, load_artifact_executable-IsLoaded}
use deep_forge.Artifact.Loading.Written.{
  Links, executable_of, load_artifact_executable-serialize_artifact,
}
use deep_forge.Examples.Archived.{compilation, compilation_valid, compilation_small}
use deep_forge.Examples.Stored.{artifact, written, same_bytes}

pub first_byte : Jit
first_byte [] name symbol = err (fail invalid_value name symbol)
first_byte (byte ∷ rest) name symbol = ok byte

pub scalar_linked : Links first_byte compilation.variants.for_scalar
unfolding first_byte
scalar_linked = record { address = 1; found = refl; entry = omega arith }

pub avx2_linked : Links first_byte compilation.variants.for_avx2
unfolding first_byte
avx2_linked = record { address = 2; found = refl; entry = omega arith }

pub avx512_linked : Links first_byte compilation.variants.for_avx512
unfolding first_byte
avx512_linked = record { address = 3; found = refl; entry = omega arith }

loads :
    (bytes : List ℕ) × (serialize_artifact compilation ≡ ok bytes)
    × (load_artifact_executable compilation.target_triple first_byte bytes
        ≡ ok (
          executable_of first_byte compilation scalar_linked avx2_linked avx512_linked,
          stored_info compilation,
        ))
loads =
    load_artifact_executable-serialize_artifact first_byte compilation scalar_linked avx2_linked
      avx512_linked compilation_valid compilation_small

load_artifact_executable-serialize_artifact_example :
    (bytes : List ℕ) × (serialize_artifact compilation ≡ ok bytes)
    × (load_artifact_executable compilation.target_triple first_byte bytes
        ≡ ok (
          executable_of first_byte compilation scalar_linked avx2_linked avx512_linked,
          stored_info compilation,
        ))
load_artifact_executable-serialize_artifact_example =
    load_artifact_executable-serialize_artifact first_byte compilation scalar_linked avx2_linked
      avx512_linked compilation_valid compilation_small

abbrev loaded : Impl × ArtifactInfo
loaded = (
  executable_of first_byte compilation scalar_linked avx2_linked avx512_linked,
  stored_info compilation,
)

load_back :
    (bytes : List ℕ) × (serialize_artifact compilation ≡ ok bytes)
      × (load_artifact_executable compilation.target_triple first_byte bytes ≡ ok loaded)
    → load_artifact_executable compilation.target_triple first_byte artifact ≡ ok loaded
load_back (bytes, wrote, works) = rw (← same_bytes bytes artifact (sym wrote ∙ written)) works

load_artifact_executable-IsLoaded_example :
    IsLoaded compilation.target_triple artifact loaded.0 loaded.1
load_artifact_executable-IsLoaded_example =
    load_artifact_executable-IsLoaded compilation.target_triple first_byte artifact loaded.0
      loaded.1 (load_back loads)
