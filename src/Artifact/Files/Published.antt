-- ===== src/Artifact/Files/Published.antt =====
-- `write_artifact` and `read_artifact` of lib/Compiler/Artifact.cpp: what they leave in the files.
use deep_forge.Base.{
  ℕ, ◌+◌, ◌%◌, ◌^◌, ◌≡◌, ◌≢◌, refl, ◌∙◌, inl, inr, Bool, true, false, Bool-cases, Option, none,
  some, Option-cases, List, Text, is_empty,
}
use deep_forge.Import.Status.{Status, Result-cases, Error, ok, err}
use deep_forge.Artifact.{CompilationResult}
use deep_forge.Artifact.Serialize.{validate_compilation, serialize_artifact}
use deep_forge.Artifact.RoundTrip.Limits.{IsWithinLimits}
use deep_forge.Artifact.RoundTrip.Whole.{stored_info, parse_artifact-serialize_artifact}
use deep_forge.Artifact.Files.{
  contents, Disk, Store, publish, after_store, write_bytes, unique_temporary_path, write_artifact,
  read_artifact,
}
use deep_forge.Artifact.Files.Temporary.{unique_temporary_path-ne}

-- What the operations of a file system promise: each changes no file but the ones that it is given,
-- a file that is stored has the bytes, and renaming moves a file over another.
pub record IsDisk {Files : Type 0} (disk : Disk Files) (look : Files → Text → Option (List ℕ))
    : Type 0 where
  pub create_keeps :
      (t : Text) (s s' : Files)
      → disk.create t s ≡ some s'
      → (q : Text) → q ≢ t
      → look s' q ≡ look s q
  pub store_keeps :
      (t : Text) (bytes : List ℕ) (s : Files) (q : Text)
      → q ≢ t
      → look (disk.store t bytes s).1 q ≡ look s q
  pub store_writes :
      (t : Text) (bytes : List ℕ) (s : Files)
      → (disk.store t bytes s).0 ≡ true
      → look (disk.store t bytes s).1 t ≡ some bytes
  pub remove_keeps : (t : Text) (s : Files) (q : Text) → q ≢ t → look (disk.remove t s) q ≡ look s q
  pub rename_keeps :
      (t p : Text) (s s' : Files)
      → disk.rename t p s ≡ some s'
      → (q : Text) → q ≢ t
      → q ≢ p
      → look s' q ≡ look s q
  pub rename_moves :
      (t p : Text) (s s' : Files) → t ≢ p → disk.rename t p s ≡ some s' → look s' p ≡ look s t
  pub rename_empties :
      (t p : Text) (s s' : Files) → t ≢ p → disk.rename t p s ≡ some s' → look s' t ≡ none
  pub read_finds :
      (p : Text) (s : Files) (bytes : List ℕ)
      → disk.read p s ≡ contents bytes
      → look s p ≡ some bytes

module _ {Files : Type 0} (disk : Disk Files) (look : Files → Text → Option (List ℕ))
    (law : IsDisk disk look) where
  -- All files but one are as they were.
  abbrev pub Keeps : Text → Files → Files → Type 0
  Keeps t s s' = (q : Text) → q ≢ t → look s' q ≡ look s q

  -- An error leaves all files but the temporary one; success writes the bytes to the path, leaves no
  -- temporary file, and all other files.
  pub data Written (t p : Text) (bytes : List ℕ) (s : Files) : Status × Files → Type 0 where
    kept : (e : Error) (s' : Files) → Keeps t s s' → Written t p bytes s (err e, s')
    written :
        (s' : Files)
        → look s' p ≡ some bytes
        → look s' t ≡ none
        → ((q : Text) → q ≢ t → q ≢ p → look s' q ≡ look s q)
        → Written t p bytes s (ok tt, s')

  publish-Written :
      (t p : Text) (bytes : List ℕ) (s opened : Files)
      → t ≢ p
      → Keeps t s opened
      → look opened t ≡ some bytes
      → Written t p bytes s (publish disk t p opened)
  unfolding publish
  publish-Written t p bytes s opened apart keeps holds =
      elim (Option-cases (disk.rename t p opened)) [
        | inl fails ↦
            rw (fails, publish)
              (kept _ _ (λ q other. law.remove_keeps t opened q other ∙ keeps q other))
        | inr (moved, works) ↦
            rw (works, publish)
              (written moved (law.rename_moves t p opened moved apart works ∙ holds)
                (law.rename_empties t p opened moved apart works)
                (λ q other away.
                  law.rename_keeps t p opened moved works q other away ∙ keeps q other))
      ]

  after_store-Written :
      (t p : Text) (bytes : List ℕ) (s : Files) (out : Bool × Files)
      → t ≢ p
      → Keeps t s out.1
      → (out.0 ≡ true → look out.1 t ≡ some bytes)
      → Written t p bytes s (after_store disk t p out)
  unfolding after_store
  after_store-Written t p bytes s (true, files) apart keeps holds =
      publish-Written t p bytes s files apart keeps (holds refl)
  after_store-Written t p bytes s (false, files) apart keeps holds =
      kept _ _ (λ q other. law.remove_keeps t files q other ∙ keeps q other)

  write_bytes-Written :
      (t p : Text) (bytes : List ℕ) (s : Files)
      → t ≢ p
      → Written t p bytes s (write_bytes disk t p bytes s)
  unfolding write_bytes
  write_bytes-Written t p bytes s apart = elim (Option-cases (disk.create t s)) [
    | inl fails ↦ rw (fails, write_bytes) (kept _ _ (λ q other. refl))
    | inr (opened, works) ↦
        rw (works, write_bytes)
          (after_store-Written t p bytes s (disk.store t bytes opened) apart
            (λ q other.
              law.store_keeps t bytes opened q other ∙ law.create_keeps t s opened works q other)
            (law.store_writes t bytes opened))
  ]

  -- The same of `write_artifact`, which may refuse the compilation or the path before.
  pub data Saved (t p : Text) (c : CompilationResult) (s : Store Files)
      : Status × Store Files → Type 0 where
    failed : (e : Error) (s' : Store Files) → Keeps t s.files s'.files → Saved t p c s (err e, s')
    saved :
        (bytes : List ℕ) (s' : Store Files)
        → serialize_artifact c ≡ ok bytes
        → look s'.files p ≡ some bytes
        → look s'.files t ≡ none
        → ((q : Text) → q ≢ t → q ≢ p → look s'.files q ≡ look s.files q)
        → Saved t p c s (ok tt, s')

  Written-Saved :
      (t p : Text) (c : CompilationResult) (s : Store Files) (bytes : List ℕ) (n : ℕ)
      {out : Status × Files}
      → serialize_artifact c ≡ ok bytes
      → Written t p bytes s.files out
      → Saved t p c s (out.0, record { files = out.1; sequence = n })
  Written-Saved t p c s bytes n is (kept e files keeps) = failed e _ keeps
  Written-Saved t p c s bytes n is (written files holds gone others) =
      saved bytes _ is holds gone others

  -- `write_artifact` ends in one of two ways. On an error, every file but the temporary one is as it
  -- was, the one at the path included. On success the file at the path has the bytes that
  -- serialize_artifact gives, the temporary file is gone, and every other file is as it was.
  pub write_artifact-Saved :
      (pid : ℕ) (path : Text) (c : CompilationResult) (s : Store Files)
      → Saved
          (unique_temporary_path pid s.sequence path)
          path
          c
          s
          (write_artifact disk pid path c s)
  unfolding write_artifact
  write_artifact-Saved pid path c s = elim (Result-cases (serialize_artifact c)) [
    | inr (e, fails) ↦ rw (fails, write_artifact) (failed e s (λ q other. refl))
    | inl (bytes, is) ↦ elim (Bool-cases (is_empty path)) [
      | inl empty ↦ rw (is, write_artifact, empty) (failed _ s (λ q other. refl))
      | inr named ↦
          let t = unique_temporary_path pid s.sequence path in
          rw (is, write_artifact, named)
            (Written-Saved t path c s bytes ((s.sequence + 1) % 2 ^ 64) is (
              write_bytes-Written t path bytes s.files
                (unique_temporary_path-ne pid s.sequence path)))
    ]
  ]

  pub Saved-bytes :
      (t p : Text) (c : CompilationResult) (s : Store Files) {out : Status × Store Files}
      → Saved t p c s out
      → out.0 ≡ ok tt
      → (bytes : List ℕ) × (serialize_artifact c ≡ ok bytes) × (look out.1.files p ≡ some bytes)
  Saved-bytes t p c s (failed e s' keeps) h = cc
  Saved-bytes t p c s (saved bytes s' is holds gone others) h = (bytes, is, holds)

  -- A compilation that validate_compilation accepts within the limits of the format, once written
  -- without an error to a path, is what read_artifact returns for that path, unless the file cannot
  -- be opened or read.
  pub read_artifact-write_artifact :
      (pid : ℕ) (path : Text) (c : CompilationResult) (s : Store Files) (found : List ℕ)
      → validate_compilation c ≡ ok tt
      → IsWithinLimits c
      → (write_artifact disk pid path c s).0 ≡ ok tt
      → disk.read path (write_artifact disk pid path c s).1.files ≡ contents found
      → read_artifact disk path (write_artifact disk pid path c s).1.files ≡ ok (stored_info c)
  unfolding read_artifact
  read_artifact-write_artifact pid path c s found valid limits success reads =
      let (bytes, is, holds) = Saved-bytes _ path c s (write_artifact-Saved pid path c s) success in
      let (encoded, writes, parses) = parse_artifact-serialize_artifact c valid limits in
      let same : found ≡ encoded = cc (law.read_finds path _ found reads, holds, is, writes) in
      rw (reads, read_artifact, same) parses
