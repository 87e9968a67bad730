-- ===== src/Examples/Published.antt =====
-- The artifact of the matrix product on a file system that keeps its files in memory.
use deep_forge.Base.{
  decimal, ℕ, ◌≡◌, ◌≢◌, refl, sym, ◌∙◌, inl, inr, true, Bool-cases, Option, none, some, List, [],
  ◌∷◌, Text, text, if◌then◌else◌, ◌==◌, nat_eq, list_eq, ==-refl, eq_of_==, arith, list_beq,
}
use deep_forge.Import.Status.{ok, Status}
use deep_forge.Artifact.Files.{
  Contents, not_opened, contents, Disk, Store, publish, after_store, write_bytes,
  unique_temporary_path, write_artifact, read_artifact, load_artifact_path,
}
use deep_forge.Artifact.Files.Temporary.{unique_temporary_path-separates}
use deep_forge.Artifact.Files.Published.{
  IsDisk, Saved, write_artifact-Saved, read_artifact-write_artifact,
}
use deep_forge.Artifact.Files.Loaded.{load_artifact_path-write_artifact}
use deep_forge.Artifact.Loading.Written.{executable_of}
use deep_forge.Artifact.RoundTrip.Whole.{stored_info}
use deep_forge.Examples.Archived.{compilation, compilation_valid, compilation_small}
use deep_forge.Examples.Linked.{first_byte, scalar_linked, avx2_linked, avx512_linked}
use deep_forge.Examples.Stored.{artifact, written}

abbrev Memory : Type 0
Memory = Text → Option (List ℕ)

set : Text → Option (List ℕ) → Memory → Memory
set t v s q = if q == t then v else s q

set_here : (t : Text) (v : Option (List ℕ)) (s : Memory) → set t v s t ≡ v
unfolding set
set_here t v s = rw (==-refl t) refl

set_other : (t : Text) (v : Option (List ℕ)) (s : Memory) (q : Text) → q ≢ t → set t v s q ≡ s q
unfolding set
set_other t v s q differ = elim (Bool-cases (q == t)) [
  | inl same ↦ absurd (differ (eq_of_== q t same))
  | inr other ↦ rw other refl
]

moved : Text → Text → Memory → Option (List ℕ) → Option Memory
moved t p s none = none
moved t p s (some bytes) = some (set t none (set p (some bytes) s))

contents_of : Option (List ℕ) → Contents
contents_of none = not_opened
contents_of (some bytes) = contents bytes

abbrev memory : Disk Memory
memory = record {
  create = λ t s. some (set t (some []) s);
  store = λ t bytes s. (true, set t (some bytes) s);
  remove = λ t s. set t none s;
  rename = λ t p s. moved t p s (s t);
  read = λ p s. contents_of (s p);
}

abbrev look : Memory → Text → Option (List ℕ)
look s q = s q

some_inj : {A : Type 0} → (a b : A) → some a ≡ some b → a ≡ b
some_inj a b h = cc

contents_inj :
    (o : Option (List ℕ)) (bytes : List ℕ) → contents_of o ≡ contents bytes → o ≡ some bytes
unfolding contents_of
contents_inj none bytes h = cc
contents_inj (some b) bytes h = cc

-- What a move does: it needs a file, and takes it to the path.
moved_is :
    (t p : Text) (s s' : Memory) (o : Option (List ℕ))
    → moved t p s o ≡ some s'
    → (bytes : List ℕ) × (o ≡ some bytes) × (set t none (set p (some bytes) s) ≡ s')
unfolding moved
moved_is t p s s' none h = cc
moved_is t p s s' (some bytes) h = (bytes, refl, some_inj _ _ h)

memory_law : IsDisk memory look
memory_law = record {
  create_keeps = λ t s s' h q differ. rw (← some_inj _ _ h) (set_other t (some []) s q differ);
  store_keeps = λ t bytes s q differ. set_other t (some bytes) s q differ;
  store_writes = λ t bytes s h. set_here t (some bytes) s;
  remove_keeps = λ t s q differ. set_other t none s q differ;
  rename_keeps = λ t p s s' h q differ away.
      let (bytes, is, same) = moved_is t p s s' (s t) h in
      rw (← same)
        (set_other t none (set p (some bytes) s) q differ ∙ set_other p (some bytes) s q away);
  rename_moves = λ t p s s' apart h.
      let (bytes, is, same) = moved_is t p s s' (s t) h in
      rw (← same) (
        set_other t none (set p (some bytes) s) p (λ e. apart (sym e))
        ∙ (set_here p (some bytes) s ∙ sym is));
  rename_empties = λ t p s s' apart h.
      let (bytes, is, same) = moved_is t p s s' (s t) h in
      rw (← same) (set_here t none (set p (some bytes) s));
  read_finds = λ p s bytes h. contents_inj (s p) bytes h;
}

abbrev start : Store Memory
start = record { files = λ q. none; sequence = 0 }

abbrev path : Text
path = 97 ∷ []

abbrev after : Status × Store Memory
after = write_artifact memory 7 path compilation start

write_artifact-Saved_example :
    Saved memory look memory_law
      (unique_temporary_path 7 0 path)
      path
      compilation
      start
      (write_artifact memory 7 path compilation start)
write_artifact-Saved_example = write_artifact-Saved memory look memory_law 7 path compilation start

succeeds : after.0 ≡ ok tt
unfolding write_artifact write_bytes after_store publish moved set unique_temporary_path decimal
    text list_beq
succeeds = rw (written, write_artifact) refl

reads : memory.read path after.1.files ≡ contents artifact
unfolding write_artifact write_bytes after_store publish moved set contents_of unique_temporary_path
    decimal text list_beq
reads = rw (written, write_artifact) refl

read_artifact-write_artifact_example :
    read_artifact memory path (write_artifact memory 7 path compilation start).1.files
    ≡ ok (stored_info compilation)
read_artifact-write_artifact_example =
    read_artifact-write_artifact memory look memory_law 7 path compilation start artifact
      compilation_valid compilation_small succeeds reads

zero_one : ◌≢◌ {A = ℕ} 0 1
zero_one h = omega arith

unique_temporary_path-separates_example :
    unique_temporary_path 7 0 path ≢ unique_temporary_path 7 1 path
unique_temporary_path-separates_example =
    unique_temporary_path-separates 7 0 1 path (omega arith) (omega arith) zero_one

load_artifact_path-write_artifact_example :
    load_artifact_path memory compilation.target_triple first_byte path
      (write_artifact memory 7 path compilation start).1.files
    ≡ ok (
      executable_of first_byte compilation scalar_linked avx2_linked avx512_linked,
      stored_info compilation,
    )
load_artifact_path-write_artifact_example =
    load_artifact_path-write_artifact memory look memory_law 7 path compilation start first_byte
      scalar_linked avx2_linked avx512_linked artifact compilation_valid compilation_small succeeds
      reads
