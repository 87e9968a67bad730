-- ===== src/Artifact/Soundness.antt =====
-- lib/Compiler/Artifact.cpp: what a reader may rely on in an artifact that `parse_artifact` accepts.
pub mod Checksum
pub mod Corruption
use deep_forge.Base.{
  ℕ, ◌-◌, ◌+◌, ◌*◌, ◌/◌, ◌%◌, ◌≤◌, ◌<◌, ◌≡◌, refl, Bool, true, false, not, ◌==◌, nat_eq, list_eq,
  eq_of_==, Bool-cases, inl, inr, List, [], ◌∷◌, map, All, All-map, take, drop, length, ltb, arith,
  Pairwise,
}
use deep_forge.Import.Status.{Result, ok, err, Error}
use deep_forge.Workspace.{WorkspacePlan}
use deep_forge.Workspace.Invariant.{request_of}
use deep_forge.Workspace.Plan.{EndsBy, highest_end, IsPlanFor}
use deep_forge.Artifact.{ArtifactInfo}
use deep_forge.Artifact.Bytes.{magic}
use deep_forge.Artifact.Reader.{Outcome, failed, done, Parser, continue, ◌>>=◌}
use deep_forge.Artifact.Contract.{validate_contract}
use deep_forge.Artifact.Contract.Conv.{Verdict, refused, accepted}
use deep_forge.Artifact.Contract.Parts.{IsContract, validate_contract-IsContract}
use deep_forge.Artifact.Contract.Workspace.{IsWorkspace-IsPlanFor}
use deep_forge.Artifact.Parse.{
  judge, check_contract, parse_info, parse_payload, checksum_matches, value_of, parse_artifact,
}

-- A successful step of a parser, taken apart.
continue-eq-done :
    {E A B : Type 0} (first : Outcome E A) (step : A → Parser E B) {b : B} {left : List ℕ}
    → continue first step ≡ done b left
    → (a : A) × (mid : List ℕ) × (first ≡ done a mid) × (step a mid ≡ done b left)
continue-eq-done (failed e) step h = cc
continue-eq-done (done a mid) step h = (a, mid, refl, h)

value_of-eq-ok :
    {A : Type 0} (o : Outcome Error A) {a : A}
    → value_of o ≡ ok a
    → (left : List ℕ) × (o ≡ done a left)
value_of-eq-ok (failed e) h = cc
value_of-eq-ok (done b left) h = (left, cc)

judge-eq-done :
    (v : Verdict (Unit {0})) (info : ArtifactInfo) (input : List ℕ) {out : ArtifactInfo}
    {left : List ℕ}
    → judge v info input ≡ done out left
    → (v ≡ accepted tt) × (info ≡ out)
judge-eq-done (refused detail) info input h = cc
judge-eq-done (accepted u) info input h = (refl, cc)

parse_payload-accepts :
    (input left : List ℕ) (info : ArtifactInfo)
    → parse_payload input ≡ done info left
    → validate_contract info.adapter_kind info.metadata info.workspace info.variants ≡ accepted tt
unfolding parse_payload check_contract
parse_payload-accepts input left info h =
    let (read, mid, reads, checks) = continue-eq-done (parse_info input) check_contract h in
    let (accepts, same) =
      judge-eq-done (validate_contract read.adapter_kind read.metadata read.workspace read.variants)
        read mid checks in
    rw (← same) accepts

-- An input that is accepted: it is long enough, starts with the magic, ends with the checksum of
-- what stands before, and its payload is read.
pub record IsFramed (input : List ℕ) (info : ArtifactInfo) : Type 0 where
  pub long : 24 ≤ length input
  pub starts : take 8 input ≡ magic
  pub sums : checksum_matches (drop (length input - 8) input) (take (length input - 8) input) ≡ true
  pub reads : value_of (parse_payload (drop 8 (take (length input - 8) input))) ≡ ok info

pub parse_artifact-IsFramed :
    (input : List ℕ) (info : ArtifactInfo) → parse_artifact input ≡ ok info → IsFramed input info
unfolding parse_artifact
parse_artifact-IsFramed input info h = record {
  long = ground arith;
  starts = eq_of_== (take 8 input) magic (ground arith);
  sums = ground arith;
  reads = ground arith;
}

-- Whatever bytes parse_artifact accepts, the metadata it returns is validated, a convolution's shapes,
-- padding and channels agree, the three variants are the expected ones, and the workspace is a plan
-- for the requests that its allocations answer: aligned, inside and apart while live together.
pub parse_artifact-IsContract :
    (input : List ℕ) (info : ArtifactInfo)
    → parse_artifact input ≡ ok info
    → IsContract info.adapter_kind info.metadata info.workspace info.variants
      × IsPlanFor (map request_of info.workspace.allocations) info.workspace
parse_artifact-IsContract input info h =
    let framed = parse_artifact-IsFramed input info h in
    let (left, reads) = value_of-eq-ok (parse_payload _) framed.reads in
    let contract =
      validate_contract-IsContract info.adapter_kind info.metadata info.workspace info.variants
        (parse_payload-accepts _ left info reads) in
    (contract, IsWorkspace-IsPlanFor info.workspace contract.workspace)
