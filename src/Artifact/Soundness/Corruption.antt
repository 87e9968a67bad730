-- ===== src/Artifact/Soundness/Corruption.antt =====
-- lib/Compiler/Artifact.cpp: `parse_artifact` does not accept an artifact of which one byte before the
-- checksum has changed.
use deep_forge.Base.{
  ℕ, ◌-◌, ◌≡◌, ◌≢◌, refl, sym, ◌∙◌, inl, inr, true, List, ◌∷◌, ◌++◌, length, length-append, All,
  nat_eq, eq_of_==, arith,
}
use deep_forge.Import.Status.{Result-cases, ok, err, Error}
use deep_forge.Artifact.{ArtifactInfo}
use deep_forge.Artifact.Bytes.{checksum}
use deep_forge.Artifact.Reader.{failed, done, Outcome, read_u64}
use deep_forge.Artifact.Parse.{checksum_matches, parse_artifact}
use deep_forge.Artifact.RoundTrip.Framing.{take-append, drop-append}
use deep_forge.Artifact.Soundness.{parse_artifact-IsFramed}
use deep_forge.Artifact.Soundness.Checksum.{IsByte, checksum-separates}

-- An accepted input is a payload and its checksum.
accepted_sums :
    (payload stored : List ℕ) (info : ArtifactInfo)
    → length stored ≡ 8
    → parse_artifact (payload ++ stored) ≡ ok info
    → checksum_matches stored payload ≡ true
accepted_sums payload stored info h parsed =
    let framed = parse_artifact-IsFramed (payload ++ stored) info parsed in
    let split : length (payload ++ stored) - 8 ≡ length payload =
      omega (arith, length-append payload stored, h) in
    rw (split, take-append payload stored, drop-append payload stored) at framed.sums

-- A stored checksum is the checksum of all payloads that it matches.
sums_agree :
    (stored p q : List ℕ) (o : Outcome (Unit {0}) ℕ)
    → read_u64 stored ≡ o
    → checksum_matches stored p ≡ true
    → checksum_matches stored q ≡ true
    → checksum p ≡ checksum q
unfolding checksum_matches
sums_agree stored p q (failed u) is hp hq = absurd (ground arith)
sums_agree stored p q (done n left) is hp hq =
    let first : n ≡ checksum p = eq_of_== n (checksum p) (ground arith) in
    let second : n ≡ checksum q = eq_of_== n (checksum q) (ground arith) in sym first ∙ second

-- Where an input is accepted, every input that differs from it in exactly one byte before the last
-- eight, which hold the checksum, is refused with an error.
pub parse_artifact-refuses :
    (front back stored : List ℕ) (x y : ℕ) (info : ArtifactInfo)
    → length stored ≡ 8
    → IsByte x
    → IsByte y
    → All IsByte back
    → x ≢ y
    → parse_artifact ((front ++ x ∷ back) ++ stored) ≡ ok info
    → (e : Error) × (parse_artifact ((front ++ y ∷ back) ++ stored) ≡ err e)
parse_artifact-refuses front back stored x y info h hx hy hb differ parsed =
    let changed = front ++ y ∷ back in
    elim (Result-cases (parse_artifact (changed ++ stored))) [
      | inr refused ↦ refused
      | inl (other, accepts) ↦
          let same =
            sums_agree stored (front ++ x ∷ back) changed (read_u64 stored) refl
              (accepted_sums (front ++ x ∷ back) stored info h parsed)
              (accepted_sums changed stored other h accepts) in
          absurd (differ (checksum-separates front back x y hx hy hb same))
    ]
