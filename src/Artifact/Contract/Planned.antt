-- ===== src/Artifact/Contract/Planned.antt =====
-- lib/Transforms/WorkspacePlanner.cpp and lib/Compiler/Artifact.cpp: the planner's workspace is one
-- that the artifact's contract accepts.
use deep_forge.Base.{
  ℕ, ◌≡◌, refl, ap, inl, inr, Bool, false, not, ◌||◌, some, List, [], ◌∷◌, map, All, is_empty,
  has_nul, Distinct, list_eq, nat_eq, ltb, ◌==◌, is_power_of_two, arith,
}
use deep_forge.Base.Counting.{none-perm, Distinct-perm}
use deep_forge.Import.Status.{Result-cases, ok}
use deep_forge.Workspace.{
  WorkspaceRequest, WorkspaceAllocation, WorkspacePlan, workspace_alignment, plan_workspace,
  validate_requests,
}
use deep_forge.Workspace.Invariant.{IsAligned, IsValidRequest, request_of, validate_requests-ok}
use deep_forge.Workspace.Plan.{EndsBy, IsPlanFor, plan_workspace-Planned}
use deep_forge.Workspace.Completeness.{Planned-IsPlanFor}
use deep_forge.Artifact.Contract.{check_workspace}
use deep_forge.Artifact.Contract.Conv.{accepted}
use deep_forge.Artifact.Contract.Workspace.{IsAllocation, IsWorkspace, highest_end-le}
use deep_forge.Artifact.Contract.Complete.{IsWorkspace-check_workspace}

-- The planner returns a plan for validated requests only.
plan_workspace-valid :
    (requests : List WorkspaceRequest) (plan : WorkspacePlan)
    → plan_workspace requests ≡ some (ok plan)
    → validate_requests requests [] ≡ ok tt
unfolding plan_workspace
plan_workspace-valid requests plan h = elim (Result-cases (validate_requests requests [])) [
  | inl (u, is_ok) ↦ is_ok
  | inr (e, is_err) ↦ absurd (cc (rw (is_err, plan_workspace) at h))
]

-- what the contract refuses in an allocation, of those things that the request already says
is_unfit : WorkspaceRequest → Bool
is_unfit r =
    is_empty r.name
    || has_nul r.name
    || r.size_bytes == 0
    || not (is_power_of_two r.alignment)
    || ltb workspace_alignment r.alignment
    || ltb r.live_end r.live_start

requests_fit :
    (rs : List WorkspaceRequest)
    → All IsValidRequest rs
    → All (λ r. has_nul r.name ≡ false) rs
    → All (λ r. is_unfit r ≡ false) rs
unfolding is_unfit
requests_fit [] h k = tt
requests_fit (r ∷ rs) h k = (
  ground (arith, h.0.named, h.0.sized, h.0.alignment, h.0.lifetime, k.0),
  requests_fit rs h.1 k.1,
)

allocations_fit :
    (size : ℕ) (as' : List WorkspaceAllocation)
    → All (λ r. is_unfit r ≡ false) (map request_of as')
    → All IsAligned as'
    → All (EndsBy size) as'
    → All (IsAllocation size) as'
unfolding is_unfit
allocations_fit size [] h aligned inside = tt
allocations_fit size (a ∷ rest) h aligned inside = (
  record {
    named = (ground (arith, h.0), ground (arith, h.0));
    sized = ground (arith, h.0);
    alignment = (ground (arith, h.0), ground (arith, h.0));
    aligned = aligned.0;
    lifetime = ground (arith, h.0);
    inside = inside.0;
  },
  allocations_fit size rest h.1 aligned.1 inside.1,
)

names_of_requests :
    (as' : List WorkspaceAllocation)
    → map (λ r. r.name) (map request_of as') ≡ map (λ a. a.name) as'
names_of_requests [] = refl
names_of_requests (a ∷ rest) = ap (λ l. a.name ∷ l) (names_of_requests rest)

IsPlanFor-IsWorkspace :
    (requests : List WorkspaceRequest) (plan : WorkspacePlan)
    → All IsValidRequest requests
    → Distinct (map (λ r. r.name) requests)
    → All (λ r. has_nul r.name ≡ false) requests
    → IsPlanFor requests plan
    → IsWorkspace plan
IsPlanFor-IsWorkspace requests plan valid distinct printable p =
    let below = highest_end-le plan.allocations 0 plan.size_bytes (omega arith) p.inside in
    record {
      alignment_is = p.alignment_is;
      signed = p.signed;
      each =
          allocations_fit plan.size_bytes plan.allocations
            (none-perm is_unfit p.answers (requests_fit requests valid printable)) p.aligned
            p.inside;
      names =
          rw (← names_of_requests plan.allocations)
            (Distinct-perm (λ r. r.name) p.answers distinct);
      apart = p.apart;
      size_is = omega (arith, below, p.whole, p.tight);
    }

-- Where no request's name has a NUL, every workspace that the planner returns passes the artifact's
-- checks of a workspace.
pub check_workspace-plan_workspace :
    (requests : List WorkspaceRequest) (plan : WorkspacePlan)
    → All (λ r. has_nul r.name ≡ false) requests
    → plan_workspace requests ≡ some (ok plan)
    → check_workspace plan ≡ accepted tt
check_workspace-plan_workspace requests plan printable planned =
    let valid = validate_requests-ok requests [] (plan_workspace-valid requests plan planned) in
    IsWorkspace-check_workspace plan (
      IsPlanFor-IsWorkspace requests plan valid.0 valid.1 printable
        (Planned-IsPlanFor requests plan (plan_workspace-Planned requests) planned))
