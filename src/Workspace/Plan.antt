-- ===== src/Workspace/Plan.antt =====
-- `plan_workspace` of lib/Transforms/WorkspacePlanner.cpp as a whole: it ends, and every plan that
-- it returns is right.
use deep_forge.Base.{
  Pairwise-map, ◌⊎◌, ℕ, ◌+◌, ◌%◌, ◌≤◌, ◌<◌, max, ◌≡◌, refl, Option, some, List, [], ◌∷◌, map, All,
  Pairwise, Perm, u64_max, i64_max, arith, Option-cases, is_power_of_two, All-map, inl, inr,
  checked_add-eq, nat_eq, sort_by, sort_by-All, sort_by-perm,
}
use deep_forge.Import.Status.{Result, Result-cases, Error, ok, err}
use deep_forge.Workspace.{
  WorkspaceRequest, WorkspaceAllocation, WorkspacePlan, workspace_alignment, checked_align_up,
  high_watermark, finish_plan, finish_placed, place_all, plan_workspace, request_before,
  validate_requests,
}
use deep_forge.Workspace.Scanning.{IsBounded, checked_align_up-eq-some}
use deep_forge.Workspace.Invariant.{
  request_of, Apart, IsAligned, IsPlaced, IsValidRequest, Placement, failed, placed,
  place_all-Placement, validate_requests-ok,
}

-- The allocation ends at or below an address.
abbrev pub EndsBy : ℕ → WorkspaceAllocation → Type 0
EndsBy size a = a.offset + a.size_bytes ≤ size

-- The highest end of an allocation, or the given number if that is higher.
abbrev pub highest_end : List WorkspaceAllocation → ℕ → ℕ
highest_end [] high = high
highest_end (a ∷ rest) high = highest_end rest (max high (a.offset + a.size_bytes))

pub high_watermark-eq :
    (ps : List WorkspaceAllocation) (high : ℕ)
    → All IsBounded ps
    → high_watermark ps high ≡ ok (highest_end ps high)
unfolding high_watermark
high_watermark-eq [] high h = refl
high_watermark-eq (a ∷ rest) high h = ground (
  arith,
  checked_add-eq a.offset a.size_bytes,
  high_watermark-eq rest (max high (a.offset + a.size_bytes)) h.1,
)

le-highest_end : (ps : List WorkspaceAllocation) (high : ℕ) → high ≤ highest_end ps high
le-highest_end [] high = omega arith
le-highest_end (a ∷ rest) high =
    omega (arith, le-highest_end rest (max high (a.offset + a.size_bytes)))

highest_end-EndsBy :
    (ps : List WorkspaceAllocation) (high : ℕ) → All (EndsBy (highest_end ps high)) ps
highest_end-EndsBy [] high = tt
highest_end-EndsBy (a ∷ rest) high =
    let further = max high (a.offset + a.size_bytes) in
    (omega (arith, le-highest_end rest further), highest_end-EndsBy rest further)

highest_end-le :
    (ps : List WorkspaceAllocation) (high : ℕ)
    → All IsBounded ps
    → high ≤ u64_max
    → highest_end ps high ≤ u64_max
highest_end-le [] high h k = k
highest_end-le (a ∷ rest) high h k =
    highest_end-le rest (max high (a.offset + a.size_bytes)) h.1 (omega (arith, h.0))

-- Two allocations are never live together, or share no byte.
abbrev pub Separate : WorkspaceAllocation → WorkspaceAllocation → Type 0
Separate a b =
    ((a.live_end < b.live_start) ⊎ (b.live_end < a.live_start))
    ⊎ ((a.offset + a.size_bytes ≤ b.offset) ⊎ (b.offset + b.size_bytes ≤ a.offset))

Apart-Separate : (a b : WorkspaceAllocation) → Apart a b → Separate a b
Apart-Separate a b h = ground arith

-- A plan for some requests: each of them is answered by one allocation of its size, alignment and
-- lifetime, at an aligned offset inside the workspace; no two that are live together overlap; and
-- the workspace is the highest end, rounded up to 64 bytes, within a signed 64-bit size.
pub record IsPlanFor (requests : List WorkspaceRequest) (plan : WorkspacePlan) : Type 0 where
  pub answers : Perm (map request_of plan.allocations) requests
  pub aligned : All IsAligned plan.allocations
  pub inside : All (EndsBy plan.size_bytes) plan.allocations
  pub apart : Pairwise Separate plan.allocations
  pub whole : plan.size_bytes % workspace_alignment ≡ 0
  pub tight : plan.size_bytes < highest_end plan.allocations 0 + workspace_alignment
  pub signed : plan.size_bytes ≤ i64_max
  pub alignment_is : plan.alignment ≡ workspace_alignment

record Finished (ps : List WorkspaceAllocation) (plan : WorkspacePlan) : Type 0 where
  same : plan.allocations ≡ ps
  covers : highest_end ps 0 ≤ plan.size_bytes
  whole : plan.size_bytes % workspace_alignment ≡ 0
  tight : plan.size_bytes < highest_end ps 0 + workspace_alignment
  signed : plan.size_bytes ≤ i64_max
  alignment_is : plan.alignment ≡ workspace_alignment

finish_plan-Finished :
    (ps : List WorkspaceAllocation) {plan : WorkspacePlan}
    → All IsBounded ps
    → finish_plan ps ≡ ok plan
    → Finished ps plan
unfolding finish_plan is_power_of_two
finish_plan-Finished ps h e =
    let high = highest_end ps 0 in
    let le = highest_end-le ps 0 h (omega arith) in
    elim (Option-cases (checked_align_up high workspace_alignment)) [
      | inl nothing ↦ ground (arith, high_watermark-eq ps 0 h)
      | inr (x, up) ↦ ground (
        arith,
        high_watermark-eq ps 0 h,
        checked_align_up-eq-some high workspace_alignment le (refl, omega arith) up,
      )
    ]

pub within :
    (n m : ℕ) (ps : List WorkspaceAllocation) → n ≤ m → All (EndsBy n) ps → All (EndsBy m) ps
within n m ps h = All-map (λ a k. omega arith) ps

IsPlanFor-Finished :
    (requests ordered : List WorkspaceRequest) (ps : List WorkspaceAllocation)
    (plan : WorkspacePlan)
    → Perm ordered requests
    → map request_of ps ≡ ordered
    → IsPlaced ps
    → Finished ps plan
    → IsPlanFor requests plan
IsPlanFor-Finished requests ordered ps plan perm answers v f = record {
  answers = rw (f.same, answers) perm;
  aligned = rw f.same v.aligned;
  inside =
      rw f.same (within (highest_end ps 0) plan.size_bytes ps f.covers (highest_end-EndsBy ps 0));
  apart = rw f.same (Pairwise-map Apart-Separate ps v.apart);
  whole = f.whole;
  tight = rw f.same f.tight;
  signed = f.signed;
  alignment_is = f.alignment_is;
}

-- What the planner returns: an error, or a plan for the requests that are given.
pub data Planned (requests : List WorkspaceRequest) : Option (Result WorkspacePlan) → Type 0 where
  refused : (e : Error) → Planned requests (some (err e))
  planned : (plan : WorkspacePlan) → IsPlanFor requests plan → Planned requests (some (ok plan))

plan_placed :
    (requests ordered : List WorkspaceRequest) (o : Option (Result (List WorkspaceAllocation)))
    → Perm ordered requests
    → Placement ordered [] o
    → Planned requests (finish_placed o)
unfolding finish_placed
plan_placed requests ordered _ perm (failed e) = refused e
plan_placed requests ordered _ perm (placed out v m) = elim (Result-cases (finish_plan out)) [
  | inr (e, is_err) ↦ rw is_err (refused e)
  | inl (plan, is_ok) ↦ rw is_ok (
      planned plan (
        IsPlanFor-Finished requests ordered out plan perm m v
          (finish_plan-Finished out v.bounded is_ok)))
]

-- `plan_workspace` always ends. It returns an error, or a plan in which every request is placed,
-- aligned and inside the workspace, and allocations that are live together share no byte.
pub plan_workspace-Planned :
    (requests : List WorkspaceRequest) → Planned requests (plan_workspace requests)
unfolding plan_workspace
plan_workspace-Planned requests = elim (Result-cases (validate_requests requests [])) [
  | inr (e, is_err) ↦ rw (is_err, plan_workspace) (refused e)
  | inl (u, is_ok) ↦
      let valid = validate_requests-ok requests [] is_ok in
      let ordered = sort_by request_before requests in
      rw (is_ok, plan_workspace)
        (plan_placed requests ordered (place_all ordered []) (sort_by-perm request_before requests)
          (place_all-Placement ordered []
            (sort_by-All IsValidRequest request_before requests valid.0)
            (record { bounded = tt; aligned = tt; apart = tt })))
]
