-- ===== src/Artifact/Contract/Workspace.antt =====
-- What `validate_contract` of lib/Compiler/Artifact.cpp establishes of a workspace: that it is a plan,
-- in the sense that the planner's own plans are.
use mathlib.Core.List.Perm
use deep_forge.Base.{
  ℕ, ◌+◌, ◌*◌, ◌/◌, ◌≤◌, ◌<◌, max, ◌≡◌, refl, true, false, List, [], ◌∷◌, map, All, All-map,
  Pairwise, Text, is_empty, has_nul, contains, Distinct, FreshFrom, FreshFrom-Distinct, list_eq,
  nat_eq, i64_max, checked_add, is_power_of_two, align_down-eq, arith,
}
use deep_forge.Workspace.{WorkspaceAllocation, WorkspacePlan, workspace_alignment}
use deep_forge.Workspace.Invariant.{IsAligned, request_of}
use deep_forge.Workspace.Plan.{EndsBy, Separate, highest_end, IsPlanFor}
use deep_forge.Artifact.Contract.{
  check_allocation, check_allocations, overlap, overlaps_any, any_overlap, expected_size,
  check_workspace, check_layout, check_size,
}
use deep_forge.Artifact.Contract.Conv.{Verdict, refused, accepted, ◌>>=◌, ◌>>◌}

-- A successful chain of checks, taken apart.
pub >>-eq-accepted :
    {A : Type 0} (first : Verdict (Unit {0})) (later : Verdict A) {a : A}
    → (first >> later) ≡ accepted a
    → (first ≡ accepted tt) × (later ≡ accepted a)
>>-eq-accepted (refused detail) later h = cc
>>-eq-accepted (accepted u) later h = (refl, h)

pub >>=-eq-accepted :
    {A B : Type 0} (first : Verdict A) (step : A → Verdict B) {b : B}
    → (first >>= step) ≡ accepted b
    → (a : A) × (first ≡ accepted a) × (step a ≡ accepted b)
>>=-eq-accepted (refused detail) step h = cc
>>=-eq-accepted (accepted a) step h = (a, refl, h)

-- What the loop asks of an allocation.
pub record IsAllocation (size : ℕ) (a : WorkspaceAllocation) : Type 0 where
  pub named : (is_empty a.name ≡ false) × (has_nul a.name ≡ false)
  pub sized : 0 < a.size_bytes
  pub alignment : (is_power_of_two a.alignment ≡ true) × (a.alignment ≤ workspace_alignment)
  pub aligned : IsAligned a
  pub lifetime : a.live_start ≤ a.live_end
  pub inside : EndsBy size a

check_allocation-ok :
    (a : WorkspaceAllocation) (names : List Text) (size end : ℕ)
    → check_allocation a names size ≡ accepted end
    → IsAllocation size a × (contains a.name names ≡ false) × (end ≡ a.offset + a.size_bytes)
unfolding check_allocation checked_add
check_allocation-ok a names size end h = (
  record {
    named = (ground arith, ground arith);
    sized = ground arith;
    alignment = (ground arith, ground arith);
    aligned = ground arith;
    lifetime = ground arith;
    inside = ground arith;
  },
  ground arith,
  ground arith,
)

pub check_allocations-ok :
    (as' : List WorkspaceAllocation) (names : List Text) (size high end : ℕ)
    → check_allocations as' names size high ≡ accepted end
    → All (IsAllocation size) as'
      × FreshFrom (map (λ a. a.name) as') names
      × (end ≡ highest_end as' high)
unfolding check_allocations
check_allocations-ok [] names size high end h = (tt, tt, cc)
check_allocations-ok (a ∷ rest) names size high end h =
    let (e, here, later) = >>=-eq-accepted (check_allocation a names size) _ h in
    let (first, fresh, ends) = check_allocation-ok a names size e here in
    let (each, new, whole) =
      check_allocations-ok rest (a.name ∷ names) size (max high e) end later in
    ((first, each), (fresh, new), rw ends at whole)

-- Allocations inside the workspace that pass the test of a pair are separate.
overlap-Separate :
    (a b : WorkspaceAllocation)
    → a.offset + a.size_bytes ≤ i64_max
    → b.offset + b.size_bytes ≤ i64_max
    → overlap a b ≡ false
    → Separate a b
unfolding overlap
overlap-Separate a b ha hb h = ground arith

overlaps_any-Separate :
    (size : ℕ) (a : WorkspaceAllocation) (rest : List WorkspaceAllocation)
    → size ≤ i64_max
    → EndsBy size a
    → All (EndsBy size) rest
    → overlaps_any a rest ≡ false
    → All (Separate a) rest
unfolding overlaps_any
overlaps_any-Separate size a [] le ha hr h = tt
overlaps_any-Separate size a (b ∷ rest) le ha hr h = (
  overlap-Separate a b (omega arith) (omega (arith, hr.0)) (ground arith),
  overlaps_any-Separate size a rest le ha hr.1 (ground arith),
)

any_overlap-Separate :
    (size : ℕ) (as' : List WorkspaceAllocation)
    → size ≤ i64_max
    → All (EndsBy size) as'
    → any_overlap as' ≡ false
    → Pairwise Separate as'
unfolding any_overlap
any_overlap-Separate size [] le h k = tt
any_overlap-Separate size (a ∷ rest) le h k = (
  overlaps_any-Separate size a rest le h.0 h.1 (ground arith),
  any_overlap-Separate size rest le h.1 (ground arith),
)

-- The expected size is the high watermark, rounded up to 64 bytes.
expected_size-eq :
    (high size : ℕ)
    → high ≤ i64_max
    → expected_size high ≡ accepted size
    → size ≡ (high + 63) / 64 * 64
unfolding expected_size checked_add is_power_of_two
expected_size-eq high size le h =
    ground (arith, align_down-eq (high + 63) workspace_alignment refl (omega arith))

-- What the contract says of a workspace: the allocations are named apart, aligned, inside, and
-- separate while both are live, and the size is their highest end, rounded up to 64 bytes.
pub record IsWorkspace (w : WorkspacePlan) : Type 0 where
  pub alignment_is : w.alignment ≡ workspace_alignment
  pub signed : w.size_bytes ≤ i64_max
  pub each : All (IsAllocation w.size_bytes) w.allocations
  pub names : Distinct (map (λ a. a.name) w.allocations)
  pub apart : Pairwise Separate w.allocations
  pub size_is : w.size_bytes ≡ (highest_end w.allocations 0 + 63) / 64 * 64

pub highest_end-le :
    (as' : List WorkspaceAllocation) (high size : ℕ)
    → high ≤ size
    → All (EndsBy size) as'
    → highest_end as' high ≤ size
highest_end-le [] high size le h = le
highest_end-le (a ∷ rest) high size le h =
    highest_end-le rest (max high (a.offset + a.size_bytes)) size (omega (arith, h.0)) h.1

inside_all :
    (size : ℕ) (as' : List WorkspaceAllocation)
    → All (IsAllocation size) as'
    → All (EndsBy size) as'
inside_all size as' h = All-map (λ a k. k.inside) as' h

check_layout-ok :
    (w : WorkspacePlan)
    → check_layout w ≡ accepted tt
    → (w.alignment ≡ workspace_alignment) × (w.size_bytes ≤ i64_max)
unfolding check_layout
check_layout-ok w h = (ground arith, ground arith)

check_size-ok :
    (w : WorkspacePlan) (high : ℕ)
    → high ≤ i64_max
    → check_size w high ≡ accepted tt
    → (any_overlap w.allocations ≡ false) × (w.size_bytes ≡ (high + 63) / 64 * 64)
unfolding check_size
check_size-ok w high le h = (ground arith, ground (arith, expected_size-eq high w.size_bytes le))

pub check_workspace-IsWorkspace :
    (w : WorkspacePlan) → check_workspace w ≡ accepted tt → IsWorkspace w
unfolding check_workspace
check_workspace-IsWorkspace w h =
    let (layout, after_layout) = >>-eq-accepted (check_layout w) _ h in
    let (alignment, signed) = check_layout-ok w layout in
    let (high, walked, last) =
      >>=-eq-accepted (check_allocations w.allocations [] w.size_bytes 0) (check_size w)
        after_layout in
    let (each, fresh, whole) = check_allocations-ok w.allocations [] w.size_bytes 0 high walked in
    let inside = inside_all w.size_bytes w.allocations each in
    let below = highest_end-le w.allocations 0 w.size_bytes (omega arith) inside in
    let (pairs, size) = check_size-ok w high (omega arith) last in
    record {
      alignment_is = alignment;
      signed = signed;
      each = each;
      names = FreshFrom-Distinct (map (λ a. a.name) w.allocations) [] fresh;
      apart = any_overlap-Separate w.size_bytes w.allocations signed inside pairs;
      size_is = rw (← whole) size;
    }

-- A workspace of an artifact is a plan for the requests that its allocations answer.
pub IsWorkspace-IsPlanFor :
    (w : WorkspacePlan) → IsWorkspace w → IsPlanFor (map request_of w.allocations) w
IsWorkspace-IsPlanFor w h = record {
  answers = Perm.refl (map request_of w.allocations);
  aligned = All-map (λ a k. k.aligned) w.allocations h.each;
  inside = inside_all w.size_bytes w.allocations h.each;
  apart = h.apart;
  whole = omega (arith, h.size_is);
  tight = omega (arith, h.size_is);
  signed = h.signed;
  alignment_is = h.alignment_is;
}
