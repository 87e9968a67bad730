-- ===== src/Artifact/Contract/Complete.antt =====
-- `validate_contract` of lib/Compiler/Artifact.cpp refuses no workspace that is one.
use mathlib.Core.Bool.{xor}
use deep_forge.Base.{
  ℕ, ◌+◌, ◌*◌, ◌/◌, ◌≤◌, max, ◌≡◌, ◌↔◌, refl, false, List, [], ◌∷◌, map, All, Pairwise, Text,
  is_empty, contains, FreshFrom, Distinct-FreshFrom, list_eq, nat_eq, i64_max, checked_add-eq,
  is_power_of_two, align_down-eq, eqb, arith,
}
use deep_forge.Workspace.{WorkspaceAllocation, WorkspacePlan, workspace_alignment}
use deep_forge.Workspace.Plan.{Separate, highest_end}
use deep_forge.Artifact.Contract.{
  check_allocation, check_allocations, overlap, overlaps_any, any_overlap, expected_size,
  check_workspace, check_layout, check_size,
}
use deep_forge.Artifact.Contract.Conv.{accepted}
use deep_forge.Artifact.Contract.Workspace.{IsAllocation, IsWorkspace, check_workspace-IsWorkspace}

name_of : WorkspaceAllocation → Text
name_of a = a.name

check_allocation-eq :
    (a : WorkspaceAllocation) (names : List Text) (size : ℕ)
    → size ≤ i64_max
    → IsAllocation size a
    → contains a.name names ≡ false
    → check_allocation a names size ≡ accepted (a.offset + a.size_bytes)
unfolding check_allocation
check_allocation-eq a names size le h fresh = ground (
  arith,
  h.named,
  h.sized,
  h.alignment,
  h.aligned,
  h.lifetime,
  h.inside,
  checked_add-eq a.offset a.size_bytes,
)

check_allocations-eq :
    (as' : List WorkspaceAllocation) (names : List Text) (size high : ℕ)
    → size ≤ i64_max
    → All (IsAllocation size) as'
    → FreshFrom (map (λ a. a.name) as') names
    → check_allocations as' names size high ≡ accepted (highest_end as' high)
unfolding check_allocations
check_allocations-eq [] names size high le h fresh = refl
check_allocations-eq (a ∷ rest) names size high le h fresh =
    rw (check_allocation-eq a names size le h.0 fresh.0) (
      check_allocations-eq rest (a.name ∷ names) size (max high (a.offset + a.size_bytes)) le h.1
        fresh.1)

Separate-overlap :
    (a b : WorkspaceAllocation)
    → a.offset + a.size_bytes ≤ i64_max
    → b.offset + b.size_bytes ≤ i64_max
    → Separate a b
    → overlap a b ≡ false
unfolding overlap
Separate-overlap a b ha hb h = ground arith

overlaps_any-none :
    (size : ℕ) (a : WorkspaceAllocation) (rest : List WorkspaceAllocation)
    → size ≤ i64_max
    → IsAllocation size a
    → All (IsAllocation size) rest
    → All (Separate a) rest
    → overlaps_any a rest ≡ false
unfolding overlaps_any
overlaps_any-none size a [] le ha hr h = refl
overlaps_any-none size a (b ∷ rest) le ha hr h =
    rw (Separate-overlap a b (omega (arith, ha.inside)) (omega (arith, hr.0.inside)) h.0)
      (overlaps_any-none size a rest le ha hr.1 h.1)

any_overlap-none :
    (size : ℕ) (as' : List WorkspaceAllocation)
    → size ≤ i64_max
    → All (IsAllocation size) as'
    → Pairwise Separate as'
    → any_overlap as' ≡ false
unfolding any_overlap
any_overlap-none size [] le h k = refl
any_overlap-none size (a ∷ rest) le h k =
    rw (overlaps_any-none size a rest le h.0 h.1 k.0) (any_overlap-none size rest le h.1 k.1)

expected_size-is :
    (high : ℕ) → high ≤ i64_max → expected_size high ≡ accepted ((high + 63) / 64 * 64)
unfolding expected_size is_power_of_two
expected_size-is high le = ground (
  arith,
  checked_add-eq high 63,
  align_down-eq (high + 63) workspace_alignment refl (omega arith),
)

le-highest_end : (as' : List WorkspaceAllocation) (high : ℕ) → high ≤ highest_end as' high
le-highest_end [] high = omega arith
le-highest_end (a ∷ rest) high =
    omega (arith, le-highest_end rest (max high (a.offset + a.size_bytes)))

-- The size is zero for an empty workspace, and only for one.
size_agrees :
    (size : ℕ) (as' : List WorkspaceAllocation)
    → All (IsAllocation size) as'
    → size ≡ (highest_end as' 0 + 63) / 64 * 64
    → xor (eqb size 0) (is_empty as') ≡ false
unfolding xor
size_agrees size [] h is = ground arith
size_agrees size (a ∷ rest) h is =
    ground (arith, h.0.sized, le-highest_end rest (max 0 (a.offset + a.size_bytes)))

check_layout-eq : (w : WorkspacePlan) → IsWorkspace w → check_layout w ≡ accepted tt
unfolding check_layout
check_layout-eq w h = ground (
  arith,
  h.alignment_is,
  h.signed,
  h.size_is,
  size_agrees w.size_bytes w.allocations h.each h.size_is,
)

highest_end-le-size : (w : WorkspacePlan) → IsWorkspace w → highest_end w.allocations 0 ≤ i64_max
highest_end-le-size w h = omega (arith, h.size_is, h.signed)

check_size-eq :
    (w : WorkspacePlan) → IsWorkspace w → check_size w (highest_end w.allocations 0) ≡ accepted tt
unfolding check_size
check_size-eq w h = ground (
  arith,
  any_overlap-none w.size_bytes w.allocations h.signed h.each h.apart,
  expected_size-is (highest_end w.allocations 0) (highest_end-le-size w h),
  h.size_is,
)

empty_fresh : (names : List Text) → All (λ n. contains n [] ≡ false) names
unfolding contains
empty_fresh [] = tt
empty_fresh (n ∷ rest) = (refl, empty_fresh rest)

pub IsWorkspace-check_workspace :
    (w : WorkspacePlan) → IsWorkspace w → check_workspace w ≡ accepted tt
unfolding check_workspace
IsWorkspace-check_workspace w h =
    let names = map (λ a. a.name) w.allocations in
    rw
      (
        check_layout-eq w h,
        check_allocations-eq w.allocations [] w.size_bytes 0 h.signed h.each
            (Distinct-FreshFrom names [] h.names (empty_fresh names)),
      )
      (check_size-eq w h)

-- The checks of a workspace accept it exactly when its alignment is 64; its size fits a signed 64-bit
-- integer and is the highest end of its allocations, rounded up to 64 bytes; each allocation has a
-- name that is not empty and has no NUL, a positive size, an alignment that is a power of two up to
-- 64, an offset that is a multiple of it, a lifetime that does not end before it starts, and lies
-- inside the workspace; no two have the same name; and any two that are live at a point are separate.
pub check_workspace_iff : (w : WorkspacePlan) → (check_workspace w ≡ accepted tt) ↔ IsWorkspace w
check_workspace_iff w = (check_workspace-IsWorkspace w, IsWorkspace-check_workspace w)
