-- ===== src/Workspace/Completeness.antt =====
-- `plan_workspace` of lib/Transforms/WorkspacePlanner.cpp refuses no valid requests that have room: the
-- lemmas that follow the search and the placement with a bound on the ends of the allocations.
use deep_forge.Base.{
  ℕ, zero, suc, ◌+◌, ◌-◌, ◌≤◌, ◌<◌, max, ◌≡◌, ◌≢◌, refl, ap, ◌⊎◌, inl, inr, true, false, Option,
  none, some, List, [], ◌∷◌, ◌++◌, All, All-append, length, total, total-sort_by, if◌then◌else◌,
  Bool-cases, Option-cases, u64_max, i64_max, checked_add-eq, is_power_of_two, arith, sort_by,
  sort_by-All, ◌==◌, nat_eq,
}
use deep_forge.Import.Status.{Result, ok}
use deep_forge.Workspace.{
  WorkspaceRequest, WorkspaceAllocation, WorkspacePlan, Scan, workspace_alignment, allocate,
  checked_align_up, try_candidate, find_offset, place_all, finish_plan, finish_placed,
  plan_workspace, request_before, validate_requests,
}
use deep_forge.Workspace.Scanning.{
  IsBounded, IsAlignment, checked_align_up-eq-some, mark, marks, scan-marks, count_above,
  count_above-le-length,
}
use deep_forge.Workspace.Search.{start, next_round, find_offset-IsFirstFit}
use deep_forge.Workspace.Invariant.{IsValidRequest, IsPlaced, snoc-IsPlaced, validate_requests-ok}
use deep_forge.Workspace.Plan.{
  EndsBy, IsPlanFor, highest_end, high_watermark-eq, Planned, refused, planned,
  plan_workspace-Planned, within,
}

-- The bytes that one request takes at most: its size and what its alignment may waste.
abbrev pub room : WorkspaceRequest → ℕ
room r = r.size_bytes + 63

checked_align_up-adds : (v a : ℕ) → v + 63 ≤ u64_max → IsAlignment a → checked_align_up v a ≢ none
unfolding checked_align_up
checked_align_up-adds v a h ha nothing = ground (arith, ha.1, checked_add-eq v (a - 1))

checked_align_up-fits :
    (v a : ℕ)
    → v + 63 ≤ u64_max
    → IsAlignment a
    → (x : ℕ) × (checked_align_up v a ≡ some x) × (x ≤ v + 63)
checked_align_up-fits v a h ha = elim (Option-cases (checked_align_up v a)) [
  | inr (x, found) ↦
      let up = checked_align_up-eq-some v a (omega arith) ha found in
      (x, found, omega (arith, up, ha.1))
  | inl nothing ↦ absurd (checked_align_up-adds v a h ha nothing)
]

try_candidate-fits :
    (r : WorkspaceRequest) (ps : List WorkspaceAllocation) (c : ℕ)
    → c + room r ≤ u64_max
    → IsAlignment r.alignment
    → All IsBounded ps
    → (x : ℕ) × (try_candidate r ps c ≡ ok (x, marks r x ps (start x))) × (x ≤ c + 63)
unfolding try_candidate
try_candidate-fits r ps c h ha hp =
    let (x, found, le) = checked_align_up-fits c r.alignment (omega arith) ha in
    (x, ground (arith, checked_add-eq x r.size_bytes, scan-marks r x ps (start x) hp), le)

-- The scan's state while the allocations all end below a bound.
abbrev IsBelow : ℕ → ℕ → Scan → Type 0
IsBelow bound c s = ((s.conflict ≡ false) × (s.next_candidate ≡ c)) ⊎ (s.next_candidate ≤ bound)

mark-IsBelow :
    (r : WorkspaceRequest) (bound c : ℕ) (p : WorkspaceAllocation) (s : Scan)
    → EndsBy bound p
    → IsBelow bound c s
    → IsBelow bound c (mark r c p s)
unfolding mark
mark-IsBelow r bound c p s h (inl fresh) = ground arith
mark-IsBelow r bound c p s h (inr below) = ground arith

marks-IsBelow :
    (r : WorkspaceRequest) (bound c : ℕ) (ps : List WorkspaceAllocation) (s : Scan)
    → All (EndsBy bound) ps
    → IsBelow bound c s
    → IsBelow bound c (marks r c ps s)
unfolding marks
marks-IsBelow r bound c [] s h k = k
marks-IsBelow r bound c (p ∷ ps) s h k =
    marks-IsBelow r bound c ps (mark r c p s) h.1 (mark-IsBelow r bound c p s h.0 k)

marks-conflict-le :
    (r : WorkspaceRequest) (bound c : ℕ) (ps : List WorkspaceAllocation)
    → All (EndsBy bound) ps
    → (marks r c ps (start c)).conflict ≡ true
    → (marks r c ps (start c)).next_candidate ≤ bound
marks-conflict-le r bound c ps h k =
    elim (marks-IsBelow r bound c ps (start c) h (inl (refl, refl))) [
      | inl (clear, same) ↦ absurd cc
      | inr below ↦ below
    ]

-- With the bound and the request's room within 64 bits, the search succeeds just above the bound at
-- the latest.
find_offset-fits :
    (fuel : ℕ) (r : WorkspaceRequest) (ps : List WorkspaceAllocation) (bound c : ℕ)
    → c ≤ bound
    → bound + room r ≤ u64_max
    → IsAlignment r.alignment
    → All IsBounded ps
    → All (EndsBy bound) ps
    → count_above c ps < fuel
    → (x : ℕ) × (find_offset fuel r ps c ≡ some (ok x)) × (x ≤ bound + 63)
unfolding find_offset
find_offset-fits zero r ps bound c le h ha hp hb lt = absurd (omega arith)
find_offset-fits (suc fuel) r ps bound c le h ha hp hb lt =
    let (x, tried, near) = try_candidate-fits r ps c (omega arith) ha hp in
    let s = marks r x ps (start x) in
    elim (Bool-cases s.conflict) [
      | inr clear ↦ (x, rw (tried, clear, find_offset) refl, omega arith)
      | inl hit ↦
          let next = next_round r ps c x s (omega arith) ha hp tried hit in
          let below = marks-conflict-le r bound x ps hb hit in
          let (y, found, near') =
            find_offset-fits fuel r ps bound s.next_candidate below h ha hp hb
              (omega (arith, next)) in
          (y, rw (tried, hit, find_offset) found, near')
    ]

place_all-fits :
    (rs : List WorkspaceRequest) (ps : List WorkspaceAllocation) (bound : ℕ)
    → All IsValidRequest rs
    → IsPlaced ps
    → All (EndsBy bound) ps
    → bound + total room rs ≤ u64_max
    → (out : List WorkspaceAllocation) × (place_all rs ps ≡ some (ok out))
      × All IsBounded out
      × All (EndsBy (bound + total room rs)) out
unfolding place_all total
place_all-fits [] ps bound hr v hb h =
    (ps, refl, v.bounded, within bound (bound + 0) ps (omega arith) hb)
place_all-fits (r ∷ rs) ps bound hr v hb h =
    let (x, found, near) =
      find_offset-fits (suc (length ps)) r ps bound 0 (omega arith) (omega arith) hr.0.alignment
        v.bounded hb (omega (arith, count_above-le-length 0 ps)) in
    let fit =
      find_offset-IsFirstFit (suc (length ps)) r ps 0 {x = x} (omega arith) hr.0.alignment v.bounded
        found in
    let next = bound + room r in
    let ends =
      All-append (EndsBy next) ps (allocate r x ∷ []) (within bound next ps (omega arith) hb)
        (omega arith, tt) in
    let (out, placed, bounded, below) =
      place_all-fits rs (ps ++ allocate r x ∷ []) next hr.1 (snoc-IsPlaced r x ps v fit) ends
        (omega arith) in
    let sum : next + total room rs ≡ bound + (room r + total room rs) = omega arith in
    (out, rw (found, place_all) placed, bounded, rw (← sum) below)

highest_end-EndsBy-le :
    (ps : List WorkspaceAllocation) (high bound : ℕ)
    → All (EndsBy bound) ps
    → high ≤ bound
    → highest_end ps high ≤ bound
highest_end-EndsBy-le [] high bound h k = k
highest_end-EndsBy-le (a ∷ rest) high bound h k =
    highest_end-EndsBy-le rest (max high (a.offset + a.size_bytes)) bound h.1 (omega (arith, h.0))

finish_plan-fits :
    (ps : List WorkspaceAllocation) (bound : ℕ)
    → All IsBounded ps
    → All (EndsBy bound) ps
    → bound + 63 ≤ i64_max
    → (plan : WorkspacePlan) × (finish_plan ps ≡ ok plan)
unfolding finish_plan is_power_of_two
finish_plan-fits ps bound h hb k =
    let high = highest_end ps 0 in
    let le = highest_end-EndsBy-le ps 0 bound hb (omega arith) in
    let (x, up, near) =
      checked_align_up-fits high workspace_alignment (omega arith) (refl, omega arith) in
    (
      record {
        size_bytes = if high == 0 then 0 else x;
        alignment = workspace_alignment;
        allocations = ps;
      },
      ground (arith, high_watermark-eq ps 0 h),
    )

pub Planned-IsPlanFor :
    (requests : List WorkspaceRequest) (plan : WorkspacePlan) {o : Option (Result WorkspacePlan)}
    → Planned requests o
    → o ≡ some (ok plan)
    → IsPlanFor requests plan
Planned-IsPlanFor requests plan (refused e) h = absurd cc
Planned-IsPlanFor requests plan (planned found v) h =
    let same : found ≡ plan = cc h in rw (← same) v

-- Requests that pass the first loop and whose sizes, each with 63 bytes for its alignment, leave 63
-- bytes in a signed 64-bit size are never refused: `plan_workspace` returns a plan for them.
pub plan_workspace-succeeds :
    (requests : List WorkspaceRequest)
    → validate_requests requests [] ≡ ok tt
    → total room requests + 63 ≤ i64_max
    → (plan : WorkspacePlan) × (plan_workspace requests ≡ some (ok plan)) × IsPlanFor requests plan
unfolding plan_workspace finish_placed
plan_workspace-succeeds requests valid h =
    let ordered = sort_by request_before requests in
    let same = total-sort_by room request_before requests in
    let requests_ok =
      sort_by-All IsValidRequest request_before requests
        (validate_requests-ok requests [] valid).0 in
    let (out, placed, bounded, below) =
      place_all-fits ordered [] 0 requests_ok (record { bounded = tt; aligned = tt; apart = tt }) tt
        (omega (arith, same)) in
    let (plan, finished) =
      finish_plan-fits out (0 + total room ordered) bounded below (omega (arith, same)) in
    let result : plan_workspace requests ≡ some (ok plan) =
      rw (valid, plan_workspace, placed, finish_placed) (ap some finished) in
    (plan, result, Planned-IsPlanFor requests plan (plan_workspace-Planned requests) result)
