-- ===== src/Workspace/Search.antt =====
-- The search for an offset in lib/Transforms/WorkspacePlanner.cpp: it ends, and finds the lowest
-- offset that is free.
use native.Mathlib.Decide.{dec_le}
use deep_forge.Base.{
  ℕ, zero, suc, ◌+◌, ◌%◌, ◌≤◌, ◌<◌, ◌≡◌, ◌≢◌, refl, true, false, none, some, List, All, Bool-cases,
  Option-cases, inl, inr, u64_max, checked_add-eq, arith,
}
use deep_forge.Import.Status.{Result-cases, ok}
use deep_forge.Workspace.{
  WorkspaceRequest, WorkspaceAllocation, Scan, checked_align_up, try_candidate, find_offset,
}
use deep_forge.Workspace.Scanning.{
  IsBounded, IsAlignment, IsFree, checked_align_up-eq-some, no_multiple_between, marks, scan-marks,
  marks-IsFree, next-le-marks, marks-le, skipped_not-IsFree, count_above, count_above_mono,
  count_above-marks,
}

abbrev pub start : ℕ → Scan
start c = record { conflict = false; next_candidate = c }

try_candidate-eq-ok :
    (r : WorkspaceRequest) (ps : List WorkspaceAllocation) (c : ℕ) {x : ℕ} {s : Scan}
    → c ≤ u64_max
    → IsAlignment r.alignment
    → All IsBounded ps
    → try_candidate r ps c ≡ ok (x, s)
    → (checked_align_up c r.alignment ≡ some x)
      × (x + r.size_bytes ≤ u64_max)
      × (s ≡ marks r x ps (start x))
unfolding try_candidate
try_candidate-eq-ok r ps c hc ha hp h = elim (Option-cases (checked_align_up c r.alignment)) [
  | inl nothing ↦ absurd (ground arith)
  | inr (a, e) ↦
      let up = checked_align_up-eq-some c r.alignment hc ha e in
      ground (arith, checked_add-eq a r.size_bytes, scan-marks r a ps (start a) hp)
]

-- What a round of the search knows when it goes on: the next candidate is larger, fewer
-- allocations end above it, and no aligned offset in between was free.
pub next_round :
    (r : WorkspaceRequest) (ps : List WorkspaceAllocation) (c x : ℕ) (s : Scan)
    → c ≤ u64_max
    → IsAlignment r.alignment
    → All IsBounded ps
    → try_candidate r ps c ≡ ok (x, s)
    → s.conflict ≡ true
    → (s.next_candidate ≤ u64_max)
      × (c ≤ s.next_candidate)
      × (count_above s.next_candidate ps < count_above c ps)
next_round r ps c x s hc ha hp h k =
    let (aligned, fits, same) = try_candidate-eq-ok r ps c hc ha hp h in
    let up = checked_align_up-eq-some c r.alignment hc ha aligned in
    let hit : (marks r x ps (start x)).conflict ≡ true = rw (← same) k in
    let le = marks-le r x ps (start x) hp up.3 in
    let grows = next-le-marks r x ps (start x) in
    let falls = count_above-marks r x ps (start x) (omega arith) refl hit in
    rw same (omega (arith, le, grows, falls, up, count_above_mono c x ps up.0))

-- The search ends: one round more than there are allocations that end above the candidate.
pub find_offset-total :
    (fuel : ℕ) (r : WorkspaceRequest) (ps : List WorkspaceAllocation) (c : ℕ)
    → c ≤ u64_max
    → IsAlignment r.alignment
    → All IsBounded ps
    → count_above c ps < fuel
    → find_offset fuel r ps c ≢ none
unfolding find_offset
find_offset-total zero r ps c hc ha hp h = absurd (omega arith)
find_offset-total (suc fuel) r ps c hc ha hp h = elim (Result-cases (try_candidate r ps c)) [
  | inr (e, failed) ↦ rw (failed, find_offset) (λ n. cc)
  | inl (out, tried) ↦ elim (Bool-cases out.1.conflict) [
    | inl hit ↦
        let next = next_round r ps c out.0 out.1 hc ha hp tried hit in
        rw (tried, hit, find_offset)
          (find_offset-total fuel r ps out.1.next_candidate next.0 ha hp (omega (arith, next)))
    | inr clear ↦ rw (tried, clear, find_offset) (λ n. cc)
  ]
]

-- What the search returns: a free, aligned offset whose range ends within 64 bits, and the lowest
-- such from the candidate on.
pub record IsFirstFit (r : WorkspaceRequest) (ps : List WorkspaceAllocation) (c x : ℕ)
    : Type 0 where
  pub from : c ≤ x
  pub aligned : x % r.alignment ≡ 0
  pub fits : x + r.size_bytes ≤ u64_max
  pub free : IsFree r x ps
  pub lowest : (c' : ℕ) → c ≤ c' → c' < x → c' % r.alignment ≡ 0 → ¬ IsFree r c' ps

last_round :
    (r : WorkspaceRequest) (ps : List WorkspaceAllocation) (c x : ℕ) (s : Scan)
    → c ≤ u64_max
    → IsAlignment r.alignment
    → All IsBounded ps
    → try_candidate r ps c ≡ ok (x, s)
    → s.conflict ≡ false
    → IsFirstFit r ps c x
last_round r ps c x s hc ha hp h k =
    let (aligned, fits, same) = try_candidate-eq-ok r ps c hc ha hp h in
    let up = checked_align_up-eq-some c r.alignment hc ha aligned in
    record {
      from = up.0;
      aligned = up.2;
      fits = fits;
      free = marks-IsFree r x ps (start x) (rw (← same) k);
      lowest = λ c' lo hi m. absurd (no_multiple_between c r.alignment x c' ha up.1 up.2 lo hi m);
    }

-- A lower offset would have been met before the scan moved on.
skipped_round :
    (r : WorkspaceRequest) (ps : List WorkspaceAllocation) (c x c' : ℕ) (s : Scan)
    → c ≤ u64_max
    → IsAlignment r.alignment
    → All IsBounded ps
    → try_candidate r ps c ≡ ok (x, s)
    → c ≤ c'
    → c' < s.next_candidate
    → c' % r.alignment ≡ 0
    → ¬ IsFree r c' ps
skipped_round r ps c x c' s hc ha hp h lo hi m free =
    let (aligned, fits, same) = try_candidate-eq-ok r ps c hc ha hp h in
    let up = checked_align_up-eq-some c r.alignment hc ha aligned in
    elim (dec_le x c') [
      | yes above ↦ skipped_not-IsFree r x ps (start x) c' above above (rw (← same) hi) free
      | no below ↦ no_multiple_between c r.alignment x c' ha up.1 up.2 lo (omega arith) m
    ]

pub find_offset-IsFirstFit :
    (fuel : ℕ) (r : WorkspaceRequest) (ps : List WorkspaceAllocation) (c : ℕ) {x : ℕ}
    → c ≤ u64_max
    → IsAlignment r.alignment
    → All IsBounded ps
    → find_offset fuel r ps c ≡ some (ok x)
    → IsFirstFit r ps c x
unfolding find_offset
find_offset-IsFirstFit zero r ps c hc ha hp h = cc
find_offset-IsFirstFit (suc fuel) r ps c {x} hc ha hp h =
    elim (Result-cases (try_candidate r ps c)) [
      | inr (e, failed) ↦ cc (rw (failed, find_offset) at h)
      | inl (out, tried) ↦ elim (Bool-cases out.1.conflict) [
        | inl hit ↦
            let next = next_round r ps c out.0 out.1 hc ha hp tried hit in
            let later =
              find_offset-IsFirstFit fuel r ps out.1.next_candidate {x = x} next.0 ha hp
                (rw (tried, hit, find_offset) at h) in
            record {
              from = omega (arith, next, later.from);
              aligned = later.aligned;
              fits = later.fits;
              free = later.free;
              lowest = λ c' lo hi m. elim (dec_le out.1.next_candidate c') [
                | yes above ↦ later.lowest c' above hi m
                | no below ↦ skipped_round r ps c out.0 c' out.1 hc ha hp tried lo (omega arith) m
              ];
            }
        | inr clear ↦
            let same : out.0 ≡ x = cc (rw (tried, clear, find_offset) at h) in
            rw (← same) (last_round r ps c out.0 out.1 hc ha hp tried clear)
      ]
    ]
