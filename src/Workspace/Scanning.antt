-- ===== src/Workspace/Scanning.antt =====
-- The scan over the placed allocations in lib/Transforms/WorkspacePlanner.cpp: what it says of an
-- offset, and how far it moves on.
use deep_forge.Base.{
  not, ◌||◌, ℕ, suc, ◌+◌, ◌-◌, ◌%◌, ◌≤◌, ◌<◌, max, ◌≡◌, ◌≢◌, refl, Bool, true, false, ◌&&◌, some,
  List, [], ◌∷◌, All, length, if◌then◌else◌, ltb, Bool-cases, inl, inr, u64_max, checked_add-eq,
  is_power_of_two, is_power_of_two-small, align_down-eq, arith,
}
use deep_forge.Import.Status.{ok}
use deep_forge.Workspace.{
  WorkspaceRequest, WorkspaceAllocation, Scan, checked_align_up, lifetimes_overlap, ranges_overlap,
  scan_step, scan,
}

-- The range of an allocation ends within 64 bits.
abbrev pub IsBounded : WorkspaceAllocation → Type 0
IsBounded p = p.offset + p.size_bytes ≤ u64_max

-- What `validate_request` leaves of a request's alignment.
abbrev pub IsAlignment : ℕ → Type 0
IsAlignment a = (is_power_of_two a ≡ true) × (a ≤ 64)

-- The request at this offset would share a byte with an allocation that is live together with it.
abbrev pub conflicts : WorkspaceRequest → ℕ → WorkspaceAllocation → Bool
conflicts r c p =
    not (ltb p.live_end r.live_start || ltb r.live_end p.live_start)
    && (ltb c (p.offset + p.size_bytes) && ltb p.offset (c + r.size_bytes))

abbrev pub IsFree : WorkspaceRequest → ℕ → List WorkspaceAllocation → Type 0
IsFree r c = All (λ p. conflicts r c p ≡ false)

pub checked_align_up-eq-some :
    (v a : ℕ) {x : ℕ}
    → v ≤ u64_max
    → IsAlignment a
    → checked_align_up v a ≡ some x
    → (v ≤ x) × (x < v + a) × (x % a ≡ 0) × (x ≤ u64_max)
unfolding checked_align_up
checked_align_up-eq-some v a {x} hv ha h = ground (
  arith,
  checked_add-eq v (a - 1) hv,
  is_power_of_two-small a ha.0 ha.1,
  align_down-eq (v + (a - 1)) a ha.0 ha.1,
)

-- No multiple of the alignment lies between a value and the value aligned.
pub no_multiple_between :
    (v a x c : ℕ) → IsAlignment a → x < v + a → x % a ≡ 0 → v ≤ c → c < x → c % a ≢ 0
no_multiple_between v a x c ha h m lo hi z = ground (arith, is_power_of_two-small a ha.0 ha.1)

-- One allocation's part in the scan, with no overflow in sight.
unfoldable pub mark : WorkspaceRequest → ℕ → WorkspaceAllocation → Scan → Scan
mark r c p s =
    if conflicts r c p
    then record { conflict = true; next_candidate = max s.next_candidate (p.offset + p.size_bytes) }
    else s

unfoldable pub marks : WorkspaceRequest → ℕ → List WorkspaceAllocation → Scan → Scan
marks r c [] s = s
marks r c (p ∷ ps) s = marks r c ps (mark r c p s)

scan_step-mark :
    (r : WorkspaceRequest) (c : ℕ) (p : WorkspaceAllocation) (s : Scan)
    → IsBounded p
    → scan_step r c (c + r.size_bytes) p s ≡ ok (mark r c p s)
unfolding scan_step mark lifetimes_overlap ranges_overlap
scan_step-mark r c p s h = ground (arith, checked_add-eq p.offset p.size_bytes)

pub scan-marks :
    (r : WorkspaceRequest) (c : ℕ) (ps : List WorkspaceAllocation) (s : Scan)
    → All IsBounded ps
    → scan r c (c + r.size_bytes) ps s ≡ ok (marks r c ps s)
unfolding scan marks
scan-marks r c [] s h = refl
scan-marks r c (p ∷ ps) s h = rw (scan_step-mark r c p s h.0) (scan-marks r c ps (mark r c p s) h.1)

module _ (r : WorkspaceRequest) (c : ℕ) where
  marks-conflict :
      (ps : List WorkspaceAllocation) (s : Scan)
      → s.conflict ≡ true
      → (marks r c ps s).conflict ≡ true
  unfolding marks mark
  marks-conflict [] s h = h
  marks-conflict (p ∷ ps) s h = marks-conflict ps (mark r c p s) (ground arith)

  pub marks-IsFree :
      (ps : List WorkspaceAllocation) (s : Scan) → (marks r c ps s).conflict ≡ false → IsFree r c ps
  unfolding marks mark
  marks-IsFree [] s h = tt
  marks-IsFree (p ∷ ps) s h = elim (Bool-cases (conflicts r c p)) [
    | inl hit ↦ absurd (ground (arith, marks-conflict ps (mark r c p s)))
    | inr miss ↦ (miss, marks-IsFree ps (mark r c p s) h)
  ]

  pub next-le-marks :
      (ps : List WorkspaceAllocation) (s : Scan)
      → s.next_candidate ≤ (marks r c ps s).next_candidate
  unfolding marks mark
  next-le-marks [] s = omega arith
  next-le-marks (p ∷ ps) s = ground (arith, next-le-marks ps (mark r c p s))

  pub marks-le :
      (ps : List WorkspaceAllocation) (s : Scan)
      → All IsBounded ps
      → s.next_candidate ≤ u64_max
      → (marks r c ps s).next_candidate ≤ u64_max
  unfolding marks mark
  marks-le [] s h k = k
  marks-le (p ∷ ps) s h k = marks-le ps (mark r c p s) h.1 (ground arith)

  -- Every offset that the scan steps over is taken.
  pub skipped_not-IsFree :
      (ps : List WorkspaceAllocation) (s : Scan) (c' : ℕ)
      → c ≤ c'
      → s.next_candidate ≤ c'
      → c' < (marks r c ps s).next_candidate
      → ¬ IsFree r c' ps
  unfolding marks mark
  skipped_not-IsFree [] s c' h k lt free = omega arith
  skipped_not-IsFree (p ∷ ps) s c' h k lt free =
      ground (arith, skipped_not-IsFree ps (mark r c p s) c')

-- The allocations that end above an offset: the measure of the search.
unfoldable pub count_above : ℕ → List WorkspaceAllocation → ℕ
count_above c [] = 0
count_above c (p ∷ ps) =
    let rest = count_above c ps in if ltb c (p.offset + p.size_bytes) then suc rest else rest

pub count_above_mono :
    (c d : ℕ) (ps : List WorkspaceAllocation) → c ≤ d → count_above d ps ≤ count_above c ps
unfolding count_above
count_above_mono c d [] h = omega arith
count_above_mono c d (p ∷ ps) h = ground (arith, count_above_mono c d ps h)

pub count_above-le-length : (c : ℕ) (ps : List WorkspaceAllocation) → count_above c ps ≤ length ps
unfolding count_above
count_above-le-length c [] = omega arith
count_above-le-length c (p ∷ ps) = ground (arith, count_above-le-length c ps)

-- A scan that meets a conflict moves past an allocation for good.
pub count_above-marks :
    (r : WorkspaceRequest) (c : ℕ) (ps : List WorkspaceAllocation) (s : Scan)
    → c ≤ s.next_candidate
    → s.conflict ≡ false
    → (marks r c ps s).conflict ≡ true
    → count_above (marks r c ps s).next_candidate ps < count_above c ps
unfolding count_above marks mark
count_above-marks r c [] s le h k = cc
count_above-marks r c (p ∷ ps) s le h k = ground (
  arith,
  next-le-marks r c ps (mark r c p s),
  count_above_mono c (marks r c ps (mark r c p s)).next_candidate ps,
  count_above-marks r c ps s,
)
