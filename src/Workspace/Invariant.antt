-- ===== src/Workspace/Invariant.antt =====
-- The placed allocations of lib/Transforms/WorkspacePlanner.cpp: what holds of them after each
-- request, and that the requests all find a place or fail.
use mathlib.Core.List.{map-append, append_assoc, append-nil}
use deep_forge.Base.{
  ℕ, suc, ◌%◌, ◌≤◌, ◌<◌, ◌≡◌, refl, sym, ap, ◌∙◌, true, false, Option, some, List, [], ◌∷◌, ◌++◌,
  map, All, All-append, Pairwise, Pairwise-snoc, length, is_empty, contains, Distinct, Text, arith,
  Option-cases, inl, inr, ◌==◌, nat_eq, list_eq, eq_of_==, ==-refl, Bool-cases,
}
use deep_forge.Import.Status.{Result, Result-cases, Error, ok, err, >>-eq-ok}
use deep_forge.Workspace.{
  WorkspaceRequest, WorkspaceAllocation, allocate, find_offset, place_all, validate_request,
  validate_requests,
}
use deep_forge.Workspace.Scanning.{IsBounded, IsAlignment, conflicts, count_above-le-length}
use deep_forge.Workspace.Search.{IsFirstFit, find_offset-total, find_offset-IsFirstFit}

-- The request that an allocation answers.
abbrev pub request_of : WorkspaceAllocation → WorkspaceRequest
request_of a = record {
  name = a.name;
  size_bytes = a.size_bytes;
  alignment = a.alignment;
  live_start = a.live_start;
  live_end = a.live_end;
}

-- Two allocations share no byte while both are live.
abbrev pub Apart : WorkspaceAllocation → WorkspaceAllocation → Type 0
Apart a b = conflicts (request_of b) b.offset a ≡ false

abbrev pub IsAligned : WorkspaceAllocation → Type 0
IsAligned a = a.offset % a.alignment ≡ 0

pub record IsPlaced (ps : List WorkspaceAllocation) : Type 0 where
  pub bounded : All IsBounded ps
  pub aligned : All IsAligned ps
  pub apart : Pairwise Apart ps

-- What the first loop leaves of a request.
pub record IsValidRequest (r : WorkspaceRequest) : Type 0 where
  pub named : is_empty r.name ≡ false
  pub sized : 0 < r.size_bytes
  pub alignment : IsAlignment r.alignment
  pub lifetime : r.live_start ≤ r.live_end

validate_request-ok :
    (r : WorkspaceRequest) (names : List Text)
    → validate_request r names ≡ ok tt
    → IsValidRequest r × (contains r.name names ≡ false)
unfolding validate_request
validate_request-ok r names h = ground arith

pub snoc-IsPlaced :
    (r : WorkspaceRequest) (x : ℕ) (ps : List WorkspaceAllocation)
    → IsPlaced ps
    → IsFirstFit r ps 0 x
    → IsPlaced (ps ++ allocate r x ∷ [])
snoc-IsPlaced r x ps v fit = record {
  bounded = All-append IsBounded ps (allocate r x ∷ []) v.bounded (fit.fits, tt);
  aligned = All-append IsAligned ps (allocate r x ∷ []) v.aligned (fit.aligned, tt);
  apart = Pairwise-snoc Apart ps (allocate r x) v.apart fit.free;
}

find_offset-cases :
    (r : WorkspaceRequest) (ps : List WorkspaceAllocation)
    → IsPlaced ps
    → IsAlignment r.alignment
    → (out : Result ℕ) × (find_offset (suc (length ps)) r ps 0 ≡ some out)
find_offset-cases r ps v ha = elim (Option-cases (find_offset (suc (length ps)) r ps 0)) [
  | inr found ↦ found
  | inl nothing ↦ absurd (
      find_offset-total (suc (length ps)) r ps 0 (omega arith) ha v.bounded
        (omega (arith, count_above-le-length 0 ps)) nothing)
]

-- Placing ends, with an error or with every request in its order behind what was placed before.
pub data Placement (rs : List WorkspaceRequest) (ps : List WorkspaceAllocation)
    : Option (Result (List WorkspaceAllocation)) → Type 0 where
  failed : (e : Error) → Placement rs ps (some (err e))
  placed :
      (out : List WorkspaceAllocation)
      → IsPlaced out
      → map request_of out ≡ map request_of ps ++ rs
      → Placement rs ps (some (ok out))

Placement-cons :
    (r : WorkspaceRequest) (x : ℕ) (rs : List WorkspaceRequest) (ps : List WorkspaceAllocation)
    {o : Option (Result (List WorkspaceAllocation))}
    → Placement rs (ps ++ allocate r x ∷ []) o
    → Placement (r ∷ rs) ps o
Placement-cons r x rs ps (failed e) = failed e
Placement-cons r x rs ps (placed out v m) = placed out v (
    m
    ∙ ap (λ l. l ++ rs) (map-append request_of ps (allocate r x ∷ []))
    ∙ append_assoc (map request_of ps) (r ∷ []) rs)

pub place_all-Placement :
    (rs : List WorkspaceRequest) (ps : List WorkspaceAllocation)
    → All IsValidRequest rs
    → IsPlaced ps
    → Placement rs ps (place_all rs ps)
unfolding place_all
place_all-Placement [] ps hr v = placed ps v (sym (append-nil _))
place_all-Placement (r ∷ rs) ps hr v =
    let (out, found) = find_offset-cases r ps v hr.0.alignment in
    elim (Result-cases out) [
      | inr (e, is_err) ↦ rw (found, is_err, place_all) (failed e)
      | inl (x, is_ok) ↦
          let fit =
            find_offset-IsFirstFit (suc (length ps)) r ps 0 {x = x} (omega arith) hr.0.alignment
              v.bounded (found ∙ ap some is_ok) in
          let later =
            place_all-Placement rs (ps ++ allocate r x ∷ []) hr.1 (snoc-IsPlaced r x ps v fit) in
          rw (found, is_ok, place_all) (Placement-cons r x rs ps later)
    ]

validate_requests-cons :
    (r : WorkspaceRequest) (rs : List WorkspaceRequest) (names : List Text)
    → validate_requests (r ∷ rs) names ≡ ok tt
    → (validate_request r names ≡ ok tt) × (validate_requests rs (r.name ∷ names) ≡ ok tt)
unfolding validate_requests
validate_requests-cons r rs names h = >>-eq-ok (validate_request r names) _ h

fresh_names :
    (rs : List WorkspaceRequest) (names : List Text) (n : Text)
    → validate_requests rs names ≡ ok tt
    → contains n names ≡ true
    → contains n (map (λ r. r.name) rs) ≡ false
unfolding contains
fresh_names [] names n h k = refl
fresh_names (r ∷ rs) names n h k =
    let (here, later) = validate_requests-cons r rs names h in
    let (valid, fresh) = validate_request-ok r names here in
    elim (Bool-cases (n == r.name)) [
      | inl same ↦
          let absent : contains n names ≡ false = rw (eq_of_== n r.name same) fresh in
          cc (k, absent)
      | inr other ↦
          rw (other, contains) (fresh_names rs (r.name ∷ names) n later (rw (other, contains) k))
    ]

-- Requests that pass the first loop are valid, and no two have one name.
pub validate_requests-ok :
    (rs : List WorkspaceRequest) (names : List Text)
    → validate_requests rs names ≡ ok tt
    → All IsValidRequest rs × Distinct (map (λ r. r.name) rs)
unfolding contains
validate_requests-ok [] names h = (tt, tt)
validate_requests-ok (r ∷ rs) names h =
    let (here, later) = validate_requests-cons r rs names h in
    let (valid, fresh) = validate_request-ok r names here in
    let rest = validate_requests-ok rs (r.name ∷ names) later in
    (
      (valid, rest.0),
      (fresh_names rs (r.name ∷ names) r.name later (rw (==-refl r.name, contains)), rest.1),
    )
