-- ===== src/Workspace.antt =====
-- include/DeepForge/Compiler/Bufferization.h and lib/Transforms/WorkspacePlanner.cpp: the plan that
-- places temporary buffers in one workspace.
-- A loop that the source writes as `while (true)` takes fuel; `none` means that the fuel ran out.
pub mod Scanning
pub mod Search
pub mod Invariant
pub mod Plan
pub mod Completeness
use deep_forge.Base.{
  ℕ, zero, suc, ◌+◌, ◌-◌, max, Bool, true, false, not, ◌&&◌, ◌||◌, Option, none, some, List, [],
  ◌∷◌, ◌++◌, Text, text, text_ltb, length, is_empty, if◌then◌else◌, ltb, ◌==◌, ◌!=◌, nat_eq,
  list_eq, contains, u64_max, i64_max, checked_add, is_power_of_two, align_down, sort_by,
}
use deep_forge.Import.Status.{
  Result, Status, Error, ok, err, ◌>>=◌, ◌>>◌, reject, fail, or_fail, invalid_argument,
  invalid_value, dimension_overflow,
}

abbrev pub workspace_alignment : ℕ
workspace_alignment = 64

pub record WorkspaceRequest : Type 0 where
  pub name : Text
  pub size_bytes : ℕ
  pub alignment : ℕ
  pub live_start : ℕ
  pub live_end : ℕ

pub record WorkspaceAllocation : Type 0 where
  pub name : Text
  pub offset : ℕ
  pub size_bytes : ℕ
  pub alignment : ℕ
  pub live_start : ℕ
  pub live_end : ℕ

pub record WorkspacePlan : Type 0 where
  pub size_bytes : ℕ
  pub alignment : ℕ
  pub allocations : List WorkspaceAllocation

unfoldable pub checked_align_up : ℕ → ℕ → Option ℕ
checked_align_up value alignment = elim (checked_add value (alignment - 1)) [
  | none ↦ none
  | some with_padding ↦ some (align_down with_padding alignment)
]

unfoldable pub lifetimes_overlap : WorkspaceAllocation → WorkspaceRequest → Bool
lifetimes_overlap placed request =
    not (ltb placed.live_end request.live_start || ltb request.live_end placed.live_start)

unfoldable pub ranges_overlap : ℕ → ℕ → ℕ → ℕ → Bool
ranges_overlap lhs_begin lhs_end rhs_begin rhs_end = ltb lhs_begin rhs_end && ltb rhs_begin lhs_end

-- One round of the loop that validates the requests; `names` are those seen before.
validate_request : WorkspaceRequest → List Text → Status
validate_request r names = do
  reject (is_empty r.name)
      (fail invalid_argument (text "workspace.request") (text "allocation name must not be empty"))
  reject (contains r.name names)
      (fail invalid_value (text "workspace.request") (text "allocation names must be unique"))
  reject (r.size_bytes == 0)
      (fail invalid_argument r.name (text "allocation size must be positive"))
  reject (not (is_power_of_two r.alignment) || ltb workspace_alignment r.alignment)
      (fail invalid_argument r.name (text "alignment must be a power of two no greater than 64"))
  reject (ltb r.live_end r.live_start)
      (fail invalid_argument r.name (text "lifetime start must not exceed lifetime end"))
  ok tt

unfoldable pub validate_requests : List WorkspaceRequest → List Text → Status
unfolding validate_request
validate_requests [] names = ok tt
validate_requests (r ∷ rs) names =
    let rest = validate_requests rs (r.name ∷ names) in validate_request r names >> rest

-- the order by which the requests are placed
abbrev pub request_before : WorkspaceRequest → WorkspaceRequest → Bool
request_before lhs rhs =
    if lhs.live_start != rhs.live_start
    then ltb lhs.live_start rhs.live_start
    else if lhs.live_end != rhs.live_end
    then ltb lhs.live_end rhs.live_end
    else text_ltb lhs.name rhs.name

-- The state of the scan over the placed allocations: `conflict` and `next_candidate`.
pub record Scan : Type 0 where
  pub conflict : Bool
  pub next_candidate : ℕ

abbrev overflow : Text → Text → Error
overflow = fail dimension_overflow

scan_step : WorkspaceRequest → ℕ → ℕ → WorkspaceAllocation → Scan → Result Scan
scan_step request candidate candidate_end placed s =
    if not (lifetimes_overlap placed request)
    then ok s
    else elim (checked_add placed.offset placed.size_bytes) [
      | none ↦ err (overflow placed.name (text "workspace allocation range overflows uint64"))
      | some placed_end ↦
          if ranges_overlap candidate candidate_end placed.offset placed_end
          then ok (record { conflict = true; next_candidate = max s.next_candidate placed_end })
          else ok s
    ]

unfoldable pub scan : WorkspaceRequest → ℕ → ℕ → List WorkspaceAllocation → Scan → Result Scan
unfolding scan_step
scan request candidate candidate_end [] s = ok s
scan request candidate candidate_end (placed ∷ rest) s =
    scan_step request candidate candidate_end placed s >>= λ s'.
    scan request candidate candidate_end rest s'

-- The body of the `while`: the aligned candidate with what the scan says of it.
unfoldable pub try_candidate : WorkspaceRequest → List WorkspaceAllocation → ℕ → Result (ℕ × Scan)
unfolding scan
try_candidate request placed candidate = do
  aligned ←
      or_fail (checked_align_up candidate request.alignment)
        (overflow request.name (text "workspace offset alignment overflows uint64"))
  candidate_end ←
      or_fail (checked_add aligned request.size_bytes)
        (overflow request.name (text "workspace allocation range overflows uint64"))
  s ←
      scan request aligned candidate_end placed
        (record { conflict = false; next_candidate = aligned })
  ok (aligned, s)

unfoldable pub find_offset : ℕ → WorkspaceRequest → List WorkspaceAllocation → ℕ → Option (Result ℕ)
find_offset zero request placed candidate = none
find_offset (suc fuel) request placed candidate =
    let again = λ (next : ℕ). find_offset fuel request placed next in
    elim (try_candidate request placed candidate) [
      | err e ↦ some (err e)
      | ok (aligned, s) ↦ elim s.conflict [
        | true ↦ again s.next_candidate
        | false ↦ some (ok aligned)
      ]
    ]

abbrev pub allocate : WorkspaceRequest → ℕ → WorkspaceAllocation
allocate r offset = record {
  name = r.name;
  offset = offset;
  size_bytes = r.size_bytes;
  alignment = r.alignment;
  live_start = r.live_start;
  live_end = r.live_end;
}

-- The loop over the ordered requests. A search ends within one round more than there are
-- allocations placed, so that is its fuel.
unfoldable pub place_all :
    List WorkspaceRequest → List WorkspaceAllocation → Option (Result (List WorkspaceAllocation))
place_all [] placed = some (ok placed)
place_all (r ∷ rs) placed =
    let rest = λ (offset : ℕ). place_all rs (placed ++ allocate r offset ∷ []) in
    elim (find_offset (suc (length placed)) r placed 0) [
      | none ↦ none
      | some (err e) ↦ some (err e)
      | some (ok offset) ↦ rest offset
    ]

unfoldable pub high_watermark : List WorkspaceAllocation → ℕ → Result ℕ
high_watermark [] high = ok high
high_watermark (a ∷ rest) high =
    or_fail (checked_add a.offset a.size_bytes)
      (overflow a.name (text "workspace allocation range overflows uint64"))
    >>= λ end. high_watermark rest (max high end)

-- The end of `plan_workspace`: the size of the workspace.
unfoldable pub finish_plan : List WorkspaceAllocation → Result WorkspacePlan
finish_plan allocations = do
  high ← high_watermark allocations 0
  size ←
      if high == 0
      then ok 0
      else or_fail (checked_align_up high workspace_alignment)
          (overflow (text "workspace") (text "total workspace size overflows uint64"))
  reject (ltb i64_max size)
      (overflow (text "workspace") (text "total workspace size does not fit int64"))
  ok (record { size_bytes = size; alignment = workspace_alignment; allocations = allocations })

finish_placed : Option (Result (List WorkspaceAllocation)) → Option (Result WorkspacePlan)
finish_placed none = none
finish_placed (some (err e)) = some (err e)
finish_placed (some (ok allocations)) = some (finish_plan allocations)

unfoldable pub plan_workspace : List WorkspaceRequest → Option (Result WorkspacePlan)
unfolding finish_placed
plan_workspace requests = elim (validate_requests requests []) [
  | err e ↦ some (err e)
  | ok u ↦ finish_placed (place_all (sort_by request_before requests) [])
]
