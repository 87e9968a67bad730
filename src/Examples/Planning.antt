-- ===== src/Examples/Planning.antt =====
-- The planner of lib/Transforms/WorkspacePlanner.cpp on three requests, two of them live together.
use deep_forge.Base.{
  ℕ, ◌+◌, ◌≤◌, ◌<◌, ◌≡◌, ◌≢◌, refl, none, some, List, [], ◌∷◌, Text, text_ltb, sort_by, insert_by,
  checked_add, is_power_of_two, align_down, arith, contains, list_beq, All, total,
}
use deep_forge.Import.Status.{ok}
use deep_forge.Workspace.{
  WorkspaceRequest, WorkspaceAllocation, WorkspacePlan, allocate, plan_workspace, find_offset,
  validate_requests, try_candidate, scan, place_all, finish_plan, high_watermark, checked_align_up,
  lifetimes_overlap, ranges_overlap,
}
use deep_forge.Workspace.Scanning.{IsBounded, IsAlignment, count_above}
use deep_forge.Workspace.Search.{find_offset-total, IsFirstFit, find_offset-IsFirstFit}
use deep_forge.Workspace.Plan.{Planned, plan_workspace-Planned, IsPlanFor}
use deep_forge.Workspace.Completeness.{plan_workspace-succeeds}

abbrev request : Text → ℕ → ℕ → ℕ → ℕ → WorkspaceRequest
request name size alignment live_start live_end = record {
  name = name;
  size_bytes = size;
  alignment = alignment;
  live_start = live_start;
  live_end = live_end;
}

abbrev first : WorkspaceRequest
first = request (65 ∷ []) 100 64 0 2

abbrev second : WorkspaceRequest
second = request (66 ∷ []) 50 32 1 3

abbrev third : WorkspaceRequest
third = request (67 ∷ []) 60 64 3 4

abbrev pub requests : List WorkspaceRequest
requests = third ∷ first ∷ second ∷ []

requests_valid : validate_requests requests [] ≡ ok tt
unfolding validate_requests is_power_of_two contains list_beq
requests_valid = refl

-- `third` takes the bytes that `first` has left.
abbrev two_placed : List WorkspaceAllocation
two_placed = allocate first 0 ∷ allocate second 128 ∷ []

abbrev pub three_plan : WorkspacePlan
three_plan = record {
  size_bytes = 192;
  alignment = 64;
  allocations = allocate first 0 ∷ allocate second 128 ∷ allocate third 0 ∷ [];
}

pub three_planned : plan_workspace requests ≡ some (ok three_plan)
unfolding plan_workspace scan validate_requests is_power_of_two contains list_beq sort_by insert_by
    text_ltb place_all find_offset try_candidate checked_align_up checked_add align_down
    lifetimes_overlap ranges_overlap finish_plan high_watermark
three_planned = refl

plan_workspace-Planned_example : Planned requests (plan_workspace requests)
plan_workspace-Planned_example = plan_workspace-Planned requests

room_enough : total (λ r. r.size_bytes + 63) requests + 63 ≤ 1000
unfolding total
room_enough = omega arith

plan_workspace-succeeds_example :
    (plan : WorkspacePlan) × (plan_workspace requests ≡ some (ok plan)) × IsPlanFor requests plan
plan_workspace-succeeds_example =
    plan_workspace-succeeds requests requests_valid (omega (arith, room_enough))

aligned_64 : IsAlignment 64
unfolding is_power_of_two
aligned_64 = (refl, omega arith)

placed-IsBounded : All IsBounded two_placed
placed-IsBounded = (omega arith, (omega arith, tt))

above_zero : count_above 0 two_placed < 3
unfolding count_above
above_zero = omega arith

find_offset-total_example : find_offset 3 third two_placed 0 ≢ none
find_offset-total_example =
    find_offset-total 3 third two_placed 0 (omega arith) aligned_64 placed-IsBounded above_zero

third_found : find_offset 3 third two_placed 0 ≡ some (ok 0)
unfolding find_offset scan try_candidate checked_align_up checked_add align_down lifetimes_overlap
    ranges_overlap
third_found = refl

find_offset-IsFirstFit_example : IsFirstFit third two_placed 0 0
find_offset-IsFirstFit_example =
    find_offset-IsFirstFit 3 third two_placed 0 (omega arith) aligned_64 placed-IsBounded
      third_found
