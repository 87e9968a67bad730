-- ===== src/Artifact/RoundTrip/Workspace.antt =====
-- lib/Compiler/Artifact.cpp: the workspace, written and read back.
use mathlib.Core.List.{append_assoc, append-nil}
use deep_forge.Base.{
  ℕ, ◌*◌, ◌/◌, ◌≤◌, ◌≡◌, refl, sym, ap, ◌∙◌, List, [], ◌∷◌, ◌++◌, length, length-append, All,
  le→ltb, u32_max, u64_max, arith,
}
use deep_forge.Import.Status.{ok}
use deep_forge.Workspace.{WorkspaceAllocation, WorkspacePlan}
use deep_forge.Artifact.Reader.{done, remaining}
use deep_forge.Artifact.Serialize.{append_allocation, append_each_allocation, append_workspace}
use deep_forge.Artifact.Parse.Tables.{read_allocation, parse_each_allocation, parse_workspace}
use deep_forge.Artifact.RoundTrip.Words.{
  u32_bytes, append_u32-eq, read_u32-eq, u64_bytes, append_u64-eq, read_u64-eq, string_bytes,
  append_string-eq, read_string-eq, IsShort, lengths,
}

pub allocation_bytes : WorkspaceAllocation → List ℕ
allocation_bytes a =
    string_bytes a.name
    ++ (u64_bytes a.offset
        ++ (u64_bytes a.size_bytes
            ++ (u64_bytes a.alignment ++ (u64_bytes a.live_start ++ u64_bytes a.live_end))))

-- What the reader needs of an allocation: the range of uint64_t, and a short name.
pub record IsStorableAllocation (a : WorkspaceAllocation) : Type 0 where
  pub name : IsShort a.name
  pub offset : a.offset ≤ u64_max
  pub size_bytes : a.size_bytes ≤ u64_max
  pub alignment : a.alignment ≤ u64_max
  pub live_start : a.live_start ≤ u64_max
  pub live_end : a.live_end ≤ u64_max

append_allocation-eq :
    (out : List ℕ) (a : WorkspaceAllocation)
    → IsStorableAllocation a
    → append_allocation out a ≡ ok (out ++ allocation_bytes a)
unfolding append_allocation allocation_bytes
append_allocation-eq out a h =
    rw (append_string-eq out a.name (omega (arith, h.name))) (simp (append_u64-eq, append_assoc))

read_allocation-eq :
    (a : WorkspaceAllocation)
    → IsStorableAllocation a
    → (left : List ℕ) → read_allocation (allocation_bytes a ++ left) ≡ done a left
unfolding read_allocation allocation_bytes
read_allocation-eq a h left = simp append_assoc (
    rw (
      read_string-eq a.name h.name,
      read_u64-eq a.offset (omega (arith, h.offset)),
      read_u64-eq a.size_bytes (omega (arith, h.size_bytes)),
      read_u64-eq a.alignment (omega (arith, h.alignment)),
      read_u64-eq a.live_start (omega (arith, h.live_start)),
      read_u64-eq a.live_end (omega (arith, h.live_end)),
    ))

length-allocation_bytes : (a : WorkspaceAllocation) → 44 ≤ length (allocation_bytes a)
unfolding allocation_bytes
length-allocation_bytes a = simp lengths (omega arith)

allocations_bytes : List WorkspaceAllocation → List ℕ
allocations_bytes [] = []
allocations_bytes (a ∷ rest) = allocation_bytes a ++ allocations_bytes rest

-- The reader's bound on the count: no allocation takes less than 44 bytes.
length-allocations_bytes :
    (as' : List WorkspaceAllocation) → 44 * length as' ≤ length (allocations_bytes as')
unfolding allocations_bytes
length-allocations_bytes [] = omega arith
length-allocations_bytes (a ∷ rest) =
    rw (length-append (allocation_bytes a) (allocations_bytes rest))
      (omega (arith, length-allocation_bytes a, length-allocations_bytes rest))

append_each_allocation-eq :
    (out : List ℕ) (as' : List WorkspaceAllocation)
    → All IsStorableAllocation as'
    → append_each_allocation out as' ≡ ok (out ++ allocations_bytes as')
unfolding append_each_allocation allocations_bytes
append_each_allocation-eq out [] h = ap ok (sym (append-nil out))
append_each_allocation-eq out (a ∷ rest) h = rw (append_allocation-eq out a h.0) (
    append_each_allocation-eq (out ++ allocation_bytes a) rest h.1
    ∙ ap ok (append_assoc out (allocation_bytes a) (allocations_bytes rest)))

parse_each_allocation-eq :
    (as' : List WorkspaceAllocation)
    → All IsStorableAllocation as'
    → (left : List ℕ)
    → parse_each_allocation (length as') (allocations_bytes as' ++ left) ≡ done as' left
unfolding parse_each_allocation allocations_bytes
parse_each_allocation-eq [] h left = refl
parse_each_allocation-eq (a ∷ rest) h left = rw (
  append_assoc (allocation_bytes a) (allocations_bytes rest) left,
  read_allocation-eq a h.0 (allocations_bytes rest ++ left),
  parse_each_allocation-eq rest h.1 left,
)

pub workspace_bytes : WorkspacePlan → List ℕ
workspace_bytes w =
    u64_bytes w.size_bytes
    ++ (u64_bytes w.alignment
        ++ (u32_bytes (length w.allocations) ++ allocations_bytes w.allocations))

pub record IsStorableWorkspace (w : WorkspacePlan) : Type 0 where
  pub size_bytes : w.size_bytes ≤ u64_max
  pub alignment : w.alignment ≤ u64_max
  pub count : length w.allocations ≤ u32_max
  pub each : All IsStorableAllocation w.allocations

pub append_workspace-eq :
    (out : List ℕ) (w : WorkspacePlan)
    → IsStorableWorkspace w
    → append_workspace out w ≡ ok (out ++ workspace_bytes w)
unfolding append_workspace workspace_bytes
append_workspace-eq out w h =
    rw
      (
        le→ltb u32_max (length w.allocations) h.count,
        append_each_allocation-eq _ w.allocations h.each,
      )
      (simp (append_u64-eq, append_u32-eq, append_assoc))

pub parse_workspace-eq :
    (w : WorkspacePlan)
    → IsStorableWorkspace w
    → (left : List ℕ) → parse_workspace (workspace_bytes w ++ left) ≡ done w left
unfolding parse_workspace workspace_bytes remaining
parse_workspace-eq w h left =
    let n = length w.allocations in
    let behind = allocations_bytes w.allocations ++ left in
    let fits : n ≤ length behind / 44 = omega (
      arith,
      length-append (allocations_bytes w.allocations) left,
      length-allocations_bytes w.allocations,
    ) in
    simp append_assoc (
      rw (
        read_u64-eq w.size_bytes (omega (arith, h.size_bytes)),
        read_u64-eq w.alignment (omega (arith, h.alignment)),
        read_u32-eq n (omega (arith, h.count)),
        le→ltb (length behind / 44) n fits,
        parse_each_allocation-eq w.allocations h.each,
      ))
