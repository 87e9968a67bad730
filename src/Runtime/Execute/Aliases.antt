-- ===== src/Runtime/Execute/Aliases.antt =====
-- lib/Runtime/Executable.cpp, `execute_variant`: what the checks for overlapping ranges say.
use deep_forge.Base.{
  ℕ, ◌+◌, ◌%◌, ◌≤◌, ◌<◌, ◌≡◌, ◌⊎◌, inl, inr, Bool, false, ◌&&◌, ◌||◌, List, [], ◌∷◌, All, Pairwise,
  Bool-cases, Option-cases, ◌==◌, nat_eq, eq_of_==, eq_of_!=, checked_add, checked_add-eq-some,
  arith,
}
use deep_forge.Import.Status.{ok, >>-eq-ok, reject-eq-ok}
use deep_forge.Metadata.{read, access_eq, storage_policy_eq}
use deep_forge.Workspace.{WorkspacePlan}
use deep_forge.Runtime.Execute.{
  Interval, overlaps, writes, check_alias, check_aliases, check_workspace_alias, workspace_interval,
  check_workspace,
}

-- No byte is in both, or neither argument is written.
abbrev pub Apart : Interval → Interval → Type 0
Apart i j = ((i.end ≤ j.begin) ⊎ (j.end ≤ i.begin)) ⊎ ((i.access ≡ read) × (j.access ≡ read))

-- The workspace, if any is needed: not null, aligned, and apart from all the arguments.
abbrev pub IsWorkspace : WorkspacePlan → ℕ → List Interval → Type 0
IsWorkspace plan p is =
    (plan.size_bytes ≡ 0)
    ⊎ ((0 < p)
        × (p % plan.alignment ≡ 0)
        × All (λ i. (i.end ≤ p) ⊎ (p + plan.size_bytes ≤ i.begin)) is)

or-eq-false : (a b : Bool) → (a || b) ≡ false → (a ≡ false) × (b ≡ false)
or-eq-false a b h = (ground arith, ground arith)

check_alias-Apart :
    (i : Interval) (is : List Interval) → check_alias i is ≡ ok tt → All (Apart i) is
unfolding check_alias overlaps writes
check_alias-Apart i [] h = tt
check_alias-Apart i (j ∷ is) h =
    let (accepted, later) =
      reject-eq-ok (overlaps i j && (writes i.access || writes j.access)) _ (check_alias i is) h in
    elim (Bool-cases (overlaps i j)) [
      | inl meets ↦
          let (reads, reads') = or-eq-false (writes i.access) (writes j.access) (ground arith) in
          (
            inr (eq_of_!= i.access read reads, eq_of_!= j.access read reads'),
            check_alias-Apart i is later,
          )
      | inr apart ↦ (inl (ground arith), check_alias-Apart i is later)
    ]

pub check_aliases-Apart : (is : List Interval) → check_aliases is ≡ ok tt → Pairwise Apart is
unfolding check_aliases
check_aliases-Apart [] h = tt
check_aliases-Apart (i ∷ is) h =
    let (first, later) = >>-eq-ok (check_alias i is) (check_aliases is) h in
    (check_alias-Apart i is first, check_aliases-Apart is later)

check_workspace_alias-All :
    (w : Interval) (is : List Interval)
    → check_workspace_alias w is ≡ ok tt
    → All (λ i. (i.end ≤ w.begin) ⊎ (w.end ≤ i.begin)) is
unfolding check_workspace_alias overlaps
check_workspace_alias-All w [] h = tt
check_workspace_alias-All w (i ∷ is) h =
    let (accepted, later) = reject-eq-ok (overlaps i w) _ (check_workspace_alias w is) h in
    (ground arith, check_workspace_alias-All w is later)

pub check_workspace-IsWorkspace :
    (plan : WorkspacePlan) (p : ℕ) (is : List Interval)
    → check_workspace plan p is ≡ ok tt
    → IsWorkspace plan p is
unfolding check_workspace
check_workspace-IsWorkspace plan p is h = elim (Bool-cases (plan.size_bytes == 0)) [
  | inl none_needed ↦ inl (eq_of_== plan.size_bytes 0 none_needed)
  | inr needed ↦ elim (Option-cases (checked_add p plan.size_bytes)) [
    | inl nothing ↦ absurd (ground arith)
    | inr (end, found) ↦
        let exact = checked_add-eq-some p plan.size_bytes found in
        inr (
          ground arith,
          ground arith,
          rw (← exact) (check_workspace_alias-All (workspace_interval p end) is (ground arith)),
        )
  ]
]
