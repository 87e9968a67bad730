-- ===== src/Examples/Accepted.antt =====
-- The call of Examples.Running goes through.
use deep_forge.Base.{
  ℕ, ◌≡◌, refl, inl, inr, true, Option, none, some, Text, List, [], ◌∷◌, All₂, Pairwise, arith,
  is_power_of_two,
}
use deep_forge.Import.Status.{ok}
use deep_forge.Runtime.Dispatch.{CpuVariant, avx2, cpu_supports_variant}
use deep_forge.Runtime.Execute.{Interval}
use deep_forge.Runtime.Execute.Calls.{StridedMemRef, Call, call_of, perform, execute_variant}
use deep_forge.Runtime.Execute.Intervals.{IsAddressed}
use deep_forge.Runtime.Execute.Aliases.{Apart}
use deep_forge.Runtime.Execute.Acceptance.{ranges, HasWorkspace, execute_variant-perform}
use deep_forge.Examples.Running.{
  both_resolved, features, graph, smaller, executable, arguments, memory, pack,
}

abbrev pointers : List ℕ
pointers = 4096 ∷ 4128 ∷ []

abbrev used : List Interval
used = ranges graph.arguments (smaller ∷ smaller ∷ []) pointers

pointers-IsAddressed : All₂ (IsAddressed pack) graph.arguments pointers
pointers-IsAddressed = (
  record { found = refl; nonnull = omega arith; aligned = omega arith },
  (record { found = refl; nonnull = omega arith; aligned = omega arith }, tt),
)

used-Apart : Pairwise Apart used
used-Apart = ((inl (inl (omega arith)), tt), (tt, tt))

workspace_given : HasWorkspace executable.workspace 8192 used
unfolding is_power_of_two
workspace_given =
    inr (refl, omega arith, omega arith, omega arith, (inl (omega arith), (inl (omega arith), tt)))

silent : CpuVariant → List StridedMemRef → Option Text
silent variant descriptors = none

avx2_supported : cpu_supports_variant features avx2 ≡ true
unfolding cpu_supports_variant
avx2_supported = refl

execute_variant-perform_example :
    (call : Call) × (call_of executable avx2 (smaller ∷ smaller ∷ []) pointers 8192 ≡ ok call)
    × (execute_variant silent features memory (some executable) avx2 arguments
        ≡ perform silent call)
execute_variant-perform_example =
    execute_variant-perform silent features memory executable avx2 arguments
      (smaller ∷ smaller ∷ []) pointers refl avx2_supported (λ generic. omega arith) both_resolved
      pointers-IsAddressed (refl, (refl, tt)) (omega arith, (omega arith, tt)) used-Apart
      workspace_given
