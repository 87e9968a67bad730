-- ===== src/Runtime/Dispatch/Choice.antt =====
-- The choice of the variant in lib/Runtime/Executable.cpp is safe and the best there is.
use deep_forge.Base.{ℕ, ◌≤◌, ◌≡◌, true, Bool, arith}
use deep_forge.Runtime.Dispatch.{
  CpuVariant, scalar, avx2, avx512, CpuFeatures, PerVariant, at_variant, cpu_supports_variant,
  select_cpu_variant,
}

-- A variant that is compiled and that the host can run.
abbrev pub IsUsable : CpuFeatures → PerVariant Bool → CpuVariant → Type 0
IsUsable f compiled v = (at_variant compiled v ≡ true) × (cpu_supports_variant f v ≡ true)

-- wider variants count as better
abbrev pub rank : CpuVariant → ℕ
rank scalar = 0
rank avx2 = 1
rank avx512 = 2

-- If the scalar variant is compiled, the selected variant is compiled and runs on the host, and no
-- wider variant is both.
pub select_cpu_variant-best :
    (f : CpuFeatures) (compiled : PerVariant Bool)
    → at_variant compiled scalar ≡ true
    → IsUsable f compiled (select_cpu_variant f compiled)
      × ((v : CpuVariant) → IsUsable f compiled v → rank v ≤ rank (select_cpu_variant f compiled))
unfolding select_cpu_variant cpu_supports_variant
select_cpu_variant-best f compiled h = (ground arith, λ v u. better v u)
  where
    better :
        (v : CpuVariant) → IsUsable f compiled v → rank v ≤ rank (select_cpu_variant f compiled)
    better scalar u = omega arith
    better avx2 u = ground arith
    better avx512 u = ground arith
