-- ===== src/Runtime/Dispatch.antt =====
-- include/DeepForge/Runtime/Executable.h and lib/Runtime/Executable.cpp: which of the three
-- compiled variants a call runs.
pub mod Choice
use deep_forge.Base.{ℕ, Bool, true, false, ◌&&◌, if◌then◌else◌}

pub data CpuVariant : Type 0 where
  scalar avx2 avx512 : CpuVariant

pub record CpuFeatures : Type 0 where
  pub has_avx : Bool
  pub has_fma : Bool
  pub has_avx2 : Bool
  pub has_avx512f : Bool
  pub os_ymm_state : Bool
  pub os_zmm_state : Bool

-- std::array of one entry for each variant
pub record PerVariant {ℓ} (A : Type ℓ) : Type ℓ where
  pub for_scalar : A
  pub for_avx2 : A
  pub for_avx512 : A

abbrev pub at_variant {ℓ} : {A : Type ℓ} → PerVariant A → CpuVariant → A
at_variant t scalar = t.for_scalar
at_variant t avx2 = t.for_avx2
at_variant t avx512 = t.for_avx512

unfoldable pub cpu_supports_variant : CpuFeatures → CpuVariant → Bool
cpu_supports_variant f scalar = true
cpu_supports_variant f avx2 = f.has_avx && f.has_fma && f.has_avx2 && f.os_ymm_state
cpu_supports_variant f avx512 =
    f.has_avx && f.has_fma && f.has_avx512f && f.os_ymm_state && f.os_zmm_state

unfoldable pub select_cpu_variant : CpuFeatures → PerVariant Bool → CpuVariant
select_cpu_variant f compiled =
    if at_variant compiled avx512 && cpu_supports_variant f avx512
    then avx512
    else if at_variant compiled avx2 && cpu_supports_variant f avx2
    then avx2
    else scalar
