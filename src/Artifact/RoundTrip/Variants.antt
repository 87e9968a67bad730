-- ===== src/Artifact/RoundTrip/Variants.antt =====
-- lib/Compiler/Artifact.cpp: the tolerances and the three variants, written and read back.
use mathlib.Core.List.{append_assoc}
use deep_forge.Base.{
  ℕ, ◌^◌, ◌≤◌, ◌<◌, ◌≡◌, refl, true, false, some, List, ◌++◌, length, is_empty, arith,
}
use deep_forge.Import.Status.{ok}
use deep_forge.Runtime.Dispatch.{CpuVariant, scalar, avx2, avx512, PerVariant, at_variant}
use deep_forge.Artifact.{VariantCode, default_absolute_tolerance, default_relative_tolerance}
use deep_forge.Artifact.Reader.{done}
use deep_forge.Artifact.Contract.{variant_code}
use deep_forge.Artifact.Serialize.{append_variant, append_variants}
use deep_forge.Artifact.Parse.{
  variant_of_code, read_code, parse_variant, parse_each_variant, parse_variants, Code, Slots,
  set_variant, no_slots,
}
use deep_forge.Artifact.RoundTrip.Words.{
  u32_bytes, append_u32-eq, read_u32-eq, u64_bytes, append_u64-eq, read_u64-eq, string_bytes,
  append_string-eq, read_string-eq, IsShort, blob_bytes, append_blob-eq, read_blob-eq,
}

code_bytes : VariantCode → List ℕ
code_bytes v = string_bytes v.symbol ++ (string_bytes v.required_features ++ blob_bytes v.object)

pub variant_bytes : VariantCode → List ℕ
variant_bytes v = u32_bytes (variant_code v.variant) ++ code_bytes v

-- What the reader needs of a variant.
pub record IsStorableVariant (v : VariantCode) : Type 0 where
  pub symbol : IsShort v.symbol
  pub symbol_there : is_empty v.symbol ≡ false
  pub features : IsShort v.required_features
  pub features_there : is_empty v.required_features ≡ false
  pub object : length v.object < 2 ^ 64
  pub object_there : is_empty v.object ≡ false

append_variant-eq :
    (out : List ℕ) (v : VariantCode)
    → IsStorableVariant v
    → append_variant out v ≡ ok (out ++ variant_bytes v)
unfolding append_variant variant_bytes code_bytes
append_variant-eq out v h =
    rw
      (
        append_string-eq _ v.symbol (omega (arith, h.symbol)),
        append_string-eq _ v.required_features (omega (arith, h.features)),
      )
      (simp (append_u32-eq, append_blob-eq, append_assoc))

read_code-eq :
    (v : VariantCode)
    → IsStorableVariant v
    → (left : List ℕ) → read_code v.variant (code_bytes v ++ left) ≡ done v left
unfolding read_code code_bytes
read_code-eq v h left = simp append_assoc (
    rw (
      read_string-eq v.symbol h.symbol,
      read_string-eq v.required_features h.features,
      read_blob-eq v.object h.object,
      h.symbol_there,
      h.features_there,
      h.object_there,
    ))

variant_code-le : (id : CpuVariant) → variant_code id ≤ 2
unfolding variant_code
variant_code-le scalar = omega arith
variant_code-le avx2 = omega arith
variant_code-le avx512 = omega arith

variant_of_code-code : (id : CpuVariant) → variant_of_code (variant_code id) ≡ some id
unfolding variant_of_code variant_code
variant_of_code-code scalar = refl
variant_of_code-code avx2 = refl
variant_of_code-code avx512 = refl

-- The state of the loop with a variant put in.
abbrev put : Slots → CpuVariant → VariantCode → Slots
put slots id v = record {
  seen = set_variant slots.seen id true;
  variants = set_variant slots.variants id v;
}

-- One round of the loop, on a variant that was not seen.
read_variant :
    (slots : Slots) (v : VariantCode)
    → at_variant slots.seen v.variant ≡ false
    → IsStorableVariant v
    → (left : List ℕ)
    → parse_variant slots (variant_bytes v ++ left) ≡ done (put slots v.variant v) left
unfolding parse_variant variant_bytes
read_variant slots v fresh h left = simp append_assoc (
    rw (
      read_u32-eq (variant_code v.variant) (omega (arith, variant_code-le v.variant)),
      variant_of_code-code v.variant,
      fresh,
      read_code-eq v h,
    ))

parse_variant-eq :
    (slots : Slots) (v : VariantCode) (id : CpuVariant)
    → v.variant ≡ id
    → at_variant slots.seen id ≡ false
    → IsStorableVariant v
    → (left : List ℕ) → parse_variant slots (variant_bytes v ++ left) ≡ done (put slots id v) left
parse_variant-eq slots v id is fresh h left = rw (← is) (read_variant slots v (rw is fresh) h left)

pub variants_bytes : PerVariant VariantCode → List ℕ
variants_bytes v =
    u64_bytes default_absolute_tolerance
    ++ (u64_bytes default_relative_tolerance
        ++ (u32_bytes 3
            ++ (variant_bytes v.for_scalar
                ++ (variant_bytes v.for_avx2 ++ variant_bytes v.for_avx512))))

pub record IsStorableVariants (v : PerVariant VariantCode) : Type 0 where
  pub scalar_is : v.for_scalar.variant ≡ scalar
  pub avx2_is : v.for_avx2.variant ≡ avx2
  pub avx512_is : v.for_avx512.variant ≡ avx512
  pub scalar_code : IsStorableVariant v.for_scalar
  pub avx2_code : IsStorableVariant v.for_avx2
  pub avx512_code : IsStorableVariant v.for_avx512

pub append_variants-eq :
    (out : List ℕ) (v : PerVariant VariantCode)
    → IsStorableVariants v
    → append_variants out v ≡ ok (out ++ variants_bytes v)
unfolding append_variants variants_bytes
append_variants-eq out v h =
    rw
      (
        append_variant-eq _ v.for_scalar h.scalar_code,
        append_variant-eq _ v.for_avx2 h.avx2_code,
        append_variant-eq _ v.for_avx512 h.avx512_code,
      )
      (simp (append_u64-eq, append_u32-eq, append_assoc))

abbrev pub stored_code : PerVariant VariantCode → Code
stored_code v = record {
  absolute_tolerance = default_absolute_tolerance;
  relative_tolerance = default_relative_tolerance;
  variants = v;
}

pub parse_variants-eq :
    (v : PerVariant VariantCode)
    → IsStorableVariants v
    → (left : List ℕ) → parse_variants (variants_bytes v ++ left) ≡ done (stored_code v) left
unfolding parse_variants variants_bytes parse_each_variant
parse_variants-eq v h left =
    let first = put no_slots scalar v.for_scalar in
    let second = put first avx2 v.for_avx2 in
    simp append_assoc (
      rw (
        read_u64-eq default_absolute_tolerance (omega arith),
        read_u64-eq default_relative_tolerance (omega arith),
        read_u32-eq 3 (omega arith),
        parse_variant-eq no_slots v.for_scalar scalar h.scalar_is refl h.scalar_code,
        parse_variant-eq first v.for_avx2 avx2 h.avx2_is refl h.avx2_code,
        parse_variant-eq second v.for_avx512 avx512 h.avx512_is refl h.avx512_code,
      ))
