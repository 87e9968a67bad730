-- ===== src/Artifact/RoundTrip/Preamble.antt =====
-- lib/Compiler/Artifact.cpp: the header and the overrides, written and read back.
use mathlib.Core.List.{append_assoc}
use deep_forge.Base.{
  ℕ, ◌≤◌, ◌≡◌, refl, Bool, true, false, List, ◌++◌, length, All, le→ltb, Text, text, is_empty,
  has_nul, contains, nat_eq, list_eq, ==-refl, ◌!=◌, u32_max, ℤ, arith,
}
use deep_forge.Import.Status.{ok}
use deep_forge.Metadata.{
  GraphMetadata, policy_code, policy_of_code-code, ShapeOverridePolicy, no_override,
  pointwise_exact,
}
use deep_forge.Artifact.{CompilationResult, format_version}
use deep_forge.Artifact.Bytes.{endian_marker, deepforge_version, llvm_version, frontend_version}
use deep_forge.Artifact.Reader.{done}
use deep_forge.Artifact.Serialize.{append_header, append_override, flag}
use deep_forge.Artifact.Parse.Preamble.{
  parse_header, Override, parse_override, read_counted, maximum_policy,
}
use deep_forge.Artifact.RoundTrip.Words.{
  u32_bytes, append_u32-eq, read_u32-eq, string_bytes, append_string-eq, read_string-eq, IsShort,
  vector_bytes, append_i64_vector-eq, read_i64_vector-eq, IsI64, lengths,
}

pub header_bytes : CompilationResult → List ℕ
header_bytes c =
    u32_bytes format_version
    ++ (u32_bytes endian_marker
        ++ (string_bytes deepforge_version
            ++ (string_bytes llvm_version
                ++ (string_bytes frontend_version
                    ++ (string_bytes c.target_triple
                        ++ string_bytes c.metadata.graph.function_name)))))

pub length-header_bytes : (c : CompilationResult) → 8 ≤ length (header_bytes c)
unfolding header_bytes
length-header_bytes c = simp lengths (omega arith)

-- What the reader needs of the texts in the header.
pub record IsNamed (c : CompilationResult) : Type 0 where
  pub target_short : IsShort c.target_triple
  pub name_short : IsShort c.metadata.graph.function_name

versions_short : IsShort deepforge_version × IsShort llvm_version × IsShort frontend_version
unfolding deepforge_version llvm_version frontend_version text
versions_short = (omega arith, omega arith, omega arith)

pub append_header-eq :
    (out : List ℕ) (c : CompilationResult)
    → IsNamed c
    → append_header out c ≡ ok (out ++ header_bytes c)
unfolding append_header header_bytes
append_header-eq out c h =
    rw
      (
        append_string-eq _ deepforge_version (omega (arith, versions_short.0)),
        append_string-eq _ llvm_version (omega (arith, versions_short.1)),
        append_string-eq _ frontend_version (omega (arith, versions_short.2)),
        append_string-eq _ c.target_triple (omega (arith, h.target_short)),
        append_string-eq _ c.metadata.graph.function_name (omega (arith, h.name_short)),
      )
      (simp (append_u32-eq, append_assoc))

pub parse_header-eq :
    (c : CompilationResult)
    → IsNamed c
    → is_empty c.target_triple ≡ false
    → has_nul c.target_triple ≡ false
    → (left : List ℕ)
    → parse_header (header_bytes c ++ left)
      ≡ done
          (record {
            version = format_version;
            target_triple = c.target_triple;
            function_name = c.metadata.graph.function_name;
          })
          left
unfolding parse_header header_bytes contains
parse_header-eq c h named clean left = simp append_assoc (
    rw (
      read_u32-eq format_version (omega arith),
      read_u32-eq endian_marker (omega arith),
      read_string-eq deepforge_version versions_short.0,
      read_string-eq llvm_version versions_short.1,
      read_string-eq frontend_version versions_short.2,
      read_string-eq c.target_triple h.target_short,
      read_string-eq c.metadata.graph.function_name h.name_short,
      ==-refl deepforge_version,
      ==-refl llvm_version,
      ==-refl frontend_version,
      named,
      clean,
    ))

pub override_bytes : GraphMetadata → List ℕ
override_bytes g =
    u32_bytes (flag g.dynamic_shape_enabled)
    ++ (u32_bytes (flag g.override_shape_enabled)
        ++ (u32_bytes (policy_code g.override_policy)
            ++ (u32_bytes (length g.override_role_uids)
                ++ (vector_bytes g.override_role_uids
                    ++ (u32_bytes (length g.override_axis_map)
                        ++ vector_bytes g.override_axis_map)))))

-- What the reader needs of the overrides.
pub record IsStorableOverride (g : GraphMetadata) : Type 0 where
  pub few_roles : length g.override_role_uids ≤ 64
  pub roles : All IsI64 g.override_role_uids
  pub few_axes : length g.override_axis_map ≤ 64
  pub axes : All IsI64 g.override_axis_map

pub append_override-eq :
    (out : List ℕ) (g : GraphMetadata)
    → IsStorableOverride g
    → append_override out g ≡ ok (out ++ override_bytes g)
unfolding append_override override_bytes
append_override-eq out g h =
    rw
      (
        le→ltb u32_max (length g.override_role_uids) (omega (arith, h.few_roles)),
        le→ltb u32_max (length g.override_axis_map) (omega (arith, h.few_axes)),
      )
      (simp (append_u32-eq, append_i64_vector-eq, append_assoc))

read_counted-eq :
    (malformed truncated : Text) (zs : List ℤ)
    → length zs ≤ 64
    → All IsI64 zs
    → (left : List ℕ)
    → read_counted malformed truncated (u32_bytes (length zs) ++ (vector_bytes zs ++ left))
      ≡ done zs left
unfolding read_counted
read_counted-eq malformed truncated zs few h left =
    rw (
      read_u32-eq (length zs) (omega arith),
      le→ltb 64 (length zs) few,
      read_i64_vector-eq zs h left,
    )

-- Every policy may stand in the newest version.
policy_code-le : (p : ShapeOverridePolicy) → policy_code p ≤ 8
unfolding policy_code
policy_code-le no_override = omega arith
policy_code-le pointwise_exact = omega arith
policy_code-le _ = omega arith

maximum_policy-newest : policy_code (maximum_policy format_version) ≡ 8
unfolding policy_code maximum_policy
maximum_policy-newest = refl

flag-le : (b : Bool) → flag b ≤ 1
flag-le true = omega arith
flag-le false = omega arith

flag-ne : (b : Bool) → (flag b != 0) ≡ b
flag-ne true = refl
flag-ne false = refl

abbrev pub override_of : GraphMetadata → Override
override_of g = record {
  dynamic_shape_enabled = g.dynamic_shape_enabled;
  override_shape_enabled = g.override_shape_enabled;
  override_policy = g.override_policy;
  override_role_uids = g.override_role_uids;
  override_axis_map = g.override_axis_map;
}

pub parse_override-eq :
    (g : GraphMetadata)
    → IsStorableOverride g
    → (left : List ℕ)
    → parse_override format_version (override_bytes g ++ left) ≡ done (override_of g) left
unfolding parse_override override_bytes contains
parse_override-eq g h left =
    let dynamic = flag-le g.dynamic_shape_enabled in
    let override = flag-le g.override_shape_enabled in
    let policy = policy_code-le g.override_policy in
    simp append_assoc (
      rw (
        read_u32-eq (flag g.dynamic_shape_enabled) (omega arith),
        read_u32-eq (flag g.override_shape_enabled) (omega arith),
        read_u32-eq (policy_code g.override_policy) (omega arith),
        le→ltb 1 (flag g.dynamic_shape_enabled) dynamic,
        le→ltb 1 (flag g.override_shape_enabled) override,
        maximum_policy-newest,
        le→ltb 8 (policy_code g.override_policy) policy,
        policy_of_code-code g.override_policy,
        read_counted-eq _ _ g.override_role_uids h.few_roles h.roles,
        read_counted-eq _ _ g.override_axis_map h.few_axes h.axes,
        flag-ne g.dynamic_shape_enabled,
        flag-ne g.override_shape_enabled,
      ))
