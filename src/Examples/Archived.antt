-- ===== src/Examples/Archived.antt =====
-- An artifact of the matrix product, with three object files of one byte.
use mathlib.Core.Bool.{xor}
use deep_forge.Base.{
  ℕ, ◌≤◌, ◌≡◌, refl, List, [], ◌∷◌, Text, text, arith, list_beq, has_nul, contains, is_power_of_two,
}
use deep_forge.Import.Status.{ok}
use deep_forge.Metadata.{
  adapter_kind_beq, TensorAccess, read, write, generic_ranked_memref_pointer_table,
}
use deep_forge.Runtime.Dispatch.{CpuVariant, scalar, avx2, avx512}
use deep_forge.Artifact.{VariantCode, CompilationResult}
use deep_forge.Artifact.Contract.{
  check_adapter, check_adapter_shapes, check_function_name, check_metadata, check_workspace,
  check_layout, check_allocations, check_size, any_overlap, expected_size, check_variant,
  check_variants, variant_code, validate_contract,
}
use deep_forge.Artifact.Contract.Conv.{graph_verdict}
use deep_forge.Artifact.Serialize.{validate_compilation, serialize_artifact}
use deep_forge.Artifact.Parse.{parse_artifact}
use deep_forge.Artifact.RoundTrip.Limits.{IsTypedArgument, IsWithinLimits}
use deep_forge.Artifact.RoundTrip.Whole.{stored_info, parse_artifact-serialize_artifact}
use deep_forge.Examples.Created.{description, no_workspace}
use deep_forge.Examples.Defaulted.{matrix, product_valid}

abbrev variant : CpuVariant → Text → Text → ℕ → VariantCode
variant id suffix features byte = record {
  variant = id;
  symbol = 109 ∷ suffix;
  required_features = features;
  object = byte ∷ [];
}

abbrev pub compilation : CompilationResult
compilation = record {
  adapter_kind = generic_ranked_memref_pointer_table;
  metadata = description;
  workspace = no_workspace;
  target_triple = text "x86_64";
  variants = record {
    for_scalar = variant scalar (text "_scalar") (text "baseline") 1;
    for_avx2 = variant avx2 (text "_avx2") (text "avx2,fma") 2;
    for_avx512 = variant avx512 (text "_avx512") (text "avx512f,fma") 3;
  };
}

pub compilation_valid : validate_compilation compilation ≡ ok tt
unfolding validate_compilation validate_contract check_metadata check_adapter check_adapter_shapes
    check_function_name check_workspace check_layout check_allocations check_size any_overlap
    expected_size check_variant check_variants variant_code graph_verdict text list_beq has_nul
    contains is_power_of_two adapter_kind_beq xor
compilation_valid = rw product_valid refl

matrix_small :
    (uid rows columns size : ℕ) (access : TensorAccess)
    → uid ≤ 1000
    → rows ≤ 1000
    → columns ≤ 1000
    → IsTypedArgument (matrix uid rows columns size access)
matrix_small uid rows columns size access hu hr hc = record {
  name = omega arith;
  uids = (omega arith, omega arith, omega arith);
  divisor = omega arith;
  dimensions = (omega arith, (omega arith, tt));
  strides = (omega arith, (omega arith, tt));
}

pub compilation_small : IsWithinLimits compilation
unfolding text
compilation_small = record {
  target_short = omega arith;
  name_short = omega arith;
  roles = (omega arith, (omega arith, (omega arith, tt)));
  axes = tt;
  arguments = (
    matrix_small 1 2 3 24 read (omega arith) (omega arith) (omega arith),
    (
      matrix_small 2 3 4 48 read (omega arith) (omega arith) (omega arith),
      (matrix_small 3 2 4 32 write (omega arith) (omega arith) (omega arith), tt),
    ),
  );
  conv = record {
    uids = (omega arith, omega arith, omega arith);
    x_shape = (omega arith, omega arith, omega arith, omega arith);
    w_shape = (omega arith, omega arith, omega arith, omega arith);
    y_shape = (omega arith, omega arith, omega arith, omega arith);
    padded_x_shape = (omega arith, omega arith, omega arith, omega arith);
    pre_padding = (omega arith, omega arith);
    post_padding = (omega arith, omega arith);
    stride = (omega arith, omega arith);
    dilation = (omega arith, omega arith);
  };
  count = omega arith;
  allocations = tt;
  scalar_object = omega arith;
  avx2_object = omega arith;
  avx512_object = omega arith;
}

pub round_trip :
    (bytes : List ℕ) × (serialize_artifact compilation ≡ ok bytes)
    × (parse_artifact bytes ≡ ok (stored_info compilation))
round_trip = parse_artifact-serialize_artifact compilation compilation_valid compilation_small

parse_artifact-serialize_artifact_example :
    (bytes : List ℕ) × (serialize_artifact compilation ≡ ok bytes)
    × (parse_artifact bytes ≡ ok (stored_info compilation))
parse_artifact-serialize_artifact_example =
    parse_artifact-serialize_artifact compilation compilation_valid compilation_small
