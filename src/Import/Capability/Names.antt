-- ===== src/Import/Capability/Names.antt =====
-- The two tables of lib/Import/Capability.cpp are read by name and by enumerator: the look-ups undo
-- one another.
use deep_forge.Base.{
  ◌≡◌, refl, sym, ap, ◌∙◌, ◌≤◌, Bool, true, Option, none, some, List, [], ◌∷◌, Text, find, all,
  and-eq-true, Bool-cases, inl, inr, list_beq, eq_of_==, list_eq, nat_eq, arith, ◌==◌,
}
use mathlib.Core.Option
use deep_forge.Import.DataTypes.{DataType, data_type_beq}
use deep_forge.Import.OperationTags.{OperationTag, operation_tag_beq}
use deep_forge.Import.Capability.{
  OperationCapability, operation_capabilities, find_operation_capability, operation_tag_name,
  DataTypeName, data_types, data_type_from_name, data_type_name, data_type_storage_bits, type_of,
}

-- What a search finds passes the test, and any test that every entry passes.
pub find-eq-some {ℓ} :
    {A : Type ℓ} (q p : A → Bool) (xs : List A) {a : A}
    → all q xs ≡ true
    → find p xs ≡ some a
    → (q a ≡ true) × (p a ≡ true)
unfolding find all
find-eq-some q p [] h e = cc
find-eq-some q p (x ∷ xs) {a} h e = elim (Bool-cases (p x)) [
  | inl t ↦
      let same : x ≡ a = cc (rw (t, find) at e) in
      (rw (← same) ((and-eq-true (q x) (all q xs) h).0), rw (← same) t)
  | inr f ↦ find-eq-some q p xs ((and-eq-true (q x) (all q xs) h).1) (rw (f, find) at e)
]

-- The tag's name finds the capability of that tag.
pub find_operation_capability-operation_tag_name :
    (t : OperationTag)
    → Option.map (λ c. c.tag) (find_operation_capability (operation_tag_name t)) ≡ some t
unfolding find_operation_capability operation_tag_name find list_beq operation_tag_beq
find_operation_capability-operation_tag_name OperationTag.ada_layer_norm = refl
find_operation_capability-operation_tag_name OperationTag.ada_layer_norm_bprop = refl
find_operation_capability-operation_tag_name OperationTag.batch_norm = refl
find_operation_capability-operation_tag_name OperationTag.batch_norm_inference = refl
find_operation_capability-operation_tag_name OperationTag.block_scale_dequantize = refl
find_operation_capability-operation_tag_name OperationTag.block_scale_quantize = refl
find_operation_capability-operation_tag_name OperationTag.bn_finalize = refl
find_operation_capability-operation_tag_name OperationTag.concatenate = refl
find_operation_capability-operation_tag_name OperationTag.conv_dgrad = refl
find_operation_capability-operation_tag_name OperationTag.conv_fprop = refl
find_operation_capability-operation_tag_name OperationTag.conv_wgrad = refl
find_operation_capability-operation_tag_name OperationTag.dbn = refl
find_operation_capability-operation_tag_name OperationTag.dbn_weight = refl
find_operation_capability-operation_tag_name OperationTag.gen_stats = refl
find_operation_capability-operation_tag_name OperationTag.instance_norm = refl
find_operation_capability-operation_tag_name OperationTag.instance_norm_bprop = refl
find_operation_capability-operation_tag_name OperationTag.layer_norm = refl
find_operation_capability-operation_tag_name OperationTag.layer_norm_bprop = refl
find_operation_capability-operation_tag_name OperationTag.matmul = refl
find_operation_capability-operation_tag_name OperationTag.matmul_fp8 = refl
find_operation_capability-operation_tag_name OperationTag.moe_grouped_matmul = refl
find_operation_capability-operation_tag_name OperationTag.moe_grouped_matmul_bwd = refl
find_operation_capability-operation_tag_name OperationTag.pointwise = refl
find_operation_capability-operation_tag_name OperationTag.reduction = refl
find_operation_capability-operation_tag_name OperationTag.resample = refl
find_operation_capability-operation_tag_name OperationTag.reshape = refl
find_operation_capability-operation_tag_name OperationTag.rms_norm = refl
find_operation_capability-operation_tag_name OperationTag.rms_norm_bprop = refl
find_operation_capability-operation_tag_name OperationTag.rng = refl
find_operation_capability-operation_tag_name OperationTag.rope = refl
find_operation_capability-operation_tag_name OperationTag.rope_bwd = refl
find_operation_capability-operation_tag_name OperationTag.sdpa = refl
find_operation_capability-operation_tag_name OperationTag.sdpa_bwd = refl
find_operation_capability-operation_tag_name OperationTag.sdpa_fp8_bwd = refl
find_operation_capability-operation_tag_name OperationTag.sdpa_fp8_fwd = refl
find_operation_capability-operation_tag_name OperationTag.sdpa_mxfp8_bwd = refl
find_operation_capability-operation_tag_name OperationTag.sdpa_mxfp8_fwd = refl
find_operation_capability-operation_tag_name OperationTag.slice = refl
find_operation_capability-operation_tag_name OperationTag.transpose = refl

rows_named : all (λ c. operation_tag_name c.tag == c.serialized_tag) operation_capabilities ≡ true
unfolding operation_tag_name find list_beq all operation_tag_beq
rows_named = refl

-- A name that is found belongs to the tag of what is found.
pub operation_tag_name-find_operation_capability :
    (name : Text) (c : OperationCapability)
    → find_operation_capability name ≡ some c
    → operation_tag_name c.tag ≡ name
unfolding find_operation_capability
operation_tag_name-find_operation_capability name c e =
    let found =
      find-eq-some (λ c. operation_tag_name c.tag == c.serialized_tag)
        (λ c. c.serialized_tag == name) operation_capabilities rows_named e in
    eq_of_== _ _ found.0 ∙ eq_of_== c.serialized_tag name found.1

-- The type's name is read back as the type.
pub data_type_from_name-data_type_name :
    (t : DataType) → data_type_from_name (data_type_name t) ≡ some t
unfolding data_type_from_name data_type_name find list_beq data_type_beq
data_type_from_name-data_type_name DataType.float32 = refl
data_type_from_name-data_type_name DataType.float64 = refl
data_type_from_name-data_type_name DataType.float16 = refl
data_type_from_name-data_type_name DataType.int8 = refl
data_type_from_name-data_type_name DataType.int32 = refl
data_type_from_name-data_type_name DataType.int8x4 = refl
data_type_from_name-data_type_name DataType.uint8 = refl
data_type_from_name-data_type_name DataType.uint8x4 = refl
data_type_from_name-data_type_name DataType.int8x32 = refl
data_type_from_name-data_type_name DataType.bfloat16 = refl
data_type_from_name-data_type_name DataType.int64 = refl
data_type_from_name-data_type_name DataType.boolean = refl
data_type_from_name-data_type_name DataType.fp8_e4m3 = refl
data_type_from_name-data_type_name DataType.fp8_e5m2 = refl
data_type_from_name-data_type_name DataType.fast_float_for_fp8 = refl
data_type_from_name-data_type_name DataType.fp8_e8m0 = refl
data_type_from_name-data_type_name DataType.fp4_e2m1 = refl
data_type_from_name-data_type_name DataType.int4 = refl
data_type_from_name-data_type_name DataType.complex_float32 = refl
data_type_from_name-data_type_name DataType.complex_float64 = refl

entries_named : all (λ e. data_type_name e.type == e.name) data_types ≡ true
unfolding data_type_name find list_beq all data_type_beq
entries_named = refl

type_of-eq-some :
    (o : Option DataTypeName) (t : DataType)
    → type_of o ≡ some t
    → (e : DataTypeName) × (o ≡ some e) × (e.type ≡ t)
unfolding type_of
type_of-eq-some none t h = cc
type_of-eq-some (some e) t h = (e, refl, cc)

-- A name that is read belongs to the type that is returned.
pub data_type_name-data_type_from_name :
    (name : Text) (t : DataType) → data_type_from_name name ≡ some t → data_type_name t ≡ name
unfolding data_type_from_name
data_type_name-data_type_from_name name t h =
    let (e, at, same) = type_of-eq-some (find (λ e. e.name == name) data_types) t h in
    let found =
      find-eq-some (λ e. data_type_name e.type == e.name) (λ e. e.name == name) data_types
        entries_named at in
    ap data_type_name (sym same)
    ∙ eq_of_== (data_type_name e.type) e.name found.0
    ∙ eq_of_== e.name name found.1

-- Every element type takes at least one half byte and at most 32 bytes.
pub data_type_storage_bits_range :
    (t : DataType) → (4 ≤ data_type_storage_bits t) × (data_type_storage_bits t ≤ 256)
unfolding data_type_storage_bits find data_type_beq
data_type_storage_bits_range DataType.float32 = omega arith
data_type_storage_bits_range DataType.float64 = omega arith
data_type_storage_bits_range DataType.float16 = omega arith
data_type_storage_bits_range DataType.int8 = omega arith
data_type_storage_bits_range DataType.int32 = omega arith
data_type_storage_bits_range DataType.int8x4 = omega arith
data_type_storage_bits_range DataType.uint8 = omega arith
data_type_storage_bits_range DataType.uint8x4 = omega arith
data_type_storage_bits_range DataType.int8x32 = omega arith
data_type_storage_bits_range DataType.bfloat16 = omega arith
data_type_storage_bits_range DataType.int64 = omega arith
data_type_storage_bits_range DataType.boolean = omega arith
data_type_storage_bits_range DataType.fp8_e4m3 = omega arith
data_type_storage_bits_range DataType.fp8_e5m2 = omega arith
data_type_storage_bits_range DataType.fast_float_for_fp8 = omega arith
data_type_storage_bits_range DataType.fp8_e8m0 = omega arith
data_type_storage_bits_range DataType.fp4_e2m1 = omega arith
data_type_storage_bits_range DataType.int4 = omega arith
data_type_storage_bits_range DataType.complex_float32 = omega arith
data_type_storage_bits_range DataType.complex_float64 = omega arith
