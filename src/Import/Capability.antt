-- ===== src/Import/Capability.antt =====
-- lib/Import/Capability.cpp: the tables of operations and element types, and the look-ups in them.
pub mod Names
pub mod Storage
pub mod Indexing
use deep_forge.Base.{
  ℕ, suc, ◌+◌, ◌-◌, ◌*◌, ◌/◌, Bool, true, false, ◌&&◌, ◌||◌, Option, none, some, List, [], ◌∷◌,
  Text, text, find, length, is_empty, if◌then◌else◌, ltb, eqb, not, ◌==◌, ◌!=◌, nat_eq, list_eq, ℤ,
  pos_part, nonpositive, u64_max,
}
use deep_forge.Import.DataTypes.{DataType, data_type_eq}
use deep_forge.Import.DataTypes
use deep_forge.Import.OperationTags.{OperationTag, operation_tag_eq}
use deep_forge.Import.OperationTags

pub data CapabilityLevel : Type 0 where
  schema_known parsed executable validated : CapabilityLevel

pub record OperationCapability : Type 0 where
  pub tag : OperationTag
  pub serialized_tag : Text
  pub level : CapabilityLevel

abbrev row : OperationTag → Text → OperationCapability
row t s = record { tag = t; serialized_tag = s; level = validated }

-- kCapabilities
unfoldable pub operation_capabilities : List OperationCapability
unfolding text
operation_capabilities =
    row OperationTag.ada_layer_norm (text "ADA_LAYER_NORM")
    ∷ row OperationTag.ada_layer_norm_bprop (text "ADA_LAYER_NORM_BPROP")
    ∷ row OperationTag.batch_norm (text "BATCHNORM")
    ∷ row OperationTag.batch_norm_inference (text "BATCHNORM_INFERENCE")
    ∷ row OperationTag.block_scale_dequantize (text "BLOCK_SCALE_DEQUANTIZE")
    ∷ row OperationTag.block_scale_quantize (text "BLOCK_SCALE_QUANTIZE")
    ∷ row OperationTag.bn_finalize (text "BN_FINALIZE")
    ∷ row OperationTag.concatenate (text "CONCATENATE")
    ∷ row OperationTag.conv_dgrad (text "CONV_DGRAD")
    ∷ row OperationTag.conv_fprop (text "CONV_FPROP")
    ∷ row OperationTag.conv_wgrad (text "CONV_WGRAD")
    ∷ row OperationTag.dbn (text "DBN")
    ∷ row OperationTag.dbn_weight (text "DBN_WEIGHT")
    ∷ row OperationTag.gen_stats (text "GENSTATS")
    ∷ row OperationTag.instance_norm (text "INSTANCE_NORM")
    ∷ row OperationTag.instance_norm_bprop (text "INSTANCE_NORM_BPROP")
    ∷ row OperationTag.layer_norm (text "LAYER_NORM")
    ∷ row OperationTag.layer_norm_bprop (text "LAYER_NORM_BPROP")
    ∷ row OperationTag.matmul (text "MATMUL")
    ∷ row OperationTag.matmul_fp8 (text "MATMUL_FP8")
    ∷ row OperationTag.moe_grouped_matmul (text "MOE_GROUPED_MATMUL")
    ∷ row OperationTag.moe_grouped_matmul_bwd (text "MOE_GROUPED_MATMUL_BWD")
    ∷ row OperationTag.pointwise (text "POINTWISE")
    ∷ row OperationTag.reduction (text "REDUCTION")
    ∷ row OperationTag.resample (text "RESAMPLE")
    ∷ row OperationTag.reshape (text "RESHAPE")
    ∷ row OperationTag.rms_norm (text "RMS_NORM")
    ∷ row OperationTag.rms_norm_bprop (text "RMS_NORM_BPROP")
    ∷ row OperationTag.rng (text "RNG")
    ∷ row OperationTag.rope (text "ROPE")
    ∷ row OperationTag.rope_bwd (text "ROPE_BWD")
    ∷ row OperationTag.sdpa (text "SDPA")
    ∷ row OperationTag.sdpa_bwd (text "SDPA_BWD")
    ∷ row OperationTag.sdpa_fp8_bwd (text "SDPA_FP8_BWD")
    ∷ row OperationTag.sdpa_fp8_fwd (text "SDPA_FP8_FWD")
    ∷ row OperationTag.sdpa_mxfp8_bwd (text "SDPA_MXFP8_BWD")
    ∷ row OperationTag.sdpa_mxfp8_fwd (text "SDPA_MXFP8_FWD")
    ∷ row OperationTag.slice (text "SLICE")
    ∷ row OperationTag.transpose (text "TRANSPOSE")
    ∷ []

unfoldable pub find_operation_capability : Text → Option OperationCapability
unfolding operation_capabilities
find_operation_capability name = find (λ c. c.serialized_tag == name) operation_capabilities

name_or_unknown : Option OperationCapability → Text
name_or_unknown none = text "UNKNOWN"
name_or_unknown (some c) = c.serialized_tag

unfoldable pub operation_tag_name : OperationTag → Text
unfolding operation_capabilities name_or_unknown
operation_tag_name t = name_or_unknown (find (λ c. c.tag == t) operation_capabilities)

pub record DataTypeName : Type 0 where
  pub type : DataType
  pub name : Text
  pub storage_bits : ℕ

abbrev entry : DataType → Text → ℕ → DataTypeName
entry t s n = record { type = t; name = s; storage_bits = n }

-- kDataTypes
unfoldable pub data_types : List DataTypeName
unfolding text
data_types =
    entry DataType.float32 (text "FLOAT") 32
    ∷ entry DataType.float64 (text "DOUBLE") 64
    ∷ entry DataType.float16 (text "HALF") 16
    ∷ entry DataType.int8 (text "INT8") 8
    ∷ entry DataType.int32 (text "INT32") 32
    ∷ entry DataType.int8x4 (text "INT8x4") 32
    ∷ entry DataType.uint8 (text "UINT8") 8
    ∷ entry DataType.uint8x4 (text "UINT8x4") 32
    ∷ entry DataType.int8x32 (text "INT8x32") 256
    ∷ entry DataType.bfloat16 (text "BFLOAT16") 16
    ∷ entry DataType.int64 (text "INT64") 64
    ∷ entry DataType.boolean (text "BOOLEAN") 8
    ∷ entry DataType.fp8_e4m3 (text "FP8_E4M3") 8
    ∷ entry DataType.fp8_e5m2 (text "FP8_E5M2") 8
    ∷ entry DataType.fast_float_for_fp8 (text "FAST_FLOAT_FOR_FP8") 32
    ∷ entry DataType.fp8_e8m0 (text "FP8_E8M0") 8
    ∷ entry DataType.fp4_e2m1 (text "FP4_E2M1") 4
    ∷ entry DataType.int4 (text "INT4") 4
    ∷ entry DataType.complex_float32 (text "COMPLEX_FP32") 64
    ∷ entry DataType.complex_float64 (text "COMPLEX_FP64") 128
    ∷ []

type_of : Option DataTypeName → Option DataType
type_of none = none
type_of (some e) = some e.type

unfoldable pub data_type_from_name : Text → Option DataType
unfolding data_types type_of
data_type_from_name name = type_of (find (λ e. e.name == name) data_types)

data_type_name_or_unknown : Option DataTypeName → Text
data_type_name_or_unknown none = text "UNKNOWN"
data_type_name_or_unknown (some e) = e.name

unfoldable pub data_type_name : DataType → Text
unfolding data_types data_type_name_or_unknown
data_type_name t = data_type_name_or_unknown (find (λ e. e.type == t) data_types)

bits_or_zero : Option DataTypeName → ℕ
bits_or_zero none = 0
bits_or_zero (some e) = e.storage_bits

unfoldable pub data_type_storage_bits : DataType → ℕ
unfolding data_types bits_or_zero
data_type_storage_bits t = bits_or_zero (find (λ e. e.type == t) data_types)

-- The loop of `tensor_storage_bytes` over the axes, from an element offset on. The two lists are
-- of one length there.
unfoldable pub maximum_element_offset : List ℤ → List ℤ → ℕ → Option ℕ
maximum_element_offset [] strides offset = some offset
maximum_element_offset (d ∷ ds) [] offset = some offset
maximum_element_offset (d ∷ ds) (s ∷ ss) offset =
    let extent = pos_part d - 1 in
    let stride = pos_part s in
    let contribution = extent * stride in
    let rest = maximum_element_offset ds ss (offset + contribution) in
    if nonpositive d || nonpositive s
    then none
    else if extent != 0 && ltb (u64_max / extent) stride
    then none
    else if ltb (u64_max - offset) contribution
    then none
    else rest

-- The end of `tensor_storage_bytes`, from the largest offset of an element to the bytes.
storage_bytes_at : DataType → Option ℕ → Option ℕ
storage_bytes_at type none = none
storage_bytes_at type (some offset) =
    let element_slots = offset + 1 in
    let bits = data_type_storage_bits type in
    let storage_bits = element_slots * bits in
    let output = (storage_bits + 7) / 8 in
    if offset == u64_max
    then none
    else if bits == 0 || ltb (u64_max / bits) element_slots
    then none
    else if ltb (u64_max - 7) storage_bits
    then none
    else if output != 0
    then some output
    else none

unfoldable pub tensor_storage_bytes : DataType → List ℤ → List ℤ → Option ℕ
unfolding storage_bytes_at
tensor_storage_bytes type dimensions strides =
    if is_empty dimensions || length dimensions != length strides
    then none
    else storage_bytes_at type (maximum_element_offset dimensions strides 0)
