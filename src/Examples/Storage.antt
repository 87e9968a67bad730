-- ===== src/Examples/Storage.antt =====
-- Element types, operations, sizes and layouts at concrete inputs.
use mathlib.Core.Option
use deep_forge.Base.{
  not, ◌&&◌, ◌==◌, nat_eq, is_empty, length, ℕ, ◌+◌, ◌*◌, ◌/◌, ◌≤◌, ◌≡◌, refl, true, false, none,
  some, List, [], ◌∷◌, ℤ, pos, text, find, list_beq, align_down, align_down-eq, is_power_of_two,
  sort_by, insert_by, arith, if◌then◌else◌,
}
use deep_forge.Import.DataTypes.{DataType, float32, data_type_beq}
use deep_forge.Import.OperationTags.{OperationTag}
use deep_forge.Import.Capability.{
  OperationCapability, CapabilityLevel, find_operation_capability, operation_tag_name,
  data_type_from_name, data_type_name, data_type_storage_bits, tensor_storage_bytes,
  maximum_element_offset,
}
use deep_forge.Import.Capability.Names.{
  find_operation_capability-operation_tag_name, operation_tag_name-find_operation_capability,
  data_type_from_name-data_type_name, data_type_name-data_type_from_name,
}
use deep_forge.Import.Capability.Storage.{
  tensor_storage_bytes-eq, positive_axes, fits_storage, exact_bytes,
}
use deep_forge.Import.Capability.Indexing.{IsIndex, offset, tensor_storage_bytes-covers}
use deep_forge.Runtime.Layout.{has_non_overlapping_layout, collect_axes, spans_apart}
use deep_forge.Runtime.Layout.Injective.{offset-injective}

-- A column-major matrix of three rows and two columns, with one slot of padding in each column.
abbrev dimensions : List ℤ
dimensions = pos 3 ∷ pos 2 ∷ []

abbrev strides : List ℤ
strides = pos 1 ∷ pos 4 ∷ []

matrix_bytes : tensor_storage_bytes float32 dimensions strides ≡ some 28
unfolding tensor_storage_bytes maximum_element_offset data_type_storage_bits find data_type_beq
matrix_bytes = refl

matrix_layout : has_non_overlapping_layout dimensions strides ≡ true
unfolding has_non_overlapping_layout sort_by insert_by collect_axes spans_apart
matrix_layout = refl

overlapping_layout : has_non_overlapping_layout dimensions (pos 1 ∷ pos 2 ∷ []) ≡ false
unfolding has_non_overlapping_layout sort_by insert_by collect_axes spans_apart
overlapping_layout = refl

abbrev last_index : List ℕ
last_index = 2 ∷ 1 ∷ []

last_IsIndex : IsIndex dimensions last_index
last_IsIndex = (omega arith, (omega arith, tt))

tensor_storage_bytes-covers_example :
    (offset strides last_index + 1) * data_type_storage_bits float32 ≤ 8 * 28
tensor_storage_bytes-covers_example =
    tensor_storage_bytes-covers float32 dimensions strides last_index matrix_bytes last_IsIndex

offset-injective_example : last_index ≡ last_index
offset-injective_example =
    offset-injective dimensions strides last_index last_index matrix_layout last_IsIndex
      last_IsIndex refl

power_64 : is_power_of_two 64 ≡ true
unfolding is_power_of_two
power_64 = refl

align_down-eq_example : align_down 1000 64 ≡ 1000 / 64 * 64
align_down-eq_example = align_down-eq 1000 64 power_64 (omega arith) (omega arith)

tensor_storage_bytes-eq_example : tensor_storage_bytes float32 dimensions strides ≡ (
    if not (is_empty dimensions)
      && length dimensions == length strides
      && positive_axes dimensions strides
      && fits_storage float32 dimensions strides
    then some (exact_bytes float32 dimensions strides)
    else none)
tensor_storage_bytes-eq_example = tensor_storage_bytes-eq float32 dimensions strides

find_operation_capability-operation_tag_name_example :
    Option.map (λ c. c.tag) (find_operation_capability (operation_tag_name OperationTag.matmul))
    ≡ some OperationTag.matmul
find_operation_capability-operation_tag_name_example =
    find_operation_capability-operation_tag_name OperationTag.matmul

abbrev convolution : OperationCapability
convolution = record {
  tag = OperationTag.conv_fprop;
  serialized_tag = text "CONV_FPROP";
  level = CapabilityLevel.validated;
}

convolution_found : find_operation_capability (text "CONV_FPROP") ≡ some convolution
unfolding find_operation_capability find list_beq text
convolution_found = refl

operation_tag_name-find_operation_capability_example :
    operation_tag_name OperationTag.conv_fprop ≡ text "CONV_FPROP"
operation_tag_name-find_operation_capability_example =
    operation_tag_name-find_operation_capability (text "CONV_FPROP") convolution convolution_found

data_type_from_name-data_type_name_example :
    data_type_from_name (data_type_name float32) ≡ some float32
data_type_from_name-data_type_name_example = data_type_from_name-data_type_name float32

half_named : data_type_from_name (text "HALF") ≡ some DataType.float16
unfolding data_type_from_name find list_beq text
half_named = refl

data_type_name-data_type_from_name_example : data_type_name DataType.float16 ≡ text "HALF"
data_type_name-data_type_from_name_example =
    data_type_name-data_type_from_name (text "HALF") DataType.float16 half_named
