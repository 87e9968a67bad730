-- ===== src/Metadata/Arguments.antt =====
-- lib/Runtime/GraphMetadata.cpp: the checks of the arguments, one by one, and of the references
-- that a ragged argument makes to others.
use deep_forge.Base.{
  ℕ, suc, ◌+◌, ◌-◌, ◌*◌, ◌/◌, Bool, true, false, not, ◌&&◌, ◌||◌, Option, none, some, List, [], ◌∷◌,
  ◌++◌, Text, text, has_nul, length, is_empty, if◌then◌else◌, ltb, ◌==◌, ◌!=◌, nat_eq, list_eq, ℤ,
  pos, pos_part, int_eq, nonpositive, ltb_ℤ, ◌+ℤ◌, u64_max, i64_max, contains, is_power_of_two,
}
use deep_forge.Import.Status.{
  Result, Status, Error, ok, err, ◌>>=◌, ◌>>◌, reject, error_code_name, invalid_value,
}
use deep_forge.Import.DataTypes.{DataType, float32, int32, int64, data_type_eq}
use deep_forge.Import.Capability.{data_type_storage_bits, tensor_storage_bytes}
use deep_forge.Metadata.{
  TensorArgument, TensorAccess, TensorStoragePolicy, ShapeOverridePolicy, read, write, read_write,
  strided, ragged_batch_prefix, pointwise_exact, access_eq, storage_policy_eq, policy_eq, axis_of,
  find_argument,
}

-- the component's `fail`
unfoldable pub invalid : Text → Error
unfolding text error_code_name
invalid detail = record {
  code = invalid_value;
  message = error_code_name invalid_value ++ (text ": graph_metadata: " ++ detail);
}

valid_access : TensorAccess → Bool
valid_access read = true
valid_access write = true
valid_access read_write = true

valid_storage_policy : TensorStoragePolicy → Bool
valid_storage_policy strided = true
valid_storage_policy ragged_batch_prefix = true

-- The loop of `ragged_storage_bytes` over the axes behind the batch.
unfoldable pub inner_span_from : List ℤ → List ℤ → ℕ → Option ℕ
inner_span_from [] strides inner_span = some inner_span
inner_span_from (d ∷ ds) [] inner_span = some inner_span
inner_span_from (d ∷ ds) (s ∷ ss) inner_span =
    let extent = pos_part d - 1 in
    let stride = pos_part s in
    let rest = inner_span_from ds ss (inner_span + extent * stride) in
    if nonpositive d || nonpositive s || ltb ((u64_max - inner_span) / stride) extent
    then none
    else rest

-- The end of it: as many spans as there are batches.
ragged_bytes_of : DataType → ℕ → Option ℕ → Option ℕ
ragged_bytes_of type batches none = none
ragged_bytes_of type batches (some inner_span) =
    let elements = batches * inner_span in
    let bits = data_type_storage_bits type in
    if ltb (u64_max / inner_span) batches
    then none
    else if bits == 0 || ltb ((u64_max - 7) / bits) elements
    then none
    else some ((elements * bits + 7) / 8)

ragged_bytes_at : DataType → List ℤ → List ℤ → Option ℕ
unfolding ragged_bytes_of
ragged_bytes_at type [] strides = none
ragged_bytes_at type (d ∷ ds) [] = none
ragged_bytes_at type (d ∷ ds) (s ∷ ss) =
    let spans = inner_span_from ds ss 1 in
    if nonpositive d then none else ragged_bytes_of type (pos_part d) spans

unfoldable pub ragged_storage_bytes : TensorArgument → Option ℕ
unfolding ragged_bytes_at
ragged_storage_bytes a = ragged_bytes_at a.data_type a.dimensions a.strides

unfoldable pub expected_size : TensorArgument → Option ℕ
expected_size a =
    if a.storage_policy == ragged_batch_prefix
    then ragged_storage_bytes a
    else tensor_storage_bytes a.data_type a.dimensions a.strides

unfoldable pub size_is : Option ℕ → ℕ → Bool
size_is none n = false
size_is (some m) n = m == n

-- What the exact pointwise policy asks of an argument, and the count of the arguments written.
unfoldable pub check_pointwise : List ℤ → TensorArgument → ℕ → Result ℕ
check_pointwise shape a writes = do
  reject (a.data_type != float32 || a.dimensions != shape)
      (invalid (text "exact-pointwise override arguments must be equal-shape FLOAT tensors"))
  if a.access == write
      then ok (suc writes)
      else if a.access != read
      then err (invalid (text "exact-pointwise override arguments cannot be read-write"))
      else ok writes

-- One round of the loop over the arguments, before the size: `uids` are those seen before.
unfoldable pub check_identity : List ℤ → TensorArgument → Status
unfolding valid_access valid_storage_policy
check_identity uids a = do
  reject (contains a.uid uids) (invalid (text "argument UIDs are not unique"))
  reject (is_empty a.name || has_nul a.name)
      (invalid (text "argument name is empty or contains NUL"))
  reject
      (is_empty a.dimensions
        || ltb 64 (length a.dimensions)
        || length a.dimensions != length a.strides)
      (invalid (text "argument rank or stride rank is invalid"))
  reject (not (is_power_of_two a.alignment) || ltb 4096 a.alignment)
      (invalid (text "argument alignment is invalid"))
  reject (not (valid_access a.access)) (invalid (text "argument access mode is invalid"))
  reject (not (valid_storage_policy a.storage_policy))
      (invalid (text "argument storage policy is invalid"))
  ok tt

unfoldable pub check_storage : TensorArgument → Status
unfolding size_is
check_storage a = do
  reject (not (size_is (expected_size a) a.size_bytes) || ltb u64_max a.size_bytes)
      (invalid (text "argument storage range is invalid"))
  reject
      (a.storage_policy == strided
        && (a.ragged_offset_uid != pos 0
            || a.ragged_sequence_uid != pos 0
            || a.ragged_sequence_divisor != pos 1))
      (invalid (text "strided argument carries ragged references"))
  ok tt

-- The round as a whole; `shape` is the shape of the first argument.
unfoldable pub check_argument :
    ShapeOverridePolicy → List ℤ → List ℤ → ℕ → TensorArgument → Result ℕ
unfolding check_identity check_pointwise check_storage
check_argument policy shape uids writes a = do
  check_identity uids a
  count ← if policy == pointwise_exact then check_pointwise shape a writes else ok writes
  check_storage a
  ok count

-- The loop; it returns `override_write_count`.
unfoldable pub check_arguments :
    ShapeOverridePolicy → List ℤ → List TensorArgument → List ℤ → ℕ → Result ℕ
check_arguments policy shape [] uids writes = ok writes
check_arguments policy shape (a ∷ rest) uids writes =
    check_argument policy shape uids writes a >>= λ count.
    check_arguments policy shape rest (a.uid ∷ uids) count

-- What the last loop asks of a ragged argument, given what its two references find.
unfoldable pub ragged_references_valid :
    TensorArgument → Option TensorArgument → Option TensorArgument → Bool
ragged_references_valid a (some offset) (some sequence) = not (
    (a.data_type != float32 && a.data_type != int32)
    || length a.dimensions != 4
    || nonpositive a.ragged_sequence_divisor
    || ltb_ℤ (pos (i64_max / pos_part a.ragged_sequence_divisor)) (axis_of a.dimensions 2)
    || (offset.data_type != int32 && offset.data_type != int64)
    || sequence.data_type != int32
    || axis_of a.dimensions 0 == pos i64_max
    || offset.dimensions != (axis_of a.dimensions 0 +ℤ pos 1) ∷ pos 1 ∷ pos 1 ∷ pos 1 ∷ []
    || sequence.dimensions != axis_of a.dimensions 0 ∷ pos 1 ∷ pos 1 ∷ pos 1 ∷ []
    || offset.access != read
    || sequence.access != read)
ragged_references_valid a _ _ = false

unfoldable pub check_ragged : List TensorArgument → TensorArgument → Status
unfolding ragged_references_valid
check_ragged arguments a =
    reject
      (a.storage_policy == ragged_batch_prefix
        && not (
            ragged_references_valid a (find_argument arguments a.ragged_offset_uid)
              (find_argument arguments a.ragged_sequence_uid)))
      (invalid (text "ragged argument references are inconsistent"))

unfoldable pub check_ragged_references : List TensorArgument → List TensorArgument → Status
unfolding check_ragged
check_ragged_references arguments [] = ok tt
check_ragged_references arguments (a ∷ rest) =
    let later = check_ragged_references arguments rest in check_ragged arguments a >> later
