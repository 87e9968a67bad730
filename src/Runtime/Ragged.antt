-- ===== src/Runtime/Ragged.antt =====
-- lib/Runtime/Executable.cpp: the size of a ragged argument, whose segments are read at run time
-- from two other arguments. Memory is a function from addresses to bytes; the host is x86-64, so
-- std::memcpy reads integers low byte first.
pub mod Bounds
pub mod Entries
pub mod Agreement
pub mod Reads
use deep_forge.Base.{
  to_u64, ℕ, zero, suc, ◌+◌, ◌-◌, ◌*◌, ◌/◌, ◌%◌, ◌^◌, Bool, true, false, not, ◌&&◌, ◌||◌, Option,
  none, some, List, [], ◌∷◌, text, Text, if◌then◌else◌, ltb, leb, ◌==◌, ◌!=◌, nat_eq, ℤ, pos,
  negsuc, pos_part, int_eq, negative, leb_ℤ, ltb_ℤ, u64_max,
}
use deep_forge.Import.Status.{
  Result, Status, Error, ok, err, ◌>>=◌, ◌>>◌, reject, fail, or_fail, invalid_value,
  invalid_variant_pack, dimension_overflow,
}
use deep_forge.Import.DataTypes.{DataType, int32, data_type_eq}
use deep_forge.Import.Capability.{data_type_storage_bits}
use deep_forge.Metadata.{TensorArgument, axis_of, find_argument}

abbrev pub Memory : Type 0
Memory = ℕ → ℕ

-- The number that a count of bytes stands for, the first the lowest.
unfoldable pub load_bytes : Memory → ℕ → ℕ → ℕ
load_bytes memory address zero = 0
load_bytes memory address (suc count) =
    memory address % 256 + 256 * load_bytes memory (address + 1) count

-- A bit pattern of a width as a signed number.
unfoldable pub as_signed : ℕ → ℕ → ℤ
as_signed width bits =
    if ltb bits (2 ^ (width - 1)) then pos bits else negsuc (2 ^ width - 1 - bits)

unfoldable pub load_signed_element : Memory → ℕ → DataType → ℕ → ℤ
unfolding load_bytes as_signed
load_signed_element memory pointer type element =
    if type == int32
    then as_signed 32 (load_bytes memory (pointer + element * 4 % 2 ^ 64) 4)
    else as_signed 64 (load_bytes memory (pointer + element * 8 % 2 ^ 64) 8)

-- The loop over the axes behind the batch; axis 2 counts the runtime sequence.
unfoldable pub required_span_from : ℕ → ℕ → List ℤ → List ℤ → ℕ → Option ℕ
required_span_from axis storage_sequence (d ∷ ds) (s ∷ ss) span =
    let extent = (if axis == 2 then storage_sequence else pos_part d) - 1 in
    let stride = pos_part s in
    let rest = required_span_from (suc axis) storage_sequence ds ss (span + extent * stride) in
    if ltb ((u64_max - span) / stride) extent then none else rest
required_span_from axis storage_sequence _ _ span = some span

abbrev tail_of : List ℤ → List ℤ
tail_of [] = []
tail_of (d ∷ ds) = ds

unfoldable pub required_span : TensorArgument → ℕ → Option ℕ
required_span a storage_sequence =
    if storage_sequence == 0
    then some 0
    else required_span_from 1 storage_sequence (tail_of a.dimensions) (tail_of a.strides) 1

-- The storage rows of a sequence length, which is not negative here: the quotient rounded up.
unfoldable pub storage_sequence_of : ℕ → ℕ → ℕ
storage_sequence_of sequence_length divisor =
    sequence_length / divisor + (if sequence_length % divisor != 0 then 1 else 0)

-- What the loop reads from the two arguments.
pub record Segments : Type 0 where
  pub read_offset : ℕ → ℤ
  pub read_sequence : ℕ → ℤ

-- One round of the loop over the batches.
unfoldable pub check_segment : TensorArgument → Segments → ℕ → ℕ → ℕ → Status
check_segment a segments maximum_sequence maximum_elements batch = do
  let start = segments.read_offset batch
  let end = segments.read_offset (batch + 1)
  let sequence_length = segments.read_sequence batch
  reject (negative start || ltb_ℤ end start || ltb maximum_elements (pos_part end)) (
      fail invalid_variant_pack a.name
        (text "ragged offsets must be monotonic and within the compiled storage bound"))
  reject (negative sequence_length || ltb_ℤ (pos maximum_sequence) sequence_length) (
      fail invalid_variant_pack a.name
        (text "runtime sequence length exceeds the ragged logical bound"))
  let storage_sequence =
      storage_sequence_of (pos_part sequence_length) (pos_part a.ragged_sequence_divisor)
  span ←
      or_fail (required_span a storage_sequence)
        (fail dimension_overflow a.name (text "runtime ragged span overflows uint64"))
  reject (ltb (pos_part end - pos_part start) span) (
      fail invalid_variant_pack a.name (
        text "ragged segment is shorter than its runtime sequence length and inner layout require"))
  ok tt

unfoldable pub check_segments : TensorArgument → Segments → ℕ → ℕ → ℕ → ℕ → Status
check_segments a segments maximum_sequence maximum_elements batch zero = ok tt
check_segments a segments maximum_sequence maximum_elements batch (suc rounds) =
    let later = check_segments a segments maximum_sequence maximum_elements (suc batch) rounds in
    check_segment a segments maximum_sequence maximum_elements batch >> later

-- The element that holds the entry of a batch; the product is on 64-bit words.
unfoldable pub element_index : TensorArgument → ℕ → ℕ
element_index a batch = batch * to_u64 (axis_of a.strides 0) % 2 ^ 64

unfoldable pub segments_of : Memory → (ℤ → ℕ) → TensorArgument → TensorArgument → Segments
segments_of memory pointers offset sequence = record {
  read_offset = λ batch.
      load_signed_element memory (pointers offset.uid) offset.data_type
        (element_index offset batch);
  read_sequence = λ batch.
      load_signed_element memory (pointers sequence.uid) sequence.data_type
        (element_index sequence batch);
}

unfoldable pub ragged_size_of : TensorArgument → Segments → Result ℕ
ragged_size_of a segments = do
  reject (segments.read_offset 0 != pos 0)
      (fail invalid_variant_pack a.name (text "ragged offsets must start at zero"))
  let element_bytes = (data_type_storage_bits a.data_type + 7) / 8
  let batches = pos_part (axis_of a.dimensions 0)
  let maximum_sequence = pos_part (axis_of a.dimensions 2) * pos_part a.ragged_sequence_divisor
  check_segments a segments maximum_sequence (a.size_bytes / element_bytes) 0 batches
  let endpoint = pos_part (segments.read_offset batches)
  reject (ltb (u64_max / element_bytes) endpoint)
      (fail dimension_overflow a.name (text "runtime ragged byte span overflows uint64"))
  ok (endpoint * element_bytes)

-- Both references, when both are found.
abbrev pub both {ℓ} : {A : Type ℓ} → Option A → Option A → Option (A × A)
both (some a) (some b) = some (a, b)
both _ _ = none

-- `pointers` gives the address under each argument's UID, which the caller has looked up before.
unfoldable pub resolve_ragged_size :
    Memory → List TensorArgument → (ℤ → ℕ) → TensorArgument → Result ℕ
resolve_ragged_size memory arguments pointers a = do
  references ←
      or_fail
        (both (find_argument arguments a.ragged_offset_uid)
          (find_argument arguments a.ragged_sequence_uid))
        (fail invalid_value a.name (text "ragged metadata references are unresolved"))
  ragged_size_of a (segments_of memory pointers references.0 references.1)
