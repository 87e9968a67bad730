-- ===== src/Examples/Segmented.antt =====
-- A ragged argument of two batches, of four rows at most, with two and three rows at run time.
use deep_forge.Base.{ℕ, zero, suc, ◌*◌, ◌≤◌, ◌<◌, ◌≡◌, refl, [], ◌∷◌, ℤ, pos, pos_part, find}
use deep_forge.Import.Status.{ok}
use deep_forge.Import.DataTypes.{float32, data_type_beq}
use deep_forge.Import.Capability.{data_type_storage_bits}
use deep_forge.Metadata.{TensorArgument, read, ragged_batch_prefix}
use deep_forge.Runtime.Ragged.{
  Segments, ragged_size_of, check_segment, check_segments, required_span, required_span_from,
  storage_sequence_of,
}
use deep_forge.Runtime.Ragged.Bounds.{
  IsSegment, ragged_size_of-bounds, batches_of, maximum_elements, element_bytes,
}

abbrev argument : TensorArgument
argument = record {
  uid = pos 1;
  name = 113 ∷ [];
  data_type = float32;
  dimensions = pos 2 ∷ pos 1 ∷ pos 4 ∷ pos 2 ∷ [];
  strides = pos 8 ∷ pos 8 ∷ pos 2 ∷ pos 1 ∷ [];
  size_bytes = 64;
  alignment = 4;
  access = read;
  storage_policy = ragged_batch_prefix;
  ragged_offset_uid = pos 2;
  ragged_sequence_uid = pos 3;
  ragged_sequence_divisor = pos 1;
}

abbrev offset_at : ℕ → ℤ
offset_at zero = pos 0
offset_at (suc zero) = pos 4
offset_at (suc (suc n)) = pos 10

abbrev sequence_at : ℕ → ℤ
sequence_at zero = pos 2
sequence_at (suc n) = pos 3

abbrev segments : Segments
segments = record { read_offset = offset_at; read_sequence = sequence_at }

forty_bytes : ragged_size_of argument segments ≡ ok 40
unfolding ragged_size_of check_segments check_segment required_span required_span_from
    storage_sequence_of data_type_storage_bits find data_type_beq
forty_bytes = refl

ragged_size_of-bounds_example :
    (segments.read_offset 0 ≡ pos 0)
    × ((b : ℕ)
        → b < batches_of argument
        → IsSegment argument segments (maximum_elements argument) b)
    × (40 ≡ pos_part (segments.read_offset (batches_of argument)) * element_bytes argument)
    × (40 ≤ argument.size_bytes)
ragged_size_of-bounds_example = ragged_size_of-bounds argument segments 40 forty_bytes
