-- ===== src/Runtime/Ragged/Bounds.antt =====
-- The run-time size of a ragged argument, computed in lib/Runtime/Executable.cpp from data that the
-- caller passes, against the size that was compiled.
use native.Mathlib.Nat.{div-mul-le_self, mul-le-mul_right}
use deep_forge.Base.{
  ℕ, zero, suc, ◌+◌, ◌-◌, ◌*◌, ◌/◌, ◌≤◌, ◌<◌, ◌≡◌, refl, ap, inl, inr, false, some, List, ℤ, pos,
  negsuc, pos_part, negative, ltb_ℤ, int_eq, Bool-cases, Option-cases, eq_of_!=, arith, ◌==◌,
  nat_eq,
}
use deep_forge.Import.Status.{Result-cases, ok, >>-eq-ok, or_fail}
use deep_forge.Import.Capability.{data_type_storage_bits}
use deep_forge.Metadata.{TensorArgument, axis_of, find_argument}
use deep_forge.Runtime.Ragged.{
  Memory, Segments, check_segment, check_segments, ragged_size_of, required_span,
  storage_sequence_of, both, resolve_ragged_size, segments_of,
}

-- What one accepted round says: the segment's ends are in order and below the bound, and the segment
-- holds what its sequence length requires.
pub record IsSegment (a : TensorArgument) (s : Segments) (maximum : ℕ) (batch : ℕ) : Type 0 where
  pub start : ℕ
  pub end : ℕ
  pub sequence : ℕ
  pub starts : s.read_offset batch ≡ pos start
  pub ends : s.read_offset (batch + 1) ≡ pos end
  pub has_sequence : s.read_sequence batch ≡ pos sequence
  pub ordered : start ≤ end
  pub bounded : end ≤ maximum
  pub span : ℕ
  pub spans :
      required_span a (storage_sequence_of sequence (pos_part a.ragged_sequence_divisor))
      ≡ some span
  pub holds : span ≤ end - start

nonnegative : (z : ℤ) → negative z ≡ false → z ≡ pos (pos_part z)
nonnegative (pos n) h = refl
nonnegative (negsuc n) h = cc

ordered_parts :
    (y z : ℤ)
    → negative y ≡ false
    → ltb_ℤ z y ≡ false
    → (z ≡ pos (pos_part z)) × (pos_part y ≤ pos_part z)
ordered_parts (pos m) (pos n) h k = (refl, ground arith)
ordered_parts (pos m) (negsuc n) h k = cc
ordered_parts (negsuc m) z h k = cc

pub check_segment-IsSegment :
    (a : TensorArgument) (s : Segments) (maximum_sequence maximum batch : ℕ)
    → check_segment a s maximum_sequence maximum batch ≡ ok tt
    → IsSegment a s maximum batch
unfolding check_segment
check_segment-IsSegment a s maximum_sequence maximum batch h =
    let start = s.read_offset batch in
    let end = s.read_offset (batch + 1) in
    let sequence = s.read_sequence batch in
    let rows = storage_sequence_of (pos_part sequence) (pos_part a.ragged_sequence_divisor) in
    elim (Option-cases (required_span a rows)) [
      | inl nothing ↦ absurd (ground arith)
      | inr (span, found) ↦
          let later = ordered_parts start end (ground arith) (ground arith) in
          record {
            start = pos_part start;
            end = pos_part end;
            sequence = pos_part sequence;
            starts = nonnegative start (ground arith);
            ends = later.0;
            has_sequence = nonnegative sequence (ground arith);
            ordered = later.1;
            bounded = ground arith;
            span = span;
            spans = found;
            holds = ground arith;
          }
    ]

check_segments-IsSegment :
    (a : TensorArgument) (s : Segments) (maximum_sequence maximum batch rounds : ℕ)
    → check_segments a s maximum_sequence maximum batch rounds ≡ ok tt
    → (b : ℕ) → batch ≤ b
    → b < batch + rounds
    → IsSegment a s maximum b
unfolding check_segments
check_segments-IsSegment a s maximum_sequence maximum batch zero h b le lt = absurd (omega arith)
check_segments-IsSegment a s maximum_sequence maximum batch (suc rounds) h b le lt =
    let (first, later) =
      >>-eq-ok (check_segment a s maximum_sequence maximum batch)
        (check_segments a s maximum_sequence maximum (suc batch) rounds) h in
    elim (Bool-cases (batch == b)) [
      | inl here ↦
          let same : batch ≡ b = ground arith in
          rw (← same) (check_segment-IsSegment a s maximum_sequence maximum batch first)
      | inr behind ↦
          check_segments-IsSegment a s maximum_sequence maximum (suc batch) rounds later b
            (ground arith) (omega arith)
    ]

-- The number of batches and the bound on the elements, as the code computes them.
abbrev pub batches_of : TensorArgument → ℕ
batches_of a = pos_part (axis_of a.dimensions 0)

abbrev pub element_bytes : TensorArgument → ℕ
element_bytes a = (data_type_storage_bits a.data_type + 7) / 8

abbrev pub maximum_elements : TensorArgument → ℕ
maximum_elements a = a.size_bytes / element_bytes a

-- The last offset is below the bound: it is 0, or the end of the last segment.
endpoint-bound :
    (a : TensorArgument) (s : Segments) (maximum batches : ℕ)
    → s.read_offset 0 ≡ pos 0
    → ((b : ℕ) → b < batches → IsSegment a s maximum b)
    → pos_part (s.read_offset batches) ≤ maximum
endpoint-bound a s maximum zero h segments = omega (arith, ap pos_part h)
endpoint-bound a s maximum (suc b) h segments =
    let last = segments b (omega arith) in
    let index : b + 1 ≡ suc b = omega arith in
    let ends : s.read_offset (suc b) ≡ pos last.end = rw (← index) last.ends in
    omega (arith, ap pos_part ends, last.bounded)

-- A ragged argument whose run-time data is accepted has offsets that start at zero, and for each
-- batch a segment with ordered ends within the compiled bound that holds what its sequence length
-- requires; its size is that of the elements before the last offset, and at most the compiled size.
pub ragged_size_of-bounds :
    (a : TensorArgument) (s : Segments) (n : ℕ)
    → ragged_size_of a s ≡ ok n
    → (s.read_offset 0 ≡ pos 0)
      × ((b : ℕ) → b < batches_of a → IsSegment a s (maximum_elements a) b)
      × (n ≡ pos_part (s.read_offset (batches_of a)) * element_bytes a)
      × (n ≤ a.size_bytes)
unfolding ragged_size_of
ragged_size_of-bounds a s n h =
    let sequence = pos_part (axis_of a.dimensions 2) * pos_part a.ragged_sequence_divisor in
    elim (Result-cases (check_segments a s sequence (maximum_elements a) 0 (batches_of a))) [
      | inr (e, is_err) ↦ absurd (ground arith)
      | inl (u, checked) ↦
          let zero_first : s.read_offset 0 ≡ pos 0 =
            eq_of_!= (s.read_offset 0) (pos 0) (ground arith) in
          let segments = λ (b : ℕ) (lt : b < batches_of a).
            check_segments-IsSegment a s sequence (maximum_elements a) 0 (batches_of a) checked b
              (omega arith) (omega (arith, lt)) in
          let size : n ≡ pos_part (s.read_offset (batches_of a)) * element_bytes a = ground arith in
          let bound = endpoint-bound a s (maximum_elements a) (batches_of a) zero_first segments in
          (
            zero_first,
            segments,
            size,
            omega (
              arith,
              size,
              mul-le-mul_right (element_bytes a) bound,
              div-mul-le_self a.size_bytes (element_bytes a),
            ),
          )
    ]

-- The same for the size that the call computes from memory.
pub resolve_ragged_size-bound :
    (memory : Memory) (arguments : List TensorArgument) (pointers : ℤ → ℕ) (a : TensorArgument)
    (n : ℕ)
    → resolve_ragged_size memory arguments pointers a ≡ ok n
    → n ≤ a.size_bytes
unfolding resolve_ragged_size
resolve_ragged_size-bound memory arguments pointers a n h =
    elim (Option-cases (
      both (find_argument arguments a.ragged_offset_uid)
        (find_argument arguments a.ragged_sequence_uid))) [
          | inl nothing ↦ absurd (ground arith)
          | inr (references, found) ↦
              let (first, segments, size, bound) =
                ragged_size_of-bounds a (segments_of memory pointers references.0 references.1) n
                  (rw (found, or_fail) at h) in
              bound
        ]
