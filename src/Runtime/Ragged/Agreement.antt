-- ===== src/Runtime/Ragged/Agreement.antt =====
-- lib/Runtime/Executable.cpp, `resolve_ragged_size`: on which bytes of memory its result depends.
use deep_forge.Base.{
  ℕ, zero, suc, ◌+◌, ◌*◌, ◌%◌, ◌^◌, ◌≤◌, ◌<◌, ◌≡◌, refl, inl, inr, Bool-cases, ℤ, u64_max, arith,
  ◌==◌, if◌then◌else◌,
}
use deep_forge.Import.DataTypes.{DataType, int32, data_type_eq}
use deep_forge.Metadata.{TensorArgument}
use deep_forge.Runtime.Ragged.{
  Memory, load_bytes, load_signed_element, Segments, check_segment, check_segments, ragged_size_of,
  element_index, segments_of,
}
use deep_forge.Runtime.Ragged.Bounds.{batches_of}
use deep_forge.Runtime.Ragged.Entries.{entry_bytes, IsInBuffer}

-- Two memories have the same bytes in a buffer.
abbrev pub AgreeOn : ℕ → ℕ → Memory → Memory → Type 0
AgreeOn begin size m n = (x : ℕ) → begin ≤ x → x < begin + size → m x ≡ n x

load_bytes-agree :
    (begin size : ℕ) (m n : Memory) (x count : ℕ)
    → AgreeOn begin size m n
    → begin ≤ x
    → x + count ≤ begin + size
    → load_bytes m x count ≡ load_bytes n x count
unfolding load_bytes
load_bytes-agree begin size m n x zero h le fits = refl
load_bytes-agree begin size m n x (suc count) h le fits =
    rw
      (
        h x le (omega arith),
        load_bytes-agree begin size m n (x + 1) count h (omega arith) (omega arith),
      )
      refl

load_signed_element-agree :
    (begin size : ℕ) (m n : Memory) (t : DataType) (e : ℕ)
    → AgreeOn begin size m n
    → size ≤ u64_max
    → e * entry_bytes t + entry_bytes t ≤ size
    → load_signed_element m begin t e ≡ load_signed_element n begin t e
unfolding load_signed_element
load_signed_element-agree begin size m n t e h bounded inside = elim (Bool-cases (t == int32)) [
  | inl four ↦
      let fits : e * 4 + 4 ≤ size = rw (four, if◌then◌else◌) at inside in
      rw
        (
          four,
          load_bytes-agree begin size m n (begin + e * 4 % 2 ^ 64) 4 h (omega arith)
              (omega (arith, fits)),
        )
        refl
  | inr eight ↦
      let fits : e * 8 + 8 ≤ size = rw (eight, if◌then◌else◌) at inside in
      rw
        (
          eight,
          load_bytes-agree begin size m n (begin + e * 8 % 2 ^ 64) 8 h (omega arith)
              (omega (arith, fits)),
        )
        refl
]

-- Two readings that give the same for the entries of a count of batches.
record SameUpTo (batches : ℕ) (s t : Segments) : Type 0 where
  offsets : (b : ℕ) → b ≤ batches → s.read_offset b ≡ t.read_offset b
  sequences : (b : ℕ) → b < batches → s.read_sequence b ≡ t.read_sequence b

check_segment-same :
    (a : TensorArgument) (s t : Segments) (longest most batches b : ℕ)
    → SameUpTo batches s t
    → b < batches
    → check_segment a s longest most b ≡ check_segment a t longest most b
unfolding check_segment
check_segment-same a s t longest most batches b h lt =
    rw (h.offsets b (omega arith), h.offsets (b + 1) (omega arith), h.sequences b lt) refl

check_segments-same :
    (a : TensorArgument) (s t : Segments) (longest most batches b rounds : ℕ)
    → SameUpTo batches s t
    → b + rounds ≤ batches
    → check_segments a s longest most b rounds ≡ check_segments a t longest most b rounds
unfolding check_segments
check_segments-same a s t longest most batches b zero h le = refl
check_segments-same a s t longest most batches b (suc rounds) h le =
    rw
      (
        check_segment-same a s t longest most batches b h (omega arith),
        check_segments-same a s t longest most batches (suc b) rounds h (omega arith),
      )
      refl

ragged_size_of-same :
    (a : TensorArgument) (s t : Segments)
    → SameUpTo (batches_of a) s t
    → ragged_size_of a s ≡ ragged_size_of a t
unfolding ragged_size_of
ragged_size_of-same a s t h =
    rw
      (
        h.offsets 0 (omega arith),
        check_segments-same a s t _ _ (batches_of a) 0 (batches_of a) h (omega arith),
        h.offsets (batches_of a) (omega arith),
      )
      refl

-- Where the entries lie in the two buffers, the size depends on the bytes there only.
pub ragged_size_of-agree :
    (a o s : TensorArgument) (m n : Memory) (pointers : ℤ → ℕ)
    → o.size_bytes ≤ u64_max
    → s.size_bytes ≤ u64_max
    → ((b : ℕ) → b ≤ batches_of a → IsInBuffer o b)
    → ((b : ℕ) → b < batches_of a → IsInBuffer s b)
    → AgreeOn (pointers o.uid) o.size_bytes m n
    → AgreeOn (pointers s.uid) s.size_bytes m n
    → ragged_size_of a (segments_of m pointers o s) ≡ ragged_size_of a (segments_of n pointers o s)
unfolding segments_of
ragged_size_of-agree a o s m n pointers ho hs offsets sequences agree_o agree_s =
    ragged_size_of-same a (segments_of m pointers o s) (segments_of n pointers o s) (record {
      offsets = λ b le.
          load_signed_element-agree (pointers o.uid) o.size_bytes m n o.data_type
            (element_index o b) agree_o ho (offsets b le);
      sequences = λ b lt.
          load_signed_element-agree (pointers s.uid) s.size_bytes m n s.data_type
            (element_index s b) agree_s hs (sequences b lt);
    })
