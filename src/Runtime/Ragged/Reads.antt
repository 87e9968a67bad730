-- ===== src/Runtime/Ragged/Reads.antt =====
-- The reads of `resolve_ragged_size` of lib/Runtime/Executable.cpp against what
-- `validate_graph_compile_metadata` has established.
use deep_forge.Base.{
  ℕ, zero, suc, ◌≤◌, ◌<◌, ◌≡◌, refl, sym, ap, subst, ◌∙◌, ◌⊎◌, Option, inl, false, some, List, [],
  ◌∷◌, length, All, find-All, get_elem?, ℤ, pos, negsuc, pos_part, nonpositive, ◌+ℤ◌, arith, ◌==◌,
  int_eq, if◌then◌else◌,
}
use deep_forge.Import.Status.{ok}
use deep_forge.Import.DataTypes.{int32, int64, data_type_eq}
use deep_forge.Import.Capability.{tensor_storage_bytes}
use deep_forge.Metadata.{
  TensorArgument, GraphMetadata, strided, ragged_batch_prefix, storage_policy_eq,
  storage_policy_beq, axis_of, find_argument,
}
use deep_forge.Metadata.Arguments.{expected_size}
use deep_forge.Metadata.Validation.{validate_graph_metadata}
use deep_forge.Metadata.Validity.{
  IsArgument, IsRagged, References, IsMetadata, validate_graph_metadata-IsMetadata,
}
use deep_forge.Runtime.Ragged.{Memory, resolve_ragged_size, ragged_size_of, segments_of}
use deep_forge.Runtime.Ragged.Bounds.{batches_of}
use deep_forge.Runtime.Ragged.Agreement.{AgreeOn, ragged_size_of-agree}
use deep_forge.Runtime.Ragged.Entries.{IsEntry, batch-IsEntry, positive_axes_of, first_extent}

module _ {ℓ κ} {A : Type ℓ} (P : A → Type κ) where
  get_elem?-All : (xs : List A) (i : ℕ) {x : A} → All P xs → get_elem? xs i ≡ some x → P x
  get_elem?-All [] i h e = cc
  get_elem?-All (y ∷ xs) zero {x} h e = let same : y ≡ x = cc in rw (← same) h.0
  get_elem?-All (y ∷ xs) (suc i) h e = get_elem?-All xs i h.1 e

expected_size_strided :
    (a : TensorArgument) {n : ℕ}
    → a.storage_policy ≡ strided
    → expected_size a ≡ some n
    → tensor_storage_bytes a.data_type a.dimensions a.strides ≡ some n
unfolding expected_size storage_policy_beq
expected_size_strided a s h =
    let test : (a.storage_policy == ragged_batch_prefix) ≡ false = rw s refl in
    rw (test, if◌then◌else◌) at h

-- What holds of the reads for a ragged argument, with the arguments of its offsets and its sequence
-- lengths: the offsets of all batches and their end, and all sequence lengths, stand in the two
-- compiled buffers, at indices that do not wrap around; and the size that the run-time check computes
-- is the same for any two memories that agree on the bytes of the two buffers.
pub record ReadsSafely (g : GraphMetadata) (a o s : TensorArgument) : Type 0 where
  pub offset_entries : (b : ℕ) → b ≤ batches_of a → IsEntry o b
  pub sequence_entries : (b : ℕ) → b < batches_of a → IsEntry s b
  pub reads_only :
      (m n : Memory) (pointers : ℤ → ℕ)
      → AgreeOn (pointers o.uid) o.size_bytes m n
      → AgreeOn (pointers s.uid) s.size_bytes m n
      → resolve_ragged_size m g.arguments pointers a ≡ resolve_ragged_size n g.arguments pointers a

one_more :
    (d : ℤ) (b : ℕ) → nonpositive (d +ℤ pos 1) ≡ false → b ≤ pos_part d → b < pos_part (d +ℤ pos 1)
unfolding ◌+ℤ◌
one_more (pos n) b h le = ground arith
one_more (negsuc n) b h le = ground arith

resolve_ragged_size-found :
    (memory : Memory) (arguments : List TensorArgument) (pointers : ℤ → ℕ) (a o s : TensorArgument)
    → find_argument arguments a.ragged_offset_uid ≡ some o
    → find_argument arguments a.ragged_sequence_uid ≡ some s
    → resolve_ragged_size memory arguments pointers a
      ≡ ragged_size_of a (segments_of memory pointers o s)
unfolding resolve_ragged_size
resolve_ragged_size-found memory arguments pointers a o s ho hs = rw (ho, hs) refl

strided_sized :
    (a : TensorArgument)
    → IsArgument a
    → a.storage_policy ≡ strided
    → tensor_storage_bytes a.data_type a.dimensions a.strides ≡ some a.size_bytes
strided_sized a v s = expected_size_strided a s v.sized

first_positive :
    (a : TensorArgument) (d : ℤ) (ds : List ℤ) {n : ℕ}
    → a.dimensions ≡ d ∷ ds
    → length a.strides ≡ length a.dimensions
    → tensor_storage_bytes a.data_type a.dimensions a.strides ≡ some n
    → nonpositive d ≡ false
first_positive a d ds {n} shape rank sized =
    first_extent d ds a.strides (rank ∙ ap length shape)
      (positive_axes_of a.data_type (d ∷ ds) a.strides {n = n} (rw (← shape) sized))

offset-IsEntry :
    (a o : TensorArgument)
    → IsArgument o
    → o.storage_policy ≡ strided
    → (o.data_type ≡ int32) ⊎ (o.data_type ≡ int64)
    → o.dimensions ≡ (axis_of a.dimensions 0 +ℤ pos 1) ∷ pos 1 ∷ pos 1 ∷ pos 1 ∷ []
    → (b : ℕ) → b ≤ batches_of a
    → IsEntry o b
offset-IsEntry a o v s type shape b le =
    let d = axis_of a.dimensions 0 in
    let sized = strided_sized o v s in
    batch-IsEntry o (d +ℤ pos 1) b type sized v.bounded (v.strided ∙ ap length shape) shape
      (one_more d b (first_positive o (d +ℤ pos 1) _ shape v.strided sized) le)

ReadsSafely-of_references :
    (g : GraphMetadata) (a : TensorArgument) (r : IsRagged g.arguments a)
    → IsMetadata g
    → r.offsets.storage_policy ≡ strided
    → r.sequences.storage_policy ≡ strided
    → ReadsSafely g a r.offsets r.sequences
unfolding find_argument
ReadsSafely-of_references g a r v so ss =
    let o = r.offsets in
    let s = r.sequences in
    let o_ok =
      find-All IsArgument (λ x. x.uid == a.ragged_offset_uid) g.arguments v.each r.offsets_found in
    let s_ok =
      find-All IsArgument (λ x. x.uid == a.ragged_sequence_uid) g.arguments v.each
        r.sequences_found in
    let offset_all = offset-IsEntry a o o_ok so r.offsets_type r.offsets_shape in
    let sequence_all = λ (b : ℕ) (lt : b < batches_of a).
      batch-IsEntry s (axis_of a.dimensions 0) b (inl r.sequences_type) (strided_sized s s_ok ss)
        s_ok.bounded (s_ok.strided ∙ ap length r.sequences_shape) r.sequences_shape lt in
    record {
      offset_entries = offset_all;
      sequence_entries = sequence_all;
      reads_only = λ m n pointers agree_o agree_s.
          resolve_ragged_size-found m g.arguments pointers a o s r.offsets_found r.sequences_found
          ∙ (ragged_size_of-agree a o s m n pointers o_ok.bounded s_ok.bounded
                (λ b le. (offset_all b le).1) (λ b lt. (sequence_all b lt).1) agree_o agree_s
              ∙ sym (
                  resolve_ragged_size-found n g.arguments pointers a o s r.offsets_found
                    r.sequences_found));
    }

found_argument :
    {o p : TensorArgument} (x : Option TensorArgument) → x ≡ some o → x ≡ some p → o ≡ p
found_argument x h k = cc

-- With validated metadata, for a ragged argument whose offsets and sequence lengths stand in two
-- strided arguments: the entries for all batches lie in the two compiled buffers, at indices that do
-- not wrap around, and the size that resolve_ragged_size computes, or its error, is the same for any
-- two memories that agree on the bytes of the two buffers.
pub validate_graph_metadata-ReadsSafely :
    (g : GraphMetadata) (a o s : TensorArgument) (i : ℕ)
    → validate_graph_metadata g ≡ ok tt
    → get_elem? g.arguments i ≡ some a
    → a.storage_policy ≡ ragged_batch_prefix
    → find_argument g.arguments a.ragged_offset_uid ≡ some o
    → find_argument g.arguments a.ragged_sequence_uid ≡ some s
    → o.storage_policy ≡ strided
    → s.storage_policy ≡ strided
    → ReadsSafely g a o s
validate_graph_metadata-ReadsSafely g a o s i h at ragged found_o found_s so ss =
    let v = validate_graph_metadata-IsMetadata g h in
    let r = get_elem?-All (References g.arguments) g.arguments i v.references at ragged in
    let same_o : r.offsets ≡ o = found_argument _ r.offsets_found found_o in
    let same_s : r.sequences ≡ s = found_argument _ r.sequences_found found_s in
    subst (λ x. ReadsSafely g a x s) same_o
      (subst (λ x. ReadsSafely g a r.offsets x) same_s
        (ReadsSafely-of_references g a r v (rw same_o so) (rw same_s ss)))
