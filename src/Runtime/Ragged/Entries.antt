-- ===== src/Runtime/Ragged/Entries.antt =====
-- lib/Runtime/Executable.cpp, `resolve_ragged_size`: where the entries that it reads lie.
use native.Mathlib.Nat.{mul-le-mul_right}
use deep_forge.Base.{
  ℕ, zero, suc, ◌+◌, ◌*◌, ◌%◌, ◌^◌, ◌≤◌, ◌<◌, ◌≡◌, refl, ◌⊎◌, inl, inr, true, false, some, List, [],
  ◌∷◌, length, find, ℤ, pos, pos_part, nonpositive, eq_of_positive, to_u64, u64_max, arith, ◌==◌,
  int_eq, if◌then◌else◌,
}
use deep_forge.Import.DataTypes.{DataType, int32, int64, data_type_beq, data_type_eq}
use deep_forge.Import.Capability.{data_type_storage_bits, tensor_storage_bytes}
use deep_forge.Import.Capability.Storage.{positive_axes, tensor_storage_bytes-eq}
use deep_forge.Import.Capability.Indexing.{IsIndex, offset, tensor_storage_bytes-covers}
use deep_forge.Metadata.{TensorArgument, storage_policy_eq, axis_of}
use deep_forge.Runtime.Ragged.{element_index}

-- The bytes of one entry of an index argument.
abbrev pub entry_bytes : DataType → ℕ
entry_bytes t = if t == int32 then 4 else 8

-- The entry that is read for a batch lies in the compiled buffer.
abbrev pub IsInBuffer : TensorArgument → ℕ → Type 0
IsInBuffer a batch =
    element_index a batch * entry_bytes a.data_type + entry_bytes a.data_type ≤ a.size_bytes

-- The same, at the index that the stride gives without a wrap-around.
abbrev pub IsEntry : TensorArgument → ℕ → Type 0
IsEntry a batch =
    (element_index a batch ≡ batch * pos_part (axis_of a.strides 0)) × IsInBuffer a batch

-- The offset of the first entry along the batches.
offset-first :
    (ss : List ℤ) (b : ℕ)
    → length ss ≡ 4
    → offset ss (b ∷ 0 ∷ 0 ∷ 0 ∷ []) ≡ b * pos_part (axis_of ss 0)
offset-first (s ∷ t ∷ u ∷ v ∷ []) b h = omega arith
offset-first [] b h = cc
offset-first (s ∷ []) b h = cc
offset-first (s ∷ t ∷ []) b h = cc
offset-first (s ∷ t ∷ u ∷ []) b h = cc
offset-first (s ∷ t ∷ u ∷ v ∷ w ∷ ss) b h = absurd (omega (arith, h))

entry_bits :
    (t : DataType) → (t ≡ int32) ⊎ (t ≡ int64) → data_type_storage_bits t ≡ 8 * entry_bytes t
unfolding data_type_storage_bits find data_type_beq
entry_bits t (inl same) = rw same refl
entry_bits t (inr same) = rw same refl

index_exact : (b n : ℕ) → b * n ≤ u64_max → b * (n % 2 ^ 64) % 2 ^ 64 ≡ b * n
index_exact zero n h = omega arith
index_exact (suc b) n h =
    let stride : 1 * n ≤ suc b * n = mul-le-mul_right n (omega arith) in
    let same : n % 2 ^ 64 ≡ n = omega (arith, stride) in rw same (omega arith)

pub positive_axes_of :
    (t : DataType) (ds ss : List ℤ) {n : ℕ}
    → tensor_storage_bytes t ds ss ≡ some n
    → positive_axes ds ss ≡ true
positive_axes_of t ds ss h = ground (arith, tensor_storage_bytes-eq t ds ss)

first_stride :
    (d : ℤ) (ds ss : List ℤ)
    → length ss ≡ 4
    → positive_axes (d ∷ ds) ss ≡ true
    → nonpositive (axis_of ss 0) ≡ false
first_stride d ds [] h k = cc
first_stride d ds (s ∷ ss) h k = ground arith

pub first_extent :
    (d : ℤ) (ds ss : List ℤ)
    → length ss ≡ length (d ∷ ds)
    → positive_axes (d ∷ ds) ss ≡ true
    → nonpositive d ≡ false
first_extent d ds [] h k = absurd (omega (arith, h))
first_extent d ds (s ∷ ss) h k = ground arith

element_index-eq :
    (a : TensorArgument) (b : ℕ)
    → nonpositive (axis_of a.strides 0) ≡ false
    → b * pos_part (axis_of a.strides 0) ≤ u64_max
    → element_index a b ≡ b * pos_part (axis_of a.strides 0)
unfolding element_index to_u64
element_index-eq a b h k =
    let (same, positive) = eq_of_positive (axis_of a.strides 0) h in
    rw same (index_exact b (pos_part (axis_of a.strides 0)) k)

entry_bytes_cases : (t : DataType) → (entry_bytes t ≡ 4) ⊎ (entry_bytes t ≡ 8)
entry_bytes_cases t = ground arith

scaled-IsEntry :
    (a : TensorArgument) (b : ℕ)
    → (entry_bytes a.data_type ≡ 4) ⊎ (entry_bytes a.data_type ≡ 8)
    → a.size_bytes ≤ u64_max
    → nonpositive (axis_of a.strides 0) ≡ false
    → (b * pos_part (axis_of a.strides 0) + 1) * (8 * entry_bytes a.data_type) ≤ 8 * a.size_bytes
    → IsEntry a b
scaled-IsEntry a b (inl four) bounded positive bytes =
    let scaled : (b * pos_part (axis_of a.strides 0) + 1) * 32 ≤ 8 * a.size_bytes =
      rw four at bytes in
    let exact = element_index-eq a b positive (omega (arith, scaled)) in
    (exact, rw (exact, four) (omega (arith, scaled)))
scaled-IsEntry a b (inr eight) bounded positive bytes =
    let scaled : (b * pos_part (axis_of a.strides 0) + 1) * 64 ≤ 8 * a.size_bytes =
      rw eight at bytes in
    let exact = element_index-eq a b positive (omega (arith, scaled)) in
    (exact, rw (exact, eight) (omega (arith, scaled)))

-- An entry of an index argument with one axis of batches lies in its buffer.
pub batch-IsEntry :
    (a : TensorArgument) (d : ℤ) (b : ℕ)
    → (a.data_type ≡ int32) ⊎ (a.data_type ≡ int64)
    → tensor_storage_bytes a.data_type a.dimensions a.strides ≡ some a.size_bytes
    → a.size_bytes ≤ u64_max
    → length a.strides ≡ 4
    → a.dimensions ≡ d ∷ pos 1 ∷ pos 1 ∷ pos 1 ∷ []
    → b < pos_part d
    → IsEntry a b
batch-IsEntry a d b type sized bounded rank shape lt =
    let ones = pos 1 ∷ pos 1 ∷ pos 1 ∷ [] in
    let stride = pos_part (axis_of a.strides 0) in
    let sized' : tensor_storage_bytes a.data_type (d ∷ ones) a.strides ≡ some a.size_bytes =
      rw (← shape) sized in
    let inside : IsIndex (d ∷ ones) (b ∷ 0 ∷ 0 ∷ 0 ∷ []) =
      (lt, (omega arith, (omega arith, (omega arith, tt)))) in
    let covered = tensor_storage_bytes-covers a.data_type (d ∷ ones) a.strides _ sized' inside in
    let at = offset-first a.strides b rank in
    let bits = entry_bits a.data_type type in
    let bytes : (b * stride + 1) * (8 * entry_bytes a.data_type) ≤ 8 * a.size_bytes =
      rw (← at, ← bits) covered in
    let positive =
      first_stride d ones a.strides rank
        (positive_axes_of a.data_type (d ∷ ones) a.strides sized') in
    scaled-IsEntry a b (entry_bytes_cases a.data_type) bounded positive bytes
