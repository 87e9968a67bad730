-- ===== src/Artifact/RoundTrip/Arguments.antt =====
-- lib/Compiler/Artifact.cpp: the argument table, written and read back.
use mathlib.Core.List.{append_assoc, append-nil}
use deep_forge.Base.{
  ℕ, ◌%◌, ◌^◌, ◌≤◌, ◌<◌, ◌≡◌, refl, sym, ap, ◌∙◌, false, List, [], ◌∷◌, ◌++◌, length, All, le→ltb,
  eqb, contains, nat_eq, u32_max, u64_max, nonpositive, arith,
}
use deep_forge.Import.Status.{ok}
use deep_forge.Import.DataTypes.{DataType, data_type_code, data_type_of_code-code, float32, float64}
use deep_forge.Metadata.{
  TensorArgument, TensorAccess, access_code, access_of_code-code, TensorStoragePolicy,
  storage_policy_code, storage_policy_of_code-code, read, write, read_write, strided,
  ragged_batch_prefix,
}
use deep_forge.Artifact.{format_version}
use deep_forge.Artifact.Reader.{done}
use deep_forge.Artifact.Serialize.{append_argument, append_each_argument, append_arguments}
use deep_forge.Artifact.Parse.Tables.{
  Storage, read_storage, read_divisor, parse_argument, parse_each_argument, parse_arguments,
}
use deep_forge.Artifact.RoundTrip.Words.{
  u32_bytes, append_u32-eq, read_u32-eq, u64_bytes, append_u64-eq, read_u64-eq, i64_bytes,
  append_i64-eq, read_i64-eq, string_bytes, append_string-eq, read_string-eq, IsShort, vector_bytes,
  append_i64_vector-eq, read_i64_vector-eq, IsI64,
}

pub storage_bytes : TensorArgument → List ℕ
storage_bytes a =
    u32_bytes (storage_policy_code a.storage_policy)
    ++ (i64_bytes a.ragged_offset_uid ++ i64_bytes a.ragged_sequence_uid)

pub argument_bytes : TensorArgument → List ℕ
argument_bytes a =
    i64_bytes a.uid
    ++ (string_bytes a.name
        ++ (u32_bytes (data_type_code a.data_type)
            ++ (u32_bytes (access_code a.access)
                ++ (storage_bytes a
                    ++ (i64_bytes a.ragged_sequence_divisor
                        ++ (u64_bytes a.alignment
                            ++ (u64_bytes a.size_bytes
                                ++ (u32_bytes (length a.dimensions)
                                    ++ (vector_bytes a.dimensions ++ vector_bytes a.strides)))))))))

-- What the reader needs of an argument.
pub record IsStorableArgument (a : TensorArgument) : Type 0 where
  pub uid : IsI64 a.uid
  pub name : IsShort a.name
  pub offset_uid : IsI64 a.ragged_offset_uid
  pub sequence_uid : IsI64 a.ragged_sequence_uid
  pub divisor : IsI64 a.ragged_sequence_divisor
  pub divides : nonpositive a.ragged_sequence_divisor ≡ false
  pub alignment : a.alignment ≤ u64_max
  pub size_bytes : a.size_bytes ≤ u64_max
  pub rank : (0 < length a.dimensions) × (length a.dimensions ≤ 64)
  pub same_rank : length a.strides ≡ length a.dimensions
  pub dimensions : All IsI64 a.dimensions
  pub strides : All IsI64 a.strides

pub append_argument-eq :
    (out : List ℕ) (a : TensorArgument)
    → IsStorableArgument a
    → append_argument out a ≡ ok (out ++ argument_bytes a)
unfolding append_argument argument_bytes storage_bytes
append_argument-eq out a h =
    let small : length a.dimensions % 2 ^ 32 ≡ length a.dimensions = omega (arith, h.rank.1) in
    rw (append_string-eq _ a.name (omega (arith, h.name)), small)
      (simp (append_u32-eq, append_u64-eq, append_i64-eq, append_i64_vector-eq, append_assoc))

data_type_code-le : (t : DataType) → data_type_code t ≤ u32_max
unfolding data_type_code
data_type_code-le float32 = omega arith
data_type_code-le float64 = omega arith
data_type_code-le _ = omega arith

access_code-le : (t : TensorAccess) → access_code t ≤ u32_max
unfolding access_code
access_code-le read = omega arith
access_code-le write = omega arith
access_code-le read_write = omega arith

storage_policy_code-le : (t : TensorStoragePolicy) → storage_policy_code t ≤ u32_max
unfolding storage_policy_code
storage_policy_code-le strided = omega arith
storage_policy_code-le ragged_batch_prefix = omega arith

abbrev storage_of : TensorArgument → Storage
storage_of a = record {
  storage_policy = a.storage_policy;
  ragged_offset_uid = a.ragged_offset_uid;
  ragged_sequence_uid = a.ragged_sequence_uid;
}

read_storage-eq :
    (a : TensorArgument)
    → IsStorableArgument a
    → (left : List ℕ) → read_storage (storage_bytes a ++ left) ≡ done (storage_of a) left
unfolding read_storage storage_bytes
read_storage-eq a h left = simp append_assoc (
    rw (
      read_u32-eq (storage_policy_code a.storage_policy)
          (omega (arith, storage_policy_code-le a.storage_policy)),
      read_i64-eq a.ragged_offset_uid h.offset_uid,
      read_i64-eq a.ragged_sequence_uid h.sequence_uid,
      storage_policy_of_code-code a.storage_policy,
    ))

read_divisor-eq :
    (a : TensorArgument)
    → IsStorableArgument a
    → (left : List ℕ)
    → read_divisor (i64_bytes a.ragged_sequence_divisor ++ left)
      ≡ done a.ragged_sequence_divisor left
unfolding read_divisor
read_divisor-eq a h left = rw (read_i64-eq a.ragged_sequence_divisor h.divisor left, h.divides)

pub parse_argument-eq :
    (a : TensorArgument)
    → IsStorableArgument a
    → (left : List ℕ) → parse_argument format_version (argument_bytes a ++ left) ≡ done a left
unfolding parse_argument argument_bytes contains
parse_argument-eq a h left =
    let positive : eqb (length a.dimensions) 0 ≡ false = ground (arith, h.rank.0) in
    let strides = read_i64_vector-eq a.strides h.strides left in
    simp append_assoc (
      rw (
        read_i64-eq a.uid h.uid,
        read_string-eq a.name h.name,
        read_u32-eq (data_type_code a.data_type) (omega (arith, data_type_code-le a.data_type)),
        read_u32-eq (access_code a.access) (omega (arith, access_code-le a.access)),
        read_storage-eq a h,
        read_divisor-eq a h,
        read_u64-eq a.alignment (omega (arith, h.alignment)),
        read_u64-eq a.size_bytes (omega (arith, h.size_bytes)),
        read_u32-eq (length a.dimensions) (omega (arith, h.rank.1)),
        positive,
        le→ltb 64 (length a.dimensions) h.rank.1,
        data_type_of_code-code a.data_type,
        access_of_code-code a.access,
        read_i64_vector-eq a.dimensions h.dimensions,
        ← h.same_rank,
        strides,
      ))

pub table_bytes : List TensorArgument → List ℕ
table_bytes [] = []
table_bytes (a ∷ rest) = argument_bytes a ++ table_bytes rest

append_each_argument-eq :
    (out : List ℕ) (as' : List TensorArgument)
    → All IsStorableArgument as'
    → append_each_argument out as' ≡ ok (out ++ table_bytes as')
unfolding append_each_argument table_bytes
append_each_argument-eq out [] h = ap ok (sym (append-nil out))
append_each_argument-eq out (a ∷ rest) h = rw (append_argument-eq out a h.0) (
    append_each_argument-eq (out ++ argument_bytes a) rest h.1
    ∙ ap ok (append_assoc out (argument_bytes a) (table_bytes rest)))

parse_each_argument-eq :
    (as' : List TensorArgument)
    → All IsStorableArgument as'
    → (left : List ℕ)
    → parse_each_argument format_version (length as') (table_bytes as' ++ left) ≡ done as' left
unfolding parse_each_argument table_bytes
parse_each_argument-eq [] h left = refl
parse_each_argument-eq (a ∷ rest) h left = rw (
  append_assoc (argument_bytes a) (table_bytes rest) left,
  parse_argument-eq a h.0 (table_bytes rest ++ left),
  parse_each_argument-eq rest h.1 left,
)

pub arguments_bytes : List TensorArgument → List ℕ
arguments_bytes as' = u32_bytes (length as') ++ table_bytes as'

-- What the reader needs of the table.
pub record IsStorableTable (as' : List TensorArgument) : Type 0 where
  pub count : (0 < length as') × (length as' ≤ 4096)
  pub each : All IsStorableArgument as'

pub append_arguments-eq :
    (out : List ℕ) (as' : List TensorArgument)
    → IsStorableTable as'
    → append_arguments out as' ≡ ok (out ++ arguments_bytes as')
unfolding append_arguments arguments_bytes
append_arguments-eq out as' h =
    rw (le→ltb u32_max (length as') (omega (arith, h.count.1)), append_u32-eq out (length as'))
      (append_each_argument-eq (out ++ u32_bytes (length as')) as' h.each
        ∙ ap ok (append_assoc out (u32_bytes (length as')) (table_bytes as')))

pub parse_arguments-eq :
    (as' : List TensorArgument)
    → IsStorableTable as'
    → (left : List ℕ) → parse_arguments format_version (arguments_bytes as' ++ left) ≡ done as' left
unfolding parse_arguments arguments_bytes
parse_arguments-eq as' h left =
    let positive : eqb (length as') 0 ≡ false = ground (arith, h.count.0) in
    rw
      (
        append_assoc (u32_bytes (length as')) (table_bytes as') left,
        read_u32-eq (length as') (omega (arith, h.count.1)) (table_bytes as' ++ left),
        positive,
        le→ltb 4096 (length as') h.count.1,
      )
      (parse_each_argument-eq as' h.each left)
