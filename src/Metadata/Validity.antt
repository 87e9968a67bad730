-- ===== src/Metadata/Validity.antt =====
-- What `validate_graph_compile_metadata` of lib/Runtime/GraphMetadata.cpp establishes.
use deep_forge.Base.{
  ℕ, ◌≤◌, ◌<◌, ◌≡◌, refl, ap, ◌∙◌, ◌⊎◌, inl, inr, true, false, ◌&&◌, Option, none, some, List, [],
  ◌∷◌, map, length, is_empty, All, contains, Distinct, ==-refl, eq_of_==, eq_of_!=, Bool-cases,
  Option-cases, ◌==◌, ◌!=◌, int_eq, nat_eq, list_eq, ℤ, pos, pos_part, ◌+ℤ◌, eq_of_positive,
  is_power_of_two, has_nul, u64_max, arith, if◌then◌else◌,
}
use deep_forge.Import.Status.{ok, ◌>>◌, >>-eq-ok, >>=-eq-ok}
use deep_forge.Import.DataTypes.{DataType, int32, int64, data_type_eq}
use deep_forge.Metadata.{
  TensorArgument, GraphMetadata, ShapeOverridePolicy, pointwise_exact, policy_eq, read, access_eq,
  ragged_batch_prefix, storage_policy_eq, axis_of, find_argument,
}
use deep_forge.Metadata.Arguments.{
  expected_size, check_argument, check_arguments, check_identity, check_pointwise, check_storage,
  size_is, check_ragged, check_ragged_references, ragged_references_valid,
}
use deep_forge.Metadata.Validation.{
  validate_graph_metadata, check_header, check_policy_data, check_roles, first_shape,
}

-- An argument that the loop accepts.
pub record IsArgument (a : TensorArgument) : Type 0 where
  pub named : (is_empty a.name ≡ false) × (has_nul a.name ≡ false)
  pub rank : (0 < length a.dimensions) × (length a.dimensions ≤ 64)
  pub strided : length a.strides ≡ length a.dimensions
  pub alignment : (is_power_of_two a.alignment ≡ true) × (a.alignment ≤ 4096)
  pub sized : expected_size a ≡ some a.size_bytes
  pub bounded : a.size_bytes ≤ u64_max

check_identity-ok :
    (uids : List ℤ) (a : TensorArgument)
    → check_identity uids a ≡ ok tt
    → (contains a.uid uids ≡ false)
      × ((is_empty a.name ≡ false) × (has_nul a.name ≡ false))
      × ((0 < length a.dimensions) × (length a.dimensions ≤ 64))
      × (length a.strides ≡ length a.dimensions)
      × ((is_power_of_two a.alignment ≡ true) × (a.alignment ≤ 4096))
unfolding check_identity
check_identity-ok uids a h = ground arith

check_storage-ok :
    (a : TensorArgument) → check_storage a ≡ ok tt → expected_size a ≡ some a.size_bytes
unfolding check_storage size_is
check_storage-ok a h = elim (Option-cases (expected_size a)) [
  | inl nothing ↦ absurd (ground arith)
  | inr (n, found) ↦ let same : n ≡ a.size_bytes = ground arith in found ∙ ap some same
]

check_storage-bounded : (a : TensorArgument) → check_storage a ≡ ok tt → a.size_bytes ≤ u64_max
unfolding check_storage
check_storage-bounded a h = ground arith

check_argument-IsArgument :
    (policy : ShapeOverridePolicy) (shape uids : List ℤ) (writes n : ℕ) (a : TensorArgument)
    → check_argument policy shape uids writes a ≡ ok n
    → IsArgument a × (contains a.uid uids ≡ false)
unfolding check_argument
check_argument-IsArgument policy shape uids writes n a h =
    let (identity, later) = >>-eq-ok (check_identity uids a) _ h in
    let (count, counted, last) =
      >>=-eq-ok (if policy == pointwise_exact then check_pointwise shape a writes else ok writes)
        (λ x. check_storage a >> ok x) later in
    let (storage, done) = >>-eq-ok (check_storage a) (ok count) last in
    let (fresh, named, rank, strided, alignment) = check_identity-ok uids a identity in
    (
      record {
        named = named;
        rank = rank;
        strided = strided;
        alignment = alignment;
        sized = check_storage-ok a storage;
        bounded = check_storage-bounded a storage;
      },
      fresh,
    )

module _ (policy : ShapeOverridePolicy) (shape : List ℤ) where
  fresh_uids :
      (as' : List TensorArgument) (uids : List ℤ) (writes n : ℕ) (u : ℤ)
      → check_arguments policy shape as' uids writes ≡ ok n
      → contains u uids ≡ true
      → contains u (map (λ a. a.uid) as') ≡ false
  unfolding check_arguments contains
  fresh_uids [] uids writes n u h k = refl
  fresh_uids (a ∷ as') uids writes n u h k =
      let (count, here, later) = >>=-eq-ok (check_argument policy shape uids writes a) _ h in
      let fresh = (check_argument-IsArgument policy shape uids writes count a here).1 in
      elim (Bool-cases (u == a.uid)) [
        | inl same ↦
            let absent : contains u uids ≡ false = rw (eq_of_== u a.uid same) fresh in
            cc (k, absent)
        | inr other ↦
            rw (other, contains)
              (fresh_uids as' (a.uid ∷ uids) count n u later (rw (other, contains) k))
      ]

  check_arguments-ok :
      (as' : List TensorArgument) (uids : List ℤ) (writes n : ℕ)
      → check_arguments policy shape as' uids writes ≡ ok n
      → All IsArgument as' × Distinct (map (λ a. a.uid) as')
  unfolding check_arguments contains
  check_arguments-ok [] uids writes n h = (tt, tt)
  check_arguments-ok (a ∷ as') uids writes n h =
      let (count, here, later) = >>=-eq-ok (check_argument policy shape uids writes a) _ h in
      let (first, fresh) = check_argument-IsArgument policy shape uids writes count a here in
      let rest = check_arguments-ok as' (a.uid ∷ uids) count n later in
      (
        (first, rest.0),
        (fresh_uids as' (a.uid ∷ uids) count n a.uid later (rw (==-refl a.uid, contains)), rest.1),
      )

-- What a ragged argument refers to: offsets, one more than the batches, and the sequence lengths of
-- the batches, both only read; its own rank is 4 and its divisor is positive.
pub record IsRagged (arguments : List TensorArgument) (a : TensorArgument) : Type 0 where
  pub offsets : TensorArgument
  pub sequences : TensorArgument
  pub offsets_found : find_argument arguments a.ragged_offset_uid ≡ some offsets
  pub sequences_found : find_argument arguments a.ragged_sequence_uid ≡ some sequences
  pub offsets_shape :
      offsets.dimensions ≡ (axis_of a.dimensions 0 +ℤ pos 1) ∷ pos 1 ∷ pos 1 ∷ pos 1 ∷ []
  pub sequences_shape : sequences.dimensions ≡ axis_of a.dimensions 0 ∷ pos 1 ∷ pos 1 ∷ pos 1 ∷ []
  pub offsets_type : (offsets.data_type ≡ int32) ⊎ (offsets.data_type ≡ int64)
  pub sequences_type : sequences.data_type ≡ int32
  pub only_read : (offsets.access ≡ read) × (sequences.access ≡ read)
  pub rank : length a.dimensions ≡ 4
  pub divisor : 0 < pos_part a.ragged_sequence_divisor

abbrev pub References : List TensorArgument → TensorArgument → Type 0
References arguments a = a.storage_policy ≡ ragged_batch_prefix → IsRagged arguments a

references_valid :
    (arguments : List TensorArgument) (a : TensorArgument)
    → check_ragged arguments a ≡ ok tt
    → a.storage_policy ≡ ragged_batch_prefix
    → ragged_references_valid a
        (find_argument arguments a.ragged_offset_uid)
        (find_argument arguments a.ragged_sequence_uid)
      ≡ true
unfolding check_ragged
references_valid arguments a h ragged =
    let test : (a.storage_policy == ragged_batch_prefix) ≡ true =
      rw ragged (==-refl ragged_batch_prefix) in
    ground arith

both_found :
    (a : TensorArgument) (o s : Option TensorArgument)
    → ragged_references_valid a o s ≡ true
    → (offsets : TensorArgument) × (sequences : TensorArgument) × (o ≡ some offsets)
      × (s ≡ some sequences)
unfolding ragged_references_valid
both_found a none s h = cc
both_found a (some o) none h = cc
both_found a (some o) (some s) h = (o, s, refl, refl)

integer_type : (t : DataType) → (t != int32 && t != int64) ≡ false → (t ≡ int32) ⊎ (t ≡ int64)
integer_type t h = elim (Bool-cases (t != int32)) [
  | inl other ↦ inr (eq_of_!= t int64 (ground arith))
  | inr same ↦ inl (eq_of_!= t int32 same)
]

valid-IsRagged :
    (arguments : List TensorArgument) (a o s : TensorArgument)
    → find_argument arguments a.ragged_offset_uid ≡ some o
    → find_argument arguments a.ragged_sequence_uid ≡ some s
    → ragged_references_valid a (some o) (some s) ≡ true
    → IsRagged arguments a
unfolding ragged_references_valid
valid-IsRagged arguments a o s ho hs h = record {
  offsets = o;
  sequences = s;
  offsets_found = ho;
  sequences_found = hs;
  offsets_shape = eq_of_!= o.dimensions _ (ground arith);
  sequences_shape = eq_of_!= s.dimensions _ (ground arith);
  offsets_type = integer_type o.data_type (ground arith);
  sequences_type = eq_of_!= s.data_type int32 (ground arith);
  only_read = (eq_of_!= o.access read (ground arith), eq_of_!= s.access read (ground arith));
  rank = eq_of_!= (length a.dimensions) 4 (ground arith);
  divisor = (eq_of_positive a.ragged_sequence_divisor (ground arith)).1;
}

check_ragged-IsRagged :
    (arguments : List TensorArgument) (a : TensorArgument)
    → check_ragged arguments a ≡ ok tt
    → References arguments a
check_ragged-IsRagged arguments a h ragged =
    let valid = references_valid arguments a h ragged in
    let (o, s, ho, hs) =
      both_found a (find_argument arguments a.ragged_offset_uid)
        (find_argument arguments a.ragged_sequence_uid) valid in
    valid-IsRagged arguments a o s ho hs (rw (ho, hs) at valid)

check_ragged_references-All :
    (arguments as' : List TensorArgument)
    → check_ragged_references arguments as' ≡ ok tt
    → All (References arguments) as'
unfolding check_ragged_references
check_ragged_references-All arguments [] h = tt
check_ragged_references-All arguments (a ∷ as') h =
    let (here, later) =
      >>-eq-ok (check_ragged arguments a) (check_ragged_references arguments as') h in
    (check_ragged-IsRagged arguments a here, check_ragged_references-All arguments as' later)

-- What validated metadata promises: at least one argument and at most 4096, each well formed and
-- of the size that its layout takes; no two with one UID; and the references of every ragged one
-- found, with the shapes and types that its run-time data has.
pub record IsMetadata (g : GraphMetadata) : Type 0 where
  pub count : (0 < length g.arguments) × (length g.arguments ≤ 4096)
  pub each : All IsArgument g.arguments
  pub distinct : Distinct (map (λ a. a.uid) g.arguments)
  pub references : All (References g.arguments) g.arguments

check_header-count :
    (g : GraphMetadata)
    → check_header g ≡ ok tt
    → (0 < length g.arguments) × (length g.arguments ≤ 4096)
unfolding check_header
check_header-count g h = ground arith

-- Metadata that `validate_graph_compile_metadata` accepts is well formed in the sense of
-- `IsMetadata`.
pub validate_graph_metadata-IsMetadata :
    (g : GraphMetadata) → validate_graph_metadata g ≡ ok tt → IsMetadata g
unfolding validate_graph_metadata
validate_graph_metadata-IsMetadata g h =
    let (header, after_header) = >>-eq-ok (check_header g) _ h in
    let (writes, looped, after_loop) =
      >>=-eq-ok (check_arguments g.override_policy (first_shape g.arguments) g.arguments [] 0) _
        after_header in
    let (policy, after_policy) = >>-eq-ok (check_policy_data g writes) _ after_loop in
    let (roles, references) =
      >>-eq-ok (check_roles g.override_policy g) (check_ragged_references g.arguments g.arguments)
        after_policy in
    let (each, distinct) =
      check_arguments-ok g.override_policy (first_shape g.arguments) g.arguments [] 0 writes
        looped in
    record {
      count = check_header-count g header;
      each = each;
      distinct = distinct;
      references = check_ragged_references-All g.arguments g.arguments references;
    }
