-- ===== src/Metadata.antt =====
-- include/DeepForge/Compiler/GraphMetadata.h and Conv2DImporter.h: the description of a compiled
-- graph that the compiler writes, the artifact stores and the runtime trusts after validation.
-- A value of an enumeration is one of its enumerators: what a cast makes of another number is ruled
-- out where numbers are read.
pub mod Shapes
pub mod Arguments
pub mod Policies
pub mod Validation
pub mod Validity
pub mod Counts
use deep_forge.Base.{
  ℕ, suc, ◌≡◌, refl, ap, ◌↔◌, Bool, true, false, Option, some, List, [], ◌∷◌, Eq, eqb, eqb→eq,
  eq→eqb, get_elem?, get_or, ℤ, pos, Text, find, contains, if◌then◌else◌, int_eq, ◌==◌,
}
use deep_forge.Import.DataTypes.{DataType}

pub data InvocationAdapterKind : Type 0 where
  conv2d_ranked_memref generic_ranked_memref_pointer_table : InvocationAdapterKind

-- the enumerator's number, which the artifact format stores
unfoldable pub adapter_kind_code : InvocationAdapterKind → ℕ
adapter_kind_code conv2d_ranked_memref = 0
adapter_kind_code generic_ranked_memref_pointer_table = 1

-- the enumerator with a number, `static_cast<InvocationAdapterKind>` on a number that has been checked
unfoldable pub adapter_kind_of_code : ℕ → Option InvocationAdapterKind
adapter_kind_of_code n =
    get_elem? (conv2d_ranked_memref ∷ generic_ranked_memref_pointer_table ∷ []) n

pub adapter_kind_of_code-code :
    (t : InvocationAdapterKind) → adapter_kind_of_code (adapter_kind_code t) ≡ some t
unfolding adapter_kind_code adapter_kind_of_code
adapter_kind_of_code-code conv2d_ranked_memref = refl
adapter_kind_of_code-code generic_ranked_memref_pointer_table = refl

unfoldable pub adapter_kind_beq : InvocationAdapterKind → InvocationAdapterKind → Bool
unfolding adapter_kind_code
adapter_kind_beq a b = eqb (adapter_kind_code a) (adapter_kind_code b)

pub adapter_kind_beq_iff : (a b : InvocationAdapterKind) → (adapter_kind_beq a b ≡ true) ↔ (a ≡ b)
unfolding adapter_kind_beq
adapter_kind_beq_iff a b = (
  λ h. cc (
    adapter_kind_of_code-code a,
    adapter_kind_of_code-code b,
    ap adapter_kind_of_code (eqb→eq (adapter_kind_code a) (adapter_kind_code b) h),
  ),
  λ p. eq→eqb _ _ (ap adapter_kind_code p),
)

instance abbrev pub adapter_kind_eq : Eq InvocationAdapterKind
adapter_kind_eq = record { beq = adapter_kind_beq; beq_iff = adapter_kind_beq_iff }

pub data TensorAccess : Type 0 where
  read write read_write : TensorAccess

-- the enumerator's number, which the artifact format stores
unfoldable pub access_code : TensorAccess → ℕ
access_code read = 0
access_code write = 1
access_code read_write = 2

-- the enumerator with a number, `static_cast<TensorAccess>` on a number that has been checked
unfoldable pub access_of_code : ℕ → Option TensorAccess
access_of_code n = get_elem? (read ∷ write ∷ read_write ∷ []) n

pub access_of_code-code : (t : TensorAccess) → access_of_code (access_code t) ≡ some t
unfolding access_code access_of_code
access_of_code-code read = refl
access_of_code-code write = refl
access_of_code-code read_write = refl

unfoldable pub access_beq : TensorAccess → TensorAccess → Bool
unfolding access_code
access_beq a b = eqb (access_code a) (access_code b)

pub access_beq_iff : (a b : TensorAccess) → (access_beq a b ≡ true) ↔ (a ≡ b)
unfolding access_beq
access_beq_iff a b = (
  λ h. cc (
    access_of_code-code a,
    access_of_code-code b,
    ap access_of_code (eqb→eq (access_code a) (access_code b) h),
  ),
  λ p. eq→eqb _ _ (ap access_code p),
)

instance abbrev pub access_eq : Eq TensorAccess
access_eq = record { beq = access_beq; beq_iff = access_beq_iff }

pub data ShapeOverridePolicy : Type 0 where
  no_override pointwise_exact matmul sdpa_forward reshape reduction transpose concatenate :
      ShapeOverridePolicy
  block_scale_matmul : ShapeOverridePolicy

-- the enumerator's number, which the artifact format stores
unfoldable pub policy_code : ShapeOverridePolicy → ℕ
policy_code no_override = 0
policy_code pointwise_exact = 1
policy_code matmul = 2
policy_code sdpa_forward = 3
policy_code reshape = 4
policy_code reduction = 5
policy_code transpose = 6
policy_code concatenate = 7
policy_code block_scale_matmul = 8

-- the enumerator with a number, `static_cast<ShapeOverridePolicy>` on a number that has been checked
unfoldable pub policy_of_code : ℕ → Option ShapeOverridePolicy
policy_of_code n =
    get_elem?
      (no_override ∷ pointwise_exact ∷ matmul ∷ sdpa_forward ∷ reshape ∷ reduction ∷ transpose
        ∷ concatenate ∷ block_scale_matmul ∷ [])
      n

pub policy_of_code-code : (t : ShapeOverridePolicy) → policy_of_code (policy_code t) ≡ some t
unfolding policy_code policy_of_code
policy_of_code-code no_override = refl
policy_of_code-code pointwise_exact = refl
policy_of_code-code matmul = refl
policy_of_code-code sdpa_forward = refl
policy_of_code-code reshape = refl
policy_of_code-code reduction = refl
policy_of_code-code transpose = refl
policy_of_code-code concatenate = refl
policy_of_code-code block_scale_matmul = refl

unfoldable pub policy_beq : ShapeOverridePolicy → ShapeOverridePolicy → Bool
unfolding policy_code
policy_beq a b = eqb (policy_code a) (policy_code b)

pub policy_beq_iff : (a b : ShapeOverridePolicy) → (policy_beq a b ≡ true) ↔ (a ≡ b)
unfolding policy_beq
policy_beq_iff a b = (
  λ h. cc (
    policy_of_code-code a,
    policy_of_code-code b,
    ap policy_of_code (eqb→eq (policy_code a) (policy_code b) h),
  ),
  λ p. eq→eqb _ _ (ap policy_code p),
)

instance abbrev pub policy_eq : Eq ShapeOverridePolicy
policy_eq = record { beq = policy_beq; beq_iff = policy_beq_iff }

pub data TensorStoragePolicy : Type 0 where
  strided ragged_batch_prefix : TensorStoragePolicy

-- the enumerator's number, which the artifact format stores
unfoldable pub storage_policy_code : TensorStoragePolicy → ℕ
storage_policy_code strided = 0
storage_policy_code ragged_batch_prefix = 1

-- the enumerator with a number, `static_cast<TensorStoragePolicy>` on a number that has been checked
unfoldable pub storage_policy_of_code : ℕ → Option TensorStoragePolicy
storage_policy_of_code n = get_elem? (strided ∷ ragged_batch_prefix ∷ []) n

pub storage_policy_of_code-code :
    (t : TensorStoragePolicy) → storage_policy_of_code (storage_policy_code t) ≡ some t
unfolding storage_policy_code storage_policy_of_code
storage_policy_of_code-code strided = refl
storage_policy_of_code-code ragged_batch_prefix = refl

unfoldable pub storage_policy_beq : TensorStoragePolicy → TensorStoragePolicy → Bool
unfolding storage_policy_code
storage_policy_beq a b = eqb (storage_policy_code a) (storage_policy_code b)

pub storage_policy_beq_iff : (a b : TensorStoragePolicy) → (storage_policy_beq a b ≡ true) ↔ (a ≡ b)
unfolding storage_policy_beq
storage_policy_beq_iff a b = (
  λ h. cc (
    storage_policy_of_code-code a,
    storage_policy_of_code-code b,
    ap storage_policy_of_code (eqb→eq (storage_policy_code a) (storage_policy_code b) h),
  ),
  λ p. eq→eqb _ _ (ap storage_policy_code p),
)

instance abbrev pub storage_policy_eq : Eq TensorStoragePolicy
storage_policy_eq = record { beq = storage_policy_beq; beq_iff = storage_policy_beq_iff }

pub record TensorArgument : Type 0 where
  pub uid : ℤ
  pub name : Text
  pub data_type : DataType
  pub dimensions : List ℤ
  pub strides : List ℤ
  pub size_bytes : ℕ
  pub alignment : ℕ
  pub access : TensorAccess
  pub storage_policy : TensorStoragePolicy
  pub ragged_offset_uid : ℤ
  pub ragged_sequence_uid : ℤ
  pub ragged_sequence_divisor : ℤ

pub record GraphMetadata : Type 0 where
  pub function_name : Text
  pub arguments : List TensorArgument
  pub dynamic_shape_enabled : Bool
  pub override_shape_enabled : Bool
  pub override_policy : ShapeOverridePolicy
  pub override_role_uids : List ℤ
  pub override_axis_map : List ℤ

-- std::array of four and of two
pub record Array4 : Type 0 where
  pub e0 : ℤ
  pub e1 : ℤ
  pub e2 : ℤ
  pub e3 : ℤ

pub record Array2 : Type 0 where
  pub e0 : ℤ
  pub e1 : ℤ

abbrev pub list4 : Array4 → List ℤ
list4 a = a.e0 ∷ a.e1 ∷ a.e2 ∷ a.e3 ∷ []

-- Conv2DCompileMetadata: the graph's description with what the direct convolution adds.
pub record ConvMetadata : Type 0 where
  pub graph : GraphMetadata
  pub x_uid : ℤ
  pub w_uid : ℤ
  pub y_uid : ℤ
  pub x_shape : Array4
  pub w_shape : Array4
  pub y_shape : Array4
  pub padded_x_shape : Array4
  pub pre_padding : Array2
  pub post_padding : Array2
  pub stride : Array2
  pub dilation : Array2

-- `dimensions[axis]`; the code reads no axis beyond the rank.
abbrev pub axis_of : List ℤ → ℕ → ℤ
axis_of dims axis = get_or dims axis (pos 0)

-- the argument with a UID, by std::find_if
unfoldable pub find_argument : List TensorArgument → ℤ → Option TensorArgument
find_argument arguments uid = find (λ a. a.uid == uid) arguments

-- `std::set<int64_t>(..).size()`
unfoldable pub distinct_count : List ℤ → ℕ
distinct_count [] = 0
distinct_count (u ∷ us) = let rest = distinct_count us in if contains u us then rest else suc rest
