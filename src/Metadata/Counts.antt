-- ===== src/Metadata/Counts.antt =====
-- What validated metadata promises of the lists that no other check bounds: lib/Runtime/GraphMetadata.cpp
-- limits the role UIDs and the axis map through the override policy.
use deep_forge.Base.{
  ℕ, zero, suc, negsuc, ◌≤◌, ◌<◌, ◌≡◌, refl, Bool, true, false, not, ◌&&◌, Option, none, some, List,
  [], ◌∷◌, length, is_empty, All, inl, inr, find-All, ◌==◌, int_eq, nat_eq, eq_of_!=, ==-refl,
  if◌then◌else◌, Bool-cases, ℤ, pos, pos_part, nonpositive, arith,
}
use deep_forge.Import.Status.{ok, ◌>>◌, >>-eq-ok, >>=-eq-ok}
use deep_forge.Metadata.{
  TensorArgument, GraphMetadata, ShapeOverridePolicy, no_override, pointwise_exact, matmul,
  sdpa_forward, reshape, reduction, transpose, concatenate, block_scale_matmul, strided,
  ragged_batch_prefix, storage_policy_eq, policy_eq, find_argument, TensorStoragePolicy,
}
use deep_forge.Metadata.Shapes.{valid_transpose_dimensions}
use deep_forge.Metadata.Arguments.{
  check_argument, check_arguments, check_identity, check_pointwise, check_storage,
}
use deep_forge.Metadata.Policies.{
  check_matmul, check_sdpa, check_xy, check_reshape, check_reduction, check_transpose, xy_roles,
  check_concatenate, check_block_scale_matmul, role, role_uid,
}
use deep_forge.Metadata.Validation.{
  validate_graph_metadata, check_header, check_policy_data, check_roles, first_shape, has_roles,
  has_axis_map,
}
use deep_forge.Metadata.Validity.{IsArgument, References, validate_graph_metadata-IsMetadata}

-- the count of the role UIDs, from the first check of each policy
role_count :
    (p : ShapeOverridePolicy) (g : GraphMetadata)
    → has_roles p ≡ true
    → check_roles p g ≡ ok tt
    → length g.override_role_uids ≤ 64
unfolding check_roles
role_count no_override g h e = cc
role_count pointwise_exact g h e = cc
role_count matmul g h e = unfold check_matmul in ground arith
role_count sdpa_forward g h e = unfold check_sdpa in ground arith
role_count reshape g h e = unfold check_reshape check_xy in ground arith
role_count reduction g h e = unfold check_reduction check_xy in ground arith
role_count transpose g h e = unfold check_transpose check_xy in ground arith
role_count concatenate g h e = unfold check_concatenate in ground arith
role_count block_scale_matmul g h e = unfold check_block_scale_matmul in ground arith

-- The permutation of a transpose has an entry for each axis of its input, which is found.
permuted :
    (axes : List ℤ) (o p : Option TensorArgument)
    → xy_roles (λ x y. valid_transpose_dimensions x y axes) o p ≡ true
    → (x : TensorArgument) × (o ≡ some x) × (length axes ≡ length x.dimensions)
unfolding xy_roles valid_transpose_dimensions
permuted axes none p h = cc
permuted axes (some x) none h = cc
permuted axes (some x) (some y) h = (x, refl, eq_of_!= _ _ (ground arith))

transpose_roles :
    (g : GraphMetadata)
    → check_transpose g ≡ ok tt
    → xy_roles (λ x y. valid_transpose_dimensions x y g.override_axis_map) (role g 0) (role g 1)
      ≡ true
unfolding check_transpose check_xy
transpose_roles g h = ground arith

-- The axis map has one entry, or one for each axis of an argument.
axis_count :
    (p : ShapeOverridePolicy) (g : GraphMetadata)
    → has_axis_map p ≡ true
    → All IsArgument g.arguments
    → check_roles p g ≡ ok tt
    → length g.override_axis_map ≤ 64
unfolding check_roles find_argument
axis_count concatenate g h v e = unfold check_concatenate in ground arith
axis_count transpose g h v e =
    let (x, found, same) =
      permuted g.override_axis_map (role g 0) (role g 1) (transpose_roles g e) in
    let input = find-All IsArgument (λ a. a.uid == role_uid g 0) g.arguments v found in
    omega (arith, same, input.rank.1)
axis_count _ g h v e = cc

none_there :
    (b : Bool) (xs : List ℤ) → (not b && not (is_empty xs)) ≡ false → b ≡ false → length xs ≤ 64
none_there true xs h k = cc
none_there false [] h k = omega arith
none_there false (x ∷ xs) h k = cc

check_policy_data-counts :
    (g : GraphMetadata) (writes : ℕ)
    → check_policy_data g writes ≡ ok tt
    → (has_roles g.override_policy ≡ false → length g.override_role_uids ≤ 64)
      × (has_axis_map g.override_policy ≡ false → length g.override_axis_map ≤ 64)
unfolding check_policy_data
check_policy_data-counts g writes h = (
  none_there (has_roles g.override_policy) g.override_role_uids (ground arith),
  none_there (has_axis_map g.override_policy) g.override_axis_map (ground arith),
)

strided_divisor :
    (a : TensorArgument)
    → check_storage a ≡ ok tt
    → a.storage_policy ≡ strided
    → a.ragged_sequence_divisor ≡ pos 1
unfolding check_storage
strided_divisor a h is =
    let test : (a.storage_policy == strided) ≡ true = rw is (==-refl strided) in
    eq_of_!= a.ragged_sequence_divisor (pos 1) (ground arith)

abbrev StridedDivisor : TensorArgument → Type 0
StridedDivisor a = a.storage_policy ≡ strided → a.ragged_sequence_divisor ≡ pos 1

module _ (policy : ShapeOverridePolicy) (shape : List ℤ) where
  check_argument-StridedDivisor :
      (uids : List ℤ) (writes n : ℕ) (a : TensorArgument)
      → check_argument policy shape uids writes a ≡ ok n
      → StridedDivisor a
  unfolding check_argument
  check_argument-StridedDivisor uids writes n a h =
      let (identity, later) = >>-eq-ok (check_identity uids a) _ h in
      let (count, counted, last) =
        >>=-eq-ok (if policy == pointwise_exact then check_pointwise shape a writes else ok writes)
          (λ x. check_storage a >> ok x) later in
      strided_divisor a (>>-eq-ok (check_storage a) (ok count) last).0

  check_arguments-StridedDivisor :
      (as' : List TensorArgument) (uids : List ℤ) (writes n : ℕ)
      → check_arguments policy shape as' uids writes ≡ ok n
      → All StridedDivisor as'
  unfolding check_arguments
  check_arguments-StridedDivisor [] uids writes n h = tt
  check_arguments-StridedDivisor (a ∷ as') uids writes n h =
      let (count, here, later) = >>=-eq-ok (check_argument policy shape uids writes a) _ h in
      (
        check_argument-StridedDivisor uids writes count a here,
        check_arguments-StridedDivisor as' (a.uid ∷ uids) count n later,
      )

divisor_positive :
    (a : TensorArgument) (p : TensorStoragePolicy) (arguments : List TensorArgument)
    → a.storage_policy ≡ p
    → StridedDivisor a
    → References arguments a
    → nonpositive a.ragged_sequence_divisor ≡ false
divisor_positive a strided arguments is s r = rw (s is)
divisor_positive a ragged_batch_prefix arguments is s r = positive _ (r is).divisor
  where
    positive : (z : ℤ) → 0 < pos_part z → nonpositive z ≡ false
    positive (pos zero) h = absurd (omega arith)
    positive (pos (suc n)) h = refl
    positive (negsuc n) h = absurd (omega arith)

all_positive :
    (arguments as' : List TensorArgument)
    → All StridedDivisor as'
    → All (References arguments) as'
    → All (λ a. nonpositive a.ragged_sequence_divisor ≡ false) as'
all_positive arguments [] s r = tt
all_positive arguments (a ∷ as') s r =
    (divisor_positive a a.storage_policy arguments refl s.0 r.0, all_positive arguments as' s.1 r.1)

-- The counts and divisors that a reader of stored metadata insists on.
pub record IsCounted (g : GraphMetadata) : Type 0 where
  pub roles : length g.override_role_uids ≤ 64
  pub axes : length g.override_axis_map ≤ 64
  pub divisors : All (λ a. nonpositive a.ragged_sequence_divisor ≡ false) g.arguments

pub validate_graph_metadata-IsCounted :
    (g : GraphMetadata) → validate_graph_metadata g ≡ ok tt → IsCounted g
unfolding validate_graph_metadata
validate_graph_metadata-IsCounted g h =
    let v = validate_graph_metadata-IsMetadata g h in
    let p = g.override_policy in
    let (header, after_header) = >>-eq-ok (check_header g) _ h in
    let (writes, looped, after_loop) =
      >>=-eq-ok (check_arguments p (first_shape g.arguments) g.arguments [] 0) _ after_header in
    let (policy, after_policy) = >>-eq-ok (check_policy_data g writes) _ after_loop in
    let roles = (>>-eq-ok (check_roles p g) _ after_policy).0 in
    let without = check_policy_data-counts g writes policy in
    let divisors =
      check_arguments-StridedDivisor p (first_shape g.arguments) g.arguments [] 0 writes looped in
    record {
      roles = elim (Bool-cases (has_roles p)) [
        | inl has ↦ role_count p g has roles
        | inr missing ↦ without.0 missing
      ];
      axes = elim (Bool-cases (has_axis_map p)) [
        | inl has ↦ axis_count p g has v.each roles
        | inr missing ↦ without.1 missing
      ];
      divisors = all_positive g.arguments g.arguments divisors v.references;
    }
