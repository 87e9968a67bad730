-- ===== src/Runtime/Overrides/Roles.antt =====
-- lib/Runtime/Executable.cpp, `resolve_overrides`: what each override policy asks of the resolved
-- arguments that play its roles.
use deep_forge.Base.{
  ℕ, ◌-◌, Bool, true, false, not, ◌&&◌, ◌||◌, Option, none, some, List, [], ◌∷◌, text, Text, length,
  is_empty, get_or, set, any, all, map, if◌then◌else◌, ltb, leb, ◌==◌, ◌!=◌, nat_eq, list_eq, ℤ,
  pos, pos_part, int_eq, negative, ltb_ℤ, ◌+ℤ◌, ◌-ℤ◌, i64_max,
}
use deep_forge.Import.Status.{
  Result, Status, Error, ok, err, ◌>>=◌, ◌>>◌, reject, fail, invalid_shape,
  unsupported_execution_metadata,
}
use deep_forge.Metadata.{TensorArgument, GraphMetadata, axis_of}
use deep_forge.Metadata.Shapes.{
  batches_broadcast, valid_sdpa_core, row_dimensions, checked_element_count, none_seen, matches_but,
}
use deep_forge.Metadata.Policies.{role_uid, split_last}
use deep_forge.Runtime.Overrides.Arguments.{ResolvedArgument}

-- An argument as compiled and as resolved.
pub record Role : Type 0 where
  pub argument : TensorArgument
  pub resolved : ResolvedArgument

-- std::find_if over the arguments, and the resolved argument at the same position
unfoldable pub find_resolved : List TensorArgument → List ResolvedArgument → ℤ → Option Role
find_resolved (a ∷ arguments) (r ∷ resolved) uid = elim (a.uid == uid) [
  | true ↦ some (record { argument = a; resolved = r })
  | false ↦ find_resolved arguments resolved uid
]
find_resolved _ _ uid = none

abbrev pub malformed : Text → Error
malformed = fail unsupported_execution_metadata (text "runtime.override")

abbrev pub bad_shape : Text → Error
bad_shape = fail invalid_shape (text "runtime.override")

-- The loop that resolves the roles.
unfoldable pub resolve_roles :
    List TensorArgument → List ResolvedArgument → List ℤ → Error → Result (List Role)
resolve_roles arguments resolved [] unresolved = ok []
resolve_roles arguments resolved (uid ∷ uids) unresolved =
    elim (find_resolved arguments resolved uid) [
      | none ↦ err unresolved
      | some r ↦ resolve_roles arguments resolved uids unresolved >>= λ rest. ok (r ∷ rest)
    ]

abbrev pub shape_of : Role → List ℤ
shape_of r = r.resolved.dimensions

-- `roles[n]->dimensions`
abbrev pub shape_at : List Role → ℕ → List ℤ
shape_at roles n = get_or (map shape_of roles) n []

unfoldable pub check_pointwise_shapes : List ResolvedArgument → Status
check_pointwise_shapes [] = ok tt
check_pointwise_shapes (first ∷ rest) =
    reject (any (λ r. r.dimensions != first.dimensions) rest)
      (bad_shape (text "all pointwise tensor shapes must remain equal"))

unfoldable pub check_matmul_shapes : List ℤ → List ℤ → List ℤ → Status
check_matmul_shapes a b c = do
  let rank = length a
  reject (ltb rank 2 || rank != length b || rank != length c)
      (bad_shape (text "MATMUL override ranks must match and be at least two"))
  reject
      (axis_of a (rank - 1) != axis_of b (rank - 2)
        || axis_of a (rank - 2) != axis_of c (rank - 2)
        || axis_of b (rank - 1) != axis_of c (rank - 1))
      (bad_shape (text "MATMUL override M/N/K dimensions are inconsistent"))
  reject (not (batches_broadcast a b c))
      (bad_shape (text "MATMUL override batch dimensions are not broadcast compatible"))
  ok tt

unfoldable pub resolve_matmul : GraphMetadata → List ResolvedArgument → Status
resolve_matmul g resolved = do
  roles ←
      resolve_roles g.arguments resolved (role_uid g 0 ∷ role_uid g 1 ∷ role_uid g 2 ∷ [])
        (malformed (text "MATMUL override role UID is unresolved"))
  check_matmul_shapes (shape_at roles 0) (shape_at roles 1) (shape_at roles 2)

unfoldable pub keeps_heads : Role → Bool
keeps_heads r =
    length (shape_of r) == 4
    && axis_of (shape_of r) 1 == axis_of r.argument.dimensions 1
    && axis_of (shape_of r) 3 == axis_of r.argument.dimensions 3

unfoldable pub check_sdpa_shapes : List Role → Status
unfolding keeps_heads
check_sdpa_shapes (q ∷ k ∷ v ∷ o ∷ rows) = do
  reject (not (all keeps_heads (q ∷ k ∷ v ∷ o ∷ rows)))
      (bad_shape (text "SDPA overrides may change only batch and sequence dimensions"))
  reject (not (valid_sdpa_core (shape_of q) (shape_of k) (shape_of v) (shape_of o)))
      (bad_shape (text "SDPA Q/K/V/O runtime dimensions are inconsistent"))
  reject (any (λ r. shape_of r != row_dimensions (shape_of q)) rows)
      (bad_shape (text "SDPA row outputs must have runtime dimensions [B,Hq,Sq,1]"))
  ok tt
check_sdpa_shapes _ = ok tt

unfoldable pub resolve_sdpa : GraphMetadata → List ResolvedArgument → Status
resolve_sdpa g resolved = do
  let role_count = length g.override_role_uids
  reject (ltb role_count 4 || ltb 7 role_count)
      (malformed (text "SDPA override role metadata is malformed"))
  roles ←
      resolve_roles g.arguments resolved g.override_role_uids
        (malformed (text "SDPA override role UID is unresolved"))
  check_sdpa_shapes roles

unfoldable pub same_elements : Option ℕ → Option ℕ → Bool
same_elements (some x) (some y) = x == y
same_elements _ _ = false

unfoldable pub resolve_reshape : GraphMetadata → List ResolvedArgument → Status
unfolding same_elements
resolve_reshape g resolved = do
  reject (length g.override_role_uids != 2)
      (malformed (text "RESHAPE override role metadata is malformed"))
  roles ←
      resolve_roles g.arguments resolved g.override_role_uids
        (malformed (text "RESHAPE override role UID is unresolved"))
  reject
      (not (
        same_elements (checked_element_count (shape_at roles 0))
          (checked_element_count (shape_at roles 1))))
      (bad_shape (text "RESHAPE X and Y runtime element counts must match"))
  ok tt

-- The loop over the axes: an axis that was reduced stays so, any other keeps its extent.
unfoldable pub keeps_reduction : List ℤ → List ℤ → List ℤ → List ℤ → Bool
keeps_reduction (x ∷ xs) (y ∷ ys) (cx ∷ cxs) (cy ∷ cys) =
    let rest = keeps_reduction xs ys cxs cys in
    let reduced = cx != cy in
    if (reduced && y != pos 1) || (not reduced && x != y) then false else rest
keeps_reduction _ _ _ _ = true

-- `compiled[n]->dimensions`
abbrev pub compiled_at : List Role → ℕ → List ℤ
compiled_at roles n = get_or (map (λ r. r.argument.dimensions) roles) n []

unfoldable pub resolve_reduction : GraphMetadata → List ResolvedArgument → Status
resolve_reduction g resolved = do
  reject (length g.override_role_uids != 2)
      (malformed (text "REDUCTION override role metadata is malformed"))
  roles ←
      resolve_roles g.arguments resolved g.override_role_uids
        (malformed (text "REDUCTION override role UID is unresolved"))
  reject (length (shape_at roles 0) != length (shape_at roles 1))
      (bad_shape (text "REDUCTION X and Y runtime ranks must match"))
  reject
      (not (
        keeps_reduction (shape_at roles 0) (shape_at roles 1) (compiled_at roles 0)
          (compiled_at roles 1)))
      (bad_shape (text "REDUCTION runtime dimensions do not preserve reduced axes"))
  ok tt

-- The loop over the axes of Y.
unfoldable pub follows_permutation : List ℤ → List ℤ → List ℤ → List Bool → Status
follows_permutation x (y ∷ ys) (p ∷ ps) seen =
    let rest = follows_permutation x ys ps (set seen (pos_part p) true) in
    do
      reject (negative p || leb (length x) (pos_part p) || get_or seen (pos_part p) false)
          (malformed (text "TRANSPOSE override permutation metadata is malformed"))
      reject (y != axis_of x (pos_part p))
          (bad_shape (text "TRANSPOSE runtime dimensions do not match the permutation"))
      rest
follows_permutation x _ _ seen = ok tt

unfoldable pub resolve_transpose : GraphMetadata → List ResolvedArgument → Status
resolve_transpose g resolved = do
  reject (length g.override_role_uids != 2)
      (malformed (text "TRANSPOSE override role metadata is malformed"))
  roles ←
      resolve_roles g.arguments resolved g.override_role_uids
        (malformed (text "TRANSPOSE override role UID is unresolved"))
  reject (length g.override_axis_map != length (shape_at roles 0))
      (malformed (text "TRANSPOSE override permutation metadata is malformed"))
  reject (length (shape_at roles 0) != length (shape_at roles 1))
      (bad_shape (text "TRANSPOSE X and Y runtime ranks must match"))
  follows_permutation (shape_at roles 0) (shape_at roles 1) g.override_axis_map
      (none_seen (shape_at roles 0))

-- The loop over the inputs: the sum of their extents along the axis.
unfoldable pub sum_extents : ℕ → List ℤ → List (List ℤ) → ℤ → Result ℤ
sum_extents axis output [] axis_extent = ok axis_extent
sum_extents axis output (input ∷ rest) axis_extent =
    let extent = axis_of input axis in
    let later = sum_extents axis output rest (axis_extent +ℤ extent) in
    do
      reject (length input != length output)
          (bad_shape (text "CONCATENATE input and output runtime ranks must match"))
      reject (not (matches_but axis 0 input output))
          (bad_shape (text "CONCATENATE non-axis runtime dimensions must match Y"))
      reject (ltb_ℤ (pos i64_max -ℤ axis_extent) extent)
          (bad_shape (text "CONCATENATE runtime axis extent overflows int64"))
      later

unfoldable pub check_concatenate_shapes : ℤ → List (List ℤ) → List ℤ → Status
check_concatenate_shapes axis inputs output = do
  reject (is_empty output || negative axis || leb (length output) (pos_part axis))
      (malformed (text "CONCATENATE override axis metadata is malformed"))
  sum ← sum_extents (pos_part axis) output inputs (pos 0)
  reject (sum != axis_of output (pos_part axis))
      (bad_shape (text "CONCATENATE runtime Y axis extent must equal the input sum"))
  ok tt

unfoldable pub concatenate_split : ℤ → Option (List (List ℤ) × List ℤ) → Status
concatenate_split axis none = ok tt
concatenate_split axis (some (inputs, output)) = check_concatenate_shapes axis inputs output

unfoldable pub resolve_concatenate : GraphMetadata → List ResolvedArgument → Status
unfolding concatenate_split
resolve_concatenate g resolved = do
  let role_count = length g.override_role_uids
  reject (ltb role_count 2 || ltb 64 role_count || length g.override_axis_map != 1)
      (malformed (text "CONCATENATE override metadata is malformed"))
  roles ←
      resolve_roles g.arguments resolved g.override_role_uids
        (malformed (text "CONCATENATE override role UID is unresolved"))
  concatenate_split (axis_of g.override_axis_map 0) (split_last (map shape_of roles))
