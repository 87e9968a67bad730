-- ===== src/Metadata/Policies.antt =====
-- lib/Runtime/GraphMetadata.cpp: what each override policy asks of the arguments that play its
-- roles.
use deep_forge.Base.{
  ℕ, suc, Bool, true, false, not, ◌&&◌, ◌||◌, Option, none, some, List, [], ◌∷◌, Text, text, length,
  get_or, all, map, if◌then◌else◌, ltb, ◌==◌, ◌!=◌, nat_eq, ℤ, pos, int_eq,
}
use deep_forge.Import.Status.{Result, Status, Error, ok, err, ◌>>=◌, ◌>>◌, reject}
use deep_forge.Import.DataTypes.{DataType, float32, fp4_e2m1, fp8_e4m3, bfloat16, data_type_eq}
use deep_forge.Metadata.{
  TensorArgument, GraphMetadata, TensorAccess, read, write, strided, access_eq, storage_policy_eq,
  axis_of, find_argument, distinct_count,
}
use deep_forge.Metadata.Shapes.{
  valid_matmul_dimensions, valid_sdpa_dimensions, valid_reshape_dimensions,
  valid_reduction_dimensions, valid_transpose_dimensions, valid_concatenate_dimensions,
  valid_block_scale_matmul_dimensions,
}
use deep_forge.Metadata.Arguments.{invalid}

-- A role that is found with an element type, an access mode and strided storage.
abbrev pub plays : DataType → TensorAccess → TensorArgument → Bool
plays type access a = a.data_type == type && a.access == access && a.storage_policy == strided

-- The loop that collects the roles; a UID that is not found ends it with an error.
unfoldable pub find_roles : List TensorArgument → List ℤ → Error → Result (List TensorArgument)
find_roles arguments [] unresolved = ok []
find_roles arguments (uid ∷ uids) unresolved = elim (find_argument arguments uid) [
  | none ↦ err unresolved
  | some a ↦ find_roles arguments uids unresolved >>= λ rest. ok (a ∷ rest)
]

unfoldable pub matmul_roles :
    Option TensorArgument → Option TensorArgument → Option TensorArgument → Bool
matmul_roles (some a) (some b) (some c) =
    plays float32 read a
    && plays float32 read b
    && plays float32 write c
    && valid_matmul_dimensions a.dimensions b.dimensions c.dimensions
matmul_roles _ _ _ = false

-- `metadata.override_role_uids[role]`, after the count of the roles has been checked
abbrev pub role_uid : GraphMetadata → ℕ → ℤ
role_uid g role = get_or g.override_role_uids role (pos 0)

abbrev pub role : GraphMetadata → ℕ → Option TensorArgument
role g n = find_argument g.arguments (role_uid g n)

unfoldable pub check_matmul : GraphMetadata → Status
unfolding matmul_roles
check_matmul g = do
  reject
      (length g.arguments != 3
        || length g.override_role_uids != 3
        || distinct_count g.override_role_uids != 3)
      (invalid (text "MATMUL override metadata requires distinct A/B/C role UIDs"))
  reject (not (matmul_roles (role g 0) (role g 1) (role g 2)))
      (invalid (text "MATMUL override roles or maximum shapes are invalid"))
  ok tt

-- The loop over the roles of SDPA: Q, K and V are read, the rest is written; Q, K, V and O are
-- contiguous along their last axis.
unfoldable pub sdpa_roles : ℕ → List TensorArgument → Bool
sdpa_roles n [] = true
sdpa_roles n (a ∷ rest) =
    plays float32 (if ltb n 3 then read else write) a
    && (not (ltb n 4) || axis_of a.strides 3 == pos 1)
    && sdpa_roles (suc n) rest

unfoldable pub check_sdpa : GraphMetadata → Status
unfolding sdpa_roles
check_sdpa g = do
  let role_count = length g.override_role_uids
  reject
      (ltb role_count 4
        || ltb 7 role_count
        || length g.arguments != role_count
        || distinct_count g.override_role_uids != role_count)
      (invalid
        (text "SDPA override metadata requires distinct Q/K/V/O and optional row-output role UIDs"))
  roles ←
      find_roles g.arguments g.override_role_uids
        (invalid (text "SDPA override role UID is unresolved"))
  reject (not (valid_sdpa_dimensions (map (λ a. a.dimensions) roles) && sdpa_roles 0 roles))
      (invalid (text "SDPA override roles or maximum shapes are invalid"))
  ok tt

-- The roles X and Y of the three policies that have these two.
unfoldable pub xy_roles :
    (List ℤ → List ℤ → Bool) → Option TensorArgument → Option TensorArgument → Bool
xy_roles valid (some x) (some y) =
    plays float32 read x && plays float32 write y && valid x.dimensions y.dimensions
xy_roles valid _ _ = false

unfoldable pub check_xy : (List ℤ → List ℤ → Bool) → Text → Text → GraphMetadata → Status
unfolding xy_roles
check_xy valid needs_roles bad_roles g = do
  reject
      (length g.arguments != 2 || length g.override_role_uids != 2 || role_uid g 0 == role_uid g 1)
      (invalid needs_roles)
  reject (not (xy_roles valid (role g 0) (role g 1))) (invalid bad_roles)
  ok tt

unfoldable pub check_reshape : GraphMetadata → Status
unfolding check_xy
check_reshape =
    check_xy valid_reshape_dimensions
      (text "RESHAPE override metadata requires distinct X/Y role UIDs")
      (text "RESHAPE override roles or maximum shapes are invalid")

unfoldable pub check_reduction : GraphMetadata → Status
unfolding check_xy
check_reduction =
    check_xy valid_reduction_dimensions
      (text "REDUCTION override metadata requires distinct X/Y role UIDs")
      (text "REDUCTION override roles or maximum shapes are invalid")

unfoldable pub check_transpose : GraphMetadata → Status
unfolding check_xy
check_transpose g =
    check_xy (λ x y. valid_transpose_dimensions x y g.override_axis_map)
      (text "TRANSPOSE override metadata requires distinct X/Y role UIDs")
      (text "TRANSPOSE override roles, permutation, or maximum shapes are invalid") g

-- All roles but the last, which is the output.
unfoldable pub split_last {ℓ} : {A : Type ℓ} → List A → Option (List A × A)
split_last [] = none
split_last (a ∷ rest) = elim (split_last rest) [
  | none ↦ some ([], a)
  | some (init, last) ↦ some (a ∷ init, last)
]

unfoldable pub concatenate_roles : Option (List TensorArgument × TensorArgument) → ℤ → Bool
concatenate_roles none axis = false
concatenate_roles (some (inputs, output)) axis =
    valid_concatenate_dimensions (map (λ a. a.dimensions) inputs) output.dimensions axis
    && all (plays float32 read) inputs
    && plays float32 write output

unfoldable pub check_concatenate : GraphMetadata → Status
unfolding concatenate_roles
check_concatenate g = do
  let role_count = length g.override_role_uids
  reject
      (ltb role_count 2
        || ltb 64 role_count
        || length g.arguments != role_count
        || length g.override_axis_map != 1
        || distinct_count g.override_role_uids != role_count)
      (invalid
        (text "CONCATENATE override metadata requires ordered distinct input/Y roles and one axis"))
  roles ←
      find_roles g.arguments g.override_role_uids
        (invalid (text "CONCATENATE override role UID is unresolved"))
  reject (not (concatenate_roles (split_last roles) (axis_of g.override_axis_map 0)))
      (invalid (text "CONCATENATE override roles, axis, or maximum shapes are invalid"))
  ok tt

unfoldable pub block_scale_roles : List TensorArgument → Bool
block_scale_roles (a ∷ scale_a ∷ b ∷ scale_b ∷ c ∷ []) =
    plays fp4_e2m1 read a
    && plays fp8_e4m3 read scale_a
    && plays fp4_e2m1 read b
    && plays fp8_e4m3 read scale_b
    && plays bfloat16 write c
block_scale_roles _ = false

unfoldable pub check_block_scale_matmul : GraphMetadata → Status
unfolding block_scale_roles
check_block_scale_matmul g = do
  reject
      (length g.arguments != 5
        || length g.override_role_uids != 5
        || distinct_count g.override_role_uids != 5)
      (invalid
        (text "block-scale MATMUL override metadata requires distinct A/SF_A/B/SF_B/C role UIDs"))
  roles ←
      find_roles g.arguments g.override_role_uids
        (invalid (text "block-scale MATMUL override role UID is unresolved"))
  reject
      (not (
        valid_block_scale_matmul_dimensions (map (λ a. a.dimensions) roles)
          (map (λ a. a.strides) roles)
        && block_scale_roles roles))
      (invalid (
        text "block-scale MATMUL override roles, maximum shapes, or canonical strides are invalid"))
  ok tt
