-- ===== src/Runtime/Overrides/Defaults/Groups.antt =====
-- `resolve_overrides` of lib/Runtime/Executable.cpp without overrides: the policies whose roles are a
-- list, attention, concatenation and the block-scaled product, and the pointwise policy.
use deep_forge.Base.{
  ℕ, ◌≡◌, refl, ap, true, false, ◌&&◌, Option, none, some, List, [], ◌∷◌, map, length, all, any,
  Option-cases, inl, inr, ◌==◌, ◌!=◌, nat_eq, int_eq, list_eq, eq_of_!=, ==-refl, ℤ, pos, pos_part,
  text, arith,
}
use deep_forge.Import.Status.{Result-cases, ok, >>=-eq-ok}
use deep_forge.Metadata.{
  TensorArgument, GraphMetadata, pointwise_exact, policy_eq, policy_beq, axis_of,
}
use deep_forge.Metadata.Arguments.{invalid, check_arguments, check_argument, check_pointwise}
use deep_forge.Metadata.Shapes.{
  valid_sdpa_dimensions, row_dimensions, valid_concatenate_dimensions, is_extent,
  concatenated_extent, valid_block_scale_matmul_dimensions, block_scale_consistent, canonical,
  block_scale, scale_dimensions, canonical_strides, dims3,
}
use deep_forge.Metadata.Validation.{first_shape}
use deep_forge.Metadata.Policies.{
  check_sdpa, check_concatenate, concatenate_roles, split_last, check_block_scale_matmul,
  block_scale_roles, find_roles,
}
use deep_forge.Runtime.Overrides.Arguments.{compiled}
use deep_forge.Runtime.Overrides.Roles.{
  malformed, shape_of, check_pointwise_shapes, keeps_heads, check_sdpa_shapes, resolve_sdpa,
  check_concatenate_shapes, concatenate_split, resolve_concatenate,
}
use deep_forge.Runtime.Overrides.Resolution.{check_block_scale_shapes, resolve_block_scale}
use deep_forge.Runtime.Overrides.Defaults.{as_compiled, resolve_roles-compiled, shapes-compiled}
use deep_forge.Runtime.Overrides.Defaults.Pairs.{sum_extents-compiled}

abbrev dims : TensorArgument → List ℤ
dims a = a.dimensions

!=-eq : (x y : ℤ) → x ≡ y → (x != y) ≡ false
!=-eq x y same = rw (same, ==-refl y) refl

keeps_heads-compiled :
    (roles : List TensorArgument)
    → any (λ d. length d != 4) (map dims roles) ≡ false
    → all keeps_heads (map as_compiled roles) ≡ true
unfolding any all keeps_heads
keeps_heads-compiled [] h = refl
keeps_heads-compiled (a ∷ roles) h = ground (
  arith,
  ==-refl (axis_of a.dimensions 1),
  ==-refl (axis_of a.dimensions 3),
  keeps_heads-compiled roles,
)

rows-compiled :
    (row : List ℤ) (roles : List TensorArgument)
    → all (λ d. d == row) (map dims roles) ≡ true
    → any (λ r. shape_of r != row) (map as_compiled roles) ≡ false
unfolding any all
rows-compiled row [] h = refl
rows-compiled row (a ∷ roles) h = ground (arith, rows-compiled row roles)

check_sdpa_shapes-compiled :
    (roles : List TensorArgument)
    → valid_sdpa_dimensions (map dims roles) ≡ true
    → check_sdpa_shapes (map as_compiled roles) ≡ ok tt
unfolding valid_sdpa_dimensions check_sdpa_shapes
check_sdpa_shapes-compiled (q ∷ k ∷ v ∷ o ∷ rows) h = ground (
  arith,
  keeps_heads-compiled (q ∷ k ∷ v ∷ o ∷ rows),
  rows-compiled (row_dimensions q.dimensions) rows,
)
check_sdpa_shapes-compiled [] h = cc
check_sdpa_shapes-compiled (q ∷ []) h = cc
check_sdpa_shapes-compiled (q ∷ k ∷ []) h = cc
check_sdpa_shapes-compiled (q ∷ k ∷ v ∷ []) h = cc

pub resolve_sdpa-compiled :
    (g : GraphMetadata) → check_sdpa g ≡ ok tt → resolve_sdpa g (map compiled g.arguments) ≡ ok tt
unfolding check_sdpa resolve_sdpa
resolve_sdpa-compiled g h =
    let unresolved = invalid (text "SDPA override role UID is unresolved") in
    elim (Result-cases (find_roles g.arguments g.override_role_uids unresolved)) [
      | inr (e, failed) ↦ absurd (ground arith)
      | inl (roles, found) ↦ ground (
        arith,
        check_sdpa_shapes-compiled roles,
        resolve_roles-compiled g.arguments g.override_role_uids unresolved
            (malformed (text "SDPA override role UID is unresolved")) roles found,
      )
    ]

equal_shape :
    (shape : List ℤ) (a : TensorArgument) (uids : List ℤ) (writes n : ℕ)
    → check_argument pointwise_exact shape uids writes a ≡ ok n
    → (a.dimensions != shape) ≡ false
unfolding check_argument check_pointwise policy_beq
equal_shape shape a uids writes n h = ground arith

-- A pointwise graph: all shapes are the first one.
equal_shapes :
    (shape : List ℤ) (as' : List TensorArgument) (uids : List ℤ) (writes n : ℕ)
    → check_arguments pointwise_exact shape as' uids writes ≡ ok n
    → any (λ r. r.dimensions != shape) (map compiled as') ≡ false
unfolding check_arguments any
equal_shapes shape [] uids writes n h = refl
equal_shapes shape (a ∷ as') uids writes n h =
    let (count, here, later) = >>=-eq-ok (check_argument pointwise_exact shape uids writes a) _ h in
    ground (
      arith,
      equal_shape shape a uids writes count here,
      equal_shapes shape as' (a.uid ∷ uids) count n later,
    )

pub check_pointwise_shapes-compiled :
    (as' : List TensorArgument) (uids : List ℤ) (writes n : ℕ)
    → check_arguments pointwise_exact (first_shape as') as' uids writes ≡ ok n
    → check_pointwise_shapes (map compiled as') ≡ ok tt
unfolding check_pointwise_shapes any
check_pointwise_shapes-compiled [] uids writes n h = refl
check_pointwise_shapes-compiled (a ∷ as') uids writes n h =
    let same = equal_shapes a.dimensions (a ∷ as') uids writes n h in ground arith

some_injective {ℓ} : {A : Type ℓ} {a b : A} → some a ≡ some b → a ≡ b
some_injective h = cc

split_last-map-none {ℓ κ} :
    {A : Type ℓ} {B : Type κ} (f : A → B) (xs : List A)
    → split_last xs ≡ none
    → split_last (map f xs) ≡ none
unfolding split_last
split_last-map-none f [] h = refl
split_last-map-none f (x ∷ xs) h = elim (Option-cases (split_last xs)) [
  | inl nothing ↦ cc (rw (nothing, split_last) at h)
  | inr (p, found) ↦ cc (rw (found, split_last) at h)
]

split_last-map {ℓ κ} :
    {A : Type ℓ} {B : Type κ} (f : A → B) (xs init : List A) {last : A}
    → split_last xs ≡ some (init, last)
    → split_last (map f xs) ≡ some (map f init, f last)
unfolding split_last
split_last-map f [] init h = cc
split_last-map {A = A} f (x ∷ xs) init {last} h = elim (Option-cases (split_last xs)) [
  | inl nothing ↦
      let same : (([], x)) ≡ (init, last) = some_injective (rw (nothing, split_last) at h) in
      let rest : split_last (map f xs) ≡ none = split_last-map-none f xs nothing in
      rw (rest, split_last) (ap (λ (p : List A × A). some (map f p.0, f p.1)) same)
  | inr ((front, final), found) ↦
      let same : (x ∷ front, final) ≡ (init, last) = some_injective (rw (found, split_last) at h) in
      let rest = split_last-map f xs front {last = final} found in
      rw (rest, split_last) (ap (λ (p : List A × A). some (map f p.0, f p.1)) same)
]

concatenate_roles-found :
    (o : Option (List TensorArgument × TensorArgument)) (axis : ℤ)
    → concatenate_roles o axis ≡ true
    → (inputs : List TensorArgument) × (output : TensorArgument) × (o ≡ some (inputs, output))
      × (valid_concatenate_dimensions (map dims inputs) output.dimensions axis ≡ true)
unfolding concatenate_roles
concatenate_roles-found none axis h = cc
concatenate_roles-found (some (inputs, output)) axis h = (inputs, output, refl, ground arith)

check_concatenate_shapes-valid :
    (axis : ℤ) (inputs : List (List ℤ)) (output : List ℤ)
    → valid_concatenate_dimensions inputs output axis ≡ true
    → check_concatenate_shapes axis inputs output ≡ ok tt
unfolding valid_concatenate_dimensions is_extent check_concatenate_shapes
check_concatenate_shapes-valid axis inputs output h =
    elim (Option-cases (concatenated_extent (pos_part axis) output inputs (pos 0))) [
      | inl nothing ↦ absurd (ground arith)
      | inr (n, found) ↦
          ground (arith, sum_extents-compiled (pos_part axis) output inputs (pos 0) n found)
    ]

pub resolve_concatenate-compiled :
    (g : GraphMetadata)
    → check_concatenate g ≡ ok tt
    → resolve_concatenate g (map compiled g.arguments) ≡ ok tt
unfolding check_concatenate resolve_concatenate concatenate_split
resolve_concatenate-compiled g h =
    let axis = axis_of g.override_axis_map 0 in
    let unresolved = invalid (text "CONCATENATE override role UID is unresolved") in
    elim (Result-cases (find_roles g.arguments g.override_role_uids unresolved)) [
      | inr (e, failed) ↦ absurd (ground arith)
      | inl (roles, found) ↦
          let (inputs, output, split, fit) =
            concatenate_roles-found (split_last roles) axis (ground arith) in
          let shapes : split_last (map shape_of (map as_compiled roles))
              ≡ some (map dims inputs, output.dimensions) =
            rw (shapes-compiled roles) (split_last-map dims roles inputs split) in
          ground (
            arith,
            shapes,
            check_concatenate_shapes-valid axis (map dims inputs) output.dimensions fit,
            resolve_roles-compiled g.arguments g.override_role_uids unresolved
                (malformed (text "CONCATENATE override role UID is unresolved")) roles found,
          )
    ]

-- The strides of the scales are known once the scales are.
check_block_scale_shapes-valid :
    (a sa b sb c : List ℤ) (strides : List (List ℤ))
    → valid_block_scale_matmul_dimensions (a ∷ sa ∷ b ∷ sb ∷ c ∷ []) strides ≡ true
    → check_block_scale_shapes (a ∷ sa ∷ b ∷ sb ∷ c ∷ []) strides ≡ ok tt
unfolding valid_block_scale_matmul_dimensions block_scale_consistent canonical
    check_block_scale_shapes
check_block_scale_shapes-valid a sa b sb c strides h =
    let s = block_scale a b in
    let shape : c ≡ dims3 s.batch s.m s.n = eq_of_!= c (dims3 s.batch s.m s.n) (ground arith) in
    let rows = !=-eq (axis_of c 0) s.batch (ap (λ l. axis_of l 0) shape) in
    let columns = !=-eq (axis_of c 1) s.m (ap (λ l. axis_of l 1) shape) in
    let depth = !=-eq (axis_of c 2) s.n (ap (λ l. axis_of l 2) shape) in
    elim (Option-cases (scale_dimensions s)) [
      | inl nothing ↦ absurd (ground arith)
      | inr (scales, found) ↦ elim (Option-cases (canonical_strides s scales)) [
        | inl nothing ↦ absurd (ground arith)
        | inr (expected, known) ↦ ground (arith, rows, columns, depth)
      ]
    ]

block_scale_roles-five :
    (roles : List TensorArgument)
    → (valid_block_scale_matmul_dimensions (map dims roles) (map (λ a. a.strides) roles)
        && block_scale_roles roles)
      ≡ true
    → check_block_scale_shapes
        (map shape_of (map as_compiled roles))
        (map (λ r. r.resolved.strides) (map as_compiled roles))
      ≡ ok tt
unfolding block_scale_roles valid_block_scale_matmul_dimensions
block_scale_roles-five (a ∷ sa ∷ b ∷ sb ∷ c ∷ []) h =
    check_block_scale_shapes-valid a.dimensions sa.dimensions b.dimensions sb.dimensions
      c.dimensions (a.strides ∷ sa.strides ∷ b.strides ∷ sb.strides ∷ c.strides ∷ []) (ground arith)
block_scale_roles-five roles h = absurd (ground arith)

pub resolve_block_scale-compiled :
    (g : GraphMetadata)
    → check_block_scale_matmul g ≡ ok tt
    → resolve_block_scale g (map compiled g.arguments) ≡ ok tt
unfolding check_block_scale_matmul resolve_block_scale
resolve_block_scale-compiled g h =
    let unresolved = invalid (text "block-scale MATMUL override role UID is unresolved") in
    elim (Result-cases (find_roles g.arguments g.override_role_uids unresolved)) [
      | inr (e, failed) ↦ absurd (ground arith)
      | inl (roles, found) ↦ ground (
        arith,
        block_scale_roles-five roles,
        resolve_roles-compiled g.arguments g.override_role_uids unresolved
            (malformed (text "block-scale MATMUL override role UID is unresolved")) roles found,
      )
    ]
