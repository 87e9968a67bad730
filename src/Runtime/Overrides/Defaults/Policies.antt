-- ===== src/Runtime/Overrides/Defaults/Policies.antt =====
-- `resolve_overrides` of lib/Runtime/Executable.cpp without overrides: each policy with two roles, and
-- the matrix product.
use deep_forge.Base.{
  ◌≡◌, refl, Bool, true, Option, none, some, List, [], ◌∷◌, map, length, get_or, nat_eq, int_eq,
  list_eq, eq_of_!=, ℤ, pos, Text, text, arith,
}
use deep_forge.Import.Status.{Error, ok}
use deep_forge.Metadata.{TensorArgument, GraphMetadata, find_argument}
use deep_forge.Metadata.Shapes.{
  valid_reshape_dimensions, same_count, valid_reduction_dimensions, valid_transpose_dimensions,
  none_seen, valid_matmul_dimensions,
}
use deep_forge.Metadata.Policies.{
  xy_roles, check_xy, check_reshape, check_reduction, check_transpose, check_matmul, matmul_roles,
  role, role_uid,
}
use deep_forge.Runtime.Overrides.Arguments.{compiled}
use deep_forge.Runtime.Overrides.Roles.{
  resolve_roles, malformed, resolve_reshape, same_elements, resolve_reduction, resolve_transpose,
  resolve_matmul, check_matmul_shapes,
}
use deep_forge.Runtime.Overrides.Defaults.{as_compiled, find_resolved-compiled}
use deep_forge.Runtime.Overrides.Defaults.Pairs.{
  keeps_reduction-compiled, follows_permutation-compiled,
}

-- Two roles that are found and fit each other, as the run-time check resolves them.
record HasPair (arguments : List TensorArgument) (uids : List ℤ) (valid : List ℤ → List ℤ → Bool)
    : Type 0 where
  x : TensorArgument
  y : TensorArgument
  two : length uids ≡ 2
  fit : valid x.dimensions y.dimensions ≡ true
  resolved :
      (e : Error)
      → resolve_roles arguments (map compiled arguments) uids e
        ≡ ok (as_compiled x ∷ as_compiled y ∷ [])

xy_roles-found :
    (valid : List ℤ → List ℤ → Bool) (ox oy : Option TensorArgument)
    → xy_roles valid ox oy ≡ true
    → (x : TensorArgument) × (y : TensorArgument) × (ox ≡ some x)
      × (oy ≡ some y)
      × (valid x.dimensions y.dimensions ≡ true)
unfolding xy_roles
xy_roles-found valid none oy h = cc
xy_roles-found valid (some x) none h = cc
xy_roles-found valid (some x) (some y) h = (x, y, refl, refl, ground arith)

xy_roles-HasPair :
    (arguments : List TensorArgument) (uids : List ℤ) (valid : List ℤ → List ℤ → Bool)
    → length uids ≡ 2
    → xy_roles valid
        (find_argument arguments (get_or uids 0 (pos 0)))
        (find_argument arguments (get_or uids 1 (pos 0)))
      ≡ true
    → HasPair arguments uids valid
unfolding resolve_roles
xy_roles-HasPair arguments [] valid two h = cc
xy_roles-HasPair arguments (u ∷ []) valid two h = cc
xy_roles-HasPair arguments (u ∷ v ∷ w ∷ uids) valid two h = absurd (omega (arith, two))
xy_roles-HasPair arguments (u ∷ v ∷ []) valid two h =
    let (x, y, hx, hy, fit) =
      xy_roles-found valid (find_argument arguments u) (find_argument arguments v) h in
    let rx = find_resolved-compiled arguments u {a = x} hx in
    let ry = find_resolved-compiled arguments v {a = y} hy in
    record {
      x = x;
      y = y;
      two = two;
      fit = fit;
      resolved = λ e. rw (rx, resolve_roles, ry, resolve_roles) refl;
    }

check_xy-HasPair :
    (valid : List ℤ → List ℤ → Bool) (t t' : Text) (g : GraphMetadata)
    → check_xy valid t t' g ≡ ok tt
    → HasPair g.arguments g.override_role_uids valid
unfolding check_xy
check_xy-HasPair valid t t' g h =
    xy_roles-HasPair g.arguments g.override_role_uids valid
      (eq_of_!= (length g.override_role_uids) 2 (ground arith)) (ground arith)

pub resolve_reshape-compiled :
    (g : GraphMetadata)
    → check_reshape g ≡ ok tt
    → resolve_reshape g (map compiled g.arguments) ≡ ok tt
unfolding check_reshape resolve_reshape valid_reshape_dimensions same_count same_elements
resolve_reshape-compiled g h =
    let pair = check_xy-HasPair valid_reshape_dimensions _ _ g h in
    let fit = pair.fit in
    ground
      (arith, pair.two, pair.resolved (malformed (text "RESHAPE override role UID is unresolved")))

pub resolve_reduction-compiled :
    (g : GraphMetadata)
    → check_reduction g ≡ ok tt
    → resolve_reduction g (map compiled g.arguments) ≡ ok tt
unfolding check_reduction resolve_reduction valid_reduction_dimensions
resolve_reduction-compiled g h =
    let pair = check_xy-HasPair valid_reduction_dimensions _ _ g h in
    let fit = pair.fit in
    ground (
      arith,
      pair.two,
      keeps_reduction-compiled pair.x.dimensions pair.y.dimensions,
      pair.resolved (malformed (text "REDUCTION override role UID is unresolved")),
    )

pub resolve_transpose-compiled :
    (g : GraphMetadata)
    → check_transpose g ≡ ok tt
    → resolve_transpose g (map compiled g.arguments) ≡ ok tt
unfolding check_transpose resolve_transpose valid_transpose_dimensions
resolve_transpose-compiled g h =
    let pair =
      check_xy-HasPair (λ x y. valid_transpose_dimensions x y g.override_axis_map) _ _ g h in
    let fit = pair.fit in
    ground (
      arith,
      pair.two,
      follows_permutation-compiled pair.x.dimensions pair.y.dimensions g.override_axis_map
          (none_seen pair.x.dimensions),
      pair.resolved (malformed (text "TRANSPOSE override role UID is unresolved")),
    )

check_matmul_shapes-valid :
    (a b c : List ℤ) → valid_matmul_dimensions a b c ≡ true → check_matmul_shapes a b c ≡ ok tt
unfolding check_matmul_shapes valid_matmul_dimensions
check_matmul_shapes-valid a b c h = ground arith

matmul_roles-found :
    (oa ob oc : Option TensorArgument)
    → matmul_roles oa ob oc ≡ true
    → (a : TensorArgument) × (b : TensorArgument) × (c : TensorArgument) × (oa ≡ some a)
      × (ob ≡ some b)
      × (oc ≡ some c)
      × (valid_matmul_dimensions a.dimensions b.dimensions c.dimensions ≡ true)
unfolding matmul_roles
matmul_roles-found none ob oc h = cc
matmul_roles-found (some a) none oc h = cc
matmul_roles-found (some a) (some b) none h = cc
matmul_roles-found (some a) (some b) (some c) h = (a, b, c, refl, refl, refl, ground arith)

pub resolve_matmul-compiled :
    (g : GraphMetadata)
    → check_matmul g ≡ ok tt
    → resolve_matmul g (map compiled g.arguments) ≡ ok tt
unfolding check_matmul resolve_matmul resolve_roles
resolve_matmul-compiled g h =
    let (a, b, c, ha, hb, hc, fit) =
      matmul_roles-found (role g 0) (role g 1) (role g 2) (ground arith) in
    let ra = find_resolved-compiled g.arguments (role_uid g 0) {a = a} ha in
    let rb = find_resolved-compiled g.arguments (role_uid g 1) {a = b} hb in
    let rc = find_resolved-compiled g.arguments (role_uid g 2) {a = c} hc in
    rw (ra, resolve_roles, rb, resolve_roles, rc, resolve_roles)
      (check_matmul_shapes-valid a.dimensions b.dimensions c.dimensions fit)
