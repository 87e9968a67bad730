-- ===== src/Runtime/Overrides/Defaults.antt =====
-- A call without overrides: `resolve_overrides` of lib/Runtime/Executable.cpp accepts the shapes that
-- `validate_graph_compile_metadata` of lib/Runtime/GraphMetadata.cpp has accepted, policy by policy.
pub mod Pairs
pub mod Policies
pub mod Groups
pub mod Whole
use mathlib.Core.Option
use deep_forge.Base.{
  ℕ, zero, suc, ◌≡◌, refl, sym, ap, ◌∙◌, ◌⊎◌, inl, inr, Bool, true, false, not, ◌&&◌, ◌||◌, Option,
  none, some, List, [], ◌∷◌, map, length, find, all, any, Bool-cases, Option-cases, ◌==◌, ◌!=◌,
  int_eq, nat_eq, list_eq, eq_of_==, eq_of_!=, ==-refl, ℤ, arith, get_or, ltb,
}
use deep_forge.Import.Status.{
  Result, Result-cases, Error, ok, err, ◌>>=◌, ◌>>◌, reject, >>-eq-ok, >>=-eq-ok, reject-eq-ok,
}
use deep_forge.Metadata.{TensorArgument, GraphMetadata, axis_of, find_argument}
use deep_forge.Metadata.Policies.{find_roles, split_last}
use deep_forge.Runtime.Overrides.Arguments.{ResolvedArgument, compiled}
use deep_forge.Runtime.Overrides.Roles.{Role, find_resolved, resolve_roles, shape_of}

-- A role that is left as compiled.
abbrev pub as_compiled : TensorArgument → Role
as_compiled a = record { argument = a; resolved = compiled a }

pub find_resolved-compiled :
    (arguments : List TensorArgument) (uid : ℤ) {a : TensorArgument}
    → find_argument arguments uid ≡ some a
    → find_resolved arguments (map compiled arguments) uid ≡ some (as_compiled a)
unfolding find_argument find find_resolved
find_resolved-compiled [] uid h = cc
find_resolved-compiled (b ∷ rest) uid {a} h = elim (Bool-cases (b.uid == uid)) [
  | inl hit ↦
      let same : b ≡ a = cc (rw (hit, find_argument, find) at h) in
      rw (hit, find_resolved) (ap (λ x. some (as_compiled x)) same)
  | inr miss ↦
      rw (miss, find_resolved)
        (find_resolved-compiled rest uid (rw (miss, find_argument, find) at h))
]

pub resolve_roles-compiled :
    (arguments : List TensorArgument) (uids : List ℤ) (e e' : Error) (roles : List TensorArgument)
    → find_roles arguments uids e ≡ ok roles
    → resolve_roles arguments (map compiled arguments) uids e' ≡ ok (map as_compiled roles)
unfolding find_roles resolve_roles
resolve_roles-compiled arguments [] e e' roles h = let same : [] ≡ roles = cc h in rw (← same) refl
resolve_roles-compiled arguments (uid ∷ uids) e e' roles h =
    elim (Option-cases (find_argument arguments uid)) [
      | inl nothing ↦ absurd (ground arith)
      | inr (a, found) ↦ elim (Result-cases (find_roles arguments uids e)) [
        | inr (failure, is_err) ↦ absurd (ground arith)
        | inl (later, is_ok) ↦
            let same : (a ∷ later) ≡ roles = ground arith in
            let resolved = find_resolved-compiled arguments uid {a = a} found in
            let rest = resolve_roles-compiled arguments uids e e' later is_ok in
            rw (← same, resolved, resolve_roles, rest, resolve_roles) refl
      ]
    ]

pub shapes-compiled :
    (roles : List TensorArgument)
    → map shape_of (map as_compiled roles) ≡ map (λ a. a.dimensions) roles
shapes-compiled [] = refl
shapes-compiled (a ∷ roles) = ap (◌∷◌ a.dimensions) (shapes-compiled roles)
