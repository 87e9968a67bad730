-- ===== src/Runtime/Overrides/Bounds.antt =====
-- What `resolve_overrides` of lib/Runtime/Executable.cpp returns stays inside the compiled buffers.
use deep_forge.Base.{
  ◌≤ℤ◌, eq_of_positive, le_of_ltb_ℤ, pos_part, ◌<◌, ℕ, zero, suc, ◌+◌, ◌*◌, ◌≤◌, ◌≡◌, refl, ap, ◌⊎◌,
  inl, inr, true, some, List, [], ◌∷◌, map, length, set, get_elem?, All₂, All₂-set, ◌==◌, int_eq,
  nat_eq, eq_of_==, Bool-cases, Option-cases, ℤ, arith,
}
use deep_forge.Import.Status.{Result-cases, ok, >>=-eq-ok}
use deep_forge.Import.Capability.{data_type_storage_bits, tensor_storage_bytes}
use deep_forge.Import.Capability.Indexing.{IsIndex, offset, tensor_storage_bytes-covers}
use deep_forge.Metadata.{TensorArgument, GraphMetadata}
use deep_forge.Runtime.Layout.{has_non_overlapping_layout}
use deep_forge.Runtime.Layout.Injective.{offset-injective}
use deep_forge.Runtime.Overrides.Arguments.{
  ResolvedArgument, Override, compiled, find_position, within_maxima, check_override,
  apply_override, apply_overrides,
}
use deep_forge.Runtime.Overrides.Resolution.{resolve_overrides, zip_overrides}

-- Each extent is positive and at most the other.
abbrev pub Within : List ℤ → List ℤ → Type 0
Within = All₂ (λ d c. (0 < pos_part d) × (d ≤ℤ c))

within_maxima-Within :
    (ds cs : List ℤ) → length ds ≡ length cs → within_maxima ds cs ≡ true → Within ds cs
unfolding within_maxima
within_maxima-Within [] [] h k = tt
within_maxima-Within [] (c ∷ cs) h k = cc
within_maxima-Within (d ∷ ds) [] h k = cc
within_maxima-Within (d ∷ ds) (c ∷ cs) h k =
    let later = within_maxima-Within ds cs (omega (arith, h)) (ground arith) in
    let positive = eq_of_positive d (ground arith) in
    ((positive.1, le_of_ltb_ℤ c d (ground arith)), later)

-- The overridden form of an argument: of its rank, within its extents, laid out without overlap,
-- and no larger than its buffer.
pub record Overrides (a : TensorArgument) (r : ResolvedArgument) : Type 0 where
  pub ranks : (length r.dimensions ≡ length a.dimensions) × (length r.strides ≡ length a.strides)
  pub extents : Within r.dimensions a.dimensions
  pub layout : has_non_overlapping_layout r.dimensions r.strides ≡ true
  pub size : tensor_storage_bytes a.data_type r.dimensions r.strides ≡ some r.size_bytes
  pub fits : r.size_bytes ≤ a.size_bytes

abbrev pub Resolves : TensorArgument → ResolvedArgument → Type 0
Resolves a r = (r ≡ compiled a) ⊎ Overrides a r

compiled-Resolves :
    (arguments : List TensorArgument) → All₂ Resolves arguments (map compiled arguments)
compiled-Resolves [] = tt
compiled-Resolves (a ∷ rest) = (inl refl, compiled-Resolves rest)

find_position-eq-some :
    (arguments : List TensorArgument) (uid : ℤ) (k : ℕ) {j : ℕ} {a : TensorArgument}
    → find_position arguments uid k ≡ some (j, a)
    → (i : ℕ) × (j ≡ k + i) × (get_elem? arguments i ≡ some a) × (a.uid ≡ uid)
unfolding find_position
find_position-eq-some [] uid k e = cc
find_position-eq-some (b ∷ rest) uid k {j} {a} e = elim (Bool-cases (b.uid == uid)) [
  | inl hit ↦
      let found : some (k, b) ≡ some (j, a) = rw (hit, find_position) at e in
      let index : k ≡ j = cc found in
      let argument : b ≡ a = cc found in
      (zero, omega (arith, index), ap some argument, rw (← argument) (eq_of_== b.uid uid hit))
  | inr miss ↦
      let (i, at, found, same) =
        find_position-eq-some rest uid (suc k) {j = j} {a = a} (rw (miss, find_position) at e) in
      (suc i, omega arith, found, same)
]

check_override-Overrides :
    (a : TensorArgument) (o : Override) {r : ResolvedArgument}
    → check_override a o ≡ ok r
    → Overrides a r × (r.dimensions ≡ o.dimensions) × (r.strides ≡ o.strides)
unfolding check_override
check_override-Overrides a o {r} h =
    elim (Option-cases (tensor_storage_bytes a.data_type o.dimensions o.strides)) [
      | inl nothing ↦ absurd (ground arith)
      | inr (n, sized) ↦
          let same : r ≡ record { dimensions = o.dimensions; strides = o.strides; size_bytes = n } =
            ground arith in
          rw same (
            record {
              ranks = (ground arith, ground arith);
              extents =
                  within_maxima-Within o.dimensions a.dimensions (ground arith) (ground arith);
              layout = ground arith;
              size = sized;
              fits = ground arith;
            },
            refl,
            refl,
          )
    ]

apply_override-Resolves :
    (arguments : List TensorArgument) (seen : List ℤ) (o : Override)
    (resolved : List ResolvedArgument) {out : List ResolvedArgument}
    → All₂ Resolves arguments resolved
    → apply_override arguments seen o resolved ≡ ok out
    → All₂ Resolves arguments out
unfolding apply_override
apply_override-Resolves arguments seen o resolved {out} h e =
    elim (Option-cases (find_position arguments o.uid 0)) [
      | inl nothing ↦ absurd (ground arith)
      | inr ((j, a), found) ↦
          let (i, at, entry, same) =
            find_position-eq-some arguments o.uid 0 {j = j} {a = a} found in
          elim (Result-cases (check_override a o)) [
            | inr (failure, is_err) ↦ absurd (ground arith)
            | inl (r, is_ok) ↦
                let position : j ≡ i = omega (arith, at) in
                let written : out ≡ set resolved i r = rw (← position) (ground arith) in
                let checked = check_override-Overrides a o {r = r} is_ok in
                rw written (All₂-set Resolves arguments resolved i r h entry (inr checked.0))
          ]
    ]

apply_overrides-Resolves :
    (arguments : List TensorArgument) (seen : List ℤ) (os : List Override)
    (resolved : List ResolvedArgument) {out : List ResolvedArgument}
    → All₂ Resolves arguments resolved
    → apply_overrides arguments seen os resolved ≡ ok out
    → All₂ Resolves arguments out
unfolding apply_overrides
apply_overrides-Resolves arguments seen [] resolved {out} h e =
    let same : resolved ≡ out = cc e in rw (← same) h
apply_overrides-Resolves arguments seen (o ∷ os) resolved {out} h e =
    let (next, step, later) =
      >>=-eq-ok (apply_override arguments seen o resolved)
        (λ r. apply_overrides arguments (o.uid ∷ seen) os r) e in
    apply_overrides-Resolves arguments (o.uid ∷ seen) os next
      (apply_override-Resolves arguments seen o resolved h step) later

-- Whenever the overrides are accepted, each argument is left as compiled, or its new form has the
-- compiled rank, extents within the compiled ones, a layout without overlap, the exact size of
-- that layout, and fits in the compiled size.
pub resolve_overrides-Resolves :
    (g : GraphMetadata) (uids : List ℤ) (shapes strides : List (List ℤ))
    {out : List ResolvedArgument}
    → resolve_overrides g uids shapes strides ≡ ok out
    → All₂ Resolves g.arguments out
unfolding resolve_overrides
resolve_overrides-Resolves g uids shapes strides {out} h =
    let os = zip_overrides uids shapes strides in
    elim (Result-cases (apply_overrides g.arguments [] os (map compiled g.arguments))) [
      | inr (e, is_err) ↦ absurd (ground arith)
      | inl (resolved, applied) ↦
          let final : resolved ≡ out = ground arith in
          rw (← final) (
            apply_overrides-Resolves g.arguments [] os (map compiled g.arguments)
              (compiled-Resolves g.arguments) applied)
    ]

-- An overridden argument is addressed inside its compiled buffer, and no two of its elements share
-- storage: every index tuple within the new extents lies within the compiled bytes, and two tuples
-- at one offset are the same.
pub Overrides-addresses :
    (a : TensorArgument) (r : ResolvedArgument) (is js : List ℕ)
    → Overrides a r
    → IsIndex r.dimensions is
    → IsIndex r.dimensions js
    → ((offset r.strides is + 1) * data_type_storage_bits a.data_type ≤ 8 * a.size_bytes)
      × (offset r.strides is ≡ offset r.strides js → is ≡ js)
Overrides-addresses a r is js v at at' = (
  omega
      (arith, tensor_storage_bytes-covers a.data_type r.dimensions r.strides is v.size at, v.fits),
  offset-injective r.dimensions r.strides is js v.layout at at',
)
