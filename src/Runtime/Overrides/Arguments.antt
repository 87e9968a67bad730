-- ===== src/Runtime/Overrides/Arguments.antt =====
-- lib/Runtime/Executable.cpp, `resolve_overrides`: the loop over the overrides.
use deep_forge.Base.{
  ℕ, suc, Bool, true, false, not, ◌||◌, Option, none, some, List, [], ◌∷◌, text, length, set,
  contains, if◌then◌else◌, ltb, ◌==◌, ◌!=◌, nat_eq, ℤ, int_eq, nonpositive, ltb_ℤ,
}
use deep_forge.Import.Status.{
  Result, ok, err, ◌>>=◌, ◌>>◌, reject, fail, invalid_value, invalid_shape, invalid_layout,
  invalid_variant_pack,
}
use deep_forge.Import.Capability.{tensor_storage_bytes}
use deep_forge.Metadata.{TensorArgument}
use deep_forge.Runtime.Layout.{has_non_overlapping_layout}

pub record ResolvedArgument : Type 0 where
  pub dimensions : List ℤ
  pub strides : List ℤ
  pub size_bytes : ℕ

-- An entry of the three parallel vectors that a call passes.
pub record Override : Type 0 where
  pub uid : ℤ
  pub dimensions : List ℤ
  pub strides : List ℤ

abbrev pub compiled : TensorArgument → ResolvedArgument
compiled a = record { dimensions = a.dimensions; strides = a.strides; size_bytes = a.size_bytes }

-- The argument with a UID and its position, which `argument_it - begin()` computes.
unfoldable pub find_position : List TensorArgument → ℤ → ℕ → Option (ℕ × TensorArgument)
find_position [] uid index = none
find_position (a ∷ rest) uid index = elim (a.uid == uid) [
  | true ↦ some (index, a)
  | false ↦ find_position rest uid (suc index)
]

-- The loop over the axes: positive, and at most the compiled extent.
unfoldable pub within_maxima : List ℤ → List ℤ → Bool
within_maxima (d ∷ ds) (c ∷ cs) =
    let rest = within_maxima ds cs in if nonpositive d || ltb_ℤ c d then false else rest
within_maxima _ _ = true

size_within : Option ℕ → ℕ → Option ℕ
size_within none bound = none
size_within (some n) bound = if ltb bound n then none else some n

-- The checks of one override against the argument that it is for.
unfoldable pub check_override : TensorArgument → Override → Result ResolvedArgument
unfolding size_within
check_override a o = do
  reject (length o.dimensions != length a.dimensions || length o.strides != length a.strides)
      (fail invalid_shape a.name (text "override rank does not match the compiled tensor rank"))
  reject (not (within_maxima o.dimensions a.dimensions)) (
      fail invalid_shape a.name
        (text "override dimensions must be positive and within compiled maxima"))
  reject (not (has_non_overlapping_layout o.dimensions o.strides)) (
      fail invalid_layout a.name
        (text "override strides must define a positive non-overlapping layout"))
  elim (size_within (tensor_storage_bytes a.data_type o.dimensions o.strides) a.size_bytes) [
    | none ↦
        err (
          fail invalid_shape a.name
            (text "override storage span exceeds the compiled tensor bound"))
    | some n ↦ ok (record { dimensions = o.dimensions; strides = o.strides; size_bytes = n })
  ]

-- One round of the loop; `seen` are the UIDs of the rounds before.
unfoldable pub apply_override :
    List TensorArgument → List ℤ → Override → List ResolvedArgument → Result (List ResolvedArgument)
apply_override arguments seen o resolved = do
  reject (contains o.uid seen)
      (fail invalid_value (text "runtime.override") (text "override UIDs must be unique"))
  elim (find_position arguments o.uid 0) [
    | none ↦ err (
        fail invalid_variant_pack (text "runtime.override")
          (text "override UID is not an external tensor argument"))
    | some (index, a) ↦ check_override a o >>= λ r. ok (set resolved index r)
  ]

unfoldable pub apply_overrides :
    List TensorArgument
    → List ℤ
    → List Override
    → List ResolvedArgument
    → Result (List ResolvedArgument)
apply_overrides arguments seen [] resolved = ok resolved
apply_overrides arguments seen (o ∷ rest) resolved =
    apply_override arguments seen o resolved >>= λ resolved'.
    apply_overrides arguments (o.uid ∷ seen) rest resolved'
