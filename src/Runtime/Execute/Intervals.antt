-- ===== src/Runtime/Execute/Intervals.antt =====
-- lib/Runtime/Executable.cpp, `execute_variant`: what the loops over the arguments say of their
-- pointers and byte ranges.
use deep_forge.Base.{
  ℕ, ◌+◌, ◌-◌, ◌%◌, ◌≤◌, ◌<◌, ◌≡◌, refl, ap, sym, inl, inr, false, some, List, [], ◌∷◌, map, All₂,
  Bool-cases, Option-cases, ltb, ◌==◌, nat_eq, eq_of_==, ℤ, u64_max, checked_add, arith,
}
use deep_forge.Import.Status.{Result-cases, ok}
use deep_forge.Metadata.{TensorArgument, access_eq, strided, ragged_batch_prefix, storage_policy_eq}
use deep_forge.Runtime.Overrides.Arguments.{ResolvedArgument}
use deep_forge.Runtime.Overrides.Bounds.{Resolves}
use deep_forge.Runtime.Ragged.{Memory}
use deep_forge.Runtime.Ragged.Bounds.{resolve_ragged_size-bound}
use deep_forge.Runtime.Execute.{
  VariantPack, Interval, nonnull_pointer, argument_pointers, runtime_size, interval_of,
  intervals_of, address,
}

-- A pack of 64-bit addresses.
abbrev pub IsHostPack : VariantPack → Type 0
IsHostPack pack = (uid : ℤ) (p : ℕ) → pack uid ≡ some p → p ≤ u64_max

-- The argument's pointer is in the pack, not null and aligned.
pub record IsAddressed (pack : VariantPack) (a : TensorArgument) (p : ℕ) : Type 0 where
  pub found : pack a.uid ≡ some p
  pub nonnull : 0 < p
  pub aligned : p % a.alignment ≡ 0

-- The bytes that a call uses of an argument: they begin at its pointer and are no more than were
-- compiled; of a strided argument they are those of its resolved layout.
pub record IsInterval (pack : VariantPack) (a : TensorArgument) (r : ResolvedArgument)
    (i : Interval) : Type 0 where
  pub addressed : IsAddressed pack a i.begin
  pub same_access : i.access ≡ a.access
  pub ordered : i.begin ≤ i.end
  pub in_buffer : i.end ≤ i.begin + a.size_bytes
  pub no_wrap : i.end ≤ u64_max
  pub covers : a.storage_policy ≡ strided → i.end ≡ i.begin + r.size_bytes

abbrev pub Placed :
    VariantPack → List TensorArgument → List ResolvedArgument → List Interval → Type 0
Placed pack (a ∷ as') (r ∷ rs) (i ∷ is) = IsInterval pack a r i × Placed pack as' rs is
Placed pack [] [] [] = Unit
Placed pack _ _ _ = ⊥

nonnull_pointer-IsAddressed :
    (pack : VariantPack) (a : TensorArgument) (p : ℕ)
    → nonnull_pointer pack a ≡ ok p
    → IsAddressed pack a p
unfolding nonnull_pointer
nonnull_pointer-IsAddressed pack a p h = elim (Option-cases (pack a.uid)) [
  | inl nothing ↦ absurd (ground arith)
  | inr (q, found) ↦
      let same : q ≡ p = ground arith in
      record { found = rw (← same) found; nonnull = ground arith; aligned = ground arith }
]

pub argument_pointers-IsAddressed :
    (pack : VariantPack) (as' : List TensorArgument) (ps : List ℕ)
    → argument_pointers pack as' ≡ ok ps
    → All₂ (IsAddressed pack) as' ps
unfolding argument_pointers
argument_pointers-IsAddressed pack [] ps h = let same : [] ≡ ps = cc h in rw (← same) tt
argument_pointers-IsAddressed pack (a ∷ as') ps h = elim (Result-cases (nonnull_pointer pack a)) [
  | inr (e, is_err) ↦ absurd (ground arith)
  | inl (p, found) ↦ elim (Result-cases (argument_pointers pack as')) [
    | inr (e, is_err) ↦ absurd (ground arith)
    | inl (later, founds) ↦
        let same : (p ∷ later) ≡ ps = ground arith in
        rw (← same) (
          nonnull_pointer-IsAddressed pack a p found,
          argument_pointers-IsAddressed pack as' later founds,
        )
  ]
]

resolved-fits :
    (a : TensorArgument) (r : ResolvedArgument) → Resolves a r → r.size_bytes ≤ a.size_bytes
resolved-fits a r (inl same) = omega (arith, ap (λ (x : ResolvedArgument). x.size_bytes) same)
resolved-fits a r (inr o) = o.fits

runtime_size-bound :
    (memory : Memory) (pack : VariantPack) (arguments : List TensorArgument) (a : TensorArgument)
    (r : ResolvedArgument) (n : ℕ)
    → Resolves a r
    → runtime_size memory pack arguments a r ≡ ok n
    → (n ≤ a.size_bytes) × (a.storage_policy ≡ strided → n ≡ r.size_bytes)
unfolding runtime_size
runtime_size-bound memory pack arguments a r n v h =
    elim (Bool-cases (a.storage_policy == ragged_batch_prefix)) [
      | inl ragged ↦
          let same : a.storage_policy ≡ ragged_batch_prefix =
            eq_of_== a.storage_policy ragged_batch_prefix ragged in
          (resolve_ragged_size-bound memory arguments (address pack) a n (ground arith), λ s. cc)
      | inr not_ragged ↦
          let same : r.size_bytes ≡ n = ground arith in
          (omega (arith, resolved-fits a r v, same), λ s. sym same)
    ]

interval_of-IsInterval :
    (memory : Memory) (pack : VariantPack) (arguments : List TensorArgument) (a : TensorArgument)
    (r : ResolvedArgument) (p : ℕ) (i : Interval)
    → IsHostPack pack
    → Resolves a r
    → IsAddressed pack a p
    → interval_of memory pack arguments a r p ≡ ok i
    → IsInterval pack a r i × (i.begin ≡ p)
unfolding interval_of checked_add
interval_of-IsInterval memory pack arguments a r p i host v at h =
    elim (Result-cases (runtime_size memory pack arguments a r)) [
      | inr (e, is_err) ↦ absurd (ground arith)
      | inl (n, sized) ↦
          let (le, exact) = runtime_size-bound memory pack arguments a r n v sized in
          let in_range = host a.uid p at.found in
          let small : ltb (u64_max - p) n ≡ false = ground arith in
          let same : record { begin = p; end = p + n; name = a.name; access = a.access } ≡ i =
            ground arith in
          rw (← same) (
            record {
              addressed = at;
              same_access = refl;
              ordered = omega arith;
              in_buffer = omega (arith, le);
              no_wrap = ground arith;
              covers = λ s. ap (λ (x : ℕ). p + x) (exact s);
            },
            refl,
          )
    ]

pub intervals_of-Placed :
    (memory : Memory) (pack : VariantPack) (arguments as' : List TensorArgument)
    (rs : List ResolvedArgument) (ps : List ℕ) (is : List Interval)
    → IsHostPack pack
    → All₂ Resolves as' rs
    → All₂ (IsAddressed pack) as' ps
    → intervals_of memory pack arguments as' rs ps ≡ ok is
    → Placed pack as' rs is × (map (λ i. i.begin) is ≡ ps)
unfolding intervals_of
intervals_of-Placed memory pack arguments [] [] [] is host v at h =
    let same : [] ≡ is = cc h in rw (← same) (tt, refl)
intervals_of-Placed memory pack arguments [] [] (p ∷ ps) is host v at h = absurd at
intervals_of-Placed memory pack arguments [] (r ∷ rs) ps is host v at h = absurd v
intervals_of-Placed memory pack arguments (a ∷ as') [] ps is host v at h = absurd v
intervals_of-Placed memory pack arguments (a ∷ as') (r ∷ rs) [] is host v at h = absurd at
intervals_of-Placed memory pack arguments (a ∷ as') (r ∷ rs) (p ∷ ps) is host v at h =
    elim (Result-cases (interval_of memory pack arguments a r p)) [
      | inr (e, is_err) ↦ absurd (ground arith)
      | inl (i, found) ↦ elim (Result-cases (intervals_of memory pack arguments as' rs ps)) [
        | inr (e, is_err) ↦ absurd (ground arith)
        | inl (later, founds) ↦
            let same : (i ∷ later) ≡ is = ground arith in
            let (first, begins) =
              interval_of-IsInterval memory pack arguments a r p i host v.0 at.0 found in
            let (rest, all_begin) =
              intervals_of-Placed memory pack arguments as' rs ps later host v.1 at.1 founds in
            rw (← same) ((first, rest), cc)
      ]
    ]
