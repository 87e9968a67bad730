-- ===== src/Runtime/Execute/Acceptance.antt =====
-- What is enough for `execute_variant` of lib/Runtime/Executable.cpp to call compiled code.
use deep_forge.Base.{
  ℕ, ◌+◌, ◌%◌, ◌≤◌, ◌<◌, ◌≡◌, refl, ◌⊎◌, inl, inr, true, false, Bool-cases, eq_of_==, ◌!=◌, Option,
  some, Text, List, [], ◌∷◌, All, All₂, Pairwise, ◌==◌, nat_eq, u64_max, checked_add,
  is_power_of_two, arith,
}
use deep_forge.Import.Status.{ok}
use deep_forge.Metadata.{
  TensorArgument, TensorAccess, read, access_eq, access_beq, strided, ragged_batch_prefix,
  storage_policy_eq, storage_policy_beq, adapter_kind_eq, generic_ranked_memref_pointer_table,
}
use deep_forge.Workspace.{WorkspacePlan}
use deep_forge.Runtime.Dispatch.{CpuVariant, CpuFeatures, at_variant, cpu_supports_variant}
use deep_forge.Runtime.Overrides.Resolution.{resolve_overrides}
use deep_forge.Runtime.Overrides.Arguments.{ResolvedArgument}
use deep_forge.Runtime.Ragged.{Memory}
use deep_forge.Runtime.Execute.{
  Impl, VariantPack, Interval, overlaps, writes, nonnull_pointer, argument_pointers, runtime_size,
  interval_of, intervals_of, check_alias, check_aliases, check_workspace_alias, workspace_interval,
  check_workspace, is_compiled, supports_variant,
}
use deep_forge.Runtime.Execute.Calls.{
  StridedMemRef, Call, Arguments, call_of, prepare_call, check_variant, prepare_variant, perform,
  execute_variant,
}
use deep_forge.Runtime.Execute.Intervals.{IsAddressed}
use deep_forge.Runtime.Execute.Aliases.{Apart}

-- The bytes of strided arguments from their pointers on.
abbrev pub ranges : List TensorArgument → List ResolvedArgument → List ℕ → List Interval
ranges (a ∷ as') (r ∷ rs) (p ∷ ps) =
    record { begin = p; end = p + r.size_bytes; name = a.name; access = a.access }
    ∷ ranges as' rs ps
ranges _ _ _ = []

abbrev pub IsStrided : TensorArgument → Type 0
IsStrided a = a.storage_policy ≡ strided

-- The workspace is given as the plan asks, and apart from the arguments.
abbrev pub HasWorkspace : WorkspacePlan → ℕ → List Interval → Type 0
HasWorkspace plan p is =
    (plan.size_bytes ≡ 0)
    ⊎ ((is_power_of_two plan.alignment ≡ true)
        × (0 < p)
        × (p % plan.alignment ≡ 0)
        × (p + plan.size_bytes ≤ u64_max)
        × All (λ i. (i.end ≤ p) ⊎ (p + plan.size_bytes ≤ i.begin)) is)

argument_pointers-eq-ok :
    (pack : VariantPack) (as' : List TensorArgument) (ps : List ℕ)
    → All₂ (IsAddressed pack) as' ps
    → argument_pointers pack as' ≡ ok ps
unfolding argument_pointers nonnull_pointer
argument_pointers-eq-ok pack [] [] h = refl
argument_pointers-eq-ok pack [] (p ∷ ps) h = absurd h
argument_pointers-eq-ok pack (a ∷ as') [] h = absurd h
argument_pointers-eq-ok pack (a ∷ as') (p ∷ ps) h =
    let found = h.0.found in
    let nonnull = h.0.nonnull in
    let aligned = h.0.aligned in ground (arith, argument_pointers-eq-ok pack as' ps h.1)

interval_of-strided :
    (memory : Memory) (pack : VariantPack) (arguments : List TensorArgument) (a : TensorArgument)
    (r : ResolvedArgument) (p : ℕ)
    → IsStrided a
    → p + r.size_bytes ≤ u64_max
    → interval_of memory pack arguments a r p
      ≡ ok (record { begin = p; end = p + r.size_bytes; name = a.name; access = a.access })
unfolding interval_of runtime_size checked_add storage_policy_beq
interval_of-strided memory pack arguments a r p s le =
    let test : (a.storage_policy == ragged_batch_prefix) ≡ false = rw s refl in ground arith

intervals_of-ranges :
    (memory : Memory) (pack : VariantPack) (arguments as' : List TensorArgument)
    (rs : List ResolvedArgument) (ps : List ℕ)
    → All IsStrided as'
    → All (λ i. i.end ≤ u64_max) (ranges as' rs ps)
    → intervals_of memory pack arguments as' rs ps ≡ ok (ranges as' rs ps)
unfolding intervals_of
intervals_of-ranges memory pack arguments [] rs ps s h = refl
intervals_of-ranges memory pack arguments (a ∷ as') [] ps s h = refl
intervals_of-ranges memory pack arguments (a ∷ as') (r ∷ rs) [] s h = refl
intervals_of-ranges memory pack arguments (a ∷ as') (r ∷ rs) (p ∷ ps) s h =
    let first = interval_of-strided memory pack arguments a r p s.0 h.0 in
    let rest = intervals_of-ranges memory pack arguments as' rs ps s.1 h.1 in rw (first, rest) refl

no_write : (access : TensorAccess) → access ≡ read → writes access ≡ false
unfolding writes access_beq
no_write access same = rw same refl

check_alias-accepts :
    (i : Interval) (is : List Interval) → All (Apart i) is → check_alias i is ≡ ok tt
unfolding check_alias overlaps
check_alias-accepts i [] h = refl
check_alias-accepts i (j ∷ is) (inl apart, h) = ground (arith, check_alias-accepts i is h)
check_alias-accepts i (j ∷ is) (inr reads, h) =
    ground (arith, no_write i.access reads.0, no_write j.access reads.1, check_alias-accepts i is h)

check_aliases-accepts : (is : List Interval) → Pairwise Apart is → check_aliases is ≡ ok tt
unfolding check_aliases
check_aliases-accepts [] h = refl
check_aliases-accepts (i ∷ is) h =
    ground (arith, check_alias-accepts i is h.0, check_aliases-accepts is h.1)

check_workspace_alias-accepts :
    (w : Interval) (is : List Interval)
    → All (λ i. (i.end ≤ w.begin) ⊎ (w.end ≤ i.begin)) is
    → check_workspace_alias w is ≡ ok tt
unfolding check_workspace_alias overlaps
check_workspace_alias-accepts w [] h = refl
check_workspace_alias-accepts w (i ∷ is) h =
    let here = h.0 in ground (arith, check_workspace_alias-accepts w is h.1)

check_workspace-accepts :
    (plan : WorkspacePlan) (p : ℕ) (is : List Interval)
    → HasWorkspace plan p is
    → check_workspace plan p is ≡ ok tt
unfolding check_workspace checked_add
check_workspace-accepts plan p is (inl no_size) = ground arith
check_workspace-accepts plan p is (inr (power, nonnull, aligned, fits, apart)) =
    ground
      (arith, check_workspace_alias-accepts (workspace_interval p (p + plan.size_bytes)) is apart)

prepare_call-accepts :
    (memory : Memory) (impl : Impl) (variant : CpuVariant) (arguments : Arguments)
    (resolved : List ResolvedArgument) (ps : List ℕ)
    → All₂ (IsAddressed arguments.pack) impl.metadata.graph.arguments ps
    → All IsStrided impl.metadata.graph.arguments
    → All (λ i. i.end ≤ u64_max) (ranges impl.metadata.graph.arguments resolved ps)
    → Pairwise Apart (ranges impl.metadata.graph.arguments resolved ps)
    → HasWorkspace impl.workspace arguments.workspace
        (ranges impl.metadata.graph.arguments resolved ps)
    → prepare_call memory impl variant arguments resolved
      ≡ call_of impl variant resolved ps arguments.workspace
unfolding prepare_call
prepare_call-accepts memory impl variant arguments resolved ps addressed strided_all fits apart
      given =
    let table = impl.metadata.graph.arguments in
    let is = ranges table resolved ps in
    rw
      (
        argument_pointers-eq-ok arguments.pack table ps addressed,
        intervals_of-ranges memory arguments.pack table table resolved ps strided_all fits,
        check_aliases-accepts is apart,
        check_workspace-accepts impl.workspace arguments.workspace is given,
      )
      refl

-- `call_of` has a call: the table of a generic adapter needs an entry point.
call_of-ok :
    (impl : Impl) (variant : CpuVariant) (resolved : List ResolvedArgument) (ps : List ℕ)
    (workspace : ℕ)
    → (impl.adapter_kind ≡ generic_ranked_memref_pointer_table
        → 0 < (at_variant impl.code variant).entry_point)
    → (call : Call) × (call_of impl variant resolved ps workspace ≡ ok call)
unfolding call_of
call_of-ok impl variant resolved ps workspace h =
    elim (Bool-cases (impl.adapter_kind == generic_ranked_memref_pointer_table)) [
      | inl generic ↦
          let some_entry : ((at_variant impl.code variant).entry_point == 0) ≡ false =
            ground
              (arith, h (eq_of_== impl.adapter_kind generic_ranked_memref_pointer_table generic)) in
          rw (generic, some_entry) (_, refl)
      | inr conv ↦ elim (Bool-cases ((at_variant impl.code variant).entry_point != 0)) [
        | inl entry ↦ rw (conv, entry) (_, refl)
        | inr engine ↦ rw (conv, engine) (_, refl)
      ]
    ]

-- For a variant that is compiled and that the host supports, with an entry point where the adapter is
-- generic, overrides that resolve, strided arguments whose pointers are in the pack, not null and
-- aligned, whose ranges end within the address space and are disjoint or only read where they meet,
-- and a workspace that is given as planned and apart from them, `execute_variant` makes the call with
-- those pointers and the resolved shapes, and returns what the call returns.
pub execute_variant-perform :
    (invoke : CpuVariant → List StridedMemRef → Option Text) (features : CpuFeatures)
    (memory : Memory) (impl : Impl) (variant : CpuVariant) (arguments : Arguments)
    (resolved : List ResolvedArgument) (ps : List ℕ)
    → is_compiled (at_variant impl.code variant) ≡ true
    → cpu_supports_variant features variant ≡ true
    → (impl.adapter_kind ≡ generic_ranked_memref_pointer_table
        → 0 < (at_variant impl.code variant).entry_point)
    → resolve_overrides impl.metadata.graph arguments.override_uids arguments.override_shapes
        arguments.override_strides
      ≡ ok resolved
    → All₂ (IsAddressed arguments.pack) impl.metadata.graph.arguments ps
    → All IsStrided impl.metadata.graph.arguments
    → All (λ i. i.end ≤ u64_max) (ranges impl.metadata.graph.arguments resolved ps)
    → Pairwise Apart (ranges impl.metadata.graph.arguments resolved ps)
    → HasWorkspace impl.workspace arguments.workspace
        (ranges impl.metadata.graph.arguments resolved ps)
    → (call : Call) × (call_of impl variant resolved ps arguments.workspace ≡ ok call)
      × (execute_variant invoke features memory (some impl) variant arguments ≡ perform invoke call)
unfolding execute_variant prepare_variant check_variant supports_variant
execute_variant-perform invoke features memory impl variant arguments resolved ps there supported
      entry overrides addressed strided_all fits apart given =
    let (call, is) = call_of-ok impl variant resolved ps arguments.workspace entry in
    let accepted =
      prepare_call-accepts memory impl variant arguments resolved ps addressed strided_all fits
        apart given in
    (call, is, rw (there, supported, overrides, accepted, is) refl)
