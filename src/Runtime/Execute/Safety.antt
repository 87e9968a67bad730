-- ===== src/Runtime/Execute/Safety.antt =====
-- What `execute_variant` of lib/Runtime/Executable.cpp has made sure of when it calls compiled code.
use deep_forge.Base.{◌≡◌, refl, true, Option, none, some, List, map, All₂, Pairwise, nat_eq, arith}
use deep_forge.Import.Status.{ok, >>=-eq-ok, >>-eq-ok}
use deep_forge.Metadata.{access_eq, storage_policy_eq}
use deep_forge.Runtime.Dispatch.{CpuVariant, CpuFeatures, at_variant, cpu_supports_variant}
use deep_forge.Runtime.Overrides.Arguments.{ResolvedArgument}
use deep_forge.Runtime.Overrides.Bounds.{Resolves, resolve_overrides-Resolves}
use deep_forge.Runtime.Overrides.Resolution.{resolve_overrides}
use deep_forge.Runtime.Ragged.{Memory}
use deep_forge.Runtime.Execute.{
  Impl, Interval, is_compiled, supports_variant, argument_pointers, intervals_of, check_aliases,
  check_workspace,
}
use deep_forge.Runtime.Execute.Calls.{
  Call, Arguments, call_of, prepare_call, check_variant, prepare_variant,
}
use deep_forge.Runtime.Execute.Intervals.{
  IsHostPack, Placed, argument_pointers-IsAddressed, intervals_of-Placed,
}
use deep_forge.Runtime.Execute.Aliases.{
  Apart, IsWorkspace, check_aliases-Apart, check_workspace-IsWorkspace,
}

-- What holds when compiled code is called: the variant is compiled and the host runs it; each
-- argument's bytes begin at its pointer, which is not null and aligned, and stay in its compiled
-- buffer; two arguments that share a byte are both only read; the workspace is apart from them all;
-- and the call is the one with those pointers and the resolved shapes.
pub record IsSafe (features : CpuFeatures) (impl : Impl) (variant : CpuVariant)
    (arguments : Arguments) (call : Call) : Type 0 where
  pub compiled_variant : is_compiled (at_variant impl.code variant) ≡ true
  pub supported : cpu_supports_variant features variant ≡ true
  pub resolved : List ResolvedArgument
  pub resolves : All₂ Resolves impl.metadata.graph.arguments resolved
  pub intervals : List Interval
  pub placed : Placed arguments.pack impl.metadata.graph.arguments resolved intervals
  pub apart : Pairwise Apart intervals
  pub has_workspace : IsWorkspace impl.workspace arguments.workspace intervals
  pub called :
      call_of impl variant resolved (map (λ i. i.begin) intervals) arguments.workspace ≡ ok call

-- The checks behind the override resolution, in one record.
prepare_call-IsSafe :
    (features : CpuFeatures) (memory : Memory) (impl : Impl) (variant : CpuVariant)
    (arguments : Arguments) (resolved : List ResolvedArgument) (call : Call)
    → IsHostPack arguments.pack
    → is_compiled (at_variant impl.code variant) ≡ true
    → cpu_supports_variant features variant ≡ true
    → All₂ Resolves impl.metadata.graph.arguments resolved
    → prepare_call memory impl variant arguments resolved ≡ ok call
    → IsSafe features impl variant arguments call
unfolding prepare_call
prepare_call-IsSafe features memory impl variant arguments resolved call host there supported v h =
    let table = impl.metadata.graph.arguments in
    let (ps, pointers, after_pointers) = >>=-eq-ok (argument_pointers arguments.pack table) _ h in
    let (is, intervals, after_intervals) =
      >>=-eq-ok (intervals_of memory arguments.pack table table resolved ps) _ after_pointers in
    let (aliases, after_aliases) = >>-eq-ok (check_aliases is) _ after_intervals in
    let (workspace, called) =
      >>-eq-ok (check_workspace impl.workspace arguments.workspace is)
        (call_of impl variant resolved ps arguments.workspace) after_aliases in
    let addressed = argument_pointers-IsAddressed arguments.pack table ps pointers in
    let (placed, begins) =
      intervals_of-Placed memory arguments.pack table table resolved ps is host v addressed
        intervals in
    record {
      compiled_variant = there;
      supported = supported;
      resolved = resolved;
      resolves = v;
      intervals = is;
      placed = placed;
      apart = check_aliases-Apart is aliases;
      has_workspace = check_workspace-IsWorkspace impl.workspace arguments.workspace is workspace;
      called = rw begins called;
    }

-- Whenever `execute_variant` calls compiled code, on a pack of 64-bit addresses, the executable is
-- not empty and the call is safe in the sense of `IsSafe`.
pub prepare_variant-IsSafe :
    (features : CpuFeatures) (memory : Memory) (executable : Option Impl) (variant : CpuVariant)
    (arguments : Arguments) (call : Call)
    → IsHostPack arguments.pack
    → prepare_variant features memory executable variant arguments ≡ ok call
    → (impl : Impl) × (executable ≡ some impl) × IsSafe features impl variant arguments call
unfolding prepare_variant check_variant supports_variant
prepare_variant-IsSafe features memory none variant arguments call host h = cc h
prepare_variant-IsSafe features memory (some impl) variant arguments call host h =
    let (checked, after_variant) = >>-eq-ok (check_variant features impl variant) _ h in
    let (resolved, resolves, after_overrides) =
      >>=-eq-ok
        (resolve_overrides impl.metadata.graph arguments.override_uids arguments.override_shapes
          arguments.override_strides)
        _ after_variant in
    (
      impl,
      refl,
      prepare_call-IsSafe features memory impl variant arguments resolved call host (ground arith)
          (ground arith)
          (resolve_overrides-Resolves impl.metadata.graph arguments.override_uids
            arguments.override_shapes arguments.override_strides resolves)
          after_overrides,
    )
