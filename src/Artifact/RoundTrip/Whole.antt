-- ===== src/Artifact/RoundTrip/Whole.antt =====
-- lib/Compiler/Artifact.cpp: an artifact that is written is read back.
use mathlib.Core.List.{append_assoc, append-nil}
use deep_forge.Base.{
  ℕ, ◌≤◌, ◌≡◌, ◌⊎◌, inl, inr, refl, ap, ◌∙◌, false, List, [], ◌++◌, length, length-append, is_empty,
  has_nul, contains, nat_eq, list_eq, Text, arith,
}
use deep_forge.Import.Status.{ok}
use deep_forge.Metadata.{
  InvocationAdapterKind, conv2d_ranked_memref, generic_ranked_memref_pointer_table, adapter_kind_eq,
  adapter_kind_beq, ConvMetadata,
}
use deep_forge.Workspace.{WorkspacePlan}
use deep_forge.Runtime.Dispatch.{PerVariant}
use deep_forge.Artifact.{VariantCode, CompilationResult, ArtifactInfo, format_version}
use deep_forge.Artifact.Bytes.{magic, checksum}
use deep_forge.Artifact.Reader.{done, remaining}
use deep_forge.Artifact.Contract.{
  check_adapter, check_adapter_shapes, check_function_name, check_metadata, validate_contract,
}
use deep_forge.Artifact.Contract.Conv.{Verdict, refused, accepted}
use deep_forge.Artifact.Contract.Convolution.{IsConvolution}
use deep_forge.Artifact.Contract.Parts.{validate_contract-IsContract}
use deep_forge.Artifact.Serialize.{validate_compilation, append_payload, serialize_artifact}
use deep_forge.Artifact.Parse.Legacy.{with_extras}
use deep_forge.Artifact.Parse.Preamble.{Header}
use deep_forge.Artifact.Parse.{
  invalid_shapes, info_of, parse_invocation, check_contract, parse_info, parse_payload, value_of,
  parse_artifact,
}
use deep_forge.Artifact.RoundTrip.Framing.{parse_artifact-eq}
use deep_forge.Artifact.RoundTrip.Words.{u64_bytes, append_u64-eq}
use deep_forge.Artifact.RoundTrip.Preamble.{
  header_bytes, append_header-eq, parse_header-eq, length-header_bytes, override_bytes,
  append_override-eq, parse_override-eq,
}
use deep_forge.Artifact.RoundTrip.Arguments.{arguments_bytes, append_arguments-eq}
use deep_forge.Artifact.RoundTrip.Invocation.{
  adapter_bytes, append_adapter-eq, parse_table_invocation-eq, stored_extras,
}
use deep_forge.Artifact.RoundTrip.Workspace.{
  workspace_bytes, append_workspace-eq, parse_workspace-eq,
}
use deep_forge.Artifact.RoundTrip.Variants.{
  variants_bytes, append_variants-eq, parse_variants-eq, stored_code,
}
use deep_forge.Artifact.RoundTrip.Limits.{IsWithinLimits, IsStorable, IsContract-IsStorable}

-- What stands between the magic and the checksum.
body_bytes : CompilationResult → List ℕ
body_bytes c =
    header_bytes c
    ++ (override_bytes c.metadata.graph
        ++ (arguments_bytes c.metadata.graph.arguments
            ++ (adapter_bytes c.adapter_kind c.metadata
                ++ (workspace_bytes c.workspace ++ variants_bytes c.variants))))

append_payload-eq :
    (c : CompilationResult) → IsStorable c → append_payload c ≡ ok (magic ++ body_bytes c)
unfolding append_payload body_bytes
append_payload-eq c h =
    rw
      (
        append_header-eq magic c h.named,
        append_override-eq _ c.metadata.graph h.override,
        append_arguments-eq _ c.metadata.graph.arguments h.table,
        append_adapter-eq,
        append_workspace-eq _ c.workspace h.workspace,
        append_variants-eq _ c.variants h.variants,
      )
      (simp append_assoc)

-- What comes back. The metadata of the convolution is stored for the convolution only.
abbrev pub stored_metadata : InvocationAdapterKind → ConvMetadata → ConvMetadata
stored_metadata adapter m = with_extras m.graph (stored_extras adapter m)

abbrev header_of : CompilationResult → Header
header_of c = record {
  version = format_version;
  target_triple = c.target_triple;
  function_name = c.metadata.graph.function_name;
}

abbrev pub stored_info : CompilationResult → ArtifactInfo
stored_info c =
    info_of (header_of c) (stored_metadata c.adapter_kind c.metadata) c.adapter_kind c.workspace
      (stored_code c.variants)

-- What the payload has to meet besides.
record IsAcceptable (c : CompilationResult) : Type 0 where
  target : (is_empty c.target_triple ≡ false) × (has_nul c.target_triple ≡ false)
  shapes : invalid_shapes c.adapter_kind (stored_extras c.adapter_kind c.metadata) ≡ false
  contract :
      validate_contract c.adapter_kind
        (stored_metadata c.adapter_kind c.metadata)
        c.workspace
        c.variants
      ≡ accepted tt

check_contract-eq :
    (info : ArtifactInfo)
    → validate_contract info.adapter_kind info.metadata info.workspace info.variants ≡ accepted tt
    → (left : List ℕ) → check_contract info left ≡ done info left
unfolding check_contract
check_contract-eq info h left = rw (h, check_contract)

parse_payload-eq :
    (c : CompilationResult)
    → IsStorable c
    → IsAcceptable c
    → parse_payload (body_bytes c) ≡ done (stored_info c) []
unfolding parse_payload parse_info body_bytes parse_invocation contains remaining
parse_payload-eq c h a = rw (
  parse_header-eq c h.named a.target.0 a.target.1,
  parse_override-eq c.metadata.graph h.override,
  parse_table_invocation-eq c.adapter_kind c.metadata h.table h.conv,
  a.shapes,
  parse_workspace-eq c.workspace h.workspace,
  ← append-nil (variants_bytes c.variants),
  parse_variants-eq c.variants h.variants,
  check_contract-eq (stored_info c) a.contract [],
)

-- The convolution's metadata is all stored, and the contract of the others does not read it.
validate_contract-stored :
    (adapter : InvocationAdapterKind) (m : ConvMetadata) (w : WorkspacePlan)
    (v : PerVariant VariantCode)
    → validate_contract adapter (stored_metadata adapter m) w v ≡ validate_contract adapter m w v
unfolding validate_contract check_metadata check_adapter check_adapter_shapes check_function_name
validate_contract-stored conv2d_ranked_memref m w v = refl
validate_contract-stored generic_ranked_memref_pointer_table m w v = refl

body_bytes-long : (c : CompilationResult) → 8 ≤ length (body_bytes c)
unfolding body_bytes
body_bytes-long c = rw (length-append (header_bytes c) _) (omega (arith, length-header_bytes c))

Verdict-cases :
    (v : Verdict (Unit {0})) → (v ≡ accepted tt) ⊎ ((detail : Text) × (v ≡ refused detail))
Verdict-cases (accepted u) = inl refl
Verdict-cases (refused detail) = inr (detail, refl)

pub validate_compilation-contract :
    (c : CompilationResult)
    → validate_compilation c ≡ ok tt
    → validate_contract c.adapter_kind c.metadata c.workspace c.variants ≡ accepted tt
unfolding validate_compilation
validate_compilation-contract c h =
    elim (Verdict-cases (validate_contract c.adapter_kind c.metadata c.workspace c.variants)) [
      | inl holds ↦ holds
      | inr (detail, fails) ↦ absurd (ground arith)
    ]

validate_compilation-target :
    (c : CompilationResult)
    → validate_compilation c ≡ ok tt
    → (is_empty c.target_triple ≡ false) × (has_nul c.target_triple ≡ false)
unfolding validate_compilation
validate_compilation-target c h = (ground arith, ground arith)

invalid_shapes-eq :
    (adapter : InvocationAdapterKind) (m : ConvMetadata)
    → (adapter ≡ conv2d_ranked_memref → IsConvolution m)
    → invalid_shapes adapter (stored_extras adapter m) ≡ false
unfolding invalid_shapes adapter_kind_beq
invalid_shapes-eq generic_ranked_memref_pointer_table m h = refl
invalid_shapes-eq conv2d_ranked_memref m h =
    let (x, w, y, padded) = (h refl).shapes in rw (x, w, y, padded)

-- Every compilation that passes validate_compilation, with values of the C++ types' ranges, texts of
-- at most 2 ^ 20 bytes (7 less for the function name) and at most 2 ^ 32 - 1 allocations, is written,
-- and parse_artifact reads from those bytes all that was stored of it.
pub parse_artifact-serialize_artifact :
    (c : CompilationResult)
    → validate_compilation c ≡ ok tt
    → IsWithinLimits c
    → (bytes : List ℕ) × (serialize_artifact c ≡ ok bytes)
      × (parse_artifact bytes ≡ ok (stored_info c))
unfolding serialize_artifact
parse_artifact-serialize_artifact c valid limits =
    let accepts = validate_compilation-contract c valid in
    let contract =
      validate_contract-IsContract c.adapter_kind c.metadata c.workspace c.variants accepts in
    let storable = IsContract-IsStorable c contract limits in
    let acceptable : IsAcceptable c = record {
      target = validate_compilation-target c valid;
      shapes = invalid_shapes-eq c.adapter_kind c.metadata contract.convolution;
      contract =
          validate_contract-stored c.adapter_kind c.metadata c.workspace c.variants ∙ accepts;
    } in
    let payload = magic ++ body_bytes c in
    (
      payload ++ u64_bytes (checksum payload),
      rw (valid, append_payload-eq c storable, append_u64-eq payload (checksum payload)),
      parse_artifact-eq (body_bytes c) (body_bytes-long c)
          ∙ ap value_of (parse_payload-eq c storable acceptable),
    )
