-- ===== src/Artifact/Loading/Written.antt =====
-- lib/Compiler/Artifact.cpp and lib/Runtime/Executable.cpp: an artifact that the compiler writes is
-- loaded by a host of its target, as soon as the JIT finds the three symbols.
use deep_forge.Base.{
  ℕ, ◌<◌, ◌≡◌, refl, ap, ◌∙◌, Bool, true, false, ◌||◌, List, [], ◌∷◌, ◌++◌, any, length, Text, text,
  Eq, ◌==◌, ◌!=◌, nat_eq, list_eq, ==-refl, int_eq, ℤ, arith,
}
use deep_forge.Import.Status.{ok}
use deep_forge.Import.DataTypes.{float32, data_type_eq}
use deep_forge.Metadata.{
  InvocationAdapterKind, conv2d_ranked_memref, generic_ranked_memref_pointer_table, ConvMetadata,
  TensorArgument, TensorAccess, Array4, read, write, access_eq, policy_eq,
}
use deep_forge.Metadata.Validation.{validate_graph_metadata}
use deep_forge.Runtime.Execute.{Impl}
use deep_forge.Runtime.Creation.{
  Slot, codes, is_loaded, create_object, validate_argument_table, check_conv_table, matches_conv,
}
use deep_forge.Artifact.{VariantCode, CompilationResult}
use deep_forge.Artifact.Contract.Convolution.{IsOperand, IsConvTable}
use deep_forge.Artifact.Contract.Parts.{validate_contract-IsContract}
use deep_forge.Artifact.Serialize.{validate_compilation, serialize_artifact}
use deep_forge.Artifact.RoundTrip.Variants.{IsStorableVariant, IsStorableVariants}
use deep_forge.Artifact.RoundTrip.Limits.{IsWithinLimits, IsContract-IsStorable}
use deep_forge.Artifact.RoundTrip.Whole.{
  stored_metadata, stored_info, validate_compilation-contract, parse_artifact-serialize_artifact,
}
use deep_forge.Artifact.Loading.{
  Jit, load_object, load_objects, load_object_executable, create_loaded_executable,
  load_artifact_executable,
}

module _ {ℓ} {A : Type ℓ} ⦃e : Eq A⦄ where
  holds : {a b : A} → a ≡ b → (a == b) ≡ true
  holds {a} {b} p = (e.beq_iff a b).1 p

operands_match :
    (m : ConvMetadata) (x w y : TensorArgument)
    → IsOperand m.x_uid (text "X") read m.x_shape x
    → IsOperand m.w_uid (text "W") read m.w_shape w
    → IsOperand m.y_uid (text "Y") write m.y_shape y
    → matches_conv m (x ∷ w ∷ y ∷ []) ≡ true
unfolding matches_conv
operands_match m x w y hx hw hy = rw (
  holds hx.uid_is,
  holds hw.uid_is,
  holds hy.uid_is,
  holds hx.name_is,
  holds hw.name_is,
  holds hy.name_is,
  holds hx.access_is,
  holds hw.access_is,
  holds hy.access_is,
  holds hx.shape_is,
  holds hw.shape_is,
  holds hy.shape_is,
)

abbrev is_foreign : TensorArgument → Bool
is_foreign a = a.data_type != float32 || length a.dimensions != 4

operand_fits :
    {uid : ℤ} {name : Text} {access : TensorAccess} {shape : Array4} (a : TensorArgument)
    → IsOperand uid name access shape a
    → is_foreign a ≡ false
operand_fits {shape} a h =
    let rank : (length a.dimensions == 4) ≡ true = holds (ap length h.shape_is) in
    let type : (a.data_type == float32) ≡ true = holds h.type_is in ground arith

none_foreign :
    (m : ConvMetadata) (t : IsConvTable m) → any is_foreign (t.x ∷ t.w ∷ t.y ∷ []) ≡ false
unfolding any
none_foreign m t = rw (operand_fits t.x t.x_is, operand_fits t.w t.w_is, operand_fits t.y t.y_is)

table_accepted : (m : ConvMetadata) → IsConvTable m → check_conv_table m ≡ ok tt
unfolding check_conv_table
table_accepted m t =
    let count : length m.graph.arguments ≡ 3 = ap length t.arguments_are in
    let policy = holds t.no_policy in
    let fitting : any is_foreign m.graph.arguments ≡ false =
      ap (any is_foreign) t.arguments_are ∙ none_foreign m t in
    let matching : matches_conv m m.graph.arguments ≡ true =
      ap (matches_conv m) t.arguments_are ∙ operands_match m t.x t.w t.y t.x_is t.w_is t.y_is in
    ground (arith, count, policy, fitting, matching, t.fixed.0, t.fixed.1)

table_validated :
    (adapter : InvocationAdapterKind) (m : ConvMetadata)
    → validate_graph_metadata m.graph ≡ ok tt
    → (adapter ≡ conv2d_ranked_memref → IsConvTable m)
    → validate_argument_table adapter (stored_metadata adapter m) ≡ ok tt
unfolding validate_argument_table
table_validated generic_ranked_memref_pointer_table m valid t = rw valid
table_validated conv2d_ranked_memref m valid t = rw (valid, table_accepted m (t refl))

-- The JIT links a variant: it finds the entry of its symbol in its object.
pub record Links (jit : Jit) (v : VariantCode) : Type 0 where
  pub address : ℕ
  pub found : jit v.object (v.symbol ++ text ".o") (text "_mlir_ciface_" ++ v.symbol) ≡ ok address
  pub entry : 0 < address

slot_of : (jit : Jit) (v : VariantCode) → Links jit v → Slot
slot_of jit v l = record {
  code = record { has_engine = false; entry_point = l.address };
  has_jit = true;
  symbol = v.symbol;
}

load_object-eq :
    (jit : Jit) (v : VariantCode) (l : Links jit v)
    → IsStorableVariant v
    → load_object jit v.object v.symbol ≡ ok (slot_of jit v l)
unfolding load_object slot_of
load_object-eq jit v l h = rw (h.object_there, h.symbol_there, l.found)

slot_of-is_loaded :
    (jit : Jit) (v : VariantCode) (l : Links jit v)
    → IsStorableVariant v
    → is_loaded (slot_of jit v l) ≡ true
unfolding slot_of
slot_of-is_loaded jit v l h = ground (arith, l.entry, h.symbol_there)

-- The executable that is made.
pub executable_of :
    (jit : Jit) (c : CompilationResult)
    → Links jit c.variants.for_scalar
    → Links jit c.variants.for_avx2
    → Links jit c.variants.for_avx512
    → Impl
executable_of jit c a b d = record {
  adapter_kind = c.adapter_kind;
  metadata = stored_metadata c.adapter_kind c.metadata;
  workspace = c.workspace;
  code = codes (record {
    for_scalar = slot_of jit c.variants.for_scalar a;
    for_avx2 = slot_of jit c.variants.for_avx2 b;
    for_avx512 = slot_of jit c.variants.for_avx512 d;
  });
}

module _ (jit : Jit) (c : CompilationResult) (a : Links jit c.variants.for_scalar)
    (b : Links jit c.variants.for_avx2) (d : Links jit c.variants.for_avx512) where
  created_from :
      IsStorableVariants c.variants
      → validate_argument_table c.adapter_kind (stored_metadata c.adapter_kind c.metadata) ≡ ok tt
      → create_loaded_executable c.target_triple jit (stored_info c)
        ≡ ok (executable_of jit c a b d)
  unfolding create_loaded_executable load_object_executable load_objects create_object executable_of
  created_from h table = rw (
    ==-refl c.target_triple,
    load_object-eq jit c.variants.for_scalar a h.scalar_code,
    load_object-eq jit c.variants.for_avx2 b h.avx2_code,
    load_object-eq jit c.variants.for_avx512 d h.avx512_code,
    table,
    slot_of-is_loaded jit c.variants.for_scalar a h.scalar_code,
    slot_of-is_loaded jit c.variants.for_avx2 b h.avx2_code,
    slot_of-is_loaded jit c.variants.for_avx512 d h.avx512_code,
  )

  -- A compilation that validate_compilation accepts within the limits is written, and a host of its
  -- target whose JIT links the three objects loads those bytes: into an executable with the
  -- compilation's adapter, stored metadata, workspace and the three entry points.
  pub load_artifact_executable-serialize_artifact :
      validate_compilation c ≡ ok tt
      → IsWithinLimits c
      → (bytes : List ℕ) × (serialize_artifact c ≡ ok bytes)
        × (load_artifact_executable c.target_triple jit bytes
            ≡ ok (executable_of jit c a b d, stored_info c))
  unfolding load_artifact_executable
  load_artifact_executable-serialize_artifact valid limits =
      let contract =
        validate_contract-IsContract c.adapter_kind c.metadata c.workspace c.variants
          (validate_compilation-contract c valid) in
      let storable = IsContract-IsStorable c contract limits in
      let table = table_validated c.adapter_kind c.metadata contract.metadata contract.table in
      let (bytes, written, parsed) = parse_artifact-serialize_artifact c valid limits in
      (bytes, written, rw (parsed, created_from storable.variants table))
