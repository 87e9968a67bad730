-- ===== src/Import/OperationTags.antt =====
-- include/DeepForge/Import/SerializedGraph.h: the operation tags, and their numbers.
use deep_forge.Base.{
  ℕ, ◌≡◌, refl, ap, ◌↔◌, Bool, true, Option, some, [], ◌∷◌, Eq, eqb, eqb→eq, eq→eqb, get_elem?,
}

pub data OperationTag : Type 0 where
  ada_layer_norm ada_layer_norm_bprop batch_norm batch_norm_inference block_scale_dequantize :
      OperationTag
  block_scale_quantize bn_finalize concatenate conv_dgrad conv_fprop conv_wgrad dbn dbn_weight :
      OperationTag
  gen_stats instance_norm instance_norm_bprop layer_norm layer_norm_bprop matmul matmul_fp8 :
      OperationTag
  moe_grouped_matmul moe_grouped_matmul_bwd pointwise reduction resample reshape rms_norm :
      OperationTag
  rms_norm_bprop rng rope rope_bwd sdpa sdpa_bwd sdpa_fp8_bwd sdpa_fp8_fwd sdpa_mxfp8_bwd :
      OperationTag
  sdpa_mxfp8_fwd slice transpose : OperationTag

-- the enumerator's number
unfoldable pub operation_tag_code : OperationTag → ℕ
operation_tag_code ada_layer_norm = 0
operation_tag_code ada_layer_norm_bprop = 1
operation_tag_code batch_norm = 2
operation_tag_code batch_norm_inference = 3
operation_tag_code block_scale_dequantize = 4
operation_tag_code block_scale_quantize = 5
operation_tag_code bn_finalize = 6
operation_tag_code concatenate = 7
operation_tag_code conv_dgrad = 8
operation_tag_code conv_fprop = 9
operation_tag_code conv_wgrad = 10
operation_tag_code dbn = 11
operation_tag_code dbn_weight = 12
operation_tag_code gen_stats = 13
operation_tag_code instance_norm = 14
operation_tag_code instance_norm_bprop = 15
operation_tag_code layer_norm = 16
operation_tag_code layer_norm_bprop = 17
operation_tag_code matmul = 18
operation_tag_code matmul_fp8 = 19
operation_tag_code moe_grouped_matmul = 20
operation_tag_code moe_grouped_matmul_bwd = 21
operation_tag_code pointwise = 22
operation_tag_code reduction = 23
operation_tag_code resample = 24
operation_tag_code reshape = 25
operation_tag_code rms_norm = 26
operation_tag_code rms_norm_bprop = 27
operation_tag_code rng = 28
operation_tag_code rope = 29
operation_tag_code rope_bwd = 30
operation_tag_code sdpa = 31
operation_tag_code sdpa_bwd = 32
operation_tag_code sdpa_fp8_bwd = 33
operation_tag_code sdpa_fp8_fwd = 34
operation_tag_code sdpa_mxfp8_bwd = 35
operation_tag_code sdpa_mxfp8_fwd = 36
operation_tag_code slice = 37
operation_tag_code transpose = 38

-- the enumerator with a number, `static_cast<OperationTag>` on a number that has been checked
unfoldable pub operation_tag_of_code : ℕ → Option OperationTag
operation_tag_of_code n =
    get_elem?
      (ada_layer_norm ∷ ada_layer_norm_bprop ∷ batch_norm ∷ batch_norm_inference
        ∷ block_scale_dequantize ∷ block_scale_quantize ∷ bn_finalize ∷ concatenate ∷ conv_dgrad
        ∷ conv_fprop ∷ conv_wgrad ∷ dbn ∷ dbn_weight ∷ gen_stats ∷ instance_norm
        ∷ instance_norm_bprop ∷ layer_norm ∷ layer_norm_bprop ∷ matmul ∷ matmul_fp8
        ∷ moe_grouped_matmul ∷ moe_grouped_matmul_bwd ∷ pointwise ∷ reduction ∷ resample ∷ reshape
        ∷ rms_norm ∷ rms_norm_bprop ∷ rng ∷ rope ∷ rope_bwd ∷ sdpa ∷ sdpa_bwd ∷ sdpa_fp8_bwd
        ∷ sdpa_fp8_fwd ∷ sdpa_mxfp8_bwd ∷ sdpa_mxfp8_fwd ∷ slice ∷ transpose ∷ [])
      n

pub operation_tag_of_code-code :
    (t : OperationTag) → operation_tag_of_code (operation_tag_code t) ≡ some t
unfolding operation_tag_code operation_tag_of_code
operation_tag_of_code-code ada_layer_norm = refl
operation_tag_of_code-code ada_layer_norm_bprop = refl
operation_tag_of_code-code batch_norm = refl
operation_tag_of_code-code batch_norm_inference = refl
operation_tag_of_code-code block_scale_dequantize = refl
operation_tag_of_code-code block_scale_quantize = refl
operation_tag_of_code-code bn_finalize = refl
operation_tag_of_code-code concatenate = refl
operation_tag_of_code-code conv_dgrad = refl
operation_tag_of_code-code conv_fprop = refl
operation_tag_of_code-code conv_wgrad = refl
operation_tag_of_code-code dbn = refl
operation_tag_of_code-code dbn_weight = refl
operation_tag_of_code-code gen_stats = refl
operation_tag_of_code-code instance_norm = refl
operation_tag_of_code-code instance_norm_bprop = refl
operation_tag_of_code-code layer_norm = refl
operation_tag_of_code-code layer_norm_bprop = refl
operation_tag_of_code-code matmul = refl
operation_tag_of_code-code matmul_fp8 = refl
operation_tag_of_code-code moe_grouped_matmul = refl
operation_tag_of_code-code moe_grouped_matmul_bwd = refl
operation_tag_of_code-code pointwise = refl
operation_tag_of_code-code reduction = refl
operation_tag_of_code-code resample = refl
operation_tag_of_code-code reshape = refl
operation_tag_of_code-code rms_norm = refl
operation_tag_of_code-code rms_norm_bprop = refl
operation_tag_of_code-code rng = refl
operation_tag_of_code-code rope = refl
operation_tag_of_code-code rope_bwd = refl
operation_tag_of_code-code sdpa = refl
operation_tag_of_code-code sdpa_bwd = refl
operation_tag_of_code-code sdpa_fp8_bwd = refl
operation_tag_of_code-code sdpa_fp8_fwd = refl
operation_tag_of_code-code sdpa_mxfp8_bwd = refl
operation_tag_of_code-code sdpa_mxfp8_fwd = refl
operation_tag_of_code-code slice = refl
operation_tag_of_code-code transpose = refl

unfoldable pub operation_tag_beq : OperationTag → OperationTag → Bool
unfolding operation_tag_code
operation_tag_beq a b = eqb (operation_tag_code a) (operation_tag_code b)

pub operation_tag_beq_iff : (a b : OperationTag) → (operation_tag_beq a b ≡ true) ↔ (a ≡ b)
unfolding operation_tag_beq
operation_tag_beq_iff a b = (
  λ h. cc (
    operation_tag_of_code-code a,
    operation_tag_of_code-code b,
    ap operation_tag_of_code (eqb→eq (operation_tag_code a) (operation_tag_code b) h),
  ),
  λ p. eq→eqb _ _ (ap operation_tag_code p),
)

instance abbrev pub operation_tag_eq : Eq OperationTag
operation_tag_eq = record { beq = operation_tag_beq; beq_iff = operation_tag_beq_iff }
