-- ===== src/Schedule/Cost.antt =====
-- The estimates of lib/Compiler/Schedule.cpp in unbounded arithmetic, cut off at the largest word.
use native.Mathlib.Nat.{le-div_iff_mul-le, mul_comm, div-le_self, mul-le-mul_right}
use deep_forge.Base.{
  ℕ, zero, suc, ◌+◌, ◌*◌, ◌/◌, ◌%◌, ◌≤◌, ◌<◌, min, ◌≡◌, refl, ◌∙◌, inl, inr, Bool, ltb, Bool-cases,
  u64_max, arith, nat_eq, pos_part, ℤ, pos, negsuc, IsI64,
}
use deep_forge.Metadata.{ConvMetadata}
use deep_forge.Runtime.Dispatch.{CpuVariant, scalar, avx2, avx512}
use deep_forge.Schedule.{
  saturating_add, saturating_multiply, TargetFacts, candidate, score, reduction_load_steps,
}

-- The saturating operations on 64-bit words are the exact ones cut off at the largest word.
abbrev pub capped : ℕ → ℕ
capped n = min n u64_max

saturating_add-eq :
    (left right : ℕ) → left ≤ u64_max → saturating_add left right ≡ capped (left + right)
unfolding saturating_add
saturating_add-eq left right h = ground arith

saturating_multiply-eq : (left right : ℕ) → saturating_multiply left right ≡ capped (left * right)
unfolding saturating_multiply
saturating_multiply-eq zero right = ground arith
saturating_multiply-eq (suc n) right =
    let (down, up) = le-div_iff_mul-le {k = suc n} {x = right} {y = u64_max} (omega arith) in
    elim (Bool-cases (ltb (u64_max / suc n) right)) [
      | inl large ↦
          let above : u64_max < suc n * right = ground (arith, up, mul_comm right (suc n)) in
          ground arith
      | inr small ↦
          let below : suc n * right ≤ u64_max =
            omega (arith, down (ground arith), mul_comm right (suc n)) in
          ground arith
    ]

-- A factor may be cut off before a product is.
capped-left : (a b : ℕ) → capped (capped a * b) ≡ capped (a * b)
capped-left a zero = omega arith
capped-left a (suc n) = elim (Bool-cases (ltb u64_max a)) [
  | inr small ↦ let same : capped a ≡ a = ground arith in rw same refl
  | inl large ↦
      let top : capped a ≡ u64_max = ground arith in
      let more : 1 * a ≤ suc n * a = mul-le-mul_right a (omega arith) in
      let whole : capped (a * suc n) ≡ u64_max = ground (arith, more, mul_comm a (suc n)) in
      rw (top, whole) (omega arith)
]

capped-right : (a b : ℕ) → capped (a * capped b) ≡ capped (a * b)
capped-right a b = rw (mul_comm a (capped b), mul_comm a b) (capped-left b a)

capped-both : (a b : ℕ) → capped (capped a * capped b) ≡ capped (a * b)
capped-both a b = capped-left a (capped b) ∙ capped-right a b

IsI64-pos_part : (z : ℤ) → IsI64 z → pos_part z ≤ u64_max
IsI64-pos_part (pos n) h = omega (arith, h)
IsI64-pos_part (negsuc n) h = omega arith

-- A number in whole groups, each of which counts one, and what is left over one by one.
abbrev pub groups : ℕ → ℕ → ℕ
groups n size = n / size + n % size

groups-eq :
    (n size : ℕ) → n ≤ u64_max → saturating_add (n / size) (n % size) ≡ capped (groups n size)
groups-eq n size h = saturating_add-eq (n / size) (n % size) (omega (arith, div-le_self n size))

-- The vector lanes and registers of a target.
abbrev pub lanes : CpuVariant → ℕ
lanes scalar = 1
lanes avx2 = 8
lanes avx512 = 16

abbrev pub registers : CpuVariant → ℕ
registers scalar = 0
registers avx2 = 16
registers avx512 = 32

-- The steps of the reduction: the filter's points, times its channels in vectors.
abbrev pub steps : ConvMetadata → ℕ → ℕ
steps m width = pos_part m.w_shape.e1 * pos_part m.w_shape.e2 * groups (pos_part m.w_shape.e3) width

abbrev pub channels : ConvMetadata → ℕ
channels m = pos_part m.y_shape.e3

abbrev pub input_loads : ConvMetadata → ℕ → ℕ → ℕ
input_loads m width unroll = groups (channels m) unroll * steps m width

abbrev pub weight_loads : ConvMetadata → ℕ → ℕ
weight_loads m width = channels m * steps m width

-- Two for each load of the input, one for each of the weights, and a penalty of 16 for each channel
-- that is unrolled.
abbrev pub cost : ConvMetadata → ℕ → ℕ → ℕ
cost m width unroll = input_loads m width unroll * 2 + weight_loads m width + unroll * 16

reduction_load_steps-eq :
    (m : ConvMetadata) (width : ℕ)
    → IsI64 m.w_shape.e3
    → reduction_load_steps m width ≡ capped (steps m width)
unfolding reduction_load_steps
reduction_load_steps-eq m width h =
    rw
      (
        groups-eq (pos_part m.w_shape.e3) width (IsI64-pos_part m.w_shape.e3 h),
        saturating_multiply-eq (pos_part m.w_shape.e1) (pos_part m.w_shape.e2),
      )
      (saturating_multiply-eq _ _
        ∙ capped-both (pos_part m.w_shape.e1 * pos_part m.w_shape.e2)
            (groups (pos_part m.w_shape.e3) width))

capped_sum :
    (i w u : ℕ)
    → saturating_add
        (saturating_add (saturating_multiply (capped i) 2) (capped w))
        (saturating_multiply u 16)
      ≡ capped (i * 2 + w + u * 16)
capped_sum i w u =
    rw
      (
        saturating_multiply-eq (capped i) 2,
        saturating_multiply-eq u 16,
        saturating_add-eq (capped (capped i * 2)) (capped w) (omega arith),
        saturating_add-eq (capped (capped (capped i * 2) + capped w)) (capped (u * 16))
            (omega arith),
      )
      (omega arith)

pub candidate-unroll :
    (m : ConvMetadata) (facts : TargetFacts) (unroll : ℕ) (applied : Bool)
    → (candidate m facts unroll applied).output_channel_unroll ≡ unroll
unfolding candidate
candidate-unroll m facts unroll applied = refl

module _ (m : ConvMetadata) (facts : TargetFacts) (unroll : ℕ) (applied : Bool)
    (hw : IsI64 m.w_shape.e3) (hy : IsI64 m.y_shape.e3) where
  pub candidate-input_loads :
      (candidate m facts unroll applied).estimated_input_loads
      ≡ capped (input_loads m facts.vector_width unroll)
  unfolding candidate
  candidate-input_loads =
      rw
        (
          groups-eq (channels m) unroll (IsI64-pos_part m.y_shape.e3 hy),
          reduction_load_steps-eq m facts.vector_width hw,
        )
        (saturating_multiply-eq _ _
          ∙ capped-both (groups (channels m) unroll) (steps m facts.vector_width))

  pub candidate-weight_loads :
      (candidate m facts unroll applied).estimated_weight_loads
      ≡ capped (weight_loads m facts.vector_width)
  unfolding candidate
  candidate-weight_loads =
      rw (reduction_load_steps-eq m facts.vector_width hw)
        (saturating_multiply-eq _ _ ∙ capped-right (channels m) (steps m facts.vector_width))

  pub score-candidate :
      score (candidate m facts unroll applied) ≡ capped (cost m facts.vector_width unroll)
  unfolding score
  score-candidate =
      rw (candidate-input_loads, candidate-weight_loads, candidate-unroll m facts unroll applied)
        (capped_sum (input_loads m facts.vector_width unroll) (weight_loads m facts.vector_width)
          unroll)
