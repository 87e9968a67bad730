-- ===== src/Schedule/Choice.antt =====
-- The choice in lib/Compiler/Schedule.cpp is allowed and has the least estimate.
use deep_forge.Base.{
  ℕ, ◌+◌, ◌*◌, ◌≤◌, ◌<◌, ◌≡◌, ◌≢◌, refl, sym, ap, ◌∙◌, ◌⊎◌, inl, inr, Bool, true, false, ltb_ℤ,
  Bool-cases, contains, ◌==◌, eq_of_==, arith, nat_eq, ℤ, pos, negsuc, pos_part, IsI64,
}
use deep_forge.Metadata.{ConvMetadata}
use deep_forge.Runtime.Dispatch.{CpuVariant, scalar, avx2, avx512}
use deep_forge.Schedule.{
  auto, ConvSchedule, target_facts, candidate, score, is_too_wide, choose, with_cost_model,
  select_conv2d_schedule, unroll_factors,
}
use deep_forge.Schedule.Cost.{
  capped, lanes, registers, channels, input_loads, weight_loads, cost, candidate-input_loads,
  candidate-weight_loads, candidate-unroll, score-candidate,
}
use deep_forge.Schedule.Best.{IsLegal, Precedes, IsBest, Origin, kept-Precedes, choose-IsBest}

-- A factor that the target allows: 2, 4 or 8, no more than there are output channels, and with
-- registers for two vectors of each unrolled channel and four more.
abbrev pub IsAllowed : ConvMetadata → CpuVariant → ℕ → Type 0
IsAllowed m variant u =
    ((u ≡ 2) ⊎ ((u ≡ 4) ⊎ (u ≡ 8))) × (u ≤ channels m) × (2 * u + 4 ≤ registers variant)

-- The schedule of a factor that is 1 or allowed, with the target's lanes and the loads of that
-- factor, which costs no more than 1 or any allowed factor does, and is the smallest of the factors
-- that cost as much. Loads and costs are exact ones, cut off at the largest word.
pub record IsOptimal (m : ConvMetadata) (variant : CpuVariant) (s : ConvSchedule) : Type 0 where
  pub unroll : ℕ
  pub chosen : s.output_channel_unroll ≡ unroll
  pub allowed : (unroll ≡ 1) ⊎ IsAllowed m variant unroll
  pub width : s.vector_width ≡ lanes variant
  pub reads : s.estimated_input_loads ≡ capped (input_loads m (lanes variant) unroll)
  pub weights : s.estimated_weight_loads ≡ capped (weight_loads m (lanes variant))
  pub applied : s.cost_model_applied ≡ true
  pub least :
      (v : ℕ)
      → (v ≡ 1) ⊎ IsAllowed m variant v
      → capped (cost m (lanes variant) unroll) ≤ capped (cost m (lanes variant) v)
  pub smallest :
      (v : ℕ)
      → (v ≡ 1) ⊎ IsAllowed m variant v
      → capped (cost m (lanes variant) unroll) ≡ capped (cost m (lanes variant) v)
      → unroll ≤ v

fits_channels : (z : ℤ) (u : ℕ) → 0 < u → ltb_ℤ z (pos u) ≡ false → u ≤ pos_part z
fits_channels (pos n) u h k = ground arith
fits_channels (negsuc n) u h k = cc

channels_fit : (z : ℤ) (u : ℕ) → 0 < u → u ≤ pos_part z → ltb_ℤ z (pos u) ≡ false
channels_fit (pos n) u h k = ground arith
channels_fit (negsuc n) u h k = absurd (omega arith)

listed_factor : (u : ℕ) → contains u unroll_factors ≡ true → (u ≡ 2) ⊎ ((u ≡ 4) ⊎ (u ≡ 8))
unfolding contains
listed_factor u h = elim (Bool-cases (u == 2)) [
  | inl two ↦ inl (eq_of_== u 2 two)
  | inr not_two ↦ elim (Bool-cases (u == 4)) [
    | inl four ↦ inr (inl (eq_of_== u 4 four))
    | inr not_four ↦ elim (Bool-cases (u == 8)) [
      | inl eight ↦ inr (inr (eq_of_== u 8 eight))
      | inr not_eight ↦ absurd (cc (rw (not_two, contains, not_four, not_eight) at h))
    ]
  ]
]

registers-eq : (variant : CpuVariant) → (target_facts variant).vector_registers ≡ registers variant
unfolding target_facts
registers-eq scalar = refl
registers-eq avx2 = refl
registers-eq avx512 = refl

lanes-eq : (variant : CpuVariant) → (target_facts variant).vector_width ≡ lanes variant
unfolding target_facts
lanes-eq scalar = refl
lanes-eq avx2 = refl
lanes-eq avx512 = refl

legal_factor :
    (m : ConvMetadata) (variant : CpuVariant) (u : ℕ)
    → contains u unroll_factors ≡ true
    → IsLegal m (target_facts variant) u
    → IsAllowed m variant u
unfolding is_too_wide
legal_factor m variant u listed legal =
    let factor = listed_factor u listed in
    (
      factor,
      fits_channels m.y_shape.e3 u (ground (arith, factor)) (ground arith),
      ground (arith, registers-eq variant),
    )

allowed_factor :
    (m : ConvMetadata) (variant : CpuVariant) (u : ℕ)
    → IsAllowed m variant u
    → IsLegal m (target_facts variant) u
unfolding is_too_wide
allowed_factor m variant u (factor, fits, room) =
    let enough = channels_fit m.y_shape.e3 u (ground (arith, factor)) fits in
    ground (arith, registers-eq variant, enough, room)

best_factor :
    (m : ConvMetadata) (variant : CpuVariant) (s : ConvSchedule)
    → Origin m (target_facts variant) unroll_factors (candidate m (target_facts variant) 1 false) s
    → (u : ℕ) × (applied : Bool) × ((u ≡ 1) ⊎ IsAllowed m variant u)
      × (s ≡ candidate m (target_facts variant) u applied)
best_factor m variant s (inl same) = (1, false, inl refl, same)
best_factor m variant s (inr (u, listed, legal, same)) =
    (u, true, inr (legal_factor m variant u listed legal), same)

module _ (m : ConvMetadata) (variant : CpuVariant) (hw : IsI64 m.w_shape.e3)
    (hy : IsI64 m.y_shape.e3) where
  abbrev Costs : ConvSchedule → ℕ → Type 0
  Costs s v =
      (score s ≤ capped (cost m (lanes variant) v))
      × (score s ≡ capped (cost m (lanes variant) v) → s.output_channel_unroll ≤ v)

  candidate-cost :
      (v : ℕ) (applied : Bool)
      → score (candidate m (target_facts variant) v applied) ≡ capped (cost m (lanes variant) v)
  candidate-cost v applied =
      rw (score-candidate m (target_facts variant) v applied hw hy, lanes-eq variant) refl

  Precedes-Costs :
      (v : ℕ) (applied : Bool) (s : ConvSchedule)
      → Precedes s (candidate m (target_facts variant) v applied)
      → Costs s v
  Precedes-Costs v applied s (le, smaller) = (
    omega (arith, le, candidate-cost v applied),
    λ h. omega (
      arith,
      candidate-unroll m (target_facts variant) v applied,
      smaller (h ∙ sym (candidate-cost v applied)),
    ),
  )

  listed-Costs :
      (s : ConvSchedule) (v w : ℕ)
      → v ≡ w
      → (IsLegal m (target_facts variant) w
          → Precedes s (candidate m (target_facts variant) w true))
      → IsAllowed m variant v
      → Costs s v
  listed-Costs s v w same least allowed =
      let allowed_w : IsAllowed m variant w = rw same at allowed in
      rw same (Precedes-Costs w true s (least (allowed_factor m variant w allowed_w)))

  best-Costs :
      (s : ConvSchedule)
      → IsBest m
          (target_facts variant)
          unroll_factors
          (candidate m (target_facts variant) 1 false)
          s
      → (v : ℕ) → (v ≡ 1) ⊎ IsAllowed m variant v
      → Costs s v
  best-Costs s best v (inl one) =
      rw one (Precedes-Costs 1 false s (kept-Precedes m (target_facts variant) s _ best.kept))
  best-Costs s best v (inr allowed) = elim (allowed.0) [
    | inl two ↦ listed-Costs s v 2 two best.least.0 allowed
    | inr (inl four) ↦ listed-Costs s v 4 four best.least.1.0 allowed
    | inr (inr eight) ↦ listed-Costs s v 8 eight best.least.1.1.0 allowed
  ]

  candidate_width :
      (u : ℕ) (applied : Bool)
      → (candidate m (target_facts variant) u applied).vector_width ≡ lanes variant
  unfolding candidate
  candidate_width u applied = lanes-eq variant

  candidate-IsOptimal :
      (s : ConvSchedule) (u : ℕ) (applied : Bool)
      → s ≡ candidate m (target_facts variant) u applied
      → (u ≡ 1) ⊎ IsAllowed m variant u
      → ((v : ℕ) → (v ≡ 1) ⊎ IsAllowed m variant v → Costs s v)
      → IsOptimal m variant (with_cost_model s)
  candidate-IsOptimal s u applied same allowed costs =
      let facts = target_facts variant in
      let is_u : s.output_channel_unroll ≡ u =
        ap (λ t. t.output_channel_unroll) same ∙ candidate-unroll m facts u applied in
      let spent : score s ≡ capped (cost m (lanes variant) u) =
        ap score same ∙ candidate-cost u applied in
      record {
        unroll = u;
        chosen = is_u;
        allowed = allowed;
        width = ap (λ t. t.vector_width) same ∙ candidate_width u applied;
        reads =
            ap (λ t. t.estimated_input_loads) same
            ∙ candidate-input_loads m facts u applied hw hy
            ∙ ap (λ w. capped (input_loads m w u)) (lanes-eq variant);
        weights =
            ap (λ t. t.estimated_weight_loads) same
            ∙ candidate-weight_loads m facts u applied hw hy
            ∙ ap (λ w. capped (weight_loads m w)) (lanes-eq variant);
        applied = refl;
        least = λ v h. let (le, smaller) = costs v h in rw spent at le;
        smallest =
            λ v h equal. let (le, smaller) = costs v h in rw is_u at (smaller (spent ∙ equal));
      }

  chosen-IsOptimal :
      (s : ConvSchedule)
      → IsBest m
          (target_facts variant)
          unroll_factors
          (candidate m (target_facts variant) 1 false)
          s
      → IsOptimal m variant (with_cost_model s)
  chosen-IsOptimal s best =
      let (u, applied, allowed, same) = best_factor m variant s best.origin in
      candidate-IsOptimal s u applied same allowed (best-Costs s best)

  auto-IsOptimal : IsOptimal m variant (
      with_cost_model (
        choose m
          (target_facts variant)
          unroll_factors
          (candidate m (target_facts variant) 1 false)
          (score (candidate m (target_facts variant) 1 false))))
  auto-IsOptimal = chosen-IsOptimal _ (
      choose-IsBest m (target_facts variant) unroll_factors _
        (rw (candidate-unroll m (target_facts variant) 1 false)
          (omega arith, (omega arith, (omega arith, tt))))
        ((omega arith, (omega arith, tt)), ((omega arith, tt), (tt, tt))))

-- On a vector target, for extents of the filter's input channels and of the output channels in the
-- range of int64, the automatic policy returns the schedule of a factor u that is 1, or is 2, 4 or 8,
-- at most the output channels and with 2 u + 4 at most the 16 registers of AVX2 or the 32 of AVX-512;
-- it has the target's lanes, and loads that are the exact ones cut off at the largest word. No factor
-- that is 1 or so allowed costs less by the exact cost so cut off, and of those that cost as much it
-- is the smallest.
pub select_conv2d_schedule-IsOptimal :
    (metadata : ConvMetadata) (variant : CpuVariant)
    → IsI64 metadata.w_shape.e3
    → IsI64 metadata.y_shape.e3
    → variant ≢ scalar
    → IsOptimal metadata variant (select_conv2d_schedule metadata variant auto)
unfolding select_conv2d_schedule
select_conv2d_schedule-IsOptimal metadata scalar hw hy vector = absurd (vector refl)
select_conv2d_schedule-IsOptimal metadata avx2 hw hy vector = auto-IsOptimal metadata avx2 hw hy
select_conv2d_schedule-IsOptimal metadata avx512 hw hy vector = auto-IsOptimal metadata avx512 hw hy
