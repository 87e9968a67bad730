-- ===== src/Schedule.antt =====
-- include/DeepForge/Compiler/Schedule.h and lib/Compiler/Schedule.cpp: the choice of the unroll factor
-- of a direct convolution by an estimate of its loads.
pub mod Cost
pub mod Best
pub mod Choice
use deep_forge.Base.{
  ℕ, zero, suc, ◌+◌, ◌-◌, ◌*◌, ◌/◌, ◌%◌, Bool, true, false, ◌||◌, List, [], ◌∷◌, if◌then◌else◌, ltb,
  ℤ, pos, pos_part, ltb_ℤ, u64_max, ◌==◌, ◌!=◌, nat_eq, ◌&&◌,
}
use deep_forge.Metadata.{ConvMetadata, Array4}
use deep_forge.Runtime.Dispatch.{CpuVariant, scalar, avx2, avx512}

pub data SchedulePolicy : Type 0 where
  baseline auto : SchedulePolicy

-- The widths and factors are positive int64 values.
pub record ConvSchedule : Type 0 where
  pub vector_width : ℕ
  pub output_channel_unroll : ℕ
  pub estimated_input_loads : ℕ
  pub estimated_weight_loads : ℕ
  pub cost_model_applied : Bool

unfoldable pub saturating_add : ℕ → ℕ → ℕ
saturating_add left right = if ltb (u64_max - left) right then u64_max else left + right

unfoldable pub saturating_multiply : ℕ → ℕ → ℕ
saturating_multiply left right =
    if left != 0 && ltb (u64_max / left) right then u64_max else left * right

pub record TargetFacts : Type 0 where
  pub vector_width : ℕ
  pub vector_registers : ℕ

unfoldable pub target_facts : CpuVariant → TargetFacts
target_facts scalar = record { vector_width = 1; vector_registers = 0 }
target_facts avx2 = record { vector_width = 8; vector_registers = 16 }
target_facts avx512 = record { vector_width = 16; vector_registers = 32 }

unfoldable pub reduction_load_steps : ConvMetadata → ℕ → ℕ
reduction_load_steps metadata vector_width =
    let channels = pos_part metadata.w_shape.e3 in
    let channel_steps = saturating_add (channels / vector_width) (channels % vector_width) in
    saturating_multiply
      (saturating_multiply (pos_part metadata.w_shape.e1) (pos_part metadata.w_shape.e2))
      channel_steps

unfoldable pub candidate : ConvMetadata → TargetFacts → ℕ → Bool → ConvSchedule
candidate metadata facts unroll cost_model_applied =
    let channels = pos_part metadata.y_shape.e3 in
    let input_groups = saturating_add (channels / unroll) (channels % unroll) in
    let reduction_steps = reduction_load_steps metadata facts.vector_width in
    record {
      vector_width = facts.vector_width;
      output_channel_unroll = unroll;
      estimated_input_loads = saturating_multiply input_groups reduction_steps;
      estimated_weight_loads = saturating_multiply channels reduction_steps;
      cost_model_applied = cost_model_applied;
    }

unfoldable pub score : ConvSchedule → ℕ
score s =
    let loads =
      saturating_add (saturating_multiply s.estimated_input_loads 2) s.estimated_weight_loads in
    saturating_add loads (saturating_multiply s.output_channel_unroll 16)

-- The test that passes over a factor.
unfoldable pub is_too_wide : ConvMetadata → TargetFacts → ℕ → Bool
is_too_wide metadata facts unroll =
    ltb_ℤ metadata.y_shape.e3 (pos unroll) || ltb facts.vector_registers (2 * unroll + 4)

-- The loop over the factors, with `best` and `best_score`.
unfoldable pub choose : ConvMetadata → TargetFacts → List ℕ → ConvSchedule → ℕ → ConvSchedule
choose metadata facts [] best best_score = best
choose metadata facts (unroll ∷ rest) best best_score =
    let current = candidate metadata facts unroll true in
    let current_score = score current in
    let passed = choose metadata facts rest best best_score in
    let replaced = choose metadata facts rest current current_score in
    if is_too_wide metadata facts unroll
    then passed
    else if ltb current_score best_score
    then replaced
    else passed

abbrev pub unroll_factors : List ℕ
unroll_factors = 2 ∷ 4 ∷ 8 ∷ []

abbrev pub with_cost_model : ConvSchedule → ConvSchedule
with_cost_model s = record {
  vector_width = s.vector_width;
  output_channel_unroll = s.output_channel_unroll;
  estimated_input_loads = s.estimated_input_loads;
  estimated_weight_loads = s.estimated_weight_loads;
  cost_model_applied = true;
}

abbrev choose_best : ConvMetadata → TargetFacts → ConvSchedule → ConvSchedule
choose_best metadata facts best =
    with_cost_model (choose metadata facts unroll_factors best (score best))

unfoldable pub select_conv2d_schedule : ConvMetadata → CpuVariant → SchedulePolicy → ConvSchedule
select_conv2d_schedule metadata variant baseline = candidate metadata (target_facts variant) 1 false
select_conv2d_schedule metadata scalar auto = candidate metadata (target_facts scalar) 1 false
select_conv2d_schedule metadata avx2 auto =
    choose_best metadata (target_facts avx2) (candidate metadata (target_facts avx2) 1 false)
select_conv2d_schedule metadata avx512 auto =
    choose_best metadata (target_facts avx512) (candidate metadata (target_facts avx512) 1 false)
