-- ===== src/Examples/Scheduling.antt =====
-- The schedule of lib/Compiler/Schedule.cpp for a convolution of 64 output channels.
use deep_forge.Base.{◌≡◌, ◌≢◌, refl, false, [], ◌∷◌, pos, arith}
use deep_forge.Metadata.{ConvMetadata, no_override}
use deep_forge.Runtime.Dispatch.{scalar, avx2}
use deep_forge.Schedule.{
  auto, select_conv2d_schedule, candidate, score, is_too_wide, choose, saturating_add,
  saturating_multiply, reduction_load_steps, target_facts,
}
use deep_forge.Schedule.Choice.{IsOptimal, select_conv2d_schedule-IsOptimal}

abbrev pub metadata : ConvMetadata
metadata = record {
  graph = record {
    function_name = 99 ∷ [];
    arguments = [];
    dynamic_shape_enabled = false;
    override_shape_enabled = false;
    override_policy = no_override;
    override_role_uids = [];
    override_axis_map = [];
  };
  x_uid = pos 1;
  w_uid = pos 2;
  y_uid = pos 3;
  x_shape = record { e0 = pos 1; e1 = pos 8; e2 = pos 8; e3 = pos 32 };
  w_shape = record { e0 = pos 64; e1 = pos 3; e2 = pos 3; e3 = pos 32 };
  y_shape = record { e0 = pos 1; e1 = pos 6; e2 = pos 6; e3 = pos 64 };
  padded_x_shape = record { e0 = pos 1; e1 = pos 8; e2 = pos 8; e3 = pos 32 };
  pre_padding = record { e0 = pos 0; e1 = pos 0 };
  post_padding = record { e0 = pos 0; e1 = pos 0 };
  stride = record { e0 = pos 1; e1 = pos 1 };
  dilation = record { e0 = pos 1; e1 = pos 1 };
}

chosen : (select_conv2d_schedule metadata avx2 auto).output_channel_unroll ≡ 4
unfolding select_conv2d_schedule candidate score is_too_wide choose saturating_add
    saturating_multiply reduction_load_steps target_facts
chosen = refl

not_scalar : avx2 ≢ scalar
not_scalar h = cc

select_conv2d_schedule-IsOptimal_example :
    IsOptimal metadata avx2 (select_conv2d_schedule metadata avx2 auto)
select_conv2d_schedule-IsOptimal_example =
    select_conv2d_schedule-IsOptimal metadata avx2 (omega arith) (omega arith) not_scalar
