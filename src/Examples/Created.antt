-- ===== src/Examples/Created.antt =====
-- An executable of the matrix product, from three object files.
use deep_forge.Base.{ℕ, ◌≡◌, refl, true, false, [], ◌∷◌, inr}
use deep_forge.Import.Status.{ok}
use deep_forge.Metadata.{ConvMetadata, generic_ranked_memref_pointer_table}
use deep_forge.Workspace.{WorkspacePlan}
use deep_forge.Runtime.Dispatch.{PerVariant}
use deep_forge.Runtime.Execute.{Impl}
use deep_forge.Runtime.Creation.{Slot, codes, create_object, validate_argument_table}
use deep_forge.Runtime.Creation.Selected.{IsRunnable, create-IsRunnable}
use deep_forge.Examples.Scheduling.{metadata}
use deep_forge.Examples.Defaulted.{product, product_valid}

abbrev pub description : ConvMetadata
description = record {
  graph = product;
  x_uid = metadata.x_uid;
  w_uid = metadata.w_uid;
  y_uid = metadata.y_uid;
  x_shape = metadata.x_shape;
  w_shape = metadata.w_shape;
  y_shape = metadata.y_shape;
  padded_x_shape = metadata.padded_x_shape;
  pre_padding = metadata.pre_padding;
  post_padding = metadata.post_padding;
  stride = metadata.stride;
  dilation = metadata.dilation;
}

abbrev loaded : ℕ → Slot
loaded entry = record {
  code = record { has_engine = false; entry_point = entry };
  has_jit = true;
  symbol = 109 ∷ [];
}

abbrev slots : PerVariant Slot
slots = record { for_scalar = loaded 1; for_avx2 = loaded 2; for_avx512 = loaded 3 }

abbrev pub no_workspace : WorkspacePlan
no_workspace = record { size_bytes = 0; alignment = 64; allocations = [] }

abbrev created : Impl
created = record {
  adapter_kind = generic_ranked_memref_pointer_table;
  metadata = description;
  workspace = no_workspace;
  code = codes slots;
}

product_created :
    create_object generic_ranked_memref_pointer_table description no_workspace slots ≡ ok created
unfolding create_object validate_argument_table
product_created = rw (product_valid) refl

create-IsRunnable_example : IsRunnable created
create-IsRunnable_example =
    create-IsRunnable generic_ranked_memref_pointer_table description no_workspace slots created
      (inr product_created)
