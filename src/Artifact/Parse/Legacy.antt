-- ===== src/Artifact/Parse/Legacy.antt =====
-- lib/Compiler/Artifact.cpp: the convolution's own metadata, and the arguments that are rebuilt from
-- it for an artifact of the first version.
use deep_forge.Base.{
  ℕ, ◌*◌, ◌/◌, ◌||◌, Option, none, some, List, [], ◌∷◌, ◌++◌, Text, text, is_empty, if◌then◌else◌,
  ltb, i64_max, ℤ, pos, pos_part, nonpositive,
}
use deep_forge.Import.Status.{Error, fail, parse_error}
use deep_forge.Import.DataTypes.{float32}
use deep_forge.Import.Capability.{tensor_storage_bytes}
use deep_forge.Metadata.{
  TensorArgument, GraphMetadata, ConvMetadata, Array4, Array2, list4, TensorAccess, read, write,
  strided,
}
use deep_forge.Artifact.Reader.{Reader, ◌>>=◌, give, read_i64, read_array4, read_array2}

unfoldable pub parse_failure : Text → Error
parse_failure detail = fail parse_error (text "artifact") detail

-- What Conv2DCompileMetadata adds to the graph's metadata.
pub record ConvExtras : Type 0 where
  pub x_uid : ℤ
  pub w_uid : ℤ
  pub y_uid : ℤ
  pub x_shape : Array4
  pub w_shape : Array4
  pub y_shape : Array4
  pub padded_x_shape : Array4
  pub pre_padding : Array2
  pub post_padding : Array2
  pub stride : Array2
  pub dilation : Array2

abbrev zero4 : Array4
zero4 = record { e0 = pos 0; e1 = pos 0; e2 = pos 0; e3 = pos 0 }

abbrev zero2 : Array2
zero2 = record { e0 = pos 0; e1 = pos 0 }

-- the values of a new Conv2DCompileMetadata
abbrev pub no_extras : ConvExtras
no_extras = record {
  x_uid = pos 0;
  w_uid = pos 0;
  y_uid = pos 0;
  x_shape = zero4;
  w_shape = zero4;
  y_shape = zero4;
  padded_x_shape = zero4;
  pre_padding = zero2;
  post_padding = zero2;
  stride = zero2;
  dilation = zero2;
}

abbrev pub extras_of : ConvMetadata → ConvExtras
extras_of m = record {
  x_uid = m.x_uid;
  w_uid = m.w_uid;
  y_uid = m.y_uid;
  x_shape = m.x_shape;
  w_shape = m.w_shape;
  y_shape = m.y_shape;
  padded_x_shape = m.padded_x_shape;
  pre_padding = m.pre_padding;
  post_padding = m.post_padding;
  stride = m.stride;
  dilation = m.dilation;
}

abbrev pub with_extras : GraphMetadata → ConvExtras → ConvMetadata
with_extras g x = record {
  graph = g;
  x_uid = x.x_uid;
  w_uid = x.w_uid;
  y_uid = x.y_uid;
  x_shape = x.x_shape;
  w_shape = x.w_shape;
  y_shape = x.y_shape;
  padded_x_shape = x.padded_x_shape;
  pre_padding = x.pre_padding;
  post_padding = x.post_padding;
  stride = x.stride;
  dilation = x.dilation;
}

unfoldable pub read_conv_adapter_metadata : Reader ConvExtras
read_conv_adapter_metadata = do
  x_uid ← read_i64
  w_uid ← read_i64
  y_uid ← read_i64
  x_shape ← read_array4
  w_shape ← read_array4
  y_shape ← read_array4
  padded_x_shape ← read_array4
  pre_padding ← read_array2
  post_padding ← read_array2
  stride ← read_array2
  dilation ← read_array2
  give (record {
    x_uid = x_uid;
    w_uid = w_uid;
    y_uid = y_uid;
    x_shape = x_shape;
    w_shape = w_shape;
    y_shape = y_shape;
    padded_x_shape = padded_x_shape;
    pre_padding = pre_padding;
    post_padding = post_padding;
    stride = stride;
    dilation = dilation;
  })

-- One step of the loop from the last axis on: the stride of the axis before, where it fits.
unfoldable pub outer_stride : ℤ → ℕ → Option ℕ
outer_stride extent stride =
    if nonpositive extent || ltb (i64_max / pos_part extent) stride
    then none
    else some (stride * pos_part extent)

unfoldable pub contiguous_strides : Array4 → List ℤ
contiguous_strides shape = elim (outer_stride shape.e3 1) [
  | none ↦ []
  | some s2 ↦ elim (outer_stride shape.e2 s2) [
    | none ↦ []
    | some s1 ↦ elim (outer_stride shape.e1 s1) [
      | none ↦ []
      | some s0 ↦ pos s0 ∷ pos s1 ∷ pos s2 ∷ pos 1 ∷ []
    ]
  ]
]

unfoldable pub legacy_argument : ℤ → Text → Array4 → TensorAccess → ℕ → TensorArgument
legacy_argument uid name shape access size_bytes = record {
  uid = uid;
  name = name;
  data_type = float32;
  dimensions = list4 shape;
  strides = contiguous_strides shape;
  size_bytes = size_bytes;
  alignment = 4;
  access = access;
  storage_policy = strided;
  ragged_offset_uid = pos 0;
  ragged_sequence_uid = pos 0;
  ragged_sequence_divisor = pos 1;
}

unfoldable pub append_legacy_argument :
    List TensorArgument → ℤ → Text → Array4 → TensorAccess → Option (List TensorArgument)
append_legacy_argument arguments uid name shape access =
    let strides = contiguous_strides shape in
    if is_empty strides then none else elim (tensor_storage_bytes float32 (list4 shape) strides) [
      | none ↦ none
      | some size ↦ some (arguments ++ legacy_argument uid name shape access size ∷ [])
    ]

unfoldable pub synthesize_legacy_arguments : ConvExtras → Option (List TensorArgument)
synthesize_legacy_arguments m = elim (append_legacy_argument [] m.x_uid (text "X") m.x_shape read) [
  | none ↦ none
  | some x ↦ elim (append_legacy_argument x m.w_uid (text "W") m.w_shape read) [
    | none ↦ none
    | some xw ↦ append_legacy_argument xw m.y_uid (text "Y") m.y_shape write
  ]
]
