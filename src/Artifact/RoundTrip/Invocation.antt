-- ===== src/Artifact/RoundTrip/Invocation.antt =====
-- lib/Compiler/Artifact.cpp: the arguments and the adapter with its metadata, written and read back.
use mathlib.Core.List.{append_assoc, append-nil}
use deep_forge.Base.{ℕ, ◌^◌, ◌≤◌, ◌<◌, ◌≡◌, refl, List, [], ◌++◌, length, arith}
use deep_forge.Metadata.{
  InvocationAdapterKind, conv2d_ranked_memref, generic_ranked_memref_pointer_table,
  adapter_kind_code, adapter_kind_of_code-code, ConvMetadata,
}
use deep_forge.Artifact.{format_version}
use deep_forge.Artifact.Reader.{done}
use deep_forge.Artifact.Serialize.{append_conv_adapter_metadata, adapter_metadata, append_adapter}
use deep_forge.Artifact.Parse.Legacy.{ConvExtras, no_extras, extras_of, read_conv_adapter_metadata}
use deep_forge.Artifact.Parse.Tables.{parse_extras, parse_table_invocation}
use deep_forge.Artifact.RoundTrip.Words.{
  u32_bytes, append_u32-eq, read_u32-eq, i64_bytes, append_i64-eq, read_i64-eq, blob_bytes,
  append_blob-eq, read_blob-eq, array4_bytes, append_array4-eq, read_array4-eq, array2_bytes,
  append_array2-eq, read_array2-eq, IsI64, IsI64₄, IsI64₂, lengths,
}
use deep_forge.Artifact.RoundTrip.Arguments.{arguments_bytes, IsStorableTable, parse_arguments-eq}

conv_bytes : ConvMetadata → List ℕ
conv_bytes m =
    i64_bytes m.x_uid
    ++ (i64_bytes m.w_uid
        ++ (i64_bytes m.y_uid
            ++ (array4_bytes m.x_shape
                ++ (array4_bytes m.w_shape
                    ++ (array4_bytes m.y_shape
                        ++ (array4_bytes m.padded_x_shape
                            ++ (array2_bytes m.pre_padding
                                ++ (array2_bytes m.post_padding
                                    ++ (array2_bytes m.stride ++ array2_bytes m.dilation)))))))))

-- What the reader needs of the convolution's metadata: the range of int64_t.
pub record IsStorableConv (m : ConvMetadata) : Type 0 where
  pub uids : IsI64 m.x_uid × IsI64 m.w_uid × IsI64 m.y_uid
  pub x_shape : IsI64₄ m.x_shape
  pub w_shape : IsI64₄ m.w_shape
  pub y_shape : IsI64₄ m.y_shape
  pub padded_x_shape : IsI64₄ m.padded_x_shape
  pub pre_padding : IsI64₂ m.pre_padding
  pub post_padding : IsI64₂ m.post_padding
  pub stride : IsI64₂ m.stride
  pub dilation : IsI64₂ m.dilation

append_conv-eq : (m : ConvMetadata) → append_conv_adapter_metadata [] m ≡ conv_bytes m
unfolding append_conv_adapter_metadata conv_bytes
append_conv-eq m = simp (append_i64-eq, append_array4-eq, append_array2-eq, append_assoc)

read_conv-eq :
    (m : ConvMetadata)
    → IsStorableConv m
    → read_conv_adapter_metadata (conv_bytes m) ≡ done (extras_of m) []
unfolding read_conv_adapter_metadata conv_bytes
read_conv-eq m h = rw (
  read_i64-eq m.x_uid h.uids.0,
  read_i64-eq m.w_uid h.uids.1,
  read_i64-eq m.y_uid h.uids.2,
  read_array4-eq m.x_shape h.x_shape,
  read_array4-eq m.w_shape h.w_shape,
  read_array4-eq m.y_shape h.y_shape,
  read_array4-eq m.padded_x_shape h.padded_x_shape,
  read_array2-eq m.pre_padding h.pre_padding,
  read_array2-eq m.post_padding h.post_padding,
  read_array2-eq m.stride h.stride,
  ← append-nil (array2_bytes m.dilation),
  read_array2-eq m.dilation h.dilation,
)

-- What comes back of the convolution's metadata: it is stored for the convolution only.
abbrev pub stored_extras : InvocationAdapterKind → ConvMetadata → ConvExtras
stored_extras conv2d_ranked_memref m = extras_of m
stored_extras generic_ranked_memref_pointer_table m = no_extras

parse_extras-eq :
    (adapter : InvocationAdapterKind) (m : ConvMetadata)
    → IsStorableConv m
    → (left : List ℕ)
    → parse_extras adapter (adapter_metadata adapter m) left ≡ done (stored_extras adapter m) left
unfolding parse_extras adapter_metadata
parse_extras-eq generic_ranked_memref_pointer_table m h left = refl
parse_extras-eq conv2d_ranked_memref m h left =
    rw (append_conv-eq m, read_conv-eq m h, parse_extras)

pub adapter_bytes : InvocationAdapterKind → ConvMetadata → List ℕ
adapter_bytes adapter m =
    u32_bytes (adapter_kind_code adapter) ++ blob_bytes (adapter_metadata adapter m)

pub append_adapter-eq :
    (out : List ℕ) (adapter : InvocationAdapterKind) (m : ConvMetadata)
    → append_adapter out adapter m ≡ out ++ adapter_bytes adapter m
unfolding append_adapter adapter_bytes
append_adapter-eq out adapter m = simp (append_u32-eq, append_blob-eq, append_assoc)

adapter_kind_code-le : (t : InvocationAdapterKind) → adapter_kind_code t ≤ 1
unfolding adapter_kind_code
adapter_kind_code-le conv2d_ranked_memref = omega arith
adapter_kind_code-le generic_ranked_memref_pointer_table = omega arith

adapter_metadata-small :
    (adapter : InvocationAdapterKind) (m : ConvMetadata)
    → length (adapter_metadata adapter m) < 2 ^ 64
unfolding adapter_metadata conv_bytes
adapter_metadata-small generic_ranked_memref_pointer_table m = omega arith
adapter_metadata-small conv2d_ranked_memref m = rw (append_conv-eq m) (simp lengths (omega arith))

pub parse_table_invocation-eq :
    (adapter : InvocationAdapterKind) (m : ConvMetadata)
    → IsStorableTable m.graph.arguments
    → IsStorableConv m
    → (left : List ℕ)
    → parse_table_invocation format_version
        (arguments_bytes m.graph.arguments ++ (adapter_bytes adapter m ++ left))
      ≡ done
          (record {
            adapter_kind = adapter;
            extras = stored_extras adapter m;
            arguments = m.graph.arguments;
          })
          left
unfolding parse_table_invocation adapter_bytes
parse_table_invocation-eq adapter m ht hc left = simp append_assoc (
    rw (
      parse_arguments-eq m.graph.arguments ht,
      read_u32-eq (adapter_kind_code adapter) (omega (arith, adapter_kind_code-le adapter)),
      read_blob-eq (adapter_metadata adapter m) (adapter_metadata-small adapter m),
      adapter_kind_of_code-code adapter,
      parse_extras-eq adapter m hc,
    ))
