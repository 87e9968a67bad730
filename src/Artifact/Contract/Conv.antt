-- ===== src/Artifact/Contract/Conv.antt =====
-- lib/Compiler/Artifact.cpp: the part of the contract that only the direct convolution has.
use deep_forge.Base.{
  ℕ, ◌-◌, ◌*◌, ◌/◌, Bool, true, false, not, ◌&&◌, ◌||◌, Option, none, some, List, [], ◌∷◌, Text,
  text, length, if◌then◌else◌, ltb, leb, ◌==◌, ◌!=◌, nat_eq, int_eq, list_eq, i64_max, u64_max, ℤ,
  pos, pos_part, nonpositive, negative, ltb_ℤ, ◌+ℤ◌, ◌-ℤ◌,
}
use deep_forge.Import.Status.{Status, ok, err}
use deep_forge.Import.DataTypes.{float32, data_type_eq}
use deep_forge.Metadata.{
  TensorArgument, GraphMetadata, ConvMetadata, Array4, list4, read, write, access_eq, no_override,
  policy_eq,
}
use deep_forge.Metadata.Validation.{validate_graph_metadata}

pub data Verdict (A : Type 0) : Type 0 where
  refused : Text → Verdict A
  accepted : A → Verdict A

infixl 5 ◌>>=◌ ◌>>◌
abbrev pub ◌>>=◌ : {A B : Type 0} → Verdict A → (A → Verdict B) → Verdict B
refused detail >>= step = refused detail
accepted a >>= step = step a

abbrev pub ◌>>◌ : {A B : Type 0} → Verdict A → Verdict B → Verdict B
refused detail >> after = refused detail
accepted a >> after = after

-- `if (condition) { detail = ..; return false; }`
abbrev pub deny : Bool → Text → Verdict (Unit {0})
deny true detail = refused detail
deny false detail = accepted tt

abbrev pub verdict_of : Status → Verdict (Unit {0})
verdict_of (err e) = refused e.message
verdict_of (ok u) = accepted tt

unfoldable pub graph_verdict : GraphMetadata → Verdict (Unit {0})
graph_verdict g = verdict_of (validate_graph_metadata g)

-- The loop of `valid_shape`: the element count so far, `none` where the source returns false.
unfoldable pub count_elements : List ℤ → ℕ → Option ℕ
count_elements [] count = some count
count_elements (dimension ∷ rest) count =
    let extent = pos_part dimension in
    let later = count_elements rest (count * extent) in
    if nonpositive dimension then none else if ltb (i64_max / count) extent then none else later

unfoldable pub valid_shape : Array4 → Bool
valid_shape shape = elim (count_elements (list4 shape) 1) [
  | none ↦ false
  | some count ↦ leb count (u64_max / 4)
]

unfoldable pub shape_matches : TensorArgument → Array4 → Bool
shape_matches a shape = a.data_type == float32 && a.dimensions == list4 shape

-- The last test of `validate_conv_arguments`; the table has three entries there.
unfoldable pub table_matches : ConvMetadata → List TensorArgument → Bool
table_matches m (x ∷ w ∷ y ∷ []) = not (
    x.uid != m.x_uid
    || w.uid != m.w_uid
    || y.uid != m.y_uid
    || x.name != text "X"
    || w.name != text "W"
    || y.name != text "Y"
    || x.access != read
    || w.access != read
    || y.access != write
    || not (shape_matches x m.x_shape)
    || not (shape_matches w m.w_shape)
    || not (shape_matches y m.y_shape))
table_matches m _ = false

unfoldable pub check_table : ConvMetadata → Verdict (Unit {0})
check_table m = do
  deny (length m.graph.arguments != 3) (text "Conv adapter requires exactly three tensor arguments")
  deny
      (m.graph.dynamic_shape_enabled
        || m.graph.override_shape_enabled
        || m.graph.override_policy != no_override)
      (text "Conv adapter does not support dynamic or override metadata")
  deny (not (table_matches m m.graph.arguments))
      (text "generic argument table does not match Conv metadata")

unfoldable pub validate_conv_arguments : ConvMetadata → Verdict (Unit {0})
validate_conv_arguments m = do graph_verdict m.graph; check_table m

unfoldable pub checked_add_i64 : ℤ → ℤ → Option ℤ
checked_add_i64 lhs rhs =
    if negative lhs || negative rhs || ltb (i64_max - pos_part lhs) (pos_part rhs)
    then none
    else some (lhs +ℤ rhs)

-- both additions of the padding to an extent
unfoldable pub padded_extent : ℤ → ℤ → ℤ → Option ℤ
padded_extent input pre post = elim (checked_add_i64 input pre) [
  | none ↦ none
  | some padded ↦ checked_add_i64 padded post
]

-- One round of the loop over the two spatial axes, on the extents that it reads.
unfoldable pub check_axis : ℤ → ℤ → ℤ → ℤ → ℤ → ℤ → Verdict (Unit {0})
check_axis input pre post padded_input filter output = do
  deny (negative pre || negative post) (text "padding must be non-negative")
  padded ← elim (padded_extent input pre post) [
    | none ↦ refused (text "padded input shape does not match padding metadata")
    | some padded ↦ accepted padded
  ]
  deny (padded_input != padded) (text "padded input shape does not match padding metadata")
  deny (ltb_ℤ padded filter || output != padded -ℤ filter +ℤ pos 1)
      (text "output shape does not match Conv2D metadata")

-- The checks before and behind the loop over the axes.
unfoldable pub check_identity : ConvMetadata → Verdict (Unit {0})
check_identity m = do
  deny (m.x_uid == m.w_uid || m.x_uid == m.y_uid || m.w_uid == m.y_uid)
      (text "X, W and Y UIDs must be distinct")
  deny
      (not (valid_shape m.x_shape)
        || not (valid_shape m.w_shape)
        || not (valid_shape m.y_shape)
        || not (valid_shape m.padded_x_shape))
      (text "all shapes must be static, positive and fit the address range")
  deny
      (m.stride.e0 != pos 1
        || m.stride.e1 != pos 1
        || m.dilation.e0 != pos 1
        || m.dilation.e1 != pos 1)
      (text "stride and dilation must match the unit-stride MVP")

unfoldable pub check_channels : ConvMetadata → Verdict (Unit {0})
check_channels m =
    deny
      (m.padded_x_shape.e0 != m.x_shape.e0
        || m.padded_x_shape.e3 != m.x_shape.e3
        || m.w_shape.e3 != m.x_shape.e3
        || m.y_shape.e0 != m.x_shape.e0
        || m.y_shape.e3 != m.w_shape.e0)
      (text "N/C/K dimensions are inconsistent")

unfoldable pub check_height : ConvMetadata → Verdict (Unit {0})
check_height m =
    check_axis m.x_shape.e1 m.pre_padding.e0 m.post_padding.e0 m.padded_x_shape.e1 m.w_shape.e1
      m.y_shape.e1

unfoldable pub check_width : ConvMetadata → Verdict (Unit {0})
check_width m =
    check_axis m.x_shape.e2 m.pre_padding.e1 m.post_padding.e1 m.padded_x_shape.e2 m.w_shape.e2
      m.y_shape.e2

unfoldable pub check_conv : ConvMetadata → Verdict (Unit {0})
check_conv m = do check_identity m; check_height m; check_width m; check_channels m
