-- ===== src/Artifact/Contract/Convolution.antt =====
-- What `validate_contract` of lib/Compiler/Artifact.cpp establishes of a direct convolution.
use deep_forge.Base.{
  ◌≡◌, ◌≢◌, refl, ◌∙◌, true, false, some, List, [], ◌∷◌, Option-cases, inl, inr, Text, text, nat_eq,
  int_eq, list_eq, eq_of_==, eq_of_!=, ne_of_==, ℤ, pos, negative, le_of_ltb_ℤ, ◌≤ℤ◌, ◌+ℤ◌, ◌-ℤ◌,
  arith,
}
use deep_forge.Import.Status.{Status, ok, err}
use deep_forge.Import.DataTypes.{float32, data_type_eq}
use deep_forge.Metadata.{
  ConvMetadata, Array4, GraphMetadata, TensorArgument, TensorAccess, read, write, access_eq, list4,
  no_override, policy_eq,
}
use deep_forge.Metadata.Validation.{validate_graph_metadata}
use deep_forge.Artifact.Contract.Conv.{
  accepted, verdict_of, graph_verdict, validate_conv_arguments, check_table, table_matches,
  shape_matches, valid_shape, checked_add_i64, padded_extent, check_axis, check_identity,
  check_height, check_width, check_channels, check_conv,
}
use deep_forge.Artifact.Contract.Workspace.{>>-eq-accepted}

-- One spatial axis of a convolution with stride and dilation 1.
pub record IsAxis (input pre post padded filter output : ℤ) : Type 0 where
  pub padding : (negative pre ≡ false) × (negative post ≡ false)
  pub padded_is : padded ≡ input +ℤ pre +ℤ post
  pub filter_fits : filter ≤ℤ padded
  pub output_is : output ≡ padded -ℤ filter +ℤ pos 1

checked_add_i64-eq-some : (a b : ℤ) {c : ℤ} → checked_add_i64 a b ≡ some c → c ≡ a +ℤ b
unfolding checked_add_i64
checked_add_i64-eq-some a b h = ground arith

padded_extent-eq-some : (a b c : ℤ) {d : ℤ} → padded_extent a b c ≡ some d → d ≡ a +ℤ b +ℤ c
unfolding padded_extent
padded_extent-eq-some a b c {d} h = elim (Option-cases (checked_add_i64 a b)) [
  | inl nothing ↦ ground arith
  | inr (s, found) ↦
      let first = checked_add_i64-eq-some a b found in
      let second : checked_add_i64 s c ≡ some d = rw (found, padded_extent) at h in
      rw (← first) (checked_add_i64-eq-some s c second)
]

check_axis-IsAxis :
    (input pre post padded filter output : ℤ)
    → check_axis input pre post padded filter output ≡ accepted tt
    → IsAxis input pre post padded filter output
unfolding check_axis
check_axis-IsAxis input pre post padded filter output h =
    elim (Option-cases (padded_extent input pre post)) [
      | inl nothing ↦ absurd (ground arith)
      | inr (p, found) ↦
          let same : padded ≡ p = eq_of_!= padded p (ground arith) in
          record {
            padding = (ground arith, ground arith);
            padded_is = same ∙ padded_extent-eq-some input pre post found;
            filter_fits = rw same (le_of_ltb_ℤ p filter (ground arith));
            output_is = rw same (eq_of_!= output (p -ℤ filter +ℤ pos 1) (ground arith));
          }
    ]

-- The metadata of a direct convolution: three UIDs, shapes that can be addressed, stride and
-- dilation 1, both spatial axes, and the batches, channels and filters that agree.
pub record IsConvolution (m : ConvMetadata) : Type 0 where
  pub distinct : (m.x_uid ≢ m.w_uid) × (m.x_uid ≢ m.y_uid) × (m.w_uid ≢ m.y_uid)
  pub shapes :
      (valid_shape m.x_shape ≡ true)
      × (valid_shape m.w_shape ≡ true)
      × (valid_shape m.y_shape ≡ true)
      × (valid_shape m.padded_x_shape ≡ true)
  pub stride_one : (m.stride.e0 ≡ pos 1) × (m.stride.e1 ≡ pos 1)
  pub dilation_one : (m.dilation.e0 ≡ pos 1) × (m.dilation.e1 ≡ pos 1)
  pub height :
      IsAxis m.x_shape.e1 m.pre_padding.e0 m.post_padding.e0 m.padded_x_shape.e1 m.w_shape.e1
        m.y_shape.e1
  pub width :
      IsAxis m.x_shape.e2 m.pre_padding.e1 m.post_padding.e1 m.padded_x_shape.e2 m.w_shape.e2
        m.y_shape.e2
  pub batches : (m.padded_x_shape.e0 ≡ m.x_shape.e0) × (m.y_shape.e0 ≡ m.x_shape.e0)
  pub channels : (m.padded_x_shape.e3 ≡ m.x_shape.e3) × (m.w_shape.e3 ≡ m.x_shape.e3)
  pub filters : m.y_shape.e3 ≡ m.w_shape.e0

record HasIdentity (m : ConvMetadata) : Type 0 where
  distinct : (m.x_uid ≢ m.w_uid) × (m.x_uid ≢ m.y_uid) × (m.w_uid ≢ m.y_uid)
  shapes :
      (valid_shape m.x_shape ≡ true)
      × (valid_shape m.w_shape ≡ true)
      × (valid_shape m.y_shape ≡ true)
      × (valid_shape m.padded_x_shape ≡ true)
  stride_one : (m.stride.e0 ≡ pos 1) × (m.stride.e1 ≡ pos 1)
  dilation_one : (m.dilation.e0 ≡ pos 1) × (m.dilation.e1 ≡ pos 1)

check_identity-HasIdentity : (m : ConvMetadata) → check_identity m ≡ accepted tt → HasIdentity m
unfolding check_identity
check_identity-HasIdentity m h = record {
  distinct = (
    ne_of_== m.x_uid m.w_uid (ground arith),
    ne_of_== m.x_uid m.y_uid (ground arith),
    ne_of_== m.w_uid m.y_uid (ground arith),
  );
  shapes = (ground arith, ground arith, ground arith, ground arith);
  stride_one =
      (eq_of_!= m.stride.e0 (pos 1) (ground arith), eq_of_!= m.stride.e1 (pos 1) (ground arith));
  dilation_one = (
    eq_of_!= m.dilation.e0 (pos 1) (ground arith),
    eq_of_!= m.dilation.e1 (pos 1) (ground arith),
  );
}

pub check_conv-IsConvolution : (m : ConvMetadata) → check_conv m ≡ accepted tt → IsConvolution m
unfolding check_conv check_height check_width check_channels
check_conv-IsConvolution m h =
    let (identity, after_identity) = >>-eq-accepted (check_identity m) _ h in
    let (height, after_height) = >>-eq-accepted (check_height m) _ after_identity in
    let (width, channels) = >>-eq-accepted (check_width m) (check_channels m) after_height in
    let i = check_identity-HasIdentity m identity in
    record {
      distinct = i.distinct;
      shapes = i.shapes;
      stride_one = i.stride_one;
      dilation_one = i.dilation_one;
      height = check_axis-IsAxis _ _ _ _ _ _ height;
      width = check_axis-IsAxis _ _ _ _ _ _ width;
      batches = (
        eq_of_!= m.padded_x_shape.e0 m.x_shape.e0 (ground (arith, channels)),
        eq_of_!= m.y_shape.e0 m.x_shape.e0 (ground (arith, channels)),
      );
      channels = (
        eq_of_!= m.padded_x_shape.e3 m.x_shape.e3 (ground (arith, channels)),
        eq_of_!= m.w_shape.e3 m.x_shape.e3 (ground (arith, channels)),
      );
      filters = eq_of_!= m.y_shape.e3 m.w_shape.e0 (ground (arith, channels));
    }

pub graph_verdict-ok :
    (g : GraphMetadata) → graph_verdict g ≡ accepted tt → validate_graph_metadata g ≡ ok tt
unfolding graph_verdict
graph_verdict-ok g h = from (validate_graph_metadata g) h
  where
    from : (s : Status) → verdict_of s ≡ accepted tt → s ≡ ok tt
    from (err e) k = cc
    from (ok u) k = refl

-- One argument of the convolution's table.
pub record IsOperand (uid : ℤ) (name : Text) (access : TensorAccess) (shape : Array4)
    (a : TensorArgument) : Type 0 where
  pub uid_is : a.uid ≡ uid
  pub name_is : a.name ≡ name
  pub access_is : a.access ≡ access
  pub type_is : a.data_type ≡ float32
  pub shape_is : a.dimensions ≡ list4 shape

-- The table X, W, Y, and no overrides.
pub record IsConvTable (m : ConvMetadata) : Type 0 where
  pub x : TensorArgument
  pub w : TensorArgument
  pub y : TensorArgument
  pub arguments_are : m.graph.arguments ≡ x ∷ w ∷ y ∷ []
  pub x_is : IsOperand m.x_uid (text "X") read m.x_shape x
  pub w_is : IsOperand m.w_uid (text "W") read m.w_shape w
  pub y_is : IsOperand m.y_uid (text "Y") write m.y_shape y
  pub fixed : (m.graph.dynamic_shape_enabled ≡ false) × (m.graph.override_shape_enabled ≡ false)
  pub no_policy : m.graph.override_policy ≡ no_override

three :
    (m : ConvMetadata) (as' : List TensorArgument)
    → table_matches m as' ≡ true
    → (x : TensorArgument) × (w : TensorArgument) × (y : TensorArgument) × (as' ≡ x ∷ w ∷ y ∷ [])
      × (table_matches m (x ∷ w ∷ y ∷ []) ≡ true)
unfolding table_matches
three m [] h = cc
three m (x ∷ []) h = cc
three m (x ∷ w ∷ []) h = cc
three m (x ∷ w ∷ y ∷ []) h = (x, w, y, refl, h)
three m (x ∷ w ∷ y ∷ z ∷ rest) h = cc

module _ (m : ConvMetadata) (x w y : TensorArgument)
    (h : table_matches m (x ∷ w ∷ y ∷ []) ≡ true) where
  x-IsOperand : IsOperand m.x_uid (text "X") read m.x_shape x
  unfolding table_matches shape_matches
  x-IsOperand = record {
    uid_is = eq_of_!= x.uid m.x_uid (ground arith);
    name_is = eq_of_!= x.name (text "X") (ground arith);
    access_is = eq_of_!= x.access read (ground arith);
    type_is = eq_of_== x.data_type float32 (ground arith);
    shape_is = eq_of_== x.dimensions (list4 m.x_shape) (ground arith);
  }

  w-IsOperand : IsOperand m.w_uid (text "W") read m.w_shape w
  unfolding table_matches shape_matches
  w-IsOperand = record {
    uid_is = eq_of_!= w.uid m.w_uid (ground arith);
    name_is = eq_of_!= w.name (text "W") (ground arith);
    access_is = eq_of_!= w.access read (ground arith);
    type_is = eq_of_== w.data_type float32 (ground arith);
    shape_is = eq_of_== w.dimensions (list4 m.w_shape) (ground arith);
  }

  y-IsOperand : IsOperand m.y_uid (text "Y") write m.y_shape y
  unfolding table_matches shape_matches
  y-IsOperand = record {
    uid_is = eq_of_!= y.uid m.y_uid (ground arith);
    name_is = eq_of_!= y.name (text "Y") (ground arith);
    access_is = eq_of_!= y.access write (ground arith);
    type_is = eq_of_== y.data_type float32 (ground arith);
    shape_is = eq_of_== y.dimensions (list4 m.y_shape) (ground arith);
  }

check_table-ok :
    (m : ConvMetadata)
    → check_table m ≡ accepted tt
    → (table_matches m m.graph.arguments ≡ true)
      × (m.graph.dynamic_shape_enabled ≡ false)
      × (m.graph.override_shape_enabled ≡ false)
      × (m.graph.override_policy ≡ no_override)
unfolding check_table
check_table-ok m h = (
  ground arith,
  ground arith,
  ground arith,
  eq_of_!= m.graph.override_policy no_override (ground arith),
)

pub validate_conv_arguments-IsConvTable :
    (m : ConvMetadata) → validate_conv_arguments m ≡ accepted tt → IsConvTable m
unfolding validate_conv_arguments
validate_conv_arguments-IsConvTable m h =
    let checked = (>>-eq-accepted (graph_verdict m.graph) (check_table m) h).1 in
    let (matches, dynamic, override, policy) = check_table-ok m checked in
    let (x, w, y, are, here) = three m m.graph.arguments matches in
    record {
      x = x;
      w = w;
      y = y;
      arguments_are = are;
      x_is = x-IsOperand m x w y here;
      w_is = w-IsOperand m x w y here;
      y_is = y-IsOperand m x w y here;
      fixed = (dynamic, override);
      no_policy = policy;
    }
