-- ===== src/Runtime/Layout.antt =====
-- `has_non_overlapping_layout` of lib/Runtime/Executable.cpp.
pub mod Injective
use deep_forge.Base.{
  ℕ, ◌+◌, ◌-◌, ◌*◌, ◌/◌, Bool, true, false, ◌&&◌, ◌||◌, Option, none, some, List, [], ◌∷◌, length,
  if◌then◌else◌, ltb, ◌==◌, ◌!=◌, nat_eq, ℤ, pos_part, nonpositive, u64_max, sort_by,
}

-- std::pair of a stride and an extent
pub record Axis : Type 0 where
  pub stride : ℕ
  pub extent : ℕ

-- `operator<` of std::pair
abbrev pub axis_before : Axis → Axis → Bool
axis_before a b = ltb a.stride b.stride || (a.stride == b.stride && ltb a.extent b.extent)

unfoldable pub keep_axis : ℕ → ℕ → Option (List Axis) → Option (List Axis)
keep_axis d s none = none
keep_axis d s (some axes) =
    if ltb 1 d then some (record { stride = s; extent = d } ∷ axes) else some axes

-- The loop that collects the axes of more than one element; `none` is its `return false`. The two
-- lists are of one length there.
unfoldable pub collect_axes : List ℤ → List ℤ → Option (List Axis)
unfolding keep_axis
collect_axes [] strides = some []
collect_axes (d ∷ ds) [] = some []
collect_axes (d ∷ ds) (s ∷ ss) =
    let rest = collect_axes ds ss in
    if nonpositive d || nonpositive s then none else keep_axis (pos_part d) (pos_part s) rest

-- The loop over the sorted axes: each stride must step over all that the axes before it occupy.
unfoldable pub spans_apart : ℕ → List Axis → Bool
spans_apart occupied_span [] = true
spans_apart occupied_span (a ∷ axes) =
    let rest = spans_apart (occupied_span + (a.extent - 1) * a.stride) axes in
    if ltb a.stride occupied_span || ltb ((u64_max - occupied_span) / a.stride) (a.extent - 1)
    then false
    else rest

unfoldable pub spans_apart_sorted : Option (List Axis) → Bool
spans_apart_sorted none = false
spans_apart_sorted (some axes) = spans_apart 1 (sort_by axis_before axes)

unfoldable pub has_non_overlapping_layout : List ℤ → List ℤ → Bool
unfolding spans_apart_sorted
has_non_overlapping_layout dimensions strides =
    if length dimensions != length strides
    then false
    else spans_apart_sorted (collect_axes dimensions strides)
