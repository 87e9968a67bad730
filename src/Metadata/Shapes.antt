-- ===== src/Metadata/Shapes.antt =====
-- lib/Runtime/GraphMetadata.cpp: the checks that the shapes of the roles fit together. The helpers
-- that lib/Runtime/Executable.cpp repeats (`checked_element_count`, `checked_multiply`, `round_up`)
-- stand here once.
use deep_forge.Base.{
  ℕ, suc, ◌+◌, ◌-◌, ◌*◌, ◌/◌, ◌%◌, Bool, true, false, not, ◌&&◌, ◌||◌, Option, none, some, List, [],
  ◌∷◌, length, get_or, set, any, all, if◌then◌else◌, ltb, leb, ◌==◌, ◌!=◌, nat_eq, list_eq, ℤ, pos,
  pos_part, int_eq, nonpositive, negative, leb_ℤ, ltb_ℤ, ◌+ℤ◌, ◌-ℤ◌, u64_max, i64_max, is_empty,
}
use deep_forge.Metadata.{axis_of}

infixl 5 ◌>>=◌
abbrev ◌>>=◌ {ℓ κ} : {A : Type ℓ} {B : Type κ} → Option A → (A → Option B) → Option B
none >>= f = none
some a >>= f = f a

abbrev pub max_ℤ : ℤ → ℤ → ℤ
max_ℤ a b = if leb_ℤ a b then b else a

-- The loop over the batch axes, from the front; the last two axes stay out of it.
unfoldable pub batches_broadcast : List ℤ → List ℤ → List ℤ → Bool
batches_broadcast (a ∷ n ∷ m ∷ tail) (b ∷ bs) (c ∷ cs) =
    let rest = batches_broadcast (n ∷ m ∷ tail) bs cs in
    if (a != b && a != pos 1 && b != pos 1) || c != max_ℤ a b then false else rest
batches_broadcast _ _ _ = true

unfoldable pub valid_matmul_dimensions : List ℤ → List ℤ → List ℤ → Bool
valid_matmul_dimensions a b c =
    let rank = length a in
    if ltb rank 2 || rank != length b || rank != length c
    then false
    else if axis_of a (rank - 1) != axis_of b (rank - 2)
        || axis_of a (rank - 2) != axis_of c (rank - 2)
        || axis_of b (rank - 1) != axis_of c (rank - 1)
    then false
    else batches_broadcast a b c

-- the remainder of positive numbers; the code has tested that the divisor is positive
abbrev pub divides : ℤ → ℤ → Bool
divides k q = (pos_part q % pos_part k) == 0

unfoldable pub valid_sdpa_core : List ℤ → List ℤ → List ℤ → List ℤ → Bool
valid_sdpa_core q k v o = not (
    axis_of q 0 != axis_of k 0
    || axis_of q 0 != axis_of v 0
    || axis_of q 0 != axis_of o 0
    || axis_of q 1 != axis_of o 1
    || axis_of q 2 != axis_of o 2
    || axis_of q 3 != axis_of k 3
    || axis_of k 2 != axis_of v 2
    || axis_of o 3 != axis_of v 3
    || not (divides (axis_of k 1) (axis_of q 1))
    || not (divides (axis_of v 1) (axis_of q 1)))

abbrev pub row_dimensions : List ℤ → List ℤ
row_dimensions q = axis_of q 0 ∷ axis_of q 1 ∷ axis_of q 2 ∷ pos 1 ∷ []

unfoldable pub valid_sdpa_dimensions : List (List ℤ) → Bool
valid_sdpa_dimensions (q ∷ k ∷ v ∷ o ∷ rows) =
    if ltb 3 (length rows) || any (λ d. length d != 4) (q ∷ k ∷ v ∷ o ∷ rows)
    then false
    else if nonpositive (axis_of q 1) || nonpositive (axis_of k 1) || nonpositive (axis_of v 1)
    then false
    else if not (valid_sdpa_core q k v o)
    then false
    else all (λ d. d == row_dimensions q) rows
valid_sdpa_dimensions _ = false

-- `checked_element_count`, from a count on
unfoldable pub element_count_from : List ℤ → ℕ → Option ℕ
element_count_from [] count = some count
element_count_from (d ∷ ds) count =
    let rest = element_count_from ds (count * pos_part d) in
    if nonpositive d || ltb (u64_max / count) (pos_part d) then none else rest

unfoldable pub checked_element_count : List ℤ → Option ℕ
checked_element_count dims = element_count_from dims 1

unfoldable pub same_count : Option ℕ → Option ℕ → Bool
same_count (some x) (some y) = x == y && leb x i64_max
same_count _ _ = false

unfoldable pub valid_reshape_dimensions : List ℤ → List ℤ → Bool
unfolding same_count
valid_reshape_dimensions x y = same_count (checked_element_count x) (checked_element_count y)

unfoldable pub reduces : List ℤ → List ℤ → Bool
reduces (x ∷ xs) (y ∷ ys) = let rest = reduces xs ys in if y != pos 1 && y != x then false else rest
reduces _ _ = true

unfoldable pub fits_i64 : Option ℕ → Bool
fits_i64 none = false
fits_i64 (some n) = leb n i64_max

unfoldable pub valid_reduction_dimensions : List ℤ → List ℤ → Bool
unfolding fits_i64
valid_reduction_dimensions x y =
    if length x != length y
    then false
    else if not (reduces x y)
    then false
    else fits_i64 (checked_element_count x)

-- The loop over the axes of `y`: the source axes must be in range and not seen before.
unfoldable pub permutes : List ℤ → List ℤ → List ℤ → List Bool → Bool
permutes x (y ∷ ys) (p ∷ ps) seen =
    let rest = permutes x ys ps (set seen (pos_part p) true) in
    if negative p
      || leb (length x) (pos_part p)
      || get_or seen (pos_part p) false
      || y != axis_of x (pos_part p)
    then false
    else rest
permutes x _ _ seen = true

unfoldable pub none_seen : List ℤ → List Bool
none_seen [] = []
none_seen (d ∷ ds) = false ∷ none_seen ds

unfoldable pub valid_transpose_dimensions : List ℤ → List ℤ → List ℤ → Bool
valid_transpose_dimensions x y permutation =
    if is_empty x || length y != length x || length permutation != length x
    then false
    else permutes x y permutation (none_seen x)

-- The loop over the dimensions of one input, from a dimension's number on.
unfoldable pub matches_but : ℕ → ℕ → List ℤ → List ℤ → Bool
matches_but axis dimension (i ∷ is) (o ∷ os) =
    let rest = matches_but axis (suc dimension) is os in
    if dimension != axis && i != o then false else rest
matches_but axis dimension _ _ = true

-- The loop over the inputs: their extents along the axis, summed up.
unfoldable pub concatenated_extent : ℕ → List ℤ → List (List ℤ) → ℤ → Option ℤ
concatenated_extent axis output [] axis_extent = some axis_extent
concatenated_extent axis output (input ∷ rest) axis_extent =
    let extent = axis_of input axis in
    let later = concatenated_extent axis output rest (axis_extent +ℤ extent) in
    if length input != length output
    then none
    else if not (matches_but axis 0 input output)
    then none
    else if ltb_ℤ (pos i64_max -ℤ axis_extent) extent
    then none
    else later

unfoldable pub is_extent : Option ℤ → ℤ → Bool
is_extent none e = false
is_extent (some n) e = n == e

-- The inputs, and the output, which the code keeps as the last of the roles.
unfoldable pub valid_concatenate_dimensions : List (List ℤ) → List ℤ → ℤ → Bool
unfolding is_extent
valid_concatenate_dimensions inputs output axis =
    if is_empty inputs || ltb 63 (length inputs)
    then false
    else if is_empty output || negative axis || leb (length output) (pos_part axis)
    then false
    else is_extent (concatenated_extent (pos_part axis) output inputs (pos 0))
        (axis_of output (pos_part axis))

unfoldable pub checked_multiply : ℤ → ℤ → Option ℤ
checked_multiply lhs rhs =
    if nonpositive lhs || nonpositive rhs || ltb (i64_max / pos_part rhs) (pos_part lhs)
    then none
    else some (pos (pos_part lhs * pos_part rhs))

unfoldable pub round_up : ℤ → ℕ → Option ℤ
round_up value multiple =
    let v = pos_part value in
    if nonpositive value || multiple == 0 || ltb (i64_max - (multiple - 1)) v
    then none
    else some (pos ((v + multiple - 1) / multiple * multiple))

-- The batch and the extents of a block-scaled product.
pub record BlockScale : Type 0 where
  pub batch : ℤ
  pub m : ℤ
  pub k : ℤ
  pub n : ℤ

abbrev pub block_scale : List ℤ → List ℤ → BlockScale
block_scale a b = record { batch = axis_of a 0; m = axis_of a 1; k = axis_of a 2; n = axis_of b 2 }

-- The extents of the scales, padded to blocks of 128 by 4.
unfoldable pub scale_dimensions : BlockScale → Option (ℤ × ℤ × ℤ)
scale_dimensions s = do
  scale_m ← round_up s.m 128
  scale_n ← round_up s.n 128
  scale_k ← round_up (pos (pos_part s.k / 16)) 4
  some (scale_m, scale_n, scale_k)

abbrev pub dims3 : ℤ → ℤ → ℤ → List ℤ
dims3 a b c = a ∷ b ∷ c ∷ []

unfoldable pub scales_match : BlockScale → List ℤ → List ℤ → ℤ × ℤ × ℤ → Bool
scales_match s scale_a scale_b (scale_m, scale_n, scale_k) =
    scale_a == dims3 s.batch scale_m scale_k && scale_b == dims3 s.batch scale_k scale_n

-- The strides that the five roles must have.
unfoldable pub canonical_strides : BlockScale → ℤ × ℤ × ℤ → Option (List (List ℤ))
canonical_strides s (scale_m, scale_n, scale_k) = do
  mk ← checked_multiply s.m s.k
  nk ← checked_multiply s.n s.k
  mn ← checked_multiply s.m s.n
  scale_mk ← checked_multiply scale_m scale_k
  scale_nk ← checked_multiply scale_n scale_k
  some (
      dims3 mk s.k (pos 1)
      ∷ dims3 scale_mk scale_k (pos 1)
      ∷ dims3 nk (pos 1) s.k
      ∷ dims3 scale_nk (pos 1) scale_k
      ∷ dims3 mn s.n (pos 1)
      ∷ [])

unfoldable pub block_scale_consistent : BlockScale → List ℤ → List ℤ → Bool
block_scale_consistent s b c = not (
    nonpositive s.batch
    || nonpositive s.m
    || nonpositive s.n
    || nonpositive s.k
    || not (divides (pos 16) s.k)
    || axis_of b 0 != s.batch
    || axis_of b 1 != s.k
    || c != dims3 s.batch s.m s.n)

unfoldable pub canonical : BlockScale → List (List ℤ) → List ℤ → List ℤ → Option (ℤ × ℤ × ℤ) → Bool
canonical s strides scale_a scale_b none = false
canonical s strides scale_a scale_b (some scales) =
    if not (scales_match s scale_a scale_b scales)
    then false
    else elim (canonical_strides s scales) [ none ↦ false | some expected ↦ strides == expected ]

-- The dimensions and the strides of A, its scales, B, its scales, and C.
unfoldable pub valid_block_scale_matmul_dimensions : List (List ℤ) → List (List ℤ) → Bool
unfolding block_scale_consistent canonical
valid_block_scale_matmul_dimensions (a ∷ scale_a ∷ b ∷ scale_b ∷ c ∷ []) strides =
    let s = block_scale a b in
    if any (λ d. length d != 3) (a ∷ scale_a ∷ b ∷ scale_b ∷ c ∷ [])
    then false
    else if not (block_scale_consistent s b c)
    then false
    else canonical s strides scale_a scale_b (scale_dimensions s)
valid_block_scale_matmul_dimensions _ strides = false
