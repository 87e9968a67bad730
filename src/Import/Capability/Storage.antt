-- ===== src/Import/Capability/Storage.antt =====
-- `tensor_storage_bytes` of lib/Import/Capability.cpp against unbounded arithmetic: each check for
-- overflow is exact.
use native.Mathlib.Nat.{zero-add, div-lt_iff_lt-mul, le-div_iff_mul-le, mul_comm}
use deep_forge.Base.{
  ℕ, zero, suc, ◌+◌, ◌-◌, ◌*◌, ◌/◌, ◌≤◌, ◌<◌, ◌≡◌, refl, Bool, true, false, not, ◌&&◌, ◌||◌, none,
  some, List, [], ◌∷◌, length, is_empty, if◌then◌else◌, ltb, leb, tests, ◌==◌, ◌!=◌, nat_eq, ℤ, pos,
  negsuc, pos_part, nonpositive, u64_max, arith,
}
use deep_forge.Import.DataTypes.{DataType}
use deep_forge.Import.Capability.{
  data_type_storage_bits, maximum_element_offset, storage_bytes_at, tensor_storage_bytes,
}
use deep_forge.Import.Capability.Names.{data_type_storage_bits_range}

-- Every extent and every stride is positive.
abbrev pub positive_axes : List ℤ → List ℤ → Bool
positive_axes (d ∷ ds) (s ∷ ss) = not (nonpositive d || nonpositive s) && positive_axes ds ss
positive_axes [] ss = true
positive_axes (d ∷ ds) [] = true

-- The offset of the last element, in unbounded arithmetic.
unfoldable pub last_offset : List ℤ → List ℤ → ℕ
last_offset (d ∷ ds) (s ∷ ss) = (pos_part d - 1) * pos_part s + last_offset ds ss
last_offset [] ss = 0
last_offset (d ∷ ds) [] = 0

-- The guard before a product: the quotient test fails exactly when the product is too large.
pub mul_guard :
    (m e s : ℕ) → 0 < e → (ltb (m / e) s ≡ true → m < s * e) × (ltb (m / e) s ≡ false → s * e ≤ m)
mul_guard m e s h =
    (λ t. (div-lt_iff_lt-mul h).0 (omega tests), λ f. (le-div_iff_mul-le h).0 (omega tests))

-- One round of the loop, for an extent n + 1 and a stride s.
mul_guard_axis : (n s : ℕ) → (n != 0 && ltb (u64_max / n) s) ≡ ltb u64_max (n * s)
mul_guard_axis zero s = ground arith
mul_guard_axis (suc n) s = ground (arith, mul_guard u64_max (suc n) s, mul_comm s (suc n))

maximum_element_offset-eq :
    (ds ss : List ℤ) (offset : ℕ)
    → offset ≤ u64_max
    → maximum_element_offset ds ss offset ≡ (
        if positive_axes ds ss && leb (offset + last_offset ds ss) u64_max
        then some (offset + last_offset ds ss)
        else none)
unfolding maximum_element_offset last_offset
maximum_element_offset-eq [] ss offset h = ground arith
maximum_element_offset-eq (d ∷ ds) [] offset h = ground arith
maximum_element_offset-eq (pos zero ∷ ds) (s ∷ ss) offset h = refl
maximum_element_offset-eq (negsuc n ∷ ds) (s ∷ ss) offset h = refl
maximum_element_offset-eq (pos (suc n) ∷ ds) (pos zero ∷ ss) offset h = refl
maximum_element_offset-eq (pos (suc n) ∷ ds) (negsuc s ∷ ss) offset h = refl
maximum_element_offset-eq (pos (suc n) ∷ ds) (pos (suc s) ∷ ss) offset h =
    ground (arith, mul_guard_axis n (suc s), maximum_element_offset-eq ds ss (offset + n * suc s))

-- The bytes of a tensor in unbounded arithmetic: its element slots, times the bits of one, rounded
-- up to whole bytes.
abbrev pub exact_bytes : DataType → List ℤ → List ℤ → ℕ
exact_bytes type ds ss = ((last_offset ds ss + 1) * data_type_storage_bits type + 7) / 8

abbrev pub fits_storage : DataType → List ℤ → List ℤ → Bool
fits_storage type ds ss = leb ((last_offset ds ss + 1) * data_type_storage_bits type + 7) u64_max

slots-le-bits : (type : DataType) (m : ℕ) → (m + 1) * 4 ≤ (m + 1) * data_type_storage_bits type
slots-le-bits type m = let bits = data_type_storage_bits_range type in grind arith

storage_bytes_at-eq :
    (type : DataType) (m : ℕ)
    → storage_bytes_at type (if leb m u64_max then some m else none) ≡ (
        if leb ((m + 1) * data_type_storage_bits type + 7) u64_max
        then some (((m + 1) * data_type_storage_bits type + 7) / 8)
        else none)
unfolding storage_bytes_at
storage_bytes_at-eq type m = ground (
  arith,
  data_type_storage_bits_range type,
  slots-le-bits type m,
  mul_guard u64_max (data_type_storage_bits type) (m + 1),
)

-- With at least one axis, as many strides as extents, all of them positive, and a bit count that with
-- the 7 bits of the rounding fits 64 bits, the size is the exact one; otherwise there is none.
pub tensor_storage_bytes-eq :
    (type : DataType) (ds ss : List ℤ)
    → tensor_storage_bytes type ds ss ≡ (
        if not (is_empty ds)
          && length ds == length ss
          && positive_axes ds ss
          && fits_storage type ds ss
        then some (exact_bytes type ds ss)
        else none)
unfolding tensor_storage_bytes
tensor_storage_bytes-eq type ds ss =
    rw (maximum_element_offset-eq ds ss 0 (omega arith), zero-add (last_offset ds ss))
      (ground (arith, storage_bytes_at-eq type (last_offset ds ss)))
