-- ===== src/Base/Words.antt =====
-- The limits of the machine's integer types, the checked addition, and the bit operations that
-- align a 64-bit value: their effect in plain arithmetic.
use Prim.Native.Nat.{
  ℕ, zero, suc, ◌+◌, ◌-◌, ◌*◌, ◌/◌, ◌%◌, ◌^◌, ◌≤◌, ◌<◌, min, bit_and, digits, bit_and-bitwise,
}
use native.Mathlib.Nat.{pow-suc, div-div-eq-div-mul}
use mathlib.Core.Path.{◌≡◌, refl, ap}
use mathlib.Core.Bool.{Bool, true, ◌&&◌, not, ◌||◌}
use mathlib.Core.Option.{Option, none, some}
use native.Mathlib.Omega.{arith}
use deep_forge.Base.Tests.{ltb, leb, eqb, if◌then◌else◌}

abbrev pub u64_max : ℕ
u64_max = 2 ^ 64 - 1

abbrev pub i64_max : ℕ
i64_max = 2 ^ 63 - 1

abbrev pub u32_max : ℕ
u32_max = 2 ^ 32 - 1

-- `if (rhs > max - lhs) return false; result = lhs + rhs` on 64-bit words
unfoldable pub checked_add : ℕ → ℕ → Option ℕ
checked_add lhs rhs = if ltb (u64_max - lhs) rhs then none else some (lhs + rhs)

pub checked_add-eq :
    (lhs rhs : ℕ)
    → lhs ≤ u64_max
    → checked_add lhs rhs ≡ (if leb (lhs + rhs) u64_max then some (lhs + rhs) else none)
unfolding checked_add
checked_add-eq lhs rhs h = ground arith

pub checked_add-eq-some : (lhs rhs : ℕ) {sum : ℕ} → checked_add lhs rhs ≡ some sum → sum ≡ lhs + rhs
unfolding checked_add
checked_add-eq-some lhs rhs h = ground arith

-- `value != 0 && (value & (value - 1)) == 0`
unfoldable pub is_power_of_two : ℕ → Bool
is_power_of_two value = not (eqb value 0) && eqb (bit_and value (value - 1)) 0

-- `value & ~(alignment - 1)` on 64-bit words
unfoldable pub align_down : ℕ → ℕ → ℕ
align_down value alignment = bit_and value (u64_max - (alignment - 1))

-- One binary digit of a conjunction at a time.
conjunction : ℕ → ℕ → ℕ → ℕ
conjunction = digits (λ b. zero) min

conjunction_fuel : (n k a b : ℕ) → a ≤ n → a ≤ k → conjunction n a b ≡ conjunction k a b
unfolding conjunction
conjunction_fuel zero zero a b h g = refl
conjunction_fuel (suc n) zero zero b h g = refl
conjunction_fuel zero (suc k) zero b h g = refl
conjunction_fuel (suc n) (suc k) zero b h g = refl
conjunction_fuel (suc n) (suc k) (suc a) b h g =
    omega (arith, conjunction_fuel n k (suc a / 2) (b / 2) (omega arith) (omega arith))
conjunction_fuel zero k (suc a) b h g = absurd (omega arith)
conjunction_fuel (suc n) zero (suc a) b h g = absurd (omega arith)

bit_and_zero : (b : ℕ) → bit_and 0 b ≡ 0
bit_and_zero b = bit_and-bitwise 0 b

bit_and_digit : (a b : ℕ) → bit_and a b ≡ bit_and (a / 2) (b / 2) * 2 + min (a % 2) (b % 2)
unfolding conjunction
bit_and_digit zero b = omega (arith, bit_and_zero b, bit_and_zero (b / 2))
bit_and_digit (suc a) b = omega (
  arith,
  bit_and-bitwise (suc a) b,
  bit_and-bitwise (suc a / 2) (b / 2),
  conjunction_fuel a (suc a / 2) (suc a / 2) (b / 2) (omega arith) (omega arith),
)

-- The masks 2 ^ width - 1, and the same with `shift` zeros behind.
low_ones : ℕ → ℕ
low_ones zero = 0
low_ones (suc width) = low_ones width * 2 + 1

shifted_ones : ℕ → ℕ → ℕ
shifted_ones zero width = low_ones width
shifted_ones (suc shift) width = shifted_ones shift width * 2

bit_and-low_ones : (width a : ℕ) → a < 2 ^ width → bit_and a (low_ones width) ≡ a
unfolding low_ones
bit_and-low_ones zero a h = let none_left : a ≡ 0 = omega arith in rw (none_left, bit_and_zero 0)
bit_and-low_ones (suc width) a h =
    let half = bit_and-low_ones width (a / 2) (omega (arith, pow-suc 2 width)) in
    let mask : (low_ones width * 2 + 1) / 2 ≡ low_ones width = omega arith in
    omega (arith, bit_and_digit a (low_ones width * 2 + 1), ap (bit_and (a / 2)) mask)

bit_and-shifted_ones :
    (shift width a : ℕ)
    → a < 2 ^ shift * 2 ^ width
    → bit_and a (shifted_ones shift width) ≡ a / 2 ^ shift * 2 ^ shift
unfolding shifted_ones
bit_and-shifted_ones zero width a h = omega (arith, bit_and-low_ones width a (omega arith))
bit_and-shifted_ones (suc shift) width a h =
    let power : 2 ^ suc shift ≡ 2 * 2 ^ shift = omega (arith, pow-suc 2 shift) in
    let bound : a < 2 * (2 ^ shift * 2 ^ width) =
      omega (arith, ap (λ (p : ℕ). p * 2 ^ width) power) in
    let half = bit_and-shifted_ones shift width (a / 2) (omega arith) in
    let mask : shifted_ones shift width * 2 / 2 ≡ shifted_ones shift width = omega arith in
    let quotient : a / 2 / 2 ^ shift ≡ a / (2 * 2 ^ shift) = div-div-eq-div-mul a 2 (2 ^ shift) in
    rw power (
      omega (
        arith,
        bit_and_digit a (shifted_ones shift width * 2),
        ap (bit_and (a / 2)) mask,
        ap (λ (q : ℕ). q * 2 ^ shift) quotient,
      ))

-- The alignments up to 64, as powers of two.
abbrev pub is_small_power : ℕ → Bool
is_small_power a = eqb a 1 || eqb a 2 || eqb a 4 || eqb a 8 || eqb a 16 || eqb a 32 || eqb a 64

all_below : ℕ → (ℕ → Bool) → Bool
all_below zero p = true
all_below (suc n) p = p n && all_below n p

all_below-lt : (n : ℕ) (p : ℕ → Bool) (x : ℕ) → all_below n p ≡ true → x < n → p x ≡ true
unfolding all_below
all_below-lt zero p x h lt = absurd (omega arith)
all_below-lt (suc n) p x h lt = ground (arith, all_below-lt n p x)

small_powers : all_below 65 (λ a. not (is_power_of_two a) || is_small_power a) ≡ true
unfolding all_below is_power_of_two
small_powers = refl

pub is_power_of_two-small : (a : ℕ) → is_power_of_two a ≡ true → a ≤ 64 → is_small_power a ≡ true
is_power_of_two-small a h le =
    let row =
      all_below-lt 65 (λ a. not (is_power_of_two a) || is_small_power a) a small_powers
        (omega arith) in
    ground (arith, row)

align_down_power :
    (shift : ℕ) (value : ℕ)
    → 2 ^ shift * 2 ^ (64 - shift) ≡ 2 ^ 64
    → u64_max - (2 ^ shift - 1) ≡ shifted_ones shift (64 - shift)
    → value ≤ u64_max
    → align_down value (2 ^ shift) ≡ value / 2 ^ shift * 2 ^ shift
unfolding align_down
align_down_power shift value p mask h =
    rw mask (bit_and-shifted_ones shift (64 - shift) value (rw p (omega arith)))

-- Clearing the low bits rounds down to a multiple, for every alignment up to 64.
pub align_down-eq :
    (value alignment : ℕ)
    → is_power_of_two alignment ≡ true
    → alignment ≤ 64
    → value ≤ u64_max
    → align_down value alignment ≡ value / alignment * alignment
unfolding shifted_ones low_ones
align_down-eq value alignment power le h = ground (
  arith,
  is_power_of_two-small alignment power le,
  align_down_power 0 value refl refl h,
  align_down_power 1 value refl refl h,
  align_down_power 2 value refl refl h,
  align_down_power 3 value refl refl h,
  align_down_power 4 value refl refl h,
  align_down_power 5 value refl refl h,
  align_down_power 6 value refl refl h,
)
