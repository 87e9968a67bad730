-- ===== src/Base/Xor.antt =====
-- The exclusive or of 64-bit values, one binary digit at a time: it is injective on either side.
use Prim.Native.Nat.{
  ℕ, zero, suc, ◌+◌, ◌*◌, ◌/◌, ◌%◌, ◌^◌, ◌≤◌, ◌<◌, bit_xor, digits, differ, bit_xor-bitwise,
}
use native.Mathlib.Nat.{pow-suc}
use mathlib.Core.Path.{◌≡◌, refl}
use native.Mathlib.Omega.{arith}

exclusive : ℕ → ℕ → ℕ → ℕ
exclusive = digits (λ b. b) differ

exclusive_fuel : (n k a b : ℕ) → a ≤ n → a ≤ k → exclusive n a b ≡ exclusive k a b
unfolding exclusive
exclusive_fuel zero zero a b h g = refl
exclusive_fuel (suc n) zero zero b h g = refl
exclusive_fuel zero (suc k) zero b h g = refl
exclusive_fuel (suc n) (suc k) zero b h g = refl
exclusive_fuel (suc n) (suc k) (suc a) b h g =
    omega (arith, exclusive_fuel n k (suc a / 2) (b / 2) (omega arith) (omega arith))
exclusive_fuel zero k (suc a) b h g = absurd (omega arith)
exclusive_fuel (suc n) zero (suc a) b h g = absurd (omega arith)

zero-bit_xor : (b : ℕ) → bit_xor 0 b ≡ b
zero-bit_xor b = bit_xor-bitwise 0 b

-- the exclusive or of two binary digits
digit_xor : ℕ → ℕ → ℕ
digit_xor a b = (a + b) % 2

differ-digit_xor : (a b : ℕ) → a < 2 → b < 2 → differ a b ≡ digit_xor a b
unfolding digit_xor
differ-digit_xor zero zero h k = refl
differ-digit_xor zero (suc zero) h k = refl
differ-digit_xor (suc zero) zero h k = refl
differ-digit_xor (suc zero) (suc zero) h k = refl
differ-digit_xor (suc (suc a)) b h k = absurd (omega arith)
differ-digit_xor a (suc (suc b)) h k = absurd (omega arith)

bit_xor_digit : (a b : ℕ) → bit_xor a b ≡ bit_xor (a / 2) (b / 2) * 2 + (a + b) % 2
unfolding exclusive digit_xor
bit_xor_digit zero b = omega (arith, zero-bit_xor b, zero-bit_xor (b / 2))
bit_xor_digit (suc a) b = omega (
  arith,
  bit_xor-bitwise (suc a) b,
  bit_xor-bitwise (suc a / 2) (b / 2),
  exclusive_fuel a (suc a / 2) (suc a / 2) (b / 2) (omega arith) (omega arith),
  differ-digit_xor (suc a % 2) (b % 2) (omega arith) (omega arith),
)

pub bit_xor-lt : (k a b : ℕ) → a < 2 ^ k → b < 2 ^ k → bit_xor a b < 2 ^ k
bit_xor-lt zero a b h g = let none : a ≡ 0 = omega arith in rw none (omega (arith, zero-bit_xor b))
bit_xor-lt (suc k) a b h g =
    let power = pow-suc 2 k in
    omega
      (arith, bit_xor_digit a b, bit_xor-lt k (a / 2) (b / 2) (omega arith) (omega arith), power)

pub bit_xor-injective_left :
    (k a b c : ℕ) → a < 2 ^ k → b < 2 ^ k → bit_xor a c ≡ bit_xor b c → a ≡ b
bit_xor-injective_left zero a b c h g e = omega arith
bit_xor-injective_left (suc k) a b c h g e =
    let power = pow-suc 2 k in
    let halves : bit_xor (a / 2) (c / 2) ≡ bit_xor (b / 2) (c / 2) =
      omega (arith, bit_xor_digit a c, bit_xor_digit b c) in
    let same =
      bit_xor-injective_left k (a / 2) (b / 2) (c / 2) (omega arith) (omega arith) halves in
    omega (arith, bit_xor_digit a c, bit_xor_digit b c, same)

pub bit_xor-injective_right :
    (k a b c : ℕ) → a < 2 ^ k → b < 2 ^ k → bit_xor c a ≡ bit_xor c b → a ≡ b
bit_xor-injective_right zero a b c h g e = omega arith
bit_xor-injective_right (suc k) a b c h g e =
    let power = pow-suc 2 k in
    let halves : bit_xor (c / 2) (a / 2) ≡ bit_xor (c / 2) (b / 2) =
      omega (arith, bit_xor_digit c a, bit_xor_digit c b) in
    let same =
      bit_xor-injective_right k (a / 2) (b / 2) (c / 2) (omega arith) (omega arith) halves in
    omega (arith, bit_xor_digit c a, bit_xor_digit c b, same)
