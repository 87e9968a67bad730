-- ===== src/Import/Keys/Canonical.antt =====
-- lib/Import/SerializedGraphImporter.cpp: the keys that are accepted as numbers are those that
-- std::to_string prints.
use native.Mathlib.Numerals.{unary_clauses}
use deep_forge.Base.{
  ℕ, zero, suc, ◌+◌, ◌-◌, ◌*◌, ◌/◌, ◌%◌, ◌^◌, ◌≤◌, ◌<◌, ◌≡◌, ◌↔◌, refl, sym, ap, ◌∙◌, inl, inr,
  true, false, Bool-cases, Option, none, some, [], ◌∷◌, ◌++◌, All, All-append, Text, is_empty,
  decimal, to_string, ltb, ◌==◌, nat_eq, list_eq, eq_of_==, ==-refl, ℤ, pos, negsuc, int_eq, IsI64,
  arith,
}
use deep_forge.Import.Keys.{
  is_digit, read_digits, starts_with_digit, from_chars, with_sign, negated, from_chars_i64,
  to_string_i64, whole, parse_uid_key, indexed_port, is_some, is_indexed_port,
}

abbrev IsDigit : ℕ → Type 0
IsDigit c = is_digit c ≡ true

add-IsDigit : (d : ℕ) → d < 10 → IsDigit (48 + d)
unfolding is_digit
add-IsDigit d h = ground arith

decimal-IsDigit : (digits n : ℕ) → All IsDigit (decimal digits n)
unfolding decimal
decimal-IsDigit zero n = tt
decimal-IsDigit (suc digits) n = elim (Bool-cases (ltb n 10)) [
  | inl small ↦ rw small (add-IsDigit n (ground arith), tt)
  | inr large ↦ rw large (
      All-append IsDigit (decimal digits (n / 10)) ((48 + n % 10) ∷ [])
        (decimal-IsDigit digits (n / 10)) (add-IsDigit (n % 10) (omega arith), tt))
]

-- Behind digits, reading goes on.
read_digits-append :
    (n : ℕ) (xs : Text) (d : ℕ)
    → All IsDigit xs
    → IsDigit d
    → read_digits n (xs ++ d ∷ []) ≡ (10 * (read_digits n xs).0 + (d - 48), [])
unfolding read_digits
read_digits-append n [] d h k = rw (k, read_digits) refl
read_digits-append n (x ∷ xs) d h k =
    rw (h.0, read_digits) (read_digits-append (10 * n + (x - 48)) xs d h.1 k)

tenth : (digits n : ℕ) → n < 10 ^ suc digits → n / 10 < 10 ^ digits
tenth digits n h =
    let below : n < 10 ^ digits * 10 = simp unary_clauses at h in omega (arith, below)

read_digits-decimal : (digits n : ℕ) → n < 10 ^ digits → read_digits 0 (decimal digits n) ≡ (n, [])
unfolding decimal read_digits
read_digits-decimal zero n h = ap (λ m. (m, [])) (omega (arith, h))
read_digits-decimal (suc digits) n h = elim (Bool-cases (ltb n 10)) [
  | inl small ↦
      rw (small, add-IsDigit n (ground arith), read_digits) (ap (λ m. (m, [])) (omega arith))
  | inr large ↦
      rw
        (
          large,
          read_digits-append 0 (decimal digits (n / 10)) (48 + n % 10)
              (decimal-IsDigit digits (n / 10)) (add-IsDigit (n % 10) (omega arith)),
          read_digits-decimal digits (n / 10) (tenth digits n h),
        )
        (ap (λ m. (m, [])) (omega arith))
]

pub to_string-Injective : (m n : ℕ) → m < 2 ^ 64 → n < 2 ^ 64 → to_string m ≡ to_string n → m ≡ n
to_string-Injective m n hm hn h =
    ap (λ r. r.0)
      (sym (read_digits-decimal 20 m (omega arith))
        ∙ (ap (read_digits 0) h ∙ read_digits-decimal 20 n (omega arith)))

starts_of_digits :
    (xs : Text) (d : ℕ) → All IsDigit xs → IsDigit d → starts_with_digit (xs ++ d ∷ []) ≡ true
unfolding starts_with_digit
starts_of_digits [] d h k = k
starts_of_digits (x ∷ xs) d h k = h.0

starts-to_string : (n : ℕ) → starts_with_digit (to_string n) ≡ true
unfolding decimal starts_with_digit
starts-to_string n = elim (Bool-cases (ltb n 10)) [
  | inl small ↦ rw small (add-IsDigit n (ground arith))
  | inr large ↦ rw large (
      starts_of_digits (decimal 19 (n / 10)) (48 + n % 10) (decimal-IsDigit 19 (n / 10))
        (add-IsDigit (n % 10) (omega arith)))
]

not_empty : (t : Text) → starts_with_digit t ≡ true → is_empty t ≡ false
unfolding starts_with_digit
not_empty [] h = cc
not_empty (c ∷ cs) h = refl

from_chars-to_string :
    (limit n : ℕ) → limit < 2 ^ 64 → n ≤ limit → from_chars limit (to_string n) ≡ some (n, [])
unfolding from_chars
from_chars-to_string limit n small h =
    ground (arith, starts-to_string n, read_digits-decimal 20 n (omega arith))

from_chars-limit : (limit n : ℕ) (t rest : Text) → from_chars limit t ≡ some (n, rest) → n ≤ limit
unfolding from_chars
from_chars-limit limit n t rest h = ground arith

module _ {V : Type 0} (print : V → Text) where
  whole-eq-some :
      (key : Text) (o : Option (V × Text)) (v : V)
      → whole print key o ≡ some v
      → (o ≡ some (v, [])) × (key ≡ print v)
  whole-eq-some key none v h = cc
  whole-eq-some key (some (value, c ∷ rest)) v h = cc
  whole-eq-some key (some (value, [])) v h = elim (Bool-cases (print value == key)) [
    | inr other ↦ absurd (cc (rw other at h))
    | inl same ↦
        let is : some value ≡ some v = rw same at h in
        (cc is, sym (eq_of_== (print value) key same) ∙ cc is)
  ]

  whole-print : (v : V) → whole print (print v) (some (v, [])) ≡ some v
  whole-print v = rw (==-refl (print v)) refl

port_number :
    (port : Text) (n : ℕ) → indexed_port port ≡ some n → (n < 2 ^ 64) × (port ≡ to_string n)
unfolding indexed_port
port_number port n h = elim (Bool-cases (is_empty port)) [
  | inl empty ↦ absurd (cc (rw empty at h))
  | inr there ↦
      let (read, is) =
        whole-eq-some to_string port (from_chars (2 ^ 64 - 1) port) n (rw there at h) in
      let le = from_chars-limit (2 ^ 64 - 1) n port [] read in (omega (arith, le), is)
]

number_port : (port : Text) (n : ℕ) → n < 2 ^ 64 → port ≡ to_string n → indexed_port port ≡ some n
unfolding indexed_port
number_port port n h is =
    rw
      (
        is,
        not_empty (to_string n) (starts-to_string n),
        from_chars-to_string (2 ^ 64 - 1) n (omega arith) (omega (arith, h)),
      )
      (whole-print to_string n)

some_number : (o : Option ℕ) → is_some o ≡ true → (n : ℕ) × (o ≡ some n)
some_number none h = cc
some_number (some n) h = (n, refl)

-- A port is an index exactly when it is what std::to_string prints for some unsigned 64-bit number.
pub is_indexed_port_iff :
    (port : Text) → (is_indexed_port port ≡ true) ↔ ((n : ℕ) × (n < 2 ^ 64) × (port ≡ to_string n))
unfolding is_indexed_port
is_indexed_port_iff port = (
  λ h.
      let (n, is) = some_number (indexed_port port) h in
      let (le, prints) = port_number port n is in (n, le, prints),
  λ (n, le, prints). ap is_some (number_port port n le prints),
)

signed_limit : (z : ℤ) (n : ℕ) → n ≤ 2 ^ 63 → negated n ≡ z → IsI64 z
signed_limit z zero h is = rw (← is) (omega arith)
signed_limit z (suc n) h is = rw (← is) (omega (arith, h))

with_sign-eq-some :
    (f : ℕ → ℤ) (o : Option (ℕ × Text)) (z : ℤ) (rest : Text)
    → with_sign f o ≡ some (z, rest)
    → (n : ℕ) × (o ≡ some (n, rest)) × (f n ≡ z)
with_sign-eq-some f none z rest h = cc
with_sign-eq-some f (some (n, r)) z rest h = (n, cc h, cc h)

from_chars_i64-limit :
    (t : Text) (z : ℤ) (rest : Text) → from_chars_i64 t ≡ some (z, rest) → IsI64 z
unfolding from_chars_i64
from_chars_i64-limit [] z rest h = cc
from_chars_i64-limit (c ∷ cs) z rest h = elim (Bool-cases (c == 45)) [
  | inl minus ↦
      let (n, read, is) =
        with_sign-eq-some negated (from_chars (2 ^ 63) cs) z rest (rw minus at h) in
      signed_limit z n (from_chars-limit (2 ^ 63) n cs rest read) is
  | inr plain ↦
      let (n, read, is) =
        with_sign-eq-some pos (from_chars (2 ^ 63 - 1) (c ∷ cs)) z rest (rw plain at h) in
      rw (← is) (omega (arith, from_chars-limit (2 ^ 63 - 1) n (c ∷ cs) rest read))
]

-- A text of digits has no sign in front.
from_chars_i64-digits :
    (t : Text)
    → starts_with_digit t ≡ true
    → from_chars_i64 t ≡ with_sign pos (from_chars (2 ^ 63 - 1) t)
unfolding from_chars_i64 starts_with_digit is_digit
from_chars_i64-digits [] h = cc
from_chars_i64-digits (c ∷ cs) h = let plain : (c == 45) ≡ false = ground arith in rw plain refl

one_more : (n : ℕ) → n + 1 ≡ suc n
one_more n = omega arith

from_chars_i64-to_string_i64 : (z : ℤ) → IsI64 z → from_chars_i64 (to_string_i64 z) ≡ some (z, [])
unfolding from_chars_i64
from_chars_i64-to_string_i64 (pos n) h =
    from_chars_i64-digits (to_string n) (starts-to_string n)
    ∙ ap (with_sign pos) (from_chars-to_string (2 ^ 63 - 1) n (omega arith) (omega (arith, h)))
from_chars_i64-to_string_i64 (negsuc n) h =
    ap (with_sign negated) (from_chars-to_string (2 ^ 63) (n + 1) (omega arith) (omega (arith, h)))
    ∙ ap (λ k. some (negated k, [])) (one_more n)

printed_not_empty : (z : ℤ) → is_empty (to_string_i64 z) ≡ false
printed_not_empty (pos n) = not_empty (to_string n) (starts-to_string n)
printed_not_empty (negsuc n) = refl

uid_of_key : (key : Text) (z : ℤ) → parse_uid_key key ≡ some z → IsI64 z × (key ≡ to_string_i64 z)
unfolding parse_uid_key
uid_of_key key z h = elim (Bool-cases (is_empty key)) [
  | inl empty ↦ absurd (cc (rw empty at h))
  | inr there ↦
      let (read, is) = whole-eq-some to_string_i64 key (from_chars_i64 key) z (rw there at h) in
      (from_chars_i64-limit key z [] read, is)
]

key_of_uid : (key : Text) (z : ℤ) → IsI64 z → key ≡ to_string_i64 z → parse_uid_key key ≡ some z
unfolding parse_uid_key
key_of_uid key z h is =
    rw (is, printed_not_empty z, from_chars_i64-to_string_i64 z h) (whole-print to_string_i64 z)

-- A key is parsed as a UID exactly when it is what std::to_string prints for that signed 64-bit
-- number: no sign but a minus, no leading zero, nothing behind.
pub parse_uid_key_iff :
    (key : Text) (z : ℤ) → (parse_uid_key key ≡ some z) ↔ (IsI64 z × (key ≡ to_string_i64 z))
parse_uid_key_iff key z = (uid_of_key key z, λ h. key_of_uid key z h.0 h.1)
