-- ===== src/Base/Equality.antt =====
-- Equality as an interface: a Boolean test that decides equality. Keys, identifiers and enumerators
-- are compared through it.
use Prim.Native.Nat.{ℕ}
use mathlib.Core.Path.{◌≡◌, refl, sym}
use mathlib.Core.Logic.{◌↔◌, ◌≢◌, inl, inr}
use mathlib.Core.Bool.{Bool, true, false, not, ◌&&◌}
use mathlib.Core.List.{List, [], ◌∷◌}
use native.Mathlib.Omega.{arith}
use deep_forge.Base.Lists.{All}
use deep_forge.Base.Tests.{eqb, eqb→eq, eq→eqb, Bool-cases}

pub record Eq {ℓ} (Value : Type ℓ) : Type ℓ where
  pub beq : Value → Value → Bool
  pub beq_iff : (x y : Value) → (beq x y ≡ true) ↔ (x ≡ y)

infix 50 ◌!=◌ ◌==◌
abbrev pub ◌==◌ {ℓ} : {A : Type ℓ} ⦃e : Eq A⦄ → A → A → Bool
◌==◌ ⦃e⦄ a b = e.beq a b

abbrev pub ◌!=◌ {ℓ} : {A : Type ℓ} ⦃e : Eq A⦄ → A → A → Bool
◌!=◌ ⦃e⦄ a b = not (e.beq a b)

module _ {ℓ} {A : Type ℓ} ⦃e : Eq A⦄ where
  pub ==-refl : (a : A) → (a == a) ≡ true
  ==-refl a = (e.beq_iff a a).1 refl

  pub eq_of_== : (a b : A) → (a == b) ≡ true → a ≡ b
  eq_of_== a b = (e.beq_iff a b).0

  pub ne_of_== : (a b : A) → (a == b) ≡ false → a ≢ b
  ne_of_== a b h p = cc ((e.beq_iff a b).1 p)

  pub eq_of_!= : (a b : A) → (a != b) ≡ false → a ≡ b
  eq_of_!= a b h = ground (arith, eq_of_== a b)

  -- membership, as `std::set::insert(..).second` reports its absence
  unfoldable pub contains : A → List A → Bool
  contains a [] = false
  contains a (x ∷ xs) = elim (a == x) [ true ↦ true | false ↦ contains a xs ]

  -- no value stands twice in the list
  abbrev pub Distinct : List A → Type 0
  Distinct [] = Unit {0}
  Distinct (x ∷ xs) = (contains x xs ≡ false) × Distinct xs

  -- each value differs from those before it and from the ones seen earlier, as a loop finds it
  abbrev pub FreshFrom : List A → List A → Type 0
  FreshFrom [] seen = Unit {0}
  FreshFrom (x ∷ xs) seen = (contains x seen ≡ false) × FreshFrom xs (x ∷ seen)

  absent_later :
      (y : A) (xs seen : List A)
      → FreshFrom xs seen
      → contains y seen ≡ true
      → contains y xs ≡ false
  unfolding contains
  absent_later y [] seen h k = refl
  absent_later y (x ∷ xs) seen h k = elim (Bool-cases (y == x)) [
    | inl same ↦ let absent : contains y seen ≡ false = rw (eq_of_== y x same) h.0 in cc (k, absent)
    | inr other ↦ rw (other, contains) (absent_later y xs (x ∷ seen) h.1 (rw (other, contains) k))
  ]

  pub FreshFrom-Distinct : (xs seen : List A) → FreshFrom xs seen → Distinct xs
  unfolding contains
  FreshFrom-Distinct [] seen h = tt
  FreshFrom-Distinct (x ∷ xs) seen h = (
    absent_later x xs (x ∷ seen) h.1 (rw (==-refl x, contains)),
    FreshFrom-Distinct xs (x ∷ seen) h.1,
  )

  absent_grown :
      (x : A) (xs seen : List A)
      → contains x xs ≡ false
      → All (λ y. contains y seen ≡ false) xs
      → All (λ y. contains y (x ∷ seen) ≡ false) xs
  unfolding contains
  absent_grown x [] seen h k = tt
  absent_grown x (y ∷ ys) seen h k = elim (Bool-cases (x == y)) [
    | inl same ↦ absurd (cc (rw (same, contains) at h))
    | inr other ↦ elim (Bool-cases (y == x)) [
      | inl same ↦ absurd (ne_of_== x y other (sym (eq_of_== y x same)))
      | inr apart ↦
          (rw (apart, contains) k.0, absent_grown x ys seen (rw (other, contains) at h) k.1)
    ]
  ]

  pub Distinct-FreshFrom :
      (xs seen : List A) → Distinct xs → All (λ x. contains x seen ≡ false) xs → FreshFrom xs seen
  Distinct-FreshFrom [] seen h k = tt
  Distinct-FreshFrom (x ∷ xs) seen h k =
      (k.0, Distinct-FreshFrom xs (x ∷ seen) h.1 (absent_grown x xs seen h.0 k.1))

  unfoldable pub list_beq : List A → List A → Bool
  list_beq [] [] = true
  list_beq [] (y ∷ ys) = false
  list_beq (x ∷ xs) [] = false
  list_beq (x ∷ xs) (y ∷ ys) = (x == y) && list_beq xs ys

  list_beq→eq : (xs ys : List A) → list_beq xs ys ≡ true → xs ≡ ys
  unfolding list_beq
  list_beq→eq [] [] h = refl
  list_beq→eq [] (y ∷ ys) h = cc
  list_beq→eq (x ∷ xs) [] h = cc
  list_beq→eq (x ∷ xs) (y ∷ ys) h = ground (arith, eq_of_== x y, list_beq→eq xs ys)

  list_beq_refl : (xs : List A) → list_beq xs xs ≡ true
  unfolding list_beq
  list_beq_refl [] = refl
  list_beq_refl (x ∷ xs) = rw (==-refl x, list_beq_refl xs)

  pub list_beq_iff : (xs ys : List A) → (list_beq xs ys ≡ true) ↔ (xs ≡ ys)
  list_beq_iff xs ys = (list_beq→eq xs ys, λ p. rw p (list_beq_refl ys))

instance abbrev pub nat_eq : Eq ℕ
nat_eq = record { beq = eqb; beq_iff = λ a b. (eqb→eq a b, eq→eqb a b) }

instance abbrev pub list_eq {ℓ} : {A : Type ℓ} ⦃e : Eq A⦄ → Eq (List A)
list_eq = record { beq = list_beq; beq_iff = list_beq_iff }
