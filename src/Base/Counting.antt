-- ===== src/Base/Counting.antt =====
-- Facts about the entries of a list that hold of every permutation of it: sums of a measure, tests
-- that no entry passes, and keys that are distinct.
use mathlib.Core.List.{Permᴰ, Perm, List, [], ◌∷◌, map}
use Prim.Native.Nat.{ℕ, ◌≤◌}
use mathlib.Core.Path.{◌≡◌, refl, ap, ◌∙◌}
use mathlib.Core.Logic.{inl, inr, ∥∥₁_elim}
use mathlib.Core.Bool.{Bool, false}
use native.Mathlib.Omega.{arith}
use deep_forge.Base.Tests.{if◌then◌else◌, Bool-cases}
use deep_forge.Base.Lists.{All}
use deep_forge.Base.Equality.{Eq, ◌==◌, ==-refl, eq_of_==, contains, Distinct}
use deep_forge.Base.Sorting.{total}

module _ {ℓ} {A : Type ℓ} (f : A → ℕ) where
  total-Permᴰ : {xs ys : List A} → Permᴰ xs ys → total f xs ≡ total f ys
  unfolding total
  total-Permᴰ Permᴰ.nil = refl
  total-Permᴰ (Permᴰ.cons e p) = omega (arith, ap f e, total-Permᴰ p)
  total-Permᴰ (Permᴰ.swap e g) = omega (arith, ap f e, ap f g)
  total-Permᴰ (Permᴰ.trans p q) = total-Permᴰ p ∙ total-Permᴰ q

  pub total-perm : {xs ys : List A} → Perm xs ys → total f xs ≡ total f ys
  total-perm p = ∥∥₁_elim p (hlevel) (λ d. total-Permᴰ d)

module _ {ℓ} {A : Type ℓ} (p : A → Bool) where
  -- how many entries pass the test
  unfoldable pub passing : List A → ℕ
  unfolding total
  passing = total (λ x. if p x then 1 else 0)

  pub passing_none : (xs : List A) → All (λ x. p x ≡ false) xs → passing xs ≡ 0
  unfolding passing
  passing_none [] h = refl
  passing_none (x ∷ xs) h = rw h.0 (omega (arith, passing_none xs h.1))

  pub none_passing : (xs : List A) → passing xs ≡ 0 → All (λ x. p x ≡ false) xs
  unfolding passing
  none_passing [] h = tt
  none_passing (x ∷ xs) h = elim (Bool-cases (p x)) [
    | inl yes' ↦ absurd (omega (arith, rw yes' at h))
    | inr fails ↦ (fails, none_passing xs (omega (arith, rw fails at h)))
  ]

  pub none-perm :
      {xs ys : List A} → Perm xs ys → All (λ x. p x ≡ false) ys → All (λ x. p x ≡ false) xs
  unfolding passing
  none-perm {xs} {ys} q h = none_passing xs (total-perm _ q ∙ passing_none ys h)

module _ {ℓ κ} {A : Type ℓ} {K : Type κ} ⦃e : Eq K⦄ (key : A → K) where
  -- how often a key stands in the list
  times : K → List A → ℕ
  times k = passing (λ x. k == key x)

  absent-times : (k : K) (xs : List A) → contains k (map key xs) ≡ false → times k xs ≡ 0
  unfolding times passing contains
  absent-times k [] h = refl
  absent-times k (x ∷ xs) h = elim (Bool-cases (k == key x)) [
    | inl same ↦ absurd (cc (rw (same, contains) at h))
    | inr other ↦ rw other (omega (arith, absent-times k xs (rw (other, contains) at h)))
  ]

  times-absent : (k : K) (xs : List A) → times k xs ≡ 0 → contains k (map key xs) ≡ false
  unfolding times passing contains
  times-absent k [] h = refl
  times-absent k (x ∷ xs) h = elim (Bool-cases (k == key x)) [
    | inl same ↦ absurd (omega (arith, rw same at h))
    | inr other ↦ rw (other, contains) (times-absent k xs (omega (arith, rw other at h)))
  ]

  Distinct-times : (xs : List A) → Distinct (map key xs) → (k : K) → times k xs ≤ 1
  unfolding times passing
  Distinct-times [] h k = omega arith
  Distinct-times (x ∷ xs) h k = elim (Bool-cases (k == key x)) [
    | inl same ↦
        let none' : times k xs ≡ 0 = absent-times k xs (rw (eq_of_== k (key x) same) h.0) in
        rw same (omega (arith, none'))
    | inr other ↦ rw other (omega (arith, Distinct-times xs h.1 k))
  ]

  times_grow : (k : K) (x : A) (xs : List A) → times k xs ≤ times k (x ∷ xs)
  unfolding times passing
  times_grow k x xs = ground arith

  times-Distinct : (xs : List A) → ((k : K) → times k xs ≤ 1) → Distinct (map key xs)
  unfolding times passing
  times-Distinct [] h = tt
  times-Distinct (x ∷ xs) h = (
    times-absent (key x) xs (omega (arith, rw (==-refl (key x)) at (h (key x)))),
    times-Distinct xs (λ k. omega (arith, h k, times_grow k x xs)),
  )

  pub Distinct-perm : {xs ys : List A} → Perm xs ys → Distinct (map key ys) → Distinct (map key xs)
  unfolding times passing
  Distinct-perm {xs} {ys} q h =
      times-Distinct xs (λ k. omega (arith, total-perm _ q, Distinct-times ys h k))
