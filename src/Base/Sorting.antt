-- ===== src/Base/Sorting.antt =====
-- std::sort and std::stable_sort: the sorted permutation that keeps the order of entries of which
-- neither goes before the other.
use mathlib.Core.List.Perm
use deep_forge.Base.Tests.{if◌then◌else◌, Bool-cases}
use Prim.Native.Nat.{ℕ, ◌+◌}
use mathlib.Core.Path.{◌≡◌, refl, ap, ◌∙◌}
use mathlib.Core.Logic.{inl, inr}
use mathlib.Core.Bool.{Bool}
use mathlib.Core.List.{List, [], ◌∷◌, map, Perm}
use native.Mathlib.Omega.{arith}
use deep_forge.Base.Lists.{All}

module _ {ℓ} {A : Type ℓ} where
  unfoldable pub insert_by : (A → A → Bool) → A → List A → List A
  insert_by before x [] = x ∷ []
  insert_by before x (y ∷ ys) = if before y x then y ∷ insert_by before x ys else x ∷ y ∷ ys

  unfoldable pub sort_by : (A → A → Bool) → List A → List A
  sort_by before [] = []
  sort_by before (x ∷ xs) = insert_by before x (sort_by before xs)

  insert_by-perm :
      (before : A → A → Bool) (x : A) (xs : List A) → Perm (insert_by before x xs) (x ∷ xs)
  unfolding insert_by
  insert_by-perm before x [] = Perm.refl _
  insert_by-perm before x (y ∷ ys) = elim (Bool-cases (before y x)) [
    | inl t ↦ rw t (Perm.trans (Perm.cons y (insert_by-perm before x ys)) (Perm.swap x y ys))
    | inr f ↦ rw f (Perm.refl _)
  ]

  pub sort_by-perm : (before : A → A → Bool) (xs : List A) → Perm (sort_by before xs) xs
  unfolding sort_by
  sort_by-perm before [] = Perm.nil
  sort_by-perm before (x ∷ xs) =
      Perm.trans (insert_by-perm before x (sort_by before xs))
        (Perm.cons x (sort_by-perm before xs))

  pub insert_by-All {κ} :
      (P : A → Type κ) (before : A → A → Bool) (x : A) (xs : List A)
      → P x
      → All P xs
      → All P (insert_by before x xs)
  unfolding insert_by
  insert_by-All P before x [] h hs = (h, tt)
  insert_by-All P before x (y ∷ ys) h hs = elim (Bool-cases (before y x)) [
    | inl t ↦ rw t (hs.0, insert_by-All P before x ys h hs.1)
    | inr f ↦ rw f (h, hs)
  ]

  pub sort_by-All {κ} :
      (P : A → Type κ) (before : A → A → Bool) (xs : List A) → All P xs → All P (sort_by before xs)
  unfolding sort_by
  sort_by-All P before [] hs = tt
  sort_by-All P before (x ∷ xs) hs =
      insert_by-All P before x (sort_by before xs) hs.0 (sort_by-All P before xs hs.1)

  All-insert_by {κ} :
      (P : A → Type κ) (before : A → A → Bool) (x : A) (xs : List A)
      → All P (insert_by before x xs)
      → P x × All P xs
  unfolding insert_by
  All-insert_by P before x [] h = h
  All-insert_by P before x (y ∷ ys) h = elim (Bool-cases (before y x)) [
    | inl t ↦
        let all : P y × All P (insert_by before x ys) = rw t at h in
        let rest = All-insert_by P before x ys all.1 in (rest.0, (all.0, rest.1))
    | inr f ↦ rw f at h
  ]

  pub All-sort_by {κ} :
      (P : A → Type κ) (before : A → A → Bool) (xs : List A) → All P (sort_by before xs) → All P xs
  unfolding sort_by
  All-sort_by P before [] h = tt
  All-sort_by P before (x ∷ xs) h =
      let parts = All-insert_by P before x (sort_by before xs) h in
      (parts.0, All-sort_by P before xs parts.1)

  -- The sum of a measure over a list.
  unfoldable pub total : (A → ℕ) → List A → ℕ
  total f [] = 0
  total f (x ∷ xs) = f x + total f xs

  total-insert_by :
      (f : A → ℕ) (before : A → A → Bool) (x : A) (xs : List A)
      → total f (insert_by before x xs) ≡ f x + total f xs
  unfolding total insert_by
  total-insert_by f before x [] = refl
  total-insert_by f before x (y ∷ ys) = ground (arith, total-insert_by f before x ys)

  pub total-sort_by :
      (f : A → ℕ) (before : A → A → Bool) (xs : List A) → total f (sort_by before xs) ≡ total f xs
  unfolding total sort_by
  total-sort_by f before [] = refl
  total-sort_by f before (x ∷ xs) =
      omega (arith, total-insert_by f before x (sort_by before xs), total-sort_by f before xs)

module _ {ℓ κ} {A : Type ℓ} {B : Type κ} (f : A → B) (before : B → B → Bool) where
  map-insert_by :
      (x : A) (xs : List A)
      → map f (insert_by (λ a b. before (f a) (f b)) x xs) ≡ insert_by before (f x) (map f xs)
  unfolding insert_by
  map-insert_by x [] = refl
  map-insert_by x (y ∷ ys) = elim (Bool-cases (before (f y) (f x))) [
    | inl t ↦ rw t (ap (◌∷◌ (f y)) (map-insert_by x ys))
    | inr g ↦ rw g
  ]

  -- Sorting by a key commutes with taking the keys.
  pub map-sort_by :
      (xs : List A) → map f (sort_by (λ a b. before (f a) (f b)) xs) ≡ sort_by before (map f xs)
  unfolding sort_by
  map-sort_by [] = refl
  map-sort_by (x ∷ xs) =
      map-insert_by x (sort_by (λ a b. before (f a) (f b)) xs)
      ∙ ap (insert_by before (f x)) (map-sort_by xs)
