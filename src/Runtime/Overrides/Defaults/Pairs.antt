-- ===== src/Runtime/Overrides/Defaults/Pairs.antt =====
-- The loops over shapes of lib/Runtime/Executable.cpp accept what those of
-- lib/Runtime/GraphMetadata.cpp accept.
use deep_forge.Base.{
  ℕ, ◌≡◌, refl, ap, inl, inr, Bool, true, some, List, [], ◌∷◌, set, Bool-cases, ◌!=◌, int_eq,
  nat_eq, ==-refl, eq_of_!=, ℤ, pos_part, ◌+ℤ◌, arith,
}
use deep_forge.Import.Status.{ok}
use deep_forge.Metadata.{axis_of}
use deep_forge.Metadata.Shapes.{reduces, permutes, concatenated_extent}
use deep_forge.Runtime.Overrides.Roles.{keeps_reduction, follows_permutation, sum_extents}

!=-sym : (x y : ℤ) → (x != y) ≡ true → (y != x) ≡ true
!=-sym x y h = elim (Bool-cases (y != x)) [
  | inl differs ↦ differs
  | inr same ↦
      let equal : y ≡ x = eq_of_!= y x same in
      let test = ==-refl x in absurd (ground (arith, rw equal at h))
]

pub keeps_reduction-compiled : (x y : List ℤ) → reduces x y ≡ true → keeps_reduction x y x y ≡ true
unfolding reduces keeps_reduction
keeps_reduction-compiled [] ys h = refl
keeps_reduction-compiled (x ∷ xs) [] h = refl
keeps_reduction-compiled (x ∷ xs) (y ∷ ys) h =
    ground (arith, !=-sym x y, keeps_reduction-compiled xs ys)

pub follows_permutation-compiled :
    (x y permutation : List ℤ) (seen : List Bool)
    → permutes x y permutation seen ≡ true
    → follows_permutation x y permutation seen ≡ ok tt
unfolding permutes follows_permutation
follows_permutation-compiled x [] ps seen h = refl
follows_permutation-compiled x (y ∷ ys) [] seen h = refl
follows_permutation-compiled x (y ∷ ys) (p ∷ ps) seen h =
    ground (arith, follows_permutation-compiled x ys ps (set seen (pos_part p) true))

pub sum_extents-compiled :
    (axis : ℕ) (output : List ℤ) (inputs : List (List ℤ)) (from n : ℤ)
    → concatenated_extent axis output inputs from ≡ some n
    → sum_extents axis output inputs from ≡ ok n
unfolding concatenated_extent sum_extents
sum_extents-compiled axis output [] from n h = let same : from ≡ n = cc h in ap ok same
sum_extents-compiled axis output (input ∷ rest) from n h =
    ground (arith, sum_extents-compiled axis output rest (from +ℤ axis_of input axis) n)
