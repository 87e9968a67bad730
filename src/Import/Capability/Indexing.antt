-- ===== src/Import/Capability/Indexing.antt =====
-- The elements of a strided tensor: which index tuples it has, and at which offsets they lie.
use native.Mathlib.Nat.{mul-le-mul_right}
use deep_forge.Base.{ℕ, ◌+◌, ◌-◌, ◌*◌, ◌≤◌, ◌<◌, ◌≡◌, some, List, [], ◌∷◌, ℤ, pos_part, arith}
use deep_forge.Import.DataTypes.{DataType}
use deep_forge.Import.Capability.{data_type_storage_bits, tensor_storage_bytes}
use deep_forge.Import.Capability.Storage.{last_offset, tensor_storage_bytes-eq}

-- One coordinate for each extent, below it.
abbrev pub IsIndex : List ℤ → List ℕ → Type 0
IsIndex [] [] = Unit
IsIndex [] (i ∷ is) = ⊥
IsIndex (d ∷ ds) [] = ⊥
IsIndex (d ∷ ds) (i ∷ is) = (i < pos_part d) × IsIndex ds is

-- The offset of an element, in elements.
abbrev pub offset : List ℤ → List ℕ → ℕ
offset (s ∷ ss) (i ∷ is) = i * pos_part s + offset ss is
offset [] is = 0
offset (s ∷ ss) [] = 0

pub offset-le-last_offset :
    (ds ss : List ℤ) (is : List ℕ) → IsIndex ds is → offset ss is ≤ last_offset ds ss
unfolding last_offset
offset-le-last_offset [] [] [] h = omega arith
offset-le-last_offset [] (s ∷ ss) [] h = omega arith
offset-le-last_offset (d ∷ ds) [] (i ∷ is) h = omega arith
offset-le-last_offset (d ∷ ds) (s ∷ ss) (i ∷ is) h =
    let here : i * pos_part s ≤ (pos_part d - 1) * pos_part s =
      mul-le-mul_right (pos_part s) (omega arith) in
    omega (arith, offset-le-last_offset ds ss is h.1)
offset-le-last_offset [] ss (i ∷ is) h = absurd h
offset-le-last_offset (d ∷ ds) ss [] h = absurd h

-- The bits of every element lie within the bytes that `tensor_storage_bytes` returns.
pub tensor_storage_bytes-covers :
    (type : DataType) (ds ss : List ℤ) (is : List ℕ) {n : ℕ}
    → tensor_storage_bytes type ds ss ≡ some n
    → IsIndex ds is
    → (offset ss is + 1) * data_type_storage_bits type ≤ 8 * n
tensor_storage_bytes-covers type ds ss is {n} h at =
    let slots : (offset ss is + 1) * data_type_storage_bits type
        ≤ (last_offset ds ss + 1) * data_type_storage_bits type =
      mul-le-mul_right (data_type_storage_bits type)
        (omega (arith, offset-le-last_offset ds ss is at)) in
    ground (arith, tensor_storage_bytes-eq type ds ss)
