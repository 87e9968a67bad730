-- ===== src/Import/DataTypes.antt =====
-- include/DeepForge/Import/SerializedGraph.h: the element types of tensors, and their numbers.
use deep_forge.Base.{
  ℕ, ◌≡◌, refl, ap, ◌↔◌, Bool, true, Option, some, [], ◌∷◌, Eq, eqb, eqb→eq, eq→eqb, get_elem?,
}

pub data DataType : Type 0 where
  float32 float64 float16 int8 int32 int8x4 uint8 uint8x4 int8x32 bfloat16 int64 boolean : DataType
  fp8_e4m3 fp8_e5m2 fast_float_for_fp8 fp8_e8m0 fp4_e2m1 int4 complex_float32 complex_float64 :
      DataType

-- the enumerator's number, which the artifact format stores
unfoldable pub data_type_code : DataType → ℕ
data_type_code float32 = 0
data_type_code float64 = 1
data_type_code float16 = 2
data_type_code int8 = 3
data_type_code int32 = 4
data_type_code int8x4 = 5
data_type_code uint8 = 6
data_type_code uint8x4 = 7
data_type_code int8x32 = 8
data_type_code bfloat16 = 9
data_type_code int64 = 10
data_type_code boolean = 11
data_type_code fp8_e4m3 = 12
data_type_code fp8_e5m2 = 13
data_type_code fast_float_for_fp8 = 14
data_type_code fp8_e8m0 = 15
data_type_code fp4_e2m1 = 16
data_type_code int4 = 17
data_type_code complex_float32 = 18
data_type_code complex_float64 = 19

-- the enumerator with a number, `static_cast<DataType>` on a number that has been checked
unfoldable pub data_type_of_code : ℕ → Option DataType
data_type_of_code n =
    get_elem?
      (float32 ∷ float64 ∷ float16 ∷ int8 ∷ int32 ∷ int8x4 ∷ uint8 ∷ uint8x4 ∷ int8x32 ∷ bfloat16
        ∷ int64 ∷ boolean ∷ fp8_e4m3 ∷ fp8_e5m2 ∷ fast_float_for_fp8 ∷ fp8_e8m0 ∷ fp4_e2m1 ∷ int4
        ∷ complex_float32 ∷ complex_float64 ∷ [])
      n

pub data_type_of_code-code : (t : DataType) → data_type_of_code (data_type_code t) ≡ some t
unfolding data_type_code data_type_of_code
data_type_of_code-code float32 = refl
data_type_of_code-code float64 = refl
data_type_of_code-code float16 = refl
data_type_of_code-code int8 = refl
data_type_of_code-code int32 = refl
data_type_of_code-code int8x4 = refl
data_type_of_code-code uint8 = refl
data_type_of_code-code uint8x4 = refl
data_type_of_code-code int8x32 = refl
data_type_of_code-code bfloat16 = refl
data_type_of_code-code int64 = refl
data_type_of_code-code boolean = refl
data_type_of_code-code fp8_e4m3 = refl
data_type_of_code-code fp8_e5m2 = refl
data_type_of_code-code fast_float_for_fp8 = refl
data_type_of_code-code fp8_e8m0 = refl
data_type_of_code-code fp4_e2m1 = refl
data_type_of_code-code int4 = refl
data_type_of_code-code complex_float32 = refl
data_type_of_code-code complex_float64 = refl

unfoldable pub data_type_beq : DataType → DataType → Bool
unfolding data_type_code
data_type_beq a b = eqb (data_type_code a) (data_type_code b)

pub data_type_beq_iff : (a b : DataType) → (data_type_beq a b ≡ true) ↔ (a ≡ b)
unfolding data_type_beq
data_type_beq_iff a b = (
  λ h. cc (
    data_type_of_code-code a,
    data_type_of_code-code b,
    ap data_type_of_code (eqb→eq (data_type_code a) (data_type_code b) h),
  ),
  λ p. eq→eqb _ _ (ap data_type_code p),
)

instance abbrev pub data_type_eq : Eq DataType
data_type_eq = record { beq = data_type_beq; beq_iff = data_type_beq_iff }
