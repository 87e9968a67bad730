-- ===== src/Import/Status.antt =====
-- include/DeepForge/Import/Status.h, and `error_code_name` of lib/Import/SerializedGraphImporter.cpp.
-- A function that returns a Status and writes an output on success returns a `Result` here: the
-- output, or the error with the output left as it was.
use deep_forge.Base.{
  Option, none, some, ◌≡◌, refl, ◌⊎◌, inl, inr, Bool, true, false, ◌++◌, [], Text, text, is_empty,
  if◌then◌else◌,
}

pub data ErrorCode : Type 0 where
  ok_code invalid_argument io_error parse_error schema_version_mismatch : ErrorCode
  frontend_version_mismatch missing_field invalid_field_type invalid_value unsupported_node :
      ErrorCode
  unsupported_data_type unsupported_execution_metadata duplicate_uid missing_uid invalid_layout :
      ErrorCode
  invalid_shape dimension_overflow invalid_variant_pack unsupported_cpu_feature : ErrorCode
  graph_execution_failed unsupported_operation : ErrorCode

unfoldable pub error_code_name : ErrorCode → Text
unfolding text
error_code_name ok_code = text "DFE_OK"
error_code_name invalid_argument = text "DFE_INVALID_ARGUMENT"
error_code_name io_error = text "DFE_IO_ERROR"
error_code_name parse_error = text "DFE_PARSE_ERROR"
error_code_name schema_version_mismatch = text "DFE_SCHEMA_VERSION_MISMATCH"
error_code_name frontend_version_mismatch = text "DFE_FRONTEND_VERSION_MISMATCH"
error_code_name missing_field = text "DFE_MISSING_FIELD"
error_code_name invalid_field_type = text "DFE_INVALID_FIELD_TYPE"
error_code_name invalid_value = text "DFE_INVALID_VALUE"
error_code_name unsupported_node = text "DFE_UNSUPPORTED_NODE"
error_code_name unsupported_data_type = text "DFE_UNSUPPORTED_DATA_TYPE"
error_code_name unsupported_execution_metadata = text "DFE_UNSUPPORTED_EXECUTION_METADATA"
error_code_name duplicate_uid = text "DFE_DUPLICATE_UID"
error_code_name missing_uid = text "DFE_MISSING_UID"
error_code_name invalid_layout = text "DFE_INVALID_LAYOUT"
error_code_name invalid_shape = text "DFE_INVALID_SHAPE"
error_code_name dimension_overflow = text "DFE_DIMENSION_OVERFLOW"
error_code_name invalid_variant_pack = text "DFE_INVALID_VARIANT_PACK"
error_code_name unsupported_cpu_feature = text "DFE_UNSUPPORTED_CPU_FEATURE"
error_code_name graph_execution_failed = text "DFE_GRAPH_EXECUTION_FAILED"
error_code_name unsupported_operation = text "DFE_UNSUPPORTED_OPERATION"

pub record Error : Type 0 where
  pub code : ErrorCode
  pub message : Text

-- A part of a message that is left out with its separator when it is empty.
part : Text → Text
unfolding text
part t = if is_empty t then [] else text ": " ++ t

-- The function `fail` that each component has: the code's name, the subject, the detail.
unfoldable pub fail : ErrorCode → Text → Text → Error
unfolding error_code_name part
fail code subject detail = record {
  code = code;
  message = error_code_name code ++ (part subject ++ part detail);
}

pub data Result {ℓ} (A : Type ℓ) : Type ℓ where
  err : Error → Result A
  ok : A → Result A

abbrev pub Status : Type 0
Status = Result (Unit {0})

infixl 5 ◌>>◌ ◌>>=◌
abbrev pub ◌>>◌ {ℓ} : {B : Type ℓ} → Status → Result B → Result B
err failure >> after = err failure
ok u >> after = after

abbrev pub ◌>>=◌ {ℓ κ} : {A : Type ℓ} {B : Type κ} → Result A → (A → Result B) → Result B
err failure >>= step = err failure
ok value >>= step = step value

-- `if (condition) return fail(..)`
abbrev pub reject : Bool → Error → Status
reject true e = err e
reject false e = ok tt

-- `if (!computed) return fail(..)`
abbrev pub or_fail {ℓ} : {A : Type ℓ} → Option A → Error → Result A
or_fail none e = err e
or_fail (some a) e = ok a

module _ {ℓ} {A : Type ℓ} where
  pub Result-cases : (r : Result A) → ((a : A) × (r ≡ ok a)) ⊎ ((e : Error) × (r ≡ err e))
  Result-cases (ok a) = inl (a, refl)
  Result-cases (err e) = inr (e, refl)

  -- A successful chain, taken apart.
  pub >>=-eq-ok {κ} :
      {B : Type κ} (first : Result A) (step : A → Result B) {out : B}
      → (first >>= step) ≡ ok out
      → (value : A) × (first ≡ ok value) × (step value ≡ ok out)
  >>=-eq-ok (err failure) step h = cc
  >>=-eq-ok (ok value) step h = (value, refl, h)

  pub >>-eq-ok : (m : Status) (k : Result A) {a : A} → (m >> k) ≡ ok a → (m ≡ ok tt) × (k ≡ ok a)
  >>-eq-ok (err e) k h = cc
  >>-eq-ok (ok u) k h = (refl, h)

  pub reject-eq-ok :
      (b : Bool) (e : Error) (k : Result A) {a : A}
      → (reject b e >> k) ≡ ok a
      → (b ≡ false) × (k ≡ ok a)
  reject-eq-ok true e k h = cc
  reject-eq-ok false e k h = (refl, h)
