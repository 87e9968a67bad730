-- ===== src/Examples/Keyed.antt =====
-- Keys of tensors and names of ports.
use deep_forge.Base.{
  ℕ, ◌^◌, ◌<◌, ◌≡◌, ◌↔◌, refl, true, none, some, text, decimal, to_string, list_beq, negsuc, IsI64,
}
use deep_forge.Import.Keys.{
  is_digit, read_digits, starts_with_digit, from_chars, from_chars_i64, to_string_i64,
  parse_uid_key, is_indexed_port,
}
use deep_forge.Import.Keys.Canonical.{parse_uid_key_iff, is_indexed_port_iff}

minus_twelve : parse_uid_key (text "-12") ≡ some (negsuc 11)
unfolding parse_uid_key from_chars_i64 from_chars starts_with_digit read_digits is_digit text
    list_beq decimal
minus_twelve = refl

leading_zero : parse_uid_key (text "012") ≡ none
unfolding parse_uid_key from_chars_i64 from_chars starts_with_digit read_digits is_digit text
    list_beq decimal
leading_zero = refl

parse_uid_key_iff_example :
    (parse_uid_key (text "-12") ≡ some (negsuc 11))
    ↔ (IsI64 (negsuc 11) × (text "-12" ≡ to_string_i64 (negsuc 11)))
parse_uid_key_iff_example = parse_uid_key_iff (text "-12") (negsuc 11)

is_indexed_port_iff_example :
    (is_indexed_port (text "7") ≡ true) ↔ ((n : ℕ) × (n < 2 ^ 64) × (text "7" ≡ to_string n))
is_indexed_port_iff_example = is_indexed_port_iff (text "7")
