-- ===== src/Variables/Examples.antt =====
-- Integers in and out of their encoded form.
use clp_core.Base.{◌≡◌, refl, Bool, true, false, leb, ◌&&◌, Bytes, [], ◌∷◌, codes, some, arith}
use clp_core.Base.Int.{ℤ}
use clp_core.Chars.{is_decimal_digit}
use clp_core.Decimal.{to_string, int64_max, scan_digits, strtoll_from, strtoll_signed}
use clp_core.Decimal.RoundTrip.{AllDigits}
use clp_core.Variables.{
  is_var_dict_id, convert_string_to_int64, convert_string_to_representable_integer_var,
  starts_as_integer, below_dict_range,
}
use clp_core.Variables.Integer.{FitsBelow, to_string-convert, convert_underflow}

convert_42 : convert_string_to_representable_integer_var (codes "42") ≡ some (ℤ.pos 42)
unfolding convert_string_to_representable_integer_var starts_as_integer convert_string_to_int64
    below_dict_range strtoll_from strtoll_signed scan_digits is_decimal_digit
convert_42 = refl

positive-FitsBelow : FitsBelow (codes "42")
positive-FitsBelow d e digits = absurd (ground arith)

to_string-convert_example :
    (to_string (ℤ.pos 42) ≡ codes "42") × (is_var_dict_id (ℤ.pos 42) ≡ false)
to_string-convert_example = to_string-convert (codes "42") (ℤ.pos 42) positive-FitsBelow convert_42

abbrev digits : Bytes → Bool
digits [] = true
digits (c ∷ s) = leb b'0' c && (leb c b'9' && digits s)

digits-AllDigits : (s : Bytes) → digits s ≡ true → AllDigits s
digits-AllDigits [] h = tt
digits-AllDigits (c ∷ s) h = ground (arith, digits-AllDigits s)

convert_underflow_example :
    convert_string_to_representable_integer_var (codes "-9223372036854775809")
    ≡ some (ℤ.negsuc int64_max)
convert_underflow_example =
    convert_underflow b'9' (codes "223372036854775809") (omega arith) (omega arith)
      (digits-AllDigits (codes "223372036854775809") refl) (omega arith)
