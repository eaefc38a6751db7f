-- ===== src/Variables.antt =====
-- src/EncodedVariableInterpreter.cpp, and the two conversions of src/Utils.cpp that it calls: the
-- variables of a message as 64-bit integers, and back. A double is its bit pattern, as the source
-- stores it; the C library's `strtod` and `snprintf` are a parameter.
pub mod Floats
pub mod Integer
pub mod Double
mod Examples
use clp_core.Base.{
  ℕ, zero, suc, ◌+◌, ◌-◌, ◌%◌, Bool, true, false, not, ◌&&◌, ◌||◌, ◌==◌, ltb, leb, if◌then◌else◌,
  Bytes, List, [], ◌∷◌, ◌++◌, length, byte_at, Option, none, some, Outcome, ok, throws, no_fuel,
  ErrorCode, ◌>>=◌,
}
use clp_core.Base.Int.{ℤ, pos, negsuc, leb_ℤ, ltb_ℤ, eqb_ℤ}
use clp_core.Chars.{is_decimal_digit}
use clp_core.Decimal.{strtoll, to_string, int64_max}
use clp_core.Logtype.{
  LogtypeEntry, clear, add_non_double_var, add_double_var, max_digits_in_representable_double_var,
}
use clp_core.Logtype.NextVar.{Parsing, parse_next_var}
use clp_core.Dictionary.Variable.{VarDictWriter, Added, add_occurrence}
use Floats.{FloatLib, Strtod}

abbrev pub var_dict_id_range_begin : ℕ
var_dict_id_range_begin = 0x4000_0000_0000_0000

abbrev pub var_dict_id_range_end : ℕ
var_dict_id_range_end = 0x7FFF_FFFF_FFFF_FFFF

-- 1 sign, the digits, 1 decimal point
abbrev pub max_chars_in_representable_double_var : ℕ
max_chars_in_representable_double_var = max_digits_in_representable_double_var + 2

-- A 64-bit pattern read as a signed integer.
abbrev pub as_int64 : ℕ → ℤ
as_int64 n = if leb n int64_max then pos n else negsuc (0xFFFF_FFFF_FFFF_FFFF - n)

abbrev pub two_64 : ℕ
two_64 = 0x1_0000_0000_0000_0000

unfoldable pub is_var_dict_id : ℤ → Bool
is_var_dict_id v = leb_ℤ (pos var_dict_id_range_begin) v && ltb_ℤ v (pos var_dict_id_range_end)

unfoldable pub encode_var_dict_id : ℕ → ℤ
encode_var_dict_id id = as_int64 ((id + var_dict_id_range_begin) % two_64)

-- Used on the values in the range of the dictionary variables; the others wrap.
unfoldable pub decode_var_dict_id : ℤ → ℕ
decode_var_dict_id (pos n) = (n + two_64 - var_dict_id_range_begin) % two_64
decode_var_dict_id (negsuc n) =
    (0xFFFF_FFFF_FFFF_FFFF - n + two_64 - var_dict_id_range_begin) % two_64

-- The `&&` of the source: a result at the upper bound with `ERANGE` is refused.
unfoldable pub convert_string_to_int64 : Bytes → Option ℤ
convert_string_to_int64 [] = none
convert_string_to_int64 (c ∷ s) =
    let r = strtoll (c ∷ s) in
    if not (r.consumed == length (c ∷ s)) || (eqb_ℤ (pos int64_max) r.result && r.range_error)
    then none
    else some r.result

-- The checks in front of the conversion: an integer with no padding and no positive sign.
unfoldable pub starts_as_integer : Bytes → Bool
starts_as_integer [] = false
starts_as_integer (c ∷ s) =
    if b'-' == c
    then not (length s == 0 || ltb (byte_at s 0) b'1' || ltb b'9' (byte_at s 0))
    else not (ltb c b'0' || ltb b'9' c) && not (ltb 0 (length s) && b'0' == c)

unfoldable pub below_dict_range : ℤ → Option ℤ
below_dict_range v = if leb_ℤ (pos var_dict_id_range_begin) v then none else some v

unfoldable pub convert_string_to_representable_integer_var : Bytes → Option ℤ
convert_string_to_representable_integer_var value =
    if not (starts_as_integer value)
    then none
    else elim (convert_string_to_int64 value) [ none ↦ none | some v ↦ below_dict_range v ]

module _ (lib : FloatLib) where
  open lib use {strtod, is_zero, signbit, print_fixed}

  unfoldable pub convert_string_to_double : Bytes → Option ℤ
  convert_string_to_double [] = none
  convert_string_to_double (c ∷ s) =
      let r = strtod (c ∷ s) in
      if r.range_error || (is_zero r.bits && ltb r.consumed (length (c ∷ s)))
      then none
      else some r.bits

-- The loop for the decimal point, on the rounds left; `none` where it meets another byte that is no
-- digit, or no point at all.
unfoldable pub find_decimal_point : Bytes → ℕ → ℕ → Option ℕ
find_decimal_point s i zero = none
find_decimal_point s i (suc n) =
    let rest = find_decimal_point s (suc i) n in
    if b'.' == byte_at s i then some i else if is_decimal_digit (byte_at s i) then rest else none

unfoldable pub all_digits_from : Bytes → ℕ → ℕ → Bool
all_digits_from s i zero = true
all_digits_from s i (suc n) = is_decimal_digit (byte_at s i) && all_digits_from s (suc i) n

pub record DoubleVar : Type 0 where
  pub num_integer_digits : ℕ
  pub num_fractional_digits : ℕ
  pub bits : ℤ

module _ (lib : FloatLib) where
  -- Behind the check of the length. The counts are at most 17, so that `uint8_t` holds them.
  unfoldable pub convert_digits : Bytes → ℕ → Option DoubleVar
  convert_digits value first_digit_pos =
      let len = length value in
      elim (find_decimal_point value first_digit_pos (len - first_digit_pos)) [
        | none ↦ none
        | some point ↦
            if not (all_digits_from value (point + 1) (len - (point + 1)))
            then none
            else elim (convert_string_to_double lib value) [
              | none ↦ none
              | some bits ↦ some (record {
                num_integer_digits = point - first_digit_pos;
                num_fractional_digits = len - (point + 1);
                bits = bits;
              })
            ]
      ]

  unfoldable pub convert_string_to_representable_double_var : Bytes → Option DoubleVar
  convert_string_to_representable_double_var value =
      let len = length value in
      if ltb 0 len && b'-' == byte_at value 0
      then (if ltb max_chars_in_representable_double_var len then none else convert_digits value 1)
      else if ltb (max_chars_in_representable_double_var - 1) len
      then none
      else convert_digits value 0
