-- ===== src/Variables/Double.antt =====
-- Floating-point variables: what `convert_string_to_representable_double_var` accepts is printed back
-- as it was, where a digit stands on either side of the point.
use clp_core.Base.{
  ℕ, zero, suc, ◌+◌, ◌-◌, ◌≤◌, ◌<◌, true, ◌==◌, Bytes, [], ◌∷◌, ◌++◌, length, drop, byte_at,
  drop_at, drop_all, some, ◌≡◌, ◌≢◌, ◌⊎◌, ap, ◌∙◌, arith, Bool-cases, Option-cases, inl, inr,
}
use clp_core.Base.Int.{ℤ}
use clp_core.Chars.{is_decimal_digit, is_valid_variable_begin, is_valid_variable_end}
use clp_core.Decimal.RoundTrip.{AllDigits}
use clp_core.Variables.{
  find_decimal_point, all_digits_from, convert_digits, convert_string_to_double, DoubleVar,
}
use clp_core.Variables.Floats.{FloatLib}
use clp_core.Variables.Integer.{FitsBelow}

-- The text of a variable that survives encoding: its first and last byte are as the tokenizer leaves
-- them, no point stands right behind a minus, and an integer is not below the least `int64_t`.
pub record Survives (value : Bytes) : Type 0 where
  pub begins : is_valid_variable_begin (byte_at value 0) ≡ true
  pub ends : (length value ≡ 1) ⊎ (is_valid_variable_end (byte_at value (length value - 1)) ≡ true)
  pub no_bare_point : (t : Bytes) → value ≢ b'-' ∷ b'.' ∷ t
  pub fits : FitsBelow value

digit_of : (c : ℕ) → is_decimal_digit c ≡ true → (b'0' ≤ c) × (c ≤ b'9')
unfolding is_decimal_digit
digit_of c h = ground arith

-- The point that the loop finds, with digits only in front of it.
pub find_decimal_point_lem :
    (s : Bytes) (i n p : ℕ)
    → i + n ≡ length s
    → find_decimal_point s i n ≡ some p
    → (whole : Bytes) × AllDigits whole
      × (i + length whole ≡ p)
      × (p < length s)
      × (drop i s ≡ whole ++ b'.' ∷ drop (suc p) s)
unfolding find_decimal_point
find_decimal_point_lem s i zero p e h = absurd (ground arith)
find_decimal_point_lem s i (suc n) p e h = elim (Bool-cases (b'.' == byte_at s i)) [
  | inl point ↦
      let here : i ≡ p = ground arith in
      ([], tt, omega arith, omega arith, drop_at s i (omega arith) ∙ ground (arith, here))
  | inr other ↦
      let digit : is_decimal_digit (byte_at s i) ≡ true = ground arith in
      let (whole, digits, at, inside, rest) =
        find_decimal_point_lem s (suc i) n p (omega arith) (ground arith) in
      let (lo, hi) = digit_of (byte_at s i) digit in
      (
        byte_at s i ∷ whole,
        (lo, hi, digits),
        omega arith,
        inside,
        drop_at s i (omega arith) ∙ ap (◌∷◌ (byte_at s i)) rest,
      )
]

pub all_digits_from_lem :
    (s : Bytes) (i n : ℕ) → i + n ≡ length s → all_digits_from s i n ≡ true → AllDigits (drop i s)
unfolding all_digits_from
all_digits_from_lem s i zero e h = rw (drop_all i s (omega arith)) tt
all_digits_from_lem s i (suc n) e h =
    let digit : is_decimal_digit (byte_at s i) ≡ true = ground arith in
    let (lo, hi) = digit_of (byte_at s i) digit in
    rw (drop_at s i (omega arith))
      (lo, hi, all_digits_from_lem s (suc i) n (omega arith) (ground arith))

module _ (lib : FloatLib) where
  convert_string_to_double_inv :
      (value : Bytes) (bits : ℤ)
      → convert_string_to_double lib value ≡ some bits
      → (lib.strtod value).bits ≡ bits
  unfolding convert_string_to_double
  convert_string_to_double_inv [] bits h = cc
  convert_string_to_double_inv (c ∷ s) bits h = ground arith

  -- A conversion of the digits that succeeds, taken apart.
  pub record Converted (value : Bytes) (first : ℕ) (d : DoubleVar) : Type 0 where
    pub point : ℕ
    pub point_found : find_decimal_point value first (length value - first) ≡ some point
    pub rest_digits : all_digits_from value (point + 1) (length value - (point + 1)) ≡ true
    pub bits_are : (lib.strtod value).bits ≡ d.bits
    pub integer_digits : d.num_integer_digits ≡ point - first
    pub fractional_digits : d.num_fractional_digits ≡ length value - (point + 1)

  pub convert_digits-Converted :
      (value : Bytes) (first : ℕ) (d : DoubleVar)
      → convert_digits lib value first ≡ some d
      → Converted value first d
  unfolding convert_digits
  convert_digits-Converted value first d h =
      elim (Option-cases (find_decimal_point value first (length value - first))) [
        | inl e ↦ absurd (ground arith)
        | inr (p, e) ↦ elim (Option-cases (convert_string_to_double lib value)) [
          | inl e' ↦ absurd (ground arith)
          | inr (bits, e') ↦ record {
            point = p;
            point_found = e;
            rest_digits = ground arith;
            bits_are = convert_string_to_double_inv value bits e' ∙ ground arith;
            integer_digits = ground arith;
            fractional_digits = ground arith;
          }
        ]
      ]
