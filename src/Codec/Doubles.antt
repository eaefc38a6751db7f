-- ===== src/Codec/Doubles.antt =====
-- A floating-point variable comes back as the text that it was.
use native.Mathlib.Numerals.{add-one}
use mathlib.Core.Path.{subst}
use native.Mathlib.Decide.{dec_le}
use clp_core.Logtype.Escape.{drop_cons, drop_past}
use clp_core.Base.{
  ℕ, suc, ◌+◌, ◌-◌, ◌≤◌, ◌<◌, Bool, true, false, ◌==◌, Bytes, [], ◌∷◌, ◌++◌, length, drop, byte_at,
  length-drop, length-append, take_all, some, ◌≡◌, refl, ap, sym, ◌∙◌, arith, Bool-cases, inl, inr,
  if◌then◌else◌, ==_iff,
}
use clp_core.Chars.{is_valid_variable_begin, is_valid_variable_end}
use clp_core.Decimal.RoundTrip.{AllDigits}
use clp_core.Variables.{
  convert_digits, DoubleVar, convert_string_to_representable_double_var,
  max_chars_in_representable_double_var,
}
use clp_core.Variables.Floats.{FloatLib, KeepsFifteenDigits, decimal}
use clp_core.Variables.Double.{
  Survives, Converted, convert_digits-Converted, find_decimal_point_lem, all_digits_from_lem,
}
use clp_core.Codec.{double_text}

point_ends_none : is_valid_variable_end b'.' ≡ false
unfolding is_valid_variable_end
point_ends_none = refl

point_begins_none : is_valid_variable_begin b'.' ≡ false
unfolding is_valid_variable_begin
point_begins_none = refl

nul_begins_none : is_valid_variable_begin 0 ≡ false
unfolding is_valid_variable_begin
nul_begins_none = refl

nil_front : (xs : Bytes) {ys : Bytes} → length xs < 1 → xs ++ ys ≡ ys
nil_front [] h = refl
nil_front (x ∷ xs) h = absurd (omega arith)

-- A text with a sign or none, digits, a point and digits, and what was stored of it.
pub record IsDecimalOf (lib : FloatLib) (value : Bytes) (d : DoubleVar) : Type 0 where
  pub negative : Bool
  pub whole : Bytes
  pub fraction : Bytes
  pub text : value ≡ decimal negative whole fraction
  pub whole_digits : AllDigits whole
  pub fraction_digits : AllDigits fraction
  pub whole_some : 1 ≤ length whole
  pub fraction_some : 1 ≤ length fraction
  pub integer_digits : d.num_integer_digits ≡ length whole
  pub fractional_digits : d.num_fractional_digits ≡ length fraction
  pub total : length whole + length fraction ≤ 15
  pub bits_are : (lib.strtod value).bits ≡ d.bits

length-decimal :
    (negative : Bool) (whole fraction : Bytes)
    → length (decimal negative whole fraction) ≡ (
        if negative
        then length whole + 1 + length fraction + 1
        else length whole + 1 + length fraction)
length-decimal true whole fraction = omega (arith, length-append whole (b'.' ∷ fraction))
length-decimal false whole fraction = omega (arith, length-append whole (b'.' ∷ fraction))

length-decimal-le :
    (negative : Bool) (whole fraction : Bytes)
    → length whole + length fraction ≤ 15
    → length (decimal negative whole fraction) ≤ max_chars_in_representable_double_var
length-decimal-le true whole fraction h = omega (arith, length-append whole (b'.' ∷ fraction))
length-decimal-le false whole fraction h = omega (arith, length-append whole (b'.' ∷ fraction))

module _ (lib : FloatLib) (laws : KeepsFifteenDigits lib) where
  double_text-IsDecimalOf :
      (value : Bytes) (d : DoubleVar)
      → IsDecimalOf lib value d
      → double_text lib d.num_integer_digits d.num_fractional_digits d.bits ≡ value
  unfolding double_text
  double_text-IsDecimalOf value d s =
      let n = s.negative in
      let w = s.whole in
      let f = s.fraction in
      let (_, _, signed) =
        laws.reads n w f s.whole_digits s.fraction_digits s.whole_some s.fraction_some s.total in
      let printed =
        laws.prints n w f s.whole_digits s.fraction_digits s.whole_some s.fraction_some s.total in
      let bits : d.bits ≡ (lib.strtod (decimal n w f)).bits =
        sym s.bits_are ∙ ap (λ (t : Bytes). (lib.strtod t).bits) s.text in
      rw
        (
          s.integer_digits,
          s.fractional_digits,
          bits,
          signed,
          ← length-decimal n w f,
          printed,
          s.text,
        )
        (take_all max_chars_in_representable_double_var (decimal n w f)
          (length-decimal-le n w f s.total))

  -- The part of a text behind the sign, cut at the point.
  record Cut (value : Bytes) (first : ℕ) (d : DoubleVar) : Type 0 where
    whole : Bytes
    fraction : Bytes
    rest : drop first value ≡ whole ++ b'.' ∷ fraction
    whole_digits : AllDigits whole
    fraction_digits : AllDigits fraction
    integer_digits : d.num_integer_digits ≡ length whole
    fractional_digits : d.num_fractional_digits ≡ length fraction
    size : first + length whole + 1 + length fraction ≡ length value
    bits_are : (lib.strtod value).bits ≡ d.bits

  Converted-Cut :
      (value : Bytes) (first : ℕ) (d : DoubleVar)
      → first ≤ length value
      → Converted lib value first d
      → Cut value first d
  Converted-Cut value first d h c =
      let p = c.point in
      let (whole, digits, at, inside, rest) =
        find_decimal_point_lem value first (length value - first) p (omega arith) c.point_found in
      let behind =
        all_digits_from_lem value (p + 1) (length value - (p + 1)) (omega arith) c.rest_digits in
      let same : drop (p + 1) value ≡ drop (suc p) value =
        ap (λ (n : ℕ). drop n value) (add-one p) in
      record {
        whole = whole;
        fraction = drop (suc p) value;
        rest = rest;
        whole_digits = digits;
        fraction_digits = rw same at behind;
        integer_digits = omega (arith, c.integer_digits);
        fractional_digits = omega (arith, c.fractional_digits, length-drop (suc p) value);
        size = omega (arith, length-drop (suc p) value);
        bits_are = c.bits_are;
      }

  -- The last byte is a digit, since a variable does not end in a point.
  fraction_nonempty :
      (value : Bytes) (first : ℕ) (d : DoubleVar)
      → Survives value
      → (cut : Cut value first d) → 1 ≤ length cut.whole
      → 1 ≤ length cut.fraction
  fraction_nonempty value first d v cut h =
      let q : ℕ = first + length cut.whole in
      let point = (drop_cons value q (drop_past value first cut.whole cut.rest)).0 in
      elim (dec_le 1 (length cut.fraction)) [
        | yes some_digit ↦ some_digit
        | no none_left ↦
            let last : length value - 1 ≡ q = omega (arith, cut.size) in
            let at_last : byte_at value (length value - 1) ≡ b'.' =
              ap (byte_at value) last ∙ point in
            elim v.ends [
              | inl one ↦ absurd (omega (arith, cut.size))
              | inr ends ↦ absurd (ground (arith, ends, at_last, point_ends_none))
            ]
      ]

  IsDecimalOf-Cut :
      (negative : Bool) (value : Bytes) (first : ℕ) (d : DoubleVar)
      → Survives value
      → (cut : Cut value first d) → value ≡ decimal negative cut.whole cut.fraction
      → 1 ≤ length cut.whole
      → length cut.whole + length cut.fraction ≤ 15
      → IsDecimalOf lib value d
  IsDecimalOf-Cut negative value first d v cut text some_digit total = record {
    negative = negative;
    whole = cut.whole;
    fraction = cut.fraction;
    text = text;
    whole_digits = cut.whole_digits;
    fraction_digits = cut.fraction_digits;
    whole_some = some_digit;
    fraction_some = fraction_nonempty value first d v cut some_digit;
    integer_digits = cut.integer_digits;
    fractional_digits = cut.fractional_digits;
    total = total;
    bits_are = cut.bits_are;
  }

  -- With no sign: the first byte is no point, since none begins a variable.
  unsigned-IsDecimalOf :
      (value : Bytes) (d : DoubleVar)
      → Survives value
      → length value ≤ 16
      → Cut value 0 d
      → IsDecimalOf lib value d
  unsigned-IsDecimalOf value d v short cut =
      IsDecimalOf-Cut false value 0 d v cut cut.rest
        (elim (dec_le 1 (length cut.whole)) [
          | yes some_digit ↦ some_digit
          | no none_left ↦
              let at : byte_at value 0 ≡ b'.' =
                (drop_cons value 0 (cut.rest ∙ nil_front cut.whole (omega arith))).0 in
              absurd (ground (arith, v.begins, at, point_begins_none))
        ])
        (omega (arith, cut.size))

  minus-IsDecimalOf :
      (t : Bytes) (d : DoubleVar)
      → Survives (b'-' ∷ t)
      → length t ≤ 16
      → Cut (b'-' ∷ t) 1 d
      → IsDecimalOf lib (b'-' ∷ t) d
  minus-IsDecimalOf t d v short cut =
      IsDecimalOf-Cut true (b'-' ∷ t) 1 d v cut (ap (◌∷◌ b'-') cut.rest)
        (elim (dec_le 1 (length cut.whole)) [
          | yes some_digit ↦ some_digit
          | no none_left ↦ absurd (
              v.no_bare_point cut.fraction
                (ap (◌∷◌ b'-') (cut.rest ∙ nil_front cut.whole (omega arith))))
        ])
        (omega (arith, cut.size))

  convert_minus :
      (t : Bytes) (d : DoubleVar)
      → convert_string_to_representable_double_var lib (b'-' ∷ t) ≡ some d
      → (length t ≤ 16) × (convert_digits lib (b'-' ∷ t) 1 ≡ some d)
  unfolding convert_string_to_representable_double_var
  convert_minus t d h = (ground arith, ground arith)

  convert_plus :
      (c : ℕ) (t : Bytes) (d : DoubleVar)
      → (b'-' == c) ≡ false
      → convert_string_to_representable_double_var lib (c ∷ t) ≡ some d
      → (length (c ∷ t) ≤ 16) × (convert_digits lib (c ∷ t) 0 ≡ some d)
  unfolding convert_string_to_representable_double_var
  convert_plus c t d plus h = (ground arith, ground arith)

  convert-IsDecimalOf :
      (value : Bytes) (d : DoubleVar)
      → Survives value
      → convert_string_to_representable_double_var lib value ≡ some d
      → IsDecimalOf lib value d
  convert-IsDecimalOf [] d v h = absurd (ground (arith, v.begins, nul_begins_none))
  convert-IsDecimalOf (c ∷ t) d v h = elim (Bool-cases (b'-' == c)) [
    | inl minus ↦
        let e : b'-' ≡ c = (==_iff b'-' c).0 minus in
        subst
          (λ (n : ℕ).
            Survives (n ∷ t)
            → convert_string_to_representable_double_var lib (n ∷ t) ≡ some d
            → IsDecimalOf lib (n ∷ t) d)
          e
          (λ v' h'.
            let (short, converted) = convert_minus t d h' in
            minus-IsDecimalOf t d v' short (
              Converted-Cut (b'-' ∷ t) 1 d (omega arith)
                (convert_digits-Converted lib (b'-' ∷ t) 1 d converted)))
          v h
    | inr plus ↦
        let (short, converted) = convert_plus c t d plus h in
        unsigned-IsDecimalOf (c ∷ t) d v short (
          Converted-Cut (c ∷ t) 0 d (omega arith)
            (convert_digits-Converted lib (c ∷ t) 0 d converted))
  ]

  -- A text accepted as a floating-point variable has 15 digits at most, and decoding the bits and the
  -- counts that are stored of it gives it back.
  pub double_text-convert :
      (value : Bytes) (d : DoubleVar)
      → Survives value
      → convert_string_to_representable_double_var lib value ≡ some d
      → (double_text lib d.num_integer_digits d.num_fractional_digits d.bits ≡ value)
        × (d.num_integer_digits + d.num_fractional_digits ≤ 15)
  double_text-convert value d v h =
      let s = convert-IsDecimalOf value d v h in
      (
        double_text-IsDecimalOf value d s,
        omega (arith, s.integer_digits, s.fractional_digits, s.total),
      )
