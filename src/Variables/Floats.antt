-- ===== src/Variables/Floats.antt =====
-- The C library's conversions between texts and doubles, as a parameter: a double is the 64-bit
-- integer that has its bits.
use clp_core.Base.{ℕ, ◌+◌, ◌≤◌, Bool, true, false, Bytes, [], ◌∷◌, ◌++◌, length, ◌≡◌}
use clp_core.Base.Int.{ℤ}
use clp_core.Decimal.RoundTrip.{AllDigits}

pub record Strtod : Type 0 where
  pub bits : ℤ
  pub consumed : ℕ
  pub range_error : Bool

-- `print_fixed width precision` is `snprintf` with the format "%0*.*f".
pub record FloatLib : Type 0 where
  pub strtod : Bytes → Strtod
  pub is_zero : ℤ → Bool
  pub signbit : ℤ → Bool
  pub print_fixed : ℕ → ℕ → ℤ → Bytes

abbrev pub sign_of : Bool → Bytes
sign_of true = b'-' ∷ []
sign_of false = []

-- A decimal text: a sign or none, digits, a point, digits.
abbrev pub decimal : Bool → Bytes → Bytes → Bytes
decimal negative whole fraction = sign_of negative ++ (whole ++ b'.' ∷ fraction)

-- What IEEE 754 and the C standard say of decimal texts of at most 15 digits (`DBL_DIG`) with one at
-- least on either side of the point: they are read whole and in range, the sign is kept, and printing
-- with the same width and precision gives them back.
pub record KeepsFifteenDigits (lib : FloatLib) : Type 0 where
  pub reads :
      (negative : Bool) (whole fraction : Bytes)
      → AllDigits whole
      → AllDigits fraction
      → 1 ≤ length whole
      → 1 ≤ length fraction
      → length whole + length fraction ≤ 15
      → ((lib.strtod (decimal negative whole fraction)).range_error ≡ false)
        × ((lib.strtod (decimal negative whole fraction)).consumed
            ≡ length (decimal negative whole fraction))
        × (lib.signbit (lib.strtod (decimal negative whole fraction)).bits ≡ negative)
  pub prints :
      (negative : Bool) (whole fraction : Bytes)
      → AllDigits whole
      → AllDigits fraction
      → 1 ≤ length whole
      → 1 ≤ length fraction
      → length whole + length fraction ≤ 15
      → lib.print_fixed
          (length (decimal negative whole fraction))
          (length fraction)
          (lib.strtod (decimal negative whole fraction)).bits
        ≡ decimal negative whole fraction
