-- ===== src/Decimal.antt =====
-- What the program uses of the C and C++ libraries for decimal integers: `strtoll` with base 10 and
-- `std::to_string` of an `int64_t`. Proofs are in the child modules.
pub mod RoundTrip
use clp_core.Base.{
  ℕ, zero, suc, ◌+◌, ◌-◌, ◌*◌, ◌/◌, ◌%◌, ◌^◌, Bool, true, false, ◌&&◌, ◌||◌, ◌==◌, leb, ltb,
  if◌then◌else◌, Bytes, [], ◌∷◌, length,
}
use clp_core.Base.Int.{ℤ, pos, negsuc}
use clp_core.Chars.{is_decimal_digit, in_range}

abbrev pub int64_max : ℕ
int64_max = 0x7FFF_FFFF_FFFF_FFFF

-- The integer -n.
abbrev pub negated : ℕ → ℤ
negated zero = pos 0
negated (suc n) = negsuc n

pub record Scan : Type 0 where
  pub value : ℕ
  pub count : ℕ

-- The longest prefix of digits: the number that it stands for behind `acc`, and its length.
unfoldable pub scan_digits : Bytes → ℕ → Scan
unfolding is_decimal_digit
scan_digits [] acc = record { value = acc; count = 0 }
scan_digits (c ∷ s) acc =
    let rest = scan_digits s (acc * 10 + (c - b'0')) in
    if is_decimal_digit c
    then record { value = rest.value; count = suc rest.count }
    else record { value = acc; count = 0 }

pub record Strtoll : Type 0 where
  pub result : ℤ
  pub consumed : ℕ
  pub range_error : Bool

-- Out of range the result is the nearest bound, with `ERANGE`; with no digit nothing is consumed.
unfoldable pub strtoll_signed : Bool → Scan → ℕ → Strtoll
strtoll_signed negative d skipped =
    if d.count == 0
    then record { result = pos 0; consumed = 0; range_error = false }
    else if negative
    then (if ltb (int64_max + 1) d.value
        then record { result = negsuc int64_max; consumed = skipped + d.count; range_error = true }
        else record { result = negated d.value; consumed = skipped + d.count; range_error = false })
    else if ltb int64_max d.value
    then record { result = pos int64_max; consumed = skipped + d.count; range_error = true }
    else record { result = pos d.value; consumed = skipped + d.count; range_error = false }

-- White space, a sign, digits.
unfoldable pub strtoll_from : Bytes → ℕ → Strtoll
unfolding strtoll_signed
strtoll_from [] skipped = strtoll_signed false (scan_digits [] 0) skipped
strtoll_from (c ∷ s) skipped =
    let spaced = strtoll_from s (suc skipped) in
    if in_range 9 13 c || c == b' '
    then spaced
    else if c == b'-'
    then strtoll_signed true (scan_digits s 0) (suc skipped)
    else if c == b'+'
    then strtoll_signed false (scan_digits s 0) (suc skipped)
    else strtoll_signed false (scan_digits (c ∷ s) 0) skipped

abbrev pub strtoll : Bytes → Strtoll
strtoll s = strtoll_from s 0

-- The digits of `n` in front of `out`, on fuel.
unfoldable pub print_digits : ℕ → ℕ → Bytes → Bytes
print_digits zero n out = out
print_digits (suc fuel) n out =
    let rest = print_digits fuel (n / 10) ((b'0' + n % 10) ∷ out) in
    if ltb n 10 then (b'0' + n) ∷ out else rest

-- A number has at most as many digits as it counts, and one more.
unfoldable pub nat_to_string : ℕ → Bytes
nat_to_string n = print_digits (suc n) n []

unfoldable pub to_string : ℤ → Bytes
unfolding nat_to_string
to_string (pos n) = nat_to_string n
to_string (negsuc n) = b'-' ∷ nat_to_string (suc n)
