-- ===== src/Chars.antt =====
-- The character classes at the top of src/Utils.cpp. A char is its byte; the bytes from 128 on, which
-- a signed char makes negative, fall in none of the ranges either way.
use Prim.Native.Nat.{ℕ, suc}
use clp_core.Base.{
  Bool, true, false, not, ◌&&◌, ◌||◌, ◌==◌, leb, ltb, if◌then◌else◌, Bytes, byte_at, ◌-◌,
}

-- `lo <= c && c <= hi`
abbrev pub in_range : ℕ → ℕ → ℕ → Bool
in_range lo hi c = leb lo c && leb c hi

unfoldable pub is_delim : ℕ → Bool
is_delim c = not (
    c == b'+'
    || in_range b'-' b'9' c
    || in_range b'A' b'Z' c
    || c == b'\\'
    || c == b'_'
    || in_range b'a' b'z' c)

unfoldable pub is_decimal_digit : ℕ → Bool
is_decimal_digit c = in_range b'0' b'9' c

abbrev pub is_alnum : ℕ → Bool
is_alnum c = in_range b'0' b'9' c || in_range b'A' b'Z' c || in_range b'a' b'z' c

unfoldable pub is_valid_variable_begin : ℕ → Bool
is_valid_variable_begin c = is_alnum c || (b'+' == c || b'-' == c)

unfoldable pub is_valid_variable_end : ℕ → Bool
is_valid_variable_end c = is_alnum c

unfoldable pub is_wildcard : ℕ → Bool
is_wildcard c = b'?' == c || b'*' == c

unfoldable pub is_hex_digit : ℕ → Bool
is_hex_digit c = in_range b'a' b'f' c || in_range b'A' b'F' c || in_range b'0' b'9' c

-- The loop over `[begin_pos, end_pos)`, on the rounds left.
all_hex_from : Bytes → ℕ → ℕ → Bool
all_hex_from s i Prim.Native.Nat.zero = true
all_hex_from s i (suc n) = is_hex_digit (byte_at s i) && all_hex_from s (suc i) n

-- `end_pos - begin_pos` is computed for `begin_pos <= end_pos` alone, and does not wrap there.
unfoldable pub could_be_multi_digit_hex_value : Bytes → ℕ → ℕ → Bool
unfolding all_hex_from is_hex_digit
could_be_multi_digit_hex_value s begin_pos end_pos =
    if ltb (end_pos - begin_pos) 2 then false else all_hex_from s begin_pos (end_pos - begin_pos)
