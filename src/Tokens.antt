-- ===== src/Tokens.antt =====
-- Cutting a message into variables: `get_bounds_of_next_var` and `trim_punctuation_of_variable` of
-- src/Utils.cpp. The reference parameters are the fields of a cursor.
pub mod Scan
pub mod Bounds
pub mod Potential
mod PotentialScan
pub mod Potentials
use clp_core.Base.{
  ℕ, zero, suc, ◌+◌, ◌-◌, Bool, true, false, not, ◌&&◌, ◌||◌, ◌==◌, leb, ltb, if◌then◌else◌, Bytes,
  length, byte_at, npos, Outcome, ok, no_fuel,
}
use clp_core.Chars.{
  is_delim, is_decimal_digit, is_valid_variable_begin, is_valid_variable_end,
  could_be_multi_digit_hex_value,
}

pub record Cursor : Type 0 where
  pub token_end_pos : ℕ
  pub begin_pos : ℕ
  pub end_pos : ℕ

-- `for (; i < end && !stop(s[i]); ++i)`, on the rounds left.
unfoldable pub scan_until : (ℕ → Bool) → Bytes → ℕ → ℕ → ℕ
scan_until stop s i zero = i
scan_until stop s i (suc n) =
    let rest = scan_until stop s (suc i) n in if stop (byte_at s i) then i else rest

-- `for (; last > begin && !is_valid_variable_end(s[last]); --last)`
unfoldable pub trim_end : Bytes → ℕ → ℕ → ℕ
trim_end s begin zero = zero
trim_end s begin (suc last) =
    let rest = trim_end s begin last in
    if ltb begin (suc last)
    then (if is_valid_variable_end (byte_at s (suc last)) then suc last else rest)
    else suc last

-- The result and the new `begin_pos` and `end_pos`.
unfoldable pub trim_punctuation_of_variable : Bytes → ℕ → ℕ → Bool × ℕ × ℕ
trim_punctuation_of_variable s begin_pos end_pos =
    if leb end_pos begin_pos
    then (false, begin_pos, end_pos)
    else let real_end_pos = (if end_pos == npos then length s else end_pos) in
      let begin = scan_until is_valid_variable_begin s begin_pos (real_end_pos - begin_pos) in
      let last_char_pos = trim_end s begin (real_end_pos - 1) in
      (
        ltb begin real_end_pos,
        begin,
        if last_char_pos + 1 == real_end_pos then end_pos else last_char_pos + 1,
      )

-- Whether a decimal digit stands in the token, `[i, i + n)`.
unfoldable pub contains_digit : Bytes → ℕ → ℕ → Bool
contains_digit s i zero = false
contains_digit s i (suc n) = is_decimal_digit (byte_at s i) || contains_digit s (suc i) n

-- The condition under which a trimmed token is a variable.
unfoldable pub token_is_var : Bytes → Bool → ℕ → ℕ → Bool
token_is_var msg contains_decimal_digit begin end =
    contains_decimal_digit
    || (ltb 0 begin && b'=' == byte_at msg (begin - 1))
    || could_be_multi_digit_hex_value msg begin end

-- One round of `while (!is_var)`; `none` is the early exit at the end of the message.
pub record Round : Type 0 where
  pub at_end : Bool
  pub is_var : Bool
  pub cursor : Cursor

-- Where the next token begins: at the first byte from `i` on that is no delimiter.
unfoldable pub token_begin : Bytes → ℕ → ℕ
token_begin msg i = scan_until (λ b. not (is_delim b)) msg i (length msg - i)

-- Where it ends: at the next delimiter.
unfoldable pub token_end : Bytes → ℕ → ℕ
token_end msg i = scan_until is_delim msg i (length msg - i)

unfoldable pub next_token : Bytes → Cursor → Round
next_token msg c =
    let begin = token_begin msg c.token_end_pos in
    if length msg == begin
    then record { at_end = true; is_var = false; cursor = record c { begin_pos = begin } }
    else let end = token_end msg begin in
      let digit = contains_digit msg begin (end - begin) in
      let trimmed = trim_punctuation_of_variable msg begin end in
      record {
        at_end = false;
        is_var = trimmed.0 && token_is_var msg digit trimmed.1 trimmed.2;
        cursor = record { token_end_pos = end; begin_pos = trimmed.1; end_pos = trimmed.2 };
      }

unfoldable pub next_var_loop : ℕ → Bytes → Cursor → Outcome (Bool × Cursor)
next_var_loop zero msg c = no_fuel
next_var_loop (suc fuel) msg c =
    let r = next_token msg c in
    let again = next_var_loop fuel msg r.cursor in
    if r.at_end
    then ok (false, r.cursor)
    else if r.is_var
    then ok (not (length msg == r.cursor.begin_pos), r.cursor)
    else again

-- Each round moves `token_end_pos` on, so that `length msg` rounds and one are enough.
unfoldable pub get_bounds_of_next_var : Bytes → Cursor → Outcome (Bool × Cursor)
get_bounds_of_next_var msg c =
    if leb (length msg) c.token_end_pos
    then ok (false, c)
    else next_var_loop (suc (length msg)) msg c
