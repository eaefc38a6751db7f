-- ===== src/Logtype.antt =====
-- src/LogTypeDictionaryEntry.cpp: a logtype is the constant text of a message with a placeholder for
-- each variable, and the positions of the placeholders. `value` is the text in memory; on disk the
-- bytes of the constants that look like placeholders are escaped.
pub mod Parts
pub mod Escape
pub mod Reading
pub mod NextVar
use clp_core.Base.{
  ℕ, zero, suc, ◌+◌, ◌-◌, ◌*◌, ◌/◌, ◌%◌, Bool, true, false, ◌||◌, ◌==◌, leb, ltb, if◌then◌else◌,
  Bytes, List, [], ◌∷◌, ◌++◌, length, byte_at, substr, Outcome, ok, throws, ErrorCode, ◌>>=◌,
  Option, none, some, get_elem?,
}

-- `enum class VarDelim`; the values of the first two stand in logtypes as bytes.
pub data VarDelim : Type 0 where
  non_double double length_delim : VarDelim

abbrev pub non_double_byte : ℕ
non_double_byte = 17

abbrev pub double_byte : ℕ
double_byte = 18

abbrev pub escape_char : ℕ
escape_char = b'\\'

abbrev pub max_digits_in_representable_double_var : ℕ
max_digits_in_representable_double_var = 15

-- `enum LogVerbosity`
pub data LogVerbosity : Type 0 where
  fatal error warn info debug trace unknown length_verbosity : LogVerbosity

-- `DictionaryEntry` and the fields that `LogTypeDictionaryEntry` adds to it.
pub record LogtypeEntry : Type 0 where
  pub id : ℕ
  pub value : Bytes
  pub ids_of_segments : List ℕ
  pub verbosity : LogVerbosity
  pub var_positions : List ℕ

-- The low four bits are free after the shift, so that `|` is `+` here.
unfoldable pub encode_precision_of_double_value : ℕ → ℕ → ℕ
encode_precision_of_double_value num_integer_digits num_fractional_digits =
    num_integer_digits * 16 % 256 + num_fractional_digits % 16

unfoldable pub decode_precision_of_double_value : ℕ → ℕ × ℕ
decode_precision_of_double_value c = (c / 16, c % 16)

unfoldable pub needs_escape : ℕ → Bool
needs_escape c = c == non_double_byte || c == double_byte || c == escape_char

-- The loop over `[begin_ix, end_ix)`, on the rounds left; the last argument is `escaped_value`.
unfoldable pub escape_variable_delimiters : Bytes → ℕ → ℕ → Bytes → Bytes
unfolding needs_escape
escape_variable_delimiters value i zero escaped = escaped
escape_variable_delimiters value i (suc n) escaped =
    let c = byte_at value i in
    escape_variable_delimiters value (suc i) n
      ((if needs_escape c then escaped ++ escape_char ∷ [] else escaped) ++ c ∷ [])

-- The body of the loop over the positions, and the escape of what is left behind it.
unfoldable pub escape_from : Bytes → ℕ → List ℕ → Bytes → Bytes
escape_from value begin_ix [] escaped =
    escape_variable_delimiters value begin_ix (length value - begin_ix) escaped
escape_from value begin_ix (end_ix ∷ positions) escaped =
    let constant = escape_variable_delimiters value begin_ix (end_ix - begin_ix) escaped in
    let is_int = (byte_at value end_ix == non_double_byte) in
    escape_from value (if is_int then end_ix + 1 else end_ix + 2) positions (
      if is_int
      then constant ++ non_double_byte ∷ []
      else constant ++ double_byte ∷ byte_at value (end_ix + 1) ∷ [])

unfoldable pub get_value_with_unfounded_variables_escaped : LogtypeEntry → Bytes
get_value_with_unfounded_variables_escaped e = escape_from e.value 0 e.var_positions []

-- The static `add_double_var`, on a logtype's text.
unfoldable pub append_double_var : ℕ → ℕ → Bytes → Outcome Bytes
append_double_var num_integer_digits num_fractional_digits logtype =
    if ltb max_digits_in_representable_double_var (num_integer_digits + num_fractional_digits)
    then throws ErrorCode.bad_param
    else ok (
        logtype
        ++ double_byte
          ∷ encode_precision_of_double_value num_integer_digits num_fractional_digits
          ∷ [])

-- The static `add_non_double_var` and `add_wildcard_double_var`.
unfoldable pub append_non_double_var : Bytes → Bytes
append_non_double_var logtype = logtype ++ non_double_byte ∷ []

unfoldable pub append_wildcard_double_var : Bytes → Bytes
append_wildcard_double_var logtype = logtype ++ double_byte ∷ b'?' ∷ []

-- `m_value.append(value, begin_pos, length)`; the callers keep `begin_pos` within the string.
unfoldable pub add_constant : LogtypeEntry → Bytes → ℕ → ℕ → LogtypeEntry
add_constant e s begin_pos n = record e { value = e.value ++ substr s begin_pos n }

unfoldable pub add_non_double_var : LogtypeEntry → LogtypeEntry
unfolding append_non_double_var
add_non_double_var e = record e {
  var_positions = e.var_positions ++ length e.value ∷ [];
  value = append_non_double_var e.value;
}

unfoldable pub add_double_var : ℕ → ℕ → LogtypeEntry → Outcome LogtypeEntry
unfolding append_double_var
add_double_var num_integer_digits num_fractional_digits e = do
  value ← append_double_var num_integer_digits num_fractional_digits e.value
  ok (record e { var_positions = e.var_positions ++ length e.value ∷ []; value = value })

unfoldable pub clear : LogtypeEntry → LogtypeEntry
clear e = record e { value = []; verbosity = LogVerbosity.length_verbosity; var_positions = [] }

abbrev pub delim_of : ℕ → VarDelim
delim_of c = if c == non_double_byte then VarDelim.non_double else VarDelim.double

pub record VarInfo : Type 0 where
  pub position : ℕ
  pub delim : VarDelim
  pub num_integer_digits : ℕ
  pub num_fractional_digits : ℕ

-- `none` stands for `SIZE_MAX`. The digits of an integer variable are left unset.
unfoldable pub get_var_info : LogtypeEntry → ℕ → Option VarInfo
get_var_info e var_ix = elim (get_elem? e.var_positions var_ix) [
  | none ↦ none
  | some position ↦
      let digits = decode_precision_of_double_value (byte_at e.value (position + 1)) in
      some (record {
        position = position;
        delim = delim_of (byte_at e.value position);
        num_integer_digits = digits.0;
        num_fractional_digits = digits.1;
      })
]

unfoldable pub get_var_delim : LogtypeEntry → ℕ → VarDelim
get_var_delim e var_ix = elim (get_elem? e.var_positions var_ix) [
  | none ↦ VarDelim.length_delim
  | some position ↦ delim_of (byte_at e.value position)
]

unfoldable pub get_var_length_in_logtype : LogtypeEntry → ℕ → Outcome ℕ
unfolding get_var_delim
get_var_length_in_logtype e var_ix = elim (get_var_delim e var_ix) [
  | VarDelim.non_double ↦ ok 1
  | VarDelim.double ↦ ok 2
  | VarDelim.length_delim ↦ throws ErrorCode.bad_param
]

-- The decoding loop of `try_read_from_file`, over the bytes left of `escaped_value`. The third
-- argument is `is_escaped`, the fourth is `constant`.
unfoldable pub decode_escaped : Bytes → LogtypeEntry → Bool → Bytes → Outcome LogtypeEntry
unfolding add_constant
decode_escaped [] e is_escaped constant =
    ok (if length constant == 0 then e else add_constant e constant 0 (length constant))
decode_escaped (c ∷ s) e true constant = decode_escaped s e false (constant ++ c ∷ [])
decode_escaped (c ∷ []) e false constant =
    let escape = decode_escaped [] e true constant in
    let int_var =
      decode_escaped [] (add_non_double_var (add_constant e constant 0 (length constant))) false
        [] in
    let other = decode_escaped [] e false (constant ++ c ∷ []) in
    if c == escape_char
    then escape
    else if c == non_double_byte
    then int_var
    else if c == double_byte
    then throws ErrorCode.corrupt
    else other
decode_escaped (c ∷ p ∷ s) e false constant =
    let escape = decode_escaped (p ∷ s) e true constant in
    let flushed = add_constant e constant 0 (length constant) in
    let int_var = decode_escaped (p ∷ s) (add_non_double_var flushed) false [] in
    let digits = decode_precision_of_double_value p in
    let double_var = (do
      e' ← add_double_var digits.0 digits.1 flushed
      decode_escaped s e' false []) in
    let other = decode_escaped (p ∷ s) e false (constant ++ c ∷ []) in
    if c == escape_char
    then escape
    else if c == non_double_byte
    then int_var
    else if c == double_byte
    then double_var
    else other

-- `try_read_from_file` behind the reads of the identifier, the verbosity and the escaped value.
unfoldable pub read_escaped_value : LogtypeEntry → Bytes → Outcome LogtypeEntry
unfolding decode_escaped
read_escaped_value e escaped = decode_escaped escaped (clear e) false []
