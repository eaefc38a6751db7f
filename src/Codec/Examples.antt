-- ===== src/Codec/Examples.antt =====
-- A message through the codec, with a small library of doubles.
use clp_core.Base.{
  throws, ErrorCode, inr, ◌>>=◌, ℕ, zero, suc, ◌+◌, ◌*◌, ◌/◌, ◌%◌, ◌≤◌, ◌<◌, ◌==◌, ◌≡◌, refl, Bool,
  true, false, Bytes, [], ◌∷◌, ◌++◌, length, codes, Outcome, ok, some, arith,
}
use clp_core.Base.Int.{ℤ, pos_part}
use clp_core.Decimal.RoundTrip.{AllDigits}
use clp_core.Logtype.{
  LogtypeEntry, LogVerbosity, read_escaped_value, get_value_with_unfounded_variables_escaped,
  add_constant, add_double_var, add_non_double_var, append_double_var, append_non_double_var, clear,
  encode_precision_of_double_value,
}
use clp_core.Dictionary.Variable.{VarEntry, var_ops, add_occurrence, insert_entry, var_data_size}
use clp_core.Variables.Floats.{FloatLib, decimal, KeepsFifteenDigits}
use clp_core.Codec.{
  Encoded, encode_and_add_to_dictionary, decode_variables_into_message, double_text,
  encode_dict_var, encode_loop, encode_var,
}
use clp_core.Dictionary.{
  DictionaryReader, files_of, open_reader, new_reader, read_new_entries, read_value, find_value,
}
use clp_core.Dictionary.Examples.{
  empty_writer, empty_writer-IsConsistent, x1_writer, x1_written, write_x1,
}
use clp_core.Tokens.{
  Cursor, contains_digit, get_bounds_of_next_var, next_token, next_var_loop, scan_until,
  token_begin, token_end, token_is_var, trim_end, trim_punctuation_of_variable,
}
use clp_core.Tokens.Bounds.{Found, get_bounds_of_next_var-Found}
use clp_core.Codec.Encoding.{Readable, decode_var_dict_id-encode}
use clp_core.Codec.Lossless.{decode_variables-encode}
use clp_core.Codec.Safe.{no_minus-IsSafe}
use clp_core.Codec.Archived.{decode-read-write-encode}
use clp_core.Codec.Totality.{encode_and_add_to_dictionary-returns}
use clp_core.Codec.Doubles.{double_text-convert}
use clp_core.Variables.{
  is_var_dict_id, encode_var_dict_id, decode_var_dict_id, DoubleVar, all_digits_from,
  below_dict_range, convert_digits, convert_string_to_double, convert_string_to_int64,
  convert_string_to_representable_double_var, convert_string_to_representable_integer_var,
  find_decimal_point, starts_as_integer,
}
use clp_core.Variables.Double.{Survives}
use clp_core.Logtype.Parts.{constant, int_var, double_var, IsBuilt}
use clp_core.Logtype.Reading.{read-get_value_escaped}
use clp_core.Chars.{
  could_be_multi_digit_hex_value, is_decimal_digit, is_delim, is_hex_digit, is_valid_variable_begin,
  is_valid_variable_end,
}
use clp_core.Decimal.{scan_digits, strtoll_from, strtoll_signed}
use clp_core.Logtype.NextVar.{parse_next_var, take_rest, take_var}

-- A double is the number whose digits to the base 256 are the bytes of its text.
abbrev number_of : Bytes → ℕ
number_of [] = 0
number_of (c ∷ s) = c + 256 * number_of s

abbrev text_of_number : ℕ → ℕ → Bytes
text_of_number zero n = []
text_of_number (suc k) n = n % 256 ∷ text_of_number k (n / 256)

abbrev pub small_lib : FloatLib
small_lib = record {
  strtod = λ t. record { bits = ℤ.pos (number_of t); consumed = length t; range_error = false };
  is_zero = λ v. false;
  signbit = λ v. pos_part v % 256 == b'-';
  print_fixed = λ width precision v. text_of_number width (pos_part v);
}

abbrev AllBytes : Bytes → Type 0
AllBytes [] = Unit
AllBytes (c ∷ s) = (c < 256) × AllBytes s

text_of_number-number_of : (s : Bytes) → AllBytes s → text_of_number (length s) (number_of s) ≡ s
text_of_number-number_of [] h = refl
text_of_number-number_of (c ∷ s) h =
    let low : (c + 256 * number_of s) % 256 ≡ c = omega (arith, h.0) in
    let high : (c + 256 * number_of s) / 256 ≡ number_of s = omega (arith, h.0) in
    rw (low, high, text_of_number-number_of s h.1) refl

AllDigits-AllBytes : (s : Bytes) → AllDigits s → AllBytes s
AllDigits-AllBytes [] h = tt
AllDigits-AllBytes (c ∷ s) h = (omega (arith, h.1), AllDigits-AllBytes s h.2)

AllBytes-append : (s t : Bytes) → AllBytes s → AllBytes t → AllBytes (s ++ t)
AllBytes-append [] t h k = k
AllBytes-append (c ∷ s) t h k = (h.0, AllBytes-append s t h.1 k)

decimal-AllBytes :
    (negative : Bool) (whole fraction : Bytes)
    → AllDigits whole
    → AllDigits fraction
    → AllBytes (decimal negative whole fraction)
decimal-AllBytes true whole fraction h k = (
  omega arith,
  AllBytes-append whole (b'.' ∷ fraction) (AllDigits-AllBytes whole h)
      (omega arith, AllDigits-AllBytes fraction k),
)
decimal-AllBytes false whole fraction h k =
    AllBytes-append whole (b'.' ∷ fraction) (AllDigits-AllBytes whole h)
      (omega arith, AllDigits-AllBytes fraction k)

signbit-decimal :
    (negative : Bool) (whole fraction : Bytes)
    → AllDigits whole
    → 1 ≤ length whole
    → small_lib.signbit (ℤ.pos (number_of (decimal negative whole fraction))) ≡ negative
signbit-decimal true whole fraction h some_digit = ground arith
signbit-decimal false [] fraction h some_digit = absurd (omega arith)
signbit-decimal false (c ∷ whole) fraction h some_digit = ground (arith, h.0)

small_lib-KeepsFifteenDigits : KeepsFifteenDigits small_lib
small_lib-KeepsFifteenDigits = record {
  reads = λ negative whole fraction h k l m n.
      (refl, refl, signbit-decimal negative whole fraction h l);
  prints = λ negative whole fraction h k l m n.
      text_of_number-number_of (decimal negative whole fraction)
        (decimal-AllBytes negative whole fraction h k);
}

abbrev pub empty_entry : LogtypeEntry
empty_entry = record {
  id = 0;
  value = [];
  ids_of_segments = [];
  verbosity = LogVerbosity.length_verbosity;
  var_positions = [];
}

abbrev message : Bytes
message = codes "x1 id=7 2.5"

abbrev message_encoded : Encoded
message_encoded = record {
  entry = record {
    id = 0;
    value = 17 ∷ 32 ∷ 105 ∷ 100 ∷ 61 ∷ 17 ∷ 32 ∷ 18 ∷ 17 ∷ [];
    ids_of_segments = [];
    verbosity = LogVerbosity.length_verbosity;
    var_positions = 0 ∷ 5 ∷ 7 ∷ [];
  };
  writer = x1_writer;
  encoded_vars = ℤ.pos 0x4000_0000_0000_0000 ∷ ℤ.pos 7 ∷ ℤ.pos 3485234 ∷ [];
}

encode_message :
    encode_and_add_to_dictionary small_lib message empty_entry empty_writer [] ≡ ok message_encoded
unfolding add_constant add_double_var add_non_double_var add_occurrence all_digits_from
    append_double_var append_non_double_var below_dict_range clear contains_digit convert_digits
    convert_string_to_double convert_string_to_int64 convert_string_to_representable_double_var
    convert_string_to_representable_integer_var could_be_multi_digit_hex_value
    encode_and_add_to_dictionary encode_dict_var encode_loop encode_precision_of_double_value
    encode_var encode_var_dict_id find_decimal_point find_value get_bounds_of_next_var insert_entry
    is_decimal_digit is_delim is_hex_digit is_valid_variable_begin is_valid_variable_end next_token
    next_var_loop parse_next_var scan_digits scan_until starts_as_integer strtoll_from
    strtoll_signed take_rest take_var token_begin token_end token_is_var trim_end
    trim_punctuation_of_variable var_data_size
encode_message = refl

decode-read-write-encode_example :
    (reader : DictionaryReader VarEntry) × ((open_reader new_reader >>= λ r₀.
    read_new_entries var_ops r₀ (files_of x1_written))
      ≡ ok reader)
    × (decode_variables_into_message small_lib
          (read_value var_ops reader)
          message_encoded.entry
          message_encoded.encoded_vars
          []
        ≡ ok (some message))
decode-read-write-encode_example =
    decode-read-write-encode small_lib small_lib-KeepsFifteenDigits message
      (no_minus-IsSafe message refl) (omega arith) empty_entry empty_writer x1_written
      message_encoded [] empty_writer-IsConsistent encode_message (omega arith) write_x1 tt

abbrev get_x1 : ℕ → Outcome Bytes
get_x1 zero = ok (codes "x1")
get_x1 (suc i) = throws ErrorCode.corrupt

x1_writer-Readable : Readable x1_writer get_x1
x1_writer-Readable zero v (e, at, val) = (cc, omega arith)
x1_writer-Readable (suc i) v (e, at, val) = absurd cc

decode_variables-encode_example :
    decode_variables_into_message small_lib get_x1 message_encoded.entry
      message_encoded.encoded_vars
      (codes "> ")
    ≡ ok (some (codes "> " ++ message))
decode_variables-encode_example =
    decode_variables-encode small_lib small_lib-KeepsFifteenDigits message
      (no_minus-IsSafe message refl) (omega arith) empty_entry empty_writer message_encoded get_x1
      (codes "> ") empty_writer-IsConsistent encode_message x1_writer-Readable

encode_and_add_to_dictionary-returns_example :
    (r : Encoded) × (encode_and_add_to_dictionary small_lib message empty_entry empty_writer []
      ≡ ok r)
encode_and_add_to_dictionary-returns_example =
    encode_and_add_to_dictionary-returns small_lib message (omega arith) empty_entry empty_writer []
      (omega arith)

abbrev start : Cursor
start = record { token_end_pos = 0; begin_pos = 0; end_pos = 0 }

get_bounds_of_next_var-Found_example : Found message 0 (get_bounds_of_next_var message start)
get_bounds_of_next_var-Found_example = get_bounds_of_next_var-Found message start (omega arith)

message_encoded-IsBuilt : IsBuilt message_encoded.entry
unfolding encode_precision_of_double_value
message_encoded-IsBuilt = (
  int_var
      ∷ constant 32
      ∷ constant 105
      ∷ constant 100
      ∷ constant 61
      ∷ int_var
      ∷ constant 32
      ∷ double_var 1 1
      ∷ [],
  record {
    text = refl;
    positions = refl;
    fits = (tt, (tt, (tt, (tt, (tt, (tt, (tt, (omega arith, tt))))))));
  },
)

read-get_value_escaped_example :
    (e' : LogtypeEntry) × (read_escaped_value empty_entry
        (get_value_with_unfounded_variables_escaped message_encoded.entry)
      ≡ ok e')
    × (e'.value ≡ message_encoded.entry.value)
    × (e'.var_positions ≡ message_encoded.entry.var_positions)
read-get_value_escaped_example =
    read-get_value_escaped message_encoded.entry empty_entry message_encoded-IsBuilt

abbrev two_and_a_half : DoubleVar
two_and_a_half = record { num_integer_digits = 1; num_fractional_digits = 1; bits = ℤ.pos 3485234 }

two_and_a_half-Survives : Survives (codes "2.5")
unfolding is_valid_variable_begin is_valid_variable_end
two_and_a_half-Survives = record {
  begins = refl;
  ends = inr refl;
  no_bare_point = λ t e. ground arith;
  fits = λ d e digits. absurd (ground arith);
}

convert_two_and_a_half :
    convert_string_to_representable_double_var small_lib (codes "2.5") ≡ some two_and_a_half
unfolding convert_string_to_representable_double_var convert_digits find_decimal_point
    is_decimal_digit all_digits_from convert_string_to_double
convert_two_and_a_half = refl

double_text-convert_example :
    (double_text small_lib 1 1 (ℤ.pos 3485234) ≡ codes "2.5") × (1 + 1 ≤ 15)
double_text-convert_example =
    double_text-convert small_lib small_lib-KeepsFifteenDigits (codes "2.5") two_and_a_half
      two_and_a_half-Survives convert_two_and_a_half

decode_var_dict_id-encode_example :
    (is_var_dict_id (encode_var_dict_id 5) ≡ true) × (decode_var_dict_id (encode_var_dict_id 5) ≡ 5)
decode_var_dict_id-encode_example = decode_var_dict_id-encode 5 (omega arith)
