-- ===== src/Codec.antt =====
-- Messages in and out of their encoded form: `encode_and_add_to_dictionary` and
-- `decode_variables_into_message` of src/EncodedVariableInterpreter.cpp.
pub mod Spelling
pub mod Doubles
pub mod Encoding
pub mod Steps
pub mod Totality
pub mod Lossless
pub mod Archived
pub mod Safe
pub mod Examples
use clp_core.Base.{
  ℕ, zero, suc, ◌+◌, ◌-◌, Bool, true, false, not, ◌==◌, ltb, if◌then◌else◌, Bytes, List, [], ◌∷◌,
  ◌++◌, length, take, substr, Option, none, some, Outcome, ok, no_fuel, ◌>>=◌,
}
use clp_core.Base.Int.{ℤ}
use clp_core.Decimal.{to_string}
use clp_core.Logtype.{
  LogtypeEntry, VarDelim, VarInfo, clear, add_non_double_var, add_double_var, get_var_info,
}
use clp_core.Logtype.NextVar.{Parsing, parse_next_var}
use clp_core.Dictionary.Variable.{VarDictWriter, Added, add_occurrence}
use clp_core.Variables.{
  is_var_dict_id, encode_var_dict_id, decode_var_dict_id, DoubleVar,
  convert_string_to_representable_integer_var, convert_string_to_representable_double_var,
  max_chars_in_representable_double_var,
}
use clp_core.Variables.Floats.{FloatLib}

-- What one variable adds: the logtype, the dictionary, the encoded variable.
pub record EncodedVar : Type 0 where
  pub entry : LogtypeEntry
  pub writer : VarDictWriter
  pub encoded : ℤ

-- The logtype, the dictionary and the encoded variables of a message.
pub record Encoded : Type 0 where
  pub entry : LogtypeEntry
  pub writer : VarDictWriter
  pub encoded_vars : List ℤ

unfoldable pub encode_dict_var : Bytes → LogtypeEntry → VarDictWriter → Outcome EncodedVar
encode_dict_var var entry w = do
  a ← add_occurrence w var
  ok (record {
    entry = add_non_double_var entry;
    writer = a.writer;
    encoded = encode_var_dict_id a.id;
  })

module _ (lib : FloatLib) where
  -- The body of the loop: an integer, else a double, else an entry of the dictionary.
  unfoldable pub encode_var : Bytes → LogtypeEntry → VarDictWriter → Outcome EncodedVar
  unfolding encode_dict_var
  encode_var var entry w = elim (convert_string_to_representable_integer_var var) [
    | some v ↦ ok (record { entry = add_non_double_var entry; writer = w; encoded = v })
    | none ↦ elim (convert_string_to_representable_double_var lib var) [
      | some d ↦ do
        e ← add_double_var d.num_integer_digits d.num_fractional_digits entry
        ok (record { entry = e; writer = w; encoded = d.bits })
      | none ↦ encode_dict_var var entry w
    ]
  ]

  unfoldable pub encode_loop : ℕ → Bytes → Parsing → VarDictWriter → List ℤ → Outcome Encoded
  encode_loop zero msg p w vars = no_fuel
  encode_loop (suc fuel) msg p w vars = do
    (found, p') ← parse_next_var msg p
    let stop = ok (record { entry = p'.entry; writer = w; encoded_vars = vars })
    let go = (do
      r ← encode_var p'.var p'.entry w
      encode_loop fuel msg (record p' { entry = r.entry }) r.writer (vars ++ r.encoded ∷ []))
    if found then go else stop

  -- A variable moves `next_delim_pos` on by a byte at least, so that the rounds are enough.
  unfoldable pub encode_and_add_to_dictionary :
      Bytes → LogtypeEntry → VarDictWriter → List ℤ → Outcome Encoded
  encode_and_add_to_dictionary msg entry w vars =
      encode_loop (suc (length msg)) msg
        (record {
          entry = clear entry;
          var_begin_pos = 0;
          next_delim_pos = 0;
          last_var_end_pos = 0;
          var = [];
        })
        w vars

module _ (lib : FloatLib) where
  -- `snprintf` writes into a buffer of 18 bytes, the closing '\0' among them.
  unfoldable pub double_text : ℕ → ℕ → ℤ → Bytes
  double_text i f bits =
      let double_str_length = i + 1 + f in
      take (max_chars_in_representable_double_var) (
        lib.print_fixed (if lib.signbit bits then double_str_length + 1 else double_str_length) f
          bits)

-- `var_dict.get_value` is the last parameter.
module _ (lib : FloatLib) (get_value : ℕ → Outcome Bytes) where
  unfoldable pub int_text : ℤ → Outcome Bytes
  int_text v = if not (is_var_dict_id v) then ok (to_string v) else get_value (decode_var_dict_id v)

  -- The loop over the variables, from the one at `i` on; the last argument is `decompressed_msg`.
  -- The caller's check leaves no variable without a position (`no_fuel`).
  unfoldable pub decode_loop : LogtypeEntry → List ℤ → ℕ → ℕ → Bytes → Outcome Bytes
  decode_loop e [] i constant_begin_pos out = ok (
      if ltb constant_begin_pos (length e.value)
      then out ++ substr e.value constant_begin_pos (length e.value - constant_begin_pos)
      else out)
  decode_loop e (v ∷ vars) i constant_begin_pos out = elim (get_var_info e i) [
    | none ↦ no_fuel
    | some info ↦
        let before =
          out ++ substr e.value constant_begin_pos (info.position - constant_begin_pos) in
        elim info.delim [
          | VarDelim.non_double ↦ (do
            s ← int_text v
            decode_loop e vars (suc i) (info.position + 1) (before ++ s))
          | _ ↦
              decode_loop e vars (suc i) (info.position + 2)
                (before ++ double_text lib info.num_integer_digits info.num_fractional_digits v)
        ]
  ]

  -- `none` is the result `false`: the numbers of variables differ.
  unfoldable pub decode_variables_into_message :
      LogtypeEntry → List ℤ → Bytes → Outcome (Option Bytes)
  unfolding decode_loop
  decode_variables_into_message e vars out =
      if not (length e.var_positions == length vars)
      then ok none
      else decode_loop e vars 0 0 out >>= λ s. ok (some s)
