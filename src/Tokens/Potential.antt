-- ===== src/Tokens/Potential.antt =====
-- Cutting a search string into tokens: `get_bounds_of_next_potential_var` of src/Utils.cpp.
use clp_core.Base.{
  ℕ, zero, suc, ◌+◌, ◌-◌, Bool, true, false, not, ◌&&◌, ◌||◌, ◌==◌, leb, ltb, if◌then◌else◌, Bytes,
  length, byte_at, Outcome, ok, no_fuel, ◌>>=◌,
}
use clp_core.Chars.{
  is_delim, is_decimal_digit, is_valid_variable_begin, is_valid_variable_end, is_wildcard,
  could_be_multi_digit_hex_value,
}

pub record Start : Type 0 where
  pub start_pos : ℕ
  pub at_wildcard : Bool

-- The loop that looks for the beginning of a variable or for a wildcard, on the rounds left.
unfoldable pub find_start : Bytes → ℕ → ℕ → Bool → Start
find_start s i zero is_escaped = record { start_pos = i; at_wildcard = false }
find_start s i (suc n) true = elim (is_valid_variable_begin (byte_at s i)) [
  | true ↦ record { start_pos = i; at_wildcard = false }
  | false ↦ find_start s (suc i) n false
]
find_start s i (suc n) false = elim (b'\\' == byte_at s i) [
  | true ↦ find_start s (suc i) n true
  | false ↦ elim (is_wildcard (byte_at s i)) [
    | true ↦ record { start_pos = i; at_wildcard = true }
    | false ↦ elim (is_valid_variable_begin (byte_at s i)) [
      | true ↦ record { start_pos = i; at_wildcard = false }
      | false ↦ find_start s (suc i) n false
    ]
  ]
]

pub record End : Type 0 where
  pub stop_pos : ℕ
  pub last_wildcard_or_variable_end_pos : ℕ
  pub contains_wildcard : Bool
  pub contains_decimal_digit : Bool

-- `++end_pos`, with the byte looked at for a digit; past a byte that may end a variable, and past a
-- wildcard.
abbrev pub pass : Bytes → End → End
pass s e = record {
  stop_pos = suc e.stop_pos;
  last_wildcard_or_variable_end_pos = e.last_wildcard_or_variable_end_pos;
  contains_wildcard = e.contains_wildcard;
  contains_decimal_digit = e.contains_decimal_digit || is_decimal_digit (byte_at s e.stop_pos);
}

abbrev pub pass_variable_end : Bytes → End → End
pass_variable_end s e = record {
  stop_pos = suc e.stop_pos;
  last_wildcard_or_variable_end_pos = e.stop_pos;
  contains_wildcard = e.contains_wildcard;
  contains_decimal_digit = e.contains_decimal_digit || is_decimal_digit (byte_at s e.stop_pos);
}

abbrev pub pass_wildcard : Bytes → End → End
pass_wildcard s e = record {
  stop_pos = suc e.stop_pos;
  last_wildcard_or_variable_end_pos = e.stop_pos;
  contains_wildcard = true;
  contains_decimal_digit = e.contains_decimal_digit || is_decimal_digit (byte_at s e.stop_pos);
}

-- The loop that looks for the next delimiter, on the rounds left; `e` holds what it has found.
unfoldable pub find_end : Bytes → ℕ → Bool → End → End
find_end s zero is_escaped e = e
find_end s (suc n) true e = elim (is_delim (byte_at s e.stop_pos)) [
  | true ↦ e
  | false ↦ elim (is_valid_variable_end (byte_at s e.stop_pos)) [
    | true ↦ find_end s n false (pass_variable_end s e)
    | false ↦ find_end s n false (pass s e)
  ]
]
find_end s (suc n) false e = elim (b'\\' == byte_at s e.stop_pos) [
  | true ↦ find_end s n true (pass s e)
  | false ↦ elim (is_wildcard (byte_at s e.stop_pos)) [
    | true ↦ find_end s n false (pass_wildcard s e)
    | false ↦ elim (is_valid_variable_end (byte_at s e.stop_pos)) [
      | true ↦ find_end s n false (pass_variable_end s e)
      | false ↦ elim (is_delim (byte_at s e.stop_pos)) [
        | true ↦ e
        | false ↦ find_end s n false (pass s e)
      ]
    ]
  ]
]

pub record Potential : Type 0 where
  pub begin_pos : ℕ
  pub end_pos : ℕ
  pub is_var : Bool
  pub has_wildcard : Bool

-- One round of the outer loop, from the end of the last token.
unfoldable pub next_potential : Bytes → ℕ → Potential
unfolding find_start find_end
next_potential value last_end =
    let start = find_start value last_end (length value - last_end) false in
    let b = start.start_pos in
    let e = find_end value (length value - b) false (record {
      stop_pos = b;
      last_wildcard_or_variable_end_pos = b;
      contains_wildcard = start.at_wildcard;
      contains_decimal_digit = false;
    }) in
    let trimmed =
      (if ltb (e.last_wildcard_or_variable_end_pos + 1) e.stop_pos
        then e.last_wildcard_or_variable_end_pos + 1
        else e.stop_pos) in
    record {
      begin_pos = b;
      end_pos = trimmed;
      is_var =
          e.contains_decimal_digit
          || could_be_multi_digit_hex_value value b trimmed
          || (ltb 0 b && b'=' == byte_at value (b - 1) && not (is_wildcard (byte_at value b)));
      has_wildcard = e.contains_wildcard;
    }

-- `while (false == is_var && false == contains_wildcard && begin_pos < value_length)`
unfoldable pub potential_loop : ℕ → Bytes → Potential → Outcome Potential
unfolding next_potential
potential_loop zero value p = no_fuel
potential_loop (suc fuel) value p =
    elim (not p.is_var && not p.has_wildcard && ltb p.begin_pos (length value)) [
      | true ↦ potential_loop fuel value (next_potential value p.end_pos)
      | false ↦ ok p
    ]

-- The result, and the reference parameters after the call. `is_var` is not set at the end of the string.
unfoldable pub get_bounds_of_next_potential_var : Bytes → ℕ → ℕ → Outcome (Bool × Potential)
unfolding potential_loop
get_bounds_of_next_potential_var value begin_pos end_pos =
    let start : Potential = record {
      begin_pos = begin_pos;
      end_pos = end_pos;
      is_var = false;
      has_wildcard = false;
    } in
    if leb (length value) end_pos
    then ok (false, start)
    else potential_loop (suc (suc (length value))) value start >>= λ p.
        ok (not (length value == p.begin_pos), p)
