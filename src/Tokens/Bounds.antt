-- ===== src/Tokens/Bounds.antt =====
-- Where `get_bounds_of_next_var` puts the bounds of a variable, and that it returns.
use clp_core.Base.{
  ℕ, zero, suc, ◌+◌, ◌-◌, ◌≤◌, ◌<◌, Bool, true, false, not, Bytes, length, byte_at, leb, npos,
  Outcome, ok, throws, no_fuel, ◌≡◌, ◌≢◌, ◌⊎◌, arith, Bool-cases, inl, inr,
}
use clp_core.Chars.{is_delim, is_valid_variable_begin, is_valid_variable_end}
use clp_core.Tokens.{
  Cursor, scan_until, trim_end, trim_punctuation_of_variable, token_begin, token_end, next_token,
  next_var_loop, get_bounds_of_next_var,
}
use clp_core.Tokens.Scan.{
  scan_until_bounds, scan_until_stops, scan_until_passes, trim_end_bounds, trim_end_stops,
}

-- The bounds of a variable lie in order within the message, the old position before them.
pub record InOrder (msg : Bytes) (from : ℕ) (c : Cursor) : Type 0 where
  pub after : from ≤ c.begin_pos
  pub nonempty : c.begin_pos < c.end_pos
  pub trimmed : c.end_pos ≤ c.token_end_pos
  pub inside : c.token_end_pos ≤ length msg

module _ (s : Bytes) (begin_pos end_pos : ℕ) (short : end_pos < npos) where
  pub trim_punctuation_bounds :
      (trim_punctuation_of_variable s begin_pos end_pos).0 ≡ true
      → (begin_pos ≤ (trim_punctuation_of_variable s begin_pos end_pos).1)
        × ((trim_punctuation_of_variable s begin_pos end_pos).1
            < (trim_punctuation_of_variable s begin_pos end_pos).2)
        × ((trim_punctuation_of_variable s begin_pos end_pos).2 ≤ end_pos)
  unfolding trim_punctuation_of_variable
  trim_punctuation_bounds h = ground (
    arith,
    scan_until_bounds is_valid_variable_begin s begin_pos (end_pos - begin_pos),
    trim_end_bounds s (scan_until is_valid_variable_begin s begin_pos (end_pos - begin_pos))
        (end_pos - 1),
  )

pub token_begin_bounds :
    (msg : Bytes) (i : ℕ)
    → i ≤ length msg
    → (i ≤ token_begin msg i) × (token_begin msg i ≤ length msg)
unfolding token_begin
token_begin_bounds msg i h =
    omega (arith, scan_until_bounds (λ b. not (is_delim b)) msg i (length msg - i))

pub token_begin_lem :
    (msg : Bytes) (i : ℕ)
    → i ≤ length msg
    → token_begin msg i ≢ length msg
    → is_delim (byte_at msg (token_begin msg i)) ≡ false
unfolding token_begin
token_begin_lem msg i h ne = ground (
  arith,
  scan_until_bounds (λ b. not (is_delim b)) msg i (length msg - i),
  scan_until_stops (λ b. not (is_delim b)) msg i (length msg - i),
)

pub token_end_bounds :
    (msg : Bytes) (i : ℕ)
    → i < length msg
    → is_delim (byte_at msg i) ≡ false
    → (i < token_end msg i) × (token_end msg i ≤ length msg)
unfolding token_end
token_end_bounds msg i h d = ground (
  arith,
  scan_until_bounds is_delim msg i (length msg - i),
  scan_until_stops is_delim msg i (length msg - i),
)

-- No delimiter in a token.
pub token_end_lem :
    (msg : Bytes) (i j : ℕ) → i ≤ j → j < token_end msg i → is_delim (byte_at msg j) ≡ false
unfolding token_end
token_end_lem msg i j = scan_until_passes is_delim msg i (length msg - i) j

add_sub_cancel : (n : ℕ) → n + 1 - 1 ≡ n
add_sub_cancel n = omega arith

-- The text of a variable: no delimiter in it, and a first and last byte that may begin and end one.
-- A single byte may be any that begins a variable.
pub record IsVariable (msg : Bytes) (c : Cursor) : Type 0 where
  pub undivided : (j : ℕ) → c.begin_pos ≤ j → j < c.end_pos → is_delim (byte_at msg j) ≡ false
  pub begins : is_valid_variable_begin (byte_at msg c.begin_pos) ≡ true
  pub ends :
      (c.begin_pos + 1 ≡ c.end_pos) ⊎ (is_valid_variable_end (byte_at msg (c.end_pos - 1)) ≡ true)

module _ (s : Bytes) (begin_pos end_pos : ℕ) (short : end_pos < npos) where
  new_begin : ℕ
  new_begin = (trim_punctuation_of_variable s begin_pos end_pos).1

  new_end : ℕ
  new_end = (trim_punctuation_of_variable s begin_pos end_pos).2

  trimmed_begins :
      (trim_punctuation_of_variable s begin_pos end_pos).0 ≡ true
      → is_valid_variable_begin (byte_at s new_begin) ≡ true
  unfolding trim_punctuation_of_variable new_begin
  trimmed_begins h =
      ground (arith, scan_until_stops is_valid_variable_begin s begin_pos (end_pos - begin_pos))

  trimmed_ends :
      (trim_punctuation_of_variable s begin_pos end_pos).0 ≡ true
      → (new_begin + 1 ≡ new_end) ⊎ (is_valid_variable_end (byte_at s (new_end - 1)) ≡ true)
  unfolding trim_punctuation_of_variable new_begin new_end
  trimmed_ends h =
      let b = scan_until is_valid_variable_begin s begin_pos (end_pos - begin_pos) in
      ground (
        arith,
        scan_until_bounds is_valid_variable_begin s begin_pos (end_pos - begin_pos),
        trim_end_bounds s b (end_pos - 1),
        trim_end_stops s b (end_pos - 1),
        add_sub_cancel (trim_end s b (end_pos - 1)),
      )

module _ (msg : Bytes) (c : Cursor) (inside : c.token_end_pos ≤ length msg) where
  begin : ℕ
  begin = token_begin msg c.token_end_pos

  next_token_progress :
      (next_token msg c).at_end ≡ false
      → (c.token_end_pos < (next_token msg c).cursor.token_end_pos)
        × ((next_token msg c).cursor.token_end_pos ≤ length msg)
  unfolding next_token begin
  next_token_progress h = ground (
    arith,
    token_begin_bounds msg c.token_end_pos inside,
    token_begin_lem msg c.token_end_pos inside,
    token_end_bounds msg begin,
  )

  next_token-InOrder :
      length msg < npos
      → (next_token msg c).is_var ≡ true
      → InOrder msg c.token_end_pos (next_token msg c).cursor
  unfolding next_token begin
  next_token-InOrder short h = ground (
    arith,
    token_begin_bounds msg c.token_end_pos inside,
    token_begin_lem msg c.token_end_pos inside,
    token_end_bounds msg begin,
    trim_punctuation_bounds msg begin (token_end msg begin),
  )

  next_token-IsVariable :
      length msg < npos
      → (next_token msg c).is_var ≡ true
      → IsVariable msg (next_token msg c).cursor
  unfolding next_token begin new_begin new_end
  next_token-IsVariable short h = record {
    undivided = λ j a b. ground (
      arith,
      token_begin_bounds msg c.token_end_pos inside,
      token_begin_lem msg c.token_end_pos inside,
      token_end_bounds msg begin,
      trim_punctuation_bounds msg begin (token_end msg begin),
      token_end_lem msg begin j,
    );
    begins = ground (
      arith,
      token_begin_bounds msg c.token_end_pos inside,
      token_begin_lem msg c.token_end_pos inside,
      token_end_bounds msg begin,
      trimmed_begins msg begin (token_end msg begin),
    );
    ends = ground (
      arith,
      token_begin_bounds msg c.token_end_pos inside,
      token_begin_lem msg c.token_end_pos inside,
      token_end_bounds msg begin,
      trimmed_ends msg begin (token_end msg begin),
    );
  }

-- What a call may return: no variable, or one within bounds.
abbrev pub Found : Bytes → ℕ → Outcome (Bool × Cursor) → Type 0
Found msg from (ok (true, c)) = InOrder msg from c × IsVariable msg c
Found msg from (ok (false, c)) = Unit
Found msg from (throws e) = ⊥
Found msg from no_fuel = ⊥

InOrder-weaken : {msg : Bytes} {i j : ℕ} {c : Cursor} → i ≤ j → InOrder msg j c → InOrder msg i c
InOrder-weaken h o = record {
  after = omega arith;
  nonempty = o.nonempty;
  trimmed = o.trimmed;
  inside = o.inside;
}

Found-weaken :
    (msg : Bytes) {i j : ℕ} (r : Outcome (Bool × Cursor)) → i ≤ j → Found msg j r → Found msg i r
Found-weaken msg (ok (true, c)) h f = (InOrder-weaken h f.0, f.1)
Found-weaken msg (ok (false, c)) h f = tt
Found-weaken msg (throws e) h f = f
Found-weaken msg no_fuel h f = f

Found-either :
    {msg : Bytes} {i : ℕ} {c : Cursor} (b : Bool)
    → InOrder msg i c
    → IsVariable msg c
    → Found msg i (ok (b, c))
Found-either true o v = (o, v)
Found-either false o v = tt

next_var_loop-Found :
    (fuel : ℕ) (msg : Bytes) (c : Cursor)
    → length msg < npos
    → c.token_end_pos ≤ length msg
    → length msg < c.token_end_pos + fuel
    → Found msg c.token_end_pos (next_var_loop fuel msg c)
unfolding next_var_loop
next_var_loop-Found zero msg c short inside h = absurd (omega arith)
next_var_loop-Found (suc fuel) msg c short inside h = elim (Bool-cases (next_token msg c).at_end) [
  | inl e ↦ rw e tt
  | inr more ↦
      let progress = next_token_progress msg c inside more in
      elim (Bool-cases (next_token msg c).is_var) [
        | inl v ↦
            rw (more, v)
              (Found-either _ (next_token-InOrder msg c inside short v)
                (next_token-IsVariable msg c inside short v))
        | inr v ↦
            rw (more, v)
              (Found-weaken msg (next_var_loop fuel msg (next_token msg c).cursor) (omega arith) (
                next_var_loop-Found fuel msg (next_token msg c).cursor short progress.1
                  (omega arith)))
      ]
]

-- In a message shorter than `npos`, the search for the next variable always returns. A variable that it
-- finds is a non-empty range of the message, after the old token end and not beyond the new one, has
-- no delimiter, and begins and ends with bytes that a variable may begin and end with.
pub get_bounds_of_next_var-Found :
    (msg : Bytes) (c : Cursor)
    → length msg < npos
    → Found msg c.token_end_pos (get_bounds_of_next_var msg c)
unfolding get_bounds_of_next_var
get_bounds_of_next_var-Found msg c short = elim (Bool-cases (leb (length msg) c.token_end_pos)) [
  | inl e ↦ rw e tt
  | inr e ↦ rw e (next_var_loop-Found (suc (length msg)) msg c short (ground arith) (ground arith))
]
