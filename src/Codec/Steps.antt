-- ===== src/Codec/Steps.antt =====
-- One search of the encoder: it returns, and says what it did to the logtype.
use clp_core.Base.{
  ◌<◌, Bool, true, false, Bytes, length, npos, ◌≡◌, refl, Outcome, ok, throws, no_fuel,
}
use clp_core.Tokens.{Cursor, get_bounds_of_next_var}
use clp_core.Tokens.Bounds.{InOrder, IsVariable, Found, get_bounds_of_next_var-Found}
use clp_core.Logtype.NextVar.{Parsing, parse_next_var, cursor_of, take_var, take_rest}

module _ (msg : Bytes) (short : length msg < npos) where
  -- A search either finds a variable and puts what lies in front of it into the logtype, or puts the
  -- rest of the message there.
  pub data Step (p : Parsing) (r : Outcome (Bool × Parsing)) : Type 0 where
    taken :
        (c : Cursor)
        → r ≡ ok (true, take_var msg p c)
        → InOrder msg p.next_delim_pos c
        → IsVariable msg c
        → Step p r
    ended : (c : Cursor) → r ≡ ok (false, take_rest msg p c) → Step p r

  parse_next_var-Step_from :
      (p : Parsing) (r : Outcome (Bool × Cursor))
      → get_bounds_of_next_var msg (cursor_of p) ≡ r
      → Found msg p.next_delim_pos r
      → Step p (parse_next_var msg p)
  unfolding parse_next_var
  parse_next_var-Step_from p (ok (true, c)) e f = taken c (rw e refl) f.0 f.1
  parse_next_var-Step_from p (ok (false, c)) e f = ended c (rw e refl)
  parse_next_var-Step_from p (throws e) _ f = absurd f
  parse_next_var-Step_from p no_fuel _ f = absurd f

  pub parse_next_var-Step : (p : Parsing) → Step p (parse_next_var msg p)
  parse_next_var-Step p =
      parse_next_var-Step_from p (get_bounds_of_next_var msg (cursor_of p)) refl
        (get_bounds_of_next_var-Found msg (cursor_of p) short)
