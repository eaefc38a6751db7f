-- ===== src/Logtype/NextVar.antt =====
-- `LogTypeDictionaryEntry::parse_next_var`: the next variable of a message, and the constant in front
-- of it added to the logtype. The reference parameters are the fields of a state.
use clp_core.Base.{
  ℕ, ◌-◌, Bool, true, false, ltb, if◌then◌else◌, Bytes, length, slice, Outcome, ok, ◌>>=◌,
}
use clp_core.Logtype.{LogtypeEntry, add_constant}
use clp_core.Tokens.{Cursor, get_bounds_of_next_var}

pub record Parsing : Type 0 where
  pub entry : LogtypeEntry
  pub var_begin_pos : ℕ
  pub next_delim_pos : ℕ
  pub last_var_end_pos : ℕ
  pub var : Bytes

abbrev pub cursor_of : Parsing → Cursor
cursor_of p = record {
  token_end_pos = p.next_delim_pos;
  begin_pos = p.var_begin_pos;
  end_pos = p.last_var_end_pos;
}

-- What follows a search that found a variable at `c`.
unfoldable pub take_var : Bytes → Parsing → Cursor → Parsing
take_var msg p c = record {
  entry = add_constant p.entry msg p.last_var_end_pos (c.begin_pos - p.last_var_end_pos);
  var_begin_pos = c.begin_pos;
  next_delim_pos = c.token_end_pos;
  last_var_end_pos = c.end_pos;
  var = slice msg c.begin_pos c.end_pos;
}

-- What follows a search that found none.
unfoldable pub take_rest : Bytes → Parsing → Cursor → Parsing
take_rest msg p c = record p {
  entry =
      if ltb p.last_var_end_pos (length msg)
      then add_constant p.entry msg p.last_var_end_pos (length msg - p.last_var_end_pos)
      else p.entry;
  var_begin_pos = c.begin_pos;
  next_delim_pos = c.token_end_pos;
}

unfoldable pub parse_next_var : Bytes → Parsing → Outcome (Bool × Parsing)
parse_next_var msg p = do
  (found, c) ← get_bounds_of_next_var msg (cursor_of p)
  ok (if found then (true, take_var msg p c) else (false, take_rest msg p c))
