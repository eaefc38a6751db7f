-- ===== src/Messages.antt =====
-- Raw logs split into messages: src/ParsedMessage.cpp and src/MessageParser.cpp, from a buffer. A
-- pointer to a known timestamp pattern is a number, `nullptr` is `none`.
pub mod Conservation
pub mod Timestamped
mod Examples
use clp_core.Base.{
  ℕ, zero, suc, ◌+◌, Bool, true, false, not, ◌==◌, ◌&&◌, if◌then◌else◌, Bytes, List, [], ◌∷◌, ◌++◌,
  length, take, drop, npos, Option, none, some, Outcome, ok, no_fuel,
}
use clp_core.Base.Int.{ℤ}

pub record ParsedMessage : Type 0 where
  pub ts_patt : Option ℕ
  pub ts_patt_changed : Bool
  pub ts : ℤ
  pub content : Bytes
  pub orig_num_bytes : ℕ
  pub is_set : Bool

-- `ParsedMessage ()`
abbrev pub new_message : ParsedMessage
new_message = record {
  ts_patt = none;
  ts_patt_changed = false;
  ts = ℤ.pos 0;
  content = [];
  orig_num_bytes = 0;
  is_set = false;
}

unfoldable pub clear_except_ts_patt : ParsedMessage → ParsedMessage
clear_except_ts_patt m = record m {
  ts_patt_changed = false;
  ts = ℤ.pos 0;
  content = [];
  orig_num_bytes = 0;
  is_set = false;
}

unfoldable pub clear_message : ParsedMessage → ParsedMessage
unfolding clear_except_ts_patt
clear_message m = clear_except_ts_patt (record m { ts_patt = none })

abbrev pub same_patt : Option ℕ → Option ℕ → Bool
same_patt none none = true
same_patt (some a) (some b) = a == b
same_patt _ _ = false

-- The line without the range of its timestamp.
unfoldable pub cut : Bytes → ℕ → ℕ → Bytes
cut line begin_pos end_pos =
    if begin_pos == end_pos then line else take begin_pos line ++ drop end_pos line

unfoldable pub set_message : Option ℕ → ℤ → Bytes → ℕ → ℕ → ParsedMessage → ParsedMessage
unfolding cut
set_message patt ts line begin_pos end_pos m = record {
  ts_patt = patt;
  ts_patt_changed = if not (same_patt patt m.ts_patt) then true else m.ts_patt_changed;
  ts = ts;
  content = cut line begin_pos end_pos;
  orig_num_bytes = length line;
  is_set = true;
}

unfoldable pub append_line : Bytes → ParsedMessage → ParsedMessage
append_line line m = record m {
  content = m.content ++ line;
  orig_num_bytes = m.orig_num_bytes + length line;
}

-- The message that takes over, and the one that it takes from.
unfoldable pub consume : ParsedMessage → ParsedMessage → ParsedMessage × ParsedMessage
unfolding clear_message
consume m other = (
  record {
    ts_patt = other.ts_patt;
    ts_patt_changed = if not (same_patt other.ts_patt m.ts_patt) then true else m.ts_patt_changed;
    ts = other.ts;
    content = other.content;
    orig_num_bytes = other.orig_num_bytes;
    is_set = true;
  },
  clear_message (record other { content = m.content }),
)

pub record Timestamp : Type 0 where
  pub patt : ℕ
  pub ts : ℤ
  pub begin_pos : ℕ
  pub end_pos : ℕ

-- What the parser uses of src/TimestampPattern.cpp.
pub record TimestampParser : Type 0 where
  pub parse_timestamp : ℕ → Bytes → Option Timestamp
  pub search_known_ts_patterns : Bytes → Option Timestamp

pub record MessageParser : Type 0 where
  pub line : Bytes
  pub buffered_msg : ParsedMessage

pub record Parsed : Type 0 where
  pub completed : Bool
  pub parser : MessageParser
  pub message : ParsedMessage

module _ (t : TimestampParser) where
  -- The pattern of the last message first, then all patterns.
  unfoldable pub timestamp_of : ParsedMessage → Bytes → Option Timestamp
  timestamp_of message line = elim message.ts_patt [
    | none ↦ t.search_known_ts_patterns line
    | some p ↦ elim (t.parse_timestamp p line) [
      | none ↦ t.search_known_ts_patterns line
      | some s ↦ some s
    ]
  ]

  -- A line with a timestamp.
  unfoldable pub start_message : Timestamp → MessageParser → ParsedMessage → Parsed
  unfolding set_message consume
  start_message s p message =
      if not p.buffered_msg.is_set
      then record {
        completed = false;
        parser = record {
          line = [];
          buffered_msg = set_message (some s.patt) s.ts p.line s.begin_pos s.end_pos p.buffered_msg;
        };
        message = message;
      }
      else (let (taken, emptied) = consume message p.buffered_msg in
          record {
            completed = true;
            parser = record {
              line = [];
              buffered_msg = set_message (some s.patt) s.ts p.line s.begin_pos s.end_pos emptied;
            };
            message = taken;
          })

  -- A line without one.
  unfoldable pub continue_message : MessageParser → ParsedMessage → Parsed
  unfolding set_message append_line
  continue_message p message =
      if not p.buffered_msg.is_set
      then record {
        completed = true;
        parser = record { line = []; buffered_msg = p.buffered_msg };
        message = set_message none (ℤ.pos 0) p.line npos npos message;
      }
      else record {
        completed = false;
        parser = record { line = []; buffered_msg = append_line p.line p.buffered_msg };
        message = message;
      }

  unfoldable pub parse_line : MessageParser → ParsedMessage → Parsed
  unfolding timestamp_of start_message continue_message
  parse_line p message = elim (timestamp_of message p.line) [
    | some s ↦ start_message s p message
    | none ↦ continue_message p message
  ]

-- The bytes up to a line's end, the delimiter among them, and whether it was found.
unfoldable pub read_line : Bytes → Bytes × Bool
read_line [] = ([], false)
read_line (c ∷ s) =
    let (line, found) = read_line s in if c == b'\n' then (c ∷ [], true) else (c ∷ line, found)

pub record FromBuffer : Type 0 where
  pub result : Parsed
  pub buf_pos : ℕ

module _ (t : TimestampParser) (drain_source : Bool) (buffer : Bytes) where
  unfoldable pub parse_buffer_loop : ℕ → ℕ → MessageParser → ParsedMessage → Outcome FromBuffer
  unfolding parse_line read_line
  parse_buffer_loop zero buf_pos p message = no_fuel
  parse_buffer_loop (suc fuel) buf_pos p message =
      let (bytes, found_delim) = read_line (drop buf_pos buffer) in
      let p' = record p { line = p.line ++ bytes } in
      let pos = buf_pos + length bytes in
      let parsed = parse_line t p' message in
      let next = parse_buffer_loop fuel pos parsed.parser parsed.message in
      if length buffer == buf_pos
      then ok (record {
        result = record { completed = false; parser = p; message = message };
        buf_pos = buf_pos;
      })
      else if not found_delim && not drain_source
      then ok (record {
        result = record { completed = false; parser = p'; message = message };
        buf_pos = pos;
      })
      else if parsed.completed
      then ok (record { result = parsed; buf_pos = pos })
      else next

  -- A round reads a byte at least, so that the rounds are enough.
  unfoldable pub parse_next_message_from_buffer :
      ℕ → MessageParser → ParsedMessage → Outcome FromBuffer
  unfolding parse_buffer_loop clear_except_ts_patt
  parse_next_message_from_buffer buf_pos p message =
      parse_buffer_loop (suc (length buffer)) buf_pos p (clear_except_ts_patt message)
