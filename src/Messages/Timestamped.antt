-- ===== src/Messages/Timestamped.antt =====
-- The parser of a raw log over the known timestamp patterns of src/TimestampPattern.cpp.
use clp_core.Base.{
  ℕ, true, ◌==◌, Bool-cases, ◌⊎◌, inl, inr, Bytes, List, length, drop, get_elem?, Option, none,
  some, ◌≡◌, refl, ap, ◌∙◌, arith,
}
use clp_core.Base.Int.{ℤ, pos}
use clp_core.Timestamps.{TimestampPattern, DateLib, inserted}
use clp_core.Timestamps.Parsing.{ParsedTimestamp, parse_timestamp, search_patterns}
use clp_core.Timestamps.Inserting.{parts_of, insert_formatted_timestamp}
use clp_core.Timestamps.Known.{known_ts_patterns}
use clp_core.Timestamps.RoundTrip.{CalendarLaws, InCalendar}
use clp_core.Timestamps.Searching.{
  FirstParses, iso_pattern, search_patterns-FirstParses, search_patterns-insert_formatted_timestamp,
}
use clp_core.Messages.{
  ParsedMessage, Timestamp, TimestampParser, MessageParser, cut, set_message, timestamp_of,
  start_message, parse_line,
}

-- The patterns as an implementation of what the parser of messages uses; a pattern is its index.
abbrev pub as_timestamp : ℕ → ParsedTimestamp → Timestamp
as_timestamp i t = record {
  patt = i;
  ts = t.timestamp;
  begin_pos = t.timestamp_begin_pos;
  end_pos = t.timestamp_end_pos;
}

unfoldable pub parse_by : DateLib → List TimestampPattern → ℕ → Bytes → Option Timestamp
unfolding parse_timestamp
parse_by lib ps i line = elim (get_elem? ps i) [
  | none ↦ none
  | some pattern ↦ elim (parse_timestamp lib pattern line) [
    | none ↦ none
    | some t ↦ some (as_timestamp i t)
  ]
]

unfoldable pub search_known : DateLib → Bytes → Option Timestamp
unfolding search_patterns known_ts_patterns
search_known lib line = elim (search_patterns lib known_ts_patterns 0 line) [
  | none ↦ none
  | some (i, t) ↦ some (as_timestamp i t)
]

abbrev pub known_patterns : DateLib → TimestampParser
known_patterns lib = record {
  parse_timestamp = λ i. parse_by lib known_ts_patterns i;
  search_known_ts_patterns = search_known lib;
}

cut-drop : (line msg : Bytes) (end : ℕ) → drop end line ≡ msg → cut line 0 end ≡ msg
unfolding cut
cut-drop line msg end behind = elim (Bool-cases (0 == end)) [
  | inl e ↦ (rw (cut, e) (ap (λ n. drop n line) {x = 0} (ground arith) ∙ behind))
  | inr e ↦ (rw (cut, e) behind)
]

-- A message that starts with a line.
pub record Starts (line msg : Bytes) (ts : ℤ) (m : ParsedMessage) : Type 0 where
  pub pattern : m.ts_patt ≡ some 0
  pub time : m.ts ≡ ts
  pub content : m.content ≡ msg
  pub bytes : m.orig_num_bytes ≡ length line
  pub set : m.is_set ≡ true

start_message-Starts :
    (t : TimestampParser) (s : Timestamp) (p : MessageParser) (message : ParsedMessage)
    (msg : Bytes)
    → s.patt ≡ 0
    → s.begin_pos ≡ 0
    → drop s.end_pos p.line ≡ msg
    → Starts p.line msg s.ts (start_message t s p message).parser.buffered_msg
unfolding start_message set_message
start_message-Starts t s p message msg patt begin behind = elim (Bool-cases p.buffered_msg.is_set) [
  | inl set ↦
      (rw (start_message, set)
        (record {
          pattern = ap some patt;
          time = refl;
          content = ap (λ b. cut p.line b s.end_pos) begin ∙ cut-drop p.line msg s.end_pos behind;
          bytes = refl;
          set = refl;
        }))
  | inr unset ↦
      (rw (start_message, unset)
        (record {
          pattern = ap some patt;
          time = refl;
          content = ap (λ b. cut p.line b s.end_pos) begin ∙ cut-drop p.line msg s.end_pos behind;
          bytes = refl;
          set = refl;
        }))
]

parse_by-FirstParses :
    (lib : DateLib) (ps : List TimestampPattern) (line : Bytes) (k : ℕ) (t : ParsedTimestamp)
    → FirstParses lib ps line k t
    → parse_by lib ps k line ≡ some (as_timestamp k t)
unfolding parse_by
parse_by-FirstParses lib ps line k t first = rw (parse_by, first.here, first.parses) refl

found_by :
    (lib : DateLib) (message : ParsedMessage) (line : Bytes) (t : ParsedTimestamp)
    → (message.ts_patt ≡ none) ⊎ (message.ts_patt ≡ some 0)
    → search_patterns lib known_ts_patterns 0 line ≡ some (0, t)
    → timestamp_of (known_patterns lib) message line ≡ some (as_timestamp 0 t)
unfolding timestamp_of search_known
found_by lib message line t (inl e) found = rw (timestamp_of, e, search_known, found) refl
found_by lib message line t (inr e) found =
    let first = search_patterns-FirstParses lib known_ts_patterns line 0 t found in
    rw (timestamp_of, e, parse_by-FirstParses lib known_ts_patterns line 0 t first) refl

-- A text with a timestamp of the years from 0 to 9999 put in front by the first known pattern is a line
-- that starts a message, where the message before it had that pattern or none: with that timestamp, and
-- with the text as its content.
pub parse_line-insert_formatted_timestamp :
    (lib : DateLib) (timestamp : ℤ) (y : ℕ) (msg : Bytes) (buffered message : ParsedMessage)
    → CalendarLaws lib
    → InCalendar (lib.floor_days timestamp)
    → (parts_of lib timestamp).year ≡ pos y
    → (message.ts_patt ≡ none) ⊎ (message.ts_patt ≡ some 0)
    → (line : Bytes) × (insert_formatted_timestamp lib iso_pattern timestamp msg ≡ inserted line)
      × Starts line msg timestamp
          (parse_line
            (known_patterns lib)
            (record { line = line; buffered_msg = buffered })
            message).parser.buffered_msg
unfolding parse_line
parse_line-insert_formatted_timestamp lib timestamp y msg buffered message laws inside years last =
    let (line, end, done, found, behind) =
      search_patterns-insert_formatted_timestamp lib timestamp y msg laws inside years in
    let t : ParsedTimestamp = record {
      timestamp = timestamp;
      timestamp_begin_pos = 0;
      timestamp_end_pos = end;
    } in
    (
      line,
      done,
      (rw (parse_line, found_by lib message line t last found)
          (start_message-Starts (known_patterns lib) (as_timestamp 0 t)
            (record { line = line; buffered_msg = buffered }) message msg refl refl behind)),
    )
