-- ===== src/Messages/Conservation.antt =====
-- Splitting a log into messages neither loses a byte nor counts one twice.
use clp_core.Base.{
  ℕ, zero, suc, ◌+◌, ◌-◌, ◌≤◌, ◌<◌, ◌≡◌, refl, ap, ◌∙◌, ◌⊎◌, Bool, true, false, not, ◌==◌, ◌&&◌,
  Bytes, [], ◌∷◌, ◌++◌, length, drop, length-append, length-drop, Option, none, some, ok, arith,
  Bool-cases, Option-cases, inl, inr, append-nil,
}
use clp_core.Messages.{
  ParsedMessage, MessageParser, Parsed, Timestamp, TimestampParser, FromBuffer, cut, set_message,
  append_line, consume, clear_message, clear_except_ts_patt, timestamp_of, start_message,
  continue_message, parse_line, read_line, parse_buffer_loop, parse_next_message_from_buffer,
}

-- A message that is not set is empty.
pub record IsClean (m : ParsedMessage) : Type 0 where
  pub no_content : m.is_set ≡ false → m.content ≡ []
  pub no_bytes : m.is_set ≡ false → m.orig_num_bytes ≡ 0

-- The line as it goes into a message.
abbrev pub line_content : Option Timestamp → Bytes → Bytes
line_content none line = line
line_content (some s) line = cut line s.begin_pos s.end_pos

-- What a line does: `added` is the part of it that goes into a message.
pub record Conserves (p : MessageParser) (m : ParsedMessage) (added : Bytes) (r : Parsed)
    : Type 0 where
  pub contents :
      r.message.content ++ r.parser.buffered_msg.content ≡ p.buffered_msg.content ++ added
  pub bytes :
      r.message.orig_num_bytes + r.parser.buffered_msg.orig_num_bytes
      ≡ p.buffered_msg.orig_num_bytes + length p.line
  pub clean : IsClean r.parser.buffered_msg
  pub no_line : r.parser.line ≡ []
  pub untouched : (r.completed ≡ true) ⊎ (r.message ≡ m)

module _ (t : TimestampParser) (p : MessageParser) (m : ParsedMessage) (c : IsClean p.buffered_msg)
    (empty : m.content ≡ []) (none_yet : m.orig_num_bytes ≡ 0) where
  start_message-Conserves :
      (s : Timestamp) → Conserves p m (cut p.line s.begin_pos s.end_pos) (start_message t s p m)
  unfolding start_message set_message consume clear_message clear_except_ts_patt
  start_message-Conserves s = elim (Bool-cases p.buffered_msg.is_set) [
    | inl set ↦ rw set (record {
      contents = refl;
      bytes = refl;
      clean = record { no_content = λ h. cc; no_bytes = λ h. cc };
      no_line = refl;
      untouched = inl refl;
    })
    | inr unset ↦ rw unset (record {
      contents = rw (empty, c.no_content unset) refl;
      bytes = rw (none_yet, c.no_bytes unset) refl;
      clean = record { no_content = λ h. cc; no_bytes = λ h. cc };
      no_line = refl;
      untouched = inr refl;
    })
  ]

  continue_message-Conserves : Conserves p m p.line (continue_message t p m)
  unfolding continue_message set_message append_line cut
  continue_message-Conserves = elim (Bool-cases p.buffered_msg.is_set) [
    | inl set ↦ rw set (record {
      contents = rw empty refl;
      bytes = rw none_yet (omega arith);
      clean = record { no_content = λ h. cc; no_bytes = λ h. cc };
      no_line = refl;
      untouched = inr refl;
    })
    | inr unset ↦ rw unset (record {
      contents = rw (c.no_content unset) (append-nil p.line);
      bytes = rw (c.no_bytes unset) (omega arith);
      clean = record { no_content = λ h. c.no_content unset; no_bytes = λ h. c.no_bytes unset };
      no_line = refl;
      untouched = inl refl;
    })
  ]

  -- A line, taken with an empty message to fill: the message and the one that stays buffered are
  -- the old buffered message and the line, its timestamp cut out of the content, and the bytes are
  -- counted once. No line is left, and a message that is not completed is not touched.
  pub parse_line-Conserves :
      Conserves p m (line_content (timestamp_of t m p.line) p.line) (parse_line t p m)
  unfolding parse_line
  parse_line-Conserves = elim (Option-cases (timestamp_of t m p.line)) [
    | inl no_timestamp ↦ rw (parse_line, no_timestamp) continue_message-Conserves
    | inr (s, found) ↦ rw (parse_line, found) (start_message-Conserves s)
  ]

not_completed : {b : Bool} {m n : ParsedMessage} → (b ≡ true) ⊎ (m ≡ n) → b ≡ false → m ≡ n
not_completed (inl e) h = absurd cc
not_completed (inr e) h = e

length-read_line : (s : Bytes) → length (read_line s).0 ≤ length s
unfolding read_line
length-read_line [] = omega arith
length-read_line (c ∷ s) = ground (arith, length-read_line s)

read_line-moves : (s : Bytes) → 0 < length s → 0 < length (read_line s).0
unfolding read_line
read_line-moves [] h = h
read_line-moves (c ∷ s) h = ground arith

-- A call's result: the bytes of a message that is completed, of the message that stays buffered, of
-- the line that is begun and of the buffer from `buf_pos` on are those that were there.
pub record Accounts (buffer : Bytes) (buf_pos : ℕ) (p : MessageParser) (r : FromBuffer)
    : Type 0 where
  pub within : r.buf_pos ≤ length buffer
  pub total :
      r.result.message.orig_num_bytes
        + r.result.parser.buffered_msg.orig_num_bytes
        + length r.result.parser.line
        + (length buffer - r.buf_pos)
      ≡ p.buffered_msg.orig_num_bytes + length p.line + (length buffer - buf_pos)
  pub clean_after : IsClean r.result.parser.buffered_msg

module _ (t : TimestampParser) (drain_source : Bool) (buffer : Bytes) where
  parse_buffer_loop-Accounts :
      (fuel buf_pos : ℕ) (p : MessageParser) (m : ParsedMessage)
      → buf_pos ≤ length buffer
      → length buffer < buf_pos + fuel
      → IsClean p.buffered_msg
      → m.content ≡ []
      → m.orig_num_bytes ≡ 0
      → (r : FromBuffer) × (parse_buffer_loop t drain_source buffer fuel buf_pos p m ≡ ok r)
        × Accounts buffer buf_pos p r
  unfolding parse_buffer_loop
  parse_buffer_loop-Accounts zero buf_pos p m inside enough c e z = absurd (omega arith)
  parse_buffer_loop-Accounts (suc fuel) buf_pos p m inside enough c e z =
      let bytes = (read_line (drop buf_pos buffer)).0 in
      let p' : MessageParser = record p { line = p.line ++ bytes } in
      let parsed = parse_line t p' m in
      let k = parse_line-Conserves t p' m c e z in
      let short = length-read_line (drop buf_pos buffer) in
      let moves = read_line-moves (drop buf_pos buffer) in
      let left_over = length-drop buf_pos buffer in
      let longer = length-append p.line bytes in
      let unfinished : MessageParser → Parsed =
        λ q. record { completed = false; parser = q; message = m } in
      let behind = buf_pos + length bytes in
      elim (Bool-cases (length buffer == buf_pos)) [
        | inl at_end ↦ (
          record { result = unfinished p; buf_pos = buf_pos },
          rw at_end refl,
          record { within = inside; total = omega (arith, z); clean_after = c },
        )
        | inr more ↦
            let left : buf_pos < length buffer = ground arith in
            elim (Bool-cases (not (read_line (drop buf_pos buffer)).1 && not drain_source)) [
              | inl wait ↦ (
                record { result = unfinished p'; buf_pos = behind },
                rw (more, wait) refl,
                record {
                  within = omega (arith, short, left_over);
                  total = omega (arith, z, short, left_over, longer);
                  clean_after = c;
                },
              )
              | inr go ↦ elim (Bool-cases parsed.completed) [
                | inl completed ↦ (
                  record { result = parsed; buf_pos = behind },
                  rw (more, go, completed) refl,
                  record {
                    within = omega (arith, short, left_over);
                    total = omega (arith, k.bytes, ap length k.no_line, short, left_over, longer);
                    clean_after = k.clean;
                  },
                )
                | inr incomplete ↦
                    let same = not_completed k.untouched incomplete in
                    let (r, done, a) =
                      parse_buffer_loop-Accounts fuel (buf_pos + length bytes) parsed.parser
                        parsed.message (omega (arith, short, left_over))
                        (omega (arith, moves (omega (arith, left_over)))) k.clean
                        (ap (λ (x : ParsedMessage). x.content) same ∙ e)
                        (ap (λ (x : ParsedMessage). x.orig_num_bytes) same ∙ z) in
                    (
                      r,
                      rw (more, go, incomplete) done,
                      record {
                        within = a.within;
                        total = omega (
                          arith,
                          a.total,
                          k.bytes,
                          ap length k.no_line,
                          short,
                          left_over,
                          longer,
                          ap (λ (x : ParsedMessage). x.orig_num_bytes) same,
                          z,
                        );
                        clean_after = a.clean_after;
                      },
                    )
              ]
            ]
      ]

  -- A call on a buffer always returns. Every byte of the buffer from `buf_pos` on, of the line that
  -- was begun and of the message that was buffered is in the message returned, in the message that
  -- is buffered, in the line that is begun or behind the new `buf_pos`, and is counted once.
  pub parse_next_message-Accounts :
      (buf_pos : ℕ) (p : MessageParser) (m : ParsedMessage)
      → buf_pos ≤ length buffer
      → IsClean p.buffered_msg
      → (r : FromBuffer) × (parse_next_message_from_buffer t drain_source buffer buf_pos p m ≡ ok r)
        × Accounts buffer buf_pos p r
  unfolding parse_next_message_from_buffer clear_except_ts_patt
  parse_next_message-Accounts buf_pos p m inside c =
      parse_buffer_loop-Accounts (suc (length buffer)) buf_pos p (clear_except_ts_patt m) inside
        (omega arith) c refl refl
