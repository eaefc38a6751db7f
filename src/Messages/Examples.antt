-- ===== src/Messages/Examples.antt =====
-- Two lines, the first with a timestamp of four bytes.
use clp_core.Base.{
  ◌≡◌, refl, false, Bytes, bytes_eq, take, [], codes, if◌then◌else◌, Option, none, some, ok, inl,
  arith,
}
use clp_core.Base.Int.{ℤ, ◌-ℤ◌}
use clp_core.Messages.{
  MessageParser, Timestamp, TimestampParser, FromBuffer, new_message, parse_line, timestamp_of,
  parse_next_message_from_buffer,
}
use clp_core.Messages.Conservation.{
  IsClean, Conserves, line_content, parse_line-Conserves, Accounts, parse_next_message-Accounts,
}
use clp_core.Timestamps.{inserted}
use clp_core.Timestamps.Inserting.{parts_of, insert_formatted_timestamp}
use clp_core.Timestamps.Searching.{iso_pattern}
use clp_core.Timestamps.Examples.{uniform, uniform-CalendarLaws, moment}
use clp_core.Messages.Timestamped.{known_patterns, Starts, parse_line-insert_formatted_timestamp}

abbrev year : Bytes → Option Timestamp
year line =
    if bytes_eq (take 2 line) (codes "20")
    then some (record { patt = 0; ts = ℤ.pos 2020; begin_pos = 0; end_pos = 4 })
    else none

abbrev years : TimestampParser
years = record { parse_timestamp = λ p. year; search_known_ts_patterns = year }

abbrev parser : MessageParser
parser = record { line = codes "2020 up\n"; buffered_msg = new_message }

new_message-IsClean : IsClean new_message
new_message-IsClean = record { no_content = λ h. refl; no_bytes = λ h. refl }

parse_line-Conserves_example :
    Conserves parser new_message
      (line_content (timestamp_of years new_message (codes "2020 up\n")) (codes "2020 up\n"))
      (parse_line years parser new_message)
parse_line-Conserves_example =
    parse_line-Conserves years parser new_message new_message-IsClean refl refl

abbrev log_text : Bytes
log_text = codes "2020 up\nand on\n2021 down\n"

abbrev idle : MessageParser
idle = record { line = []; buffered_msg = new_message }

parse_next_message-Accounts_example :
    (r : FromBuffer) × (parse_next_message_from_buffer years false log_text 0 idle new_message
      ≡ ok r)
    × Accounts log_text 0 idle r
parse_next_message-Accounts_example =
    parse_next_message-Accounts years false log_text 0 idle new_message (omega arith)
      new_message-IsClean

parse_line-insert_formatted_timestamp_example :
    (line : Bytes) × (insert_formatted_timestamp uniform iso_pattern moment (codes " up\n")
      ≡ inserted line)
    × Starts line
        (codes " up\n")
        moment
        (parse_line
          (known_patterns uniform)
          (record { line = line; buffered_msg = new_message })
          new_message).parser.buffered_msg
unfolding parts_of ◌-ℤ◌
parse_line-insert_formatted_timestamp_example =
    parse_line-insert_formatted_timestamp uniform moment 2016 (codes " up\n") new_message
      new_message uniform-CalendarLaws (omega arith, omega arith) refl (inl refl)
