-- ===== src/Timestamps/Examples.antt =====
-- Timestamps put into a message and found again, with a calendar of twelve months of 31 days for the
-- date library.
use clp_core.Base.{
  ℕ, ◌+◌, ◌-◌, ◌*◌, ◌/◌, ◌%◌, ◌≤◌, ◌<◌, ◌&&◌, leb, Bytes, ◌++◌, codes, drop, length, some, ◌≡◌,
  refl, ap, ◌∙◌, arith,
}
use clp_core.Base.Int.{ℤ, pos, negsuc, pos_part, neg_part, sub_ℕ, ◌-ℤ◌}
use clp_core.Timestamps.{
  TimestampPattern, Date, TimeOfDay, DateLib, inserted, at_time, milliseconds_of, skip_spaces,
  directive_of,
}
use clp_core.Timestamps.Parsing.{ParsedTimestamp, parse_timestamp, search_patterns}
use clp_core.Timestamps.Inserting.{parts_of, insert_formatted_timestamp}
use clp_core.Timestamps.Known.{known_ts_patterns}
use clp_core.Timestamps.RoundTrip.{CalendarLaws, stamp, insert_formatted_timestamp-format_text}
use clp_core.Timestamps.Bounds.{parse_timestamp-bounds}
use clp_core.Timestamps.Searching.{
  FirstParses, iso_pattern, NoneParses, search_patterns-FirstParses, search_patterns-NoneParses,
  search_patterns-insert_formatted_timestamp,
}

abbrev time_of : ℕ → TimeOfDay
time_of n = record {
  hours = n / 3_600_000;
  minutes = (n / 60_000) % 60;
  seconds = (n / 1000) % 60;
  subseconds = n % 1000;
}

abbrev floor_days : ℤ → ℤ
floor_days (pos n) = pos (n / 86_400_000)
floor_days (negsuc n) = negsuc (n / 86_400_000)

abbrev date_of : ℕ → Date
date_of n = record { year = pos (n / 372); month = (n / 31) % 12 + 1; day = n % 31 + 1 }

-- The days since the first day of the year 0.
abbrev day_number : ℤ → ℕ
day_number day = pos_part day + 719_528 - neg_part day

abbrev pub uniform : DateLib
uniform = record {
  floor_days = floor_days;
  year_month_day = λ day. date_of (day_number day);
  weekday = λ day. day_number day % 7;
  make_time = λ time. time_of (pos_part time);
  date_ok = λ year month day. leb 1 month && leb month 12 && leb 1 day && leb day 31;
  sys_days = λ year month day. sub_ℕ (year * 372 + (month - 1) * 31 + (day - 1)) 719_528;
}

time_back :
    (n : ℕ) → milliseconds_of (n / 3_600_000) ((n / 60_000) % 60) ((n / 1000) % 60) (n % 1000) ≡ n
time_back n = omega arith

date_back : (n : ℕ) → n / 372 * 372 + ((n / 31) % 12 + 1 - 1) * 31 + (n % 31 + 1 - 1) ≡ n
date_back n = omega arith

-- The time of day, in milliseconds.
abbrev behind : ℤ → ℕ
behind (pos n) = n % 86_400_000
behind (negsuc n) = 86_400_000 - 1 - n % 86_400_000

behind-lt : (t : ℤ) → behind t < 86_400_000
behind-lt (pos n) = omega arith
behind-lt (negsuc n) = omega arith

time_behind : (t : ℤ) → pos_part (t -ℤ at_time (floor_days t) 0) ≡ behind t
unfolding ◌-ℤ◌
time_behind (pos n) = ground arith
time_behind (negsuc n) = ground arith

at_behind : (t : ℤ) → at_time (floor_days t) (behind t) ≡ t
at_behind (pos n) = ground arith
at_behind (negsuc n) = ground arith

day_back : (day : ℤ) → neg_part day ≤ 719_528 → sub_ℕ (day_number day) 719_528 ≡ day
day_back (pos n) h = ground arith
day_back (negsuc n) h = ground arith

pub uniform-CalendarLaws : CalendarLaws uniform
unfolding ◌-ℤ◌
uniform-CalendarLaws = record {
  times = λ t.
      let same = time_behind t in
      let small = behind-lt t in
      record {
        hours_high = omega (arith, same, small);
        minutes_high = omega arith;
        seconds_high = omega arith;
        subseconds_high = omega arith;
        recompose = ap (at_time (floor_days t)) (time_back _ ∙ same) ∙ at_behind t;
      };
  dates = λ day inside. record {
    year_number = day_number day / 372;
    year = refl;
    year_high = omega (arith, inside.0, inside.1);
    month_low = omega arith;
    month_high = omega arith;
    day_low = omega arith;
    day_high = omega arith;
    weekday_high = omega arith;
    ok = ground arith;
    back = ap (λ n. sub_ℕ n 719_528) (date_back (day_number day)) ∙ day_back day inside.0;
  };
}

-- In the year 2016 of that calendar.
abbrev pub moment : ℤ
moment = pos 2_628_645_045_678

abbrev comma_pattern : TimestampPattern
comma_pattern = record { num_spaces_before_ts = 1; format = codes "%b %d %Y, %I:%M:%S %p %3" }

insert_formatted_timestamp-format_text_example :
    insert_formatted_timestamp uniform comma_pattern moment (codes "at : x")
    ≡ inserted ((codes "at " ++ stamp uniform comma_pattern moment 2016) ++ codes ": x")
unfolding parts_of directive_of skip_spaces ◌-ℤ◌
insert_formatted_timestamp-format_text_example =
    insert_formatted_timestamp-format_text uniform comma_pattern moment 2016 (codes "at : x") 3
      uniform-CalendarLaws (omega arith, omega arith) refl
      (tt, (tt, (tt, (omega arith, (tt, (tt, (tt, (tt, tt)))))))) refl

search_patterns-insert_formatted_timestamp_example :
    (msg' : Bytes) × (end : ℕ) × (insert_formatted_timestamp uniform iso_pattern moment (codes " x")
      ≡ inserted msg')
    × (search_patterns uniform known_ts_patterns 0 msg'
        ≡ some (0, record { timestamp = moment; timestamp_begin_pos = 0; timestamp_end_pos = end }))
    × (drop end msg' ≡ codes " x")
unfolding parts_of ◌-ℤ◌
search_patterns-insert_formatted_timestamp_example =
    search_patterns-insert_formatted_timestamp uniform moment 2016 (codes " x") uniform-CalendarLaws
      (omega arith, omega arith) refl

abbrev parsed : ParsedTimestamp
parsed = record {
  timestamp = pos 2_653_884_645_000;
  timestamp_begin_pos = 0;
  timestamp_end_pos = 19;
}

abbrev line : Bytes
line = codes "2016-10-14 06:10:45 x"

parse_timestamp-bounds_example : (skip_spaces 0 line ≡ some 0) × (0 ≤ 19) × (19 ≤ length line)
unfolding parse_timestamp known_ts_patterns
parse_timestamp-bounds_example =
    parse_timestamp-bounds uniform
      (record { num_spaces_before_ts = 0; format = codes "%Y-%m-%d %H:%M:%S" }) line parsed refl

search_patterns-FirstParses_example : FirstParses uniform known_ts_patterns line 7 parsed
unfolding search_patterns known_ts_patterns
search_patterns-FirstParses_example =
    search_patterns-FirstParses uniform known_ts_patterns line 7 parsed refl

search_patterns-NoneParses_example : NoneParses uniform known_ts_patterns (codes "no time")
unfolding search_patterns known_ts_patterns
search_patterns-NoneParses_example =
    search_patterns-NoneParses uniform known_ts_patterns (codes "no time") 0 refl
