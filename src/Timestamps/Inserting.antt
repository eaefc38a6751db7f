-- ===== src/Timestamps/Inserting.antt =====
-- `TimestampPattern::insert_formatted_timestamp`.
use clp_core.Base.{
  ℕ, ◌-◌, ◌==◌, Bool, true, false, ltb, if◌then◌else◌, Bytes, get_or, [], ◌∷◌, ◌++◌, codes, take,
  drop, none, some, ErrorCode,
}
use clp_core.Base.Int.{ℤ, pos, ◌-ℤ◌, leb_ℤ}
use clp_core.Timestamps.{
  TimestampPattern, DateLib, Directive, directive_of, skip_spaces, Inserted, inserted, failed,
  length_error, append_padded_value, month_names, abbrev_month_names, abbrev_days_of_week, at_time,
}

-- The parts of a timestamp.
pub record Parts : Type 0 where
  pub year : ℤ
  pub month : ℕ
  pub date : ℕ
  pub day_of_week_ix : ℕ
  pub hour : ℕ
  pub minute : ℕ
  pub second : ℕ
  pub millisecond : ℕ

unfoldable pub parts_of : DateLib → ℤ → Parts
parts_of lib timestamp =
    let day = lib.floor_days timestamp in
    let ymd = lib.year_month_day day in
    let time = lib.make_time (timestamp -ℤ at_time day 0) in
    record {
      year = ymd.year;
      month = ymd.month;
      date = ymd.day;
      day_of_week_ix = lib.weekday day;
      hour = time.hours;
      minute = time.minutes;
      second = time.seconds;
      millisecond = time.subseconds;
    }

abbrev pub year_in : ℤ → ℤ
year_in year = if leb_ℤ (pos 2000) year then year -ℤ pos 2000 else year -ℤ pos 1900

-- The hour on the 12-hour clock, as the source computes it.
abbrev pub hour_12 : ℕ → ℕ
hour_12 hour = if 0 == hour then 12 else if ltb 13 hour then hour - 12 else hour

unfoldable pub render_field : Directive → Parts → Bytes → Inserted
unfolding append_padded_value
render_field Directive.percent p msg = inserted (msg ++ b'%' ∷ [])
render_field Directive.year_in_century p msg = append_padded_value (year_in p.year) b'0' 2 msg
render_field Directive.year_with_century p msg = append_padded_value p.year b'0' 4 msg
render_field Directive.month_name p msg = inserted (msg ++ get_or month_names (p.month - 1) [])
render_field Directive.abbrev_month_name p msg =
    inserted (msg ++ get_or abbrev_month_names (p.month - 1) [])
render_field Directive.padded_month p msg = append_padded_value (pos p.month) b'0' 2 msg
render_field Directive.zero_padded_date p msg = append_padded_value (pos p.date) b'0' 2 msg
render_field Directive.space_padded_date p msg = append_padded_value (pos p.date) b' ' 2 msg
render_field Directive.abbrev_day p msg =
    inserted (msg ++ get_or abbrev_days_of_week p.day_of_week_ix [])
render_field Directive.part_of_day p msg =
    inserted (msg ++ (if ltb 11 p.hour then codes "PM" else codes "AM"))
render_field Directive.zero_padded_hour p msg = append_padded_value (pos p.hour) b'0' 2 msg
render_field Directive.space_padded_hour p msg = append_padded_value (pos p.hour) b' ' 2 msg
render_field Directive.zero_padded_hour_12 p msg =
    append_padded_value (pos (hour_12 p.hour)) b'0' 2 msg
render_field Directive.space_padded_hour_12 p msg =
    append_padded_value (pos (hour_12 p.hour)) b' ' 2 msg
render_field Directive.padded_minute p msg = append_padded_value (pos p.minute) b'0' 2 msg
render_field Directive.padded_second p msg = append_padded_value (pos p.second) b'0' 2 msg
render_field Directive.padded_millisecond p msg = append_padded_value (pos p.millisecond) b'0' 3 msg

abbrev pub and_then : Inserted → (Bytes → Inserted) → Inserted
and_then (inserted msg) next = next msg
and_then (failed e) next = failed e
and_then length_error next = length_error

unfoldable pub render_format : Bytes → Bool → Parts → Bytes → Inserted
unfolding render_field directive_of
render_format [] is_specifier p msg = inserted msg
render_format (c ∷ format) false p msg = elim (b'%' == c) [
  | true ↦ render_format format true p msg
  | false ↦ render_format format false p (msg ++ c ∷ [])
]
render_format (c ∷ format) true p msg = elim (directive_of c) [
  | none ↦ failed ErrorCode.unsupported
  | some d ↦ and_then (render_field d p msg) (λ msg'. render_format format false p msg')
]

unfoldable pub insert_formatted_timestamp : DateLib → TimestampPattern → ℤ → Bytes → Inserted
unfolding render_format skip_spaces parts_of
insert_formatted_timestamp lib pattern timestamp msg =
    elim (skip_spaces pattern.num_spaces_before_ts msg) [
      | none ↦ failed ErrorCode.failure
      | some ts_begin_ix ↦
          and_then
            (render_format pattern.format false (parts_of lib timestamp) (take ts_begin_ix msg))
            (λ new_msg. inserted (new_msg ++ drop ts_begin_ix msg))
    ]
