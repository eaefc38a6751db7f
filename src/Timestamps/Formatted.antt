-- ===== src/Timestamps/Formatted.antt =====
-- What a timestamp looks like under a format, and what of it is read back: independent of how the
-- program walks over the format.
use clp_core.Base.{
  ℕ, ◌-◌, ◌≤◌, ◌<◌, ◌==◌, Bool, true, false, ltb, leb, if◌then◌else◌, Bytes, [], ◌∷◌, ◌++◌, codes,
  get_or, none, some, ◌≡◌, ◌≢◌,
}
use clp_core.Base.Int.{pos}
use clp_core.Timestamps.{
  Directive, directive_of, month_names, abbrev_month_names, abbrev_days_of_week,
}
use clp_core.Timestamps.Parsing.{Fields, hour_of}
use clp_core.Timestamps.Inserting.{Parts, hour_12}
use clp_core.Timestamps.Digits.{padded}

-- The parts are those of a date and a time of day, in a year from 0 to 9999.
pub record InRange (p : Parts) (y : ℕ) : Type 0 where
  pub year : p.year ≡ pos y
  pub year_high : y ≤ 9999
  pub month_low : 1 ≤ p.month
  pub month_high : p.month ≤ 12
  pub date_low : 1 ≤ p.date
  pub date_high : p.date ≤ 31
  pub day_of_week_ix_high : p.day_of_week_ix < 7
  pub hour_high : p.hour < 24
  pub minute_high : p.minute < 60
  pub second_high : p.second < 60
  pub millisecond_high : p.millisecond < 1000

abbrev pub year_in_century : ℕ → ℕ
year_in_century y = if leb 2000 y then y - 2000 else y - 1900

-- The text of a field, in the year `y`.
abbrev pub field_text : Directive → Parts → ℕ → Bytes
field_text Directive.percent p y = b'%' ∷ []
field_text Directive.year_in_century p y = padded b'0' 2 (year_in_century y)
field_text Directive.year_with_century p y = padded b'0' 4 y
field_text Directive.month_name p y = get_or month_names (p.month - 1) []
field_text Directive.abbrev_month_name p y = get_or abbrev_month_names (p.month - 1) []
field_text Directive.padded_month p y = padded b'0' 2 p.month
field_text Directive.zero_padded_date p y = padded b'0' 2 p.date
field_text Directive.space_padded_date p y = padded b' ' 2 p.date
field_text Directive.abbrev_day p y = get_or abbrev_days_of_week p.day_of_week_ix []
field_text Directive.part_of_day p y = if ltb 11 p.hour then codes "PM" else codes "AM"
field_text Directive.zero_padded_hour p y = padded b'0' 2 p.hour
field_text Directive.space_padded_hour p y = padded b' ' 2 p.hour
field_text Directive.zero_padded_hour_12 p y = padded b'0' 2 (hour_12 p.hour)
field_text Directive.space_padded_hour_12 p y = padded b' ' 2 (hour_12 p.hour)
field_text Directive.padded_minute p y = padded b'0' 2 p.minute
field_text Directive.padded_second p y = padded b'0' 2 p.second
field_text Directive.padded_millisecond p y = padded b'0' 3 p.millisecond

-- What reading a field tells.
abbrev pub field_read : Directive → Parts → ℕ → Fields → Fields
field_read Directive.percent p y f = f
field_read Directive.year_in_century p y f = record f { year = y }
field_read Directive.year_with_century p y f = record f { year = y }
field_read Directive.month_name p y f = record f { month = p.month }
field_read Directive.abbrev_month_name p y f = record f { month = p.month }
field_read Directive.padded_month p y f = record f { month = p.month }
field_read Directive.zero_padded_date p y f = record f { date = p.date }
field_read Directive.space_padded_date p y f = record f { date = p.date }
field_read Directive.abbrev_day p y f = f
field_read Directive.part_of_day p y f = record f { is_pm = ltb 11 p.hour }
field_read Directive.zero_padded_hour p y f = record f { hour = p.hour }
field_read Directive.space_padded_hour p y f = record f { hour = p.hour }
field_read Directive.zero_padded_hour_12 p y f = record f {
  hour = hour_12 p.hour;
  uses_12_hour_clock = true;
}
field_read Directive.space_padded_hour_12 p y f = record f {
  hour = hour_12 p.hour;
  uses_12_hour_clock = true;
}
field_read Directive.padded_minute p y f = record f { minute = p.minute }
field_read Directive.padded_second p y f = record f { second = p.second }
field_read Directive.padded_millisecond p y f = record f { millisecond = p.millisecond }

-- The fields that are written so that they can be read: two digits of the year are enough from 1969 to
-- 2068, and 13 o'clock has no hour on the 12-hour clock as the program writes it.
abbrev pub Readable : Directive → Parts → ℕ → Type 0
Readable Directive.year_in_century p y = (1969 ≤ y) × (y ≤ 2068)
Readable Directive.zero_padded_hour_12 p y = p.hour ≢ 13
Readable Directive.space_padded_hour_12 p y = p.hour ≢ 13
Readable _ p y = Unit

-- A whole format: its text, what reading it tells, and that every `%` in it stands in front of a
-- directive that is readable.
abbrev pub format_text : Bytes → Bool → Parts → ℕ → Bytes
format_text [] is_specifier p y = []
format_text (c ∷ format) false p y = elim (b'%' == c) [
  | true ↦ format_text format true p y
  | false ↦ c ∷ format_text format false p y
]
format_text (c ∷ format) true p y = elim (directive_of c) [
  | none ↦ []
  | some d ↦ field_text d p y ++ format_text format false p y
]

abbrev pub format_read : Bytes → Bool → Parts → ℕ → Fields → Fields
format_read [] is_specifier p y f = f
format_read (c ∷ format) false p y f = elim (b'%' == c) [
  | true ↦ format_read format true p y f
  | false ↦ format_read format false p y f
]
format_read (c ∷ format) true p y f = elim (directive_of c) [
  | none ↦ f
  | some d ↦ format_read format false p y (field_read d p y f)
]

abbrev pub AllReadable : Bytes → Bool → Parts → ℕ → Type 0
AllReadable [] false p y = Unit
AllReadable [] true p y = ⊥
AllReadable (c ∷ format) false p y = elim (b'%' == c) [
  | true ↦ AllReadable format true p y
  | false ↦ AllReadable format false p y
]
AllReadable (c ∷ format) true p y = elim (directive_of c) [
  | none ↦ ⊥
  | some d ↦ Readable d p y × AllReadable format false p y
]

-- The fields tell the whole of the parts.
pub record Tells (f : Fields) (p : Parts) (y : ℕ) : Type 0 where
  pub year : f.year ≡ y
  pub month : f.month ≡ p.month
  pub date : f.date ≡ p.date
  pub hour : hour_of f ≡ p.hour
  pub minute : f.minute ≡ p.minute
  pub second : f.second ≡ p.second
  pub millisecond : f.millisecond ≡ p.millisecond
