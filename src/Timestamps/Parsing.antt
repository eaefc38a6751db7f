-- ===== src/Timestamps/Parsing.antt =====
-- `TimestampPattern::parse_timestamp` and `search_known_ts_patterns`.
use clp_core.Base.{
  ℕ, suc, ◌+◌, Bool, true, false, not, ◌==◌, ◌&&◌, ltb, leb, if◌then◌else◌, Bytes, bytes_eq, List,
  [], ◌∷◌, length, codes, byte_at, substr, Option, none, some,
}
use clp_core.Base.Int.{ℤ}
use clp_core.Timestamps.{
  TimestampPattern, DateLib, Directive, directive_of, convert_string_to_number, skip_spaces,
  at_time, milliseconds_of, month_names, abbrev_month_names, abbrev_days_of_week,
}

pub record Fields : Type 0 where
  pub date : ℕ
  pub month : ℕ
  pub year : ℕ
  pub hour : ℕ
  pub uses_12_hour_clock : Bool
  pub minute : ℕ
  pub second : ℕ
  pub millisecond : ℕ
  pub is_pm : Bool

abbrev pub no_fields : Fields
no_fields = record {
  date = 1;
  month = 1;
  year = 1970;
  hour = 0;
  uses_12_hour_clock = false;
  minute = 0;
  second = 0;
  millisecond = 0;
  is_pm = false;
}

-- A field of `len` bytes: too short, no number and out of range are the cases that return false.
unfoldable pub read_padded : Bytes → ℕ → ℕ → ℕ → ℕ → ℕ → Option ℕ
unfolding convert_string_to_number
read_padded line line_ix len padding lowest highest =
    if ltb (length line) (line_ix + len)
    then none
    else elim (convert_string_to_number line line_ix (line_ix + len) padding) [
      | none ↦ none
      | some value ↦ if leb lowest value && leb value highest then some value else none
    ]

-- `0 == line.compare (line_ix, strlen (name), name)`
unfoldable pub name_at : Bytes → ℕ → Bytes → Bool
name_at line line_ix name = bytes_eq (substr line line_ix (length name)) name

-- The loops over the names: the index of the first that matches, and its length.
unfoldable pub match_name : List Bytes → Bytes → ℕ → ℕ → Option (ℕ × ℕ)
unfolding name_at
match_name [] line line_ix i = none
match_name (name ∷ names) line line_ix i = elim (name_at line line_ix name) [
  | true ↦ some (i, length name)
  | false ↦ match_name names line line_ix (suc i)
]

abbrev pub set_number : Option ℕ → ℕ → (ℕ → Fields) → Option (Fields × ℕ)
set_number none line_ix set = none
set_number (some value) line_ix set = some (set value, line_ix)

abbrev pub set_name : Option (ℕ × ℕ) → ℕ → (ℕ → Fields) → Option (Fields × ℕ)
set_name none line_ix set = none
set_name (some (i, len)) line_ix set = some (set i, line_ix + len)

abbrev pub century : ℕ → ℕ
century year = if leb 69 year then year + 1900 else year + 2000

-- The `switch`; `none` where a case returns false.
unfoldable pub parse_field : Directive → Bytes → ℕ → Fields → Option (Fields × ℕ)
unfolding read_padded match_name name_at
parse_field Directive.percent line ix f =
    if not (b'%' == byte_at line ix) then none else some (f, ix + 1)
parse_field Directive.year_in_century line ix f =
    set_number (read_padded line ix 2 b'0' 0 99) (ix + 2) (λ v. record f { year = century v })
parse_field Directive.year_with_century line ix f =
    set_number (read_padded line ix 4 b'0' 0 9999) (ix + 4) (λ v. record f { year = v })
parse_field Directive.month_name line ix f =
    set_name (match_name month_names line ix 0) ix (λ i. record f { month = i + 1 })
parse_field Directive.abbrev_month_name line ix f =
    set_name (match_name abbrev_month_names line ix 0) ix (λ i. record f { month = i + 1 })
parse_field Directive.padded_month line ix f =
    set_number (read_padded line ix 2 b'0' 1 12) (ix + 2) (λ v. record f { month = v })
parse_field Directive.zero_padded_date line ix f =
    set_number (read_padded line ix 2 b'0' 1 31) (ix + 2) (λ v. record f { date = v })
parse_field Directive.space_padded_date line ix f =
    set_number (read_padded line ix 2 b' ' 1 31) (ix + 2) (λ v. record f { date = v })
parse_field Directive.abbrev_day line ix f =
    set_name (match_name abbrev_days_of_week line ix 0) ix (λ i. f)
parse_field Directive.part_of_day line ix f =
    if name_at line ix (codes "AM")
    then some (record f { is_pm = false }, ix + 2)
    else if name_at line ix (codes "PM")
    then some (record f { is_pm = true }, ix + 2)
    else none
parse_field Directive.zero_padded_hour line ix f =
    set_number (read_padded line ix 2 b'0' 0 23) (ix + 2) (λ v. record f { hour = v })
parse_field Directive.space_padded_hour line ix f =
    set_number (read_padded line ix 2 b' ' 0 23) (ix + 2) (λ v. record f { hour = v })
parse_field Directive.zero_padded_hour_12 line ix f =
    set_number (read_padded line ix 2 b'0' 1 12) (ix + 2)
      (λ v. record f { hour = v; uses_12_hour_clock = true })
parse_field Directive.space_padded_hour_12 line ix f =
    set_number (read_padded line ix 2 b' ' 1 12) (ix + 2)
      (λ v. record f { hour = v; uses_12_hour_clock = true })
parse_field Directive.padded_minute line ix f =
    set_number (read_padded line ix 2 b'0' 0 59) (ix + 2) (λ v. record f { minute = v })
parse_field Directive.padded_second line ix f =
    set_number (read_padded line ix 2 b'0' 0 60) (ix + 2) (λ v. record f { second = v })
parse_field Directive.padded_millisecond line ix f =
    set_number (read_padded line ix 3 b'0' 0 999) (ix + 3) (λ v. record f { millisecond = v })

-- The loop over the format that is left, with the check behind it: a line that ends too early.
unfoldable pub parse_format : Bytes → Bool → Bytes → ℕ → Fields → Option (Fields × ℕ)
unfolding parse_field directive_of
parse_format [] is_specifier line ix f = some (f, ix)
parse_format (c ∷ format) false line ix f = elim (ltb ix (length line)) [
  | false ↦ none
  | true ↦ elim (b'%' == c) [
    | true ↦ parse_format format true line ix f
    | false ↦ elim (c == byte_at line ix) [
      | true ↦ parse_format format false line (ix + 1) f
      | false ↦ none
    ]
  ]
]
parse_format (c ∷ format) true line ix f = elim (ltb ix (length line)) [
  | false ↦ none
  | true ↦ elim (directive_of c) [
    | none ↦ none
    | some d ↦ elim (parse_field d line ix f) [
      | none ↦ none
      | some (f', ix') ↦ parse_format format false line ix' f'
    ]
  ]
]

-- The hour on the 24-hour clock.
abbrev pub hour_of : Fields → ℕ
hour_of f =
    if f.uses_12_hour_clock
    then (if 12 == f.hour
        then (if not f.is_pm then 0 else f.hour)
        else (if f.is_pm then f.hour + 12 else f.hour))
    else f.hour

pub record ParsedTimestamp : Type 0 where
  pub timestamp : ℤ
  pub timestamp_begin_pos : ℕ
  pub timestamp_end_pos : ℕ

module _ (lib : DateLib) where
  -- The date is checked, and put together with the time.
  unfoldable pub finish : ℕ → Fields → ℕ → Option ParsedTimestamp
  finish ts_begin_ix f line_ix =
      if not (lib.date_ok f.year f.month f.date)
      then none
      else some (record {
        timestamp =
            at_time (lib.sys_days f.year f.month f.date)
              (milliseconds_of (hour_of f) f.minute f.second f.millisecond);
        timestamp_begin_pos = ts_begin_ix;
        timestamp_end_pos = line_ix;
      })

  unfoldable pub parse_timestamp : TimestampPattern → Bytes → Option ParsedTimestamp
  unfolding parse_format skip_spaces finish
  parse_timestamp p line = elim (skip_spaces p.num_spaces_before_ts line) [
    | none ↦ none
    | some ts_begin_ix ↦ elim (parse_format p.format false line ts_begin_ix no_fields) [
      | none ↦ none
      | some (f, line_ix) ↦ finish ts_begin_ix f line_ix
    ]
  ]

  -- The first known pattern that parses the line, by its index, from `i` on.
  unfoldable pub search_patterns : List TimestampPattern → ℕ → Bytes → Option (ℕ × ParsedTimestamp)
  unfolding parse_timestamp
  search_patterns [] i line = none
  search_patterns (p ∷ ps) i line = elim (parse_timestamp p line) [
    | some t ↦ some (i, t)
    | none ↦ search_patterns ps (suc i) line
  ]
