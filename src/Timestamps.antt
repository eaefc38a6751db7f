-- ===== src/Timestamps.antt =====
-- src/TimestampPattern.hpp and the helpers at the top of src/TimestampPattern.cpp. The date library of
-- the submodule is a parameter.
pub mod Parsing
pub mod Inserting
pub mod Known
mod Digits
mod Names
mod Formatted
mod FieldText
pub mod FormatText
pub mod RoundTrip
pub mod Bounds
pub mod Searching
pub mod Examples
use clp_core.Base.{
  ℕ, zero, suc, ◌+◌, ◌-◌, ◌*◌, Bool, true, false, not, ◌==◌, ◌&&◌, ltb, leb, if◌then◌else◌, Bytes,
  bytes_eq, List, [], ◌∷◌, ◌++◌, length, codes, slice, replicate, Option, none, some, ErrorCode,
}
use clp_core.Base.Int.{ℤ, pos_part, neg_part, sub_ℕ}
use clp_core.Decimal.{to_string}

pub record TimestampPattern : Type 0 where
  pub num_spaces_before_ts : ℕ
  pub format : Bytes

pub record Date : Type 0 where
  pub year : ℤ
  pub month : ℕ
  pub day : ℕ

pub record TimeOfDay : Type 0 where
  pub hours : ℕ
  pub minutes : ℕ
  pub seconds : ℕ
  pub subseconds : ℕ

-- Days are counted from the epoch, times are in milliseconds. `year_month_day` and `weekday` are of a
-- day, `ok` and `sys_days` of a year, a month and a date.
pub record DateLib : Type 0 where
  pub floor_days : ℤ → ℤ
  pub year_month_day : ℤ → Date
  pub weekday : ℤ → ℕ
  pub make_time : ℤ → TimeOfDay
  pub date_ok : ℕ → ℕ → ℕ → Bool
  pub sys_days : ℕ → ℕ → ℕ → ℤ

-- `sys_days + milliseconds`
abbrev pub at_time : ℤ → ℕ → ℤ
at_time days milliseconds =
    sub_ℕ (pos_part days * 86_400_000 + milliseconds) (neg_part days * 86_400_000)

abbrev pub milliseconds_of : ℕ → ℕ → ℕ → ℕ → ℕ
milliseconds_of hour minute second millisecond =
    hour * 3_600_000 + minute * 60_000 + second * 1000 + millisecond

abbrev pub abbrev_days_of_week : List Bytes
abbrev_days_of_week =
    codes "Sun"
    ∷ codes "Mon"
    ∷ codes "Tue"
    ∷ codes "Wed"
    ∷ codes "Thu"
    ∷ codes "Fri"
    ∷ codes "Sat"
    ∷ []

abbrev pub abbrev_month_names : List Bytes
abbrev_month_names =
    codes "Jan"
    ∷ codes "Feb"
    ∷ codes "Mar"
    ∷ codes "Apr"
    ∷ codes "May"
    ∷ codes "Jun"
    ∷ codes "Jul"
    ∷ codes "Aug"
    ∷ codes "Sep"
    ∷ codes "Oct"
    ∷ codes "Nov"
    ∷ codes "Dec"
    ∷ []

abbrev pub month_names : List Bytes
month_names =
    codes "January"
    ∷ codes "February"
    ∷ codes "March"
    ∷ codes "April"
    ∷ codes "May"
    ∷ codes "June"
    ∷ codes "July"
    ∷ codes "August"
    ∷ codes "September"
    ∷ codes "October"
    ∷ codes "November"
    ∷ codes "December"
    ∷ []

-- The cases of the `switch` on a byte behind a `%`.
pub data Directive : Type 0 where
  percent year_in_century year_with_century month_name abbrev_month_name : Directive
  padded_month zero_padded_date space_padded_date abbrev_day part_of_day : Directive
  zero_padded_hour space_padded_hour zero_padded_hour_12 space_padded_hour_12 : Directive
  padded_minute padded_second padded_millisecond : Directive

unfoldable pub directive_of : ℕ → Option Directive
directive_of c =
    if c == b'%'
    then some Directive.percent
    else if c == b'y'
    then some Directive.year_in_century
    else if c == b'Y'
    then some Directive.year_with_century
    else if c == b'B'
    then some Directive.month_name
    else if c == b'b'
    then some Directive.abbrev_month_name
    else if c == b'm'
    then some Directive.padded_month
    else if c == b'd'
    then some Directive.zero_padded_date
    else if c == b'e'
    then some Directive.space_padded_date
    else if c == b'a'
    then some Directive.abbrev_day
    else if c == b'p'
    then some Directive.part_of_day
    else if c == b'H'
    then some Directive.zero_padded_hour
    else if c == b'k'
    then some Directive.space_padded_hour
    else if c == b'I'
    then some Directive.zero_padded_hour_12
    else if c == b'l'
    then some Directive.space_padded_hour_12
    else if c == b'M'
    then some Directive.padded_minute
    else if c == b'S'
    then some Directive.padded_second
    else if c == b'3'
    then some Directive.padded_millisecond
    else none

-- The loop of `convert_string_to_number` over the padding characters; what is left.
unfoldable pub skip_padding : ℕ → Bytes → Bytes
skip_padding padding [] = []
skip_padding padding (c ∷ s) = elim (padding == c) [ true ↦ skip_padding padding s | false ↦ c ∷ s ]

-- Its loop over the digits.
unfoldable pub digits_value : Bytes → ℕ → Option ℕ
digits_value [] converted_value = some converted_value
digits_value (c ∷ s) converted_value =
    let rest = digits_value s (converted_value * 10 + (c - b'0')) in
    if not (leb b'0' c && leb c b'9') then none else rest

unfoldable pub convert_string_to_number : Bytes → ℕ → ℕ → ℕ → Option ℕ
unfolding skip_padding digits_value
convert_string_to_number str begin_ix end_ix padding =
    digits_value (skip_padding padding (slice str begin_ix end_ix)) 0

-- The search for where the timestamp goes: behind as many spaces as the pattern says. `none` where
-- there are too few.
unfoldable pub skip_spaces : ℕ → Bytes → Option ℕ
skip_spaces zero s = some 0
skip_spaces (suc n) [] = none
skip_spaces (suc n) (c ∷ s) = elim (b' ' == c) [
  | true ↦ elim (skip_spaces n s) [ none ↦ none | some i ↦ some (i + 1) ]
  | false ↦ elim (skip_spaces (suc n) s) [ none ↦ none | some i ↦ some (i + 1) ]
]

-- `length_error` is what `std::string::append` throws when the width of a value is beyond the length
-- that it is padded to, since the difference wraps around.
pub data Inserted : Type 0 where
  inserted : Bytes → Inserted
  failed : ErrorCode → Inserted
  length_error : Inserted

unfoldable pub append_padded_value : ℤ → ℕ → ℕ → Bytes → Inserted
append_padded_value value padding len str =
    let value_str = to_string value in
    if ltb len (length value_str)
    then length_error
    else inserted (str ++ replicate (len - length value_str) padding ++ value_str)

unfoldable pub same_pattern : TimestampPattern → TimestampPattern → Bool
same_pattern lhs rhs =
    lhs.num_spaces_before_ts == rhs.num_spaces_before_ts && bytes_eq lhs.format rhs.format

unfoldable pub is_empty : TimestampPattern → Bool
is_empty p = length p.format == 0

unfoldable pub clear_pattern : TimestampPattern → TimestampPattern
clear_pattern p = record { num_spaces_before_ts = 0; format = [] }
