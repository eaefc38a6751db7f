-- ===== src/Timestamps/FieldText.antt =====
-- The cases of the two `switch`es, each against the text of its field.
use clp_core.Base.{
  ℕ, ◌+◌, ◌-◌, ◌^◌, ◌≤◌, ◌<◌, true, ltb, Bool-cases, inl, inr, Bytes, List, [], ◌++◌, byte_at,
  byte_at-drop, codes, length, get_or, drop, some, ◌≡◌, ◌≢◌, refl, sym, ap, ◌∙◌, arith,
}
use clp_core.Base.Int.{pos, ◌-ℤ◌}
use clp_core.Timestamps.{Directive, inserted, month_names, abbrev_month_names, abbrev_days_of_week}
use clp_core.Timestamps.Parsing.{
  Fields, read_padded, match_name, set_number, set_name, century, parse_field,
}
use clp_core.Timestamps.Inserting.{Parts, year_in, hour_12, render_field}
use clp_core.Timestamps.Digits.{
  Padding, padded, length-padded, append_padded_value-fits, read_padded-padded,
}
use clp_core.Timestamps.Names.{match_name-own, name_at-own, name_at-other, apart, length-get_or}
use clp_core.Timestamps.Formatted.{InRange, year_in_century, field_text, field_read, Readable}

year_in-pos : (y : ℕ) → 1969 ≤ y → year_in (pos y) ≡ pos (year_in_century y)
unfolding ◌-ℤ◌
year_in-pos y h = ground arith

century-year_in_century :
    (y : ℕ) → 1969 ≤ y → y ≤ 2068 → (year_in_century y ≤ 99) × (century (year_in_century y) ≡ y)
century-year_in_century y lo hi = ground arith

hour_12-bounds : (hour : ℕ) → hour < 24 → hour ≢ 13 → (1 ≤ hour_12 hour) × (hour_12 hour ≤ 12)
hour_12-bounds hour h k = ground arith

-- In range, a field is appended as its text.
pub render_field-text :
    (d : Directive) (p : Parts) (y : ℕ) (msg : Bytes)
    → InRange p y
    → Readable d p y
    → render_field d p msg ≡ inserted (msg ++ field_text d p y)
unfolding render_field
render_field-text Directive.percent p y msg r h = refl
render_field-text Directive.year_in_century p y msg r (lo, hi) =
    rw (r.year, year_in-pos y lo)
      (append_padded_value-fits (year_in_century y) b'0' 2 msg (omega arith) (ground arith))
render_field-text Directive.year_with_century p y msg r h =
    rw r.year (append_padded_value-fits y b'0' 4 msg (omega arith) (omega (arith, r.year_high)))
render_field-text Directive.month_name p y msg r h = refl
render_field-text Directive.abbrev_month_name p y msg r h = refl
render_field-text Directive.padded_month p y msg r h =
    append_padded_value-fits p.month b'0' 2 msg (omega arith) (omega (arith, r.month_high))
render_field-text Directive.zero_padded_date p y msg r h =
    append_padded_value-fits p.date b'0' 2 msg (omega arith) (omega (arith, r.date_high))
render_field-text Directive.space_padded_date p y msg r h =
    append_padded_value-fits p.date b' ' 2 msg (omega arith) (omega (arith, r.date_high))
render_field-text Directive.abbrev_day p y msg r h = refl
render_field-text Directive.part_of_day p y msg r h = refl
render_field-text Directive.zero_padded_hour p y msg r h =
    append_padded_value-fits p.hour b'0' 2 msg (omega arith) (omega (arith, r.hour_high))
render_field-text Directive.space_padded_hour p y msg r h =
    append_padded_value-fits p.hour b' ' 2 msg (omega arith) (omega (arith, r.hour_high))
render_field-text Directive.zero_padded_hour_12 p y msg r h =
    append_padded_value-fits (hour_12 p.hour) b'0' 2 msg (omega arith)
      (omega (arith, (hour_12-bounds p.hour r.hour_high h).1))
render_field-text Directive.space_padded_hour_12 p y msg r h =
    append_padded_value-fits (hour_12 p.hour) b' ' 2 msg (omega arith)
      (omega (arith, (hour_12-bounds p.hour r.hour_high h).1))
render_field-text Directive.padded_minute p y msg r h =
    append_padded_value-fits p.minute b'0' 2 msg (omega arith) (omega (arith, r.minute_high))
render_field-text Directive.padded_second p y msg r h =
    append_padded_value-fits p.second b'0' 2 msg (omega arith) (omega (arith, r.second_high))
render_field-text Directive.padded_millisecond p y msg r h =
    append_padded_value-fits p.millisecond b'0' 3 msg (omega arith)
      (omega (arith, r.millisecond_high))

-- The two shapes of a field.
set_number-padded :
    (line rest : Bytes) (ix padding len n lowest highest : ℕ) (set : ℕ → Fields)
    → Padding padding
    → 0 < len
    → n < 10 ^ len
    → lowest ≤ n
    → n ≤ highest
    → drop ix line ≡ padded padding len n ++ rest
    → set_number (read_padded line ix len padding lowest highest) (ix + len) set
      ≡ some (set n, ix + length (padded padding len n))
set_number-padded line rest ix padding len n lowest highest set pad p h lo hi at =
    rw
      (
        read_padded-padded line rest ix padding len n lowest highest pad p h lo hi at,
        length-padded padding len n p h,
      )
      refl

set_name-own :
    (names : List Bytes) (line rest : Bytes) (ix k : ℕ) (set : ℕ → Fields)
    → apart names ≡ true
    → k < length names
    → drop ix line ≡ get_or names k [] ++ rest
    → set_name (match_name names line ix 0) ix set ≡ some (set k, ix + length (get_or names k []))
set_name-own names line rest ix k set d h at =
    rw (match_name-own names line rest ix k 0 d h at)
      (ap (λ j. some (set j, ix + length (get_or names k []))) (omega arith))

pub byte_at-first :
    (line text : Bytes) (ix : ℕ) → drop ix line ≡ text → byte_at line ix ≡ byte_at text 0
byte_at-first line text ix at =
    ap (byte_at line) (omega arith) ∙ sym (byte_at-drop line ix 0) ∙ ap (λ s. byte_at s 0) at

-- Where the text of a field stands in a line, the field is read, and the index moves behind it.
pub parse_field-text :
    (d : Directive) (p : Parts) (y : ℕ) (f : Fields) (line rest : Bytes) (ix : ℕ)
    → InRange p y
    → Readable d p y
    → drop ix line ≡ field_text d p y ++ rest
    → parse_field d line ix f ≡ some (field_read d p y f, ix + length (field_text d p y))
unfolding parse_field
parse_field-text Directive.percent p y f line rest ix r h at =
    rw (byte_at-first line (field_text Directive.percent p y ++ rest) ix at) refl
parse_field-text Directive.year_in_century p y f line rest ix r (lo, hi) at =
    let (small, back) = century-year_in_century y lo hi in
    set_number-padded line rest ix b'0' 2 (year_in_century y) 0 99
      (λ v. record f { year = century v }) Padding.zeros (omega arith) (omega (arith, small))
      (omega arith) small at
    ∙ ap (λ v. some (record f { year = v }, ix + length (padded b'0' 2 (year_in_century y)))) back
parse_field-text Directive.year_with_century p y f line rest ix r h at =
    set_number-padded line rest ix b'0' 4 y 0 9999 (λ v. record f { year = v }) Padding.zeros
      (omega arith) (omega (arith, r.year_high)) (omega arith) (omega (arith, r.year_high)) at
parse_field-text Directive.month_name p y f line rest ix r h at =
    set_name-own month_names line rest ix (p.month - 1) (λ i. record f { month = i + 1 }) refl
      (omega (arith, r.month_low, r.month_high)) at
    ∙ ap (λ i. some (record f { month = i }, ix + length (get_or month_names (p.month - 1) [])))
        (omega (arith, r.month_low))
parse_field-text Directive.abbrev_month_name p y f line rest ix r h at =
    set_name-own abbrev_month_names line rest ix (p.month - 1) (λ i. record f { month = i + 1 })
      refl (omega (arith, r.month_low, r.month_high)) at
    ∙ ap
        (λ i.
          some (record f { month = i }, ix + length (get_or abbrev_month_names (p.month - 1) [])))
        (omega (arith, r.month_low))
parse_field-text Directive.padded_month p y f line rest ix r h at =
    set_number-padded line rest ix b'0' 2 p.month 1 12 (λ v. record f { month = v }) Padding.zeros
      (omega arith) (omega (arith, r.month_high)) (omega (arith, r.month_low))
      (omega (arith, r.month_high)) at
parse_field-text Directive.zero_padded_date p y f line rest ix r h at =
    set_number-padded line rest ix b'0' 2 p.date 1 31 (λ v. record f { date = v }) Padding.zeros
      (omega arith) (omega (arith, r.date_high)) (omega (arith, r.date_low))
      (omega (arith, r.date_high)) at
parse_field-text Directive.space_padded_date p y f line rest ix r h at =
    set_number-padded line rest ix b' ' 2 p.date 1 31 (λ v. record f { date = v }) Padding.spaces
      (omega arith) (omega (arith, r.date_high)) (omega (arith, r.date_low))
      (omega (arith, r.date_high)) at
parse_field-text Directive.abbrev_day p y f line rest ix r h at =
    set_name-own abbrev_days_of_week line rest ix p.day_of_week_ix (λ i. f) refl
      (omega (arith, r.day_of_week_ix_high)) at
parse_field-text Directive.part_of_day p y f line rest ix r h at =
    elim (Bool-cases (ltb 11 p.hour)) [
      | inl pm ↦
          let here : drop ix line ≡ codes "PM" ++ rest = at ∙ rw pm refl in
          rw
            (
              name_at-other (codes "AM") (codes "PM") line rest ix refl here,
              name_at-own (codes "PM") line rest ix here,
              pm,
            )
            refl
      | inr am ↦
          let here : drop ix line ≡ codes "AM" ++ rest = at ∙ rw am refl in
          rw (name_at-own (codes "AM") line rest ix here, am) refl
    ]
parse_field-text Directive.zero_padded_hour p y f line rest ix r h at =
    set_number-padded line rest ix b'0' 2 p.hour 0 23 (λ v. record f { hour = v }) Padding.zeros
      (omega arith) (omega (arith, r.hour_high)) (omega arith) (omega (arith, r.hour_high)) at
parse_field-text Directive.space_padded_hour p y f line rest ix r h at =
    set_number-padded line rest ix b' ' 2 p.hour 0 23 (λ v. record f { hour = v }) Padding.spaces
      (omega arith) (omega (arith, r.hour_high)) (omega arith) (omega (arith, r.hour_high)) at
parse_field-text Directive.zero_padded_hour_12 p y f line rest ix r h at =
    let (low, high) = hour_12-bounds p.hour r.hour_high h in
    set_number-padded line rest ix b'0' 2 (hour_12 p.hour) 1 12
      (λ v. record f { hour = v; uses_12_hour_clock = true }) Padding.zeros (omega arith)
      (omega (arith, high)) low high at
parse_field-text Directive.space_padded_hour_12 p y f line rest ix r h at =
    let (low, high) = hour_12-bounds p.hour r.hour_high h in
    set_number-padded line rest ix b' ' 2 (hour_12 p.hour) 1 12
      (λ v. record f { hour = v; uses_12_hour_clock = true }) Padding.spaces (omega arith)
      (omega (arith, high)) low high at
parse_field-text Directive.padded_minute p y f line rest ix r h at =
    set_number-padded line rest ix b'0' 2 p.minute 0 59 (λ v. record f { minute = v }) Padding.zeros
      (omega arith) (omega (arith, r.minute_high)) (omega arith) (omega (arith, r.minute_high)) at
parse_field-text Directive.padded_second p y f line rest ix r h at =
    set_number-padded line rest ix b'0' 2 p.second 0 60 (λ v. record f { second = v }) Padding.zeros
      (omega arith) (omega (arith, r.second_high)) (omega arith) (omega (arith, r.second_high)) at
parse_field-text Directive.padded_millisecond p y f line rest ix r h at =
    set_number-padded line rest ix b'0' 3 p.millisecond 0 999 (λ v. record f { millisecond = v })
      Padding.zeros (omega arith) (omega (arith, r.millisecond_high)) (omega arith)
      (omega (arith, r.millisecond_high)) at

pub field_text-nonempty :
    (d : Directive) (p : Parts) (y : ℕ)
    → InRange p y
    → Readable d p y
    → 0 < length (field_text d p y)
field_text-nonempty Directive.percent p y r h = omega arith
field_text-nonempty Directive.year_in_century p y r (lo, hi) =
    omega (arith, length-padded b'0' 2 (year_in_century y) (omega arith) (ground arith))
field_text-nonempty Directive.year_with_century p y r h =
    omega (arith, length-padded b'0' 4 y (omega arith) (omega (arith, r.year_high)))
field_text-nonempty Directive.month_name p y r h =
    length-get_or month_names (p.month - 1) refl (omega (arith, r.month_low, r.month_high))
field_text-nonempty Directive.abbrev_month_name p y r h =
    length-get_or abbrev_month_names (p.month - 1) refl (omega (arith, r.month_low, r.month_high))
field_text-nonempty Directive.padded_month p y r h =
    omega (arith, length-padded b'0' 2 p.month (omega arith) (omega (arith, r.month_high)))
field_text-nonempty Directive.zero_padded_date p y r h =
    omega (arith, length-padded b'0' 2 p.date (omega arith) (omega (arith, r.date_high)))
field_text-nonempty Directive.space_padded_date p y r h =
    omega (arith, length-padded b' ' 2 p.date (omega arith) (omega (arith, r.date_high)))
field_text-nonempty Directive.abbrev_day p y r h =
    length-get_or abbrev_days_of_week p.day_of_week_ix refl (omega (arith, r.day_of_week_ix_high))
field_text-nonempty Directive.part_of_day p y r h = ground arith
field_text-nonempty Directive.zero_padded_hour p y r h =
    omega (arith, length-padded b'0' 2 p.hour (omega arith) (omega (arith, r.hour_high)))
field_text-nonempty Directive.space_padded_hour p y r h =
    omega (arith, length-padded b' ' 2 p.hour (omega arith) (omega (arith, r.hour_high)))
field_text-nonempty Directive.zero_padded_hour_12 p y r h = omega (
  arith,
  length-padded b'0' 2 (hour_12 p.hour) (omega arith)
      (omega (arith, (hour_12-bounds p.hour r.hour_high h).1)),
)
field_text-nonempty Directive.space_padded_hour_12 p y r h = omega (
  arith,
  length-padded b' ' 2 (hour_12 p.hour) (omega arith)
      (omega (arith, (hour_12-bounds p.hour r.hour_high h).1)),
)
field_text-nonempty Directive.padded_minute p y r h =
    omega (arith, length-padded b'0' 2 p.minute (omega arith) (omega (arith, r.minute_high)))
field_text-nonempty Directive.padded_second p y r h =
    omega (arith, length-padded b'0' 2 p.second (omega arith) (omega (arith, r.second_high)))
field_text-nonempty Directive.padded_millisecond p y r h =
    omega
      (arith, length-padded b'0' 3 p.millisecond (omega arith) (omega (arith, r.millisecond_high)))
