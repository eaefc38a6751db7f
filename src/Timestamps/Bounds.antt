-- ===== src/Timestamps/Bounds.antt =====
-- Where `parse_timestamp` stops: within the line.
use mathlib.Core.Option.{some-injective, none-ne-some}
use clp_core.Base.{
  ℕ, suc, ◌+◌, ◌≤◌, ◌<◌, ◌==◌, Bool, true, false, ltb, Bool-cases, Option-cases, inl, inr, Bytes,
  List, [], ◌∷◌, byte_at, bytes_eq→eq, codes, length, length-take, length-drop, drop, substr,
  Option, some, ◌≡◌, ap, ◌∙◌, arith,
}
use clp_core.Timestamps.{
  Directive, directive_of, DateLib, TimestampPattern, skip_spaces, month_names, abbrev_month_names,
  abbrev_days_of_week,
}
use clp_core.Timestamps.Parsing.{
  Fields, no_fields, century, read_padded, name_at, match_name, set_number, set_name, parse_field,
  parse_format, finish, ParsedTimestamp, parse_timestamp,
}
use clp_core.Timestamps.RoundTrip.{skip_spaces-Place}

-- An index that has moved from `ix`, within the line.
abbrev Reached : Bytes → ℕ → ℕ → Type 0
Reached line ix ix' = (ix ≤ ix') × (ix' ≤ length line)

read_padded-length :
    (line : Bytes) (ix len padding lowest highest v : ℕ)
    → read_padded line ix len padding lowest highest ≡ some v
    → ix + len ≤ length line
unfolding read_padded
read_padded-length line ix len padding lowest highest v h =
    elim (Bool-cases (ltb (length line) (ix + len))) [
      | inl short ↦ absurd (none-ne-some v (rw (read_padded, short) at h))
      | inr long ↦ ground arith
    ]

set_number-Reached :
    (line : Bytes) (ix len padding lowest highest : ℕ) (set : ℕ → Fields) (f : Fields) (ix' : ℕ)
    → set_number (read_padded line ix len padding lowest highest) (ix + len) set ≡ some (f, ix')
    → Reached line ix ix'
set_number-Reached line ix len padding lowest highest set f ix' h =
    elim (Option-cases (read_padded line ix len padding lowest highest)) [
      | inl e ↦ absurd (none-ne-some _ (rw (set_number, e) at h))
      | inr (v, e) ↦
          let long = read_padded-length line ix len padding lowest highest v e in
          let at : (set v, ix + len) ≡ (f, ix') = some-injective _ _ (rw (set_number, e) at h) in
          (omega (arith, ap (λ r. r.1) at), omega (arith, ap (λ r. r.1) at))
    ]

name_at-length :
    (line name : Bytes) (ix : ℕ)
    → ix < length line
    → name_at line ix name ≡ true
    → ix + length name ≤ length line
unfolding name_at
name_at-length line name ix inside h = omega (
  arith,
  ap length (bytes_eq→eq (substr line ix (length name)) name h),
  length-take (length name) (drop ix line),
  length-drop ix line,
)

match_name-length :
    (names : List Bytes) (line : Bytes) (ix i k len : ℕ)
    → ix < length line
    → match_name names line ix i ≡ some (k, len)
    → ix + len ≤ length line
unfolding match_name
match_name-length [] line ix i k len inside h = absurd (none-ne-some _ h)
match_name-length (n ∷ names) line ix i k len inside h = elim (Bool-cases (name_at line ix n)) [
  | inl e ↦
      let at : (i, length n) ≡ (k, len) = some-injective _ _ (rw (match_name, e) at h) in
      omega (arith, ap (λ r. r.1) at, name_at-length line n ix inside e)
  | inr e ↦ match_name-length names line ix (suc i) k len inside (rw (match_name, e) at h)
]

set_name-Reached :
    (names : List Bytes) (line : Bytes) (ix : ℕ) (set : ℕ → Fields) (f : Fields) (ix' : ℕ)
    → ix < length line
    → set_name (match_name names line ix 0) ix set ≡ some (f, ix')
    → Reached line ix ix'
set_name-Reached names line ix set f ix' inside h =
    elim (Option-cases (match_name names line ix 0)) [
      | inl e ↦ absurd (none-ne-some _ (rw (set_name, e) at h))
      | inr ((k, len), e) ↦
          let long = match_name-length names line ix 0 k len inside e in
          let at : (set k, ix + len) ≡ (f, ix') = some-injective _ _ (rw (set_name, e) at h) in
          (omega (arith, ap (λ r. r.1) at), omega (arith, ap (λ r. r.1) at))
    ]

abbrev read_to : Fields → ℕ → Option (Fields × ℕ)
read_to f ix = some (f, ix)

read_to-injective : (f f' : Fields) (ix ix' : ℕ) → read_to f ix ≡ some (f', ix') → ix ≡ ix'
read_to-injective f f' ix ix' h = ap (λ r. r.1) (some-injective (f, ix) (f', ix') h)

byte-Reached :
    (line : Bytes) (ix : ℕ) (f f' : Fields) (ix' : ℕ)
    → ix < length line
    → read_to f (ix + 1) ≡ some (f', ix')
    → Reached line ix ix'
byte-Reached line ix f f' ix' inside h =
    let at = read_to-injective f f' (ix + 1) ix' h in (omega (arith, at), omega (arith, at))

name-Reached :
    (line name : Bytes) (ix : ℕ) (f f' : Fields) (ix' : ℕ)
    → ix < length line
    → name_at line ix name ≡ true
    → read_to f (ix + length name) ≡ some (f', ix')
    → Reached line ix ix'
name-Reached line name ix f f' ix' inside here h =
    let at = read_to-injective f f' (ix + length name) ix' h in
    let long = name_at-length line name ix inside here in (omega (arith, at), omega (arith, at))

parse_field-Reached :
    (d : Directive) (line : Bytes) (ix : ℕ) (f f' : Fields) (ix' : ℕ)
    → ix < length line
    → parse_field d line ix f ≡ some (f', ix')
    → Reached line ix ix'
unfolding parse_field
parse_field-Reached Directive.percent line ix f f' ix' inside h =
    elim (Bool-cases (b'%' == byte_at line ix)) [
      | inl e ↦ byte-Reached line ix f f' ix' inside (rw (parse_field, e) at h)
      | inr e ↦ absurd (none-ne-some _ (rw (parse_field, e) at h))
    ]
parse_field-Reached Directive.year_in_century line ix f f' ix' inside h =
    set_number-Reached line ix 2 b'0' 0 99 (λ v. record f { year = century v }) f' ix' h
parse_field-Reached Directive.year_with_century line ix f f' ix' inside h =
    set_number-Reached line ix 4 b'0' 0 9999 (λ v. record f { year = v }) f' ix' h
parse_field-Reached Directive.month_name line ix f f' ix' inside h =
    set_name-Reached month_names line ix (λ i. record f { month = i + 1 }) f' ix' inside h
parse_field-Reached Directive.abbrev_month_name line ix f f' ix' inside h =
    set_name-Reached abbrev_month_names line ix (λ i. record f { month = i + 1 }) f' ix' inside h
parse_field-Reached Directive.padded_month line ix f f' ix' inside h =
    set_number-Reached line ix 2 b'0' 1 12 (λ v. record f { month = v }) f' ix' h
parse_field-Reached Directive.zero_padded_date line ix f f' ix' inside h =
    set_number-Reached line ix 2 b'0' 1 31 (λ v. record f { date = v }) f' ix' h
parse_field-Reached Directive.space_padded_date line ix f f' ix' inside h =
    set_number-Reached line ix 2 b' ' 1 31 (λ v. record f { date = v }) f' ix' h
parse_field-Reached Directive.abbrev_day line ix f f' ix' inside h =
    set_name-Reached abbrev_days_of_week line ix (λ i. f) f' ix' inside h
parse_field-Reached Directive.part_of_day line ix f f' ix' inside h =
    elim (Bool-cases (name_at line ix (codes "AM"))) [
      | inl am ↦
          name-Reached line (codes "AM") ix (record f { is_pm = false }) f' ix' inside am
            (rw (parse_field, am) at h)
      | inr no_am ↦ elim (Bool-cases (name_at line ix (codes "PM"))) [
        | inl pm ↦
            name-Reached line (codes "PM") ix (record f { is_pm = true }) f' ix' inside pm
              (rw (parse_field, no_am, pm) at h)
        | inr no_pm ↦ absurd (none-ne-some _ (rw (parse_field, no_am, no_pm) at h))
      ]
    ]
parse_field-Reached Directive.zero_padded_hour line ix f f' ix' inside h =
    set_number-Reached line ix 2 b'0' 0 23 (λ v. record f { hour = v }) f' ix' h
parse_field-Reached Directive.space_padded_hour line ix f f' ix' inside h =
    set_number-Reached line ix 2 b' ' 0 23 (λ v. record f { hour = v }) f' ix' h
parse_field-Reached Directive.zero_padded_hour_12 line ix f f' ix' inside h =
    set_number-Reached line ix 2 b'0' 1 12 (λ v. record f { hour = v; uses_12_hour_clock = true })
      f' ix' h
parse_field-Reached Directive.space_padded_hour_12 line ix f f' ix' inside h =
    set_number-Reached line ix 2 b' ' 1 12 (λ v. record f { hour = v; uses_12_hour_clock = true })
      f' ix' h
parse_field-Reached Directive.padded_minute line ix f f' ix' inside h =
    set_number-Reached line ix 2 b'0' 0 59 (λ v. record f { minute = v }) f' ix' h
parse_field-Reached Directive.padded_second line ix f f' ix' inside h =
    set_number-Reached line ix 2 b'0' 0 60 (λ v. record f { second = v }) f' ix' h
parse_field-Reached Directive.padded_millisecond line ix f f' ix' inside h =
    set_number-Reached line ix 3 b'0' 0 999 (λ v. record f { millisecond = v }) f' ix' h

parse_format-Reached :
    (format : Bytes) (is_specifier : Bool) (line : Bytes) (ix : ℕ) (f f' : Fields) (ix' : ℕ)
    → ix ≤ length line
    → parse_format format is_specifier line ix f ≡ some (f', ix')
    → Reached line ix ix'
unfolding parse_format
parse_format-Reached [] is_specifier line ix f f' ix' inside h =
    let at = read_to-injective f f' ix ix' h in (omega (arith, at), omega (arith, at))
parse_format-Reached (c ∷ format) false line ix f f' ix' inside h =
    elim (Bool-cases (ltb ix (length line))) [
      | inr short ↦ absurd (none-ne-some _ (rw (parse_format, short) at h))
      | inl more ↦ elim (Bool-cases (b'%' == c)) [
        | inl e ↦
            parse_format-Reached format true line ix f f' ix' inside
              (rw (parse_format, more, e) at h)
        | inr e ↦ elim (Bool-cases (c == byte_at line ix)) [
          | inr k ↦ absurd (none-ne-some _ (rw (parse_format, more, e, k) at h))
          | inl k ↦
              let r =
                parse_format-Reached format false line (ix + 1) f f' ix' (ground arith)
                  (rw (parse_format, more, e, k) at h) in
              ground arith
        ]
      ]
    ]
parse_format-Reached (c ∷ format) true line ix f f' ix' inside h =
    elim (Bool-cases (ltb ix (length line))) [
      | inr short ↦ absurd (none-ne-some _ (rw (parse_format, short) at h))
      | inl more ↦ elim (Option-cases (directive_of c)) [
        | inl e ↦ absurd (none-ne-some _ (rw (parse_format, more, e) at h))
        | inr (d, e) ↦ elim (Option-cases (parse_field d line ix f)) [
          | inl k ↦ absurd (none-ne-some _ (rw (parse_format, more, e, k) at h))
          | inr ((g, j), k) ↦
              let first = parse_field-Reached d line ix f g j (ground arith) k in
              let r =
                parse_format-Reached format false line j g f' ix' first.1
                  (rw (parse_format, more, e, k) at h) in
              ground arith
        ]
      ]
    ]

-- The range that is found is one of the line, behind the spaces that the pattern wants, whatever the
-- line, the pattern and the date library are.
pub parse_timestamp-bounds :
    (lib : DateLib) (pattern : TimestampPattern) (line : Bytes) (t : ParsedTimestamp)
    → parse_timestamp lib pattern line ≡ some t
    → (skip_spaces pattern.num_spaces_before_ts line ≡ some t.timestamp_begin_pos)
      × (t.timestamp_begin_pos ≤ t.timestamp_end_pos)
      × (t.timestamp_end_pos ≤ length line)
unfolding parse_timestamp finish
parse_timestamp-bounds lib pattern line t h =
    elim (Option-cases (skip_spaces pattern.num_spaces_before_ts line)) [
      | inl e ↦ absurd (none-ne-some _ (rw (parse_timestamp, e) at h))
      | inr (ix, e) ↦ elim (Option-cases (parse_format pattern.format false line ix no_fields)) [
        | inl k ↦ absurd (none-ne-some _ (rw (parse_timestamp, e, k) at h))
        | inr ((f, ix'), k) ↦ elim (Bool-cases (lib.date_ok f.year f.month f.date)) [
          | inr bad ↦ absurd (none-ne-some _ (rw (parse_timestamp, e, k, finish, bad) at h))
          | inl good ↦
              let at = some-injective _ _ (rw (parse_timestamp, e, k, finish, good) at h) in
              let place = skip_spaces-Place pattern.num_spaces_before_ts line ix e in
              let r =
                parse_format-Reached pattern.format false line ix no_fields f ix' place.inside k in
              (
                e ∙ ap some (ap (λ u. u.timestamp_begin_pos) at),
                omega (
                  arith,
                  r.0,
                  ap (λ u. u.timestamp_begin_pos) at,
                  ap (λ u. u.timestamp_end_pos) at,
                ),
                omega (arith, r.1, ap (λ u. u.timestamp_end_pos) at),
              )
        ]
      ]
    ]
