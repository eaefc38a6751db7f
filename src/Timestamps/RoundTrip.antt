-- ===== src/Timestamps/RoundTrip.antt =====
-- A timestamp that `insert_formatted_timestamp` puts into a message is the one that `parse_timestamp`
-- finds there.
use mathlib.Core.Path.{subst}
use mathlib.Core.Option.{some-injective, none-ne-some}
use clp_core.Base.{
  ℕ, zero, suc, ◌+◌, ◌≤◌, ◌<◌, ◌==◌, true, false, Bool-cases, Option-cases, inl, inr, Bytes, [],
  ◌∷◌, ◌++◌, append_assoc, length, length-take, take, take-append-drop, drop, drop-append,
  take-append, some, ◌≡◌, refl, sym, ap, ◌∙◌, arith,
}
use clp_core.Base.Int.{ℤ, pos, pos_part, neg_part, ◌-ℤ◌}
use clp_core.Timestamps.{
  TimestampPattern, Date, TimeOfDay, DateLib, at_time, milliseconds_of, skip_spaces, inserted,
}
use clp_core.Timestamps.Parsing.{Fields, no_fields, finish, parse_timestamp}
use clp_core.Timestamps.Inserting.{parts_of, insert_formatted_timestamp}
use clp_core.Timestamps.Formatted.{InRange, Tells, format_text, format_read, AllReadable}
use clp_core.Timestamps.FormatText.{drop-behind, render_format-text, parse_format-text}

-- The days of the years from 0 to 9999.
abbrev pub InCalendar : ℤ → Type 0
InCalendar day = (neg_part day ≤ 719_528) × (pos_part day ≤ 2_932_896)

pub record TimeLaws (timestamp day : ℤ) (t : TimeOfDay) : Type 0 where
  pub hours_high : t.hours < 24
  pub minutes_high : t.minutes < 60
  pub seconds_high : t.seconds < 60
  pub subseconds_high : t.subseconds < 1000
  pub recompose : at_time day (milliseconds_of t.hours t.minutes t.seconds t.subseconds) ≡ timestamp

pub record DateLaws (lib : DateLib) (day : ℤ) (d : Date) : Type 0 where
  pub year_number : ℕ
  pub year : d.year ≡ pos year_number
  pub year_high : year_number ≤ 9999
  pub month_low : 1 ≤ d.month
  pub month_high : d.month ≤ 12
  pub day_low : 1 ≤ d.day
  pub day_high : d.day ≤ 31
  pub weekday_high : lib.weekday day < 7
  pub ok : lib.date_ok year_number d.month d.day ≡ true
  pub back : lib.sys_days year_number d.month d.day ≡ day

-- What the date library documents: `floor` and `make_time` split a time point into a day and a time of
-- day, and a day of the calendar is a valid date, which stands for that day.
pub record CalendarLaws (lib : DateLib) : Type 0 where
  pub times :
      (timestamp : ℤ)
      → TimeLaws timestamp
          (lib.floor_days timestamp)
          (lib.make_time (timestamp -ℤ at_time (lib.floor_days timestamp) 0))
  pub dates : (day : ℤ) → InCalendar day → DateLaws lib day (lib.year_month_day day)

-- The place for the timestamp is found again, whatever text is put there.
pub record Place (n : ℕ) (s : Bytes) (i : ℕ) : Type 0 where
  pub inside : i ≤ length s
  pub again : (t : Bytes) → skip_spaces n (take i s ++ t) ≡ some i

space_ahead :
    (n c j : ℕ) (s : Bytes) → (b' ' == c) ≡ true → Place n s j → Place (suc n) (c ∷ s) (suc j)
unfolding skip_spaces
space_ahead n c j s e p = record {
  inside = omega (arith, p.inside);
  again = λ t. (rw (skip_spaces, e, p.again t) (ap some (omega arith)));
}

other_ahead :
    (n c j : ℕ) (s : Bytes)
    → (b' ' == c) ≡ false
    → Place (suc n) s j
    → Place (suc n) (c ∷ s) (suc j)
unfolding skip_spaces
other_ahead n c j s e p = record {
  inside = omega (arith, p.inside);
  again = λ t. (rw (skip_spaces, e, p.again t) (ap some (omega arith)));
}

pub skip_spaces-Place : (n : ℕ) (s : Bytes) (i : ℕ) → skip_spaces n s ≡ some i → Place n s i
unfolding skip_spaces
skip_spaces-Place zero s i h =
    subst (Place zero s) (some-injective 0 i h) (record { inside = omega arith; again = λ t. refl })
skip_spaces-Place (suc n) [] i h = cc
skip_spaces-Place (suc n) (c ∷ s) i h = elim (Bool-cases (b' ' == c)) [
  | inl e ↦ elim (Option-cases (skip_spaces n s)) [
    | inl k ↦ absurd (none-ne-some i (rw (skip_spaces, e, k) at h))
    | inr (j, k) ↦
        let same : suc j ≡ i =
          omega (arith, some-injective (j + 1) i (rw (skip_spaces, e, k) at h)) in
        subst (Place (suc n) (c ∷ s)) same (space_ahead n c j s e (skip_spaces-Place n s j k))
  ]
  | inr e ↦ elim (Option-cases (skip_spaces (suc n) s)) [
    | inl k ↦ absurd (none-ne-some i (rw (skip_spaces, e, k) at h))
    | inr (j, k) ↦
        let same : suc j ≡ i =
          omega (arith, some-injective (j + 1) i (rw (skip_spaces, e, k) at h)) in
        subst (Place (suc n) (c ∷ s)) same (other_ahead n c j s e (skip_spaces-Place (suc n) s j k))
  ]
]

parts_of-InRange :
    (lib : DateLib) (timestamp : ℤ) (y : ℕ)
    → CalendarLaws lib
    → InCalendar (lib.floor_days timestamp)
    → (parts_of lib timestamp).year ≡ pos y
    → InRange (parts_of lib timestamp) y
unfolding parts_of
parts_of-InRange lib timestamp y laws inside years =
    let d = laws.dates (lib.floor_days timestamp) inside in
    let t = laws.times timestamp in
    record {
      year = years;
      year_high = omega (arith, d.year_high, ap pos_part (sym years ∙ d.year));
      month_low = d.month_low;
      month_high = d.month_high;
      date_low = d.day_low;
      date_high = d.day_high;
      day_of_week_ix_high = d.weekday_high;
      hour_high = t.hours_high;
      minute_high = t.minutes_high;
      second_high = t.seconds_high;
      millisecond_high = t.subseconds_high;
    }

-- Fields that tell the whole of the parts are put together to the timestamp.
finish-Tells :
    (lib : DateLib) (timestamp : ℤ) (y : ℕ) (f : Fields) (begin end : ℕ)
    → CalendarLaws lib
    → InCalendar (lib.floor_days timestamp)
    → (parts_of lib timestamp).year ≡ pos y
    → Tells f (parts_of lib timestamp) y
    → finish lib begin f end
      ≡ some
          (record { timestamp = timestamp; timestamp_begin_pos = begin; timestamp_end_pos = end })
unfolding finish parts_of
finish-Tells lib timestamp y f begin end laws inside years tells =
    let d = laws.dates (lib.floor_days timestamp) inside in
    let t = laws.times timestamp in
    let same_year : f.year ≡ d.year_number = tells.year ∙ ap pos_part (sym years ∙ d.year) in
    rw
      (
        finish, same_year, tells.month, tells.date, d.ok, d.back, tells.hour, tells.minute,
        tells.second, tells.millisecond, t.recompose,
      )
      refl

module _ (lib : DateLib) (pattern : TimestampPattern) (timestamp : ℤ) (y : ℕ) where
  -- The text that the pattern gives the timestamp.
  abbrev pub stamp : Bytes
  stamp = format_text pattern.format false (parts_of lib timestamp) y

  -- In a message with the spaces that the pattern wants, for a timestamp in the years from 0 to 9999
  -- whose fields under the pattern are readable: exactly the text of the format is put at that place.
  pub insert_formatted_timestamp-format_text :
      (msg : Bytes) (ix : ℕ)
      → CalendarLaws lib
      → InCalendar (lib.floor_days timestamp)
      → (parts_of lib timestamp).year ≡ pos y
      → AllReadable pattern.format false (parts_of lib timestamp) y
      → skip_spaces pattern.num_spaces_before_ts msg ≡ some ix
      → insert_formatted_timestamp lib pattern timestamp msg
        ≡ inserted ((take ix msg ++ stamp) ++ drop ix msg)
  unfolding insert_formatted_timestamp
  insert_formatted_timestamp-format_text msg ix laws inside years readable place =
      rw
        (
          insert_formatted_timestamp,
          place,
          render_format-text pattern.format false (parts_of lib timestamp) y (take ix msg)
              (parts_of-InRange lib timestamp y laws inside years) readable,
        )
        refl

  pub parse_timestamp-insert_formatted_timestamp :
      (msg : Bytes) (ix : ℕ)
      → CalendarLaws lib
      → InCalendar (lib.floor_days timestamp)
      → (parts_of lib timestamp).year ≡ pos y
      → AllReadable pattern.format false (parts_of lib timestamp) y
      → Tells
          (format_read pattern.format false (parts_of lib timestamp) y no_fields)
          (parts_of lib timestamp)
          y
      → skip_spaces pattern.num_spaces_before_ts msg ≡ some ix
      → (msg' : Bytes) × (end : ℕ) × (insert_formatted_timestamp lib pattern timestamp msg
          ≡ inserted msg')
        × (parse_timestamp lib pattern msg'
            ≡ some (record {
              timestamp = timestamp;
              timestamp_begin_pos = ix;
              timestamp_end_pos = end;
            }))
        × (take ix msg' ++ drop end msg' ≡ msg)
  unfolding parse_timestamp
  parse_timestamp-insert_formatted_timestamp msg ix laws inside years readable tells place =
      let at = skip_spaces-Place pattern.num_spaces_before_ts msg ix place in
      let ranges = parts_of-InRange lib timestamp y laws inside years in
      let msg' : Bytes = (take ix msg ++ stamp) ++ drop ix msg in
      let front : length (take ix msg) ≡ ix = omega (arith, length-take ix msg, at.inside) in
      let shape : msg' ≡ take ix msg ++ (stamp ++ drop ix msg) =
        append_assoc (take ix msg) stamp (drop ix msg) in
      let here : drop ix msg' ≡ stamp ++ drop ix msg =
        ap (drop ix) shape
        ∙ ap (λ n. drop n (take ix msg ++ (stamp ++ drop ix msg))) (sym front)
        ∙ drop-append (take ix msg) (stamp ++ drop ix msg) in
      let behind : drop (ix + length stamp) msg' ≡ drop ix msg =
        drop-behind msg' stamp (drop ix msg) ix here in
      let before : take ix msg' ≡ take ix msg =
        ap (take ix) shape
        ∙ ap (λ n. take n (take ix msg ++ (stamp ++ drop ix msg))) (sym front)
        ∙ take-append (take ix msg) (stamp ++ drop ix msg) in
      let placed : skip_spaces pattern.num_spaces_before_ts msg' ≡ some ix =
        ap (skip_spaces pattern.num_spaces_before_ts) shape ∙ at.again (stamp ++ drop ix msg) in
      (
        msg',
        ix + length stamp,
        insert_formatted_timestamp-format_text msg ix laws inside years readable place,
        (rw
            (
              parse_timestamp,
              placed,
              parse_format-text pattern.format false (parts_of lib timestamp) y no_fields msg'
                  (drop ix msg) ix ranges readable here,
            )
            (finish-Tells lib timestamp y _ ix (ix + length stamp) laws inside years tells)),
        rw (before, behind) (take-append-drop ix msg),
      )
