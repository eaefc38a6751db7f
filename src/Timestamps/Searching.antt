-- ===== src/Timestamps/Searching.antt =====
-- `TimestampPattern::search_known_ts_patterns`: the first pattern that parses the line.
use mathlib.Core.Option.{some-injective, none-ne-some}
use mathlib.Core.Path.{subst, sym}
use clp_core.Base.{
  ℕ, suc, ◌+◌, Option-cases, inl, inr, Bytes, List, [], ◌∷◌, get_elem?, take, drop, codes, none,
  some, ◌≡◌, refl, ap, ◌∙◌, arith,
}
use clp_core.Base.Int.{ℤ, pos}
use clp_core.Timestamps.{TimestampPattern, DateLib, directive_of, skip_spaces, inserted}
use clp_core.Timestamps.Parsing.{ParsedTimestamp, parse_timestamp, search_patterns}
use clp_core.Timestamps.Inserting.{parts_of, insert_formatted_timestamp}
use clp_core.Timestamps.Known.{known_ts_patterns}
use clp_core.Timestamps.RoundTrip.{
  CalendarLaws, InCalendar, parse_timestamp-insert_formatted_timestamp,
}

-- No pattern of the list parses the line.
abbrev pub NoneParses : DateLib → List TimestampPattern → Bytes → Type 0
NoneParses lib [] line = Unit
NoneParses lib (p ∷ ps) line = (parse_timestamp lib p line ≡ none) × NoneParses lib ps line

-- The pattern at index `k` parses the line, and none before it does.
pub record FirstParses (lib : DateLib) (ps : List TimestampPattern) (line : Bytes) (k : ℕ)
    (t : ParsedTimestamp) : Type 0 where
  pub pattern : TimestampPattern
  pub here : get_elem? ps k ≡ some pattern
  pub parses : parse_timestamp lib pattern line ≡ some t
  pub others : NoneParses lib (take k ps) line

search_from :
    (lib : DateLib) (ps : List TimestampPattern) (line : Bytes) (i j : ℕ) (t : ParsedTimestamp)
    → search_patterns lib ps i line ≡ some (j, t)
    → (k : ℕ) × (j ≡ i + k) × FirstParses lib ps line k t
unfolding search_patterns
search_from lib [] line i j t h = absurd (none-ne-some (j, t) h)
search_from lib (p ∷ ps) line i j t h = elim (Option-cases (parse_timestamp lib p line)) [
  | inl e ↦
      let (k, at, first) = search_from lib ps line (suc i) j t (rw (search_patterns, e) at h) in
      (
        suc k,
        omega (arith, at),
        record {
          pattern = first.pattern;
          here = first.here;
          parses = first.parses;
          others = (e, first.others);
        },
      )
  | inr (u, e) ↦
      let at = some-injective (i, u) (j, t) (rw (search_patterns, e) at h) in
      (
        0,
        omega (arith, ap (λ r. r.0) at),
        record { pattern = p; here = refl; parses = e ∙ ap (λ r. some r.1) at; others = tt },
      )
]

-- The search returns the first pattern of the list that parses the line, and what that pattern parses.
pub search_patterns-FirstParses :
    (lib : DateLib) (ps : List TimestampPattern) (line : Bytes) (k : ℕ) (t : ParsedTimestamp)
    → search_patterns lib ps 0 line ≡ some (k, t)
    → FirstParses lib ps line k t
search_patterns-FirstParses lib ps line k t h =
    let (k', at, first) = search_from lib ps line 0 k t h in
    subst (λ n. FirstParses lib ps line n t) (omega (arith, at)) first

-- It returns nothing only when no pattern parses the line.
pub search_patterns-NoneParses :
    (lib : DateLib) (ps : List TimestampPattern) (line : Bytes) (i : ℕ)
    → search_patterns lib ps i line ≡ none
    → NoneParses lib ps line
unfolding search_patterns
search_patterns-NoneParses lib [] line i h = tt
search_patterns-NoneParses lib (p ∷ ps) line i h =
    elim (Option-cases (parse_timestamp lib p line)) [
      | inl e ↦ (e, search_patterns-NoneParses lib ps line (suc i) (rw (search_patterns, e) at h))
      | inr (u, e) ↦ absurd (none-ne-some (i, u) (sym (rw (search_patterns, e) at h)))
    ]

-- "%Y-%m-%dT%H:%M:%S.%3"
abbrev pub iso_pattern : TimestampPattern
iso_pattern = record { num_spaces_before_ts = 0; format = codes "%Y-%m-%dT%H:%M:%S.%3" }

-- In front of any message, any timestamp of the years from 0 to 9999 that is inserted by the first known
-- pattern is found again by the search of the known patterns: that pattern, the same timestamp, and a
-- range that ends where the message begins.
pub search_patterns-insert_formatted_timestamp :
    (lib : DateLib) (timestamp : ℤ) (y : ℕ) (msg : Bytes)
    → CalendarLaws lib
    → InCalendar (lib.floor_days timestamp)
    → (parts_of lib timestamp).year ≡ pos y
    → (msg' : Bytes) × (end : ℕ) × (insert_formatted_timestamp lib iso_pattern timestamp msg
        ≡ inserted msg')
      × (search_patterns lib known_ts_patterns 0 msg'
          ≡ some (
            0,
            record { timestamp = timestamp; timestamp_begin_pos = 0; timestamp_end_pos = end },
          ))
      × (drop end msg' ≡ msg)
unfolding search_patterns known_ts_patterns directive_of skip_spaces
search_patterns-insert_formatted_timestamp lib timestamp y msg laws inside years =
    let (msg', end, done, parsed, rest) =
      parse_timestamp-insert_formatted_timestamp lib iso_pattern timestamp y msg 0 laws inside years
        (tt, (tt, (tt, (tt, (tt, (tt, (tt, tt)))))))
        (record {
          year = refl;
          month = refl;
          date = refl;
          hour = refl;
          minute = refl;
          second = refl;
          millisecond = refl;
        })
        refl in
    (msg', end, done, (rw (search_patterns, known_ts_patterns, parsed) refl), rest)
