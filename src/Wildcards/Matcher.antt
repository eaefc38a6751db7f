-- ===== src/Wildcards/Matcher.antt =====
-- `wildcard_match_simple` and `wildCardMatch` of src/Utils.cpp. A string ends in a zero byte; the bytes
-- behind it, which the source may read when a `?` stands at the end, are taken for zeros too.
use clp_core.Base.{
  ℕ, zero, suc, ◌+◌, ◌-◌, ◌*◌, Bool, true, false, not, ◌&&◌, ◌||◌, ◌==◌, if◌then◌else◌, Bytes,
  length, byte_at, Option, none, some, Outcome, ok, no_fuel,
}

-- The indices, and the bookmarks once there are any.
pub record MatchState : Type 0 where
  pub tame_ix : ℕ
  pub wild_ix : ℕ
  pub bookmark : Option (ℕ × ℕ)

pub data Step : Type 0 where
  done : Bool → Step
  continue : MatchState → Step

-- `while ('*' == wild[wild_ix]) { ++wild_ix; }`, on the rounds left.
unfoldable pub skip_stars_from : Bytes → ℕ → ℕ → ℕ
skip_stars_from wild i zero = i
skip_stars_from wild i (suc n) = elim (b'*' == byte_at wild i) [
  | true ↦ skip_stars_from wild (suc i) n
  | false ↦ i
]

-- The loop that looks for the next byte of `tame` that is `wild_char`, behind `i`.
unfoldable pub fast_forward : Bytes → ℕ → ℕ → ℕ → Option ℕ
fast_forward tame wild_char i zero = none
fast_forward tame wild_char i (suc n) = elim (byte_at tame (suc i) == wild_char) [
  | true ↦ some (suc i)
  | false ↦ fast_forward tame wild_char (suc i) n
]

-- A mismatch: back to the bookmarks, with that of `tame` moved on.
unfoldable pub back_to_bookmark : Bytes → Bytes → Bool → ℕ → ℕ → Step
unfolding fast_forward
back_to_bookmark tame wild escaped tame_bookmark_ix wild_bookmark_ix =
    let at_escape = b'\\' == byte_at wild wild_bookmark_ix in
    let wild_char = byte_at wild (if at_escape then suc wild_bookmark_ix else wild_bookmark_ix) in
    let moved =
      (if not (escaped || at_escape) && b'?' == wild_char
        then (if length tame == tame_bookmark_ix then none else some (suc tame_bookmark_ix))
        else fast_forward tame wild_char tame_bookmark_ix (length tame - tame_bookmark_ix)) in
    elim moved [
      | none ↦ Step.done false
      | some i ↦ Step.continue (record {
        tame_ix = i;
        wild_ix = wild_bookmark_ix;
        bookmark = some (i, wild_bookmark_ix);
      })
    ]

-- Behind stars: a match at the end, and new bookmarks before it.
unfoldable pub behind_stars : Bytes → MatchState → ℕ → Step
behind_stars wild s wild_ix =
    if length wild == wild_ix
    then Step.done true
    else Step.continue
        (record { tame_ix = s.tame_ix; wild_ix = wild_ix; bookmark = some (s.tame_ix, wild_ix) })

-- One round of `while (true)`, behind the escape character if there is one.
unfoldable pub match_at : Bytes → Bytes → Bool → MatchState → Step
unfolding skip_stars_from back_to_bookmark behind_stars
match_at tame wild escaped s =
    if not escaped && b'*' == byte_at wild s.wild_ix
    then behind_stars wild s (skip_stars_from wild s.wild_ix (length wild - s.wild_ix))
    else if (not escaped && b'?' == byte_at wild s.wild_ix)
        || byte_at tame s.tame_ix == byte_at wild s.wild_ix
    then (if length wild == s.wild_ix && length tame == s.tame_ix
        then Step.done true
        else Step.continue
            (record { tame_ix = suc s.tame_ix; wild_ix = suc s.wild_ix; bookmark = s.bookmark }))
    else elim s.bookmark [
      | none ↦ Step.done false
      | some (tame_bookmark_ix, wild_bookmark_ix) ↦
          back_to_bookmark tame wild escaped tame_bookmark_ix wild_bookmark_ix
    ]

unfoldable pub match_step : Bytes → Bytes → MatchState → Step
unfolding match_at
match_step tame wild s =
    if b'\\' == byte_at wild s.wild_ix
    then match_at tame wild true (record s { wild_ix = suc s.wild_ix })
    else match_at tame wild false s

unfoldable pub match_rounds : ℕ → Bytes → Bytes → MatchState → Outcome Bool
unfolding match_step
match_rounds zero tame wild s = no_fuel
match_rounds (suc fuel) tame wild s = elim (match_step tame wild s) [
  | Step.done b ↦ ok b
  | Step.continue s' ↦ match_rounds fuel tame wild s'
]

unfoldable pub wildcard_match_simple : Bytes → Bytes → Outcome Bool
unfolding match_rounds
wildcard_match_simple tame wild =
    match_rounds ((length tame + 2) * (length wild + 3)) tame wild
      (record { tame_ix = 0; wild_ix = 0; bookmark = none })

-- The upper case, which a library computes, is a parameter.
unfoldable pub wild_card_match : (Bytes → Bytes) → Bytes → Bytes → Bool → Outcome Bool
unfolding wildcard_match_simple
wild_card_match to_upper string_tame string_wild is_case_sensitive =
    if is_case_sensitive
    then wildcard_match_simple string_tame string_wild
    else wildcard_match_simple (to_upper string_tame) (to_upper string_wild)
