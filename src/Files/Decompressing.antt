-- ===== src/Files/Decompressing.antt =====
-- `Archive::decompress_message` of src/streaming_archive/reader/Archive.cpp: a message's text, with its
-- timestamp put back by the pattern in force.
use clp_core.Base.{
  ℕ, zero, suc, ◌+◌, ◌-◌, ◌≤◌, ◌<◌, true, false, leb, ltb, if◌then◌else◌, Bool-cases, ◌⊎◌, inl, inr,
  ◌&&◌, Bytes, List, [], ◌∷◌, length, get_elem?, none, some, Outcome, ok, throws, ◌>>=◌, ◌≡◌, arith,
}
use clp_core.Base.Int.{ℤ}
use clp_core.Logtype.{LogtypeEntry}
use clp_core.Dictionary.{DictionaryReader}
use clp_core.Variables.Floats.{FloatLib}
use clp_core.Codec.{decode_variables_into_message}
use clp_core.Timestamps.{TimestampPattern, DateLib, inserted, failed, length_error}
use clp_core.Timestamps.Inserting.{insert_formatted_timestamp}
use clp_core.Files.{Message, get_entry}

-- The message at which each pattern comes into force, and the pattern.
abbrev pub Patterns : Type 0
Patterns = List (ℕ × TimestampPattern)

-- The first message of the pattern at `ix`; 0 out of range, where nothing is read.
unfoldable pub start_at : Patterns → ℕ → ℕ
start_at [] ix = 0
start_at ((start, pattern) ∷ ps) zero = start
start_at ((start, pattern) ∷ ps) (suc ix) = start_at ps ix

-- `while (true)`, on the patterns behind the current one.
unfoldable pub next_pattern : ℕ → Patterns → ℕ → ℕ → ℕ
unfolding start_at
next_pattern zero ps message_number ix = ix
next_pattern (suc n) ps message_number ix = elim (ltb message_number (start_at ps (suc ix))) [
  | true ↦ ix
  | false ↦ next_pattern n ps message_number (suc ix)
]

-- `decompressed` has the message's text and the index of the pattern; `rejected` is the result false;
-- `length_error` of the insertion is an exception of the standard library, which has no code.
pub data Decompressed : Type 0 where
  decompressed : Bytes → ℕ → Decompressed
  rejected : Decompressed
  append_failed : Decompressed

unfoldable pub put_timestamp : DateLib → Patterns → ℕ → ℤ → Bytes → Outcome Decompressed
unfolding insert_formatted_timestamp
put_timestamp dates ps ix timestamp text = elim (get_elem? ps ix) [
  | none ↦ ok (decompressed text ix)
  | some (start, pattern) ↦ elim (insert_formatted_timestamp dates pattern timestamp text) [
    | inserted text' ↦ ok (decompressed text' ix)
    | failed e ↦ throws e
    | length_error ↦ ok append_failed
  ]
]

-- Without patterns, and in front of the first, a message has no timestamp.
unfoldable pub with_timestamp : DateLib → Patterns → ℕ → Message → Bytes → Outcome Decompressed
unfolding put_timestamp next_pattern start_at
with_timestamp dates ps ix m text =
    if leb 1 (length ps) && leb (start_at ps ix) m.message_number
    then put_timestamp dates ps (next_pattern (length ps - 1 - ix) ps m.message_number ix)
        m.timestamp text
    else ok (decompressed text ix)

module _ (floats : FloatLib) (dates : DateLib) (dict : DictionaryReader LogtypeEntry) where
  -- `get_value` reads the dictionary of variables.
  unfoldable pub decompress_message :
      (ℕ → Outcome Bytes) → Patterns → ℕ → Message → Outcome Decompressed
  unfolding get_entry decode_variables_into_message with_timestamp
  decompress_message get_value ps ix m = get_entry dict m.logtype_id >>= λ e.
      decode_variables_into_message floats get_value e m.vars [] >>= λ text. elim text [
        | none ↦ ok rejected
        | some t ↦ with_timestamp dates ps ix m t
      ]

-- The pattern at `ix` is in force at a message: it starts there or before, and no later one does.
pub record InForce (ps : Patterns) (message_number ix : ℕ) : Type 0 where
  pub inside : ix < length ps
  pub started : start_at ps ix ≤ message_number
  pub last : (suc ix ≡ length ps) ⊎ (message_number < start_at ps (suc ix))

next_pattern_from :
    (n : ℕ) (ps : Patterns) (message_number ix : ℕ)
    → suc ix + n ≡ length ps
    → start_at ps ix ≤ message_number
    → (ix ≤ next_pattern n ps message_number ix)
      × InForce ps message_number (next_pattern n ps message_number ix)
unfolding next_pattern
next_pattern_from zero ps message_number ix size started =
    (omega arith, record { inside = omega arith; started = started; last = inl (omega arith) })
next_pattern_from (suc n) ps message_number ix size started =
    elim (Bool-cases (ltb message_number (start_at ps (suc ix)))) [
      | inl before ↦
          (rw (next_pattern, before)
            (
              omega arith,
              record { inside = omega arith; started = started; last = inr (ground arith) },
            ))
      | inr after ↦
          let (later, force) =
            next_pattern_from n ps message_number (suc ix) (omega arith) (ground arith) in
          (rw (next_pattern, after) (omega (arith, later), force))
    ]

-- From a pattern that has started, the loop goes on to the one in force at the message, however many
-- patterns start in between.
pub next_pattern-InForce :
    (ps : Patterns) (message_number ix : ℕ)
    → ix < length ps
    → start_at ps ix ≤ message_number
    → (ix ≤ next_pattern (length ps - 1 - ix) ps message_number ix)
      × InForce ps message_number (next_pattern (length ps - 1 - ix) ps message_number ix)
next_pattern-InForce ps message_number ix inside started =
    next_pattern_from (length ps - 1 - ix) ps message_number ix (omega arith) started
