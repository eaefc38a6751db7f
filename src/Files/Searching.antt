-- ===== src/Files/Searching.antt =====
-- The searches of a file find the first of its messages that they look for, and go on behind it.
use clp_core.Base.{
  ℕ, zero, suc, ◌+◌, ◌-◌, ◌≤◌, Bool, true, false, ◌&&◌, le→ltb_false, Bool-cases, Option-cases, inl,
  inr, List, [], ◌∷◌, get_elem?, Option, none, some, Outcome, ok, ◌≡◌, refl, arith,
}
use clp_core.Base.Int.{ℤ, leb_ℤ}
use clp_core.Logtype.{LogtypeEntry}
use clp_core.Dictionary.{DictionaryReader}
use clp_core.Query.{Query, matches_logtype, matches_vars, timestamp_is_in_search_time_range}
use clp_core.Files.{
  Message, File, Call, read_vars, advance, current_logtype, current_timestamp, current_message,
  time_range_loop, find_message_in_time_range, Inner, stopped, matched, unmatched, relevant_loop,
  query_loop, find_message_matching_query,
}
use clp_core.Files.Reading.{Holds}

-- The first message that passes a test, and those behind it.
abbrev pub first_message : (Message → Bool) → List Message → Option (Message × List Message)
first_message test [] = none
first_message test (m ∷ ms) = elim (test m) [ true ↦ some (m, ms) | false ↦ first_message test ms ]

abbrev pub in_time_range : ℤ → ℤ → Message → Bool
in_time_range begin_ts end_ts m = leb_ℤ begin_ts m.timestamp && leb_ℤ m.timestamp end_ts

-- A search's call, against what is to be found: the message with the file that holds those behind it, or
-- nothing in a file that holds no more.
pub data Finds (dict : DictionaryReader LogtypeEntry) (msg : Message)
    : Option (Message × List Message) → Outcome (Call Bool) → Type 0 where
  nothing :
      {f : File}
      → Holds dict f []
      → Finds dict msg none (ok (record { result = false; file = f; msg = msg }))
  found :
      {f : File} {m : Message} {ms : List Message}
      → Holds dict f ms
      → Finds dict msg (some (m, ms)) (ok (record { result = true; file = f; msg = m }))

time_range_loop-Finds :
    (dict : DictionaryReader LogtypeEntry) (n : ℕ) (begin_ts end_ts : ℤ) (f : File) (msg : Message)
    (ms : List Message)
    → n ≡ f.num_messages - f.msgs_ix
    → Holds dict f ms
    → Finds dict msg
        (first_message (in_time_range begin_ts end_ts) ms)
        (time_range_loop dict n begin_ts end_ts f msg)
unfolding time_range_loop current_message advance
time_range_loop-Finds dict zero begin_ts end_ts f msg _ left (Holds.at_end past) =
    Finds.nothing (Holds.at_end past)
time_range_loop-Finds dict (suc n) begin_ts end_ts f msg _ left (Holds.at_end past) =
    absurd (omega arith)
time_range_loop-Finds dict zero begin_ts end_ts f msg _ left
      (Holds.message num_vars more known room others) =
    absurd (omega arith)
time_range_loop-Finds dict (suc n) begin_ts end_ts f msg _ left
      (Holds.message {ms} num_vars more known room others) =
    elim (Bool-cases (leb_ℤ begin_ts (current_timestamp f) && leb_ℤ (current_timestamp f) end_ts)) [
      | inl inside ↦
          (rw
            (
              first_message,
              time_range_loop,
              known,
              inside,
              le→ltb_false f.num_variables (f.variables_ix + num_vars) room,
            )
            (Finds.found others))
      | inr outside ↦
          (rw (first_message, time_range_loop, known, outside)
            (time_range_loop-Finds dict n begin_ts end_ts (advance num_vars f) msg ms (omega arith)
              others))
    ]

-- In a file that holds messages the search by time finds the first that lies in the range, both ends
-- included, and goes on behind it; with none it comes to the end and changes no message.
pub find_message_in_time_range-Finds :
    (dict : DictionaryReader LogtypeEntry) (begin_ts end_ts : ℤ) (f : File) (msg : Message)
    (ms : List Message)
    → Holds dict f ms
    → Finds dict msg
        (first_message (in_time_range begin_ts end_ts) ms)
        (find_message_in_time_range dict begin_ts end_ts f msg)
unfolding find_message_in_time_range
find_message_in_time_range-Finds dict begin_ts end_ts f msg ms holds =
    time_range_loop-Finds dict (f.num_messages - f.msgs_ix) begin_ts end_ts f msg ms refl holds

-- The first of the relevant subqueries that a message matches: by its logtype, its time and its variables.
abbrev pub matching_sub_query : Query → Message → List ℕ → Option ℕ
matching_sub_query q m [] = none
matching_sub_query q m (i ∷ is) = elim (get_elem? q.sub_queries i) [
  | none ↦ matching_sub_query q m is
  | some s ↦
      elim (matches_logtype s m.logtype_id && timestamp_is_in_search_time_range q m.timestamp) [
        | false ↦ matching_sub_query q m is
        | true ↦ elim (matches_vars s m.vars) [ true ↦ some i | false ↦ matching_sub_query q m is ]
      ]
]

data Ends : Option ℕ → Inner → Type 0 where
  hit : (i : ℕ) → Ends (some i) (Inner.matched i)
  miss : (msg : Message) → Ends none (Inner.unmatched msg)

relevant_loop-Ends :
    (q : Query) (num_vars : ℕ) (f : File) (is : List ℕ) (msg : Message)
    → f.variables_ix + num_vars ≤ f.num_variables
    → Ends
        (matching_sub_query q (current_message num_vars f) is)
        (relevant_loop q num_vars f is msg)
unfolding relevant_loop current_message
relevant_loop-Ends q num_vars f [] msg room = Ends.miss msg
relevant_loop-Ends q num_vars f (i ∷ is) msg room =
    elim (Option-cases (get_elem? q.sub_queries i)) [
      | inl e ↦
          (rw (matching_sub_query, relevant_loop, e) (relevant_loop-Ends q num_vars f is msg room))
      | inr (s, e) ↦
          elim (Bool-cases (
            matches_logtype s (current_logtype f)
            && timestamp_is_in_search_time_range q (current_timestamp f))) [
              | inr other ↦
                  (rw (matching_sub_query, relevant_loop, e, other)
                    (relevant_loop-Ends q num_vars f is msg room))
              | inl same ↦
                  let synced = le→ltb_false f.num_variables (f.variables_ix + num_vars) room in
                  elim (Bool-cases
                    (matches_vars s (read_vars f.variables f.variables_ix num_vars))) [
                      | inl v ↦
                          (rw (matching_sub_query, relevant_loop, e, same, synced, v) (Ends.hit i))
                      | inr v ↦
                          (rw (matching_sub_query, relevant_loop, e, same, synced, v)
                            (relevant_loop-Ends q num_vars f is _ room))
                    ]
            ]
    ]

-- The first message that some relevant subquery matches, with the subquery and the messages behind it.
abbrev pub first_match : Query → List Message → Option (ℕ × (Message × List Message))
first_match q [] = none
first_match q (m ∷ ms) = elim (matching_sub_query q m q.relevant_sub_queries) [
  | none ↦ first_match q ms
  | some i ↦ some (i, (m, ms))
]

pub data FindsMatch (dict : DictionaryReader LogtypeEntry)
    : Option (ℕ × (Message × List Message)) → Outcome (Call (Option ℕ)) → Type 0 where
  no_match :
      {f : File} (msg : Message)
      → Holds dict f []
      → FindsMatch dict none (ok (record { result = none; file = f; msg = msg }))
  match :
      {f : File} {i : ℕ} {m : Message} {ms : List Message}
      → Holds dict f ms
      → FindsMatch dict (some (i, (m, ms))) (ok (record { result = some i; file = f; msg = m }))

query_step :
    (dict : DictionaryReader LogtypeEntry) (n : ℕ) (q : Query) (f : File) (ms : List Message)
    (num_vars : ℕ) (o : Option ℕ) (inner : Inner)
    → Ends o inner
    → Holds dict (advance num_vars f) ms
    → ((msg : Message)
        → FindsMatch dict (first_match q ms) (query_loop dict n q (advance num_vars f) msg))
    → FindsMatch dict
        (elim o [ none ↦ first_match q ms | some i ↦ some (i, (current_message num_vars f, ms)) ])
        (elim inner [
          | stopped msg' ↦ ok (record { result = none; file = f; msg = msg' })
          | matched i ↦ ok (record {
            result = some i;
            file = advance num_vars f;
            msg = current_message num_vars f;
          })
          | unmatched msg' ↦ query_loop dict n q (advance num_vars f) msg'
        ])
query_step dict n q f ms num_vars _ _ (Ends.hit i) others later = FindsMatch.match others
query_step dict n q f ms num_vars _ _ (Ends.miss msg) others later = later msg

query_loop-FindsMatch :
    (dict : DictionaryReader LogtypeEntry) (n : ℕ) (q : Query) (f : File) (msg : Message)
    (ms : List Message)
    → n ≡ f.num_messages - f.msgs_ix
    → Holds dict f ms
    → FindsMatch dict (first_match q ms) (query_loop dict n q f msg)
unfolding query_loop advance
query_loop-FindsMatch dict zero q f msg _ left (Holds.at_end past) =
    FindsMatch.no_match msg (Holds.at_end past)
query_loop-FindsMatch dict (suc n) q f msg _ left (Holds.at_end past) = absurd (omega arith)
query_loop-FindsMatch dict zero q f msg _ left (Holds.message num_vars more known room others) =
    absurd (omega arith)
query_loop-FindsMatch dict (suc n) q f msg _ left
      (Holds.message {ms} num_vars more known room others) =
    rw (query_loop, known)
      (query_step dict n q f ms num_vars _ _
        (relevant_loop-Ends q num_vars f q.relevant_sub_queries msg room) others
        (λ msg'. query_loop-FindsMatch dict n q (advance num_vars f) msg' ms (omega arith) others))

-- In a file that holds messages the search for a query finds the first that a relevant subquery matches,
-- by its logtype, its time and its variables, with the first such subquery, and goes on behind it; with
-- none it comes to the end.
pub find_message_matching_query-FindsMatch :
    (dict : DictionaryReader LogtypeEntry) (q : Query) (f : File) (msg : Message)
    (ms : List Message)
    → Holds dict f ms
    → FindsMatch dict (first_match q ms) (find_message_matching_query dict q f msg)
unfolding find_message_matching_query
find_message_matching_query-FindsMatch dict q f msg ms holds =
    query_loop-FindsMatch dict (f.num_messages - f.msgs_ix) q f msg ms refl holds
