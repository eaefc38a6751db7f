-- ===== src/Grep/Finding.antt =====
-- `find_matching_message` of src/Grep.cpp: the next message of a file that a query asks for.
use clp_core.Base.{
  Bool, true, false, ◌||◌, Bool-cases, inl, inr, ℕ, List, [], ◌∷◌, length, ◌==◌, Option, none, some,
  Outcome, ok, ◌>>=◌, if◌then◌else◌, ◌≡◌, refl, arith,
}
use clp_core.Base.Int.{pos, negsuc, ◌≤ℤ◌, ltb_ℤ}
use clp_core.Logtype.{LogtypeEntry}
use clp_core.Dictionary.{DictionaryReader}
use clp_core.Query.{SubQuery, Query}
use clp_core.Files.{
  Message, File, Call, get_next_message, find_message_in_time_range, find_message_matching_query,
}
use clp_core.Files.Reading.{Holds, Reads, get_next_message-Reads}
use clp_core.Files.Searching.{
  Finds, first_message, in_time_range, find_message_in_time_range-Finds, FindsMatch, first_match,
  find_message_matching_query-FindsMatch,
}
use clp_core.Grep.Queries.{contains_sub_queries}

-- `begin > cEpochTimeMin || end < cEpochTimeMax`
abbrev pub has_time_range : Query → Bool
has_time_range q =
    ltb_ℤ (negsuc 0x7FFF_FFFF_FFFF_FFFF) q.search_begin_timestamp
    || ltb_ℤ q.search_end_timestamp (pos 0x7FFF_FFFF_FFFF_FFFF)

-- The result, and the subquery where there is one.
abbrev pub with_sub_query : Call (Option ℕ) → Outcome (Call (Bool × Option ℕ))
with_sub_query c = ok (record {
  result = elim c.result [ none ↦ (false, none) | some i ↦ (true, some i) ];
  file = c.file;
  msg = c.msg;
})

abbrev pub without_sub_query : Call Bool → Outcome (Call (Bool × Option ℕ))
without_sub_query c = ok (record { result = (c.result, none); file = c.file; msg = c.msg })

unfoldable pub find_matching_message :
    DictionaryReader LogtypeEntry → Query → File → Message → Outcome (Call (Bool × Option ℕ))
unfolding find_message_matching_query find_message_in_time_range get_next_message
find_matching_message dict q f msg =
    if contains_sub_queries q
    then find_message_matching_query dict q f msg >>= with_sub_query
    else if has_time_range q
    then find_message_in_time_range dict q.search_begin_timestamp q.search_end_timestamp f msg
      >>= without_sub_query
    else get_next_message dict f msg >>= without_sub_query

-- What a query asks for: the first match of its subqueries where it has any; else the first message whose
-- timestamp is within its bounds.
abbrev pub wanted : Query → List Message → Option (Option ℕ × (Message × List Message))
wanted q ms = elim q.sub_queries [
  | [] ↦ elim (first_message (in_time_range q.search_begin_timestamp q.search_end_timestamp) ms) [
    | none ↦ none
    | some m ↦ some (none, m)
  ]
  | s ∷ ss ↦ elim (first_match q ms) [ none ↦ none | some (i, m) ↦ some (some i, m) ]
]

-- The timestamps of messages are 64-bit integers.
abbrev pub AllInt64 : List Message → Type 0
AllInt64 [] = Unit
AllInt64 (m ∷ ms) =
    ((negsuc 0x7FFF_FFFF_FFFF_FFFF ≤ℤ m.timestamp) × (m.timestamp ≤ℤ pos 0x7FFF_FFFF_FFFF_FFFF))
    × AllInt64 ms

pub data Gives (dict : DictionaryReader LogtypeEntry)
    : Option (Option ℕ × (Message × List Message)) → Outcome (Call (Bool × Option ℕ)) → Type 0 where
  nothing :
      {f : File} (msg : Message)
      → Holds dict f []
      → Gives dict none (ok (record { result = (false, none); file = f; msg = msg }))
  gives :
      {f : File} {o : Option ℕ} {m : Message} {ms : List Message}
      → Holds dict f ms
      → Gives dict (some (o, (m, ms))) (ok (record { result = (true, o); file = f; msg = m }))

of_match :
    {dict : DictionaryReader LogtypeEntry} {o : Option (ℕ × (Message × List Message))}
    {c : Outcome (Call (Option ℕ))}
    → FindsMatch dict o c
    → Gives dict (elim o [ none ↦ none | some (i, m) ↦ some (some i, m) ]) (c >>= with_sub_query)
of_match (FindsMatch.no_match msg h) = Gives.nothing msg h
of_match (FindsMatch.match h) = Gives.gives h

of_range :
    {dict : DictionaryReader LogtypeEntry} {msg : Message} {o : Option (Message × List Message)}
    {c : Outcome (Call Bool)}
    → Finds dict msg o c
    → Gives dict (elim o [ none ↦ none | some m ↦ some (none, m) ]) (c >>= without_sub_query)
of_range {msg} (Finds.nothing h) = Gives.nothing msg h
of_range (Finds.found h) = Gives.gives h

of_next :
    {dict : DictionaryReader LogtypeEntry} {msg : Message} {ms : List Message}
    {c : Outcome (Call Bool)}
    → Reads dict msg ms c
    → Gives dict
        (elim (first_message (λ m. true) ms) [ none ↦ none | some m ↦ some (none, m) ])
        (c >>= without_sub_query)
of_next {msg} (Reads.none_left h) = Gives.nothing msg h
of_next (Reads.reads h) = Gives.gives h

-- Bounds that are not set leave no message out.
first_message-unbounded :
    (q : Query) (ms : List Message)
    → AllInt64 ms
    → has_time_range q ≡ false
    → first_message (in_time_range q.search_begin_timestamp q.search_end_timestamp) ms
      ≡ first_message (λ m. true) ms
first_message-unbounded q [] h none_set = refl
first_message-unbounded q (m ∷ ms) h none_set =
    let here : in_time_range q.search_begin_timestamp q.search_end_timestamp m ≡ true =
      ground arith in
    rw (first_message, here) refl

find_in_time-Gives :
    (dict : DictionaryReader LogtypeEntry) (q : Query) (f : File) (msg : Message)
    (ms : List Message)
    → Holds dict f ms
    → AllInt64 ms
    → Gives dict
        (elim (first_message (in_time_range q.search_begin_timestamp q.search_end_timestamp) ms) [
          | none ↦ none
          | some m ↦ some (none, m)
        ])
        (if has_time_range q
          then find_message_in_time_range dict q.search_begin_timestamp q.search_end_timestamp f msg
            >>= without_sub_query
          else get_next_message dict f msg >>= without_sub_query)
find_in_time-Gives dict q f msg ms holds int64 = elim (Bool-cases (has_time_range q)) [
  | inl range ↦
      (rw (range) (
        of_range (
          find_message_in_time_range-Finds dict q.search_begin_timestamp q.search_end_timestamp f
            msg ms holds)))
  | inr all ↦
      (rw (all, first_message-unbounded q ms int64 all)
        (of_next (get_next_message-Reads dict f msg ms holds)))
]

find_by_shape :
    (dict : DictionaryReader LogtypeEntry) (q : Query) (f : File) (msg : Message)
    (ms : List Message) (ss : List SubQuery)
    → Holds dict f ms
    → AllInt64 ms
    → q.sub_queries ≡ ss
    → Gives dict (wanted q ms) (find_matching_message dict q f msg)
unfolding find_matching_message
find_by_shape dict q f msg ms [] holds int64 e =
    rw (wanted, find_matching_message, e) (find_in_time-Gives dict q f msg ms holds int64)
find_by_shape dict q f msg ms (s ∷ ss) holds int64 e =
    let some_sub : (length (s ∷ ss) == 0) ≡ false = ground arith in
    simp (wanted, find_matching_message, e, some_sub)
      (of_match (find_message_matching_query-FindsMatch dict q f msg ms holds))

-- In a file that holds messages with 64-bit timestamps: the call gives the first that the query asks for,
-- by its subqueries where it has any and else by its bounds of time, with the subquery that matches it, and
-- goes on behind it; or it comes to the end.
pub find_matching_message-Gives :
    (dict : DictionaryReader LogtypeEntry) (q : Query) (f : File) (msg : Message)
    (ms : List Message)
    → Holds dict f ms
    → AllInt64 ms
    → Gives dict (wanted q ms) (find_matching_message dict q f msg)
find_matching_message-Gives dict q f msg ms holds int64 =
    find_by_shape dict q f msg ms q.sub_queries holds int64 refl
