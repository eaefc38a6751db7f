-- ===== src/Files/Examples.antt =====
-- A file of two messages with one variable each.
use clp_core.Base.{◌≤◌, true, false, codes, [], ◌∷◌, refl, arith}
use clp_core.Base.Int.{pos}
use clp_core.Logtype.{LogtypeEntry, LogVerbosity}
use clp_core.Dictionary.{DictionaryReader}
use clp_core.Query.{SubQuery, QueryVar, new_query, add_sub_query}
use clp_core.Files.{
  Message, File, num_vars_of, get_entry, advance, current_message, read_vars, get_next_message,
  find_message_in_time_range, find_message_matching_query,
}
use clp_core.Files.Reading.{Holds}
use clp_core.Files.Columns.{At, ReadsNext, get_next_message-ReadsNext}
use clp_core.Files.Searching.{
  Finds, first_message, in_time_range, find_message_in_time_range-Finds, FindsMatch, first_match,
  find_message_matching_query-FindsMatch,
}
use clp_core.Files.Decompressing.{Patterns, next_pattern, InForce, start_at, next_pattern-InForce}

abbrev entry : LogtypeEntry
entry = record {
  id = 0;
  value = 17 ∷ [];
  ids_of_segments = 0 ∷ [];
  verbosity = LogVerbosity.unknown;
  var_positions = 0 ∷ [];
}

abbrev pub logtypes : DictionaryReader LogtypeEntry
logtypes = record {
  reader_is_open = true;
  num_segments_read_from_index = 0;
  reader_entries = entry ∷ [];
  entries_pos = 1;
  segments_pos = 0;
}

abbrev pub file : File
file = record {
  num_messages = 2;
  num_variables = 2;
  timestamps = pos 5 ∷ pos 9 ∷ [];
  logtypes = 0 ∷ 0 ∷ [];
  variables = pos 70 ∷ pos 80 ∷ [];
  msgs_ix = 0;
  variables_ix = 0;
}

abbrev pub first : Message
first = record { message_number = 0; logtype_id = 0; timestamp = pos 5; vars = pos 70 ∷ [] }

abbrev pub second : Message
second = record { message_number = 1; logtype_id = 0; timestamp = pos 9; vars = pos 80 ∷ [] }

abbrev pub blank : Message
blank = record { message_number = 0; logtype_id = 0; timestamp = pos 0; vars = [] }

pub file-Holds : Holds logtypes file (first ∷ second ∷ [])
unfolding num_vars_of get_entry advance current_message read_vars
file-Holds = Holds.message {f = file} 1 (omega arith) refl (omega arith) (
    Holds.message {f = advance 1 file} 1 (omega arith) refl (omega arith)
      (Holds.at_end (omega arith)))

-- The file behind its first message.
abbrev behind_first : File
behind_first = record file { msgs_ix = 1; variables_ix = 1 }

behind_first-At : At logtypes (first ∷ []) (second ∷ []) behind_first
behind_first-At = record {
  is_open = refl;
  fits = ((entry, refl, refl), ((entry, refl, refl), tt));
  numbered = (refl, (refl, tt));
  messages = refl;
  variables_count = refl;
  timestamps = refl;
  logtypes = refl;
  variables = refl;
  msgs_ix = refl;
  variables_ix = refl;
}

get_next_message-ReadsNext_example :
    ReadsNext logtypes
      (first ∷ [])
      behind_first
      blank
      (second ∷ [])
      (get_next_message logtypes behind_first blank)
get_next_message-ReadsNext_example =
    get_next_message-ReadsNext logtypes (first ∷ []) (second ∷ []) behind_first blank
      behind_first-At

find_message_in_time_range-Finds_example :
    Finds logtypes blank
      (first_message (in_time_range (pos 6) (pos 9)) (first ∷ second ∷ []))
      (find_message_in_time_range logtypes (pos 6) (pos 9) file blank)
find_message_in_time_range-Finds_example =
    find_message_in_time_range-Finds logtypes (pos 6) (pos 9) file blank (first ∷ second ∷ [])
      file-Holds

-- A query for the variable 80.
abbrev sub_query : SubQuery
sub_query = record {
  possible_logtype_entries = [];
  possible_logtype_ids = 0 ∷ [];
  ids_of_matching_segments = [];
  vars = QueryVar.non_dict_var (pos 80) ∷ [];
  wildcard_match_required = false;
}

find_message_matching_query-FindsMatch_example :
    FindsMatch logtypes
      (first_match (add_sub_query sub_query (new_query 0)) (first ∷ second ∷ []))
      (find_message_matching_query logtypes (add_sub_query sub_query (new_query 0)) file blank)
find_message_matching_query-FindsMatch_example =
    find_message_matching_query-FindsMatch logtypes (add_sub_query sub_query (new_query 0)) file
      blank (first ∷ second ∷ []) file-Holds

abbrev patterns : Patterns
patterns =
    (0, record { num_spaces_before_ts = 0; format = codes "%Y" })
    ∷ (4, record { num_spaces_before_ts = 1; format = codes "%Y" })
    ∷ (9, record { num_spaces_before_ts = 2; format = codes "%Y" })
    ∷ []

next_pattern-InForce_example :
    (0 ≤ next_pattern 2 patterns 5 0) × InForce patterns 5 (next_pattern 2 patterns 5 0)
unfolding start_at
next_pattern-InForce_example = next_pattern-InForce patterns 5 0 (omega arith) (omega arith)
