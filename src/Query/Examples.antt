-- ===== src/Query/Examples.antt =====
-- A query with an integer, a dictionary variable and a set of possible dictionary variables.
use clp_core.Base.{◌≡◌, ◌↔◌, true, ◌&&◌, List, [], ◌∷◌, codes, false}
use clp_core.Base.Int.{ℤ}
use clp_core.Logtype.{LogtypeEntry, LogVerbosity}
use clp_core.Dictionary.Variable.{VarEntry}
use clp_core.Query.{
  non_dict_var, dict_var, imprecise_dict_var, SubQuery, contains, matches_vars,
  calculate_ids_of_matching_segments, new_query,
}
use clp_core.Query.Matching.{Embeds, matches_vars_iff}
use clp_core.Query.Segments.{any_logtype, all_may_occur, calculate_ids_of_matching_segments_lem}
use clp_core.Query.Relevance.{
  Change, Follows, no_history, history, search_string, add, relevant_to, relevant_all, run,
  run-Follows,
}

abbrev host : VarEntry
host = record { id = 4; value = codes "host4"; ids_of_segments = 1 ∷ 2 ∷ [] }

abbrev guest : VarEntry
guest = record { id = 9; value = codes "guest9"; ids_of_segments = 2 ∷ 3 ∷ [] }

abbrev login : LogtypeEntry
login = record {
  id = 6;
  value = codes "login";
  ids_of_segments = 1 ∷ 2 ∷ 3 ∷ [];
  verbosity = LogVerbosity.length_verbosity;
  var_positions = [];
}

abbrev sub_query : SubQuery
sub_query = record {
  possible_logtype_entries = login ∷ [];
  possible_logtype_ids = 6 ∷ [];
  ids_of_matching_segments = 2 ∷ [];
  vars =
      non_dict_var (ℤ.pos 7)
      ∷ dict_var (ℤ.pos 104) host
      ∷ imprecise_dict_var (ℤ.pos 104 ∷ ℤ.pos 109 ∷ []) (host ∷ guest ∷ [])
      ∷ [];
  wildcard_match_required = false;
}

abbrev message_vars : List ℤ
message_vars = ℤ.pos 7 ∷ ℤ.pos 1 ∷ ℤ.pos 104 ∷ ℤ.pos 109 ∷ []

matches_vars_iff_example :
    (matches_vars sub_query message_vars ≡ true) ↔ Embeds sub_query.vars message_vars
matches_vars_iff_example = matches_vars_iff sub_query message_vars

calculate_ids_of_matching_segments_example :
    contains 2 (calculate_ids_of_matching_segments sub_query).ids_of_matching_segments
    ≡ (any_logtype 2 sub_query.possible_logtype_entries && all_may_occur 2 sub_query.vars)
calculate_ids_of_matching_segments_example = calculate_ids_of_matching_segments_lem 2 sub_query

abbrev changes : List Change
changes =
    search_string (codes "*login*")
    ∷ add sub_query
    ∷ relevant_to 3
    ∷ add sub_query
    ∷ relevant_all
    ∷ []

run-Follows_example : Follows (history changes no_history) (run changes (new_query 0))
run-Follows_example = run-Follows changes 0
