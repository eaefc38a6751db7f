-- ===== src/Grep/Queries.antt =====
-- `Grep::process_raw_query` and `Grep::calculate_sub_queries_relevant_to_file` of src/Grep.cpp.
use clp_core.Base.{
  ℕ, zero, suc, Bool, true, false, not, ◌==◌, if◌then◌else◌, Bytes, List, [], ◌∷◌, length, Outcome,
  ok, no_fuel, ◌>>=◌,
}
use clp_core.Base.Int.{ℤ}
use clp_core.Variables.Floats.{FloatLib}
use clp_core.Query.{
  SubQuery, clear_sub_query, Query, set_search_string, add_sub_query, clear_sub_queries,
  make_sub_queries_relevant_to_segment, make_all_sub_queries_relevant,
}
use clp_core.Wildcards.{clean_up_wildcard_search_string}
use clp_core.Tokens.Potential.{get_bounds_of_next_potential_var}
use clp_core.Grep.{QueryToken, new_query_token, combination_loop, num_combinations}
use clp_core.Grep.Subqueries.{
  ArchiveDicts, Matchability, may_match, wont_match, supercedes_all_sub_queries,
  generate_logtypes_and_vars_for_subquery,
}

-- `std::replace (begin, end, '?', '*')`
unfoldable pub replace_question_marks : Bytes → Bytes
replace_question_marks [] = []
replace_question_marks (c ∷ s) = (if c == b'?' then b'*' else c) ∷ replace_question_marks s

abbrev pub no_sub_query : SubQuery
no_sub_query = record {
  possible_logtype_entries = [];
  possible_logtype_ids = [];
  ids_of_matching_segments = [];
  vars = [];
  wildcard_match_required = false;
}

abbrev pub set_properties : Bytes → ℤ → ℤ → Bool → Query → Query
set_properties search_string begin_ts end_ts ignore_case q =
    set_search_string search_string (record q {
      search_begin_timestamp = begin_ts;
      search_end_timestamp = end_ts;
      ignore_case = ignore_case;
    })

-- `query.contains_sub_queries ()`
abbrev pub contains_sub_queries : Query → Bool
contains_sub_queries q = not (length q.sub_queries == 0)

module _ (lib : FloatLib) (unset : ℕ → Bool) where
  -- `while (get_bounds_of_next_potential_var (...)) { query_tokens.emplace_back (...); }`
  unfoldable pub find_tokens : ℕ → Bytes → ℕ → ℕ → Outcome (List QueryToken)
  unfolding get_bounds_of_next_potential_var new_query_token
  find_tokens zero search_string begin_pos end_pos = no_fuel
  find_tokens (suc fuel) search_string begin_pos end_pos =
      get_bounds_of_next_potential_var search_string begin_pos end_pos >>= λ r. elim r.0 [
        | false ↦ ok []
        | true ↦ find_tokens fuel search_string r.1.begin_pos r.1.end_pos >>= λ ts. ok (
            new_query_token lib (unset r.1.begin_pos) search_string r.1.begin_pos r.1.end_pos
              r.1.is_var
            ∷ ts)
      ]

  unfoldable pub query_tokens : Bytes → Outcome (List QueryToken)
  unfolding find_tokens
  query_tokens search_string = find_tokens (suc (length search_string)) search_string 0 0

-- The result of the function, and the query.
abbrev pub processed : Bool × (SubQuery × Query) → Bool × Query
processed (true, (sub_query, q)) = (true, q)
processed (false, (sub_query, q)) = (contains_sub_queries q, q)

module _ (lib : FloatLib) (to_upper : Bytes → Bytes) (archive : ArchiveDicts) where
  -- The `switch` on what the subquery may match.
  unfoldable pub take_sub_query : Matchability → SubQuery → Query → Bool × (SubQuery × Query)
  unfolding clear_sub_queries add_sub_query
  take_sub_query supercedes_all_sub_queries sub_query q = (true, (sub_query, clear_sub_queries q))
  take_sub_query may_match sub_query q = (false, (sub_query, add_sub_query sub_query q))
  take_sub_query wont_match sub_query q = (false, (sub_query, q))

  -- The body of the loop, up to the move to the next combination.
  unfoldable pub try_combination :
      Bytes → List QueryToken → SubQuery × Query → Outcome (Bool × (SubQuery × Query))
  unfolding generate_logtypes_and_vars_for_subquery take_sub_query clear_sub_query
  try_combination search_string ts (sub_query, q) =
      generate_logtypes_and_vars_for_subquery lib to_upper archive q.ignore_case search_string ts
        (clear_sub_query sub_query)
      >>= λ r. ok (take_sub_query r.0 r.1 q)

  unfoldable pub process_raw_query :
      (ℕ → Bool) → Bytes → ℤ → ℤ → Bool → Query → Outcome (Bool × Query)
  unfolding try_combination query_tokens replace_question_marks combination_loop
  process_raw_query unset search_string begin_ts end_ts ignore_case q = do
    cleaned ← clean_up_wildcard_search_string search_string
    processed_search_string ← clean_up_wildcard_search_string (replace_question_marks cleaned)
    ts ← query_tokens lib unset processed_search_string
    r ←
        combination_loop (try_combination processed_search_string) (num_combinations ts) ts
          (no_sub_query, set_properties cleaned begin_ts end_ts ignore_case q)
    ok (processed r)

-- For a file that is in a segment, and for one that is not.
unfoldable pub calculate_sub_queries_relevant_to_file : Bool → ℕ → List Query → List Query
unfolding make_sub_queries_relevant_to_segment make_all_sub_queries_relevant
calculate_sub_queries_relevant_to_file is_in_segment segment_id [] = []
calculate_sub_queries_relevant_to_file is_in_segment segment_id (q ∷ qs) =
    (if is_in_segment
      then make_sub_queries_relevant_to_segment segment_id q
      else make_all_sub_queries_relevant q)
    ∷ calculate_sub_queries_relevant_to_file is_in_segment segment_id qs
