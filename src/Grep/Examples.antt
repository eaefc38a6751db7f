-- ===== src/Grep/Examples.antt =====
-- A search string with three tokens, two of which may have two types each.
use clp_core.Base.{
  ℕ, suc, Bool, true, false, Bytes, codes, List, [], ◌∷◌, Outcome, ok, ◌≡◌, refl, inr, arith,
}
use clp_core.Base.Int.{pos}
use clp_core.Dictionary.{DictionaryReader}
use clp_core.Dictionary.Variable.{VarEntry}
use clp_core.Codec.Examples.{small_lib}
use clp_core.Query.{SubQuery, QueryVar, clear_sub_query, new_query}
use clp_core.Files.Examples.{logtypes, file, first, second, blank, file-Holds}
use clp_core.Grep.Finding.{wanted, Gives, find_matching_message, find_matching_message-Gives}
use clp_core.Tokens.Potential.{Potential, get_bounds_of_next_potential_var}
use clp_core.Tokens.Potentials.{Next, get_bounds_of_next_potential_var-Next}
use clp_core.Grep.{
  TokenType, QueryToken, combination_loop, is_varied, num_combinations, is_ambiguous_token,
}
use clp_core.Grep.Combinations.{AllReady, combinations}
use clp_core.Grep.Visits.{visit_all, combination_loop-visit_all}
use clp_core.Grep.Subqueries.{ArchiveDicts, generate_logtypes_and_vars_for_subquery}
use clp_core.Grep.Queries.{no_sub_query, query_tokens, process_raw_query}
use clp_core.Grep.Tokenized.{InOrder, query_tokens-InOrder}
use clp_core.Grep.Fresh.{SameEnd, generate_logtypes_and_vars_for_subquery-clear}
use clp_core.Grep.Processing.{Processed, process_raw_query-Processed}

abbrev search : Bytes
search = codes "*ab* x1 12*"

get_bounds_of_next_potential_var-Next_example :
    (found : Bool) × (p : Potential) × (get_bounds_of_next_potential_var search 0 4 ≡ ok (found, p))
    × Next search 4 found p
get_bounds_of_next_potential_var-Next_example =
    get_bounds_of_next_potential_var-Next search 0 4 (omega arith)

query_tokens-InOrder_example :
    (ts : List QueryToken) × (query_tokens small_lib (λ i. false) search ≡ ok ts)
    × InOrder search 0 ts
    × AllReady ts
query_tokens-InOrder_example = query_tokens-InOrder small_lib (λ i. false) search

abbrev ambiguous_token : QueryToken
ambiguous_token = record {
  cannot_convert_to_non_dict_var = false;
  contains_wildcards = true;
  has_greedy_wildcard_in_middle = false;
  has_prefix_greedy_wildcard = true;
  has_suffix_greedy_wildcard = true;
  begin_pos = 0;
  end_pos = 4;
  value = codes "*ab*";
  token_type = TokenType.ambiguous;
  possible_types = TokenType.logtype ∷ TokenType.dict_or_int_var ∷ [];
  current_possible_type_ix = 0;
}

abbrev two_tokens : List QueryToken
two_tokens = ambiguous_token ∷ ambiguous_token ∷ []

abbrev count_visits : List QueryToken → ℕ → Outcome (Bool × ℕ)
count_visits ts n = ok (false, suc n)

combination_loop-visit_all_example :
    combination_loop count_visits 4 two_tokens 0
    ≡ visit_all count_visits (combinations two_tokens) 0
unfolding is_varied is_ambiguous_token num_combinations
combination_loop-visit_all_example =
    combination_loop-visit_all count_visits two_tokens 0 4
      (
        record { first = refl; types = inr (omega arith) },
        (record { first = refl; types = inr (omega arith) }, tt),
      )
      (omega arith)

abbrev no_vars : DictionaryReader VarEntry
no_vars = record {
  reader_is_open = true;
  num_segments_read_from_index = 0;
  reader_entries = [];
  entries_pos = 0;
  segments_pos = 0;
}

-- A subquery that was used before, and a combination that may match.
abbrev stale : SubQuery
stale = record {
  possible_logtype_entries = [];
  possible_logtype_ids = 5 ∷ [];
  ids_of_matching_segments = 7 ∷ [];
  vars = QueryVar.non_dict_var (pos 9) ∷ [];
  wildcard_match_required = false;
}

abbrev integer_token : QueryToken
integer_token = record {
  cannot_convert_to_non_dict_var = false;
  contains_wildcards = false;
  has_greedy_wildcard_in_middle = false;
  has_prefix_greedy_wildcard = false;
  has_suffix_greedy_wildcard = false;
  begin_pos = 0;
  end_pos = 2;
  value = codes "12";
  token_type = TokenType.dict_or_int_var;
  possible_types = TokenType.dict_or_int_var ∷ [];
  current_possible_type_ix = 0;
}

abbrev one_logtype : ArchiveDicts
one_logtype = record { var_dictionary = no_vars; logtype_dictionary = logtypes }

generate_logtypes_and_vars_for_subquery-clear_example :
    SameEnd
      (generate_logtypes_and_vars_for_subquery small_lib
        (λ s. s)
        one_logtype
        false
        (codes "12")
        (integer_token ∷ [])
        (clear_sub_query stale))
      (generate_logtypes_and_vars_for_subquery small_lib
        (λ s. s)
        one_logtype
        false
        (codes "12")
        (integer_token ∷ [])
        no_sub_query)
generate_logtypes_and_vars_for_subquery-clear_example =
    generate_logtypes_and_vars_for_subquery-clear small_lib (λ s. s) one_logtype false stale
      (codes "12") (integer_token ∷ [])

process_raw_query-Processed_example :
    Processed small_lib
      (λ s. s)
      one_logtype
      (λ i. false)
      search
      (pos 0)
      (pos 9)
      false
      []
      (process_raw_query small_lib
        (λ s. s)
        one_logtype
        (λ i. false)
        search
        (pos 0)
        (pos 9)
        false
        (new_query 0))
unfolding new_query
process_raw_query-Processed_example =
    process_raw_query-Processed small_lib (λ s. s) one_logtype (λ i. false) search (pos 0) (pos 9)
      false (new_query 0)

find_matching_message-Gives_example :
    Gives logtypes
      (wanted (new_query 0) (first ∷ second ∷ []))
      (find_matching_message logtypes (new_query 0) file blank)
find_matching_message-Gives_example =
    find_matching_message-Gives logtypes (new_query 0) file blank (first ∷ second ∷ []) file-Holds
      ((omega arith, omega arith), ((omega arith, omega arith), tt))
