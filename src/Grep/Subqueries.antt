-- ===== src/Grep/Subqueries.antt =====
-- src/Grep.cpp: a subquery of one combination of types, with the searches by wildcard of
-- src/DictionaryReader.hpp and src/EncodedVariableInterpreter.cpp.
use clp_core.Base.{
  ℕ, ◌-◌, Bool, true, false, not, ltb, if◌then◌else◌, Bytes, bytes_eq, substr, drop, List, [], ◌∷◌,
  ◌++◌, length, none, some, Outcome, ok, ◌>>=◌,
}
use clp_core.Base.Int.{ℤ}
use clp_core.Logtype.{LogtypeEntry, append_non_double_var, append_wildcard_double_var}
use clp_core.Dictionary.{DictionaryReader}
use clp_core.Dictionary.Variable.{VarEntry}
use clp_core.Variables.{encode_var_dict_id}
use clp_core.Variables.Floats.{FloatLib}
use clp_core.Query.{
  SubQuery, contains_var, add_imprecise_dict_var, mark_wildcard_match_required,
  set_possible_logtypes, calculate_ids_of_matching_segments,
}
use clp_core.Search.{Searched, encode_and_search_dictionary}
use clp_core.Wildcards.Matcher.{wild_card_match}
use clp_core.Grep.{QueryToken, is_double_var, is_var, is_wildcard_token}

-- The dictionaries of an archive.
pub record ArchiveDicts : Type 0 where
  pub var_dictionary : DictionaryReader VarEntry
  pub logtype_dictionary : DictionaryReader LogtypeEntry

pub data Matchability : Type 0 where
  may_match wont_match supercedes_all_sub_queries : Matchability

-- The entries whose values the wildcard string matches.
unfoldable pub entries_matching :
    {E : Type 0} → (E → Bytes) → (Bytes → Bytes) → Bytes → Bool → List E → Outcome (List E)
entries_matching value_of to_upper wildcard_string ignore_case [] = ok []
entries_matching value_of to_upper wildcard_string ignore_case (e ∷ es) = do
  matched ← wild_card_match to_upper (value_of e) wildcard_string (not ignore_case)
  rest ← entries_matching value_of to_upper wildcard_string ignore_case es
  ok (if matched then e ∷ rest else rest)

unfoldable pub get_entries_matching_wildcard_string :
    {E : Type 0}
    → (E → Bytes)
    → (Bytes → Bytes)
    → DictionaryReader E
    → Bytes
    → Bool
    → Outcome (List E)
unfolding entries_matching
get_entries_matching_wildcard_string value_of to_upper r wildcard_string ignore_case =
    entries_matching value_of to_upper wildcard_string ignore_case r.reader_entries

-- `encoded_vars.insert (encode_var_dict_id (entry->get_id ()))` for each entry.
unfoldable pub encode_matches : List VarEntry → List ℤ
unfolding contains_var encode_var_dict_id
encode_matches [] = []
encode_matches (e ∷ es) =
    let rest = encode_matches es in
    if contains_var (encode_var_dict_id e.id) rest then rest else encode_var_dict_id e.id ∷ rest

-- The case of no variable is not reached: there is an entry.
unfoldable pub add_matches : List VarEntry → SubQuery → Bool × SubQuery
unfolding encode_matches add_imprecise_dict_var
add_matches [] sub_query = (false, sub_query)
add_matches (e ∷ es) sub_query =
    elim (add_imprecise_dict_var (encode_matches (e ∷ es)) (e ∷ es) sub_query) [
      | none ↦ (false, sub_query)
      | some s ↦ (true, s)
    ]

unfoldable pub wildcard_search_dictionary_and_get_encoded_matches :
    (Bytes → Bytes)
    → Bytes
    → DictionaryReader VarEntry
    → Bool
    → SubQuery
    → Outcome (Bool × SubQuery)
unfolding get_entries_matching_wildcard_string add_matches
wildcard_search_dictionary_and_get_encoded_matches to_upper wildcard_str var_dict ignore_case
      sub_query =
    do
      entries ←
          get_entries_matching_wildcard_string (λ e. e.value) to_upper var_dict wildcard_str
            ignore_case
      ok (add_matches entries sub_query)

abbrev pub star_if : Bool → Bytes → Bytes
star_if b logtype = if b then logtype ++ b'*' ∷ [] else logtype

module _ (lib : FloatLib) (to_upper : Bytes → Bytes) (archive : ArchiveDicts)
    (ignore_case : Bool) where
  -- The variable of a token with wildcards, and the logtype behind it.
  unfoldable pub search_wildcard_var : QueryToken → SubQuery → Bytes → Outcome Searched
  unfolding wildcard_search_dictionary_and_get_encoded_matches is_double_var
  search_wildcard_var t sub_query logtype =
      if is_double_var t
      then ok (record {
        found = true;
        logtype = append_wildcard_double_var logtype;
        sub_query = sub_query;
      })
      else if t.cannot_convert_to_non_dict_var
      then (wildcard_search_dictionary_and_get_encoded_matches to_upper t.value
            archive.var_dictionary ignore_case sub_query
          >>= λ r.
              ok (record { found = r.0; logtype = append_non_double_var logtype; sub_query = r.1 }))
      else ok
          (record { found = true; logtype = append_non_double_var logtype; sub_query = sub_query })

  unfoldable pub process_var_token : QueryToken → SubQuery → Bytes → Outcome Searched
  unfolding search_wildcard_var encode_and_search_dictionary mark_wildcard_match_required
  process_var_token t sub_query logtype =
      let marked = mark_wildcard_match_required sub_query in
      if not t.contains_wildcards
      then encode_and_search_dictionary lib to_upper t.value archive.var_dictionary ignore_case
          logtype marked
      else (search_wildcard_var t marked (star_if t.has_prefix_greedy_wildcard logtype) >>= λ r.
          ok (
            if r.found
            then record r { logtype = star_if t.has_suffix_greedy_wildcard r.logtype }
            else r))

  -- One token of `generate_logtypes_and_vars_for_subquery`, behind the text in front of it.
  unfoldable pub add_token : QueryToken → SubQuery → Bytes → Outcome Searched
  unfolding process_var_token is_var is_wildcard_token mark_wildcard_match_required
  add_token t sub_query logtype =
      if is_wildcard_token t
      then ok (record { found = true; logtype = star_if true logtype; sub_query = sub_query })
      else if t.has_greedy_wildcard_in_middle
      then ok (record {
        found = true;
        logtype =
            if not (is_var t)
            then star_if true logtype
            else star_if true (append_non_double_var (star_if true logtype));
        sub_query = mark_wildcard_match_required sub_query;
      })
      else if not (is_var t)
      then ok (record { found = true; logtype = logtype ++ t.value; sub_query = sub_query })
      else process_var_token t sub_query logtype

  -- The loop over the tokens; the result holds the whole logtype where all of them may match.
  unfoldable pub add_tokens : Bytes → List QueryToken → ℕ → SubQuery → Bytes → Outcome Searched
  unfolding add_token
  add_tokens search_string [] last_token_end_pos sub_query logtype = ok (record {
    found = true;
    logtype =
        if ltb last_token_end_pos (length search_string)
        then logtype ++ drop last_token_end_pos search_string
        else logtype;
    sub_query = sub_query;
  })
  add_tokens search_string (t ∷ ts) last_token_end_pos sub_query logtype =
      add_token t sub_query
        (logtype ++ substr search_string last_token_end_pos (t.begin_pos - last_token_end_pos))
      >>= λ r. elim r.found [
        | true ↦ add_tokens search_string ts t.end_pos r.sub_query r.logtype
        | false ↦ ok r
      ]

  unfoldable pub with_logtypes : List LogtypeEntry → SubQuery → Matchability × SubQuery
  unfolding set_possible_logtypes calculate_ids_of_matching_segments
  with_logtypes [] sub_query = (Matchability.wont_match, sub_query)
  with_logtypes (e ∷ es) sub_query = (
    Matchability.may_match,
    calculate_ids_of_matching_segments (set_possible_logtypes (e ∷ es) sub_query),
  )

  unfoldable pub generate_logtypes_and_vars_for_subquery :
      Bytes → List QueryToken → SubQuery → Outcome (Matchability × SubQuery)
  unfolding add_tokens with_logtypes get_entries_matching_wildcard_string
  generate_logtypes_and_vars_for_subquery search_string ts sub_query =
      add_tokens search_string ts 0 sub_query [] >>= λ r.
      if not r.found
      then ok (Matchability.wont_match, r.sub_query)
      else if bytes_eq (b'*' ∷ []) r.logtype
      then ok (Matchability.supercedes_all_sub_queries, r.sub_query)
      else (get_entries_matching_wildcard_string (λ e. e.value) to_upper archive.logtype_dictionary
            r.logtype ignore_case
          >>= λ es. ok (with_logtypes es r.sub_query))
