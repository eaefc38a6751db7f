-- ===== src/Grep/Fresh.antt =====
-- `SubQuery::clear` of src/Query.hpp leaves the logtype entries and the segments of the last combination
-- in the subquery: what becomes of them when src/Grep.cpp makes a subquery of the next one.
use clp_core.Base.{
  Bool, not, Bool-cases, inl, inr, if◌then◌else◌, Bytes, bytes_eq, List, [], ◌∷◌, Outcome,
  ErrorCode, ok, throws, no_fuel, ◌>>=◌,
}
use clp_core.Logtype.{LogtypeEntry}
use clp_core.Variables.Floats.{FloatLib}
use clp_core.Query.{
  SubQuery, clear_sub_query, set_possible_logtypes, calculate_ids_of_matching_segments,
}
use clp_core.Search.{Searched}
use clp_core.Grep.{QueryToken}
use clp_core.Grep.Subqueries.{
  ArchiveDicts, Matchability, may_match, wont_match, supercedes_all_sub_queries,
  get_entries_matching_wildcard_string, add_tokens, with_logtypes,
  generate_logtypes_and_vars_for_subquery,
}
use clp_core.Grep.Queries.{no_sub_query}
use clp_core.Grep.Keeping.{keep, Ends, ends, add_tokens-keep}

-- Two ends of making a subquery, which are the same but for a subquery that no query gets.
pub data SameEnd
    : Outcome (Matchability × SubQuery) → Outcome (Matchability × SubQuery) → Type 0 where
  both_may_match : (s : SubQuery) → SameEnd (ok (may_match, s)) (ok (may_match, s))
  neither_matches : (s s' : SubQuery) → SameEnd (ok (wont_match, s)) (ok (wont_match, s'))
  both_supercede :
      (s s' : SubQuery)
      → SameEnd (ok (supercedes_all_sub_queries, s)) (ok (supercedes_all_sub_queries, s'))
  both_throw : (code : ErrorCode) → SameEnd (throws code) (throws code)
  both_ran_out : SameEnd no_fuel no_fuel

module _ (lib : FloatLib) (to_upper : Bytes → Bytes) (archive : ArchiveDicts)
    (ignore_case : Bool) where
  with_logtypes-SameEnd :
      (k s : SubQuery) (es : List LogtypeEntry)
      → SameEnd
          (ok (with_logtypes lib to_upper archive ignore_case es (keep k s)))
          (ok (with_logtypes lib to_upper archive ignore_case es s))
  unfolding with_logtypes set_possible_logtypes calculate_ids_of_matching_segments
  with_logtypes-SameEnd k s [] = SameEnd.neither_matches _ _
  with_logtypes-SameEnd k s (e ∷ es) = SameEnd.both_may_match _

  -- Behind the tokens.
  logtypes-SameEnd :
      (k : SubQuery) (x : Searched) (m : Outcome (List LogtypeEntry))
      → SameEnd
          (if not x.found
            then ok (wont_match, keep k x.sub_query)
            else if bytes_eq (b'*' ∷ []) x.logtype
            then ok (supercedes_all_sub_queries, keep k x.sub_query)
            else (m >>= λ es.
                ok (with_logtypes lib to_upper archive ignore_case es (keep k x.sub_query))))
          (if not x.found
            then ok (wont_match, x.sub_query)
            else if bytes_eq (b'*' ∷ []) x.logtype
            then ok (supercedes_all_sub_queries, x.sub_query)
            else (m >>= λ es. ok (with_logtypes lib to_upper archive ignore_case es x.sub_query)))
  logtypes-SameEnd k x m = elim (Bool-cases x.found) [
    | inr not_found ↦ (simp (not_found) (SameEnd.neither_matches _ _))
    | inl found ↦ elim (Bool-cases (bytes_eq (b'*' ∷ []) x.logtype)) [
      | inl star ↦ (simp (found, star) (SameEnd.both_supercede _ _))
      | inr other ↦ elim (ends m) [
        | Ends.ran_out e ↦ (simp (found, other, e) SameEnd.both_ran_out)
        | Ends.threw code e ↦ (simp (found, other, e) (SameEnd.both_throw code))
        | Ends.gave es e ↦ (simp (found, other, e) (with_logtypes-SameEnd k x.sub_query es))
      ]
    ]
  ]

  generate-SameEnd :
      (k s : SubQuery) (p : Bytes) (ts : List QueryToken)
      → SameEnd
          (generate_logtypes_and_vars_for_subquery lib to_upper archive ignore_case p ts (keep k s))
          (generate_logtypes_and_vars_for_subquery lib to_upper archive ignore_case p ts s)
  unfolding generate_logtypes_and_vars_for_subquery
  generate-SameEnd k s p ts =
      let same = add_tokens-keep k lib to_upper archive ignore_case p ts 0 s [] in
      elim (ends (add_tokens lib to_upper archive ignore_case p ts 0 s [])) [
        | Ends.ran_out e ↦
            (rw (generate_logtypes_and_vars_for_subquery, same, e) SameEnd.both_ran_out)
        | Ends.threw code e ↦
            (rw (generate_logtypes_and_vars_for_subquery, same, e) (SameEnd.both_throw code))
        | Ends.gave x e ↦
            (rw (generate_logtypes_and_vars_for_subquery, same, e)
              (logtypes-SameEnd k x (
                get_entries_matching_wildcard_string (λ d. d.value) to_upper
                  archive.logtype_dictionary x.logtype ignore_case)))
      ]

-- A subquery that is cleared and used again for a combination ends as a new one does: with the same
-- matchability, and where it may match with the same members, whatever logtypes and segments the clearing
-- has left in it.
pub generate_logtypes_and_vars_for_subquery-clear :
    (lib : FloatLib) (to_upper : Bytes → Bytes) (archive : ArchiveDicts) (ignore_case : Bool)
    (s : SubQuery) (search_string : Bytes) (ts : List QueryToken)
    → SameEnd
        (generate_logtypes_and_vars_for_subquery lib to_upper archive ignore_case search_string ts
          (clear_sub_query s))
        (generate_logtypes_and_vars_for_subquery lib to_upper archive ignore_case search_string ts
          no_sub_query)
unfolding clear_sub_query
generate_logtypes_and_vars_for_subquery-clear lib to_upper archive ignore_case s search_string ts =
    generate-SameEnd lib to_upper archive ignore_case (clear_sub_query s) no_sub_query search_string
      ts
