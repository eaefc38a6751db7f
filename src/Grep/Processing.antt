-- ===== src/Grep/Processing.antt =====
-- What `process_raw_query` of src/Grep.cpp makes of a search string, combination by combination.
use clp_core.Base.{
  ℕ, Bool, true, false, ◌==◌, Bool-cases, inl, inr, Bytes, List, [], ◌∷◌, ◌++◌, Outcome, ErrorCode,
  ok, throws, no_fuel, ◌>>=◌, ◌≡◌, ◌≢◌, refl, ap, arith,
}
use clp_core.Base.Int.{ℤ}
use clp_core.Variables.Floats.{FloatLib}
use clp_core.Query.{
  SubQuery, clear_sub_query, Query, add_sub_query, clear_sub_queries, set_search_string,
}
use clp_core.Wildcards.{clean_up_wildcard_search_string}
use clp_core.Wildcards.Meaning.{clean_up_wildcard_search_string_lem}
use clp_core.Grep.{QueryToken, unless_superseded, num_combinations}
use clp_core.Grep.Combinations.{combinations}
use clp_core.Grep.Visits.{visit_all, combination_loop-visit_all}
use clp_core.Grep.Subqueries.{
  ArchiveDicts, Matchability, may_match, wont_match, supercedes_all_sub_queries,
  generate_logtypes_and_vars_for_subquery,
}
use clp_core.Grep.Queries.{
  replace_question_marks, no_sub_query, contains_sub_queries, set_properties, query_tokens,
  take_sub_query, try_combination, processed, process_raw_query,
}
use clp_core.Grep.Fresh.{SameEnd, generate_logtypes_and_vars_for_subquery-clear}
use clp_core.Grep.Tokenized.{InOrder, query_tokens-InOrder}

-- Each `?` of the first string is a `*` of the second, and the other bytes are the same.
pub data Starred : Bytes → Bytes → Type 0 where
  nil : Starred [] []
  star : {s t : Bytes} → Starred s t → Starred (b'?' ∷ s) (b'*' ∷ t)
  kept : {c : ℕ} {s t : Bytes} → c ≢ b'?' → Starred s t → Starred (c ∷ s) (c ∷ t)

-- What a query asks for, and where and when.
pub record Asks (cleaned : Bytes) (begin_ts end_ts : ℤ) (ignore_case : Bool) (found : List SubQuery)
    (q : Query) : Type 0 where
  pub sub_queries : q.sub_queries ≡ found
  pub search_string : q.search_string ≡ cleaned
  pub search_begin_timestamp : q.search_begin_timestamp ≡ begin_ts
  pub search_end_timestamp : q.search_end_timestamp ≡ end_ts
  pub ignores_case : q.ignore_case ≡ ignore_case

abbrev pub any_found : List SubQuery → Bool
any_found [] = false
any_found (s ∷ ss) = true

-- How trying combinations one after the other ends, with the subqueries found so far: what may match is a
-- subquery more, what won't match is passed over, and what supersedes all others ends the search with no
-- subqueries; an exception ends it too. The subquery of a combination does not depend on the others.
pub data Tries (make : List QueryToken → Outcome (Matchability × SubQuery))
    (Wanted : List SubQuery → Query → Type 0)
    : List SubQuery → List (List QueryToken) → Outcome (Bool × Query) → Type 0 where
  all_tried :
      {found : List SubQuery} {q : Query}
      → Wanted found q
      → Tries make Wanted found [] (ok (any_found found, q))
  superseded :
      {s : SubQuery} {found : List SubQuery} {q : Query} {ts : List QueryToken}
      {tss : List (List QueryToken)}
      → make ts ≡ ok (supercedes_all_sub_queries, s)
      → Wanted [] q
      → Tries make Wanted found (ts ∷ tss) (ok (true, q))
  added :
      {s : SubQuery} {found : List SubQuery} {ts : List QueryToken} {tss : List (List QueryToken)}
      {r : Outcome (Bool × Query)}
      → make ts ≡ ok (may_match, s)
      → Tries make Wanted (found ++ s ∷ []) tss r
      → Tries make Wanted found (ts ∷ tss) r
  passed_over :
      {s : SubQuery} {found : List SubQuery} {ts : List QueryToken} {tss : List (List QueryToken)}
      {r : Outcome (Bool × Query)}
      → make ts ≡ ok (wont_match, s)
      → Tries make Wanted found tss r
      → Tries make Wanted found (ts ∷ tss) r
  failed :
      {found : List SubQuery} {ts : List QueryToken} {tss : List (List QueryToken)}
      (code : ErrorCode)
      → make ts ≡ throws code
      → Tries make Wanted found (ts ∷ tss) (throws code)
  out_of_fuel :
      {found : List SubQuery} {ts : List QueryToken} {tss : List (List QueryToken)}
      → make ts ≡ no_fuel
      → Tries make Wanted found (ts ∷ tss) no_fuel

replace_question_marks-Starred : (s : Bytes) → Starred s (replace_question_marks s)
unfolding replace_question_marks
replace_question_marks-Starred [] = nil
replace_question_marks-Starred (c ∷ s) = elim (Bool-cases (c == b'?')) [
  | inl e ↦
      (let same : c ≡ b'?' = ground arith in
        rw (replace_question_marks, same) (star (replace_question_marks-Starred s)))
  | inr e ↦
      (let other : c ≢ b'?' = λ same. ground arith in
        rw (replace_question_marks, e) (kept other (replace_question_marks-Starred s)))
]

contains_sub_queries-any_found :
    (q : Query) (found : List SubQuery)
    → q.sub_queries ≡ found
    → contains_sub_queries q ≡ any_found found
contains_sub_queries-any_found q [] e = rw (e) refl
contains_sub_queries-any_found q (s ∷ ss) e = rw (e) (ground arith)

module _ (lib : FloatLib) (to_upper : Bytes → Bytes) (archive : ArchiveDicts)
    (cleaned processed_string : Bytes) (begin_ts end_ts : ℤ) (ignore_case : Bool) where
  abbrev AsksFor : List SubQuery → Query → Type 0
  AsksFor = Asks cleaned begin_ts end_ts ignore_case

  -- A combination's subquery, made from nothing.
  abbrev make : List QueryToken → Outcome (Matchability × SubQuery)
  make ts =
      generate_logtypes_and_vars_for_subquery lib to_upper archive ignore_case processed_string ts
        no_sub_query

  abbrev visits_of : List (List QueryToken) → SubQuery → Query → Outcome (Bool × Query)
  visits_of tss s q =
      visit_all (try_combination lib to_upper archive processed_string) tss (s, q) >>= λ r.
      ok (processed r)

  add_sub_query-Asks :
      (s : SubQuery) (found : List SubQuery) (q : Query)
      → AsksFor found q
      → AsksFor (found ++ s ∷ []) (add_sub_query s q)
  unfolding add_sub_query
  add_sub_query-Asks s found q a = record {
    sub_queries = ap (λ l. l ++ s ∷ []) a.sub_queries;
    search_string = a.search_string;
    search_begin_timestamp = a.search_begin_timestamp;
    search_end_timestamp = a.search_end_timestamp;
    ignores_case = a.ignores_case;
  }

  clear_sub_queries-Asks :
      (found : List SubQuery) (q : Query) → AsksFor found q → AsksFor [] (clear_sub_queries q)
  unfolding clear_sub_queries
  clear_sub_queries-Asks found q a = record {
    sub_queries = refl;
    search_string = a.search_string;
    search_begin_timestamp = a.search_begin_timestamp;
    search_end_timestamp = a.search_end_timestamp;
    ignores_case = a.ignores_case;
  }

  -- One combination, by what comes of making its subquery.
  step-Tries :
      (ts : List QueryToken) (tss : List (List QueryToken)) (found : List SubQuery) (q : Query)
      (m n : Outcome (Matchability × SubQuery))
      → AsksFor found q
      → ((s : SubQuery) (found' : List SubQuery) (q' : Query)
          → AsksFor found' q'
          → Tries make AsksFor found' tss (visits_of tss s q'))
      → SameEnd m n
      → make ts ≡ n
      → Tries make AsksFor found (ts ∷ tss) (
          m
          >>= (λ r. ok (take_sub_query lib to_upper archive r.0 r.1 q))
          >>= (λ p.
              unless_superseded p
                (λ s'. visit_all (try_combination lib to_upper archive processed_string) tss s'))
          >>= λ r. ok (processed r))
  unfolding take_sub_query
  step-Tries ts tss found q _ _ a rest SameEnd.both_ran_out e = Tries.out_of_fuel e
  step-Tries ts tss found q _ _ a rest (SameEnd.both_throw code) e = Tries.failed code e
  step-Tries ts tss found q _ _ a rest (SameEnd.both_supercede s s') e =
      Tries.superseded e (clear_sub_queries-Asks found q a)
  step-Tries ts tss found q _ _ a rest (SameEnd.both_may_match s) e =
      Tries.added e (rest s (found ++ s ∷ []) (add_sub_query s q) (add_sub_query-Asks s found q a))
  step-Tries ts tss found q _ _ a rest (SameEnd.neither_matches s s') e =
      Tries.passed_over e (rest s found q a)

  visits_of-Tries :
      (tss : List (List QueryToken)) (s : SubQuery) (found : List SubQuery) (q : Query)
      → AsksFor found q
      → Tries make AsksFor found tss (visits_of tss s q)
  unfolding try_combination
  visits_of-Tries [] s found q a =
      rw (contains_sub_queries-any_found q found a.sub_queries) (Tries.all_tried a)
  visits_of-Tries (ts ∷ tss) s found q a =
      simp (try_combination, a.ignores_case)
        (step-Tries ts tss found q
          (generate_logtypes_and_vars_for_subquery lib to_upper archive ignore_case processed_string
            ts (clear_sub_query s))
          (make ts) a (λ s' found' q' a'. visits_of-Tries tss s' found' q' a')
          (generate_logtypes_and_vars_for_subquery-clear lib to_upper archive ignore_case s
            processed_string ts)
          refl)

-- What `process_raw_query` does with a search string.
pub record Processed (lib : FloatLib) (to_upper : Bytes → Bytes) (archive : ArchiveDicts)
    (unset : ℕ → Bool) (search_string : Bytes) (begin_ts end_ts : ℤ) (ignore_case : Bool)
    (given : List SubQuery) (result : Outcome (Bool × Query)) : Type 0 where
  pub cleaned : Bytes
  pub starred : Bytes
  pub processed_string : Bytes
  pub tokens : List QueryToken
  pub cleans : clean_up_wildcard_search_string search_string ≡ ok cleaned
  pub stars : Starred cleaned starred
  pub processes : clean_up_wildcard_search_string starred ≡ ok processed_string
  pub finds : query_tokens lib unset processed_string ≡ ok tokens
  pub order : InOrder processed_string 0 tokens
  pub tries :
      Tries
        (λ ts.
          generate_logtypes_and_vars_for_subquery lib to_upper archive ignore_case processed_string
            ts no_sub_query)
        (Asks cleaned begin_ts end_ts ignore_case)
        given
        (combinations tokens)
        result

-- For every search string, archive and query: the string is cleaned, each `?` of it becomes a `*`, it is
-- cleaned again and cut into tokens in order, and the combinations of the tokens' types are tried in turn,
-- each with a subquery made from nothing. The query then has, behind the subqueries that it had, those of
-- the combinations that may match, or none when a combination supersedes all of them, and it has the
-- cleaned string, the bounds of time and the case rule of the call; the result says whether there is
-- something to look for. It is an exception just where trying a combination is.
pub process_raw_query-Processed :
    (lib : FloatLib) (to_upper : Bytes → Bytes) (archive : ArchiveDicts) (unset : ℕ → Bool)
    (search_string : Bytes) (begin_ts end_ts : ℤ) (ignore_case : Bool) (q : Query)
    → Processed lib to_upper archive unset search_string begin_ts end_ts ignore_case q.sub_queries
        (process_raw_query lib to_upper archive unset search_string begin_ts end_ts ignore_case q)
unfolding process_raw_query set_search_string
process_raw_query-Processed lib to_upper archive unset search_string begin_ts end_ts ignore_case q =
    let (cleaned, cleans, meaning) = clean_up_wildcard_search_string_lem search_string in
    let (s, processes, meaning') =
      clean_up_wildcard_search_string_lem (replace_question_marks cleaned) in
    let (ts, finds, order, ready) = query_tokens-InOrder lib unset s in
    let given = set_properties cleaned begin_ts end_ts ignore_case q in
    record {
      cleaned = cleaned;
      starred = replace_question_marks cleaned;
      processed_string = s;
      tokens = ts;
      cleans = cleans;
      stars = replace_question_marks-Starred cleaned;
      processes = processes;
      finds = finds;
      order = order;
      tries =
          (rw
            (
              process_raw_query,
              cleans,
              processes,
              finds,
              combination_loop-visit_all (try_combination lib to_upper archive s) ts
                  (no_sub_query, given) (num_combinations ts) ready (omega arith),
            )
            (visits_of-Tries lib to_upper archive cleaned s begin_ts end_ts ignore_case
              (combinations ts) no_sub_query q.sub_queries given
              (record {
                sub_queries = refl;
                search_string = refl;
                search_begin_timestamp = refl;
                search_end_timestamp = refl;
                ignores_case = refl;
              })));
    }
