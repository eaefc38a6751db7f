-- ===== src/Query.antt =====
-- Search queries: src/Query.hpp and src/Query.cpp. A set is a list without duplicates, a pointer to a
-- dictionary entry is the entry, and a pointer into `m_sub_queries` is the index of the subquery.
pub mod Matching
pub mod Segments
pub mod Relevance
mod Examples
use clp_core.Base.{
  ℕ, zero, suc, ◌+◌, Bool, true, false, not, ◌==◌, ◌&&◌, ◌||◌, ltb, if◌then◌else◌, Bytes, bytes_eq,
  List, [], ◌∷◌, ◌++◌, length, Option, none, some,
}
use clp_core.Base.Int.{ℤ, eqb_ℤ, leb_ℤ}
use clp_core.Logtype.{LogtypeEntry}
use clp_core.Dictionary.Variable.{VarEntry, set_emplace}

-- `set::count (a) > 0`
unfoldable pub contains : ℕ → List ℕ → Bool
contains a [] = false
contains a (x ∷ xs) = x == a || contains a xs

unfoldable pub contains_var : ℤ → List ℤ → Bool
contains_var v [] = false
contains_var v (u ∷ us) = eqb_ℤ u v || contains_var v us

-- `set::insert (begin, end)`
unfoldable pub insert_all : List ℕ → List ℕ → List ℕ
unfolding set_emplace
insert_all [] s = s
insert_all (a ∷ l) s = insert_all l (set_emplace a s)

-- The loop erases from `b` what is not in `a`.
unfoldable pub inplace_set_intersection : List ℕ → List ℕ → List ℕ
unfolding contains
inplace_set_intersection a [] = []
inplace_set_intersection a (x ∷ b) =
    let rest = inplace_set_intersection a b in if not (contains x a) then rest else x ∷ rest

-- One constructor for each shape that the constructors of the source leave; the members that they do
-- not set are not there.
pub data QueryVar : Type 0 where
  non_dict_var : ℤ → QueryVar
  dict_var : ℤ → VarEntry → QueryVar
  imprecise_dict_var : List ℤ → List VarEntry → QueryVar

-- `none` stands for the undefined read of the first entry of an empty set.
unfoldable pub of_possible_dict_vars : List ℤ → List VarEntry → Option QueryVar
of_possible_dict_vars (v ∷ []) [] = none
of_possible_dict_vars (v ∷ []) (e ∷ es) = some (dict_var v e)
of_possible_dict_vars vs es = some (imprecise_dict_var vs es)

unfoldable pub is_precise_var : QueryVar → Bool
is_precise_var (non_dict_var v) = true
is_precise_var (dict_var v e) = true
is_precise_var (imprecise_dict_var vs es) = false

unfoldable pub is_dict_var : QueryVar → Bool
is_dict_var (non_dict_var v) = false
is_dict_var (dict_var v e) = true
is_dict_var (imprecise_dict_var vs es) = true

unfoldable pub matches : QueryVar → ℤ → Bool
unfolding contains_var
matches (non_dict_var u) v = eqb_ℤ u v
matches (dict_var u e) v = eqb_ℤ u v
matches (imprecise_dict_var us es) v = contains_var v us

-- The union of the segments of the entries, from a set on.
unfoldable pub insert_segments_of : List VarEntry → List ℕ → List ℕ
unfolding insert_all
insert_segments_of [] s = s
insert_segments_of (e ∷ es) s = insert_segments_of es (insert_all e.ids_of_segments s)

unfoldable pub remove_segments_that_dont_contain_dict_var : QueryVar → List ℕ → List ℕ
unfolding inplace_set_intersection insert_segments_of
remove_segments_that_dont_contain_dict_var (non_dict_var v) segment_ids = segment_ids
remove_segments_that_dont_contain_dict_var (dict_var v e) segment_ids =
    inplace_set_intersection e.ids_of_segments segment_ids
remove_segments_that_dont_contain_dict_var (imprecise_dict_var vs es) segment_ids =
    inplace_set_intersection (insert_segments_of es []) segment_ids

pub record SubQuery : Type 0 where
  pub possible_logtype_entries : List LogtypeEntry
  pub possible_logtype_ids : List ℕ
  pub ids_of_matching_segments : List ℕ
  pub vars : List QueryVar
  pub wildcard_match_required : Bool

unfoldable pub add_query_var : QueryVar → SubQuery → SubQuery
add_query_var q s = record s { vars = s.vars ++ q ∷ [] }

unfoldable pub add_non_dict_var : ℤ → SubQuery → SubQuery
unfolding add_query_var
add_non_dict_var v s = add_query_var (non_dict_var v) s

unfoldable pub add_dict_var : ℤ → VarEntry → SubQuery → SubQuery
unfolding add_query_var
add_dict_var v e s = add_query_var (dict_var v e) s

unfoldable pub add_imprecise_dict_var : List ℤ → List VarEntry → SubQuery → Option SubQuery
unfolding add_query_var of_possible_dict_vars
add_imprecise_dict_var vs es s = elim (of_possible_dict_vars vs es) [
  | none ↦ none
  | some q ↦ some (add_query_var q s)
]

unfoldable pub ids_of_logtypes : List LogtypeEntry → List ℕ → List ℕ
unfolding set_emplace
ids_of_logtypes [] ids = ids
ids_of_logtypes (e ∷ es) ids = ids_of_logtypes es (set_emplace e.id ids)

unfoldable pub set_possible_logtypes : List LogtypeEntry → SubQuery → SubQuery
unfolding ids_of_logtypes
set_possible_logtypes es s = record s {
  possible_logtype_ids = ids_of_logtypes es [];
  possible_logtype_entries = es;
}

unfoldable pub mark_wildcard_match_required : SubQuery → SubQuery
mark_wildcard_match_required s = record s { wildcard_match_required = true }

unfoldable pub insert_segments_of_logtypes : List LogtypeEntry → List ℕ → List ℕ
unfolding insert_all
insert_segments_of_logtypes [] s = s
insert_segments_of_logtypes (e ∷ es) s =
    insert_segments_of_logtypes es (insert_all e.ids_of_segments s)

unfoldable pub remove_segments : List QueryVar → List ℕ → List ℕ
unfolding remove_segments_that_dont_contain_dict_var
remove_segments [] s = s
remove_segments (q ∷ qs) s = remove_segments qs (remove_segments_that_dont_contain_dict_var q s)

unfoldable pub calculate_ids_of_matching_segments : SubQuery → SubQuery
unfolding insert_segments_of_logtypes remove_segments
calculate_ids_of_matching_segments s = record s {
  ids_of_matching_segments =
      remove_segments s.vars (insert_segments_of_logtypes s.possible_logtype_entries []);
}

-- The entries and the segments stay as they are.
unfoldable pub clear_sub_query : SubQuery → SubQuery
clear_sub_query s = record s {
  vars = [];
  possible_logtype_ids = [];
  wildcard_match_required = false;
}

unfoldable pub matches_logtype : SubQuery → ℕ → Bool
unfolding contains
matches_logtype s logtype = contains logtype s.possible_logtype_ids

-- The loop on what is left of both vectors; the result is how far `possible_vars_ix` moves.
unfoldable pub match_loop : List QueryVar → List ℤ → ℕ
unfolding matches
match_loop qs [] = 0
match_loop [] (v ∷ vs) = 0
match_loop (q ∷ qs) (v ∷ vs) = elim (matches q v) [
  | true ↦ suc (match_loop qs vs)
  | false ↦ match_loop (q ∷ qs) vs
]

unfoldable pub matches_vars : SubQuery → List ℤ → Bool
unfolding match_loop
matches_vars s vs =
    if ltb (length vs) (length s.vars) then false else length s.vars == match_loop s.vars vs

pub record Query : Type 0 where
  pub search_begin_timestamp : ℤ
  pub search_end_timestamp : ℤ
  pub ignore_case : Bool
  pub search_string : Bytes
  pub search_string_matches_all : Bool
  pub sub_queries : List SubQuery
  pub relevant_sub_queries : List ℕ
  pub prev_segment_id : ℕ
  pub all_subqueries_relevant : Bool

-- `Query ()` leaves `m_prev_segment_id` as it is in memory: it is an argument.
unfoldable pub new_query : ℕ → Query
new_query prev_segment_id = record {
  search_begin_timestamp = ℤ.negsuc 0x7FFF_FFFF_FFFF_FFFF;
  search_end_timestamp = ℤ.pos 0x7FFF_FFFF_FFFF_FFFF;
  ignore_case = false;
  search_string = [];
  search_string_matches_all = true;
  sub_queries = [];
  relevant_sub_queries = [];
  prev_segment_id = prev_segment_id;
  all_subqueries_relevant = true;
}

unfoldable pub set_search_string : Bytes → Query → Query
set_search_string s q = record q {
  search_string = s;
  search_string_matches_all = length s == 0 || bytes_eq (b'*' ∷ []) s;
}

unfoldable pub timestamp_is_in_search_time_range : Query → ℤ → Bool
timestamp_is_in_search_time_range q timestamp =
    leb_ℤ q.search_begin_timestamp timestamp && leb_ℤ timestamp q.search_end_timestamp

unfoldable pub add_sub_query : SubQuery → Query → Query
unfolding contains
add_sub_query s q = record q {
  sub_queries = q.sub_queries ++ s ∷ [];
  relevant_sub_queries =
      if q.all_subqueries_relevant || contains q.prev_segment_id s.ids_of_matching_segments
      then q.relevant_sub_queries ++ length q.sub_queries ∷ []
      else q.relevant_sub_queries;
}

unfoldable pub clear_sub_queries : Query → Query
clear_sub_queries q = record q {
  sub_queries = [];
  relevant_sub_queries = [];
  all_subqueries_relevant = true;
}

-- The loops over `m_sub_queries`, from the subquery at `i` on.
unfoldable pub all_indices : ℕ → List SubQuery → List ℕ
all_indices i [] = []
all_indices i (s ∷ ss) = i ∷ all_indices (suc i) ss

unfoldable pub indices_in_segment : ℕ → ℕ → List SubQuery → List ℕ
unfolding contains
indices_in_segment segment_id i [] = []
indices_in_segment segment_id i (s ∷ ss) =
    let rest = indices_in_segment segment_id (suc i) ss in
    if contains segment_id s.ids_of_matching_segments then i ∷ rest else rest

unfoldable pub make_all_sub_queries_relevant : Query → Query
unfolding all_indices
make_all_sub_queries_relevant q = if q.all_subqueries_relevant then q else record q {
  relevant_sub_queries = all_indices 0 q.sub_queries;
  all_subqueries_relevant = true;
}

unfoldable pub make_sub_queries_relevant_to_segment : ℕ → Query → Query
unfolding indices_in_segment
make_sub_queries_relevant_to_segment segment_id q =
    if not q.all_subqueries_relevant && segment_id == q.prev_segment_id then q else record q {
      relevant_sub_queries = indices_in_segment segment_id 0 q.sub_queries;
      prev_segment_id = segment_id;
      all_subqueries_relevant = false;
    }
