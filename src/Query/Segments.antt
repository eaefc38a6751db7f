-- ===== src/Query/Segments.antt =====
-- The segments that a subquery keeps: those of one of its logtypes and of each of its variables.
use clp_core.Base.{ℕ, ◌≡◌, refl, Bool, true, false, ◌==◌, ◌&&◌, ◌||◌, List, [], ◌∷◌, arith}
use clp_core.Logtype.{LogtypeEntry}
use clp_core.Dictionary.Variable.{VarEntry, set_emplace}
use clp_core.Query.{
  QueryVar, non_dict_var, dict_var, imprecise_dict_var, SubQuery, contains, insert_all,
  inplace_set_intersection, insert_segments_of, remove_segments_that_dont_contain_dict_var,
  insert_segments_of_logtypes, remove_segments, calculate_ids_of_matching_segments,
}

contains-set_emplace :
    (i a : ℕ) (s : List ℕ) → contains i (set_emplace a s) ≡ (a == i || contains i s)
unfolding contains set_emplace
contains-set_emplace i a [] = refl
contains-set_emplace i a (x ∷ s) = ground (arith, contains-set_emplace i a s)

contains-insert_all :
    (i : ℕ) (l s : List ℕ) → contains i (insert_all l s) ≡ (contains i l || contains i s)
unfolding contains insert_all
contains-insert_all i [] s = refl
contains-insert_all i (a ∷ l) s =
    ground (arith, contains-insert_all i l (set_emplace a s), contains-set_emplace i a s)

-- The intersection of two sets has the members of both.
pub contains-inplace_set_intersection :
    (i : ℕ) (a b : List ℕ)
    → contains i (inplace_set_intersection a b) ≡ (contains i a && contains i b)
unfolding contains inplace_set_intersection
contains-inplace_set_intersection i a [] = ground arith
contains-inplace_set_intersection i a (x ∷ b) =
    ground (arith, contains-inplace_set_intersection i a b)

abbrev any_entry : ℕ → List VarEntry → Bool
any_entry i [] = false
any_entry i (e ∷ es) = contains i e.ids_of_segments || any_entry i es

abbrev pub any_logtype : ℕ → List LogtypeEntry → Bool
any_logtype i [] = false
any_logtype i (e ∷ es) = contains i e.ids_of_segments || any_logtype i es

-- A variable of the query may occur in a segment: one of its dictionary entries does, where it has any.
abbrev may_occur : ℕ → QueryVar → Bool
may_occur i (non_dict_var v) = true
may_occur i (dict_var v e) = contains i e.ids_of_segments
may_occur i (imprecise_dict_var vs es) = any_entry i es

abbrev pub all_may_occur : ℕ → List QueryVar → Bool
all_may_occur i [] = true
all_may_occur i (q ∷ qs) = may_occur i q && all_may_occur i qs

contains-insert_segments_of :
    (i : ℕ) (es : List VarEntry) (s : List ℕ)
    → contains i (insert_segments_of es s) ≡ (any_entry i es || contains i s)
unfolding insert_segments_of
contains-insert_segments_of i [] s = refl
contains-insert_segments_of i (e ∷ es) s = ground (
  arith,
  contains-insert_segments_of i es (insert_all e.ids_of_segments s),
  contains-insert_all i e.ids_of_segments s,
)

contains-insert_segments_of_logtypes :
    (i : ℕ) (es : List LogtypeEntry) (s : List ℕ)
    → contains i (insert_segments_of_logtypes es s) ≡ (any_logtype i es || contains i s)
unfolding insert_segments_of_logtypes
contains-insert_segments_of_logtypes i [] s = refl
contains-insert_segments_of_logtypes i (e ∷ es) s = ground (
  arith,
  contains-insert_segments_of_logtypes i es (insert_all e.ids_of_segments s),
  contains-insert_all i e.ids_of_segments s,
)

contains-remove_one :
    (i : ℕ) (q : QueryVar) (s : List ℕ)
    → contains i (remove_segments_that_dont_contain_dict_var q s) ≡ (may_occur i q && contains i s)
unfolding remove_segments_that_dont_contain_dict_var contains
contains-remove_one i (non_dict_var v) s = refl
contains-remove_one i (dict_var v e) s = contains-inplace_set_intersection i e.ids_of_segments s
contains-remove_one i (imprecise_dict_var vs es) s = ground (
  arith,
  contains-inplace_set_intersection i (insert_segments_of es []) s,
  contains-insert_segments_of i es [],
)

contains-remove_segments :
    (i : ℕ) (qs : List QueryVar) (s : List ℕ)
    → contains i (remove_segments qs s) ≡ (all_may_occur i qs && contains i s)
unfolding remove_segments
contains-remove_segments i [] s = refl
contains-remove_segments i (q ∷ qs) s = ground (
  arith,
  contains-remove_segments i qs (remove_segments_that_dont_contain_dict_var q s),
  contains-remove_one i q s,
)

-- The matching segments are those that contain one of the possible logtypes and, for each variable
-- of the subquery that is in the dictionary, one of its possible entries.
pub calculate_ids_of_matching_segments_lem :
    (i : ℕ) (s : SubQuery)
    → contains i (calculate_ids_of_matching_segments s).ids_of_matching_segments
      ≡ (any_logtype i s.possible_logtype_entries && all_may_occur i s.vars)
unfolding calculate_ids_of_matching_segments contains
calculate_ids_of_matching_segments_lem i s = ground (
  arith,
  contains-remove_segments i s.vars (insert_segments_of_logtypes s.possible_logtype_entries []),
  contains-insert_segments_of_logtypes i s.possible_logtype_entries [],
)
