-- ===== src/Query/Relevance.antt =====
-- Which subqueries a query counts as relevant, against the calls that it has seen.
use mathlib.Core.Path.{subst}
use clp_core.Base.{
  ℕ, suc, ◌+◌, ◌≡◌, refl, sym, ap, ◌∙◌, Bool, true, false, ◌==◌, if◌then◌else◌, Bool-cases, inl,
  inr, Bytes, List, [], ◌∷◌, ◌++◌, length, arith,
}
use clp_core.Query.{
  SubQuery, Query, contains, new_query, set_search_string, add_sub_query, clear_sub_queries,
  all_indices, indices_in_segment, make_all_sub_queries_relevant,
  make_sub_queries_relevant_to_segment,
}

-- The calls that change a query.
pub data Change : Type 0 where
  search_string : Bytes → Change
  add : SubQuery → Change
  clear_all : Change
  relevant_all : Change
  relevant_to : ℕ → Change

abbrev pub apply : Change → Query → Query
apply (search_string s) q = set_search_string s q
apply (add s) q = add_sub_query s q
apply clear_all q = clear_sub_queries q
apply relevant_all q = make_all_sub_queries_relevant q
apply (relevant_to i) q = make_sub_queries_relevant_to_segment i q

abbrev pub run : List Change → Query → Query
run [] q = q
run (c ∷ cs) q = run cs (apply c q)

-- Which subqueries were asked for last.
pub data Asked : Type 0 where
  every_sub_query : Asked
  segment : ℕ → Asked

-- What the calls say, without a query: the subqueries added since the last clearing, and what was asked
-- for last. Clearing asks for all of them.
pub record History : Type 0 where
  pub added : List SubQuery
  pub asked : Asked

abbrev pub note : Change → History → History
note (search_string s) h = h
note (add s) h = record { added = h.added ++ s ∷ []; asked = h.asked }
note clear_all h = record { added = []; asked = every_sub_query }
note relevant_all h = record { added = h.added; asked = every_sub_query }
note (relevant_to i) h = record { added = h.added; asked = segment i }

abbrev pub history : List Change → History → History
history [] h = h
history (c ∷ cs) h = history cs (note c h)

abbrev pub no_history : History
no_history = record { added = []; asked = every_sub_query }

abbrev pub occurs : ℕ → List ℕ → Bool
occurs a [] = false
occurs a (x ∷ xs) = if a == x then true else occurs a xs

abbrev pub is_asked_for : Asked → SubQuery → Bool
is_asked_for every_sub_query s = true
is_asked_for (segment i) s = occurs i s.ids_of_matching_segments

-- The positions, from `i` on, of the subqueries that were asked for.
abbrev pub positions : Asked → ℕ → List SubQuery → List ℕ
positions a i [] = []
positions a i (s ∷ ss) =
    if is_asked_for a s then i ∷ positions a (suc i) ss else positions a (suc i) ss

-- How a query remembers it, in its flag and in its previous segment.
abbrev pub Remembers : Asked → Bool → ℕ → Type 0
Remembers every_sub_query all prev = all ≡ true
Remembers (segment i) all prev = (all ≡ false) × (prev ≡ i)

pub record Follows (h : History) (q : Query) : Type 0 where
  pub added : q.sub_queries ≡ h.added
  pub relevant : q.relevant_sub_queries ≡ positions h.asked 0 h.added
  pub remembers : Remembers h.asked q.all_subqueries_relevant q.prev_segment_id

contains-occurs : (a : ℕ) (s : List ℕ) → contains a s ≡ occurs a s
unfolding contains
contains-occurs a [] = refl
contains-occurs a (x ∷ s) = ground (arith, contains-occurs a s)

all_indices-positions :
    (i : ℕ) (ss : List SubQuery) → all_indices i ss ≡ positions every_sub_query i ss
unfolding all_indices
all_indices-positions i [] = refl
all_indices-positions i (s ∷ ss) = ap (◌∷◌ i) (all_indices-positions (suc i) ss)

indices_in_segment-positions :
    (g i : ℕ) (ss : List SubQuery) → indices_in_segment g i ss ≡ positions (segment g) i ss
unfolding indices_in_segment
indices_in_segment-positions g i [] = refl
indices_in_segment-positions g i (s ∷ ss) =
    rw (contains-occurs g s.ids_of_matching_segments, indices_in_segment-positions g (suc i) ss)
      refl

positions-append :
    (a : Asked) (i : ℕ) (ss : List SubQuery) (s : SubQuery)
    → positions a i (ss ++ s ∷ [])
      ≡ (if is_asked_for a s then positions a i ss ++ (i + length ss) ∷ [] else positions a i ss)
positions-append a i [] s = let same : i ≡ i + 0 = omega arith in ground (arith, same)
positions-append a i (t ∷ ss) s =
    let shift : (i + 1) + length ss ≡ i + (length ss + 1) = omega arith in
    ground (arith, positions-append a (suc i) ss s, shift)

positions-append_first :
    (a : Asked) (ss : List SubQuery) (s : SubQuery)
    → positions a 0 (ss ++ s ∷ [])
      ≡ (if is_asked_for a s then positions a 0 ss ++ length ss ∷ [] else positions a 0 ss)
positions-append_first a ss s =
    let same : 0 + length ss ≡ length ss = omega arith in
    positions-append a 0 ss s
    ∙ ap (λ n. if is_asked_for a s then positions a 0 ss ++ n ∷ [] else positions a 0 ss) same

add_sub_query-Follows :
    (s : SubQuery) (q : Query) (added : List SubQuery) (asked : Asked)
    → Follows (record { added = added; asked = asked }) q
    → Follows (record { added = added ++ s ∷ []; asked = asked }) (add_sub_query s q)
unfolding add_sub_query
add_sub_query-Follows s q added every_sub_query f = record {
  added = ap (λ l. l ++ s ∷ []) f.added;
  relevant =
      (rw
        (
          add_sub_query,
          f.remembers,
          f.relevant,
          f.added,
          positions-append_first every_sub_query added s,
        )
        refl);
  remembers = f.remembers;
}
add_sub_query-Follows s q added (segment i) f = record {
  added = ap (λ l. l ++ s ∷ []) f.added;
  relevant =
      (rw
        (
          add_sub_query,
          f.remembers.0,
          f.remembers.1,
          contains-occurs i s.ids_of_matching_segments,
          f.relevant,
          f.added,
          positions-append_first (segment i) added s,
        )
        refl);
  remembers = f.remembers;
}

relevant_all-Follows :
    (q : Query) (added : List SubQuery) (asked : Asked)
    → Follows (record { added = added; asked = asked }) q
    → Follows (record { added = added; asked = every_sub_query }) (make_all_sub_queries_relevant q)
unfolding make_all_sub_queries_relevant
relevant_all-Follows q added every_sub_query f = simp (make_all_sub_queries_relevant, f.remembers) f
relevant_all-Follows q added (segment i) f =
    rw (make_all_sub_queries_relevant, f.remembers.0)
      (record {
        added = f.added;
        relevant = ap (all_indices 0) f.added ∙ all_indices-positions 0 added;
        remembers = refl;
      })

relevant_to-Follows :
    (g : ℕ) (q : Query) (added : List SubQuery) (asked : Asked)
    → Follows (record { added = added; asked = asked }) q
    → Follows
        (record { added = added; asked = segment g })
        (make_sub_queries_relevant_to_segment g q)
unfolding make_sub_queries_relevant_to_segment
relevant_to-Follows g q added every_sub_query f =
    simp (make_sub_queries_relevant_to_segment, f.remembers)
      (record {
        added = f.added;
        relevant = ap (indices_in_segment g 0) f.added ∙ indices_in_segment-positions g 0 added;
        remembers = (refl, refl);
      })
relevant_to-Follows g q added (segment i) f = elim (Bool-cases (g == q.prev_segment_id)) [
  | inl same ↦
      (let e : g ≡ i = ground arith in
        simp (make_sub_queries_relevant_to_segment, f.remembers.0, same)
          (subst (λ n. Follows (record { added = added; asked = segment n }) q) (sym e) f))
  | inr other ↦
      simp (make_sub_queries_relevant_to_segment, f.remembers.0, other)
        (record {
          added = f.added;
          relevant = ap (indices_in_segment g 0) f.added ∙ indices_in_segment-positions g 0 added;
          remembers = (refl, refl);
        })
]

apply-Follows :
    (c : Change) (q : Query) (h : History) → Follows h q → Follows (note c h) (apply c q)
unfolding set_search_string clear_sub_queries
apply-Follows (search_string s) q h f = record {
  added = f.added;
  relevant = f.relevant;
  remembers = f.remembers;
}
apply-Follows (add s) q h f = add_sub_query-Follows s q h.added h.asked f
apply-Follows clear_all q h f = record { added = refl; relevant = refl; remembers = refl }
apply-Follows relevant_all q h f = relevant_all-Follows q h.added h.asked f
apply-Follows (relevant_to g) q h f = relevant_to-Follows g q h.added h.asked f

run-Follows_from :
    (cs : List Change) (q : Query) (h : History) → Follows h q → Follows (history cs h) (run cs q)
run-Follows_from [] q h f = f
run-Follows_from (c ∷ cs) q h f = run-Follows_from cs (apply c q) (note c h) (apply-Follows c q h f)

-- After any calls on a new query: it has the subqueries that were added since the last clearing, and its
-- relevant subqueries are, in order, the positions of those that the last call asked for, all of them or
-- those of a segment; all of them after a clearing or when nothing was asked for.
pub run-Follows :
    (cs : List Change) (prev_segment_id : ℕ)
    → Follows (history cs no_history) (run cs (new_query prev_segment_id))
unfolding new_query
run-Follows cs prev_segment_id =
    run-Follows_from cs (new_query prev_segment_id) no_history
      (record { added = refl; relevant = refl; remembers = refl })
