-- ===== src/Grep/Keeping.antt =====
-- Making a subquery of a combination (src/Grep.cpp) only adds to the variables of the subquery it starts
-- from: the logtypes and segments in it pass through the tokens.
use clp_core.Base.{
  ℕ, ◌-◌, Bool, ◌==◌, Bool-cases, Option-cases, inl, inr, Bytes, substr, List, [], ◌∷◌, ◌++◌,
  length, Outcome, ErrorCode, ok, throws, no_fuel, ◌>>=◌, ◌≡◌, refl,
}
use clp_core.Logtype.{append_double_var}
use clp_core.Dictionary.{DictionaryReader}
use clp_core.Dictionary.Variable.{VarEntry}
use clp_core.Variables.{
  convert_string_to_representable_integer_var, convert_string_to_representable_double_var,
}
use clp_core.Variables.Floats.{FloatLib}
use clp_core.Query.{
  SubQuery, add_query_var, add_non_dict_var, add_dict_var, add_imprecise_dict_var,
  of_possible_dict_vars, mark_wildcard_match_required,
}
use clp_core.Search.{
  Searched, search_dict_var, get_entry_matching_value, encode_and_search_dictionary,
}
use clp_core.Grep.{QueryToken, is_double_var, is_var, is_wildcard_token}
use clp_core.Grep.Subqueries.{
  star_if, ArchiveDicts, encode_matches, add_matches, get_entries_matching_wildcard_string,
  wildcard_search_dictionary_and_get_encoded_matches, search_wildcard_var, process_var_token,
  add_token, add_tokens,
}

-- A subquery with the logtypes and segments of another.
abbrev pub keep : SubQuery → SubQuery → SubQuery
keep k s = record k { vars = s.vars; wildcard_match_required = s.wildcard_match_required }

abbrev pub keep_in : SubQuery → Searched → Searched
keep_in k r = record r { sub_query = keep k r.sub_query }

-- How a function that may throw ends.
pub data Ends {A : Type 0} (m : Outcome A) : Type 0 where
  ran_out : m ≡ no_fuel → Ends m
  threw : (code : ErrorCode) → m ≡ throws code → Ends m
  gave : (a : A) → m ≡ ok a → Ends m

pub ends : {A : Type 0} (m : Outcome A) → Ends m
ends no_fuel = Ends.ran_out refl
ends (throws code) = Ends.threw code refl
ends (ok a) = Ends.gave a refl

module _ (k : SubQuery) where
  add_matches-keep :
      (es : List VarEntry) (s : SubQuery)
      → add_matches es (keep k s) ≡ ((add_matches es s).0, keep k (add_matches es s).1)
  unfolding add_matches add_imprecise_dict_var add_query_var
  add_matches-keep [] s = refl
  add_matches-keep (e ∷ es) s =
      elim (Option-cases (of_possible_dict_vars (encode_matches (e ∷ es)) (e ∷ es))) [
        | inl nothing ↦ (rw (add_matches, add_imprecise_dict_var, nothing) refl)
        | inr (q, found) ↦ (rw (add_matches, add_imprecise_dict_var, found) refl)
      ]

  module _ (lib : FloatLib) (to_upper : Bytes → Bytes) (r : DictionaryReader VarEntry)
      (ignore_case : Bool) where
    search_dict_var-keep :
        (v l : Bytes) (s : SubQuery)
        → search_dict_var lib to_upper v r ignore_case l (keep k s)
          ≡ keep_in k (search_dict_var lib to_upper v r ignore_case l s)
    unfolding search_dict_var add_dict_var add_query_var
    search_dict_var-keep v l s =
        elim (Option-cases (get_entry_matching_value to_upper r v ignore_case)) [
          | inl nothing ↦ (rw (search_dict_var, nothing) refl)
          | inr (e, found) ↦ (rw (search_dict_var, found) refl)
        ]

    encode_and_search_dictionary-keep :
        (v l : Bytes) (s : SubQuery)
        → encode_and_search_dictionary lib to_upper v r ignore_case l (keep k s) ≡ (
            encode_and_search_dictionary lib to_upper v r ignore_case l s >>= λ x. ok (keep_in k x))
    unfolding encode_and_search_dictionary add_non_dict_var add_query_var
    encode_and_search_dictionary-keep v l s = elim (Bool-cases (length v == 0)) [
      | inl empty ↦ (rw (encode_and_search_dictionary, empty) refl)
      | inr some_byte ↦ elim (Option-cases (convert_string_to_representable_integer_var v)) [
        | inr (i, int) ↦ (rw (encode_and_search_dictionary, some_byte, int) refl)
        | inl no_int ↦ elim (Option-cases (convert_string_to_representable_double_var lib v)) [
          | inr (d, double) ↦
              elim (ends (append_double_var d.num_integer_digits d.num_fractional_digits l)) [
                | Ends.ran_out e ↦
                    (rw (encode_and_search_dictionary, some_byte, no_int, double, e) refl)
                | Ends.threw code e ↦
                    (rw (encode_and_search_dictionary, some_byte, no_int, double, e) refl)
                | Ends.gave l' e ↦
                    (rw (encode_and_search_dictionary, some_byte, no_int, double, e) refl)
              ]
          | inl no_double ↦
              (rw
                (
                  encode_and_search_dictionary,
                  some_byte,
                  no_int,
                  no_double,
                  search_dict_var-keep v l s,
                )
                refl)
        ]
      ]
    ]

    wildcard_search-keep :
        (v : Bytes) (s : SubQuery)
        → wildcard_search_dictionary_and_get_encoded_matches to_upper v r ignore_case (keep k s) ≡ (
            wildcard_search_dictionary_and_get_encoded_matches to_upper v r ignore_case s >>= λ x.
            ok (x.0, keep k x.1))
    unfolding wildcard_search_dictionary_and_get_encoded_matches
    wildcard_search-keep v s =
        elim (ends (get_entries_matching_wildcard_string (λ e. e.value) to_upper r v ignore_case)) [
          | Ends.ran_out e ↦ (rw (wildcard_search_dictionary_and_get_encoded_matches, e) refl)
          | Ends.threw code e ↦ (rw (wildcard_search_dictionary_and_get_encoded_matches, e) refl)
          | Ends.gave es e ↦
              (rw (wildcard_search_dictionary_and_get_encoded_matches, e, add_matches-keep es s)
                refl)
        ]

  module _ (lib : FloatLib) (to_upper : Bytes → Bytes) (archive : ArchiveDicts)
      (ignore_case : Bool) where
    search_wildcard_var-keep :
        (t : QueryToken) (s : SubQuery) (l : Bytes)
        → search_wildcard_var lib to_upper archive ignore_case t (keep k s) l
          ≡ (search_wildcard_var lib to_upper archive ignore_case t s l >>= λ x. ok (keep_in k x))
    unfolding search_wildcard_var
    search_wildcard_var-keep t s l = elim (Bool-cases (is_double_var t)) [
      | inl double ↦ (rw (search_wildcard_var, double) refl)
      | inr other ↦ elim (Bool-cases t.cannot_convert_to_non_dict_var) [
        | inr converts ↦ (rw (search_wildcard_var, other, converts) refl)
        | inl stays ↦
            elim (ends (
              wildcard_search_dictionary_and_get_encoded_matches to_upper t.value
                archive.var_dictionary ignore_case s)) [
                  | Ends.ran_out e ↦
                      (rw
                        (
                          search_wildcard_var,
                          other,
                          stays,
                          wildcard_search-keep lib to_upper archive.var_dictionary ignore_case
                              t.value s,
                          e,
                        )
                        refl)
                  | Ends.threw code e ↦
                      (rw
                        (
                          search_wildcard_var,
                          other,
                          stays,
                          wildcard_search-keep lib to_upper archive.var_dictionary ignore_case
                              t.value s,
                          e,
                        )
                        refl)
                  | Ends.gave x e ↦
                      (rw
                        (
                          search_wildcard_var,
                          other,
                          stays,
                          wildcard_search-keep lib to_upper archive.var_dictionary ignore_case
                              t.value s,
                          e,
                        )
                        refl)
                ]
      ]
    ]

    marked-keep :
        (t : QueryToken) (s : SubQuery) (l : Bytes)
        → search_wildcard_var lib to_upper archive ignore_case t
            (mark_wildcard_match_required (keep k s))
            l
          ≡ (search_wildcard_var lib to_upper archive ignore_case t
                (mark_wildcard_match_required s)
                l
              >>= λ x. ok (keep_in k x))
    unfolding mark_wildcard_match_required
    marked-keep t s l = search_wildcard_var-keep t (mark_wildcard_match_required s) l

    marked_search-keep :
        (v l : Bytes) (s : SubQuery)
        → encode_and_search_dictionary lib to_upper v archive.var_dictionary ignore_case l
            (mark_wildcard_match_required (keep k s))
          ≡ (encode_and_search_dictionary lib to_upper v archive.var_dictionary ignore_case l
                (mark_wildcard_match_required s)
              >>= λ x. ok (keep_in k x))
    unfolding mark_wildcard_match_required
    marked_search-keep v l s =
        encode_and_search_dictionary-keep lib to_upper archive.var_dictionary ignore_case v l
          (mark_wildcard_match_required s)

    process_var_token-keep :
        (t : QueryToken) (s : SubQuery) (l : Bytes)
        → process_var_token lib to_upper archive ignore_case t (keep k s) l
          ≡ (process_var_token lib to_upper archive ignore_case t s l >>= λ x. ok (keep_in k x))
    unfolding process_var_token
    process_var_token-keep t s l = elim (Bool-cases t.contains_wildcards) [
      | inr plain ↦ (rw (process_var_token, plain, marked_search-keep t.value l s) refl)
      | inl wild ↦
          let l' = star_if t.has_prefix_greedy_wildcard l in
          elim (ends (
            search_wildcard_var lib to_upper archive ignore_case t (mark_wildcard_match_required s)
              l')) [
                | Ends.ran_out e ↦ (rw (process_var_token, wild, marked-keep t s l', e) refl)
                | Ends.threw code e ↦ (rw (process_var_token, wild, marked-keep t s l', e) refl)
                | Ends.gave x e ↦ elim (Bool-cases x.found) [
                  | inl found ↦ (rw (process_var_token, wild, marked-keep t s l', e, found) refl)
                  | inr not_found ↦
                      (rw (process_var_token, wild, marked-keep t s l', e, not_found) refl)
                ]
              ]
    ]

    add_token-keep :
        (t : QueryToken) (s : SubQuery) (l : Bytes)
        → add_token lib to_upper archive ignore_case t (keep k s) l
          ≡ (add_token lib to_upper archive ignore_case t s l >>= λ x. ok (keep_in k x))
    unfolding add_token mark_wildcard_match_required
    add_token-keep t s l = elim (Bool-cases (is_wildcard_token t)) [
      | inl star ↦ (rw (add_token, star) refl)
      | inr other ↦ elim (Bool-cases t.has_greedy_wildcard_in_middle) [
        | inl middle ↦ (rw (add_token, other, middle) refl)
        | inr no_middle ↦ elim (Bool-cases (is_var t)) [
          | inr text ↦ (rw (add_token, other, no_middle, text) refl)
          | inl var ↦ (rw (add_token, other, no_middle, var, process_var_token-keep t s l) refl)
        ]
      ]
    ]

    pub add_tokens-keep :
        (p : Bytes) (ts : List QueryToken) (i : ℕ) (s : SubQuery) (l : Bytes)
        → add_tokens lib to_upper archive ignore_case p ts i (keep k s) l
          ≡ (add_tokens lib to_upper archive ignore_case p ts i s l >>= λ x. ok (keep_in k x))
    unfolding add_tokens
    add_tokens-keep p [] i s l = refl
    add_tokens-keep p (t ∷ ts) i s l =
        let l' = l ++ substr p i (t.begin_pos - i) in
        elim (ends (add_token lib to_upper archive ignore_case t s l')) [
          | Ends.ran_out e ↦ (rw (add_tokens, add_token-keep t s l', e) refl)
          | Ends.threw code e ↦ (rw (add_tokens, add_token-keep t s l', e) refl)
          | Ends.gave x e ↦ elim (Bool-cases x.found) [
            | inl found ↦
                (rw
                  (
                    add_tokens,
                    add_token-keep t s l',
                    e,
                    found,
                    add_tokens-keep p ts t.end_pos x.sub_query x.logtype,
                  )
                  refl)
            | inr not_found ↦ (simp (add_tokens, add_token-keep t s l', e, not_found) refl)
          ]
        ]
