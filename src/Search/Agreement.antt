-- ===== src/Search/Agreement.antt =====
-- The search for a variable agrees with its compression.
use clp_core.Base.{
  ℕ, zero, suc, ◌+◌, ◌≡◌, refl, ap, sym, ◌∙◌, true, false, ◌==◌, ltb, Bytes, bytes_eq, bytes_eq→eq,
  bytes_eq_refl, List, [], ◌∷◌, ◌++◌, length, get_elem?, none, some, Outcome, ok, >>=-eq-ok,
  ok-injective, throws-ne-ok, Bool-cases, Option-cases, inl, inr,
}
use mathlib.Core.Path.{subst}
use clp_core.Base.Int.{ℤ, eqb_ℤ_iff}
use clp_core.Logtype.{
  max_digits_in_representable_double_var, LogtypeEntry, append_non_double_var, append_double_var,
  add_non_double_var, add_double_var, non_double_byte, double_byte,
  encode_precision_of_double_value,
}
use clp_core.Dictionary.{DictionaryReader}
use clp_core.Dictionary.Variable.{VarEntry, VarDictWriter, Added, add_occurrence}
use clp_core.Dictionary.Lookup.{IsConsistent, Resolves, add_occurrence_lem}
use clp_core.Variables.{
  DoubleVar, convert_string_to_representable_integer_var,
  convert_string_to_representable_double_var, encode_var_dict_id,
}
use clp_core.Variables.Floats.{FloatLib}
use clp_core.Query.{
  QueryVar, non_dict_var, dict_var, SubQuery, matches, add_non_dict_var, add_dict_var,
  add_query_var,
}
use clp_core.Codec.{EncodedVar, encode_var, encode_dict_var}
use clp_core.Search.{
  find_entry, get_entry_matching_value, Searched, search_dict_var, encode_and_search_dictionary,
}

-- A reader's entries stand at their identifiers, and no value stands twice.
pub record IsIndexed (es : List VarEntry) : Type 0 where
  pub ids : (i : ℕ) (e : VarEntry) → get_elem? es i ≡ some e → e.id ≡ i
  pub distinct :
      (i j : ℕ) (d e : VarEntry)
      → get_elem? es i ≡ some d
      → get_elem? es j ≡ some e
      → d.value ≡ e.value
      → i ≡ j

-- They hold every value of a writer, under its identifier.
abbrev pub HoldsAll : VarDictWriter → List VarEntry → Type 0
HoldsAll w es =
    (id : ℕ) (v : Bytes)
    → Resolves w id v
    → (e : VarEntry) × (get_elem? es id ≡ some e) × (e.value ≡ v)

-- The search succeeds, adds the placeholder that compression added, and adds to the subquery a
-- variable that matches the encoded one.
pub record Agrees (result : Outcome Searched) (logtype : Bytes) (sub_query : SubQuery)
    (entry : LogtypeEntry) (r : EncodedVar) : Type 0 where
  pub searched : Searched
  pub returns : result ≡ ok searched
  pub is_found : searched.found ≡ true
  pub placeholder : Bytes
  pub in_search : searched.logtype ≡ logtype ++ placeholder
  pub in_entry : r.entry.value ≡ entry.value ++ placeholder
  pub query_var : QueryVar
  pub added : searched.sub_query.vars ≡ sub_query.vars ++ query_var ∷ []
  pub hits : matches query_var r.encoded ≡ true

-- A value that is there is found, at some place.
find_entry_lem :
    (v : Bytes) (es : List VarEntry) (i : ℕ) (e : VarEntry)
    → get_elem? es i ≡ some e
    → e.value ≡ v
    → (j : ℕ) × (d : VarEntry) × (find_entry (λ u. u) v es ≡ some d)
      × (get_elem? es j ≡ some d)
      × (d.value ≡ v)
unfolding find_entry
find_entry_lem v [] i e h k = cc
find_entry_lem v (d ∷ es) zero e h k =
    let same : d ≡ e = cc in
    let val : d.value ≡ v = ap (λ (x : VarEntry). x.value) same ∙ k in
    let here : bytes_eq d.value v ≡ true = ap (λ u. bytes_eq u v) val ∙ bytes_eq_refl v in
    (0, d, rw (find_entry, here) refl, refl, val)
find_entry_lem v (d ∷ es) (suc i) e h k = elim (Bool-cases (bytes_eq d.value v)) [
  | inl same ↦ (0, d, rw (find_entry, same) refl, refl, bytes_eq→eq d.value v same)
  | inr other ↦
      let (j, d', found, at, val) = find_entry_lem v es i e h k in
      (suc j, d', rw (find_entry, other) found, at, val)
]

matches_non_dict : (v : ℤ) → matches (non_dict_var v) v ≡ true
unfolding matches
matches_non_dict v = (eqb_ℤ_iff v v).1 refl

matches_dict : (v : ℤ) (e : VarEntry) → matches (dict_var v e) v ≡ true
unfolding matches
matches_dict v e = (eqb_ℤ_iff v v).1 refl

module _ (lib : FloatLib) (to_upper : Bytes → Bytes) (var : Bytes) (entry : LogtypeEntry)
    (w : VarDictWriter) (reader : DictionaryReader VarEntry) (logtype : Bytes)
    (sub_query : SubQuery) (some_byte : (length var == 0) ≡ false) where
  search_of : Outcome Searched
  search_of = encode_and_search_dictionary lib to_upper var reader false logtype sub_query

  Agrees-int :
      (v : ℤ)
      → convert_string_to_representable_integer_var var ≡ some v
      → Agrees search_of logtype sub_query entry
          (record { entry = add_non_double_var entry; writer = w; encoded = v })
  unfolding search_of encode_and_search_dictionary append_non_double_var add_non_double_var
      add_non_dict_var add_query_var
  Agrees-int v is_int = record {
    searched = record {
      found = true;
      logtype = append_non_double_var logtype;
      sub_query = add_non_dict_var v sub_query;
    };
    returns = rw (search_of, encode_and_search_dictionary, some_byte, is_int) refl;
    is_found = refl;
    placeholder = non_double_byte ∷ [];
    in_search = refl;
    in_entry = refl;
    query_var = non_dict_var v;
    added = refl;
    hits = matches_non_dict v;
  }

  Agrees-double :
      (d : DoubleVar) (e' : LogtypeEntry)
      → convert_string_to_representable_integer_var var ≡ none
      → convert_string_to_representable_double_var lib var ≡ some d
      → add_double_var d.num_integer_digits d.num_fractional_digits entry ≡ ok e'
      → Agrees search_of logtype sub_query entry
          (record { entry = e'; writer = w; encoded = d.bits })
  unfolding search_of encode_and_search_dictionary append_double_var add_double_var add_non_dict_var
      add_query_var
  Agrees-double d e' no_int is_double added =
      let over_or_fits = Bool-cases (
        ltb max_digits_in_representable_double_var
          (d.num_integer_digits + d.num_fractional_digits)) in
      let precision =
        double_byte
        ∷ encode_precision_of_double_value d.num_integer_digits d.num_fractional_digits
        ∷ [] in
      elim over_or_fits [
        | inl over ↦ absurd (throws-ne-ok (rw (add_double_var, append_double_var, over) at added))
        | inr fits ↦
            let same = ok-injective (rw (add_double_var, append_double_var, fits) at added) in
            record {
              searched = record {
                found = true;
                logtype = logtype ++ precision;
                sub_query = add_non_dict_var d.bits sub_query;
              };
              returns =
                  rw
                    (
                      search_of, encode_and_search_dictionary, some_byte, no_int, is_double,
                      append_double_var, fits,
                    )
                    refl;
              is_found = refl;
              placeholder = precision;
              in_search = refl;
              in_entry = ap (λ (x : LogtypeEntry). x.value) (sym same);
              query_var = non_dict_var d.bits;
              added = refl;
              hits = matches_non_dict d.bits;
            }
      ]

  Agrees-dict :
      (a : Added)
      → IsConsistent w
      → IsIndexed reader.reader_entries
      → HoldsAll a.writer reader.reader_entries
      → convert_string_to_representable_integer_var var ≡ none
      → convert_string_to_representable_double_var lib var ≡ none
      → add_occurrence w var ≡ ok a
      → Agrees search_of logtype sub_query entry (record {
        entry = add_non_double_var entry;
        writer = a.writer;
        encoded = encode_var_dict_id a.id;
      })
  unfolding search_of encode_and_search_dictionary search_dict_var get_entry_matching_value
      append_non_double_var add_non_double_var add_dict_var add_query_var
  Agrees-dict a c indexed holds no_int no_double h =
      let (_, _, there) = add_occurrence_lem w var c h in
      let (e, at, val) = holds a.id var there in
      let (j, d, found, at', val') = find_entry_lem var reader.reader_entries a.id e at val in
      let same_id : d.id ≡ a.id =
        indexed.ids j d at' ∙ indexed.distinct j a.id d e at' at (val' ∙ sym val) in
      record {
        searched = record {
          found = true;
          logtype = append_non_double_var logtype;
          sub_query = add_dict_var (encode_var_dict_id d.id) d sub_query;
        };
        returns =
            rw
              (
                search_of, encode_and_search_dictionary, some_byte, no_int, no_double,
                search_dict_var, get_entry_matching_value, found,
              )
              refl;
        is_found = refl;
        placeholder = non_double_byte ∷ [];
        in_search = refl;
        in_entry = refl;
        query_var = dict_var (encode_var_dict_id d.id) d;
        added = refl;
        hits =
            ap (λ i. matches (dict_var (encode_var_dict_id i) d) (encode_var_dict_id a.id)) same_id
            ∙ matches_dict (encode_var_dict_id a.id) d;
      }

  -- A variable that was compressed is found by a search for its text, upper and lower case kept apart,
  -- in a reader that holds every value of the dictionary: the search adds the same placeholder to its
  -- logtype, and to its subquery a variable that matches the encoded one.
  pub encode_and_search_dictionary-Agrees :
      (r : EncodedVar)
      → IsConsistent w
      → IsIndexed reader.reader_entries
      → HoldsAll r.writer reader.reader_entries
      → encode_var lib var entry w ≡ ok r
      → Agrees
          (encode_and_search_dictionary lib to_upper var reader false logtype sub_query)
          logtype
          sub_query
          entry
          r
  unfolding encode_var encode_dict_var search_of
  encode_and_search_dictionary-Agrees r c indexed holds h =
      elim (Option-cases (convert_string_to_representable_integer_var var)) [
        | inr (n, is_int) ↦
            subst (Agrees search_of logtype sub_query entry)
              (ok-injective (rw (is_int, encode_var) at h)) (Agrees-int n is_int)
        | inl no_int ↦ elim (Option-cases (convert_string_to_representable_double_var lib var)) [
          | inr (d, is_double) ↦
              let (e', added, same) = >>=-eq-ok _ _ (rw (no_int, encode_var, is_double) at h) in
              subst (Agrees search_of logtype sub_query entry) (ok-injective same)
                (Agrees-double d e' no_int is_double added)
          | inl no_double ↦
              let (a, added, same) = >>=-eq-ok _ _ (rw (no_int, encode_var, no_double) at h) in
              let same' = ok-injective same in
              subst (Agrees search_of logtype sub_query entry) same' (
                Agrees-dict a c indexed
                  (subst (λ (x : EncodedVar). HoldsAll x.writer reader.reader_entries) (sym same')
                    holds)
                  no_int no_double added)
        ]
      ]
