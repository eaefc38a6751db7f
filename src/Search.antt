-- ===== src/Search.antt =====
-- A variable of a search looked up: `encode_and_search_dictionary` of
-- src/EncodedVariableInterpreter.cpp and `get_entry_matching_value` of src/DictionaryReader.hpp. The
-- upper case of a text, which a library computes, is a parameter.
pub mod Agreement
mod Examples
use clp_core.Base.{
  ℕ, Bool, true, false, not, ◌==◌, if◌then◌else◌, Bytes, bytes_eq, List, [], ◌∷◌, length, Option,
  none, some, Outcome, ok, throws, ErrorCode, ◌>>=◌, ◌>>◌, throw_if,
}
use clp_core.Logtype.{append_non_double_var, append_double_var}
use clp_core.Dictionary.{DictionaryReader}
use clp_core.Dictionary.Variable.{VarEntry}
use clp_core.Variables.{
  convert_string_to_representable_integer_var, convert_string_to_representable_double_var,
  encode_var_dict_id,
}
use clp_core.Variables.Floats.{FloatLib}
use clp_core.Query.{SubQuery, add_non_dict_var, add_dict_var}

-- The loops over the entries, which compare the values as they are or in upper case.
unfoldable pub find_entry : (Bytes → Bytes) → Bytes → List VarEntry → Option VarEntry
find_entry to_case v [] = none
find_entry to_case v (e ∷ es) =
    let rest = find_entry to_case v es in if bytes_eq (to_case e.value) v then some e else rest

unfoldable pub get_entry_matching_value :
    (Bytes → Bytes) → DictionaryReader VarEntry → Bytes → Bool → Option VarEntry
unfolding find_entry
get_entry_matching_value to_upper r search_string ignore_case =
    if not ignore_case
    then find_entry (λ v. v) search_string r.reader_entries
    else find_entry to_upper (to_upper search_string) r.reader_entries

-- The result, and the two arguments that are changed.
pub record Searched : Type 0 where
  pub found : Bool
  pub logtype : Bytes
  pub sub_query : SubQuery

module _ (lib : FloatLib) (to_upper : Bytes → Bytes) where
  unfoldable pub search_dict_var :
      Bytes → DictionaryReader VarEntry → Bool → Bytes → SubQuery → Searched
  unfolding get_entry_matching_value add_dict_var
  search_dict_var var_str r ignore_case logtype sub_query =
      elim (get_entry_matching_value to_upper r var_str ignore_case) [
        | none ↦ record { found = false; logtype = logtype; sub_query = sub_query }
        | some e ↦ record {
          found = true;
          logtype = append_non_double_var logtype;
          sub_query = add_dict_var (encode_var_dict_id e.id) e sub_query;
        }
      ]

  unfoldable pub encode_and_search_dictionary :
      Bytes → DictionaryReader VarEntry → Bool → Bytes → SubQuery → Outcome Searched
  unfolding search_dict_var add_non_dict_var
  encode_and_search_dictionary var_str r ignore_case logtype sub_query = do
    throw_if (length var_str == 0) ErrorCode.bad_param
    elim (convert_string_to_representable_integer_var var_str) [
      | some v ↦ ok (record {
        found = true;
        logtype = append_non_double_var logtype;
        sub_query = add_non_dict_var v sub_query;
      })
      | none ↦ elim (convert_string_to_representable_double_var lib var_str) [
        | some d ↦ (do
          l ← append_double_var d.num_integer_digits d.num_fractional_digits logtype
          ok (record { found = true; logtype = l; sub_query = add_non_dict_var d.bits sub_query }))
        | none ↦ ok (search_dict_var var_str r ignore_case logtype sub_query)
      ]
    ]
