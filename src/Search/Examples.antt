-- ===== src/Search/Examples.antt =====
-- A dictionary variable, compressed and searched for.
use clp_core.Base.{ℕ, zero, suc, ◌≡◌, refl, true, false, [], ◌∷◌, codes, get_elem?, ok, some}
use clp_core.Base.Int.{ℤ}
use clp_core.Chars.{is_decimal_digit}
use clp_core.Logtype.{add_non_double_var, append_non_double_var}
use clp_core.Dictionary.{DictionaryReader, find_value}
use clp_core.Dictionary.Variable.{VarEntry, add_occurrence, insert_entry, var_data_size}
use clp_core.Dictionary.Examples.{empty_writer, empty_writer-IsConsistent, x1, x1_writer}
use clp_core.Variables.{
  convert_string_to_representable_integer_var, convert_string_to_representable_double_var,
  starts_as_integer, convert_digits, find_decimal_point, encode_var_dict_id,
}
use clp_core.Codec.{EncodedVar, encode_var, encode_dict_var}
use clp_core.Codec.Examples.{small_lib, empty_entry}
use clp_core.Query.{SubQuery}
use clp_core.Search.{encode_and_search_dictionary}
use clp_core.Search.Agreement.{IsIndexed, HoldsAll, Agrees, encode_and_search_dictionary-Agrees}

abbrev x1_reader : DictionaryReader VarEntry
x1_reader = record {
  reader_is_open = true;
  num_segments_read_from_index = 0;
  reader_entries = x1 ∷ [];
  entries_pos = 1;
  segments_pos = 0;
}

abbrev x1_encoded : EncodedVar
x1_encoded = record {
  entry = record empty_entry { value = 17 ∷ []; var_positions = 0 ∷ [] };
  writer = x1_writer;
  encoded = ℤ.pos 0x4000_0000_0000_0000;
}

abbrev no_query : SubQuery
no_query = record {
  possible_logtype_entries = [];
  possible_logtype_ids = [];
  ids_of_matching_segments = [];
  vars = [];
  wildcard_match_required = false;
}

encode_x1 : encode_var small_lib (codes "x1") empty_entry empty_writer ≡ ok x1_encoded
unfolding encode_var encode_dict_var add_occurrence insert_entry var_data_size find_value
    add_non_double_var append_non_double_var encode_var_dict_id
    convert_string_to_representable_integer_var starts_as_integer
    convert_string_to_representable_double_var convert_digits find_decimal_point is_decimal_digit
encode_x1 = refl

x1_reader-IsIndexed : IsIndexed (x1 ∷ [])
x1_reader-IsIndexed = record { ids = ids_of; distinct = distinct_of }
  where
    ids_of : (i : ℕ) (e : VarEntry) → get_elem? (x1 ∷ []) i ≡ some e → e.id ≡ i
    ids_of zero e h = cc
    ids_of (suc i) e h = cc

    distinct_of :
        (i j : ℕ) (d e : VarEntry)
        → get_elem? (x1 ∷ []) i ≡ some d
        → get_elem? (x1 ∷ []) j ≡ some e
        → d.value ≡ e.value
        → i ≡ j
    distinct_of zero zero d e h k v = refl
    distinct_of zero (suc j) d e h k v = cc
    distinct_of (suc i) j d e h k v = cc

x1_reader-HoldsAll : HoldsAll x1_writer (x1 ∷ [])
x1_reader-HoldsAll id v (e, at, val) = (e, at, val)

encode_and_search_dictionary-Agrees_example :
    Agrees
      (encode_and_search_dictionary small_lib (λ s. s) (codes "x1") x1_reader false [] no_query)
      []
      no_query
      empty_entry
      x1_encoded
encode_and_search_dictionary-Agrees_example =
    encode_and_search_dictionary-Agrees small_lib (λ s. s) (codes "x1") empty_entry empty_writer
      x1_reader [] no_query refl x1_encoded empty_writer-IsConsistent x1_reader-IsIndexed
      x1_reader-HoldsAll encode_x1
