-- ===== src/Dictionary/Examples.antt =====
-- A variable dictionary with one entry, from the first insertion to the second read.
use clp_core.Base.{
  false, some, ◌<◌, ◌≡◌, ◌↔◌, refl, true, [], ◌∷◌, codes, ok, throws, ErrorCode, ◌>>=◌, none, arith,
}
use clp_core.Dictionary.{
  DictionaryReader, find_value, find_id, files_of, open_reader, new_reader, read_new_entries,
  read_value, index_segment, write_uncommitted_entries_to_disk,
}
use clp_core.Dictionary.Variable.{
  VarEntry, VarDictWriter, Added, add_occurrence, insert_entry, var_data_size, var_ops,
  new_var_entry,
}
use clp_core.Logtype.{LogtypeEntry, LogVerbosity}
use clp_core.Dictionary.Logtypes.{
  LogtypeDictWriter, AddedLogtype, add_logtype_occurrence, insert_logtype, logtype_data_size,
  verbosity_of, contains_word, add_logtype_occurrence_again,
}
use clp_core.Dictionary.Lookup.{
  IsConsistent, Extends, Resolves, log, add_occurrence_lem, add_occurrence_throws_iff,
}
use clp_core.Dictionary.Writing.{
  write_uncommitted_entries_to_disk-IsConsistent, index_segment-IsConsistent,
}
use clp_core.Dictionary.Reading.{read_value-read_new_entries, read_new_entries_again}

abbrev pub empty_writer : VarDictWriter
empty_writer = record {
  is_open = true;
  uncommitted_entries = [];
  value_to_entry = [];
  id_to_entry = [];
  next_id = 0;
  max_id = 100;
  data_size = 0;
  num_segments_in_index = 0;
  written = [];
  dictionary_header = 0;
  index = [];
  index_header = 0;
}

pub empty_writer-IsConsistent : IsConsistent empty_writer
unfolding find_value find_id
empty_writer-IsConsistent = record {
  ids = λ i e h. cc;
  next = refl;
  found = λ v e h. cc;
  complete = λ i e h. cc;
  by_id = λ i. refl;
  count = refl;
  header = refl;
  index_count = refl;
  index_header = refl;
}

abbrev pub x1 : VarEntry
x1 = new_var_entry (codes "x1") 0

abbrev pub x1_writer : VarDictWriter
x1_writer = record empty_writer {
  uncommitted_entries = x1 ∷ [];
  value_to_entry = (codes "x1", x1) ∷ [];
  id_to_entry = (0, x1) ∷ [];
  next_id = 1;
  data_size = 10;
}

abbrev x1_added : Added
x1_added = record { new_entry = true; id = 0; writer = x1_writer }

add_x1 : add_occurrence empty_writer (codes "x1") ≡ ok x1_added
unfolding add_occurrence find_value insert_entry var_data_size
add_x1 = refl

add_occurrence_lem_example :
    IsConsistent x1_added.writer
    × Extends empty_writer x1_added.writer
    × Resolves x1_added.writer x1_added.id (codes "x1")
add_occurrence_lem_example =
    add_occurrence_lem empty_writer (codes "x1") {r = x1_added} empty_writer-IsConsistent add_x1

abbrev full_writer : VarDictWriter
full_writer = record x1_writer { max_id = 0 }

add_occurrence_throws_iff_example :
    (add_occurrence full_writer (codes "y2") ≡ throws ErrorCode.out_of_bounds) ↔ (
      (find_value (codes "y2") full_writer.value_to_entry ≡ none)
      × (full_writer.max_id < full_writer.next_id))
add_occurrence_throws_iff_example = add_occurrence_throws_iff full_writer (codes "y2")

pub x1_writer-IsConsistent : IsConsistent x1_writer
x1_writer-IsConsistent = add_occurrence_lem_example_consistent
  where
    add_occurrence_lem_example_consistent : IsConsistent x1_writer
    add_occurrence_lem_example_consistent =
        (add_occurrence_lem empty_writer (codes "x1") {r = x1_added} empty_writer-IsConsistent
          add_x1).0

abbrev pub x1_written : VarDictWriter
x1_written = record x1_writer { written = x1 ∷ []; dictionary_header = 1; uncommitted_entries = [] }

pub write_x1 : write_uncommitted_entries_to_disk x1_writer ≡ ok x1_written
unfolding write_uncommitted_entries_to_disk
write_x1 = refl

write_uncommitted_entries_to_disk-IsConsistent_example :
    IsConsistent x1_written
    × (log x1_written ≡ log x1_writer)
    × (x1_written.uncommitted_entries ≡ [])
    × (x1_written.index ≡ x1_writer.index)
write_uncommitted_entries_to_disk-IsConsistent_example =
    write_uncommitted_entries_to_disk-IsConsistent x1_writer x1_written x1_writer-IsConsistent
      write_x1

x1_written-IsConsistent : IsConsistent x1_written
x1_written-IsConsistent =
    (write_uncommitted_entries_to_disk-IsConsistent x1_writer x1_written x1_writer-IsConsistent
      write_x1).0

abbrev x1_indexed : VarDictWriter
x1_indexed = record x1_written {
  index = (5, 0 ∷ []) ∷ [];
  num_segments_in_index = 1;
  index_header = 1;
}

index_x1 : index_segment x1_written 5 (0 ∷ []) ≡ ok x1_indexed
unfolding index_segment
index_x1 = refl

index_segment-IsConsistent_example :
    IsConsistent x1_indexed
    × (log x1_indexed ≡ log x1_written)
    × (x1_indexed.index ≡ (5, 0 ∷ []) ∷ [])
index_segment-IsConsistent_example =
    index_segment-IsConsistent x1_written x1_indexed 5 (0 ∷ []) x1_written-IsConsistent index_x1

x1_indexed-IsConsistent : IsConsistent x1_indexed
x1_indexed-IsConsistent =
    (index_segment-IsConsistent x1_written x1_indexed 5 (0 ∷ []) x1_written-IsConsistent index_x1).0

read_value-read_new_entries_example :
    (r : DictionaryReader VarEntry) × ((open_reader new_reader >>= λ r₀.
    read_new_entries var_ops r₀ (files_of x1_indexed))
      ≡ ok r)
    × (read_value var_ops r 0 ≡ ok (codes "x1"))
read_value-read_new_entries_example =
    read_value-read_new_entries x1_indexed 0 (codes "x1") x1_indexed-IsConsistent refl
      ((omega arith, tt), tt) (x1, refl, refl)

read_new_entries_again_example :
    (r : DictionaryReader VarEntry) × ((open_reader new_reader >>= λ r₀.
    read_new_entries var_ops r₀ (files_of x1_indexed))
      ≡ ok r)
    × (read_new_entries var_ops r (files_of x1_indexed) ≡ throws ErrorCode.end_of_file)
read_new_entries_again_example =
    read_new_entries_again x1_indexed x1_indexed-IsConsistent ((omega arith, tt), tt) (omega arith)

-- A logtype that is one variable, and one that is the constant byte 17.
abbrev one_var : LogtypeEntry
one_var = record {
  id = 0;
  value = 17 ∷ [];
  ids_of_segments = [];
  verbosity = LogVerbosity.length_verbosity;
  var_positions = 0 ∷ [];
}

abbrev one_constant : LogtypeEntry
one_constant = record one_var { var_positions = [] }

abbrev no_logtypes : LogtypeDictWriter
no_logtypes = record {
  is_open = true;
  uncommitted_entries = [];
  value_to_entry = [];
  id_to_entry = [];
  next_id = 0;
  max_id = 100;
  data_size = 0;
  num_segments_in_index = 0;
  written = [];
  dictionary_header = 0;
  index = [];
  index_header = 0;
}

abbrev one_var_added : AddedLogtype
one_var_added = record {
  is_new_entry = true;
  logtype_id = 0;
  writer = record no_logtypes {
    next_id = 1;
    value_to_entry = (17 ∷ [], record one_var { verbosity = LogVerbosity.unknown }) ∷ [];
    id_to_entry = (0, record one_var { verbosity = LogVerbosity.unknown }) ∷ [];
    uncommitted_entries = record one_var { verbosity = LogVerbosity.unknown } ∷ [];
    data_size = 18;
  };
  entry_wrapper = none;
}

add_one_var : add_logtype_occurrence no_logtypes (some one_var) ≡ ok one_var_added
unfolding add_logtype_occurrence find_value insert_logtype logtype_data_size verbosity_of
    contains_word
add_one_var = refl

add_logtype_occurrence_again_example :
    add_logtype_occurrence one_var_added.writer (some one_constant)
    ≡ ok (record {
      is_new_entry = false;
      logtype_id = 0;
      writer = one_var_added.writer;
      entry_wrapper = some one_constant;
    })
add_logtype_occurrence_again_example =
    add_logtype_occurrence_again no_logtypes one_var one_constant one_var_added add_one_var refl
