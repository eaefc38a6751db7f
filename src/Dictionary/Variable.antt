-- ===== src/Dictionary/Variable.antt =====
-- src/VariableDictionaryEntry.hpp and src/VariableDictionaryWriter.cpp.
use clp_core.Base.{
  ℕ, ◌+◌, ◌*◌, Bool, true, false, ltb, if◌then◌else◌, Bytes, List, [], ◌∷◌, ◌++◌, length, Outcome,
  ok, throws, ErrorCode, none, some, ◌==◌,
}
use clp_core.Dictionary.{DictionaryWriter, EntryOps, find_value}

pub record VarEntry : Type 0 where
  pub id : ℕ
  pub value : Bytes
  pub ids_of_segments : List ℕ

-- `std::set::emplace`: a value that is there is not put in again.
unfoldable pub set_emplace : ℕ → List ℕ → List ℕ
set_emplace a [] = a ∷ []
set_emplace a (x ∷ xs) = if x == a then x ∷ xs else x ∷ set_emplace a xs

unfoldable pub var_ops : EntryOps VarEntry
unfolding set_emplace
var_ops = record {
  get_id = λ e. e.id;
  get_value = λ e. e.value;
  add_segment_containing_entry =
      λ s e. record e { ids_of_segments = set_emplace s e.ids_of_segments };
}

-- `sizeof(m_id)` and `sizeof(segment_id_t)` are 8.
unfoldable pub var_data_size : VarEntry → ℕ
var_data_size e = 8 + length e.value + length e.ids_of_segments * 8

abbrev pub VarDictWriter : Type 0
VarDictWriter = DictionaryWriter VarEntry

abbrev pub new_var_entry : Bytes → ℕ → VarEntry
new_var_entry value id = record { id = id; value = value; ids_of_segments = [] }

-- The dictionary with a new entry in it.
unfoldable pub insert_entry : VarDictWriter → Bytes → VarDictWriter
unfolding var_data_size
insert_entry w value =
    let entry = new_var_entry value w.next_id in
    record w {
      next_id = w.next_id + 1;
      value_to_entry = (value, entry) ∷ w.value_to_entry;
      id_to_entry = (w.next_id, entry) ∷ w.id_to_entry;
      uncommitted_entries = w.uncommitted_entries ++ entry ∷ [];
      data_size = w.data_size + var_data_size entry;
    }

pub record Added : Type 0 where
  pub new_entry : Bool
  pub id : ℕ
  pub writer : VarDictWriter

unfoldable pub add_occurrence : VarDictWriter → Bytes → Outcome Added
unfolding find_value insert_entry
add_occurrence w value = elim (find_value value w.value_to_entry) [
  | some e ↦ ok (record { new_entry = false; id = e.id; writer = w })
  | none ↦
      if ltb w.max_id w.next_id
      then throws ErrorCode.out_of_bounds
      else ok (record { new_entry = true; id = w.next_id; writer = insert_entry w value })
]
