-- ===== src/Dictionary/Logtypes.antt =====
-- src/LogTypeDictionaryWriter.cpp: the dictionary of logtypes, and that one text has one identifier.
use clp_core.Base.{
  ℕ, ◌+◌, ◌*◌, ◌≡◌, refl, ap, sym, ◌∙◌, Bool, true, false, ◌||◌, if◌then◌else◌, Bytes, bytes_eq,
  bytes_eq_refl, take, [], ◌∷◌, ◌++◌, length, codes, Option, none, some, Outcome, ok, throws,
  ErrorCode, ok-injective, Option-cases, inl, inr,
}
use mathlib.Core.Path.{subst}
use clp_core.Logtype.{LogtypeEntry, LogVerbosity}
use clp_core.Dictionary.{DictionaryWriter, find_value}

abbrev pub LogtypeDictWriter : Type 0
LogtypeDictWriter = DictionaryWriter LogtypeEntry

-- `string::npos != value.find (word)`
unfoldable pub contains_word : Bytes → Bytes → Bool
contains_word word [] = bytes_eq word []
contains_word word (c ∷ s) = bytes_eq word (take (length word) (c ∷ s)) || contains_word word s

unfoldable pub verbosity_of : Bytes → LogVerbosity
unfolding contains_word
verbosity_of value =
    if contains_word (codes "FATAL") value
    then LogVerbosity.fatal
    else if contains_word (codes "ERROR") value
    then LogVerbosity.error
    else if contains_word (codes "WARN") value
    then LogVerbosity.warn
    else if contains_word (codes "INFO") value
    then LogVerbosity.info
    else if contains_word (codes "DEBUG") value
    then LogVerbosity.debug
    else if contains_word (codes "TRACE") value
    then LogVerbosity.trace
    else LogVerbosity.unknown

-- `sizeof(m_id)`, `sizeof(size_t)` and `sizeof(segment_id_t)` are 8, that of the verbosity is 1.
unfoldable pub logtype_data_size : LogtypeEntry → ℕ
logtype_data_size e =
    8 + 1 + length e.value + length e.var_positions * 8 + length e.ids_of_segments * 8

abbrev pub with_verbosity_and_id : LogtypeEntry → ℕ → LogtypeEntry
with_verbosity_and_id e id = record e { verbosity = verbosity_of e.value; id = id }

unfoldable pub insert_logtype : LogtypeDictWriter → LogtypeEntry → LogtypeDictWriter
unfolding logtype_data_size
insert_logtype w e =
    let entry = with_verbosity_and_id e w.next_id in
    record w {
      next_id = w.next_id + 1;
      value_to_entry = (e.value, entry) ∷ w.value_to_entry;
      id_to_entry = (w.next_id, entry) ∷ w.id_to_entry;
      uncommitted_entries = w.uncommitted_entries ++ entry ∷ [];
      data_size = w.data_size + logtype_data_size entry;
    }

-- The `unique_ptr` is `none` when it is null; it is released to the dictionary when the entry is new.
pub record AddedLogtype : Type 0 where
  pub is_new_entry : Bool
  pub logtype_id : ℕ
  pub writer : LogtypeDictWriter
  pub entry_wrapper : Option LogtypeEntry

-- There is no check of `m_max_id`.
unfoldable pub add_logtype_occurrence :
    LogtypeDictWriter → Option LogtypeEntry → Outcome AddedLogtype
unfolding find_value insert_logtype
add_logtype_occurrence w none = throws ErrorCode.bad_param
add_logtype_occurrence w (some e) = elim (find_value e.value w.value_to_entry) [
  | some old ↦
      ok (record { is_new_entry = false; logtype_id = old.id; writer = w; entry_wrapper = some e })
  | none ↦ ok (record {
    is_new_entry = true;
    logtype_id = w.next_id;
    writer = insert_logtype w e;
    entry_wrapper = none;
  })
]

find_value-insert_logtype :
    (w : LogtypeDictWriter) (e : LogtypeEntry) (v : Bytes)
    → v ≡ e.value
    → find_value v (insert_logtype w e).value_to_entry ≡ some (with_verbosity_and_id e w.next_id)
unfolding find_value insert_logtype
find_value-insert_logtype w e v h =
    let same : bytes_eq e.value v ≡ true = ap (bytes_eq e.value) h ∙ bytes_eq_refl e.value in
    rw same refl

add_old :
    (w : LogtypeDictWriter) (e old : LogtypeEntry)
    → find_value e.value w.value_to_entry ≡ some old
    → add_logtype_occurrence w (some e)
      ≡ ok
          (record { is_new_entry = false; logtype_id = old.id; writer = w; entry_wrapper = some e })
unfolding add_logtype_occurrence
add_old w e old h = rw (add_logtype_occurrence, h) refl

abbrev SharesId : LogtypeEntry → AddedLogtype → Type 0
SharesId f a =
    add_logtype_occurrence a.writer (some f)
    ≡ ok (record {
      is_new_entry = false;
      logtype_id = a.logtype_id;
      writer = a.writer;
      entry_wrapper = some f;
    })

-- Once a logtype is added, another with the same text gets the same identifier and changes nothing,
-- whatever the positions of its variables.
pub add_logtype_occurrence_again :
    (w : LogtypeDictWriter) (e f : LogtypeEntry) (a : AddedLogtype)
    → add_logtype_occurrence w (some e) ≡ ok a
    → f.value ≡ e.value
    → add_logtype_occurrence a.writer (some f)
      ≡ ok (record {
        is_new_entry = false;
        logtype_id = a.logtype_id;
        writer = a.writer;
        entry_wrapper = some f;
      })
unfolding add_logtype_occurrence
add_logtype_occurrence_again w e f a h same =
    elim (Option-cases (find_value e.value w.value_to_entry)) [
      | inr (old, there) ↦
          subst (SharesId f) (ok-injective (sym (add_old w e old there) ∙ h))
            (add_old w f old (ap (λ v. find_value v w.value_to_entry) same ∙ there))
      | inl fresh ↦ subst (SharesId f) (ok-injective (rw (add_logtype_occurrence, fresh) at h)) (
          add_old (insert_logtype w e) f (with_verbosity_and_id e w.next_id)
            (find_value-insert_logtype w e f.value same))
    ]
