-- ===== src/Dictionary.antt =====
-- The dictionaries of an archive: src/DictionaryWriter.hpp, src/DictionaryReader.hpp and the base
-- class of their entries, for any type of entry. A map from values or identifiers to entries is an
-- association list, its newest pair in front. What the compressors and file writers hold is the list
-- of entries written, the counts in the headers, and the list of segments indexed.
pub mod Variable
pub mod Lookup
pub mod Writing
pub mod Reading
pub mod Logtypes
pub mod Examples
use clp_core.Base.{
  ℕ, zero, suc, ◌+◌, ◌*◌, Bool, true, false, not, ◌==◌, ltb, leb, if◌then◌else◌, Bytes, bytes_eq,
  List, [], ◌∷◌, ◌++◌, length, get_elem?, drop, ◌-◌, Outcome, ok, throws, ErrorCode, ◌>>=◌, ◌>>◌,
  throw_if, Option, none, some,
}

-- What the templates use of `EntryType`.
pub record EntryOps (E : Type 0) : Type 0 where
  pub get_id : E → ℕ
  pub get_value : E → Bytes
  pub add_segment_containing_entry : ℕ → E → E

pub record DictionaryWriter (E : Type 0) : Type 0 where
  pub is_open : Bool
  pub uncommitted_entries : List E
  pub value_to_entry : List (Bytes × E)
  pub id_to_entry : List (ℕ × E)
  pub next_id : ℕ
  pub max_id : ℕ
  pub data_size : ℕ
  pub num_segments_in_index : ℕ
  pub written : List E
  pub dictionary_header : ℕ
  pub index : List (ℕ × List ℕ)
  pub index_header : ℕ

module _ {E : Type 0} where
  unfoldable pub find_value : Bytes → List (Bytes × E) → Option E
  find_value v [] = none
  find_value v ((u, e) ∷ m) = if bytes_eq u v then some e else find_value v m

  unfoldable pub find_id : ℕ → List (ℕ × E) → Option E
  find_id i [] = none
  find_id i ((j, e) ∷ m) = if j == i then some e else find_id i m

  unfoldable pub open_writer : DictionaryWriter E → ℕ → Outcome (DictionaryWriter E)
  open_writer w max_id = do
    throw_if w.is_open ErrorCode.not_ready
    ok (record w {
      written = [];
      dictionary_header = 0;
      index = [];
      index_header = 0;
      num_segments_in_index = 0;
      next_id = 0;
      max_id = max_id;
      data_size = 0;
      is_open = true;
    })

  unfoldable pub get_entry : DictionaryWriter E → ℕ → Outcome E
  unfolding find_id
  get_entry w id = do
    throw_if (not w.is_open) ErrorCode.not_init
    elim (find_id id w.id_to_entry) [ none ↦ throws ErrorCode.bad_param | some e ↦ ok e ]

  unfoldable pub write_uncommitted_entries_to_disk :
      DictionaryWriter E → Outcome (DictionaryWriter E)
  write_uncommitted_entries_to_disk w = do
    throw_if (not w.is_open) ErrorCode.not_init
    ok (
        if length w.uncommitted_entries == 0 then w else record w {
          written = w.written ++ w.uncommitted_entries;
          dictionary_header = length w.id_to_entry;
          uncommitted_entries = [];
        })

  unfoldable pub index_segment : DictionaryWriter E → ℕ → List ℕ → Outcome (DictionaryWriter E)
  index_segment w segment_id ids = do
    throw_if (not w.is_open) ErrorCode.not_init
    ok (record w {
      index = w.index ++ (segment_id, ids) ∷ [];
      num_segments_in_index = w.num_segments_in_index + 1;
      index_header = w.num_segments_in_index + 1;
    })

  unfoldable pub close_writer : DictionaryWriter E → Outcome (DictionaryWriter E)
  unfolding write_uncommitted_entries_to_disk
  close_writer w = do
    throw_if (not w.is_open) ErrorCode.not_init
    w' ← write_uncommitted_entries_to_disk w
    ok (record w' { id_to_entry = []; value_to_entry = []; is_open = false })

-- A reader, and the files that it reads: the counts in their headers and what follows.
pub record DictionaryFiles (E : Type 0) : Type 0 where
  pub num_dictionary_entries : ℕ
  pub entries : List E
  pub num_segments : ℕ
  pub segments : List (ℕ × List ℕ)

-- The last two fields say how far the decompressors of the two files have come.
pub record DictionaryReader (E : Type 0) : Type 0 where
  pub reader_is_open : Bool
  pub num_segments_read_from_index : ℕ
  pub reader_entries : List E
  pub entries_pos : ℕ
  pub segments_pos : ℕ

abbrev pub files_of : {E : Type 0} → DictionaryWriter E → DictionaryFiles E
files_of w = record {
  num_dictionary_entries = w.dictionary_header;
  entries = w.written;
  num_segments = w.index_header;
  segments = w.index;
}

-- The next `n` items of a stream; past its end a read throws.
unfoldable pub read_next {ℓ} : {A : Type ℓ} → ℕ → List A → Outcome (List A)
read_next zero s = ok []
read_next (suc n) [] = throws ErrorCode.end_of_file
read_next (suc n) (x ∷ s) = do xs ← read_next n s; ok (x ∷ xs)

module _ {E : Type 0} where
  unfoldable pub open_reader : DictionaryReader E → Outcome (DictionaryReader E)
  open_reader r = do
    throw_if r.reader_is_open ErrorCode.not_ready
    ok (record r { reader_is_open = true; entries_pos = 0; segments_pos = 0 })

  unfoldable pub close_reader : DictionaryReader E → Outcome (DictionaryReader E)
  close_reader r = do
    throw_if (not r.reader_is_open) ErrorCode.not_init
    ok (record r { num_segments_read_from_index = 0; reader_entries = []; reader_is_open = false })

  -- `DictionaryReader ()`
  unfoldable pub new_reader : DictionaryReader E
  new_reader = record {
    reader_is_open = false;
    num_segments_read_from_index = 0;
    reader_entries = [];
    entries_pos = 0;
    segments_pos = 0;
  }

module _ {E : Type 0} (ops : EntryOps E) where
  open ops use {get_value, add_segment_containing_entry}

  -- `m_entries[id].add_segment_containing_entry(segment_id)`
  unfoldable pub add_segment_at : ℕ → ℕ → List E → List E
  add_segment_at segment_id i [] = []
  add_segment_at segment_id zero (e ∷ es) = add_segment_containing_entry segment_id e ∷ es
  add_segment_at segment_id (suc i) (e ∷ es) = e ∷ add_segment_at segment_id i es

  -- The loop of `read_segment_ids` over the identifiers of one segment.
  unfoldable pub read_segment_ids : ℕ → List ℕ → List E → Outcome (List E)
  unfolding add_segment_at
  read_segment_ids segment_id [] es = ok es
  read_segment_ids segment_id (id ∷ ids) es =
      let rest = read_segment_ids segment_id ids (add_segment_at segment_id id es) in
      if leb (length es) id then throws ErrorCode.corrupt else rest

  unfoldable pub read_segments : List (ℕ × List ℕ) → List E → Outcome (List E)
  unfolding read_segment_ids
  read_segments [] es = ok es
  read_segments ((segment_id, ids) ∷ segments) es = do
    es' ← read_segment_ids segment_id ids es
    read_segments segments es'

  -- Both loops read as many items as the headers announce beyond those that the reader counts as
  -- read. The count of segments read is not written again, as in the source.
  unfoldable pub read_new_entries :
      DictionaryReader E → DictionaryFiles E → Outcome (DictionaryReader E)
  unfolding read_segments read_next
  read_new_entries r files = do
    throw_if (not r.reader_is_open) ErrorCode.not_init
    let old = length r.reader_entries
    throw_if (ltb files.num_dictionary_entries old) ErrorCode.corrupt
    let num_new = files.num_dictionary_entries - old
    new ← read_next num_new (drop r.entries_pos files.entries)
    throw_if (ltb files.num_segments r.num_segments_read_from_index) ErrorCode.corrupt
    let num_segments = files.num_segments - r.num_segments_read_from_index
    segments ← read_next num_segments (drop r.segments_pos files.segments)
    es ← read_segments segments (r.reader_entries ++ new)
    ok (record r {
      reader_entries = es;
      entries_pos = r.entries_pos + num_new;
      segments_pos = r.segments_pos + num_segments;
    })

  unfoldable pub read_value : DictionaryReader E → ℕ → Outcome Bytes
  read_value r id = elim (get_elem? r.reader_entries id) [
    | none ↦ throws ErrorCode.corrupt
    | some e ↦ ok (get_value e)
  ]
