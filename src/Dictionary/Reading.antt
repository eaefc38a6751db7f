-- ===== src/Dictionary/Reading.antt =====
-- What a reader makes of the files of a variable dictionary: every identifier of the writer stands
-- for its value there.
use clp_core.Base.{
  drop_all, ℕ, zero, suc, ◌+◌, ◌-◌, ◌≤◌, ◌<◌, ◌≡◌, refl, ap, sym, ◌∙◌, true, false, ltb, Bytes,
  List, [], ◌∷◌, ◌++◌, length, get_elem?, append-nil, Outcome, ok, throws, ErrorCode, ◌>>=◌, none,
  some, arith, le→ltb_false,
}
use clp_core.Dictionary.{
  DictionaryReader, files_of, read_next, open_reader, new_reader, add_segment_at, read_segment_ids,
  read_segments, read_new_entries, read_value,
}
use clp_core.Dictionary.Variable.{VarEntry, VarDictWriter, var_ops}
use clp_core.Dictionary.Lookup.{IsConsistent, Resolves}

read_next_all : {A : Type 0} (s : List A) → read_next (length s) s ≡ ok s
unfolding read_next
read_next_all [] = refl
read_next_all (x ∷ s) = rw (read_next_all s) refl

read_next_past :
    {A : Type 0} (n : ℕ) (s : List A) → length s < n → read_next n s ≡ throws ErrorCode.end_of_file
unfolding read_next
read_next_past zero s h = absurd (omega arith)
read_next_past (suc n) [] h = refl
read_next_past (suc n) (x ∷ s) h = rw (read_next_past n s (omega arith)) refl

abbrev values : List VarEntry → List Bytes
values [] = []
values (e ∷ es) = e.value ∷ values es

length-values : (es : List VarEntry) → length (values es) ≡ length es
length-values [] = refl
length-values (e ∷ es) = ap suc (length-values es)

read_value-values :
    (r : DictionaryReader VarEntry) (id : ℕ)
    → read_value var_ops r id ≡ elim (get_elem? (values r.reader_entries) id) [
      | none ↦ throws ErrorCode.corrupt
      | some v ↦ ok v
    ]
unfolding read_value var_ops
read_value-values r id = at r.reader_entries id
  where
    at :
        (es : List VarEntry) (i : ℕ)
        → (elim (get_elem? es i) [ none ↦ throws ErrorCode.corrupt | some e ↦ ok e.value ])
          ≡ elim (get_elem? (values es) i) [ none ↦ throws ErrorCode.corrupt | some v ↦ ok v ]
    at [] i = refl
    at (e ∷ es) zero = refl
    at (e ∷ es) (suc i) = at es i

values-add_segment_at :
    (segment_id i : ℕ) (es : List VarEntry)
    → values (add_segment_at var_ops segment_id i es) ≡ values es
unfolding add_segment_at var_ops
values-add_segment_at segment_id i [] = refl
values-add_segment_at segment_id zero (e ∷ es) = refl
values-add_segment_at segment_id (suc i) (e ∷ es) =
    ap (◌∷◌ e.value) (values-add_segment_at segment_id i es)

-- Every identifier of a segment is that of an entry.
abbrev pub AllBelow : ℕ → List ℕ → Type 0
AllBelow n [] = Unit
AllBelow n (i ∷ is) = (i < n) × AllBelow n is

abbrev pub IndexedBelow : ℕ → List (ℕ × List ℕ) → Type 0
IndexedBelow n [] = Unit
IndexedBelow n ((s, ids) ∷ segments) = AllBelow n ids × IndexedBelow n segments

read_segment_ids_ok :
    (segment_id n : ℕ) (ids : List ℕ) (es : List VarEntry)
    → length es ≡ n
    → AllBelow n ids
    → (es' : List VarEntry) × (read_segment_ids var_ops segment_id ids es ≡ ok es')
      × (values es' ≡ values es)
unfolding read_segment_ids
read_segment_ids_ok segment_id n [] es h b = (es, refl, refl)
read_segment_ids_ok segment_id n (id ∷ ids) es h b =
    let same = values-add_segment_at segment_id id es in
    let next = add_segment_at var_ops segment_id id es in
    let (es', e, v) =
      read_segment_ids_ok segment_id n ids next
        (sym (length-values next) ∙ ap length same ∙ length-values es ∙ h) b.1 in
    (es', ground (arith, b.0, e), v ∙ same)

read_segments_ok :
    (n : ℕ) (segments : List (ℕ × List ℕ)) (es : List VarEntry)
    → length es ≡ n
    → IndexedBelow n segments
    → (es' : List VarEntry) × (read_segments var_ops segments es ≡ ok es')
      × (values es' ≡ values es)
unfolding read_segments
read_segments_ok n [] es h b = (es, refl, refl)
read_segments_ok n ((s, ids) ∷ segments) es h b =
    let (es', e, v) = read_segment_ids_ok s n ids es h b.0 in
    let (es'', e', v') =
      read_segments_ok n segments es' (sym (length-values es') ∙ ap length v ∙ length-values es ∙ h)
        b.1 in
    (es'', rw e e', v' ∙ v)

-- The reader after its first read of the files: it holds the values that were written.
record Holds (w : VarDictWriter) : Type 0 where
  reader : DictionaryReader VarEntry
  reads : (open_reader new_reader >>= λ r. read_new_entries var_ops r (files_of w)) ≡ ok reader
  same : values reader.reader_entries ≡ values w.written
  still_open : reader.reader_is_open ≡ true
  segments_behind : reader.segments_pos ≡ length w.index
  none_counted : reader.num_segments_read_from_index ≡ 0

sub_self : (n : ℕ) → n - n ≡ 0
sub_self n = omega arith

get_elem?-values :
    (es : List VarEntry) (i : ℕ) {e : VarEntry}
    → get_elem? es i ≡ some e
    → get_elem? (values es) i ≡ some e.value
get_elem?-values [] i h = cc
get_elem?-values (e ∷ es) zero h = cc
get_elem?-values (e ∷ es) (suc i) h = get_elem?-values es i h

ltb_zero : (n : ℕ) → ltb n 0 ≡ false
ltb_zero n = le→ltb_false n 0 (omega arith)

sub_zero : (n : ℕ) → n - 0 ≡ n
sub_zero n = omega arith

read_new_entries-Holds :
    (w : VarDictWriter)
    → w.dictionary_header ≡ length w.written
    → w.index_header ≡ length w.index
    → IndexedBelow (length w.written) w.index
    → Holds w
unfolding open_reader new_reader read_new_entries
read_new_entries-Holds w h i b =
    let (es, e, v) = read_segments_ok (length w.written) w.index w.written refl b in
    record {
      reader = record {
        reader_is_open = true;
        num_segments_read_from_index = 0;
        reader_entries = es;
        entries_pos = 0 + length w.written;
        segments_pos = 0 + length w.index;
      };
      reads =
          rw
            (
              h,
              i,
              ltb_zero (length w.written),
              ltb_zero (length w.index),
              sub_zero (length w.written),
              sub_zero (length w.index),
              read_next_all w.written,
              read_next_all w.index,
              e,
            )
            refl;
      same = v;
      still_open = refl;
      segments_behind = omega arith;
      none_counted = refl;
    }

abbrev pub read_back : VarDictWriter → Outcome (DictionaryReader VarEntry)
read_back w = open_reader new_reader >>= λ r. read_new_entries var_ops r (files_of w)

pub read_back_all :
    (w : VarDictWriter)
    → IsConsistent w
    → w.uncommitted_entries ≡ []
    → IndexedBelow (length w.written) w.index
    → (r : DictionaryReader VarEntry) × (read_back w ≡ ok r)
      × ((id : ℕ) (v : Bytes) → Resolves w id v → read_value var_ops r id ≡ ok v)
read_back_all w c committed b =
    let h = read_new_entries-Holds w c.header c.index_header b in
    (
      h.reader,
      h.reads,
      λ id v (e, at, val).
          let there : get_elem? w.written id ≡ some e =
            ap (λ s. get_elem? s id)
              (sym (ap (λ u. w.written ++ u) committed ∙ append-nil w.written))
            ∙ at in
          read_value-values h.reader id
          ∙ rw (h.same, get_elem?-values w.written id there) (ap ok val),
    )

-- What a writer wrote, when nothing is left to be written and the index names its entries only, is
-- read without an error, and the reader gives the value of an identifier of the writer.
pub read_value-read_new_entries :
    (w : VarDictWriter) (id : ℕ) (v : Bytes)
    → IsConsistent w
    → w.uncommitted_entries ≡ []
    → IndexedBelow (length w.written) w.index
    → Resolves w id v
    → (r : DictionaryReader VarEntry) × ((open_reader new_reader >>= λ r₀.
          read_new_entries var_ops r₀ (files_of w))
        ≡ ok r)
      × (read_value var_ops r id ≡ ok v)
read_value-read_new_entries w id v c committed b there =
    let (r, reads, resolves) = read_back_all w c committed b in (r, reads, resolves id v there)

-- A second read of the same files throws `ErrorCode_EndOfFile` when the index has a segment, though
-- there is nothing new: the reader does not count the segments that it has read.
pub read_new_entries_again :
    (w : VarDictWriter)
    → IsConsistent w
    → IndexedBelow (length w.written) w.index
    → 1 ≤ length w.index
    → (r : DictionaryReader VarEntry) × ((open_reader new_reader >>= λ r₀.
          read_new_entries var_ops r₀ (files_of w))
        ≡ ok r)
      × (read_new_entries var_ops r (files_of w) ≡ throws ErrorCode.end_of_file)
unfolding read_new_entries
read_new_entries_again w c b some_segment =
    let h = read_new_entries-Holds w c.header c.index_header b in
    let r = h.reader in
    let read = sym (length-values r.reader_entries) ∙ ap length h.same ∙ length-values w.written in
    (
      r,
      h.reads,
      rw
          (
            h.still_open,
            c.header,
            read,
            le→ltb_false (length w.written) (length w.written) (omega arith),
            sub_self (length w.written),
            h.none_counted,
            ltb_zero w.index_header,
            sub_zero w.index_header,
            c.index_header,
            h.segments_behind,
            drop_all (length w.index) w.index (omega arith),
            read_next_past {A = ℕ × List ℕ} (length w.index) [] (omega arith),
          )
          refl,
    )
