-- ===== src/Dictionary/Writing.antt =====
-- The writer of a variable dictionary stays consistent when it writes its entries and its index.
use clp_core.Base.{
  ℕ, ◌≡◌, refl, ap, sym, ◌∙◌, ◌==◌, List, [], ◌∷◌, ◌++◌, length, get_elem?, length-append,
  append-nil, ok, ok-injective, throws-ne-ok, arith, Bool-cases, inl, inr, ==_iff,
}
use mathlib.Core.Path.{subst}
use clp_core.Dictionary.{write_uncommitted_entries_to_disk, index_segment}
use clp_core.Dictionary.Variable.{VarDictWriter}
use clp_core.Dictionary.Lookup.{IsConsistent, log}

length_zero : {A : Type 0} (s : List A) → length s ≡ 0 → s ≡ []
length_zero [] h = refl
length_zero (x ∷ s) h = absurd (omega arith)

-- A record that holds the same entries and maps, with a right header, is consistent too.
module _ (w w' : VarDictWriter) (c : IsConsistent w) where
  IsConsistent-same :
      log w' ≡ log w
      → w'.value_to_entry ≡ w.value_to_entry
      → w'.id_to_entry ≡ w.id_to_entry
      → w'.next_id ≡ w.next_id
      → w'.dictionary_header ≡ length w'.written
      → w'.num_segments_in_index ≡ length w'.index
      → w'.index_header ≡ length w'.index
      → IsConsistent w'
  IsConsistent-same l m n i h k j = record {
    ids = λ i e at. c.ids i e (ap (λ s. get_elem? s i) (sym l) ∙ at);
    next = i ∙ c.next ∙ ap length (sym l);
    found = λ v e at.
        let (val, there) = c.found v e (rw (sym m) at) in
        (val, ap (λ s. get_elem? s e.id) l ∙ there);
    complete = λ i e at. rw m (c.complete i e (ap (λ s. get_elem? s i) (sym l) ∙ at));
    by_id = λ i. rw (n, l) (c.by_id i);
    count = rw (n, l) c.count;
    header = h;
    index_count = k;
    index_header = j;
  }

-- What a write keeps.
abbrev Written : VarDictWriter → VarDictWriter → Type 0
Written w w' =
    IsConsistent w' × (log w' ≡ log w) × (w'.uncommitted_entries ≡ []) × (w'.index ≡ w.index)

-- What an index keeps.
abbrev Indexed : VarDictWriter → ℕ → List ℕ → VarDictWriter → Type 0
Indexed w segment_id ids w' =
    IsConsistent w' × (log w' ≡ log w) × (w'.index ≡ w.index ++ (segment_id, ids) ∷ [])

-- Writing the entries out keeps the dictionary consistent and its entries as they are, and leaves
-- none to be written.
pub write_uncommitted_entries_to_disk-IsConsistent :
    (w w' : VarDictWriter)
    → IsConsistent w
    → write_uncommitted_entries_to_disk w ≡ ok w'
    → IsConsistent w' × (log w' ≡ log w) × (w'.uncommitted_entries ≡ []) × (w'.index ≡ w.index)
unfolding write_uncommitted_entries_to_disk
write_uncommitted_entries_to_disk-IsConsistent w w' c h = elim (Bool-cases w.is_open) [
  | inr shut ↦ absurd (throws-ne-ok (rw (shut, write_uncommitted_entries_to_disk) at h))
  | inl opened ↦ elim (Bool-cases (length w.uncommitted_entries == 0)) [
    | inl empty ↦
        subst (Written w)
          (ok-injective (rw (opened, empty, write_uncommitted_entries_to_disk) at h))
          (
            IsConsistent-same w _ c refl refl refl refl c.header c.index_count c.index_header,
            refl,
            length_zero _ ((==_iff _ 0).0 empty),
            refl,
          )
    | inr some_left ↦
        subst (Written w)
          (ok-injective (rw (opened, some_left, write_uncommitted_entries_to_disk) at h))
          (
            IsConsistent-same w _ c (append-nil (log w)) refl refl refl c.count c.index_count
                c.index_header,
            append-nil (log w),
            refl,
            refl,
          )
  ]
]

-- Indexing a segment keeps the dictionary consistent and its entries as they are, and puts the
-- segment behind the index.
pub index_segment-IsConsistent :
    (w w' : VarDictWriter) (segment_id : ℕ) (ids : List ℕ)
    → IsConsistent w
    → index_segment w segment_id ids ≡ ok w'
    → IsConsistent w' × (log w' ≡ log w) × (w'.index ≡ w.index ++ (segment_id, ids) ∷ [])
unfolding index_segment
index_segment-IsConsistent w w' segment_id ids c h = elim (Bool-cases w.is_open) [
  | inr shut ↦ absurd (throws-ne-ok (rw (shut, index_segment) at h))
  | inl opened ↦
      let more = length-append w.index ((segment_id, ids) ∷ []) in
      subst (Indexed w segment_id ids) (ok-injective (rw (opened, index_segment) at h)) (
        IsConsistent-same w _ c refl refl refl refl c.header (omega (arith, more, c.index_count))
            (omega (arith, more, c.index_count)),
        refl,
        refl,
      )
]
