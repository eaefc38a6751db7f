-- ===== src/Dictionary/Lookup.antt =====
-- The two maps of a variable dictionary and the list of its entries agree, whatever is added.
use clp_core.Base.{
  ℕ, ◌+◌, ◌≤◌, ◌<◌, ◌↔◌, ◌≡◌, refl, sym, ◌∙◌, true, false, Bytes, bytes_eq, List, [], ◌∷◌, ◌++◌,
  length, get_elem?, get_elem?-concat, get_elem?-lt, length-append, append_assoc, ok, throws,
  ok-injective, throws-ne-ok, ErrorCode, none, some, arith, ltb, if◌then◌else◌, ◌==◌, Option-cases,
  inl, inr, bytes_eq→eq, bytes_eq_refl, Bool-cases, ltb→lt, ltb_false→le,
}
use mathlib.Core.Path.{subst}
use clp_core.Dictionary.{find_value, find_id}
use clp_core.Dictionary.Variable.{
  VarEntry, VarDictWriter, Added, new_var_entry, insert_entry, add_occurrence,
}

-- All entries of a dictionary in the order in which they were added.
abbrev pub log : VarDictWriter → List VarEntry
log w = w.written ++ w.uncommitted_entries

pub record IsConsistent (w : VarDictWriter) : Type 0 where
  pub ids : (i : ℕ) (e : VarEntry) → get_elem? (log w) i ≡ some e → e.id ≡ i
  pub next : w.next_id ≡ length (log w)
  pub found :
      (v : Bytes) (e : VarEntry)
      → find_value v w.value_to_entry ≡ some e
      → (e.value ≡ v) × (get_elem? (log w) e.id ≡ some e)
  pub complete :
      (i : ℕ) (e : VarEntry)
      → get_elem? (log w) i ≡ some e
      → find_value e.value w.value_to_entry ≡ some e
  pub by_id : (i : ℕ) → find_id i w.id_to_entry ≡ get_elem? (log w) i
  pub count : length w.id_to_entry ≡ length (log w)
  pub header : w.dictionary_header ≡ length w.written
  pub index_count : w.num_segments_in_index ≡ length w.index
  pub index_header : w.index_header ≡ length w.index

log-insert_entry :
    (w : VarDictWriter) (v : Bytes)
    → log (insert_entry w v) ≡ log w ++ new_var_entry v w.next_id ∷ []
unfolding insert_entry
log-insert_entry w v = sym (append_assoc w.written w.uncommitted_entries _)

module _ (w : VarDictWriter) (c : IsConsistent w) (v : Bytes) where
  log_at :
      (i : ℕ)
      → get_elem? (log (insert_entry w v)) i
        ≡ (if i == w.next_id then some (new_var_entry v w.next_id) else get_elem? (log w) i)
  log_at i = rw (log-insert_entry w v, c.next) (get_elem?-concat (log w) _ i)

  -- What was in the dictionary stays where it was.
  keeps :
      (i : ℕ) (e : VarEntry)
      → get_elem? (log w) i ≡ some e
      → get_elem? (log (insert_entry w v)) i ≡ some e
  keeps i e h = log_at i ∙ ground (arith, c.next, get_elem?-lt (log w) i h)

  new_is_last : get_elem? (log (insert_entry w v)) w.next_id ≡ some (new_var_entry v w.next_id)
  new_is_last = log_at w.next_id ∙ ground arith

  find_value_new :
      (u : Bytes)
      → find_value u (insert_entry w v).value_to_entry
        ≡ (if bytes_eq v u then some (new_var_entry v w.next_id) else find_value u w.value_to_entry)
  unfolding insert_entry find_value
  find_value_new u = refl

  found_new :
      (u : Bytes) (e : VarEntry)
      → find_value u (insert_entry w v).value_to_entry ≡ some e
      → (e.value ≡ u) × (get_elem? (log (insert_entry w v)) e.id ≡ some e)
  found_new u e h = elim (Bool-cases (bytes_eq v u)) [
    | inl same ↦
        let is_new : e ≡ new_var_entry v w.next_id = cc (rw (find_value_new u, same) at h) in
        rw is_new (bytes_eq→eq v u same, new_is_last)
    | inr other ↦
        let (val, at) = c.found u e (rw (find_value_new u, other) at h) in (val, keeps e.id e at)
  ]

  complete_new :
      find_value v w.value_to_entry ≡ none
      → (i : ℕ) (e : VarEntry) → get_elem? (log (insert_entry w v)) i ≡ some e
      → find_value e.value (insert_entry w v).value_to_entry ≡ some e
  complete_new fresh i e h = elim (Bool-cases (i == w.next_id)) [
    | inl last ↦
        let is_new : e ≡ new_var_entry v w.next_id = cc (rw (log_at i, last) at h) in
        rw (is_new, find_value_new v, bytes_eq_refl v) refl
    | inr old ↦
        let there : find_value e.value w.value_to_entry ≡ some e =
          c.complete i e (rw (log_at i, old) at h) in
        find_value_new e.value ∙ elim (Bool-cases (bytes_eq v e.value)) [
          | inl same ↦
              let e_v : find_value v w.value_to_entry ≡ some e =
                rw (bytes_eq→eq v e.value same) there in
              cc
          | inr other ↦ rw other there
        ]
  ]

  by_id_new :
      (i : ℕ) → find_id i (insert_entry w v).id_to_entry ≡ get_elem? (log (insert_entry w v)) i
  unfolding insert_entry find_id
  by_id_new i = ground (arith, log_at i, c.by_id i)

  ids_new : (i : ℕ) (e : VarEntry) → get_elem? (log (insert_entry w v)) i ≡ some e → e.id ≡ i
  ids_new i e h = ground (arith, log_at i, c.ids i e)

  length_new : length (log (insert_entry w v)) ≡ length (log w) + 1
  length_new = rw (log-insert_entry w v) (length-append (log w) (new_var_entry v w.next_id ∷ []))

  sizes_new :
      ((insert_entry w v).next_id ≡ length (log w) + 1)
      × (length (insert_entry w v).id_to_entry ≡ length (log w) + 1)
  unfolding insert_entry
  sizes_new = omega (arith, c.next, c.count)

  headers_new :
      ((insert_entry w v).dictionary_header ≡ length (insert_entry w v).written)
      × ((insert_entry w v).num_segments_in_index ≡ length (insert_entry w v).index)
      × ((insert_entry w v).index_header ≡ length (insert_entry w v).index)
  unfolding insert_entry
  headers_new = (c.header, c.index_count, c.index_header)

  insert_entry-IsConsistent : find_value v w.value_to_entry ≡ none → IsConsistent (insert_entry w v)
  insert_entry-IsConsistent fresh = record {
    ids = ids_new;
    next = sizes_new.0 ∙ sym length_new;
    found = found_new;
    complete = complete_new fresh;
    by_id = by_id_new;
    count = sizes_new.1 ∙ sym length_new;
    header = headers_new.0;
    index_count = headers_new.1;
    index_header = headers_new.2;
  }

-- Every entry of `w` is in `w'`, under the same identifier.
abbrev pub Extends : VarDictWriter → VarDictWriter → Type 0
Extends w w' = (i : ℕ) (e : VarEntry) → get_elem? (log w) i ≡ some e → get_elem? (log w') i ≡ some e

-- The identifier stands for the value.
abbrev pub Resolves : VarDictWriter → ℕ → Bytes → Type 0
Resolves w id v = (e : VarEntry) × (get_elem? (log w) id ≡ some e) × (e.value ≡ v)

-- A value that is there gets its old identifier and changes nothing; a new value gets the next
-- identifier, unless identifiers have run out, which throws `ErrorCode_OutOfBounds`.
pub add_occurrence_cases :
    (w : VarDictWriter) (v : Bytes)
    → ((e : VarEntry)
        → find_value v w.value_to_entry ≡ some e
        → add_occurrence w v ≡ ok (record { new_entry = false; id = e.id; writer = w }))
      × (find_value v w.value_to_entry ≡ none
          → w.next_id ≤ w.max_id
          → add_occurrence w v
            ≡ ok (record { new_entry = true; id = w.next_id; writer = insert_entry w v }))
      × (find_value v w.value_to_entry ≡ none
          → w.max_id < w.next_id
          → add_occurrence w v ≡ throws ErrorCode.out_of_bounds)
unfolding add_occurrence
add_occurrence_cases w v =
    (λ e h. rw (h, add_occurrence) refl, λ h k. ground arith, λ h k. ground arith)

-- Adding a value throws `ErrorCode_OutOfBounds` just when the value is new and identifiers have run
-- out.
pub add_occurrence_throws_iff :
    (w : VarDictWriter) (v : Bytes)
    → (add_occurrence w v ≡ throws ErrorCode.out_of_bounds)
      ↔ ((find_value v w.value_to_entry ≡ none) × (w.max_id < w.next_id))
unfolding add_occurrence
add_occurrence_throws_iff w v = ground arith

abbrev Serves : VarDictWriter → Bytes → Added → Type 0
Serves w v r = IsConsistent r.writer × Extends w r.writer × Resolves r.writer r.id v

-- Adding a value to a consistent dictionary leaves it consistent, keeps every entry under its
-- identifier, and returns an identifier that stands for the value.
pub add_occurrence_lem :
    (w : VarDictWriter) (v : Bytes) {r : Added}
    → IsConsistent w
    → add_occurrence w v ≡ ok r
    → IsConsistent r.writer × Extends w r.writer × Resolves r.writer r.id v
add_occurrence_lem w v {r} c h =
    let (old, new, full) = add_occurrence_cases w v in
    elim (Option-cases (find_value v w.value_to_entry)) [
      | inr (e, there) ↦
          let (val, at) = c.found v e there in
          subst (Serves w v) (ok-injective (sym (old e there) ∙ h)) (c, λ i e h. h, (e, at, val))
      | inl fresh ↦ elim (Bool-cases (ltb w.max_id w.next_id)) [
        | inl over ↦ absurd (throws-ne-ok (sym (full fresh (ltb→lt w.max_id w.next_id over)) ∙ h))
        | inr room ↦
            subst (Serves w v)
              (ok-injective (sym (new fresh (ltb_false→le w.max_id w.next_id room)) ∙ h))
              (
                insert_entry-IsConsistent w c v fresh,
                keeps w c v,
                (new_var_entry v w.next_id, new_is_last w c v, refl),
              )
      ]
    ]
