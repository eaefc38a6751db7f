-- ===== src/Timestamps/FormatText.antt =====
-- The two loops over a format, against the text of the format.
use clp_core.Base.{
  ℕ, ◌+◌, ◌<◌, ◌==◌, Bool, true, false, ltb, Bool-cases, Option-cases, inl, inr, Bytes, [], ◌∷◌,
  ◌++◌, append-nil, append_assoc, byte_at, length, length-append, length-drop, drop, drop-append,
  drop-drop, some, ◌≡◌, sym, ap, ◌∙◌, arith,
}
use clp_core.Timestamps.{directive_of, inserted}
use clp_core.Timestamps.Parsing.{Fields, parse_format}
use clp_core.Timestamps.Inserting.{Parts, render_format}
use clp_core.Timestamps.Formatted.{
  InRange, format_text, format_read, field_text, field_read, AllReadable,
}
use clp_core.Timestamps.FieldText.{
  render_field-text, parse_field-text, field_text-nonempty, byte_at-first,
}

-- For parts in range, with every field of the format readable: the loop of `insert_formatted_timestamp`
-- appends exactly the text of the format.
pub render_format-text :
    (format : Bytes) (is_specifier : Bool) (p : Parts) (y : ℕ) (msg : Bytes)
    → InRange p y
    → AllReadable format is_specifier p y
    → render_format format is_specifier p msg
      ≡ inserted (msg ++ format_text format is_specifier p y)
unfolding render_format
render_format-text [] false p y msg r h = ap inserted (sym (append-nil msg))
render_format-text [] true p y msg r h = absurd h
render_format-text (c ∷ format) false p y msg r h = elim (Bool-cases (b'%' == c)) [
  | inl e ↦
      (rw (render_format, format_text, e)
        (render_format-text format true p y msg r (rw (AllReadable, e) at h)))
  | inr e ↦
      (rw (render_format, format_text, e)
        (render_format-text format false p y (msg ++ c ∷ []) r (rw (AllReadable, e) at h)
          ∙ ap inserted (append_assoc msg (c ∷ []) (format_text format false p y))))
]
render_format-text (c ∷ format) true p y msg r h = elim (Option-cases (directive_of c)) [
  | inl e ↦ absurd (rw (AllReadable, e) at h)
  | inr (d, e) ↦
      let (readable, others) = (rw (AllReadable, e) at h) in
      rw (render_format, format_text, e, render_field-text d p y msg r readable)
        (render_format-text format false p y _ r others
          ∙ ap inserted (append_assoc msg _ (format_text format false p y)))
]

ahead :
    (line text : Bytes) (ix : ℕ)
    → drop ix line ≡ text
    → 0 < length text
    → ltb ix (length line) ≡ true
ahead line text ix at h = ground (arith, length-drop ix line, ap length at)

format_text-nonempty :
    (format : Bytes) (p : Parts) (y : ℕ)
    → InRange p y
    → AllReadable format true p y
    → 0 < length (format_text format true p y)
format_text-nonempty [] p y r h = absurd h
format_text-nonempty (c ∷ format) p y r h = elim (Option-cases (directive_of c)) [
  | inl e ↦ absurd (rw (AllReadable, e) at h)
  | inr (d, e) ↦
      let (readable, others) = (rw (AllReadable, e) at h) in
      rw (format_text, e)
        (omega (
          arith,
          length-append (field_text d p y) (format_text format false p y),
          field_text-nonempty d p y r readable,
        ))
]

pub drop-behind :
    (line text rest : Bytes) (ix : ℕ)
    → drop ix line ≡ text ++ rest
    → drop (ix + length text) line ≡ rest
drop-behind line text rest ix at =
    sym (drop-drop ix (length text) line) ∙ ap (drop (length text)) at ∙ drop-append text rest

-- Where that text stands in a line, the loop of `parse_timestamp` reads all of the fields, and stops
-- behind it.
pub parse_format-text :
    (format : Bytes) (is_specifier : Bool) (p : Parts) (y : ℕ) (f : Fields) (line rest : Bytes)
    (ix : ℕ)
    → InRange p y
    → AllReadable format is_specifier p y
    → drop ix line ≡ format_text format is_specifier p y ++ rest
    → parse_format format is_specifier line ix f
      ≡ some
          (format_read format is_specifier p y f, ix + length (format_text format is_specifier p y))
unfolding parse_format
parse_format-text [] false p y f line rest ix r h at = ap (λ i. some (f, i)) (omega arith)
parse_format-text [] true p y f line rest ix r h at = absurd h
parse_format-text (c ∷ format) false p y f line rest ix r h at = elim (Bool-cases (b'%' == c)) [
  | inl e ↦
      let readable : AllReadable format true p y = (rw (AllReadable, e) at h) in
      let here : drop ix line ≡ format_text format true p y ++ rest = (rw (format_text, e) at at) in
      let inside = ahead line (format_text format true p y ++ rest) ix here (
        omega (
          arith,
          length-append (format_text format true p y) rest,
          format_text-nonempty format p y r readable,
        )) in
      (rw (parse_format, format_text, format_read, inside, e)
        (parse_format-text format true p y f line rest ix r readable here))
  | inr e ↦
      let readable : AllReadable format false p y = (rw (AllReadable, e) at h) in
      let here : drop ix line ≡ c ∷ (format_text format false p y ++ rest) =
        (rw (format_text, e) at at) in
      let inside = ahead line (c ∷ (format_text format false p y ++ rest)) ix here (omega arith) in
      let same : (c == byte_at line ix) ≡ true =
        ground (arith, byte_at-first line (c ∷ (format_text format false p y ++ rest)) ix here) in
      (rw (parse_format, format_text, format_read, inside, e, same)
        (parse_format-text format false p y f line rest (ix + 1) r readable
            (drop-behind line (c ∷ []) (format_text format false p y ++ rest) ix here)
          ∙ ap (λ i. some (format_read format false p y f, i)) (omega arith)))
]
parse_format-text (c ∷ format) true p y f line rest ix r h at =
    elim (Option-cases (directive_of c)) [
      | inl e ↦ absurd (rw (AllReadable, e) at h)
      | inr (d, e) ↦
          let (readable, others) = (rw (AllReadable, e) at h) in
          let more : Bytes = format_text format false p y in
          let here : drop ix line ≡ field_text d p y ++ (more ++ rest) =
            (rw (format_text, e) at at) ∙ append_assoc (field_text d p y) more rest in
          let inside = ahead line (field_text d p y ++ (more ++ rest)) ix here (
            omega (
              arith,
              length-append (field_text d p y) (more ++ rest),
              field_text-nonempty d p y r readable,
            )) in
          rw
            (
              parse_format,
              format_text,
              format_read,
              inside,
              e,
              parse_field-text d p y f line (more ++ rest) ix r readable here,
            )
            (parse_format-text format false p y (field_read d p y f) line rest
                (ix + length (field_text d p y)) r others
                (drop-behind line (field_text d p y) (more ++ rest) ix here)
              ∙ ap (λ i. some (format_read format false p y (field_read d p y f), i))
                  (omega (arith, length-append (field_text d p y) more)))
    ]
