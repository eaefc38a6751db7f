-- ===== src/Logtype/Reading.antt =====
-- Reading an escaped logtype gives back the entry that was written.
use clp_core.Base.{
  ℕ, ◌≤◌, false, Bytes, List, [], ◌∷◌, ◌++◌, length, append_assoc, append-nil, Outcome, ok, ◌>>=◌,
  ◌≡◌, refl, ap, sym, ◌∙◌, arith, take_all, Bool-cases, inl, inr,
}
use mathlib.Core.Path.{subst}
use clp_core.Logtype.{
  LogtypeEntry, non_double_byte, double_byte, escape_char, needs_escape,
  get_value_with_unfounded_variables_escaped, encode_precision_of_double_value, add_constant,
  add_non_double_var, add_double_var, clear, decode_escaped, read_escaped_value, escape_from,
}
use clp_core.Logtype.Parts.{
  Part, constant, int_var, double_var, Fits, IsBuiltFrom, IsBuilt, constants, clear-IsBuiltFrom,
  add_constant-IsBuiltFrom, add_non_double_var-IsBuiltFrom, add_double_var-IsBuiltFrom,
  decode_precision-encode_precision,
}
use clp_core.Logtype.Escape.{escaped_parts, escape_from_lem}

-- Adding the constant read so far.
abbrev flush : LogtypeEntry → Bytes → LogtypeEntry
flush e k = add_constant e k 0 (length k)

decode_escape :
    (c : ℕ) (s : Bytes) (e : LogtypeEntry) (k : Bytes)
    → decode_escaped (escape_char ∷ c ∷ s) e false k ≡ decode_escaped s e false (k ++ c ∷ [])
unfolding decode_escaped
decode_escape c s e k = refl

decode_plain :
    (c : ℕ) (s : Bytes) (e : LogtypeEntry) (k : Bytes)
    → needs_escape c ≡ false
    → decode_escaped (c ∷ s) e false k ≡ decode_escaped s e false (k ++ c ∷ [])
unfolding decode_escaped needs_escape
decode_plain c [] e k h = ground arith
decode_plain c (p ∷ s) e k h = ground arith

decode_int :
    (s : Bytes) (e : LogtypeEntry) (k : Bytes)
    → decode_escaped (non_double_byte ∷ s) e false k
      ≡ decode_escaped s (add_non_double_var (flush e k)) false []
unfolding decode_escaped
decode_int [] e k = refl
decode_int (p ∷ s) e k = refl

decode_double :
    (i f : ℕ) (s : Bytes) (e : LogtypeEntry) (k : Bytes)
    → i ≤ 15
    → f ≤ 15
    → decode_escaped (double_byte ∷ encode_precision_of_double_value i f ∷ s) e false k
      ≡ (add_double_var i f (flush e k) >>= λ e'. decode_escaped s e' false [])
unfolding decode_escaped
decode_double i f s e k h h' = rw (decode_precision-encode_precision i f h h')

-- The decoder returns an entry built from the given parts.
abbrev Reads : Outcome LogtypeEntry → List Part → Type 0
Reads r ps = (e : LogtypeEntry) × (r ≡ ok e) × IsBuiltFrom ps e

flush-IsBuiltFrom :
    (qs : List Part) (e : LogtypeEntry) (k : Bytes)
    → IsBuiltFrom qs e
    → IsBuiltFrom (qs ++ constants k) (flush e k)
flush-IsBuiltFrom qs e k b =
    subst (λ t. IsBuiltFrom (qs ++ constants t) (flush e k)) (take_all (length k) k (omega arith))
      (add_constant-IsBuiltFrom qs e b k 0 (length k))

constants-append : (xs ys : Bytes) → constants (xs ++ ys) ≡ constants xs ++ constants ys
constants-append [] ys = refl
constants-append (x ∷ xs) ys = ap (◌∷◌ (constant x)) (constants-append xs ys)

regroup_constant :
    (qs : List Part) (k : Bytes) (c : ℕ) (ps : List Part)
    → qs ++ (constants (k ++ c ∷ []) ++ ps) ≡ qs ++ (constants k ++ constant c ∷ ps)
regroup_constant qs k c ps = simp (constants-append, append_assoc)

decode_end :
    (qs : List Part) (e : LogtypeEntry) (k : Bytes)
    → IsBuiltFrom qs e
    → Reads (decode_escaped [] e false k) (qs ++ (constants k ++ []))
unfolding decode_escaped
decode_end qs e [] b = (e, refl, rw append-nil b)
decode_end qs e (c ∷ k) b =
    (flush e (c ∷ k), ground arith, rw append-nil (flush-IsBuiltFrom qs e (c ∷ k) b))

decode-Reads :
    (ps qs : List Part) (e : LogtypeEntry) (k : Bytes)
    → Fits ps
    → IsBuiltFrom qs e
    → Reads (decode_escaped (escaped_parts ps) e false k) (qs ++ (constants k ++ ps))
decode-Reads [] qs e k fits b = decode_end qs e k b
decode-Reads (constant c ∷ ps) qs e k fits b =
    let ih =
      subst (Reads (decode_escaped (escaped_parts ps) e false (k ++ c ∷ [])))
        (regroup_constant qs k c ps) (decode-Reads ps qs e (k ++ c ∷ []) fits.1 b) in
    elim (Bool-cases (needs_escape c)) [
      | inl h ↦ rw (h, decode_escape c (escaped_parts ps) e k) ih
      | inr h ↦ rw (h, decode_plain c (escaped_parts ps) e k h) ih
    ]
decode-Reads (int_var ∷ ps) qs e k fits b = rw (decode_int (escaped_parts ps) e k) (
    subst (Reads _) (simp append_assoc) (
      decode-Reads ps ((qs ++ constants k) ++ int_var ∷ []) (add_non_double_var (flush e k)) []
        fits.1
        (add_non_double_var-IsBuiltFrom (qs ++ constants k) (flush e k)
          (flush-IsBuiltFrom qs e k b))))
decode-Reads (double_var i f ∷ ps) qs e k fits b =
    let (e', added, b') =
      add_double_var-IsBuiltFrom (qs ++ constants k) (flush e k) (flush-IsBuiltFrom qs e k b) i f
        fits.0 in
    rw (decode_double i f (escaped_parts ps) e k (omega arith) (omega arith), added)
      (subst (Reads (decode_escaped (escaped_parts ps) e' false [])) (simp append_assoc)
        (decode-Reads ps ((qs ++ constants k) ++ double_var i f ∷ []) e' [] fits.1 b'))

-- An entry that the operations built, escaped for the disk and read back over any entry `old`, has
-- the same text and the same positions of placeholders.
pub read-get_value_escaped :
    (e old : LogtypeEntry)
    → IsBuilt e
    → (e' : LogtypeEntry) × (read_escaped_value old (get_value_with_unfounded_variables_escaped e)
        ≡ ok e')
      × (e'.value ≡ e.value)
      × (e'.var_positions ≡ e.var_positions)
unfolding read_escaped_value get_value_with_unfounded_variables_escaped
read-get_value_escaped e old (ps, b) =
    let escaped = escape_from_lem e.value 0 [] ps 0 [] (omega arith) b.text in
    let (e', read, b') = decode-Reads ps [] (clear old) [] b.fits (clear-IsBuiltFrom old) in
    (
      e',
      ap (λ l. decode_escaped (escape_from e.value 0 l []) (clear old) false []) b.positions
          ∙ ap (λ s. decode_escaped s (clear old) false []) escaped
          ∙ read,
      b'.text ∙ sym b.text,
      b'.positions ∙ sym b.positions,
    )
