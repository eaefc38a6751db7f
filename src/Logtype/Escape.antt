-- ===== src/Logtype/Escape.antt =====
-- Escaping a logtype for the disk and reading it back.
use clp_core.Base.{
  ℕ, zero, suc, ◌+◌, ◌-◌, Bool, true, false, Bytes, List, [], ◌∷◌, ◌++◌, length, drop, byte_at,
  length-append, length-drop, append_assoc, append-nil, ◌≡◌, refl, ap, sym, ◌∙◌, arith,
  if◌then◌else◌,
}
use native.Mathlib.Numerals.{add-one, add-two}
use clp_core.Logtype.{
  non_double_byte, double_byte, escape_char, needs_escape, escape_variable_delimiters, escape_from,
}
use clp_core.Logtype.Parts.{
  Part, constant, int_var, double_var, text_of_part, text_of, positions_of,
}

abbrev pub escaped_byte : ℕ → Bytes
escaped_byte c = if needs_escape c then escape_char ∷ c ∷ [] else c ∷ []

abbrev pub escaped_bytes : Bytes → Bytes
escaped_bytes [] = []
escaped_bytes (c ∷ s) = escaped_byte c ++ escaped_bytes s

abbrev pub escaped_part : Part → Bytes
escaped_part (constant c) = escaped_byte c
escaped_part p = text_of_part p

abbrev pub escaped_parts : List Part → Bytes
escaped_parts [] = []
escaped_parts (p ∷ ps) = escaped_part p ++ escaped_parts ps

pub drop_cons :
    (v : Bytes) (i : ℕ) {c : ℕ} {r : Bytes}
    → drop i v ≡ c ∷ r
    → (byte_at v i ≡ c) × (drop (suc i) v ≡ r)
drop_cons [] zero e = cc
drop_cons [] (suc i) e = cc
drop_cons (x ∷ v) zero e = ground arith
drop_cons (x ∷ v) (suc i) e = drop_cons v i e

pub drop_past :
    (v : Bytes) (i : ℕ) (mid : Bytes) {r : Bytes}
    → drop i v ≡ mid ++ r
    → drop (i + length mid) v ≡ r
drop_past v i [] e = ap (λ n. drop n v) (omega arith) ∙ e
drop_past v i (c ∷ mid) e =
    ap (λ n. drop n v) (omega arith) ∙ drop_past v (suc i) mid (drop_cons v i e).1

escaped_bytes-append :
    (xs ys : Bytes) → escaped_bytes (xs ++ ys) ≡ escaped_bytes xs ++ escaped_bytes ys
escaped_bytes-append [] ys = refl
escaped_bytes-append (x ∷ xs) ys = simp (escaped_bytes-append xs ys, append_assoc)

write_byte :
    (b : Bool) (c : ℕ) (out : Bytes)
    → (if b then out ++ escape_char ∷ [] else out) ++ c ∷ []
      ≡ out ++ (if b then escape_char ∷ c ∷ [] else c ∷ [])
write_byte true c out = simp append_assoc
write_byte false c out = refl

-- The escaping loop appends the escape of the range that it covers.
escape_variable_delimiters_lem :
    (v : Bytes) (i : ℕ) (mid post out : Bytes)
    → drop i v ≡ mid ++ post
    → escape_variable_delimiters v i (length mid) out ≡ out ++ escaped_bytes mid
unfolding escape_variable_delimiters
escape_variable_delimiters_lem v i [] post out e = sym (append-nil out)
escape_variable_delimiters_lem v i (c ∷ mid) post out e =
    let (at, rest) = drop_cons v i e in
    let b = byte_at v i in
    let written = (if needs_escape b then out ++ escape_char ∷ [] else out) ++ b ∷ [] in
    escape_variable_delimiters_lem v (suc i) mid post written rest
    ∙ rw (at, write_byte) (append_assoc out (escaped_byte c) (escaped_bytes mid))

length_left : (v : Bytes) (b : ℕ) (mid : Bytes) → drop b v ≡ mid → length v - b ≡ length mid
length_left v b mid e = omega (arith, length-drop b v, ap length e)

pub range_length : (b o : ℕ) (mid : Bytes) → o ≡ b + length mid → o - b ≡ length mid
range_length b o mid h = omega arith

escape_from_int :
    (v : Bytes) (b o : ℕ) (positions : List ℕ) (out : Bytes)
    → byte_at v o ≡ non_double_byte
    → escape_from v b (o ∷ positions) out
      ≡ escape_from v
          (suc o)
          positions
          (escape_variable_delimiters v b (o - b) out ++ non_double_byte ∷ [])
unfolding escape_from
escape_from_int v b o positions out at = ground (arith, add-one o)

escape_from_double :
    (v : Bytes) (b o p : ℕ) (positions : List ℕ) (out : Bytes)
    → byte_at v o ≡ double_byte
    → byte_at v (suc o) ≡ p
    → escape_from v b (o ∷ positions) out
      ≡ escape_from v
          (suc (suc o))
          positions
          (escape_variable_delimiters v b (o - b) out ++ double_byte ∷ p ∷ [])
unfolding escape_from
escape_from_double v b o p positions out at at' = ground (arith, add-one o, add-two o)

-- The loop over the positions escapes the constants and copies the placeholders.
pub escape_from_lem :
    (v : Bytes) (b : ℕ) (mid : Bytes) (ps : List Part) (o : ℕ) (out : Bytes)
    → o ≡ b + length mid
    → drop b v ≡ mid ++ text_of ps
    → escape_from v b (positions_of o ps) out ≡ out ++ (escaped_bytes mid ++ escaped_parts ps)
unfolding escape_from
escape_from_lem v b mid [] o out h e =
    rw (length_left v b mid (e ∙ append-nil mid), append-nil)
      (escape_variable_delimiters_lem v b mid [] out e)
escape_from_lem v b mid (constant c ∷ ps) o out h e =
    escape_from_lem v b (mid ++ c ∷ []) ps (suc o) out
      (omega (arith, h, length-append mid (c ∷ [])))
      (e ∙ sym (append_assoc mid (c ∷ []) (text_of ps)))
    ∙ simp (escaped_bytes-append, append-nil, append_assoc)
escape_from_lem v b mid (int_var ∷ ps) o out h e =
    let at_o = ap (λ (n : ℕ). drop n v) h ∙ drop_past v b mid e in
    let (at, rest) = drop_cons v o at_o in
    escape_from_int v b o (positions_of (suc o) ps) out at
    ∙ rw (range_length b o mid h, escape_variable_delimiters_lem v b mid _ out e)
        (escape_from_lem v (suc o) [] ps (suc o) _ (omega arith) rest ∙ simp append_assoc)
escape_from_lem v b mid (double_var i f ∷ ps) o out h e =
    let at_o = ap (λ (n : ℕ). drop n v) h ∙ drop_past v b mid e in
    let (at, rest) = drop_cons v o at_o in
    let (at', rest') = drop_cons v (suc o) rest in
    escape_from_double v b o _ (positions_of (suc (suc o)) ps) out at at'
    ∙ rw (range_length b o mid h, escape_variable_delimiters_lem v b mid _ out e)
        (escape_from_lem v (suc (suc o)) [] ps (suc (suc o)) _ (omega arith) rest'
          ∙ simp append_assoc)
