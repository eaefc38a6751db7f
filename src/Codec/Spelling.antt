-- ===== src/Codec/Spelling.antt =====
-- What a sequence of parts and encoded variables says, as text, and that the decoder says just that.
use native.Mathlib.Numerals.{add-one, add-two}
use clp_core.Base.{
  ℕ, suc, ◌+◌, ◌-◌, ◌≤◌, ltb, Bytes, List, [], ◌∷◌, ◌++◌, length, drop, byte_at, substr, get_elem?,
  length-drop, take_all, append_assoc, append-nil, some, Bool-cases, length-append, ==_iff, inl,
  inr, drop_all, ltb_false→le, get_elem?-drop, take-append, Outcome, ok, ◌≡◌, refl, ap, sym, ◌∙◌,
  arith,
}
use clp_core.Base.Int.{ℤ}
use clp_core.Logtype.{
  LogtypeEntry, get_var_info, non_double_byte, double_byte, encode_precision_of_double_value,
}
use clp_core.Logtype.Parts.{
  Part, constant, int_var, double_var, text_of, positions_of, Fits, IsBuiltFrom, constants,
  decode_precision-encode_precision,
}
use clp_core.Logtype.Escape.{drop_cons, drop_past, range_length}
use clp_core.Variables.Floats.{FloatLib}
use clp_core.Codec.{int_text, double_text, decode_loop, decode_variables_into_message}

module _ (lib : FloatLib) (get_value : ℕ → Outcome Bytes) where
  -- The parts, with a variable for each placeholder, spell the text.
  pub data Spells : List Part → List ℤ → Bytes → Type 0 where
    stop : Spells [] [] []
    byte :
        {c : ℕ} {ps : List Part} {vs : List ℤ} {t : Bytes}
        → Spells ps vs t
        → Spells (constant c ∷ ps) vs (c ∷ t)
    int :
        {v : ℤ} {ps : List Part} {vs : List ℤ} {s t u : Bytes}
        → int_text lib get_value v ≡ ok s
        → Spells ps vs t
        → u ≡ s ++ t
        → Spells (int_var ∷ ps) (v ∷ vs) u
    double :
        {i f : ℕ} {v : ℤ} {ps : List Part} {vs : List ℤ} {t u : Bytes}
        → Spells ps vs t
        → u ≡ double_text lib i f v ++ t
        → Spells (double_var i f ∷ ps) (v ∷ vs) u

  pub Spells-append :
      {ps qs : List Part} {vs us : List ℤ} {t u : Bytes}
      → Spells ps vs t
      → Spells qs us u
      → Spells (ps ++ qs) (vs ++ us) (t ++ u)
  Spells-append stop k = k
  Spells-append (byte h) k = byte (Spells-append h k)
  Spells-append {u} (int {s = s} {t = t} e h q) k =
      int e (Spells-append h k) (rw q (append_assoc s t u))
  Spells-append {u} (double {t = t} h q) k = double (Spells-append h k) (rw q (append_assoc _ t u))

  pub Spells-constants : (s : Bytes) → Spells (constants s) [] s
  Spells-constants [] = stop
  Spells-constants (c ∷ s) = byte (Spells-constants s)

module _ (lib : FloatLib) (get_value : ℕ → Outcome Bytes) (e : LogtypeEntry) where
  decode_int :
      (v : ℤ) (vars : List ℤ) (n o b : ℕ) (s out : Bytes)
      → get_elem? e.var_positions n ≡ some o
      → byte_at e.value o ≡ non_double_byte
      → int_text lib get_value v ≡ ok s
      → decode_loop lib get_value e (v ∷ vars) n b out
        ≡ decode_loop lib get_value e vars (suc n) (suc o) ((out ++ substr e.value b (o - b)) ++ s)
  unfolding decode_loop get_var_info
  decode_int v vars n o b s out at placeholder text = ground (arith, add-one o)

  decode_double :
      (v : ℤ) (vars : List ℤ) (n o b i f : ℕ) (out : Bytes)
      → get_elem? e.var_positions n ≡ some o
      → byte_at e.value o ≡ double_byte
      → byte_at e.value (suc o) ≡ encode_precision_of_double_value i f
      → i + f ≤ 15
      → decode_loop lib get_value e (v ∷ vars) n b out
        ≡ decode_loop lib get_value e vars
            (suc n)
            (suc (suc o))
            ((out ++ substr e.value b (o - b)) ++ double_text lib i f v)
  unfolding decode_loop get_var_info
  decode_double v vars n o b i f out at placeholder precision fits = ground (
    arith,
    add-one o,
    add-two o,
    decode_precision-encode_precision i f (omega arith) (omega arith),
  )

  -- The text behind the last variable.
  decode_rest :
      (n b : ℕ) (out : Bytes) → decode_loop lib get_value e [] n b out ≡ ok (out ++ drop b e.value)
  unfolding decode_loop
  decode_rest n b out = elim (Bool-cases (ltb b (length e.value))) [
    | inl inside ↦ rw (
      inside,
      take_all (length e.value - b) (drop b e.value) (omega (arith, length-drop b e.value)),
    )
    | inr past ↦ rw (past, drop_all b e.value (ltb_false→le b (length e.value) past), append-nil)
  ]

  -- The decoder, from a place in the logtype on, appends the text that is spelled from there on.
  decode_loop-Spells :
      (ps : List Part) (vs : List ℤ) (t : Bytes) (n b o : ℕ) (mid out : Bytes)
      → Fits ps
      → drop n e.var_positions ≡ positions_of o ps
      → o ≡ b + length mid
      → drop b e.value ≡ mid ++ text_of ps
      → Spells lib get_value ps vs t
      → decode_loop lib get_value e vs n b out ≡ ok (out ++ (mid ++ t))
  decode_loop-Spells _ _ _ n b o mid out fits pos h text stop = decode_rest n b out ∙ rw text
  decode_loop-Spells _ _ _ n b o mid out fits pos h text (byte {c} {ps} {vs} {t} k) =
      decode_loop-Spells ps vs t n b (suc o) (mid ++ c ∷ []) out fits.1 pos
        (omega (arith, length-append mid (c ∷ [])))
        (text ∙ sym (append_assoc mid (c ∷ []) (text_of ps))) k
      ∙ simp append_assoc
  decode_loop-Spells _ _ _ n b o mid out fits pos h text (int {v} {ps} {vs} {s} {t} {u} val k q) =
      let (at, rest) = get_elem?-drop e.var_positions n pos in
      let (here, after) =
        drop_cons e.value o (ap (λ (k : ℕ). drop k e.value) h ∙ drop_past e.value b mid text) in
      decode_int v vs n o b s out at here val
      ∙ rw (range_length b o mid h, text, take-append)
          (decode_loop-Spells ps vs t (suc n) (suc o) (suc o) [] ((out ++ mid) ++ s) fits.1 rest
              (omega arith) after k
            ∙ rw q (simp append_assoc))
  decode_loop-Spells _ _ _ n b o mid out fits pos h text
        (double {i} {f} {v} {ps} {vs} {t} {u} k q) =
      let (at, rest) = get_elem?-drop e.var_positions n pos in
      let (here, after) =
        drop_cons e.value o (ap (λ (k : ℕ). drop k e.value) h ∙ drop_past e.value b mid text) in
      let (precision, beyond) = drop_cons e.value (suc o) after in
      decode_double v vs n o b i f out at here precision fits.0
      ∙ rw (range_length b o mid h, text, take-append)
          (decode_loop-Spells ps vs t (suc n) (suc (suc o)) (suc (suc o)) []
              ((out ++ mid) ++ double_text lib i f v) fits.1 rest (omega arith) beyond k
            ∙ rw q (simp append_assoc))

  length-positions_of :
      (ps : List Part) (vs : List ℤ) (t : Bytes) (o : ℕ)
      → Spells lib get_value ps vs t
      → length (positions_of o ps) ≡ length vs
  length-positions_of _ _ _ o stop = refl
  length-positions_of _ _ _ o (byte {ps} {vs} {t} k) = length-positions_of ps vs t (suc o) k
  length-positions_of _ _ _ o (int {ps} {vs} {t} _ k _) =
      ap suc (length-positions_of ps vs t (suc o) k)
  length-positions_of _ _ _ o (double {ps} {vs} {t} k _) =
      ap suc (length-positions_of ps vs t (suc (suc o)) k)

-- The decoder appends to `out` the text that an entry's parts and the encoded variables spell.
pub decode_variables-Spells :
    (lib : FloatLib) (get_value : ℕ → Outcome Bytes) (e : LogtypeEntry) (ps : List Part)
    (vs : List ℤ) (t out : Bytes)
    → IsBuiltFrom ps e
    → Spells lib get_value ps vs t
    → decode_variables_into_message lib get_value e vs out ≡ ok (some (out ++ t))
unfolding decode_variables_into_message
decode_variables-Spells lib get_value e ps vs t out b k =
    let same = ap length b.positions ∙ length-positions_of lib get_value e ps vs t 0 k in
    rw
      (
        (==_iff (length e.var_positions) (length vs)).1 same,
        decode_loop-Spells lib get_value e ps vs t 0 0 0 [] out b.fits b.positions (omega arith)
            b.text k,
      )
      refl
