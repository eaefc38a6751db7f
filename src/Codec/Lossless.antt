-- ===== src/Codec/Lossless.antt =====
-- A message that is encoded and decoded again comes back byte for byte.
use mathlib.Core.Path.{subst}
use clp_core.Base.{
  ℕ, zero, suc, ◌+◌, ◌-◌, ◌≤◌, ◌<◌, ltb, Bytes, List, [], ◌∷◌, ◌++◌, length, drop, take, byte_at,
  substr, slice, length-drop, length-take, take_all, byte_at-drop, byte_at-take, take-append-substr,
  append-nil, some, ◌≡◌, ◌≢◌, ap, ◌∙◌, arith, Bool-cases, inl, inr, Outcome, ok, >>=-eq-ok,
  ok-injective, no_fuel-ne-ok, npos, ltb_false→le,
}
use clp_core.Base.Int.{ℤ}
use clp_core.Chars.{is_valid_variable_begin, is_valid_variable_end}
use clp_core.Tokens.{Cursor}
use clp_core.Tokens.Bounds.{InOrder, IsVariable}
use clp_core.Logtype.{LogtypeEntry, clear, add_constant}
use clp_core.Logtype.Parts.{
  Part, constants, IsBuiltFrom, clear-IsBuiltFrom, add_constant-IsBuiltFrom,
}
use clp_core.Logtype.NextVar.{Parsing, take_var, take_rest}
use clp_core.Dictionary.Variable.{VarDictWriter}
use clp_core.Dictionary.Lookup.{IsConsistent, Extends}
use clp_core.Variables.Floats.{FloatLib, KeepsFifteenDigits}
use clp_core.Variables.Integer.{FitsBelow}
use clp_core.Variables.Double.{Survives}
use clp_core.Codec.{
  EncodedVar, Encoded, encode_var, encode_loop, encode_and_add_to_dictionary,
  decode_variables_into_message,
}
use clp_core.Codec.Spelling.{Spells, stop, Spells-append, Spells-constants, decode_variables-Spells}
use clp_core.Codec.Steps.{taken, ended, parse_next_var-Step}
use clp_core.Codec.Encoding.{Readable, Readable-Extends, encode_var-Encodes}

-- No piece of the message that may be a variable begins with "-.", or is a minus and digits that
-- stand for a number below the least `int64_t`: of such the encoder loses the text.
pub record IsSafe (msg : Bytes) : Type 0 where
  pub no_bare_point :
      (c : Cursor) (t : Bytes)
      → InOrder msg 0 c
      → IsVariable msg c
      → slice msg c.begin_pos c.end_pos ≢ b'-' ∷ b'.' ∷ t
  pub fits :
      (c : Cursor)
      → InOrder msg 0 c
      → IsVariable msg c
      → FitsBelow (slice msg c.begin_pos c.end_pos)

pub byte_at-slice :
    (s : Bytes) (b e j : ℕ) → b + j < e → byte_at (slice s b e) j ≡ byte_at s (b + j)
byte_at-slice s b e j h = byte_at-take (drop b s) (e - b) j (omega arith) ∙ byte_at-drop s b j

length-slice : (s : Bytes) (b e : ℕ) → b ≤ e → e ≤ length s → length (slice s b e) ≡ e - b
length-slice s b e h k = omega (arith, length-take (e - b) (drop b s), length-drop b s)

plus_zero : (n : ℕ) → n + 0 ≡ n
plus_zero n = omega arith

module _ (msg : Bytes) (safe : IsSafe msg) where
  slice-Survives :
      (i : ℕ) (c : Cursor)
      → InOrder msg i c
      → IsVariable msg c
      → Survives (slice msg c.begin_pos c.end_pos)
  slice-Survives i c o v =
      let len = length-slice msg c.begin_pos c.end_pos (omega arith) (omega arith) in
      let o' : InOrder msg 0 c = record {
        after = omega arith;
        nonempty = o.nonempty;
        trimmed = o.trimmed;
        inside = o.inside;
      } in
      record {
        begins =
            ap is_valid_variable_begin (
              byte_at-slice msg c.begin_pos c.end_pos 0 (omega arith)
              ∙ ap (byte_at msg) (plus_zero c.begin_pos))
            ∙ v.begins;
        ends = elim v.ends [
          | inl one ↦ inl (omega (arith, len))
          | inr last ↦ inr (
              ap is_valid_variable_end (
                ap (byte_at (slice msg c.begin_pos c.end_pos)) (ap (λ (n : ℕ). n - 1) len)
                ∙ byte_at-slice msg c.begin_pos c.end_pos (c.end_pos - c.begin_pos - 1)
                    (omega arith)
                ∙ ap (byte_at msg) (omega (arith, o.nonempty)))
              ∙ last)
        ];
        no_bare_point = λ t. safe.no_bare_point c t o' v;
        fits = safe.fits c o' v;
      }

module _ (lib : FloatLib) (laws : KeepsFifteenDigits lib) (msg : Bytes) (safe : IsSafe msg)
    (short : length msg < npos) where
  -- In front of a round: the parts and variables so far spell what lies in front of the position.
  record SoFar (qs : List Part) (p : Parsing) (w : VarDictWriter) (vars : List ℤ) : Type 0 where
    built : IsBuiltFrom qs p.entry
    consistent : IsConsistent w
    behind : p.last_var_end_pos ≤ p.next_delim_pos
    inside : p.next_delim_pos ≤ length msg
    spells :
        (get : ℕ → Outcome Bytes)
        → Readable w get
        → Spells lib get qs vars (take p.last_var_end_pos msg)

  -- At the end: they spell the message.
  record Done (w : VarDictWriter) (r : Encoded) : Type 0 where
    parts : List Part
    built : IsBuiltFrom parts r.entry
    consistent : IsConsistent r.writer
    extends : Extends w r.writer
    spells :
        (get : ℕ → Outcome Bytes) → Readable r.writer get → Spells lib get parts r.encoded_vars msg

  -- The constant in front of a variable, or behind the last one.
  add_constant_SoFar :
      (qs : List Part) (p : Parsing) (w : VarDictWriter) (vars : List ℤ) (to : ℕ)
      (get : ℕ → Outcome Bytes)
      → SoFar qs p w vars
      → p.last_var_end_pos ≤ to
      → Readable w get
      → Spells lib get
          (qs ++ constants (substr msg p.last_var_end_pos (to - p.last_var_end_pos)))
          vars
          (take to msg)
  add_constant_SoFar qs p w vars to get s h r =
      let gap = substr msg p.last_var_end_pos (to - p.last_var_end_pos) in
      let parts = qs ++ constants gap in
      subst (λ t. Spells lib get parts vars t) (take-append-substr p.last_var_end_pos to msg h)
        (subst (λ us. Spells lib get parts us (take p.last_var_end_pos msg ++ gap))
          (append-nil vars) (Spells-append lib get (s.spells get r) (Spells-constants lib get gap)))

  next_SoFar :
      (qs : List Part) (p : Parsing) (w : VarDictWriter) (vars : List ℤ) (c : Cursor)
      (r : EncodedVar)
      → SoFar qs p w vars
      → InOrder msg p.next_delim_pos c
      → IsVariable msg c
      → encode_var lib (take_var msg p c).var (take_var msg p c).entry w ≡ ok r
      → (qs' : List Part) × SoFar qs'
          (record (take_var msg p c) { entry = r.entry })
          r.writer
          (vars ++ r.encoded ∷ [])
        × Extends w r.writer
  unfolding take_var
  next_SoFar qs p w vars c r s o v h =
      let gap = substr msg p.last_var_end_pos (c.begin_pos - p.last_var_end_pos) in
      let middle = qs ++ constants gap in
      let e =
        encode_var-Encodes lib laws (slice msg c.begin_pos c.end_pos) middle
          (add_constant p.entry msg p.last_var_end_pos (c.begin_pos - p.last_var_end_pos)) w
          s.consistent
          (add_constant-IsBuiltFrom qs p.entry s.built msg p.last_var_end_pos
            (c.begin_pos - p.last_var_end_pos))
          r (slice-Survives msg safe p.next_delim_pos c o v) h in
      (
        middle ++ e.part ∷ [],
        record {
          built = e.built;
          consistent = e.consistent;
          behind = o.trimmed;
          inside = o.inside;
          spells = λ get rd.
              subst (λ t. Spells lib get (middle ++ e.part ∷ []) (vars ++ r.encoded ∷ []) t)
                (take-append-substr c.begin_pos c.end_pos msg (omega arith))
                (Spells-append lib get
                  (add_constant_SoFar qs p w vars c.begin_pos get s (omega arith)
                    (Readable-Extends w r.writer get e.extends rd))
                  (e.spells get rd));
        },
        e.extends,
      )

  last_Done :
      (qs : List Part) (p : Parsing) (w : VarDictWriter) (vars : List ℤ) (c : Cursor)
      → SoFar qs p w vars
      → Done w (record { entry = (take_rest msg p c).entry; writer = w; encoded_vars = vars })
  unfolding take_rest
  last_Done qs p w vars c s = elim (Bool-cases (ltb p.last_var_end_pos (length msg))) [
    | inl more ↦ record {
      parts = qs ++ constants (substr msg p.last_var_end_pos (length msg - p.last_var_end_pos));
      built = rw more (
          add_constant-IsBuiltFrom qs p.entry s.built msg p.last_var_end_pos
            (length msg - p.last_var_end_pos));
      consistent = s.consistent;
      extends = λ i e at. at;
      spells = λ get rd.
          subst
            (λ t.
              Spells lib get
                (qs ++ constants (substr msg p.last_var_end_pos (length msg - p.last_var_end_pos)))
                vars t)
            (take_all (length msg) msg (omega arith))
            (add_constant_SoFar qs p w vars (length msg) get s (ground arith) rd);
    }
    | inr none_left ↦ record {
      parts = qs;
      built = rw none_left s.built;
      consistent = s.consistent;
      extends = λ i e at. at;
      spells = λ get rd.
          subst (λ t. Spells lib get qs vars t)
            (take_all p.last_var_end_pos msg (ltb_false→le _ _ none_left)) (s.spells get rd);
    }
  ]

  -- A search either finds a variable and puts what lies in front of it into the logtype, or puts
  -- the rest of the message there.
  encode_loop-Done :
      (fuel : ℕ) (qs : List Part) (p : Parsing) (w : VarDictWriter) (vars : List ℤ) (r : Encoded)
      → SoFar qs p w vars
      → encode_loop lib fuel msg p w vars ≡ ok r
      → Done w r
  unfolding encode_loop
  encode_loop-Done zero qs p w vars r s h = absurd (no_fuel-ne-ok h)
  encode_loop-Done (suc fuel) qs p w vars r s h = elim (parse_next_var-Step msg short p) [
    | ended c none_left ↦
        subst (Done w) (ok-injective (rw none_left at h)) (last_Done qs p w vars c s)
    | taken c found o v ↦
        let (e, encoded, rest) = >>=-eq-ok _ _ (rw found at h) in
        let (qs', s', ext) = next_SoFar qs p w vars c e s o v encoded in
        let d = encode_loop-Done fuel qs' _ e.writer _ r s' rest in
        record {
          parts = d.parts;
          built = d.built;
          consistent = d.consistent;
          extends = λ i x at. d.extends i x (ext i x at);
          spells = d.spells;
        }
  ]

  start_SoFar :
      (entry : LogtypeEntry) (w : VarDictWriter)
      → IsConsistent w
      → SoFar []
          (record {
            entry = clear entry;
            var_begin_pos = 0;
            next_delim_pos = 0;
            last_var_end_pos = 0;
            var = [];
          })
          w
          []
  start_SoFar entry w c = record {
    built = clear-IsBuiltFrom entry;
    consistent = c;
    behind = omega arith;
    inside = omega arith;
    spells = λ get _. stop;
  }

  -- The decoder appends to `out` the very message that was encoded, where `get` reads the dictionary
  -- that the encoder leaves. The message is shorter than `npos` and every part of it with the shape of a
  -- variable survives (`IsSafe`), the dictionary was consistent, and the library keeps fifteen digits.
  pub decode_variables-encode :
      (entry : LogtypeEntry) (w : VarDictWriter) (r : Encoded) (get : ℕ → Outcome Bytes)
      (out : Bytes)
      → IsConsistent w
      → encode_and_add_to_dictionary lib msg entry w [] ≡ ok r
      → Readable r.writer get
      → decode_variables_into_message lib get r.entry r.encoded_vars out ≡ ok (some (out ++ msg))
  unfolding encode_and_add_to_dictionary
  decode_variables-encode entry w r get out c h rd =
      let d = encode_loop-Done (suc (length msg)) [] _ w [] r (start_SoFar entry w c) h in
      decode_variables-Spells lib get r.entry d.parts r.encoded_vars msg out d.built
        (d.spells get rd)

  -- The encoder leaves a consistent dictionary.
  pub encode-IsConsistent :
      (entry : LogtypeEntry) (w : VarDictWriter) (r : Encoded)
      → IsConsistent w
      → encode_and_add_to_dictionary lib msg entry w [] ≡ ok r
      → IsConsistent r.writer
  unfolding encode_and_add_to_dictionary
  encode-IsConsistent entry w r c h =
      (encode_loop-Done (suc (length msg)) [] _ w [] r (start_SoFar entry w c) h).consistent
