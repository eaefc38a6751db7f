-- ===== src/Codec/Encoding.antt =====
-- What the encoder's loop keeps: the logtype built so far and the encoded variables spell the part of
-- the message that is behind it.
use mathlib.Core.Path.{subst}
use clp_core.Base.{
  ℕ, ◌<◌, true, false, Bytes, List, [], ◌∷◌, ◌++◌, append-nil, some, ◌≡◌, refl, ap, sym, ◌∙◌, arith,
  Option-cases, inl, inr, Outcome, ok, >>=-eq-ok, ok-injective,
}
use clp_core.Base.Int.{ℤ}
use clp_core.Decimal.{to_string}
use clp_core.Logtype.{LogtypeEntry, add_non_double_var, add_double_var}
use clp_core.Logtype.Parts.{
  Part, int_var, double_var, IsBuiltFrom, add_non_double_var-IsBuiltFrom,
  add_double_var-IsBuiltFrom,
}
use clp_core.Dictionary.Variable.{VarDictWriter, Added, add_occurrence}
use clp_core.Dictionary.Lookup.{IsConsistent, Extends, Resolves, add_occurrence_lem}
use clp_core.Variables.{
  is_var_dict_id, encode_var_dict_id, decode_var_dict_id, DoubleVar,
  convert_string_to_representable_integer_var, convert_string_to_representable_double_var,
}
use clp_core.Variables.Floats.{FloatLib, KeepsFifteenDigits}
use clp_core.Variables.Integer.{FitsBelow, to_string-convert}
use clp_core.Variables.Double.{Survives}
use clp_core.Codec.{EncodedVar, encode_var, int_text}
use clp_core.Codec.Spelling.{Spells, stop, int, double}
use clp_core.Codec.Doubles.{double_text-convert}

abbrev pub max_dict_vars : ℕ
max_dict_vars = 0x3FFF_FFFF_FFFF_FFFF

-- An identifier below 2^62 - 1 comes back from its encoding, which is told apart from a number.
pub decode_var_dict_id-encode :
    (id : ℕ)
    → id < max_dict_vars
    → (is_var_dict_id (encode_var_dict_id id) ≡ true)
      × (decode_var_dict_id (encode_var_dict_id id) ≡ id)
unfolding is_var_dict_id encode_var_dict_id decode_var_dict_id
decode_var_dict_id-encode id h = ground arith

-- The largest identifier that the writer of an archive may assign, 2^62 - 1, is encoded as a number
-- that the decoder does not take for a dictionary variable.
pub is_var_dict_id-max : is_var_dict_id (encode_var_dict_id max_dict_vars) ≡ false
unfolding is_var_dict_id encode_var_dict_id
is_var_dict_id-max = refl

-- `get` reads the entries of a dictionary, whose identifiers are in the range of the encoding.
abbrev pub Readable : VarDictWriter → (ℕ → Outcome Bytes) → Type 0
Readable w get = (id : ℕ) (v : Bytes) → Resolves w id v → (get id ≡ ok v) × (id < max_dict_vars)

pub Readable-Extends :
    (w w' : VarDictWriter) (get : ℕ → Outcome Bytes)
    → Extends w w'
    → Readable w' get
    → Readable w get
Readable-Extends w w' get ext r id v (e, at, val) = r id v (e, ext id e at, val)

Spells-one :
    (lib : FloatLib) (get : ℕ → Outcome Bytes) (v : ℤ) (s : Bytes)
    → int_text lib get v ≡ ok s
    → Spells lib get (int_var ∷ []) (v ∷ []) s
Spells-one lib get v s h = int h stop (sym (append-nil s))

int_text_number :
    (lib : FloatLib) (get : ℕ → Outcome Bytes) (v : ℤ) {s : Bytes}
    → to_string v ≡ s
    → is_var_dict_id v ≡ false
    → int_text lib get v ≡ ok s
unfolding int_text
int_text_number lib get v text not_dict = rw not_dict (ap ok text)

int_text_dict :
    (lib : FloatLib) (get : ℕ → Outcome Bytes) (id : ℕ) (s : Bytes)
    → (get id ≡ ok s) × (id < max_dict_vars)
    → int_text lib get (encode_var_dict_id id) ≡ ok s
unfolding int_text
int_text_dict lib get id s (found, small) =
    let (is_dict, back) = decode_var_dict_id-encode id small in rw (is_dict, back) found

-- One variable, encoded: it adds one part to the logtype, which spells it.
pub record Encodes (lib : FloatLib) (var : Bytes) (qs : List Part) (w : VarDictWriter)
    (r : EncodedVar) : Type 0 where
  pub part : Part
  pub built : IsBuiltFrom (qs ++ part ∷ []) r.entry
  pub consistent : IsConsistent r.writer
  pub extends : Extends w r.writer
  pub spells :
      (get : ℕ → Outcome Bytes)
      → Readable r.writer get
      → Spells lib get (part ∷ []) (r.encoded ∷ []) var

module _ (lib : FloatLib) (laws : KeepsFifteenDigits lib) where
  module _ (var : Bytes) (qs : List Part) (entry : LogtypeEntry) (w : VarDictWriter)
      (c : IsConsistent w) (b : IsBuiltFrom qs entry) where
    Encodes-int :
        (v : ℤ)
        → FitsBelow var
        → convert_string_to_representable_integer_var var ≡ some v
        → Encodes lib var qs w
            (record { entry = add_non_double_var entry; writer = w; encoded = v })
    Encodes-int v fits h =
        let (text, not_dict) = to_string-convert var v fits h in
        record {
          part = int_var;
          built = add_non_double_var-IsBuiltFrom qs entry b;
          consistent = c;
          extends = λ i e at. at;
          spells = λ get _. Spells-one lib get v var (int_text_number lib get v text not_dict);
        }

    Encodes-dict :
        (a : Added)
        → add_occurrence w var ≡ ok a
        → Encodes lib var qs w (record {
          entry = add_non_double_var entry;
          writer = a.writer;
          encoded = encode_var_dict_id a.id;
        })
    Encodes-dict a h =
        let (c', ext, there) = add_occurrence_lem w var c h in
        record {
          part = int_var;
          built = add_non_double_var-IsBuiltFrom qs entry b;
          consistent = c';
          extends = ext;
          spells = λ get r.
              Spells-one lib get (encode_var_dict_id a.id) var
                (int_text_dict lib get a.id var (r a.id var there));
        }

    Encodes-double :
        (d : DoubleVar) (e' : LogtypeEntry)
        → Survives var
        → convert_string_to_representable_double_var lib var ≡ some d
        → add_double_var d.num_integer_digits d.num_fractional_digits entry ≡ ok e'
        → Encodes lib var qs w (record { entry = e'; writer = w; encoded = d.bits })
    Encodes-double d e' v h added =
        let (text, few) = double_text-convert lib laws var d v h in
        let (e'', added', b') =
          add_double_var-IsBuiltFrom qs entry b d.num_integer_digits d.num_fractional_digits few in
        record {
          part = double_var d.num_integer_digits d.num_fractional_digits;
          built = subst (IsBuiltFrom _) (ok-injective (sym added' ∙ added)) b';
          consistent = c;
          extends = λ i e at. at;
          spells = λ get _. double stop (sym text ∙ sym (append-nil _));
        }

    -- Whatever `encode_var` makes of a variable spells it.
    pub encode_var-Encodes :
        (r : EncodedVar) → Survives var → encode_var lib var entry w ≡ ok r → Encodes lib var qs w r
    unfolding encode_var
    encode_var-Encodes r v h =
        elim (Option-cases (convert_string_to_representable_integer_var var)) [
          | inr (n, is_int) ↦
              subst (Encodes lib var qs w) (ok-injective (rw (is_int, encode_var) at h))
                (Encodes-int n v.fits is_int)
          | inl no_int ↦ elim (Option-cases (convert_string_to_representable_double_var lib var)) [
            | inr (d, is_double) ↦
                let (e', added, same) = >>=-eq-ok _ _ (rw (no_int, encode_var, is_double) at h) in
                subst (Encodes lib var qs w) (ok-injective same)
                  (Encodes-double d e' v is_double added)
            | inl no_double ↦
                let (a, added, same) = >>=-eq-ok _ _ (rw (no_int, encode_var, no_double) at h) in
                subst (Encodes lib var qs w) (ok-injective same) (Encodes-dict a added)
          ]
        ]
