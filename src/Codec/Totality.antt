-- ===== src/Codec/Totality.antt =====
-- The encoder returns: its loop ends in the rounds it is given, and only a full dictionary makes it
-- throw.
use clp_core.Base.{
  le→ltb_false, ℕ, zero, suc, ◌+◌, ◌-◌, ◌≤◌, ◌<◌, Bytes, List, [], ◌∷◌, ◌++◌, length, npos, none,
  some, ◌≡◌, refl, ap, arith, Bool-cases, Option-cases, inl, inr, ok,
}
use clp_core.Base.Int.{ℤ}
use clp_core.Logtype.{
  double_byte, encode_precision_of_double_value, LogtypeEntry, add_non_double_var, add_double_var,
}
use clp_core.Logtype.NextVar.{Parsing, take_var, take_rest}
use clp_core.Dictionary.{find_value}
use clp_core.Dictionary.Variable.{VarDictWriter, Added, add_occurrence, insert_entry}
use clp_core.Dictionary.Lookup.{add_occurrence_cases}
use clp_core.Variables.{
  DoubleVar, convert_string_to_representable_integer_var, convert_digits, find_decimal_point,
  convert_string_to_representable_double_var, convert_string_to_double, encode_var_dict_id,
  all_digits_from,
}
use clp_core.Variables.Floats.{FloatLib}
use clp_core.Variables.Double.{find_decimal_point_lem}
use clp_core.Codec.{
  EncodedVar, Encoded, encode_dict_var, encode_var, encode_loop, encode_and_add_to_dictionary,
}
use clp_core.Codec.Steps.{taken, ended, parse_next_var-Step}

none_ne_some {ℓ} : {A : Type ℓ} {a : A} → none ≡ some a → ⊥
none_ne_some h = cc

some_inj {ℓ} : {A : Type ℓ} {a b : A} → some a ≡ some b → a ≡ b
some_inj h = cc

point_few :
    (value : Bytes) (first point : ℕ)
    → first ≤ length value
    → length value ≤ 16 + first
    → find_decimal_point value first (length value - first) ≡ some point
    → (point - first) + (length value - (point + 1)) ≤ 15
point_few value first point inside short h =
    let (whole, _, at, before, _) =
      find_decimal_point_lem value first (length value - first) point (omega arith) h in
    omega arith

module _ (lib : FloatLib) where
  convert_digits_few :
      (value : Bytes) (first : ℕ) (d : DoubleVar)
      → first ≤ length value
      → length value ≤ 16 + first
      → convert_digits lib value first ≡ some d
      → d.num_integer_digits + d.num_fractional_digits ≤ 15
  unfolding convert_digits
  convert_digits_few value first d inside short h =
      elim (Option-cases (find_decimal_point value first (length value - first))) [
        | inl no_point ↦ absurd (none_ne_some (rw (no_point, convert_digits) at h))
        | inr (point, found) ↦
            let few = point_few value first point inside short found in
            elim (Bool-cases (all_digits_from value (point + 1) (length value - (point + 1)))) [
              | inr other ↦ absurd (none_ne_some (rw (found, other, convert_digits) at h))
              | inl digits ↦ elim (Option-cases (convert_string_to_double lib value)) [
                | inl no_bits ↦
                    absurd (none_ne_some (rw (found, digits, no_bits, convert_digits) at h))
                | inr (bits, fits) ↦
                    let same = some_inj (rw (found, digits, fits, convert_digits) at h) in
                    ground (
                      arith,
                      few,
                      ap (λ (x : DoubleVar). x.num_integer_digits) same,
                      ap (λ (x : DoubleVar). x.num_fractional_digits) same,
                    )
              ]
            ]
      ]

  -- A representable double has 15 digits at most, whatever its text.
  convert_double_few :
      (value : Bytes) (d : DoubleVar)
      → convert_string_to_representable_double_var lib value ≡ some d
      → d.num_integer_digits + d.num_fractional_digits ≤ 15
  unfolding convert_string_to_representable_double_var
  convert_double_few value d h =
      ground (arith, convert_digits_few value 0 d, convert_digits_few value 1 d)

  -- A variable is encoded where the dictionary has room for an entry, and takes one at most.
  record Takes (var : Bytes) (entry : LogtypeEntry) (w : VarDictWriter) : Type 0 where
    result : EncodedVar
    encodes : encode_var lib var entry w ≡ ok result
    next : result.writer.next_id ≤ w.next_id + 1
    same_max : result.writer.max_id ≡ w.max_id

  record Adds (w : VarDictWriter) (v : Bytes) : Type 0 where
    result : Added
    adds : add_occurrence w v ≡ ok result
    next : result.writer.next_id ≤ w.next_id + 1
    same_max : result.writer.max_id ≡ w.max_id

  add_occurrence-Adds : (w : VarDictWriter) (v : Bytes) → w.next_id ≤ w.max_id → Adds w v
  unfolding insert_entry
  add_occurrence-Adds w v room =
      let (old, new, _) = add_occurrence_cases w v in
      elim (Option-cases (find_value v w.value_to_entry)) [
        | inr (e, there) ↦ record {
          result = _;
          adds = old e there;
          next = omega arith;
          same_max = refl;
        }
        | inl fresh ↦ record {
          result = _;
          adds = new fresh room;
          next = omega arith;
          same_max = refl;
        }
      ]

  encode_var-Takes :
      (var : Bytes) (entry : LogtypeEntry) (w : VarDictWriter)
      → w.next_id ≤ w.max_id
      → Takes var entry w
  unfolding encode_var encode_dict_var add_double_var
  encode_var-Takes var entry w room =
      elim (Option-cases (convert_string_to_representable_integer_var var)) [
        | inr (n, is_int) ↦ record {
          result = record { entry = add_non_double_var entry; writer = w; encoded = n };
          encodes = rw (encode_var, is_int) refl;
          next = omega arith;
          same_max = refl;
        }
        | inl no_int ↦ elim (Option-cases (convert_string_to_representable_double_var lib var)) [
          | inr (d, is_double) ↦
              let few = convert_double_few var d is_double in
              record {
                result = record {
                  entry = record entry {
                    value =
                        entry.value
                        ++ double_byte
                          ∷ encode_precision_of_double_value d.num_integer_digits
                              d.num_fractional_digits
                          ∷ [];
                    var_positions = entry.var_positions ++ length entry.value ∷ [];
                  };
                  writer = w;
                  encoded = d.bits;
                };
                encodes =
                    rw
                      (
                        encode_var,
                        no_int,
                        is_double,
                        le→ltb_false 15 (d.num_integer_digits + d.num_fractional_digits) few,
                      )
                      refl;
                next = omega arith;
                same_max = refl;
              }
          | inl no_double ↦
              let a = add_occurrence-Adds w var room in
              record {
                result = record {
                  entry = add_non_double_var entry;
                  writer = a.result.writer;
                  encoded = encode_var_dict_id a.result.id;
                };
                encodes = rw (encode_var, no_int, no_double, a.adds) refl;
                next = a.next;
                same_max = a.same_max;
              }
        ]
      ]

  module _ (msg : Bytes) (short : length msg < npos) where
    -- The dictionary has an identifier for each byte that is left.
    encode_loop-returns :
        (fuel : ℕ) (p : Parsing) (w : VarDictWriter) (vars : List ℤ)
        → length msg < p.next_delim_pos + fuel
        → p.next_delim_pos ≤ length msg
        → w.next_id + length msg ≤ w.max_id + p.next_delim_pos
        → (r : Encoded) × (encode_loop lib fuel msg p w vars ≡ ok r)
    unfolding encode_loop take_var
    encode_loop-returns zero p w vars enough inside room = absurd (omega arith)
    encode_loop-returns (suc fuel) p w vars enough inside room =
        elim (parse_next_var-Step msg short p) [
          | ended c none_left ↦ (
            record { entry = (take_rest msg p c).entry; writer = w; encoded_vars = vars },
            rw none_left refl,
          )
          | taken c found o v ↦
              let p' = take_var msg p c in
              let t =
                encode_var-Takes p'.var p'.entry w
                  (omega (arith, o.after, o.nonempty, o.trimmed, o.inside)) in
              let e = t.result in
              let (r, done) =
                encode_loop-returns fuel (record p' { entry = e.entry }) e.writer
                  (vars ++ e.encoded ∷ []) (omega (arith, o.after, o.nonempty, o.trimmed, o.inside))
                  o.inside
                  (omega (arith, o.after, o.nonempty, o.trimmed, o.inside, t.next, t.same_max)) in
              (r, rw (found, t.encodes) done)
        ]

    -- The encoder returns on every message shorter than `npos` whose bytes are no more than the identifiers left in the
    -- dictionary.
    pub encode_and_add_to_dictionary-returns :
        (entry : LogtypeEntry) (w : VarDictWriter) (vars : List ℤ)
        → w.next_id + length msg ≤ w.max_id
        → (r : Encoded) × (encode_and_add_to_dictionary lib msg entry w vars ≡ ok r)
    unfolding encode_and_add_to_dictionary
    encode_and_add_to_dictionary-returns entry w vars room =
        encode_loop-returns (suc (length msg)) _ w vars (omega arith) (omega arith) (omega arith)
