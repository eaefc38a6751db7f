-- ===== src/Logtype/Parts.antt =====
-- What a logtype means: a sequence of constant bytes and placeholders. The entries that the
-- operations build are those whose text and positions come from such a sequence.
use clp_core.Base.{
  ℕ, suc, ◌+◌, ◌≤◌, Bytes, List, [], ◌∷◌, ◌++◌, length, substr, append_assoc, append-nil, ok, ◌≡◌,
  refl, ap, sym, ◌∙◌, arith,
}
use clp_core.Logtype.{
  LogtypeEntry, non_double_byte, double_byte, encode_precision_of_double_value,
  decode_precision_of_double_value, add_constant, add_non_double_var, add_double_var, clear,
  max_digits_in_representable_double_var,
}

pub data Part : Type 0 where
  constant : ℕ → Part
  int_var : Part
  double_var : ℕ → ℕ → Part

abbrev pub text_of_part : Part → Bytes
text_of_part (constant c) = c ∷ []
text_of_part int_var = non_double_byte ∷ []
text_of_part (double_var i f) = double_byte ∷ encode_precision_of_double_value i f ∷ []

abbrev pub text_of : List Part → Bytes
text_of [] = []
text_of (p ∷ ps) = text_of_part p ++ text_of ps

-- The positions of the placeholders, for a text that begins at `o`.
abbrev pub positions_of : ℕ → List Part → List ℕ
positions_of o [] = []
positions_of o (constant c ∷ ps) = positions_of (suc o) ps
positions_of o (int_var ∷ ps) = o ∷ positions_of (suc o) ps
positions_of o (double_var i f ∷ ps) = o ∷ positions_of (suc (suc o)) ps

-- Digits that the precision byte can hold, and that a double can represent.
abbrev pub FitsPart : Part → Type 0
FitsPart (double_var i f) = i + f ≤ max_digits_in_representable_double_var
FitsPart _ = Unit

abbrev pub Fits : List Part → Type 0
Fits [] = Unit
Fits (p ∷ ps) = FitsPart p × Fits ps

abbrev pub constants : Bytes → List Part
constants [] = []
constants (c ∷ s) = constant c ∷ constants s

-- The entry's text and positions are those of the parts.
pub record IsBuiltFrom (ps : List Part) (e : LogtypeEntry) : Type 0 where
  pub text : e.value ≡ text_of ps
  pub positions : e.var_positions ≡ positions_of 0 ps
  pub fits : Fits ps

-- An entry that the operations may have built.
abbrev pub IsBuilt : LogtypeEntry → Type 0
IsBuilt e = (ps : List Part) × IsBuiltFrom ps e

pub text_of-append : (ps qs : List Part) → text_of (ps ++ qs) ≡ text_of ps ++ text_of qs
text_of-append [] qs = refl
text_of-append (p ∷ ps) qs = simp (text_of-append ps qs, append_assoc)

pub Fits-append : (ps qs : List Part) → Fits ps → Fits qs → Fits (ps ++ qs)
Fits-append [] qs h k = k
Fits-append (p ∷ ps) qs h k = (h.0, Fits-append ps qs h.1 k)

shift_one : (o n : ℕ) → suc o + n ≡ o + suc n
shift_one o n = omega arith

shift_two : (o n : ℕ) → suc (suc o) + n ≡ o + suc (suc n)
shift_two o n = omega arith

pub positions_of-append :
    (o : ℕ) (ps qs : List Part)
    → positions_of o (ps ++ qs) ≡ positions_of o ps ++ positions_of (o + length (text_of ps)) qs
positions_of-append o [] qs = ap (λ n. positions_of n qs) (omega arith)
positions_of-append o (constant c ∷ ps) qs = rw (positions_of-append (suc o) ps qs, shift_one) refl
positions_of-append o (int_var ∷ ps) qs = rw (positions_of-append (suc o) ps qs, shift_one) refl
positions_of-append o (double_var i f ∷ ps) qs =
    rw (positions_of-append (suc (suc o)) ps qs, shift_two) refl

pub text_of-constants : (s : Bytes) → text_of (constants s) ≡ s
text_of-constants [] = refl
text_of-constants (c ∷ s) = ap (◌∷◌ c) (text_of-constants s)

pub positions_of-constants : (o : ℕ) (s : Bytes) → positions_of o (constants s) ≡ []
positions_of-constants o [] = refl
positions_of-constants o (c ∷ s) = positions_of-constants (suc o) s

pub Fits-constants : (s : Bytes) → Fits (constants s)
Fits-constants [] = tt
Fits-constants (c ∷ s) = (tt, Fits-constants s)

-- Parts put behind an entry, text and positions alike.
pub append-IsBuiltFrom :
    (ps qs : List Part) (e e' : LogtypeEntry)
    → IsBuiltFrom ps e
    → e'.value ≡ e.value ++ text_of qs
    → e'.var_positions ≡ e.var_positions ++ positions_of (length e.value) qs
    → Fits qs
    → IsBuiltFrom (ps ++ qs) e'
append-IsBuiltFrom ps qs e e' b v p f = record {
  text = rw (text_of-append ps qs, ← b.text) v;
  positions =
      p
      ∙ ap (λ l. l ++ positions_of (length e.value) qs) b.positions
      ∙ ap (λ (v : Bytes). positions_of 0 ps ++ positions_of (length v) qs) b.text
      ∙ sym (
          positions_of-append 0 ps qs
          ∙ ap (λ (n : ℕ). positions_of 0 ps ++ positions_of n qs) (omega arith));
  fits = Fits-append ps qs b.fits f;
}

pub clear-IsBuiltFrom : (e : LogtypeEntry) → IsBuiltFrom [] (clear e)
unfolding clear
clear-IsBuiltFrom e = record { text = refl; positions = refl; fits = tt }

module _ (ps : List Part) (e : LogtypeEntry) (b : IsBuiltFrom ps e) where
  pub add_constant-IsBuiltFrom :
      (s : Bytes) (pos n : ℕ)
      → IsBuiltFrom (ps ++ constants (substr s pos n)) (add_constant e s pos n)
  unfolding add_constant
  add_constant-IsBuiltFrom s pos n =
      append-IsBuiltFrom ps (constants (substr s pos n)) e _ b
        (rw (text_of-constants (substr s pos n)))
        (rw (positions_of-constants (length e.value) (substr s pos n), append-nil))
        (Fits-constants (substr s pos n))

  pub add_non_double_var-IsBuiltFrom : IsBuiltFrom (ps ++ int_var ∷ []) (add_non_double_var e)
  unfolding add_non_double_var
  add_non_double_var-IsBuiltFrom = append-IsBuiltFrom ps (int_var ∷ []) e _ b refl refl (tt, tt)

  pub add_double_var-IsBuiltFrom :
      (i f : ℕ)
      → i + f ≤ max_digits_in_representable_double_var
      → (e' : LogtypeEntry) × (add_double_var i f e ≡ ok e')
        × IsBuiltFrom (ps ++ double_var i f ∷ []) e'
  unfolding add_double_var
  add_double_var-IsBuiltFrom i f h = (
    record e {
      value = e.value ++ text_of (double_var i f ∷ []);
      var_positions = e.var_positions ++ length e.value ∷ [];
    },
    ground arith,
    append-IsBuiltFrom ps (double_var i f ∷ []) e _ b refl refl (h, tt),
  )

-- A precision byte holds the two numbers of digits, where each fits four bits.
pub decode_precision-encode_precision :
    (i f : ℕ)
    → i ≤ 15
    → f ≤ 15
    → decode_precision_of_double_value (encode_precision_of_double_value i f) ≡ (i, f)
unfolding encode_precision_of_double_value decode_precision_of_double_value
decode_precision-encode_precision i f h k = ground arith
