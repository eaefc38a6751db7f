-- ===== src/Timestamps/Digits.antt =====
-- Numbers padded to a width: `append_padded_value` writes them, and `convert_string_to_number` reads
-- them back.
use clp_core.Base.{
  le→ltb_false, Bool-cases, inl, inr, ℕ, zero, suc, ◌+◌, ◌-◌, ◌*◌, ◌/◌, ◌%◌, ◌^◌, ◌≤◌, ◌<◌, ◌==◌,
  ltb, Bytes, [], ◌∷◌, ◌++◌, append_assoc, append-nil, length, length-append, length-drop,
  replicate, take, drop, slice, take-append, some, ◌≡◌, refl, sym, ap, ◌∙◌, arith,
}
use clp_core.Base.Int.{pos}
use mathlib.Core.Path.{subst}
use clp_core.Decimal.{print_digits, nat_to_string, to_string}
use clp_core.Decimal.RoundTrip.{AllDigits, number}
use clp_core.Timestamps.{
  skip_padding, digits_value, convert_string_to_number, inserted, append_padded_value,
}
use clp_core.Timestamps.Parsing.{read_padded}

number-append : (acc : ℕ) (s t : Bytes) → number acc (s ++ t) ≡ number (number acc s) t
number-append acc [] t = refl
number-append acc (c ∷ s) t = number-append (acc * 10 + (c - b'0')) s t

AllDigits-append : (s t : Bytes) → AllDigits s → AllDigits t → AllDigits (s ++ t)
AllDigits-append [] t h k = k
AllDigits-append (c ∷ s) t (lo, hi, h) k = (lo, hi, AllDigits-append s t h k)

-- Digits that stand for `n`, and that are few when `n` is small.
record Numeral (n : ℕ) (ds : Bytes) : Type 0 where
  digits : AllDigits ds
  value : number 0 ds ≡ n
  width : (k : ℕ) → 0 < k → n < 10 ^ k → length ds ≤ k

div_lt : (n k : ℕ) → n < 10 ^ suc k → n / 10 < 10 ^ k
div_lt n k h = omega arith

no_width : (n : ℕ) → 10 ≤ n → n < 10 ^ 1 → ⊥
no_width n h k = omega arith

one_digit : (n : ℕ) → n < 10 → Numeral n ((b'0' + n) ∷ [])
one_digit n h = record {
  digits = (omega arith, omega arith, tt);
  value = omega arith;
  width = λ k p q. omega arith;
}

more_digits-width :
    (n : ℕ) (ds : Bytes)
    → 10 ≤ n
    → Numeral (n / 10) ds
    → (k : ℕ) → 0 < k
    → n < 10 ^ k
    → length (ds ++ (b'0' + n % 10) ∷ []) ≤ k
more_digits-width n ds h num zero p q = absurd (omega arith)
more_digits-width n ds h num (suc zero) p q = absurd (no_width n h q)
more_digits-width n ds h num (suc (suc k)) p q = omega (
  arith,
  length-append ds ((b'0' + n % 10) ∷ []),
  num.width (suc k) (omega arith) (div_lt n (suc k) q),
)

more_digits :
    (n : ℕ) (ds : Bytes) → 10 ≤ n → Numeral (n / 10) ds → Numeral n (ds ++ (b'0' + n % 10) ∷ [])
more_digits n ds h num = record {
  digits = AllDigits-append ds ((b'0' + n % 10) ∷ []) num.digits (omega arith, omega arith, tt);
  value = number-append 0 ds ((b'0' + n % 10) ∷ []) ∙ omega (arith, num.value);
  width = more_digits-width n ds h num;
}

print_digits-Numeral :
    (fuel n : ℕ) (out : Bytes)
    → n < fuel
    → (ds : Bytes) × (print_digits fuel n out ≡ ds ++ out) × Numeral n ds
unfolding print_digits
print_digits-Numeral zero n out h = absurd (omega arith)
print_digits-Numeral (suc fuel) n out h = elim (Bool-cases (ltb n 10)) [
  | inl e ↦ ((b'0' + n) ∷ [], ground arith, one_digit n (ground arith))
  | inr e ↦
      let (ds, printed, num) =
        print_digits-Numeral fuel (n / 10) ((b'0' + n % 10) ∷ out) (ground arith) in
      (
        ds ++ (b'0' + n % 10) ∷ [],
        (rw (print_digits, e, printed) (sym (append_assoc ds ((b'0' + n % 10) ∷ []) out))),
        more_digits n ds (ground arith) num,
      )
]

skip_padding-replicate :
    (padding k : ℕ) (s : Bytes)
    → skip_padding padding (replicate k padding ++ s) ≡ skip_padding padding s
unfolding skip_padding
skip_padding-replicate padding zero s = refl
skip_padding-replicate padding (suc k) s = ground (arith, skip_padding-replicate padding k s)

digits_value-number : (s : Bytes) (acc : ℕ) → AllDigits s → digits_value s acc ≡ some (number acc s)
unfolding digits_value
digits_value-number [] acc h = refl
digits_value-number (c ∷ s) acc (lo, hi, h) =
    ground (arith, digits_value-number s (acc * 10 + (c - b'0')) h)

-- Neither padding hides a digit that counts.
skip_padding-zeros :
    (s : Bytes) → AllDigits s → digits_value (skip_padding b'0' s) 0 ≡ some (number 0 s)
unfolding skip_padding
skip_padding-zeros [] h = digits_value-number [] 0 h
skip_padding-zeros (c ∷ s) (lo, hi, h) = elim (Bool-cases (b'0' == c)) [
  | inl e ↦
      (rw (skip_padding, e) (skip_padding-zeros s h ∙ ap (λ a. some (number a s)) (ground arith)))
  | inr e ↦ (rw (skip_padding, e) (digits_value-number (c ∷ s) 0 (lo, hi, h)))
]

skip_padding-digits : (s : Bytes) → AllDigits s → skip_padding b' ' s ≡ s
unfolding skip_padding
skip_padding-digits [] h = refl
skip_padding-digits (c ∷ s) (lo, hi, h) = elim (Bool-cases (b' ' == c)) [
  | inl e ↦ absurd (ground arith)
  | inr e ↦ (rw (skip_padding, e) refl)
]

nat_to_string-Numeral : (n : ℕ) → Numeral n (nat_to_string n)
unfolding nat_to_string
nat_to_string-Numeral n =
    let (ds, printed, num) = print_digits-Numeral (suc n) n [] (omega arith) in
    subst (Numeral n) (sym (printed ∙ append-nil ds)) num

-- The padding characters of the formats.
pub data Padding : ℕ → Type 0 where
  zeros : Padding b'0'
  spaces : Padding b' '

digits_value-padded :
    (padding n k : ℕ)
    → Padding padding
    → digits_value (skip_padding padding (replicate k padding ++ nat_to_string n)) 0 ≡ some n
digits_value-padded _ n k Padding.zeros =
    let num = nat_to_string-Numeral n in
    rw (skip_padding-replicate b'0' k (nat_to_string n))
      (skip_padding-zeros (nat_to_string n) num.digits ∙ ap some num.value)
digits_value-padded _ n k Padding.spaces =
    let num = nat_to_string-Numeral n in
    rw
      (
        skip_padding-replicate b' ' k (nat_to_string n),
        skip_padding-digits (nat_to_string n) num.digits,
      )
      (digits_value-number (nat_to_string n) 0 num.digits ∙ ap some num.value)

-- A number at the end of `len` bytes, the others of which are padding.
abbrev pub padded : ℕ → ℕ → ℕ → Bytes
padded padding len n = replicate (len - length (nat_to_string n)) padding ++ nat_to_string n

length-replicate : (k a : ℕ) → length (replicate k a) ≡ k
length-replicate zero a = refl
length-replicate (suc k) a = ap suc (length-replicate k a)

pub length-padded :
    (padding len n : ℕ) → 0 < len → n < 10 ^ len → length (padded padding len n) ≡ len
length-padded padding len n p h = omega (
  arith,
  length-append (replicate (len - length (nat_to_string n)) padding) (nat_to_string n),
  length-replicate (len - length (nat_to_string n)) padding,
  Numeral.width (nat_to_string-Numeral n) len p h,
)

-- A number that fits the width is appended with its padding.
pub append_padded_value-fits :
    (n padding len : ℕ) (str : Bytes)
    → 0 < len
    → n < 10 ^ len
    → append_padded_value (pos n) padding len str ≡ inserted (str ++ padded padding len n)
unfolding append_padded_value to_string
append_padded_value-fits n padding len str p h =
    let fits = Numeral.width (nat_to_string-Numeral n) len p h in
    rw (le→ltb_false len (length (nat_to_string n)) fits)
      (ap inserted (append_assoc str _ (nat_to_string n)))

slice-padded :
    (line rest : Bytes) (ix padding len n : ℕ)
    → 0 < len
    → n < 10 ^ len
    → drop ix line ≡ padded padding len n ++ rest
    → slice line ix (ix + len) ≡ padded padding len n
slice-padded line rest ix padding len n p h at =
    ap (λ k. take k (drop ix line)) (omega (arith, length-padded padding len n p h))
    ∙ ap (take (length (padded padding len n))) at
    ∙ take-append (padded padding len n) rest

-- Where it stands in a line, it is read back.
pub read_padded-padded :
    (line rest : Bytes) (ix padding len n lowest highest : ℕ)
    → Padding padding
    → 0 < len
    → n < 10 ^ len
    → lowest ≤ n
    → n ≤ highest
    → drop ix line ≡ padded padding len n ++ rest
    → read_padded line ix len padding lowest highest ≡ some n
unfolding read_padded convert_string_to_number
read_padded-padded line rest ix padding len n lowest highest pad p h lo hi at =
    let long : ix + len ≤ length line = omega (
      arith,
      length-drop ix line,
      ap length at,
      length-append (padded padding len n) rest,
      length-padded padding len n p h,
    ) in
    rw
      (
        le→ltb_false (length line) (ix + len) long,
        slice-padded line rest ix padding len n p h at,
        digits_value-padded padding n (len - length (nat_to_string n)) pad,
      )
      (ground arith)
