-- ===== src/Variables/Integer.antt =====
-- Integer variables: what `convert_string_to_representable_integer_var` accepts is printed back as it
-- was, but for the negative numbers out of range, where it loses the text.
use clp_core.Base.{
  ℕ, zero, suc, ◌+◌, ◌-◌, ◌≤◌, ◌<◌, true, false, ◌&&◌, ◌==◌, Bytes, [], ◌∷◌, length, some, ◌≡◌,
  refl, ap, sym, ◌∙◌, arith, Bool-cases, Option-cases, inl, inr, ==_iff, ◌⊎◌, ◌≢◌,
}
use clp_core.Base.Int.{ℤ, pos, negsuc, eqb_ℤ}
use clp_core.Decimal.{
  Scan, scan_digits, strtoll, strtoll_from, strtoll_signed, negated, nat_to_string, to_string,
  int64_max,
}
use clp_core.Decimal.RoundTrip.{
  AllDigits, number, scan_digits_all, scan_digits-number, number-ge, nat_to_string-number,
  nat_to_string-zero,
}
use clp_core.Variables.{
  convert_string_to_int64, starts_as_integer, below_dict_range, is_var_dict_id,
  convert_string_to_representable_integer_var,
}

-- The number of a text of digits with a minus in front fits `int64_t`.
abbrev pub FitsBelow : Bytes → Type 0
FitsBelow value = (d : Bytes) → value ≡ b'-' ∷ d → AllDigits d → number 0 d ≤ int64_max + 1

strtoll_minus : (s : Bytes) → strtoll (b'-' ∷ s) ≡ strtoll_signed true (scan_digits s 0) 1
unfolding strtoll_from
strtoll_minus s = refl

strtoll_digit :
    (c : ℕ) (s : Bytes)
    → b'0' ≤ c
    → c ≤ b'9'
    → strtoll (c ∷ s) ≡ strtoll_signed false (scan_digits (c ∷ s) 0) 0
unfolding strtoll_from
strtoll_digit c s lo hi = ground arith

-- A conversion that succeeds has consumed the text, and has not met the upper bound.
convert_int64_inv :
    (c : ℕ) (s : Bytes) (v : ℤ)
    → convert_string_to_int64 (c ∷ s) ≡ some v
    → ((strtoll (c ∷ s)).consumed ≡ length (c ∷ s))
      × ((strtoll (c ∷ s)).result ≡ v)
      × ((eqb_ℤ (pos int64_max) (strtoll (c ∷ s)).result && (strtoll (c ∷ s)).range_error) ≡ false)
unfolding convert_string_to_int64
convert_int64_inv c s v h = ground arith

signed_negative :
    (d : Scan) (n : ℕ)
    → (strtoll_signed true d 1).consumed ≡ suc n
    → 0 < n
    → d.value ≤ int64_max + 1
    → (d.count ≡ n) × ((strtoll_signed true d 1).result ≡ negated d.value)
unfolding strtoll_signed
signed_negative d n h k le = ground arith

signed_positive :
    (d : Scan) (n : ℕ)
    → (strtoll_signed false d 0).consumed ≡ suc n
    → (eqb_ℤ (pos int64_max) (strtoll_signed false d 0).result
        && (strtoll_signed false d 0).range_error)
      ≡ false
    → (d.count ≡ suc n) × ((strtoll_signed false d 0).result ≡ pos d.value)
unfolding strtoll_signed
signed_positive d n h k = ground arith

zero_acc : (c : ℕ) (s : Bytes) → number 0 (c ∷ s) ≡ number (c - b'0') s
zero_acc c s = ap (λ n. number n s) (omega arith)

to_string-negated : (n : ℕ) → 0 < n → to_string (negated n) ≡ b'-' ∷ nat_to_string n
unfolding to_string
to_string-negated zero h = absurd (omega arith)
to_string-negated (suc n) h = refl

to_string-pos : (n : ℕ) → to_string (pos n) ≡ nat_to_string n
unfolding to_string
to_string-pos n = refl

-- `signed_negative` wants a bound on what was scanned, and the bound that is known is on the number.
count_of_consumed :
    (d : Scan) (n : ℕ) → (strtoll_signed true d 1).consumed ≡ suc n → 0 < n → d.count ≡ n
unfolding strtoll_signed
count_of_consumed d n h k = ground arith

negative_back :
    (c : ℕ) (s : Bytes) (v : ℤ)
    → b'1' ≤ c
    → c ≤ b'9'
    → FitsBelow (b'-' ∷ c ∷ s)
    → convert_string_to_int64 (b'-' ∷ c ∷ s) ≡ some v
    → to_string v ≡ b'-' ∷ c ∷ s
negative_back c s v lo hi fits h =
    let (consumed, result, _) = convert_int64_inv b'-' (c ∷ s) v h in
    let d = scan_digits (c ∷ s) 0 in
    let eaten : (strtoll_signed true d 1).consumed ≡ suc (length (c ∷ s)) =
      ap (λ r. r.consumed) (sym (strtoll_minus (c ∷ s))) ∙ consumed in
    let all = count_of_consumed d (length (c ∷ s)) eaten (omega arith) in
    let (digits, val) = scan_digits_all (c ∷ s) 0 all in
    let bound = fits (c ∷ s) refl digits in
    let (_, neg) =
      signed_negative d (length (c ∷ s)) eaten (omega arith) (omega (arith, val, bound)) in
    ap to_string (
      sym result
      ∙ ap (λ r. r.result) (strtoll_minus (c ∷ s))
      ∙ neg
      ∙ ap negated (val ∙ zero_acc c s))
    ∙ to_string-negated (number (c - b'0') s) (omega (arith, number-ge (c - b'0') s (omega arith)))
    ∙ ap (◌∷◌ b'-') (nat_to_string-number c s lo hi digits.2)

-- Digits with no padding, a lone zero among them, are printed back.
number_back :
    (c : ℕ) (s : Bytes)
    → b'0' ≤ c
    → c ≤ b'9'
    → ((length s ≡ 0) ⊎ (c ≢ b'0'))
    → AllDigits s
    → nat_to_string (number (c - b'0') s) ≡ c ∷ s
number_back c [] lo hi unpadded digits = elim (Bool-cases (c == b'0')) [
  | inl alone ↦
      let e : c ≡ b'0' = (==_iff c b'0').0 alone in
      ap (λ (n : ℕ). nat_to_string (n - b'0')) e ∙ nat_to_string-zero ∙ ap (λ n. n ∷ []) (sym e)
  | inr more ↦ nat_to_string-number c [] (ground arith) hi digits
]
number_back c (d ∷ s) lo hi unpadded digits =
    nat_to_string-number c (d ∷ s) (ground arith) hi digits

positive_back :
    (c : ℕ) (s : Bytes) (v : ℤ)
    → b'0' ≤ c
    → c ≤ b'9'
    → ((length s ≡ 0) ⊎ (c ≢ b'0'))
    → convert_string_to_int64 (c ∷ s) ≡ some v
    → to_string v ≡ c ∷ s
positive_back c s v lo hi unpadded h =
    let (consumed, result, below) = convert_int64_inv c s v h in
    let read = strtoll_digit c s lo hi in
    let d = scan_digits (c ∷ s) 0 in
    let eaten : (strtoll_signed false d 0).consumed ≡ suc (length s) =
      ap (λ r. r.consumed) (sym read) ∙ consumed in
    let in_range : (eqb_ℤ (pos int64_max) (strtoll_signed false d 0).result
          && (strtoll_signed false d 0).range_error)
        ≡ false =
      ap (λ r. eqb_ℤ (pos int64_max) r.result && r.range_error) (sym read) ∙ below in
    let (all, plus) = signed_positive d (length s) eaten in_range in
    let (digits, val) = scan_digits_all (c ∷ s) 0 all in
    ap to_string (sym result ∙ ap (λ r. r.result) read ∙ plus)
    ∙ to_string-pos d.value
    ∙ ap nat_to_string (val ∙ zero_acc c s)
    ∙ number_back c s lo hi unpadded digits.2

below_dict_range_lem :
    (u v : ℤ) → below_dict_range u ≡ some v → (u ≡ v) × (is_var_dict_id v ≡ false)
unfolding below_dict_range is_var_dict_id
below_dict_range_lem u v h = ground arith

-- The checks in front of the conversion.
starts_negative :
    (s : Bytes)
    → starts_as_integer (b'-' ∷ s) ≡ true
    → (c : ℕ) × (t : Bytes) × (s ≡ c ∷ t) × (b'1' ≤ c) × (c ≤ b'9')
unfolding starts_as_integer
starts_negative [] h = absurd (ground arith)
starts_negative (c ∷ t) h = (c, t, refl, ground arith, ground arith)

starts_positive :
    (c : ℕ) (s : Bytes)
    → c ≢ b'-'
    → starts_as_integer (c ∷ s) ≡ true
    → (b'0' ≤ c) × (c ≤ b'9') × ((length s ≡ 0) ⊎ (c ≢ b'0'))
unfolding starts_as_integer
starts_positive c s h k = (ground arith, ground arith, ground arith)

empty_refused : starts_as_integer [] ≡ false
unfolding starts_as_integer
empty_refused = refl

-- An accepted text was converted, behind the checks.
representable_inv :
    (value : Bytes) (v : ℤ)
    → convert_string_to_representable_integer_var value ≡ some v
    → (starts_as_integer value ≡ true)
      × (convert_string_to_int64 value ≡ some v)
      × (is_var_dict_id v ≡ false)
unfolding convert_string_to_representable_integer_var
representable_inv value v h = elim (Option-cases (convert_string_to_int64 value)) [
  | inl e ↦ ground arith
  | inr (u, e) ↦ ground (arith, below_dict_range_lem u v)
]

-- A text accepted as an integer variable is printed back as it was, provided that it does not stand
-- for a number below the least `int64_t`, and its encoding is not one of a dictionary variable.
pub to_string-convert :
    (value : Bytes) (v : ℤ)
    → FitsBelow value
    → convert_string_to_representable_integer_var value ≡ some v
    → (to_string v ≡ value) × (is_var_dict_id v ≡ false)
to_string-convert [] v fits h = absurd (ground (arith, representable_inv [] v h, empty_refused))
to_string-convert (c ∷ s) v fits h =
    let (starts, converted, not_dict) = representable_inv (c ∷ s) v h in
    elim (Bool-cases (c == b'-')) [
      | inl minus ↦
          let e : c ≡ b'-' = (==_iff c b'-').0 minus in
          let (d, t, shape, lo, hi) =
            starts_negative s (ap (λ n. starts_as_integer (n ∷ s)) (sym e) ∙ starts) in
          let whole : c ∷ s ≡ b'-' ∷ d ∷ t = cc in
          (
            negative_back d t v lo hi (λ u q. fits u (whole ∙ q))
                  (ap convert_string_to_int64 (sym whole) ∙ converted)
                ∙ sym whole,
            not_dict,
          )
      | inr plus ↦
          let (lo, hi, unpadded) = starts_positive c s (ground arith) starts in
          (positive_back c s v lo hi unpadded converted, not_dict)
    ]

strtoll_underflow :
    (d : Bytes)
    → AllDigits d
    → 0 < length d
    → int64_max + 1 < number 0 d
    → strtoll (b'-' ∷ d)
      ≡ record { result = negsuc int64_max; consumed = suc (length d); range_error = true }
unfolding strtoll_signed
strtoll_underflow d digits some_digit under =
    strtoll_minus d
    ∙ ap (λ r. strtoll_signed true r 1) (scan_digits-number d 0 digits)
    ∙ ground arith

convert_int64_underflow :
    (d : Bytes)
    → AllDigits d
    → 0 < length d
    → int64_max + 1 < number 0 d
    → convert_string_to_int64 (b'-' ∷ d) ≡ some (negsuc int64_max)
unfolding convert_string_to_int64
convert_int64_underflow d digits some_digit under =
    rw (strtoll_underflow d digits some_digit under) (ground arith)

starts_minus : (c : ℕ) (s : Bytes) → b'1' ≤ c → c ≤ b'9' → starts_as_integer (b'-' ∷ c ∷ s) ≡ true
unfolding starts_as_integer
starts_minus c s lo hi = ground arith

-- A negative number below the least `int64_t` is accepted nevertheless, and as that least number: the
-- check behind `strtoll` looks at the upper bound only.
pub convert_underflow :
    (c : ℕ) (s : Bytes)
    → b'1' ≤ c
    → c ≤ b'9'
    → AllDigits s
    → int64_max + 1 < number (c - b'0') s
    → convert_string_to_representable_integer_var (b'-' ∷ c ∷ s) ≡ some (negsuc int64_max)
unfolding convert_string_to_representable_integer_var below_dict_range
convert_underflow c s lo hi digits under =
    rw
      (
        starts_minus c s lo hi,
        convert_int64_underflow (c ∷ s) (omega arith, hi, digits) (omega arith)
            (omega (arith, zero_acc c s)),
      )
      refl
