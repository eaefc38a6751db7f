-- ===== src/Decimal/RoundTrip.antt =====
-- Reading digits and printing the number again gives the same digits.
use clp_core.Base.{
  ℕ, suc, ◌+◌, ◌-◌, ◌*◌, ◌/◌, ◌%◌, ◌≤◌, ◌<◌, Bytes, [], ◌∷◌, ◌++◌, length, ◌≡◌, refl, ap, ◌∙◌,
  arith, append-nil,
}
use clp_core.Decimal.{scan_digits, print_digits, nat_to_string}

abbrev pub AllDigits : Bytes → Type 0
AllDigits [] = Unit
AllDigits (c ∷ s) = (b'0' ≤ c) × (c ≤ b'9') × AllDigits s

-- The number that digits stand for, behind `acc`.
abbrev pub number : ℕ → Bytes → ℕ
number acc [] = acc
number acc (c ∷ s) = number (acc * 10 + (c - b'0')) s

-- A scan that consumes the whole text has read digits only, and their number.
pub scan_digits_all :
    (s : Bytes) (acc : ℕ)
    → (scan_digits s acc).count ≡ length s
    → AllDigits s × ((scan_digits s acc).value ≡ number acc s)
unfolding scan_digits
scan_digits_all [] acc h = (tt, refl)
scan_digits_all (c ∷ s) acc h = ground (arith, scan_digits_all s (acc * 10 + (c - b'0')))

pub scan_digits-count-le : (s : Bytes) (acc : ℕ) → (scan_digits s acc).count ≤ length s
unfolding scan_digits
scan_digits-count-le [] acc = omega arith
scan_digits-count-le (c ∷ s) acc = ground (arith, scan_digits-count-le s (acc * 10 + (c - b'0')))

-- The converse: digits are consumed to the end.
pub scan_digits-number :
    (s : Bytes) (acc : ℕ)
    → AllDigits s
    → scan_digits s acc ≡ record { value = number acc s; count = length s }
unfolding scan_digits
scan_digits-number [] acc h = refl
scan_digits-number (c ∷ s) acc h = ground (arith, scan_digits-number s (acc * 10 + (c - b'0')) h.2)

pub number-ge : (acc : ℕ) (s : Bytes) → 0 < acc → acc + length s ≤ number acc s
number-ge acc [] h = omega arith
number-ge acc (c ∷ s) h = omega (arith, number-ge (acc * 10 + (c - b'0')) s (omega arith))

shift : (k n : ℕ) → k + suc n ≡ suc k + n
shift k n = omega arith

digit_back : (acc c : ℕ) → b'0' ≤ c → c ≤ b'9' → b'0' + (acc * 10 + (c - b'0')) % 10 ≡ c
digit_back acc c h k = omega arith

acc_back : (acc c : ℕ) → c ≤ b'9' → (acc * 10 + (c - b'0')) / 10 ≡ acc
acc_back acc c k = omega arith

print_step :
    (k acc c : ℕ) (out : Bytes)
    → 0 < acc
    → b'0' ≤ c
    → c ≤ b'9'
    → print_digits (suc k) (acc * 10 + (c - b'0')) out ≡ print_digits k acc (c ∷ out)
unfolding print_digits
print_step k acc c out h lo hi = ground (arith, digit_back acc c lo hi, acc_back acc c hi)

print_digits-number :
    (k acc : ℕ) (s out : Bytes)
    → 0 < acc
    → AllDigits s
    → print_digits (k + length s) (number acc s) out ≡ print_digits k acc (s ++ out)
print_digits-number k acc [] out h d = ap (λ n. print_digits n acc out) (omega arith)
print_digits-number k acc (c ∷ s) out h (lo, hi, d) =
    ap (λ n. print_digits n (number acc (c ∷ s)) out) (shift k (length s))
    ∙ print_digits-number (suc k) (acc * 10 + (c - b'0')) s out (omega arith) d
    ∙ print_step k acc c (s ++ out) h lo hi

print_one : (k a : ℕ) (out : Bytes) → a < 10 → print_digits (suc k) a out ≡ (b'0' + a) ∷ out
unfolding print_digits
print_one k a out h = ground arith

enough :
    (acc : ℕ) (s : Bytes) → 0 < acc → suc (number acc s) ≡ suc (number acc s - length s) + length s
enough acc s h = omega (arith, number-ge acc s h)

add_sub : (c : ℕ) → b'1' ≤ c → b'0' + (c - b'0') ≡ c
add_sub c h = omega arith

-- Digits with no zero in front are printed back as they were.
pub nat_to_string-number :
    (c : ℕ) (s : Bytes)
    → b'1' ≤ c
    → c ≤ b'9'
    → AllDigits s
    → nat_to_string (number (c - b'0') s) ≡ c ∷ s
unfolding nat_to_string
nat_to_string-number c s lo hi d =
    let n : ℕ = number (c - b'0') s in
    ap (λ f. print_digits f n []) (enough (c - b'0') s (omega arith))
    ∙ print_digits-number (suc (n - length s)) (c - b'0') s [] (omega arith) d
    ∙ print_one (n - length s) (c - b'0') (s ++ []) (omega arith)
    ∙ rw (append-nil, add_sub c lo)

pub nat_to_string-zero : nat_to_string 0 ≡ b'0' ∷ []
unfolding nat_to_string print_digits
nat_to_string-zero = refl
