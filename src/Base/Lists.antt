-- ===== src/Base/Lists.antt =====
-- Lists measured, cut and indexed by native numbers, under the library's names, and byte strings.
use Prim.Native.Nat.{ℕ, zero, suc, ◌+◌, ◌-◌, ◌≤◌, ◌<◌, min}
use Prim.Native.Char.{code}
use Prim.Native.String.{String}
use mathlib.Core.Path.{◌≡◌, refl, ap, sym, ◌∙◌}
use mathlib.Core.List.{List, [], ◌∷◌, ◌++◌}
use mathlib.Core.Option.{Option, none, some}
use mathlib.Core.Bool.{Bool, true, false, ◌&&◌}
use native.Mathlib.Omega.{arith}
use clp_core.Base.Tests.{◌==◌, if◌then◌else◌}

-- A `std::string`: each byte as a number below 256.
abbrev pub Bytes : Type 0
Bytes = List ℕ

-- The code points of a literal; these are its bytes when the text is ASCII.
abbrev pub codes : String → Bytes
codes String.[] = []
codes (String.◌∷◌ c s) = code c ∷ codes s

module _ {ℓ} {A : Type ℓ} where
  abbrev pub length : List A → ℕ
  length [] = 0
  length (x ∷ xs) = suc (length xs)

  abbrev pub get_elem? : List A → ℕ → Option A
  get_elem? [] i = none
  get_elem? (x ∷ xs) zero = some x
  get_elem? (x ∷ xs) (suc i) = get_elem? xs i

  abbrev pub get_or : List A → ℕ → A → A
  get_or [] i d = d
  get_or (x ∷ xs) zero d = x
  get_or (x ∷ xs) (suc i) d = get_or xs i d

  abbrev pub take : ℕ → List A → List A
  take zero xs = []
  take (suc n) [] = []
  take (suc n) (x ∷ xs) = x ∷ take n xs

  abbrev pub drop : ℕ → List A → List A
  drop zero xs = xs
  drop (suc n) [] = []
  drop (suc n) (x ∷ xs) = drop n xs

  abbrev pub replicate : ℕ → A → List A
  replicate zero a = []
  replicate (suc n) a = a ∷ replicate n a

  pub length-append : (xs ys : List A) → length (xs ++ ys) ≡ length xs + length ys
  length-append [] ys = omega arith
  length-append (x ∷ xs) ys = omega (arith, length-append xs ys)

module _ {ℓ} {A : Type ℓ} where
  pub length-take : (n : ℕ) (xs : List A) → length (take n xs) ≡ min n (length xs)
  length-take zero xs = omega arith
  length-take (suc n) [] = omega arith
  length-take (suc n) (x ∷ xs) = omega (arith, length-take n xs)

  pub length-drop : (n : ℕ) (xs : List A) → length (drop n xs) ≡ length xs - n
  length-drop zero xs = omega arith
  length-drop (suc n) [] = omega arith
  length-drop (suc n) (x ∷ xs) = omega (arith, length-drop n xs)

  pub take-append-drop : (n : ℕ) (xs : List A) → take n xs ++ drop n xs ≡ xs
  take-append-drop zero xs = refl
  take-append-drop (suc n) [] = refl
  take-append-drop (suc n) (x ∷ xs) = ap (◌∷◌ x) (take-append-drop n xs)

  pub take_all : (n : ℕ) (xs : List A) → length xs ≤ n → take n xs ≡ xs
  take_all zero [] h = refl
  take_all zero (x ∷ xs) h = absurd (omega arith)
  take_all (suc n) [] h = refl
  take_all (suc n) (x ∷ xs) h = ap (◌∷◌ x) (take_all n xs (omega arith))

  pub drop_all : (n : ℕ) (xs : List A) → length xs ≤ n → drop n xs ≡ []
  drop_all zero [] h = refl
  drop_all zero (x ∷ xs) h = absurd (omega arith)
  drop_all (suc n) [] h = refl
  drop_all (suc n) (x ∷ xs) h = drop_all n xs (omega arith)

  pub take-append : (xs ys : List A) → take (length xs) (xs ++ ys) ≡ xs
  take-append [] ys = refl
  take-append (x ∷ xs) ys = ap (◌∷◌ x) (take-append xs ys)

  pub drop-append : (xs ys : List A) → drop (length xs) (xs ++ ys) ≡ ys
  drop-append [] ys = refl
  drop-append (x ∷ xs) ys = drop-append xs ys

-- `s[i]`; at `s.length()` it is the closing '\0'.
abbrev pub byte_at : Bytes → ℕ → ℕ
byte_at s i = get_or s i 0

-- `s.substr(pos, n)`, for a `pos` within the string.
abbrev pub substr : Bytes → ℕ → ℕ → Bytes
substr s pos n = take n (drop pos s)

-- `s.substr(begin, end - begin)`, a half-open range of the string.
abbrev pub slice : Bytes → ℕ → ℕ → Bytes
slice s begin end = substr s begin (end - begin)

-- `s == t` on strings.
abbrev pub bytes_eq : Bytes → Bytes → Bool
bytes_eq [] [] = true
bytes_eq (x ∷ xs) (y ∷ ys) = x == y && bytes_eq xs ys
bytes_eq _ _ = false

-- `std::string::npos`
abbrev pub npos : ℕ
npos = 0xFFFF_FFFF_FFFF_FFFF

pub bytes_eq→eq : (a b : Bytes) → bytes_eq a b ≡ true → a ≡ b
bytes_eq→eq [] [] h = refl
bytes_eq→eq [] (y ∷ b) h = cc
bytes_eq→eq (x ∷ a) [] h = cc
bytes_eq→eq (x ∷ a) (y ∷ b) h = ground (arith, bytes_eq→eq a b)

pub bytes_eq_refl : (a : Bytes) → bytes_eq a a ≡ true
bytes_eq_refl [] = refl
bytes_eq_refl (x ∷ a) = ground (arith, bytes_eq_refl a)

module _ {ℓ} {A : Type ℓ} where
  -- An item put at the end is found there, and the others where they were.
  pub get_elem?-concat :
      (xs : List A) (x : A) (i : ℕ)
      → get_elem? (xs ++ x ∷ []) i ≡ (if i == length xs then some x else get_elem? xs i)
  get_elem?-concat [] x zero = refl
  get_elem?-concat [] x (suc i) = ground arith
  get_elem?-concat (y ∷ xs) x zero = ground arith
  get_elem?-concat (y ∷ xs) x (suc i) = get_elem?-concat xs x i ∙ ground arith

  pub get_elem?-lt : (xs : List A) (i : ℕ) {x : A} → get_elem? xs i ≡ some x → i < length xs
  get_elem?-lt [] i e = cc
  get_elem?-lt (y ∷ xs) zero e = omega arith
  get_elem?-lt (y ∷ xs) (suc i) e = omega (arith, get_elem?-lt xs i e)

  pub get_elem?-drop :
      (xs : List A) (i : ℕ) {x : A} {r : List A}
      → drop i xs ≡ x ∷ r
      → (get_elem? xs i ≡ some x) × (drop (suc i) xs ≡ r)
  get_elem?-drop [] zero e = cc
  get_elem?-drop [] (suc i) e = cc
  get_elem?-drop (y ∷ xs) zero e = ground arith
  get_elem?-drop (y ∷ xs) (suc i) e = get_elem?-drop xs i e

pub drop_at : (s : Bytes) (i : ℕ) → i < length s → drop i s ≡ byte_at s i ∷ drop (suc i) s
drop_at [] i h = absurd (omega arith)
drop_at (x ∷ s) zero h = refl
drop_at (x ∷ s) (suc i) h = drop_at s i (omega arith)

take-nil {ℓ} : {A : Type ℓ} (n : ℕ) → take {A = A} n [] ≡ []
take-nil zero = refl
take-nil (suc n) = refl

-- A prefix and the range behind it are a longer prefix.
pub take-append-substr : (a b : ℕ) (s : Bytes) → a ≤ b → take a s ++ substr s a (b - a) ≡ take b s
take-append-substr zero b s h = ap (λ n. take n s) (omega arith)
take-append-substr (suc a) b [] h = take-nil (b - suc a) ∙ sym (take-nil b)
take-append-substr (suc a) zero (x ∷ s) h = absurd (omega arith)
take-append-substr (suc a) (suc b) (x ∷ s) h =
    ap (◌∷◌ x) (
      ap (λ n. take a s ++ take n (drop a s)) (omega arith)
      ∙ take-append-substr a b s (omega arith))

suc_add : (i j : ℕ) → suc (i + j) ≡ suc i + j
suc_add i j = omega arith

zero_add : (j : ℕ) → j ≡ 0 + j
zero_add j = omega arith

pub byte_at-drop : (s : Bytes) (i j : ℕ) → byte_at (drop i s) j ≡ byte_at s (i + j)
byte_at-drop s zero j = ap (byte_at s) (zero_add j)
byte_at-drop [] (suc i) j = refl
byte_at-drop (x ∷ s) (suc i) j = byte_at-drop s i j ∙ ap (byte_at (x ∷ s)) (suc_add i j)

pub byte_at-take : (s : Bytes) (n j : ℕ) → j < n → byte_at (take n s) j ≡ byte_at s j
byte_at-take s zero j h = absurd (omega arith)
byte_at-take [] (suc n) j h = refl
byte_at-take (x ∷ s) (suc n) zero h = refl
byte_at-take (x ∷ s) (suc n) (suc j) h = byte_at-take s n j (omega arith)

pub drop-drop {ℓ} : {A : Type ℓ} (i j : ℕ) (xs : List A) → drop j (drop i xs) ≡ drop (i + j) xs
drop-drop zero j xs = ap (λ k. drop k xs) (zero_add j)
drop-drop (suc i) j [] = drop_all j [] (omega arith) ∙ sym (drop_all (suc i + j) [] (omega arith))
drop-drop (suc i) j (x ∷ xs) = drop-drop i j xs ∙ ap (λ k. drop k (x ∷ xs)) (suc_add i j)
