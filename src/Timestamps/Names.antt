-- ===== src/Timestamps/Names.antt =====
-- The names of months and days: where one of them stands in a line, the loop over the names finds it.
use clp_core.Base.{
  ℕ, zero, suc, ◌+◌, ◌<◌, ◌==◌, Bool, true, false, not, ◌&&◌, ◌||◌, Bytes, bytes_eq, bytes_eq_refl,
  List, [], ◌∷◌, ◌++◌, length, get_or, take, drop, take-append, some, ◌≡◌, ap, ◌∙◌, arith,
}
use clp_core.Timestamps.Parsing.{match_name, name_at}

-- At some place the texts have different bytes.
abbrev pub differs : Bytes → Bytes → Bool
differs [] _ = false
differs (x ∷ a) [] = false
differs (x ∷ a) (y ∷ b) = not (x == y) || differs a b

abbrev pub all_differ : List Bytes → Bytes → Bool
all_differ [] name = true
all_differ (n ∷ names) name = differs n name && all_differ names name

-- No name begins with an earlier one.
abbrev pub apart : List Bytes → Bool
apart [] = true
apart (n ∷ names) = all_differ names n && apart names

bytes_eq-differs :
    (a b rest : Bytes) → differs a b ≡ true → bytes_eq (take (length b) (a ++ rest)) b ≡ false
bytes_eq-differs [] b rest h = cc
bytes_eq-differs (x ∷ a) [] rest h = cc
bytes_eq-differs (x ∷ a) (y ∷ b) rest h = ground (arith, bytes_eq-differs a b rest)

all_differ-get_or :
    (names : List Bytes) (name : Bytes) (k : ℕ)
    → k < length names
    → all_differ names name ≡ true
    → differs (get_or names k []) name ≡ true
all_differ-get_or [] name k h d = absurd (omega arith)
all_differ-get_or (n ∷ names) name zero h d = ground arith
all_differ-get_or (n ∷ names) name (suc k) h d =
    all_differ-get_or names name k (omega arith) (ground arith)

pub name_at-own :
    (name line rest : Bytes) (ix : ℕ) → drop ix line ≡ name ++ rest → name_at line ix name ≡ true
unfolding name_at
name_at-own name line rest ix at = rw (at, take-append name rest) (bytes_eq_refl name)

pub name_at-other :
    (other name line rest : Bytes) (ix : ℕ)
    → differs name other ≡ true
    → drop ix line ≡ name ++ rest
    → name_at line ix other ≡ false
unfolding name_at
name_at-other other name line rest ix d at = rw at (bytes_eq-differs name other rest d)

pub match_name-own :
    (names : List Bytes) (line rest : Bytes) (ix k i : ℕ)
    → apart names ≡ true
    → k < length names
    → drop ix line ≡ get_or names k [] ++ rest
    → match_name names line ix i ≡ some (k + i, length (get_or names k []))
unfolding match_name
match_name-own [] line rest ix k i d h at = absurd (omega arith)
match_name-own (n ∷ names) line rest ix zero i d h at =
    rw (match_name, name_at-own n line rest ix at) (ap (λ j. some (j, length n)) (omega arith))
match_name-own (n ∷ names) line rest ix (suc k) i d h at =
    rw
      (
        match_name,
        name_at-other n (get_or names k []) line rest ix
            (all_differ-get_or names n k (omega arith) (ground arith)) at,
      )
      (match_name-own names line rest ix k (suc i) (ground arith) (omega arith) at
        ∙ ap (λ j. some (j, length (get_or names k []))) (omega arith))

abbrev pub nonempty : List Bytes → Bool
nonempty [] = true
nonempty (n ∷ names) = not (length n == 0) && nonempty names

pub length-get_or :
    (names : List Bytes) (k : ℕ)
    → nonempty names ≡ true
    → k < length names
    → 0 < length (get_or names k [])
length-get_or [] k e h = absurd (omega arith)
length-get_or (n ∷ names) zero e h = ground arith
length-get_or (n ∷ names) (suc k) e h = length-get_or names k (ground arith) (omega arith)
