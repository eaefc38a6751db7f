-- ===== src/Wildcards.antt =====
-- `clean_up_wildcard_search_string` of src/Utils.cpp: a search string made to match anywhere in a
-- message.
pub mod Meaning
pub mod Matcher
mod Examples
use clp_core.Base.{
  ℕ, zero, suc, Bool, true, false, ◌||◌, ◌==◌, if◌then◌else◌, Bytes, List, [], ◌∷◌, ◌++◌, length,
  Outcome, ok, no_fuel, ◌>>=◌,
}
use clp_core.Chars.{is_wildcard}

-- `str.find_first_not_of ('*', begin_pos)`: what is left from there on.
unfoldable pub skip_stars : Bytes → Bytes
skip_stars [] = []
skip_stars (c ∷ s) = elim (c == b'*') [ true ↦ skip_stars s | false ↦ c ∷ s ]

-- The inner loop, on what is left of the string; the result is the cleaned string and what is left
-- at the next `*` that is not escaped.
unfoldable pub copy_group : Bytes → Bool → Bytes → Bytes × Bytes
copy_group [] is_escaped cleaned = (cleaned, [])
copy_group (c ∷ s) true cleaned =
    copy_group s false
      ((if is_wildcard c || b'\\' == c then cleaned ++ b'\\' ∷ [] else cleaned) ++ c ∷ [])
copy_group (c ∷ s) false cleaned = elim (b'\\' == c) [
  | true ↦ copy_group s true cleaned
  | false ↦ elim (b'*' == c) [
    | true ↦ (cleaned, c ∷ s)
    | false ↦ copy_group s false (cleaned ++ c ∷ [])
  ]
]

-- The outer loop.
unfoldable pub clean_loop : ℕ → Bytes → Bytes → Outcome Bytes
unfolding skip_stars copy_group
clean_loop zero s cleaned = no_fuel
clean_loop (suc fuel) s cleaned = elim (skip_stars s) [
  | [] ↦ ok cleaned
  | c ∷ t ↦
      (let (cleaned', rest) = copy_group (c ∷ t) false (cleaned ++ b'*' ∷ []) in
        clean_loop fuel rest cleaned')
]

-- A group has a byte at least, so that the rounds are enough.
unfoldable pub clean_up_wildcard_search_string : Bytes → Outcome Bytes
unfolding clean_loop
clean_up_wildcard_search_string str = do
  cleaned ← clean_loop (suc (length str)) str []
  ok (cleaned ++ b'*' ∷ [])
