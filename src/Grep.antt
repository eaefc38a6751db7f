-- ===== src/Grep.antt =====
-- src/Grep.cpp: the tokens of a search string (`QueryToken`) and the loop over the types that they may
-- have. The child modules make subqueries of them.
pub mod Combinations
pub mod Visits
pub mod Subqueries
pub mod Queries
pub mod Tokenized
pub mod Processing
pub mod Keeping
pub mod Fresh
pub mod Finding
mod Examples
use clp_core.Base.{
  ℕ, zero, suc, ◌+◌, ◌-◌, ◌*◌, Bool, true, false, not, ◌&&◌, ◌||◌, ◌==◌, ltb, if◌then◌else◌, Bytes,
  bytes_eq, byte_at, npos, slice, take, drop, get_or, List, [], ◌∷◌, length, Option, none, some,
  Outcome, ok, no_fuel, ◌>>=◌,
}
use clp_core.Variables.{
  convert_string_to_representable_integer_var, convert_string_to_representable_double_var,
}
use clp_core.Variables.Floats.{FloatLib}

pub data TokenType : Type 0 where
  wildcard ambiguous logtype dict_or_int_var double_var : TokenType

pub record QueryToken : Type 0 where
  pub cannot_convert_to_non_dict_var : Bool
  pub contains_wildcards : Bool
  pub has_greedy_wildcard_in_middle : Bool
  pub has_prefix_greedy_wildcard : Bool
  pub has_suffix_greedy_wildcard : Bool
  pub begin_pos : ℕ
  pub end_pos : ℕ
  pub value : Bytes
  pub token_type : TokenType
  pub possible_types : List TokenType
  pub current_possible_type_ix : ℕ

unfoldable pub contains_star : Bytes → Bool
contains_star [] = false
contains_star (c ∷ s) = b'*' == c || contains_star s

-- The value without a star at its beginning and at its end.
unfoldable pub value_without_wildcards : Bytes → Bytes
value_without_wildcards value =
    let prefix = (if b'*' == byte_at value 0 then drop 1 value else value) in
    if b'*' == byte_at value (length value - 1) then take (length prefix - 1) prefix else prefix

unfoldable pub converts_to_non_dict_var : FloatLib → Bytes → Bool
converts_to_non_dict_var lib value = elim (convert_string_to_representable_integer_var value) [
  | some v ↦ true
  | none ↦ elim (convert_string_to_representable_double_var lib value) [
    | some d ↦ true
    | none ↦ false
  ]
]

abbrev is_star : Bytes → Bool
is_star value = bytes_eq (b'*' ∷ []) value

abbrev pub middle_star : Bytes → Bool
middle_star value = contains_star (slice value 1 (length value - 1))

abbrev pub any_star : Bytes → Bool
any_star value =
    b'*' == byte_at value 0 || b'*' == byte_at value (length value - 1) || middle_star value

-- The types that a token may have; one type is the only one.
unfoldable pub types_of : FloatLib → Bytes → Bool → List TokenType
unfolding contains_star value_without_wildcards converts_to_non_dict_var
types_of lib value is_var =
    if is_star value
    then TokenType.wildcard ∷ []
    else if not is_var
    then (if not (any_star value)
        then TokenType.logtype ∷ []
        else TokenType.logtype ∷ TokenType.dict_or_int_var ∷ [])
    else if not (converts_to_non_dict_var lib (value_without_wildcards value))
    then TokenType.dict_or_int_var ∷ []
    else TokenType.dict_or_int_var ∷ TokenType.double_var ∷ []

abbrev pub type_member : List TokenType → TokenType
type_member (t ∷ []) = t
type_member _ = TokenType.ambiguous

abbrev pub possible_member : List TokenType → List TokenType
possible_member (t ∷ []) = []
possible_member ts = ts

-- `QueryToken (query_string, begin_pos, end_pos, is_var)`, of a range that is not empty. The constructor
-- sets `m_cannot_convert_to_non_dict_var` for variables only: `unset` is what the member holds otherwise.
unfoldable pub new_query_token : FloatLib → Bool → Bytes → ℕ → ℕ → Bool → QueryToken
unfolding types_of contains_star converts_to_non_dict_var value_without_wildcards
new_query_token lib unset query_string begin_pos end_pos is_var =
    let value = slice query_string begin_pos end_pos in
    let types = types_of lib value is_var in
    record {
      cannot_convert_to_non_dict_var =
          if is_star value || not is_var
          then unset
          else not (converts_to_non_dict_var lib (value_without_wildcards value));
      contains_wildcards = any_star value;
      has_greedy_wildcard_in_middle = middle_star value;
      has_prefix_greedy_wildcard = b'*' == byte_at value 0;
      has_suffix_greedy_wildcard = not (is_star value) && b'*' == byte_at value (length value - 1);
      begin_pos = begin_pos;
      end_pos = end_pos;
      value = value;
      token_type = type_member types;
      possible_types = possible_member types;
      current_possible_type_ix = 0;
    }

abbrev pub is_ambiguous : TokenType → Bool
is_ambiguous t = elim t [
  | ambiguous ↦ true
  | wildcard ↦ false
  | logtype ↦ false
  | dict_or_int_var ↦ false
  | double_var ↦ false
]

unfoldable pub is_ambiguous_token : QueryToken → Bool
is_ambiguous_token t = is_ambiguous t.token_type

-- The type that is selected.
unfoldable pub selected_type : QueryToken → TokenType
unfolding is_ambiguous_token
selected_type t =
    if is_ambiguous_token t
    then get_or t.possible_types t.current_possible_type_ix TokenType.ambiguous
    else t.token_type

unfoldable pub is_double_var : QueryToken → Bool
unfolding selected_type
is_double_var t = elim (selected_type t) [
  | double_var ↦ true
  | ambiguous ↦ false
  | wildcard ↦ false
  | logtype ↦ false
  | dict_or_int_var ↦ false
]

unfoldable pub is_var : QueryToken → Bool
unfolding selected_type
is_var t = elim (selected_type t) [
  | double_var ↦ true
  | dict_or_int_var ↦ true
  | ambiguous ↦ false
  | wildcard ↦ false
  | logtype ↦ false
]

unfoldable pub is_wildcard_token : QueryToken → Bool
is_wildcard_token t = elim t.token_type [
  | wildcard ↦ true
  | ambiguous ↦ false
  | logtype ↦ false
  | dict_or_int_var ↦ false
  | double_var ↦ false
]

-- `size () - 1` on an unsigned size.
abbrev pub size_pred : ℕ → ℕ
size_pred zero = npos
size_pred (suc n) = n

unfoldable pub change_to_next_possible_type : QueryToken → Bool × QueryToken
change_to_next_possible_type t =
    if ltb t.current_possible_type_ix (size_pred (length t.possible_types))
    then (true, record t { current_possible_type_ix = suc t.current_possible_type_ix })
    else (false, record t { current_possible_type_ix = 0 })

-- Whether a token is among the ambiguous tokens that `process_raw_query` varies.
unfoldable pub is_varied : QueryToken → Bool
unfolding is_ambiguous_token
is_varied t = not t.has_greedy_wildcard_in_middle && is_ambiguous_token t

-- The loop that moves to the next combination: the varied tokens up to the first that has another type.
unfoldable pub next_combination : List QueryToken → Bool × List QueryToken
unfolding is_varied change_to_next_possible_type
next_combination [] = (false, [])
next_combination (t ∷ ts) =
    let (more, rest) = next_combination ts in
    elim (is_varied t) [
      | false ↦ (more, t ∷ rest)
      | true ↦
          (let (changed, t') = change_to_next_possible_type t in
            if changed then (true, t' ∷ ts) else (more, t' ∷ rest))
    ]

-- What follows a visit, unless it ends the function.
abbrev pub unless_superseded :
    {S : Type 0} → Bool × S → (S → Outcome (Bool × S)) → Outcome (Bool × S)
unless_superseded (true, s) next = ok (true, s)
unless_superseded (false, s) next = next s

-- `while (type_of_one_token_changed)`: `visit` is the body up to the move.
module _ {S : Type 0} (visit : List QueryToken → S → Outcome (Bool × S)) where
  unfoldable pub combination_loop : ℕ → List QueryToken → S → Outcome (Bool × S)
  unfolding next_combination
  combination_loop zero ts s = no_fuel
  combination_loop (suc fuel) ts s = visit ts s >>= λ p. unless_superseded p (λ s'.
      elim (next_combination ts).0 [
        | true ↦ combination_loop fuel (next_combination ts).1 s'
        | false ↦ ok (false, s')
      ])

-- How many combinations there are.
unfoldable pub num_combinations : List QueryToken → ℕ
unfolding is_varied
num_combinations [] = 1
num_combinations (t ∷ ts) =
    let rest = num_combinations ts in if is_varied t then rest * length t.possible_types else rest
