-- ===== src/Grep/Tokenized.antt =====
-- The tokens of a search string, of src/Grep.cpp.
use clp_core.Base.{
  ℕ, zero, suc, ◌+◌, ◌≤◌, ◌<◌, Bool, false, not, Bool-cases, ◌⊎◌, inl, inr, Bytes, bytes_eq, slice,
  ◌&&◌, List, [], ◌∷◌, length, Outcome, ok, ◌≡◌, refl, arith,
}
use clp_core.Variables.Floats.{FloatLib}
use clp_core.Tokens.Potentials.{Next, get_bounds_of_next_potential_var-Next}
use clp_core.Grep.{
  QueryToken, TokenType, new_query_token, types_of, is_ambiguous, type_member, possible_member,
  any_star, converts_to_non_dict_var, value_without_wildcards, is_varied, is_ambiguous_token,
}
use clp_core.Grep.Combinations.{IsReady, AllReady}
use clp_core.Grep.Queries.{find_tokens, query_tokens}

-- Ranges of the string behind `last_end`, in order, apart and not empty.
abbrev pub InOrder : Bytes → ℕ → List QueryToken → Type 0
InOrder s last_end [] = last_end ≤ length s
InOrder s last_end (t ∷ ts) =
    (last_end ≤ t.begin_pos) × (t.begin_pos < t.end_pos) × InOrder s t.end_pos ts

-- The types of a token are one that is not ambiguous, or two.
data Kinds : List TokenType → Type 0 where
  one : (t : TokenType) → is_ambiguous t ≡ false → Kinds (t ∷ [])
  two : (t u : TokenType) → Kinds (t ∷ u ∷ [])

types_of-Kinds : (lib : FloatLib) (value : Bytes) (var : Bool) → Kinds (types_of lib value var)
unfolding types_of
types_of-Kinds lib value var = elim (Bool-cases (bytes_eq (b'*' ∷ []) value)) [
  | inl star ↦ (rw (types_of, star) (Kinds.one TokenType.wildcard refl))
  | inr not_star ↦ elim (Bool-cases var) [
    | inr constant ↦ elim (Bool-cases (any_star value)) [
      | inl wild ↦ (rw (types_of, not_star, constant, wild) (Kinds.two _ _))
      | inr plain ↦ (rw (types_of, not_star, constant, plain) (Kinds.one TokenType.logtype refl))
    ]
    | inl variable ↦
        elim (Bool-cases (converts_to_non_dict_var lib (value_without_wildcards value))) [
          | inl converts ↦ (rw (types_of, not_star, variable, converts) (Kinds.two _ _))
          | inr stays ↦
              (rw (types_of, not_star, variable, stays) (Kinds.one TokenType.dict_or_int_var refl))
        ]
  ]
]

Kinds-ready :
    (middle : Bool) (ts : List TokenType)
    → Kinds ts
    → ((not middle && is_ambiguous (type_member ts)) ≡ false) ⊎ (0 < length (possible_member ts))
Kinds-ready middle _ (Kinds.one t h) = inl (ground arith)
Kinds-ready middle _ (Kinds.two t u) = inr (omega arith)

-- The constructor leaves a token ready.
new_query_token-IsReady :
    (lib : FloatLib) (unset : Bool) (s : Bytes) (begin_pos end_pos : ℕ) (var : Bool)
    → IsReady (new_query_token lib unset s begin_pos end_pos var)
unfolding new_query_token is_varied is_ambiguous_token
new_query_token-IsReady lib unset s begin_pos end_pos var = record {
  first = refl;
  types = Kinds-ready _ _ (types_of-Kinds lib (slice s begin_pos end_pos) var);
}

record Tokenized (s : Bytes) (last_end : ℕ) (found : Outcome (List QueryToken)) : Type 0 where
  tokens : List QueryToken
  returns : found ≡ ok tokens
  order : InOrder s last_end tokens
  ready : AllReady tokens

find_tokens-Tokenized :
    (lib : FloatLib) (unset : ℕ → Bool) (fuel : ℕ) (s : Bytes) (begin_pos end_pos : ℕ)
    → begin_pos ≤ end_pos
    → end_pos ≤ length s
    → length s < end_pos + fuel
    → Tokenized s end_pos (find_tokens lib unset fuel s begin_pos end_pos)
unfolding find_tokens new_query_token
find_tokens-Tokenized lib unset zero s begin_pos end_pos h inside enough = absurd (omega arith)
find_tokens-Tokenized lib unset (suc fuel) s begin_pos end_pos h inside enough =
    let (found, p, run, next) = get_bounds_of_next_potential_var-Next s begin_pos end_pos h in
    elim next [
      | Next.exhausted e ↦ record {
        tokens = [];
        returns = (rw (find_tokens, run, e) refl);
        order = inside;
        ready = tt;
      }
      | Next.token e t ↦
          let rest =
            find_tokens-Tokenized lib unset fuel s p.begin_pos p.end_pos (omega (arith, t.nonempty))
              t.inside (omega (arith, t.behind, t.nonempty)) in
          record {
            tokens =
                new_query_token lib (unset p.begin_pos) s p.begin_pos p.end_pos p.is_var
                ∷ rest.tokens;
            returns = (rw (find_tokens, run, e, rest.returns) refl);
            order = (t.behind, t.nonempty, rest.order);
            ready = (
              new_query_token-IsReady lib (unset p.begin_pos) s p.begin_pos p.end_pos p.is_var,
              rest.ready,
            );
          }
    ]

-- The tokens of any search string are found, in order, apart, within the string and not empty, each with
-- its first type selected.
pub query_tokens-InOrder :
    (lib : FloatLib) (unset : ℕ → Bool) (s : Bytes)
    → (ts : List QueryToken) × (query_tokens lib unset s ≡ ok ts) × InOrder s 0 ts × AllReady ts
unfolding query_tokens
query_tokens-InOrder lib unset s =
    let t =
      find_tokens-Tokenized lib unset (suc (length s)) s 0 0 (omega arith) (omega arith)
        (omega arith) in
    (t.tokens, t.returns, t.order, t.ready)
