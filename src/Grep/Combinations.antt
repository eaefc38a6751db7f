-- ===== src/Grep/Combinations.antt =====
-- The combinations of the types of tokens, and the moves that go through them.
use mathlib.Core.Path.{subst}
use clp_core.Base.{
  ℕ, zero, suc, ◌+◌, ◌-◌, ◌<◌, Bool, true, false, ltb, Bool-cases, ◌⊎◌, inl, inr, List, [], ◌∷◌,
  ◌++◌, append-nil, length, ◌≡◌, refl, sym, ap, ◌∙◌, arith,
}
use clp_core.Grep.{
  QueryToken, is_ambiguous_token, is_varied, size_pred, change_to_next_possible_type,
  next_combination,
}

-- A token with another type selected.
abbrev pub with_type : QueryToken → ℕ → QueryToken
with_type t i = record t { current_possible_type_ix = i }

-- A token with each of the `k` types behind `i`.
abbrev pub later_choices : QueryToken → ℕ → ℕ → List QueryToken
later_choices t i zero = []
later_choices t i (suc k) = with_type t (suc i) ∷ later_choices t (suc i) k

-- A token with each of its types, in their order.
abbrev pub first_choice : QueryToken → QueryToken
first_choice t = elim (is_varied t) [ true ↦ with_type t 0 | false ↦ t ]

abbrev pub other_choices : QueryToken → List QueryToken
other_choices t = elim (is_varied t) [
  | true ↦ later_choices t 0 (length t.possible_types - 1)
  | false ↦ []
]

abbrev pub before : List QueryToken → List QueryToken → List (List QueryToken)
before [] ts = []
before (c ∷ cs) ts = (c ∷ ts) ∷ before cs ts

abbrev pub combine : List QueryToken → List (List QueryToken) → List (List QueryToken)
combine cs [] = []
combine cs (ts ∷ rest) = before cs ts ++ combine cs rest

-- All combinations of types, by recursion on the tokens.
abbrev pub combinations : List QueryToken → List (List QueryToken)
combinations [] = [] ∷ []
combinations (t ∷ ts) = combine (first_choice t ∷ other_choices t) (combinations ts)

-- A token as its constructor leaves it: the first type selected, and some type to select.
pub record IsReady (t : QueryToken) : Type 0 where
  pub first : t.current_possible_type_ix ≡ 0
  pub types : (is_varied t ≡ false) ⊎ (0 < length t.possible_types)

abbrev pub AllReady : List QueryToken → Type 0
AllReady [] = Unit
AllReady (t ∷ ts) = IsReady t × AllReady ts

-- The moves from `x` go through `l`, and the last one gives `out`.
abbrev pub Runs : List QueryToken → List (List QueryToken) → Bool × List QueryToken → Type 0
Runs x [] out = next_combination x ≡ out
Runs x (y ∷ l) out = (next_combination x ≡ (true, y)) × Runs y l out

Runs-append :
    (x y : List QueryToken) (l l' : List (List QueryToken)) (out : Bool × List QueryToken)
    → Runs x l (true, y)
    → Runs y l' out
    → Runs x (l ++ y ∷ l') out
Runs-append x y [] l' out h k = (h, k)
Runs-append x y (z ∷ l) l' out (step, h) k = (step, Runs-append z y l l' out h k)

step_more :
    (t : QueryToken) (i : ℕ) (ts : List QueryToken)
    → is_varied t ≡ true
    → suc i < length t.possible_types
    → next_combination (with_type t i ∷ ts) ≡ (true, with_type t (suc i) ∷ ts)
unfolding next_combination change_to_next_possible_type is_varied is_ambiguous_token
step_more t i ts varied more =
    rw
      (
        next_combination,
        varied,
        change_to_next_possible_type,
        below i (length t.possible_types) more,
      )
      refl
  where
    below : (i n : ℕ) → suc i < n → ltb i (size_pred n) ≡ true
    below i zero h = absurd (omega arith)
    below i (suc n) h = ground arith

step_last :
    (t : QueryToken) (i : ℕ) (ts rest : List QueryToken) (more : Bool)
    → is_varied t ≡ true
    → suc i ≡ length t.possible_types
    → next_combination ts ≡ (more, rest)
    → next_combination (with_type t i ∷ ts) ≡ (more, with_type t 0 ∷ rest)
unfolding next_combination change_to_next_possible_type is_varied is_ambiguous_token
step_last t i ts rest more varied last moved =
    rw
      (
        next_combination,
        varied,
        change_to_next_possible_type,
        past i (length t.possible_types) last,
        moved,
      )
      refl
  where
    past : (i n : ℕ) → suc i ≡ n → ltb i (size_pred n) ≡ false
    past i zero h = absurd (omega arith)
    past i (suc n) h = ground arith

-- One token through its types, in front of a combination of the others.
Runs-varied :
    (t : QueryToken) (i k : ℕ) (ts rest : List QueryToken) (more : Bool)
    → is_varied t ≡ true
    → suc i + k ≡ length t.possible_types
    → next_combination ts ≡ (more, rest)
    → Runs (with_type t i ∷ ts) (before (later_choices t i k) ts) (more, with_type t 0 ∷ rest)
Runs-varied t i zero ts rest more varied size moved =
    step_last t i ts rest more varied (omega arith) moved
Runs-varied t i (suc k) ts rest more varied size moved = (
  step_more t i ts varied (omega arith),
  Runs-varied t (suc i) k ts rest more varied (omega arith) moved,
)

pub varied_choices :
    (t : QueryToken)
    → is_varied t ≡ true
    → (first_choice t ≡ with_type t 0)
      × (other_choices t ≡ later_choices t 0 (length t.possible_types - 1))
varied_choices t varied = (rw (first_choice, varied) refl, rw (other_choices, varied) refl)

pub fixed_choices :
    (t : QueryToken) → is_varied t ≡ false → (first_choice t ≡ t) × (other_choices t ≡ [])
fixed_choices t fixed = (rw (first_choice, fixed) refl, rw (other_choices, fixed) refl)

Runs-choices :
    (t : QueryToken) (ts rest : List QueryToken) (more : Bool)
    → IsReady t
    → next_combination ts ≡ (more, rest)
    → Runs (first_choice t ∷ ts) (before (other_choices t) ts) (more, first_choice t ∷ rest)
unfolding next_combination
Runs-choices t ts rest more ready moved = elim (Bool-cases (is_varied t)) [
  | inl varied ↦ elim ready.types [
    | inl none_varied ↦ absurd (ground arith)
    | inr some_type ↦
        (rw ((varied_choices t varied).0, (varied_choices t varied).1)
          (Runs-varied t 0 (length t.possible_types - 1) ts rest more varied (omega arith) moved))
  ]
  | inr fixed ↦
      (rw ((fixed_choices t fixed).0, (fixed_choices t fixed).1)
        (rw (next_combination, fixed, moved) refl))
]

Runs-combine :
    (t : QueryToken) (x rest : List QueryToken) (l : List (List QueryToken))
    → IsReady t
    → Runs x l (false, rest)
    → Runs
        (first_choice t ∷ x)
        (before (other_choices t) x ++ combine (first_choice t ∷ other_choices t) l)
        (false, first_choice t ∷ rest)
Runs-combine t x rest [] ready h =
    subst (λ m. Runs (first_choice t ∷ x) m (false, first_choice t ∷ rest))
      (sym (append-nil (before (other_choices t) x))) (Runs-choices t x rest false ready h)
Runs-combine t x rest (y ∷ l) ready (step, h) =
    Runs-append (first_choice t ∷ x) (first_choice t ∷ y) (before (other_choices t) x)
      (before (other_choices t) y ++ combine (first_choice t ∷ other_choices t) l)
      (false, first_choice t ∷ rest) (Runs-choices t x y true ready step)
      (Runs-combine t y rest l ready h)

-- The combinations are visited from the first on, and end where they began.
pub record Visits (ts : List QueryToken) (all : List (List QueryToken)) : Type 0 where
  pub later : List (List QueryToken)
  pub shape : all ≡ ts ∷ later
  pub runs : Runs ts later (false, ts)

first_choice-ready : (t : QueryToken) → IsReady t → first_choice t ≡ t
first_choice-ready t ready = elim (Bool-cases (is_varied t)) [
  | inl varied ↦ (varied_choices t varied).0 ∙ ap (with_type t) (sym ready.first)
  | inr fixed ↦ (fixed_choices t fixed).0
]

pub combinations-Visits : (ts : List QueryToken) → AllReady ts → Visits ts (combinations ts)
unfolding next_combination
combinations-Visits [] h = record { later = []; shape = refl; runs = refl }
combinations-Visits (t ∷ ts) (ready, others) =
    let v = combinations-Visits ts others in
    let back = first_choice-ready t ready in
    let l = before (other_choices t) ts ++ combine (first_choice t ∷ other_choices t) v.later in
    record {
      later = l;
      shape = ap (combine (first_choice t ∷ other_choices t)) v.shape ∙ ap (λ c. (c ∷ ts) ∷ l) back;
      runs =
          subst (λ c. Runs (c ∷ ts) l (false, c ∷ ts)) back
            (Runs-combine t ts ts v.later ready v.runs);
    }
