-- ===== src/Grep/Visits.antt =====
-- The loop over the combinations of types visits each of them once.
use clp_core.Base.{
  ℕ, zero, suc, ◌+◌, ◌-◌, ◌*◌, ◌≤◌, Bool, true, false, Bool-cases, inl, inr, List, [], ◌∷◌, length,
  length-append, Outcome, ok, throws, no_fuel, ◌>>=◌, ◌≡◌, refl, sym, ap, ◌∙◌, arith,
}
use clp_core.Grep.{
  QueryToken, is_varied, next_combination, unless_superseded, combination_loop, num_combinations,
}
use clp_core.Grep.Combinations.{
  later_choices, first_choice, other_choices, before, combine, combinations, AllReady, Runs,
  varied_choices, fixed_choices, combinations-Visits,
}

-- What the loop does to the state when it makes the visits of a list.
abbrev pub visit_all :
    {S : Type 0}
    → (List QueryToken → S → Outcome (Bool × S))
    → List (List QueryToken)
    → S
    → Outcome (Bool × S)
visit_all visit [] s = ok (false, s)
visit_all visit (x ∷ l) s = visit x s >>= λ p. unless_superseded p (λ s'. visit_all visit l s')

>>=-cong :
    {A B : Type 0} (m : Outcome A) (f g : A → Outcome B)
    → ((a : A) → f a ≡ g a)
    → (m >>= f) ≡ (m >>= g)
>>=-cong no_fuel f g h = refl
>>=-cong (throws e) f g h = refl
>>=-cong (ok a) f g h = h a

unless-cong :
    {S : Type 0} (p : Bool × S) (f g : S → Outcome (Bool × S))
    → ((s : S) → f s ≡ g s)
    → unless_superseded p f ≡ unless_superseded p g
unless-cong (true, s) f g h = refl
unless-cong (false, s) f g h = h s

module _ {S : Type 0} (visit : List QueryToken → S → Outcome (Bool × S)) where
  abbrev finished : S → Outcome (Bool × S)
  finished s = ok (false, s)

  -- The end of a round: with another combination, and with none.
  moved :
      (n : ℕ) (x y : List QueryToken) (s : S) {t : Outcome (Bool × S)}
      → next_combination x ≡ (true, y)
      → combination_loop visit n y s ≡ t
      → (elim (next_combination x).0 [
        | true ↦ combination_loop visit n (next_combination x).1 s
        | false ↦ ok (false, s)
      ])
        ≡ t
  moved n x y s step h = rw (ap (λ r. r.0) step, ap (λ r. r.1) step) h

  ended :
      (n : ℕ) (x r : List QueryToken) (s : S)
      → next_combination x ≡ (false, r)
      → (elim (next_combination x).0 [
        | true ↦ combination_loop visit n (next_combination x).1 s
        | false ↦ ok (false, s)
      ])
        ≡ finished s
  ended n x r s step = rw (ap (λ r'. r'.0) step) refl

  combination_loop-Runs :
      (l : List (List QueryToken)) (x r : List QueryToken) (s : S) (spare : ℕ)
      → Runs x l (false, r)
      → combination_loop visit (suc (length l + spare)) x s ≡ visit_all visit (x ∷ l) s
  unfolding combination_loop
  combination_loop-Runs [] x r s spare h =
      >>=-cong (visit x s) _ _ (λ p. unless-cong p _ _ (λ s'. ended (0 + spare) x r s' h))
  combination_loop-Runs (y ∷ l) x r s spare (step, h) = >>=-cong (visit x s) _ _ (λ p.
      unless-cong p _ _ (λ s'. moved (suc (length l) + spare) x y s' step (
        ap (λ n. combination_loop visit n y s') {y = suc (length l + spare)} (omega arith)
        ∙ combination_loop-Runs l y r s' spare h)))

length-before : (cs : List QueryToken) (ts : List QueryToken) → length (before cs ts) ≡ length cs
length-before [] ts = refl
length-before (c ∷ cs) ts = ap suc (length-before cs ts)

length-combine :
    (cs : List QueryToken) (all : List (List QueryToken))
    → length (combine cs all) ≡ length all * length cs
length-combine cs [] = omega arith
length-combine cs (ts ∷ all) =
    length-append (before cs ts) (combine cs all)
    ∙ omega (arith, length-before cs ts, length-combine cs all)

length-later_choices : (t : QueryToken) (i k : ℕ) → length (later_choices t i k) ≡ k
length-later_choices t i zero = refl
length-later_choices t i (suc k) = ap suc (length-later_choices t (suc i) k)

times_one : (n : ℕ) → n * 1 ≡ n
times_one n = omega arith

-- The number of combinations is the product of the numbers of types.
length-combinations :
    (ts : List QueryToken) → AllReady ts → length (combinations ts) ≡ num_combinations ts
unfolding num_combinations
length-combinations [] h = refl
length-combinations (t ∷ ts) (ready, others) =
    length-combine (first_choice t ∷ other_choices t) (combinations ts)
    ∙ elim (Bool-cases (is_varied t)) [
      | inl varied ↦ elim ready.types [
        | inl none_varied ↦ absurd (ground arith)
        | inr some_type ↦
            (ap (λ cs. length (combinations ts) * suc (length cs)) (varied_choices t varied).1
              ∙ ap (λ k. length (combinations ts) * suc k)
                  (length-later_choices t 0 (length t.possible_types - 1))
              ∙ ap (λ k. length (combinations ts) * k) (omega arith)
              ∙ ap (λ m. m * length t.possible_types) (length-combinations ts others)
              ∙ (rw (num_combinations, varied) refl))
      ]
      | inr fixed ↦
          (ap (λ cs. length (combinations ts) * suc (length cs)) (fixed_choices t fixed).1
            ∙ times_one (length (combinations ts))
            ∙ length-combinations ts others
            ∙ (rw (num_combinations, fixed) refl))
    ]

-- From tokens as their constructor leaves them, and given at least as many rounds as there are
-- combinations: the loop is the visit of each combination, once and in order, until one supersedes the
-- others.
pub combination_loop-visit_all :
    {S : Type 0} (visit : List QueryToken → S → Outcome (Bool × S)) (ts : List QueryToken) (s : S)
    (fuel : ℕ)
    → AllReady ts
    → num_combinations ts ≤ fuel
    → combination_loop visit fuel ts s ≡ visit_all visit (combinations ts) s
combination_loop-visit_all visit ts s fuel ready enough =
    let v = combinations-Visits ts ready in
    let size : suc (length v.later) ≡ num_combinations ts =
      sym (ap length v.shape) ∙ length-combinations ts ready in
    ap (λ n. combination_loop visit n ts s) (omega (arith, size))
    ∙ combination_loop-Runs visit v.later ts ts s (fuel - suc (length v.later)) v.runs
    ∙ sym (ap (λ l. visit_all visit l s) v.shape)
