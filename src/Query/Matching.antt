-- ===== src/Query/Matching.antt =====
-- When a message's variables match a subquery.
use clp_core.Base.{
  suc, ◌≤◌, ◌≡◌, ◌↔◌, refl, true, false, List, [], ◌∷◌, length, arith, Bool-cases, inl, inr, ap,
}
use clp_core.Base.Int.{ℤ}
use clp_core.Query.{QueryVar, SubQuery, matches, match_loop, matches_vars}

-- The query's variables occur among the message's, in order, but not necessarily side by side.
pub data Embeds : List QueryVar → List ℤ → Type 0 where
  done : {vs : List ℤ} → Embeds [] vs
  take_var :
      {q : QueryVar} {qs : List QueryVar} {v : ℤ} {vs : List ℤ}
      → matches q v ≡ true
      → Embeds qs vs
      → Embeds (q ∷ qs) (v ∷ vs)
  skip_var : {qs : List QueryVar} {v : ℤ} {vs : List ℤ} → Embeds qs vs → Embeds qs (v ∷ vs)

Embeds-length : {qs : List QueryVar} {vs : List ℤ} → Embeds qs vs → length qs ≤ length vs
Embeds-length done = omega arith
Embeds-length (take_var {qs} {vs} h e) = omega (arith, Embeds-length e)
Embeds-length (skip_var {qs} {vs} e) = omega (arith, Embeds-length e)

-- One variable of the query fewer.
Embeds-tail : {q : QueryVar} {qs : List QueryVar} {vs : List ℤ} → Embeds (q ∷ qs) vs → Embeds qs vs
Embeds-tail (take_var h e) = skip_var e
Embeds-tail (skip_var e) = skip_var (Embeds-tail e)

match_loop_le : (qs : List QueryVar) (vs : List ℤ) → match_loop qs vs ≤ length qs
unfolding match_loop
match_loop_le qs [] = omega arith
match_loop_le [] (v ∷ vs) = omega arith
match_loop_le (q ∷ qs) (v ∷ vs) = elim (Bool-cases (matches q v)) [
  | inl hit ↦ rw (match_loop, hit) (omega (arith, match_loop_le qs vs))
  | inr miss ↦ rw (match_loop, miss) (match_loop_le (q ∷ qs) vs)
]

match_loop-Embeds : (qs : List QueryVar) (vs : List ℤ) → match_loop qs vs ≡ length qs → Embeds qs vs
unfolding match_loop
match_loop-Embeds [] vs h = done
match_loop-Embeds (q ∷ qs) [] h = absurd (omega arith)
match_loop-Embeds (q ∷ qs) (v ∷ vs) h = elim (Bool-cases (matches q v)) [
  | inl hit ↦ take_var hit (match_loop-Embeds qs vs (omega (arith, rw (hit, match_loop) at h)))
  | inr miss ↦ skip_var (match_loop-Embeds (q ∷ qs) vs (rw (miss, match_loop) at h))
]

after_match :
    {q : QueryVar} {qs : List QueryVar} {v : ℤ} {vs : List ℤ}
    → Embeds (q ∷ qs) (v ∷ vs)
    → Embeds qs vs
after_match (take_var h e) = e
after_match (skip_var e) = Embeds-tail e

after_mismatch :
    {q : QueryVar} {qs : List QueryVar} {v : ℤ} {vs : List ℤ}
    → matches q v ≡ false
    → Embeds (q ∷ qs) (v ∷ vs)
    → Embeds (q ∷ qs) vs
after_mismatch miss (take_var h e) = absurd cc
after_mismatch miss (skip_var e) = e

Embeds-match_loop : (qs : List QueryVar) (vs : List ℤ) → Embeds qs vs → match_loop qs vs ≡ length qs
unfolding match_loop
Embeds-match_loop [] [] e = refl
Embeds-match_loop [] (v ∷ vs) e = refl
Embeds-match_loop (q ∷ qs) [] e = absurd (omega (arith, Embeds-length e))
Embeds-match_loop (q ∷ qs) (v ∷ vs) e = elim (Bool-cases (matches q v)) [
  | inl hit ↦ rw (match_loop, hit) (ap suc (Embeds-match_loop qs vs (after_match e)))
  | inr miss ↦ rw (match_loop, miss) (Embeds-match_loop (q ∷ qs) vs (after_mismatch miss e))
]

-- A subquery matches a message's variables just when its own occur among them in order.
pub matches_vars_iff : (s : SubQuery) (vs : List ℤ) → (matches_vars s vs ≡ true) ↔ Embeds s.vars vs
unfolding matches_vars
matches_vars_iff s vs = (
  λ h. match_loop-Embeds s.vars vs (ground arith),
  λ e. let few = Embeds-length e in let all = Embeds-match_loop s.vars vs e in ground arith,
)
