-- ===== src/Tokens/PotentialScan.antt =====
-- The two loops of `get_bounds_of_next_potential_var`: where they stop, and the wildcards they see.
use mathlib.Core.Path.{subst}
use clp_core.Base.{
  ℕ, zero, suc, ◌+◌, ◌≤◌, ◌<◌, Bool, true, false, ◌==◌, Bool-cases, ◌⊎◌, inl, inr, Bytes, byte_at,
  ◌≡◌, refl, arith,
}
use clp_core.Chars.{is_delim, is_valid_variable_begin, is_valid_variable_end, is_wildcard}
use clp_core.Tokens.Potential.{
  Start, find_start, End, pass, pass_variable_end, pass_wildcard, find_end,
}

-- A wildcard byte in `[a, b)`.
pub record WildcardIn (s : Bytes) (a b : ℕ) : Type 0 where
  pub at : ℕ
  pub low : a ≤ at
  pub high : at < b
  pub wildcard : is_wildcard (byte_at s at) ≡ true

pub record StartOk (s : Bytes) (i n : ℕ) (r : Start) : Type 0 where
  pub low : i ≤ r.start_pos
  pub high : r.start_pos ≤ i + n
  pub at :
      (r.start_pos ≡ i + n)
      ⊎ ((is_wildcard (byte_at s r.start_pos) ≡ true)
          ⊎ (is_valid_variable_begin (byte_at s r.start_pos) ≡ true))
  pub wildcard :
      (r.at_wildcard ≡ false)
      ⊎ ((is_wildcard (byte_at s r.start_pos) ≡ true) × (r.start_pos < i + n))

StartOk-later : (s : Bytes) (i n : ℕ) (r : Start) → StartOk s (suc i) n r → StartOk s i (suc n) r
StartOk-later s i n r h =
    let same : suc i + n ≡ i + suc n = omega arith in
    record {
      low = omega (arith, h.low);
      high = omega (arith, h.high);
      at =
          subst
            (λ k.
              (r.start_pos ≡ k)
              ⊎ ((is_wildcard (byte_at s r.start_pos) ≡ true)
                  ⊎ (is_valid_variable_begin (byte_at s r.start_pos) ≡ true)))
            same h.at;
      wildcard =
          subst
            (λ k.
              (r.at_wildcard ≡ false)
              ⊎ ((is_wildcard (byte_at s r.start_pos) ≡ true) × (r.start_pos < k)))
            same h.wildcard;
    }

pub find_start-StartOk :
    (s : Bytes) (i n : ℕ) (is_escaped : Bool) → StartOk s i n (find_start s i n is_escaped)
unfolding find_start
find_start-StartOk s i zero is_escaped = record {
  low = omega arith;
  high = omega arith;
  at = inl (omega arith);
  wildcard = inl refl;
}
find_start-StartOk s i (suc n) true = elim (Bool-cases (is_valid_variable_begin (byte_at s i))) [
  | inl e ↦
      (rw (find_start, e)
        (record { low = omega arith; high = omega arith; at = inr (inr e); wildcard = inl refl }))
  | inr e ↦ (rw (find_start, e) (StartOk-later s i n _ (find_start-StartOk s (suc i) n false)))
]
find_start-StartOk s i (suc n) false = elim (Bool-cases (b'\\' == byte_at s i)) [
  | inl e ↦ (rw (find_start, e) (StartOk-later s i n _ (find_start-StartOk s (suc i) n true)))
  | inr e ↦ elim (Bool-cases (is_wildcard (byte_at s i))) [
    | inl w ↦
        (rw (find_start, e, w)
          (record {
            low = omega arith;
            high = omega arith;
            at = inr (inl w);
            wildcard = inr (w, omega arith);
          }))
    | inr w ↦ elim (Bool-cases (is_valid_variable_begin (byte_at s i))) [
      | inl v ↦
          (rw (find_start, e, w, v)
            (record {
              low = omega arith;
              high = omega arith;
              at = inr (inr v);
              wildcard = inl refl;
            }))
      | inr v ↦
          (rw (find_start, e, w, v) (StartOk-later s i n _ (find_start-StartOk s (suc i) n false)))
    ]
  ]
]

-- What the search for the end adds to what it has found, `e`.
pub record EndOk (s : Bytes) (n : ℕ) (e r : End) : Type 0 where
  pub low : e.stop_pos ≤ r.stop_pos
  pub high : r.stop_pos ≤ e.stop_pos + n
  pub last : e.last_wildcard_or_variable_end_pos ≤ r.last_wildcard_or_variable_end_pos
  pub wildcard :
      (r.contains_wildcard ≡ e.contains_wildcard)
      ⊎ ((j : ℕ) × (e.last_wildcard_or_variable_end_pos ≤ j)
          × (j ≤ r.last_wildcard_or_variable_end_pos)
          × (j < r.stop_pos)
          × (is_wildcard (byte_at s j) ≡ true))

EndOk-none : (s : Bytes) (n : ℕ) (e : End) → EndOk s n e e
EndOk-none s n e = record {
  low = omega arith;
  high = omega arith;
  last = omega arith;
  wildcard = inl refl;
}

-- A step that marks no wildcard, and one that does.
EndOk-pass : (s : Bytes) (n : ℕ) (e r : End) → EndOk s n (pass s e) r → EndOk s (suc n) e r
EndOk-pass s n e r h = record {
  low = omega (arith, h.low);
  high = omega (arith, h.high);
  last = h.last;
  wildcard = h.wildcard;
}

EndOk-pass_variable_end :
    (s : Bytes) (n : ℕ) (e r : End)
    → e.last_wildcard_or_variable_end_pos ≤ e.stop_pos
    → EndOk s n (pass_variable_end s e) r
    → EndOk s (suc n) e r
EndOk-pass_variable_end s n e r behind h = record {
  low = omega (arith, h.low);
  high = omega (arith, h.high);
  last = omega (arith, h.last);
  wildcard = elim h.wildcard [
    | inl k ↦ inl k
    | inr (j, from, to, inside, w) ↦ inr (j, omega arith, to, inside, w)
  ];
}

EndOk-pass_wildcard :
    (s : Bytes) (n : ℕ) (e r : End)
    → e.last_wildcard_or_variable_end_pos ≤ e.stop_pos
    → is_wildcard (byte_at s e.stop_pos) ≡ true
    → EndOk s n (pass_wildcard s e) r
    → EndOk s (suc n) e r
EndOk-pass_wildcard s n e r behind w h = record {
  low = omega (arith, h.low);
  high = omega (arith, h.high);
  last = omega (arith, h.last);
  wildcard = inr (e.stop_pos, behind, h.last, omega (arith, h.low), w);
}

pub find_end-EndOk :
    (s : Bytes) (n : ℕ) (is_escaped : Bool) (e : End)
    → e.last_wildcard_or_variable_end_pos ≤ e.stop_pos
    → EndOk s n e (find_end s n is_escaped e)
unfolding find_end
find_end-EndOk s zero is_escaped e behind = EndOk-none s 0 e
find_end-EndOk s (suc n) true e behind = elim (Bool-cases (is_delim (byte_at s e.stop_pos))) [
  | inl d ↦ (rw (find_end, d) (EndOk-none s (suc n) e))
  | inr d ↦ elim (Bool-cases (is_valid_variable_end (byte_at s e.stop_pos))) [
    | inl v ↦
        (rw (find_end, d, v)
          (EndOk-pass_variable_end s n e _ behind
            (find_end-EndOk s n false (pass_variable_end s e) (omega arith))))
    | inr v ↦
        (rw (find_end, d, v)
          (EndOk-pass s n e _ (find_end-EndOk s n false (pass s e) (omega arith))))
  ]
]
find_end-EndOk s (suc n) false e behind = elim (Bool-cases (b'\\' == byte_at s e.stop_pos)) [
  | inl k ↦
      (rw (find_end, k) (EndOk-pass s n e _ (find_end-EndOk s n true (pass s e) (omega arith))))
  | inr k ↦ elim (Bool-cases (is_wildcard (byte_at s e.stop_pos))) [
    | inl w ↦
        (rw (find_end, k, w)
          (EndOk-pass_wildcard s n e _ behind w
            (find_end-EndOk s n false (pass_wildcard s e) (omega arith))))
    | inr w ↦ elim (Bool-cases (is_valid_variable_end (byte_at s e.stop_pos))) [
      | inl v ↦
          (rw (find_end, k, w, v)
            (EndOk-pass_variable_end s n e _ behind
              (find_end-EndOk s n false (pass_variable_end s e) (omega arith))))
      | inr v ↦ elim (Bool-cases (is_delim (byte_at s e.stop_pos))) [
        | inl d ↦ (rw (find_end, k, w, v, d) (EndOk-none s (suc n) e))
        | inr d ↦
            (rw (find_end, k, w, v, d)
              (EndOk-pass s n e _ (find_end-EndOk s n false (pass s e) (omega arith))))
      ]
    ]
  ]
]

-- Where a token begins, the search for its end moves on.
not_delim : (c : ℕ) → is_valid_variable_begin c ≡ true → is_delim c ≡ false
unfolding is_valid_variable_begin is_delim
not_delim c h = ground arith

moves :
    (s : Bytes) (n : ℕ) (e : End)
    → e.last_wildcard_or_variable_end_pos ≤ e.stop_pos
    → (is_wildcard (byte_at s e.stop_pos) ≡ true)
      ⊎ (is_valid_variable_begin (byte_at s e.stop_pos) ≡ true)
    → suc e.stop_pos ≤ (find_end s (suc n) false e).stop_pos
unfolding find_end
moves s n e behind begins = elim (Bool-cases (b'\\' == byte_at s e.stop_pos)) [
  | inl k ↦ (rw (find_end, k) (EndOk.low (find_end-EndOk s n true (pass s e) (omega arith))))
  | inr k ↦ elim (Bool-cases (is_wildcard (byte_at s e.stop_pos))) [
    | inl w ↦
        (rw (find_end, k, w)
          (EndOk.low (find_end-EndOk s n false (pass_wildcard s e) (omega arith))))
    | inr w ↦ elim (Bool-cases (is_valid_variable_end (byte_at s e.stop_pos))) [
      | inl v ↦
          (rw (find_end, k, w, v)
            (EndOk.low (find_end-EndOk s n false (pass_variable_end s e) (omega arith))))
      | inr v ↦ elim begins [
        | inl w' ↦ absurd (ground arith)
        | inr b ↦
            (rw (find_end, k, w, v, not_delim (byte_at s e.stop_pos) b)
              (EndOk.low (find_end-EndOk s n false (pass s e) (omega arith))))
      ]
    ]
  ]
]

pub moves_on :
    (s : Bytes) (n : ℕ) (e : End)
    → 0 < n
    → e.last_wildcard_or_variable_end_pos ≤ e.stop_pos
    → (is_wildcard (byte_at s e.stop_pos) ≡ true)
      ⊎ (is_valid_variable_begin (byte_at s e.stop_pos) ≡ true)
    → suc e.stop_pos ≤ (find_end s n false e).stop_pos
moves_on s zero e p behind begins = absurd (omega arith)
moves_on s (suc n) e p behind begins = moves s n e behind begins
