-- ===== src/Tokens/Potentials.antt =====
-- The tokens of a search string: where they begin and end.
use clp_core.Base.{
  ℕ, zero, suc, ◌+◌, ◌-◌, ◌≤◌, ◌<◌, Bool, true, false, not, ◌&&◌, ◌==◌, leb, ltb, if◌then◌else◌,
  Bool-cases, ◌⊎◌, inl, inr, Bytes, length, byte_at, ok, ◌≡◌, refl, ◌∙◌, arith,
}
use clp_core.Chars.{is_wildcard}
use clp_core.Tokens.Potential.{
  Start, find_start, End, find_end, Potential, next_potential, potential_loop,
  get_bounds_of_next_potential_var,
}
use clp_core.Tokens.PotentialScan.{WildcardIn, find_start-StartOk, find_end-EndOk, moves_on}

record NextOk (value : Bytes) (last_end : ℕ) (p : Potential) : Type 0 where
  low : last_end ≤ p.begin_pos
  begin_high : p.begin_pos ≤ length value
  end_high : p.end_pos ≤ length value
  nonempty : (p.begin_pos ≡ length value) ⊎ (p.begin_pos < p.end_pos)
  wildcard : (p.has_wildcard ≡ false) ⊎ WildcardIn value p.begin_pos p.end_pos

abbrev trim : ℕ → ℕ → ℕ
trim last stop = if ltb (last + 1) stop then last + 1 else stop

in_trimmed :
    (s : Bytes) (b j last stop : ℕ)
    → b ≤ j
    → j ≤ last
    → j < stop
    → is_wildcard (byte_at s j) ≡ true
    → WildcardIn s b (trim last stop)
in_trimmed s b j last stop low to inside w = record {
  at = j;
  low = low;
  high = ground arith;
  wildcard = w;
}

next_potential-NextOk :
    (value : Bytes) (last_end : ℕ)
    → last_end ≤ length value
    → NextOk value last_end (next_potential value last_end)
unfolding next_potential
next_potential-NextOk value last_end inside =
    let n : ℕ = length value - last_end in
    let start : Start = find_start value last_end n false in
    let ok_start = find_start-StartOk value last_end n false in
    let b : ℕ = start.start_pos in
    let seed : End = record {
      stop_pos = b;
      last_wildcard_or_variable_end_pos = b;
      contains_wildcard = start.at_wildcard;
      contains_decimal_digit = false;
    } in
    let e : End = find_end value (length value - b) false seed in
    let ok_end = find_end-EndOk value (length value - b) false seed (omega arith) in
    let room : b ≤ length value = omega (arith, ok_start.high) in
    record {
      low = ok_start.low;
      begin_high = room;
      end_high = ground (arith, ok_end.high, room);
      nonempty = elim ok_start.at [
        | inl at_end ↦ inl (omega arith)
        | inr begins ↦ elim (Bool-cases (ltb b (length value))) [
          | inr past ↦ inl (ground arith)
          | inl more ↦
              let moved =
                moves_on value (length value - b) seed (ground arith) (omega arith) begins in
              inr (ground (arith, moved, ok_end.last))
        ]
      ];
      wildcard = elim ok_end.wildcard [
        | inr (j, from, to, within, w) ↦
            inr
              (in_trimmed value b j e.last_wildcard_or_variable_end_pos e.stop_pos from to within w)
        | inl same ↦ elim ok_start.wildcard [
          | inl none_yet ↦ inl (same ∙ none_yet)
          | inr (w, within) ↦
              let moved =
                moves_on value (length value - b) seed (omega arith) (omega arith) (inl w) in
              inr (
                in_trimmed value b b e.last_wildcard_or_variable_end_pos e.stop_pos (omega arith)
                  ok_end.last (omega (arith, moved)) w)
        ]
      ];
    }

-- A token that is found: a range of the string behind the last one, not empty, that is a variable or
-- has a wildcard.
pub record TokenOk (value : Bytes) (last_end : ℕ) (p : Potential) : Type 0 where
  pub behind : last_end ≤ p.begin_pos
  pub nonempty : p.begin_pos < p.end_pos
  pub inside : p.end_pos ≤ length value
  pub reason : (p.is_var ≡ true) ⊎ WildcardIn value p.begin_pos p.end_pos

-- The loop ends, with a token or at the end of the string.
data Stops (value : Bytes) (last_end : ℕ) (p : Potential) : Type 0 where
  at_end : p.begin_pos ≡ length value → Stops value last_end p
  at_token : TokenOk value last_end p → Stops value last_end p

stops :
    (value : Bytes) (last_end q : ℕ) (p : Potential)
    → last_end ≤ q
    → NextOk value q p
    → (not p.is_var && not p.has_wildcard && ltb p.begin_pos (length value)) ≡ false
    → Stops value last_end p
stops value last_end q p later h stop = elim h.nonempty [
  | inl at_the_end ↦ Stops.at_end at_the_end
  | inr nonempty ↦ elim (Bool-cases p.is_var) [
    | inl var ↦ Stops.at_token (record {
      behind = omega (arith, h.low);
      nonempty = nonempty;
      inside = h.end_high;
      reason = inl var;
    })
    | inr not_var ↦ elim h.wildcard [
      | inl plain ↦ absurd (ground (arith, h.end_high))
      | inr wild ↦ Stops.at_token (record {
        behind = omega (arith, h.low);
        nonempty = nonempty;
        inside = h.end_high;
        reason = inr wild;
      })
    ]
  ]
]

potential_loop-Stops :
    (fuel : ℕ) (value : Bytes) (last_end q : ℕ) (p : Potential)
    → last_end ≤ q
    → NextOk value q p
    → length value < p.begin_pos + fuel
    → (p' : Potential) × (potential_loop fuel value p ≡ ok p') × Stops value last_end p'
unfolding potential_loop
potential_loop-Stops zero value last_end q p later h enough = absurd (omega (arith, h.begin_high))
potential_loop-Stops (suc fuel) value last_end q p later h enough =
    elim (Bool-cases (not p.is_var && not p.has_wildcard && ltb p.begin_pos (length value))) [
      | inr stop ↦ (p, (rw (potential_loop, stop) refl), stops value last_end q p later h stop)
      | inl more ↦
          let further : p.begin_pos < p.end_pos = elim h.nonempty [
            | inl at_the_end ↦ absurd (ground arith)
            | inr nonempty ↦ nonempty
          ] in
          let next = next_potential-NextOk value p.end_pos h.end_high in
          let (p', run, r) =
            potential_loop-Stops fuel value last_end p.end_pos (next_potential value p.end_pos)
              (omega (arith, h.low)) next (omega (arith, next.low)) in
          (p', (rw (potential_loop, more) run), r)
    ]

-- What the call reports.
pub data Next (value : Bytes) (last_end : ℕ) (found : Bool) (p : Potential) : Type 0 where
  exhausted : found ≡ false → Next value last_end found p
  token : found ≡ true → TokenOk value last_end p → Next value last_end found p

reported :
    (value : Bytes) (last_end : ℕ) (p : Potential)
    → Stops value last_end p
    → Next value last_end (not (length value == p.begin_pos)) p
reported value last_end p (Stops.at_end e) = Next.exhausted (ground arith)
reported value last_end p (Stops.at_token t) = Next.token (ground (arith, t.nonempty, t.inside)) t

first_round :
    (fuel : ℕ) (value : Bytes) (begin_pos end_pos : ℕ)
    → ltb begin_pos (length value) ≡ true
    → potential_loop
        (suc fuel)
        value
        (record { begin_pos = begin_pos; end_pos = end_pos; is_var = false; has_wildcard = false })
      ≡ potential_loop fuel value (next_potential value end_pos)
unfolding potential_loop
first_round fuel value begin_pos end_pos into = rw (potential_loop, into) refl

-- From the end of a token within the string, behind where it began: the call returns, and unless it
-- reports the end of the string it has found a token.
pub get_bounds_of_next_potential_var-Next :
    (value : Bytes) (begin_pos end_pos : ℕ)
    → begin_pos ≤ end_pos
    → (found : Bool) × (p : Potential) × (get_bounds_of_next_potential_var value begin_pos end_pos
        ≡ ok (found, p))
      × Next value end_pos found p
unfolding get_bounds_of_next_potential_var potential_loop
get_bounds_of_next_potential_var-Next value begin_pos end_pos h =
    elim (Bool-cases (leb (length value) end_pos)) [
      | inl past ↦ (
        false,
        record { begin_pos = begin_pos; end_pos = end_pos; is_var = false; has_wildcard = false },
        (rw (get_bounds_of_next_potential_var, past) refl),
        Next.exhausted refl,
      )
      | inr more ↦
          let first = next_potential-NextOk value end_pos (ground arith) in
          let (p, run, r) =
            potential_loop-Stops (suc (length value)) value end_pos end_pos
              (next_potential value end_pos) (omega arith) first (omega arith) in
          let into = first_round (suc (length value)) value begin_pos end_pos (ground arith) in
          (
            not (length value == p.begin_pos),
            p,
            (rw (get_bounds_of_next_potential_var, more, into, run) refl),
            reported value end_pos p r,
          )
    ]
