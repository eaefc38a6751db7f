-- ===== src/Tokens/Scan.antt =====
-- What the scanning loops of Tokens return.
use clp_core.Base.{
  ℕ, zero, suc, ◌+◌, ◌≤◌, ◌<◌, Bool, true, false, Bytes, byte_at, ◌≡◌, arith, Bool-cases, inl, inr,
}
use clp_core.Chars.{is_valid_variable_end}
use clp_core.Tokens.{scan_until, trim_end}

module _ (stop : ℕ → Bool) (s : Bytes) where
  pub scan_until_bounds : (i n : ℕ) → (i ≤ scan_until stop s i n) × (scan_until stop s i n ≤ i + n)
  unfolding scan_until
  scan_until_bounds i zero = omega arith
  scan_until_bounds i (suc n) = ground (arith, scan_until_bounds (suc i) n)

  -- Short of its limit, the scan is at a byte that stops it.
  pub scan_until_stops :
      (i n : ℕ) → scan_until stop s i n < i + n → stop (byte_at s (scan_until stop s i n)) ≡ true
  unfolding scan_until
  scan_until_stops i zero h = absurd (omega arith)
  scan_until_stops i (suc n) h = elim (Bool-cases (stop (byte_at s i))) [
    | inl e ↦ rw e e
    | inr e ↦ rw e (scan_until_stops (suc i) n (ground arith))
  ]

  -- No byte that it passed would have stopped it.
  pub scan_until_passes :
      (i n j : ℕ) → i ≤ j → j < scan_until stop s i n → stop (byte_at s j) ≡ false
  unfolding scan_until
  scan_until_passes i zero j h k = absurd (omega arith)
  scan_until_passes i (suc n) j h k = ground (arith, scan_until_passes (suc i) n j)

pub trim_end_bounds :
    (s : Bytes) (begin last : ℕ)
    → (trim_end s begin last ≤ last) × (begin ≤ last → begin ≤ trim_end s begin last)
unfolding trim_end
trim_end_bounds s begin zero = omega arith
trim_end_bounds s begin (suc last) = ground (arith, trim_end_bounds s begin last)

-- It stops at the beginning, or at the last byte that may end a variable.
pub trim_end_stops :
    (s : Bytes) (begin last : ℕ)
    → begin < trim_end s begin last
    → is_valid_variable_end (byte_at s (trim_end s begin last)) ≡ true
unfolding trim_end
trim_end_stops s begin zero h = absurd (omega arith)
trim_end_stops s begin (suc last) h = ground (arith, trim_end_stops s begin last)
