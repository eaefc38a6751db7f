-- ===== src/Codec/Safe.antt =====
-- A message without a minus sign is one whose variables survive.
use clp_core.Base.{
  ℕ, zero, suc, ◌+◌, ◌==◌, ◌≡◌, ◌≢◌, ap, sym, ◌∙◌, Bool, true, not, ◌&&◌, Bytes, [], ◌∷◌, byte_at,
  slice, arith,
}
use clp_core.Tokens.{Cursor}
use clp_core.Tokens.Bounds.{InOrder}
use clp_core.Codec.Lossless.{IsSafe, byte_at-slice}

abbrev pub no_minus : Bytes → Bool
no_minus [] = true
no_minus (c ∷ s) = not (c == b'-') && no_minus s

no_minus_at : (s : Bytes) (i : ℕ) → no_minus s ≡ true → byte_at s i ≢ b'-'
no_minus_at [] i h = λ e. ground arith
no_minus_at (c ∷ s) zero h = λ e. ground arith
no_minus_at (c ∷ s) (suc i) h = no_minus_at s i (ground arith)

begins_with_no_minus :
    (msg t : Bytes) (c : Cursor)
    → no_minus msg ≡ true
    → InOrder msg 0 c
    → slice msg c.begin_pos c.end_pos ≢ b'-' ∷ t
begins_with_no_minus msg t c h o = λ e. no_minus_at msg (c.begin_pos + 0) h (
    sym (byte_at-slice msg c.begin_pos c.end_pos 0 (omega (arith, o.nonempty)))
    ∙ ap (λ (s : Bytes). byte_at s 0) e)

pub no_minus-IsSafe : (msg : Bytes) → no_minus msg ≡ true → IsSafe msg
no_minus-IsSafe msg h = record {
  no_bare_point = λ c t o v. begins_with_no_minus msg (b'.' ∷ t) c h o;
  fits = λ c o v d e digits. absurd (begins_with_no_minus msg d c h o e);
}
