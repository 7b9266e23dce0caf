-- ===== src/Time/Digits.antt =====
-- Numbers in decimal digits, written and read.
use shareserver.Base.{
  ℕ, zero, suc, ◌+◌, ◌-◌, ◌*◌, ◌≤◌, ◌<◌, ◌≡◌, ◌≢◌, ◌∙◌, ap, refl, [], ◌∷◌, ◌++◌, Text, some, arith,
  All,
}
use shareserver.Time.{pad, number_from, digits, nanos, strip_zeros, fraction, parse_fraction}

pub number_from-pad2 : (n : ℕ) (s : Text) → n < 100 → number_from 2 0 (pad 2 n ++ s) ≡ some (n, s)
unfolding pad number_from
number_from-pad2 n s h = ground (arith, h)

pub number_from-pad4 : (n : ℕ) (s : Text) → n < 10000 → number_from 4 0 (pad 4 n ++ s) ≡ some (n, s)
unfolding pad number_from
number_from-pad4 n s h = ground (arith, h)

-- Zeros at the end of a fraction do not count.
nanos-strip_zeros : (k n : ℕ) (s : Text) → nanos k n (strip_zeros s) ≡ nanos k n s
unfolding nanos strip_zeros
nanos-strip_zeros zero n s = refl
nanos-strip_zeros (suc k) n [] = refl
nanos-strip_zeros (suc k) n (c ∷ s) = ground (arith, nanos-strip_zeros k (10 * n + (c - 48)) s)

nanos-pad : (n : ℕ) → n < 1_000_000_000 → nanos 9 0 (pad 9 n) ≡ n
unfolding nanos pad
nanos-pad n h = ground (arith, h)

-- Digits only, then no digit.
abbrev IsDigit : ℕ → Type 0
IsDigit c = (b'0' ≤ c) × (c ≤ b'9')

strip_zeros-digits : (s : Text) → All IsDigit s → All IsDigit (strip_zeros s)
unfolding strip_zeros
strip_zeros-digits [] h = tt
strip_zeros-digits (c ∷ s) h = ground (arith, h, strip_zeros-digits s h.1)

digits-All : (s : Text) → All IsDigit s → digits (s ++ b'Z' ∷ []) ≡ (s, b'Z' ∷ [])
unfolding digits
digits-All [] h = refl
digits-All (c ∷ s) h = ground (arith, h, digits-All s h.1)

pad9-digits : (n : ℕ) → All IsDigit (pad 9 n)
unfolding pad
pad9-digits n = ground arith

nanos-strip_pad : (n : ℕ) → n < 1_000_000_000 → nanos 9 0 (strip_zeros (pad 9 n)) ≡ n
nanos-strip_pad n h = nanos-strip_zeros 9 0 (pad 9 n) ∙ nanos-pad n h

nanos-empty : nanos 9 0 [] ≡ 0
unfolding nanos
nanos-empty = refl

-- A point and digits, not none, are read as their nanoseconds.
parse_fraction-digits :
    (s : Text)
    → All IsDigit s
    → nanos 9 0 s ≢ 0
    → parse_fraction (b'.' ∷ s ++ b'Z' ∷ []) ≡ (nanos 9 0 s, b'Z' ∷ [])
unfolding parse_fraction
parse_fraction-digits [] a h = absurd (h nanos-empty)
parse_fraction-digits (c ∷ s) a h = ground (arith, digits-All (c ∷ s) a)

parse_fraction-none : parse_fraction (b'Z' ∷ []) ≡ (0, b'Z' ∷ [])
unfolding parse_fraction
parse_fraction-none = refl

pub parse_fraction-fraction :
    (n : ℕ) → n < 1_000_000_000 → parse_fraction (fraction n ++ b'Z' ∷ []) ≡ (n, b'Z' ∷ [])
unfolding fraction
parse_fraction-fraction zero h = parse_fraction-none
parse_fraction-fraction (suc n) h =
    let s = strip_zeros (pad 9 (suc n)) in
    let value = nanos-strip_pad (suc n) h in
    let digits_only = strip_zeros-digits (pad 9 (suc n)) (pad9-digits (suc n)) in
    let read = parse_fraction-digits s digits_only (λ e. absurd (omega (arith, e, value))) in
    let shape : fraction (suc n) ≡ b'.' ∷ s = ground arith in
    ap (λ x. parse_fraction (x ++ b'Z' ∷ [])) shape ∙ (read ∙ ap (λ x. (x, b'Z' ∷ [])) value)
