-- ===== src/Time/Fraction.antt =====
-- Where the stored text order departs from the order of time: RFC3339Nano drops trailing zeros.
use shareserver.Base.{
  ℕ, ◌+◌, ◌*◌, ◌/◌, ◌%◌, ◌<◌, ◌≡◌, refl, true, [], ◌∷◌, ◌++◌, Text, text_lt, arith,
}
use mathlib.Core.List.{append_assoc}
use shareserver.Time.{format_nano, fraction, second}

-- A common beginning does not matter to the order.
pub text_lt-append : (p s t : Text) → text_lt (p ++ s) (p ++ t) ≡ text_lt s t
unfolding text_lt
text_lt-append [] s t = refl
text_lt-append (c ∷ p) s t = ground (arith, text_lt-append p s t)

whole-fraction :
    (s n : ℕ) → n < second → ((s * second + n) / second ≡ s) × ((s * second + n) % second ≡ n)
whole-fraction s n h = omega arith

point-before-zone : (n : ℕ) → 0 < n → text_lt (fraction n ++ b'Z' ∷ []) (b'Z' ∷ []) ≡ true
unfolding fraction text_lt
point-before-zone n h = ground arith

no_fraction : fraction 0 ≡ []
unfolding fraction
no_fraction = refl

-- Within one second the stored text of every later instant with a fraction sorts before the text of
-- the whole second, so a text comparison in SQL contradicts the order of the instants.
pub format_nano-inverts :
    (s n : ℕ)
    → 0 < n
    → n < second
    → text_lt (format_nano (s * second + n)) (format_nano (s * second)) ≡ true
unfolding format_nano
format_nano-inverts s n p h =
    let a : (s * second + n) / second ≡ s = omega arith in
    let b : (s * second + n) % second ≡ n = omega arith in
    let c : s * second / second ≡ s = omega arith in
    let d : s * second % second ≡ 0 = omega arith in
    rw (a, b, c, d, no_fraction) (simp (append_assoc, text_lt-append) (point-before-zone n p))
