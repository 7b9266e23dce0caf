-- ===== src/Time/Order.antt =====
-- The fixed-width texts of internal/http/download.go sort as the instants that they stand for.
use shareserver.Base.{
  ℕ, zero, suc, ◌+◌, ◌-◌, ◌/◌, ◌%◌, ◌^◌, ◌≤◌, ◌<◌, ◌≡◌, ◌⊎◌, inl, inr, refl, ap, ◌∙◌, Bool, true,
  false, ◌&&◌, ◌||◌, List, [], ◌∷◌, ◌++◌, Text, text_lt, arith, ltb, ◌==◌, Bool-cases,
}
use mathlib.Core.List.{append_assoc}
use shareserver.Time.{pad, format_fixed, format_seconds, second, year_day, month_day, month_lengths}
use shareserver.Time.Calendar.{
  month_day-IsMonthDay, year_day-within, year_day-below, month_lengths-count, get_or-below,
}
use shareserver.Time.RoundTrip.{year_10000}

-- Digits compare as their numbers, and then what follows.
abbrev then_lt : ℕ → ℕ → Bool → Bool
then_lt a b rest = ltb a b || (a == b && rest)

-- By the first digits and the last one.
pad-split : (k n : ℕ) (x : Text) → pad (suc k) n ++ x ≡ pad k (n / 10) ++ (b'0' + n % 10) ∷ x
unfolding pad
pad-split k n x = append_assoc (pad k (n / 10)) ((b'0' + n % 10) ∷ []) x

digits-then :
    (a b : ℕ) (rest : Bool)
    → then_lt (a / 10) (b / 10) (then_lt (b'0' + a % 10) (b'0' + b % 10) rest) ≡ then_lt a b rest
digits-then a b rest = ground arith

pad-lt :
    (k a b : ℕ) (x y : Text)
    → a < 10 ^ k
    → b < 10 ^ k
    → text_lt (pad k a ++ x) (pad k b ++ y) ≡ then_lt a b (text_lt x y)
unfolding text_lt pad
pad-lt zero a b x y ha hb = ground (arith, ha, hb)
pad-lt (suc k) a b x y ha hb =
    let d = b'0' + a % 10 in
    let e = b'0' + b % 10 in
    let ih = pad-lt k (a / 10) (b / 10) (d ∷ x) (e ∷ y) (omega (arith, ha)) (omega (arith, hb)) in
    rw (pad-split k a x, pad-split k b y) (ih ∙ digits-then a b (text_lt x y))

-- A later day has a later year, or the same year and a later day in it.
year_day-later :
    (a b : ℕ)
    → a < b
    → ((year_day a).0 < (year_day b).0)
      ⊎ (((year_day a).0 ≡ (year_day b).0) × ((year_day a).1 < (year_day b).1))
unfolding year_day
year_day-later a b h = ground (arith, h)

month_day_from : (l : List ℕ) (m a : ℕ) → m ≤ (month_day l m a).0
unfolding month_day
month_day_from [] m a = omega arith
month_day_from (n ∷ l) m a = ground (arith, month_day_from l (m + 1) (a - n))

month_day-later :
    (l : List ℕ) (m a b : ℕ)
    → a < b
    → ((month_day l m a).0 < (month_day l m b).0)
      ⊎ (((month_day l m a).0 ≡ (month_day l m b).0) × ((month_day l m a).1 < (month_day l m b).1))
unfolding month_day
month_day-later [] m a b h = inr (refl, omega (arith, h))
month_day-later (n ∷ l) m a b h = elim (Bool-cases (ltb b n)) [
  | inl near ↦ ground (arith, h, near)
  | inr far ↦ elim (Bool-cases (ltb a n)) [
    | inl near ↦ ground (arith, h, near, far, month_day_from l (m + 1) (b - n))
    | inr away ↦
        let i = month_day-later l (m + 1) (a - n) (b - n) (ground (arith, h, away, far)) in
        ground (arith, away, far, i)
  ]
]

-- The text of the fields of a time, in the layout of the download guard.
abbrev stamp : ℕ → ℕ → ℕ → ℕ → ℕ → ℕ → ℕ → Text
stamp y m d h i c n =
    pad 4 y
    ++ b'-' ∷ pad 2 m
    ++ b'-' ∷ pad 2 d
    ++ b'T' ∷ pad 2 h
    ++ b':' ∷ pad 2 i
    ++ b':' ∷ pad 2 c
    ++ b'.' ∷ pad 9 n
    ++ b'Z' ∷ []

-- The date of a day counted from 0001-01-01.
abbrev year_of : ℕ → ℕ
year_of days = (year_day days).0

abbrev date_of : ℕ → ℕ × ℕ
date_of days = month_day (month_lengths (year_day days).0) 1 (year_day days).1

abbrev days_of : ℕ → ℕ
days_of t = t / second / 86400

abbrev clock_of : ℕ → ℕ
clock_of t = t / second % 86400

abbrev stamp_of : ℕ → Text
stamp_of t =
    stamp (year_of (days_of t)) (date_of (days_of t)).0 (date_of (days_of t)).1 (clock_of t / 3600)
      (clock_of t / 60 % 60) (clock_of t % 60) (t % second)

format_fixed-stamp : (t : ℕ) → format_fixed t ≡ stamp_of t
unfolding format_fixed format_seconds
format_fixed-stamp t = simp append_assoc refl

-- Dates compare as days.
date_of-later :
    (a b : ℕ)
    → a < b
    → (rest : Bool)
    → then_lt
        (year_of a)
        (year_of b)
        (then_lt (date_of a).0 (date_of b).0 (then_lt (date_of a).1 (date_of b).1 rest))
      ≡ true
date_of-later a b h rest = elim (year_day-later a b h) [
  | inl later ↦ ground (arith, later)
  | inr (same, further) ↦
      let m = month_day-later (month_lengths (year_of b)) 1 (year_day a).1 (year_day b).1 further in
      rw same (ground (arith, m))
]

date_of-earlier :
    (a b : ℕ)
    → a < b
    → (rest : Bool)
    → then_lt
        (year_of b)
        (year_of a)
        (then_lt (date_of b).0 (date_of a).0 (then_lt (date_of b).1 (date_of a).1 rest))
      ≡ false
date_of-earlier a b h rest = elim (year_day-later a b h) [
  | inl later ↦ ground (arith, later)
  | inr (same, further) ↦
      let m = month_day-later (month_lengths (year_of b)) 1 (year_day a).1 (year_day b).1 further in
      rw same (ground (arith, m))
]

date_of-lt :
    (a b : ℕ) (rest : Bool)
    → then_lt
        (year_of a)
        (year_of b)
        (then_lt (date_of a).0 (date_of b).0 (then_lt (date_of a).1 (date_of b).1 rest))
      ≡ then_lt a b rest
date_of-lt a b rest = elim (Bool-cases (ltb a b)) [
  | inl less ↦ date_of-later a b (ground (arith, less)) rest ∙ ground (arith, less)
  | inr not_less ↦ elim (Bool-cases (ltb b a)) [
    | inl more ↦ date_of-earlier b a (ground (arith, more)) rest ∙ ground (arith, more)
    | inr not_more ↦ let same : a ≡ b = ground (arith, not_less, not_more) in rw same (ground arith)
  ]
]

clock-then :
    (a b : ℕ) (rest : Bool)
    → then_lt
        (a / 3600)
        (b / 3600)
        (then_lt (a / 60 % 60) (b / 60 % 60) (then_lt (a % 60) (b % 60) rest))
      ≡ then_lt a b rest
clock-then a b rest = ground arith

instant-then :
    (a b : ℕ)
    → then_lt
        (days_of a)
        (days_of b)
        (then_lt (clock_of a) (clock_of b) (then_lt (a % second) (b % second) false))
      ≡ ltb a b
instant-then a b = ground arith

same-lt : (c : ℕ) (x y : Text) → text_lt (c ∷ x) (c ∷ y) ≡ text_lt x y
unfolding text_lt
same-lt c x y = ground arith

zone-lt : text_lt (b'Z' ∷ []) (b'Z' ∷ []) ≡ false
unfolding text_lt
zone-lt = refl

field-lt :
    (k a b sep : ℕ) (x y : Text)
    → a < 10 ^ k
    → b < 10 ^ k
    → text_lt (pad k a ++ sep ∷ x) (pad k b ++ sep ∷ y) ≡ then_lt a b (text_lt x y)
field-lt k a b sep x y ha hb =
    pad-lt k a b (sep ∷ x) (sep ∷ y) ha hb ∙ ap (then_lt a b) (same-lt sep x y)

stamp-lt :
    (y m d h i c n y' m' d' h' i' c' n' : ℕ)
    → (y < 10000) × (m < 100) × (d < 100) × (h < 100) × (i < 100) × (c < 100) × (n < second)
    → (y' < 10000) × (m' < 100) × (d' < 100) × (h' < 100) × (i' < 100) × (c' < 100) × (n' < second)
    → text_lt (stamp y m d h i c n) (stamp y' m' d' h' i' c' n')
      ≡ then_lt y y' (
          then_lt m m'
            (then_lt d d' (then_lt h h' (then_lt i i' (then_lt c c' (then_lt n n' false))))))
unfolding pad
stamp-lt y m d h i c n y' m' d' h' i' c' n' (a, b, e, f, g, j, k) (a', b', e', f', g', j', k') =
    field-lt 4 y y' b'-' _ _ a a'
    ∙ ap (then_lt y y') (
        field-lt 2 m m' b'-' _ _ b b'
        ∙ ap (then_lt m m') (
            field-lt 2 d d' b'T' _ _ e e'
            ∙ ap (then_lt d d') (
                field-lt 2 h h' b':' _ _ f f'
                ∙ ap (then_lt h h') (
                    field-lt 2 i i' b':' _ _ g g'
                    ∙ ap (then_lt i i') (
                        field-lt 2 c c' b'.' _ _ j j'
                        ∙ ap (then_lt c c') (
                            pad-lt 9 n n' (b'Z' ∷ []) (b'Z' ∷ []) k k'
                            ∙ ap (then_lt n n') zone-lt))))))

abbrev Fits : ℕ → Type 0
Fits t =
    (year_of (days_of t) < 10000)
    × ((date_of (days_of t)).0 < 100)
    × ((date_of (days_of t)).1 < 100)
    × (clock_of t / 3600 < 100)
    × (clock_of t / 60 % 60 < 100)
    × (clock_of t % 60 < 100)
    × (t % second < second)

fits : (t : ℕ) → t < year_10000 → Fits t
fits t early =
    let days = days_of t in
    let y = year_of days in
    let i = month_day-IsMonthDay (month_lengths y) 1 (year_day days).1 (year_day-within days) in
    let bound : i.index < 12 = omega (arith, i.bound, month_lengths-count y) in
    (
      year_day-below days (omega (arith, early)),
      omega (arith, i.month, bound),
      omega (arith, i.within, get_or-below y i.index),
      omega arith,
      omega arith,
      omega arith,
      omega arith,
    )

-- Before the year 10000 the fixed-width texts sort as the instants that they stand for.
pub format_fixed-lt :
    (a b : ℕ)
    → a < year_10000
    → b < year_10000
    → text_lt (format_fixed a) (format_fixed b) ≡ ltb a b
format_fixed-lt a b ha hb =
    let tail : Bool = then_lt (a % second) (b % second) false in
    let fields : text_lt (stamp_of a) (stamp_of b) ≡ _ =
      stamp-lt _ _ _ _ _ _ _ _ _ _ _ _ _ _ (fits a ha) (fits b hb) in
    (λ i. text_lt (format_fixed-stamp a i) (format_fixed-stamp b i))
    ∙ (fields
        ∙ (date_of-lt (days_of a) (days_of b) _
            ∙ (ap (then_lt (days_of a) (days_of b)) (clock-then (clock_of a) (clock_of b) tail)
                ∙ instant-then a b)))
