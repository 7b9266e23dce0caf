-- ===== src/Time.antt =====
-- Go's time.Time in UTC, and the two text forms that the program stores: time.RFC3339Nano
-- (internal/db/db.go, internal/share/model.go, internal/auth/auth.go, internal/http/sessions.go) and
-- the fixed-width layout of internal/http/download.go. An instant is the number of nanoseconds since
-- 0001-01-01T00:00:00Z, so the zero time.Time is 0.
pub mod Fraction
mod Digits
mod Calendar
pub mod RoundTrip
pub mod Order
mod Tests
use shareserver.Base.{
  ℕ, zero, suc, ◌+◌, ◌-◌, ◌*◌, ◌/◌, ◌%◌, ◌^◌, Bool, true, false, ◌&&◌, ◌||◌, not, Option, none,
  some, List, [], ◌∷◌, ◌++◌, Text, ltb, leb, ◌==◌, if◌then◌else◌, take, drop, length,
}
use Prim.Native.Nat.{min}
use mathlib.Core.List.{reverse}

abbrev pub second : ℕ
second = 1_000_000_000

abbrev pub minute : ℕ
minute = 60_000_000_000

abbrev pub hour : ℕ
hour = 3_600_000_000_000

-- `n` in `k` decimal digits, with leading zeros.
unfoldable pub pad : ℕ → ℕ → Text
pad zero n = []
pad (suc k) n = pad k (n / 10) ++ (b'0' + n % 10) ∷ []

-- The year and the day of the year, from 0, of a day counted from 0001-01-01.
unfoldable pub year_day : ℕ → ℕ × ℕ
year_day days =
    let n400 = days / 146097 in
    let d400 = days % 146097 in
    let n100 = min 3 (d400 / 36524) in
    let d100 = d400 - 36524 * n100 in
    let n4 = d100 / 1461 in
    let d4 = d100 % 1461 in
    let n1 = min 3 (d4 / 365) in (400 * n400 + 100 * n100 + 4 * n4 + n1 + 1, d4 - 365 * n1)

unfoldable pub is_leap : ℕ → Bool
is_leap y = y % 4 == 0 && (not (y % 100 == 0) || y % 400 == 0)

unfoldable pub month_lengths : ℕ → List ℕ
unfolding is_leap
month_lengths y =
    31 ∷ (if is_leap y then 29 else 28) ∷ 31 ∷ 30 ∷ 31 ∷ 30 ∷ 31 ∷ 31 ∷ 30 ∷ 31 ∷ 30 ∷ 31 ∷ []

-- The month, from `m`, and the day of the month, from 1, of a day of the year.
unfoldable pub month_day : List ℕ → ℕ → ℕ → ℕ × ℕ
month_day [] m yday = (m, yday + 1)
month_day (n ∷ rest) m yday =
    let later = month_day rest (m + 1) (yday - n) in if ltb yday n then (m, yday + 1) else later

-- `2006-01-02T15:04:05` of a number of seconds. Go writes a year above 9999 in more digits.
unfoldable pub format_seconds : ℕ → Text
unfolding pad year_day month_lengths month_day
format_seconds s =
    let (y, yday) = year_day (s / 86400) in
    let (m, d) = month_day (month_lengths y) 1 yday in
    let r = s % 86400 in
    pad 4 y
    ++ b'-' ∷ pad 2 m
    ++ b'-' ∷ pad 2 d
    ++ b'T' ∷ pad 2 (r / 3600)
    ++ b':' ∷ pad 2 (r / 60 % 60)
    ++ b':' ∷ pad 2 (r % 60)

-- Trailing zeros go, as `.999999999` says.
unfoldable pub strip_zeros : Text → Text
strip_zeros [] = []
strip_zeros (c ∷ s) = elim (strip_zeros s) [
  | [] ↦ if c == b'0' then [] else c ∷ []
  | d ∷ t ↦ c ∷ d ∷ t
]

unfoldable pub fraction : ℕ → Text
unfolding strip_zeros pad
fraction ns = if ns == 0 then [] else b'.' ∷ strip_zeros (pad 9 ns)

-- `t.Format(time.RFC3339Nano)`
unfoldable pub format_nano : ℕ → Text
format_nano t = format_seconds (t / second) ++ fraction (t % second) ++ b'Z' ∷ []

-- `t.Format(downloadTimestamp)`, always nine digits.
unfoldable pub format_fixed : ℕ → Text
format_fixed t = format_seconds (t / second) ++ b'.' ∷ pad 9 (t % second) ++ b'Z' ∷ []

infixl 5 ◌>>=◌ ◌>>◌
abbrev ◌>>=◌ {ℓ κ} : {A : Type ℓ} {B : Type κ} → Option A → (A → Option B) → Option B
none >>= f = none
some a >>= f = f a

abbrev ◌>>◌ {ℓ} : {B : Type ℓ} → Option (Unit {0}) → Option B → Option B
m >> k = m >>= λ _. k

abbrev guard : Bool → Option (Unit {0})
guard b = if b then some tt else none

abbrev is_digit : ℕ → Bool
is_digit c = leb b'0' c && leb c b'9'

-- Exactly `k` digits.
unfoldable number_from : ℕ → ℕ → Text → Option (ℕ × Text)
number_from zero n s = some (n, s)
number_from (suc k) n [] = none
number_from (suc k) n (c ∷ s) =
    let rest = number_from k (10 * n + (c - b'0')) s in if is_digit c then rest else none

unfoldable byte : ℕ → Text → Option Text
byte b [] = none
byte b (c ∷ s) = if c == b then some s else none

unfoldable digits : Text → Text × Text
digits [] = ([], [])
digits (c ∷ s) = let (ds, rest) = digits s in if is_digit c then (c ∷ ds, rest) else ([], c ∷ s)

-- The first nine digits of a fraction, as nanoseconds; later ones are dropped.
unfoldable nanos : ℕ → ℕ → Text → ℕ
nanos zero n s = n
nanos (suc k) n [] = nanos k (10 * n) []
nanos (suc k) n (c ∷ s) = nanos k (10 * n + (c - b'0')) s

-- The hour has two digits, or one where no second digit follows.
unfoldable hour_from : Text → Option (ℕ × Text)
unfolding number_from
hour_from s = elim (number_from 2 0 s) [ some r ↦ some r | none ↦ number_from 1 0 s ]

-- An optional fraction; a point that no digit follows is left for the zone, which refuses it.
unfoldable parse_fraction : Text → ℕ × Text
unfolding nanos digits
parse_fraction [] = (0, [])
parse_fraction (c ∷ s) =
    let (ds, rest) = digits s in
    if (c == b'.' || c == b',') && not (length ds == 0) then (nanos 9 0 ds, rest) else (0, c ∷ s)

-- `Z`, or an offset in minutes with its sign: true is east. 24 hours and 60 minutes are let through.
unfoldable parse_zone : Text → Option (Bool × ℕ)
unfolding number_from byte
parse_zone [] = none
parse_zone (c ∷ s) = if c == b'Z' then (if length s == 0 then some (true, 0) else none) else do
  guard (c == b'+' || c == b'-')
  h ← number_from 2 0 s
  s2 ← byte b':' h.1
  m ← number_from 2 0 s2
  guard (leb h.0 24 && leb m.0 60 && length m.1 == 0)
  some (c == b'+', 60 * h.0 + m.0)

-- Days before the first of January of a year, and before a month of it.
unfoldable days_before_year : ℕ → ℕ
days_before_year y = 365 * (y - 1) + (y - 1) / 4 - (y - 1) / 100 + (y - 1) / 400

unfoldable sum : List ℕ → ℕ
sum [] = 0
sum (x ∷ xs) = x + sum xs

unfoldable get_or : List ℕ → ℕ → ℕ → ℕ
get_or [] i d = d
get_or (x ∷ xs) zero d = x
get_or (x ∷ xs) (suc i) d = get_or xs i d

-- `time.Parse(time.RFC3339Nano, s)`. What lies before the year 1 becomes the zero time, which every
-- comparison with a current time treats alike.
unfoldable pub parse : Text → Option ℕ
unfolding number_from byte hour_from parse_fraction parse_zone days_before_year sum get_or
    month_lengths
parse s = do
  y ← number_from 4 0 s
  s1 ← byte b'-' y.1
  m ← number_from 2 0 s1
  s2 ← byte b'-' m.1
  d ← number_from 2 0 s2
  s3 ← byte b'T' d.1
  h ← hour_from s3
  s4 ← byte b':' h.1
  i ← number_from 2 0 s4
  s5 ← byte b':' i.1
  c ← number_from 2 0 s5
  let f = parse_fraction c.1
  z ← parse_zone f.1
  guard (leb 1 m.0 && leb m.0 12 && leb 1 d.0 && leb d.0 (get_or (month_lengths y.0) (m.0 - 1) 0))
  guard (ltb h.0 24 && ltb i.0 60 && ltb c.0 60)
  let days = days_before_year y.0 + sum (take (m.0 - 1) (month_lengths y.0)) + (d.0 - 1)
  let local = (((days * 24 + h.0) * 60 + i.0) * 60 + c.0) * second + f.0
  some (if z.0 then local - z.1 * minute else local + z.1 * minute)
