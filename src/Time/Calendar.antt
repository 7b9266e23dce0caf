-- ===== src/Time/Calendar.antt =====
-- A day's year and month, and the day that they stand for.
use shareserver.Base.{
  ℕ, suc, ◌+◌, ◌-◌, ◌≤◌, ◌<◌, ◌≡◌, refl, List, [], ◌∷◌, ltb, arith, take, length, Bool-cases, inl,
  inr,
}
use shareserver.Time.{year_day, is_leap, month_lengths, month_day, days_before_year, sum, get_or}

-- Where a day of the year lies: the month's number, from `m`, and the day in it.
pub record IsMonthDay (l : List ℕ) (m yday : ℕ) (r : ℕ × ℕ) : Type 0 where
  pub index : ℕ
  pub month : r.0 ≡ m + index
  pub bound : index < length l
  pub day : 1 ≤ r.1
  pub within : r.1 ≤ get_or l index 0
  pub total : sum (take index l) + r.1 ≡ yday + 1

pub month_day-IsMonthDay :
    (l : List ℕ) (m yday : ℕ) → yday < sum l → IsMonthDay l m yday (month_day l m yday)
unfolding month_day sum get_or
month_day-IsMonthDay [] m yday h = absurd (omega (arith, h))
month_day-IsMonthDay (n ∷ l) m yday h = elim (Bool-cases (ltb yday n)) [
  | inl here ↦ rw here (record {
    index = 0;
    month = omega arith;
    bound = omega arith;
    day = omega arith;
    within = ground (arith, here);
    total = omega arith;
  })
  | inr later ↦
      let i : IsMonthDay l (m + 1) (yday - n) (month_day l (m + 1) (yday - n)) =
        month_day-IsMonthDay l (m + 1) (yday - n) (ground (arith, h, later)) in
      rw later (record {
        index = suc i.index;
        month = omega (arith, i.month);
        bound = omega (arith, i.bound);
        day = i.day;
        within = i.within;
        total = ground (arith, i.total, later);
      })
]

pub year_day-days : (days : ℕ) → days_before_year (year_day days).0 + (year_day days).1 ≡ days
unfolding year_day days_before_year
year_day-days days = omega arith

-- A day of a year lies in one of its months.
pub year_day-within : (days : ℕ) → (year_day days).1 < sum (month_lengths (year_day days).0)
unfolding year_day month_lengths is_leap sum
year_day-within days = ground arith

-- Before the year 10000.
pub year_day-below : (days : ℕ) → days < 3_652_059 → (year_day days).0 < 10000
unfolding year_day
year_day-below days h = omega (arith, h)

pub month_lengths-count : (y : ℕ) → length (month_lengths y) ≡ 12
unfolding month_lengths
month_lengths-count y = refl

pub get_or-below : (y i : ℕ) → get_or (month_lengths y) i 0 ≤ 31
unfolding month_lengths is_leap get_or
get_or-below y i = ground arith
