-- ===== src/Time/RoundTrip.antt =====
-- time.RFC3339Nano read back: what the program stores as a text is the instant that it wrote.
use shareserver.Base.{
  ℕ, ◌+◌, ◌-◌, ◌*◌, ◌/◌, ◌%◌, ◌≤◌, ◌<◌, ◌≡◌, refl, ap, ◌∙◌, [], ◌∷◌, ◌++◌, Text, some, arith, take,
}
use mathlib.Core.List.{append_assoc}
use shareserver.Time.{
  number_from, hour_from, format_nano, format_seconds, pad, fraction, parse, second,
  days_before_year, sum, get_or, month_lengths, month_day, year_day,
}
use shareserver.Time.Digits.{number_from-pad2, number_from-pad4, parse_fraction-fraction}
use shareserver.Time.Calendar.{
  month_day-IsMonthDay, year_day-days, year_day-within, year_day-below, month_lengths-count,
  get_or-below,
}

-- The text of the fields of a time.
abbrev written : ℕ → ℕ → ℕ → ℕ → ℕ → ℕ → ℕ → Text
written y m d h i c n =
    pad 4 y
    ++ b'-' ∷ pad 2 m
    ++ b'-' ∷ pad 2 d
    ++ b'T' ∷ pad 2 h
    ++ b':' ∷ pad 2 i
    ++ b':' ∷ pad 2 c
    ++ fraction n
    ++ b'Z' ∷ []

hour_from-pad2 : (h : ℕ) (rest : Text) → h < 100 → hour_from (pad 2 h ++ rest) ≡ some (h, rest)
unfolding hour_from number_from pad
hour_from-pad2 h rest b = ground (arith, b)

parse-written :
    (y m d h i c n : ℕ)
    → y < 10000
    → (1 ≤ m) × (m ≤ 12)
    → (1 ≤ d) × (d ≤ get_or (month_lengths y) (m - 1) 0)
    → (h < 24) × (i < 60) × (c < 60) × (n < 1_000_000_000)
    → parse (written y m d h i c n)
      ≡ some (
          ((((days_before_year y + sum (take (m - 1) (month_lengths y)) + (d - 1)) * 24 + h) * 60
                  + i)
                * 60
              + c)
            * second
          + n)
unfolding parse pad
parse-written y m d h i c n hy hm hd (hh, hi, hc, hn) =
    rw
      (
        number_from-pad4 y _ hy,
        number_from-pad2 m _ (omega (arith, hm)),
        number_from-pad2 d _ (omega (arith, hd, get_or-below y (m - 1))),
        hour_from-pad2 h _ (omega (arith, hh)),
        number_from-pad2 i _ (omega (arith, hi)),
        number_from-pad2 c _ (omega (arith, hc)),
        parse_fraction-fraction n hn,
      )
      (ground (arith, hm, hd, hh, hi, hc))

-- The last instant that RFC3339 writes in four digits of a year ends here.
abbrev pub year_10000 : ℕ
year_10000 = 315_537_897_600 * second

module _ (t : ℕ) (late : t < year_10000) where
  abbrev days : ℕ
  days = t / second / 86400

  abbrev clock : ℕ
  clock = t / second % 86400

  abbrev date : ℕ × ℕ
  date = month_day (month_lengths (year_day days).0) 1 (year_day days).1

  format_nano-written :
      format_nano t
      ≡ written
          (year_day days).0
          date.0
          date.1
          (clock / 3600)
          (clock / 60 % 60)
          (clock % 60)
          (t % second)
  unfolding format_nano format_seconds
  format_nano-written = simp append_assoc refl

  -- A time before the year 10000 that was written is read back as itself.
  pub parse-format_nano : parse (format_nano t) ≡ some t
  parse-format_nano =
      let y = (year_day days).0 in
      let early : days < 3_652_059 = omega (arith, late) in
      let i = month_day-IsMonthDay (month_lengths y) 1 (year_day days).1 (year_day-within days) in
      let at : date.0 - 1 ≡ i.index = omega (arith, i.month) in
      let bound : i.index < 12 = omega (arith, i.bound, month_lengths-count y) in
      let read =
        parse-written y date.0 date.1 (clock / 3600) (clock / 60 % 60) (clock % 60) (t % second)
          (year_day-below days early) (omega (arith, i.month), omega (arith, i.month, bound))
          (i.day, rw at i.within) (omega arith, omega arith, omega arith, omega arith) in
      let total : sum (take (date.0 - 1) (month_lengths y)) + date.1 ≡ (year_day days).1 + 1 =
        rw at i.total in
      let value : ((((days_before_year y + sum (take (date.0 - 1) (month_lengths y)) + (date.1 - 1))
                          * 24
                        + clock / 3600)
                      * 60
                    + clock / 60 % 60)
                  * 60
                + clock % 60)
              * second
            + t % second
          ≡ t =
        omega (arith, total, year_day-days days, i.day) in
      ap parse format_nano-written ∙ (read ∙ ap some value)
