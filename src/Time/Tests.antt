-- ===== src/Time/Tests.antt =====
-- Text forms at known instants, and the trimming of white space.
use shareserver.Base.{ℕ, ◌+◌, ◌*◌, ◌≡◌, refl, some, none, [], ◌∷◌, codes, trim_space}
use shareserver.Time.{format_nano, format_fixed, format_seconds, fraction, pad, parse, second}

-- 2026-11-26T13:42:53.25Z
abbrev sample : ℕ
sample = 63_931_297_373 * second + 250_000_000

format_nano_run : format_nano sample ≡ codes "2026-11-26T13:42:53.25Z"
unfolding format_nano format_seconds fraction
format_nano_run = refl

format_fixed_run : format_fixed sample ≡ codes "2026-11-26T13:42:53.250000000Z"
unfolding format_fixed format_seconds pad
format_fixed_run = refl

parse_run : parse (codes "2026-11-26T21:42:53.25+08:00") ≡ some sample
unfolding parse
parse_run = refl

parse_leap : parse (codes "2024-02-29T00:00:00Z") ≡ parse (codes "2024-02-28T23:00:00-01:00")
unfolding parse
parse_leap = refl

parse_bad : parse (codes "2026-02-29T00:00:00Z") ≡ none
unfolding parse
parse_bad = refl

parse_short_hour : parse (codes "2026-11-26T9:00:00Z") ≡ parse (codes "2026-11-27T09:00:00+24:00")
unfolding parse
parse_short_hour = refl

-- A no-break space before, an ideographic space after.
trim_space_wide :
    trim_space (0xc2 ∷ 0xa0 ∷ b'a' ∷ b' ' ∷ b'b' ∷ 0xe3 ∷ 0x80 ∷ 0x80 ∷ []) ≡ codes "a b"
unfolding trim_space
trim_space_wide = refl
