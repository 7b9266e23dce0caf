-- ===== src/Http/Guessing.antt =====
-- internal/http/download.go: guesses in a row, at instants within one minute, end in a ban.
use shareserver.Base.{
  ℕ, suc, ◌+◌, ◌-◌, ◌*◌, ◌<◌, ◌≤◌, ◌≡◌, refl, ap, ◌∙◌, sym, Bool, true, none, some, List, [], ◌∷◌,
  ◌++◌, All, Text, text_eq, text_eq_refl, text_lt, arith, ltb, keep, find?, length, Option-cases,
  Bool-cases, leb, keep-discard, inl, inr, ◌⊎◌,
}
use mathlib.Core.Path.{subst}
use shareserver.Time.{format_nano, format_fixed, minute, hour}
use shareserver.Time.RoundTrip.{year_10000, parse-format_nano}
use shareserver.Time.Order.{format_fixed-lt}
use shareserver.World.{World, FailureRow, fault}
use shareserver.World.Db.{get_ban}
use shareserver.World.BanTable.{until_of}
use shareserver.Http.Download.{record_failure, count_failure, banned_until, failure_key, new_until}
use shareserver.Http.Banned.{
  attempts_with, counts, stale, swept, set_ban-until, count_failure-steps,
}

-- A wrong password at each of the instants.
abbrev pub guess : Text → ℕ → List ℕ → World → World
guess ip jitter [] w = w
guess ip jitter (t ∷ ts) w = guess ip jitter ts (record_failure ip t jitter w).1

text_lt_trans : (r s t : Text) → text_lt r s ≡ true → text_lt s t ≡ true → text_lt r t ≡ true
unfolding text_lt
text_lt_trans [] [] t a b = absurd (ground arith)
text_lt_trans (c ∷ r) [] t a b = absurd (ground arith)
text_lt_trans [] (d ∷ s) [] a b = absurd (ground arith)
text_lt_trans [] (d ∷ s) (e ∷ t) a b = refl
text_lt_trans (c ∷ r) (d ∷ s) [] a b = absurd (ground arith)
text_lt_trans (c ∷ r) (d ∷ s) (e ∷ t) a b = ground (arith, text_lt_trans r s t, a, b)

length-keep_le {ℓ} :
    {A : Type ℓ} (p q : A → Bool)
    → ((x : A) → p x ≡ true → q x ≡ true)
    → (l : List A) → length (keep p l) ≤ length (keep q l)
length-keep_le p q h [] = omega arith
length-keep_le p q h (x ∷ l) = ground (arith, h x, length-keep_le p q h l, Bool-cases (p x))

length-keep_last {ℓ} :
    {A : Type ℓ} (p : A → Bool) (l : List A) (x : A)
    → p x ≡ true
    → length (keep p (l ++ x ∷ [])) ≡ suc (length (keep p l))
length-keep_last p [] x h = ground (arith, h)
length-keep_last p (y ∷ l) x h = ground (arith, length-keep_last p l x h)

module _ (ip : Text) (last : ℕ) (minute_in : minute ≤ last)
    (early : last + 48 * hour < year_10000) where
  -- What counts at the last instant counted at each one within the minute before it.
  counts-earlier :
      (t : ℕ) (e : FailureRow) → t ≤ last → counts ip last e ≡ true → counts ip t e ≡ true
  counts-earlier t e h c = elim (Bool-cases (ltb (t - minute) (last - minute))) [
    | inl less ↦ ground (
      arith,
      c,
      text_lt_trans (format_fixed (t - minute)) (format_fixed (last - minute)) e.happened_at,
      format_fixed-lt (t - minute) (last - minute) (omega (arith, early, h)) (omega (arith, early)),
      less,
    )
    | inr not_less ↦
        let same : t - minute ≡ last - minute = ground (arith, h, not_less) in rw same c
  ]

  banned_until-free :
      (t : ℕ) (w : World)
      → w.faults ≡ []
      → until_of (failure_key ip) w.bans ≡ none
      → banned_until ip t w ≡ (none, w)
  unfolding banned_until get_ban fault
  banned_until-free t w f h =
      elim (Option-cases (find? (λ b. text_eq b.id (failure_key ip)) w.bans)) [
        | inl absent ↦ ground (arith, f, absent)
        | inr (b, found) ↦ absurd (ground (arith, h, found))
      ]

  banned_until-stands :
      (t end : ℕ) (w : World)
      → w.faults ≡ []
      → end < year_10000
      → t < end
      → until_of (failure_key ip) w.bans ≡ some (format_nano end)
      → banned_until ip t w ≡ (some end, w)
  unfolding banned_until get_ban fault
  banned_until-stands t end w f y l h =
      elim (Option-cases (find? (λ b. text_eq b.id (failure_key ip)) w.bans)) [
        | inl absent ↦ absurd (ground (arith, h, absent))
        | inr (b, found) ↦ ground (arith, f, h, l, found, parse-format_nano end y)
      ]

  -- The address is banned beyond the last instant, or at least `k` wrong passwords count, and `k` is
  -- not beyond the limit.
  abbrev IsBanned : World → Type 0
  IsBanned w =
      (end : ℕ) × (until_of (failure_key ip) w.bans ≡ some (format_nano end))
      × (last < end)
      × (end < year_10000)

  abbrev IsCounted : ℕ → World → Type 0
  IsCounted k w =
      (until_of (failure_key ip) w.bans ≡ none)
      × (k ≤ length (keep (counts ip last) w.failures))
      × (k ≤ 10)

  abbrev State : ℕ → World → Type 0
  State k w = (w.faults ≡ []) × (IsBanned w ⊎ IsCounted k w)

  module _ (t jitter : ℕ) (before : t ≤ last) (near : last < t + minute)
      (small : jitter ≤ 21600) where
    abbrev event : FailureRow
    event = record { ip = failure_key ip; happened_at = format_fixed t }

    event-counts : counts ip last event ≡ true
    event-counts = ground (
      arith,
      text_eq_refl (failure_key ip),
      format_fixed-lt (last - minute) t (omega (arith, early)) (omega (arith, early, before)),
      near,
      minute_in,
    )

    swept-count :
        (w : World)
        → length (keep (counts ip last) (swept ip t jitter w).failures)
          ≡ suc (length (keep (counts ip last) w.failures))
    swept-count w =
        ap length (
          keep-discard (counts ip last) (stale ip t jitter)
            (λ e h. ground (arith, counts-earlier t e before h)) (w.failures ++ event ∷ []))
        ∙ length-keep_last (counts ip last) w.failures event event-counts

    attempts-count :
        (w : World) → suc (length (keep (counts ip last) w.failures)) ≤ attempts_with ip t w
    attempts-count w =
        let l = length-keep_last (counts ip last) w.failures event event-counts in
        omega (
          arith,
          l,
          length-keep_le (counts ip last) (counts ip t) (λ e h. counts-earlier t e before h)
              (w.failures ++ event ∷ []),
        )

    step-banned : (w : World) → w.faults ≡ [] → IsBanned w → (record_failure ip t jitter w).1 ≡ w
    unfolding record_failure
    step-banned w f (end, h, l, y) =
        ground (arith, banned_until-stands t end w f y (omega (arith, before, l)) h)

    step-counted :
        (w : World)
        → w.faults ≡ []
        → until_of (failure_key ip) w.bans ≡ none
        → record_failure ip t jitter w ≡ count_failure ip t jitter w
    unfolding record_failure
    step-counted w f h = ground (arith, banned_until-free t w f h)

    step-State : (k : ℕ) (w : World) → State k w → State (suc k) (record_failure ip t jitter w).1
    step-State k w (f, inl b) = subst (State (suc k)) (sym (step-banned w f b)) (f, inl b)
    step-State k w (f, inr (free, many, low)) =
        let s = count_failure-steps ip t jitter w f in
        let n = attempts-count w in
        elim (Bool-cases (leb (attempts_with ip t w) 10)) [
          | inl few ↦
              let e = step-counted w f free ∙ s.0 (ground (arith, few)) in
              subst (λ x. State (suc k) x.1) (sym e)
                (f, inr (free, omega (arith, many, swept-count w), ground (arith, few, n, many)))
          | inr over ↦
              let e = step-counted w f free ∙ s.1 (ground (arith, over)) in
              let b = set_ban-until (failure_key ip) t jitter (swept ip t jitter w) f in
              subst (λ x. State (suc k) x.1) (sym e)
                (
                  b.2,
                  inl (
                    new_until t jitter,
                    b.1,
                    omega (arith, near, before, small),
                    omega (arith, near, before, small, early),
                  ),
                )
        ]

  guess-State :
      (ts : List ℕ) (jitter k : ℕ) (w : World)
      → jitter ≤ 21600
      → All (λ t. (t ≤ last) × (last < t + minute)) ts
      → State k w
      → State (length ts + k) (guess ip jitter ts w)
  guess-State [] jitter k w j h s =
      let same : k ≡ 0 + k = omega arith in subst (λ n. State n w) same s
  guess-State (t ∷ ts) jitter k w j ((before, near), h) s =
      let one = step-State t jitter before near j k w s in
      let rest = guess-State ts jitter (suc k) (record_failure ip t jitter w).1 j h one in
      let same : length ts + suc k ≡ suc (length ts) + k = omega arith in
      subst (λ n. State n (guess ip jitter (t ∷ ts) w)) same rest

  -- Without database errors, an address without a ban that sends eleven or more wrong download passwords
  -- at instants within the minute up to `last` is banned at `last`, whatever was recorded before.
  pub guess-banned :
      (ts : List ℕ) (jitter : ℕ) (w : World)
      → w.faults ≡ []
      → until_of (failure_key ip) w.bans ≡ none
      → jitter ≤ 21600
      → All (λ t. (t ≤ last) × (last < t + minute)) ts
      → 11 ≤ length ts
      → (end : ℕ) × ((banned_until ip last (guess ip jitter ts w)).0 ≡ some end) × (last < end)
  guess-banned ts jitter w f free j h many =
      let start : State 0 w = (f, inr (free, omega arith, omega arith)) in
      ended (guess ip jitter ts w) (guess-State ts jitter 0 w j h start)
    where
      ended :
          (v : World)
          → State (length ts + 0) v
          → (end : ℕ) × ((banned_until ip last v).0 ≡ some end) × (last < end)
      ended v (g, inl (end, b, l, y)) =
          (end, ap (λ x. x.0) (banned_until-stands last end v g y l b), l)
      ended v (g, inr (_, _, low)) = absurd (omega (arith, many, low))
