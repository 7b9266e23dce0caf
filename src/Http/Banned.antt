-- ===== src/Http/Banned.antt =====
-- internal/http/download.go: the ban that repeated wrong download passwords bring.
use shareserver.Base.{
  ℕ, ◌-◌, ◌<◌, ◌≤◌, ◌≡◌, ap, ◌∙◌, Bool, ◌&&◌, not, none, some, [], ◌∷◌, ◌++◌, Text, text_eq,
  text_lt, has_prefix, arith, ltb, keep, discard, find?, length, Option-cases, keep-discard, inl,
  inr, if◌then◌else◌,
}
use shareserver.Time.{format_nano, format_fixed, minute}
use shareserver.Time.RoundTrip.{year_10000, parse-format_nano}
use shareserver.World.{World, FailureRow, fault}
use shareserver.World.Db.{get_ban, delete_ban, create_failure, delete_failures, count_failures}
use shareserver.World.BanTable.{until_of, update_ban-until, create_ban-until}
use shareserver.Http.Download.{
  allowed, banned, record_failure, count_failure, banned_until, failure_key, set_ban, new_until,
  download_failure_prefix,
}

-- The wrong passwords that count at `now`, with the one that is recorded now.
abbrev pub counts : Text → ℕ → FailureRow → Bool
counts ip now e =
    text_eq e.ip (failure_key ip) && text_lt (format_fixed (now - minute)) e.happened_at

abbrev pub attempts_with : Text → ℕ → World → ℕ
attempts_with ip now w = length (
    keep (counts ip now)
      (w.failures ++ (record { ip = failure_key ip; happened_at = format_fixed now }) ∷ []))

pub set_ban-until :
    (key : Text) (now jitter : ℕ) (w : World)
    → w.faults ≡ []
    → ((set_ban key now jitter w).0 ≡ banned (new_until now jitter))
      × (until_of key (set_ban key now jitter w).1.bans ≡ some (format_nano (new_until now jitter)))
      × ((set_ban key now jitter w).1.faults ≡ [])
unfolding get_ban fault
set_ban-until key now jitter w f =
    let until = format_nano (new_until now jitter) in
    elim (Option-cases (find? (λ b. text_eq b.id key) w.bans)) [
      | inl fresh ↦ ground (arith, f, fresh, create_ban-until key until w f fresh)
      | inr (old, stands) ↦ ground (arith, f, stands, update_ban-until key until w old f stands)
    ]

banned_until-end :
    (ip : Text) (end : ℕ) (w : World)
    → end < year_10000
    → w.faults ≡ []
    → until_of (failure_key ip) w.bans ≡ some (format_nano end)
    → (t : ℕ) → (banned_until ip t w).0 ≡ (if ltb t end then some end else none)
unfolding banned_until get_ban fault
banned_until-end ip end w early f h t =
    elim (Option-cases (find? (λ b. text_eq b.id (failure_key ip)) w.bans)) [
      | inl absent ↦ absurd (ground (arith, h, absent))
      | inr (b, found) ↦ ground (arith, f, h, found, parse-format_nano end early)
    ]

-- What the check for a standing ban leaves.
banned_until-quiet :
    (ip : Text) (now : ℕ) (w : World)
    → w.faults ≡ []
    → ((banned_until ip now w).1.failures ≡ w.failures) × ((banned_until ip now w).1.faults ≡ [])
unfolding banned_until get_ban delete_ban fault
banned_until-quiet ip now w f = ground (arith, f)

module _ (ip : Text) (now jitter : ℕ) where
  abbrev pub stale : FailureRow → Bool
  stale e =
      has_prefix download_failure_prefix e.ip
      && not (text_lt (format_fixed (now - minute)) e.happened_at)

  -- The sweep of old failures takes none that counts.
  abbrev pub swept : World → World
  swept w = record w {
    failures =
        discard stale
          (w.failures ++ (record { ip = failure_key ip; happened_at = format_fixed now }) ∷ []);
  }

  swept-counts :
      (w : World) → length (keep (counts ip now) (swept w).failures) ≡ attempts_with ip now w
  swept-counts w = ap length (
      keep-discard (counts ip now) stale (λ e h. ground (arith, h))
        (w.failures ++ (record { ip = failure_key ip; happened_at = format_fixed now }) ∷ []))

  -- The two ways that the count goes.
  pub count_failure-steps :
      (w : World)
      → w.faults ≡ []
      → (attempts_with ip now w ≤ 10 → count_failure ip now jitter w ≡ (allowed, swept w))
        × (10 < attempts_with ip now w
            → count_failure ip now jitter w ≡ set_ban (failure_key ip) now jitter (swept w))
  unfolding count_failure create_failure delete_failures count_failures fault
  count_failure-steps w f = (
    λ few. ground (arith, f, few, swept-counts w),
    λ many. ground (arith, f, many, swept-counts w),
  )

  record_failure-count :
      (w : World)
      → (banned_until ip now w).0 ≡ none
      → record_failure ip now jitter w ≡ count_failure ip now jitter (banned_until ip now w).1
  unfolding record_failure
  record_failure-count w h = ground (arith, h)

  -- Without database errors, a wrong download password of an address without a ban is recorded; up to
  -- the tenth that counts nothing is banned, and from the eleventh on the address is banned until
  -- exactly the end that is returned, which lies before the year 10000.
  pub record_failure-bans :
      (w : World)
      → w.faults ≡ []
      → new_until now jitter < year_10000
      → (banned_until ip now w).0 ≡ none
      → let r = record_failure ip now jitter w in
        (attempts_with ip now w ≤ 10
          → (r.0 ≡ allowed) × (r.1.bans ≡ (banned_until ip now w).1.bans))
        × (10 < attempts_with ip now w
            → (r.0 ≡ banned (new_until now jitter))
              × ((t : ℕ)
                  → (banned_until ip t r.1).0
                    ≡ (if ltb t (new_until now jitter) then some (new_until now jitter) else none)))
  record_failure-bans w f early free =
      let w1 = (banned_until ip now w).1 in
      let q = banned_until-quiet ip now w f in
      let s = count_failure-steps w1 q.1 in
      let c = record_failure-count w free in
      let b = set_ban-until (failure_key ip) now jitter (swept w1) q.1 in
      let event : FailureRow = record { ip = failure_key ip; happened_at = format_fixed now } in
      let same : attempts_with ip now w1 ≡ attempts_with ip now w =
        ap (λ l. length (keep (counts ip now) (l ++ event ∷ []))) q.0 in
      (
        λ few.
            let e = c ∙ s.0 (omega (arith, few, same)) in (ap (λ x. x.0) e, ap (λ x. x.1.bans) e),
        λ many.
            let e = c ∙ s.1 (omega (arith, many, same)) in
            (
              ap (λ x. x.0) e ∙ b.0,
              λ t.
                  ap (λ x. (banned_until ip t x.1).0) e
                  ∙ banned_until-end ip (new_until now jitter)
                      (set_ban (failure_key ip) now jitter (swept w1)).1 early b.2 b.1 t,
            ),
      )
