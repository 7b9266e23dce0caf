-- ===== src/Auth/Bans.antt =====
-- internal/auth/auth.go: the ban that repeated failures of the admin login bring.
use shareserver.Base.{
  ℕ, ◌+◌, ◌-◌, ◌*◌, ◌<◌, ◌≤◌, ◌≡◌, ap, ◌∙◌, Bool, true, false, ◌&&◌, not, some, [], ◌∷◌, ◌++◌, Text,
  text_eq, text_lt, arith, ltb, keep, find?, length, Option-cases, inl, inr,
}
use shareserver.Time.{format_nano, minute, hour}
use shareserver.Time.RoundTrip.{year_10000, parse-format_nano}
use shareserver.World.{World, FailureRow, fault, M, Result}
use shareserver.World.Db.{get_ban, create_failure, count_failures}
use shareserver.World.BanTable.{until_of, update_ban-until, create_ban-until}
use shareserver.Auth.{record_login_failure, is_banned, write_ban}

-- The failures that count at `now`: those whose stamp is, as a text, not before the stamp of a
-- minute earlier. The order of the texts is not that of the instants within a second.
abbrev pub recent : Text → ℕ → FailureRow → Bool
recent ip now e = text_eq e.ip ip && not (text_lt e.happened_at (format_nano (now - minute)))

-- Those with the one that is recorded now.
abbrev pub failures_with : Text → ℕ → World → ℕ
failures_with ip now w =
    length (
      keep (recent ip now) (w.failures ++ (record { ip = ip; happened_at = format_nano now }) ∷ []))

abbrev pub ban_end : ℕ → ℕ → ℕ
ban_end now jitter = now + (6 * hour + jitter * minute)

-- The ban that is read and written.
abbrev rewrite_ban : Text → Text → M (Result (Unit {0}))
rewrite_ban ip until w = let r = get_ban ip w in write_ban ip until r.0 r.1

rewrite_ban-until :
    (ip until : Text) (w : World)
    → w.faults ≡ []
    → (until_of ip (rewrite_ban ip until w).1.bans ≡ some until)
      × ((rewrite_ban ip until w).1.faults ≡ [])
unfolding get_ban fault
rewrite_ban-until ip until w f = elim (Option-cases (find? (λ b. text_eq b.id ip) w.bans)) [
  | inl fresh ↦ ground (arith, f, fresh, create_ban-until ip until w f fresh)
  | inr (old, stands) ↦ ground (arith, f, stands, update_ban-until ip until w old f stands)
]

is_banned-until :
    (ip : Text) (end : ℕ) (w : World)
    → end < year_10000
    → w.faults ≡ []
    → until_of ip w.bans ≡ some (format_nano end)
    → (t : ℕ) → (is_banned ip t w).0 ≡ ltb t end
unfolding is_banned get_ban fault
is_banned-until ip end w early f h t = elim (Option-cases (find? (λ b. text_eq b.id ip) w.bans)) [
  | inl absent ↦ absurd (ground (arith, h, absent))
  | inr (b, found) ↦ ground (arith, f, h, found, parse-format_nano end early)
]

abbrev with_failure : Text → ℕ → World → World
with_failure ip now w = record w {
  failures = w.failures ++ (record { ip = ip; happened_at = format_nano now }) ∷ [];
}

-- The two ways that the count goes.
record_login_failure-steps :
    (ip : Text) (now jitter : ℕ) (w : World)
    → w.faults ≡ []
    → (failures_with ip now w < 5
        → record_login_failure ip now jitter w ≡ ((false, 0), with_failure ip now w))
      × (5 ≤ failures_with ip now w
          → record_login_failure ip now jitter w ≡ (
            (true, ban_end now jitter),
            (rewrite_ban ip (format_nano (ban_end now jitter)) (with_failure ip now w)).1,
          ))
unfolding record_login_failure create_failure count_failures fault
record_login_failure-steps ip now jitter w f =
    (λ few. ground (arith, f, few), λ many. ground (arith, f, many))

-- Without database errors, a failed admin login is recorded; where fewer than five failures of its
-- address have a stamp that is, as a text, not before the stamp of a minute ago, nothing is
-- banned, and from the fifth on the address is banned at exactly the instants before the end that
-- is returned, six hours and the jitter from now, if that is before the year 10000.
pub record_login_failure-bans :
    (ip : Text) (now jitter : ℕ) (w : World)
    → w.faults ≡ []
    → ban_end now jitter < year_10000
    → let r = record_login_failure ip now jitter w in
      (failures_with ip now w < 5 → (r.0 ≡ (false, 0)) × (r.1.bans ≡ w.bans))
      × (5 ≤ failures_with ip now w
          → (r.0 ≡ (true, ban_end now jitter))
            × ((t : ℕ) → (is_banned ip t r.1).0 ≡ ltb t (ban_end now jitter)))
record_login_failure-bans ip now jitter w f early =
    let s = record_login_failure-steps ip now jitter w f in
    let b = rewrite_ban-until ip (format_nano (ban_end now jitter)) (with_failure ip now w) f in
    (
      λ few. (ap (λ x. x.0) (s.0 few), ap (λ x. x.1.bans) (s.0 few)),
      λ many. (
        ap (λ x. x.0) (s.1 many),
        λ t.
            ap (λ x. (is_banned ip t x.1).0) (s.1 many)
            ∙ is_banned-until ip (ban_end now jitter)
                (rewrite_ban ip (format_nano (ban_end now jitter)) (with_failure ip now w)).1 early
                b.1 b.0 t,
      ),
    )
