-- ===== src/Witnesses/Lifetimes.antt =====
-- The theorems on sessions and bans in time, at concrete inputs.
use shareserver.Base.{
  ℕ, ◌-◌, ◌*◌, List, All, ◌+◌, ◌≤◌, ◌<◌, ◌≡◌, refl, true, false, some, none, [], ◌∷◌, ltb, arith,
  codes, text_eq, if◌then◌else◌,
}
use shareserver.Base.Int.{pos}
use shareserver.World.{World, FailureRow, fault}
use shareserver.World.Db.{get_ban}
use shareserver.Time.{format_nano, format_fixed, minute, second}
use shareserver.Auth.{record_login_failure, is_banned}
use shareserver.Auth.Bans.{failures_with, ban_end, record_login_failure-bans}
use shareserver.Http.Sessions.{Tokens, rotate, get, session_duration}
use shareserver.Http.SessionLife.{rotate-get}
use shareserver.Http.Download.{
  record_failure, banned_until, allowed, banned, new_until, failure_key,
}
use shareserver.Http.Banned.{attempts_with, record_failure-bans}
use shareserver.Http.Guessing.{guess, guess-banned}
use shareserver.Fixtures as Fix

abbrev tokens : Tokens
tokens = record { sid = codes "bound"; csrf = codes "bound-token" }

abbrev after_login : World
after_login = (rotate tokens (codes "old") Fix.now (pos 7) Fix.world).1

rotate-get_example : (get (codes "bound") (Fix.now + minute) after_login).0 ≡ (
    if ltb (Fix.now + minute) (Fix.now + session_duration)
    then some (rotate tokens (codes "old") Fix.now (pos 7) Fix.world).0
    else none)
unfolding text_eq
rotate-get_example =
    rotate-get tokens (codes "old") Fix.now (pos 7) Fix.world refl (λ e. absurd (ground arith)) refl
      (omega arith) (Fix.now + minute)

-- Four failed logins within the minute.
abbrev failed_login : FailureRow
failed_login = record { ip = codes "10.0.0.2"; happened_at = format_nano Fix.now }

abbrev guessed : World
guessed = record Fix.world {
  failures = failed_login ∷ failed_login ∷ failed_login ∷ failed_login ∷ [];
}

record_login_failure-bans_example :
    let r = record_login_failure (codes "10.0.0.2") Fix.now 30 guessed in
    (failures_with (codes "10.0.0.2") Fix.now guessed < 5
      → (r.0 ≡ (false, 0)) × (r.1.bans ≡ guessed.bans))
    × (5 ≤ failures_with (codes "10.0.0.2") Fix.now guessed
        → (r.0 ≡ (true, ban_end Fix.now 30))
          × ((t : ℕ) → (is_banned (codes "10.0.0.2") t r.1).0 ≡ ltb t (ban_end Fix.now 30)))
record_login_failure-bans_example =
    record_login_failure-bans (codes "10.0.0.2") Fix.now 30 guessed refl (omega arith)

-- Ten wrong download passwords within the minute.
abbrev wrong_password : FailureRow
wrong_password = record { ip = failure_key (codes "10.0.0.2"); happened_at = format_fixed Fix.now }

abbrev probed : World
probed = record Fix.world {
  failures =
      wrong_password ∷ wrong_password ∷ wrong_password ∷ wrong_password ∷ wrong_password
      ∷ wrong_password ∷ wrong_password ∷ wrong_password ∷ wrong_password ∷ wrong_password ∷ [];
}

record_failure-bans_example :
    let r = record_failure (codes "10.0.0.2") Fix.now 60 probed in
    (attempts_with (codes "10.0.0.2") Fix.now probed ≤ 10
      → (r.0 ≡ allowed) × (r.1.bans ≡ (banned_until (codes "10.0.0.2") Fix.now probed).1.bans))
    × (10 < attempts_with (codes "10.0.0.2") Fix.now probed
        → (r.0 ≡ banned (new_until Fix.now 60))
          × ((t : ℕ)
              → (banned_until (codes "10.0.0.2") t r.1).0
                ≡ (if ltb t (new_until Fix.now 60) then some (new_until Fix.now 60) else none)))
unfolding banned_until get_ban fault text_eq
record_failure-bans_example =
    record_failure-bans (codes "10.0.0.2") Fix.now 60 probed refl (omega arith) refl

-- Eleven guesses, one every second.
abbrev instants : List ℕ
instants =
    (Fix.now - 10 * second)
    ∷ (Fix.now - 9 * second)
    ∷ (Fix.now - 8 * second)
    ∷ (Fix.now - 7 * second)
    ∷ (Fix.now - 6 * second)
    ∷ (Fix.now - 5 * second)
    ∷ (Fix.now - 4 * second)
    ∷ (Fix.now - 3 * second)
    ∷ (Fix.now - 2 * second)
    ∷ (Fix.now - 1 * second)
    ∷ Fix.now
    ∷ []

abbrev InMinute : ℕ → Type 0
InMinute t = (t ≤ Fix.now) × (Fix.now < t + minute)

instants-near : All InMinute instants
instants-near = (
  (omega arith, omega arith),
  (
    (omega arith, omega arith),
    (
      (omega arith, omega arith),
      (
        (omega arith, omega arith),
        (
          (omega arith, omega arith),
          (
            (omega arith, omega arith),
            (
              (omega arith, omega arith),
              (
                (omega arith, omega arith),
                (
                  (omega arith, omega arith),
                  ((omega arith, omega arith), ((omega arith, omega arith), tt)),
                ),
              ),
            ),
          ),
        ),
      ),
    ),
  ),
)

guess-banned_example :
    (end : ℕ) × ((banned_until
        (codes "10.0.0.2")
        Fix.now
        (guess (codes "10.0.0.2") 60 instants Fix.world)).0
      ≡ some end)
    × (Fix.now < end)
guess-banned_example =
    guess-banned (codes "10.0.0.2") Fix.now (omega arith) (omega arith) instants 60 Fix.world refl
      refl (omega arith) instants-near (omega arith)
