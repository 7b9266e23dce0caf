-- ===== src/Http/Download.antt =====
-- internal/http/download.go: the guard against guessed download passwords, per client address.
use shareserver.Base.{
  ℕ, ◌+◌, ◌-◌, ◌*◌, ◌/◌, Bool, true, false, ◌&&◌, not, Option, none, some, ◌++◌, Text, codes,
  text_eq, text_lt, has_prefix, ltb, leb, if◌then◌else◌,
}
use Prim.Native.Nat.{max}
use shareserver.Time.{format_nano, format_fixed, parse, second, minute, hour}
use shareserver.Codec.{decimal}
use shareserver.World.{BanRow, Result, ok, err, not_found, M, pure, ◌>>=◌, ◌>>◌}
use shareserver.World.Db.{
  get_ban, create_ban, update_ban, delete_ban, create_failure, delete_failures, count_failures,
}

abbrev pub download_failure_prefix : Text
download_failure_prefix = codes "download:"

abbrev pub download_failure_limit : ℕ
download_failure_limit = 10

abbrev pub download_ban_base : ℕ
download_ban_base = 24 * hour

abbrev pub failure_key : Text → Text
failure_key ip = download_failure_prefix ++ ip

abbrev pub read_until : ℕ → Option ℕ → ℕ
read_until now none = now + download_ban_base
read_until now (some t) = t

-- The end of a ban that stands at `now`, on what the query gave; none is no ban.
abbrev pub seen_until : ℕ → Result BanRow → Option ℕ
seen_until now (err not_found) = none
seen_until now (err _) = some (now + download_ban_base)
seen_until now (ok ban) =
    if ltb now (read_until now (parse ban.banned_until))
    then some (read_until now (parse ban.banned_until))
    else none

abbrev drop_expired : Result BanRow → M (Option ℕ)
drop_expired (err _) = pure none
drop_expired (ok ban) = do delete_ban ban.id; pure none

unfoldable pub banned_until : Text → ℕ → M (Option ℕ)
banned_until ip now = do
  r ← get_ban (failure_key ip)
  elim (seen_until now r) [ some t ↦ pure (some t) | none ↦ drop_expired r ]

-- No ban, a ban until an instant, or a database error.
pub data Recorded : Type 0 where
  allowed : Recorded
  banned : ℕ → Recorded
  broken : Recorded

abbrev is_ok : Result (Unit {0}) → Bool
is_ok (ok _) = true
is_ok (err _) = false

abbrev pub write_ban : Text → Text → Result BanRow → M (Result (Unit {0}))
write_ban key until (ok _) = update_ban key until
write_ban key until (err not_found) = create_ban (record { id = key; banned_until = until })
write_ban key until (err e) = pure (err e)

-- The ban's end, from the random number of seconds below 21601.
abbrev pub new_until : ℕ → ℕ → ℕ
new_until now jitter = now + (download_ban_base - 3600 * second + jitter * second)

abbrev pub set_ban : Text → ℕ → ℕ → M Recorded
set_ban key now jitter = do
  old ← get_ban key
  r ← write_ban key (format_nano (new_until now jitter)) old
  pure (if is_ok r then banned (new_until now jitter) else broken)

abbrev pub judge : Text → ℕ → ℕ → Result ℕ → M Recorded
judge key now jitter (err _) = pure broken
judge key now jitter (ok n) = elim (leb n download_failure_limit) [
  | true ↦ pure allowed
  | false ↦ set_ban key now jitter
]

-- After the ban is found absent: the event, the sweep of old ones, the count.
unfoldable pub count_failure : Text → ℕ → ℕ → M Recorded
count_failure ip now jitter =
    let cutoff = format_fixed (now - minute) in
    do
      made ← create_failure (record { ip = failure_key ip; happened_at = format_fixed now })
      elim made [
        | err _ ↦ pure broken
        | ok _ ↦ do
          swept ←
              delete_failures
                λ e. has_prefix download_failure_prefix e.ip && not (text_lt cutoff e.happened_at)
          elim swept [
            | err _ ↦ pure broken
            | ok _ ↦ do
              n ← count_failures λ e. text_eq e.ip (failure_key ip) && text_lt cutoff e.happened_at
              judge (failure_key ip) now jitter n
          ]
      ]

-- Under the guard's mutex.
unfoldable pub record_failure : Text → ℕ → ℕ → M Recorded
record_failure ip now jitter = do
  b ← banned_until ip now
  elim b [ some t ↦ pure (banned t) | none ↦ count_failure ip now jitter ]

abbrev pub wait_seconds : ℕ → ℕ → ℕ
wait_seconds until now = max 1 ((until - now + second - 1) / second)

unfoldable pub retry_after_seconds : ℕ → ℕ → Text
retry_after_seconds until now = decimal (wait_seconds until now)
