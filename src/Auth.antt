-- ===== src/Auth.antt =====
-- internal/auth/auth.go: password hashes, and the admin login with its failure count and bans.
-- bcrypt and Unicode normalisation come from golang.org/x, and SHA-256 and HMAC are not computed
-- here: they are the fields of `Crypto`.
pub mod Hashes
pub mod Login
pub mod Bans
use shareserver.Base.{
  ℕ, zero, suc, ◌+◌, ◌-◌, ◌*◌, ◌≡◌, ◌≢◌, Bool, true, false, ◌&&◌, ◌||◌, not, Option, none, some,
  List, [], ◌∷◌, ◌++◌, Text, codes, text_eq, text_lt, ltb, leb, ◌==◌, if◌then◌else◌, length,
}
use shareserver.Time.{format_nano, parse, minute, hour}
use shareserver.Codec.{encode64, decode64}
use shareserver.World.{
  World, AdminRow, BanRow, FailureRow, Result, ok, err, not_found, not_singular, constraint, io, M,
  pure, ◌>>=◌, ◌>>◌,
}
use shareserver.World.Db.{
  get_ban, only_admin, count_admins, update_admin, create_admin, create_failure, count_failures,
  create_ban, update_ban, delete_failures,
}
use shareserver.Storage.{hex}

pub record Crypto : Type 0 where
  -- the verifier of a digest, for a salt
  pub bcrypt_generate : Text → Text → Option Text
  pub bcrypt_compare : Text → Text → Bool
  pub sha256 : Text → Text
  pub hmac_sha256 : Text → Text → Text
  pub nfc : Text → Text

-- What bcrypt documents: the digest passes against its own verifier, which is not empty.
pub record IsSound (c : Crypto) : Type 0 where
  pub accepts :
      (salt digest verifier : Text)
      → c.bcrypt_generate salt digest ≡ some verifier
      → c.bcrypt_compare verifier digest ≡ true
  pub nonempty : (salt digest : Text) → c.bcrypt_generate salt digest ≢ some []

-- The digest, if the encoding is canonical.
abbrev canonical : Text → Option Text → Option Text
canonical password_hash none = none
canonical password_hash (some digest) =
    if length digest == 32 && text_eq (encode64 digest) password_hash then some digest else none

unfoldable pub decode_password_hash : Text → Option Text
decode_password_hash password_hash = canonical password_hash (decode64 password_hash)

abbrev is_some : Option Text → Bool
is_some none = false
is_some (some _) = true

unfoldable pub valid_password_hash : Text → Bool
valid_password_hash password_hash = is_some (decode_password_hash password_hash)

unfoldable pub hash_password_hash : Crypto → Text → Text → Option Text
hash_password_hash c salt password_hash = elim (decode_password_hash password_hash) [
  | none ↦ none
  | some digest ↦ c.bcrypt_generate salt digest
]

unfoldable pub check_password_hash : Crypto → Text → Text → Bool
check_password_hash c verifier password_hash = elim (decode_password_hash password_hash) [
  | none ↦ false
  | some digest ↦ c.bcrypt_compare verifier digest
]

unfoldable pub hmac_key : Crypto → Text → Text → Text
hmac_key c secret key = hex (c.hmac_sha256 secret key)

pub data AdminLoginStatus : Type 0 where
  success failed banned : AdminLoginStatus

-- A `banned_until` of 0 is the zero time.
pub record AdminLoginResult : Type 0 where
  pub status : AdminLoginStatus
  pub admin_id : ℕ
  pub banned_until : ℕ

abbrev still_banned : ℕ → Option ℕ → Bool
still_banned now none = true
still_banned now (some t) = ltb now t

-- `isBanned` on what the query gave: an unreadable ban counts as one.
abbrev ban_stands : ℕ → Result BanRow → Bool
ban_stands now (ok row) = still_banned now (parse row.banned_until)
ban_stands now (err not_found) = false
ban_stands now (err _) = true

unfoldable pub is_banned : Text → ℕ → M Bool
is_banned ip now = do r ← get_ban ip; pure (ban_stands now r)

abbrev count_or_zero : Result ℕ → ℕ
count_or_zero (ok n) = n
count_or_zero (err _) = 0

abbrev write_ban : Text → Text → Result BanRow → M (Result (Unit {0}))
write_ban ip until (ok _) = update_ban ip until
write_ban ip until (err _) = create_ban (record { id = ip; banned_until = until })

-- `jitter` is the random number of minutes below 61.
unfoldable pub record_login_failure : Text → ℕ → ℕ → M (Bool × ℕ)
record_login_failure ip now jitter = do
  create_failure (record { ip = ip; happened_at = format_nano now })
  let cut = format_nano (now - minute)
  r ← count_failures (λ e. text_eq e.ip ip && not (text_lt e.happened_at cut))
  let until = now + (6 * hour + jitter * minute)
  elim (leb 5 (count_or_zero r)) [
    | false ↦ pure (false, 0)
    | true ↦ do old ← get_ban ip; write_ban ip (format_nano until) old; pure (true, until)
  ]

unfoldable pub reset_failures : Text → M (Unit {0})
reset_failures ip = do delete_failures (λ e. text_eq e.ip ip); pure tt

abbrev checked : Crypto → Text → Result AdminRow → Option AdminRow
checked c password_hash (ok row) =
    if check_password_hash c row.password_hash password_hash then some row else none
checked c password_hash (err _) = none

unfoldable pub admin_login : Crypto → Text → Text → Text → ℕ → ℕ → M AdminLoginResult
admin_login c ip username password_hash now jitter = do
  is_out ← is_banned ip now
  elim is_out [
    | true ↦ pure (record { status = banned; admin_id = 0; banned_until = 0 })
    | false ↦ do
      row ← only_admin username
      elim (checked c password_hash row) [
        | none ↦ do
          r ← record_login_failure ip now jitter
          pure (record { status = failed; admin_id = 0; banned_until = r.1 })
        | some admin ↦ do
          reset_failures ip
          pure (record { status = success; admin_id = admin.id; banned_until = 0 })
      ]
  ]

unfoldable pub admin_password_hash : Crypto → Text → Text
admin_password_hash c password =
    encode64 (c.sha256 (codes "shareserver-admin-password" ++ 0 ∷ c.nfc password))

abbrev hashed : Option Text → (Text → M (Result (Unit {0}))) → M (Result (Unit {0}))
hashed none k = pure (err io)
hashed (some h) k = k h

-- The branch of `EnsureAdmin` where the account exists.
abbrev sync_admin : Crypto → Text → Text → Bool → AdminRow → M (Result (Unit {0}))
sync_admin c salt password sync a =
    let password_hash = admin_password_hash c password in
    if check_password_hash c a.password_hash password_hash
    then pure (ok tt)
    else if not sync && not (c.bcrypt_compare a.password_hash password)
    then pure (ok tt)
    else hashed (hash_password_hash c salt password_hash) (update_admin a.id)

-- Where it does not; `id` is the next row number.
abbrev new_admin : Crypto → Text → Text → Text → Bool → Text → ℕ → M (Result (Unit {0}))
new_admin c salt user password sync created id = do
  n ← count_admins
  elim (ltb 0 (count_or_zero n) && not sync) [
    | true ↦ pure (ok tt)
    | false ↦ hashed (hash_password_hash c salt (admin_password_hash c password)) λ h.
        create_admin (record { id = id; username = user; password_hash = h; created_at = created })
  ]

unfoldable pub ensure_admin : Crypto → Text → Text → Text → Bool → Text → ℕ → M (Result (Unit {0}))
ensure_admin c salt user password sync created id = do
  r ← only_admin user
  elim r [
    | ok a ↦ sync_admin c salt password sync a
    | err e ↦ elim e [
      | not_found ↦ new_admin c salt user password sync created id
      | other ↦ pure (err other)
    ]
  ]
