-- ===== src/Share.antt =====
-- internal/share/model.go: the Share as the handlers see it, and the rule by which a Share is
-- active, expired or purged at one instant.
pub mod Store
pub mod Rules
pub mod Listing
pub mod Rows
use shareserver.Base.{
  ℕ, ℤ, Bool, true, false, ◌&&◌, ◌||◌, not, Option, none, some, Text, is_empty, ltb, if◌then◌else◌,
}
use shareserver.Time.{format_nano, parse}

-- `sql.NullString`
pub record NullString : Type 0 where
  pub valid : Bool
  pub string : Text

pub record Share : Type 0 where
  pub id : Text
  pub title : Text
  pub visibility : Text
  pub private_key_hash : Text
  pub download_password_hash : Text
  pub encrypted : Bool
  pub cipher_meta : Text
  pub zip_manifest : Text
  pub security_warning : Bool
  pub admin_message : Text
  pub size : ℤ
  pub blob_path : Text
  pub blob_sha256 : Text
  pub uploader_ip : Text
  pub expires_at : NullString
  pub created_at : Text
  pub purged_at : NullString

-- `StatusActive`, `StatusExpired` and `StatusPurged`
pub data Status : Type 0 where
  active expired purged : Status

pub record ActiveRule : Type 0 where
  pub now : ℕ
  pub encoded_now : Text

unfoldable pub active_at : ℕ → ActiveRule
active_at now = record { now = now; encoded_now = format_nano now }

-- `t, err := Parse(s); err == nil && !t.After(now)`
abbrev pub is_past : ℕ → Option ℕ → Bool
is_past now none = false
is_past now (some t) = not (ltb now t)

unfoldable pub is_expired : ActiveRule → NullString → Bool
is_expired r exp =
    if not exp.valid || is_empty exp.string then false else is_past r.now (parse exp.string)

unfoldable pub is_active : ActiveRule → Share → Bool
is_active r s = not s.purged_at.valid && not (is_expired r s.expires_at)

unfoldable pub status : ActiveRule → Share → Status
status r s =
    if s.purged_at.valid then purged else if is_expired r s.expires_at then expired else active

unfoldable pub is_purgeable : ActiveRule → NullString → Bool
is_purgeable r exp = is_expired r exp
