-- ===== src/Ent/Keyed.antt =====
-- internal/ent/*/*.go: the columns of a table have different numbers.
use shareserver.Base.{Option, none, some, find?, ◌≡◌, refl, ap, sym, ◌∙◌, ◌==◌, ==_iff}
use shareserver.Ent.{Schema}
use shareserver.Ent.Checks.{IsKeyed}
use shareserver.Ent.Shares
use shareserver.Ent.Admins
use shareserver.Ent.AuditEvents
use shareserver.Ent.IpBans
use shareserver.Ent.LoginFailureEvents
use shareserver.Ent.Sessions

module _ {C : Type 0} (s : Schema C) where
  abbrev the : C → Option C → C
  the d none = d
  the d (some c) = c

  -- Where every column is the first of its number.
  found-IsKeyed : ((c : C) → find? (λ x. s.index x == s.index c) s.columns ≡ some c) → IsKeyed s
  found-IsKeyed found c d is_same =
      let e =
        ap (λ n. find? (λ x. s.index x == n) s.columns)
          ((==_iff (s.index c) (s.index d)).0 is_same) in
      ap (the c) (sym (found c) ∙ e ∙ found d)

share_found :
    (c : Shares.ShareColumn)
    → find? (λ x. Shares.column_index x == Shares.column_index c) Shares.columns ≡ some c
share_found Shares.field_id = refl
share_found Shares.field_title = refl
share_found Shares.field_visibility = refl
share_found Shares.field_private_key_hash = refl
share_found Shares.field_download_password_hash = refl
share_found Shares.field_encrypted = refl
share_found Shares.field_cipher_meta = refl
share_found Shares.field_zip_manifest = refl
share_found Shares.field_security_warning = refl
share_found Shares.field_admin_message = refl
share_found Shares.field_size = refl
share_found Shares.field_blob_path = refl
share_found Shares.field_blob_sha256 = refl
share_found Shares.field_uploader_ip = refl
share_found Shares.field_expires_at = refl
share_found Shares.field_created_at = refl
share_found Shares.field_purged_at = refl

admin_found :
    (c : Admins.AdminColumn)
    → find? (λ x. Admins.column_index x == Admins.column_index c) Admins.columns ≡ some c
admin_found Admins.field_id = refl
admin_found Admins.field_username = refl
admin_found Admins.field_password_hash = refl
admin_found Admins.field_created_at = refl

audit_event_found :
    (c : AuditEvents.AuditEventColumn)
    → find? (λ x. AuditEvents.column_index x == AuditEvents.column_index c) AuditEvents.columns
      ≡ some c
audit_event_found AuditEvents.field_id = refl
audit_event_found AuditEvents.field_actor = refl
audit_event_found AuditEvents.field_ip = refl
audit_event_found AuditEvents.field_action = refl
audit_event_found AuditEvents.field_target = refl
audit_event_found AuditEvents.field_meta = refl
audit_event_found AuditEvents.field_created_at = refl

ip_ban_found :
    (c : IpBans.IpBanColumn)
    → find? (λ x. IpBans.column_index x == IpBans.column_index c) IpBans.columns ≡ some c
ip_ban_found IpBans.field_ip = refl
ip_ban_found IpBans.field_banned_until = refl

login_failure_found :
    (c : LoginFailureEvents.LoginFailureEventColumn)
    → find?
        (λ x. LoginFailureEvents.column_index x == LoginFailureEvents.column_index c)
        LoginFailureEvents.columns
      ≡ some c
login_failure_found LoginFailureEvents.field_id = refl
login_failure_found LoginFailureEvents.field_ip = refl
login_failure_found LoginFailureEvents.field_happened_at = refl

session_found :
    (c : Sessions.SessionColumn)
    → find? (λ x. Sessions.column_index x == Sessions.column_index c) Sessions.columns ≡ some c
session_found Sessions.field_id = refl
session_found Sessions.field_admin_id = refl
session_found Sessions.field_csrf = refl
session_found Sessions.field_language = refl
session_found Sessions.field_created_at = refl
session_found Sessions.field_expires_at = refl

-- Every table's columns are told apart by their numbers.
abbrev pub AreKeyed : Type 0
AreKeyed =
    IsKeyed Shares.schema
    × IsKeyed Admins.schema
    × IsKeyed AuditEvents.schema
    × IsKeyed IpBans.schema
    × IsKeyed LoginFailureEvents.schema
    × IsKeyed Sessions.schema

pub are_keyed : AreKeyed
are_keyed = (
  found-IsKeyed Shares.schema share_found,
  found-IsKeyed Admins.schema admin_found,
  found-IsKeyed AuditEvents.schema audit_event_found,
  found-IsKeyed IpBans.schema ip_ban_found,
  found-IsKeyed LoginFailureEvents.schema login_failure_found,
  found-IsKeyed Sessions.schema session_found,
)
